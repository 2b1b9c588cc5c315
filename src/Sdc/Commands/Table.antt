-- ===== src/Sdc/Commands/Table.antt =====
-- `ARG_SPECS` and `_UNSUPPORTED_COMMANDS` of src/rtl_buddy_cdc/sdc.py.
use rtl_buddy_cdc.Base.{String, List, [], ◌∷◌, Dict}
use rtl_buddy_cdc.Sdc.Args.{Arity, one, greedy, ArgSpec}

abbrev pub delay_spec : ArgSpec
delay_spec = record {
  flags =
      ("-clock", one)
      ∷ ("-min", Arity.zero)
      ∷ ("-max", Arity.zero)
      ∷ ("-add_delay", Arity.zero)
      ∷ ("-network_latency_included", Arity.zero)
      ∷ ("-source_latency_included", Arity.zero)
      ∷ ("-clock_fall", Arity.zero)
      ∷ ("-rise", Arity.zero)
      ∷ ("-fall", Arity.zero)
      ∷ ("-reference_pin", one)
      ∷ ("-level_sensitive", one)
      ∷ [];
  repeated = [];
}

abbrev pub create_clock_spec : ArgSpec
create_clock_spec = record {
  flags =
      ("-name", one)
      ∷ ("-period", one)
      ∷ ("-waveform", one)
      ∷ ("-add", Arity.zero)
      ∷ ("-comment", one)
      ∷ [];
  repeated = [];
}

abbrev pub create_generated_clock_spec : ArgSpec
create_generated_clock_spec = record {
  flags =
      ("-name", one)
      ∷ ("-source", one)
      ∷ ("-master_clock", one)
      ∷ ("-divide_by", one)
      ∷ ("-multiply_by", one)
      ∷ ("-edges", one)
      ∷ ("-edge_shift", one)
      ∷ ("-duty_cycle", one)
      ∷ ("-invert", Arity.zero)
      ∷ ("-add", Arity.zero)
      ∷ ("-combinational", Arity.zero)
      ∷ ("-comment", one)
      ∷ [];
  repeated = [];
}

abbrev pub set_clock_groups_spec : ArgSpec
set_clock_groups_spec = record {
  flags =
      ("-asynchronous", Arity.zero)
      ∷ ("-logically_exclusive", Arity.zero)
      ∷ ("-physically_exclusive", Arity.zero)
      ∷ ("-allow_paths", Arity.zero)
      ∷ ("-name", one)
      ∷ ("-comment", one)
      ∷ ("-group", greedy)
      ∷ [];
  repeated = "-group" ∷ [];
}

abbrev pub set_false_path_spec : ArgSpec
set_false_path_spec = record {
  flags =
      ("-from", greedy)
      ∷ ("-to", greedy)
      ∷ ("-rise_from", greedy)
      ∷ ("-fall_from", greedy)
      ∷ ("-rise_to", greedy)
      ∷ ("-fall_to", greedy)
      ∷ ("-through", greedy)
      ∷ ("-rise_through", greedy)
      ∷ ("-fall_through", greedy)
      ∷ ("-comment", one)
      ∷ ("-reset_path", Arity.zero)
      ∷ ("-setup", Arity.zero)
      ∷ ("-hold", Arity.zero)
      ∷ [];
  repeated = [];
}

abbrev pub arg_specs : Dict String ArgSpec
arg_specs =
    ("create_clock", create_clock_spec)
    ∷ ("create_generated_clock", create_generated_clock_spec)
    ∷ ("set_clock_groups", set_clock_groups_spec)
    ∷ ("set_false_path", set_false_path_spec)
    ∷ ("set_input_delay", delay_spec)
    ∷ ("set_output_delay", delay_spec)
    ∷ []

-- The keys: the sentences that belong to them are not modelled.
abbrev pub unsupported_commands : List String
unsupported_commands = "source" ∷ "exec" ∷ "open" ∷ "socket" ∷ "file" ∷ "load" ∷ []
