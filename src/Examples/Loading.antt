-- ===== src/Examples/Loading.antt =====
-- Concrete files for the loader of src/rtl_buddy_cdc/netlist.py, a choice of the reader and the
-- untyped inputs of src/rtl_buddy_cdc/sdc.py.
use rtl_buddy_cdc.Base.{
  String, true, false, none, some, [], ◌∷◌, ◌≡◌, ◌≢◌, ◌⊎◌, inl, inr, refl, Within, lookup,
  string_eq, contains, if◌then◌else◌, Dict, insert, values, keys, length, All,
}
use rtl_buddy_cdc.Netlist.{Module, Port, net}
use rtl_buddy_cdc.Netlist.Load.{
  parse_port, parse_cell, RawModule, load_with_blackboxes, not_one_module,
}
use rtl_buddy_cdc.Netlist.Load.Named.{IsParsed, load_with_blackboxes-IsParsed}
use rtl_buddy_cdc.Netlist.Load.One.{HasKeys, user_modules, load_with_blackboxes-Outcome}
use rtl_buddy_cdc.Sdc.Tokenizer.{Text}
use rtl_buddy_cdc.Sdc.Names.{starts_with}
use rtl_buddy_cdc.Sdc.Backend.{Outcome, requested, resolve_backend, resolve_backend-Outcome}
use rtl_buddy_cdc.Sdc.Spec.{ClockSpec, empty, clock_for_port, unconstrained_sentinel}
use rtl_buddy_cdc.Sdc.Inputs.{
  is_untyped_input, synthesize_unconstrained_inputs, synthesize_unconstrained_inputs-typed,
  synthesize_unconstrained_inputs-exactly,
}
use rtl_buddy_cdc.Examples.Crossing.{crossed, input_port}

abbrev raw_top : RawModule
raw_top = record {
  attributes = none;
  ports = some (("clk", record { direction = some "input"; bits = some (net 2 ∷ []) }) ∷ []);
  cells = some (
      (
        "fifo",
        record {
          type = some "fifo_16";
          connections = some (("wr_clk", net 2 ∷ []) ∷ []);
          parameters = none;
          attributes = none;
        },
      )
      ∷ []);
  netnames = none;
}

abbrev raw_fifo : RawModule
raw_fifo = record {
  attributes = some (("blackbox", "00000001") ∷ []);
  ports = some (("wr_clk", record { direction = some "input"; bits = some (net 2 ∷ []) }) ∷ []);
  cells = none;
  netnames = none;
}

abbrev parsed_port : String → Port
parsed_port name = record { name = name; direction = "input"; bits = net 2 ∷ [] }

abbrev loaded_top : Module
loaded_top = record {
  name = "top";
  ports = ("clk", parsed_port "clk") ∷ [];
  cells =
      (
        "fifo",
        record {
          name = "fifo";
          type = "fifo_16";
          connections = ("wr_clk", net 2 ∷ []) ∷ [];
          parameters = [];
          attributes = [];
        },
      )
      ∷ [];
  netnames = [];
  is_blackbox = false;
  boundary = none;
}

abbrev loaded_fifo : Module
loaded_fifo = record {
  name = "fifo_16";
  ports = ("wr_clk", parsed_port "wr_clk") ∷ [];
  cells = [];
  netnames = [];
  is_blackbox = true;
  boundary = none;
}

loaded :
    load_with_blackboxes (some (("top", raw_top) ∷ ("fifo_16", raw_fifo) ∷ []))
    ≡ inr (loaded_top, ("fifo_16", loaded_fifo) ∷ [])
unfolding load_with_blackboxes lookup insert parse_port starts_with parse_cell
loaded = refl

load_with_blackboxes-IsParsed_example :
    IsParsed "top" false loaded_top
    × All (λ (e : String × Module). IsParsed e.0 true e.1) (("fifo_16", loaded_fifo) ∷ [])
load_with_blackboxes-IsParsed_example =
    load_with_blackboxes-IsParsed (some (("top", raw_top) ∷ ("fifo_16", raw_fifo) ∷ [])) loaded_top
      (("fifo_16", loaded_fifo) ∷ []) loaded

raw_top-HasKeys : HasKeys raw_top
unfolding HasKeys
raw_top-HasKeys = ((((("input", refl), (net 2 ∷ [], refl))), tt), (("fifo_16", refl), tt), tt)

raw_fifo-HasKeys : HasKeys raw_fifo
unfolding HasKeys
raw_fifo-HasKeys = ((((("input", refl), (net 2 ∷ [], refl))), tt), tt, tt)

abbrev two_tops : Dict String RawModule
two_tops = ("top", raw_top) ∷ ("other", raw_top) ∷ ("fifo_16", raw_fifo) ∷ []

load_with_blackboxes-Outcome_example :
    ((found : Module × Dict String Module) × (load_with_blackboxes (some two_tops) ≡ inr found)
      × (user_modules two_tops ≡ found.0.name ∷ []))
    ⊎ ((load_with_blackboxes (some two_tops) ≡ inl (not_one_module (keys two_tops)))
        × (length (user_modules two_tops) ≢ 1))
load_with_blackboxes-Outcome_example =
    load_with_blackboxes-Outcome ("top", raw_top) (("other", raw_top) ∷ ("fifo_16", raw_fifo) ∷ [])
      (raw_top-HasKeys, (raw_top-HasKeys, (raw_fifo-HasKeys, tt)))

abbrev same_case : Text → Text
same_case text = text

resolve_backend-Outcome_example :
    Outcome same_case false
      (requested none (some " tcl"))
      (resolve_backend same_case none (some " tcl") false)
resolve_backend-Outcome_example = resolve_backend-Outcome same_case none (some " tcl") false

abbrev typed_din : ClockSpec String
typed_din = record empty { port_clock = ("din", "ext") ∷ [] }

first_port : Within (input_port "clk_a" (net 2)) (values crossed.ports)
unfolding values
first_port = inl refl

synthesize_unconstrained_inputs-typed_example :
    (clock : String) × (clock_for_port (synthesize_unconstrained_inputs typed_din crossed).0 "clk_a"
      ≡ some clock)
synthesize_unconstrained_inputs-typed_example =
    synthesize_unconstrained_inputs-typed typed_din crossed (input_port "clk_a" (net 2))
      (first_port) refl

synthesize_unconstrained_inputs-exactly_example :
    (contains (synthesize_unconstrained_inputs typed_din crossed).1 "clk_a"
      ≡ is_untyped_input typed_din (values crossed.ports) "clk_a")
    × (clock_for_port (synthesize_unconstrained_inputs typed_din crossed).0 "clk_a" ≡ (
        if is_untyped_input typed_din (values crossed.ports) "clk_a"
        then some unconstrained_sentinel
        else clock_for_port typed_din "clk_a"))
synthesize_unconstrained_inputs-exactly_example =
    synthesize_unconstrained_inputs-exactly typed_din crossed "clk_a"
