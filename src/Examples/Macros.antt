-- ===== src/Examples/Macros.antt =====
-- A synchroniser macro as Yosys writes it, for src/rtl_buddy_cdc/primitives.py.
use rtl_buddy_cdc.Base.{
  ℕ, ◌<◌, true, false, Option, none, some, [], ◌∷◌, ◌≡◌, refl, length, lookup, insert, contains,
  string_eq,
}
use rtl_buddy_cdc.Sdc.Tokenizer.{Text, chars, join}
use rtl_buddy_cdc.Sdc.Names.{is_space}
use rtl_buddy_cdc.Netlist.{Cell}
use rtl_buddy_cdc.Primitives.{normalise_type, parse_param_int, sync_depths}
use rtl_buddy_cdc.Primitives.Bits.{
  vector_text, vector_value, power_of_two, parse_param_int-vector_text,
}
use rtl_buddy_cdc.Primitives.Spelling.{derived, parameters, normalise_type-Spelling}

abbrev no_decimal : Text → Option ℕ
no_decimal text = none

-- Four, in three bits.
parse_param_int-vector_text_example :
    (parse_param_int (λ n. n) no_decimal (join (vector_text (true ∷ false ∷ false ∷ [])))
      ≡ some (vector_value (true ∷ false ∷ false ∷ [])))
    × (vector_value (true ∷ false ∷ false ∷ []) < power_of_two (length (true ∷ false ∷ false ∷ [])))
parse_param_int-vector_text_example =
    parse_param_int-vector_text (λ n. n) no_decimal true false (false ∷ [])

abbrev spelled : Text
spelled = chars "$paramod\\sync\\WIDTH=4"

normalise_type-Spelling_example : normalise_type (join spelled) ≡ join (chars "sync")
normalise_type-Spelling_example =
    normalise_type-Spelling (chars "sync") spelled (refl, (refl, (refl, (refl, tt))))
      (derived [] (chars "\\WIDTH=4") tt (parameters (chars "WIDTH=4")))

-- One depth is overridden, and the other is the default.
abbrev handshake : Cell
handshake = record {
  name = "ack";
  type = "$paramod\\xpm_cdc_handshake\\WIDTH=4";
  connections = [];
  parameters = ("DEST_SYNC_FF", "010") ∷ [];
  attributes = [];
}

depths :
    sync_depths (λ n. n) no_decimal handshake [] ≡ ("DEST_SYNC_FF", 2) ∷ ("SRC_SYNC_FF", 4) ∷ []
unfolding sync_depths lookup insert contains join is_space
depths = refl
