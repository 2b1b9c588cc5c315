-- ===== src/Rules/Tags.antt =====
-- The attributes by which a user vouches for a net: `user_sync_flop_names` and its companions in
-- src/rtl_buddy_cdc/rules.py. A set is the list of its members.
use rtl_buddy_cdc.Base.{
  String, Bool, ◌&&◌, List, [], ◌∷◌, ◌++◌, ◌==◌, string_eq, map, if◌then◌else◌, any, contains, Dict,
  keys, values,
}
use rtl_buddy_cdc.Netlist.{Bit, bit_eq, is_net, Port, Netname, Module}
use rtl_buddy_cdc.Netlist.Flops.{Flop, flop_name, find_flops}
use rtl_buddy_cdc.Crossings.Fanout.{nets}

abbrev pub user_sync_attrs : List String
user_sync_attrs = "cdc_sync" ∷ "synchronizer" ∷ "async_reg" ∷ []

abbrev pub user_gray_attrs : List String
user_gray_attrs = "cdc_gray" ∷ "gray_code" ∷ []

abbrev pub user_static_attrs : List String
user_static_attrs = "cdc_static" ∷ "quasi_static" ∷ []

abbrev pub user_handshake_attrs : List String
user_handshake_attrs = "cdc_handshake" ∷ "req_ack_handshake" ∷ []

abbrev pub user_glitchless_clock_mux_attrs : List String
user_glitchless_clock_mux_attrs =
    "glitchless_clock_mux" ∷ "glitchless_mux" ∷ "glitchfree_clock_mux" ∷ []

abbrev pub scan_mode_attrs : List String
scan_mode_attrs = "scan_en" ∷ "scan_mode" ∷ "test_mode" ∷ "dft_scan_en" ∷ []

-- `attrs & names`, as a test.
unfoldable pub shares : List String → List String → Bool
unfolding any
shares attrs names = any names (contains attrs)

-- The nets under the names whose attributes pass the test.
unfoldable pub tagged_bits : (List String → Bool) → List Netname → List Bit
unfolding nets keys
tagged_bits tagged [] = []
tagged_bits tagged (nn ∷ nns) =
    let rest = tagged_bits tagged nns in
    if tagged (keys nn.attributes) then nets nn.bits ++ rest else rest

-- The flops with one of the bits on their output.
unfoldable pub names_with_output : List Bit → List Flop → List String
unfolding any is_net contains
names_with_output bits [] = []
names_with_output bits (f ∷ fs) =
    let rest = names_with_output bits fs in
    if any f.q (λ b. is_net b && contains bits b) then flop_name f ∷ rest else rest

-- With no tagged bit no flop is named, so the early return needs no clause of its own.
unfoldable pub tagged_flop_names : (List String → Bool) → Module → List String
unfolding names_with_output tagged_bits
tagged_flop_names tagged m =
    names_with_output (tagged_bits tagged (values m.netnames)) (find_flops m)

-- `lower` is `str.lower`.
unfoldable pub user_sync_flop_names : (String → String) → Module → List String
unfolding tagged_flop_names shares
user_sync_flop_names lower = tagged_flop_names (λ names. shares user_sync_attrs (map lower names))

unfoldable pub user_gray_flop_names : Module → List String
unfolding tagged_flop_names shares
user_gray_flop_names = tagged_flop_names (shares user_gray_attrs)

unfoldable pub user_static_flop_names : Module → List String
unfolding tagged_flop_names shares
user_static_flop_names = tagged_flop_names (shares user_static_attrs)

unfoldable pub user_handshake_flop_names : Module → List String
unfolding tagged_flop_names shares
user_handshake_flop_names = tagged_flop_names (shares user_handshake_attrs)

unfoldable pub user_glitchless_clock_mux_bits : Module → List Bit
unfolding tagged_bits shares
user_glitchless_clock_mux_bits m =
    tagged_bits (shares user_glitchless_clock_mux_attrs) (values m.netnames)

unfoldable pub input_port_names : List Port → List String
input_port_names [] = []
input_port_names (p ∷ ps) =
    let rest = input_port_names ps in if p.direction == "input" then p.name ∷ rest else rest

unfoldable pub scan_names : (String → String) → List String → Dict String Netname → List String
unfolding shares keys contains
scan_names lower ports [] = []
scan_names lower ports ((name, nn) ∷ nns) =
    let rest = scan_names lower ports nns in
    if contains ports name && shares scan_mode_attrs (map lower (keys nn.attributes))
    then name ∷ rest
    else rest

unfoldable pub scan_mode_port_names : (String → String) → Module → List String
unfolding scan_names input_port_names
scan_mode_port_names lower m = scan_names lower (input_port_names (values m.ports)) m.netnames
