-- ===== src/Pulse/Toggle/Shape.antt =====
-- The circuits that src/rtl_buddy_cdc/pulse.py takes for a toggle.
use mathlib.Core.Path.{subst}
use mathlib.Core.Option.{some-injective}
use rtl_buddy_cdc.Base.{
  String, true, ◌&&◌, ◌||◌, Option, none, some, List, [], ◌∷◌, ◌==◌, ◌≡◌, ◌↔◌, ◌⊎◌, inl, inr, refl,
  ap, sym, ◌∙◌, string_eq, &&-eq-true, Bool-cases, arith,
}
use rtl_buddy_cdc.Netlist.{Bit, bit_eq, is_net, Cell}
use rtl_buddy_cdc.Netlist.Flops.{pin}
use rtl_buddy_cdc.Pulse.{PulseContext, driving, inverter_input, is_delay, only_bit}
use rtl_buddy_cdc.Pulse.Detector.{Inverter, inverter_input-Inverter}
use rtl_buddy_cdc.Pulse.Toggle.{
  toggle, is_toggle_pair, toggles_between, toggles, classify_toggle_d_pin,
}

module _ (ctx : PulseContext) where
  -- The one bit is the output, and a cell that inverts the output drives the other.
  unfoldable pub IsPair : Bit → Bit → Bit → Type 0
  IsPair q direct inverted = (direct ≡ q) × Inverter ctx (driving ctx inverted) q

  -- A multiplexer with the output and its inverse as its data, in either order, drives the bit.
  unfoldable pub Toggle : Bit → Bit → Type 0
  Toggle d q =
      (is_net d ≡ true)
      × (is_net q ≡ true)
      × ((name : String) × (cell : Cell) × (driving ctx d ≡ some (name, "Y", cell))
          × (cell.type ≡ "$mux")
          × ((a : Bit) × (b : Bit) × (pin cell "A" ≡ a ∷ [])
              × (pin cell "B" ≡ b ∷ [])
              × (is_net a ≡ true)
              × (is_net b ≡ true)
              × (IsPair q a b ⊎ IsPair q b a)))

  Inverter-inverter_input :
      (o : Option (String × String × Cell)) (q : Bit)
      → Inverter ctx o q
      → inverter_input ctx o ≡ some q
  unfolding inverter_input only_bit Inverter
  Inverter-inverter_input o q (name, cell, drives, is_not, reads) = rw (drives, is_not, reads) refl

  is_delay-some : (o : Option Bit) (q : Bit) → (is_delay ctx o q ≡ true) ↔ (o ≡ some q)
  unfolding is_delay
  is_delay-some none q = (λ e. cc, λ e. cc)
  is_delay-some (some d) q =
      (λ e. ap some ((bit_eq.beq_iff d q).0 e), λ e. (bit_eq.beq_iff d q).1 (some-injective d q e))

  is_toggle_pair-IsPair : (q a b : Bit) → (is_toggle_pair ctx q a b ≡ true) ↔ IsPair q a b
  unfolding is_toggle_pair IsPair
  is_toggle_pair-IsPair q a b =
      let input = inverter_input ctx (driving ctx b) in
      let both = &&-eq-true (a == q) (is_delay ctx input q) in
      (
        (λ e.
            let (direct, delay) = both.0 e in
            (
              (bit_eq.beq_iff a q).0 direct,
              inverter_input-Inverter ctx (driving ctx b) q ((is_delay-some input q).0 delay),
            )),
        (λ (same, inverter). both.1 (
          (bit_eq.beq_iff a q).1 same,
          (is_delay-some input q).1 (Inverter-inverter_input (driving ctx b) q inverter),
        )),
      )

  -- What the data inputs are to the output.
  Between : Bit → List Bit → List Bit → Type 0
  Between q ls rs =
      (a : Bit) × (b : Bit) × (ls ≡ a ∷ [])
      × (rs ≡ b ∷ [])
      × (is_net a ≡ true)
      × (is_net b ≡ true)
      × (IsPair q a b ⊎ IsPair q b a)

  toggles_between-Between :
      (q : Bit) (ls rs : List Bit) → toggles_between ctx q ls rs ≡ true → Between q ls rs
  unfolding toggles_between Between
  toggles_between-Between q [] rs e = cc
  toggles_between-Between q (a ∷ c ∷ ls) rs e = cc
  toggles_between-Between q (a ∷ []) [] e = cc
  toggles_between-Between q (a ∷ []) (b ∷ c ∷ rs) e = cc
  toggles_between-Between q (a ∷ []) (b ∷ []) e =
      let (nets, pairs) =
        (&&-eq-true (is_net a && is_net b) (is_toggle_pair ctx q a b || is_toggle_pair ctx q b a)).0
          e in
      let (free_a, free_b) = (&&-eq-true (is_net a) (is_net b)).0 nets in
      (
        a,
        b,
        refl,
        refl,
        free_a,
        free_b,
        elim (Bool-cases (is_toggle_pair ctx q a b)) [
          | inl ab ↦ inl ((is_toggle_pair-IsPair q a b).0 ab)
          | inr other ↦ inr ((is_toggle_pair-IsPair q b a).0 (ground (arith, other, pairs)))
        ],
      )

  Between-toggles_between :
      (q : Bit) (ls rs : List Bit) → Between q ls rs → toggles_between ctx q ls rs ≡ true
  unfolding toggles_between Between
  Between-toggles_between q ls rs (a, b, left_is, right_is, free_a, free_b, inl pair) =
      let ab = (is_toggle_pair-IsPair q a b).1 pair in
      rw (left_is, right_is) (ground (arith, free_a, free_b, ab))
  Between-toggles_between q ls rs (a, b, left_is, right_is, free_a, free_b, inr pair) =
      let ba = (is_toggle_pair-IsPair q b a).1 pair in
      rw (left_is, right_is) (ground (arith, free_a, free_b, ba))

  Driven : Bit → Option (String × String × Cell) → Type 0
  Driven q o =
      (name : String) × (cell : Cell) × (o ≡ some (name, "Y", cell))
      × (cell.type ≡ "$mux")
      × Between q (pin cell "A") (pin cell "B")

  toggles-Driven :
      (q : Bit) (o : Option (String × String × Cell)) → (toggles ctx q o ≡ true) ↔ Driven q o
  unfolding toggles Driven
  toggles-Driven q none = (λ e. cc, λ (name, cell, e, mux, rest). cc)
  toggles-Driven q (some (name, port, cell)) =
      let between = toggles_between ctx q (pin cell "A") (pin cell "B") in
      let all = &&-eq-true (cell.type == "$mux" && port == "Y") between in
      let guards = &&-eq-true (cell.type == "$mux") (port == "Y") in
      (
        (λ e.
            let (tests, inputs) = all.0 e in
            let (mux, at_y) = guards.0 tests in
            (
              name,
              cell,
              ap (λ p. some (name, p, cell)) ((string_eq.beq_iff port "Y").0 at_y),
              (string_eq.beq_iff cell.type "$mux").0 mux,
              toggles_between-Between q (pin cell "A") (pin cell "B") inputs,
            )),
        (λ (name', cell', drives, mux, inputs).
            let same = some-injective (name, port, cell) (name', "Y", cell') drives in
            let cell_is : cell ≡ cell' = ap (λ (t : String × String × Cell). t.2) same in
            let port_is : port ≡ "Y" = ap (λ (t : String × String × Cell). t.1) same in
            all.1 (
              guards.1 (
                (string_eq.beq_iff cell.type "$mux").1 (ap (λ (c : Cell). c.type) cell_is ∙ mux),
                (string_eq.beq_iff port "Y").1 port_is,
              ),
              subst (λ (c : Cell). toggles_between ctx q (pin c "A") (pin c "B") ≡ true)
                  (sym cell_is) (Between-toggles_between q (pin cell' "A") (pin cell' "B") inputs),
            )),
      )

  -- A data pin is classified as a toggle of an output exactly where both are nets, and a
  -- multiplexer drives the pin whose two data inputs, in either order, are the output and a net
  -- that a cell drives which inverts the output.
  pub classify_toggle_d_pin-Toggle :
      (d q : Bit) → (classify_toggle_d_pin ctx d q ≡ toggle) ↔ Toggle d q
  unfolding classify_toggle_d_pin Toggle Driven Between
  classify_toggle_d_pin-Toggle d q =
      let driven = toggles-Driven q (driving ctx d) in
      (
        (λ e. elim (Bool-cases ((is_net d && is_net q) && toggles ctx q (driving ctx d))) [
          | inr other ↦ ground (arith, other, e)
          | inl all ↦
              let (nets, drives) =
                (&&-eq-true (is_net d && is_net q) (toggles ctx q (driving ctx d))).0 all in
              let (free_d, free_q) = (&&-eq-true (is_net d) (is_net q)).0 nets in
              (free_d, free_q, driven.0 drives)
        ]),
        (λ (free_d, free_q, drives).
            let all = driven.1 drives in ground (arith, free_d, free_q, all)),
      )
