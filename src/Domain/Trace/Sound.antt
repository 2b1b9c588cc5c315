-- ===== src/Domain/Trace/Sound.antt =====
-- What one hop of `_trace` (src/rtl_buddy_cdc/domain.py) goes through.
use rtl_buddy_cdc.Base.{
  three_true, String, Bool, true, false, ◌&&◌, none, List, [], ◌∷◌, ◌==◌, ◌≡◌, ◌⊎◌, inl, inr, refl,
  sym, ap, arith, string_eq, if◌then◌else◌, contains, eq_self, Bool-cases,
}
use rtl_buddy_cdc.Netlist.{Bit, bit_eq, Cell}
use rtl_buddy_cdc.Netlist.Flops.{is_ff_cell, is_latch_cell, pin, flop_clk_pin}
use rtl_buddy_cdc.Domain.Trace.{
  buffer_types, gate_types, mux_types, Onward, ends, follows, combines, selects, legs, with_leg,
  follow_or, through_latch, through_divider, through_cell,
}

-- A bit is the first of those connected to a port.
pub First : Cell → String → Bit → Type 0
First cell port b = (bs : List Bit) × (pin cell port ≡ b ∷ bs)

abbrev pub Among : Bit → List Bit → Type 0
Among b bs = contains bs b ≡ true

-- A clock on the bit goes through the cell to its output port.
pub data Passes (allow_divider : Bool) (cell : Cell) (out_port : String) (b : Bit) : Type 0 where
  buffer :
      contains buffer_types cell.type ≡ true
      → First cell "A" b
      → Passes allow_divider cell out_port b
  gate :
      (port : String)
      → contains gate_types cell.type ≡ true
      → contains ("A" ∷ "B" ∷ []) port ≡ true
      → First cell port b
      → Passes allow_divider cell out_port b
  mux :
      (port : String)
      → contains mux_types cell.type ≡ true
      → contains ("A" ∷ "B" ∷ []) port ≡ true
      → First cell port b
      → Passes allow_divider cell out_port b
  divider :
      (bs : List Bit)
      → allow_divider ≡ true
      → is_ff_cell cell.type ≡ true
      → out_port ≡ "Q"
      → flop_clk_pin cell ≡ b ∷ bs
      → Passes allow_divider cell out_port b
  latch :
      (port : String)
      → allow_divider ≡ true
      → is_latch_cell cell.type ≡ true
      → out_port ≡ "Q"
      → contains ("D" ∷ "EN" ∷ "E" ∷ []) port ≡ true
      → First cell port b
      → Passes allow_divider cell out_port b

unfoldable pub nexts : Onward → List Bit
nexts (ends root) = []
nexts (follows b) = b ∷ []
nexts (combines bs) = bs
nexts (selects bs) = bs

with_leg-inv :
    (bits rest : List Bit) (b : Bit)
    → Among b (with_leg bits rest)
    → ((bs : List Bit) × (bits ≡ b ∷ bs)) ⊎ Among b rest
unfolding with_leg contains
with_leg-inv [] rest b h = inr h
with_leg-inv (c ∷ bs) rest b h = elim (Bool-cases (b == c)) [
  | inl same ↦ inl (bs, ap (λ x. x ∷ bs) (sym ((bit_eq.beq_iff b c).0 same)))
  | inr other ↦ inr (ground (arith, h, other))
]

legs-First :
    (cell : Cell) (ports : List String) (b : Bit)
    → Among b (legs cell ports)
    → (port : String) × (contains ports port ≡ true) × First cell port b
unfolding legs contains First
legs-First cell [] b h = cc
legs-First cell (port ∷ ports) b h = elim (with_leg-inv (pin cell port) (legs cell ports) b h) [
  | inl here ↦ (port, ground (arith, eq_self port), here)
  | inr later ↦
      let (p, inside, first) = legs-First cell ports b later in (p, ground (arith, inside), first)
]

module _ (b : Bit) where
  pub choose-Among :
      (t : Bool) (x y : Onward)
      → Among b (nexts (if t then x else y))
      → ((t ≡ true) × Among b (nexts x)) ⊎ ((t ≡ false) × Among b (nexts y))
  choose-Among true x y h = inl (refl, h)
  choose-Among false x y h = inr (refl, h)

  pub follow_or-Among :
      (bits : List Bit) (other : Onward)
      → Among b (nexts (follow_or bits other))
      → ((bs : List Bit) × (bits ≡ b ∷ bs)) ⊎ Among b (nexts other)
  unfolding follow_or nexts contains
  follow_or-Among [] other h = inr h
  follow_or-Among (c ∷ bs) other h =
      inl (bs, ap (λ x. x ∷ bs) (sym ((bit_eq.beq_iff b c).0 (ground (arith, h)))))

  pub none-Among : Among b [] → ⊥
  unfolding contains
  none-Among h = cc

module _ (allow_divider : Bool) (cell : Cell) (out_port : String) (b : Bit) where
  through_latch-Passes :
      Among b (nexts (through_latch allow_divider cell out_port))
      → Passes allow_divider cell out_port b
  unfolding through_latch nexts
  through_latch-Passes h =
      elim (choose-Among b (allow_divider && is_latch_cell cell.type && out_port == "Q") _ _ h) [
        | inl (e, among) ↦
            let (port, inside, first) = legs-First cell _ b among in
            let (allowed, is_latch, at_q) =
              three_true allow_divider (is_latch_cell cell.type) (out_port == "Q") e in
            latch port allowed is_latch ((string_eq.beq_iff out_port "Q").0 at_q) inside first
        | inr (n, among) ↦ absurd (none-Among b among)
      ]

  through_divider-Passes :
      Among b (nexts (through_divider allow_divider cell out_port))
      → Passes allow_divider cell out_port b
  unfolding through_divider
  through_divider-Passes h =
      elim (choose-Among b (allow_divider && is_ff_cell cell.type && out_port == "Q") _ _ h) [
        | inl (e, among) ↦ elim (follow_or-Among b (flop_clk_pin cell) _ among) [
          | inl (bs, clocked) ↦
              let (allowed, is_ff, at_q) =
                three_true allow_divider (is_ff_cell cell.type) (out_port == "Q") e in
              divider bs allowed is_ff ((string_eq.beq_iff out_port "Q").0 at_q) clocked
          | inr through ↦ through_latch-Passes through
        ]
        | inr (n, among) ↦ through_latch-Passes among
      ]

  pub through_cell-Passes :
      Among b (nexts (through_cell allow_divider cell out_port))
      → Passes allow_divider cell out_port b
  unfolding through_cell nexts First
  through_cell-Passes h = elim (choose-Among b (contains buffer_types cell.type) _ _ h) [
    | inl (e, among) ↦ elim (follow_or-Among b (pin cell "A") (ends none) among) [
      | inl first ↦ buffer e first
      | inr nowhere ↦ absurd (none-Among b nowhere)
    ]
    | inr (n, h') ↦ elim (choose-Among b (contains gate_types cell.type) _ _ h') [
      | inl (e, among) ↦
          let (port, inside, first) = legs-First cell ("A" ∷ "B" ∷ []) b among in
          gate port e inside first
      | inr (n', h'') ↦ elim (choose-Among b (contains mux_types cell.type) _ _ h'') [
        | inl (e, among) ↦
            let (port, inside, first) = legs-First cell ("A" ∷ "B" ∷ []) b among in
            mux port e inside first
        | inr (n'', among) ↦ through_divider-Passes among
      ]
    ]
  ]
