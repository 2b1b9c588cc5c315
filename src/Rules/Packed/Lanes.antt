-- ===== src/Rules/Packed/Lanes.antt =====
-- Where the bits of a packed shift register stand (`_packed_shift_register_depth` of
-- src/rtl_buddy_cdc/rules.py).
use mathlib.Core.Path.{subst}
use rtl_buddy_cdc.Base.{
  ℕ, suc, ◌+◌, Bool, true, false, Option, none, some, List, [], ◌∷◌, ◌==◌, ◌≡◌, inl, inr, refl, sym,
  ap, ◌∙◌, arith, nat_eq, if◌then◌else◌, eq_self, eq_comm, contains, find_index, Bool-cases,
  Option-cases,
}
use rtl_buddy_cdc.Netlist.{Bit, bit_eq}
use rtl_buddy_cdc.Crossings.Fanout.{bit_at}
use rtl_buddy_cdc.Rules.Packed.{has_repeat}

-- The lanes at which a bit stands, counted from `first`.
pub lanes_of : Bit → ℕ → List Bit → List ℕ
lanes_of b first [] = []
lanes_of b first (x ∷ xs) =
    let rest = lanes_of b (suc first) xs in if x == b then first ∷ rest else rest

-- The lanes of the data bits that are no output of the register.
unfoldable pub outside : List Bit → ℕ → List Bit → List ℕ
outside q first [] = []
outside q first (x ∷ xs) =
    let rest = outside q (suc first) xs in if contains q x then rest else first ∷ rest

abbrev pub position : List Bit → Bit → Option ℕ
position q b = find_index q (λ qb. qb == b)

pub position-bit_at : (q : List Bit) (b : Bit) (j : ℕ) → position q b ≡ some j → bit_at j q ≡ b ∷ []
unfolding find_index bit_at
position-bit_at [] b j h = cc
position-bit_at (x ∷ q) b j h = elim (Bool-cases (x == b)) [
  | inl same ↦
      let here : 0 ≡ j = ground (arith, same, h) in
      subst (λ k. bit_at k (x ∷ q) ≡ b ∷ []) here (ap (λ y. y ∷ []) ((bit_eq.beq_iff x b).0 same))
  | inr other ↦ elim (Option-cases (position q b)) [
    | inl absent ↦ ground (arith, other, absent, h)
    | inr (k, later) ↦
        let there : suc k ≡ j = ground (arith, other, later, h) in
        subst (λ k. bit_at k (x ∷ q) ≡ b ∷ []) there (position-bit_at q b k later)
  ]
]

pub lanes_of-position :
    (b : Bit) (first : ℕ) (q : List Bit) (k : ℕ) (rest : List ℕ)
    → lanes_of b first q ≡ k ∷ rest
    → (j : ℕ) × (position q b ≡ some j) × (k ≡ first + j)
unfolding lanes_of find_index
lanes_of-position b first [] k rest h = cc
lanes_of-position b first (x ∷ q) k rest h = elim (Bool-cases (x == b)) [
  | inl same ↦ (0, ground (arith, same), ground (arith, same, h))
  | inr other ↦
      let (j, found, at) = lanes_of-position b (suc first) q k rest (ground (arith, other, h)) in
      (suc j, rw (other, found) refl, omega (arith, at))
]

lanes_of_none :
    (b : Bit) (first : ℕ) (q : List Bit) → contains q b ≡ false → lanes_of b first q ≡ []
unfolding lanes_of contains
lanes_of_none b first [] h = refl
lanes_of_none b first (x ∷ q) h = ground (arith, h, eq_comm x b, lanes_of_none b (suc first) q)

pub position-lanes_of :
    (b : Bit) (first : ℕ) (q : List Bit) (j : ℕ)
    → has_repeat q ≡ false
    → position q b ≡ some j
    → lanes_of b first q ≡ (first + j) ∷ []
unfolding lanes_of find_index has_repeat
position-lanes_of b first [] j h found = cc
position-lanes_of b first (x ∷ q) j h found = elim (Bool-cases (x == b)) [
  | inl same ↦
      let e = (bit_eq.beq_iff x b).0 same in
      let none_later = lanes_of_none b (suc first) q (rw (← e) (ground (arith, h))) in
      ground (arith, same, found, none_later)
  | inr other ↦ elim (Option-cases (position q b)) [
    | inl absent ↦ ground (arith, other, absent, found)
    | inr (k, later) ↦
        ground (
          arith,
          other,
          later,
          found,
          position-lanes_of b (suc first) q k (ground (arith, h)) later,
        )
  ]
]

unfoldable pub is_at : Option ℕ → ℕ → Bool
is_at none j = false
is_at (some k) j = k == j

-- The lanes of the data bits whose first place in the register is the lane `j`.
unfoldable pub fed : List Bit → ℕ → ℕ → List Bit → List ℕ
fed q j first [] = []
fed q j first (d ∷ ds) =
    let rest = fed q j (suc first) ds in if is_at (position q d) j then first ∷ rest else rest

pub fed-position :
    (q : List Bit) (j first : ℕ) (ds : List Bit) (n : ℕ) (rest : List ℕ)
    → fed q j first ds ≡ n ∷ rest
    → (x : Bit) × (position q x ≡ some j)
unfolding fed is_at
fed-position q j first [] n rest h = cc
fed-position q j first (d ∷ ds) n rest h = elim (Option-cases (position q d)) [
  | inl absent ↦ fed-position q j (suc first) ds n rest (ground (arith, absent, h))
  | inr (k, found) ↦ elim (Bool-cases (k == j)) [
    | inl same ↦ (d, found ∙ ap some ((nat_eq.beq_iff k j).0 same))
    | inr other ↦ fed-position q j (suc first) ds n rest (ground (arith, found, other, h))
  ]
]

is_at-position :
    (q : List Bit) (j : ℕ) (b d : Bit) → lanes_of b 0 q ≡ j ∷ [] → is_at (position q d) j ≡ (d == b)
unfolding is_at
is_at-position q j b d only =
    let (k, found, at) = lanes_of-position b 0 q j [] only in
    let same_lane : k ≡ j = omega (arith, at) in
    elim (Bool-cases (d == b)) [
      | inl same ↦
          rw ((bit_eq.beq_iff d b).0 same, found, eq_self b) ((nat_eq.beq_iff k j).1 same_lane)
      | inr other ↦ elim (Option-cases (position q d)) [
        | inl absent ↦ rw (absent, other) refl
        | inr (i, there) ↦ elim (Bool-cases (i == j)) [
          | inr elsewhere ↦ rw (there, elsewhere, other) refl
          | inl here ↦
              let one =
                subst (λ n. bit_at n q ≡ d ∷ []) ((nat_eq.beq_iff i j).0 here)
                  (position-bit_at q d i there) in
              let two = subst (λ n. bit_at n q ≡ b ∷ []) same_lane (position-bit_at q b k found) in
              let equal : d ≡ b = cc (sym one ∙ two) in
              cc (sym other ∙ (bit_eq.beq_iff d b).1 equal)
        ]
      ]
    ]

pub fed-lanes_of :
    (q : List Bit) (j : ℕ) (b : Bit)
    → lanes_of b 0 q ≡ j ∷ []
    → (first : ℕ) (ds : List Bit) → fed q j first ds ≡ lanes_of b first ds
unfolding fed lanes_of is_at
fed-lanes_of q j b only first [] = refl
fed-lanes_of q j b only first (d ∷ ds) =
    rw (is_at-position q j b d only)
      (ap (λ rest. if d == b then first ∷ rest else rest) (fed-lanes_of q j b only (suc first) ds))

unfoldable pub is_some : Option ℕ → Bool
is_some none = false
is_some (some n) = true

pub position-contains : (q : List Bit) (b : Bit) → contains q b ≡ is_some (position q b)
unfolding contains find_index is_some
position-contains [] b = refl
position-contains (x ∷ q) b = elim (Bool-cases (x == b)) [
  | inl same ↦ ground (arith, same, eq_comm x b)
  | inr other ↦ elim (Option-cases (position q b)) [
    | inl absent ↦ ground (arith, other, absent, eq_comm x b, position-contains q b)
    | inr (j, there) ↦ ground (arith, other, there, eq_comm x b, position-contains q b)
  ]
]
