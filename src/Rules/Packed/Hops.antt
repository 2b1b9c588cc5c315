-- ===== src/Rules/Packed/Hops.antt =====
-- The hops of the shift through a packed register in src/rtl_buddy_cdc/rules.py: what the successors
-- that the loop of `_packed_shift_register_depth` collects say of the bits.
use mathlib.Core.Path.{subst}
use mathlib.Core.List.{append_assoc, append-nil}
use rtl_buddy_cdc.Base.{
  ℕ, suc, false, Option, none, some, List, [], ◌∷◌, ◌++◌, ◌==◌, ◌≡◌, inl, inr, refl, sym, ap, ◌∙◌,
  arith, nat_eq, if◌then◌else◌, eq_comm, contains, find_index, all, Dict, lookup, insert,
  lookup-insert, Bool-cases, Option-cases,
}
use rtl_buddy_cdc.Netlist.{Bit, bit_eq}
use rtl_buddy_cdc.Crossings.Fanout.{bit_at}
use rtl_buddy_cdc.Rules.Index.{Readers, readers_of}
use rtl_buddy_cdc.Rules.Packed.Lanes.{
  lanes_of, outside, position-bit_at, lanes_of-position, position-lanes_of, is_at, fed,
  fed-position, fed-lanes_of, is_some, position-contains,
}
use rtl_buddy_cdc.Rules.Packed.{has_repeat, lanes, next_lane}

-- The output of one lane is the data of another lane, and of no other lane, and has one reader.
pub IsHop : List Bit → List Bit → Readers → ℕ → ℕ → Type 0
IsHop q bits counts cur nxt =
    (b : Bit) × (lanes_of b 0 q ≡ cur ∷ [])
    × (lanes_of b 0 bits ≡ nxt ∷ [])
    × (readers_of counts b ≡ 1)

module _ (q bits : List Bit) (counts : Readers) where
  -- The lanes behind a lane: each hop is to a new lane, and from the last there is no such hop.
  pub data Shift : List ℕ → ℕ → List ℕ → Type 0 where
    last :
        (visited : List ℕ) (cur : ℕ)
        → ¬ ((nxt : ℕ) × IsHop q bits counts cur nxt × (contains visited nxt ≡ false))
        → Shift visited cur []
    hop :
        (visited : List ℕ) (cur nxt : ℕ) (later : List ℕ)
        → IsHop q bits counts cur nxt
        → contains visited nxt ≡ false
        → Shift (nxt ∷ visited) nxt later
        → Shift visited cur (nxt ∷ later)

abbrev to_list : Option ℕ → List ℕ
to_list none = []
to_list (some n) = n ∷ []

insert-to_list :
    (k j n : ℕ) (succ : Dict ℕ ℕ) (rest : List ℕ)
    → lookup k succ ≡ none
    → to_list (lookup j (insert k n succ)) ++ rest
      ≡ to_list (lookup j succ) ++ (if k == j then n ∷ rest else rest)
insert-to_list k j n succ rest free = elim (Bool-cases (k == j)) [
  | inl same ↦
      let e = (nat_eq.beq_iff k j).0 same in
      rw (lookup-insert k j n succ, eq_comm j k, same, ← e, free) refl
  | inr other ↦ rw (lookup-insert k j n succ, eq_comm j k, other) refl
]

-- The successors that are collected are the lanes that are fed.
lanes-fed :
    (q : List Bit) (j first : ℕ) (ds : List Bit) (succ succ' : Dict ℕ ℕ)
    (external external' : List ℕ)
    → lanes q first ds succ external ≡ some (succ', external')
    → to_list (lookup j succ') ≡ to_list (lookup j succ) ++ fed q j first ds
unfolding lanes fed is_at
lanes-fed q j first [] succ succ' external external' h =
    ground (arith, h, append-nil (to_list (lookup j succ)))
lanes-fed q j first (d ∷ ds) succ succ' external external' h =
    elim (Option-cases (find_index q (λ qb. qb == d))) [
      | inl absent ↦
          rw (absent, is_at)
            (lanes-fed q j (suc first) ds succ succ' (external ++ first ∷ []) external'
              (rw (lanes, absent) at h))
      | inr (k, inside) ↦ elim (Option-cases (lookup k succ)) [
        | inr (other, taken) ↦ ground (arith, rw (lanes, inside, taken) at h)
        | inl free ↦
            let rest =
              lanes-fed q j (suc first) ds (insert k first succ) succ' external external'
                (rw (lanes, inside, free) at h) in
            rest ∙ rw (inside, is_at) (insert-to_list k j first succ (fed q j (suc first) ds) free)
      ]
    ]

-- The external lanes that are collected are those that the register does not feed.
pub lanes-outside :
    (q : List Bit) (first : ℕ) (ds : List Bit) (succ succ' : Dict ℕ ℕ) (external external' : List ℕ)
    → lanes q first ds succ external ≡ some (succ', external')
    → external' ≡ external ++ outside q first ds
unfolding lanes outside is_some
lanes-outside q first [] succ succ' external external' h = ground (arith, h, append-nil external)
lanes-outside q first (d ∷ ds) succ succ' external external' h =
    elim (Option-cases (find_index q (λ qb. qb == d))) [
      | inl absent ↦
          rw (position-contains q d, absent)
            (lanes-outside q (suc first) ds succ succ' (external ++ first ∷ []) external'
                (rw (lanes, absent) at h)
              ∙ rw append_assoc)
      | inr (k, inside) ↦ elim (Option-cases (lookup k succ)) [
        | inr (other, taken) ↦ ground (arith, rw (lanes, inside, taken) at h)
        | inl free ↦
            rw (position-contains q d, inside)
              (lanes-outside q (suc first) ds (insert k first succ) succ' external external'
                (rw (lanes, inside, free) at h))
      ]
    ]

to_list-some : (o : Option ℕ) (n : ℕ) → to_list o ≡ n ∷ [] → o ≡ some n
to_list-some none n h = cc
to_list-some (some k) n h = cc

module _ (q bits : List Bit) (counts : Readers) (succ : Dict ℕ ℕ) (external : List ℕ)
    (collected : lanes q 0 bits [] [] ≡ some (succ, external)) where
  succ-fed : (j : ℕ) → to_list (lookup j succ) ≡ fed q j 0 bits
  unfolding lookup
  succ-fed j = lanes-fed q j 0 bits [] succ [] external collected

  -- Where the shift goes on, it goes on to a new lane that this one alone feeds.
  pub next_lane-IsHop :
      (visited : List ℕ) (cur nxt : ℕ)
      → has_repeat q ≡ false
      → next_lane q counts succ visited cur ≡ some nxt
      → IsHop q bits counts cur nxt × (contains visited nxt ≡ false)
  unfolding next_lane IsHop all
  next_lane-IsHop visited cur nxt distinct goes_on = elim (Option-cases (lookup cur succ)) [
    | inl ends ↦ ground (arith, ends, goes_on)
    | inr (lane, follows) ↦
        let same : lane ≡ nxt = ground (arith, follows, goes_on) in
        let listed = sym (succ-fed cur) ∙ ap to_list (follows ∙ ap some same) in
        let (x, placed) = fed-position q cur 0 bits nxt [] listed in
        let only = position-lanes_of x 0 q cur distinct placed ∙ ap (λ n. n ∷ []) (omega arith) in
        let here = position-bit_at q x cur placed in
        (
          (
            x,
            only,
            sym (fed-lanes_of q cur x only 0 bits) ∙ listed,
            (nat_eq.beq_iff (readers_of counts x) 1).0 (ground (arith, here, follows, goes_on)),
          ),
          subst (λ n. contains visited n ≡ false) same (ground (arith, follows, goes_on)),
        )
  ]

  -- Where it does not go on, there is no such lane.
  pub next_lane-stops :
      (visited : List ℕ) (cur : ℕ)
      → next_lane q counts succ visited cur ≡ none
      → ¬ ((nxt : ℕ) × IsHop q bits counts cur nxt × (contains visited nxt ≡ false))
  unfolding next_lane IsHop all
  next_lane-stops visited cur ends (nxt, (b, only, to, once), new) =
      let (k, found, at) = lanes_of-position b 0 q cur [] only in
      let same : k ≡ cur = omega (arith, at) in
      let here = subst (λ n. bit_at n q ≡ b ∷ []) same (position-bit_at q b k found) in
      let follows =
        to_list-some (lookup cur succ) nxt
          (succ-fed cur ∙ (fed-lanes_of q cur b only 0 bits ∙ to)) in
      ground (arith, ends, here, once, follows, new)
