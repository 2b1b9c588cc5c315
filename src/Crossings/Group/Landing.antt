-- ===== src/Crossings/Group/Landing.antt =====
-- What the landings of the walks (src/rtl_buddy_cdc/domain.py) keep true of the groups, and that each
-- of them leaves its group.
use mathlib.Core.Path.{subst}
use rtl_buddy_cdc.Base.{
  ℕ, ◌≤◌, String, false, Option, none, some, List, [], ◌∷◌, ◌==◌, Eq, string_eq, ◌≡◌, inl, inr,
  refl, sym, arith, Dict, lookup, insert, lookup-insert, lookup-insert_self, All-insert, All-lookup,
  Within, All, Bool-cases,
}
use rtl_buddy_cdc.Netlist.{Bit, bit_eq}
use rtl_buddy_cdc.Netlist.Flops.{Flop, flop_name}
use rtl_buddy_cdc.Crossings.Group.{
  Group, Search, merge, first_group, note_landing, known_domain, land_flops, flops_at, land,
}

module _ {K : Type 0} ⦃e : Eq K⦄ (P : K × Group → Type 0) (s : Search K) (bit : Bit)
    (hops : ℕ) where
  -- The property holds of the group that a landing on this destination leaves.
  unfoldable pub Admits : String → Option (Flop × String) → Type 0
  Admits name o =
      (dst : Flop) (clock : String)
      → o ≡ some (dst, clock)
      → s.passes_over name clock ≡ false
      → (old : Option Group) → ((g : Group) → old ≡ some g → P (s.key name, g))
      → P (s.key name, merge hops bit (first_group s bit hops dst clock) old)

  note_landing-All :
      (o : Option (Flop × String)) (name : String) (groups : Dict K Group)
      → Admits name o
      → All P groups
      → All P (note_landing s bit hops o name groups)
  unfolding note_landing Admits
  note_landing-All none name groups admits ps = ps
  note_landing-All (some (dst, clock)) name groups admits ps =
      elim (Bool-cases (s.passes_over name clock)) [
        | inl over ↦ rw over ps
        | inr lands ↦
            let old = lookup (s.key name) groups in
            rw lands (
              All-insert P (s.key name) (merge hops bit (first_group s bit hops dst clock) old)
                groups
                (admits dst clock refl lands old
                  (λ g found. All-lookup P (s.key name) g groups ps found))
                ps)
      ]

  land_flops-All :
      (dsts : List Flop) (groups : Dict K Group)
      → ((dst : Flop)
          → Within dst dsts
          → Admits (flop_name dst) (known_domain (lookup (flop_name dst) s.domains)))
      → All P groups
      → All P (land_flops s bit hops dsts groups)
  unfolding land_flops
  land_flops-All [] groups admits ps = ps
  land_flops-All (dst ∷ dsts) groups admits ps =
      let o = known_domain (lookup (flop_name dst) s.domains) in
      land_flops-All dsts (note_landing s bit hops o (flop_name dst) groups)
        (λ f w. admits f (inr w))
        (note_landing-All o (flop_name dst) groups (admits dst (inl refl)) ps)

  pub land-All :
      (groups : Dict K Group)
      → ((dst : Flop)
          → Within dst (flops_at s.by_d bit)
          → Admits (flop_name dst) (known_domain (lookup (flop_name dst) s.domains)))
      → All P groups
      → All P (land s bit hops groups)
  unfolding land
  land-All groups admits ps = land_flops-All (flops_at s.by_d bit) groups admits ps

merge-some :
    (hops : ℕ) (bit : Bit) (fresh g : Group) → (merge hops bit fresh (some g)).min_hops ≤ g.min_hops
unfolding merge
merge-some hops bit fresh g = ground arith

module _ {K : Type 0} ⦃e : Eq K⦄ where
  -- The key has a group with no more hops than these.
  unfoldable pub Noted : K → ℕ → Dict K Group → Type 0
  Noted k h groups = (g : Group) × (lookup k groups ≡ some g) × (g.min_hops ≤ h)

  merge-min_hops :
      (s : Search K) (bit : Bit) (hops : ℕ) (dst : Flop) (clock : String) (old : Option Group)
      → (merge hops bit (first_group s bit hops dst clock) old).min_hops ≤ hops
  unfolding merge first_group
  merge-min_hops s bit hops dst clock none = omega arith
  merge-min_hops s bit hops dst clock (some g) = ground arith

  insert-Noted :
      (j : K) (hops : ℕ) (bit : Bit) (fresh : Group) (groups : Dict K Group) (k : K) (h : ℕ)
      → Noted k h groups
      → Noted k h (insert j (merge hops bit fresh (lookup j groups)) groups)
  unfolding Noted
  insert-Noted j hops bit fresh groups k h (g, found, near) =
      let new = merge hops bit fresh (lookup j groups) in
      elim (Bool-cases (k == j)) [
        | inl same ↦
            let at_j : lookup j groups ≡ some g =
              subst (λ i. lookup i groups ≡ some g) ((e.beq_iff k j).0 same) found in
            let nearer : new.min_hops ≤ g.min_hops = rw at_j (merge-some hops bit fresh g) in
            (new, rw (lookup-insert j k new groups, same) refl, omega (arith, nearer, near))
        | inr other ↦ (g, rw (lookup-insert j k new groups, other) found, near)
      ]

  note_landing-keeps :
      (s : Search K) (bit : Bit) (hops : ℕ) (o : Option (Flop × String)) (name : String)
      (groups : Dict K Group)
      → (k : K) (h : ℕ) → Noted k h groups
      → Noted k h (note_landing s bit hops o name groups)
  unfolding note_landing
  note_landing-keeps s bit hops none name groups k h noted = noted
  note_landing-keeps s bit hops (some (dst, clock)) name groups k h noted =
      elim (Bool-cases (s.passes_over name clock)) [
        | inl over ↦ rw over noted
        | inr lands ↦
            rw lands (
              insert-Noted (s.key name) hops bit (first_group s bit hops dst clock) groups k h
                noted)
      ]

  land_flops-keeps :
      (s : Search K) (bit : Bit) (hops : ℕ) (dsts : List Flop) (groups : Dict K Group) (k : K)
      (h : ℕ)
      → Noted k h groups
      → Noted k h (land_flops s bit hops dsts groups)
  unfolding land_flops
  land_flops-keeps s bit hops [] groups k h noted = noted
  land_flops-keeps s bit hops (dst ∷ dsts) groups k h noted =
      let o = known_domain (lookup (flop_name dst) s.domains) in
      land_flops-keeps s bit hops dsts (note_landing s bit hops o (flop_name dst) groups) k h
        (note_landing-keeps s bit hops o (flop_name dst) groups k h noted)

  pub land-keeps :
      (s : Search K) (bit : Bit) (hops : ℕ) (groups : Dict K Group) (k : K) (h : ℕ)
      → Noted k h groups
      → Noted k h (land s bit hops groups)
  unfolding land
  land-keeps s bit hops groups k h noted =
      land_flops-keeps s bit hops (flops_at s.by_d bit) groups k h noted

  note_landing-Noted :
      (s : Search K) (bit : Bit) (hops : ℕ) (f : Flop) (clock : String) (name : String)
      (groups : Dict K Group)
      → s.passes_over name clock ≡ false
      → Noted (s.key name) hops (note_landing s bit hops (some (f, clock)) name groups)
  unfolding note_landing Noted
  note_landing-Noted s bit hops f clock name groups lands =
      let old = lookup (s.key name) groups in
      let new = merge hops bit (first_group s bit hops f clock) old in
      rw lands
        (new, lookup-insert_self (s.key name) new groups, merge-min_hops s bit hops f clock old)

  land_flops-Noted :
      (s : Search K) (bit : Bit) (hops : ℕ) (dsts : List Flop) (groups : Dict K Group)
      (dst f : Flop) (clock : String)
      → Within dst dsts
      → known_domain (lookup (flop_name dst) s.domains) ≡ some (f, clock)
      → s.passes_over (flop_name dst) clock ≡ false
      → Noted (s.key (flop_name dst)) hops (land_flops s bit hops dsts groups)
  unfolding land_flops
  land_flops-Noted s bit hops [] groups dst f clock w known lands = absurd w
  land_flops-Noted s bit hops (d ∷ dsts) groups dst f clock (inl same) known lands =
      let o = known_domain (lookup (flop_name d) s.domains) in
      let here = note_landing s bit hops o (flop_name d) groups in
      land_flops-keeps s bit hops dsts here (s.key (flop_name dst)) hops
        (rw (sym same, known) (note_landing-Noted s bit hops f clock (flop_name dst) groups lands))
  land_flops-Noted s bit hops (d ∷ dsts) groups dst f clock (inr later) known lands =
      let o = known_domain (lookup (flop_name d) s.domains) in
      land_flops-Noted s bit hops dsts (note_landing s bit hops o (flop_name d) groups) dst f clock
        later known lands

  -- A landing on a destination that is not passed over has its group.
  pub land-Noted :
      (s : Search K) (bit : Bit) (hops : ℕ) (groups : Dict K Group) (dst f : Flop) (clock : String)
      → Within dst (flops_at s.by_d bit)
      → known_domain (lookup (flop_name dst) s.domains) ≡ some (f, clock)
      → s.passes_over (flop_name dst) clock ≡ false
      → Noted (s.key (flop_name dst)) hops (land s bit hops groups)
  unfolding land
  land-Noted s bit hops groups dst f clock w known lands =
      land_flops-Noted s bit hops (flops_at s.by_d bit) groups dst f clock w known lands
