-- ===== src/Crossings/Walk/Complete.antt =====
-- That the walk of `find_crossings` (src/rtl_buddy_cdc/domain.py) misses nothing within its budget.
use mathlib.Core.Path.{subst}
use mathlib.Core.Option.{some-injective}
use mathlib.Core.List.{append_assoc, append-nil}
use rtl_buddy_cdc.Base.{
  ℕ, zero, suc, ◌+◌, ◌≤◌, Bool, true, some, List, [], ◌∷◌, ◌++◌, ◌==◌, ◌≡◌, ◌⊎◌, inl, inr, sym, ◌∙◌,
  arith, lookup, insert, lookup-insert, lookup-insert_self, Within, All, All-append, All-Within,
  Bool-cases,
}
use rtl_buddy_cdc.Netlist.{Bit, bit_eq}
use rtl_buddy_cdc.Crossings.Walk.{Front, mark, start_frontier}
use rtl_buddy_cdc.Crossings.Walk.Visits.{expand_all, visits, walk_visits}
use rtl_buddy_cdc.Crossings.Walk.Push.{
  Seen, SeenBy, Lower, Known, Lower-refl, Lower-trans, pair_path,
}
use rtl_buddy_cdc.Crossings.Walk.Reach.{
  Spread, Spread-Lower, expand_all-Lower, expand_all-Spread, expand_all-Known, expand_all-IsAt,
  start_frontier-IsAt, IsAt,
}

module _ (max_hops : ℕ) (fanout : Bit → List Bit) (useful : Bit → ℕ → Bool)
    (sources : List Bit) where
  -- The whole walk at its end: everything seen was visited, and every visit spread.
  Complete : Seen → List (Bit × ℕ) → Type 0
  Complete start vs =
      (seen : Seen) × Lower start seen × Known vs seen × All (Spread max_hops fanout useful seen) vs

  All-Spread-Lower :
      (d e : Seen) (vs : List (Bit × ℕ))
      → Lower d e
      → All (Spread max_hops fanout useful d) vs
      → All (Spread max_hops fanout useful e) vs
  All-Spread-Lower d e [] lower h = tt
  All-Spread-Lower d e (v ∷ vs) lower (s, ss) =
      (Spread-Lower max_hops fanout useful d e lower v s, All-Spread-Lower d e vs lower ss)

  Complete-Lower : (d e : Seen) (vs : List (Bit × ℕ)) → Lower d e → Complete e vs → Complete d vs
  unfolding Complete
  Complete-Lower d e vs lower (seen, lower', known, spread) =
      (seen, Lower-trans d e seen lower lower', known, spread)

  visits-Complete :
      (n k : ℕ) (done vs : List (Bit × ℕ)) (seen : Seen)
      → n + k ≡ suc max_hops
      → All (IsAt max_hops fanout useful sources k) vs
      → Known (done ++ vs) seen
      → All (Spread max_hops fanout useful seen) done
      → Complete seen (done ++ visits max_hops fanout useful n vs seen)
  unfolding visits Complete IsAt
  visits-Complete zero k done [] seen e at known spread = (
    seen,
    Lower-refl seen,
    known,
    All-append (Spread max_hops fanout useful seen) done [] spread tt,
  )
  visits-Complete zero k done ((b, h) ∷ vs) seen e ((same, within, path), at) known spread =
      absurd (omega (arith, e, within))
  visits-Complete (suc n) k done [] seen e at known spread = (
    seen,
    Lower-refl seen,
    known,
    All-append (Spread max_hops fanout useful seen) done [] spread tt,
  )
  visits-Complete (suc n) k done (v ∷ vs) seen e at known spread =
      let f0 : Front = record { seen = seen; next = [] } in
      let f = expand_all max_hops fanout useful (v ∷ vs) f0 in
      let lower = expand_all-Lower max_hops fanout useful (v ∷ vs) f0 in
      let known' : Known ((done ++ (v ∷ vs)) ++ []) seen = rw append-nil known in
      let spread' =
        All-append (Spread max_hops fanout useful f.seen) done (v ∷ vs)
          (All-Spread-Lower seen f.seen done lower spread)
          (expand_all-Spread max_hops fanout useful (v ∷ vs) f0) in
      let rest = visits max_hops fanout useful n f.next f.seen in
      let complete =
        visits-Complete n (suc k) (done ++ (v ∷ vs)) f.next f.seen (omega (arith, e))
          (expand_all-IsAt max_hops fanout useful sources k (v ∷ vs) f0 at tt)
          (expand_all-Known max_hops fanout useful (done ++ (v ∷ vs)) (v ∷ vs) f0 known') spread' in
      Complete-Lower seen f.seen (done ++ ((v ∷ vs) ++ rest)) lower
        (subst (Complete f.seen) (append_assoc done (v ∷ vs) rest) complete)

lookup-mark :
    (bs : List Bit) (seen : Seen) (b : Bit) (h : ℕ)
    → lookup b (mark (start_frontier bs) seen) ≡ some h
    → Within (b, h) (start_frontier bs) ⊎ (lookup b seen ≡ some h)
unfolding mark start_frontier
lookup-mark [] seen b h e = inr e
lookup-mark (c ∷ bs) seen b h e = elim (lookup-mark bs (insert c 0 seen) b h e) [
  | inl later ↦ inl (inr later)
  | inr now ↦ elim (Bool-cases (b == c)) [
    | inl same ↦ inl (
        inl (
          pair_path ((bit_eq.beq_iff b c).0 same)
            (some-injective h 0 (sym now ∙ ground (arith, same, lookup-insert c b 0 seen)))))
    | inr other ↦ inr (ground (arith, other, now, lookup-insert c b 0 seen))
  ]
]

mark-zero :
    (bs : List Bit) (seen : Seen) (b : Bit)
    → Within b bs ⊎ (lookup b seen ≡ some 0)
    → lookup b (mark (start_frontier bs) seen) ≡ some 0
unfolding mark start_frontier
mark-zero [] seen b (inl w) = absurd w
mark-zero [] seen b (inr e) = e
mark-zero (c ∷ bs) seen b (inl (inl same)) =
    mark-zero bs (insert c 0 seen) b (inr (rw same (lookup-insert_self c 0 seen)))
mark-zero (c ∷ bs) seen b (inl (inr later)) = mark-zero bs (insert c 0 seen) b (inl later)
mark-zero (c ∷ bs) seen b (inr e) =
    mark-zero bs (insert c 0 seen) b (inr (ground (arith, e, lookup-insert c b 0 seen)))

-- A bit that is so many hops from a source by bits that the pruning test lets through.
pub data OpenHops (fanout : Bit → List Bit) (useful : Bit → ℕ → Bool) (sources : List Bit)
    : ℕ → Bit → Type 0 where
  begin : {b : Bit} → Within b sources → OpenHops fanout useful sources 0 b
  onto :
      {n : ℕ} {a b : Bit}
      → OpenHops fanout useful sources n a
      → ((h : ℕ) → h ≤ n → useful a h ≡ true)
      → Within b (fanout a)
      → OpenHops fanout useful sources (suc n) b

module _ (max_hops : ℕ) (fanout : Bit → List Bit) (useful : Bit → ℕ → Bool)
    (sources : List Bit) where
  start_known :
      (b : Bit) (h : ℕ)
      → Within (b, h) (start_frontier sources) ⊎ (lookup b [] ≡ some h)
      → Within (b, h) (start_frontier sources)
  unfolding lookup
  start_known b h (inl w) = w
  start_known b h (inr e) = cc

  walk-Complete :
      Complete max_hops fanout useful sources
        (mark (start_frontier sources) [])
        (walk_visits max_hops fanout useful sources)
  unfolding walk_visits Known
  walk-Complete =
      visits-Complete max_hops fanout useful sources (suc max_hops) 0 [] (start_frontier sources)
        (mark (start_frontier sources) []) (omega arith)
        (start_frontier-IsAt max_hops fanout useful sources sources (λ b w. w))
        (λ b h e. start_known b h (lookup-mark sources [] b h e)) tt

  visited :
      (seen : Seen)
      → Lower (mark (start_frontier sources) []) seen
      → Known (walk_visits max_hops fanout useful sources) seen
      → All (Spread max_hops fanout useful seen) (walk_visits max_hops fanout useful sources)
      → {n : ℕ} {b : Bit} → OpenHops fanout useful sources n b
      → n ≤ max_hops
      → SeenBy seen b n
  unfolding Lower Known Spread
  visited seen lower known spread {b = b} (begin w) le = lower b 0 (mark-zero sources [] b (inl w))
  visited seen lower known spread {b = b} (onto {n} {a} path open_way w) le =
      let (h, near, e) = visited seen lower known spread path (omega (arith, le)) in
      let at_a =
        All-Within (Spread max_hops fanout useful seen) (a, h)
          (walk_visits max_hops fanout useful sources) spread (known a h e) in
      let (k, nearer, e') = at_a b w (omega (arith, near, le)) (open_way h near) in
      (k, omega (arith, near, nearer), e')

  -- Within the budget the walk visits every bit that the pruning test does not cut off, at its
  -- distance or an earlier hop.
  pub walk_visits-OpenHops :
      (n : ℕ) (b : Bit)
      → OpenHops fanout useful sources n b
      → n ≤ max_hops
      → (h : ℕ) × (h ≤ n) × Within (b, h) (walk_visits max_hops fanout useful sources)
  unfolding Complete Known
  walk_visits-OpenHops n b path le =
      let (seen, lower, known, spread) = walk-Complete in
      let (h, near, e) = visited seen lower known spread path le in (h, near, known b h e)
