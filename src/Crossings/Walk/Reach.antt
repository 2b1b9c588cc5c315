-- ===== src/Crossings/Walk/Reach.antt =====
-- Where the walk of `find_crossings` (src/rtl_buddy_cdc/domain.py) comes: a bit is visited at a hop
-- only if it is that many hops from a source, and within the budget every such bit is visited.
use rtl_buddy_cdc.Base.{
  ℕ, zero, suc, ◌≤◌, ◌<◌, Bool, true, not, ◌||◌, List, [], ◌∷◌, ◌++◌, ◌≡◌, inl, inr, refl, arith,
  leb, Within, All, All-append, Bool-cases,
}
use rtl_buddy_cdc.Netlist.{Bit, bit_eq}
use rtl_buddy_cdc.Crossings.Walk.{Front, push_all, expand, mark, start_frontier}
use rtl_buddy_cdc.Crossings.Walk.Visits.{expand_all, visits, walk_visits}
use rtl_buddy_cdc.Crossings.Walk.Push.{
  Seen, SeenBy, Lower, Known, Lower-refl, Lower-trans, SeenBy-Lower, push_all-Lower,
  push_all-SeenBy, push_all-Known, push_all-next,
}

-- The bit is so many hops from one of the sources.
pub data Hops (fanout : Bit → List Bit) (sources : List Bit) : ℕ → Bit → Type 0 where
  source : {b : Bit} → Within b sources → Hops fanout sources 0 b
  hop :
      {n : ℕ} {a b : Bit}
      → Hops fanout sources n a
      → Within b (fanout a)
      → Hops fanout sources (suc n) b

module _ (max_hops : ℕ) (fanout : Bit → List Bit) (useful : Bit → ℕ → Bool) where
  -- What a visit leaves seen.
  unfoldable pub Spread : Seen → Bit × ℕ → Type 0
  Spread seen (b, h) =
      (c : Bit) → Within c (fanout b) → h < max_hops → useful b h ≡ true → SeenBy seen c (suc h)

  -- What an expansion does: it pushes the fanout, or the budget or the test forbids it.
  expand-ind :
      (P : Front → Type 0) (b : Bit) (h : ℕ) (f : Front)
      → (h < max_hops → useful b h ≡ true → P (push_all (suc h) (fanout b) f))
      → ((h < max_hops → useful b h ≡ true → ⊥) → P f)
      → P (expand max_hops fanout useful b h f)
  unfolding expand
  expand-ind P b h f pushed stopped = elim (Bool-cases (leb max_hops h || not (useful b h))) [
    | inl stop ↦ rw stop (stopped (λ lt u. ground (arith, stop, lt, u)))
    | inr go ↦ rw go (pushed (ground (arith, go)) (ground (arith, go)))
  ]

  expand-Lower :
      (b : Bit) (h : ℕ) (f : Front) → Lower f.seen (expand max_hops fanout useful b h f).seen
  expand-Lower b h f =
      expand-ind (λ g. Lower f.seen g.seen) b h f (λ lt u. push_all-Lower (suc h) (fanout b) f)
        (λ stopped. Lower-refl f.seen)

  expand-Spread :
      (b : Bit) (h : ℕ) (f : Front) → Spread (expand max_hops fanout useful b h f).seen (b, h)
  unfolding Spread
  expand-Spread b h f =
      expand-ind (λ g. Spread g.seen (b, h)) b h f
        (λ lt u c w lt' u'. push_all-SeenBy (suc h) (fanout b) f c w)
        (λ stopped c w lt u. absurd (stopped lt u))

  expand-Known :
      (vs : List (Bit × ℕ)) (b : Bit) (h : ℕ) (f : Front)
      → Known (vs ++ f.next) f.seen
      → Known
          (vs ++ (expand max_hops fanout useful b h f).next)
          (expand max_hops fanout useful b h f).seen
  expand-Known vs b h f known =
      expand-ind (λ g. Known (vs ++ g.next) g.seen) b h f
        (λ lt u. push_all-Known vs (suc h) (fanout b) f known) (λ stopped. known)

  pub Spread-Lower : (d e : Seen) → Lower d e → (v : Bit × ℕ) → Spread d v → Spread e v
  unfolding Spread
  Spread-Lower d e lower (b, h) spread c w lt u = SeenBy-Lower d e c (suc h) lower (spread c w lt u)

  -- The same for a whole frontier.
  pub expand_all-Lower :
      (vs : List (Bit × ℕ)) (f : Front) → Lower f.seen (expand_all max_hops fanout useful vs f).seen
  unfolding expand_all
  expand_all-Lower [] f = Lower-refl f.seen
  expand_all-Lower ((b, h) ∷ vs) f =
      let g = expand max_hops fanout useful b h f in
      Lower-trans f.seen g.seen (expand_all max_hops fanout useful vs g).seen (expand-Lower b h f)
        (expand_all-Lower vs g)

  pub expand_all-Spread :
      (vs : List (Bit × ℕ)) (f : Front)
      → All (Spread (expand_all max_hops fanout useful vs f).seen) vs
  unfolding expand_all
  expand_all-Spread [] f = tt
  expand_all-Spread ((b, h) ∷ vs) f =
      let g = expand max_hops fanout useful b h f in
      (
        Spread-Lower g.seen (expand_all max_hops fanout useful vs g).seen (expand_all-Lower vs g)
            (b, h) (expand-Spread b h f),
        expand_all-Spread vs g,
      )

  pub expand_all-Known :
      (ws vs : List (Bit × ℕ)) (f : Front)
      → Known (ws ++ f.next) f.seen
      → Known
          (ws ++ (expand_all max_hops fanout useful vs f).next)
          (expand_all max_hops fanout useful vs f).seen
  unfolding expand_all
  expand_all-Known ws [] f known = known
  expand_all-Known ws ((b, h) ∷ vs) f known =
      expand_all-Known ws vs (expand max_hops fanout useful b h f) (expand-Known ws b h f known)

module _ (max_hops : ℕ) (fanout : Bit → List Bit) (useful : Bit → ℕ → Bool)
    (sources : List Bit) where
  -- An item of the frontier of hop `k`.
  unfoldable pub IsAt : ℕ → Bit × ℕ → Type 0
  IsAt k (b, h) = (h ≡ k) × (k ≤ max_hops) × Hops fanout sources k b

  expand-IsAt :
      (k : ℕ) (b : Bit) (h : ℕ) (f : Front)
      → IsAt k (b, h)
      → All (IsAt (suc k)) f.next
      → All (IsAt (suc k)) (expand max_hops fanout useful b h f).next
  unfolding IsAt
  expand-IsAt k b h f (same, within, path) ps =
      expand-ind max_hops fanout useful (λ g. All (IsAt (suc k)) g.next) b h f
        (λ lt u.
          push_all-next (IsAt (suc k)) (suc h) (fanout b) f
            (λ c w. (omega (arith, same), omega (arith, same, lt), hop path w)) ps)
        (λ stopped. ps)

  pub expand_all-IsAt :
      (k : ℕ) (vs : List (Bit × ℕ)) (f : Front)
      → All (IsAt k) vs
      → All (IsAt (suc k)) f.next
      → All (IsAt (suc k)) (expand_all max_hops fanout useful vs f).next
  unfolding expand_all
  expand_all-IsAt k [] f at ps = ps
  expand_all-IsAt k ((b, h) ∷ vs) f (at, ats) ps =
      expand_all-IsAt k vs (expand max_hops fanout useful b h f) ats (expand-IsAt k b h f at ps)

  -- A visit, at its distance.
  unfoldable pub IsVisit : Bit × ℕ → Type 0
  IsVisit (b, h) = (h ≤ max_hops) × Hops fanout sources h b

  IsAt-IsVisit : (k : ℕ) (vs : List (Bit × ℕ)) → All (IsAt k) vs → All IsVisit vs
  unfolding IsAt IsVisit
  IsAt-IsVisit k [] h = tt
  IsAt-IsVisit k ((b, h) ∷ vs) ((same, within, path), rest) =
      ((rw same within, rw same path), IsAt-IsVisit k vs rest)

  visits-IsVisit :
      (n k : ℕ) (vs : List (Bit × ℕ)) (seen : Seen)
      → All (IsAt k) vs
      → All IsVisit (visits max_hops fanout useful n vs seen)
  unfolding visits
  visits-IsVisit zero k vs seen h = tt
  visits-IsVisit (suc n) k [] seen h = tt
  visits-IsVisit (suc n) k (v ∷ vs) seen h =
      let f = expand_all max_hops fanout useful (v ∷ vs) (record { seen = seen; next = [] }) in
      All-append IsVisit (v ∷ vs) (visits max_hops fanout useful n f.next f.seen)
        (IsAt-IsVisit k (v ∷ vs) h)
        (visits-IsVisit n (suc k) f.next f.seen
          (expand_all-IsAt k (v ∷ vs) (record { seen = seen; next = [] }) h tt))

  pub start_frontier-IsAt :
      (bs : List Bit)
      → ((b : Bit) → Within b bs → Within b sources)
      → All (IsAt 0) (start_frontier bs)
  unfolding start_frontier IsAt
  start_frontier-IsAt [] h = tt
  start_frontier-IsAt (b ∷ bs) h =
      ((refl, omega arith, source (h b (inl refl))), start_frontier-IsAt bs (λ c w. h c (inr w)))

  -- A visit of the walk is at its distance from the sources, and within the budget.
  pub walk_visits-IsVisit : All IsVisit (walk_visits max_hops fanout useful sources)
  unfolding walk_visits
  walk_visits-IsVisit =
      visits-IsVisit (suc max_hops) 0 (start_frontier sources) (mark (start_frontier sources) [])
        (start_frontier-IsAt sources (λ b w. w))
