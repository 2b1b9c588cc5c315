-- ===== src/Crossings/Walk/Ends.antt =====
-- That the levels of the walk of `find_crossings` (src/rtl_buddy_cdc/domain.py) are enough.
use rtl_buddy_cdc.Base.{
  ℕ, zero, suc, ◌+◌, Bool, List, [], ◌∷◌, ◌≡◌, refl, ap, ◌∙◌, arith, Dict, All,
}
use rtl_buddy_cdc.Netlist.{Bit}
use rtl_buddy_cdc.Crossings.Walk.{Front, walk_levels, mark, start_frontier}
use rtl_buddy_cdc.Crossings.Walk.Visits.{expand_all, land_all, level-split}
use rtl_buddy_cdc.Crossings.Walk.Reach.{IsAt, expand_all-IsAt, start_frontier-IsAt}

module _ {G : Type 0} (max_hops : ℕ) (fanout : Bit → List Bit) (useful : Bit → ℕ → Bool)
    (land : Bit → ℕ → G → G) (sources : List Bit) where
  levels_end :
      (n k : ℕ) (vs : List (Bit × ℕ)) (seen : Dict Bit ℕ) (g : G)
      → n + k ≡ suc max_hops
      → All (IsAt max_hops fanout useful sources k) vs
      → (walk_levels max_hops fanout useful land n vs seen g).0 ≡ []
  unfolding walk_levels IsAt
  levels_end zero k [] seen g e at = refl
  levels_end zero k ((b, h) ∷ vs) seen g e ((same, within, path), at) =
      absurd (omega (arith, e, within))
  levels_end (suc n) k [] seen g e at = refl
  levels_end (suc n) k (v ∷ vs) seen g e at =
      let f0 : Front = record { seen = seen; next = [] } in
      let f = expand_all max_hops fanout useful (v ∷ vs) f0 in
      ap (λ (q : Front × G). (walk_levels max_hops fanout useful land n q.0.next q.0.seen q.1).0)
        (level-split max_hops fanout useful land (v ∷ vs) f0 g)
      ∙ levels_end n (suc k) f.next f.seen (land_all land (v ∷ vs) g) (omega (arith, e))
          (expand_all-IsAt max_hops fanout useful sources k (v ∷ vs) f0 at tt)

  -- The frontier is empty behind one level more than `max_hops`, whatever leads on from a bit,
  -- whatever is pruned and whatever the landings record: the loop of the walk ends within the
  -- levels that `walk` takes.
  pub walk_levels-end :
      (g : G)
      → (walk_levels max_hops fanout useful land
          (suc max_hops)
          (start_frontier sources)
          (mark (start_frontier sources) [])
          g).0
        ≡ []
  walk_levels-end g =
      levels_end (suc max_hops) 0 (start_frontier sources) (mark (start_frontier sources) []) g
        (omega arith) (start_frontier-IsAt max_hops fanout useful sources sources (λ b w. w))
