-- ===== src/Crossings/Walk/Visits.antt =====
-- The visits of the walk of `find_crossings` (src/rtl_buddy_cdc/domain.py): what the landings record
-- does not change where the walk goes.
use mathlib.Core.Path.{subst}
use rtl_buddy_cdc.Base.{
  ℕ, zero, suc, Bool, List, [], ◌∷◌, ◌++◌, ◌≡◌, inl, inr, refl, ap, sym, ◌∙◌, Dict, Within,
}
use rtl_buddy_cdc.Netlist.{Bit, bit_eq}
use rtl_buddy_cdc.Crossings.Walk.{Front, expand, level, walk_levels, mark, start_frontier, walk}

module _ (max_hops : ℕ) (fanout : Bit → List Bit) (useful : Bit → ℕ → Bool) where
  unfoldable pub expand_all : List (Bit × ℕ) → Front → Front
  expand_all [] f = f
  expand_all ((b, h) ∷ vs) f = expand_all vs (expand max_hops fanout useful b h f)

  -- The items of the frontiers, in the order in which the walk comes to them.
  unfoldable pub visits : ℕ → List (Bit × ℕ) → Dict Bit ℕ → List (Bit × ℕ)
  visits zero frontier seen = []
  visits (suc n) [] seen = []
  visits (suc n) (v ∷ vs) seen =
      let f = expand_all (v ∷ vs) (record { seen = seen; next = [] }) in
      (v ∷ vs) ++ visits n f.next f.seen

  unfoldable pub walk_visits : List Bit → List (Bit × ℕ)
  unfolding visits
  walk_visits sources =
      visits (suc max_hops) (start_frontier sources) (mark (start_frontier sources) [])

module _ {G : Type 0} (land : Bit → ℕ → G → G) where
  unfoldable pub land_all : List (Bit × ℕ) → G → G
  land_all [] g = g
  land_all ((b, h) ∷ vs) g = land_all vs (land b h g)

  land_all-append :
      (vs ws : List (Bit × ℕ)) (g : G) → land_all (vs ++ ws) g ≡ land_all ws (land_all vs g)
  unfolding land_all
  land_all-append [] ws g = refl
  land_all-append ((b, h) ∷ vs) ws g = land_all-append vs ws (land b h g)

  -- What every landing keeps holds behind all of them.
  pub land_all-ind :
      (Q : G → Type 0) (vs : List (Bit × ℕ)) (g : G)
      → ((b : Bit) (h : ℕ) (g : G) → Within (b, h) vs → Q g → Q (land b h g))
      → Q g
      → Q (land_all vs g)
  unfolding land_all
  land_all-ind Q [] g keeps q = q
  land_all-ind Q ((b, h) ∷ vs) g keeps q =
      land_all-ind Q vs (land b h g) (λ c k g w. keeps c k g (inr w)) (keeps b h g (inl refl) q)

  -- What one of the landings brings about, and the others keep.
  pub land_all-Within :
      (Q : G → Type 0) (vs : List (Bit × ℕ)) (g : G) (v : Bit × ℕ)
      → ((b : Bit) (h : ℕ) (g : G) → Q g → Q (land b h g))
      → ((g : G) → Q (land v.0 v.1 g))
      → Within v vs
      → Q (land_all vs g)
  unfolding land_all
  land_all-Within Q [] g v keeps hit w = absurd w
  land_all-Within Q ((b, h) ∷ vs) g v keeps hit (inl same) =
      land_all-ind Q vs (land b h g) (λ c k g w q. keeps c k g q)
        (subst (λ (u : Bit × ℕ). Q (land u.0 u.1 g)) same (hit g))
  land_all-Within Q ((b, h) ∷ vs) g v keeps hit (inr w) =
      land_all-Within Q vs (land b h g) v keeps hit w

module _ {G : Type 0} (max_hops : ℕ) (fanout : Bit → List Bit) (useful : Bit → ℕ → Bool)
    (land : Bit → ℕ → G → G) where
  pub level-split :
      (vs : List (Bit × ℕ)) (f : Front) (g : G)
      → level max_hops fanout useful land vs f g
        ≡ (expand_all max_hops fanout useful vs f, land_all land vs g)
  unfolding level expand_all land_all
  level-split [] f g = refl
  level-split ((b, h) ∷ vs) f g = level-split vs (expand max_hops fanout useful b h f) (land b h g)

  walk_levels-visits :
      (n : ℕ) (vs : List (Bit × ℕ)) (seen : Dict Bit ℕ) (g : G)
      → (walk_levels max_hops fanout useful land n vs seen g).1
        ≡ land_all land (visits max_hops fanout useful n vs seen) g
  unfolding walk_levels visits land_all
  walk_levels-visits zero vs seen g = refl
  walk_levels-visits (suc n) [] seen g = refl
  walk_levels-visits (suc n) (v ∷ vs) seen g =
      let f0 : Front = record { seen = seen; next = [] } in
      let f = expand_all max_hops fanout useful (v ∷ vs) f0 in
      let g' = land_all land (v ∷ vs) g in
      ap (λ (q : Front × G). (walk_levels max_hops fanout useful land n q.0.next q.0.seen q.1).1)
        (level-split (v ∷ vs) f0 g)
      ∙ walk_levels-visits n f.next f.seen g'
      ∙ sym (land_all-append land (v ∷ vs) (visits max_hops fanout useful n f.next f.seen) g)

  pub walk-visits :
      (sources : List Bit) (g : G)
      → walk max_hops fanout useful land sources g
        ≡ land_all land (walk_visits max_hops fanout useful sources) g
  unfolding walk walk_visits
  walk-visits sources g =
      walk_levels-visits (suc max_hops) (start_frontier sources) (mark (start_frontier sources) [])
        g
