-- ===== src/Crossings/Walk.antt =====
-- The breadth-first walk of `find_crossings` (src/rtl_buddy_cdc/domain.py). The loop stands there
-- three times, for the three kinds of source: here it is one function of what a bit leads to
-- (`fanout`), of the pruning test (`useful`), and of what a landing records (`land`).
pub mod Visits
pub mod Push
pub mod Reach
pub mod Complete
pub mod Ends
use rtl_buddy_cdc.Base.{
  ℕ, zero, suc, Bool, true, false, ◌&&◌, ◌||◌, not, Option, none, some, List, [], ◌∷◌, ◌++◌, ltb,
  leb, if◌then◌else◌, Dict, lookup, insert,
}
use rtl_buddy_cdc.Netlist.{Bit, bit_eq}

-- The dictionary `seen`, and `next_frontier`.
pub record Front : Type 0 where
  pub seen : Dict Bit ℕ
  pub next : List (Bit × ℕ)

unfoldable pub is_nearer : ℕ → Option ℕ → Bool
is_nearer hops none = true
is_nearer hops (some prev) = ltb hops prev

unfoldable pub push : ℕ → Bit → Front → Front
unfolding is_nearer
push new_hops ob f =
    if is_nearer new_hops (lookup ob f.seen)
    then record { seen = insert ob new_hops f.seen; next = f.next ++ (ob, new_hops) ∷ [] }
    else f

unfoldable pub push_all : ℕ → List Bit → Front → Front
unfolding push
push_all new_hops [] f = f
push_all new_hops (ob ∷ obs) f = push_all new_hops obs (push new_hops ob f)

-- `for b, h in frontier: seen[b] = h`
unfoldable pub mark : List (Bit × ℕ) → Dict Bit ℕ → Dict Bit ℕ
mark [] seen = seen
mark ((b, h) ∷ frontier) seen = mark frontier (insert b h seen)

unfoldable pub start_frontier : List Bit → List (Bit × ℕ)
start_frontier [] = []
start_frontier (b ∷ bs) = (b, 0) ∷ start_frontier bs

module _ (max_hops : ℕ) (fanout : Bit → List Bit) (useful : Bit → ℕ → Bool) where
  -- `hops >= max_hops or not useful(bit, hops)` ends the way here.
  unfoldable pub expand : Bit → ℕ → Front → Front
  unfolding push_all
  expand bit hops f =
      if leb max_hops hops || not (useful bit hops) then f else push_all (suc hops) (fanout bit) f

module _ {G : Type 0} (max_hops : ℕ) (fanout : Bit → List Bit) (useful : Bit → ℕ → Bool)
    (land : Bit → ℕ → G → G) where
  -- The loop over the frontier.
  unfoldable pub level : List (Bit × ℕ) → Front → G → Front × G
  unfolding expand
  level [] f g = (f, g)
  level ((bit, hops) ∷ frontier) f g =
      level frontier (expand max_hops fanout useful bit hops f) (land bit hops g)

  -- `while frontier`, for a number of levels.
  unfoldable pub walk_levels : ℕ → List (Bit × ℕ) → Dict Bit ℕ → G → List (Bit × ℕ) × G
  unfolding level
  walk_levels zero frontier seen g = (frontier, g)
  walk_levels (suc n) [] seen g = ([], g)
  walk_levels (suc n) (item ∷ frontier) seen g =
      let (f, g') = level (item ∷ frontier) (record { seen = seen; next = [] }) g in
      walk_levels n f.next f.seen g'

  -- From the sources, all at hop 0: behind `max_hops` hops nothing expands, so that one more level
  -- than that empties the frontier.
  unfoldable pub walk : List Bit → G → G
  unfolding walk_levels mark start_frontier
  walk sources g =
      (walk_levels (suc max_hops) (start_frontier sources) (mark (start_frontier sources) []) g).1
