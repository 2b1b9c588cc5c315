-- ===== src/Rules/Groups.antt =====
-- The rules of src/rtl_buddy_cdc/rules.py on the crossings from one flop into one domain: `check_cdc_005`,
-- with `_boundary_reconvergence`, and `check_cdc_018`.
use mathlib.Core.Option.{get_or}
use rtl_buddy_cdc.Base.{
  precedes, pair_precedes, sorted, ℕ, suc, String, Bool, true, false, not, ◌&&◌, ◌||◌, Option, none,
  some, List, [], ◌∷◌, ◌++◌, ◌==◌, nat_eq, string_eq, pair_eq, ltb, leb, map, if◌then◌else◌, any,
  contains, length, Dict, keys, values, lookup, insert,
}
use rtl_buddy_cdc.Netlist.{is_net}
use rtl_buddy_cdc.Netlist.Flops.{Flop, flop_name}
use rtl_buddy_cdc.Domain.{Crossing}
use rtl_buddy_cdc.Rules.{reconvergent, cascaded, Violation, RuleContext, on_crossing, on_cell}
use rtl_buddy_cdc.Rules.Fanin.{add_member, forward_reachable_cells}
use rtl_buddy_cdc.Rules.Chain.{sync_chain_depth, sync_chain_flops, effective_sync_chain_depth}
use rtl_buddy_cdc.Rules.Single.{dst_name}

abbrev pub CrossingGroups : Type 0
CrossingGroups = Dict (String × String) (List Crossing)

-- `grouped[key].append(c)`, of a `defaultdict(list)`.
unfoldable pub group_under : String × String → Crossing → CrossingGroups → CrossingGroups
unfolding lookup insert
group_under key c out = insert key (get_or (lookup key out) [] ++ c ∷ []) out

-- `counts[name] += 1` for each name.
unfoldable pub count_names : List String → Dict String ℕ → Dict String ℕ
unfolding lookup insert
count_names [] counts = counts
count_names (n ∷ ns) counts = count_names ns (insert n (suc (get_or (lookup n counts) 0)) counts)

-- `names - others`
unfoldable pub without : List String → List String → List String
unfolding contains
without [] others = []
without (n ∷ ns) others =
    let rest = without ns others in if contains others n then rest else n ∷ rest

-- `names & others`
unfoldable pub within_both : List String → List String → List String
unfolding contains
within_both [] others = []
within_both (n ∷ ns) others =
    let rest = within_both ns others in if contains others n then n ∷ rest else rest

unfoldable pub last_flop : Flop → List Flop → Flop
last_flop f [] = f
last_flop f (g ∷ gs) = last_flop g gs

module _ (ctx : RuleContext) where
  unfoldable pub group_crossing : Option Flop → Crossing → CrossingGroups → CrossingGroups
  unfolding effective_sync_chain_depth group_under
  group_crossing none c out = out
  group_crossing (some src) c out =
      if c.width == 1 && not (ltb (effective_sync_chain_depth ctx c.dst_flop c.dst_clock) 2)
      then group_under (flop_name src, c.dst_clock) c out
      else out

  unfoldable pub group_crossings : List Crossing → CrossingGroups → CrossingGroups
  unfolding group_crossing
  group_crossings [] out = out
  group_crossings (c ∷ cs) out = group_crossings cs (group_crossing c.src_flop c out)

  -- The cells behind the end of a crossing's chain that are none of its flops.
  unfoldable pub reached_behind : List Flop → List String
  unfolding forward_reachable_cells without last_flop
  reached_behind [] = []
  reached_behind (f ∷ fs) =
      without (forward_reachable_cells ctx.circuit ctx.bit_consumers (last_flop f fs).q)
        (map flop_name (f ∷ fs))

  unfoldable pub appearances : List Crossing → Dict String ℕ → Dict String ℕ
  unfolding reached_behind sync_chain_flops count_names
  appearances [] counts = counts
  appearances (c ∷ cs) counts =
      appearances cs
        (count_names (reached_behind (sync_chain_flops ctx c.dst_flop c.dst_clock)) counts)

  -- `by_instance[c.dst_boundary[0]].add(c.dst_boundary[1])`
  unfoldable pub entered_ports :
      List Crossing → Dict String (List String) → Dict String (List String)
  unfolding lookup insert add_member
  entered_ports [] out = out
  entered_ports (c ∷ cs) out = elim c.dst_boundary [
    | none ↦ entered_ports cs out
    | some (inst, port) ↦
        entered_ports cs (insert inst (add_member port (get_or (lookup inst out) [])) out)
  ]

  unfoldable pub recorded_hit : List String → List (List String) → Option (List String)
  unfolding within_both sorted
  recorded_hit entered [] = none
  recorded_hit entered (recorded ∷ others) =
      let rest = recorded_hit entered others in
      let hit = within_both entered recorded in
      if leb 2 (length hit) then some (sorted precedes hit) else rest

  unfoldable pub first_hit : Dict String (List String) → List String → Option (String × List String)
  unfolding recorded_hit lookup
  first_hit by_instance [] = none
  first_hit by_instance (inst ∷ others) =
      let entered = get_or (lookup inst by_instance) [] in
      let rest = first_hit by_instance others in
      if ltb (length entered) 2
      then rest
      else (elim (recorded_hit entered (get_or (lookup inst ctx.boundary_reconvergence) [])) [
        | none ↦ rest
        | some ports ↦ some (inst, ports)
      ])

  -- With nothing recorded there is no hit, so the early return needs no clause of its own.
  unfoldable pub boundary_reconvergence_of : List Crossing → Option (String × List String)
  unfolding first_hit entered_ports sorted keys
  boundary_reconvergence_of group =
      let by_instance = entered_ports group [] in
      first_hit by_instance (sorted precedes (keys by_instance))

  abbrev is_present : Option (String × List String) → Bool
  is_present none = false
  is_present (some where_) = true

  unfoldable pub report_005 : CrossingGroups → List Violation
  unfolding appearances boundary_reconvergence_of sorted any values
  report_005 [] = []
  report_005 ((key, []) ∷ groups) = report_005 groups
  report_005 (((src, dst_clock), c ∷ cs) ∷ groups) =
      let rest = report_005 groups in
      let inside = boundary_reconvergence_of (c ∷ cs) in
      let meets = any (values (appearances (c ∷ cs) [])) (λ count. leb 2 count) in
      if leb 2 (length (c ∷ cs)) && (is_present inside || meets)
      then on_crossing "CDC-005" "warning"
          (reconvergent src (length (c ∷ cs)) dst_clock (sorted precedes (map dst_name (c ∷ cs)))
            inside)
          c src
        ∷ rest
      else rest

  unfoldable pub check_cdc_005 : List Crossing → List Violation
  unfolding report_005 group_crossings
  check_cdc_005 crossings = report_005 (group_crossings crossings [])

  abbrev pub Deepest : Type 0
  Deepest = Dict (String × String) (ℕ × Flop)

  -- `prev is None or depth > prev[0]`
  unfoldable pub keep_deepest : String × String → ℕ → Flop → Deepest → Deepest
  unfolding lookup insert
  keep_deepest key depth head best = elim (lookup key best) [
    | none ↦ insert key (depth, head) best
    | some (found, flop) ↦ if ltb found depth then insert key (depth, head) best else best
  ]

  unfoldable pub deepen : ℕ → Crossing → Option Flop → Deepest → Deepest
  unfolding contains any is_net sync_chain_depth keep_deepest
  deepen threshold c none best = best
  deepen threshold c (some src) best =
      let depth = sync_chain_depth ctx c.dst_flop c.dst_clock in
      if contains ctx.user_syncs (dst_name c)
        || not (length c.dst_flop.q == 1 && length c.dst_flop.d == 1)
        || not (any c.dst_flop.q is_net && any c.dst_flop.d is_net)
        || ltb depth threshold
      then best
      else keep_deepest (flop_name src, c.dst_clock) depth c.dst_flop best

  unfoldable pub deepest_chains : ℕ → List Crossing → Deepest → Deepest
  unfolding deepen
  deepest_chains threshold [] best = best
  deepest_chains threshold (c ∷ cs) best =
      deepest_chains threshold cs (deepen threshold c c.src_flop best)

  -- The keys are different, so that the depths never decide the order.
  abbrev entry_precedes : (String × String) × (ℕ × Flop) → (String × String) × (ℕ × Flop) → Bool
  entry_precedes (key, v) (other, w) = pair_precedes key other

  abbrev pub report_018 : (String × String) × (ℕ × Flop) → Violation
  report_018 ((src, dst_clock), (depth, head)) =
      on_cell "CDC-018" "warning" (cascaded depth dst_clock (flop_name head) src) (flop_name head)

  -- `none` is the `ValueError` on a threshold below two.
  unfoldable pub check_cdc_018 : ℕ → List Crossing → Option (List Violation)
  unfolding deepest_chains sorted
  check_cdc_018 threshold crossings =
      if ltb threshold 2
      then none
      else some (map report_018 (sorted entry_precedes (deepest_chains threshold crossings [])))
