-- ===== src/Pragma/Active.antt =====
-- Which lines the regions of src/rtl_buddy_cdc/pragma.py cover.
use rtl_buddy_cdc.Base.{
  ℕ, ◌≤◌, String, Bool, false, not, ◌&&◌, ◌||◌, Option, none, some, List, [], ◌∷◌, ◌++◌, ◌==◌, ◌≡◌,
  inl, inr, refl, ap, arith, string_eq, ltb, if◌then◌else◌, any, any-append, Dict, lookup, insert,
  remove, lookup-insert, Bool-cases,
}
use rtl_buddy_cdc.Waivers.{Waiver, in_line_scope}
use rtl_buddy_cdc.Pragma.{
  Event, Region, region_waiver, close_all, insert_sorted, sort, close, reopen,
}

-- No key stands twice in the dictionary.
unfoldable pub Unique : Dict String Region → Type 0
Unique [] = Unit
Unique ((k, v) ∷ d) = (lookup k d ≡ none) × Unique d

lookup_same :
    (j i : String) (d : Dict String Region) → lookup i d ≡ none → j ≡ i → lookup j d ≡ none
lookup_same j i d fresh same = rw same fresh

lookup-remove :
    (k j : String) (d : Dict String Region)
    → Unique d
    → lookup j (remove k d) ≡ (if j == k then none else lookup j d)
unfolding Unique lookup remove
lookup-remove k j [] u = ground arith
lookup-remove k j ((i, v) ∷ d) (fresh, u) = ground (
  arith,
  string_eq.beq_iff k i,
  string_eq.beq_iff j k,
  string_eq.beq_iff j i,
  lookup_same j i d fresh,
  lookup-remove k j d u,
)

pub Unique-remove : (k : String) (d : Dict String Region) → Unique d → Unique (remove k d)
unfolding Unique remove
Unique-remove k [] u = tt
Unique-remove k ((i, v) ∷ d) (fresh, u) = elim (Bool-cases (k == i)) [
  | inl same ↦ rw same u
  | inr other ↦ rw other (ground (arith, fresh, lookup-remove k i d u), Unique-remove k d u)
]

pub Unique-insert :
    (k : String) (v : Region) (d : Dict String Region) → Unique d → Unique (insert k v d)
unfolding Unique insert lookup
Unique-insert k v [] u = (refl, tt)
Unique-insert k v ((i, x) ∷ d) (fresh, u) = elim (Bool-cases (k == i)) [
  | inl same ↦ rw same (fresh, u)
  | inr other ↦ rw other (
    ground
        (arith, fresh, other, string_eq.beq_iff k i, string_eq.beq_iff i k, lookup-insert k i v d),
    Unique-insert k v d u,
  )
]

-- Whether the rule is disabled on the line, by the last of the events at or before the line.
unfoldable pub disabled_at : String → ℕ → Bool → List Event → Bool
disabled_at rule line before [] = before
disabled_at rule line before (e ∷ es) =
    disabled_at rule line (if rule == e.rule && not (ltb line e.line) then e.disabling else before)
      es

module _ {Pattern : Type 0} (regex : Pattern) (origin : String) (rule : String) (line : ℕ) where
  unfoldable pub covers : Waiver Pattern → Bool
  unfolding in_line_scope
  covers w = rule == w.rule_pattern && in_line_scope w (some line)

  unfoldable pub covers_open : Option Region → Bool
  covers_open none = false
  covers_open (some (start, reason)) = not (ltb line start)

  unfoldable pub covered : Dict String Region → List (Waiver Pattern) → Bool
  unfolding any
  covered regions out = any out covers || covers_open (lookup rule regions)

  -- The bounds of a region that `close` makes.
  closing : ℕ → Option Region → Bool
  closing end_line none = false
  closing end_line (some (start, reason)) = if ltb line start then false else ltb line end_line

  any-close :
      (r : String) (n : ℕ) (o : Option Region) (out : List (Waiver Pattern))
      → any (close regex origin r (some n) o out) covers
        ≡ (any out covers || (rule == r && closing n o))
  unfolding any close covers closing in_line_scope
  any-close r n none out = ground arith
  any-close r n (some (start, reason)) out =
      ground
        (arith, any-append out (region_waiver regex origin r (start, reason) (some n) ∷ []) covers)

  pub lookup-reopen :
      (e : Event) (d : Dict String Region)
      → Unique d
      → lookup rule (reopen regex origin e (remove e.rule d)) ≡ (
          if e.disabling && rule == e.rule
          then some (e.line, e.reason)
          else if rule == e.rule
          then none
          else lookup rule d)
  unfolding reopen
  lookup-reopen e d u = ground (
    arith,
    lookup-remove e.rule rule d u,
    lookup-insert e.rule rule (e.line, e.reason) (remove e.rule d),
  )

  -- One event, on Booleans: `closed` is what the closed regions cover.
  covered_step :
      (closed : Bool) (o : Option Region) (e : Event)
      → (e.line ≤ line → closed ≡ false)
      → ((closed || closing e.line o)
          || covers_open (if e.disabling then some (e.line, e.reason) else none))
        ≡ (if not (ltb line e.line) then e.disabling else closed || covers_open o)
  unfolding covers_open closing
  covered_step closed none e past = ground arith
  covered_step closed (some (start, reason)) e past = ground arith

  pub scan_event-covered :
      (e : Event) (regions : Dict String Region) (out : List (Waiver Pattern))
      → Unique regions
      → (e.line ≤ line → any out covers ≡ false)
      → covered
          (reopen regex origin e (remove e.rule regions))
          (close regex origin e.rule (some e.line) (lookup e.rule regions) out)
        ≡ (if rule == e.rule && not (ltb line e.line) then e.disabling else covered regions out)
  unfolding covered
  scan_event-covered e regions out u past = elim (Bool-cases (rule == e.rule)) [
    | inl same ↦
        let at_rule = ap (λ x. lookup x regions) ((string_eq.beq_iff rule e.rule).0 same) in
        ground (
          arith,
          at_rule,
          any-close e.rule e.line (lookup e.rule regions) out,
          lookup-reopen e regions u,
          covered_step (any out covers) (lookup rule regions) e past,
        )
    | inr other ↦
        ground
          (arith, any-close e.rule e.line (lookup e.rule regions) out, lookup-reopen e regions u)
  ]

  pub scan_event-past :
      (e : Event) (o : Option Region) (out : List (Waiver Pattern))
      → (e.line ≤ line → any out covers ≡ false)
      → e.line ≤ line
      → any (close regex origin e.rule (some e.line) o out) covers ≡ false
  unfolding closing
  scan_event-past e none out past le = ground (arith, any-close e.rule e.line none out)
  scan_event-past e (some (start, reason)) out past le =
      ground (arith, any-close e.rule e.line (some (start, reason)) out)

  any-insert_sorted :
      (p : Waiver Pattern → Bool) (w : Waiver Pattern) (ws : List (Waiver Pattern))
      → any (insert_sorted w ws) p ≡ (p w || any ws p)
  unfolding any insert_sorted
  any-insert_sorted p w [] = refl
  any-insert_sorted p w (x ∷ xs) = ground (arith, any-insert_sorted p w xs)

  pub any-sort :
      (p : Waiver Pattern → Bool) (ws : List (Waiver Pattern)) → any (sort ws) p ≡ any ws p
  unfolding any sort
  any-sort p [] = refl
  any-sort p (w ∷ ws) = ground (arith, any-insert_sorted p w (sort ws), any-sort p ws)

  pub close_all-covered :
      (d : Dict String Region) (out : List (Waiver Pattern))
      → Unique d
      → any (close_all regex origin d out) covers ≡ covered d out
  unfolding covered close_all covers_open any lookup in_line_scope covers Unique
  close_all-covered [] out u = ground arith
  close_all-covered ((k, (start, reason)) ∷ d) out (fresh, u) =
      let w = region_waiver regex origin k (start, reason) none in
      ground (
        arith,
        close_all-covered d (out ++ w ∷ []) u,
        any-append out (w ∷ []) covers,
        lookup_same rule k d fresh,
        string_eq.beq_iff rule k,
      )
