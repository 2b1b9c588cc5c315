-- ===== src/Pragma/Scan.antt =====
-- What the scan of a source (`scan_text` of src/rtl_buddy_cdc/pragma.py) disables.
use rtl_buddy_cdc.Base.{
  ℕ, suc, ◌≤◌, String, Bool, false, ◌&&◌, Option, none, some, List, [], ◌∷◌, ◌++◌, ◌==◌, ◌≡◌, inl,
  inr, refl, ap, ◌∙◌, arith, string_eq, any, Dict, lookup, remove, map, Bool-cases,
}
use rtl_buddy_cdc.Text.{splitlines, strip}
use rtl_buddy_cdc.Sdc.Tokenizer.{Text, join}
use rtl_buddy_cdc.Waivers.{Patterns, Waiver, in_line_scope}
use rtl_buddy_cdc.Pragma.{
  PragmaMatch, Event, Region, line_events, events, clean_reason, scan_event, scan_events, close_all,
  finish, close, reopen, scan_lines, scan_text,
}
use rtl_buddy_cdc.Pragma.Active.{
  Unique, Unique-remove, Unique-insert, disabled_at, covers, covered, covers_open,
  scan_event-covered, scan_event-past, any-sort, close_all-covered,
}

-- The events come line by line, from the given line on.
Ascending : ℕ → List Event → Type 0
Ascending n [] = Unit
Ascending n (e ∷ es) = (n ≤ e.line) × Ascending e.line es

Ascending-le : (n m : ℕ) (es : List Event) → n ≤ m → Ascending m es → Ascending n es
unfolding Ascending
Ascending-le n m [] le h = tt
Ascending-le n m (e ∷ es) le (first, rest) = (omega (arith, le, first), rest)

module _ {Pattern : Type 0} (regex : Pattern) (origin : String) (rule : String) (line : ℕ) where
  Unique-reopen :
      (e : Event) (d : Dict String Region)
      → Unique d
      → Unique (reopen regex origin e (remove e.rule d))
  unfolding reopen
  Unique-reopen e d u = elim (Bool-cases e.disabling) [
    | inl on ↦
        rw on (Unique-insert e.rule (e.line, e.reason) (remove e.rule d) (Unique-remove e.rule d u))
    | inr off ↦ rw off (Unique-remove e.rule d u)
  ]

  scan_events-covered :
      (n : ℕ) (es : List Event) (regions : Dict String Region) (out : List (Waiver Pattern))
      → Ascending n es
      → Unique regions
      → (n ≤ line → any out (covers regex origin rule line) ≡ false)
      → any
          (finish regex origin (scan_events regex origin es (regions, out)))
          (covers regex origin rule line)
        ≡ disabled_at rule line (covered regex origin rule line regions out) es
  unfolding scan_events scan_event disabled_at finish Ascending
  scan_events-covered n [] regions out asc u past =
      any-sort regex origin rule line (covers regex origin rule line)
        (close_all regex origin regions out)
      ∙ close_all-covered regex origin rule line regions out u
  scan_events-covered n (e ∷ es) regions out (first, rest) u past =
      let was_past = λ (le : e.line ≤ line). past (omega (arith, first, le)) in
      let o = lookup e.rule regions in
      scan_events-covered e.line es (reopen regex origin e (remove e.rule regions))
        (close regex origin e.rule (some e.line) o out) rest (Unique-reopen e regions u)
        (scan_event-past regex origin rule line e o out was_past)
      ∙ ap (λ before. disabled_at rule line before es)
          (scan_event-covered regex origin rule line e regions out u was_past)

line_events-Ascending :
    (n m : ℕ) (words : List Text) (reason : String) (disabling : Bool) (rest : List Event)
    → n ≤ m
    → ((k : ℕ) → k ≤ m → Ascending k rest)
    → Ascending n (
        map
          (λ w. record { line = m; rule = join (strip w); disabling = disabling; reason = reason })
          words
        ++ rest)
unfolding Ascending
line_events-Ascending n m [] reason disabling rest le later = later n le
line_events-Ascending n m (w ∷ ws) reason disabling rest le later =
    (le, line_events-Ascending m m ws reason disabling rest (omega arith) later)

module _ (find : Text → Option PragmaMatch) where
  events_line :
      (n : ℕ) (o : Option PragmaMatch) (rest : List Event)
      → Ascending (suc n) rest
      → Ascending n (line_events n o ++ rest)
  unfolding line_events
  events_line n none rest later = Ascending-le n (suc n) rest (omega arith) later
  events_line n (some m) rest later =
      line_events-Ascending n n _ (clean_reason m.reason) (m.verb == "disable-rule") rest
        (omega arith) (λ k le. Ascending-le k (suc n) rest (omega (arith, le)) later)

  events-Ascending : (n : ℕ) (ls : List Text) → Ascending n (events find n ls)
  unfolding events Ascending
  events-Ascending n [] = tt
  events-Ascending n (l ∷ ls) =
      events_line n (find l) (events find (suc n) ls) (events-Ascending (suc n) ls)

-- A line of a source is within the scope of a waiver for the rule, among those that the scan of
-- the source gives, exactly when the last pragma for the rule at or before the line disables it;
-- the pattern of the file's name must compile.
pub scan_text-disabled_at :
    (re : Patterns) (find : Text → Option PragmaMatch) (text : Text) (path_name path : String)
    (regex : re.Pattern) (rule : String) (line : ℕ)
    → re.compile (re.escape path_name) ≡ some regex
    → any
        (scan_text re find text path_name path)
        (λ w. rule == w.rule_pattern && in_line_scope w (some line))
      ≡ disabled_at rule line false (events find 1 (splitlines text))
unfolding scan_text scan_lines covers Unique any covered covers_open lookup
scan_text-disabled_at re find text path_name path regex rule line e = rw e (
    scan_events-covered regex path rule line 1 (events find 1 (splitlines text)) [] []
      (events-Ascending find 1 (splitlines text)) tt (λ le. refl))
