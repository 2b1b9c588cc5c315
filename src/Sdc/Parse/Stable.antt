-- ===== src/Sdc/Parse/Stable.antt =====
-- The commands of a source (src/rtl_buddy_cdc/sdc.py, `parse`) only add declarations.
use rtl_buddy_cdc.Base.{
  ℕ, String, Bool, true, Option, List, [], ◌∷◌, ◌≡◌, ◌≢◌, string_eq, any, any-append, lookup,
  Option-cases, inl, inr,
}
use rtl_buddy_cdc.Sdc.Args.{Parsed}
use rtl_buddy_cdc.Sdc.Numbers.{Numbers}
use rtl_buddy_cdc.Sdc.Spec.{ClockSpec, separates, are_async}
use rtl_buddy_cdc.Sdc.Spec.Relation.{are_async_of_separates}
use rtl_buddy_cdc.Sdc.Commands.Table.{arg_specs}
use rtl_buddy_cdc.Sdc.Commands.Keeps.{
  Longer, Extends, Extends-refl, Extends-trans, Extends-warn, Extends-if,
  handle_create_clock-Extends, handle_create_generated_clock-Extends,
  handle_set_clock_groups-Extends, handle_set_false_path-Extends, handle_set_delay-Extends,
}
use rtl_buddy_cdc.Sdc.Parse.{Command, dispatch, run_words, run}

module _ (numbers : Numbers) where
  open numbers use {Float}

  dispatch-Extends :
      (cmd : String) (p : Parsed) (s : ClockSpec Float) → Extends s (dispatch numbers cmd p s)
  unfolding dispatch
  dispatch-Extends cmd p s =
      search
        (
          Extends-if, handle_create_clock-Extends, handle_create_generated_clock-Extends,
          handle_set_clock_groups-Extends, handle_set_false_path-Extends, handle_set_delay-Extends,
        )
        depth 8

  run_words-Extends :
      (ws : List String) (line : Option ℕ) (s : ClockSpec Float)
      → Extends s (run_words numbers ws line s)
  unfolding run_words
  run_words-Extends [] line s = Extends-refl s
  run_words-Extends (cmd ∷ args) line s = elim (Option-cases (lookup cmd arg_specs)) [
    | inl ignored ↦ rw (ignored, run_words) (search (Extends-if, Extends-warn, Extends-refl))
    | inr (spec, e) ↦
        rw (e, run_words) (search (Extends-if, Extends-warn, Extends-refl, dispatch-Extends))
  ]

  -- Whatever commands a source holds, well-formed or not, every `set_clock_groups` and
  -- `set_false_path` declaration that the spec had is still in its place behind them.
  pub run-Extends : (cs : List Command) (s : ClockSpec Float) → Extends s (run numbers cs s)
  unfolding run
  run-Extends [] s = Extends-refl s
  run-Extends (c ∷ cs) s =
      Extends-trans (run_words-Extends c.words c.line s)
        (run-Extends cs (run_words numbers c.words c.line s))

any-Longer {ℓ} :
    {A : Type ℓ} {xs ys : List A} (p : A → Bool) → Longer xs ys → any xs p ≡ true → any ys p ≡ true
any-Longer {xs = xs} p h k = rw (h.appended, any-append xs h.more p, k)

module _ (numbers : Numbers) where
  open numbers use {Float}

  -- Once a `set_clock_groups -asynchronous` statement separates two clocks, no later command makes
  -- them synchronous again, not even one that declares new masters for them.
  pub separated_stays_async :
      (cs : List Command) (s : ClockSpec Float) (a b : String)
      → a ≢ b
      → separates s.async_groups a b ≡ true
      → are_async (run numbers cs s) a b ≡ true
  unfolding separates
  separated_stays_async cs s a b n h =
      are_async_of_separates (run numbers cs s) a b n
        (any-Longer _ (run-Extends numbers cs s).async h)
