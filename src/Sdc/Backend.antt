-- ===== src/Sdc/Backend.antt =====
-- `_resolve_backend` of src/rtl_buddy_cdc/sdc.py: which reader a parse takes. The environment's value,
-- whether the Tcl worker answers, and `str.lower` are arguments. The warning about a missing Tcl is
-- only logged.
use rtl_buddy_cdc.Base.{
  String, Bool, true, false, not, ◌&&◌, Option, none, some, List, [], ◌∷◌, ◌==◌, ◌≡◌, ◌⊎◌, inl, inr,
  refl, arith, string_eq, if◌then◌else◌, contains, Bool-cases, Option-cases,
}
use rtl_buddy_cdc.Sdc.Tokenizer.{Text, chars, join}
use rtl_buddy_cdc.Text.{strip}

abbrev pub backends : List String
backends = "tcl" ∷ "tokenizer" ∷ []

-- The request, where there is one: the argument counts before the environment.
unfoldable pub requested : Option String → Option String → Option String
requested none environment = environment
requested (some explicit) environment = some explicit

unfoldable pub automatic : Bool → String
automatic tcl_available = if tcl_available then "tcl" else "tokenizer"

-- A failure carries the request.
unfoldable pub named_backend : Bool → String → String → String ⊎ String
unfolding contains
named_backend tcl_available request name =
    if contains backends name
    then inr (if name == "tcl" && not tcl_available then "tokenizer" else name)
    else inl request

module _ (lower : Text → Text) where
  -- The name that a request means: none if it is blank.
  unfoldable pub backend_name : String → Option String
  unfolding strip
  backend_name request = elim (strip (chars request)) [
    | [] ↦ none
    | c ∷ cs ↦ some (join (lower (c ∷ cs)))
  ]

  unfoldable pub resolve_request : Bool → Option String → String ⊎ String
  unfolding automatic named_backend backend_name
  resolve_request tcl_available none = inr (automatic tcl_available)
  resolve_request tcl_available (some request) = elim (backend_name request) [
    | none ↦ inr (automatic tcl_available)
    | some name ↦ named_backend tcl_available request name
  ]

  unfoldable pub resolve_backend : Option String → Option String → Bool → String ⊎ String
  unfolding requested resolve_request
  resolve_backend explicit environment tcl_available =
      resolve_request tcl_available (requested explicit environment)

  -- What a request leads to.
  pub Outcome : Bool → Option String → String ⊎ String → Type 0
  Outcome tcl_available request (inr name) =
      ((name ≡ "tcl") × (tcl_available ≡ true)) ⊎ (name ≡ "tokenizer")
  Outcome tcl_available request (inl refused) =
      (name : String) × (request ≡ some refused)
      × (backend_name refused ≡ some name)
      × (contains backends name ≡ false)

  automatic-Outcome :
      (tcl_available : Bool) (request : Option String)
      → Outcome tcl_available request (inr (automatic tcl_available))
  unfolding automatic Outcome
  automatic-Outcome true request = inl (refl, refl)
  automatic-Outcome false request = inr refl

  known_name :
      (tcl_available : Bool) (name : String)
      → contains backends name ≡ true
      → (name == "tcl" && not tcl_available) ≡ false
      → ((name ≡ "tcl") × (tcl_available ≡ true)) ⊎ (name ≡ "tokenizer")
  unfolding contains
  known_name tcl_available name known stays = elim (Bool-cases (name == "tcl")) [
    | inl is_tcl ↦ inl ((string_eq.beq_iff name "tcl").0 is_tcl, ground (arith, is_tcl, stays))
    | inr other ↦ inr ((string_eq.beq_iff name "tokenizer").0 (ground (arith, other, known)))
  ]

  named_backend-Outcome :
      (tcl_available : Bool) (request name : String)
      → backend_name request ≡ some name
      → Outcome tcl_available (some request) (named_backend tcl_available request name)
  unfolding named_backend Outcome
  named_backend-Outcome tcl_available request name means =
      elim (Bool-cases (contains backends name)) [
        | inr unknown ↦ rw unknown (name, refl, means, unknown)
        | inl known ↦ elim (Bool-cases (name == "tcl" && not tcl_available)) [
          | inl degrades ↦ rw (known, degrades) (inr refl)
          | inr stays ↦ rw (known, stays) (known_name tcl_available name known stays)
        ]
      ]

  resolve_request-Outcome :
      (tcl_available : Bool) (request : Option String)
      → Outcome tcl_available request (resolve_request tcl_available request)
  unfolding resolve_request
  resolve_request-Outcome tcl_available none = automatic-Outcome tcl_available none
  resolve_request-Outcome tcl_available (some request) =
      elim (Option-cases (backend_name request)) [
        | inl blank ↦ rw (resolve_request, blank) (automatic-Outcome tcl_available (some request))
        | inr (name, means) ↦
            rw (resolve_request, means) (named_backend-Outcome tcl_available request name means)
      ]

  -- A failure carries a request that is not blank and names no backend; a chosen backend is the
  -- tokenizer, or Tcl where the worker answers.
  pub resolve_backend-Outcome :
      (explicit environment : Option String) (tcl_available : Bool)
      → Outcome tcl_available
          (requested explicit environment)
          (resolve_backend explicit environment tcl_available)
  unfolding resolve_backend
  resolve_backend-Outcome explicit environment tcl_available =
      resolve_request-Outcome tcl_available (requested explicit environment)
