-- ===== src/Sdc/Tokenizer/Words.antt =====
-- How the reader of src/rtl_buddy_cdc/tcl_tokenizer.py goes through one word.
use mathlib.Core.List.{append_assoc, append-nil}
use rtl_buddy_cdc.Base.{
  ℕ, suc, Char, code, String, List, [], ◌∷◌, ◌++◌, ◌≢◌, ◌≡◌, refl, ap, ◌∙◌, nat_eq, if◌then◌else◌,
  All, length, arith,
}
use rtl_buddy_cdc.Sdc.Tokenizer.{Text, join, is, Reader, bracket_body, quoted_body, step, read}
use rtl_buddy_cdc.Sdc.Tokenizer.Source.{
  IsPlain, IsFirst, Balanced, done, other, group, brace_open, bracket_open, quote, backslash,
  escape,
}

abbrev pub at : List (List String) → List String → Text → Reader
at ls cur w = record { lines = ls; current = cur; word = w }

read_skip : (r : Reader) (xs ys : Text) → read r (length xs) (xs ++ ys) ≡ read r 0 ys
unfolding read
read_skip r [] ys = refl
read_skip r (x ∷ xs) ys = read_skip r xs ys

pub read-step :
    (r r' : Reader) (c : Char) (xs ys : Text)
    → step r c (xs ++ ys) ≡ (r', length xs)
    → read r 0 (c ∷ (xs ++ ys)) ≡ read r' 0 ys
unfolding read
read-step r r' c xs ys e = rw (e, read) (read_skip r' xs ys)

module _ (ls : List (List String)) (cur : List String) where
  step_plain :
      (c : Char) (w : Char) (ws rest : Text)
      → IsPlain c
      → step (at ls cur (w ∷ ws)) c rest ≡ (at ls cur (w ∷ (ws ++ c ∷ [])), 0)
  unfolding step
  step_plain c w ws rest h = ground arith

  pub step_first :
      (c : Char) (rest : Text) → IsFirst c → step (at ls cur []) c rest ≡ (at ls cur (c ∷ []), 0)
  unfolding step
  step_first c rest h = ground arith

  pub read_plain :
      (cs rest : Text) (w : Char) (ws : Text)
      → All IsPlain cs
      → read (at ls cur (w ∷ ws)) 0 (cs ++ rest) ≡ read (at ls cur (w ∷ (ws ++ cs))) 0 rest
  read_plain [] rest w ws h = rw append-nil
  read_plain (c ∷ cs) rest w ws (h, hs) =
      read-step (at ls cur (w ∷ ws)) (at ls cur (w ∷ (ws ++ c ∷ []))) c [] (cs ++ rest)
        (step_plain c w ws (cs ++ rest) h)
      ∙ (rw append_assoc at (read_plain cs rest w (ws ++ c ∷ []) hs))

  pub step_brace :
      (rest : Text)
      → step (at ls cur []) brace_open rest ≡ (
        at ls (cur ++ join (brace_open ∷ bracket_body b'{' b'}' 1 rest) ∷ []) [],
        length (bracket_body b'{' b'}' 1 rest),
      )
  unfolding step
  step_brace rest = refl

  pub step_bracket :
      (rest : Text)
      → step (at ls cur []) bracket_open rest ≡ (
        at ls (cur ++ join (bracket_open ∷ bracket_body b'[' b']' 1 rest) ∷ []) [],
        length (bracket_body b'[' b']' 1 rest),
      )
  unfolding step
  step_bracket rest = refl

  pub step-quote :
      (rest : Text)
      → step (at ls cur []) quote rest
        ≡ (at ls (cur ++ join (quoted_body rest).0 ∷ []) [], (quoted_body rest).1)
  unfolding step
  step-quote rest = refl

abbrev body : Char → Char → ℕ → Text → Text
body o c = bracket_body (code o) (code c)

next_depth_other :
    (o c d : Char) (depth : ℕ)
    → code d ≢ code o
    → code d ≢ code c
    → (if is d (code o) then suc (suc depth) else if is d (code c) then depth else suc depth)
      ≡ suc depth
next_depth_other o c d depth n m = ground arith

next_depth_open :
    (o c : Char) (depth : ℕ)
    → (if is o (code o) then suc (suc depth) else if is o (code c) then depth else suc depth)
      ≡ suc (suc depth)
next_depth_open o c depth = ground arith

next_depth_close :
    (o c : Char) (depth : ℕ)
    → code o ≢ code c
    → (if is c (code o) then suc (suc depth) else if is c (code c) then depth else suc depth)
      ≡ depth
next_depth_close o c depth n = ground arith

module _ (o c : Char) (depth : ℕ) where
  body_other :
      (d : Char) (rest : Text)
      → code d ≢ code o
      → code d ≢ code c
      → body o c (suc depth) (d ∷ rest) ≡ d ∷ body o c (suc depth) rest
  unfolding bracket_body
  body_other d rest n m = ap (λ k. d ∷ body o c k rest) (next_depth_other o c d depth n m)

  body_open : (rest : Text) → body o c (suc depth) (o ∷ rest) ≡ o ∷ body o c (suc (suc depth)) rest
  unfolding bracket_body
  body_open rest = ap (λ k. o ∷ body o c k rest) (next_depth_open o c depth)

  body_close :
      (rest : Text) → code o ≢ code c → body o c (suc depth) (c ∷ rest) ≡ c ∷ body o c depth rest
  unfolding bracket_body
  body_close rest apart = ap (λ k. c ∷ body o c k rest) (next_depth_close o c depth apart)

-- A balanced text does not change the depth.
body-Balanced :
    (o c : Char)
    → code o ≢ code c
    → {cs : Text} (depth : ℕ) (rest : Text) → Balanced o c cs
    → body o c (suc depth) (cs ++ rest) ≡ cs ++ body o c (suc depth) rest
body-Balanced o c apart depth rest done = refl
body-Balanced o c apart depth rest (other d {cs} n m b) =
    body_other o c depth d (cs ++ rest) n m ∙ ap (◌∷◌ d) (body-Balanced o c apart depth rest b)
body-Balanced o c apart depth rest (group {inner} {cs} b b') =
    let left = body-Balanced o c apart (suc depth) (c ∷ (cs ++ rest)) b in
    let right = body-Balanced o c apart depth rest b' in
    rw append_assoc (
      rw body_open
        (rw left (rw (body_close o c (suc depth) (cs ++ rest) apart) (rw right (rw append_assoc)))))

-- The word ends behind the bracket that closes it.
pub body-close :
    (o c : Char) {cs : Text} (rest : Text)
    → code o ≢ code c
    → Balanced o c cs
    → body o c 1 ((cs ++ c ∷ []) ++ rest) ≡ cs ++ c ∷ []
body-close o c rest apart b =
    rw (append_assoc, body-Balanced o c apart 0 (c ∷ rest) b)
      (rw (body_close o c 0 rest apart) (unfold bracket_body in refl))

append_cons-ne-nil : (xs : Text) (y : Char) (ys : Text) → xs ++ y ∷ ys ≢ []
append_cons-ne-nil [] y ys e = cc
append_cons-ne-nil (x ∷ xs) y ys e = cc

quoted_body_plain :
    (c : Char) (xs : Text)
    → code c ≢ b'"'
    → code c ≢ b'\\'
    → xs ≢ []
    → quoted_body (c ∷ xs) ≡ (c ∷ (quoted_body xs).0, suc (quoted_body xs).1)
unfolding quoted_body
quoted_body_plain c [] n m ne = absurd (ne refl)
quoted_body_plain c (d ∷ xs) n m ne = ground arith

quoted_body_escaped :
    (c : Char) (xs : Text)
    → quoted_body (backslash ∷ c ∷ xs) ≡ (c ∷ (quoted_body xs).0, suc (suc (quoted_body xs).1))
unfolding quoted_body
quoted_body_escaped c xs = refl

pub quoted_body-escape :
    (cs rest : Text) → quoted_body (escape cs ++ quote ∷ rest) ≡ (cs, suc (length (escape cs)))
unfolding escape
quoted_body-escape [] [] = unfold quoted_body in refl
quoted_body-escape [] (d ∷ ds) = unfold quoted_body in refl
quoted_body-escape (c ∷ cs) rest = ground (
  arith,
  quoted_body_plain c (escape cs ++ quote ∷ rest),
  append_cons-ne-nil (escape cs) quote rest,
  quoted_body_escaped c (escape cs ++ quote ∷ rest),
  quoted_body-escape cs rest,
)
