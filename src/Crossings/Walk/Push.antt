-- ===== src/Crossings/Walk/Push.antt =====
-- What the pushes of the walk of `find_crossings` (src/rtl_buddy_cdc/domain.py) keep.
use mathlib.Core.Option.{some-injective}
use mathlib.Core.List.{append_assoc}
use rtl_buddy_cdc.Base.{
  ℕ, ◌≤◌, true, false, Option, none, some, List, [], ◌∷◌, ◌++◌, ◌==◌, ◌≡◌, inl, inr, refl, ap, sym,
  ◌∙◌, arith, Dict, lookup, insert, lookup-insert, lookup-insert_self, Within, Within-left,
  Within-right, All, All-append, Bool-cases,
}
use rtl_buddy_cdc.Netlist.{Bit, bit_eq}
use rtl_buddy_cdc.Crossings.Walk.{Front, is_nearer, push, push_all}

abbrev pub Seen : Type 0
Seen = Dict Bit ℕ

-- Seen at a hop of at most `n`.
abbrev pub SeenBy : Seen → Bit → ℕ → Type 0
SeenBy seen b n = (h : ℕ) × (h ≤ n) × (lookup b seen ≡ some h)

-- What was seen stays seen, at the same hop or an earlier one.
unfoldable pub Lower : Seen → Seen → Type 0
Lower d e = (b : Bit) (h : ℕ) → lookup b d ≡ some h → SeenBy e b h

-- What was seen is in the list.
unfoldable pub Known : List (Bit × ℕ) → Seen → Type 0
Known vs seen = (b : Bit) (h : ℕ) → lookup b seen ≡ some h → Within (b, h) vs

pub Lower-refl : (d : Seen) → Lower d d
unfolding Lower
Lower-refl d b h e = (h, omega arith, e)

pub Lower-trans : (c d e : Seen) → Lower c d → Lower d e → Lower c e
unfolding Lower
Lower-trans c d e p q b h l =
    let (h', le, l') = p b h l in
    let (h'', le', l'') = q b h' l' in (h'', omega (arith, le, le'), l'')

pub SeenBy-Lower : (d e : Seen) (b : Bit) (n : ℕ) → Lower d e → SeenBy d b n → SeenBy e b n
unfolding Lower
SeenBy-Lower d e b n p (h, le, l) = let (h', le', l') = p b h l in (h', omega (arith, le, le'), l')

abbrev added : ℕ → Bit → Front → Front
added k b f = record { seen = insert b k f.seen; next = f.next ++ (b, k) ∷ [] }

push-added :
    (k : ℕ) (b : Bit) (f : Front) → is_nearer k (lookup b f.seen) ≡ true → push k b f ≡ added k b f
unfolding push
push-added k b f e = rw e refl

push-kept : (k : ℕ) (b : Bit) (f : Front) → is_nearer k (lookup b f.seen) ≡ false → push k b f ≡ f
unfolding push
push-kept k b f e = rw e refl

-- What a push does, for the two outcomes of its test.
push-ind :
    (P : Front → Type 0) (k : ℕ) (b : Bit) (f : Front)
    → (is_nearer k (lookup b f.seen) ≡ true → P (added k b f))
    → (is_nearer k (lookup b f.seen) ≡ false → P f)
    → P (push k b f)
push-ind P k b f yes_case no_case = elim (Bool-cases (is_nearer k (lookup b f.seen))) [
  | inl nearer ↦ rw (push-added k b f nearer) (yes_case nearer)
  | inr known ↦ rw (push-kept k b f known) (no_case known)
]

nearer-le : (k h : ℕ) (o : Option ℕ) → o ≡ some h → is_nearer k o ≡ true → k ≤ h
unfolding is_nearer
nearer-le k h none e nearer = cc
nearer-le k h (some g) e nearer = ground arith

insert-Lower :
    (k : ℕ) (b : Bit) (d : Seen) → is_nearer k (lookup b d) ≡ true → Lower d (insert b k d)
unfolding Lower is_nearer
insert-Lower k b d nearer c h e = elim (Bool-cases (c == b)) [
  | inl same ↦ (
    k,
    nearer-le k h (lookup b d) (ap (λ x. lookup x d) (sym ((bit_eq.beq_iff c b).0 same)) ∙ e)
        nearer,
    ground (arith, same, lookup-insert b c k d),
  )
  | inr other ↦ (h, omega arith, ground (arith, other, e, lookup-insert b c k d))
]

push-Lower : (k : ℕ) (b : Bit) (f : Front) → Lower f.seen (push k b f).seen
push-Lower k b f =
    push-ind (λ g. Lower f.seen g.seen) k b f (insert-Lower k b f.seen) (λ known. Lower-refl f.seen)

known_SeenBy : (k : ℕ) (o : Option ℕ) → is_nearer k o ≡ false → (h : ℕ) × (h ≤ k) × (o ≡ some h)
unfolding is_nearer
known_SeenBy k none e = cc
known_SeenBy k (some h) e = (h, ground arith, refl)

push-SeenBy : (k : ℕ) (b : Bit) (f : Front) → SeenBy (push k b f).seen b k
push-SeenBy k b f =
    push-ind (λ g. SeenBy g.seen b k) k b f
      (λ nearer. (k, omega arith, lookup-insert_self b k f.seen)) (known_SeenBy k (lookup b f.seen))

pub pair_path : {c b : Bit} {h k : ℕ} → c ≡ b → h ≡ k → ◌≡◌ {A = Bit × ℕ} (c, h) (b, k)
pair_path p q = λ i. (p i, q i)

Known-insert :
    (vs : List (Bit × ℕ)) (k : ℕ) (b : Bit) (d : Seen)
    → Known vs d
    → Known (vs ++ (b, k) ∷ []) (insert b k d)
unfolding Known
Known-insert vs k b d known c h e = elim (Bool-cases (c == b)) [
  | inl same ↦
      Within-right (c, h) vs ((b, k) ∷ [])
        (inl (
          pair_path ((bit_eq.beq_iff c b).0 same)
            (some-injective h k (sym e ∙ ground (arith, same, lookup-insert b c k d)))))
  | inr other ↦
      Within-left (c, h) vs ((b, k) ∷ [])
        (known c h (ground (arith, other, e, lookup-insert b c k d)))
]

push-Known :
    (vs : List (Bit × ℕ)) (k : ℕ) (b : Bit) (f : Front)
    → Known (vs ++ f.next) f.seen
    → Known (vs ++ (push k b f).next) (push k b f).seen
push-Known vs k b f known =
    push-ind (λ g. Known (vs ++ g.next) g.seen) k b f
      (λ nearer.
        rw (← append_assoc vs f.next ((b, k) ∷ [])) (Known-insert (vs ++ f.next) k b f.seen known))
      (λ found. known)

-- The same for the fanout of a bit.
pub push_all-Lower : (k : ℕ) (bs : List Bit) (f : Front) → Lower f.seen (push_all k bs f).seen
unfolding push_all
push_all-Lower k [] f = Lower-refl f.seen
push_all-Lower k (b ∷ bs) f =
    Lower-trans f.seen (push k b f).seen (push_all k bs (push k b f)).seen (push-Lower k b f)
      (push_all-Lower k bs (push k b f))

pub push_all-SeenBy :
    (k : ℕ) (bs : List Bit) (f : Front) (b : Bit) → Within b bs → SeenBy (push_all k bs f).seen b k
unfolding push_all
push_all-SeenBy k [] f b w = absurd w
push_all-SeenBy k (c ∷ bs) f b (inl same) =
    SeenBy-Lower (push k c f).seen (push_all k bs (push k c f)).seen b k
      (push_all-Lower k bs (push k c f)) (rw same (push-SeenBy k c f))
push_all-SeenBy k (c ∷ bs) f b (inr later) = push_all-SeenBy k bs (push k c f) b later

pub push_all-Known :
    (vs : List (Bit × ℕ)) (k : ℕ) (bs : List Bit) (f : Front)
    → Known (vs ++ f.next) f.seen
    → Known (vs ++ (push_all k bs f).next) (push_all k bs f).seen
unfolding push_all
push_all-Known vs k [] f known = known
push_all-Known vs k (b ∷ bs) f known =
    push_all-Known vs k bs (push k b f) (push-Known vs k b f known)

module _ (P : Bit × ℕ → Type 0) (k : ℕ) where
  push-next : (b : Bit) (f : Front) → P (b, k) → All P f.next → All P (push k b f).next
  push-next b f p ps =
      push-ind (λ g. All P g.next) k b f (λ nearer. All-append P f.next ((b, k) ∷ []) ps (p, tt))
        (λ found. ps)

  pub push_all-next :
      (bs : List Bit) (f : Front)
      → ((b : Bit) → Within b bs → P (b, k))
      → All P f.next
      → All P (push_all k bs f).next
  unfolding push_all
  push_all-next [] f p ps = ps
  push_all-next (b ∷ bs) f p ps =
      push_all-next bs (push k b f) (λ c w. p c (inr w)) (push-next b f (p b (inl refl)) ps)
