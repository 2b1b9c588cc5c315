-- ===== src/Crossings/Find/Indexed.antt =====
-- The tables of `find_crossings` (src/rtl_buddy_cdc/domain.py): each flop under its name, and each
-- `D` bit with its flops.
use mathlib.Core.Path.{subst}
use mathlib.Core.Option.{some-injective}
use rtl_buddy_cdc.Base.{
  String, true, none, some, List, [], ◌∷◌, ◌++◌, ◌==◌, string_eq, ◌≡◌, ◌⊎◌, inl, inr, refl, ap, sym,
  ◌∙◌, arith, if◌then◌else◌, Dict, lookup, insert, values, lookup-insert, Within, Within-lookup,
  Bool-cases, eq_self,
}
use rtl_buddy_cdc.Netlist.{Bit, bit_eq, is_net, Module}
use rtl_buddy_cdc.Netlist.Flops.{Flop, flop_name}
use rtl_buddy_cdc.Domain.{FlopDomain}
use rtl_buddy_cdc.Crossings.Multi.{entries-append_if, append_if-Within}
use rtl_buddy_cdc.Crossings.Group.{FlopsByBit, flops_at, index_bits, index_flops}
use rtl_buddy_cdc.Crossings.Find.{add_domains, Design, Options, design_of, sinks_of}
use rtl_buddy_cdc.Domain.Assign.{assign_domains}

-- Each entry stands under its flop's name, once.
abbrev Named : Dict String FlopDomain → Type 0
Named [] = Unit
Named ((name, fd) ∷ d) = (name ≡ flop_name fd.flop) × (lookup name d ≡ none) × Named d

insert-Named :
    (fd : FlopDomain) (d : Dict String FlopDomain)
    → Named d
    → Named (insert (flop_name fd.flop) fd d)
unfolding insert lookup
insert-Named fd [] h = (refl, refl, tt)
insert-Named fd ((name, old) ∷ d) (same, absent, rest) =
    elim (Bool-cases (flop_name fd.flop == name)) [
      | inl hit ↦ rw hit (sym ((string_eq.beq_iff (flop_name fd.flop) name).0 hit), absent, rest)
      | inr other ↦ rw other (
        same,
        ground (
          arith,
          absent,
          other,
          lookup-insert (flop_name fd.flop) name fd d,
          string_eq.beq_iff (flop_name fd.flop) name,
          string_eq.beq_iff name (flop_name fd.flop),
        ),
        insert-Named fd d rest,
      )
    ]

add_domains-Named :
    (fds : List FlopDomain) (d : Dict String FlopDomain) → Named d → Named (add_domains fds d)
unfolding add_domains
add_domains-Named [] d h = h
add_domains-Named (fd ∷ fds) d h =
    add_domains-Named fds (insert (flop_name fd.flop) fd d) (insert-Named fd d h)

lookup-Named :
    (fd : FlopDomain) (d : Dict String FlopDomain)
    → Named d
    → Within fd (values d)
    → lookup (flop_name fd.flop) d ≡ some fd
unfolding lookup values
lookup-Named fd [] h w = absurd w
lookup-Named fd ((name, old) ∷ d) (same, absent, rest) (inl here) =
    rw (here, sym same, eq_self name) refl
lookup-Named fd ((name, old) ∷ d) (same, absent, rest) (inr later) =
    let found = lookup-Named fd d rest later in
    elim (Bool-cases (flop_name fd.flop == name)) [
      | inl hit ↦ ground (arith, found, absent, string_eq.beq_iff (flop_name fd.flop) name, hit)
      | inr other ↦ rw other found
    ]

-- One step of the index.
abbrev indexed_with : Flop → Bit → FlopsByBit → FlopsByBit
indexed_with f c out = if is_net c then insert c (flops_at out c ++ f ∷ []) out else out

indexed_with-Within :
    (f g : Flop) (c : Bit) (out : FlopsByBit) (b : Bit)
    → Within g (flops_at (indexed_with f c out) b)
    → Within g (flops_at out b) ⊎ ((g ≡ f) × (b ≡ c))
unfolding flops_at
indexed_with-Within f g c out b w = elim (entries-append_if (is_net c) c f out b g w) [
  | inl old ↦ inl old
  | inr (same, here, free) ↦ inr (same, here)
]

indexed_with-keeps :
    (f g : Flop) (c : Bit) (out : FlopsByBit) (b : Bit)
    → Within g (flops_at out b) ⊎ ((g ≡ f) × (b ≡ c) × (is_net c ≡ true))
    → Within g (flops_at (indexed_with f c out) b)
unfolding flops_at
indexed_with-keeps f g c out b w = append_if-Within (is_net c) c f out b g w

index_bits-Within :
    (f g : Flop) (bs : List Bit) (out : FlopsByBit) (b : Bit)
    → Within g (flops_at (index_bits f bs out) b)
    → Within g (flops_at out b) ⊎ ((g ≡ f) × Within b bs)
unfolding index_bits
index_bits-Within f g [] out b w = inl w
index_bits-Within f g (c ∷ bs) out b w =
    elim (index_bits-Within f g bs (indexed_with f c out) b w) [
      | inr (same, later) ↦ inr (same, inr later)
      | inl before ↦ elim (indexed_with-Within f g c out b before) [
        | inl old ↦ inl old
        | inr (same, here) ↦ inr (same, inl here)
      ]
    ]

index_bits-keeps :
    (f g : Flop) (bs : List Bit) (out : FlopsByBit) (b : Bit)
    → Within g (flops_at out b) ⊎ ((g ≡ f) × Within b bs × (is_net b ≡ true))
    → Within g (flops_at (index_bits f bs out) b)
unfolding index_bits
index_bits-keeps f g [] out b (inl w) = w
index_bits-keeps f g [] out b (inr (same, empty, free)) = absurd empty
index_bits-keeps f g (c ∷ bs) out b (inl w) =
    index_bits-keeps f g bs (indexed_with f c out) b (inl (indexed_with-keeps f g c out b (inl w)))
index_bits-keeps f g (c ∷ bs) out b (inr (same, inl here, free)) =
    index_bits-keeps f g bs (indexed_with f c out) b (
      inl
        (indexed_with-keeps f g c out b (inr (same, here, subst (λ i. is_net i ≡ true) here free))))
index_bits-keeps f g (c ∷ bs) out b (inr (same, inr later, free)) =
    index_bits-keeps f g bs (indexed_with f c out) b (inr (same, later, free))

index_flops-Within :
    (g : Flop) (fds : List FlopDomain) (out : FlopsByBit) (b : Bit)
    → Within g (flops_at (index_flops fds out) b)
    → Within g (flops_at out b) ⊎ ((fd : FlopDomain) × Within fd fds × (fd.flop ≡ g) × Within b g.d)
unfolding index_flops
index_flops-Within g [] out b w = inl w
index_flops-Within g (fd ∷ fds) out b w =
    elim (index_flops-Within g fds (index_bits fd.flop fd.flop.d out) b w) [
      | inr (found, later, same, pin) ↦ inr (found, inr later, same, pin)
      | inl before ↦ elim (index_bits-Within fd.flop g fd.flop.d out b before) [
        | inl old ↦ inl old
        | inr (same, pin) ↦
            inr (fd, inl refl, sym same, subst (λ (f : Flop). Within b f.d) (sym same) pin)
      ]
    ]

index_flops-keeps :
    (fds : List FlopDomain) (out : FlopsByBit) (g : Flop) (b : Bit)
    → Within g (flops_at out b)
      ⊎ ((fd : FlopDomain) × Within fd fds × (fd.flop ≡ g) × Within b g.d × (is_net b ≡ true))
    → Within g (flops_at (index_flops fds out) b)
unfolding index_flops
index_flops-keeps [] out g b (inl w) = w
index_flops-keeps [] out g b (inr (fd, empty, same, pin, free)) = absurd empty
index_flops-keeps (fd ∷ fds) out g b (inl w) =
    index_flops-keeps fds (index_bits fd.flop fd.flop.d out) g b
      (inl (index_bits-keeps fd.flop g fd.flop.d out b (inl w)))
index_flops-keeps (fd ∷ fds) out g b (inr (found, inl here, same, pin, free)) =
    let gf : g ≡ fd.flop = sym same ∙ ap (λ (x : FlopDomain). x.flop) here in
    index_flops-keeps fds (index_bits fd.flop fd.flop.d out) g b (
      inl (
        index_bits-keeps fd.flop g fd.flop.d out b
          (inr (gf, subst (λ (f : Flop). Within b f.d) gf pin, free))))
index_flops-keeps (fd ∷ fds) out g b (inr (found, inr later, same, pin, free)) =
    index_flops-keeps fds (index_bits fd.flop fd.flop.d out) g b
      (inr (found, later, same, pin, free))

-- The index names the flops of the table, at the nets of their `D` pins.
unfoldable pub IsIndexed : Design → Type 0
IsIndexed d =
    ((b : Bit) (f : Flop)
      → Within f (flops_at d.by_d b)
      → (fd : FlopDomain) × (lookup (flop_name f) d.domains ≡ some fd)
        × (fd.flop ≡ f)
        × Within b f.d)
    × ((b : Bit) (name : String) (fd : FlopDomain)
        → lookup name d.domains ≡ some fd
        → Within b fd.flop.d
        → is_net b ≡ true
        → (name ≡ flop_name fd.flop) × Within fd.flop (flops_at d.by_d b))
    × ((fd : FlopDomain)
        → Within fd (values d.domains)
        → lookup (flop_name fd.flop) d.domains ≡ some fd)
    × ((name : String) (fd : FlopDomain)
        → lookup name d.domains ≡ some fd
        → Within fd (values d.domains))

lookup-name :
    (name : String) (fd : FlopDomain) (d : Dict String FlopDomain)
    → Named d
    → lookup name d ≡ some fd
    → name ≡ flop_name fd.flop
unfolding lookup
lookup-name name fd [] h found = cc
lookup-name name fd ((j, old) ∷ d) (same, absent, rest) found = elim (Bool-cases (name == j)) [
  | inl hit ↦
      let here = some-injective old fd (ground (arith, hit, found)) in
      (string_eq.beq_iff name j).0 hit ∙ same ∙ ap (λ (x : FlopDomain). flop_name x.flop) here
  | inr other ↦ lookup-name name fd d rest (ground (arith, other, found))
]

none_at : (b : Bit) (f : Flop) → Within f (flops_at [] b) → ⊥
unfolding flops_at lookup
none_at b f w = w

table-IsIndexed :
    (d : Design) → Named d.domains → d.by_d ≡ index_flops (values d.domains) [] → IsIndexed d
unfolding IsIndexed
table-IsIndexed d named indexed = (
  (λ b f w.
      elim (index_flops-Within f (values d.domains) [] b
        (subst (λ out. Within f (flops_at out b)) indexed w)) [
          | inl none_yet ↦ absurd (none_at b f none_yet)
          | inr (fd, within, same, pin) ↦ (
            fd,
            subst (λ (g : Flop). lookup (flop_name g) d.domains ≡ some fd) same
                (lookup-Named fd d.domains named within),
            same,
            pin,
          )
        ]),
  (λ b name fd found pin free. (
    lookup-name name fd d.domains named found,
    subst (λ out. Within fd.flop (flops_at out b)) (sym indexed)
        (index_flops-keeps (values d.domains) [] fd.flop b
          (inr (fd, Within-lookup name fd d.domains found, refl, pin, free))),
  )),
  (λ fd within. lookup-Named fd d.domains named within),
  (λ name fd found. Within-lookup name fd d.domains found),
)

-- The tables of a design agree.
pub design_of-IsIndexed : (m : Module) (o : Options) → IsIndexed (design_of m o)
unfolding design_of
design_of-IsIndexed m o =
    table-IsIndexed (design_of m o)
      (add_domains-Named (sinks_of m o).0
        (add_domains (assign_domains m o.pin_clocks o.clock_for_port o.max_depth) [])
        (add_domains-Named (assign_domains m o.pin_clocks o.clock_for_port o.max_depth) [] tt))
      refl
