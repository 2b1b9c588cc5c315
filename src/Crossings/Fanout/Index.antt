-- ===== src/Crossings/Fanout/Index.antt =====
-- The consumers of src/rtl_buddy_cdc/domain.py (`_build_bit_consumers`) against the netlist.
use mathlib.Core.Path.{subst}
use rtl_buddy_cdc.Base.{
  ℕ, zero, suc, ◌+◌, String, true, false, List, [], ◌∷◌, ◌==◌, ◌≡◌, ◌↔◌, ◌⊎◌, inl, inr, refl, ap,
  sym, ◌∙◌, arith, string_eq, if◌then◌else◌, Dict, lookup, values, Within, Bool-cases,
}
use rtl_buddy_cdc.Netlist.{Bit, bit_eq, is_net, Cell, Module}
use rtl_buddy_cdc.Crossings.Multi.{entries-append_if, append_if-Within}
use rtl_buddy_cdc.Crossings.Fanout.{
  Site, Consumers, append_site, consume_bits, consume_ports, consume_cells, build_bit_consumers,
  consumers_of, bit_at,
}

-- The bit stands at a place of the list, counted from `first`.
unfoldable pub Place : String → String → ℕ → List Bit → Bit → Site → Type 0
Place cell port first bs b site =
    (k : ℕ) × (site ≡ (cell, port, first + k)) × Within b (bit_at k bs) × (is_net b ≡ true)

-- Some port of the cell but the clock has the bit there.
unfoldable pub ReadsPort : String → Dict String (List Bit) → Bit → Site → Type 0
ReadsPort cell ports b site =
    (port : String) × (bits : List Bit) × Within (port, bits) ports
    × ((port == "CLK") ≡ false)
    × Place cell port 0 bits b site

-- A cell of the module has the bit at that place of that port, which is not its clock.
unfoldable pub Reads : List Cell → Bit → Site → Type 0
Reads cells b site = (c : Cell) × Within c cells × ReadsPort c.name c.connections b site

consume_bits-Place :
    (cell port : String) (first : ℕ) (bs : List Bit) (out : Consumers) (b : Bit) (site : Site)
    → Within site (consumers_of (consume_bits cell port first bs out) b)
    → Within site (consumers_of out b) ⊎ Place cell port first bs b site
unfolding consume_bits append_site consumers_of Place bit_at
consume_bits-Place cell port first [] out b site w = inl w
consume_bits-Place cell port first (c ∷ bs) out b site w =
    elim (consume_bits-Place cell port (suc first) bs
      (if is_net c then append_site c (cell, port, first) out else out) b site w) [
        | inr (k, is, at, free) ↦
            inr (suc k, is ∙ ap (λ n. (cell, port, n)) (omega arith), at, free)
        | inl before ↦ elim (entries-append_if (is_net c) c (cell, port, first) out b site before) [
          | inl old ↦ inl old
          | inr (is, here, free) ↦ inr (
            0,
            is ∙ ap (λ n. (cell, port, n)) (omega arith),
            inl here,
            subst (λ x. is_net x ≡ true) (sym here) free,
          )
        ]
      ]

Place-consume_bits :
    (cell port : String) (first : ℕ) (bs : List Bit) (out : Consumers) (b : Bit) (site : Site)
    → Within site (consumers_of out b) ⊎ Place cell port first bs b site
    → Within site (consumers_of (consume_bits cell port first bs out) b)
unfolding consume_bits append_site consumers_of Place bit_at
Place-consume_bits cell port first [] out b site (inl w) = w
Place-consume_bits cell port first [] out b site (inr (k, is, at, free)) = absurd at
Place-consume_bits cell port first (c ∷ bs) out b site (inl w) =
    Place-consume_bits cell port (suc first) bs
      (if is_net c then append_site c (cell, port, first) out else out) b site
      (inl (append_if-Within (is_net c) c (cell, port, first) out b site (inl w)))
Place-consume_bits cell port first (c ∷ bs) out b site (inr (zero, is, inl here, free)) =
    Place-consume_bits cell port (suc first) bs
      (if is_net c then append_site c (cell, port, first) out else out) b site
      (inl (
        append_if-Within (is_net c) c (cell, port, first) out b site
          (inr (
            is ∙ ap (λ n. (cell, port, n)) (omega arith),
            here,
            subst (λ x. is_net x ≡ true) here free,
          ))))
Place-consume_bits cell port first (c ∷ bs) out b site (inr (zero, is, inr empty, free)) =
    absurd empty
Place-consume_bits cell port first (c ∷ bs) out b site (inr (suc k, is, at, free)) =
    Place-consume_bits cell port (suc first) bs
      (if is_net c then append_site c (cell, port, first) out else out) b site
      (inr (k, is ∙ ap (λ n. (cell, port, n)) (omega arith), at, free))

consume_ports-ReadsPort :
    (cell : String) (ports : Dict String (List Bit)) (out : Consumers) (b : Bit) (site : Site)
    → Within site (consumers_of (consume_ports cell ports out) b)
    → Within site (consumers_of out b) ⊎ ReadsPort cell ports b site
unfolding consume_ports ReadsPort
consume_ports-ReadsPort cell [] out b site w = inl w
consume_ports-ReadsPort cell ((port, bits) ∷ ports) out b site w =
    elim (consume_ports-ReadsPort cell ports
      (if port == "CLK" then out else consume_bits cell port 0 bits out) b site w) [
        | inr (p, bs, later, data_port, place) ↦ inr (p, bs, inr later, data_port, place)
        | inl before ↦ elim (Bool-cases (port == "CLK")) [
          | inl clock ↦
              inl (subst (λ d. Within site (consumers_of d b)) {y = out} (rw clock refl) before)
          | inr data_port ↦
              elim (consume_bits-Place cell port 0 bits out b site (
                subst (λ d. Within site (consumers_of d b)) {y = consume_bits cell port 0 bits out}
                  (rw data_port refl) before)) [
                    | inl old ↦ inl old
                    | inr place ↦ inr (port, bits, inl refl, data_port, place)
                  ]
        ]
      ]

ReadsPort-consume_ports :
    (cell : String) (ports : Dict String (List Bit)) (out : Consumers) (b : Bit) (site : Site)
    → Within site (consumers_of out b) ⊎ ReadsPort cell ports b site
    → Within site (consumers_of (consume_ports cell ports out) b)
unfolding consume_ports ReadsPort
ReadsPort-consume_ports cell [] out b site (inl w) = w
ReadsPort-consume_ports cell [] out b site (inr (p, bs, empty, data_port, place)) = absurd empty
ReadsPort-consume_ports cell ((port, bits) ∷ ports) out b site
      (inr (p, bs, inr later, data_port, place)) =
    ReadsPort-consume_ports cell ports
      (if port == "CLK" then out else consume_bits cell port 0 bits out) b site
      (inr (p, bs, later, data_port, place))
ReadsPort-consume_ports cell ((port, bits) ∷ ports) out b site (inl w) =
    ReadsPort-consume_ports cell ports
      (if port == "CLK" then out else consume_bits cell port 0 bits out) b site
      (inl (elim (Bool-cases (port == "CLK")) [
        | inl clock ↦ rw clock w
        | inr data_port ↦ rw data_port (Place-consume_bits cell port 0 bits out b site (inl w))
      ]))
ReadsPort-consume_ports cell ((port, bits) ∷ ports) out b site
      (inr (p, bs, inl here, data_port, place)) =
    let of_port : ((port == "CLK") ≡ false) × Place cell port 0 bits b site =
      subst (λ (e : String × List Bit). ((e.0 == "CLK") ≡ false) × Place cell e.0 0 e.1 b site) here
        (data_port, place) in
    ReadsPort-consume_ports cell ports
      (if port == "CLK" then out else consume_bits cell port 0 bits out) b site
      (inl (rw of_port.0 (Place-consume_bits cell port 0 bits out b site (inr of_port.1))))

consume_cells-Reads :
    (cells : List Cell) (out : Consumers) (b : Bit) (site : Site)
    → Within site (consumers_of (consume_cells cells out) b)
    → Within site (consumers_of out b) ⊎ Reads cells b site
unfolding consume_cells Reads
consume_cells-Reads [] out b site w = inl w
consume_cells-Reads (c ∷ cells) out b site w =
    elim (consume_cells-Reads cells (consume_ports c.name c.connections out) b site w) [
      | inr (cell, later, reads) ↦ inr (cell, inr later, reads)
      | inl before ↦ elim (consume_ports-ReadsPort c.name c.connections out b site before) [
        | inl old ↦ inl old
        | inr reads ↦ inr (c, inl refl, reads)
      ]
    ]

Reads-consume_cells :
    (cells : List Cell) (out : Consumers) (b : Bit) (site : Site)
    → Within site (consumers_of out b) ⊎ Reads cells b site
    → Within site (consumers_of (consume_cells cells out) b)
unfolding consume_cells Reads
Reads-consume_cells [] out b site (inl w) = w
Reads-consume_cells [] out b site (inr (cell, empty, reads)) = absurd empty
Reads-consume_cells (c ∷ cells) out b site (inl w) =
    Reads-consume_cells cells (consume_ports c.name c.connections out) b site
      (inl (ReadsPort-consume_ports c.name c.connections out b site (inl w)))
Reads-consume_cells (c ∷ cells) out b site (inr (cell, inl here, reads)) =
    Reads-consume_cells cells (consume_ports c.name c.connections out) b site (
      inl (
        ReadsPort-consume_ports c.name c.connections out b site
          (inr (subst (λ (x : Cell). ReadsPort x.name x.connections b site) here reads))))
Reads-consume_cells (c ∷ cells) out b site (inr (cell, inr later, reads)) =
    Reads-consume_cells cells (consume_ports c.name c.connections out) b site
      (inr (cell, later, reads))

none_listed : (b : Bit) (site : Site) → Within site (consumers_of [] b) → ⊥
unfolding consumers_of lookup
none_listed b site w = w

-- A site is listed for a bit exactly where the bit is a net that stands at that place of that port
-- of a cell of the module, other than the port `CLK`.
pub build_bit_consumers-Reads :
    (m : Module) (b : Bit) (site : Site)
    → Within site (consumers_of (build_bit_consumers m) b) ↔ Reads (values m.cells) b site
unfolding build_bit_consumers
build_bit_consumers-Reads m b site = (
  (λ w. elim (consume_cells-Reads (values m.cells) [] b site w) [
    | inl none_yet ↦ absurd (none_listed b site none_yet)
    | inr reads ↦ reads
  ]),
  (λ reads. Reads-consume_cells (values m.cells) [] b site (inr reads)),
)
