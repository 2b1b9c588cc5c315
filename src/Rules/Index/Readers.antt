-- ===== src/Rules/Index/Readers.antt =====
-- The reader counts of src/rtl_buddy_cdc/rules.py (`_bit_reader_count`) against the pins of the netlist.
use rtl_buddy_cdc.Base.{
  ℕ, suc, ◌+◌, String, ◌||◌, ◌&&◌, List, [], ◌∷◌, ◌++◌, ◌==◌, ◌≡◌, inl, inr, refl, sym, ◌∙◌, arith,
  string_eq, if◌then◌else◌, Dict, lookup, insert, lookup-insert, values, length, length-append,
  Bool-cases,
}
use rtl_buddy_cdc.Netlist.{Bit, bit_eq, is_net, Cell, Module}
use rtl_buddy_cdc.Crossings.Fanout.{Site}
use rtl_buddy_cdc.Rules.Index.{
  Readers, readers_of, count_bits, count_ports, count_cells, bit_reader_count,
}

-- Where the net stands in a list of bits, counted from `first`.
pub places : String → String → ℕ → List Bit → Bit → List Site
places cell port first [] b = []
places cell port first (x ∷ bs) b =
    let rest = places cell port (suc first) bs b in
    if is_net b && b == x then (cell, port, first) ∷ rest else rest

-- The pins of a cell at which the net stands: every port but the outputs and the clock.
pub cell_pins : String → Dict String (List Bit) → Bit → List Site
cell_pins cell [] b = []
cell_pins cell ((port, bits) ∷ ports) b =
    (if port == "Y" || port == "Q" || port == "CLK" then [] else places cell port 0 bits b)
    ++ cell_pins cell ports b

pub pins_among : List Cell → Bit → List Site
pins_among [] b = []
pins_among (c ∷ cs) b = cell_pins c.name c.connections b ++ pins_among cs b

-- All pins of the module that read the net.
pub reading_pins : Module → Bit → List Site
reading_pins m b = pins_among (values m.cells) b

readers_of-insert :
    (x b : Bit) (n : ℕ) (counts : Readers)
    → readers_of (insert x n counts) b ≡ (if b == x then n else readers_of counts b)
unfolding readers_of
readers_of-insert x b n counts = elim (Bool-cases (b == x)) [
  | inl same ↦ rw (lookup-insert x b n counts, same) refl
  | inr other ↦ rw (lookup-insert x b n counts, other) refl
]

count_bits-places :
    (cell port : String) (first : ℕ) (bits : List Bit) (counts : Readers) (b : Bit)
    → readers_of (count_bits bits counts) b
      ≡ readers_of counts b + length (places cell port first bits b)
unfolding count_bits places
count_bits-places cell port first [] counts b = omega arith
count_bits-places cell port first (x ∷ bits) counts b = elim (Bool-cases (b == x)) [
  | inl same ↦
      let e = (bit_eq.beq_iff b x).0 same in
      elim (Bool-cases (is_net x)) [
        | inl free ↦ ground (
          arith,
          same,
          free,
          e,
          readers_of-insert x b (suc (readers_of counts x)) counts,
          count_bits-places cell port (suc first) bits (insert x (suc (readers_of counts x)) counts)
              b,
        )
        | inr const ↦
            ground (arith, same, const, e, count_bits-places cell port (suc first) bits counts b)
      ]
  | inr other ↦ elim (Bool-cases (is_net x)) [
    | inl free ↦ ground (
      arith,
      other,
      free,
      readers_of-insert x b (suc (readers_of counts x)) counts,
      count_bits-places cell port (suc first) bits (insert x (suc (readers_of counts x)) counts) b,
    )
    | inr const ↦
        ground (arith, other, const, count_bits-places cell port (suc first) bits counts b)
  ]
]

count_ports-cell_pins :
    (cell : String) (ports : Dict String (List Bit)) (counts : Readers) (b : Bit)
    → readers_of (count_ports ports counts) b
      ≡ readers_of counts b + length (cell_pins cell ports b)
unfolding count_ports cell_pins
count_ports-cell_pins cell [] counts b = omega arith
count_ports-cell_pins cell ((port, bits) ∷ ports) counts b =
    elim (Bool-cases (port == "Y" || port == "Q" || port == "CLK")) [
      | inl skipped ↦ rw skipped (count_ports-cell_pins cell ports counts b)
      | inr read ↦ rw read (
          omega (
            arith,
            length-append (places cell port 0 bits b) (cell_pins cell ports b),
            count_bits-places cell port 0 bits counts b,
            count_ports-cell_pins cell ports (count_bits bits counts) b,
          ))
    ]

count_cells-pins_among :
    (cells : List Cell) (counts : Readers) (b : Bit)
    → readers_of (count_cells cells counts) b ≡ readers_of counts b + length (pins_among cells b)
unfolding count_cells pins_among
count_cells-pins_among [] counts b = omega arith
count_cells-pins_among (c ∷ cs) counts b = omega (
  arith,
  length-append (cell_pins c.name c.connections b) (pins_among cs b),
  count_ports-cell_pins c.name c.connections counts b,
  count_cells-pins_among cs (count_ports c.connections counts) b,
)

no_readers : (b : Bit) → readers_of [] b ≡ 0
unfolding readers_of lookup
no_readers b = refl

-- The count of readers of a bit is the number of pins of the module's cells, ports Y, Q and CLK aside,
-- at which it stands as a net.
pub bit_reader_count-reading_pins :
    (m : Module) (b : Bit) → readers_of (bit_reader_count m) b ≡ length (reading_pins m b)
unfolding bit_reader_count reading_pins
bit_reader_count-reading_pins m b =
    count_cells-pins_among (values m.cells) [] b ∙ omega (arith, no_readers b)

one_of_length : (pins : List Site) → length pins ≡ 1 → (site : Site) × (pins ≡ site ∷ [])
one_of_length [] h = absurd (omega (arith, h))
one_of_length (site ∷ []) h = (site, refl)
one_of_length (a ∷ b ∷ pins) h = absurd (omega (arith, h))

-- A net that is counted once is read by one pin of the netlist alone.
pub reading_pins_of_one :
    (m : Module) (b : Bit)
    → readers_of (bit_reader_count m) b ≡ 1
    → (site : Site) × (reading_pins m b ≡ site ∷ [])
reading_pins_of_one m b once =
    one_of_length (reading_pins m b) (sym (bit_reader_count-reading_pins m b) ∙ once)
