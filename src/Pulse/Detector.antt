-- ===== src/Pulse/Detector.antt =====
-- The circuits that src/rtl_buddy_cdc/pulse.py takes for a pulse.
use rtl_buddy_cdc.Base.{
  three_true, String, Bool, true, false, ◌&&◌, ◌||◌, Option, none, some, List, [], ◌∷◌, ◌==◌, ◌≡◌,
  ◌⊎◌, inl, inr, refl, ap, ◌∙◌, string_eq, if◌then◌else◌, contains, lookup, &&-eq-true,
}
use rtl_buddy_cdc.Netlist.{Bit, bit_eq, is_net, Cell}
use rtl_buddy_cdc.Netlist.Flops.{is_ff_cell, pin}
use rtl_buddy_cdc.Pulse.{
  PulseShape, not_types, and_types, only_bit, is_in_domain, PulseContext, driving, flop_d,
  src_flop_d_pin, inverter_input, is_delay, detector_pair, is_edge_detector_pair, either_order,
  detects, classify_d_pin_shape,
}

module _ (ctx : PulseContext) where
  -- A flop of the source domain with a data pin of one bit has the two bits as its output and input.
  pub SourceFlop : Option (String × String × Cell) → Bit → Type 0
  SourceFlop drives d =
      (name : String) × (cell : Cell) × (drives ≡ some (name, "Q", cell))
      × (is_ff_cell cell.type ≡ true)
      × (is_in_domain (lookup name ctx.flop_domains) ctx.src_clock ≡ true)
      × (pin cell "D" ≡ d ∷ [])

  unfoldable pub Inverter : Option (String × String × Cell) → Bit → Type 0
  Inverter drives a =
      (name : String) × (cell : Cell) × (drives ≡ some (name, "Y", cell))
      × (contains not_types cell.type ≡ true)
      × (pin cell "A" ≡ a ∷ [])

  pub only_bit-some : (bs : List Bit) (b : Bit) → only_bit bs ≡ some b → bs ≡ b ∷ []
  unfolding only_bit
  only_bit-some [] b h = cc
  only_bit-some (c ∷ []) b h = cc
  only_bit-some (c ∷ d ∷ cs) b h = cc

  chosen :
      (t : Bool) (o : Option Bit) (b : Bit)
      → (if t then o else none) ≡ some b
      → (t ≡ true) × (o ≡ some b)
  chosen true o b h = (refl, h)
  chosen false o b h = cc

  flop_d-SourceFlop :
      (o : Option (String × String × Cell)) (d : Bit) → flop_d ctx o ≡ some d → SourceFlop o d
  unfolding flop_d SourceFlop
  flop_d-SourceFlop none d h = cc
  flop_d-SourceFlop (some (name, port, cell)) d h =
      let (tests, bit) =
        chosen
          (port == "Q"
            && is_ff_cell cell.type
            && is_in_domain (lookup name ctx.flop_domains) ctx.src_clock)
          (only_bit (pin cell "D")) d h in
      let (at_q, is_ff, inside) =
        three_true (port == "Q") (is_ff_cell cell.type)
          (is_in_domain (lookup name ctx.flop_domains) ctx.src_clock) tests in
      (
        name,
        cell,
        ap (λ p. some (name, p, cell)) ((string_eq.beq_iff port "Q").0 at_q),
        is_ff,
        inside,
        only_bit-some (pin cell "D") d bit,
      )

  pub inverter_input-Inverter :
      (o : Option (String × String × Cell)) (a : Bit) → inverter_input ctx o ≡ some a → Inverter o a
  unfolding inverter_input Inverter
  inverter_input-Inverter none a h = cc
  inverter_input-Inverter (some (name, port, cell)) a h =
      let (tests, bit) =
        chosen (contains not_types cell.type && port == "Y") (only_bit (pin cell "A")) a h in
      let (is_not, at_y) = (&&-eq-true (contains not_types cell.type) (port == "Y")).0 tests in
      (
        name,
        cell,
        ap (λ p. some (name, p, cell)) ((string_eq.beq_iff port "Y").0 at_y),
        is_not,
        only_bit-some (pin cell "A") a bit,
      )

  -- The inverted operand is the direct one, one cycle later: it inverts a net that a flop of the
  -- source domain drives whose data pin is the direct operand.
  pub Delayed : Bit → Bit → Type 0
  Delayed direct_bit inverted_bit =
      (d : Bit) × (delay_q : Bit) × SourceFlop (driving ctx direct_bit) d
      × Inverter (driving ctx inverted_bit) delay_q
      × (is_net delay_q ≡ true)
      × SourceFlop (driving ctx delay_q) direct_bit

  is_delay-SourceFlop :
      (q direct_bit : Bit)
      → (o : Option Bit) → src_flop_d_pin ctx q ≡ o
      → is_delay ctx o direct_bit ≡ true
      → SourceFlop (driving ctx q) direct_bit
  unfolding is_delay src_flop_d_pin
  is_delay-SourceFlop q direct_bit none e h = cc
  is_delay-SourceFlop q direct_bit (some d) e h =
      flop_d-SourceFlop (driving ctx q) direct_bit (e ∙ ap some ((bit_eq.beq_iff d direct_bit).0 h))

  guarded_net : (t b : Bool) → (if t then b else false) ≡ true → (t ≡ true) × (b ≡ true)
  guarded_net true b h = (refl, h)
  guarded_net false b h = cc

  detector_pair-Delayed :
      (direct_bit inverted_bit : Bit) (od oq : Option Bit)
      → src_flop_d_pin ctx direct_bit ≡ od
      → inverter_input ctx (driving ctx inverted_bit) ≡ oq
      → detector_pair ctx od oq direct_bit ≡ true
      → Delayed direct_bit inverted_bit
  unfolding detector_pair Delayed src_flop_d_pin
  detector_pair-Delayed direct_bit inverted_bit none oq ed eq h = cc
  detector_pair-Delayed direct_bit inverted_bit (some d) none ed eq h = cc
  detector_pair-Delayed direct_bit inverted_bit (some d) (some q) ed eq h =
      let (is_a_net, delayed) =
        guarded_net (is_net q) (is_delay ctx (src_flop_d_pin ctx q) direct_bit) h in
      (
        d,
        q,
        flop_d-SourceFlop (driving ctx direct_bit) d ed,
        inverter_input-Inverter (driving ctx inverted_bit) q eq,
        is_a_net,
        is_delay-SourceFlop q direct_bit (src_flop_d_pin ctx q) refl delayed,
      )

  -- One operand of a one-bit AND is a flop's output and the other its delayed inverse.
  pub EdgeDetector : Bit → Type 0
  EdgeDetector d_bit =
      (name : String) × (cell : Cell) × (a : Bit) × (b : Bit) × (driving ctx d_bit
        ≡ some (name, "Y", cell))
      × (contains and_types cell.type ≡ true)
      × (pin cell "A" ≡ a ∷ [])
      × (pin cell "B" ≡ b ∷ [])
      × (Delayed a b ⊎ Delayed b a)

  is_edge_detector_pair-Delayed : (a b : Bit) → is_edge_detector_pair ctx a b ≡ true → Delayed a b
  unfolding is_edge_detector_pair
  is_edge_detector_pair-Delayed a b h =
      detector_pair-Delayed a b (src_flop_d_pin ctx a) (inverter_input ctx (driving ctx b)) refl
        refl h

  either : (x y : Bool) → (x || y) ≡ true → (x ≡ true) ⊎ (y ≡ true)
  either true y h = inl refl
  either false y h = inr h

  either_order-Delayed :
      (xs bs : List Bit)
      → either_order ctx xs bs ≡ true
      → (a : Bit) × (b : Bit) × (xs ≡ a ∷ []) × (bs ≡ b ∷ []) × (Delayed a b ⊎ Delayed b a)
  unfolding either_order
  either_order-Delayed (a ∷ []) (b ∷ []) h =
      let (nets, pairs) =
        guarded_net (is_net a && is_net b)
          (is_edge_detector_pair ctx a b || is_edge_detector_pair ctx b a) h in
      elim (either (is_edge_detector_pair ctx a b) (is_edge_detector_pair ctx b a) pairs) [
        | inl direct ↦ (a, b, refl, refl, inl (is_edge_detector_pair-Delayed a b direct))
        | inr mirrored ↦ (a, b, refl, refl, inr (is_edge_detector_pair-Delayed b a mirrored))
      ]
  either_order-Delayed [] bs h = cc
  either_order-Delayed (a ∷ c ∷ cs) bs h = cc
  either_order-Delayed (a ∷ []) [] h = cc
  either_order-Delayed (a ∷ []) (b ∷ c ∷ cs) h = cc

  detects-EdgeDetector :
      (d_bit : Bit) (o : Option (String × String × Cell))
      → driving ctx d_bit ≡ o
      → detects ctx o ≡ true
      → EdgeDetector d_bit
  unfolding detects EdgeDetector
  detects-EdgeDetector d_bit none e h = cc
  detects-EdgeDetector d_bit (some (name, port, cell)) e h =
      let (tests, order) =
        guarded_net (contains and_types cell.type && port == "Y")
          (either_order ctx (pin cell "A") (pin cell "B")) h in
      let (is_and, at_y) = (&&-eq-true (contains and_types cell.type) (port == "Y")).0 tests in
      let (a, b, at_a, at_b, delayed) = either_order-Delayed (pin cell "A") (pin cell "B") order in
      (
        name,
        cell,
        a,
        b,
        e ∙ ap (λ p. some (name, p, cell)) ((string_eq.beq_iff port "Y").0 at_y),
        is_and,
        at_a,
        at_b,
        delayed,
      )

  shaped :
      (t : Bool) → (if t then PulseShape.pulse else PulseShape.other) ≡ PulseShape.pulse → t ≡ true
  shaped true h = refl
  shaped false h = cc

  -- A data pin is classified as a pulse only where it is the output of a one-bit AND of a flop of
  -- the source domain and the inverse of the same signal one cycle later, on either pin.
  pub classify_d_pin_shape-EdgeDetector :
      (d_bit : Bit)
      → classify_d_pin_shape ctx d_bit ≡ PulseShape.pulse
      → (is_net d_bit ≡ true) × EdgeDetector d_bit
  unfolding classify_d_pin_shape
  classify_d_pin_shape-EdgeDetector d_bit h =
      let (is_a_net, detected) =
        (&&-eq-true (is_net d_bit) (detects ctx (driving ctx d_bit))).0
          (shaped (is_net d_bit && detects ctx (driving ctx d_bit)) h) in
      (is_a_net, detects-EdgeDetector d_bit (driving ctx d_bit) refl detected)
