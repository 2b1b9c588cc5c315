-- ===== src/Crossings/Find/Nets.antt =====
-- The walks of `find_crossings` (src/rtl_buddy_cdc/domain.py) come to nets only.
use mathlib.Core.Path.{subst}
use rtl_buddy_cdc.Base.{
  ℕ, String, true, Option, none, some, List, [], ◌∷◌, ◌≡◌, inl, inr, refl, sym, lookup, Within,
  Within-append, Bool-cases, string_eq,
}
use rtl_buddy_cdc.Netlist.{Bit, is_net, Cell, Module}
use rtl_buddy_cdc.Crossings.Fanout.{
  Site, Consumers, consumers_of, lane_targets, nets, is_transit, through_site, through_sites,
  lane_fanout,
}
use rtl_buddy_cdc.Crossings.Walk.Reach.{Hops, source, hop}

pub nets-is_net : (bs : List Bit) (b : Bit) → Within b (nets bs) → is_net b ≡ true
unfolding nets
nets-is_net [] b w = absurd w
nets-is_net (c ∷ bs) b w = elim (Bool-cases (is_net c)) [
  | inr bound ↦ nets-is_net bs b (subst (Within b) {y = nets bs} (rw bound refl) w)
  | inl free ↦
      let w' : Within b (c ∷ nets bs) = subst (Within b) {y = c ∷ nets bs} (rw free refl) w in
      elim w' [
        | inl same ↦ subst (λ x. is_net x ≡ true) (sym same) free
        | inr later ↦ nets-is_net bs b later
      ]
]

through_site-is_net :
    (outputs : Cell → String → ℕ → List Bit) (o : Option Cell) (port : String) (idx : ℕ) (b : Bit)
    → Within b (through_site outputs o port idx)
    → is_net b ≡ true
unfolding through_site
through_site-is_net outputs none port idx b w = absurd w
through_site-is_net outputs (some cell) port idx b w = elim (Bool-cases (is_transit cell)) [
  | inl way ↦
      nets-is_net (outputs cell port idx) b
        (subst (Within b) {y = nets (outputs cell port idx)} (rw way refl) w)
  | inr stop ↦ absurd (subst (Within b) {y = []} (rw stop refl) w)
]

through_sites-is_net :
    (outputs : Cell → String → ℕ → List Bit) (m : Module) (sites : List Site) (b : Bit)
    → Within b (through_sites outputs m sites)
    → is_net b ≡ true
unfolding through_sites
through_sites-is_net outputs m [] b w = absurd w
through_sites-is_net outputs m ((name, port, idx) ∷ sites) b w =
    elim (Within-append b (through_site outputs (lookup name m.cells) port idx)
      (through_sites outputs m sites) w) [
        | inl here ↦ through_site-is_net outputs (lookup name m.cells) port idx b here
        | inr later ↦ through_sites-is_net outputs m sites b later
      ]

pub Hops-is_net :
    (m : Module) (consumers : Consumers) (bs : List Bit) (n : ℕ) (b : Bit)
    → Hops (lane_fanout m consumers) (nets bs) n b
    → is_net b ≡ true
unfolding lane_fanout
Hops-is_net m consumers bs n b (source w) = nets-is_net bs b w
Hops-is_net m consumers bs n b (hop {a = a} path w) =
    through_sites-is_net lane_targets m (consumers_of consumers a) b w
