-- ===== src/Netlist.antt =====
-- The netlist of src/rtl_buddy_cdc/netlist.py.
pub mod Flops
pub mod Drivers
pub mod Load
use rtl_buddy_cdc.Base.{
  ℕ, String, Bool, true, false, Option, none, some, List, [], ◌∷◌, ◌==◌, ◌≡◌, ◌↔◌, refl, ap, arith,
  nat_eq, string_eq, Eq, if◌then◌else◌, contains, Dict, values,
}

-- A net, by its number, or one of the constants.
pub data Bit : Type 0 where
  net : ℕ → Bit
  constant : String → Bit

unfoldable pub bit_beq : Bit → Bit → Bool
bit_beq (net n) (net m) = n == m
bit_beq (constant s) (constant t) = s == t
bit_beq _ _ = false

pub bit_beq_iff : (a b : Bit) → (bit_beq a b ≡ true) ↔ (a ≡ b)
unfolding bit_beq
bit_beq_iff (net n) (net m) = ground (arith, nat_eq.beq_iff n m)
bit_beq_iff (constant s) (constant t) = ground (arith, string_eq.beq_iff s t)
bit_beq_iff (net n) (constant t) = ground arith
bit_beq_iff (constant s) (net m) = ground arith

instance abbrev pub bit_eq : Eq Bit
bit_eq = record { beq = bit_beq; beq_iff = bit_beq_iff }

-- `isinstance(bit, int)`
unfoldable pub is_net : Bit → Bool
is_net (net n) = true
is_net (constant s) = false

pub record Port : Type 0 where
  pub name : String
  pub direction : String
  pub bits : List Bit

pub record Cell : Type 0 where
  pub name : String
  pub type : String
  pub connections : Dict String (List Bit)
  pub parameters : Dict String String
  pub attributes : Dict String String

pub record Netname : Type 0 where
  pub name : String
  pub bits : List Bit
  pub attributes : Dict String String

pub record PortBoundary : Type 0 where
  pub port : String
  pub src_clock : Option String
  pub synchronised : Bool
  pub width : ℕ
  pub sync_depth : Option ℕ
  pub user_synchronised : Bool

-- A set of sets of ports is the list of its members.
pub record BoundarySummary : Type 0 where
  pub module_name : String
  pub ports : Dict String PortBoundary
  pub clock : Option String
  pub input_ports : Dict String PortBoundary
  pub internal_analysed : Bool
  pub reconvergent_inputs : List (List String)

pub record Module : Type 0 where
  pub name : String
  pub ports : Dict String Port
  pub cells : Dict String Cell
  pub netnames : Dict String Netname
  pub is_blackbox : Bool
  pub boundary : Option BoundarySummary

-- The loop of `port_of_bit`.
unfoldable pub port_with_bit : Bit → List Port → Option Port
port_with_bit bit [] = none
port_with_bit bit (p ∷ ps) = if contains p.bits bit then some p else port_with_bit bit ps

unfoldable pub port_of_bit : Module → Bit → Option Port
unfolding port_with_bit is_net
port_of_bit m bit = if is_net bit then port_with_bit bit (values m.ports) else none

-- `[c for c in self.cells.values() if c.type in wanted]`
unfoldable pub cells_with_type : List String → List Cell → List Cell
cells_with_type wanted [] = []
cells_with_type wanted (c ∷ cs) =
    let rest = cells_with_type wanted cs in if contains wanted c.type then c ∷ rest else rest

unfoldable pub cells_of_type : Module → List String → List Cell
unfolding cells_with_type
cells_of_type m types = cells_with_type types (values m.cells)
