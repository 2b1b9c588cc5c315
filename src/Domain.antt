-- ===== src/Domain.antt =====
-- Clock domains: src/rtl_buddy_cdc/domain.py.
pub mod Combine
pub mod Trace
pub mod Assign
pub mod Filter
use rtl_buddy_cdc.Base.{ℕ, String, Bool, Option, none, some, List, ◌++◌}
use rtl_buddy_cdc.Sdc.Tokenizer.{chars, join}
use rtl_buddy_cdc.Netlist.Flops.{Flop, flop_name}

pub record FlopDomain : Type 0 where
  pub flop : Flop
  pub clock : Option String

pub record Crossing : Type 0 where
  pub src_clock : String
  pub dst_flop : Flop
  pub dst_clock : String
  pub min_hops : ℕ
  pub width : ℕ
  pub src_flop : Option Flop
  pub src_port : Option String
  pub src_boundary : Option (String × String)
  pub dst_boundary : Option (String × String)
  pub scan_mode : Bool

abbrev named_source : Option Flop → Option String → Option (String × String) → String
named_source (some flop) port boundary = flop_name flop
named_source none (some port) boundary = join (chars "port " ++ chars port)
named_source none none (some (inst, port)) =
    join (chars "boundary " ++ chars inst ++ chars "." ++ chars port)
named_source none none none = "<unknown>"

unfoldable pub src_name : Crossing → String
src_name c = named_source c.src_flop c.src_port c.src_boundary
