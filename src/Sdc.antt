-- ===== src/Sdc.antt =====
-- Reading SDC constraints: src/rtl_buddy_cdc/tcl_tokenizer.py and src/rtl_buddy_cdc/sdc.py.
pub mod Tokenizer
pub mod Names
pub mod Args
pub mod Spec
pub mod Numbers
pub mod Commands
pub mod Parse
pub mod Backend
pub mod Inputs
pub mod Graph
