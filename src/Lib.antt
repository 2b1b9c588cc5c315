-- ===== src/Lib.antt =====
-- rtl-buddy-cdc: a static analyser of clock-domain crossings. It reads timing constraints (SDC)
-- into a table of clocks, loads a flattened netlist, traces every flop's clock pin back to a
-- clock, follows the data fanout from flops, ports and blackboxes to the flops on other clocks,
-- keeps the crossings between asynchronous clocks, checks them by its rules, and drops the
-- violations that a waiver or a pragma in the RTL suppresses. This library models these parts,
-- written in Python under src/rtl_buddy_cdc/.
--
-- Which file models what:
--
-- - Base and its children: Python's tests, lists and dictionaries. A `dict` is the list of its
--   entries in insertion order; a `set` of which only membership is used is a list, and `sorted`
--   inserts. Text: the methods of `str` that more than one part uses.
-- - Sdc/Tokenizer (tcl_tokenizer.py, `_tokenize`): the reader's variables are the record `Reader`,
--   one iteration of its loop is `step`; the index is the rest of the text, with the number of
--   characters that an inner loop has read already. Sdc/Tokenizer/Source is a grammar of sources,
--   independent of the reader: lines of words, what separates them, comments and line ends.
-- - Sdc/Names (`_extract_names` and its callers), Sdc/Args (sdc.py, `_slice`, `Parsed`),
--   Sdc/Commands/Table (`ARG_SPECS`).
-- - Sdc/Spec (sdc.py, `Clock`, `ClockSpec` with `resolve`, `are_async`,
--   `is_unreachable_crossing`). A group of clocks is compared by its position in the statement, as
--   the source compares it by identity.
-- - Sdc/Commands (the handlers `_handle_*`) and Sdc/Parse (`parse`), with Sdc/Backend
--   (`_resolve_backend`), Sdc/Inputs (`synthesize_unconstrained_inputs`) and Sdc/Graph
--   (`validate_clock_graph`). A handler takes the spec and gives the new one; the warnings that
--   the source appends are the data type `Warning`.
-- - Netlist and its children (netlist.py, flops.py, `_bit_drivers` of domain.py). Netlist/Load is
--   the loader, on what `json.loads` makes of the file; Netlist/Drivers/Pins is the last output pin
--   on a net, independent of the index.
-- - Domain/Combine (`_pick_combining_root`), Domain/Trace (`_trace`, `trace_clock_root`),
--   Domain/Assign (`_build_bit_to_clock`, `_clock_identity_fn`, `assign_domains`), Domain/Filter
--   (`filter_async`), all of domain.py. `onward` says which bits follow behind one bit, `arrive`
--   what becomes of their roots. Domain/Assign/Pins is the first generated clock on a net,
--   independent of the index, Domain/Assign/Straight a root behind buffers and inverters alone.
-- - Crossings (domain.py, `find_crossings` and its helpers): Crossings/Fanout is the data fanout
--   of a bit (Crossings/Multi: what an append to a dictionary of lists leaves), Crossings/Walk the
--   breadth-first walk, which the source writes out three times and the model once, as a function
--   of the fanout, of the pruning test and of what a landing records; Crossings/Group is what it
--   records, Crossings/Boundary the blackbox instances, Crossings/Prune the filter
--   `_make_fanout_filter`, Crossings/Find the three walks and the crossings. A set of bits is a
--   list without repetitions; the lists that the filter tells apart by `id` are numbered.
-- - Primitives (primitives.py): synchroniser macros by the name of the module, and the depths that
--   their parameters declare.
-- - Waivers (waivers.py, `apply`, and `parse` in Waivers/Parse) and Pragma (pragma.py,
--   `scan_text`): a source is a list of events, one for each rule of each pragma, on the
--   dictionary of open regions.
-- - Pulse (pulse.py, `classify_d_pin_shape`, and `classify_toggle_d_pin` in Pulse/Toggle): the
--   cell that drives a bit is looked up once, and its tests are functions of it.
-- - Rules (rules.py): Rules/Context is `_build_context`, on Rules/Tags (the attributes of a user),
--   Rules/Index (drivers, readers and consumers of a bit; Rules/Index/Readers counts the pins that
--   read one) and Rules/ResetMux; Rules/Chain and Rules/Packed are the two forms of a synchronizer
--   (`_sync_chain_depth`, `_sync_chain_flops`, `_packed_shift_register_depth`), Rules/Fanin the
--   searches through combinational cells, Rules/Bus the protections of a bus. Rules/Single has
--   CDC-001, 002, 003 and 014, Rules/Edges CDC-016, Rules/Buses CDC-004 and 012, Rules/Groups
--   CDC-005 and 018, Rules/Sources CDC-006, 015 and 017, Rules/Sliced CDC-019 and 020, Rules/Ports
--   CDC-011 and 021, Rules/Rates CDC-009 and 013. Rules/Verdict is `crossing_synchronizer`,
--   Rules/Related `_tag_handshake_related`. A rule's loop over the crossings is `collect` of what it
--   reports of one, but for the rules that keep something between crossings. The text of a finding
--   is the data type `Message`, with the values that the source writes into it.
-- - Examples: the results at concrete inputs.
--
-- How the parts meet: Sdc/Parse runs the tokenizer's words through Args and Commands into a
-- `ClockSpec`; Domain asks that spec which clock a port belongs to, and which clocks are
-- asynchronous; Pragma makes waivers, which Waivers applies. The crossings that Domain/Filter
-- keeps are the input of the rules, whose context traces the domains again.
--
-- Loops: those over characters, words, commands, events and violations are structural recursion.
-- `resolve` runs on fuel, one more than the number of clocks, which is enough for every graph of
-- masters, cyclic ones included, and so does the search for cycles of masters. `_trace` carries
-- the hop budget of the source itself; a walk that exhausts it has no root, as in the source. The
-- walk of a crossing goes by levels, one more than `max_hops`, behind which its frontier is empty.
-- The walk along a synchronizer has as much fuel as the indices have flops, and the one along a
-- packed register as much as it has lanes; both only ever visit new ones, and so end before the
-- fuel does. The searches through combinational cells go by levels, with the hops that are left of
-- the source's own bound.
--
-- Parameters: floats and the reading of numbers (`Numbers`); the `re` library (`Patterns`, and the
-- search for a pragma in a line); what the Tcl interpreter answers to a text (`Backend`);
-- `str.lower` and `int(s, 10)`; the comparison of two periods in the rules on rates; what
-- `json.loads` returns, which has the shape that Yosys writes, with keys that may be missing; the
-- resolver of source locations. No result assumes more of them than its statement says.
--
-- Not modelled: logging and the recorders that observe the clock trace; the Tcl worker process
-- (tcl_worker.py), the frontends, the command line and the reports, which are input and output;
-- the clock candidates, combines and scan-mode flops of domain.py, of rules.py the rules on resets
-- and on the clock network (CDC-008, CDC-010, CDC-023), CDC-022 and `run_all`, clock_network.py,
-- the reset domains and the hierarchical abstraction.
pub mod Base
pub mod Text
pub mod Sdc
pub mod Netlist
pub mod Domain
pub mod Crossings
pub mod Primitives
pub mod Waivers
pub mod Pragma
pub mod Pulse
pub mod Rules
pub mod Examples
