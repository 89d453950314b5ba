-- ===== src/Lib.antt =====
-- Verification of the manager of the network function platform, the crate onvm_mgr.
--
-- The manager runs network functions (NFs) on DPDK. Its parts and the files that model them:
-- - Base: lists, integers and the commands, by which a step of the program reads and writes a
--   state and ends with a value, an error that `?` passes on, a panic, a read or write through a
--   null pointer, an exit of the process, or without fuel.
-- - Nflib: the data that the manager shares with NFs, onvm_mgr/src/nflib/structs.rs (Structs, with
--   packet buffers in Structs/Packets), constants.rs (Constants) and funcs_macros.rs (Macros).
--   exit_on_failure of onvm_mgr/src/error_handling.rs is `fail` of Base/Commands.
-- - Mgr/Global and Mgr/System: GlobalNFState of onvm_mgr/src/mgr/global.rs, and the state that the
--   commands work on: the global state, what the pointers to NFs and cores lead to, and the world
--   of DPDK.
-- - Mgr/Nf: onvm_mgr/src/mgr/net_funcs.rs. Start has onvm_nf_next_instance_id, onvm_nf_start and
--   onvm_nf_ready; Stop has onvm_nf_stop, a definition for each of its phases; Messages has
--   onvm_nf_check_status and onvm_nf_send_msg. Stop/Counters says what the counters of the manager
--   mean, each the number of the NFs that it stands for, and Stop/Accounts is about them in
--   a stop. Stop/Frame is what a stop does to the NFs and the slots, however it ends, and
--   Messages/Sent what a message that is sent leaves on a ring.
-- - Mgr/Frame: what a command leaves alone, however it ends.
-- - Mgr/Args: onvm_mgr/src/mgr/get_args.rs, with the masks of ports and cores in Ports and Cores,
--   the listing of cores in Cores/Printed, and numbers in decimal and hexadecimal in Numbers, with
--   all texts that are read as numbers in Numerals.
--   Ports/Returns is about the port masks that can be read at all, Cores/Whole about the whole of
--   parse_nf_cores, Whole and Accepts about all options together, Forms about what they have to be, and
--   Args/Frame about what they leave alone.
-- - Mgr/Init: onvm_mgr/src/mgr/init.rs. Startup has init itself, Zones its memory zones, Pools the
--   pools, the queue and the configuration, Port init_port, Links check_all_ports_link_status with
--   Links/Bounds on how often it asks. Startup/Ends is how init ends and what it leaves, with the
--   addresses of Zones/Layout; Startup/Options is what its own options do to it, and
--   Startup/Arguments how they are told apart. Port/Queues runs init_port on a DPDK that keeps a
--   log of the calls for queues.
-- - Main: master_thread_main of onvm_mgr/src/lib.rs, which calls Mgr/Nf. Forever is about its end
--   and Frame about what it leaves alone. Run has main_run, and the program
--   onvm_mgr_test/src/main.rs.
-- - Tests: each theorem below at a concrete input, with rings that are lists.
--
-- How it is modelled. Overflow checks are on, as in a debug build. Logging, printing and sleeping
-- are left out, but for the listing of cores and the report of the test program, and so are locks
-- and cells. A null pointer is `none`; a pointer, a ring or a pool is a number. An Arc that an
-- assignment replaces is dropped, which crashes where it was made of a null pointer; what is
-- dropped after a panic is left out. DPDK is a parameter: NfDpdk, InitDpdk and Timer hold its calls,
-- RingLaws the documented behaviour of its rings, SendLaws that of a ring that takes
-- an object and of the allocator, and Answers that of links that can be asked. Host
-- is what init uses of the machine, and Sizes the sizes of types. The vectors that messages and
-- packets are to be read into have length 0, as in the source, since DPDK is handed the address of
-- a temporary. A message that is sent lies in a Box: the ring is given its address, and the Box is
-- freed on return; NfDpdk has the allocator too. A reading of the cycles is cut to 64 bits. The
-- crates bit_field, getopts and num_cpus are parameters too.
--
-- Loops. `for` loops are recursion on the rounds that are left. `while` loops take fuel: for
-- the messages of a ring as many rounds as it holds are enough, for the port mask one more than its
-- bits, for the core mask one more than its value. The main loop has no bound.
--
-- Not modelled: onvm_mgr/src/nflib/threading.rs, which is unfinished and not part of the crate;
-- the threads with empty bodies; the copy of the Capsule library and its bindings, capsule,
-- capsule-ffi and capsule-macros, which is another project's code.
pub mod Base
pub mod Nflib
pub mod Mgr
pub mod Main
pub mod Tests
