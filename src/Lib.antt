-- ===== src/Lib.antt =====
-- The Zephyr virtual machine runs a guest program, compiled to WebAssembly, over each ledger that
-- the Stellar network closes. This library models its host environment, rs-zephyr-env: the state of
-- the host, the functions that the linker gives to the guest, and what they do on the pseudo stack,
-- the linear memory, the implementor's database and the ledger.
--
-- How the parts work together. The guest pushes the instructions of a database call on the pseudo
-- stack (rs-zephyr-env/src/stack.rs), one i64 at a time, and calls a host function
-- (rs-zephyr-env/src/host.rs, `host_functions`). The host reads the instructions by a cursor,
-- takes the data from segments of the guest's linear memory (rs-zephyr-env/src/host/memory.rs), and
-- delegates to the implementor's database (rs-zephyr-env/src/db/database.rs). What a read returns
-- is written to linear memory for the guest. Every step may add an entry to the trace
-- (rs-zephyr-env/src/trace.rs). Errors reach the guest as a status; panics end the process.
--
-- Files:
--   Prelude, Prelude/*       Boolean tests, lists and bits over the native numbers
--   Exec                     a state passed along code that may fail or panic
--   Errors                   rs-zephyr-env/src/error.rs, and the outcome of a Rust computation
--   Stack, Stack/Reads       rs-zephyr-env/src/stack.rs: `StackImpl` and its operations
--   Trace, Trace/Display     rs-zephyr-env/src/trace.rs: `StackTrace`, and the lines it is shown as
--   Database, Ledger, Budget rs-zephyr-env/src/db/database.rs, db/ledger.rs and budget.rs
--   Utils, Utils/Bytes       rs-zephyr-env/src/host/utils.rs: `i64_to_bytes`
--   Platform                 the libraries and the implementor's traits, as parameters
--   Host                     `HostImpl`, `from_id` and the types around them (host.rs, vm.rs,
--                            vm_context.rs)
--   Host/State               the operations on the host's own fields
--   Host/Memory              rs-zephyr-env/src/host/memory.rs; Transfer has its theorems
--   Host/Instructions        the blocks of host/database.rs that decode a message
--   Host/Database            the guards and the records of decoded instructions
--   Host/Write, Update, Read `write_database_raw`, `update_database_raw`, `read_database_raw`; the
--                            modules below them say what happens on a well-formed message
--   Host/Messages            the guest's side of the protocol: the encoders, independently
--   Host/Runs, Quiet, Guards, Stale
--                            rules for handlers: what they read, what they leave alone, what the
--                            permissions rule out, what a failure leaves
--   Host/Functions           the closures of `host_functions`, and `Ledger` those that read the
--                            ledger (host/soroban.rs); Calls has runs of guest calls, Kept and Reach
--                            what a run preserves, Messages a whole write from the guest's side
--                            Soroban the closures that reach into the embedded Soroban host
--                            (soroban_adjusted, host.rs), Keeps and Views what they leave alone
--   Host/Context             `CustomVMCtx` of host/memory.rs, through which the Soroban environment
--                            reaches linear memory
--   Host/Soroban             the calls of rs-zephyr-env/src/host/soroban.rs into the Soroban host
--   Soroban, Soroban/*       the interface of that host, and rs-zephyr-env/src/soroban_host_gen.rs:
--                            the marshalling, the frame, and the functions made of env.json
--   Snapshot                 rs-zephyr-env/src/snapshot.rs: the ledger that a simulation reads
--   Vm                       rs-zephyr-env/src/vm.rs: the metered calls of the guest
--   Vm/New, Vm/New/Foreign   the constructors of the VM, each in a store of its own identity, and
--                            what becomes of an instance in another store
--   Vm/Linker, Vm/Linker/*   `host_functions`, in the order in which the linker is given them, and
--                            what an import of the guest is linked to
--   Mercury, Mercury/*       rs-zephyr-env/src/testutils/database.rs: the database on a postgres
--                            server; Queries puts the queries together, Raw runs them, Setup has
--                            the tables of the harness (rs-zephyr-env/src/testutils/mod.rs)
--   Symbol, Symbol/*         rs-zephyr-env/src/testutils/symbol.rs: the names of columns
--   Harness, Harness/*       `TestVM` of rs-zephyr-env/src/testutils/mod.rs: Runs has what an invocation
--                            runs, Relay what becomes of the messages, Sends both together, from the
--                            guest's calls (Host/Functions/Sent) on
--   CloseMeta, Factory, Factory/*
--                            ledger-meta-factory/src/lib.rs: the structures of a ledger close meta and
--                            the methods that patch one; Reads is what a reader finds in it, Appends,
--                            Grows and Events what a method adds, Steps every sequence of methods
--   Macros, Macros/*         macros/src/lib.rs: the derive macro; Accepted says which structs it takes,
--                            Generated what its code does, and what is put is read back
--   Tests                    a sample platform and the theorems at concrete inputs
--
-- Conventions. An i64 or a usize is its 64-bit pattern, a natural number; a signed reading is
-- written out where the source makes one. Shared cells (Rc, RefCell, Weak) are fields of the host
-- that a handler takes and returns, also beside an error, since what was written before an error
-- stays written. A loop is structural recursion on the number of its rounds, so no fuel is needed.
-- The overflow of a product of i64 is a panic, as Cargo.toml's release profile has overflow checks.
--
-- Parameters (Platform): wasmi's memory, md5, the clock, bincode, the relayer's channel, the status
-- codes of rs_zephyr_common, and the implementor's database and ledger. Where a theorem needs how
-- wasmi's memory behaves, it takes the documented laws (`MemoryLaws`) as a hypothesis, and the tests
-- have a memory with these laws.
--
-- The Soroban environment is a parameter too (SorobanEnv): its host is a state, and what it asks of
-- linear memory is a tree of requests (Access), of which nothing is assumed. So are wasmi's linker
-- and engine (Linking, Wasmi), the simulation, SQLite with XDR (Store) and postgres (Postgres). A
-- theorem about the linker takes what wasmi documents of `define` (`LinkingLaws`), and the tests have
-- a linker with these laws. One about the constructors of a VM takes what wasmi documents of a store
-- and the instances in it (`StoreLaws`).
--
-- The harness's file system, HTTP client and channel are parameters (Runtime, Client), as are XDR and
-- the parser of addresses for the factory (Xdr) and the SDK of the guest for the macro (Sdk). Of the
-- channel a theorem takes that what is sent is received in order (`ChannelLaws`), of the SDK that its
-- codings read what they write (`CodingLaws`). Whether a sender of the channel outlives an invocation,
-- which keeps the relay waiting, is a parameter too.
--
-- Not modelled: the body of the Soroban environment and of the simulation, the execution of
-- WebAssembly, the text of traces and errors, the answers to requests of the relay, which are only
-- printed, the parsing and the printing of Rust code by the macro, and the constant sample ledger.
pub mod Prelude
pub mod Errors
pub mod Exec
pub mod Stack
pub mod Trace
pub mod Database
pub mod Budget
pub mod Ledger
pub mod Soroban
pub mod Snapshot
pub mod Mercury
pub mod Platform
pub mod CloseMeta
pub mod Factory
pub mod Harness
pub mod Macros
pub mod Host
pub mod Utils
pub mod Symbol
pub mod Vm
pub mod Tests
