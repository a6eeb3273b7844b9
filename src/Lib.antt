-- ===== src/Lib.antt =====
-- pfsnitch is an application firewall for FreeBSD. Its daemon takes packets from a pf divert
-- socket, names the process behind each, decides by a policy file and by asking the user, and puts
-- the packet back or answers it with a reset. This library models the parts that the decision
-- rests on, and what they promise.
--
-- The parts and their files:
-- - Base: Boolean tests on numbers, lists measured by them, equality as an instance, hash sets and
--   hash maps as lists.
-- - Text: the operations of `str` that the source calls, on lists of characters. Text/Numbers reads
--   and prints decimal numbers; Text/Laws and Text/Whole hold the laws of cutting, trimming and
--   lines. The Unicode tables are a parameter, `Unicode`, with their behaviour on ASCII.
-- - Addr: `IpAddr`, read and printed as `std::net` does.
-- - Policy: src/policy.rs. Policy/Target cuts a destination from its port; Policy/Decide is
--   `Policy::decide` and Policy/Decide/Spec its meaning as two lists of rules; Policy/Load is
--   `Policy::load`; Policy/Record is `Policy::record` with `record_id` and `forget_id`, where
--   Effect says what an answer adds to the policy, Decisions what is decided after it, and Persist
--   that the file is read back as the policy in memory, in Persist/Pinned with the identity of a
--   binary, by the lines of Persist/Written and the values of Persist/Apply; Policy/Manage is the
--   listing and adding of rules that the command line does, and Policy/Manage/Edit the rewriting of
--   the file, where a write may be cut short; there, Fields and Setting are about one setting,
--   Settings about the mode and the attribution.
-- - Divert: src/divert.rs. The parser of packets, and in Divert/Csum and Divert/Rst the checksum
--   and the TCP reset; Divert/Safe is about indexing. Divert/Rst/Accepted is what a receiver asks of
--   a packet, Valid and Whole are about the checksums of a reset, Route about the addresses that the
--   parser reads, Answer about the parser on a reset, Protocol about packets that get none.
-- - Procinfo: src/procinfo.rs. The tables of sockets and owners in three tiers, the snapshot that
--   fills them from the processes, in Procinfo/Resolver the cache over them, in Procinfo/Probe the
--   rows that the probe command prints, and in Procinfo/Running `daemon_running`.
-- - Dns: src/dns.rs. The reader of DNS answers, and in Dns/Cache the names that were learnt.
-- - Seen and Identity: src/seen.rs and src/identity.rs, the tables of last contacts and of hashes;
--   Seen/Restart is about the file of the former, read back after a restart.
-- - Kernattr: src/kernattr.rs, the client of the kernel module, with the C layout of what it sends;
--   Kernattr/Push is about pushed verdicts.
-- - Daemon: src/main.rs, the function `run`. Daemon holds its variables and what a step finds and
--   does outside; Daemon/Packet, Daemon/Answers and Daemon/Upcall are the three handlers, and
--   Daemon/Tick the periodic work, the start and the shutdown; Daemon/Run composes them to rounds,
--   with the states and traces that rounds reach in Daemon/Run/Sound, where Quiet, Handlers and
--   Channels show which steps leave the upcall alone, Calm the same of the calls of the device,
--   Settled that a new verdict keeps the cache bounded, Governs and Requested what the periodic work
--   does about it, and Waiting is about answered upcalls;
--   Daemon/Pinned is about the identity that is pinned when a binary is approved;
--   Daemon/Wire is what a packet leads to on the network, in visibility, in enforcement, after an
--   answer and after a change of the policy file. The cache of verdicts in the kernel, and whether
--   the kernel does what it is asked, are outside these statements.
-- - Cli: src/main.rs, the commands that change the policy file; Cli/Dispatch is `main`. Cli/Json is
--   the printing of rules and of the status as JSON, and Cli/Apps and Cli/Apps/Listing that of the
--   rules by application. Cli/Json/Grammar is what a text of JSON says, and Parse and Unique are a
--   reader by which it says one thing only; Cli/Json/Rules, Cli/Json/Status, Cli/Json/Totals and
--   Cli/Apps/Printed are about what the printed texts say, Cli/Apps/Grouping about how the rules are
--   grouped, Cli/Apps/Added about how a rule that was added is listed.
-- - Tests: examples.
--
-- How they interact: a packet that Divert parses gives the `Tuple` that Kernattr or Procinfo names an
-- owner for and the address that Dns knows a name for; Identity tells whether the binary changed;
-- owner, address, name and port go to `decide`. A question goes to the user, its answer to
-- `record_decision`, which changes the policy in memory and appends a line to the file, and to the
-- upcalls of the kernel that wait for it.
--
-- How state and failure are written: a function that changes an object takes its state and returns
-- the new one; a policy file is an optional text, and a flag or a fault tells how writing it ends.
-- In the parsers of bytes a value is `ok`, the source's `None` is `refused`, and an index out of
-- range is `panic`. Numbers are the native ones; what the source computes in 32 bits is taken modulo
-- 2 ^ 32.
--
-- Bounds and fuel: the extension headers of IPv6 are walked in the source's eight rounds. A sum of
-- 32 bits folds to 16 in two rounds of `fold_carries`, and the third sees that it is done. A name
-- of a DNS answer follows at most sixteen pointers, and each label moves on by a byte, so
-- 17 * (length + 1) steps are enough; running out of them would be `panic`.
--
-- What a step of the daemon finds outside is its argument `World`, and may be another one in each
-- step: the answers of the kernel, files and their times, sockets, clocks. What it does outside is a
-- list of `Effect`s, in order. A round takes the answers and upcalls that have come, in order; a call
-- of pfctl, a prompt and a thread are effects, and their results come in later rounds.
--
-- Not modelled: the calls of the sockets; log lines; in src/main.rs usage and plain tables; the
-- kernel module of kmod, whose answers are a parameter; the bindings of libprocstat, whose answers
-- are a parameter; scripts and dialogs. The listing of applications reads the clock once here.
-- A policy file that cannot be read, for it is no UTF-8 or for another reason, is like one that is
-- not there. Instants are whole milliseconds, and seconds where names of addresses age.
-- The order of a hash map is not that of its list here. Two processes that write the policy file at
-- the same time are not modelled.
pub mod Base
pub mod Text
pub mod Addr
pub mod Policy
pub mod Divert
pub mod Procinfo
pub mod Dns
pub mod Seen
pub mod Identity
pub mod Kernattr
pub mod Daemon
pub mod Cli
mod Tests
