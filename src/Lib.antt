-- ===== src/Lib.antt =====
-- A model of sarena, a container network plugin in Rust, and what is proved of it.
--
-- The parts and how they interact. A CNI plugin asks the daemon for addresses; the daemon answers
-- through the IPAM service (sarena-services/src/ipam), which keeps one host-scope allocator for
-- each IP family, and an allocator keeps a bitmap of the addresses it has given. The data plane
-- (sarena-data-plane/src) keeps the endpoints of the node under ids from an id allocator; its
-- software version forwards frames itself: it parses a frame, translates the addresses of services
-- (conntrack), chooses a route and delivers or encapsulates.
-- Each endpoint has a worker, which regenerates it: it writes the state to a directory, asks the
-- loader to attach the BPF programs and makes the directory the current one; a restart reads the
-- directories back. The loader runs in a thread of its own and drives a backend, the kernel or a
-- mock.
-- The endpoint service turns a request into an endpoint of the manager and regenerates it.
-- Tests of the eBPF programs report through a result map, which the test runner reads.
-- Controllers rerun jobs at an interval, after a failure with a backoff.
--
-- Files and the code they model:
--   Prelude            shared names, Boolean tests, lists, `HashMap` and `HashSet` as lists, bits.
--   Net                `IpAddr`, the texts of addresses, sarena-infra/src/mac_address.rs in Mac, and
--                      the `ipnet` crate through the answers of its methods (`IpNet`), with the laws
--                      it documents (`IsIpNet`).
--   Ipam/Bitmap        sarena-services/src/ipam/bitmap.rs. Word: single bits of the words; Valid:
--                      the invariant; Offsets and Visit: `for_each`; Refine: the set of offsets.
--   Ipam/HostScope     sarena-services/src/ipam/host_scope.rs. Range: offsets and addresses; Held
--                      and Ops: the calls against a set of addresses; Dump: `for_each`, `dump`.
--   Ipam/Service       sarena-services/src/ipam/service.rs, with the trait's methods in Api. Owner:
--                      the owner map; Outcome, Loop and Other: `allocate_next_family`; Specific:
--                      `allocate_ip`; Rollback: `allocate_next` and `release_ip`.
--   Ipam/Error         the errors of sarena-services/src/ipam/mod.rs.
--   Endpoint/IdAllocator  sarena-data-plane/src/endpoint/id_allocator.rs. Avail: the free ids; Ops
--                      and Answers: each call; Drain: runs of calls, and leases.
--   Endpoint/Persist   sarena-data-plane/src/endpoint/persist.rs and id.rs: the data.
--   Endpoint/Manager   sarena-data-plane/src/endpoint/manager.rs. Lookup and Keeps: what the calls leave.
--   Endpoint/Directory sarena-data-plane/src/endpoint/directory.rs, and the files of persist.rs.
--                      Names: the names of the directories; Files: the calls of `std::fs` and
--                      `synchronize_directories`; Synchronize: what it leaves; Restore:
--                      `read_endpoints`; Order and Outcomes: which directory a restart takes.
--   Endpoint/Worker    sarena-data-plane/src/endpoint/worker.rs and regenerate.rs. Regenerate: what a
--                      regeneration leaves; Queue: the loop and its end.
--   Endpoint/Service   sarena-services/src/endpoint/service.rs. Request: what the
--                      checks find; Create: the creation of an endpoint.
--   Loader             sarena-data-plane/src/loader and maps/mod.rs. Backend: the trait; Calls: the
--                      loader; Actor and Steps: its thread; Mock: mock_backend.rs; Effects, Attached,
--                      Infos, Pins, Stale and Reconcile: what the calls leave in the mock.
--   TestWire           sarena-shared-test/src, with the suite of sarena-ebpf-test-framework/src/suite.rs
--                      and the wrapper of sarena-test-macros/src/assert.rs in Writer, and the reading
--                      of the result map of sarena-test-runner/src/ebpf_test_runner.rs in Runner.
--                      Codec, Writes, Ending, Goes, Reads and RoundTrip: the round trip.
--   Controller         sarena-data-plane/src/controller: Backoff, Spec, Status, Runner (History: the
--                      counts against the results) and Manager (Ids, Updated) for the files of those names.
--   SoftDataplane      sarena-data-plane/src/soft_dataplane.rs and models.rs. Models: the data; Bytes
--                      and Packet: frames, their parsing and rewriting, with Bytes/Writes,
--                      Packet/Checksum, Packet/Panics, Packet/Keeps and Packet/Rewrite; Tables: the
--                      state and the table calls, with Tables/Routes; Routing: the choice of a route
--                      (Choice, Longest) and of a backend; Forward: the decision for a frame, with
--                      Forward/Nat.
--
-- State is passed explicitly: a method of `&mut self`, or one behind a lock, is a function from
-- the state to the new state and the answer; a lock is held for the whole call. A panic is `none`;
-- whether the build checks for overflow is an argument where it matters.
-- What the code draws at random, or takes from the order of a hash map, is an argument. The
-- operating system is an environment that chooses which file calls are refused.
--
-- Bounds and fuel. `usize` is 64 bits wide and a bitmap word has 64 bits. `scan_word` has 64
-- rounds, one for each bit. `allocate_next_loop` has one round more than the allocator has
-- addresses, since each round but the last takes one address. `fold_carry` has three rounds, which
-- fold every `u32`. `digits` has five rounds, the digits of a `u16`. `read_records` has one round
-- for each byte that is left, and a record takes two at least.
--
-- Not modelled: the locks and the poisoning of a mutex, the abort of a worker at a timeout, logging,
-- serialisation, the eBPF programs and the kernel behind the loader, netlink, the HTTP client and
-- server, the command line and the CNI commands.
pub mod Prelude
pub mod Net
pub mod Ipam
pub mod Endpoint
pub mod SoftDataplane
pub mod Controller
pub mod TestWire
pub mod Loader
