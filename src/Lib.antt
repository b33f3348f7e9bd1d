-- ===== src/Lib.antt =====
-- vdsm-rs is the host agent that ovirt-engine drives by JSON-RPC: vdsmd listens for requests in one
-- of two framings, STOMP or one JSON text per line, and dispatches each to a handler; what needs
-- root it asks of supervdsmd, a daemon that runs a closed set of operations.
--
-- Encoding models what the program uses of Rust's standard library on bytes: UTF-8 validation,
-- decimal numbers, trimming, splitting, and maps keyed by strings, as association lists. A `str` is
-- the list of its UTF-8 bytes. Machine words are natural numbers with the bounds of a 64-bit
-- machine written out.
--
-- crates/vdsm-rpc/src/stomp.rs is Stomp. `Frame`, its methods and `ParseError` are in Stomp itself,
-- with the outcomes of the parser: a frame, `Ok(None)`, an error, or a panic. Stomp.Escape has
-- `escape_header` and `unescape_header`, Stomp.Lines the helpers on bytes, Stomp.Parser `parse_frame` in
-- the steps of its body, Stomp.Wire `to_bytes`, and Stomp.Build the module `build`. The header loop runs on
-- fuel, one more than the bytes that are left, and each line takes at least one byte.
--
-- crates/vdsm-rpc/src/protocol.rs and dispatch.rs are Rpc.Protocol and Rpc.Dispatch, over any type of
-- JSON values and any type of host states, which handlers change.
--
-- crates/vdsm-rpc/src/server.rs is Server. `Env` holds what a connection is given, serde_json's decoder
-- and encoder and the iteration order of a hash map among it, as parameters. Server.Reply has
-- `handle_stomp_send`, Server.Session one frame of `serve_stomp`, Server.Stream its two loops over a list
-- of reads, and Server.LineFraming `process_one` and `serve_lines`. The inner loop runs on fuel, one more
-- than the bytes in the buffer, and a frame takes at least one byte. What is written is kept as a
-- list of frames, and writes are taken to succeed.
--
-- crates/vdsm-common/src/supervdsm.rs and crates/supervdsm/src are Supervdsm: the operations and
-- results, the tests on fields (Valid), `execute` (Exec), and `lookup_user` and `handle` (Daemon).
-- Starting a program, listing /sys and writing a file are parameters that act on the machine's state.
--
-- crates/vdsm-storage/src is Storage, over a JSON library and a machine (`Json` and `Host`, records of
-- parameters), with verbs that pass the machine's state and return a value or an error. connection.rs
-- is in Storage.Paths, sd_backend.rs Storage.Backend, volumes.rs Storage.Metadata, Storage.Create and
-- Storage.Volumes, domain.rs Storage.Pool, Storage.Domain and
-- Storage.DomainInfo, verbs.rs Storage.Connections, and block.rs Storage.Iscsi, Storage.Groups and
-- Storage.Devices. The state behind a lock is passed from the call to its end. `u64` is read with the bound of `usize`.
--
-- crates/vdsm-virt/src is Vm. Vm itself has the record and the states of lib.rs, with the tasks that verbs
-- spawn, Vm.DomainXml domain_xml.rs, and Vm.Virsh, Vm.Verbs, Vm.Migration and Vm.Reconcile have verbs.rs and
-- the poll of crates/vdsm-host/src/vm_stats.rs. libvirt, which is virsh, and the clock are a record of
-- parameters. Vm.Steps puts the methods of crates/vdsmd/src/main.rs and the tasks together as a step
-- relation; a verb or a task is one step. Vm.Keeps carries a predicate through every verb.
--
-- crates/vdsm-schema/build.rs is Schema: Schema.Strip has the pass over anchors, Schema.Loader
-- `LenientLoader`, Schema.Names the identifiers, Schema.Types what is read from the schema, Schema.Emit what is
-- written, and Schema.Main puts them together. The parser's events and the map of the YAML library are
-- parameters; a panic is `none`.
--
-- crates/vdsm-host/src/sysinfo.rs is Host, over a probe of files and programs: Host.Files, Host.Network,
-- Host.Cpu, Host.Numa and Host.Programs. Host.Dates has the date of stats.rs, on seconds that are not
-- negative. A difference of 32 bits wraps around there, as in a release build.
--
-- Host.Caps has the helpers of caps.rs. crates/vdsm-tool/src/main.rs is Tool, and
-- crates/vdsm-common/src/config.rs is Tool.Config.
--
-- Not modelled: sockets, TLS, tasks and logging, which are I/O; constant verbs; numbers in floating point, and the JSON of getStats and getCapabilities, which is constant
-- around the parts of sysinfo.rs; the start of the binaries.
pub mod Base
pub mod Encoding
pub mod Stomp
pub mod Rpc
pub mod Server
pub mod Supervdsm
pub mod Storage
pub mod Vm
pub mod Schema
pub mod Host
pub mod Tool
pub mod Examples
