-- ===== src/Lib.antt =====
-- A model of bloomd, a daemon that serves Bloom filters of the Linux kernel over a local socket.
--
-- A request comes in as a frame (include/bloomd.h, src/protocol.c), is driven through the state
-- machine of its connection, dispatched to a handler (src/daemon.c), which works on the set of
-- filters (src/util.c), their kernel maps (src/bpf.c), their digest logs (src/log.c) and their
-- metadata files (src/meta.c), and is answered in a frame. Payloads are inserted as 128-bit digests
-- (src/hash.c).
--
-- Common        Boolean tests, lists over the native numbers, return codes, bit fields.
-- Wire          src/protocol.c: little-endian loads and stores.
-- Hash          src/hash.c; Reference is SipHash-2-4 as its paper has it, over a list of words, for
--               one key. Tests.Hashing has the paper's test vector.
-- Platform      the system calls and the C library, a record of functions on a world; Platform.Laws
--               are the documented properties that theorems assume by name.
-- Io            src/util.c: bloomd_write_all and bloomd_read_all.
-- Buffer, Frame src/protocol.c: buffers, frame headers, responses, fields; status and error codes;
--               Frame.Send is bloomd_write_response, Frame.Receive a law of bloomd_read_frame.
-- Name          src/util.c: names and paths.
-- Bpf           src/bpf.c.
-- Log           src/log.c; Replay is the replay of a log with a callback.
-- FilterSet     src/util.c: bloomd_filter_set_*, with the one-entry cache.
-- MetaFile      src/meta.c: bloomd_meta_write_atomic.
-- MetaRead      src/meta.c: bloomd_meta_read_file and bloomd_meta_recover_stale.
-- FilterState   src/daemon.c: what an insertion does to the log, the pin and the metadata.
-- Daemon        src/daemon.c: the state that requests share and the pool of one empty map.
-- Handlers      src/daemon.c: bloomd_handle_*; Create, Add, Batch, Info, Drop.
-- Dispatch      src/daemon.c: bloomd_dispatch.
-- Client        src/daemon.c: bloomd_client_*.
-- Recovery      src/daemon.c: what main does with the directories before it serves. Load is the
--               loop over the metadata files, Pins the clean-up of the pin directory.
-- MainLoop      src/daemon.c: the rounds of main, with poll, accept, the timeouts and the sync of the
--               logs. Reachable is the relation of the states that the rounds lead to.
-- Setup         src/daemon.c, src/util.c: options, directories, signals, the socket, and main up to
--               its loop.
-- Ctl           src/bloomctl.c: requests, replies and the main of the client.
-- Tests         a small platform on which the theorems are applied.
--
-- A function keeps its name less the prefix `bloomd_`. A function that changes memory takes and
-- returns it; one that calls the system takes and returns the world. A result of 0 or `-errno` is 0 or
-- the errno value; with a value it is a `Result`, with a message an `Outcome`. A descriptor is an
-- option, `none` for -1. A C string is the list of its bytes before the NUL. Numbers are natural
-- numbers, and 64-bit words wrap where the source lets them.
--
-- Loops are on lists or on counts, where they have one. The loops around read, write and writev run
-- on fuel: the bytes to go, the signals that may still interrupt, and one; the replay of a log and the
-- lines of a metadata file on the bytes that the file has left, and one; the loop around accept on the
-- connections that wait, the interruptions, and one. Every call moves a byte, takes a connection, uses
-- up an interruption or ends the loop. Fuel that runs out would return `hang`, which is no errno value.
-- The loop of main runs until a signal stops it: its rounds are the steps of a relation.
--
-- Not modelled: log messages and what printf makes of the values that bloomctl prints, the program
-- src/bloominspect.c, the hooks of src/bpf.c that replace the system call, and the tests. Memory is
-- modelled where a call can fail for lack of it.
pub mod Common
pub mod Wire
pub mod Hash
pub mod Platform
pub mod Io
pub mod Buffer
pub mod Frame
pub mod Name
pub mod Bpf
pub mod Log
pub mod FilterSet
pub mod MetaFile
pub mod MetaRead
pub mod Recovery
pub mod MainLoop
pub mod Setup
pub mod Ctl
pub mod FilterState
pub mod Daemon
pub mod Handlers
pub mod Dispatch
pub mod Client
pub mod Tests
