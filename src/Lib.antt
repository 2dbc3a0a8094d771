-- ===== src/Lib.antt =====
-- agent-debugger: the command line that starts, drives and closes debug sessions, and its bridge
-- protocol.
--
-- Each module models one Rust file; its opening comment names the file.
-- - Prelude: numbers, lists, tests, and the result type that stands for `anyhow::Result`. Json:
--   the values of `serde_json`; its serializer is a parameter (Json.Serde), with the laws that a
--   theorem relies on among its hypotheses.
-- - Dap: src/dap.rs, the framing of messages by `Content-Length`, over lists of bytes. Dap.Text
--   holds the Rust text functions that it calls.
-- - Client: src/client.rs, one request. The socket and the clock are the list of what the reads
--   return, so no fuel is needed: the loop is a recursion on that list.
-- - Session: src/session. Paths, Sidecar and Forward are the guards that every command passes; a
--   session directory is the record of its metadata, of the sidecar texts that can be read, of
--   breaks.lock and of the temporary files that a failed write has left. Breaks is the breakpoint
--   commands and the intent kept in stops.json.
-- - Session.Locks: src/session/locks.rs, the startup and endpoint locks. Locks.World is one lock
--   path with the list of what rival processes do to it before each of our calls, and of which
--   calls fail; when the list is used up nobody interferes. Between the creation of a lock file
--   and the writing of its record rivals may take the file away, a failed write may leave a part
--   of the record, and the removals of our own files may fail. Locks.Events carries a property of
--   all events along the operations. Locks.Quarantine, Locks.Startup and Locks.Endpoint are the
--   operations; Locks.Kept, Locks.Claims, Locks.Guarded, Locks.PutBack, Locks.Quiet and
--   Locks.Verdicts the theorems. Locks.Names is the name of an endpoint's lock, over bytes. The
--   loops have the bounds of the source (three and ten attempts) as their fuel.
-- - Session.Close: `close_in` of src/session/close_status.rs, a function of everything that it
--   looks at, each look a field of its own (`Site`); Session.Probe is `probe_session_bridge` of
--   src/session/attach.rs. The polls that end at a deadline are lists of what the attempts before
--   it return.
-- - Session.Status: the status list, its rows and the context command of
--   src/session/close_status.rs. The list is sorted by insertion; the entries are given in the
--   order in which they are read.
-- - Session.Paths.Hosts and Session.Attach: which attach endpoints are the same, and the scan for
--   a session that holds one (src/session/paths.rs, src/session/attach.rs). Directory scans go
--   over the list of entries in the order in which they are read.
-- - Session.Spawn: `spawn_in` of src/session/spawn_lifecycle.rs. Spawn.Start is all that comes
--   before the bridge runs, Spawn.Wait the wait loop over the list of what each turn sees, which
--   takes the place of fuel, with the routing of setup failures; an ending tells which removals
--   and reaps were called, and whether the removal of the directory worked, since the program
--   ignores how they go. The files of an earlier attempt that a start removes from its new, empty
--   directory are left out, and so is the release of both locks at the end of a start.
-- - Session.Identity: the redaction of command lines in src/session/identity.rs, over lists of
--   code points. Session.Layered: the layered identity of the same file, its caps and what is read
--   back from a session directory, over JSON values; `redact_argv` enters there as an argument,
--   and so does the length of a value's JSON. The total cap has the 4096 passes of the source as
--   its fuel.
-- - Provision: src/bridge.rs. Provision.Disk is the file system, a function from paths to nodes
--   with the list of how its next writing calls go; a path is the list of its components, and
--   links among the ancestors of a path are not followed, which the guards of Provision.Links also
--   leave to the system. Provision.Write is the atomic write, Provision.Lock the wait for the
--   kernel's lock, whose attempts and clock are arguments and whose fuel is the number of polls in
--   the wait and two more, Provision.Bridges the writes of the bridge files, Provision.Tools the
--   runs of python, npm and javac, which may leave any file system behind, and Provision.Entry the
--   public entry points. What rivals do to the adapter directories in spite of the lock is left
--   out.
-- - Session.Causes: the diagnosis of a failed attach and the masking of secrets in its message
--   (src/session/attach.rs), over lists of code points. Its loops take at least one character in
--   each round, so the length of the text is fuel enough.
-- - Target: src/spawn.rs, the arguments of a bridge, with what `setup_bridge` and `target_summary`
--   make of them. Target.Readers has the loops in which the four bridges read such arguments
--   (bridge/java/src/BridgeCli.java, bridge/py/src/pybridge.py, bridge/node/src/nodebridge.js,
--   bridge/browser/src/browserbridge.js), without what they make of the values.
-- - Output: src/output.rs, the printed envelopes and the exit codes.
-- - Tests: runs at concrete inputs.
--
-- Not modelled: the kills of processes (src/bridge.rs), the rest of
-- src/session/spawn_lifecycle.rs, the seeds of attach and the search for a listener in
-- src/session/identity.rs, the command-line declarations, and the bridges in Python, JavaScript
-- and Java but for their argument loops: the client sees them as peers that answer requests.
--
-- An error is a constructor with the arguments of its message; the words of messages are not
-- modelled. Processes, sockets, file-system calls and the clock enter as arguments.
mod Prelude
pub mod Json
pub mod Dap
pub mod Client
pub mod Session
pub mod Output
pub mod Provision
pub mod Target
pub mod Tests
