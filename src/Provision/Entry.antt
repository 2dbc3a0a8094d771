-- ===== src/Provision/Entry.antt =====
-- The public `ensure_*` of src/bridge.rs, each under the locks of its adapters.
use agent_debugger.Prelude.{Option, List, ok, if◌then◌else◌}
use agent_debugger.Dap.Header.{literal}
use agent_debugger.Provision.Disk.{Text, PathBuf, join, Action, pure, ◌>>=◌, ◌>>◌}
use agent_debugger.Provision.Links.{ensure_provision_dir}
use agent_debugger.Provision.Lock.{
  Contention, provision_lock_path, acquire_provision_lock, under_guard, provision_lock_wait,
  provision_lock_poll,
}
use agent_debugger.Provision.Bridges.{
  Process, adapters_dir, ensure_pybridge_in, ensure_nodebridge_in, ensure_browserbridge_in,
}
use agent_debugger.Provision.Tools.{
  Host, Program, ensure_ws_marker_ok, ensure_ws_locked, ensure_py_fast, ensure_py_locked, found_or,
}
use agent_debugger.Provision.Tools.Java.{ensure_compiled_locked}

module _ (self : Process) (host : Host) (rivals : PathBuf → Contention) where
  abbrev pub lock_of : PathBuf → Text → Action (Unit {0})
  lock_of adapters adapter =
      let p = provision_lock_path adapters adapter in
      acquire_provision_lock provision_lock_wait provision_lock_poll (rivals p) p

  -- the adapters' directory, made; then `body` under the lock of one adapter
  unfoldable pub under_lock : {A : Type 0} → Text → (PathBuf → Action A) → Action A
  unfolding ensure_provision_dir acquire_provision_lock provision_lock_path
  under_lock adapter body = do
    adapters ← adapters_dir self
    ensure_provision_dir self.agent_home adapters
    under_guard (lock_of adapters adapter) (body adapters)

  unfoldable pub ensure_compiled : Action PathBuf
  unfolding under_lock ensure_compiled_locked
  ensure_compiled =
      under_lock (literal "java")
        λ adapters. ensure_compiled_locked self host (join adapters (literal "java"))

  unfoldable pub ensure_pybridge : Action PathBuf
  unfolding under_lock ensure_pybridge_in
  ensure_pybridge =
      under_lock (literal "python")
        λ adapters. ensure_pybridge_in self (join adapters (literal "python"))

  unfoldable pub ensure_nodebridge : Action PathBuf
  unfolding under_lock ensure_nodebridge_in
  ensure_nodebridge =
      under_lock (literal "node")
        λ adapters. ensure_nodebridge_in self (join adapters (literal "node"))

  -- The probe needs no lock.
  unfoldable pub ensure_ws : Action (Unit {0})
  unfolding ensure_ws_marker_ok under_lock ensure_ws_locked
  ensure_ws = do
    adapters ← adapters_dir self
    there ← λ d. (ok (ensure_ws_marker_ok (join adapters (literal "node")) d), d)
    (if there
        then pure tt
        else under_lock (literal "node")
            λ adapters'. ensure_ws_locked self.agent_home host (join adapters' (literal "node")))

  unfoldable pub ensure_py : Option (List PathBuf) → Action Program
  unfolding ensure_py_fast under_lock ensure_py_locked
  ensure_py path_var = do
    adapters ← adapters_dir self
    hit ← λ d.
        let (hit, d') = ensure_py_fast self.agent_home host (join adapters (literal "python")) d in
        (ok hit, d')
    found_or self.agent_home host
        (under_lock (literal "python") λ adapters'.
          ensure_py_locked self.agent_home host path_var (join adapters' (literal "python")))
        hit

  -- node's lock, then the browser's
  unfoldable pub ensure_browserbridge : Action PathBuf
  unfolding under_lock ensure_ws_locked ensure_browserbridge_in acquire_provision_lock
      provision_lock_path
  ensure_browserbridge = under_lock (literal "node") λ adapters.
      under_guard (lock_of adapters (literal "browser")) do
        ensure_ws_locked self.agent_home host (join adapters (literal "node"))
        ensure_browserbridge_in self (join adapters (literal "browser"))
