-- ===== src/Provision/Bridges.antt =====
-- `ensure_js_shared`, the three `ensure_*bridge_in` and what calls them in src/bridge.rs.
pub mod Steps
pub mod Kept
pub mod Texts
pub mod Current
pub mod Settled
use agent_debugger.Prelude.{
  ℕ, String, Bool, true, false, not, ◌||◌, Option, none, some, List, [], ◌∷◌, ok, if◌then◌else◌,
}
use agent_debugger.Dap.Header.{literal}
use agent_debugger.Provision.Disk.{
  Text, PathBuf, join, adapter_dir_path, bridge_dir, bridge_file, home_unset, Action, pure, bail,
  ◌>>=◌, ◌>>◌,
}
use agent_debugger.Provision.Links.{check_provision_path, ensure_provision_dir}
use agent_debugger.Provision.Write.{atomic_write_provisioned, file_matches}

-- the texts that `include_str!` puts into the binary
pub record Embedded : Type 0 where
  pub pybridge : String
  pub nodebridge : String
  pub browserbridge : String
  pub cdp_conn : String
  pub framing : String
  pub java : Text → String

-- What a process of the program has: its id, its home directory, its embedded texts.
pub record Process : Type 0 where
  pub id : ℕ
  pub agent_home : Option PathBuf
  pub embedded : Embedded

abbrev pub js_shared : Embedded → List (Text × String)
js_shared e = (literal "cdp_conn.js", e.cdp_conn) ∷ (literal "framing.js", e.framing) ∷ []

abbrev under_home : Option PathBuf → Action PathBuf
under_home none = bail home_unset
under_home (some home) = pure (literal "adapters" ∷ literal ".agent-debugger" ∷ home)

abbrev pub adapters_dir : Process → Action PathBuf
adapters_dir self = under_home self.agent_home

module _ (self : Process) where
  -- The write that every stale file gets.
  unfoldable pub rewrite : PathBuf → PathBuf → String → Action (Unit {0})
  unfolding ensure_provision_dir atomic_write_provisioned
  rewrite dir dest source = do
    ensure_provision_dir self.agent_home dir
    atomic_write_provisioned self.id dest source

  -- Was the file stale?
  unfoldable pub rewrite_stale : PathBuf → PathBuf → String → Action Bool
  unfolding file_matches rewrite
  rewrite_stale dir dest source d =
      (if file_matches dest source d then pure false else (rewrite dir dest source >> pure true)) d

  unfoldable pub js_shared_loop : PathBuf → Bool → List (Text × String) → Action Bool
  unfolding check_provision_path rewrite_stale
  js_shared_loop dir changed [] d = (ok changed, d)
  js_shared_loop dir changed ((name, source) ∷ rest) d =
      (check_provision_path (join dir name) false bridge_file
          >> (rewrite_stale dir (join dir name) source >>= λ stale.
              js_shared_loop dir (changed || stale) rest))
        d

  unfoldable pub ensure_js_shared : PathBuf → Action Bool
  unfolding check_provision_path js_shared_loop
  ensure_js_shared dir = do
    check_provision_path dir true bridge_dir
    js_shared_loop dir false (js_shared self.embedded)

  unfoldable pub ensure_pybridge_in : PathBuf → Action PathBuf
  unfolding check_provision_path rewrite_stale
  ensure_pybridge_in dir = do
    check_provision_path dir true adapter_dir_path
    check_provision_path (join dir (literal "pybridge.py")) false bridge_file
    written ← rewrite_stale dir (join dir (literal "pybridge.py")) self.embedded.pybridge
    pure (join dir (literal "pybridge.py"))

  -- The shared files are looked at also when the bridge itself is stale.
  unfoldable pub converge : PathBuf → PathBuf → String → Action PathBuf
  unfolding file_matches ensure_js_shared rewrite
  converge dir dest source d =
      let bridge_stale = not (file_matches dest source d) in
      (ensure_js_shared dir >>= λ shared_stale.
      (if bridge_stale || shared_stale then rewrite dir dest source else pure tt) >> pure dest)
        d

  -- the bridges that speak CDP, over Node
  unfoldable pub ensure_cdp_bridge : PathBuf → PathBuf → String → Action PathBuf
  unfolding check_provision_path converge
  ensure_cdp_bridge dir dest source = do
    check_provision_path dir true adapter_dir_path
    check_provision_path dest false bridge_file
    converge dir dest source

  unfoldable pub ensure_nodebridge_in : PathBuf → Action PathBuf
  unfolding ensure_cdp_bridge
  ensure_nodebridge_in dir =
      ensure_cdp_bridge dir (join dir (literal "nodebridge.js")) self.embedded.nodebridge

  unfoldable pub ensure_browserbridge_in : PathBuf → Action PathBuf
  unfolding ensure_cdp_bridge
  ensure_browserbridge_in dir =
      ensure_cdp_bridge dir (join dir (literal "browserbridge.js")) self.embedded.browserbridge
