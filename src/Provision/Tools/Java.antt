-- ===== src/Provision/Tools/Java.antt =====
-- `ensure_compiled_locked` of src/bridge.rs.
use agent_debugger.Prelude.{
  String, Bool, true, false, not, ◌||◌, List, [], ◌∷◌, ◌++◌, map, any, ok, if◌then◌else◌,
}
use agent_debugger.Dap.Header.{literal}
use agent_debugger.Provision.Disk.{
  Text, PathBuf, join, Disk, adapter_dir_path, bridge_file, Action, pure, ◌>>=◌, ◌>>◌,
}
use agent_debugger.Provision.Links.{check_provision_path, ensure_provision_dir}
use agent_debugger.Provision.Write.{atomic_write_provisioned, file_matches}
use agent_debugger.Provision.Bridges.{Process, Embedded}
use agent_debugger.Provision.Tools.{Host, Argument, word, path, named, exists, run_tool}

abbrev pub java_sources : Embedded → List (Text × String)
java_sources e =
    map (λ name. (name, e.java name))
      (literal "JdiBridge.java"
        ∷ literal "BridgeModel.java"
        ∷ literal "BridgeCli.java"
        ∷ literal "BridgeConn.java"
        ∷ literal "BridgeSnapshot.java"
        ∷ literal "BridgeSession.java"
        ∷ literal "BridgeProto.java"
        ∷ literal "BridgeEval.java"
        ∷ [])

abbrev pub java_classes : List Text
java_classes =
    literal "JdiBridge"
    ∷ literal "Config"
    ∷ literal "BridgeCli"
    ∷ literal "BridgeConn"
    ∷ literal "BridgeSnapshot"
    ∷ literal "BridgeSession"
    ∷ literal "BridgeProto"
    ∷ literal "BridgeEval"
    ∷ literal "StreamGobbler"
    ∷ []

abbrev pub class_file : PathBuf → Text → PathBuf
class_file classes c = join classes (c ++ literal ".class")

-- Is an output missing? The marker is the class of the entry point.
unfoldable pub classes_missing : PathBuf → Disk → Bool
unfolding exists
classes_missing classes d =
    not (exists (class_file classes (literal "JdiBridge")) d)
    || any (λ c. not (exists (class_file classes c) d)) java_classes

-- every source is looked at
unfoldable pub stale_loop : PathBuf → Bool → List (Text × String) → Action Bool
unfolding check_provision_path file_matches
stale_loop dir stale [] d = (ok stale, d)
stale_loop dir stale ((name, source) ∷ rest) d =
    (check_provision_path (join dir name) false bridge_file >> λ d'.
    stale_loop dir (stale || not (file_matches (join dir name) source d')) rest d')
      d

abbrev pub javac_args : PathBuf → PathBuf → List (Text × String) → List Argument
javac_args dir classes sources =
    word (literal "-d") ∷ path classes ∷ map (λ f. path (join dir f.0)) sources

unfoldable pub write_sources : Process → PathBuf → List (Text × String) → Action (Unit {0})
unfolding atomic_write_provisioned
write_sources self dir [] d = (ok tt, d)
write_sources self dir ((name, source) ∷ rest) d =
    (atomic_write_provisioned self.id (join dir name) source >> write_sources self dir rest) d

module _ (self : Process) (host : Host) where
  unfoldable pub recompile : PathBuf → PathBuf → Action (Unit {0})
  unfolding ensure_provision_dir write_sources run_tool
  recompile dir classes = do
    ensure_provision_dir self.agent_home classes
    write_sources self dir (java_sources self.embedded)
    run_tool host (literal "javac") (named (literal "javac"))
        (javac_args dir classes (java_sources self.embedded))

  unfoldable pub ensure_compiled_locked : PathBuf → Action PathBuf
  unfolding check_provision_path classes_missing stale_loop recompile
  ensure_compiled_locked dir = do
    check_provision_path dir true adapter_dir_path
    stale ← λ d.
        stale_loop dir (classes_missing (join dir (literal "classes")) d)
          (java_sources self.embedded) d
    if stale then recompile dir (join dir (literal "classes")) else pure tt
    pure (join dir (literal "classes"))
