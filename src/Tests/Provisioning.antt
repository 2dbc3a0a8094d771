-- ===== src/Tests/Provisioning.antt =====
-- src/bridge.rs on a small file system.
use agent_debugger.Prelude.{
  ℕ, ◌+◌, ◌*◌, ◌==◌, true, ◌≡◌, refl, inr, none, some, [], ◌∷◌, arith, ok, err, if◌then◌else◌,
}
use agent_debugger.Dap.Header.{literal}
use agent_debugger.Dap.Text.{decimal, decimal_from}
use agent_debugger.Provision.Disk.{
  PathBuf, join, same_path, same_text, absent, directory, file, symlink, to_file, Tree, set,
  goes_well, fails, Disk, must_not_be_symlink, bridge_file, cannot_write, draw, create_new_file,
  write_all, sync_all, rename, remove_file, create_dir_all,
}
use agent_debugger.Provision.Links.{
  refuse_provision_link, check_provision_path, chain, below, refuse_links, ensure_real_dir_all,
  ensure_provision_dir,
}
use agent_debugger.Provision.Write.{
  before_dot, file_stem, with_extension, provision_tmp_name, atomic_write_provisioned,
  write_and_rename, file_matches,
}
use agent_debugger.Provision.Write.Atomic.{Swaps, atomic_write-Swaps}
use agent_debugger.Provision.Lock.{Contention, locked, would_block, lock_loop, rounds}
use agent_debugger.Provision.Lock.Ends.{Waited, Verdict, lock_loop-ends}
use agent_debugger.Provision.Bridges.{
  Embedded, Process, ensure_pybridge_in, ensure_nodebridge_in, ensure_browserbridge_in,
  ensure_cdp_bridge, converge, ensure_js_shared, js_shared_loop, rewrite_stale, rewrite,
}
use agent_debugger.Provision.Bridges.Steps.{Follows}
use agent_debugger.Provision.Bridges.Kept.{files_of, cdp_files, ensure_bridges-Follows}
use agent_debugger.Provision.Bridges.Texts.{Ensures, HasText}
use agent_debugger.Provision.Bridges.Current.{AllTexts, ensure_bridges-HasText}
use agent_debugger.Provision.Bridges.Settled.{ensure_bridges-settled}
use agent_debugger.Provision.Tools.{Host, exits, ensure_py_locked}
use agent_debugger.Provision.Tools.Java.{java_sources, ensure_compiled_locked}
use agent_debugger.Provision.Tools.Ready.{Answers, ensure_py-Answers}
use agent_debugger.Provision.Tools.Sources.{SourcesIn, ensure_compiled-HasText}

abbrev embedded : Embedded
embedded = record {
  pybridge = "import debugpy";
  nodebridge = "require('./cdp_conn')";
  browserbridge = "require('./framing')";
  cdp_conn = "class Conn {}";
  framing = "class Framing {}";
  java = λ name. "class Bridge {}";
}

abbrev home : PathBuf
home = literal "me" ∷ literal "home" ∷ []

abbrev self : Process
self = record { id = 7; agent_home = some home; embedded = embedded }

abbrev node_dir : PathBuf
node_dir = literal "node" ∷ home

-- only the home directory is there
abbrev fresh : Tree
fresh = set home directory (λ _. absent)

abbrev disk : Tree → Disk
disk tree = record { tree = tree; outcomes = []; counter = 0; calls = 0; held = [] }

abbrev bridge : PathBuf
bridge = join node_dir (literal "nodebridge.js")

ensure_nodebridge_runs :
    let (r, d) = ensure_nodebridge_in self node_dir (disk fresh) in
    (r ≡ ok bridge)
    × (d.tree bridge ≡ file "require('./cdp_conn')")
    × (d.tree (join node_dir (literal "framing.js")) ≡ file "class Framing {}")
    × (d.tree node_dir ≡ directory)
    × (d.counter ≡ 3)
unfolding ensure_nodebridge_in ensure_cdp_bridge converge ensure_js_shared js_shared_loop
    rewrite_stale rewrite check_provision_path refuse_provision_link file_matches
    atomic_write_provisioned write_and_rename create_new_file write_all sync_all rename remove_file
    draw provision_tmp_name with_extension file_stem before_dot ensure_provision_dir
    ensure_real_dir_all create_dir_all refuse_links below chain same_path same_text decimal
    decimal_from
ensure_nodebridge_runs = (refl, refl, refl, refl, refl)

-- a planted link is refused, and stays
ensure_nodebridge_refuses :
    let (r, d) =
      ensure_nodebridge_in self node_dir (disk (set bridge (symlink (to_file "evil")) fresh)) in
    (r ≡ err (must_not_be_symlink bridge_file bridge)) × (d.tree bridge ≡ symlink (to_file "evil"))
unfolding ensure_nodebridge_in ensure_cdp_bridge check_provision_path refuse_provision_link
    same_path same_text
ensure_nodebridge_refuses = (refl, refl)

-- the second write fails half-way: the old text stays, and the temporary file goes
abbrev cut : Disk
cut = record (disk (set bridge (file "old") fresh)) { outcomes = goes_well ∷ fails "requ" ∷ [] }

atomic_write_cut :
    let (r, d) = atomic_write_provisioned 7 bridge "new" cut in
    (r ≡ err (cannot_write (provision_tmp_name 7 bridge 0)))
    × (d.tree bridge ≡ file "old")
    × (d.tree (provision_tmp_name 7 bridge 0) ≡ absent)
unfolding atomic_write_provisioned write_and_rename create_new_file write_all sync_all rename
    remove_file draw provision_tmp_name with_extension file_stem before_dot same_path same_text
    decimal decimal_from
atomic_write_cut = (refl, refl, refl)

atomic_write-Swaps_example :
    Swaps
      (provision_tmp_name 7 bridge 0)
      bridge
      "new"
      cut
      (atomic_write_provisioned 7 bridge "new" cut)
atomic_write-Swaps_example = atomic_write-Swaps 7 node_dir (literal "nodebridge.js") "new" cut

ensure_bridges-Follows_example :
    Follows 7
      (files_of node_dir ((literal "pybridge.py", "import debugpy") ∷ []))
      cut
      (ensure_pybridge_in self node_dir cut).1
    × Follows 7
        (files_of node_dir (cdp_files embedded (literal "nodebridge.js") "require('./cdp_conn')"))
        cut
        (ensure_nodebridge_in self node_dir cut).1
    × Follows 7
        (files_of node_dir (cdp_files embedded (literal "browserbridge.js") "require('./framing')"))
        cut
        (ensure_browserbridge_in self node_dir cut).1
ensure_bridges-Follows_example = ensure_bridges-Follows self node_dir cut

ensure_bridges-HasText_example :
    Ensures
      (HasText node_dir (literal "pybridge.py", "import debugpy"))
      (ensure_pybridge_in self node_dir (disk fresh))
    × Ensures
        (AllTexts self node_dir (literal "nodebridge.js") "require('./cdp_conn')")
        (ensure_nodebridge_in self node_dir (disk fresh))
    × Ensures
        (AllTexts self node_dir (literal "browserbridge.js") "require('./framing')")
        (ensure_browserbridge_in self node_dir (disk fresh))
ensure_bridges-HasText_example = ensure_bridges-HasText self node_dir (disk fresh)

abbrev provisioned : Tree
provisioned = set (join node_dir (literal "cdp_conn.js")) (file "class Conn {}") (
    set (join node_dir (literal "framing.js")) (file "class Framing {}") (
      set (join node_dir (literal "pybridge.py")) (file "import debugpy") (
        set bridge (file "require('./cdp_conn')") (
          set (join node_dir (literal "browserbridge.js")) (file "require('./framing')")
            (set node_dir directory fresh)))))

ensure_bridges-settled_example :
    (ensure_pybridge_in self node_dir (disk provisioned)
      ≡ (ok (join node_dir (literal "pybridge.py")), disk provisioned))
    × (ensure_nodebridge_in self node_dir (disk provisioned) ≡ (ok bridge, disk provisioned))
    × (ensure_browserbridge_in self node_dir (disk provisioned)
        ≡ (ok (join node_dir (literal "browserbridge.js")), disk provisioned))
unfolding same_path same_text
ensure_bridges-settled_example =
    ensure_bridges-settled self node_dir (disk provisioned) (inr refl) (refl, (refl, tt)) refl refl
      refl

-- two attempts are blocked, the third is granted
abbrev contention : Contention
contention = record {
  start = 100;
  attempt = λ k. if k == 2 then locked else would_block;
  now = λ k. 100 + k * 20;
}

lock_loop-ends_example :
    (j : ℕ) × Waited contention 300 0 j
    × Verdict contention 300
        (literal "node.lock" ∷ home)
        j
        (lock_loop (rounds 200 20) 0 300 contention (literal "node.lock" ∷ home))
lock_loop-ends_example =
    lock_loop-ends 200 19 contention (literal "node.lock" ∷ home) (λ k. omega arith)

-- every tool succeeds and changes nothing
abbrev host : Host
host n program args tree = (exits true, tree)

ensure_py-Answers_example :
    Answers
      (some home)
      host
      (literal "python" ∷ home)
      (ensure_py_locked (some home) host none (literal "python" ∷ home) (disk fresh))
ensure_py-Answers_example =
    ensure_py-Answers (some home) host (literal "python" ∷ home) none (disk fresh)

-- javac overwrites the class file of the bridge, whatever was there
abbrev class_file : PathBuf
class_file = join (join (literal "java" ∷ home) (literal "classes")) (literal "JdiBridge.class")

abbrev compiler : Host
compiler n program args tree =
    (exits true, λ q. if same_path q class_file then file "class" else tree q)

ensure_compiled-HasText_example :
    Ensures
      (SourcesIn (literal "java" ∷ home) (java_sources embedded))
      (ensure_compiled_locked self compiler (literal "java" ∷ home) (disk fresh))
unfolding same_path
ensure_compiled-HasText_example =
    ensure_compiled-HasText self compiler (literal "java" ∷ home)
      (λ n t. (λ e. e, (λ e. e, (λ e. e, (λ e. e, (λ e. e, (λ e. e, (λ e. e, (λ e. e, tt)))))))))
      (disk fresh)
