-- ===== src/Provision/Tools.antt =====
-- The tools that src/bridge.rs runs while it provisions: python and pip, node and npm, javac.
pub mod Java
pub mod Ready
pub mod Sources
use agent_debugger.Prelude.{
  ℕ, suc, Bool, true, false, Option, none, some, List, [], ◌∷◌, map, any, ok, err, if◌then◌else◌,
}
use agent_debugger.Dap.Header.{literal}
use agent_debugger.Provision.Disk.{
  Text, PathBuf, join, absent, unstatable, symlink, to_file, to_directory, to_nothing, directory,
  file, special, Tree, Disk, adapter_dir_path, not_started, unsuccessful, no_launcher, Action, pure,
  bail, ◌>>=◌, ◌>>◌,
}
use agent_debugger.Provision.Links.{check_provision_path, ensure_provision_dir}

-- what the operating system makes of a started program within the bound
pub data Child : Type 0 where
  spawn_fails : Child
  exits : (success : Bool) → Child
  wait_fails : Child
  times_out : Child

-- A program is named on PATH or by its path.
pub data Program : Type 0 where
  named : Text → Program
  at_path : PathBuf → Program

pub data Argument : Type 0 where
  word : Text → Argument
  path : PathBuf → Argument

-- The installed programs: how the `n`-th process goes, and what it leaves of the file system.
abbrev pub Host : Type 0
Host = ℕ → Program → List Argument → Tree → Child × Tree

-- `run_with_timeout`: an exit status, if the child is over in time; a late child is killed.
abbrev in_time : Child → Option Bool
in_time spawn_fails = none
in_time (exits success) = some success
in_time wait_fails = none
in_time times_out = none

unfoldable pub run_with_timeout : Host → Program → List Argument → Disk → Option Bool × Disk
run_with_timeout host program args d =
    let (child, tree) = host d.calls program args d.tree in
    (in_time child, record d { tree = tree; calls = suc d.calls })

-- `Path::exists` and `Path::is_file` follow a link.
unfoldable pub exists : PathBuf → Disk → Bool
exists p d = elim (d.tree p) [
  | absent ↦ false
  | unstatable ↦ false
  | symlink t ↦ elim t [ to_file _ ↦ true | to_directory ↦ true | to_nothing ↦ false ]
  | directory ↦ true
  | file _ ↦ true
  | special ↦ true
]

unfoldable pub leads_to_file : PathBuf → Disk → Bool
leads_to_file p d = elim (d.tree p) [
  | absent ↦ false
  | unstatable ↦ false
  | symlink t ↦ elim t [ to_file _ ↦ true | to_directory ↦ false | to_nothing ↦ false ]
  | directory ↦ false
  | file _ ↦ true
  | special ↦ false
]

abbrev succeeded : Option Bool → Bool
succeeded none = false
succeeded (some success) = success

abbrev words : List Text → List Argument
words = map word

-- `map_err`, then the check of the status
abbrev pub require : Text → Option Bool → Action (Unit {0})
require tool none = bail (not_started tool)
require tool (some true) = pure tt
require tool (some false) = bail (unsuccessful tool)

unfoldable pub run_tool : Host → Text → Program → List Argument → Action (Unit {0})
unfolding run_with_timeout
run_tool host tool program args d =
    let (status, d') = run_with_timeout host program args d in require tool status d'

-- the `ws` package under the node directory
abbrev pub ws_marker : PathBuf → PathBuf
ws_marker dir = literal "package.json" ∷ literal "ws" ∷ literal "node_modules" ∷ dir

unfoldable pub ensure_ws_marker_ok : PathBuf → Disk → Bool
unfolding exists
ensure_ws_marker_ok dir d = exists (ws_marker dir) d

abbrev pub npm_args : PathBuf → List Argument
npm_args dir =
    word (literal "install")
    ∷ word (literal "ws")
    ∷ word (literal "--prefix")
    ∷ path dir
    ∷ word (literal "--no-audit")
    ∷ word (literal "--no-fund")
    ∷ []

abbrev pub python_launchers : List Text
python_launchers = literal "python3" ∷ literal "python" ∷ []

abbrev pub venv_python : PathBuf → PathBuf
venv_python dir = literal "python" ∷ literal "bin" ∷ literal "venv" ∷ dir

abbrev pub debugpy_args : List Argument
debugpy_args =
    words (literal "-m" ∷ literal "pip" ∷ literal "install" ∷ literal "debugpy==1.8.21" ∷ [])

abbrev pub venv_dir : PathBuf → PathBuf
venv_dir dir = join dir (literal "venv")

abbrev pub venv_args : PathBuf → List Argument
venv_args dir = word (literal "-m") ∷ word (literal "venv") ∷ path (venv_dir dir) ∷ []

abbrev pub require_launcher : Option Text → Action Text
require_launcher none = bail no_launcher
require_launcher (some launcher) = pure launcher

-- the home directory, the programs and the directories of PATH
module _ (home : Option PathBuf) (host : Host) where
  unfoldable pub install_ws : PathBuf → Action (Unit {0})
  unfolding check_provision_path ensure_provision_dir run_tool ensure_ws_marker_ok
  install_ws dir = do
    check_provision_path dir true adapter_dir_path
    ensure_provision_dir home dir
    run_tool host (literal "npm") (named (literal "npm")) (npm_args dir)
    λ d. (if ensure_ws_marker_ok dir d then ok tt else err (unsuccessful (literal "npm")), d)

  unfoldable pub ensure_ws_locked : PathBuf → Action (Unit {0})
  unfolding ensure_ws_marker_ok install_ws
  ensure_ws_locked dir d = (if ensure_ws_marker_ok dir d then pure tt else install_ws dir) d

  unfoldable pub has_debugpy : Program → Disk → Bool × Disk
  unfolding run_with_timeout
  has_debugpy interp d =
      let (status, d') =
        run_with_timeout host interp (words (literal "-c" ∷ literal "import debugpy" ∷ [])) d in
      (succeeded status, d')

  -- the first one in the list whose probe succeeds
  unfoldable pub first_with_debugpy : List Program → Disk → Option Program × Disk
  unfolding has_debugpy
  first_with_debugpy [] d = (none, d)
  first_with_debugpy (p ∷ ps) d =
      let (found, d') = has_debugpy p d in
      let rest = first_with_debugpy ps d' in if found then (some p, d') else rest

  unfoldable pub ensure_py_fast : PathBuf → Disk → Option Program × Disk
  unfolding first_with_debugpy
  ensure_py_fast dir d =
      first_with_debugpy (at_path (venv_python dir) ∷ map named python_launchers) d

  unfoldable pub find_python_launcher_in : Option (List PathBuf) → List Text → Disk → Option Text
  unfolding leads_to_file
  find_python_launcher_in none progs d = none
  find_python_launcher_in (some dirs) [] d = none
  find_python_launcher_in (some dirs) (prog ∷ progs) d =
      let rest = find_python_launcher_in (some dirs) progs d in
      if any (λ dir. leads_to_file (join dir prog) d) dirs then some prog else rest

  -- pip's run and the probe after it; the probe is made only if pip succeeded
  unfoldable pub install_debugpy : PathBuf → Action Program
  unfolding run_tool has_debugpy
  install_debugpy venv = do
    run_tool host (literal "pip") (at_path venv) debugpy_args
    λ d.
        (let (found, d') = has_debugpy (at_path venv) d in
          (if found then ok (at_path venv) else err (unsuccessful (literal "pip")), d'))

  unfoldable pub create_venv : Option (List PathBuf) → PathBuf → Action Program
  unfolding check_provision_path ensure_provision_dir find_python_launcher_in run_tool
      install_debugpy
  create_venv path_var dir = do
    check_provision_path dir true adapter_dir_path
    ensure_provision_dir home (venv_dir dir)
    launcher ← λ d. require_launcher (find_python_launcher_in path_var python_launchers d) d
    run_tool host launcher (named launcher) (venv_args dir)
    install_debugpy (venv_python dir)

  abbrev pub found_or : Action Program → Option Program → Action Program
  found_or m none = m
  found_or m (some p) = pure p

  unfoldable pub ensure_py_locked : Option (List PathBuf) → PathBuf → Action Program
  unfolding ensure_py_fast create_venv
  ensure_py_locked path_var dir d =
      let (hit, d') = ensure_py_fast dir d in found_or (create_venv path_var dir) hit d'
