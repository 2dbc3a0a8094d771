-- ===== src/Provision/Tools/Ready.antt =====
-- What a success of the tools ensures.
use agent_debugger.Prelude.{
  Bool, true, false, ◌≡◌, refl, sym, Option, none, some, List, [], ◌∷◌, map, Result, ok, err,
  if◌then◌else◌,
}
use agent_debugger.Dap.Header.{literal}
use agent_debugger.Provision.Disk.{
  Text, PathBuf, ProvisionError, unsuccessful, adapter_dir_path, Disk, Action, pure, ◌>>=◌, ◌>>◌,
}
use agent_debugger.Provision.Links.{check_provision_path, ensure_provision_dir}
use agent_debugger.Provision.Bridges.Texts.{Ensures, bind-Ensures, Ensures-any}
use agent_debugger.Provision.Tools.{
  Host, Program, named, at_path, run_tool, npm_args, ensure_ws_marker_ok, install_ws,
  ensure_ws_locked, has_debugpy, first_with_debugpy, ensure_py_fast, python_launchers, venv_python,
  find_python_launcher_in, debugpy_args, install_debugpy, create_venv, venv_dir, venv_args,
  require_launcher, found_or, ensure_py_locked,
}

module _ (home : Option PathBuf) (host : Host) (dir : PathBuf) where
  abbrev HasWs : Disk → Type 0
  HasWs d = ensure_ws_marker_ok dir d ≡ true

  last_look :
      (d : Disk) (there : Bool)
      → (there ≡ ensure_ws_marker_ok dir d)
      → Ensures HasWs (if there then ok tt else err (unsuccessful (literal "npm")), d)
  last_look d true e = sym e
  last_look d false e = tt

  install_ws-HasWs : (d : Disk) → Ensures HasWs (install_ws home host dir d)
  unfolding install_ws
  install_ws-HasWs d =
      let look : Action (Unit {0}) = λ d'.
        (if ensure_ws_marker_ok dir d' then ok tt else err (unsuccessful (literal "npm")), d') in
      let npm : Action (Unit {0}) =
        run_tool host (literal "npm") (named (literal "npm")) (npm_args dir) in
      let x = check_provision_path dir true adapter_dir_path d in
      let y = ensure_provision_dir home dir x.1 in
      let z = npm y.1 in
      bind-Ensures (λ _. Unit {0}) HasWs d x (λ _. ensure_provision_dir home dir >> (npm >> look))
        (Ensures-any x)
        λ _ _ _.
          bind-Ensures (λ _. Unit {0}) HasWs x.1 y (λ _. npm >> look) (Ensures-any y)
            λ _ _ _.
              bind-Ensures (λ _. Unit {0}) HasWs y.1 z (λ _. look) (Ensures-any z)
                λ _ _ _. last_look z.1 (ensure_ws_marker_ok dir z.1) refl

  if_missing-HasWs :
      (d : Disk) (there : Bool)
      → there ≡ ensure_ws_marker_ok dir d
      → Ensures HasWs ((if there then pure tt else install_ws home host dir) d)
  if_missing-HasWs d true e = sym e
  if_missing-HasWs d false e = install_ws-HasWs d

  -- Whatever npm does, if `ensure_ws_locked` succeeds then the manifest of `ws` is there.
  pub ensure_ws-HasWs : (d : Disk) → Ensures HasWs (ensure_ws_locked home host dir d)
  unfolding ensure_ws_locked
  ensure_ws-HasWs d = if_missing-HasWs d (ensure_ws_marker_ok dir d) refl

  -- The last process that was run is a probe of `p`, and it found debugpy.
  abbrev pub HasAnswered : Program → Disk → Type 0
  HasAnswered p d = (d0 : Disk) × (has_debugpy home host p d0 ≡ (true, d))

  abbrev pub Answers : Result ProvisionError Program × Disk → Type 0
  Answers (ok p, d) = HasAnswered p d
  Answers (err e, d) = Unit {0}

  abbrev Hits : Option Program × Disk → Type 0
  Hits (none, d) = Unit {0}
  Hits (some p, d) = HasAnswered p d

  bind-Answers :
      {A : Type 0} (d : Disk) (x : Result ProvisionError A × Disk) (k : A → Action Program)
      → ((a : A) → Answers (k a x.1))
      → Answers (((λ _. x) >>= k) d)
  bind-Answers d (ok a, d') k next = next a
  bind-Answers d (err e, d') k next = tt

  probe-Hits :
      (p : Program) (rest : Option Program × Disk) (x : Bool × Disk) (d : Disk)
      → has_debugpy home host p d ≡ x
      → Hits rest
      → Hits (if x.0 then (some p, x.1) else rest)
  probe-Hits p rest (true, d') d e hits = (d, e)
  probe-Hits p rest (false, d') d e hits = hits

  first-Hits : (ps : List Program) (d : Disk) → Hits (first_with_debugpy home host ps d)
  unfolding first_with_debugpy
  first-Hits [] d = tt
  first-Hits (p ∷ ps) d =
      let x = has_debugpy home host p d in
      probe-Hits p (first_with_debugpy home host ps x.1) x d refl (first-Hits ps x.1)

  install-Answers : (venv : PathBuf) (d : Disk) → Answers (install_debugpy home host venv d)
  unfolding install_debugpy
  install-Answers venv d =
      let probe : Action Program = λ d'.
        let (found, d'') = has_debugpy home host (at_path venv) d' in
        (if found then ok (at_path venv) else err (unsuccessful (literal "pip")), d'') in
      let x = run_tool host (literal "pip") (at_path venv) debugpy_args d in
      bind-Answers d x (λ _. probe)
        λ _. probed venv x.1 (has_debugpy home host (at_path venv) x.1) refl
    where
      probed :
          (venv : PathBuf) (d' : Disk) (x : Bool × Disk)
          → has_debugpy home host (at_path venv) d' ≡ x
          → Answers (if x.0 then ok (at_path venv) else err (unsuccessful (literal "pip")), x.1)
      probed venv d' (true, d'') e = (d', e)
      probed venv d' (false, d'') e = tt

  fast-Hits : (d : Disk) → Hits (ensure_py_fast home host dir d)
  unfolding ensure_py_fast
  fast-Hits = first-Hits (at_path (venv_python dir) ∷ map named python_launchers)

  create_venv-Answers :
      (path_var : Option (List PathBuf)) (d : Disk) → Answers (create_venv home host path_var dir d)
  unfolding create_venv
  create_venv-Answers path_var d =
      let x = check_provision_path dir true adapter_dir_path d in
      let y = ensure_provision_dir home (venv_dir dir) x.1 in
      let find : Action Text = λ d'.
        require_launcher (find_python_launcher_in home host path_var python_launchers d') d' in
      let build : Text → Action Program = λ launcher.
        run_tool host launcher (named launcher) (venv_args dir)
        >> install_debugpy home host (venv_python dir) in
      bind-Answers d x (λ _. ensure_provision_dir home (venv_dir dir) >> (find >>= build))
        λ _.
          bind-Answers x.1 y (λ _. find >>= build)
            λ _. bind-Answers y.1 (find y.1) build λ launcher.
              let z = run_tool host launcher (named launcher) (venv_args dir) (find y.1).1 in
              bind-Answers (find y.1).1 z (λ _. install_debugpy home host (venv_python dir))
                λ _. install-Answers (venv_python dir) z.1

  found-Answers :
      (m : Action Program) (x : Option Program × Disk)
      → Hits x
      → Answers (m x.1)
      → Answers (found_or home host m x.0 x.1)
  found-Answers m (none, d) hits made = made
  found-Answers m (some p, d) hits made = hits

  -- Whatever the tools do, if `ensure_py_locked` succeeds with an interpreter, then the last process
  -- that it ran is a probe of that interpreter, and the probe imported debugpy.
  pub ensure_py-Answers :
      (path_var : Option (List PathBuf)) (d : Disk)
      → Answers (ensure_py_locked home host path_var dir d)
  unfolding ensure_py_locked
  ensure_py-Answers path_var d =
      found-Answers (create_venv home host path_var dir) (ensure_py_fast home host dir d)
        (fast-Hits d) (create_venv-Answers path_var (ensure_py_fast home host dir d).1)
