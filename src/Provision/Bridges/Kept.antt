-- ===== src/Provision/Bridges/Kept.antt =====
-- What the three `ensure_*bridge_in` leave of the file system.
use agent_debugger.Prelude.{
  String, Bool, true, false, not, ◌||◌, ◌≡◌, refl, List, [], ◌∷◌, map, All, inl, inr, if◌then◌else◌,
}
use agent_debugger.Dap.Header.{literal}
use agent_debugger.Provision.Disk.{
  Text, PathBuf, join, bridge_file, bridge_dir, adapter_dir_path, Disk, Action, pure, ◌>>=◌, ◌>>◌,
}
use agent_debugger.Provision.Links.{check_provision_path}
use agent_debugger.Provision.Write.{file_matches}
use agent_debugger.Provision.Bridges.{
  Process, Embedded, rewrite, rewrite_stale, js_shared_loop, js_shared, ensure_js_shared,
  ensure_pybridge_in, converge, ensure_cdp_bridge, ensure_nodebridge_in, ensure_browserbridge_in,
}
use agent_debugger.Provision.Bridges.Steps.{
  is_plain, Follows, Kept, Kept-refl, Kept-trans, bind-Kept, check-Kept, rewrite-Kept, settle-Kept,
  js_shared_loop-Kept, check_file-plain, IsListed,
}

abbrev pub files_of : PathBuf → List (Text × String) → List (PathBuf × String)
files_of dir fs = map (λ f. (join dir f.0, f.1)) fs

-- the files of one bridge: itself, and the shared ones beside it
abbrev pub cdp_files : Embedded → Text → String → List (Text × String)
cdp_files e name source = (name, source) ∷ js_shared e

module _ (self : Process) (dir : PathBuf) where
  module _ (name : Text) (source : String) where
    abbrev pub fs : List (PathBuf × String)
    fs = files_of dir (cdp_files self.embedded name source)

    pub main-IsListed : IsListed self fs dir (name, source)
    main-IsListed = (inl (refl, refl), λ q lasting. lasting.0)

    pub shared-IsListed : All (IsListed self fs dir) (js_shared self.embedded)
    shared-IsListed = (
      (inr (inl (refl, refl)), λ q lasting. lasting.1.0),
      ((inr (inr (inl (refl, refl))), λ q lasting. lasting.1.1.0), tt),
    )

    pub ensure_js_shared-Kept :
        (d d' : Disk) → Kept self fs d d' → Kept self fs d (ensure_js_shared self dir d').1
    unfolding ensure_js_shared
    ensure_js_shared-Kept d d' kept =
        let checked = check_provision_path dir true bridge_dir d' in
        let kept' = check-Kept self fs d d' dir true bridge_dir kept in
        bind-Kept self fs d d' checked
          (λ _. js_shared_loop self dir false (js_shared self.embedded)) kept'
          λ _ done.
            Kept-trans self fs d checked.1
              (js_shared_loop self dir false (js_shared self.embedded) checked.1).1 kept'
              (js_shared_loop-Kept self fs dir (js_shared self.embedded) shared-IsListed false
                checked.1)

    pub last-Kept :
        (stale : Bool) (d d' : Disk)
        → is_plain (d.tree (join dir name)) ≡ true
        → Kept self fs d d'
        → Kept self fs d ((if stale then rewrite self dir (join dir name) source else pure tt) d').1
    last-Kept true d d' plain kept =
        rewrite-Kept self fs dir name source main-IsListed d d' plain kept
    last-Kept false d d' plain kept = kept

    converge-Kept :
        (d d' : Disk)
        → is_plain (d.tree (join dir name)) ≡ true
        → Kept self fs d d'
        → Kept self fs d (converge self dir (join dir name) source d').1
    unfolding converge
    converge-Kept d d' plain kept =
        let x = ensure_js_shared self dir d' in
        let stale = not (file_matches (join dir name) source d') in
        let kept' = ensure_js_shared-Kept d d' kept in
        bind-Kept self fs d d' x
          (λ shared_stale.
            (if stale || shared_stale then rewrite self dir (join dir name) source else pure tt)
            >> pure (join dir name))
          kept'
          λ shared_stale done.
            let kept'' = last-Kept (stale || shared_stale) d x.1 plain kept' in
            bind-Kept self fs d x.1
              ((if stale || shared_stale then rewrite self dir (join dir name) source else pure tt)
                x.1)
              (λ _. pure (join dir name)) kept'' (λ _ done'. kept'')

    checks-Kept :
        (k : Action PathBuf)
        → ((d : Disk) → is_plain (d.tree (join dir name)) ≡ true → Kept self fs d (k d).1)
        → (d : Disk)
        → Kept self fs d
            ((check_provision_path dir true adapter_dir_path
                >> (check_provision_path (join dir name) false bridge_file >> k))
              d).1
    checks-Kept k next d =
        let x = check_provision_path dir true adapter_dir_path d in
        let y = check_provision_path (join dir name) false bridge_file x.1 in
        let kept = check-Kept self fs d d dir true adapter_dir_path (Kept-refl self fs d) in
        let kept' = check-Kept self fs d x.1 (join dir name) false bridge_file kept in
        bind-Kept self fs d d x (λ _. check_provision_path (join dir name) false bridge_file >> k)
          kept
          λ a done.
            bind-Kept self fs d x.1 y (λ _. k) kept'
              λ b passes.
                Kept-trans self fs d y.1 (k y.1).1 kept'
                  (next y.1 (check_file-plain (join dir name) bridge_file x.1 b passes))

    ensure_cdp_bridge-Kept :
        (d : Disk) → Kept self fs d (ensure_cdp_bridge self dir (join dir name) source d).1
    unfolding ensure_cdp_bridge
    ensure_cdp_bridge-Kept =
        checks-Kept (converge self dir (join dir name) source)
          (λ d plain. converge-Kept d d plain (Kept-refl self fs d))

  ensure_pybridge-Follows :
      (d : Disk)
      → Follows self.id
          (files_of dir ((literal "pybridge.py", self.embedded.pybridge) ∷ []))
          d
          (ensure_pybridge_in self dir d).1
  unfolding ensure_pybridge_in
  ensure_pybridge-Follows d =
      let py = files_of dir ((literal "pybridge.py", self.embedded.pybridge) ∷ []) in
      let x = check_provision_path dir true adapter_dir_path d in
      let kept = check-Kept self py d d dir true adapter_dir_path (Kept-refl self py d) in
      bind-Kept self py d d x
        (λ _.
          check_provision_path (join dir (literal "pybridge.py")) false bridge_file
          >> (rewrite_stale self dir (join dir (literal "pybridge.py")) self.embedded.pybridge
              >>= λ written. pure (join dir (literal "pybridge.py"))))
        kept
        λ _ done.
          settle-Kept self py dir (literal "pybridge.py") self.embedded.pybridge
            (inl (refl, refl), λ q lasting. lasting.0) bridge_file
            (λ written. pure (join dir (literal "pybridge.py"))) (λ stale d'. Kept-refl self py d')
            d x.1 kept

  -- However its calls go, each `ensure_*bridge_in` leaves every path that is no temporary name of
  -- its files as it is, unless the path was free and is a directory now, or it is one of the
  -- bridge's files, was free or a regular file, and holds the embedded text now. So it replaces no
  -- link, and changes no directory and no foreign file.
  pub ensure_bridges-Follows :
      (d : Disk)
      → Follows self.id
          (files_of dir ((literal "pybridge.py", self.embedded.pybridge) ∷ []))
          d
          (ensure_pybridge_in self dir d).1
        × Follows self.id
            (files_of dir
              (cdp_files self.embedded (literal "nodebridge.js") self.embedded.nodebridge))
            d
            (ensure_nodebridge_in self dir d).1
        × Follows self.id
            (files_of dir
              (cdp_files self.embedded (literal "browserbridge.js") self.embedded.browserbridge))
            d
            (ensure_browserbridge_in self dir d).1
  unfolding ensure_nodebridge_in ensure_browserbridge_in
  ensure_bridges-Follows d = (
    ensure_pybridge-Follows d,
    ensure_cdp_bridge-Kept (literal "nodebridge.js") self.embedded.nodebridge d,
    ensure_cdp_bridge-Kept (literal "browserbridge.js") self.embedded.browserbridge d,
  )
