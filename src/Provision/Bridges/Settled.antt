-- ===== src/Provision/Bridges/Settled.antt =====
-- A bridge that is on disk is left alone.
use agent_debugger.Prelude.{
  String, true, false, ◌≡◌, ◌⊎◌, refl, ◌∙◌, ap, List, [], ◌∷◌, All, arith, inl, inr, ok, Result,
  if◌then◌else◌, eq_iff,
}
use agent_debugger.Dap.Header.{literal}
use agent_debugger.Provision.Disk.{
  Text, PathBuf, join, absent, directory, file, What, bridge_file, bridge_dir, adapter_dir_path,
  ProvisionError, Disk, Action, pure, ◌>>=◌, ◌>>◌,
}
use agent_debugger.Provision.Links.{check_provision_path, refuse_provision_link}
use agent_debugger.Provision.Write.{file_matches}
use agent_debugger.Provision.Bridges.{
  Process, rewrite, rewrite_stale, js_shared_loop, js_shared, ensure_js_shared, ensure_pybridge_in,
  converge, ensure_cdp_bridge, ensure_nodebridge_in, ensure_browserbridge_in,
}
use agent_debugger.Provision.Bridges.Texts.{HasText}

bind-ok :
    {A B : Type 0} (k : A → Action B) (d : Disk) {x : Result ProvisionError A × Disk} {a : A}
    {d' : Disk}
    → x ≡ (ok a, d')
    → (((λ _. x) >>= k) d) ≡ k a d'
bind-ok k d e = ap (λ y. ((λ _. y) >>= k) d) e

check_file-text :
    (p : PathBuf) (what : What) (s : String) (d : Disk)
    → d.tree p ≡ file s
    → check_provision_path p false what d ≡ (ok tt, d)
unfolding check_provision_path refuse_provision_link
check_file-text p what s d holds = ground (arith, holds)

check_dir-real :
    (p : PathBuf) (what : What) (d : Disk)
    → (d.tree p ≡ absent) ⊎ (d.tree p ≡ directory)
    → check_provision_path p true what d ≡ (ok tt, d)
unfolding check_provision_path refuse_provision_link
check_dir-real p what d (inl e) = ground (arith, e)
check_dir-real p what d (inr e) = ground (arith, e)

matches-text : (p : PathBuf) (s : String) (d : Disk) → d.tree p ≡ file s → file_matches p s d ≡ true
unfolding file_matches
matches-text p s d holds = rw holds ((eq_iff s s).1 refl)

module _ (self : Process) (dir : PathBuf) where
  rewrite_stale-text :
      (name : Text) (s : String) (d : Disk)
      → d.tree (join dir name) ≡ file s
      → rewrite_stale self dir (join dir name) s d ≡ (ok false, d)
  unfolding rewrite_stale
  rewrite_stale-text name s d holds = rw (matches-text (join dir name) s d holds) refl

  js_shared_loop-texts :
      (shared : List (Text × String)) (d : Disk)
      → All (λ f. HasText dir f d) shared
      → js_shared_loop self dir false shared d ≡ (ok false, d)
  unfolding js_shared_loop
  js_shared_loop-texts [] d texts = refl
  js_shared_loop-texts ((name, s) ∷ shared) d texts =
      bind-ok
        (λ _. rewrite_stale self dir (join dir name) s >>= λ stale.
          js_shared_loop self dir stale shared)
        d (check_file-text (join dir name) bridge_file s d texts.0)
      ∙ bind-ok (λ stale. js_shared_loop self dir stale shared) d
          (rewrite_stale-text name s d texts.0)
      ∙ js_shared_loop-texts shared d texts.1

  module _ (d : Disk) (real : (d.tree dir ≡ absent) ⊎ (d.tree dir ≡ directory)) where
    ensure_js_shared-texts :
        All (λ f. HasText dir f d) (js_shared self.embedded)
        → ensure_js_shared self dir d ≡ (ok false, d)
    unfolding ensure_js_shared
    ensure_js_shared-texts texts =
        bind-ok (λ _. js_shared_loop self dir false (js_shared self.embedded)) d
          (check_dir-real dir bridge_dir d real)
        ∙ js_shared_loop-texts (js_shared self.embedded) d texts

    ensure_pybridge-settled :
        HasText dir (literal "pybridge.py", self.embedded.pybridge) d
        → ensure_pybridge_in self dir d ≡ (ok (join dir (literal "pybridge.py")), d)
    unfolding ensure_pybridge_in
    ensure_pybridge-settled text =
        bind-ok
          (λ _.
            check_provision_path (join dir (literal "pybridge.py")) false bridge_file
            >> (rewrite_stale self dir (join dir (literal "pybridge.py")) self.embedded.pybridge
                >>= λ written. pure (join dir (literal "pybridge.py"))))
          d (check_dir-real dir adapter_dir_path d real)
        ∙ bind-ok
            (λ _.
              rewrite_stale self dir (join dir (literal "pybridge.py")) self.embedded.pybridge
              >>= λ written. pure (join dir (literal "pybridge.py")))
            d
            (check_file-text (join dir (literal "pybridge.py")) bridge_file self.embedded.pybridge d
              text)
        ∙ bind-ok (λ written. pure (join dir (literal "pybridge.py"))) d
            (rewrite_stale-text (literal "pybridge.py") self.embedded.pybridge d text)

    module _ (name : Text) (s : String) (text : HasText dir (name, s) d)
        (texts : All (λ f. HasText dir f d) (js_shared self.embedded)) where
      converge-settled : converge self dir (join dir name) s d ≡ (ok (join dir name), d)
      unfolding converge
      converge-settled = rw (matches-text (join dir name) s d text) (
          bind-ok
            (λ stale.
              (if stale then rewrite self dir (join dir name) s else pure tt)
              >> pure (join dir name))
            d (ensure_js_shared-texts texts))

      ensure_cdp_bridge-settled :
          ensure_cdp_bridge self dir (join dir name) s d ≡ (ok (join dir name), d)
      unfolding ensure_cdp_bridge
      ensure_cdp_bridge-settled =
          bind-ok
            (λ _.
              check_provision_path (join dir name) false bridge_file
              >> converge self dir (join dir name) s)
            d (check_dir-real dir adapter_dir_path d real)
          ∙ bind-ok (λ _. converge self dir (join dir name) s) d
              (check_file-text (join dir name) bridge_file s d text)
          ∙ converge-settled

    -- When the adapter directory is a real one or absent and the files of the bridges in it hold
    -- their texts, each `ensure_*bridge_in` returns the path of its bridge and touches nothing,
    -- whichever call would fail.
    pub ensure_bridges-settled :
        All (λ f. HasText dir f d) (js_shared self.embedded)
        → HasText dir (literal "pybridge.py", self.embedded.pybridge) d
        → HasText dir (literal "nodebridge.js", self.embedded.nodebridge) d
        → HasText dir (literal "browserbridge.js", self.embedded.browserbridge) d
        → (ensure_pybridge_in self dir d ≡ (ok (join dir (literal "pybridge.py")), d))
          × (ensure_nodebridge_in self dir d ≡ (ok (join dir (literal "nodebridge.js")), d))
          × (ensure_browserbridge_in self dir d ≡ (ok (join dir (literal "browserbridge.js")), d))
    unfolding ensure_nodebridge_in ensure_browserbridge_in
    ensure_bridges-settled texts python node browser = (
      ensure_pybridge-settled python,
      ensure_cdp_bridge-settled (literal "nodebridge.js") self.embedded.nodebridge node texts,
      ensure_cdp_bridge-settled (literal "browserbridge.js") self.embedded.browserbridge browser
          texts,
    )
