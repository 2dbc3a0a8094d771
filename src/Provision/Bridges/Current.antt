-- ===== src/Provision/Bridges/Current.antt =====
-- After a success every file of a bridge holds its embedded text.
use agent_debugger.Prelude.{
  ◌≤◌, String, Bool, true, false, not, ◌||◌, ◌≡◌, ◌⊎◌, refl, ◌∙◌, sym, ap, List, [], ◌∷◌, All,
  arith, inl, inr, if◌then◌else◌,
}
use agent_debugger.Dap.Header.{literal}
use agent_debugger.Provision.Disk.{
  Text, PathBuf, join, Node, file, bridge_file, bridge_dir, adapter_dir_path, Disk, Action, pure,
  ◌>>=◌, ◌>>◌, same_path, same_text,
}
use agent_debugger.Provision.Links.{check_provision_path}
use agent_debugger.Provision.Write.{file_matches, content_is}
use agent_debugger.Provision.Write.Names.{dots, tmp_other}
use agent_debugger.Provision.Bridges.{
  Process, rewrite, rewrite_stale, js_shared_loop, js_shared, ensure_js_shared, ensure_pybridge_in,
  converge, ensure_cdp_bridge, ensure_nodebridge_in, ensure_browserbridge_in,
}
use agent_debugger.Provision.Bridges.Steps.{
  is_plain, Written, IsLasting, Kept, Kept-refl, check_file-plain,
}
use agent_debugger.Provision.Bridges.Kept.{
  files_of, cdp_files, fs, shared-IsListed, ensure_js_shared-Kept,
}
use agent_debugger.Provision.Bridges.Texts.{
  Ensures, Ensures-any, Ensures-both, HasText, HasText-Kept, IsSettled, apart_ne, bind-Ensures,
  js_shared_loop-HasText, matches-HasText, not_or, rewrite-HasText, rewrite-keeps, settle-HasText,
}

module _ (self : Process) (dir : PathBuf) (name : Text) (source : String) where
  abbrev listed_files : List (PathBuf × String)
  listed_files = fs self dir name source

  abbrev SharedTexts : Disk → Type 0
  SharedTexts d = All (λ f. HasText dir f d) (js_shared self.embedded)

  abbrev pub AllTexts : Disk → Type 0
  AllTexts d = SharedTexts d × HasText dir (name, source) d

  module _ (settled : IsSettled self listed_files dir (name, source))
      (shared : All
        (λ f.
          IsSettled self listed_files dir f × (same_path (join dir f.0) (join dir name) ≡ false))
        (js_shared self.embedded)) where
    ensure_js_shared-HasText : (d : Disk) → Ensures SharedTexts (ensure_js_shared self dir d)
    unfolding ensure_js_shared
    ensure_js_shared-HasText d =
        let x = check_provision_path dir true bridge_dir d in
        bind-Ensures (λ _. Unit {0}) SharedTexts d x
          (λ _. js_shared_loop self dir false (js_shared self.embedded)) (Ensures-any x)
          λ _ done _.
            js_shared_loop-HasText self listed_files dir (js_shared self.embedded)
              (shared-IsListed self dir name source) (shared.0.0, (shared.1.0.0, tt)) false x.1

    last-HasText :
        (stale : Bool) (d d' : Disk)
        → (stale ≡ false → HasText dir (name, source) d)
        → Kept self listed_files d d'
        → SharedTexts d'
        → Ensures AllTexts ((if stale then rewrite self dir (join dir name) source else pure tt) d')
    last-HasText true d d' fresh kept texts =
        Ensures-both SharedTexts (HasText dir (name, source))
          (rewrite self dir (join dir name) source d')
          (
            rewrite-keeps self dir name source d' _ _ shared.0.1 shared.0.0.0.0 texts.0,
            (rewrite-keeps self dir name source d' _ _ shared.1.0.1 shared.1.0.0.0.0 texts.1.0, tt),
          )
          (rewrite-HasText self dir name source d')
    last-HasText false d d' fresh kept texts =
        (texts, HasText-Kept self listed_files dir (name, source) d d' settled kept (fresh refl))

    converge-HasText :
        (d : Disk)
        → is_plain (d.tree (join dir name)) ≡ true
        → Ensures AllTexts (converge self dir (join dir name) source d)
    unfolding converge file_matches
    converge-HasText d plain =
        let x = ensure_js_shared self dir d in
        let stale = not (file_matches (join dir name) source d) in
        let last : Bool → Action (Unit {0}) = λ shared_stale.
          if stale || shared_stale then rewrite self dir (join dir name) source else pure tt in
        bind-Ensures SharedTexts AllTexts d x
          (λ shared_stale. last shared_stale >> pure (join dir name)) (ensure_js_shared-HasText d)
          λ shared_stale done texts.
            bind-Ensures AllTexts AllTexts x.1 (last shared_stale x.1) (λ _. pure (join dir name))
              (last-HasText (stale || shared_stale) d x.1 (fresh shared_stale)
                (ensure_js_shared-Kept self dir name source d d (Kept-refl self listed_files d))
                texts)
              λ _ done' all'. all'
      where
        fresh :
            (shared_stale : Bool)
            → (not (file_matches (join dir name) source d) || shared_stale) ≡ false
            → HasText dir (name, source) d
        fresh shared_stale e =
            matches-HasText source (d.tree (join dir name)) plain
              (not_or (content_is source (d.tree (join dir name))) shared_stale e)

    -- the two checks, and what they settle
    ensure_cdp_bridge-HasText :
        (d : Disk) → Ensures AllTexts (ensure_cdp_bridge self dir (join dir name) source d)
    unfolding ensure_cdp_bridge
    ensure_cdp_bridge-HasText d =
        let x = check_provision_path dir true adapter_dir_path d in
        let y = check_provision_path (join dir name) false bridge_file x.1 in
        bind-Ensures (λ _. Unit {0}) AllTexts d x
          (λ _.
            check_provision_path (join dir name) false bridge_file
            >> converge self dir (join dir name) source)
          (Ensures-any x)
          λ _ done _.
            bind-Ensures (λ _. Unit {0}) AllTexts x.1 y
              (λ _. converge self dir (join dir name) source) (Ensures-any y)
              λ b passes _.
                converge-HasText y.1 (check_file-plain (join dir name) bridge_file x.1 b passes)

module _ (self : Process) (dir : PathBuf) (f : Text × String) where
  few-IsLasting :
      dots f.0 ≤ 1
      → (fl : List (Text × String)) → IsLasting self.id (files_of dir fl) (join dir f.0)
  few-IsLasting few [] = tt
  few-IsLasting few (g ∷ fl) = (λ n. tmp_other self.id dir g.0 n f.0 few, few-IsLasting few fl)

  -- another name, or the same text
  abbrev Differs : Text × String → Type 0
  Differs g = (same_path (join dir f.0) (join dir g.0) ≡ false) ⊎ (f.1 ≡ g.1)

  Differs-text :
      (fl : List (Text × String))
      → All Differs fl
      → (n : Node) → Written (files_of dir fl) (join dir f.0) n
      → n ≡ file f.1
  Differs-text [] differs n written = absurd written
  Differs-text (g ∷ fl) (inl other, differs) n (inl (same, text)) =
      elim (apart_ne (join dir f.0) (join dir g.0) other same) [ ]
  Differs-text (g ∷ fl) (inr alike, differs) n (inl (same, text)) = text ∙ sym (ap file alike)
  Differs-text (g ∷ fl) differs n (inr written) = Differs-text fl differs.1 n written

  IsSettled-of :
      dots f.0 ≤ 1
      → (fl : List (Text × String)) → All Differs fl
      → IsSettled self (files_of dir fl) dir f
  IsSettled-of few fl differs = (few-IsLasting few fl, Differs-text fl differs)

-- a CDP bridge whose name is none of the shared names
module _ (self : Process) (dir : PathBuf) (name : Text) (source : String) where
  named-HasText :
      dots name ≤ 1
      → All
          (λ f.
            (same_path (join dir name) (join dir f.0) ≡ false)
            × (same_path (join dir f.0) (join dir name) ≡ false))
          (js_shared self.embedded)
      → (d : Disk)
      → Ensures
          (AllTexts self dir name source)
          (ensure_cdp_bridge self dir (join dir name) source d)
  unfolding same_path same_text
  named-HasText few apart =
      ensure_cdp_bridge-HasText self dir name source
        (IsSettled-of self dir (name, source) few (cdp_files self.embedded name source)
          (inr refl, (inl apart.0.0, (inl apart.1.0.0, tt))))
        (
          (
            IsSettled-of self dir (literal "cdp_conn.js", self.embedded.cdp_conn) (omega arith)
                (cdp_files self.embedded name source) (inl apart.0.1, (inr refl, (inl refl, tt))),
            apart.0.1,
          ),
          (
            (
              IsSettled-of self dir (literal "framing.js", self.embedded.framing) (omega arith)
                  (cdp_files self.embedded name source)
                  (inl apart.1.0.1, (inl refl, (inr refl, tt))),
              apart.1.0.1,
            ),
            tt,
          ),
        )

module _ (self : Process) (dir : PathBuf) where
  ensure_pybridge-HasText :
      (d : Disk)
      → Ensures
          (HasText dir (literal "pybridge.py", self.embedded.pybridge))
          (ensure_pybridge_in self dir d)
  unfolding ensure_pybridge_in
  ensure_pybridge-HasText d =
      let x = check_provision_path dir true adapter_dir_path d in
      let settled : Disk → Type 0 = HasText dir (literal "pybridge.py", self.embedded.pybridge) in
      bind-Ensures (λ _. Unit {0}) settled d x
        (λ _.
          check_provision_path (join dir (literal "pybridge.py")) false bridge_file
          >> (rewrite_stale self dir (join dir (literal "pybridge.py")) self.embedded.pybridge
              >>= λ written. pure (join dir (literal "pybridge.py"))))
        (Ensures-any x)
        λ _ done _.
          settle-HasText self dir (literal "pybridge.py") self.embedded.pybridge bridge_file settled
            (λ written. pure (join dir (literal "pybridge.py"))) (λ stale d' holds. holds) x.1

  -- However its calls go, when one of the three `ensure_*bridge_in` succeeds, the bridge's file
  -- holds the embedded text, and so do, beside a CDP bridge, both shared files.
  pub ensure_bridges-HasText :
      (d : Disk)
      → Ensures
          (HasText dir (literal "pybridge.py", self.embedded.pybridge))
          (ensure_pybridge_in self dir d)
        × Ensures
            (AllTexts self dir (literal "nodebridge.js") self.embedded.nodebridge)
            (ensure_nodebridge_in self dir d)
        × Ensures
            (AllTexts self dir (literal "browserbridge.js") self.embedded.browserbridge)
            (ensure_browserbridge_in self dir d)
  unfolding ensure_nodebridge_in ensure_browserbridge_in same_path same_text
  ensure_bridges-HasText d = (
    ensure_pybridge-HasText d,
    named-HasText self dir (literal "nodebridge.js") self.embedded.nodebridge (omega arith)
        ((refl, refl), ((refl, refl), tt)) d,
    named-HasText self dir (literal "browserbridge.js") self.embedded.browserbridge (omega arith)
        ((refl, refl), ((refl, refl), tt)) d,
  )
