-- ===== src/Provision/Tools/Sources.antt =====
-- After a success the Java sources are the embedded ones.
use agent_debugger.Prelude.{
  ℕ, String, Bool, true, false, not, ◌&&◌, ◌||◌, ◌≡◌, refl, sym, ◌∙◌, subst, List, [], ◌∷◌, all,
  All, arith, leb, Result, ok, err, if◌then◌else◌,
}
use agent_debugger.Dap.Header.{literal}
use agent_debugger.Provision.Disk.{
  Text, PathBuf, join, file, same_path, same_text, Tree, ProvisionError, adapter_dir_path,
  bridge_file, Disk, Action, pure, ◌>>=◌, ◌>>◌,
}
use agent_debugger.Provision.Links.{check_provision_path, ensure_provision_dir}
use agent_debugger.Provision.Links.Grows.{check_path-disk}
use agent_debugger.Provision.Write.{
  atomic_write_provisioned, file_matches, provision_tmp_name, content_is,
}
use agent_debugger.Provision.Write.Names.{dots, tmp_other}
use agent_debugger.Provision.Write.Atomic.{atomic_write-Swaps}
use agent_debugger.Provision.Bridges.{Process}
use agent_debugger.Provision.Bridges.Steps.{is_plain, check_file-plain}
use agent_debugger.Provision.Bridges.Texts.{
  Ensures, bind-Ensures, Ensures-any, HasText, Swaps-Ensures, matches-HasText,
}
use agent_debugger.Provision.Tools.{Host, named, Argument, run_tool, run_with_timeout}
use agent_debugger.Provision.Tools.Java.{
  java_sources, stale_loop, write_sources, recompile, ensure_compiled_locked, classes_missing,
  javac_args,
}

-- names with one dot at most, no two alike
abbrev is_apart : Text → Text × String → Bool
is_apart name g = not (same_text name g.0)

abbrev are_distinct : List (Text × String) → Bool
are_distinct [] = true
are_distinct ((name, source) ∷ rest) =
    leb (dots name) 1 && all (is_apart name) rest && are_distinct rest

and-both : (a b c : Bool) → (a && b && c) ≡ true → (a ≡ true) × (b ≡ true) × (c ≡ true)
and-both a b c e = ground arith

join_apart :
    (dir : PathBuf) (a b : Text)
    → not (same_text a b) ≡ true
    → same_path (join dir a) (join dir b) ≡ false
unfolding same_path
join_apart dir a b apart = ground arith

Ensures-and :
    {A : Type 0} (Q R : Disk → Type 0) (x : Result ProvisionError A × Disk)
    → Ensures Q x
    → Ensures R x
    → Ensures (λ d. Q d × R d) x
Ensures-and Q R (ok a, d) first second = (first, second)
Ensures-and Q R (err e, d) first second = tt

-- `Ensures`, with the value
abbrev Says : {A : Type 0} → (A → Disk → Type 0) → Result ProvisionError A × Disk → Type 0
Says Q (ok a, d) = Q a d
Says Q (err e, d) = Unit {0}

bind-Says :
    {A B : Type 0} (Q : B → Disk → Type 0) (d : Disk) (x : Result ProvisionError A × Disk)
    (k : A → Action B)
    → ((a : A) → x.0 ≡ ok a → Says Q (k a x.1))
    → Says Q (((λ _. x) >>= k) d)
bind-Says Q d (ok a, d') k next = next a refl
bind-Says Q d (err e, d') k next = tt

map-Says :
    {A : Type 0} (Q R : A → Disk → Type 0) (x : Result ProvisionError A × Disk) (d : Disk)
    → x.1 ≡ d
    → ((a : A) (d' : Disk) → d' ≡ d → Q a d' → R a d')
    → Says Q x
    → Says R x
map-Says Q R (ok a, d') d same weaken says = weaken a d' same says
map-Says Q R (err e, d') d same weaken says = tt

bind-disk :
    {A B : Type 0} (d : Disk) (x : Result ProvisionError A × Disk) (k : A → Action B)
    → x.1 ≡ d
    → ((a : A) → (k a x.1).1 ≡ x.1)
    → (((λ _. x) >>= k) d).1 ≡ d
bind-disk d (ok a, d') k same next = next a ∙ same
bind-disk d (err e, d') k same next = same

or-false : (a b : Bool) → (a || not b) ≡ false → (a ≡ false) × (b ≡ true)
or-false a b e = ground arith

Ensures-all :
    {A : Type 0} (Q : Disk → Type 0) (x : Result ProvisionError A × Disk) → Q x.1 → Ensures Q x
Ensures-all Q (ok a, d) holds = holds
Ensures-all Q (err e, d) holds = tt

module _ (self : Process) (dir : PathBuf) where
  -- a written file outlasts the writes of others
  write_sources-keeps :
      (name : Text) (s : String)
      → leb (dots name) 1 ≡ true
      → (fs : List (Text × String)) → all (is_apart name) fs ≡ true
      → (d : Disk) → d.tree (join dir name) ≡ file s
      → Ensures (HasText dir (name, s)) (write_sources self dir fs d)
  unfolding write_sources
  write_sources-keeps name s few [] apart d holds = holds
  write_sources-keeps name s few ((other, text) ∷ fs) apart d holds =
      let x = atomic_write_provisioned self.id (join dir other) text d in
      let stays : x.1.tree (join dir name) ≡ file s =
        (atomic_write-Swaps self.id dir other text d).1 (join dir name)
          (tmp_other self.id dir other d.counter name (ground arith))
          (join_apart dir name other (ground arith))
        ∙ holds in
      bind-Ensures (λ _. Unit {0}) (HasText dir (name, s)) d x (λ _. write_sources self dir fs)
        (Ensures-any x) λ _ _ _. write_sources-keeps name s few fs (ground arith) x.1 stays

  write_sources-HasText :
      (fs : List (Text × String))
      → are_distinct fs ≡ true
      → (d : Disk) → Ensures (λ d'. All (λ f. HasText dir f d') fs) (write_sources self dir fs d)
  unfolding write_sources
  write_sources-HasText [] distinct d = tt
  write_sources-HasText ((name, source) ∷ fs) distinct d =
      let parts =
        and-both (leb (dots name) 1) (all (is_apart name) fs) (are_distinct fs) distinct in
      let x = atomic_write_provisioned self.id (join dir name) source d in
      bind-Ensures (HasText dir (name, source))
        (λ d'. All (λ f. HasText dir f d') ((name, source) ∷ fs)) d x
        (λ _. write_sources self dir fs)
        (Swaps-Ensures (provision_tmp_name self.id (join dir name) d.counter) (join dir name) source
          d x (atomic_write-Swaps self.id dir name source d))
        λ _ _ holds.
          Ensures-and (HasText dir (name, source)) (λ d'. All (λ f. HasText dir f d') fs)
            (write_sources self dir fs x.1)
            (write_sources-keeps name source parts.0 fs parts.1 x.1 holds)
            (write_sources-HasText fs parts.2 x.1)

module _ (dir : PathBuf) where
  stale_loop-disk :
      (fs : List (Text × String)) (stale : Bool) (d : Disk) → (stale_loop dir stale fs d).1 ≡ d
  unfolding stale_loop
  stale_loop-disk [] stale d = refl
  stale_loop-disk ((name, source) ∷ fs) stale d =
      let x = check_provision_path (join dir name) false bridge_file d in
      bind-disk d x
        (λ _ d'. stale_loop dir (stale || not (file_matches (join dir name) source d')) fs d')
        (check_path-disk (join dir name) false bridge_file d)
        (λ _. stale_loop-disk fs (stale || not (file_matches (join dir name) source x.1)) x.1)

  -- the loop calls the sources fresh only if they are
  abbrev IsFresh : Bool → List (Text × String) → Bool → Disk → Type 0
  IsFresh stale fs b d = b ≡ false → (stale ≡ false) × All (λ f. HasText dir f d) fs

  IsFresh-cons :
      (name : Text) (source : String) (fs : List (Text × String)) (stale b : Bool) (d d' : Disk)
      → is_plain (d.tree (join dir name)) ≡ true
      → d' ≡ d
      → IsFresh (stale || not (file_matches (join dir name) source d)) fs b d'
      → IsFresh stale ((name, source) ∷ fs) b d'
  unfolding file_matches
  IsFresh-cons name source fs stale b d d' plain same fresh e =
      let rest = fresh e in
      let parts = or-false stale (content_is source (d.tree (join dir name))) rest.0 in
      (
        parts.0,
        (
          subst (HasText dir (name, source)) (sym same)
              (matches-HasText source (d.tree (join dir name)) plain parts.1),
          rest.1,
        ),
      )

  stale_loop-IsFresh :
      (fs : List (Text × String)) (stale : Bool) (d : Disk)
      → Says (IsFresh stale fs) (stale_loop dir stale fs d)
  unfolding stale_loop
  stale_loop-IsFresh [] stale d = λ e. (e, tt)
  stale_loop-IsFresh ((name, source) ∷ fs) stale d =
      let x = check_provision_path (join dir name) false bridge_file d in
      let stale' = stale || not (file_matches (join dir name) source x.1) in
      bind-Says (IsFresh stale ((name, source) ∷ fs)) d x
        (λ _ d'. stale_loop dir (stale || not (file_matches (join dir name) source d')) fs d')
        λ a passes.
          map-Says (IsFresh stale' fs) (IsFresh stale ((name, source) ∷ fs))
            (stale_loop dir stale' fs x.1) x.1 (stale_loop-disk fs stale' x.1)
            (λ b d' same fresh.
              IsFresh-cons name source fs stale b x.1 d'
                (check_file-plain (join dir name) bridge_file d a passes) same fresh)
            (stale_loop-IsFresh fs stale' x.1)

abbrev pub SourcesIn : PathBuf → List (Text × String) → Disk → Type 0
SourcesIn dir fs d = All (λ f. HasText dir f d) fs

-- the arguments of the one run of javac
abbrev pub compiling : Process → PathBuf → List Argument
compiling self dir = javac_args dir (join dir (literal "classes")) (java_sources self.embedded)

-- javac does not write the source files that it is given
abbrev pub SparesSources : Process → Host → PathBuf → Type 0
SparesSources self host dir =
    (n : ℕ) (t : Tree)
    → All
        (λ f.
          t (join dir f.0) ≡ file f.1
          → (host n (named (literal "javac")) (compiling self dir) t).1 (join dir f.0) ≡ file f.1)
        (java_sources self.embedded)

module _ (self : Process) (host : Host) (dir : PathBuf) (spares : SparesSources self host dir) where
  javac-tree :
      (d : Disk) (q : PathBuf) (s : String)
      → (d.tree q ≡ file s
          → (host d.calls (named (literal "javac")) (compiling self dir) d.tree).1 q ≡ file s)
      → d.tree q ≡ file s
      → (run_tool host (literal "javac") (named (literal "javac")) (compiling self dir) d).1.tree q
        ≡ file s
  unfolding run_tool run_with_timeout
  javac-tree d q s spared holds = let kept = spared holds in grind (arith, kept)

  javac-Sources :
      (fs : List (Text × String)) (d : Disk)
      → All
          (λ f.
            d.tree (join dir f.0) ≡ file f.1
            → (host d.calls (named (literal "javac")) (compiling self dir) d.tree).1 (join dir f.0)
              ≡ file f.1)
          fs
      → SourcesIn dir fs d
      → SourcesIn dir fs
          (run_tool host (literal "javac") (named (literal "javac")) (compiling self dir) d).1
  javac-Sources [] d spared texts = tt
  javac-Sources ((name, source) ∷ fs) d spared texts =
      (javac-tree d (join dir name) source spared.0 texts.0, javac-Sources fs d spared.1 texts.1)

  recompile-Sources :
      (d : Disk)
      → Ensures
          (SourcesIn dir (java_sources self.embedded))
          (recompile self host dir (join dir (literal "classes")) d)
  unfolding recompile same_text
  recompile-Sources d =
      let classes = join dir (literal "classes") in
      let sources = java_sources self.embedded in
      let args = compiling self dir in
      let javac : Action (Unit {0}) =
        run_tool host (literal "javac") (named (literal "javac")) args in
      let x = ensure_provision_dir self.agent_home classes d in
      let y = write_sources self dir sources x.1 in
      bind-Ensures (λ _. Unit {0}) (SourcesIn dir sources) d x
        (λ _. write_sources self dir sources >> javac) (Ensures-any x)
        λ _ _ _.
          bind-Ensures (SourcesIn dir sources) (SourcesIn dir sources) x.1 y (λ _. javac)
            (write_sources-HasText self dir sources refl x.1)
            λ _ _ texts.
              Ensures-all (SourcesIn dir sources) (javac y.1)
                (javac-Sources sources y.1 (spares y.1.calls y.1.tree) texts)

  finish-Sources :
      (missing : Bool) (d : Disk) (x : Result ProvisionError Bool × Disk)
      → Says (IsFresh dir missing (java_sources self.embedded)) x
      → Ensures (SourcesIn dir (java_sources self.embedded)) (
          ((λ _. x) >>= λ stale.
          (if stale then recompile self host dir (join dir (literal "classes")) else pure tt)
          >> pure (join dir (literal "classes")))
            d)
  finish-Sources missing d (err e, d') fresh = tt
  finish-Sources missing d (ok false, d') fresh = (fresh refl).1
  finish-Sources missing d (ok true, d') fresh =
      let settled : Disk → Type 0 = SourcesIn dir (java_sources self.embedded) in
      bind-Ensures settled settled d' (recompile self host dir (join dir (literal "classes")) d')
        (λ _. pure (join dir (literal "classes"))) (recompile-Sources d') λ _ _ texts. texts

  -- If javac, run on the sources, leaves the source files as they are, and `ensure_compiled_locked`
  -- succeeds, then every Java source holds its embedded text, whether or not the loop found one of
  -- them stale.
  pub ensure_compiled-HasText :
      (d : Disk)
      → Ensures
          (SourcesIn dir (java_sources self.embedded))
          (ensure_compiled_locked self host dir d)
  unfolding ensure_compiled_locked
  ensure_compiled-HasText d =
      let sources = java_sources self.embedded in
      let classes = join dir (literal "classes") in
      let x = check_provision_path dir true adapter_dir_path d in
      let missing = classes_missing classes x.1 in
      let y = stale_loop dir missing sources x.1 in
      let finish : Bool → Action PathBuf =
        λ stale. (if stale then recompile self host dir classes else pure tt) >> pure classes in
      bind-Ensures (λ _. Unit {0}) (SourcesIn dir sources) d x
        (λ _. (λ d'. stale_loop dir (classes_missing classes d') sources d') >>= finish)
        (Ensures-any x)
        λ _ _ _. finish-Sources missing x.1 y (stale_loop-IsFresh dir sources missing x.1)
