-- ===== src/Provision/Bridges/Texts.antt =====
-- What a success ensures of one bridge file, and of the shared files.
use agent_debugger.Prelude.{
  ℕ, String, Bool, true, false, not, ◌||◌, ◌≡◌, ◌≢◌, refl, ◌∙◌, sym, ap, List, [], ◌∷◌, All, inl,
  inr, ok, err, Result, if◌then◌else◌, eq_iff,
}
use agent_debugger.Provision.Disk.{
  Text, PathBuf, join, Node, absent, unstatable, symlink, directory, file, special, What,
  ProvisionError, bridge_file, Disk, Action, pure, ◌>>=◌, ◌>>◌, same_path,
}
use agent_debugger.Provision.Disk.Laws.{same_path_refl}
use agent_debugger.Provision.Links.{check_provision_path, ensure_provision_dir}
use agent_debugger.Provision.Links.Grows.{Grows, ensure_provision_dir-Grows}
use agent_debugger.Provision.Write.{
  atomic_write_provisioned, provision_tmp_name, file_matches, content_is,
}
use agent_debugger.Provision.Write.Atomic.{Swaps, atomic_write-Swaps}
use agent_debugger.Provision.Bridges.{Process, rewrite, rewrite_stale, js_shared_loop}
use agent_debugger.Provision.Bridges.Steps.{
  is_plain, Written, IsLasting, Kept, js_shared_loop-Kept, check_file-plain, IsListed,
}

-- a success makes `Q` true
abbrev pub Ensures : {A : Type 0} → (Disk → Type 0) → Result ProvisionError A × Disk → Type 0
Ensures Q (ok a, d) = Q d
Ensures Q (err e, d) = Unit {0}

pub Ensures-both :
    {A : Type 0} (Q R : Disk → Type 0) (x : Result ProvisionError A × Disk)
    → Q x.1
    → Ensures R x
    → Ensures (λ d. Q d × R d) x
Ensures-both Q R (ok a, d) holds ensures = (holds, ensures)
Ensures-both Q R (err e, d) holds ensures = tt

pub bind-Ensures :
    {A B : Type 0} (Q R : Disk → Type 0) (d : Disk) (x : Result ProvisionError A × Disk)
    (k : A → Action B)
    → Ensures Q x
    → ((a : A) → x.0 ≡ ok a → Q x.1 → Ensures R (k a x.1))
    → Ensures R (((λ _. x) >>= k) d)
bind-Ensures Q R d (ok a, d') k first next = next a refl first
bind-Ensures Q R d (err e, d') k first next = tt

pub Ensures-any : {A : Type 0} (x : Result ProvisionError A × Disk) → Ensures (λ _. Unit {0}) x
Ensures-any (ok a, d) = tt
Ensures-any (err e, d) = tt

pub bind-holds :
    {A B : Type 0} (P : Disk → Type 0) (d : Disk) (x : Result ProvisionError A × Disk)
    (k : A → Action B)
    → P x.1
    → ((a : A) → P (k a x.1).1)
    → P (((λ _. x) >>= k) d).1
bind-holds P d (ok a, d') k first next = next a
bind-holds P d (err e, d') k first next = first

pub Grows-file :
    (d d' : Disk) (q : PathBuf) (s : String) → Grows d d' → d.tree q ≡ file s → d'.tree q ≡ file s
Grows-file d d' q s grows holds = elim (grows q) [ inl same ↦ same ∙ holds | inr made ↦ cc ]

-- the file holds its text
abbrev pub HasText : PathBuf → Text × String → Disk → Type 0
HasText dir (name, source) d = d.tree (join dir name) ≡ file source

pub matches-HasText :
    (source : String) (n : Node) → is_plain n ≡ true → content_is source n ≡ true → n ≡ file source
matches-HasText source absent plain same = cc
matches-HasText source unstatable plain same = cc
matches-HasText source (symlink _) plain same = cc
matches-HasText source directory plain same = cc
matches-HasText source (file existing) plain same = ap file ((eq_iff existing source).0 same)
matches-HasText source special plain same = cc

pub not_or : (a b : Bool) → (not a || b) ≡ false → a ≡ true
not_or true b e = refl
not_or false b e = sym e

pub apart_ne : (p q : PathBuf) → same_path p q ≡ false → p ≢ q
apart_ne p q other same = cc (same_path_refl p)

pub Swaps-Ensures :
    (tmp dest : PathBuf) (s : String) (d : Disk) (x : Result ProvisionError (Unit {0}) × Disk)
    → Swaps tmp dest s d x
    → Ensures (λ d'. d'.tree dest ≡ file s) x
Swaps-Ensures tmp dest s d (ok done, d') swaps = swaps.0
Swaps-Ensures tmp dest s d (err e, d') swaps = tt

module _ (self : Process) (dir : PathBuf) (name : Text) (source : String) where
  pub rewrite-HasText :
      (d : Disk) → Ensures (HasText dir (name, source)) (rewrite self dir (join dir name) source d)
  unfolding rewrite
  rewrite-HasText d =
      let made = ensure_provision_dir self.agent_home dir d in
      bind-Ensures (λ _. Unit {0}) (HasText dir (name, source)) d made
        (λ _. atomic_write_provisioned self.id (join dir name) source) (Ensures-any made)
        (λ _ done _.
          Swaps-Ensures (provision_tmp_name self.id (join dir name) made.1.counter) (join dir name)
            source made.1 _ (atomic_write-Swaps self.id dir name source made.1))

  pub if_stale-HasText :
      (d : Disk) (matches : Bool)
      → (matches ≡ true → HasText dir (name, source) d)
      → Ensures (HasText dir (name, source)) (
          (if matches then pure false else (rewrite self dir (join dir name) source >> pure true))
            d)
  if_stale-HasText d true same = same refl
  if_stale-HasText d false same =
      bind-Ensures (HasText dir (name, source)) (HasText dir (name, source)) d
        (rewrite self dir (join dir name) source d) (λ _. pure true) (rewrite-HasText d)
        (λ _ done holds. holds)

  -- any other file that stays what it is
  pub rewrite-keeps :
      (d : Disk) (q : PathBuf) (s : String)
      → same_path q (join dir name) ≡ false
      → ((n : ℕ) → same_path q (provision_tmp_name self.id (join dir name) n) ≡ false)
      → d.tree q ≡ file s
      → (rewrite self dir (join dir name) source d).1.tree q ≡ file s
  unfolding rewrite
  rewrite-keeps d q s other apart holds =
      let made = ensure_provision_dir self.agent_home dir d in
      let stays =
        Grows-file d made.1 q s (ensure_provision_dir-Grows self.agent_home dir d) holds in
      bind-holds (λ d'. d'.tree q ≡ file s) d made
        (λ _. atomic_write_provisioned self.id (join dir name) source) stays
        λ _.
          (atomic_write-Swaps self.id dir name source made.1).1 q (apart made.1.counter) other
          ∙ stays

  pub rewrite_stale-HasText :
      (d : Disk)
      → is_plain (d.tree (join dir name)) ≡ true
      → Ensures (HasText dir (name, source)) (rewrite_stale self dir (join dir name) source d)
  unfolding rewrite_stale file_matches
  rewrite_stale-HasText d plain =
      if_stale-HasText d (file_matches (join dir name) source d)
        (matches-HasText source (d.tree (join dir name)) plain)

  pub settle-HasText :
      {B : Type 0} (what : What) (R : Disk → Type 0) (k : Bool → Action B)
      → ((stale : Bool) (d : Disk) → HasText dir (name, source) d → Ensures R (k stale d))
      → (d : Disk)
      → Ensures R (
          (check_provision_path (join dir name) false what
              >> (rewrite_stale self dir (join dir name) source >>= k))
            d)
  settle-HasText what R k next d =
      let x = check_provision_path (join dir name) false what d in
      bind-Ensures (λ _. Unit {0}) R d x (λ _. rewrite_stale self dir (join dir name) source >>= k)
        (Ensures-any x)
        λ a passes _.
          bind-Ensures (HasText dir (name, source)) R x.1
            (rewrite_stale self dir (join dir name) source x.1) k
            (rewrite_stale-HasText x.1 (check_file-plain (join dir name) what d a passes))
            (λ stale done holds. next stale _ holds)

module _ (self : Process) (files : List (PathBuf × String)) (dir : PathBuf) where
  -- A listed file that has its text keeps it: no other text is listed for it.
  abbrev pub IsSettled : Text × String → Type 0
  IsSettled (name, source) =
      IsLasting self.id files (join dir name)
      × ((n : Node) → Written files (join dir name) n → n ≡ file source)

  pub HasText-Kept :
      (f : Text × String) (d d' : Disk)
      → IsSettled f
      → Kept self files d d'
      → HasText dir f d
      → HasText dir f d'
  HasText-Kept (name, source) d d' settled kept holds = elim (kept (join dir name) settled.0) [
    | inl same ↦ same ∙ holds
    | inr (inl (free, made)) ↦ cc
    | inr (inr (plain, written)) ↦ settled.1 _ written
  ]

  pub js_shared_loop-HasText :
      (shared : List (Text × String))
      → All (IsListed self files dir) shared
      → All IsSettled shared
      → (changed : Bool) (d : Disk)
      → Ensures
          (λ d'. All (λ f. HasText dir f d') shared)
          (js_shared_loop self dir changed shared d)
  unfolding js_shared_loop
  js_shared_loop-HasText [] listed settled changed d = tt
  js_shared_loop-HasText ((name, source) ∷ shared) listed settled changed d =
      settle-HasText self dir name source bridge_file
        (λ d'. HasText dir (name, source) d' × All (λ f. HasText dir f d') shared)
        (λ stale. js_shared_loop self dir (changed || stale) shared)
        (λ stale d' holds.
          Ensures-both (HasText dir (name, source)) (λ d'. All (λ f. HasText dir f d') shared)
            (js_shared_loop self dir (changed || stale) shared d')
            (HasText-Kept (name, source) d' (js_shared_loop self dir (changed || stale) shared d').1
              settled.0 (js_shared_loop-Kept self files dir shared listed.1 (changed || stale) d')
              holds)
            (js_shared_loop-HasText shared listed.1 settled.1 (changed || stale) d'))
        d
