-- ===== src/Provision/Bridges/Steps.antt =====
-- What a provisioning of bridge files may do to a path: links, directories, special files and
-- foreign files stay.
use agent_debugger.Prelude.{
  ℕ, String, Bool, true, false, ◌||◌, ◌≡◌, ◌≢◌, ◌⊎◌, refl, ◌∙◌, sym, subst, ap, List, [], ◌∷◌, All,
  arith, if◌then◌else◌, Bool-cases, inl, inr, ok, err, Result,
}
use agent_debugger.Provision.Disk.{
  Text, PathBuf, join, Node, absent, directory, file, What, bridge_file, ProvisionError, Disk,
  Action, pure, ◌>>=◌, ◌>>◌, same_path,
}
use agent_debugger.Provision.Disk.Laws.{same_path-eq}
use agent_debugger.Provision.Links.{
  refuse_provision_link, check_provision_path, ensure_provision_dir,
}
use agent_debugger.Provision.Links.Grows.{Grows, ensure_provision_dir-Grows, check_path-disk}
use agent_debugger.Provision.Write.{provision_tmp_name, atomic_write_provisioned, file_matches}
use agent_debugger.Provision.Write.Atomic.{Swaps, atomic_write-Swaps}
use agent_debugger.Provision.Bridges.{Process, rewrite, rewrite_stale, js_shared_loop}

abbrev pub is_plain : Node → Bool
is_plain absent = true
is_plain (file _) = true
is_plain _ = false

-- one of the listed files with its text
abbrev pub Written : List (PathBuf × String) → PathBuf → Node → Type 0
Written [] q n = ⊥
Written ((p, s) ∷ files) q n = ((q ≡ p) × (n ≡ file s)) ⊎ Written files q n

-- A path keeps its node, or it was free and is a directory now, or it is one of the listed files,
-- which was free or a file before, and has its text.
abbrev pub Moves : List (PathBuf × String) → PathBuf → Node → Node → Type 0
Moves files q before after =
    (after ≡ before)
    ⊎ ((before ≡ absent) × (after ≡ directory))
    ⊎ ((is_plain before ≡ true) × Written files q after)

-- no temporary name of a listed file
abbrev pub IsLasting : ℕ → List (PathBuf × String) → PathBuf → Type 0
IsLasting id files q = All (λ f. (n : ℕ) → same_path q (provision_tmp_name id f.0 n) ≡ false) files

abbrev pub Follows : ℕ → List (PathBuf × String) → Disk → Disk → Type 0
Follows id files d d' = (q : PathBuf) → IsLasting id files q → Moves files q (d.tree q) (d'.tree q)

Written-file :
    (files : List (PathBuf × String)) (q : PathBuf) (n : Node)
    → Written files q n
    → (s : String) × (n ≡ file s)
Written-file [] q n written = absurd written
Written-file ((p, s) ∷ files) q n (inl (same, text)) = (s, text)
Written-file ((p, s) ∷ files) q n (inr written) = Written-file files q n written

module _ (files : List (PathBuf × String)) (q : PathBuf) where
  Written-free : (n : Node) → Written files q n → n ≢ absent
  Written-free n written free = let (s, text) = Written-file files q n written in cc

  Moves-trans : (a b c : Node) → Moves files q a b → Moves files q b c → Moves files q a c
  Moves-trans a b c (inl same) second = subst (λ x. Moves files q x c) same second
  Moves-trans a b c (inr first) (inl same) = subst (λ x. Moves files q a x) (sym same) (inr first)
  Moves-trans a b c (inr (inl (free, made))) (inr (inl (free', made'))) = inr (inl (free, made'))
  Moves-trans a b c (inr (inl (free, made))) (inr (inr (plain, written))) =
      inr (inr (ap is_plain free, written))
  Moves-trans a b c (inr (inr (plain, written))) (inr (inl (free, made))) =
      absurd (Written-free b written free)
  Moves-trans a b c (inr (inr (plain, written))) (inr (inr (plain', written'))) =
      inr (inr (plain, written'))

  Swaps-Moves :
      (tmp dest : PathBuf) (source : String) (a : Node) (d : Disk)
      (x : Result ProvisionError (Unit {0}) × Disk)
      → (same_path q dest ≡ true → (is_plain a ≡ true) × Written files q (file source))
      → same_path q tmp ≡ false
      → Swaps tmp dest source d x
      → Moves files q a (d.tree q)
      → Moves files q a (x.1.tree q)
  Swaps-Moves tmp dest source a d (ok done, d') listed apart swaps moves =
      elim (Bool-cases (same_path q dest)) [
        | inl same ↦ inr (
            inr (
              (listed same).0,
              subst (λ n. Written files q n) (sym (ap d'.tree (same_path-eq q dest same) ∙ swaps.0))
                  (listed same).1,
            ))
        | inr other ↦ subst (λ n. Moves files q a n) (sym (swaps.1 q apart other)) moves
      ]
  Swaps-Moves tmp dest source a d (err e, d') listed apart swaps moves =
      elim (Bool-cases (same_path q dest)) [
        | inl same ↦
            subst (λ n. Moves files q a n)
              (ap d.tree (same_path-eq q dest same)
                ∙ sym swaps.0
                ∙ sym (ap d'.tree (same_path-eq q dest same)))
              moves
        | inr other ↦ subst (λ n. Moves files q a n) (sym (swaps.1 q apart other)) moves
      ]

Grows-Moves :
    (files : List (PathBuf × String)) (q : PathBuf) (d d' : Disk)
    → Grows d d'
    → Moves files q (d.tree q) (d'.tree q)
Grows-Moves files q d d' grows = elim (grows q) [ inl same ↦ inl same | inr made ↦ inr (inl made) ]

pub check_file-plain :
    (p : PathBuf) (what : What) (d : Disk)
    → (a : Unit {0}) → (check_provision_path p false what d).0 ≡ ok a
    → is_plain ((check_provision_path p false what d).1.tree p) ≡ true
unfolding check_provision_path refuse_provision_link
check_file-plain p what d a done = ground arith

module _ (self : Process) (files : List (PathBuf × String)) where
  abbrev pub Kept : Disk → Disk → Type 0
  Kept = Follows self.id files

  pub Kept-refl : (d : Disk) → Kept d d
  Kept-refl d q lasting = inl refl

  pub Kept-trans : (a b c : Disk) → Kept a b → Kept b c → Kept a c
  Kept-trans a b c first second q lasting =
      Moves-trans files q (a.tree q) (b.tree q) (c.tree q) (first q lasting) (second q lasting)

  -- `f` is one of the files of `dir`.
  abbrev pub IsListed : PathBuf → Text × String → Type 0
  IsListed dir (name, source) =
      Written files (join dir name) (file source)
      × ((q : PathBuf)
          → IsLasting self.id files q
          → (n : ℕ) → same_path q (provision_tmp_name self.id (join dir name) n) ≡ false)

  pub bind-Kept :
      {A B : Type 0} (d d' : Disk) (x : Result ProvisionError A × Disk) (k : A → Action B)
      → Kept d x.1
      → ((a : A) → x.0 ≡ ok a → Kept d (k a x.1).1)
      → Kept d (((λ _. x) >>= k) d').1
  bind-Kept d d' (ok a, d'') k first second = second a refl
  bind-Kept d d' (err e, d'') k first second = first

  pub check-Kept :
      (d d' : Disk) (p : PathBuf) (want_dir : Bool) (what : What)
      → Kept d d'
      → Kept d (check_provision_path p want_dir what d').1
  check-Kept d d' p want_dir what kept =
      subst (λ e. Kept d e) (sym (check_path-disk p want_dir what d')) kept

  module _ (dir : PathBuf) (name : Text) (source : String)
      (listed : IsListed dir (name, source)) where
    atomic_write-Kept :
        (d d' : Disk)
        → is_plain (d.tree (join dir name)) ≡ true
        → Kept d d'
        → Kept d (atomic_write_provisioned self.id (join dir name) source d').1
    atomic_write-Kept d d' plain kept q lasting =
        Swaps-Moves files q (provision_tmp_name self.id (join dir name) d'.counter) (join dir name)
          source (d.tree q) d' (atomic_write_provisioned self.id (join dir name) source d')
          (λ same. (
            ap (λ p. is_plain (d.tree p)) (same_path-eq q (join dir name) same) ∙ plain,
            subst (λ p. Written files p (file source)) (sym (same_path-eq q (join dir name) same))
                listed.0,
          ))
          (listed.1 q lasting d'.counter) (atomic_write-Swaps self.id dir name source d')
          (kept q lasting)

    pub rewrite-Kept :
        (d d' : Disk)
        → is_plain (d.tree (join dir name)) ≡ true
        → Kept d d'
        → Kept d (rewrite self dir (join dir name) source d').1
    unfolding rewrite
    rewrite-Kept d d' plain kept =
        let made = ensure_provision_dir self.agent_home dir d' in
        let kept' = Kept-trans d d' made.1 kept (λ q lasting.
          Grows-Moves files q d' made.1 (ensure_provision_dir-Grows self.agent_home dir d')) in
        bind-Kept d d' made (λ _. atomic_write_provisioned self.id (join dir name) source) kept'
          (λ _ done. atomic_write-Kept d made.1 plain kept')

    if_stale-Kept :
        (d d' : Disk) (matches : Bool)
        → is_plain (d.tree (join dir name)) ≡ true
        → Kept d d'
        → Kept d
            ((if matches
                then pure false
                else (rewrite self dir (join dir name) source >> pure true))
              d').1
    if_stale-Kept d d' true plain kept = kept
    if_stale-Kept d d' false plain kept =
        let kept' = rewrite-Kept d d' plain kept in
        bind-Kept d d' (rewrite self dir (join dir name) source d') (λ _. pure true) kept'
          (λ _ done. kept')

    rewrite_stale-Kept :
        (d : Disk)
        → is_plain (d.tree (join dir name)) ≡ true
        → Kept d (rewrite_stale self dir (join dir name) source d).1
    unfolding rewrite_stale
    rewrite_stale-Kept d plain =
        if_stale-Kept d d (file_matches (join dir name) source d) plain (Kept-refl d)

    pub settle-Kept :
        {B : Type 0} (what : What) (k : Bool → Action B)
        → ((stale : Bool) (d : Disk) → Kept d (k stale d).1)
        → (d d' : Disk) → Kept d d'
        → Kept d
            ((check_provision_path (join dir name) false what
                >> (rewrite_stale self dir (join dir name) source >>= k))
              d').1
    settle-Kept what k next d d' kept =
        let checked = check_provision_path (join dir name) false what d' in
        bind-Kept d d' checked (λ _. rewrite_stale self dir (join dir name) source >>= k)
          (check-Kept d d' (join dir name) false what kept)
          λ a passes.
            let d1 = checked.1 in
            let d2 = (rewrite_stale self dir (join dir name) source d1).1 in
            let kept2 =
              Kept-trans d d1 d2 (check-Kept d d' (join dir name) false what kept)
                (rewrite_stale-Kept d1 (check_file-plain (join dir name) what d' a passes)) in
            bind-Kept d d1 (rewrite_stale self dir (join dir name) source d1) k kept2
              λ stale written. Kept-trans d d2 (k stale d2).1 kept2 (next stale d2)

  pub js_shared_loop-Kept :
      (dir : PathBuf) (shared : List (Text × String))
      → All (IsListed dir) shared
      → (changed : Bool) (d : Disk) → Kept d (js_shared_loop self dir changed shared d).1
  unfolding js_shared_loop
  js_shared_loop-Kept dir [] listed changed d = Kept-refl d
  js_shared_loop-Kept dir ((name, source) ∷ shared) listed changed d =
      settle-Kept dir name source listed.0 bridge_file
        (λ stale. js_shared_loop self dir (changed || stale) shared)
        (λ stale. js_shared_loop-Kept dir shared listed.1 (changed || stale)) d d (Kept-refl d)
