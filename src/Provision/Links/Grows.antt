-- ===== src/Provision/Links/Grows.antt =====
-- Making directories fills paths that were free, and changes no other.
use agent_debugger.Prelude.{
  Bool, ◌≡◌, ◌⊎◌, refl, sym, subst, some, none, Option, List, [], ◌∷◌, arith, Bool-cases, inl, inr,
  ok, err, Result,
}
use agent_debugger.Provision.Disk.{
  PathBuf, Node, absent, unstatable, symlink, to_file, to_directory, to_nothing, directory, file,
  special, ProvisionError, Disk, What, Action, ◌>>◌, same_path, mkdir, if_missing, create_dir_all,
  provisioning_dir,
}
use agent_debugger.Provision.Disk.Laws.{same_path-eq, draw-tree}
use agent_debugger.Provision.Links.{
  check_provision_path, refuse_chain, no_home, refuse_provision_link, refuse_links, below, chain,
  ensure_real_dir_all, ensure_provision_dir,
}

abbrev pub Grows : Disk → Disk → Type 0
Grows d d' =
    (q : PathBuf) → (d'.tree q ≡ d.tree q) ⊎ ((d.tree q ≡ absent) × (d'.tree q ≡ directory))

Grows-refl : (d : Disk) → Grows d d
Grows-refl d q = inl refl

mkdir-Grows : (p : PathBuf) (d d' : Disk) → d.tree p ≡ absent → Grows d d' → Grows d (mkdir p d').1
mkdir-Grows p d d' free grows q = elim (Bool-cases (same_path q p)) [
  | inl same ↦ grind (arith, draw-tree d', same_path-eq q p same, grows q)
  | inr other ↦ grind (arith, draw-tree d', grows q)
]

make-Grows :
    (p : PathBuf) (d : Disk) (x : Result ProvisionError (Unit {0}) × Disk)
    → d.tree p ≡ absent
    → Grows d x.1
    → Grows d (((λ _. x) >> mkdir p) d).1
make-Grows p d (ok done, d') free grows = mkdir-Grows p d d' free grows
make-Grows p d (err e, d') free grows = grows

if_missing-Grows :
    (p : PathBuf) (d : Disk) (make : Action (Unit {0})) (n : Node)
    → (n ≡ absent → Grows d (make d).1)
    → Grows d (if_missing p make n d).1
if_missing-Grows p d make absent grows = grows refl
if_missing-Grows p d make unstatable grows = Grows-refl d
if_missing-Grows p d make (symlink (to_file _)) grows = Grows-refl d
if_missing-Grows p d make (symlink to_directory) grows = Grows-refl d
if_missing-Grows p d make (symlink to_nothing) grows = Grows-refl d
if_missing-Grows p d make directory grows = Grows-refl d
if_missing-Grows p d make (file _) grows = Grows-refl d
if_missing-Grows p d make special grows = Grows-refl d

create_dir_all-Grows : (p : PathBuf) (d : Disk) → Grows d (create_dir_all p d).1
unfolding create_dir_all
create_dir_all-Grows [] d = Grows-refl d
create_dir_all-Grows (name ∷ p) d =
    if_missing-Grows (name ∷ p) d (create_dir_all p >> mkdir (name ∷ p)) (d.tree (name ∷ p))
      λ free. make-Grows (name ∷ p) d (create_dir_all p d) free (create_dir_all-Grows p d)

pub refuse_link-disk :
    (p : PathBuf) (what : What) (d : Disk) → (refuse_provision_link p what d).1 ≡ d
unfolding refuse_provision_link
refuse_link-disk p what d = grind arith

refuse_links-disk : (ps : List PathBuf) (d : Disk) → (refuse_links ps d).1 ≡ d
unfolding refuse_links
refuse_links-disk [] d = refl
refuse_links-disk (p ∷ ps) d =
    grind (arith, refuse_link-disk p provisioning_dir d, refuse_links-disk ps d)

refuse_chain-disk :
    (dir : PathBuf) (managed : Option (List PathBuf)) (d : Disk)
    → (refuse_chain dir managed d).1 ≡ d
refuse_chain-disk dir none d = refuse_link-disk dir provisioning_dir d
refuse_chain-disk dir (some managed) d = refuse_links-disk managed d

after-Grows :
    (d : Disk) (x : Result ProvisionError (Unit {0}) × Disk) (k : Action (Unit {0}))
    → x.1 ≡ d
    → ((d' : Disk) → Grows d' (k d').1)
    → Grows d (((λ _. x) >> k) d).1
after-Grows d (ok done, d') k same grows = subst (λ e. Grows e (k d').1) same (grows d')
after-Grows d (err e, d') k same grows = subst (λ e. Grows d e) (sym same) (Grows-refl d)

ensure_real_dir_all-Grows :
    (anchor dir : PathBuf) (d : Disk) → Grows d (ensure_real_dir_all anchor dir d).1
unfolding ensure_real_dir_all
ensure_real_dir_all-Grows anchor dir d =
    let managed = below anchor [] (chain anchor dir) in
    after-Grows d (refuse_chain dir managed d) (create_dir_all dir)
      (refuse_chain-disk dir managed d) (create_dir_all-Grows dir)

pub ensure_provision_dir-Grows :
    (home : Option PathBuf) (dir : PathBuf) (d : Disk) → Grows d (ensure_provision_dir home dir d).1
unfolding ensure_provision_dir
ensure_provision_dir-Grows none dir d = ensure_real_dir_all-Grows no_home dir d
ensure_provision_dir-Grows (some home) dir d = ensure_real_dir_all-Grows home dir d

pub check_path-disk :
    (p : PathBuf) (want_dir : Bool) (what : What) (d : Disk)
    → (check_provision_path p want_dir what d).1 ≡ d
unfolding check_provision_path
check_path-disk p want_dir what d = grind (arith, refuse_link-disk p what d)
