-- ===== src/Provision/Disk.antt =====
-- The file system as src/bridge.rs sees it under a provisioning lock, and its calls. A path is the
-- list of its components, the leaf first; links among the ancestors of a path are not followed.
pub mod Laws
use agent_debugger.Prelude.{
  ℕ, String, Bool, true, false, ◌&&◌, List, [], ◌∷◌, ◌==◌, Result, ok, err, if◌then◌else◌,
}

abbrev pub Text : Type 0
Text = List ℕ

abbrev pub PathBuf : Type 0
PathBuf = List Text

abbrev pub join : PathBuf → Text → PathBuf
join p name = name ∷ p

unfoldable pub same_text : Text → Text → Bool
same_text [] [] = true
same_text (a ∷ s) (b ∷ t) = a == b && same_text s t
same_text _ _ = false

unfoldable pub same_path : PathBuf → PathBuf → Bool
unfolding same_text
same_path [] [] = true
same_path (a ∷ p) (b ∷ q) = same_text a b && same_path p q
same_path _ _ = false

-- where a symbolic link leads
pub data LinkTarget : Type 0 where
  to_file : String → LinkTarget
  to_directory : LinkTarget
  to_nothing : LinkTarget

pub data Node : Type 0 where
  absent : Node
  unstatable : Node  -- `symlink_metadata` fails, and not with `NotFound`
  symlink : LinkTarget → Node
  directory : Node
  file : String → Node
  special : Node

abbrev pub Tree : Type 0
Tree = PathBuf → Node

abbrev pub set : PathBuf → Node → Tree → Tree
set p n t q = if same_path q p then n else t q

-- How a call that writes goes; a failed write of a file leaves a part of the bytes behind.
pub data CallOutcome : Type 0 where
  goes_well : CallOutcome
  fails : (left : String) → CallOutcome

pub record Disk : Type 0 where
  pub tree : Tree
  pub outcomes : List CallOutcome  -- of the calls to come; all others go well
  pub counter : ℕ  -- `CTR` of `provision_tmp_name`
  pub calls : ℕ  -- processes that were run so far
  pub held : List PathBuf  -- the lock files that a guard of ours keeps locked

-- what stands in the message of a guard
pub data What : Type 0 where
  provisioning_lock provisioning_dir adapter_dir_path bridge_dir bridge_file : What

pub data ProvisionError : Type 0 where
  must_not_be_symlink : What → PathBuf → ProvisionError
  cannot_stat : What → PathBuf → ProvisionError
  must_be_directory : What → PathBuf → ProvisionError
  must_be_regular : What → PathBuf → ProvisionError
  cannot_create : PathBuf → ProvisionError
  cannot_write : PathBuf → ProvisionError
  cannot_open : PathBuf → ProvisionError
  cannot_lock : PathBuf → ProvisionError
  in_progress : ProvisionError
  no_round_left : ProvisionError  -- never comes: the fuel of the wait loop is enough
  home_unset : ProvisionError
  not_started : Text → ProvisionError  -- the program is missing, cannot be waited for or is late
  unsuccessful : Text → ProvisionError
  no_launcher : ProvisionError

abbrev pub Action : Type 0 → Type 0
Action A = Disk → Result ProvisionError A × Disk

abbrev pub pure : {A : Type 0} → A → Action A
pure a d = (ok a, d)

abbrev pub bail : {A : Type 0} → ProvisionError → Action A
bail e d = (err e, d)

infixl 5 ◌>>=◌ ◌>>◌
abbrev pub ◌>>=◌ : {A B : Type 0} → Action A → (A → Action B) → Action B
◌>>=◌ m f d = let (r, d') = m d in elim r [ ok a ↦ f a d' | err e ↦ (err e, d') ]

abbrev pub ◌>>◌ : {A B : Type 0} → Action A → Action B → Action B
m >> k = m >>= λ _. k

abbrev pub next_outcome : Disk → List CallOutcome → CallOutcome × Disk
next_outcome d [] = (goes_well, d)
next_outcome d (o ∷ os) = (o, record d { outcomes = os })

unfoldable pub draw : Disk → CallOutcome × Disk
draw d = next_outcome d d.outcomes

abbrev pub put : PathBuf → Node → Disk → Disk
put p n d = record d { tree = set p n d.tree }

abbrev create_file_at : PathBuf → CallOutcome → Node → Action (Unit {0})
create_file_at p goes_well absent d = (ok tt, put p (file "") d)
create_file_at p _ _ d = (err (cannot_write p), d)

-- `OpenOptions::new().write(true).create_new_file(true).open`
unfoldable pub create_new_file : PathBuf → Action (Unit {0})
unfolding draw
create_new_file p d = let (o, d') = draw d in create_file_at p o (d'.tree p) d'

abbrev write_all_at : PathBuf → String → CallOutcome → Action (Unit {0})
write_all_at p source goes_well d = (ok tt, put p (file source) d)
write_all_at p source (fails left) d = (err (cannot_write p), put p (file left) d)

-- `write_all` into the file that was just created
unfoldable pub write_all : PathBuf → String → Action (Unit {0})
unfolding draw
write_all p source d = let (o, d') = draw d in write_all_at p source o d'

abbrev sync_at : PathBuf → CallOutcome → Action (Unit {0})
sync_at p goes_well = pure tt
sync_at p (fails _) = bail (cannot_write p)

unfoldable pub sync_all : PathBuf → Action (Unit {0})
unfolding draw
sync_all p d = let (o, d') = draw d in sync_at p o d'

-- a file does not replace a directory
abbrev rename_at : PathBuf → PathBuf → CallOutcome → Node → Action (Unit {0})
rename_at from to goes_well directory d = (err (cannot_write to), d)
rename_at from to goes_well _ d = (ok tt, put from absent (put to (d.tree from) d))
rename_at from to (fails _) _ d = (err (cannot_write to), d)

unfoldable pub rename : PathBuf → PathBuf → Action (Unit {0})
unfolding draw
rename from to d = let (o, d') = draw d in rename_at from to o (d'.tree to) d'

abbrev remove_at : PathBuf → CallOutcome → Node → Disk → Disk
remove_at p goes_well directory d = d
remove_at p goes_well _ d = put p absent d
remove_at p (fails _) _ d = d

-- `fs::remove_file`, its result ignored
unfoldable pub remove_file : PathBuf → Disk → Disk
unfolding draw
remove_file p d = let (o, d') = draw d in remove_at p o (d'.tree p) d'

abbrev mkdir_at : PathBuf → CallOutcome → Action (Unit {0})
mkdir_at p goes_well d = (ok tt, put p directory d)
mkdir_at p (fails _) d = (err (cannot_create p), d)

abbrev pub mkdir : PathBuf → Action (Unit {0})
mkdir p d = let (o, d') = draw d in mkdir_at p o d'

abbrev pub if_missing : PathBuf → Action (Unit {0}) → Node → Action (Unit {0})
if_missing p make absent = make
if_missing p make directory = pure tt
if_missing p make (symlink to_directory) = pure tt
if_missing p make _ = bail (cannot_create p)

-- `fs::create_dir_all`: a missing directory is made after its parents.
unfoldable pub create_dir_all : PathBuf → Action (Unit {0})
unfolding draw
create_dir_all [] d = (ok tt, d)
create_dir_all (name ∷ p) d =
    if_missing (name ∷ p) (create_dir_all p >> mkdir (name ∷ p)) (d.tree (name ∷ p)) d
