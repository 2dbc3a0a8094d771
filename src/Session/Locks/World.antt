-- ===== src/Session/Locks/World.antt =====
-- One lock path as the file system shows it to src/session/locks.rs while rivals work on it too.
-- Before each call of ours the rivals do to the path whatever the next event says; the call may
-- then fail. Rivals may also take a lock file away between its creation and the writing of its record.
use agent_debugger.Prelude.{
  ℕ, zero, suc, String, Bool, true, false, Option, none, some, List, [], ◌∷◌, if◌then◌else◌,
}

pub record LockFile : Type 0 where
  pub bytes : String
  pub modified : ℕ

pub record Event : Type 0 where
  pub rivals : Option LockFile → Option LockFile
  pub fault : Bool
  pub taken_away : Option (Option LockFile)  -- what the path shows once a file just created is gone
  pub write_fault : Bool  -- the record is not written
  pub torn : String  -- what a failed write leaves in the file
  pub remove_fault : Bool  -- our clean-up of the file just created, or of the temporary file, fails
  pub now : ℕ

pub record World : Type 0 where
  pub slot : Option LockFile  -- the lock path
  pub quarantine : Option String  -- our own temporary file
  pub events : List Event
  pub clock : ℕ

pub data Io {ℓ} (A : Type ℓ) : Type ℓ where
  got : A → Io A
  not_found : Io A
  already_exists : Io A
  write_failed : Io A
  io_error : Io A

-- When no event is left, nobody interferes and nothing fails.
abbrev pub calm : ℕ → Event
calm now = record {
  rivals = λ s. s;
  fault = false;
  taken_away = none;
  write_fault = false;
  torn = "";
  remove_fault = false;
  now = now;
}

abbrev pub next_event : World → List Event → Event × World
next_event w [] = (calm w.clock, w)
next_event w (e ∷ es) = (e, record w { slot = e.rivals w.slot; events = es; clock = e.now })

-- the next event, and the world as the rivals leave it
unfoldable pub tick : World → Event × World
tick w = next_event w w.events

abbrev pub look {ℓ} : {A : Type ℓ} → Bool → (LockFile → A) → Option LockFile → Io A
look true f s = io_error
look false f none = not_found
look false f (some file) = got (f file)

-- `fs::read_to_string` of the lock path
unfoldable pub read_path : World → Io String × World
unfolding tick
read_path w = let (e, w') = tick w in (look e.fault (λ file. file.bytes) w'.slot, w')

-- `fs::metadata`, then `modified`
unfoldable pub read_modified : World → Io ℕ × World
unfolding tick
read_modified w = let (e, w') = tick w in (look e.fault (λ file. file.modified) w'.slot, w')

abbrev unwrap_slot : Option (Option LockFile) → Option LockFile → Option LockFile
unwrap_slot none ours = ours
unwrap_slot (some theirs) ours = theirs

-- `write_lock_record`: the handle writes into the file it has opened, wherever that is by now; after
-- a failed write whatever is at the path is removed
abbrev pub write_record : Event → String → World → Option (Option LockFile) → Io (Unit {0}) × World
write_record e bytes w moved =
    let here : String → Option LockFile =
      λ text. unwrap_slot moved (some (record { bytes = text; modified = e.now })) in
    if e.write_fault
    then (write_failed, record w { slot = if e.remove_fault then here e.torn else none })
    else (got tt, record w { slot = here bytes })

-- `create_new`, then the record
abbrev pub create_at : Event → String → World → Option LockFile → Io (Unit {0}) × World
create_at e bytes w (some file) = (already_exists, w)
create_at e bytes w none = write_record e bytes w e.taken_away

unfoldable pub create_new : String → World → Io (Unit {0}) × World
unfolding tick
create_new bytes w =
    let (e, w') = tick w in if e.fault then (io_error, w') else create_at e bytes w' w'.slot

abbrev pub detach_at : World → Option LockFile → Io (Unit {0}) × World
detach_at w none = (not_found, w)
detach_at w (some file) = (got tt, record w { slot = none; quarantine = some file.bytes })

-- `fs::remove_file` of the lock path, its result ignored
unfoldable pub remove_path : World → World
unfolding tick
remove_path w = let (e, w') = tick w in if e.fault then w' else record w' { slot = none }

-- `detach_to_quarantine`: one atomic rename to a name that nobody else uses
unfoldable pub detach_to_quarantine : World → Io (Unit {0}) × World
unfolding tick
detach_to_quarantine w =
    let (e, w') = tick w in if e.fault then (io_error, w') else detach_at w' w'.slot

-- `fs::remove_file` of our temporary file, its result ignored
abbrev pub drop_quarantine : Event → World → World
drop_quarantine e w = if e.remove_fault then w else record w { quarantine = none }

-- What up to three attempts make of a read.
pub data Snapshot {ℓ} (A : Type ℓ) : Type ℓ where
  present : A → Snapshot A
  vanished : Snapshot A
  unreadable : Snapshot A

abbrev pub attempts_max : ℕ
attempts_max = 3

unfoldable pub attempt {ℓ} : {A : Type ℓ} → (World → Io A × World) → ℕ → World → Snapshot A × World
attempt op zero w = (unreadable, w)
attempt op (suc n) w =
    let (r, w') = op w in
    elim r [
      | got a ↦ (present a, w')
      | not_found ↦ (vanished, w')
      | already_exists ↦ attempt op n w'
      | write_failed ↦ attempt op n w'
      | io_error ↦ attempt op n w'
    ]

unfoldable pub read_lock_bytes : World → Snapshot String × World
unfolding attempt read_path
read_lock_bytes w = attempt read_path attempts_max w

unfoldable pub lock_mtime : World → Snapshot ℕ × World
unfolding attempt read_modified
lock_mtime w = attempt read_modified attempts_max w
