-- ===== src/Session/Locks/Startup.antt =====
-- The startup lock of src/session/locks.rs: claimed by `create_new`, stolen only when stale.
use agent_debugger.Prelude.{
  ℕ, ◌-◌, String, Bool, false, ◌&&◌, ◌=ˢ◌, leb, Result, ok, err, if◌then◌else◌,
}
use agent_debugger.Session.Locks.World.{
  World, Io, got, not_found, already_exists, write_failed, io_error, present, vanished, unreadable,
  create_new, read_path, remove_path, read_lock_bytes, lock_mtime,
}
use agent_debugger.Session.Locks.Quarantine.{quarantine_verified}

pub data StartError : Type 0 where
  cannot_create cannot_write is_starting : StartError

-- A guard is the nonce that it has written.
abbrev pub Guard : Type 0
Guard = String

abbrev pub startup_lock_stale : ℕ
startup_lock_stale = 300

-- an mtime in the future is not stale
unfoldable pub stale_startup_mtime : ℕ → ℕ → Bool
stale_startup_mtime mtime now = leb mtime now && leb startup_lock_stale (now - mtime)

abbrev claimed : StartError → String → Io (Unit {0}) × World → Result StartError Guard × World
claimed otherwise nonce (got _, w) = (ok nonce, w)
claimed otherwise nonce (write_failed, w) = (err cannot_write, w)
claimed otherwise nonce (_, w) = (err otherwise, w)

-- one claim of a path that should be free now; any failure reads as a live start
unfoldable pub claim_stale_startup_lock : String → World → Result StartError Guard × World
unfolding create_new
claim_stale_startup_lock nonce w = claimed is_starting nonce (create_new nonce w)

-- the record and its mtime are read; steal what is provably stale
unfoldable pub steal_startup_lock : String → World → Result StartError Guard × World
unfolding stale_startup_mtime claim_stale_startup_lock
steal_startup_lock nonce w =
    let (s, w') = read_lock_bytes w in
    elim s [
      | vanished ↦ claim_stale_startup_lock nonce w'
      | unreadable ↦ (err is_starting, w')
      | present raw ↦
          let (t, w'') = lock_mtime w' in
          elim t [
            | vanished ↦ claim_stale_startup_lock nonce w''
            | unreadable ↦ (err is_starting, w'')
            | present mtime ↦
                if stale_startup_mtime mtime w''.clock
                then (let (detached, w3) = quarantine_verified raw w'' in
                    if detached then claim_stale_startup_lock nonce w3 else (err is_starting, w3))
                else (err is_starting, w'')
          ]
    ]

-- `nonce` is tried first, and `nonce'` in place of a stale record
unfoldable pub acquire_startup_lock : String → String → World → Result StartError Guard × World
unfolding create_new steal_startup_lock
acquire_startup_lock nonce nonce' w =
    let (r, w') = create_new nonce w in
    elim r [
      | got _ ↦ (ok nonce, w')
      | write_failed ↦ (err cannot_write, w')
      | already_exists ↦ steal_startup_lock nonce' w'
      | not_found ↦ (err cannot_create, w')
      | io_error ↦ (err cannot_create, w')
    ]

unfoldable pub startup_lock_is_mine : Guard → World → Bool × World
unfolding read_path
startup_lock_is_mine nonce w =
    let (r, w') = read_path w in (elim r [ got bytes ↦ bytes =ˢ nonce | _ ↦ false ], w')

unfoldable pub release_startup_lock : Guard → World → World
unfolding startup_lock_is_mine remove_path
release_startup_lock nonce w =
    let (mine, w') = startup_lock_is_mine nonce w in if mine then remove_path w' else w'
