-- ===== src/Session/Breaks/Lock.antt =====
-- `acquire_breaks_lock` of src/session/breaks.rs: the kernel lock around each rewrite of stops.json.
use agent_debugger.Prelude.{
  Bool, true, false, Option, none, some, List, [], ◌∷◌, Result, ok, err, ◌>>◌, guard,
}
use agent_debugger.Session.Error.{
  Error, file_is_symlink, file_not_regular, cannot_stat, lock_unopenable, lock_held_by_live_writer,
  lock_failed,
}
use agent_debugger.Session.Paths.{
  Metadata, symlink, directory, regular, other, not_found, stat_failed,
}

-- One `try_lock`: taken, held by another with the deadline past or not, or failed.
pub data TryLock : Type 0 where
  taken : TryLock
  would_block : (expired : Bool) → TryLock
  lock_error : TryLock

-- What the file system answers: the lock file's metadata, whether it opens, whether the opened
-- handle is a regular file, and each poll.
pub record LockFile : Type 0 where
  pub metadata : Metadata
  pub opens : Bool
  pub handle_is_file : Bool
  pub polls : List TryLock

unfoldable pub check_lock_file : Metadata → Result Error (Unit {0})
check_lock_file symlink = err file_is_symlink
check_lock_file directory = err file_not_regular
check_lock_file other = err file_not_regular
check_lock_file regular = ok tt
check_lock_file not_found = ok tt
check_lock_file stat_failed = err cannot_stat

-- `none` when the given polls are used up and the loop still waits.
unfoldable pub poll_lock : List TryLock → Option (Result Error (Unit {0}))
poll_lock [] = none
poll_lock (taken ∷ polls) = some (ok tt)
poll_lock (would_block true ∷ polls) = some (err lock_held_by_live_writer)
poll_lock (would_block false ∷ polls) = poll_lock polls
poll_lock (lock_error ∷ polls) = some (err lock_failed)

abbrev lift_wait :
    Result Error (Unit {0}) → Option (Result Error (Unit {0})) → Option (Result Error (Unit {0}))
lift_wait (err e) rest = some (err e)
lift_wait (ok _) rest = rest

unfoldable pub acquire_breaks_lock : LockFile → Option (Result Error (Unit {0}))
unfolding check_lock_file poll_lock
acquire_breaks_lock file =
    lift_wait
      (do
        check_lock_file file.metadata
        guard file.opens lock_unopenable
        guard file.handle_is_file file_not_regular)
      (poll_lock file.polls)
