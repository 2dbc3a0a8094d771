-- ===== src/Tests/Closing.antt =====
-- src/session/close_status.rs at concrete sites.
use agent_debugger.Prelude.{true, false, ◌≡◌, refl, none, some, [], ◌∷◌, ok, err}
use agent_debugger.Json.{num, obj, bool, no_member, member, lookup}
use agent_debugger.Session.Paths.{
  directory, check_name, has_separator, is_normal_component, check_dir_real, real_dir_for_delete,
}
use agent_debugger.Session.Probe.{unclear}
use agent_debugger.Session.Locks.World.{World, LockFile}
use agent_debugger.Session.Locks.Startup.{stale_startup_mtime}
use agent_debugger.Session.Close.{
  Site, is_starting, startup_close_gate, remove_dir_after_foreign_probe, remove_unpublished_dir,
  acked, finish, await_exit, close_port, close_session, gated, close_in,
}
use agent_debugger.Session.Close.Matrix.{MayDelete, close-MayDelete}
use agent_debugger.Session.Close.Answer.{IsHonest, close-IsHonest, close-starting}

abbrev unlocked : World
unlocked = record { slot = none; quarantine = none; events = []; clock = 1000 }

-- a published session whose bridge acknowledges the close and dies at the second look
abbrev dying : Site
dying = record {
  metadata = directory;
  published_at_gate = true;
  lock = unlocked;
  session_file = ok (obj (member "port" (num 5678) no_member));
  reply = ok (obj (member "ok" (bool true) no_member));
  probe = unclear;
  deaths = false ∷ true ∷ [];
  still_there = true;
  published = true;
  starter = false;
  published_again = true;
  delete_metadata = directory;
  removes = true;
}

close-MayDelete_example :
    MayDelete dying
    × (dying.delete_metadata ≡ directory)
    × ((startup_close_gate dying.published_at_gate dying.lock).0 ≡ ok tt)
unfolding close_in gated close_session close_port await_exit finish remove_unpublished_dir
    remove_dir_after_foreign_probe acked startup_close_gate check_name has_separator
    is_normal_component check_dir_real real_dir_for_delete lookup
close-MayDelete_example = close-MayDelete dying "demo" refl

close-IsHonest_example : IsHonest dying "demo" (close_in dying "demo").0
close-IsHonest_example = close-IsHonest dying "demo"

abbrev young_lock : LockFile
young_lock = record { bytes = "theirs"; modified = 900 }

abbrev starting : Site
starting = record dying {
  published_at_gate = false;
  lock = record unlocked { slot = some young_lock };
}

close-starting_example :
    ((close_in starting "demo").0 ≡ (err is_starting, false))
    × ((close_in starting "demo").1.slot ≡ some young_lock)
unfolding stale_startup_mtime check_name has_separator is_normal_component check_dir_real
close-starting_example =
    close-starting starting "demo" young_lock (record { slot = refl; ahead = tt; fresh = refl })
      refl refl refl
