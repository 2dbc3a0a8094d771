-- ===== src/Tests/Locking.antt =====
-- src/session/locks.rs at concrete worlds.
use agent_debugger.Prelude.{
  ℕ, String, Bool, true, false, ◌≡◌, ◌≢◌, ◌⊎◌, refl, none, some, [], ◌∷◌, arith, ◌=ˢ◌, ◌==◌, eq_iff,
  if◌then◌else◌, ok, err,
}
use agent_debugger.Json.{Value, num, str, obj, no_member, member, lookup}
use agent_debugger.Json.Serde.{Serde}
use agent_debugger.Session.Locks.World.{
  World, LockFile, read_path, read_modified, read_lock_bytes, lock_mtime, attempt, tick, create_new,
  detach_to_quarantine, Event, calm,
}
use agent_debugger.Session.Locks.Quarantine.{
  put_back, restore_quarantine_bytes, quarantine_verified, reconcile_quarantine, detach_loop,
}
use agent_debugger.Session.Locks.Startup.{
  StartError, stale_startup_mtime, claim_stale_startup_lock, steal_startup_lock,
  acquire_startup_lock,
}
use agent_debugger.Session.Locks.Endpoint.{
  Liveness, alive, dead, holder_pid, lock_snapshot_is_stale, reclaim_stale_lock, held, busy,
  EndpointBusy, ClaimError, Claimant, nonce_is, claim_endpoint, claim_reclaimed, after_reclaim,
  acquire_endpoint_lock, holds_within, still_holds_endpoint,
}
use agent_debugger.Session.Locks.PutBack.{IsRestored, reconcile_fresh-IsRestored}
use agent_debugger.Session.Locks.Guarded.{IsClean, quarantine_verified-IsClean}
use agent_debugger.Session.Locks.Kept.{acquire_startup-kept, acquire_endpoint-kept}
use agent_debugger.Session.Locks.Claims.{
  IsClaimed, acquire_startup-claims, acquire_endpoint-claims, IsOurs, still_holds-IsOurs,
}

abbrev record_of_b : Value
record_of_b = obj (member "nonce" (str "b") (member "pid" (num 7) no_member))

-- "theirs" is a record of the dead process 7
abbrev records : Serde
records = record {
  to_vec = λ v. [];
  from_utf8_str = λ bs. none;
  to_string = λ v. "ours";
  from_str = λ s.
      if s =ˢ "ours"
      then some record_of_b
      else if s =ˢ "theirs"
      then some (obj (member "pid" (num 7) no_member))
      else none;
}

abbrev holders : ℕ → Liveness
holders pid = if pid == 7 then dead else alive

abbrev file_of : String → ℕ → LockFile
file_of bytes modified = record { bytes = bytes; modified = modified }

-- a record from time 0, looked at from time 1000 on
abbrev stale_world : World
stale_world = record {
  slot = some (file_of "theirs" 0);
  quarantine = none;
  events = [];
  clock = 1000;
}

abbrev disk_fails : ℕ → Event
disk_fails now = record (calm now) { fault = true; write_fault = true }

abbrev rival_lands : ℕ → ℕ → Event
rival_lands modified now = record (calm now) { rivals = λ s. some (file_of "rival" modified) }

-- at the first step a rival replaces the record, and at the second the disk fails
abbrev busy_world : World
busy_world = record {
  slot = some (file_of "theirs" 0);
  quarantine = none;
  events = rival_lands 990 1000 ∷ disk_fails 1001 ∷ [];
  clock = 999;
}

abbrev first : String
first = "a"

abbrev second : String
second = "b"

abbrev our_bytes : String
our_bytes = "ours"

stolen : (acquire_startup_lock "a" "b" stale_world).0 ≡ ok "b"
unfolding acquire_startup_lock steal_startup_lock stale_startup_mtime claim_stale_startup_lock
    create_new read_lock_bytes lock_mtime attempt read_path read_modified quarantine_verified
    detach_to_quarantine detach_loop reconcile_quarantine tick
stolen = refl

acquire_startup-claims_example :
    ((second ≡ first) ⊎ (second ≡ second))
    × IsClaimed "b" (acquire_startup_lock "a" "b" stale_world).1
acquire_startup-claims_example = acquire_startup-claims "a" "b" "b" stale_world tt stolen

abbrev us : Claimant
us = record { session = "demo"; pid = 9; created_at = 1000 }

abbrev everywhere : String → Bool
everywhere session = true

reclaimed :
    (acquire_endpoint_lock records holders everywhere us true "a" "b" stale_world).0 ≡ ok (held "b")
unfolding acquire_endpoint_lock reclaim_stale_lock after_reclaim claim_reclaimed claim_endpoint
    lock_snapshot_is_stale holder_pid create_new read_lock_bytes lock_mtime attempt read_path
    read_modified quarantine_verified detach_to_quarantine detach_loop reconcile_quarantine tick
    lookup
reclaimed = refl

acquire_endpoint-claims_example :
    ((second ≡ first) ⊎ (second ≡ second))
    × IsClaimed "ours"
        (acquire_endpoint_lock records holders everywhere us true "a" "b" stale_world).1
acquire_endpoint-claims_example =
    acquire_endpoint-claims records holders everywhere us true "a" "b" "b" stale_world tt reclaimed

-- the record of "theirs", 5 seconds old
abbrev young_world : World
young_world = record {
  slot = some (file_of "theirs" 995);
  quarantine = none;
  events = disk_fails 1001 ∷ [];
  clock = 1000;
}

acquire_startup-kept_example :
    ((e : StartError) × ((acquire_startup_lock "a" "b" young_world).0 ≡ err e))
    × ((acquire_startup_lock "a" "b" young_world).1.slot ≡ some (file_of "theirs" 995))
unfolding stale_startup_mtime
acquire_startup-kept_example =
    acquire_startup-kept (file_of "theirs" 995) "a" "b" young_world
      (record { slot = refl; ahead = ((refl, refl), tt); fresh = refl })

acquire_endpoint-kept_example :
    (((b : EndpointBusy) × ((acquire_endpoint_lock records holders everywhere us true "a" "b"
            young_world).0
          ≡ ok (busy b)))
      ⊎ ((e : ClaimError) × ((acquire_endpoint_lock records holders everywhere us true "a" "b"
              young_world).0
            ≡ err e)))
    × ((acquire_endpoint_lock records holders everywhere us true "a" "b" young_world).1.slot
        ≡ some (file_of "theirs" 995))
unfolding lock_snapshot_is_stale
acquire_endpoint-kept_example =
    acquire_endpoint-kept records holders (file_of "theirs" 995) everywhere us true "a" "b"
      young_world (record { slot = refl; ahead = ((refl, refl), tt); fresh = refl })

quarantine_verified-IsClean_example : IsClean (quarantine_verified "theirs" busy_world).1
quarantine_verified-IsClean_example =
    quarantine_verified-IsClean "theirs" busy_world refl (refl, (refl, tt))

-- a fresh record has been detached, and a newer claim lands
abbrev detached_world : World
detached_world = record {
  slot = none;
  quarantine = some "fresh";
  events = calm 1000 ∷ rival_lands 1001 1001 ∷ [];
  clock = 1000;
}

fresh_ne_theirs : ◌≢◌ {A = String} "fresh" "theirs"
fresh_ne_theirs = ground (arith, eq_iff "fresh" "theirs")

reconcile_fresh-IsRestored_example :
    ((reconcile_quarantine "theirs" detached_world).0 ≡ false)
    × IsRestored "fresh" detached_world (reconcile_quarantine "theirs" detached_world).1
reconcile_fresh-IsRestored_example =
    reconcile_fresh-IsRestored "theirs" "fresh" detached_world refl fresh_ne_theirs
      ((refl, refl, refl), ((refl, refl, refl), tt))

-- nobody interferes, and the record comes back whole
restored_runs :
    (reconcile_quarantine "theirs" (record detached_world { events = [] })).1.slot
    ≡ some (file_of "fresh" 1000)
unfolding reconcile_quarantine put_back restore_quarantine_bytes create_new tick
restored_runs = refl

abbrev own_world : World
own_world = record {
  slot = some (file_of "ours" 1000);
  quarantine = none;
  events = [];
  clock = 1000;
}

still_holds-IsOurs_example : IsOurs records "b" (still_holds_endpoint records "b" own_world).1
unfolding nonce_is still_holds_endpoint holds_within read_path tick lookup
still_holds-IsOurs_example = still_holds-IsOurs records "b" own_world refl
