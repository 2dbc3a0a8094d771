-- ===== src/Session/Spawn/Start.antt =====
-- `spawn_in` of src/session/spawn_lifecycle.rs up to its wait loop: the locks, the scans and the
-- re-checks, in their order. Every look is a field of its own.
pub mod Exclusive
use agent_debugger.Prelude.{
  ℕ, String, Bool, true, false, not, ◌&&◌, Option, none, some, List, [], ◌∷◌, Result, ok, err,
  if◌then◌else◌,
}
use agent_debugger.Json.{Value, unwrap_or}
use agent_debugger.Json.Serde.{Serde}
use agent_debugger.Session.Error.{Error}
use agent_debugger.Session.Paths.{Metadata, Dir, check_name, check_dir_real, real_dir_for_delete}
use agent_debugger.Session.Paths.Hosts.{IpAddr}
use agent_debugger.Session.Sidecar.{cli_markers_v2}
use agent_debugger.Session.Attach.{
  SpawnSpec, AttachError, attach_endpoint, Entry, legacy_proven_dead, find_live_endpoint_owner_in,
  find_live_legacy_sessions_in,
}
use agent_debugger.Session.Locks.World.{World, read_path}
use agent_debugger.Session.Locks.Startup.{StartError, acquire_startup_lock}
use agent_debugger.Session.Locks.Endpoint.{
  Liveness, EndpointClaim, held, busy, ClaimError, Claimant, acquire_endpoint_lock,
  still_holds_endpoint, release_endpoint_lock, endpoint_lock_session_name,
}
use agent_debugger.Session.Spawn.Wait.{Round, SpawnError, Ending, wait_loop}

pub data StartFailure : Type 0 where
  timeout_too_large cannot_create_root : StartFailure
  refused : Error → StartFailure
  startup : StartError → StartFailure
  already_exists unsupported_session : StartFailure
  bad_address : AttachError → StartFailure
  no_locks_dir : StartFailure
  endpoint_lock_failed : ClaimError → StartFailure
  endpoint_owned : String → (in_progress : Bool) → StartFailure
  legacy_live : List String → StartFailure
  cannot_clear cannot_create_dir : StartFailure
  setup_failed : Error → StartFailure
  ended : SpawnError → StartFailure

-- What a start sees, in the order in which it looks.
pub record Start : Type 0 where
  pub deadline_fits : Bool
  pub metadata : Metadata  -- of the session directory
  pub root_made : Bool
  pub startup_lock : World
  pub published : Bool  -- session.json exists
  pub dir : Dir
  pub connects : Bool × Bool  -- to the daemon of that directory
  pub listener_before : Option Bool
  pub locks_dir : Bool  -- the locks directory has a path
  pub locks_dir_made : Bool
  pub endpoint_lock : World
  pub published_sessions : String → Bool
  pub entries : List Entry  -- of the sessions root
  pub delete_metadata : Metadata
  pub clears : Bool
  pub creates : Bool
  pub set_up : Result Error (Unit {0})  -- `setup_bridge`
  pub rounds : List Round

-- What a start has done: was the removal of a leftover directory called, did a bridge start, and were
-- `reap_child` and the removal of the new directory called.
pub record Done : Type 0 where
  pub result : Result StartFailure Value
  pub cleared : Bool
  pub spawned : Bool
  pub reaps : Bool
  pub deletes : Bool

unfoldable pub refuse : StartFailure → Done
refuse e = record {
  result = err e;
  cleared = false;
  spawned = false;
  reaps = false;
  deletes = false;
}

-- The endpoint's guard, if the start attaches to one, and the lock as the preflight leaves it.
abbrev pub Preflight : Type 0
Preflight = Result StartFailure (Option String) × World

module _ (serde : Serde) (parse_ip : List ℕ → Option IpAddr) (holder : ℕ → Liveness) (now : ℕ)
    (name : String) (spec : SpawnSpec) (stops : Value) (claimant : Claimant)
    (nonces : String × String × String × String) (start : Start) where
  -- the lock was lost to the session that it names now
  unfoldable pub lost_endpoint : String → World → Preflight
  unfolding release_endpoint_lock endpoint_lock_session_name
  lost_endpoint g w =
      let (r, w') = read_path w in
      let owner = unwrap_or (endpoint_lock_session_name serde r) "another session" in
      (
        err (endpoint_owned owner (not (start.published_sessions owner))),
        release_endpoint_lock serde g w',
      )

  unfoldable pub recheck : String → Bool × World → Preflight
  unfolding lost_endpoint
  recheck g (true, w) = (ok (some g), w)
  recheck g (false, w) = lost_endpoint g w

  unfoldable pub no_legacy : String → World → List String → Preflight
  unfolding recheck still_holds_endpoint release_endpoint_lock
  no_legacy g w [] = recheck g (still_holds_endpoint serde g w)
  no_legacy g w (n ∷ ns) = (err (legacy_live (n ∷ ns)), release_endpoint_lock serde g w)

  unfoldable pub no_owner : String → World → Option String → Preflight
  unfolding no_legacy find_live_legacy_sessions_in release_endpoint_lock
  no_owner g w (some owner) = (err (endpoint_owned owner false), release_endpoint_lock serde g w)
  no_owner g w none = no_legacy g w (find_live_legacy_sessions_in serde now name start.entries)

  unfoldable pub claimed_endpoint : String → ℕ → Result ClaimError EndpointClaim × World → Preflight
  unfolding no_owner find_live_endpoint_owner_in
  claimed_endpoint host port (err e, w) = (err (endpoint_lock_failed e), w)
  claimed_endpoint host port (ok (busy b), w) =
      (err (endpoint_owned b.session (not b.published)), w)
  claimed_endpoint host port (ok (held g), w) =
      no_owner g w (find_live_endpoint_owner_in serde parse_ip now name host port start.entries)

  abbrev pub claim : Result ClaimError EndpointClaim × World
  claim =
      acquire_endpoint_lock serde holder start.published_sessions claimant start.locks_dir_made
        nonces.2 nonces.3 start.endpoint_lock

  unfoldable pub preflight : Result AttachError (Option (String × ℕ)) → Preflight
  unfolding claimed_endpoint
  preflight (err e) = (err (bad_address e), start.endpoint_lock)
  preflight (ok none) = (ok none, start.endpoint_lock)
  preflight (ok (some (host, port))) =
      if start.locks_dir
      then claimed_endpoint host port claim
      else (err no_locks_dir, start.endpoint_lock)

  -- the wait loop's ending, after a setup that started a bridge
  unfoldable pub waited : Bool → Ending → Done
  waited cleared ending = record {
    result = elim ending.result [ ok v ↦ ok v | err e ↦ err (ended e) ];
    cleared = cleared;
    spawned = true;
    reaps = ending.reaps;
    deletes = ending.deletes;
  }

  abbrev then_waited : Bool → Option Ending → Option Done
  then_waited cleared none = none
  then_waited cleared (some ending) = some (waited cleared ending)

  unfoldable pub launch : Bool → Option (String × ℕ) → Option Done
  unfolding refuse waited wait_loop
  launch cleared endpoint =
      if start.creates
      then elim start.set_up [
        | err e ↦ some (record (refuse (setup_failed e)) { cleared = cleared; deletes = true })
        | ok _ ↦
            then_waited cleared
              (wait_loop endpoint start.listener_before stops spec.requested start.rounds)
      ]
      else some (record (refuse cannot_create_dir) { cleared = cleared })

  unfoldable pub clear_stale : Option (String × ℕ) → Option Done
  unfolding launch real_dir_for_delete
  clear_stale endpoint = elim (real_dir_for_delete start.delete_metadata) [
    | err e ↦ some (refuse (refused e))
    | ok false ↦ launch false endpoint
    | ok true ↦
        if start.clears
        then launch true endpoint
        else some (record (refuse cannot_clear) { cleared = true })
  ]

  abbrev pub endpoint_of : Result AttachError (Option (String × ℕ)) → Option (String × ℕ)
  endpoint_of (ok endpoint) = endpoint
  endpoint_of (err _) = none

  unfoldable pub after_preflight : Preflight → Option Done
  unfolding clear_stale
  after_preflight (err e, w) = some (refuse e)
  after_preflight (ok _, w) = clear_stale (endpoint_of (attach_endpoint spec))

  -- under the startup lock
  unfoldable pub guarded : Option Done
  unfolding after_preflight preflight attach_endpoint legacy_proven_dead
  guarded =
      let go = after_preflight (preflight (attach_endpoint spec)) in
      if start.published && cli_markers_v2 serde start.dir
      then some (refuse already_exists)
      else if start.published && not (legacy_proven_dead serde now start.dir start.connects)
      then some (refuse unsupported_session)
      else go

  unfoldable pub with_startup : Result StartError String → Option Done
  unfolding guarded
  with_startup (err e) = some (refuse (startup e))
  with_startup (ok _) = guarded

  unfoldable pub with_root : Bool → Option Done
  unfolding with_startup acquire_startup_lock
  with_root true = with_startup (acquire_startup_lock nonces.0 nonces.1 start.startup_lock).0
  with_root false = some (refuse cannot_create_root)

  unfoldable pub with_dir : Result Error (Unit {0}) → Option Done
  unfolding with_root
  with_dir (err e) = some (refuse (refused e))
  with_dir (ok _) = with_root start.root_made

  unfoldable pub with_name : Result Error (Unit {0}) → Option Done
  unfolding with_dir check_dir_real
  with_name (err e) = some (refuse (refused e))
  with_name (ok _) = with_dir (check_dir_real start.metadata)

  unfoldable pub spawn_in : Option Done
  unfolding with_name check_name
  spawn_in =
      let named = with_name (check_name name) in
      if start.deadline_fits then named else some (refuse timeout_too_large)
