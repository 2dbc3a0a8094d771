-- ===== src/Session/Locks/Endpoint.antt =====
-- The endpoint lock of src/session/locks.rs: a JSON record with the holder's pid and nonce.
use agent_debugger.Prelude.{
  ℕ, zero, suc, ◌-◌, String, Bool, true, false, Option, none, some, ◌=ˢ◌, leb, ltb, Result, ok, err,
  if◌then◌else◌,
}
use agent_debugger.Json.{
  Value, num, str, obj, member, no_member, get, get_str, as_u64, and_then, unwrap_or,
}
use agent_debugger.Json.Serde.{Serde}
use agent_debugger.Session.Locks.World.{
  World, Io, got, not_found, already_exists, write_failed, io_error, present, vanished, unreadable,
  create_new, read_path, remove_path, read_lock_bytes, lock_mtime,
}
use agent_debugger.Session.Locks.Quarantine.{quarantine_verified}

abbrev pub endpoint_lock_stale : ℕ
endpoint_lock_stale = 7200

abbrev pub endpoint_lock_grace : ℕ
endpoint_lock_grace = 10

pub data Liveness : Type 0 where
  alive dead unknown : Liveness

abbrev to_u32 : ℕ → Option ℕ
to_u32 p = if leb p 4294967295 then some p else none

abbrev pub is_dead : (ℕ → Liveness) → Option ℕ → Bool
is_dead holder none = false
is_dead holder (some pid) = elim (holder pid) [ dead ↦ true | _ ↦ false ]

-- What a claim writes, and how a record is read back. `holder` is the liveness probe of a pid.
module _ (serde : Serde) (holder : ℕ → Liveness) where
  unfoldable pub holder_pid : String → Option ℕ
  holder_pid raw = and_then (and_then (and_then (serde.from_str raw) (get "pid")) as_u64) to_u32

  -- a future mtime is not stale; the age decides from two hours on, the pid from ten seconds on
  unfoldable pub lock_snapshot_is_stale : String → ℕ → ℕ → Bool
  unfolding holder_pid
  lock_snapshot_is_stale raw mtime now =
      let age = now - mtime in
      if ltb now mtime
      then false
      else if leb endpoint_lock_stale age
      then true
      else if ltb age endpoint_lock_grace
      then false
      else is_dead holder (holder_pid raw)

  -- true when no stale record remains at the path
  unfoldable pub reclaim_stale_lock : World → Bool × World
  unfolding lock_snapshot_is_stale
  reclaim_stale_lock w =
      let (s, w') = read_lock_bytes w in
      elim s [
        | vanished ↦ (true, w')
        | unreadable ↦ (false, w')
        | present raw ↦
            let (t, w'') = lock_mtime w' in
            elim t [
              | vanished ↦ (true, w'')
              | unreadable ↦ (false, w'')
              | present mtime ↦
                  if lock_snapshot_is_stale raw mtime w''.clock
                  then quarantine_verified raw w''
                  else (false, w'')
            ]
      ]

pub record EndpointBusy : Type 0 where
  pub session : String
  pub published : Bool

pub data EndpointClaim : Type 0 where
  held : String → EndpointClaim  -- the guard's nonce
  busy : EndpointBusy → EndpointClaim

pub data ClaimError : Type 0 where
  cannot_create_locks_dir : ClaimError
  claim_failed : ClaimError
  cannot_write_endpoint_lock : ClaimError

-- the fields of the record that do not depend on the attempt
pub record Claimant : Type 0 where
  pub session : String
  pub pid : ℕ
  pub created_at : ℕ

unfoldable pub claim_record : Claimant → String → Value
claim_record c nonce = obj (
    member "nonce" (str nonce) (
      member "pid" (num c.pid)
        (member "session" (str c.session) (member "createdAt" (num c.created_at) no_member))))

-- `raw`'s `nonce` is ours
unfoldable pub nonce_is : Serde → String → String → Bool
nonce_is serde nonce raw = elim (and_then (serde.from_str raw) (get_str "nonce")) [
  | none ↦ false
  | some n ↦ n =ˢ nonce
]

-- the holder's session, from what the read of the lock path returned
unfoldable pub endpoint_lock_session_name : Serde → Io String → Option String
endpoint_lock_session_name serde (got raw) = and_then (serde.from_str raw) (get_str "session")
endpoint_lock_session_name serde _ = none

module _ (serde : Serde) (holder : ℕ → Liveness) (published : String → Bool) (c : Claimant) where
  unfoldable pub claim_endpoint : String → World → Io (Unit {0}) × World
  claim_endpoint nonce w = create_new (serde.to_string (claim_record c nonce)) w

  unfoldable pub report_busy : World → Result ClaimError EndpointClaim × World
  report_busy w =
      let (r, w') = read_path w in
      let session = unwrap_or (endpoint_lock_session_name serde r) "another session" in
      (ok (busy (record { session = session; published = published session })), w')

  -- the second claim, after a reclaim
  unfoldable pub claim_reclaimed : String → World → Result ClaimError EndpointClaim × World
  unfolding claim_endpoint report_busy
  claim_reclaimed nonce w =
      let (r, w') = claim_endpoint nonce w in
      elim r [
        | got _ ↦ (ok (held nonce), w')
        | already_exists ↦ report_busy w'
        | write_failed ↦ (err cannot_write_endpoint_lock, w')
        | not_found ↦ (err claim_failed, w')
        | io_error ↦ (err claim_failed, w')
      ]

  unfoldable pub after_reclaim : String → Bool × World → Result ClaimError EndpointClaim × World
  unfolding claim_reclaimed
  after_reclaim nonce (true, w) = claim_reclaimed nonce w
  after_reclaim nonce (false, w) = report_busy w

  -- `made` says whether `create_dir_all` of the locks directory succeeds
  unfoldable pub acquire_endpoint_lock :
      Bool → String → String → World → Result ClaimError EndpointClaim × World
  unfolding after_reclaim reclaim_stale_lock
  acquire_endpoint_lock false nonce nonce' w = (err cannot_create_locks_dir, w)
  acquire_endpoint_lock true nonce nonce' w =
      let (r, w') = claim_endpoint nonce w in
      elim r [
        | got _ ↦ (ok (held nonce), w')
        | already_exists ↦ after_reclaim nonce' (reclaim_stale_lock serde holder w')
        | write_failed ↦ (err cannot_write_endpoint_lock, w')
        | not_found ↦ (err claim_failed, w')
        | io_error ↦ (err claim_failed, w')
      ]

unfoldable pub release_endpoint_lock : Serde → String → World → World
unfolding nonce_is
release_endpoint_lock serde nonce w =
    let (r, w') = read_path w in
    let mine : Bool = elim r [ got raw ↦ nonce_is serde nonce raw | _ ↦ false ] in
    if mine then remove_path w' else w'

-- `still_holds_endpoint`: an absent path is looked at again, up to ten times
unfoldable pub holds_within : ℕ → Serde → String → World → Bool × World
unfolding nonce_is
holds_within zero serde nonce w = (false, w)
holds_within (suc n) serde nonce w =
    let (r, w') = read_path w in
    elim r [
      | got raw ↦ (nonce_is serde nonce raw, w')
      | not_found ↦ holds_within n serde nonce w'
      | already_exists ↦ (false, w')
      | write_failed ↦ (false, w')
      | io_error ↦ (false, w')
    ]

unfoldable pub still_holds_endpoint : Serde → String → World → Bool × World
unfolding holds_within
still_holds_endpoint = holds_within 10
