-- ===== src/Session/Locks/Kept.antt =====
-- A lock that the rivals leave in place and that no verdict calls stale: an acquire does not touch
-- it, whichever calls fail.
use agent_debugger.Prelude.{
  ℕ, zero, suc, String, Bool, true, false, ◌≡◌, ◌⊎◌, refl, sym, subst, ◌∙◌, ap, some, List, [], ◌∷◌,
  All, arith, if◌then◌else◌, inl, inr, ok, err,
}
use agent_debugger.Json.Serde.{Serde}
use agent_debugger.Session.Locks.World.{
  World, LockFile, Event, Io, got, already_exists, io_error, present, unreadable, tick, next_event,
  attempt, read_path, read_modified, read_lock_bytes, lock_mtime, create_new, attempts_max,
}
use agent_debugger.Session.Locks.Startup.{
  StartError, is_starting, cannot_create, stale_startup_mtime, steal_startup_lock,
  acquire_startup_lock,
}
use agent_debugger.Session.Locks.Endpoint.{
  Liveness, lock_snapshot_is_stale, reclaim_stale_lock, busy, EndpointBusy, ClaimError,
  claim_failed, cannot_create_locks_dir, claim_record, Claimant, claim_endpoint, report_busy,
  after_reclaim, acquire_endpoint_lock,
}

-- Each event leaves `f` in place, and at no time to come is it stale.
pub record IsKept (stale : ℕ → Bool) (f : LockFile) (w : World) : Type 0 where
  pub slot : w.slot ≡ some f
  pub ahead : All (λ e. (e.rivals (some f) ≡ some f) × (stale e.now ≡ false)) w.events
  pub fresh : stale w.clock ≡ false

-- The two ways that an attempt goes on.
module _ {A : Type 0} (op : World → Io A × World) (n : ℕ) (w : World) where
  attempt-got : (a : A) → (op w).0 ≡ got a → attempt op (suc n) w ≡ (present a, (op w).1)
  unfolding attempt
  attempt-got a e = ground arith

  attempt-io_error : (op w).0 ≡ io_error → attempt op (suc n) w ≡ attempt op n (op w).1
  unfolding attempt
  attempt-io_error e = ground arith

create_new-taken :
    (bytes : String) (f : LockFile) (w : World)
    → (tick w).1.slot ≡ some f
    → create_new bytes w ≡ (if (tick w).0.fault then io_error else already_exists, (tick w).1)
unfolding create_new
create_new-taken bytes f w e = ground arith

module _ (stale : ℕ → Bool) (f : LockFile) where
  next_event-IsKept :
      (w : World) (es : List Event)
      → w.slot ≡ some f
      → stale w.clock ≡ false
      → All (λ e. (e.rivals (some f) ≡ some f) × (stale e.now ≡ false)) es
      → w.events ≡ es
      → IsKept stale f (next_event w es).1
  next_event-IsKept w [] slot fresh ahead same = record {
    slot = slot;
    ahead =
        subst (λ es. All (λ e. (e.rivals (some f) ≡ some f) × (stale e.now ≡ false)) es) (sym same)
          ahead;
    fresh = fresh;
  }
  next_event-IsKept w (e ∷ es) slot fresh ahead same = record {
    slot = ap e.rivals slot ∙ ahead.0.0;
    ahead = ahead.1;
    fresh = ahead.0.1;
  }

  tick-IsKept : (w : World) → IsKept stale f w → IsKept stale f (tick w).1
  unfolding tick
  tick-IsKept w kept = next_event-IsKept w w.events kept.slot kept.fresh kept.ahead refl

  -- a read sees `f`, or fails
  read_path-IsKept :
      (w : World)
      → IsKept stale f w
      → IsKept stale f (read_path w).1
        × (((read_path w).0 ≡ got f.bytes) ⊎ ((read_path w).0 ≡ io_error))
  unfolding read_path
  read_path-IsKept w kept = (tick-IsKept w kept, ground (arith, (tick-IsKept w kept).slot))

  read_modified-IsKept :
      (w : World)
      → IsKept stale f w
      → IsKept stale f (read_modified w).1
        × (((read_modified w).0 ≡ got f.modified) ⊎ ((read_modified w).0 ≡ io_error))
  unfolding read_modified
  read_modified-IsKept w kept = (tick-IsKept w kept, ground (arith, (tick-IsKept w kept).slot))

  create_new-IsKept :
      (bytes : String) (w : World)
      → IsKept stale f w
      → IsKept stale f (create_new bytes w).1
        × (((create_new bytes w).0 ≡ already_exists) ⊎ ((create_new bytes w).0 ≡ io_error))
  unfolding create_new
  create_new-IsKept bytes w kept =
      rw (create_new-taken bytes f w (tick-IsKept w kept).slot) (tick-IsKept w kept, ground arith)

  attempt-IsKept :
      {A : Type 0} (op : World → Io A × World) (a : A)
      → ((w : World)
          → IsKept stale f w
          → IsKept stale f (op w).1 × (((op w).0 ≡ got a) ⊎ ((op w).0 ≡ io_error)))
      → (n : ℕ) (w : World) → IsKept stale f w
      → IsKept stale f (attempt op n w).1
        × (((attempt op n w).0 ≡ present a) ⊎ ((attempt op n w).0 ≡ unreadable))
  unfolding attempt
  attempt-IsKept op a sees zero w kept = (kept, inr refl)
  attempt-IsKept op a sees (suc n) w kept =
      let rest = attempt-IsKept op a sees n (op w).1 (sees w kept).0 in
      elim (sees w kept).1 [
        | inl seen ↦ rw (attempt-got op n w a seen) ((sees w kept).0, inl refl)
        | inr fails ↦ rw (attempt-io_error op n w fails) rest
      ]

  pub read_lock_bytes-IsKept :
      (w : World)
      → IsKept stale f w
      → IsKept stale f (read_lock_bytes w).1
        × (((read_lock_bytes w).0 ≡ present f.bytes) ⊎ ((read_lock_bytes w).0 ≡ unreadable))
  unfolding read_lock_bytes
  read_lock_bytes-IsKept = attempt-IsKept read_path f.bytes read_path-IsKept attempts_max

  pub lock_mtime-IsKept :
      (w : World)
      → IsKept stale f w
      → IsKept stale f (lock_mtime w).1
        × (((lock_mtime w).0 ≡ present f.modified) ⊎ ((lock_mtime w).0 ≡ unreadable))
  unfolding lock_mtime
  lock_mtime-IsKept = attempt-IsKept read_modified f.modified read_modified-IsKept attempts_max

-- the startup lock
module _ (f : LockFile) where
  steal_startup-kept :
      (nonce : String) (w : World)
      → IsKept (stale_startup_mtime f.modified) f w
      → ((steal_startup_lock nonce w).0 ≡ err is_starting)
        × ((steal_startup_lock nonce w).1.slot ≡ some f)
  unfolding steal_startup_lock
  steal_startup-kept nonce w kept =
      let read = read_lock_bytes-IsKept (stale_startup_mtime f.modified) f w kept in
      let dated =
        lock_mtime-IsKept (stale_startup_mtime f.modified) f (read_lock_bytes w).1 read.0 in
      ground (arith, read.0.slot, dated.0.slot, dated.0.fresh)

  -- While the rivals leave a startup lock in place, and it is not stale at any clock that the
  -- acquire may see, `acquire_startup_lock` errs and leaves that lock in place, whichever of its
  -- calls fail.
  pub acquire_startup-kept :
      (nonce nonce' : String) (w : World)
      → IsKept (stale_startup_mtime f.modified) f w
      → ((e : StartError) × ((acquire_startup_lock nonce nonce' w).0 ≡ err e))
        × ((acquire_startup_lock nonce nonce' w).1.slot ≡ some f)
  unfolding acquire_startup_lock
  acquire_startup-kept nonce nonce' w kept =
      let tried = create_new-IsKept (stale_startup_mtime f.modified) f nonce w kept in
      let stolen = steal_startup-kept nonce' (create_new nonce w).1 tried.0 in
      elim tried.1 [
        | inl taken ↦ ((is_starting, ground arith), ground arith)
        | inr fails ↦ ((cannot_create, ground arith), ground (arith, tried.0.slot))
      ]

-- the endpoint lock
module _ (serde : Serde) (holder : ℕ → Liveness) (f : LockFile) where
  abbrev still : ℕ → Bool
  still now = lock_snapshot_is_stale serde holder f.bytes f.modified now

  reclaim-IsKept :
      (w : World)
      → IsKept still f w
      → ((reclaim_stale_lock serde holder w).0 ≡ false)
        × IsKept still f (reclaim_stale_lock serde holder w).1
  unfolding reclaim_stale_lock
  reclaim-IsKept w kept =
      let read = read_lock_bytes-IsKept still f w kept in
      let dated = lock_mtime-IsKept still f (read_lock_bytes w).1 read.0 in
      ground (arith, read.0.slot, dated.0.slot, dated.0.fresh)

  module _ (published : String → Bool) (c : Claimant) where
    report_busy-kept :
        (w : World)
        → IsKept still f w
        → ((b : EndpointBusy) × ((report_busy serde holder published c w).0 ≡ ok (busy b)))
          × ((report_busy serde holder published c w).1.slot ≡ some f)
    unfolding report_busy
    report_busy-kept w kept = ((_, refl), (read_path-IsKept still f w kept).0.slot)

    -- While the rivals leave an endpoint lock in place, and its snapshot is not stale at any clock
    -- that the acquire may see, `acquire_endpoint_lock` reports the endpoint busy or errs, and
    -- leaves that lock in place, whichever of its calls fail.
    pub acquire_endpoint-kept :
        (made : Bool) (nonce nonce' : String) (w : World)
        → IsKept still f w
        → (((b : EndpointBusy) × ((acquire_endpoint_lock serde holder published c made nonce nonce'
                  w).0
                ≡ ok (busy b)))
            ⊎ ((e : ClaimError) × ((acquire_endpoint_lock serde holder published c made nonce nonce'
                    w).0
                  ≡ err e)))
          × ((acquire_endpoint_lock serde holder published c made nonce nonce' w).1.slot ≡ some f)
    unfolding acquire_endpoint_lock claim_endpoint after_reclaim
    acquire_endpoint-kept false nonce nonce' w kept =
        (inr (cannot_create_locks_dir, refl), kept.slot)
    acquire_endpoint-kept true nonce nonce' w kept =
        let tried = create_new-IsKept still f (serde.to_string (claim_record c nonce)) w kept in
        let w' = (create_new (serde.to_string (claim_record c nonce)) w).1 in
        let swept = reclaim-IsKept w' tried.0 in
        let reported = report_busy-kept (reclaim_stale_lock serde holder w').1 swept.1 in
        elim tried.1 [
          | inl taken ↦ (inl (reported.0.0, ground arith), ground arith)
          | inr fails ↦ (inr (claim_failed, ground arith), ground (arith, tried.0.slot))
        ]
