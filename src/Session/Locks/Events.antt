-- ===== src/Session/Locks/Events.antt =====
-- What holds of every event to come still holds after each operation on a lock.
use agent_debugger.Prelude.{
  ℕ, zero, suc, String, Bool, true, false, ◌≡◌, refl, sym, subst, Option, none, some, List, [], ◌∷◌,
  All, arith, Bool-cases, Option-cases, inl, inr, ◌=ˢ◌,
}
use agent_debugger.Json.Serde.{Serde}
use agent_debugger.Session.Locks.World.{
  World, LockFile, Event, Io, calm, tick, next_event, attempt, read_path, read_modified,
  read_lock_bytes, lock_mtime, create_new, create_at, detach_at, detach_to_quarantine, attempts_max,
  drop_quarantine,
}
use agent_debugger.Session.Locks.Quarantine.{
  restore_at, restore_quarantine_bytes, put_back, reconcile_read, reconcile_quarantine, detach_loop,
  quarantine_verified,
}
use agent_debugger.Session.Locks.Endpoint.{Liveness, reclaim_stale_lock}

create_at-events :
    (e : Event) (bytes : String) (w : World) (s : Option LockFile)
    → (create_at e bytes w s).1.events ≡ w.events
create_at-events e bytes w none = ground arith
create_at-events e bytes w (some f) = refl

module _ (P : Event → Type 0) (calmly : (now : ℕ) → P (calm now)) where
  next_event-All :
      (w : World) (es : List Event)
      → w.events ≡ es
      → All P es
      → P (next_event w es).0 × All P (next_event w es).1.events
  next_event-All w [] same all' = (calmly w.clock, subst (All P) (sym same) all')
  next_event-All w (e ∷ es) same all' = all'

  pub tick-All : (w : World) → All P w.events → P (tick w).0 × All P (tick w).1.events
  unfolding tick
  tick-All w all' = next_event-All w w.events refl all'

  read_path-All : (w : World) → All P w.events → All P (read_path w).1.events
  unfolding read_path
  read_path-All w all' = (tick-All w all').1

  read_modified-All : (w : World) → All P w.events → All P (read_modified w).1.events
  unfolding read_modified
  read_modified-All w all' = (tick-All w all').1

  attempt-All :
      {A : Type 0} (op : World → Io A × World)
      → ((w : World) → All P w.events → All P (op w).1.events)
      → (n : ℕ) (w : World) → All P w.events
      → All P (attempt op n w).1.events
  unfolding attempt
  attempt-All op keeps zero w all' = all'
  attempt-All op keeps (suc n) w all' =
      let now = keeps w all' in let later = attempt-All op keeps n (op w).1 now in ground arith

  pub read_lock_bytes-All : (w : World) → All P w.events → All P (read_lock_bytes w).1.events
  unfolding read_lock_bytes
  read_lock_bytes-All = attempt-All read_path read_path-All attempts_max

  pub lock_mtime-All : (w : World) → All P w.events → All P (lock_mtime w).1.events
  unfolding lock_mtime
  lock_mtime-All = attempt-All read_modified read_modified-All attempts_max

  pub create_new-All :
      (bytes : String) (w : World) → All P w.events → All P (create_new bytes w).1.events
  unfolding create_new
  create_new-All bytes w all' =
      let now = (tick-All w all').1 in
      elim (Bool-cases (tick w).0.fault) [
        | inl fails ↦ rw fails now
        | inr fine ↦ rw (fine, create_at-events (tick w).0 bytes (tick w).1 (tick w).1.slot) now
      ]

  detach_at-All :
      (w : World) (s : Option LockFile) → All P w.events → All P (detach_at w s).1.events
  detach_at-All w none all' = all'
  detach_at-All w (some f) all' = all'

  pub detach-All : (w : World) → All P w.events → All P (detach_to_quarantine w).1.events
  unfolding detach_to_quarantine
  detach-All w all' =
      let now = (tick-All w all').1 in
      elim (Bool-cases (tick w).0.fault) [
        | inl fails ↦ rw fails now
        | inr fine ↦ rw fine (detach_at-All (tick w).1 (tick w).1.slot now)
      ]

  drop-All : (e : Event) (w : World) → All P w.events → All P (drop_quarantine e w).events
  drop-All e w all' = elim (Bool-cases e.remove_fault) [
    | inl fails ↦ rw fails all'
    | inr fine ↦ rw fine all'
  ]

  restore_at-All :
      (fault : Bool) (q : Option String) (w : World)
      → All P w.events
      → All P (restore_at fault q w).1.events
  restore_at-All true q w all' = all'
  restore_at-All false none w all' = all'
  restore_at-All false (some bytes) w all' = create_new-All bytes w all'

  restore-All : (w : World) → All P w.events → All P (restore_quarantine_bytes w).1.events
  unfolding restore_quarantine_bytes
  restore-All w all' =
      restore_at-All (tick w).0.fault (tick w).1.quarantine (tick w).1 (tick-All w all').1

  put_back-All : (w : World) → All P w.events → All P (put_back w).1.events
  unfolding put_back
  put_back-All w all' =
      let now = (tick-All w all').1 in
      elim (Bool-cases (tick w).0.fault) [
        | inl fails ↦ rw fails (drop-All (tick w).0 (tick w).1 now)
        | inr fine ↦ elim (Option-cases (tick w).1.slot) [
          | inl free ↦
              rw (fine, free)
                (drop-All (tick w).0 (restore_quarantine_bytes (tick w).1).1
                  (restore-All (tick w).1 now))
          | inr (f, there) ↦ rw (fine, there) (drop-All (tick w).0 (tick w).1 now)
        ]
      ]

  reconcile_read-All :
      (e : Event) (q : Option String) (expected : String) (w : World)
      → All P w.events
      → All P (reconcile_read e q expected w).1.events
  reconcile_read-All e none expected w all' = drop-All e w all'
  reconcile_read-All e (some bytes) expected w all' = elim (Bool-cases (bytes =ˢ expected)) [
    | inl same ↦ rw same (drop-All e w all')
    | inr other ↦ rw other (put_back-All w all')
  ]

  reconcile-All :
      (expected : String) (w : World)
      → All P w.events
      → All P (reconcile_quarantine expected w).1.events
  unfolding reconcile_quarantine
  reconcile-All expected w all' =
      let now = (tick-All w all').1 in
      elim (Bool-cases (tick w).0.fault) [
        | inl fails ↦ rw fails (drop-All (tick w).0 (tick w).1 now)
        | inr fine ↦
            rw fine (reconcile_read-All (tick w).0 (tick w).1.quarantine expected (tick w).1 now)
      ]

  detach_loop-All :
      (n : ℕ) (expected : String) (w : World)
      → All P w.events
      → All P (detach_loop n expected w).1.events
  unfolding detach_loop
  detach_loop-All zero expected w all' = all'
  detach_loop-All (suc n) expected w all' =
      let w' = (detach_to_quarantine w).1 in
      let now = detach-All w all' in
      let settled = reconcile-All expected w' now in
      let read = read_lock_bytes-All w' now in
      let again = detach_loop-All n expected (read_lock_bytes w').1 read in ground arith

  pub quarantine_verified-All :
      (expected : String) (w : World)
      → All P w.events
      → All P (quarantine_verified expected w).1.events
  unfolding quarantine_verified
  quarantine_verified-All expected w all' =
      let read = read_lock_bytes-All w all' in
      let detached = detach_loop-All attempts_max expected (read_lock_bytes w).1 read in
      ground arith

  pub reclaim-All :
      (serde : Serde) (holder : ℕ → Liveness) (w : World)
      → All P w.events
      → All P (reclaim_stale_lock serde holder w).1.events
  unfolding reclaim_stale_lock
  reclaim-All serde holder w all' =
      let read = read_lock_bytes-All w all' in
      let dated = lock_mtime-All (read_lock_bytes w).1 read in
      let taken : (raw : String)
          → All P (quarantine_verified raw (lock_mtime (read_lock_bytes w).1).1).1.events =
        λ raw. quarantine_verified-All raw (lock_mtime (read_lock_bytes w).1).1 dated in
      grind arith
