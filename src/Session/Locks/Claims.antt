-- ===== src/Session/Locks/Claims.antt =====
-- What a successful claim says of the lock path, and what a release removes.
use agent_debugger.Prelude.{
  ℕ, zero, suc, String, Bool, true, false, ◌≡◌, ◌⊎◌, refl, sym, ◌∙◌, ap, Option, none, some, List,
  [], ◌∷◌, All, arith, inl, inr, ok,
}
use agent_debugger.Json.Serde.{Serde}
use agent_debugger.Session.Locks.World.{
  World, LockFile, Event, Io, got, not_found, already_exists, write_failed, io_error, tick,
  next_event, look, read_path, create_new, create_at, calm, read_lock_bytes, lock_mtime,
}
use agent_debugger.Session.Locks.Quarantine.{quarantine_verified}
use agent_debugger.Session.Locks.Events.{
  tick-All, read_lock_bytes-All, lock_mtime-All, create_new-All, quarantine_verified-All,
  reclaim-All,
}
use agent_debugger.Session.Locks.Startup.{
  claim_stale_startup_lock, steal_startup_lock, acquire_startup_lock,
}
use agent_debugger.Session.Locks.Endpoint.{
  Liveness, held, Claimant, claim_record, claim_endpoint, claim_reclaimed, report_busy,
  after_reclaim, reclaim_stale_lock, acquire_endpoint_lock, nonce_is, holds_within,
  still_holds_endpoint,
}

-- the path holds exactly `bytes`, written now
abbrev pub IsClaimed : String → World → Type 0
IsClaimed bytes w = w.slot ≡ some (record { bytes = bytes; modified = w.clock })

next_event-clock :
    (w : World) (es : List Event) → (next_event w es).0.now ≡ (next_event w es).1.clock
next_event-clock w [] = refl
next_event-clock w (e ∷ es) = refl

-- no rival takes a lock file away between its creation and the writing of its record
abbrev IsLeft : Event → Type 0
IsLeft e = e.taken_away ≡ none

abbrev pub AreLeft : World → Type 0
AreLeft w = All IsLeft w.events

calm-IsLeft : (now : ℕ) → IsLeft (calm now)
calm-IsLeft now = refl

create_at-got :
    (e : Event) (bytes : String) (w : World) (s : Option LockFile)
    → e.now ≡ w.clock
    → IsLeft e
    → (create_at e bytes w s).0 ≡ got tt
    → IsClaimed bytes (create_at e bytes w s).1
create_at-got e bytes w s same left made = ground arith

create_new-got :
    (bytes : String) (w : World)
    → AreLeft w
    → (create_new bytes w).0 ≡ got tt
    → IsClaimed bytes (create_new bytes w).1
unfolding create_new tick
create_new-got bytes w left made =
    let t = next_event w w.events in
    let now = tick-All IsLeft calm-IsLeft w left in
    ground (arith, create_at-got t.0 bytes t.1 t.1.slot (next_event-clock w w.events) now.0)

-- startup
claim_stale-ok :
    (nonce g : String) (w : World)
    → AreLeft w
    → (claim_stale_startup_lock nonce w).0 ≡ ok g
    → (g ≡ nonce) × IsClaimed nonce (claim_stale_startup_lock nonce w).1
unfolding claim_stale_startup_lock
claim_stale-ok nonce g w left made = ground (arith, create_new-got nonce w left)

steal-ok :
    (nonce g : String) (w : World)
    → AreLeft w
    → (steal_startup_lock nonce w).0 ≡ ok g
    → (g ≡ nonce) × IsClaimed nonce (steal_startup_lock nonce w).1
unfolding steal_startup_lock
steal-ok nonce g w left made =
    let read = read_lock_bytes-All IsLeft calm-IsLeft w left in
    let w'' = (lock_mtime (read_lock_bytes w).1).1 in
    let dated = lock_mtime-All IsLeft calm-IsLeft (read_lock_bytes w).1 read in
    let freed : (raw : String)
        → (claim_stale_startup_lock nonce (quarantine_verified raw w'').1).0 ≡ ok g
        → (g ≡ nonce)
          × IsClaimed nonce (claim_stale_startup_lock nonce (quarantine_verified raw w'').1).1 =
      λ raw.
        claim_stale-ok nonce g (quarantine_verified raw w'').1
          (quarantine_verified-All IsLeft calm-IsLeft raw w'' dated) in
    grind
      (arith, claim_stale-ok nonce g (read_lock_bytes w).1 read, claim_stale-ok nonce g w'' dated)

-- If `acquire_startup_lock` returns a guard, then the guard is one of its two nonces, and at that
-- moment the lock path holds a record with exactly that nonce, whatever the rivals did meanwhile, if
-- they took no lock file away between its creation and the writing of its record.
pub acquire_startup-claims :
    (nonce nonce' g : String) (w : World)
    → AreLeft w
    → (acquire_startup_lock nonce nonce' w).0 ≡ ok g
    → ((g ≡ nonce) ⊎ (g ≡ nonce')) × IsClaimed g (acquire_startup_lock nonce nonce' w).1
unfolding acquire_startup_lock
acquire_startup-claims nonce nonce' g w left made =
    let tried = create_new-All IsLeft calm-IsLeft nonce w left in
    ground (arith, create_new-got nonce w left, steal-ok nonce' g (create_new nonce w).1 tried)

-- endpoint
module _ (serde : Serde) (holder : ℕ → Liveness) (published : String → Bool) (c : Claimant) where
  reclaimed-held :
      (nonce g : String) (w : World)
      → AreLeft w
      → (claim_reclaimed serde holder published c nonce w).0 ≡ ok (held g)
      → (g ≡ nonce)
        × IsClaimed
            (serde.to_string (claim_record c nonce))
            (claim_reclaimed serde holder published c nonce w).1
  unfolding claim_reclaimed claim_endpoint report_busy
  reclaimed-held nonce g w left made =
      ground (arith, create_new-got (serde.to_string (claim_record c nonce)) w left)

  after_reclaim-held :
      (nonce g : String) (r : Bool × World)
      → AreLeft r.1
      → (after_reclaim serde holder published c nonce r).0 ≡ ok (held g)
      → (g ≡ nonce)
        × IsClaimed
            (serde.to_string (claim_record c nonce))
            (after_reclaim serde holder published c nonce r).1
  unfolding after_reclaim report_busy
  after_reclaim-held nonce g (true, w) left made = reclaimed-held nonce g w left made
  after_reclaim-held nonce g (false, w) left made = ground arith

  -- If `acquire_endpoint_lock` holds the endpoint, then its guard is one of its two nonces, and at
  -- that moment the lock path holds exactly the claim's record with that nonce, whatever the rivals
  -- did meanwhile, if they took no lock file away between its creation and the writing of its record.
  pub acquire_endpoint-claims :
      (made : Bool) (nonce nonce' g : String) (w : World)
      → AreLeft w
      → (acquire_endpoint_lock serde holder published c made nonce nonce' w).0 ≡ ok (held g)
      → ((g ≡ nonce) ⊎ (g ≡ nonce'))
        × IsClaimed
            (serde.to_string (claim_record c g))
            (acquire_endpoint_lock serde holder published c made nonce nonce' w).1
  unfolding acquire_endpoint_lock claim_endpoint
  acquire_endpoint-claims false nonce nonce' g w left ours = ground arith
  acquire_endpoint-claims true nonce nonce' g w left ours =
      let record_of : String → String = λ n. serde.to_string (claim_record c n) in
      let w' = (create_new (record_of nonce) w).1 in
      let tried = create_new-All IsLeft calm-IsLeft (record_of nonce) w left in
      ground (
        arith,
        create_new-got (record_of nonce) w left,
        after_reclaim-held nonce' g (reclaim_stale_lock serde holder w')
            (reclaim-All IsLeft calm-IsLeft serde holder w' tried),
      )

look-got :
    (fault : Bool) (bytes : String) (s : Option LockFile)
    → look fault (λ file. file.bytes) s ≡ got bytes
    → (file : LockFile) × (s ≡ some file) × (file.bytes ≡ bytes)
look-got true bytes s seen = ground arith
look-got false bytes none seen = ground arith
look-got false bytes (some file) seen = (file, refl, ground arith)

-- a read that succeeds shows the record in the path
read_path-got :
    (bytes : String) (w : World)
    → (read_path w).0 ≡ got bytes
    → (file : LockFile) × ((read_path w).1.slot ≡ some file) × (file.bytes ≡ bytes)
unfolding read_path
read_path-got bytes w seen = look-got (tick w).0.fault bytes (tick w).1.slot seen

-- the path holds a record with this nonce
abbrev pub IsOurs : Serde → String → World → Type 0
IsOurs serde nonce w =
    (file : LockFile) × (w.slot ≡ some file) × (nonce_is serde nonce file.bytes ≡ true)

holds_at :
    (n : ℕ) (serde : Serde) (nonce : String) (w : World)
    → ((v : String) × ((read_path w).0 ≡ got v)
        × (holds_within (suc n) serde nonce w ≡ (nonce_is serde nonce v, (read_path w).1)))
      ⊎ (holds_within (suc n) serde nonce w ≡ holds_within n serde nonce (read_path w).1)
      ⊎ ((holds_within (suc n) serde nonce w).0 ≡ false)
unfolding holds_within
holds_at n serde nonce w = go (read_path w).0 refl
  where
    go :
        (r : Io String)
        → (read_path w).0 ≡ r
        → ((v : String) × ((read_path w).0 ≡ got v)
            × (holds_within (suc n) serde nonce w ≡ (nonce_is serde nonce v, (read_path w).1)))
          ⊎ (holds_within (suc n) serde nonce w ≡ holds_within n serde nonce (read_path w).1)
          ⊎ ((holds_within (suc n) serde nonce w).0 ≡ false)
    go (got v) e = inl (v, e, ground arith)
    go not_found e = inr (inl (ground arith))
    go already_exists e = inr (inr (ground arith))
    go write_failed e = inr (inr (ground arith))
    go io_error e = inr (inr (ground arith))

holds_within-IsOurs :
    (n : ℕ) (serde : Serde) (nonce : String) (w : World)
    → (holds_within n serde nonce w).0 ≡ true
    → IsOurs serde nonce (holds_within n serde nonce w).1
unfolding holds_within
holds_within-IsOurs zero serde nonce w sure = ground arith
holds_within-IsOurs (suc n) serde nonce w sure = elim (holds_at n serde nonce w) [
  | inl (v, seen, e) ↦
      let shown = read_path-got v w seen in
      rw e (shown.0, shown.1, rw shown.2 (sym (ap (λ p. p.0) e) ∙ sure))
  | inr (inl e) ↦ rw e (holds_within-IsOurs n serde nonce (read_path w).1 (rw e at sure))
  | inr (inr never) ↦ ground arith
]

-- If `still_holds_endpoint` says yes, then at the read that it answers by the lock path holds a
-- record with the guard's own nonce, whatever the rivals did before.
pub still_holds-IsOurs :
    (serde : Serde) (nonce : String) (w : World)
    → (still_holds_endpoint serde nonce w).0 ≡ true
    → IsOurs serde nonce (still_holds_endpoint serde nonce w).1
unfolding still_holds_endpoint
still_holds-IsOurs serde nonce w sure = holds_within-IsOurs 10 serde nonce w sure
