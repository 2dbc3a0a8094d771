-- ===== src/Session/Locks/Quiet.antt =====
-- The lock operations when nobody interferes and no call fails.
use agent_debugger.Prelude.{
  ℕ, suc, String, true, false, ◌≡◌, ◌≢◌, ap, Option, none, some, [], eq_iff, arith,
}
use agent_debugger.Json.Serde.{Serde}
use agent_debugger.Session.Locks.World.{
  World, LockFile, present, vanished, calm, look, tick, read_path, read_lock_bytes, remove_path,
  detach_at, detach_to_quarantine, attempt, drop_quarantine, calm,
}
use agent_debugger.Session.Locks.Quarantine.{quarantine_verified, detach_loop, reconcile_quarantine}
use agent_debugger.Session.Locks.Startup.{startup_lock_is_mine, release_startup_lock}
use agent_debugger.Session.Locks.Endpoint.{nonce_is, release_endpoint_lock}

-- no event is left
abbrev pub IsQuiet : World → Type 0
IsQuiet w = w.events ≡ []

tick-quiet : (w : World) → IsQuiet w → tick w ≡ (calm w.clock, w)
unfolding tick
tick-quiet w quiet = ground arith

read_path-quiet :
    (w : World) → IsQuiet w → read_path w ≡ (look false (λ file. file.bytes) w.slot, w)
unfolding read_path
read_path-quiet w quiet = ground (arith, tick-quiet w)

remove_path-quiet : (w : World) → IsQuiet w → remove_path w ≡ record w { slot = none }
unfolding remove_path
remove_path-quiet w quiet = ground (arith, tick-quiet w)

detach-quiet : (w : World) → IsQuiet w → detach_to_quarantine w ≡ detach_at w w.slot
unfolding detach_to_quarantine
detach-quiet w quiet = ground (arith, tick-quiet w)

read_lock_bytes-quiet :
    (w : World) (s : Option LockFile)
    → IsQuiet w
    → w.slot ≡ s
    → read_lock_bytes w ≡ (elim s [ none ↦ vanished | some f ↦ present f.bytes ], w)
unfolding read_lock_bytes attempt
read_lock_bytes-quiet w none quiet there = ground (arith, read_path-quiet w)
read_lock_bytes-quiet w (some f) quiet there = ground (arith, read_path-quiet w)

-- When nobody interferes, a startup guard's release removes the record that holds its nonce, and
-- leaves every other record in place.
pub release_startup-own :
    (nonce : String) (f : LockFile) (w : World)
    → IsQuiet w
    → w.slot ≡ some f
    → ((f.bytes ≡ nonce) → (release_startup_lock nonce w).slot ≡ none)
      × ((f.bytes ≢ nonce) → (release_startup_lock nonce w).slot ≡ some f)
unfolding release_startup_lock startup_lock_is_mine
release_startup-own nonce f w quiet there =
    ground (arith, read_path-quiet w, remove_path-quiet w, eq_iff f.bytes nonce)

-- When nobody interferes, an endpoint guard's release removes a record with its nonce, and leaves
-- every other record in place.
pub release_endpoint-own :
    (serde : Serde) (nonce : String) (f : LockFile) (w : World)
    → IsQuiet w
    → w.slot ≡ some f
    → ((nonce_is serde nonce f.bytes ≡ true) → (release_endpoint_lock serde nonce w).slot ≡ none)
      × ((nonce_is serde nonce f.bytes ≡ false)
          → (release_endpoint_lock serde nonce w).slot ≡ some f)
unfolding release_endpoint_lock
release_endpoint-own serde nonce f w quiet there =
    ground (arith, read_path-quiet w, remove_path-quiet w)

reconcile-quiet :
    (expected : String) (w : World)
    → IsQuiet w
    → w.quarantine ≡ some expected
    → reconcile_quarantine expected w ≡ (true, drop_quarantine (calm w.clock) w)
unfolding reconcile_quarantine
reconcile-quiet expected w quiet kept = ground (arith, tick-quiet w, eq_iff expected expected)

-- the world right after the rename
abbrev detached : LockFile → World → World
detached f w = record w { slot = none; quarantine = some f.bytes }

detach_loop-quiet :
    (n : ℕ) (expected : String) (f : LockFile) (w : World)
    → IsQuiet w
    → w.slot ≡ some f
    → f.bytes ≡ expected
    → detach_loop (suc n) expected w ≡ (true, record w { slot = none; quarantine = none })
unfolding detach_loop
detach_loop-quiet n expected f w quiet there same =
    ground (arith, detach-quiet w, reconcile-quiet expected (detached f w) quiet (ap some same))

-- When nobody interferes, `quarantine_verified` reports a free path free, removes a record with
-- the expected bytes, and leaves any other record in place.
pub quarantine_verified-quiet :
    (expected : String) (w : World)
    → IsQuiet w
    → ((w.slot ≡ none) → (quarantine_verified expected w) ≡ (true, w))
      × ((f : LockFile)
          → (w.slot ≡ some f)
          → (f.bytes ≡ expected)
          → quarantine_verified expected w ≡ (true, record w { slot = none; quarantine = none }))
      × ((f : LockFile)
          → (w.slot ≡ some f)
          → (f.bytes ≢ expected)
          → quarantine_verified expected w ≡ (false, w))
unfolding quarantine_verified
quarantine_verified-quiet expected w quiet = (
  (λ free. ground (arith, read_lock_bytes-quiet w none)),
  (λ f there same. ground (
    arith,
    read_lock_bytes-quiet w (some f),
    eq_iff f.bytes expected,
    detach_loop-quiet 2 expected f w,
  )),
  (λ f there differs. ground (arith, read_lock_bytes-quiet w (some f), eq_iff f.bytes expected)),
)
