-- ===== src/Session/Locks/Guarded.antt =====
-- What a reclaimer leaves behind, whatever the rivals do between its calls.
use agent_debugger.Prelude.{
  ℕ, zero, suc, String, false, ◌≡◌, ◌⊎◌, refl, Option, none, some, List, [], ◌∷◌, All, Bool-cases,
  Option-cases, inl, inr, ◌=ˢ◌, arith,
}
use agent_debugger.Session.Locks.World.{
  World, Event, got, tick, next_event, attempt, read_path, read_lock_bytes, detach_to_quarantine,
  attempts_max, drop_quarantine,
}
use agent_debugger.Session.Locks.Quarantine.{
  put_back, restore_quarantine_bytes, reconcile_read, reconcile_quarantine, detach_loop,
  quarantine_verified,
}
use agent_debugger.Session.Locks.Events.{tick-All, read_lock_bytes-All, detach-All}

-- no temporary file of ours is left
abbrev pub IsClean : World → Type 0
IsClean w = w.quarantine ≡ none

next_event-quarantine :
    (w : World) (es : List Event) → (next_event w es).1.quarantine ≡ w.quarantine
next_event-quarantine w [] = refl
next_event-quarantine w (e ∷ es) = refl

pub tick-quarantine : (w : World) → (tick w).1.quarantine ≡ w.quarantine
unfolding tick
tick-quarantine w = next_event-quarantine w w.events

read_path-quarantine : (w : World) → (read_path w).1.quarantine ≡ w.quarantine
unfolding read_path
read_path-quarantine w = next_event-quarantine w w.events

attempt_path-quarantine : (n : ℕ) (w : World) → (attempt read_path n w).1.quarantine ≡ w.quarantine
unfolding attempt
attempt_path-quarantine zero w = refl
attempt_path-quarantine (suc n) w =
    ground (arith, read_path-quarantine w, attempt_path-quarantine n (read_path w).1)

read_lock_bytes-quarantine : (w : World) → (read_lock_bytes w).1.quarantine ≡ w.quarantine
unfolding read_lock_bytes
read_lock_bytes-quarantine w = attempt_path-quarantine attempts_max w

-- every clean-up of ours succeeds
abbrev pub Removes : World → Type 0
Removes w = All (λ e. e.remove_fault ≡ false) w.events

tick-Removes : (w : World) → Removes w → ((tick w).0.remove_fault ≡ false) × Removes (tick w).1
tick-Removes = tick-All (λ e. e.remove_fault ≡ false) (λ now. refl)

drop-IsClean : (e : Event) (w : World) → e.remove_fault ≡ false → IsClean (drop_quarantine e w)
drop-IsClean e w removes = rw removes refl

put_back-IsClean : (w : World) → Removes w → IsClean (put_back w).1
unfolding put_back
put_back-IsClean w removes =
    let gone = (tick-Removes w removes).0 in
    elim (Bool-cases (tick w).0.fault) [
      | inl fails ↦ rw fails (drop-IsClean (tick w).0 (tick w).1 gone)
      | inr fine ↦ elim (Option-cases (tick w).1.slot) [
        | inl free ↦
            rw (fine, free) (drop-IsClean (tick w).0 (restore_quarantine_bytes (tick w).1).1 gone)
        | inr (f, there) ↦ rw (fine, there) (drop-IsClean (tick w).0 (tick w).1 gone)
      ]
    ]

reconcile_read-IsClean :
    (e : Event) (q : Option String) (expected : String) (w : World)
    → e.remove_fault ≡ false
    → Removes w
    → IsClean (reconcile_read e q expected w).1
reconcile_read-IsClean e none expected w gone removes = drop-IsClean e w gone
reconcile_read-IsClean e (some bytes) expected w gone removes =
    elim (Bool-cases (bytes =ˢ expected)) [
      | inl same ↦ rw same (drop-IsClean e w gone)
      | inr other ↦ rw other (put_back-IsClean w removes)
    ]

reconcile-IsClean :
    (expected : String) (w : World) → Removes w → IsClean (reconcile_quarantine expected w).1
unfolding reconcile_quarantine
reconcile-IsClean expected w removes =
    let now = tick-Removes w removes in
    elim (Bool-cases (tick w).0.fault) [
      | inl fails ↦ rw fails (drop-IsClean (tick w).0 (tick w).1 now.0)
      | inr fine ↦
          rw fine (
            reconcile_read-IsClean (tick w).0 (tick w).1.quarantine expected (tick w).1 now.0 now.1)
    ]

detach-quarantine :
    (w : World)
    → IsClean w
    → (u : Unit {0}) → ((detach_to_quarantine w).0 ≡ got u) ⊎ IsClean (detach_to_quarantine w).1
unfolding detach_to_quarantine
detach-quarantine w clean tt = ground (arith, tick-quarantine w)

detach_loop-IsClean :
    (n : ℕ) (expected : String) (w : World)
    → IsClean w
    → Removes w
    → IsClean (detach_loop n expected w).1
unfolding detach_loop
detach_loop-IsClean zero expected w clean removes = clean
detach_loop-IsClean (suc n) expected w clean removes =
    let w' = (detach_to_quarantine w).1 in
    let now = detach-All (λ e. e.remove_fault ≡ false) (λ t. refl) w removes in
    let read = read_lock_bytes-All (λ e. e.remove_fault ≡ false) (λ t. refl) w' now in
    let settled = reconcile-IsClean expected w' now in
    let again : IsClean (read_lock_bytes w').1
        → IsClean (detach_loop n expected (read_lock_bytes w').1).1 =
      λ c. detach_loop-IsClean n expected (read_lock_bytes w').1 c read in
    ground (arith, detach-quarantine w clean tt, read_lock_bytes-quarantine w')

-- `quarantine_verified` leaves no temporary file of its own behind, whatever the rivals do and
-- whichever other calls fail, if there was none before and the removals of our own files succeed.
pub quarantine_verified-IsClean :
    (expected : String) (w : World)
    → IsClean w
    → Removes w
    → IsClean (quarantine_verified expected w).1
unfolding quarantine_verified
quarantine_verified-IsClean expected w clean removes =
    let w' = (read_lock_bytes w).1 in
    let still = read_lock_bytes-All (λ e. e.remove_fault ≡ false) (λ t. refl) w removes in
    let looped : IsClean w' → IsClean (detach_loop attempts_max expected w').1 =
      λ c. detach_loop-IsClean attempts_max expected w' c still in
    ground (arith, read_lock_bytes-quarantine w)
