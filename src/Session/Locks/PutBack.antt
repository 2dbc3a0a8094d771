-- ===== src/Session/Locks/PutBack.antt =====
-- What becomes of a record that was detached by mistake.
use agent_debugger.Prelude.{
  String, false, ◌≡◌, ◌≢◌, ◌⊎◌, refl, ◌∙◌, subst, Option, none, some, List, [], ◌∷◌, All, eq_iff,
  arith, Option-cases, inl, inr, ◌=ˢ◌,
}
use agent_debugger.Session.Locks.World.{
  World, LockFile, Event, tick, next_event, create_new, drop_quarantine,
}
use agent_debugger.Session.Locks.Quarantine.{
  put_back, restore_quarantine_bytes, reconcile_quarantine,
}
use agent_debugger.Session.Locks.Events.{tick-All}
use agent_debugger.Session.Locks.Guarded.{tick-quarantine}

-- a call that does what it says, and no rival between the creation of a file and its record
abbrev Fine : Event → Type 0
Fine e = (e.fault ≡ false) × (e.write_fault ≡ false) × (e.taken_away ≡ none)

-- none of the calls to come fails
abbrev pub Succeeds : World → Type 0
Succeeds w = All Fine w.events

tick-Succeeds : (w : World) → Succeeds w → Fine (tick w).0 × Succeeds (tick w).1
tick-Succeeds = tick-All Fine (λ now. (refl, refl, refl))

-- a rival has put `f` into the path
abbrev pub ByRival : List Event → LockFile → Type 0
ByRival [] f = ⊥
ByRival (e ∷ es) f = ((s : Option LockFile) × (e.rivals s ≡ some f)) ⊎ ByRival es f

-- `f` was in the path from the start, or is a rival's
abbrev pub IsTheirs : World → LockFile → Type 0
IsTheirs w f = (w.slot ≡ some f) ⊎ ByRival w.events f

next_event-IsTheirs :
    (w : World) (es : List Event) (f : LockFile)
    → w.events ≡ es
    → IsTheirs (next_event w es).1 f
    → (w.slot ≡ some f) ⊎ ByRival es f
next_event-IsTheirs w [] f same (inl there) = inl there
next_event-IsTheirs w [] f same (inr rival) = inr (subst (λ es. ByRival es f) same rival)
next_event-IsTheirs w (e ∷ es) f same (inl there) = inr (inl (w.slot, there))
next_event-IsTheirs w (e ∷ es) f same (inr rival) = inr (inr rival)

tick-IsTheirs : (w : World) (f : LockFile) → IsTheirs (tick w).1 f → IsTheirs w f
unfolding tick
tick-IsTheirs w f theirs = next_event-IsTheirs w w.events f refl theirs

-- the path holds `bytes`, or a file of a rival
abbrev pub IsRestored : String → World → World → Type 0
IsRestored bytes w w' = (f : LockFile) × (w'.slot ≡ some f) × ((f.bytes ≡ bytes) ⊎ IsTheirs w f)

tick-IsRestored :
    (bytes : String) (w w' : World) → IsRestored bytes (tick w).1 w' → IsRestored bytes w w'
tick-IsRestored bytes w w' (f, there, inl same) = (f, there, inl same)
tick-IsRestored bytes w w' (f, there, inr theirs) = (f, there, inr (tick-IsTheirs w f theirs))

create_new-IsRestored :
    (bytes : String) (w : World) → Succeeds w → IsRestored bytes w (create_new bytes w).1
unfolding create_new
create_new-IsRestored bytes w all' =
    let fine = (tick-Succeeds w all').0 in
    tick-IsRestored bytes w (create_new bytes w).1 (elim (Option-cases (tick w).1.slot) [
      | inl free ↦ rw (fine.0, free, fine.1, fine.2) (_, refl, inl refl)
      | inr (f, there) ↦ rw (fine.0, there) (f, there, inr (inl refl))
    ])

drop-slot : (e : Event) (w : World) → (drop_quarantine e w).slot ≡ w.slot
drop-slot e w = ground arith

restore-IsRestored :
    (bytes : String) (w : World)
    → Succeeds w
    → w.quarantine ≡ some bytes
    → IsRestored bytes w (restore_quarantine_bytes w).1
unfolding restore_quarantine_bytes
restore-IsRestored bytes w all' kept =
    let now = tick-Succeeds w all' in
    tick-IsRestored bytes w (restore_quarantine_bytes w).1
      (rw (now.0.0, tick-quarantine w ∙ kept) (create_new-IsRestored bytes (tick w).1 now.1))

put_back-IsRestored :
    (bytes : String) (w : World)
    → Succeeds w
    → w.quarantine ≡ some bytes
    → ((put_back w).0 ≡ false) × IsRestored bytes w (put_back w).1
unfolding put_back
put_back-IsRestored bytes w all' kept =
    let now = tick-Succeeds w all' in
    elim (Option-cases (tick w).1.slot) [
      | inl free ↦
          let back = restore-IsRestored bytes (tick w).1 now.1 (tick-quarantine w ∙ kept) in
          rw (now.0.0, free)
            (
              refl,
              tick-IsRestored bytes w
                  (drop_quarantine (tick w).0 (restore_quarantine_bytes (tick w).1).1)
                  (
                    back.0,
                    drop-slot (tick w).0 (restore_quarantine_bytes (tick w).1).1 ∙ back.1,
                    back.2,
                  ),
            )
      | inr (f, there) ↦
          rw (now.0.0, there)
            (
              refl,
              tick-IsRestored bytes w (drop_quarantine (tick w).0 (tick w).1)
                  (f, drop-slot (tick w).0 (tick w).1 ∙ there, inr (inl there)),
            )
    ]

-- If the detached bytes are not the expected ones, no call fails and no rival takes a file away
-- before its record is written, then `reconcile_quarantine` says no, and when it returns the lock
-- path holds the detached bytes, or a file that was there before or that a rival has put there.
pub reconcile_fresh-IsRestored :
    (expected fresh : String) (w : World)
    → w.quarantine ≡ some fresh
    → fresh ≢ expected
    → Succeeds w
    → ((reconcile_quarantine expected w).0 ≡ false)
      × IsRestored fresh w (reconcile_quarantine expected w).1
unfolding reconcile_quarantine
reconcile_fresh-IsRestored expected fresh w kept differs all' =
    let now = tick-Succeeds w all' in
    let back = put_back-IsRestored fresh (tick w).1 now.1 (tick-quarantine w ∙ kept) in
    let other : (fresh =ˢ expected) ≡ false = ground (arith, eq_iff fresh expected) in
    rw (now.0.0, tick-quarantine w ∙ kept, other)
      (back.0, tick-IsRestored fresh w (put_back (tick w).1).1 back.1)
