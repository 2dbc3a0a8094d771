-- ===== src/Session/Locks/Quarantine.antt =====
-- `quarantine_verified`, `reconcile_quarantine` and `restore_quarantine_bytes` of src/session/locks.rs.
use agent_debugger.Prelude.{
  ℕ, zero, suc, String, Bool, true, false, Option, none, some, ◌=ˢ◌, if◌then◌else◌,
}
use agent_debugger.Session.Locks.World.{
  World, Event, got, not_found, already_exists, write_failed, io_error, present, vanished,
  unreadable, tick, create_new, detach_to_quarantine, drop_quarantine, read_lock_bytes,
  attempts_max,
}

-- The bytes come back only into a free path.
abbrev pub restore_at : Bool → Option String → World → Bool × World
restore_at true q w = (false, w)
restore_at false none w = (false, w)
restore_at false (some bytes) w =
    let (r, w') = create_new bytes w in (elim r [ got _ ↦ true | _ ↦ false ], w')

unfoldable pub restore_quarantine_bytes : World → Bool × World
unfolding create_new
restore_quarantine_bytes w = let (e, w') = tick w in restore_at e.fault w'.quarantine w'

-- The detached bytes are not the verified ones: is the path still free?
unfoldable pub put_back : World → Bool × World
unfolding restore_quarantine_bytes
put_back w =
    let (e, w') = tick w in
    if e.fault then (false, drop_quarantine e w') else elim w'.slot [
      | none ↦ (false, drop_quarantine e (restore_quarantine_bytes w').1)
      | some _ ↦ (false, drop_quarantine e w')
    ]

abbrev pub reconcile_read : Event → Option String → String → World → Bool × World
reconcile_read e none expected w = (true, drop_quarantine e w)
reconcile_read e (some bytes) expected w =
    if bytes =ˢ expected then (true, drop_quarantine e w) else put_back w

-- the temporary file cannot be read, or its bytes decide
abbrev pub reconcile_at : Event → Option String → String → World → Bool × World
reconcile_at e q expected w =
    if e.fault then (true, drop_quarantine e w) else reconcile_read e q expected w

unfoldable pub reconcile_quarantine : String → World → Bool × World
unfolding put_back
reconcile_quarantine expected w = let (e, w') = tick w in reconcile_at e w'.quarantine expected w'

unfoldable pub detach_loop : ℕ → String → World → Bool × World
detach_loop zero expected w = (false, w)
detach_loop (suc n) expected w =
    let (r, w') = detach_to_quarantine w in
    elim r [
      | got _ ↦ reconcile_quarantine expected w'
      | not_found ↦ (true, w')
      | already_exists ↦ (false, w')
      | write_failed ↦ (false, w')
      | io_error ↦
          let (s, w'') = read_lock_bytes w' in
          elim s [
            | present raw ↦
                let again = detach_loop n expected w'' in
                if raw =ˢ expected then again else (false, w'')
            | vanished ↦ (true, w'')
            | unreadable ↦ (false, w'')
          ]
    ]

unfoldable pub quarantine_verified : String → World → Bool × World
quarantine_verified expected w =
    let (s, w') = read_lock_bytes w in
    elim s [
      | present raw ↦ if raw =ˢ expected then detach_loop attempts_max expected w' else (false, w')
      | vanished ↦ (true, w')
      | unreadable ↦ (false, w')
    ]
