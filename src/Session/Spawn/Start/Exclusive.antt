-- ===== src/Session/Spawn/Start/Exclusive.antt =====
-- A bridge starts only for a session that holds its endpoint, and a refused start touches nothing.
use agent_debugger.Prelude.{
  ℕ, String, Bool, true, false, not, ◌&&◌, ◌||◌, ◌≡◌, inl, inr, refl, subst, Option, none, some,
  List, [], ◌∷◌, Result, ok, err, arith, Bool-cases,
}
use agent_debugger.Json.{Value}
use agent_debugger.Json.Serde.{Serde}
use agent_debugger.Session.Error.{Error}
use agent_debugger.Session.Paths.{check_name, check_dir_real}
use agent_debugger.Session.Sidecar.{cli_markers_v2}
use agent_debugger.Session.Paths.Hosts.{IpAddr}
use agent_debugger.Session.Attach.{
  SpawnSpec, AttachError, attach_endpoint, legacy_proven_dead, find_live_endpoint_owner_in,
  find_live_legacy_sessions_in,
}
use agent_debugger.Session.Locks.World.{World}
use agent_debugger.Session.Locks.Startup.{StartError, acquire_startup_lock}
use agent_debugger.Session.Locks.Endpoint.{
  Liveness, EndpointClaim, held, busy, ClaimError, Claimant, still_holds_endpoint,
}
use agent_debugger.Session.Spawn.Start.{
  Start, StartFailure, cannot_create_root, refused, timeout_too_large, with_root, with_dir,
  with_name, startup, already_exists, unsupported_session, Done, Preflight, refuse, lost_endpoint,
  recheck, no_legacy, no_owner, claimed_endpoint, claim, preflight, clear_stale, after_preflight,
  endpoint_of, guarded, with_startup, spawn_in,
}

module _ (serde : Serde) (parse_ip : List ℕ → Option IpAddr) (holder : ℕ → Liveness) (now : ℕ)
    (name : String) (spec : SpawnSpec) (stops : Value) (claimant : Claimant)
    (nonces : String × String × String × String) (start : Start) where
  abbrev granted : Preflight → Bool
  granted (ok _, w) = true
  granted (err _, w) = false

  recheck-held :
      (g : String) (r : Bool × World)
      → granted (recheck serde parse_ip holder now name spec stops claimant nonces start g r) ≡ true
      → r.0 ≡ true
  unfolding recheck lost_endpoint
  recheck-held g (true, w) grant = refl
  recheck-held g (false, w) grant = ground arith

  legacy-free :
      (g : String) (w : World) (ns : List String)
      → granted (no_legacy serde parse_ip holder now name spec stops claimant nonces start g w ns)
        ≡ true
      → (ns ≡ []) × ((still_holds_endpoint serde g w).0 ≡ true)
  unfolding no_legacy
  legacy-free g w [] grant = (refl, recheck-held g (still_holds_endpoint serde g w) grant)
  legacy-free g w (n ∷ ns) grant = ground arith

  -- no other live session has the endpoint, none of the old schema is live, and the lock is ours
  abbrev pub IsGranted : String → ℕ → Result ClaimError EndpointClaim × World → Type 0
  IsGranted host port r =
      (g : String) × (r.0 ≡ ok (held g))
      × (find_live_endpoint_owner_in serde parse_ip now name host port start.entries ≡ none)
      × (find_live_legacy_sessions_in serde now name start.entries ≡ [])
      × ((still_holds_endpoint serde g r.1).0 ≡ true)

  owner-free :
      (g : String) (w : World) (o : Option String)
      → granted (no_owner serde parse_ip holder now name spec stops claimant nonces start g w o)
        ≡ true
      → (o ≡ none)
        × (find_live_legacy_sessions_in serde now name start.entries ≡ [])
        × ((still_holds_endpoint serde g w).0 ≡ true)
  unfolding no_owner
  owner-free g w (some o) grant = ground arith
  owner-free g w none grant =
      let free =
        legacy-free g w (find_live_legacy_sessions_in serde now name start.entries) grant in
      (refl, free.0, free.1)

  claimed-IsGranted :
      (host : String) (port : ℕ) (r : Result ClaimError EndpointClaim × World)
      → granted (
          claimed_endpoint serde parse_ip holder now name spec stops claimant nonces start host port
            r)
        ≡ true
      → IsGranted host port r
  unfolding claimed_endpoint
  claimed-IsGranted host port (err e, w) grant = ground arith
  claimed-IsGranted host port (ok (busy b), w) grant = ground arith
  claimed-IsGranted host port (ok (held g), w) grant =
      let free =
        owner-free g w (find_live_endpoint_owner_in serde parse_ip now name host port start.entries)
          grant in
      (g, refl, free.0, free.1, free.2)

  abbrev the_claim : Result ClaimError EndpointClaim × World
  the_claim = claim serde parse_ip holder now name spec stops claimant nonces start

  -- a launch, or an attach whose endpoint is granted
  abbrev pub MayStart : Result AttachError (Option (String × ℕ)) → Type 0
  MayStart (err _) = ⊥
  MayStart (ok none) = Unit {0}
  MayStart (ok (some (host, port))) = IsGranted host port the_claim

  preflight-MayStart :
      (endpoint : Result AttachError (Option (String × ℕ)))
      → granted (preflight serde parse_ip holder now name spec stops claimant nonces start endpoint)
        ≡ true
      → MayStart endpoint
  unfolding preflight
  preflight-MayStart (err e) grant = ground arith
  preflight-MayStart (ok none) grant = tt
  preflight-MayStart (ok (some (host, port))) grant =
      claimed-IsGranted host port the_claim (ground arith)

  abbrev pub touches : Done → Bool
  touches d = d.cleared || d.spawned || d.deletes || d.reaps

  -- what has touched something was granted before
  abbrev Granted : Option Done → Type 0
  Granted none = Unit {0}
  Granted (some d) = touches d ≡ true → MayStart (attach_endpoint spec)

  refuse-Granted : (e : StartFailure) → Granted (some (refuse e))
  unfolding refuse
  refuse-Granted e touched = ground arith

  always-Granted : (o : Option Done) → MayStart (attach_endpoint spec) → Granted o
  always-Granted none may = tt
  always-Granted (some d) may = λ touched. may

  after-Granted :
      (p : Preflight)
      → (granted p ≡ true → MayStart (attach_endpoint spec))
      → Granted (after_preflight serde parse_ip holder now name spec stops claimant nonces start p)
  unfolding after_preflight
  after-Granted (err e, w) may = refuse-Granted e
  after-Granted (ok g, w) may =
      always-Granted
        (clear_stale serde parse_ip holder now name spec stops claimant nonces start (
          endpoint_of serde parse_ip holder now name spec stops claimant nonces start
            (attach_endpoint spec)))
        (may refl)

  guarded-Granted :
      Granted (guarded serde parse_ip holder now name spec stops claimant nonces start)
  unfolding guarded
  guarded-Granted = elim (Bool-cases (start.published && cli_markers_v2 serde start.dir)) [
    | inl here ↦ rw here (refuse-Granted already_exists)
    | inr free ↦
        elim (Bool-cases
          (start.published && not (legacy_proven_dead serde now start.dir start.connects))) [
            | inl old ↦ rw (free, old) (refuse-Granted unsupported_session)
            | inr dead ↦
                rw (free, dead)
                  (after-Granted
                    (preflight serde parse_ip holder now name spec stops claimant nonces start
                      (attach_endpoint spec))
                    (preflight-MayStart (attach_endpoint spec)))
          ]
  ]

  startup-Granted :
      (r : Result StartError String)
      → Granted (with_startup serde parse_ip holder now name spec stops claimant nonces start r)
  unfolding with_startup
  startup-Granted (err e) = refuse-Granted (startup e)
  startup-Granted (ok g) = guarded-Granted

  root-Granted :
      (made : Bool)
      → Granted (with_root serde parse_ip holder now name spec stops claimant nonces start made)
  unfolding with_root
  root-Granted true = startup-Granted (acquire_startup_lock nonces.0 nonces.1 start.startup_lock).0
  root-Granted false = refuse-Granted cannot_create_root

  dir-Granted :
      (r : Result Error (Unit {0}))
      → Granted (with_dir serde parse_ip holder now name spec stops claimant nonces start r)
  unfolding with_dir
  dir-Granted (err e) = refuse-Granted (refused e)
  dir-Granted (ok tt) = root-Granted start.root_made

  name-Granted :
      (r : Result Error (Unit {0}))
      → Granted (with_name serde parse_ip holder now name spec stops claimant nonces start r)
  unfolding with_name
  name-Granted (err e) = refuse-Granted (refused e)
  name-Granted (ok tt) = dir-Granted (check_dir_real start.metadata)

  spawn-Granted : Granted (spawn_in serde parse_ip holder now name spec stops claimant nonces start)
  unfolding spawn_in
  spawn-Granted = elim (Bool-cases start.deadline_fits) [
    | inl fits ↦ rw fits (name-Granted (check_name name))
    | inr late ↦ rw late (refuse-Granted timeout_too_large)
  ]

  -- If a start has called for the removal of a directory or started a bridge, then it is no attach
  -- to an exclusive endpoint, or it holds the endpoint's lock, the lock was still its own at the last
  -- look, and no entry of the sessions root owned the endpoint or was a live session of the old schema.
  pub spawn-MayStart :
      (d : Done)
      → spawn_in serde parse_ip holder now name spec stops claimant nonces start ≡ some d
      → touches d ≡ true
      → MayStart (attach_endpoint spec)
  spawn-MayStart d done touched = (subst Granted done spawn-Granted) touched
