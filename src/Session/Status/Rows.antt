-- ===== src/Session/Status/Rows.antt =====
-- What a row of `status` says of the session.
use agent_debugger.Prelude.{
  ℕ, String, Bool, true, false, ◌&&◌, ◌≡◌, ◌≢◌, ◌⊎◌, ◌↔◌, refl, ap, inl, inr, Bool-cases,
  Option-cases, some, List, ◌==◌, arith,
}
use agent_debugger.Json.{Value, bool, get, lookup, and_then}
use agent_debugger.Json.Serde.{Serde}
use agent_debugger.Session.Paths.{Dir}
use agent_debugger.Session.Sidecar.{cli_markers_v2}
use agent_debugger.Session.Probe.{Probe, ours, not_ours, unclear}
use agent_debugger.Session.Attach.{published_recently}
use agent_debugger.Session.Layered.{layered_identity_or_null, cached_target_identity}
use agent_debugger.Session.Status.{
  seconds, live_of, row_port, probed, alive_and_hint, session_v2, session_entry,
}

-- the bridge answers, or nothing is certain and it has published in the last two minutes
abbrev pub Answers : (ℕ → Probe) → ℕ → Value → Type 0
Answers probe now live =
    (row_port live ≢ 0)
    × ((probe (row_port live) ≡ ours)
        ⊎ ((probe (row_port live) ≡ unclear) × (published_recently live 120 now ≡ true)))

probed-Answers :
    (port : ℕ) (live : Value) (now : ℕ) (p : Probe)
    → ((probed port live now p).0 ≡ true)
      ↔ ((p ≡ ours) ⊎ ((p ≡ unclear) × (published_recently live 120 now ≡ true)))
probed-Answers port live now ours = (λ e. inl refl, λ h. refl)
probed-Answers port live now (not_ours reason) =
    (λ e. cc, λ h. elim h [ inl x ↦ cc | inr y ↦ let z = y.0 in cc ])
probed-Answers port live now unclear =
    (λ e. inr (refl, e), λ h. elim h [ inl x ↦ cc | inr y ↦ y.1 ])

alive-Answers :
    (probe : ℕ → Probe) (now : ℕ) (live : Value)
    → ((alive_and_hint probe now live).0 ≡ true) ↔ Answers probe now live
unfolding alive_and_hint
alive-Answers probe now live =
    let p = probed-Answers (row_port live) live now (probe (row_port live)) in
    elim (Bool-cases (row_port live == 0)) [
      | inl zero_port ↦ rw zero_port (λ e. cc, λ h. let n = h.0 in ground arith)
      | inr port ↦ rw port (λ e. (λ z. ground arith, p.0 e), λ h. p.1 h.1)
    ]

bool-value : (a b : Bool) → some (bool a) ≡ some (bool b) → a ≡ b
bool-value a b e = ground arith

shown-Answers : {A : Type 0} {b : Bool} → ((b ≡ true) ↔ A) → (some (bool b) ≡ some (bool true)) ↔ A
shown-Answers iff = (λ e. iff.0 (bool-value _ true e), λ a. ap (λ b. some (bool b)) (iff.1 a))

-- What a row says: alive exactly if the bridge answers or seems to, stale exactly if a file of
-- the session is of another schema, and the identity that every other command shows.
abbrev pub IsHonestRow : (ℕ → Probe) → ℕ → Serde → Dir → Value → Value → Type 0
IsHonestRow probe now serde dir identity shown =
    ((get "alive" shown ≡ some (bool true)) ↔ Answers probe now (live_of serde dir))
    × ((get "stale" shown ≡ some (bool true))
        ↔ ((cli_markers_v2 serde dir && session_v2 serde dir.session) ≡ false))
    × (get "targetIdentity" shown ≡ some identity)

module _ (redact : List String → Value) (size : Value → ℕ) (now : ℕ) (serde : Serde) where
  live-identity :
      (dir : Dir)
      → layered_identity_or_null redact size
          (seconds now)
          (get "targetIdentity" (live_of serde dir))
        ≡ cached_target_identity redact size (seconds now) serde dir
  unfolding cached_target_identity lookup
  live-identity dir = elim (Option-cases (and_then dir.session serde.from_str)) [
    | inl e ↦ rw e refl
    | inr found ↦ rw found.1 refl
  ]

  -- A row of `status` says that a session is alive exactly if its port is not 0 and the probe
  -- finds our bridge there, or is unclear while the bridge has published in the last 120 seconds;
  -- it says stale exactly if lang.json, stops.json or a session.json that is there is not of schema
  -- 2; and the identity that it shows is `cached_target_identity`.
  pub session_entry-IsHonestRow :
      (probe : ℕ → Probe) (name : String) (dir : Dir)
      → IsHonestRow probe now serde dir
          (cached_target_identity redact size (seconds now) serde dir)
          (session_entry redact size now serde probe name dir)
  unfolding session_entry lookup
  session_entry-IsHonestRow probe name dir =
      let seen = alive-Answers probe now (live_of serde dir) in
      let identity = ap some (live-identity dir) in
      elim (Bool-cases (cli_markers_v2 serde dir && session_v2 serde dir.session)) [
        | inl current ↦ rw current (shown-Answers seen, (λ e. cc, λ h. cc), identity)
        | inr old ↦ rw old (shown-Answers seen, (λ e. refl, λ h. refl), identity)
      ]
