-- ===== src/Session/Probe.antt =====
-- `probe_session_bridge` of src/session/attach.rs: is the listener on a port our bridge?
pub mod Verdict
use agent_debugger.Prelude.{
  ℕ, ◌*◌, String, Bool, true, false, Option, none, some, List, [], ◌∷◌, ◌++◌, length, ltb, ok, err,
  if◌then◌else◌,
}
use agent_debugger.Json.{Value, get, as_bool, as_array, as_str, and_then}
use agent_debugger.Json.Serde.{Serde}
use agent_debugger.Dap.Frame.{validate_frame_size, try_decode_message}

pub data Probe : Type 0 where
  ours : Probe
  not_ours : String → Probe
  unclear : Probe

-- how the connection attempt ends
pub data Connect : Type 0 where
  connected refused reset connect_failed : Connect

-- how a read of the probe ends: `blocked` is `WouldBlock` or `TimedOut`
pub data Answer : Type 0 where
  closed : Answer
  chunk : List ℕ → Answer
  blocked : Answer
  lost : Answer

abbrev is_some {ℓ} : {A : Type ℓ} → Option A → Bool
is_some none = false
is_some (some _) = true

-- the shape of an answer to `breaks`
unfoldable pub valid_breaks_envelope : Value → Bool
valid_breaks_envelope v = elim (and_then (get "ok" v) as_bool) [
  | none ↦ false
  | some true ↦ is_some (and_then (get "stops" v) as_array)
  | some false ↦ is_some (and_then (get "error" v) as_str)
]

abbrev pub probe_cap : ℕ
probe_cap = 1024 * 1024

module _ (serde : Serde) where
  -- what the buffer tells before the next read, or `none` to read on
  unfoldable pub judge : List ℕ → Option Probe
  unfolding valid_breaks_envelope
  judge buf =
      if ltb probe_cap (length buf)
      then some (not_ours "oversize frame")
      else elim (validate_frame_size buf probe_cap) [
        | err _ ↦ some (not_ours "invalid protocol")
        | ok _ ↦ elim (try_decode_message serde buf) [
          | err _ ↦ some (not_ours "invalid protocol")
          | ok none ↦ none
          | ok (some (v, _)) ↦
              some (if valid_breaks_envelope v then ours else not_ours "unexpected protocol")
        ]
      ]

  -- `none` when the answers are used up and the probe still reads
  unfoldable pub probe_reads : List ℕ → List Answer → Option Probe
  probe_reads buf [] = judge buf
  probe_reads buf (a ∷ as') = elim (judge buf) [
    | some verdict ↦ some verdict
    | none ↦ elim a [
      | closed ↦ some (not_ours "closed connection")
      | chunk bytes ↦ probe_reads (buf ++ bytes) as'
      | blocked ↦ some unclear
      | lost ↦ some (not_ours "connection lost")
    ]
  ]

  -- `timeouts`: both socket timeouts were set; `written`: the request was written
  unfoldable pub probe_session_bridge :
      Connect → (timeouts written : Bool) → List Answer → Option Probe
  unfolding probe_reads
  probe_session_bridge refused timeouts written answers = some (not_ours "connection refused")
  probe_session_bridge reset timeouts written answers = some (not_ours "connection reset")
  probe_session_bridge connect_failed timeouts written answers = some unclear
  probe_session_bridge connected timeouts written answers =
      let verdict = probe_reads [] answers in
      if timeouts
      then (if written then verdict else some (not_ours "connection lost"))
      else some unclear
