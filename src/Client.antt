-- ===== src/Client.antt =====
-- src/client.rs: one request over a connection. The socket and the clock enter as the list of what
-- each read returns, each with the test of the deadline that comes before it.
pub mod Chunks
use agent_debugger.Prelude.{
  ℕ, ◌*◌, Bool, true, false, Option, none, some, List, [], ◌∷◌, ◌++◌, Result, ok, err,
}
use agent_debugger.Json.{Value}
use agent_debugger.Json.Serde.{Serde}
use agent_debugger.Dap.Frame.{FrameError, validate_frame_size, try_decode_message}

abbrev pub max_frame_bytes : ℕ
max_frame_bytes = 64 * 1024 * 1024

-- What `sock.read` returns: no byte at the end of the stream, some bytes, one of the three error
-- kinds that are retried, or another error, of the read or of the `set_read_timeout` before it.
pub data Read : Type 0 where
  end_of_stream : Read
  bytes : List ℕ → Read
  transient : Read
  failed : Read

-- One turn of the loop: is the deadline past when it is tested, and what the read returns if not.
pub record Turn : Type 0 where
  pub expired : Bool
  pub read : Read

pub data RequestError : Type 0 where
  frame : FrameError → RequestError
  timed_out : RequestError
  closed_mid_response : RequestError
  read_failed : RequestError

module _ (serde : Serde) where
  -- the last attempt at the end of the stream
  unfoldable pub at_end_of_stream : List ℕ → Result RequestError Value
  at_end_of_stream buf = elim (try_decode_message serde buf) [
    | err e ↦ err (frame e)
    | ok none ↦ err closed_mid_response
    | ok (some (value, _)) ↦ ok value
  ]

  -- What the loop does with the buffer before it reads: an answer, or `none` to read on.
  unfoldable pub inspect : List ℕ → Option (Result RequestError Value)
  inspect buf = elim (validate_frame_size buf max_frame_bytes) [
    | err e ↦ some (err (frame e))
    | ok _ ↦ elim (try_decode_message serde buf) [
      | err e ↦ some (err (frame e))
      | ok none ↦ none
      | ok (some (value, _)) ↦ some (ok value)
    ]
  ]

  -- `none` when the given turns are used up and the loop still waits.
  unfoldable pub receive : List ℕ → List Turn → Option (Result RequestError Value)
  receive buf [] = inspect buf
  receive buf (turn ∷ turns) = elim (inspect buf) [
    | some answer ↦ some answer
    | none ↦ elim turn.expired [
      | true ↦ some (err timed_out)
      | false ↦ elim turn.read [
        | end_of_stream ↦ some (at_end_of_stream buf)
        | bytes chunk ↦ receive (buf ++ chunk) turns
        | transient ↦ receive buf turns
        | failed ↦ some (err read_failed)
      ]
    ]
  ]

  -- `request` after the connection is made and the body written
  unfoldable pub request : List Turn → Option (Result RequestError Value)
  request turns = receive [] turns
