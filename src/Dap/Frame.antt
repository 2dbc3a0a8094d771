-- ===== src/Dap/Frame.antt =====
-- `validate_frame_size`, `encode_message` and `try_decode_message` of src/dap.rs.
use agent_debugger.Prelude.{
  ℕ, ◌+◌, ◌-◌, Option, none, some, List, [], ◌∷◌, ◌++◌, length, take, drop, ltb, leb, Result, ok,
  ◌>>=◌, ◌>>◌, guard, or_fail, if◌then◌else◌,
}
use agent_debugger.Json.{Value, is_object}
use agent_debugger.Json.Serde.{Serde}
use agent_debugger.Dap.Text.{from_utf8, decimal, usize_max}
use agent_debugger.Dap.Header.{literal, find_header_end, parse_content_length}

pub data FrameError : Type 0 where
  response_exceeds header_exceeds header_not_utf8 invalid_content_length : FrameError
  invalid_json expected_object : FrameError

unfoldable pub validate_header : List ℕ → ℕ → Option ℕ → Result FrameError (Unit {0})
validate_header buf max_bytes none = guard (ltb (length buf) 8192) header_exceeds
validate_header buf max_bytes (some end) = do
  guard (leb end 8192) header_exceeds
  header ← or_fail (from_utf8 (take end buf)) header_not_utf8
  len ← or_fail (parse_content_length header) invalid_content_length
  guard (leb len (max_bytes - end)) response_exceeds

unfoldable pub validate_frame_size : List ℕ → ℕ → Result FrameError (Unit {0})
unfolding validate_header
validate_frame_size buf max_bytes = do
  guard (leb (length buf) max_bytes) response_exceeds
  validate_header buf max_bytes (find_header_end buf)

unfoldable pub header_of : ℕ → List ℕ
header_of n = literal "Content-Length: " ++ (decimal n ++ (13 ∷ 10 ∷ 13 ∷ 10 ∷ []))

module _ (serde : Serde) where
  unfoldable pub encode_message : Value → List ℕ
  encode_message body = let json = serde.to_vec body in header_of (length json) ++ json

  -- the object in a complete frame, or the error that ends the wait
  unfoldable pub decode_body : List ℕ → ℕ → Result FrameError (Option (Value × ℕ))
  decode_body text body_end = do
    chars ← or_fail (from_utf8 text) invalid_json
    body ← or_fail (serde.from_utf8_str text) invalid_json
    guard (is_object body) expected_object
    ok (some (body, body_end))

  -- `checked_add` keeps the end within `usize`.
  unfoldable pub decode_at : List ℕ → ℕ → ℕ → Result FrameError (Option (Value × ℕ))
  decode_at buf header_end content_length =
      let body_end = header_end + content_length in
      if ltb usize_max body_end
      then ok none
      else if ltb (length buf) body_end
      then ok none
      else decode_body (take content_length (drop header_end buf)) body_end

  unfoldable pub try_decode_message : List ℕ → Result FrameError (Option (Value × ℕ))
  unfolding decode_at decode_body
  try_decode_message buf = elim (find_header_end buf) [
    | none ↦ ok none
    | some header_end ↦ elim (from_utf8 (take header_end buf)) [
      | none ↦ ok none
      | some header ↦ elim (parse_content_length header) [
        | none ↦ ok none
        | some content_length ↦ decode_at buf header_end content_length
      ]
    ]
  ]
