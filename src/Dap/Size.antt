-- ===== src/Dap/Size.antt =====
-- What `validate_frame_size` bounds, and what it lets through.
use agent_debugger.Prelude.{
  ℕ, suc, ◌+◌, ◌-◌, ◌≤◌, ◌<◌, ◌≡◌, refl, Option, true, none, some, List, [], ◌∷◌, ◌++◌, arith,
  length, take, length-append, take-append, ok, inl, inr, ltb, Bool-cases,
}
use agent_debugger.Json.{Value}
use agent_debugger.Json.Serde.{Serde}
use agent_debugger.Dap.Text.{usize_max, from_utf8}
use agent_debugger.Dap.Text.Ascii.{from_utf8-ascii}
use agent_debugger.Dap.Text.Decimal.{length-decimal}
use agent_debugger.Dap.Header.{at_header_end, next_index, find_header_end, parse_content_length}
use agent_debugger.Dap.Frame.{header_of, encode_message, validate_frame_size}
use agent_debugger.Dap.Roundtrip.{
  header_text, header_text-IsPlain, header_of-append, length-header_of, header_of-IsAscii,
  find_header_end-header_of, parse_content_length-header_of,
}
use agent_debugger.Dap.Prefix.{length-take-le, take-append_ge, find_header_end-take}

at_header_end-length : (buf : List ℕ) → at_header_end buf ≡ true → 4 ≤ length buf
at_header_end-length (a ∷ b ∷ c ∷ d ∷ r) h = omega arith
at_header_end-length (a ∷ b ∷ c ∷ []) h = cc
at_header_end-length (a ∷ b ∷ []) h = cc
at_header_end-length (a ∷ []) h = cc
at_header_end-length [] h = cc

next_index-some :
    (o : Option ℕ) {e : ℕ} → next_index o ≡ some e → (i : ℕ) × (o ≡ some i) × (e ≡ suc i)
next_index-some none h = cc
next_index-some (some i) h = (i, refl, cc)

find_header_end-le : (buf : List ℕ) (end : ℕ) → find_header_end buf ≡ some end → end ≤ length buf
unfolding find_header_end
find_header_end-le [] end h = cc
find_header_end-le (b ∷ bs) end h = elim (Bool-cases (at_header_end (b ∷ bs))) [
  | inl here ↦ ground (arith, at_header_end-length (b ∷ bs) here)
  | inr later ↦
      let (i, e, q) = next_index-some (find_header_end bs) (rw later at h) in
      omega (arith, find_header_end-le bs i e)
]

-- An accepted buffer is within the bound, its header within 8192 bytes, and the frame that the
-- header declares is within the bound too, before its body has arrived.
pub validate-bounds :
    (buf : List ℕ) (max_bytes end n : ℕ) (header : List ℕ)
    → validate_frame_size buf max_bytes ≡ ok tt
    → find_header_end buf ≡ some end
    → from_utf8 (take end buf) ≡ some header
    → parse_content_length header ≡ some n
    → (length buf ≤ max_bytes) × (end ≤ 8192) × (end + n ≤ max_bytes)
unfolding validate_frame_size
validate-bounds buf max_bytes end n header valid found utf8 declared =
    ground (arith, find_header_end-le buf end found)

length-header : (n : ℕ) → n ≤ usize_max → length (header_of n) ≤ 40
unfolding header_text
length-header n h = omega (arith, length-header_of n, length-decimal n h)

validate-early :
    (buf : List ℕ) (max_bytes : ℕ)
    → find_header_end buf ≡ none
    → length buf ≤ max_bytes
    → length buf < 8192
    → validate_frame_size buf max_bytes ≡ ok tt
unfolding validate_frame_size
validate-early buf max_bytes e h k = ground arith

validate-late :
    (n max_bytes : ℕ) (ys : List ℕ)
    → n ≤ usize_max
    → length (header_of n ++ ys) ≤ max_bytes
    → length (header_of n) + n ≤ max_bytes
    → validate_frame_size (header_of n ++ ys) max_bytes ≡ ok tt
unfolding validate_frame_size
validate-late n max_bytes ys fits short whole = ground (
  arith,
  length-header n fits,
  find_header_end-header_of n ys,
  take-append (header_of n) ys,
  from_utf8-ascii (header_of n) (header_of-IsAscii n),
  parse_content_length-header_of n fits,
)

-- While a message that fits the bound arrives, no buffer on the way is refused.
pub validate-prefix :
    (serde : Serde) (v : Value) (k max_bytes : ℕ)
    → length (serde.to_vec v) ≤ usize_max
    → length (encode_message serde v) ≤ max_bytes
    → k ≤ length (encode_message serde v)
    → validate_frame_size (take k (encode_message serde v)) max_bytes ≡ ok tt
unfolding encode_message
validate-prefix serde v k max_bytes fits bound arrived =
    let json = serde.to_vec v in
    let n = length json in
    let header = header_of n in
    let whole : length (header ++ json) ≡ length header + n = length-append header json in
    let cut = length-append header (take (k - length header) json) in
    let below = length-take-le (k - length header) json in
    elim (Bool-cases (ltb k (length header))) [
      | inl early ↦
          validate-early (take k (header ++ json)) max_bytes
            (rw (header_of-append n json) (
              find_header_end-take k (header_text n) json (header_text-IsPlain n)
                (ground (arith, length-header_of n))))
            (ground (arith, length-take-le k (header ++ json)))
            (ground (arith, length-take-le k (header ++ json), length-header n fits))
      | inr late ↦ rw (take-append_ge k header json (ground arith)) (
          validate-late n max_bytes (take (k - length header) json) fits
            (ground (arith, cut, below, whole)) (ground (arith, whole)))
    ]
