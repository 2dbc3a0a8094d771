-- ===== src/Dap/Roundtrip.antt =====
-- A framed message is decoded whole, whatever follows it in the buffer.
use mathlib.Core.List.{append_assoc}
use agent_debugger.Prelude.{
  ℕ, ◌+◌, ◌≤◌, ◌≡◌, ◌≢◌, refl, ap, ◌∙◌, true, false, some, List, [], ◌∷◌, ◌++◌, All, All-append,
  All-map, arith, length, length-append, take-append, drop-append, ok,
}
use agent_debugger.Json.{Value, is_object}
use agent_debugger.Json.Serde.{Serde, BytesBack}
use agent_debugger.Dap.Text.{
  decimal, usize_max, split_once, trim, trim_start, trim_end, is_whitespace, eq_ignore_ascii_case,
  parse_usize, to_ascii_lowercase, same_codes,
}
use agent_debugger.Dap.Text.Ascii.{
  IsAscii, IsDigit, IsPlain, from_utf8-ascii, lines-header, trim-blank-digits,
}
use agent_debugger.Dap.Text.Decimal.{decimal-digits, parse_usize-decimal}
use agent_debugger.Dap.Header.{literal, at_header_end, find_header_end, parse_content_length}
use agent_debugger.Dap.Frame.{header_of, encode_message, decode_at, decode_body, try_decode_message}

-- the header line without its end
unfoldable pub header_text : ℕ → List ℕ
header_text n = literal "Content-Length: " ++ decimal n

pub at_header_end-ne : (x : ℕ) (l : List ℕ) → x ≢ 13 → at_header_end (x ∷ l) ≡ false
at_header_end-ne x [] h = refl
at_header_end-ne x (a ∷ []) h = refl
at_header_end-ne x (a ∷ b ∷ []) h = refl
at_header_end-ne x (a ∷ b ∷ c ∷ l) h = ground arith

pub find_header_end-plain :
    (xs ys : List ℕ)
    → All IsPlain xs
    → find_header_end (xs ++ 13 ∷ 10 ∷ 13 ∷ 10 ∷ ys) ≡ some (length xs + 4)
unfolding find_header_end
find_header_end-plain [] ys h = refl
find_header_end-plain (x ∷ xs) ys h = ground (
  arith,
  at_header_end-ne x (xs ++ 13 ∷ 10 ∷ 13 ∷ 10 ∷ ys) h.0.1,
  find_header_end-plain xs ys h.1,
)

pub header_text-IsPlain : (n : ℕ) → All IsPlain (header_text n)
unfolding header_text
header_text-IsPlain n =
    All-append IsPlain (literal "Content-Length: ") (decimal n) (omega arith)
      (All-map IsDigit IsPlain (decimal n) (λ c h. omega arith) (decimal-digits n))

pub header_of-IsAscii : (n : ℕ) → IsAscii (header_of n)
unfolding header_of
header_of-IsAscii n =
    All-append _ (literal "Content-Length: ") (decimal n ++ 13 ∷ 10 ∷ 13 ∷ 10 ∷ []) (omega arith) (
      All-append _ (decimal n) (13 ∷ 10 ∷ 13 ∷ 10 ∷ [])
        (All-map IsDigit _ (decimal n) (λ c h. omega arith) (decimal-digits n)) (omega arith))

pub header_of-append :
    (n : ℕ) (ys : List ℕ) → header_of n ++ ys ≡ header_text n ++ 13 ∷ 10 ∷ 13 ∷ 10 ∷ ys
unfolding header_of header_text
header_of-append n ys =
    ap (λ (l : List ℕ). literal "Content-Length: " ++ l)
      (append_assoc (decimal n) (13 ∷ 10 ∷ 13 ∷ 10 ∷ []) ys)

pub length-header_of : (n : ℕ) → length (header_of n) ≡ length (header_text n) + 4
unfolding header_of header_text
length-header_of n = omega (arith, length-append (decimal n) (13 ∷ 10 ∷ 13 ∷ 10 ∷ []))

pub find_header_end-header_of :
    (n : ℕ) (ys : List ℕ) → find_header_end (header_of n ++ ys) ≡ some (length (header_of n))
find_header_end-header_of n ys =
    rw (header_of-append n ys, length-header_of n)
      (find_header_end-plain (header_text n) ys (header_text-IsPlain n))

header_of-lines : (n : ℕ) → header_of n ≡ header_text n ++ 13 ∷ 10 ∷ 13 ∷ 10 ∷ []
unfolding header_of header_text
header_of-lines n = refl

-- The header that `encode_message` writes for a length is parsed to that length.
pub parse_content_length-header_of :
    (n : ℕ) → n ≤ usize_max → parse_content_length (header_of n) ≡ some n
unfolding parse_content_length
parse_content_length-header_of n h =
    rw (header_of-lines n, lines-header (header_text n) (header_text-IsPlain n))
      (unfold header_text split_once eq_ignore_ascii_case to_ascii_lowercase same_codes trim
          trim_start trim_end is_whitespace in
        ap parse_usize (trim-blank-digits (decimal n) (decimal-digits n)) ∙ parse_usize-decimal n h)

module _ (serde : Serde) where
  -- What `try_decode_message` does with a buffer that starts with such a header.
  pub try_decode_message-header_of :
      (n : ℕ) (ys : List ℕ)
      → n ≤ usize_max
      → try_decode_message serde (header_of n ++ ys)
        ≡ decode_at serde (header_of n ++ ys) (length (header_of n)) n
  unfolding try_decode_message
  try_decode_message-header_of n ys h = ground (
    arith,
    find_header_end-header_of n ys,
    take-append (header_of n) ys,
    from_utf8-ascii (header_of n) (header_of-IsAscii n),
    parse_content_length-header_of n h,
  )

  -- A complete body is decoded.
  pub decode_at_complete :
      (v : Value) (header rest : List ℕ)
      → BytesBack serde v
      → is_object v ≡ true
      → length header + length (serde.to_vec v) ≤ usize_max
      → decode_at serde
          (header ++ (serde.to_vec v ++ rest))
          (length header)
          (length (serde.to_vec v))
        ≡ ok (some (v, length header + length (serde.to_vec v)))
  unfolding decode_at decode_body
  decode_at_complete v header rest law is_obj fits =
      let json = serde.to_vec v in
      ground (
        arith,
        drop-append header (json ++ rest),
        take-append json rest,
        length-append header (json ++ rest),
        length-append json rest,
        law.utf8,
        law.back,
      )

  -- A buffer that starts with the encoding of an object is decoded to that object and to the length
  -- of its encoding, whatever follows.
  pub decode-encode :
      (v : Value) (rest : List ℕ)
      → BytesBack serde v
      → is_object v ≡ true
      → length (encode_message serde v) ≤ usize_max
      → try_decode_message serde (encode_message serde v ++ rest)
        ≡ ok (some (v, length (encode_message serde v)))
  unfolding encode_message
  decode-encode v rest law is_obj fits =
      let json = serde.to_vec v in
      let header = header_of (length json) in
      let size : length (header ++ json) ≡ length header + length json =
        length-append header json in
      rw (append_assoc header json rest, size)
        (try_decode_message-header_of (length json) (json ++ rest) (omega (arith, size))
          ∙ decode_at_complete v header rest law is_obj (omega (arith, size)))
