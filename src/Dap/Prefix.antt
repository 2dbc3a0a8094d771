-- ===== src/Dap/Prefix.antt =====
-- A frame that has not arrived whole is never an error and never a message: the caller reads on.
use agent_debugger.Prelude.{
  ℕ, zero, suc, ◌+◌, ◌-◌, ◌≤◌, ◌<◌, ◌≡◌, refl, ◌∙◌, ap, none, List, [], ◌∷◌, ◌++◌, All, arith,
  length, take, length-append, ok, inl, inr, ltb, Bool-cases,
}
use agent_debugger.Json.{Value}
use agent_debugger.Json.Serde.{Serde}
use agent_debugger.Dap.Text.{usize_max}
use agent_debugger.Dap.Text.Ascii.{IsPlain}
use agent_debugger.Dap.Header.{find_header_end}
use agent_debugger.Dap.Frame.{header_of, encode_message, decode_at, try_decode_message}
use agent_debugger.Dap.Roundtrip.{
  header_text, header_text-IsPlain, at_header_end-ne, header_of-append, length-header_of,
  try_decode_message-header_of,
}

pub length-take-le {ℓ} : {A : Type ℓ} (k : ℕ) (xs : List A) → length (take k xs) ≤ k
length-take-le zero xs = omega arith
length-take-le (suc k) [] = omega arith
length-take-le (suc k) (x ∷ xs) = omega (arith, length-take-le k xs)

-- A cut behind the front part keeps all of it.
pub take-append_ge {ℓ} :
    {A : Type ℓ} (k : ℕ) (xs ys : List A)
    → length xs ≤ k
    → take k (xs ++ ys) ≡ xs ++ take (k - length xs) ys
take-append_ge k [] ys h = ap (λ n. take n ys) (omega arith)
take-append_ge zero (x ∷ xs) ys h = absurd (omega arith)
take-append_ge (suc k) (x ∷ xs) ys h =
    ap (◌∷◌ x) (take-append_ge k xs ys (omega arith) ∙ ap (λ n. xs ++ take n ys) (omega arith))

pub find_header_end-take :
    (k : ℕ) (xs ys : List ℕ)
    → All IsPlain xs
    → k < length xs + 4
    → find_header_end (take k (xs ++ 13 ∷ 10 ∷ 13 ∷ 10 ∷ ys)) ≡ none
unfolding find_header_end
find_header_end-take zero [] ys p h = refl
find_header_end-take (suc zero) [] ys p h = refl
find_header_end-take (suc (suc zero)) [] ys p h = refl
find_header_end-take (suc (suc (suc zero))) [] ys p h = refl
find_header_end-take (suc (suc (suc (suc k)))) [] ys p h = absurd (omega arith)
find_header_end-take zero (x ∷ xs) ys p h = refl
find_header_end-take (suc k) (x ∷ xs) ys p h = ground (
  arith,
  at_header_end-ne x (take k (xs ++ 13 ∷ 10 ∷ 13 ∷ 10 ∷ ys)) p.0.1,
  find_header_end-take k xs ys p.1,
)

module _ (serde : Serde) where
  no_header : (buf : List ℕ) → find_header_end buf ≡ none → try_decode_message serde buf ≡ ok none
  unfolding try_decode_message
  no_header buf h = ground arith

  short_body :
      (buf : List ℕ) (end n : ℕ) → length buf < end + n → decode_at serde buf end n ≡ ok none
  unfolding decode_at
  short_body buf end n h = ground arith

  -- Every proper prefix of an encoded message decodes to `Ok(None)`.
  pub decode-prefix :
      (v : Value) (k : ℕ)
      → length (serde.to_vec v) ≤ usize_max
      → k < length (encode_message serde v)
      → try_decode_message serde (take k (encode_message serde v)) ≡ ok none
  unfolding encode_message
  decode-prefix v k fits short =
      let json = serde.to_vec v in
      let n = length json in
      let header = header_of n in
      elim (Bool-cases (ltb k (length header))) [
        | inl early ↦ no_header (take k (header ++ json)) (
            rw (header_of-append n json) (
              find_header_end-take k (header_text n) json (header_text-IsPlain n)
                (ground (arith, length-header_of n))))
        | inr late ↦ rw (take-append_ge k header json (ground arith)) (
            try_decode_message-header_of serde n (take (k - length header) json) fits
            ∙ short_body (header ++ take (k - length header) json) (length header) n (
                ground (
                  arith,
                  length-append header (take (k - length header) json),
                  length-take-le (k - length header) json,
                  length-append header json,
                )))
      ]
