-- ===== src/Client/Chunks.antt =====
-- The answer does not depend on how the response is cut into reads, and the loop always ends.
use mathlib.Core.List.{append_assoc, append-nil}
use agent_debugger.Prelude.{
  ℕ, ◌≤◌, ◌<◌, ◌≡◌, ◌≢◌, refl, ◌∙◌, ap, sym, Bool, true, false, none, some, List, [], ◌∷◌, ◌++◌,
  arith, length, Result, take, length-append, take-append, take-length, ok, inl, inr, subst, ◌⊎◌,
}
use agent_debugger.Json.{Value, is_object}
use agent_debugger.Json.Serde.{Serde, BytesBack}
use agent_debugger.Dap.Text.{usize_max}
use agent_debugger.Dap.Frame.{encode_message, validate_frame_size, try_decode_message}
use agent_debugger.Dap.Roundtrip.{decode-encode}
use agent_debugger.Dap.Prefix.{decode-prefix}
use agent_debugger.Dap.Size.{validate-prefix}
use agent_debugger.Client.{
  Read, end_of_stream, bytes, transient, failed, Turn, RequestError, max_frame_bytes, inspect,
  receive, request,
}

-- the bytes that the turns deliver
abbrev pub delivered : List Turn → List ℕ
delivered [] = []
delivered (t ∷ ts) = elim t.read [ bytes chunk ↦ chunk ++ delivered ts | _ ↦ delivered ts ]

-- before the deadline, bytes or faults that are retried
abbrev pub IsHealthy : List Turn → Type 0
IsHealthy [] = Unit
IsHealthy (t ∷ ts) =
    (t.expired ≡ false) × (t.read ≢ end_of_stream) × (t.read ≢ failed) × IsHealthy ts

-- some turn finds the deadline past
abbrev pub has_deadline : List Turn → Bool
has_deadline [] = false
has_deadline (t ∷ ts) = elim t.expired [ true ↦ true | false ↦ has_deadline ts ]

Read-cases :
    (r : Read) → r ≢ end_of_stream → r ≢ failed → ((c : List ℕ) × (r ≡ bytes c)) ⊎ (r ≡ transient)
Read-cases end_of_stream h k = absurd (h refl)
Read-cases (bytes c) h k = inl (c, refl)
Read-cases transient h k = inr refl
Read-cases failed h k = absurd (k refl)

List-cases : (xs : List ℕ) → (xs ≡ []) ⊎ (0 < length xs)
List-cases [] = inl refl
List-cases (x ∷ xs) = inr (omega arith)

delivered-bytes :
    (c : List ℕ) (t : Turn) (ts : List Turn)
    → t.read ≡ bytes c
    → delivered (t ∷ ts) ≡ c ++ delivered ts
delivered-bytes c t ts r = ground arith

delivered-transient :
    (t : Turn) (ts : List Turn) → t.read ≡ transient → delivered (t ∷ ts) ≡ delivered ts
delivered-transient t ts r = ground arith

module _ (serde : Serde) where
  receive-bytes :
      (buf chunk : List ℕ) (t : Turn) (ts : List Turn)
      → inspect serde buf ≡ none
      → t.expired ≡ false
      → t.read ≡ bytes chunk
      → receive serde buf (t ∷ ts) ≡ receive serde (buf ++ chunk) ts
  unfolding receive
  receive-bytes buf chunk t ts i e r = ground arith

  receive-transient :
      (buf : List ℕ) (t : Turn) (ts : List Turn)
      → inspect serde buf ≡ none
      → t.expired ≡ false
      → t.read ≡ transient
      → receive serde buf (t ∷ ts) ≡ receive serde buf ts
  unfolding receive
  receive-transient buf t ts i e r = ground arith

  receive-answer :
      (buf : List ℕ) (ts : List Turn) {a : Result RequestError Value}
      → inspect serde buf ≡ some a
      → receive serde buf ts ≡ some a
  unfolding receive
  receive-answer buf [] i = i
  receive-answer buf (t ∷ ts) i = ground arith

module _ (serde : Serde) (v : Value) (law : BytesBack serde v) (is_obj : is_object v ≡ true)
    (json_fits : length (serde.to_vec v) ≤ usize_max)
    (fits : length (encode_message serde v) ≤ max_frame_bytes) where
  inspect-prefix :
      (k : ℕ)
      → k < length (encode_message serde v)
      → inspect serde (take k (encode_message serde v)) ≡ none
  unfolding inspect
  inspect-prefix k short = ground (
    arith,
    validate-prefix serde v k max_frame_bytes json_fits fits,
    decode-prefix serde v k json_fits short,
  )

  inspect-part :
      (buf rest : List ℕ)
      → buf ++ rest ≡ encode_message serde v
      → 0 < length rest
      → inspect serde buf ≡ none
  inspect-part buf rest e h =
      subst (λ b. inspect serde b ≡ none) (take-append buf rest)
        (rw e (inspect-prefix (length buf) (omega (arith, length-append buf rest, ap length e))))

  inspect-whole : inspect serde (encode_message serde v) ≡ some (ok v)
  unfolding inspect
  inspect-whole = ground (arith, valid, decoded)
    where
      all : List ℕ
      all = encode_message serde v

      valid : validate_frame_size all max_frame_bytes ≡ ok tt
      valid =
          subst (λ b. validate_frame_size b max_frame_bytes ≡ ok tt) (take-length all)
            (validate-prefix serde v (length all) max_frame_bytes json_fits fits (omega arith))

      decoded : try_decode_message serde all ≡ ok (some (v, length all))
      decoded =
          subst (λ b. try_decode_message serde b ≡ ok (some (v, length all))) (append-nil all)
            (decode-encode serde v [] law is_obj (omega arith))

  receive-whole :
      (buf : List ℕ) (ts : List Turn)
      → buf ++ [] ≡ encode_message serde v
      → receive serde buf ts ≡ some (ok v)
  receive-whole buf ts e =
      receive-answer serde buf ts
        (subst (λ b. inspect serde b ≡ some (ok v)) (sym e ∙ append-nil buf) inspect-whole)

  receive-chunks :
      (buf : List ℕ) (ts : List Turn)
      → IsHealthy ts
      → buf ++ delivered ts ≡ encode_message serde v
      → receive serde buf ts ≡ some (ok v)
  receive-chunks buf [] h e = receive-whole buf [] e
  receive-chunks buf (t ∷ ts) h e = elim (List-cases (delivered (t ∷ ts))) [
    | inl done ↦ receive-whole buf (t ∷ ts) (ap (λ d. buf ++ d) (sym done) ∙ e)
    | inr more ↦
        let waits = inspect-part buf (delivered (t ∷ ts)) e more in
        elim (Read-cases t.read h.1 h.2) [
          | inl (c, r) ↦
              receive-bytes serde buf c t ts waits h.0 r
              ∙ receive-chunks (buf ++ c) ts h.3 (
                  append_assoc buf c (delivered ts)
                  ∙ ap (λ d. buf ++ d) (sym (delivered-bytes c t ts r))
                  ∙ e)
          | inr r ↦
              receive-transient serde buf t ts waits h.0 r
              ∙ receive-chunks buf ts h.3
                  (ap (λ d. buf ++ d) (sym (delivered-transient t ts r)) ∙ e)
        ]
  ]

  -- However a response of at most 64 MiB is cut into reads, and whatever retried faults come between
  -- them, `request` returns the object that the bridge encoded, if the reads come before the deadline.
  pub request-chunks :
      (ts : List Turn)
      → IsHealthy ts
      → delivered ts ≡ encode_message serde v
      → request serde ts ≡ some (ok v)
  unfolding request
  request-chunks ts h e = receive-chunks [] ts h e

module _ (serde : Serde) where
  receive-ends :
      (buf : List ℕ) (ts : List Turn) → has_deadline ts ≡ true → receive serde buf ts ≢ none
  unfolding receive
  receive-ends buf [] h = cc
  receive-ends buf (t ∷ ts) h = grind (arith, λ (b : List ℕ). receive-ends b ts)

  -- The loop ends at the latest at the first turn that finds the deadline past.
  pub request-ends : (ts : List Turn) → has_deadline ts ≡ true → request serde ts ≢ none
  unfolding request
  request-ends ts h = receive-ends [] ts h
