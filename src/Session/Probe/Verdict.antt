-- ===== src/Session/Probe/Verdict.antt =====
-- What the verdict of the probe proves, and that a bridge is recognised however its answer is cut.
use mathlib.Core.List.{append_assoc, append-nil}
use agent_debugger.Prelude.{
  ℕ, ◌≤◌, ◌<◌, ◌≡◌, ◌⊎◌, inl, inr, refl, ◌∙◌, ap, sym, subst, Bool, true, Option, none, some, List,
  [], ◌∷◌, ◌++◌, arith, length, take, length-append, take-append, take-length, ok, err, Result,
  Option-cases,
}
use agent_debugger.Json.{Value, is_object}
use agent_debugger.Json.Serde.{Serde, BytesBack}
use agent_debugger.Dap.Text.{usize_max}
use agent_debugger.Dap.Frame.{FrameError, encode_message, validate_frame_size, try_decode_message}
use agent_debugger.Dap.Roundtrip.{decode-encode}
use agent_debugger.Dap.Prefix.{decode-prefix, length-take-le}
use agent_debugger.Dap.Size.{validate-prefix}
use agent_debugger.Session.Probe.{
  Probe, ours, Connect, connected, Answer, closed, chunk, blocked, lost, valid_breaks_envelope,
  probe_cap, judge, probe_reads, probe_session_bridge,
}

-- The bytes are the buffer with the first chunks of the answers behind it.
abbrev pub IsReceived : List ℕ → List Answer → List ℕ → Type 0
IsReceived buf [] bytes = buf ≡ bytes
IsReceived buf (a ∷ as') bytes =
    (buf ≡ bytes) ⊎ ((c : List ℕ) × (a ≡ chunk c) × IsReceived (buf ++ c) as' bytes)

-- The bytes begin with a frame of a debugger's answer.
abbrev pub ShowsBridge : Serde → List ℕ → Type 0
ShowsBridge serde bytes =
    (v : Value) × (n : ℕ) × (try_decode_message serde bytes ≡ ok (some (v, n)))
    × (valid_breaks_envelope v ≡ true)

module _ (serde : Serde) where
  -- the decoded frame behind the verdict
  judged-frame :
      (buf : List ℕ) (r : Result FrameError (Option (Value × ℕ)))
      → try_decode_message serde buf ≡ r
      → judge serde buf ≡ some ours
      → ShowsBridge serde buf
  unfolding judge
  judged-frame buf (ok (some (v, n))) decoded verdict = (v, n, decoded, ground arith)
  judged-frame buf (ok none) decoded verdict = ground arith
  judged-frame buf (err _) decoded verdict = ground arith

  reads-judged :
      (buf : List ℕ) (answers : List Answer) (p : Probe)
      → judge serde buf ≡ some p
      → probe_reads serde buf answers ≡ some p
  unfolding probe_reads
  reads-judged buf [] p judged = judged
  reads-judged buf (a ∷ as') p judged = ground arith

  reads-chunk :
      (buf c : List ℕ) (as' : List Answer)
      → judge serde buf ≡ none
      → probe_reads serde buf (chunk c ∷ as') ≡ probe_reads serde (buf ++ c) as'
  unfolding probe_reads
  reads-chunk buf c as' waits = ground arith

  reads-judge :
      (buf : List ℕ) (answers : List Answer) (p : Probe)
      → judge serde buf ≡ some p
      → probe_reads serde buf answers ≡ some ours
      → ShowsBridge serde buf
  reads-judge buf answers p judged verdict =
      judged-frame buf (try_decode_message serde buf) refl
        (ground (arith, reads-judged buf answers p judged))

  reads-ShowsBridge :
      (buf : List ℕ) (answers : List Answer)
      → probe_reads serde buf answers ≡ some ours
      → (bytes : List ℕ) × IsReceived buf answers bytes × ShowsBridge serde bytes
  unfolding probe_reads
  reads-ShowsBridge buf [] verdict =
      (buf, refl, judged-frame buf (try_decode_message serde buf) refl verdict)
  reads-ShowsBridge buf (chunk c ∷ as') verdict = elim (Option-cases (judge serde buf)) [
    | inr (p, judged) ↦ (buf, inl refl, reads-judge buf (chunk c ∷ as') p judged verdict)
    | inl waits ↦
        let later =
          reads-ShowsBridge (buf ++ c) as' (sym (reads-chunk buf c as' waits) ∙ verdict) in
        (later.0, inr (c, refl, later.1), later.2)
  ]
  reads-ShowsBridge buf (closed ∷ as') verdict = elim (Option-cases (judge serde buf)) [
    | inr (p, judged) ↦ (buf, inl refl, reads-judge buf (closed ∷ as') p judged verdict)
    | inl waits ↦ ground arith
  ]
  reads-ShowsBridge buf (blocked ∷ as') verdict = elim (Option-cases (judge serde buf)) [
    | inr (p, judged) ↦ (buf, inl refl, reads-judge buf (blocked ∷ as') p judged verdict)
    | inl waits ↦ ground arith
  ]
  reads-ShowsBridge buf (lost ∷ as') verdict = elim (Option-cases (judge serde buf)) [
    | inr (p, judged) ↦ (buf, inl refl, reads-judge buf (lost ∷ as') p judged verdict)
    | inl waits ↦ ground arith
  ]

  -- If the probe of a port finds our bridge, then the bytes that it has received up to some read begin
  -- with a complete frame whose object is a debugger's answer to `breaks`.
  pub probe_ours-ShowsBridge :
      (c : Connect) (timeouts written : Bool) (answers : List Answer)
      → probe_session_bridge serde c timeouts written answers ≡ some ours
      → (bytes : List ℕ) × IsReceived [] answers bytes × ShowsBridge serde bytes
  unfolding probe_session_bridge
  probe_ours-ShowsBridge connected timeouts written answers verdict =
      reads-ShowsBridge [] answers (ground arith)
  probe_ours-ShowsBridge _ timeouts written answers verdict = ground arith

-- the bytes that the answers deliver, all of them chunks
abbrev pub Delivers : List Answer → List ℕ → Type 0
Delivers [] bytes = [] ≡ bytes
Delivers (a ∷ as') bytes =
    (c : List ℕ) × (rest : List ℕ) × (a ≡ chunk c) × Delivers as' rest × (c ++ rest ≡ bytes)

List-cases : (xs : List ℕ) → (xs ≡ []) ⊎ (0 < length xs)
List-cases [] = inl refl
List-cases (x ∷ xs) = inr (omega arith)

module _ (serde : Serde) (v : Value) (law : BytesBack serde v) (is_obj : is_object v ≡ true)
    (json_fits : length (serde.to_vec v) ≤ usize_max)
    (fits : length (encode_message serde v) ≤ probe_cap)
    (envelope : valid_breaks_envelope v ≡ true) where
  judge-prefix :
      (k : ℕ)
      → k < length (encode_message serde v)
      → judge serde (take k (encode_message serde v)) ≡ none
  unfolding judge
  judge-prefix k short = ground (
    arith,
    length-take-le k (encode_message serde v),
    validate-prefix serde v k probe_cap json_fits fits,
    decode-prefix serde v k json_fits short,
  )

  judge-part :
      (buf rest : List ℕ)
      → buf ++ rest ≡ encode_message serde v
      → 0 < length rest
      → judge serde buf ≡ none
  judge-part buf rest e h =
      subst (λ b. judge serde b ≡ none) (take-append buf rest)
        (rw e (judge-prefix (length buf) (omega (arith, length-append buf rest, ap length e))))

  decoded-whole :
      try_decode_message serde (encode_message serde v)
      ≡ ok (some (v, length (encode_message serde v)))
  decoded-whole =
      let all = encode_message serde v in
      subst (λ b. try_decode_message serde b ≡ ok (some (v, length all))) (append-nil all)
        (decode-encode serde v [] law is_obj (omega arith))

  valid-whole : validate_frame_size (encode_message serde v) probe_cap ≡ ok tt
  valid-whole =
      let all = encode_message serde v in
      subst (λ b. validate_frame_size b probe_cap ≡ ok tt) (take-length all)
        (validate-prefix serde v (length all) probe_cap json_fits fits (omega arith))

  judge-whole : judge serde (encode_message serde v) ≡ some ours
  unfolding judge
  judge-whole = ground (arith, valid-whole, decoded-whole)

  reads-whole :
      (buf : List ℕ) (answers : List Answer)
      → buf ++ [] ≡ encode_message serde v
      → probe_reads serde buf answers ≡ some ours
  reads-whole buf answers e =
      reads-judged serde buf answers ours
        (subst (λ b. judge serde b ≡ some ours) (sym e ∙ append-nil buf) judge-whole)

  reads_chunks-ours :
      (buf bytes : List ℕ) (answers : List Answer)
      → Delivers answers bytes
      → buf ++ bytes ≡ encode_message serde v
      → probe_reads serde buf answers ≡ some ours
  reads_chunks-ours buf bytes [] given e = reads-whole buf [] (ap (λ b. buf ++ b) given ∙ e)
  reads_chunks-ours buf bytes (a ∷ as') given e = elim (List-cases bytes) [
    | inl done ↦ reads-whole buf (a ∷ as') (ap (λ b. buf ++ b) (sym done) ∙ e)
    | inr more ↦
        let (c, rest, same, later, joined) = given in
        rw same (
          reads-chunk serde buf c as' (judge-part buf bytes e more)
          ∙ reads_chunks-ours (buf ++ c) rest as' later
              (append_assoc buf c rest ∙ ap (λ b. buf ++ b) joined ∙ e))
  ]

  -- However the encoded answer of our bridge, at most 1 MiB, is cut into reads, the probe recognises
  -- the bridge, if it connects, sets its timeouts and writes its request, and no read fails.
  pub probe_chunks-ours :
      (answers : List Answer)
      → Delivers answers (encode_message serde v)
      → probe_session_bridge serde connected true true answers ≡ some ours
  unfolding probe_session_bridge
  probe_chunks-ours answers given = reads_chunks-ours [] (encode_message serde v) answers given refl
