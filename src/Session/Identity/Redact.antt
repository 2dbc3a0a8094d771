-- ===== src/Session/Identity/Redact.antt =====
-- What the redaction of an argument list hides, and that a second pass changes nothing.
use agent_debugger.Prelude.{
  ℕ, Bool, true, false, not, ◌&&◌, ◌||◌, ◌≡◌, ◌≢◌, ◌⊎◌, inl, inr, refl, ap, ◌∙◌, none, some, List,
  [], ◌∷◌, ◌++◌, take, arith, Option-cases, Bool-cases, if◌then◌else◌,
}
use agent_debugger.Session.Identity.Secrets.{
  Text, is_secret_flag, value_holds_secret_pair, scan, cut_at, split_value, redacted,
  looks_like_flag, redact_one, redact_from, redact_argv,
}

-- The cut of a text at `d` starts its tail with `d`, and is found again whatever follows.
cut_at-again :
    (d : ℕ) (a h v w : Text)
    → cut_at d a ≡ some (h, v)
    → (cut_at d (h ++ (d ∷ w)) ≡ some (h, d ∷ w)) × (take 1 v ≡ d ∷ [])
unfolding cut_at
cut_at-again d [] h v w found = ground arith
cut_at-again d (c ∷ cs) [] v w found = ground arith
cut_at-again d (c ∷ cs) (k ∷ hs) v w found = ground (arith, cut_at-again d cs hs v w)

-- no cut, then none after a change behind `e`
cut_at-none :
    (d e : ℕ) (a h v w : Text)
    → cut_at d a ≡ none
    → cut_at e a ≡ some (h, v)
    → cut_at d w ≡ none
    → d ≢ e
    → cut_at d (h ++ (e ∷ w)) ≡ none
unfolding cut_at
cut_at-none d e [] h v w whole found rest differ = ground arith
cut_at-none d e (c ∷ cs) [] v w whole found rest differ = ground arith
cut_at-none d e (c ∷ cs) (k ∷ hs) v w whole found rest differ =
    ground (arith, cut_at-none d e cs hs v w)

-- the two ways to be split
pub split_value-cases :
    (a h v : Text)
    → split_value a ≡ some (h, v)
    → (h ≢ [])
      × ((cut_at b'=' a ≡ some (h, v)) ⊎ ((cut_at b'=' a ≡ none) × (cut_at b':' a ≡ some (h, v))))
unfolding split_value
split_value-cases a h v found = ground arith

split_value-some :
    (a h v : Text)
    → h ≢ []
    → ((cut_at b'=' a ≡ some (h, v)) ⊎ ((cut_at b'=' a ≡ none) × (cut_at b':' a ≡ some (h, v))))
    → split_value a ≡ some (h, v)
unfolding split_value
split_value-some a h v headed cut = ground arith

redacted-uncut : cut_at b'=' redacted ≡ none
unfolding cut_at
redacted-uncut = refl

-- A masked argument is split as before.
split_value-again :
    (a h v : Text)
    → split_value a ≡ some (h, v)
    → split_value (h ++ (take 1 v ++ redacted)) ≡ some (h, take 1 v ++ redacted)
split_value-again a h v found =
    let split = split_value-cases a h v found in
    elim split.1 [
      | inl equals ↦
          let again = cut_at-again b'=' a h v redacted equals in
          rw again.1
            (split_value-some (h ++ (b'=' ∷ redacted)) h (b'=' ∷ redacted) split.0 (inl again.0))
      | inr colon ↦
          let again = cut_at-again b':' a h v redacted colon.1 in
          rw again.1 (
            split_value-some (h ++ (b':' ∷ redacted)) h (b':' ∷ redacted) split.0 (
              inr (
                cut_at-none b'=' b':' a h v redacted colon.0 colon.1 redacted-uncut (ground arith),
                again.0,
              )))
    ]

-- The mask itself holds no secret pair, whichever separator stands before it.
masked-plain :
    (a h v : Text)
    → split_value a ≡ some (h, v)
    → value_holds_secret_pair (take 1 v ++ redacted) ≡ false
unfolding value_holds_secret_pair scan
masked-plain a h v found =
    let split = split_value-cases a h v found in
    elim split.1 [
      | inl equals ↦ rw (cut_at-again b'=' a h v redacted equals).1 refl
      | inr colon ↦ rw (cut_at-again b':' a h v redacted colon.1).1 refl
    ]

-- a masked argument still looks like a flag
masked-flag :
    (d : ℕ) (a h v w : Text)
    → cut_at d a ≡ some (h, v)
    → h ≢ []
    → looks_like_flag a ≡ true
    → looks_like_flag (h ++ (d ∷ w)) ≡ true
unfolding cut_at
masked-flag d [] h v w found headed flag = ground arith
masked-flag d (c ∷ []) h v w found headed flag = ground arith
masked-flag d (c ∷ e ∷ cs) [] v w found headed flag = ground arith
masked-flag d (c ∷ e ∷ cs) (k ∷ []) v w found headed flag = ground arith
masked-flag d (c ∷ e ∷ cs) (k ∷ j ∷ hs) v w found headed flag = ground arith

split-flag :
    (a h v : Text)
    → split_value a ≡ some (h, v)
    → looks_like_flag a ≡ true
    → looks_like_flag (h ++ (take 1 v ++ redacted)) ≡ true
split-flag a h v found flag =
    let split = split_value-cases a h v found in
    elim split.1 [
      | inl equals ↦
          rw (cut_at-again b'=' a h v redacted equals).1
            (masked-flag b'=' a h v redacted equals split.0 flag)
      | inr colon ↦
          rw (cut_at-again b':' a h v redacted colon.1).1
            (masked-flag b':' a h v redacted colon.1 split.0 flag)
    ]

-- the branches of `redact_one`, each as one equation
pub redact_one-value :
    (skip : Bool) (a : Text)
    → (skip && not (looks_like_flag a)) ≡ true
    → redact_one skip a ≡ (redacted, false)
unfolding redact_one
redact_one-value skip a hidden = ground arith

pub redact_one-bare :
    (skip : Bool) (a : Text)
    → (skip && not (looks_like_flag a)) ≡ false
    → split_value a ≡ none
    → redact_one skip a ≡ (a, is_secret_flag a)
unfolding redact_one
redact_one-bare skip a visible bare = ground arith

abbrev shown : Text → Text → Text → Text
shown a head val =
    if is_secret_flag head || value_holds_secret_pair val
    then head ++ (take 1 val ++ redacted)
    else a

pub redact_one-split :
    (skip : Bool) (a head val : Text)
    → (skip && not (looks_like_flag a)) ≡ false
    → split_value a ≡ some (head, val)
    → redact_one skip a ≡ (shown a head val, false)
unfolding redact_one
redact_one-split skip a head val visible found = ground arith

-- the separator that is kept
separator : (a h v : Text) → split_value a ≡ some (h, v) → (d : ℕ) × (take 1 v ≡ d ∷ [])
separator a h v found =
    let split = split_value-cases a h v found in
    elim split.1 [
      | inl equals ↦ (b'=', (cut_at-again b'=' a h v [] equals).1)
      | inr colon ↦ (b':', (cut_at-again b':' a h v [] colon.1).1)
    ]

take-masked : (v : Text) (d : ℕ) → take 1 v ≡ d ∷ [] → take 1 (take 1 v ++ redacted) ≡ take 1 v
take-masked v d kept = rw kept refl

-- masking a masked argument
shown-masked :
    (a head val : Text)
    → split_value a ≡ some (head, val)
    → shown (head ++ (take 1 val ++ redacted)) head (take 1 val ++ redacted)
      ≡ head ++ (take 1 val ++ redacted)
shown-masked a head val found =
    let kept = take-masked val (separator a head val found).0 (separator a head val found).1 in
    ground (arith, masked-plain a head val found)

shown-again :
    (skip : Bool) (a head val : Text)
    → (skip && not (looks_like_flag a)) ≡ false
    → split_value a ≡ some (head, val)
    → redact_one skip (shown a head val) ≡ (shown a head val, false)
shown-again skip a head val visible found =
    elim (Bool-cases (is_secret_flag head || value_holds_secret_pair val)) [
      | inl secret ↦
          let masked = head ++ (take 1 val ++ redacted) in
          let still : (skip && not (looks_like_flag masked)) ≡ false =
            ground (arith, split-flag a head val found) in
          let twice =
            redact_one-split skip masked head (take 1 val ++ redacted) still
              (split_value-again a head val found) in
          rw secret (twice ∙ ap (λ t. (t, false)) (shown-masked a head val found))
      | inr plain ↦
          rw plain
            (redact_one-split skip a head val visible found ∙ ap (λ t. (t, false)) (rw plain refl))
    ]

-- the mask is kept in place of a value
redact_one-again :
    (skip : Bool) (a : Text) → redact_one skip (redact_one skip a).0 ≡ redact_one skip a
redact_one-again skip a = elim (Bool-cases (skip && not (looks_like_flag a))) [
  | inl hidden ↦ rw (redact_one-value skip a hidden) (redact_one-value skip redacted (ground arith))
  | inr visible ↦ elim (Option-cases (split_value a)) [
    | inl bare ↦ rw (redact_one-bare skip a visible bare) (redact_one-bare skip a visible bare)
    | inr ((head, val), found) ↦
        rw (redact_one-split skip a head val visible found)
          (shown-again skip a head val visible found)
  ]
]

redact_from_idem :
    (skip : Bool) (argv : List Text)
    → redact_from skip (redact_from skip argv) ≡ redact_from skip argv
unfolding redact_from
redact_from_idem skip [] = refl
redact_from_idem skip (a ∷ argv) =
    ground (arith, redact_one-again skip a, redact_from_idem (redact_one skip a).1 argv)

-- Redacting an argument list a second time changes nothing.
pub redact_argv_idem : (argv : List Text) → redact_argv (redact_argv argv) ≡ redact_argv argv
unfolding redact_argv
redact_argv_idem argv = redact_from_idem false argv
