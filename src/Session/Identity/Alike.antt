-- ===== src/Session/Identity/Alike.antt =====
-- What the redaction of an argument list tells of the secrets in it.
use agent_debugger.Prelude.{
  ℕ, Bool, true, false, not, ◌&&◌, ◌||◌, ◌≡◌, ◌≢◌, ◌⊎◌, inl, inr, refl, ap, sym, ◌∙◌, Option, none,
  some, List, [], ◌∷◌, ◌++◌, arith, Option-cases, Bool-cases,
}
use agent_debugger.Session.Identity.Secrets.{
  Text, is_secret_flag, value_holds_secret_pair, cut_at, split_value, redacted, looks_like_flag,
  redact_one, redact_from, redact_argv,
}
use agent_debugger.Session.Identity.Redact.{
  redact_one-value, redact_one-bare, redact_one-split, split_value-cases,
}

abbrev split_free : Option (Text × Text) → Bool
split_free none = true
split_free (some _) = false

-- no separator behind a head
abbrev pub is_bare : Text → Bool
is_bare a = split_free (split_value a)

-- An argument is a value if the one before it names a secret and it does not look like a flag; a
-- bare secret flag that is no value itself names a secret.
abbrev pub is_value : Bool → Text → Bool
is_value named a = named && not (looks_like_flag a)

abbrev pub names_secret : Bool → Text → Bool
names_secret named a = not (is_value named a) && (is_bare a && is_secret_flag a)

-- what stands behind a separator is a secret, by its head or by a pair in it
abbrev pub is_secret_value : Text → Text → Bool
is_secret_value head val = is_secret_flag head || value_holds_secret_pair val

-- Two argument lists that differ in nothing but secrets: in values, and behind the separators of
-- secret heads or before secret pairs.
abbrev pub Alike : Bool → List Text → List Text → Type 0
Alike named [] [] = Unit {0}
Alike named (a ∷ as') (b ∷ bs) =
    ((a ≡ b) × Alike (names_secret named a) as' bs)
    ⊎ ((is_value named a ≡ true) × (is_value named b ≡ true) × Alike false as' bs)
    ⊎ ((head : Text) × (d : ℕ) × (v : Text) × (w : Text) × (split_value a ≡ some (head, d ∷ v))
        × (split_value b ≡ some (head, d ∷ w))
        × (is_secret_value head (d ∷ v) ≡ true)
        × (is_secret_value head (d ∷ w) ≡ true)
        × Alike false as' bs)
Alike named _ _ = ⊥

redact_one-names : (named : Bool) (a : Text) → (redact_one named a).1 ≡ names_secret named a
redact_one-names named a = elim (Bool-cases (named && not (looks_like_flag a))) [
  | inl value ↦ rw (redact_one-value named a value, value) refl
  | inr visible ↦ elim (Option-cases (split_value a)) [
    | inl bare ↦
        rw (redact_one-bare named a visible bare, visible)
          (sym (ap (λ o. split_free o && is_secret_flag a) bare))
    | inr (cut, found) ↦
        rw (redact_one-split named a cut.0 cut.1 visible found, visible)
          (sym (ap (λ o. split_free o && is_secret_flag a) found))
  ]
]

-- the same head makes the same flag
cut_at-flag :
    (d e : ℕ) (a b h v w : Text)
    → h ≢ []
    → cut_at d a ≡ some (h, v)
    → cut_at e b ≡ some (h, w)
    → looks_like_flag a ≡ looks_like_flag b
unfolding cut_at
cut_at-flag d e [] b h v w headed found found' = ground arith
cut_at-flag d e (c ∷ cs) [] h v w headed found found' = ground arith
cut_at-flag d e (c ∷ []) (k ∷ ks) h v w headed found found' = ground arith
cut_at-flag d e (c ∷ x ∷ cs) (k ∷ []) h v w headed found found' = ground arith
cut_at-flag d e (c ∷ x ∷ cs) (k ∷ y ∷ ks) h v w headed found found' = ground arith

split_value-cut :
    (a h v : Text) → split_value a ≡ some (h, v) → (h ≢ []) × (d : ℕ) × (cut_at d a ≡ some (h, v))
split_value-cut a h v found =
    let split = split_value-cases a h v found in
    elim split.1 [ inl equals ↦ (split.0, b'=', equals) | inr colon ↦ (split.0, b':', colon.1) ]

split_value-flag :
    (a b h v w : Text)
    → split_value a ≡ some (h, v)
    → split_value b ≡ some (h, w)
    → looks_like_flag a ≡ looks_like_flag b
split_value-flag a b h v w found found' =
    let cut = split_value-cut a h v found in
    let cut' = split_value-cut b h w found' in cut_at-flag cut.1 cut'.1 a b h v w cut.0 cut.2 cut'.2

secret-shown :
    (named : Bool) (a head : Text) (d : ℕ) (v : Text)
    → (named && not (looks_like_flag a)) ≡ false
    → is_secret_value head (d ∷ v) ≡ true
    → split_value a ≡ some (head, d ∷ v)
    → redact_one named a ≡ (head ++ (d ∷ redacted), false)
secret-shown named a head d v visible secret found =
    redact_one-split named a head (d ∷ v) visible found ∙ rw secret refl

split-Alike :
    (named : Bool) (a b head : Text) (d : ℕ) (v w : Text)
    → split_value a ≡ some (head, d ∷ v)
    → split_value b ≡ some (head, d ∷ w)
    → is_secret_value head (d ∷ v) ≡ true
    → is_secret_value head (d ∷ w) ≡ true
    → (redact_one named a ≡ redact_one named b) × ((redact_one named b).1 ≡ false)
split-Alike named a b head d v w found found' secret secret' =
    let same = split_value-flag a b head (d ∷ v) (d ∷ w) found found' in
    elim (Bool-cases (named && not (looks_like_flag b))) [
      | inl value ↦
          rw (redact_one-value named a (rw same value), redact_one-value named b value) (refl, refl)
      | inr visible ↦
          rw
            (
              secret-shown named a head d v (rw same visible) secret found,
              secret-shown named b head d w visible secret' found',
            )
            (refl, refl)
    ]

redact_from-Alike :
    (named : Bool) (argv argv' : List Text)
    → Alike named argv argv'
    → redact_from named argv ≡ redact_from named argv'
unfolding redact_from
redact_from-Alike named [] [] alike = refl
redact_from-Alike named [] (b ∷ bs) alike = elim alike [ ]
redact_from-Alike named (a ∷ as') [] alike = elim alike [ ]
redact_from-Alike named (a ∷ as') (b ∷ bs) alike = elim alike [
  | inl (same, rest) ↦
      rw (← same, redact_one-names named a)
        (ap (◌∷◌ (redact_one named a).0) (redact_from-Alike (names_secret named a) as' bs rest))
  | inr (inl (value, value', rest)) ↦
      rw (redact_one-value named a value, redact_one-value named b value')
        (ap (◌∷◌ redacted) (redact_from-Alike false as' bs rest))
  | inr (inr (head, d, v, w, found, found', secret, secret', rest)) ↦
      let both = split-Alike named a b head d v w found found' secret secret' in
      rw (both.0, both.1) (ap (◌∷◌ (redact_one named b).0) (redact_from-Alike false as' bs rest))
]

-- Argument lists that differ only in secrets look the same once redacted: the shown arguments tell
-- nothing of a value after a bare secret flag, nor of what stands behind the separator of a secret
-- head or holds a secret pair there.
pub redact_argv-Alike :
    (argv argv' : List Text) → Alike false argv argv' → redact_argv argv ≡ redact_argv argv'
unfolding redact_argv
redact_argv-Alike argv argv' alike = redact_from-Alike false argv argv' alike
