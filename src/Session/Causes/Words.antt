-- ===== src/Session/Causes/Words.antt =====
-- The values of bare secret flags leave no trace in a masked message.
use agent_debugger.Prelude.{
  Bool, true, false, not, ◌&&◌, ◌||◌, ◌≡◌, refl, ap, List, [], ◌∷◌, ◌++◌, any, ◌==◌, Bool-cases,
  inl, inr,
}
use agent_debugger.Session.Identity.Secrets.{Text, is_secret_flag, redacted}
use agent_debugger.Session.Identity.Alike.{is_value}
use agent_debugger.Session.Causes.{Span, mask_word, mask_spans, spans_of, mask_bare_flag_values}

abbrev holds_separator : Text → Bool
holds_separator w = any (λ c. c == b'=' || c == b':') w

-- A word names a secret if it is a secret flag without a separator and is no value itself.
abbrev pub word_names_secret : Bool → Text → Bool
word_names_secret named w = not (is_value named w) && (is_secret_flag w && not (holds_separator w))

-- Two lists of spans that differ only in values: `named` says whether the word before names a
-- secret.
pub data Alike : Bool → List Span → List Span → Type 0 where
  both_end : (named : Bool) → Alike named [] []
  same_space :
      (named : Bool) (s : Text) (xs ys : List Span)
      → Alike named xs ys
      → Alike named ((false, s) ∷ xs) ((false, s) ∷ ys)
  same_word :
      (named : Bool) (w : Text) (xs ys : List Span)
      → Alike (word_names_secret named w) xs ys
      → Alike named ((true, w) ∷ xs) ((true, w) ∷ ys)
  secret_word :
      (named : Bool) (w w' : Text) (xs ys : List Span)
      → is_value named w ≡ true
      → is_value named w' ≡ true
      → Alike false xs ys
      → Alike named ((true, w) ∷ xs) ((true, w') ∷ ys)

mask_word-value :
    (named : Bool) (w : Text) → is_value named w ≡ true → mask_word named w ≡ (redacted, false)
unfolding mask_word
mask_word-value named w value = rw value refl

mask_word-names : (named : Bool) (w : Text) → (mask_word named w).1 ≡ word_names_secret named w
unfolding mask_word
mask_word-names named w = elim (Bool-cases (is_value named w)) [
  | inl value ↦ rw value refl
  | inr visible ↦ rw visible refl
]

mask_spans-Alike :
    (named : Bool) (xs ys : List Span)
    → Alike named xs ys
    → mask_spans named xs ≡ mask_spans named ys
unfolding mask_spans
mask_spans-Alike named xs ys (both_end _) = refl
mask_spans-Alike named xs ys (same_space _ s xs' ys' alike) =
    ap (◌++◌ s) (mask_spans-Alike named xs' ys' alike)
mask_spans-Alike named xs ys (same_word _ w xs' ys' alike) =
    rw (mask_word-names named w)
      (ap (◌++◌ (mask_word named w).0) (mask_spans-Alike (word_names_secret named w) xs' ys' alike))
mask_spans-Alike named xs ys (secret_word _ w w' xs' ys' value value' alike) =
    let rest = mask_spans-Alike false xs' ys' alike in
    rw (mask_word-value named w value, mask_word-value named w' value') (ap (◌++◌ redacted) rest)

-- Messages whose words differ only in values, each behind a word that is a bare secret flag and no
-- value itself, are the same once those values are masked. A word that looks like a flag is never
-- a value.
pub mask_bare_flag-Alike :
    (s s' : Text)
    → Alike false (spans_of s) (spans_of s')
    → mask_bare_flag_values s ≡ mask_bare_flag_values s'
unfolding mask_bare_flag_values
mask_bare_flag-Alike s s' alike = mask_spans-Alike false (spans_of s) (spans_of s') alike
