-- ===== src/Session/Causes.antt =====
-- src/session/attach.rs: how a failed attach is diagnosed, and how the adapter's own message is
-- freed of secrets.
pub mod Keyed
pub mod Hidden
pub mod Words
use agent_debugger.Prelude.{
  ℕ, zero, suc, ◌+◌, ◌-◌, Bool, true, false, not, ◌&&◌, ◌||◌, Option, none, some, List, [], ◌∷◌,
  ◌++◌, any, length, take, drop, leb, ltb, ◌==◌, if◌then◌else◌,
}
use agent_debugger.Dap.Header.{literal}
use agent_debugger.Dap.Text.{decimal, to_ascii_lowercase}
use agent_debugger.Session.Identity.Secrets.{Text, is_secret_flag, looks_like_flag, redacted}

pub data Diagnosis : Type 0 where
  closed_during_attach rejected not_listening unreachable : Diagnosis

pub data Confidence : Type 0 where
  low medium high : Confidence

-- from the listener seen before the attach and after the failure; `none` is unknown
unfoldable pub attach_diagnosis : Option Bool → Option Bool → Diagnosis × Confidence
attach_diagnosis (some true) (some false) = (closed_during_attach, medium)
attach_diagnosis (some true) (some true) = (rejected, medium)
attach_diagnosis (some false) (some true) = (rejected, medium)
attach_diagnosis (some false) (some false) = (not_listening, high)
attach_diagnosis _ _ = (unreachable, low)

-- `trunc_chars`: at most `limit` characters, and how many more there are
unfoldable pub trunc_chars : Text → ℕ → Text
trunc_chars s limit =
    if leb (length s) limit
    then s
    else take limit s ++ (literal "… (+" ++ (decimal (length s - limit) ++ literal " more chars)"))

abbrev pub host_cap : ℕ
host_cap = 128

abbrev first_is : ℕ → Text → Bool
first_is b [] = false
first_is b (c ∷ cs) = c == b

abbrev last_is : ℕ → Text → Bool
last_is b [] = false
last_is b (c ∷ []) = c == b
last_is b (c ∷ d ∷ cs) = last_is b (d ∷ cs)

abbrev is_bare_v6 : Text → Bool
is_bare_v6 h = any (λ c. c == b':') h && not (first_is b'[' h && last_is b']' h)

unfoldable pub display_endpoint : Text → ℕ → Text
unfolding trunc_chars
display_endpoint host port =
    let h = if ltb host_cap (length host) then trunc_chars host host_cap else host in
    if is_bare_v6 h
    then literal "[" ++ (h ++ (literal "]:" ++ decimal port))
    else h ++ (literal ":" ++ decimal port)

abbrev pub cause_cap : ℕ
cause_cap = 2048

-- The longest front of characters that satisfy `p`, and the rest.
unfoldable pub span : (ℕ → Bool) → Text → Text × Text
span p [] = ([], [])
span p (c ∷ cs) = let (front, back) = span p cs in if p c then (c ∷ front, back) else ([], c ∷ cs)

abbrev pub is_ascii_whitespace : ℕ → Bool
is_ascii_whitespace c = c == 32 || c == 9 || c == 10 || c == 12 || c == 13

abbrev pub is_quote : ℕ → Bool
is_quote c = c == 34 || c == 39

-- what a token behind a scheme consists of
abbrev pub in_token : ℕ → Bool
in_token c = not (is_ascii_whitespace c || is_quote c || c == b',' || c == b';' || c == b')')

abbrev starts_lower : Text → Text → Bool
starts_lower [] s = true
starts_lower (k ∷ ks) [] = false
starts_lower (k ∷ ks) (c ∷ cs) = to_ascii_lowercase c == k && starts_lower ks cs

abbrev push_front : ℕ → Option (Text × Text) → Option (Text × Text)
push_front c none = none
push_front c (some (before, at)) = some (c ∷ before, at)

-- `rest.to_ascii_lowercase().find(scheme)`: what stands before it, and what begins with it
unfoldable pub find_scheme : Text → Text → Option (Text × Text)
find_scheme scheme [] = none
find_scheme scheme (c ∷ cs) =
    let later = push_front c (find_scheme scheme cs) in
    if starts_lower scheme (c ∷ cs) then some ([], c ∷ cs) else later

-- An empty token stays empty.
abbrev pub mask_token : Text → Text
mask_token [] = []
mask_token (_ ∷ _) = redacted

-- One round on what has been found; `again` goes on behind the token.
abbrev pub mask_round : Text → Text → (Text → Text) → Option (Text × Text) → Text
mask_round scheme rest again none = rest
mask_round scheme rest again (some (before, at)) =
    let (token, tail) = span in_token (drop (length scheme) at) in
    before ++ (take (length scheme) at ++ (mask_token token ++ again tail))

-- A round takes the scheme away, so the length of the text is fuel enough.
unfoldable pub mask_scheme_loop : Text → ℕ → Text → Text
unfolding find_scheme span
mask_scheme_loop scheme zero rest = rest
mask_scheme_loop scheme (suc fuel) rest =
    mask_round scheme rest (mask_scheme_loop scheme fuel) (find_scheme scheme rest)

unfoldable pub mask_scheme_token : Text → Text → Text
unfolding mask_scheme_loop
mask_scheme_token s scheme = mask_scheme_loop scheme (length s) s

unfoldable pub mask_bearer : Text → Text
unfolding mask_scheme_token
mask_bearer s = mask_scheme_token (mask_scheme_token s (literal "bearer ")) (literal "basic ")

-- words and the white space between them
abbrev pub Span : Type 0
Span = Bool × Text

abbrev push_span : Bool → ℕ → List Span → List Span
push_span w c [] = (w, c ∷ []) ∷ []
push_span true c ((true, s) ∷ spans) = (true, c ∷ s) ∷ spans
push_span false c ((false, s) ∷ spans) = (false, c ∷ s) ∷ spans
push_span w c spans = (w, c ∷ []) ∷ spans

unfoldable pub spans_of : Text → List Span
spans_of [] = []
spans_of (c ∷ cs) = push_span (not (is_ascii_whitespace c)) c (spans_of cs)

-- a secret flag without its value
abbrev pub arms : Text → Bool
arms word = is_secret_flag word && not (any (λ c. c == b'=' || c == b':') word)

-- what is shown of a word, and whether the next word is a secret's value
unfoldable pub mask_word : Bool → Text → Text × Bool
mask_word pending word =
    if pending && not (looks_like_flag word) then (redacted, false) else (word, arms word)

unfoldable pub mask_spans : Bool → List Span → Text
unfolding mask_word
mask_spans pending [] = []
mask_spans pending ((false, s) ∷ spans) = s ++ mask_spans pending spans
mask_spans pending ((true, w) ∷ spans) =
    let (shown, next) = mask_word pending w in shown ++ mask_spans next spans

unfoldable pub mask_bare_flag_values : Text → Text
unfolding spans_of mask_spans
mask_bare_flag_values s = mask_spans false (spans_of s)
