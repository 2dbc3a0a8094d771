-- ===== src/Session/Identity/Secrets.antt =====
-- `is_secret_flag`, `value_holds_secret_pair` and `redact_argv` of src/session/identity.rs.
use agent_debugger.Prelude.{
  ℕ, Bool, true, false, not, ◌&&◌, ◌||◌, Option, none, some, List, [], ◌∷◌, ◌++◌, map, any, leb,
  ◌==◌, take, if◌then◌else◌,
}
use agent_debugger.Dap.Text.{to_ascii_lowercase, same_codes}
use agent_debugger.Dap.Header.{literal}

abbrev pub Text : Type 0
Text = List ℕ

unfoldable pub trim_start_dashes : Text → Text
trim_start_dashes [] = []
trim_start_dashes (c ∷ cs) = if c == b'-' then trim_start_dashes cs else c ∷ cs

abbrev is_prefix : Text → Text → Bool
is_prefix [] s = true
is_prefix (k ∷ ks) [] = false
is_prefix (k ∷ ks) (c ∷ cs) = k == c && is_prefix ks cs

unfoldable pub contains : Text → Text → Bool
contains [] key = is_prefix key []
contains (c ∷ cs) key = is_prefix key (c ∷ cs) || contains cs key

unfoldable pub ends_with : Text → Text → Bool
ends_with [] key = same_codes [] key
ends_with (c ∷ cs) key = same_codes (c ∷ cs) key || ends_with cs key

abbrev push_token : ℕ → List Text → List Text
push_token c [] = (c ∷ []) ∷ []
push_token c (t ∷ ts) = (c ∷ t) ∷ ts

-- `split(['-', '_', '.'])`
unfoldable pub tokens : Text → List Text
tokens [] = [] ∷ []
tokens (c ∷ cs) =
    let rest = tokens cs in
    if c == b'-' || c == b'_' || c == b'.' then [] ∷ rest else push_token c rest

abbrev joins : ℕ → Bool
joins c = c == b'-' || c == b'_'

-- the name without its dashes and underscores
abbrev flat : Text → Text
flat [] = []
flat (c ∷ cs) = let rest = flat cs in if joins c then rest else c ∷ rest

abbrev substring_keys : List Text
substring_keys =
    literal "password"
    ∷ literal "passwd"
    ∷ literal "secret"
    ∷ literal "apikey"
    ∷ literal "authorization"
    ∷ literal "authtoken"
    ∷ literal "accesstoken"
    ∷ []

abbrev token_keys : List Text
token_keys = literal "token" ∷ literal "auth" ∷ literal "pwd" ∷ literal "pass" ∷ literal "pw" ∷ []

-- The short keys count as a whole token or as its end.
unfoldable pub is_secret_flag : Text → Bool
unfolding trim_start_dashes contains ends_with tokens
is_secret_flag flag =
    let t = map to_ascii_lowercase (trim_start_dashes flag) in
    any (contains (flat t)) substring_keys
    || any (λ tok. any (λ k. same_codes tok k || ends_with tok k) token_keys) (tokens t)

abbrev starts_pair : ℕ → Bool
starts_pair c = c == b'?' || c == b'&' || c == b';'

abbrev between : ℕ → ℕ → ℕ → Bool
between lo hi c = leb lo c && leb c hi

abbrev pub in_name : ℕ → Bool
in_name c =
    between b'0' b'9' c
    || between b'A' b'Z' c
    || between b'a' b'z' c
    || c == b'-'
    || c == b'_'
    || c == b'.'

abbrev ends_name : ℕ → Bool
ends_name c = c == b'=' || c == b':'

-- Outside a pair, or inside the name of one: the next character.
abbrev scan_step : Option Text → ℕ → Bool × Option Text
scan_step none c = (false, if starts_pair c then some [] else none)
scan_step (some []) c =
    if in_name c then (false, some (c ∷ [])) else (false, if starts_pair c then some [] else none)
scan_step (some (n ∷ ns)) c =
    if in_name c
    then (false, some (n ∷ ns ++ c ∷ []))
    else (ends_name c && is_secret_flag (n ∷ ns), if starts_pair c then some [] else none)

unfoldable pub scan : Option Text → Text → Bool
unfolding is_secret_flag
scan state [] = false
scan state (c ∷ cs) = let (found, state') = scan_step state c in found || scan state' cs

-- a pair such as `?name=` whose name is secret
unfoldable pub value_holds_secret_pair : Text → Bool
unfolding scan
value_holds_secret_pair s = scan none s

abbrev push_head : ℕ → Option (Text × Text) → Option (Text × Text)
push_head c none = none
push_head c (some (h, v)) = some (c ∷ h, v)

-- `a.split_at(i)` at the first `d`
unfoldable pub cut_at : ℕ → Text → Option (Text × Text)
cut_at d [] = none
cut_at d (c ∷ cs) = let rest = cut_at d cs in if c == d then some ([], c ∷ cs) else push_head c rest

abbrev has_head : Option (Text × Text) → Option (Text × Text)
has_head (some (c ∷ h, v)) = some (c ∷ h, v)
has_head _ = none

-- at the first `=`, or else at the first `:`, but not at the front
unfoldable pub split_value : Text → Option (Text × Text)
unfolding cut_at
split_value a = has_head (elim (cut_at b'=' a) [ some cut ↦ some cut | none ↦ cut_at b':' a ])

abbrev pub redacted : Text
redacted = literal "[redacted]"

-- `a.starts_with('-') && a.len() > 1`
abbrev pub looks_like_flag : Text → Bool
looks_like_flag (c ∷ d ∷ cs) = c == b'-'
looks_like_flag _ = false

-- the shown form of one argument, and whether the next one is a secret's value
unfoldable pub redact_one : Bool → Text → Text × Bool
redact_one skip_next a =
    if skip_next && not (looks_like_flag a) then (redacted, false) else elim (split_value a) [
      | none ↦ (a, is_secret_flag a)
      | some (head, val) ↦ (
        if is_secret_flag head || value_holds_secret_pair val
            then head ++ (take 1 val ++ redacted)
            else a,
        false,
      )
    ]

unfoldable pub redact_from : Bool → List Text → List Text
redact_from skip_next [] = []
redact_from skip_next (a ∷ as') =
    let (shown, next) = redact_one skip_next a in shown ∷ redact_from next as'

unfoldable pub redact_argv : List Text → List Text
unfolding redact_from redact_one split_value value_holds_secret_pair is_secret_flag
redact_argv argv = redact_from false argv
