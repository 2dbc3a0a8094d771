-- ===== src/Session/Causes/Keyed.antt =====
-- `mask_keyed_values` of src/session/attach.rs, and the whole of `sanitize_cause`.
use agent_debugger.Prelude.{
  ℕ, zero, suc, Bool, true, false, not, ◌&&◌, ◌||◌, [], ◌∷◌, ◌++◌, length, ◌==◌, if◌then◌else◌,
}
use mathlib.Core.List.{reverse}
use agent_debugger.Dap.Header.{literal}
use agent_debugger.Dap.Text.{is_whitespace, eq_ignore_ascii_case}
use agent_debugger.Session.Identity.Secrets.{Text, is_secret_flag, redacted, in_name}
use agent_debugger.Session.Causes.{
  span, is_quote, mask_bearer, mask_bare_flag_values, trunc_chars, cause_cap,
}

abbrev is_url_prefix : ℕ → Bool
is_url_prefix c = c == b'?' || c == b'&' || c == b';' || c == b'#'

abbrev is_padding : ℕ → Bool
is_padding c = is_quote c || c == 32 || c == 9

-- the name before a separator, read backwards in what is written so far
unfoldable pub name_before : Text → Text
unfolding span
name_before out =
    let (prefixes, out') = span is_url_prefix out in
    let (padding, out'') = span is_padding out' in
    let (name, before) = span in_name out'' in reverse name

abbrev pub in_value : ℕ → Bool
in_value c = not (is_whitespace c || is_quote c || c == b'&' || c == b';' || c == b',' || c == b')')

abbrev pub opening_quote : Text → Text × Text
opening_quote [] = ([], [])
opening_quote (c ∷ cs) = if is_quote c then (c ∷ [], cs) else ([], c ∷ cs)

abbrev begins_slashes : Text → Bool
begins_slashes (a ∷ b ∷ cs) = a == b'/' && b == b'/'
begins_slashes _ = false

abbrev pub is_scheme : Text → Bool
is_scheme val =
    eq_ignore_ascii_case val (literal "bearer") || eq_ignore_ascii_case val (literal "basic")

abbrev is_present : Text → Bool
is_present [] = false
is_present (_ ∷ _) = true

-- Is the value masked here, and not left to the pass over the schemes?
abbrev pub masks : Text → Text → Bool
masks head val =
    not (is_scheme val)
    && is_present head
    && is_secret_flag head
    && is_present val
    && not (begins_slashes val)

-- one space for any white space that was skipped
abbrev pub one_space : Text → Text
one_space [] = []
one_space (_ ∷ _) = 32 ∷ []

abbrev is_separator : ℕ → Bool
is_separator c = c == b'=' || c == b':'

-- The loop: what is written so far, the last character first, and what is still to read. A round
-- takes one character at least.
unfoldable pub mask_keyed_loop : ℕ → Text → Text → Text
unfolding span name_before
mask_keyed_loop zero out rest = reverse out ++ rest
mask_keyed_loop (suc fuel) out [] = reverse out
mask_keyed_loop (suc fuel) out (c ∷ cs) =
    let plain = mask_keyed_loop fuel (c ∷ out) cs in
    let (gap, after_gap) = span is_whitespace cs in
    let (quote, after_quote) = opening_quote after_gap in
    let (val, tail) = span in_value after_quote in
    let shown = c ∷ one_space gap ++ (quote ++ redacted) in
    let masked = mask_keyed_loop fuel (reverse shown ++ out) tail in
    if is_separator c && masks (name_before out) val then masked else plain

unfoldable pub mask_keyed_values : Text → Text
unfolding mask_keyed_loop
mask_keyed_values s = mask_keyed_loop (length s) [] s

unfoldable pub redact_cause_secrets : Text → Text
unfolding mask_keyed_values mask_bearer mask_bare_flag_values
redact_cause_secrets raw = mask_bare_flag_values (mask_bearer (mask_keyed_values raw))

-- At most `cause_cap` characters are kept, and a note of how many more there were.
unfoldable pub sanitize_cause : Text → Text
unfolding redact_cause_secrets trunc_chars
sanitize_cause raw = trunc_chars (redact_cause_secrets raw) cause_cap
