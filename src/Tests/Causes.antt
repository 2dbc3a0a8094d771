-- ===== src/Tests/Causes.antt =====
-- Messages of failed attaches.
use agent_debugger.Prelude.{true, false, ◌≡◌, refl, some, ◌++◌, arith}
use agent_debugger.Dap.Header.{literal}
use agent_debugger.Dap.Text.{
  decimal, decimal_from, is_whitespace, to_ascii_lowercase, eq_ignore_ascii_case, same_codes,
}
use agent_debugger.Session.Identity.Secrets.{
  is_secret_flag, trim_start_dashes, contains, ends_with, tokens,
}
use agent_debugger.Session.Causes.{
  attach_diagnosis, rejected, medium, display_endpoint, trunc_chars, find_scheme, span,
  mask_scheme_loop, mask_scheme_token, mask_bearer, spans_of, mask_word, mask_spans,
  mask_bare_flag_values,
}
use agent_debugger.Session.Causes.Keyed.{
  name_before, mask_keyed_loop, mask_keyed_values, redact_cause_secrets,
}
use agent_debugger.Session.Causes.Words.{
  same_word, same_space, secret_word, both_end, mask_bare_flag-Alike,
}
use agent_debugger.Session.Causes.Hidden.{mask_scheme-hides}

display_runs :
    (display_endpoint (literal "::1") 5678 ≡ literal "[::1]:5678")
    × (display_endpoint (literal "web.test") 80 ≡ literal "web.test:80")
    × (attach_diagnosis (some false) (some true) ≡ (rejected, medium))
unfolding display_endpoint trunc_chars decimal decimal_from attach_diagnosis
display_runs = (refl, refl, refl)

redact_runs :
    (redact_cause_secrets (literal "GET /x?token=abc&y=1") ≡ literal "GET /x?token=[redacted]&y=1")
    × (redact_cause_secrets (literal "{\"password\": \"hunter2\"}")
        ≡ literal "{\"password\": \"[redacted]\"}")
    × (redact_cause_secrets (literal "Authorization: Basic dXNl, ok")
        ≡ literal "Authorization: Basic [redacted], ok")
    × (redact_cause_secrets (literal "run --token s3 -v") ≡ literal "run --token [redacted] -v")
unfolding redact_cause_secrets mask_keyed_values mask_keyed_loop name_before span is_whitespace
    is_secret_flag trim_start_dashes contains ends_with tokens to_ascii_lowercase same_codes
    eq_ignore_ascii_case mask_bearer mask_scheme_token mask_scheme_loop find_scheme spans_of
    mask_word mask_spans mask_bare_flag_values
redact_runs = (refl, refl, refl, refl)

mask_scheme-hides_example :
    mask_scheme_token
      (literal "a: " ++ (literal "Bearer " ++ (literal "xyz" ++ literal ", b")))
      (literal "bearer ")
    ≡ mask_scheme_token
        (literal "a: " ++ (literal "Bearer " ++ (literal "s3cret" ++ literal ", b")))
        (literal "bearer ")
unfolding to_ascii_lowercase span
mask_scheme-hides_example =
    mask_scheme-hides (literal "bearer ") (omega arith) (literal "a: ") (literal "Bearer ")
      (literal "xyz") (literal "s3cret") (literal ", b") refl (refl, (refl, (refl, refl)))
      (omega arith) (omega arith) refl refl refl

-- a flag behind a flag is no value, and its own value is hidden
mask_bare_flag-Alike_example :
    mask_bare_flag_values (literal "--token --password a b")
    ≡ mask_bare_flag_values (literal "--token --password xyz b")
unfolding spans_of is_secret_flag trim_start_dashes contains ends_with tokens to_ascii_lowercase
    same_codes
mask_bare_flag-Alike_example =
    mask_bare_flag-Alike (literal "--token --password a b") (literal "--token --password xyz b") (
      same_word false (literal "--token") _ _ (
        same_space true (literal " ") _ _ (
          same_word true (literal "--password") _ _ (
            same_space true (literal " ") _ _ (
              secret_word true (literal "a") (literal "xyz") _ _ refl refl (
                same_space false (literal " ") _ _
                  (same_word false (literal "b") _ _ (both_end false))))))))
