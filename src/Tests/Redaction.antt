-- ===== src/Tests/Redaction.antt =====
-- src/session/identity.rs at concrete argument lists.
use agent_debugger.Prelude.{false, [], ◌∷◌, ◌≡◌, refl, inl, inr, List}
use agent_debugger.Dap.Header.{literal}
use agent_debugger.Dap.Text.{to_ascii_lowercase, same_codes}
use agent_debugger.Session.Identity.Secrets.{
  Text, trim_start_dashes, contains, ends_with, tokens, is_secret_flag, scan,
  value_holds_secret_pair, cut_at, split_value, redact_one, redact_from, redact_argv,
}
use agent_debugger.Session.Identity.Redact.{redact_argv_idem}
use agent_debugger.Session.Identity.Alike.{Alike, redact_argv-Alike}

abbrev argv : List Text
argv = literal "--token" ∷ literal "abc" ∷ literal "--db-pass=hunter2" ∷ literal "app.py" ∷ []

redacts :
    redact_argv argv
    ≡ literal "--token"
      ∷ literal "[redacted]"
      ∷ literal "--db-pass=[redacted]"
      ∷ literal "app.py"
      ∷ []
unfolding redact_argv redact_from redact_one split_value cut_at value_holds_secret_pair scan
    is_secret_flag trim_start_dashes contains ends_with tokens to_ascii_lowercase same_codes
redacts = refl

-- a flag's name that only begins like a key, and a pair inside a plain option
keeps :
    redact_argv (literal "--author" ∷ literal "me" ∷ literal "--url=https://h/?token=S" ∷ [])
    ≡ literal "--author" ∷ literal "me" ∷ literal "--url=[redacted]" ∷ []
unfolding redact_argv redact_from redact_one split_value cut_at value_holds_secret_pair scan
    is_secret_flag trim_start_dashes contains ends_with tokens to_ascii_lowercase same_codes
keeps = refl

redact_argv_idem_example : redact_argv (redact_argv argv) ≡ redact_argv argv
redact_argv_idem_example = redact_argv_idem argv

-- a flag behind a flag is no value, and a value may hold a separator
abbrev chained : List Text
chained =
    literal "--token" ∷ literal "--password" ∷ literal "a=b" ∷ literal "--db-pass=hunter2" ∷ []

abbrev other_chained : List Text
other_chained =
    literal "--token" ∷ literal "--password" ∷ literal "xyz" ∷ literal "--db-pass=1234" ∷ []

alike : Alike false chained other_chained
unfolding split_value cut_at value_holds_secret_pair scan is_secret_flag trim_start_dashes contains
    ends_with tokens to_ascii_lowercase same_codes
alike = inl (
  refl,
  inl (
    refl,
    inr (
        inl (
          refl,
          refl,
          inr (
              inr (
                literal "--db-pass",
                b'=',
                literal "hunter2",
                literal "1234",
                refl,
                refl,
                refl,
                refl,
                tt,
              )),
        )),
  ),
)

redact_argv-Alike_example : redact_argv chained ≡ redact_argv other_chained
redact_argv-Alike_example = redact_argv-Alike chained other_chained alike
