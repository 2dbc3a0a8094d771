-- ===== src/Session/Locks/Names.antt =====
-- The names of endpoint locks (src/session/locks.rs), over lists of bytes.
pub mod Apart
use agent_debugger.Prelude.{
  ℕ, ◌+◌, ◌/◌, ◌%◌, Bool, ◌&&◌, ◌||◌, [], ◌∷◌, ◌++◌, leb, ltb, ◌==◌, if◌then◌else◌,
}
use agent_debugger.Dap.Header.{literal}
use agent_debugger.Dap.Text.{decimal}
use agent_debugger.Session.Identity.Secrets.{Text}

abbrev pub is_ascii_alphanumeric : ℕ → Bool
is_ascii_alphanumeric b =
    (leb b'0' b && leb b b'9') || (leb b'A' b && leb b b'Z') || (leb b'a' b && leb b b'z')

-- a lower-case hexadecimal digit
abbrev pub hex_digit : ℕ → ℕ
hex_digit d = if ltb d 10 then b'0' + d else 87 + d

-- what one byte of a host is written as, in front of the rest
unfoldable pub push_safe : ℕ → Text → Text
push_safe b rest =
    if is_ascii_alphanumeric b
    then b ∷ rest
    else if b == b'_'
    then b'_' ∷ b'_' ∷ rest
    else b'_' ∷ hex_digit (b / 16) ∷ hex_digit (b % 16) ∷ rest

unfoldable pub safe : Text → Text
unfolding push_safe
safe [] = []
safe (b ∷ bs) = push_safe b (safe bs)

-- the name in the directory of the locks
unfoldable pub endpoint_lock_name : Text → Text → ℕ → Text
unfolding safe decimal
endpoint_lock_name lang norm_host port =
    lang ++ (b'-' ∷ (safe norm_host ++ (b'-' ∷ (decimal port ++ literal ".lock"))))
