-- ===== src/Json/Serde.antt =====
-- The serializer that the sources call and do not implement (`serde_json`), with what they rely on.
use agent_debugger.Prelude.{ℕ, ◌≡◌, String, Option, some, List}
use agent_debugger.Json.{Value}
use agent_debugger.Dap.Text.{from_utf8}

pub record Serde : Type 0 where
  pub to_vec : Value → List ℕ  -- `serde_json::to_vec`, UTF-8 bytes
  pub from_utf8_str : List ℕ → Option Value  -- `serde_json::from_str` of a checked UTF-8 slice
  pub to_string : Value → String  -- `to_string_pretty`
  pub from_str : String → Option Value  -- `serde_json::from_str`

-- The bytes of a value are UTF-8 and are read back as the value.
pub record BytesBack (s : Serde) (v : Value) : Type 0 where
  pub chars : List ℕ
  pub utf8 : from_utf8 (s.to_vec v) ≡ some chars
  pub back : s.from_utf8_str (s.to_vec v) ≡ some v

-- The text of a value is read back as the value.
abbrev pub TextBack : Serde → Value → Type 0
TextBack s v = s.from_str (s.to_string v) ≡ some v
