-- ===== src/Dap/Text/Ascii.antt =====
-- ASCII bytes are their own text; digits survive `trim`; a header's lines.
use agent_debugger.Prelude.{ℕ, ◌≤◌, ◌<◌, ◌≡◌, ◌≢◌, refl, some, List, [], ◌∷◌, ◌++◌, All, arith}
use agent_debugger.Dap.Text.{
  utf8_step, decode_from, from_utf8, lines, is_whitespace, trim_start, trim_end, trim,
}

abbrev pub IsAscii : List ℕ → Type 0
IsAscii = All (λ b. b < 128)

abbrev pub IsDigit : ℕ → Type 0
IsDigit c = (48 ≤ c) × (c ≤ 57)

abbrev pub IsPlain : ℕ → Type 0
IsPlain c = (c ≢ 10) × (c ≢ 13)

pub from_utf8-ascii : (bs : List ℕ) → IsAscii bs → from_utf8 bs ≡ some bs
unfolding decode_from utf8_step
from_utf8-ascii [] h = refl
from_utf8-ascii (b ∷ bs) h = ground (arith, from_utf8-ascii bs h.1)

-- A header without line breaks is one line, and an empty line follows it.
pub lines-header :
    (xs : List ℕ) → All IsPlain xs → lines (xs ++ 13 ∷ 10 ∷ 13 ∷ 10 ∷ []) ≡ xs ∷ [] ∷ []
unfolding lines
lines-header [] h = refl
lines-header (x ∷ xs) h = ground (arith, lines-header xs h.1)

trim_end-digits : (ds : List ℕ) → All IsDigit ds → trim_end ds ≡ ds
unfolding trim_end is_whitespace
trim_end-digits [] h = refl
trim_end-digits (d ∷ ds) h = ground (arith, trim_end-digits ds h.1)

trim_start-digits : (ds : List ℕ) → All IsDigit ds → trim_start ds ≡ ds
unfolding trim_start is_whitespace
trim_start-digits [] h = refl
trim_start-digits (d ∷ ds) h = ground arith

-- Blanks before digits go, and the digits stay.
pub trim-blank-digits : (ds : List ℕ) → All IsDigit ds → trim (32 ∷ ds) ≡ ds
unfolding trim trim_start is_whitespace
trim-blank-digits ds h = rw (trim_start-digits ds h) (trim_end-digits ds h)
