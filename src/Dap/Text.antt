-- ===== src/Dap/Text.antt =====
-- The parts of Rust's text that src/dap.rs uses: UTF-8, `lines`, `split_once`, `trim`,
-- `eq_ignore_ascii_case`, `parse::<usize>` and the decimal `Display` of an integer.
pub mod Ascii
pub mod Decimal
use agent_debugger.Prelude.{
  ℕ, zero, suc, ◌+◌, ◌-◌, ◌*◌, ◌/◌, ◌%◌, ◌^◌, Bool, true, false, ◌&&◌, ◌||◌, Option, none, some,
  List, [], ◌∷◌, map, ltb, leb, ◌==◌, if◌then◌else◌,
}

abbrev between : ℕ → ℕ → ℕ → Bool
between lo hi c = leb lo c && leb c hi

-- `std::str::from_utf8`: between two characters, or with `n + 1` bytes of one still to come, the
-- next of them in the given range.
pub data Utf8 : Type 0 where
  ready : Utf8
  need : (n lo hi acc : ℕ) → Utf8

unfoldable pub utf8_step : Utf8 → ℕ → Option (Utf8 × Option ℕ)
utf8_step ready b =
    if ltb b 128
    then some (ready, some b)
    else if between 0xC2 0xDF b
    then some (need 0 0x80 0xBF (b - 0xC0), none)
    else if b == 0xE0
    then some (need 1 0xA0 0xBF 0, none)
    else if b == 0xED
    then some (need 1 0x80 0x9F 13, none)
    else if between 0xE1 0xEF b
    then some (need 1 0x80 0xBF (b - 0xE0), none)
    else if b == 0xF0
    then some (need 2 0x90 0xBF 0, none)
    else if between 0xF1 0xF3 b
    then some (need 2 0x80 0xBF (b - 0xF0), none)
    else if b == 0xF4
    then some (need 2 0x80 0x8F 4, none)
    else none
utf8_step (need zero lo hi acc) b =
    if between lo hi b then some (ready, some (acc * 64 + (b - 0x80))) else none
utf8_step (need (suc n) lo hi acc) b =
    if between lo hi b then some (need n 0x80 0xBF (acc * 64 + (b - 0x80)), none) else none

abbrev emit : Option ℕ → Option (List ℕ) → Option (List ℕ)
emit _ none = none
emit none (some cs) = some cs
emit (some c) (some cs) = some (c ∷ cs)

unfoldable pub decode_from : Utf8 → List ℕ → Option (List ℕ)
decode_from ready [] = some []
decode_from (need n lo hi acc) [] = none
decode_from s (b ∷ bs) = elim (utf8_step s b) [
  | none ↦ none
  | some (s', c) ↦ emit c (decode_from s' bs)
]

-- The code points of a byte slice, if it is UTF-8.
abbrev pub from_utf8 : List ℕ → Option (List ℕ)
from_utf8 = decode_from ready

abbrev pub starts_lf : List ℕ → Bool
starts_lf [] = false
starts_lf (c ∷ cs) = c == 10

abbrev push_char : ℕ → List (List ℕ) → List (List ℕ)
push_char c [] = (c ∷ []) ∷ []
push_char c (l ∷ ls) = (c ∷ l) ∷ ls

-- `str::lines`: a line ends at LF or CR LF, and the last line may lack its end.
unfoldable pub lines : List ℕ → List (List ℕ)
lines [] = []
lines (c ∷ cs) =
    let rest = lines cs in
    if c == 10 then [] ∷ rest else if c == 13 && starts_lf cs then rest else push_char c rest

abbrev push_front : ℕ → Option (List ℕ × List ℕ) → Option (List ℕ × List ℕ)
push_front c none = none
push_front c (some (a, b)) = some (c ∷ a, b)

-- `str::split_once`
unfoldable pub split_once : ℕ → List ℕ → Option (List ℕ × List ℕ)
split_once d [] = none
split_once d (c ∷ cs) = if c == d then some ([], cs) else push_front c (split_once d cs)

-- `char::is_whitespace`
unfoldable pub is_whitespace : ℕ → Bool
is_whitespace c =
    between 9 13 c
    || c == 32
    || c == 0x85
    || c == 0xA0
    || c == 0x1680
    || between 0x2000 0x200A c
    || c == 0x2028
    || c == 0x2029
    || c == 0x202F
    || c == 0x205F
    || c == 0x3000

unfoldable pub trim_start : List ℕ → List ℕ
trim_start [] = []
trim_start (c ∷ cs) = if is_whitespace c then trim_start cs else c ∷ cs

unfoldable pub trim_end : List ℕ → List ℕ
trim_end [] = []
trim_end (c ∷ cs) = elim (trim_end cs) [
  | [] ↦ if is_whitespace c then [] else c ∷ []
  | d ∷ ds ↦ c ∷ d ∷ ds
]

unfoldable pub trim : List ℕ → List ℕ
trim cs = trim_end (trim_start cs)

unfoldable pub to_ascii_lowercase : ℕ → ℕ
to_ascii_lowercase c = if between b'A' b'Z' c then c + 32 else c

unfoldable pub same_codes : List ℕ → List ℕ → Bool
same_codes [] [] = true
same_codes (a ∷ as') (b ∷ bs) = a == b && same_codes as' bs
same_codes _ _ = false

unfoldable pub eq_ignore_ascii_case : List ℕ → List ℕ → Bool
eq_ignore_ascii_case a b = same_codes (map to_ascii_lowercase a) (map to_ascii_lowercase b)

abbrev pub usize_max : ℕ
usize_max = 2 ^ 64 - 1

-- The digits of a `usize`, each step checked for overflow.
unfoldable pub read_digits : ℕ → List ℕ → Option ℕ
read_digits n [] = some n
read_digits n (c ∷ cs) =
    let m = n * 10 + (c - 48) in
    let rest = read_digits m cs in if between 48 57 c && leb m usize_max then rest else none

abbrev read_some : List ℕ → Option ℕ
read_some [] = none
read_some (c ∷ cs) = read_digits 0 (c ∷ cs)

-- `str::parse::<usize>().ok()`: one leading plus is allowed.
unfoldable pub parse_usize : List ℕ → Option ℕ
parse_usize [] = none
parse_usize (c ∷ cs) = if c == b'+' then read_some cs else read_digits 0 (c ∷ cs)

unfoldable pub decimal_from : ℕ → ℕ → List ℕ → List ℕ
decimal_from zero n out = out
decimal_from (suc fuel) n out =
    let more = decimal_from fuel (n / 10) ((48 + n % 10) ∷ out) in
    if ltb n 10 then (48 + n) ∷ out else more

-- `n.to_string()`; every round divides by ten, so `n + 1` rounds are enough.
unfoldable pub decimal : ℕ → List ℕ
decimal n = decimal_from (suc n) n []
