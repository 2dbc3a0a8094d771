-- ===== src/Dap/Text/Decimal.antt =====
-- Printing a `usize` in decimal and parsing it back.
use agent_debugger.Prelude.{
  ℕ, zero, suc, ◌+◌, ◌-◌, ◌*◌, ◌/◌, ◌%◌, ◌≤◌, ◌<◌, ◌≡◌, refl, ◌∙◌, ap, some, List, [], ◌∷◌, All,
  arith, Bool-cases, inl, inr, ltb, length, ◌^◌,
}
use native.Mathlib.Nat.{pow-suc}
use agent_debugger.Dap.Text.{usize_max, read_digits, parse_usize, decimal_from, decimal}
use agent_debugger.Dap.Text.Ascii.{IsDigit}

decimal_from-digits :
    (fuel n : ℕ) (out : List ℕ) → All IsDigit out → All IsDigit (decimal_from fuel n out)
unfolding decimal_from
decimal_from-digits zero n out h = h
decimal_from-digits (suc fuel) n out h = elim (Bool-cases (ltb n 10)) [
  | inl small ↦ rw small ((omega arith, ground arith), h)
  | inr big ↦
      rw big
        (decimal_from-digits fuel (n / 10) ((48 + n % 10) ∷ out) ((omega arith, omega arith), h))
]

pub decimal-digits : (n : ℕ) → All IsDigit (decimal n)
unfolding decimal
decimal-digits n = decimal_from-digits (suc n) n [] tt

read_digits-digit :
    (a c : ℕ) (cs : List ℕ)
    → IsDigit (48 + c)
    → a * 10 + c ≤ usize_max
    → read_digits a ((48 + c) ∷ cs) ≡ read_digits (a * 10 + c) cs
unfolding read_digits
read_digits-digit a c cs h fits = let e : 48 + c - 48 ≡ c = omega arith in rw e (ground arith)

read_digits-decimal_from :
    (fuel n : ℕ) (out : List ℕ)
    → n < fuel
    → n ≤ usize_max
    → read_digits 0 (decimal_from fuel n out) ≡ read_digits n out
unfolding decimal_from
read_digits-decimal_from zero n out h fits = elim h [ ]
read_digits-decimal_from (suc fuel) n out h fits = elim (Bool-cases (ltb n 10)) [
  | inl small ↦ rw small (
      read_digits-digit 0 n out (omega arith, ground arith) (omega arith)
      ∙ ap (λ m. read_digits m out) (omega arith))
  | inr big ↦ rw big (
      read_digits-decimal_from fuel (n / 10) ((48 + n % 10) ∷ out) (ground arith) (omega arith)
      ∙ read_digits-digit (n / 10) (n % 10) out (omega arith, omega arith) (omega arith)
      ∙ ap (λ m. read_digits m out) (omega arith))
]

decimal_from-cons :
    (fuel n o : ℕ) (out : List ℕ)
    → (c : ℕ) × (cs : List ℕ) × (decimal_from fuel n (o ∷ out) ≡ c ∷ cs)
unfolding decimal_from
decimal_from-cons zero n o out = (o, out, refl)
decimal_from-cons (suc fuel) n o out = elim (Bool-cases (ltb n 10)) [
  | inl small ↦ rw small (48 + n, o ∷ out, refl)
  | inr big ↦ rw big (decimal_from-cons fuel (n / 10) (48 + n % 10) (o ∷ out))
]

decimal-cons : (n : ℕ) → (c : ℕ) × (cs : List ℕ) × (decimal n ≡ c ∷ cs)
unfolding decimal decimal_from
decimal-cons n = elim (Bool-cases (ltb n 10)) [
  | inl small ↦ rw small (48 + n, [], refl)
  | inr big ↦ rw big (decimal_from-cons n (n / 10) (48 + n % 10) [])
]

parse_usize-cons : (c : ℕ) (cs : List ℕ) → IsDigit c → parse_usize (c ∷ cs) ≡ read_digits 0 (c ∷ cs)
unfolding parse_usize
parse_usize-cons c cs h = ground arith

parse_usize-digits :
    (ds : List ℕ) {c : ℕ} {cs : List ℕ}
    → All IsDigit ds
    → ds ≡ c ∷ cs
    → parse_usize ds ≡ read_digits 0 ds
parse_usize-digits [] h e = cc
parse_usize-digits (d ∷ ds) h e = parse_usize-cons d ds h.0

-- Every `usize` is read back from its decimal digits.
pub parse_usize-decimal : (n : ℕ) → n ≤ usize_max → parse_usize (decimal n) ≡ some n
unfolding decimal read_digits
parse_usize-decimal n h =
    let (c, cs, e) = decimal-cons n in
    parse_usize-digits (decimal n) (decimal-digits n) e
    ∙ read_digits-decimal_from (suc n) n [] (omega arith) h

length-decimal_from :
    (k fuel n : ℕ) (out : List ℕ)
    → n < 10 ^ suc k
    → length (decimal_from fuel n out) ≤ suc k + length out
unfolding decimal_from
length-decimal_from k zero n out h = omega arith
length-decimal_from zero (suc fuel) n out h = ground (arith, pow-suc 10 0)
length-decimal_from (suc k) (suc fuel) n out h = elim (Bool-cases (ltb n 10)) [
  | inl small ↦ rw small (omega arith)
  | inr big ↦ rw big (
      omega (
        arith,
        length-decimal_from k fuel (n / 10) ((48 + n % 10) ∷ out)
            (omega (arith, pow-suc 10 (suc k))),
      ))
]

-- A `usize` has at most twenty digits.
pub length-decimal : (n : ℕ) → n ≤ usize_max → length (decimal n) ≤ 20
unfolding decimal
length-decimal n h = omega (arith, length-decimal_from 19 (suc n) n [] (omega arith))
