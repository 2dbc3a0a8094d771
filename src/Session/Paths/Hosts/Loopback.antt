-- ===== src/Session/Paths/Hosts/Loopback.antt =====
-- Which numeric forms of an address count as loopback.
use agent_debugger.Prelude.{ℕ, ◌≤◌, ◌<◌, ◌/◌, ◌^◌, ◌≡◌, some, List, [], ◌∷◌, All, arith}
use agent_debugger.Session.Paths.Hosts.{part_value, part_values, address_of}

part_value-le : (p : List ℕ) (n : ℕ) → part_value p ≡ some n → n ≤ 4294967295
unfolding part_value
part_value-le p n read = ground arith

part_values-le :
    (ps : List (List ℕ)) (ns : List ℕ) → part_values ps ≡ some ns → All (λ n. n ≤ 4294967295) ns
unfolding part_values
part_values-le [] [] read = tt
part_values-le [] (n ∷ ns) read = ground arith
part_values-le (p ∷ ps) [] read = ground arith
part_values-le (p ∷ ps) (n ∷ ns) read = ground (arith, part_value-le p n, part_values-le ps ns)

address_of-lt :
    (ns : List ℕ) (a : ℕ) → All (λ n. n ≤ 4294967295) ns → address_of ns ≡ some a → a < 2 ^ 32
unfolding address_of
address_of-lt [] a small read = ground arith
address_of-lt (n ∷ []) a small read = ground arith
address_of-lt (n ∷ m ∷ []) a small read = ground arith
address_of-lt (n ∷ m ∷ k ∷ []) a small read = ground arith
address_of-lt (n ∷ m ∷ k ∷ j ∷ []) a small read = ground arith
address_of-lt (n ∷ m ∷ k ∷ j ∷ i ∷ ns) a small read = ground arith

address_of-first :
    (n m : ℕ) (ns : List ℕ) (a : ℕ) → address_of (n ∷ m ∷ ns) ≡ some a → a / 2 ^ 24 ≡ n
unfolding address_of
address_of-first n m [] a read = ground arith
address_of-first n m (k ∷ []) a read = ground arith
address_of-first n m (k ∷ j ∷ []) a read = ground arith
address_of-first n m (k ∷ j ∷ i ∷ ns) a read = ground arith

-- If the parts of a numeric host are read as an address, then it has 32 bits, and if there are two
-- parts or more, its top byte, which alone decides for loopback, is the first of them.
pub address-bounds :
    (ps : List (List ℕ)) (ns : List ℕ) (a : ℕ)
    → part_values ps ≡ some ns
    → address_of ns ≡ some a
    → (a < 2 ^ 32) × ((n m : ℕ) (rest : List ℕ) → ns ≡ n ∷ m ∷ rest → a / 2 ^ 24 ≡ n)
address-bounds ps ns a read joined = (
  address_of-lt ns a (part_values-le ps ns read) joined,
  (λ n m rest shape. address_of-first n m rest a (rw (← shape) joined)),
)
