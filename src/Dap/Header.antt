-- ===== src/Dap/Header.antt =====
-- `find_header_end` and `parse_content_length` of src/dap.rs.
use agent_debugger.Prelude.{
  ℕ, suc, Bool, false, ◌&&◌, Option, none, some, List, [], ◌∷◌, ◌==◌, if◌then◌else◌,
}
use agent_debugger.Dap.Text.{lines, split_once, trim, eq_ignore_ascii_case, parse_usize}
use Prim.Native.Char.{code}
use agent_debugger.Prelude.{String}

-- the code points of a literal
abbrev pub literal : String → List ℕ
literal String.[] = []
literal (String.◌∷◌ c s) = code c ∷ literal s

-- a window of four bytes equal to CR LF CR LF
abbrev pub at_header_end : List ℕ → Bool
at_header_end (a ∷ b ∷ c ∷ d ∷ _) = a == 13 && b == 10 && c == 13 && d == 10
at_header_end _ = false

abbrev pub next_index : Option ℕ → Option ℕ
next_index none = none
next_index (some i) = some (suc i)

unfoldable pub find_header_end : List ℕ → Option ℕ
find_header_end [] = none
find_header_end (b ∷ bs) =
    if at_header_end (b ∷ bs) then some 4 else next_index (find_header_end bs)

content_length_in : List (List ℕ) → Option ℕ
content_length_in [] = none
content_length_in (line ∷ rest) = elim (split_once b':' line) [
  | none ↦ none
  | some (name, value) ↦
      if eq_ignore_ascii_case (trim name) (literal "content-length")
      then parse_usize (trim value)
      else content_length_in rest
]

unfoldable pub parse_content_length : List ℕ → Option ℕ
unfolding content_length_in
parse_content_length header = content_length_in (lines header)
