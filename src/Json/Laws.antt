-- ===== src/Json/Laws.antt =====
-- Members of an object after an insertion, and arrays as lists.
use agent_debugger.Prelude.{
  ◌≡◌, refl, ap, String, some, List, [], ◌∷◌, arith, ◌=ˢ◌, eq_iff, if◌then◌else◌,
}
use agent_debugger.Json.{Value, Members, no_member, member, to_list, of_list, lookup, insert}

pub lookup-insert :
    (k j : String) (v : Value) (m : Members)
    → lookup j (insert k v m) ≡ (if k =ˢ j then some v else lookup j m)
unfolding lookup insert
lookup-insert k j v no_member = refl
lookup-insert k j v (member i w m) =
    ground (arith, eq_iff k j, eq_iff i k, eq_iff i j, lookup-insert k j v m)

pub to_list-of_list : (vs : List Value) → to_list (of_list vs) ≡ vs
unfolding to_list of_list
to_list-of_list [] = refl
to_list-of_list (v ∷ vs) = ap (◌∷◌ v) (to_list-of_list vs)
