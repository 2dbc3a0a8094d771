-- ===== src/Provision/Disk/Laws.antt =====
-- Equality of paths, and what one changed path leaves of a tree.
use agent_debugger.Prelude.{true, false, ◌≡◌, refl, [], ◌∷◌, arith}
use agent_debugger.Provision.Disk.{
  Text, PathBuf, Node, Tree, set, same_text, same_path, Disk, draw, next_outcome,
}

pub same_text_refl : (s : Text) → same_text s s ≡ true
unfolding same_text
same_text_refl [] = refl
same_text_refl (c ∷ s) = ground (arith, same_text_refl s)

pub same_path_refl : (p : PathBuf) → same_path p p ≡ true
unfolding same_path
same_path_refl [] = refl
same_path_refl (c ∷ p) = ground (arith, same_text_refl c, same_path_refl p)

same_text-eq : (s t : Text) → same_text s t ≡ true → s ≡ t
unfolding same_text
same_text-eq [] [] e = refl
same_text-eq [] (b ∷ t) e = cc
same_text-eq (a ∷ s) [] e = cc
same_text-eq (a ∷ s) (b ∷ t) e = ground (arith, same_text-eq s t)

pub same_path-eq : (p q : PathBuf) → same_path p q ≡ true → p ≡ q
unfolding same_path
same_path-eq [] [] e = refl
same_path-eq [] (b ∷ q) e = cc
same_path-eq (a ∷ p) [] e = cc
same_path-eq (a ∷ p) (b ∷ q) e = ground (arith, same_text-eq a b, same_path-eq p q)

pub set_self : (p : PathBuf) (n : Node) (t : Tree) → set p n t p ≡ n
set_self p n t = rw (same_path_refl p)

pub set_other : (p q : PathBuf) (n : Node) (t : Tree) → same_path q p ≡ false → set p n t q ≡ t q
set_other p q n t e = rw e

pub draw-tree : (d : Disk) → (draw d).1.tree ≡ d.tree
unfolding draw
draw-tree d = elim d.outcomes as (λ os. (next_outcome d os).1.tree ≡ d.tree) [
  | [] ↦ refl
  | _ ∷ _ ↦ refl
]
