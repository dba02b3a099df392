-- ===== src/Ast/RoundTrip/Lists.antt =====
-- The loops of transform_node_iter (src/common/ast.cpp) flatten the left-recursive lists of the
-- grammar, and one step of its recursion.
use Prim.Native.Nat.{zero, suc, max}
use mathlib.Core.List.{append-nil}
use ustc_2021_compliers.Base.{
  ℕ, false, ◌==◌, ◌-◌, ◌≤◌, String, List, [], ◌∷◌, ◌++◌, ◌≡◌, ◌∙◌, refl, Result, ok, arith,
}
use ustc_2021_compliers.Base.Int.{ℤ}
use ustc_2021_compliers.Tree.{Node, node, leaf, inner, height, children_num}
use ustc_2021_compliers.Ast.Grammar.{list_tree, comma_tree}
use ustc_2021_compliers.Ast.Transform.{dispatch, transform_node_iter}
use ustc_2021_compliers.Ast.Transform.Walk.{name_of, flatten2, flatten3}

pub flatten2-list_tree :
    (rule : String) (acc : Node) (xs s : List Node)
    → flatten2 (list_tree rule acc xs) s ≡ flatten2 acc (xs ++ s)
flatten2-list_tree rule acc [] s = refl
flatten2-list_tree rule acc (x ∷ xs) s = flatten2-list_tree rule (inner rule (acc ∷ x ∷ [])) xs s

pub flatten3-comma_tree :
    (rule : String) (acc : Node) (xs s : List Node)
    → flatten3 (comma_tree rule acc xs) s ≡ flatten3 acc (xs ++ s)
flatten3-comma_tree rule acc [] s = refl
flatten3-comma_tree rule acc (x ∷ xs) s =
    flatten3-comma_tree rule (inner rule (acc ∷ leaf "," ∷ x ∷ [])) xs s

pub flatten2_all :
    (rule : String) (acc : Node) (xs : List Node) {last : Node}
    → ((s : List Node) → flatten2 acc s ≡ (s, last))
    → flatten2 (list_tree rule acc xs) [] ≡ (xs, last)
flatten2_all rule acc xs k = flatten2-list_tree rule acc xs [] ∙ k (xs ++ []) ∙ rw append-nil

pub flatten3_all :
    (rule : String) (acc : Node) (xs : List Node)
    → ((s : List Node) → flatten3 acc s ≡ (s, acc))
    → flatten3 (comma_tree rule acc xs) [] ≡ (xs, acc)
flatten3_all rule acc xs k = flatten3-comma_tree rule acc xs [] ∙ k (xs ++ []) ∙ rw append-nil

pub name_of-comma_tree :
    (acc : Node) (xs : List Node)
    → name_of acc ≡ ok "arg-list"
    → name_of (comma_tree "arg-list" acc xs) ≡ ok "arg-list"
name_of-comma_tree acc [] h = h
name_of-comma_tree acc (x ∷ xs) h =
    name_of-comma_tree (inner "arg-list" (acc ∷ leaf "," ∷ x ∷ [])) xs refl

pub children_num-comma_tree :
    (rule : String) (acc : Node) (xs : List Node)
    → (children_num acc == 0) ≡ false
    → (children_num (comma_tree rule acc xs) == 0) ≡ false
children_num-comma_tree rule acc [] h = h
children_num-comma_tree rule acc (x ∷ xs) h =
    children_num-comma_tree rule (inner rule (acc ∷ leaf "," ∷ x ∷ [])) xs refl

abbrev pub heights : List Node → ℕ
heights [] = 0
heights (x ∷ xs) = max (height x) (heights xs)

pub record Covers (whole : Node) (acc : Node) (xs : List Node) : Type 0 where
  pub items : heights xs ≤ height whole
  pub base : height acc ≤ height whole

pub list_tree-Covers :
    (rule : String) (acc : Node) (xs : List Node) → Covers (list_tree rule acc xs) acc xs
list_tree-Covers rule acc [] = omega arith
list_tree-Covers rule acc (x ∷ xs) =
    omega (arith, list_tree-Covers rule (inner rule (acc ∷ x ∷ [])) xs)

pub comma_tree-Covers :
    (rule : String) (acc : Node) (xs : List Node) → Covers (comma_tree rule acc xs) acc xs
comma_tree-Covers rule acc [] = omega arith
comma_tree-Covers rule acc (x ∷ xs) =
    omega (arith, comma_tree-Covers rule (inner rule (acc ∷ leaf "," ∷ x ∷ [])) xs)

-- With fuel for the height of the node, the recursion goes one step down.
module _ (stoi : String → Result ℤ) (stof : String → Result ℕ) where
  pub transform_step :
      (f : ℕ) (n : Node) {name : String}
      → name_of n ≡ ok name
      → height n ≤ f
      → transform_node_iter stoi stof f n
        ≡ dispatch stoi stof (transform_node_iter stoi stof (f - 1)) name n
  unfolding transform_node_iter
  transform_step zero (node s xs) e h = absurd (omega arith)
  transform_step (suc f) n {name} e h =
      let p : f ≡ suc f - 1 = omega arith in
      rw e (λ i. dispatch stoi stof (transform_node_iter stoi stof (p i)) name n)
