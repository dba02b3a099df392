-- ===== src/Tree.antt =====
-- src/common/syntax_tree.c and the helper `node` of src/parser/syntax_analyzer.y: the concrete
-- syntax tree that the parser builds.
use Prim.Native.Nat.{max}
use Prim.Native.String.{len}
use ustc_2021_compliers.Base.{
  ℕ, suc, ◌≤◌, ◌+◌, String, Option, none, some, List, [], ◌∷◌, ◌≡◌, refl, ltb, lt→ltb, length,
  if◌then◌else◌, Result, ok, undefined, ◌>>=◌, arith,
}

abbrev syntax_tree_node_name_max : ℕ
syntax_tree_node_name_max = 30

-- `children[10]` of struct _syntax_tree_node
abbrev max_children : ℕ
max_children = 10

-- A node's `name` is an array of 30 bytes; `none` is an array with no terminating zero, which
-- cannot be read as a C string.
mutual
  pub data Node : Type 0 where
    node : Option String → Nodes → Node

  pub data Nodes : Type 0 where
    nil : Nodes
    cons : Node → Nodes → Nodes

-- What `strncpy(new_node->name, name, SYNTAX_TREE_NODE_NAME_MAX)` leaves to be read.
abbrev pub stored_name : String → Option String
stored_name s = if ltb (len s) syntax_tree_node_name_max then some s else none

abbrev pub IsShort : String → Type 0
IsShort s = stored_name s ≡ some s

abbrev pub from_list : List Node → Nodes
from_list [] = nil
from_list (x ∷ xs) = cons x (from_list xs)

abbrev pub num_of : Nodes → ℕ
num_of nil = 0
num_of (cons x xs) = suc (num_of xs)

abbrev pub children_num : Node → ℕ
children_num (node s xs) = num_of xs

unfoldable pub new_syntax_tree_node : Option String → Node
new_syntax_tree_node none = node (some "") nil
new_syntax_tree_node (some s) = node (stored_name s) nil

abbrev snoc : Nodes → Node → Nodes
snoc nil c = cons c nil
snoc (cons x xs) c = cons x (snoc xs c)

-- A null child changes nothing, and the call returns -1 (here `none`).
unfoldable pub syntax_tree_add_child : Node → Option Node → Result (Node × Option ℕ)
syntax_tree_add_child p none = ok (p, none)
syntax_tree_add_child (node s xs) (some c) =
    if ltb (num_of xs) max_children
    then ok (node s (snoc xs c), some (suc (num_of xs)))
    else undefined

add_all : Node → List Node → Result Node
unfolding syntax_tree_add_child
add_all p [] = ok p
add_all p (c ∷ cs) = do (q, _) ← syntax_tree_add_child p (some c); add_all q cs

-- `node(name, children_num, ...)`: with no children it adds one that is named epsilon.
unfoldable pub build_node : String → List Node → Result Node
unfolding add_all new_syntax_tree_node
build_node s [] =
    add_all (new_syntax_tree_node (some s)) (new_syntax_tree_node (some "epsilon") ∷ [])
build_node s (c ∷ cs) = add_all (new_syntax_tree_node (some s)) (c ∷ cs)

-- The tree that `node` returns where the children fit.
abbrev pub leaf : String → Node
leaf s = node (stored_name s) nil

abbrev pub inner : String → List Node → Node
inner s [] = node (stored_name s) (cons (leaf "epsilon") nil)
inner s (c ∷ cs) = node (stored_name s) (from_list (c ∷ cs))

abbrev append : Nodes → List Node → Nodes
append nil cs = from_list cs
append (cons x xs) cs = cons x (append xs cs)

append-snoc : (xs : Nodes) (c : Node) (cs : List Node) → append (snoc xs c) cs ≡ append xs (c ∷ cs)
append-snoc nil c cs = refl
append-snoc (cons x xs) c cs = λ i. cons x (append-snoc xs c cs i)

num_of-snoc : (xs : Nodes) (c : Node) → num_of (snoc xs c) ≡ suc (num_of xs)
num_of-snoc nil c = refl
num_of-snoc (cons x xs) c = λ i. suc (num_of-snoc xs c i)

append-nil : (xs : Nodes) → append xs [] ≡ xs
append-nil nil = refl
append-nil (cons x xs) = λ i. cons x (append-nil xs i)

add_all-eq-append :
    (s : Option String) (xs : Nodes) (cs : List Node)
    → num_of xs + length cs ≤ max_children
    → add_all (node s xs) cs ≡ ok (node s (append xs cs))
unfolding add_all
add_all-eq-append s xs [] h = rw append-nil
add_all-eq-append s xs (c ∷ cs) h = rw (lt→ltb (num_of xs) max_children (omega arith)) (
    rw (add_all-eq-append s (snoc xs c) cs (omega (arith, num_of-snoc xs c)))
      (λ i. ok (node s (append-snoc xs c cs i))))

-- `node(name, children_num, ...)` with no more children than the array holds returns the tree with
-- exactly these children in their order, or with one child named epsilon where there are none.
pub build_node-eq-inner :
    (s : String) (cs : List Node) → length cs ≤ max_children → build_node s cs ≡ ok (inner s cs)
unfolding build_node
build_node-eq-inner s [] h =
    add_all-eq-append (stored_name s) nil (leaf "epsilon" ∷ []) (omega arith)
build_node-eq-inner s (c ∷ cs) h = add_all-eq-append (stored_name s) nil (c ∷ cs) (omega arith)

-- How deep a tree is: the depth of the recursion that a walk over it needs.
abbrev mutual
  pub height : Node → ℕ
  height (node s xs) = suc (height_of xs)

  pub height_of : Nodes → ℕ
  height_of nil = 0
  height_of (cons x xs) = max (height x) (height_of xs)
