-- ===== src/Ast/Printer/Preorder.antt =====
-- What ASTPrinter (src/common/ast.cpp) writes, against the tree of an AST's labels.
use Prim.Native.Nat.{◌+◌, ◌-◌}
use mathlib.Core.List.{append_assoc, append-nil}
use ustc_2021_compliers.Base.{ℕ, ◌≡◌, sym, ap, ◌∙◌, List, [], ◌∷◌, ◌++◌, arith}
use ustc_2021_compliers.Ast.{
  Num, i_val, f_val, Expression, Var, AdditiveExpression, Term, Factor, Expressions,
  assign_expression, simple_expression, relation, scalar, element, single_term, sum, single_factor,
  product,
}
use ustc_2021_compliers.Ast.Printer.{
  Output, dashes, text, int_text, float_text, endl, Printer, write, print_line, add_depth,
  remove_depth, print_rel_op, print_add_op, print_mul_op, visit_num, visit_expression, visit_var,
  visit_additive, visit_term, visit_factor, visit_args,
}

-- A tree of labels, and its lines in preorder: two dashes for each level.
mutual
  pub data Labels : Type 0 where
    label : List Output → Forest → Labels

  pub data Forest : Type 0 where
    nil : Forest
    cons : Labels → Forest → Forest

abbrev mutual
  pub preorder : ℕ → Labels → List Output
  preorder d (label os ts) = (dashes d ∷ os ++ endl ∷ []) ++ preorder_all (d + 2) ts

  pub preorder_all : ℕ → Forest → List Output
  preorder_all d nil = []
  preorder_all d (cons t ts) = preorder d t ++ preorder_all d ts

abbrev pub one : Labels → Forest
one t = cons t nil

abbrev pub two : Labels → Labels → Forest
two t u = cons t (one u)

abbrev pub num_labels : Num → Labels
num_labels (i_val z) = label (text "num (int): " ∷ int_text z ∷ []) nil
num_labels (f_val x) = label (text "num (float): " ∷ float_text x ∷ []) nil

abbrev mutual
  pub expression_labels : Expression → Labels
  expression_labels (assign_expression v e) =
      label (text "assign-expression" ∷ []) (two (var_labels v) (expression_labels e))
  expression_labels (simple_expression a) =
      label (text "simple-expression" ∷ []) (one (additive_labels a))
  expression_labels (relation a o b) =
      label (text "simple-expression" ∷ text ": " ∷ text (print_rel_op o) ∷ [])
        (two (additive_labels a) (additive_labels b))

  pub var_labels : Var → Labels
  var_labels (scalar id) = label (text "var: " ∷ text id ∷ []) nil
  var_labels (element id e) =
      label (text "var: " ∷ text id ∷ text "[]" ∷ []) (one (expression_labels e))

  pub additive_labels : AdditiveExpression → Labels
  additive_labels (single_term t) = label (text "additive-expression" ∷ []) (one (term_labels t))
  additive_labels (sum a o t) =
      label (text "additive-expression" ∷ text ": " ∷ text (print_add_op o) ∷ [])
        (two (additive_labels a) (term_labels t))

  pub term_labels : Term → Labels
  term_labels (single_factor f) = label (text "term" ∷ []) (one (factor_labels f))
  term_labels (product t o f) =
      label (text "term" ∷ text ": " ∷ text (print_mul_op o) ∷ [])
        (two (term_labels t) (factor_labels f))

  pub factor_labels : Factor → Labels
  factor_labels (Factor.num n) = num_labels n
  factor_labels (Factor.expression e) = expression_labels e
  factor_labels (Factor.var v) = var_labels v
  factor_labels (Factor.call id es) =
      label (text "call: " ∷ text id ∷ text "()" ∷ []) (args_labels es)

  pub args_labels : Expressions → Forest
  args_labels Expressions.nil = nil
  args_labels (Expressions.cons e es) = cons (expression_labels e) (args_labels es)

-- A part of the printer that writes the lines of a tree, and leaves the depth as it was.
pub record Prints (k : Printer → Printer) (t : Labels) : Type 0 where
  pub prints : (s : Printer) → k s ≡ write (preorder s.depth t) s

pub record PrintsAll (k : Printer → Printer) (ts : Forest) : Type 0 where
  pub prints_all : (s : Printer) → k s ≡ write (preorder_all s.depth ts) s

pub write-write : (xs ys : List Output) (s : Printer) → write ys (write xs s) ≡ write (xs ++ ys) s
write-write xs ys s = λ i. record { depth = s.depth; out = append_assoc s.out xs ys i }

write-nil : (s : Printer) → write [] s ≡ s
write-nil s = λ i. record { depth = s.depth; out = append-nil s.out i }

pub none_printed : PrintsAll (λ s. s) nil
none_printed = record { prints_all = λ s. sym (write-nil s) }

pub cons_printed :
    {k l : Printer → Printer} {t : Labels} {ts : Forest}
    → Prints k t
    → PrintsAll l ts
    → PrintsAll (λ s. l (k s)) (cons t ts)
cons_printed {k} {l} {t} {ts} p q = record {
  prints_all = λ s.
      ap l (p.prints s)
      ∙ q.prints_all (write (preorder s.depth t) s)
      ∙ write-write (preorder s.depth t) (preorder_all s.depth ts) s;
}

pub one_printed : {k : Printer → Printer} {t : Labels} → Prints k t → PrintsAll k (one t)
one_printed p = cons_printed p none_printed

pub two_printed :
    {k l : Printer → Printer} {t u : Labels}
    → Prints k t
    → Prints l u
    → PrintsAll (λ s. l (k s)) (two t u)
two_printed p q = cons_printed p (one_printed q)

pub leaf_printed : (os : List Output) → Prints (print_line os) (label os nil)
leaf_printed os = record {
  prints = λ s. ap (λ xs. write xs s) (sym (append-nil (dashes s.depth ∷ os ++ endl ∷ [])));
}

pub node_printed :
    {k : Printer → Printer} {ts : Forest} (os : List Output)
    → PrintsAll k ts
    → Prints (λ s. remove_depth (k (add_depth (print_line os s)))) (label os ts)
node_printed {k} {ts} os p = record {
  prints = λ s.
      let line : List Output = dashes s.depth ∷ os ++ endl ∷ [] in
      let below : List Output = preorder_all (s.depth + 2) ts in
      let back : s.depth + 2 - 2 ≡ s.depth = omega arith in
      ap remove_depth (p.prints_all (add_depth (print_line os s)))
      ∙ (λ i. record { depth = back i; out = (s.out ++ line) ++ below })
      ∙ write-write line below s;
}

pub num_printed : (n : Num) → Prints (visit_num n) (num_labels n)
num_printed (i_val z) = leaf_printed (text "num (int): " ∷ int_text z ∷ [])
num_printed (f_val x) = leaf_printed (text "num (float): " ∷ float_text x ∷ [])

mutual
  pub expression_printed : (e : Expression) → Prints (visit_expression e) (expression_labels e)
  expression_printed (assign_expression v e) =
      node_printed _ (two_printed (var_printed v) (expression_printed e))
  expression_printed (simple_expression a) = node_printed _ (one_printed (additive_printed a))
  expression_printed (relation a o b) =
      node_printed _ (two_printed (additive_printed a) (additive_printed b))

  var_printed : (v : Var) → Prints (visit_var v) (var_labels v)
  var_printed (scalar id) = leaf_printed (text "var: " ∷ text id ∷ [])
  var_printed (element id e) = node_printed _ (one_printed (expression_printed e))

  additive_printed : (a : AdditiveExpression) → Prints (visit_additive a) (additive_labels a)
  additive_printed (single_term t) = node_printed _ (one_printed (term_printed t))
  additive_printed (sum a o t) = node_printed _ (two_printed (additive_printed a) (term_printed t))

  term_printed : (t : Term) → Prints (visit_term t) (term_labels t)
  term_printed (single_factor f) = node_printed _ (one_printed (factor_printed f))
  term_printed (product t o f) = node_printed _ (two_printed (term_printed t) (factor_printed f))

  factor_printed : (f : Factor) → Prints (visit_factor f) (factor_labels f)
  factor_printed (Factor.num n) = num_printed n
  factor_printed (Factor.expression e) = expression_printed e
  factor_printed (Factor.var v) = var_printed v
  factor_printed (Factor.call id es) = node_printed _ (args_printed es)

  args_printed : (es : Expressions) → PrintsAll (visit_args es) (args_labels es)
  args_printed Expressions.nil = none_printed
  args_printed (Expressions.cons e es) = cons_printed (expression_printed e) (args_printed es)
