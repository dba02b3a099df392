-- ===== src/Ast/Printer/Programs.antt =====
-- The listing of a whole program by ASTPrinter (src/common/ast.cpp).
use ustc_2021_compliers.Base.{◌≡◌, String, Option, none, some, List, [], ◌∷◌, ◌++◌}
use ustc_2021_compliers.Base.Int.{ℤ}
use ustc_2021_compliers.Ast.{
  i_val, Expression, Statement, Statements, CompoundStmt, compound, expression_stmt, compound_stmt,
  selection_stmt, selection_else_stmt, iteration_stmt, return_stmt, VarDeclaration, Param,
  Declaration, var_declaration, fun_declaration, Program,
}
use ustc_2021_compliers.Ast.Printer.{
  text, Printer, visit_optional, print_declared, visit_var_declaration, visit_each, visit_statement,
  visit_compound, visit_statements, array_mark, visit_param, visit_declaration, visit_program,
}
use ustc_2021_compliers.Ast.Printer.Preorder.{
  Labels, Forest, label, nil, cons, preorder, one, two, num_labels, expression_labels, Prints,
  PrintsAll, none_printed, cons_printed, one_printed, two_printed, leaf_printed, node_printed,
  num_printed, expression_printed,
}

abbrev optional_labels : Option Expression → Forest
optional_labels none = nil
optional_labels (some e) = one (expression_labels e)

-- The trees of a list's elements, before those that follow.
abbrev each {ℓ} : {A : Type ℓ} → (A → Labels) → List A → Forest → Forest
each f [] ts = ts
each f (x ∷ xs) ts = cons (f x) (each f xs ts)

abbrev declared_labels : String → Option ℤ → Labels
declared_labels id none = label (text "var-declaration: " ∷ text id ∷ []) nil
declared_labels id (some n) =
    label (text "var-declaration: " ∷ text id ∷ text "[]" ∷ []) (one (num_labels (i_val n)))

abbrev var_declaration_labels : VarDeclaration → Labels
var_declaration_labels d = declared_labels d.id d.num

abbrev mutual
  statement_labels : Statement → Labels
  statement_labels (expression_stmt e) = label (text "expression-stmt" ∷ []) (optional_labels e)
  statement_labels (compound_stmt c) = compound_labels c
  statement_labels (selection_stmt e b) =
      label (text "selection-stmt" ∷ []) (two (expression_labels e) (statement_labels b))
  statement_labels (selection_else_stmt e b c) =
      label (text "selection-stmt" ∷ [])
        (cons (expression_labels e) (two (statement_labels b) (statement_labels c)))
  statement_labels (iteration_stmt e b) =
      label (text "iteration-stmt" ∷ []) (two (expression_labels e) (statement_labels b))
  statement_labels (return_stmt none) = label (text "return-stmt" ∷ text ": void" ∷ []) nil
  statement_labels (return_stmt (some e)) =
      label (text "return-stmt" ∷ []) (one (expression_labels e))

  compound_labels : CompoundStmt → Labels
  compound_labels (compound ds ss) =
      label (text "compound-stmt" ∷ []) (each var_declaration_labels ds (statements_labels ss))

  statements_labels : Statements → Forest
  statements_labels Statements.nil = nil
  statements_labels (Statements.cons b bs) = cons (statement_labels b) (statements_labels bs)

abbrev param_labels : Param → Labels
param_labels p = label (text "param: " ∷ text p.id ∷ array_mark p.isarray) nil

abbrev declaration_labels : Declaration → Labels
declaration_labels (var_declaration d) = var_declaration_labels d
declaration_labels (fun_declaration d) =
    label (text "fun-declaration: " ∷ text d.id ∷ [])
      (each param_labels d.params (one (compound_labels d.compound_stmt)))

abbrev pub program_labels : Program → Labels
program_labels ds = label (text "program" ∷ []) (each declaration_labels ds nil)

optional_printed : (e : Option Expression) → PrintsAll (visit_optional e) (optional_labels e)
optional_printed none = none_printed
optional_printed (some e) = one_printed (expression_printed e)

each_printed :
    {A : Type 0} (visit : A → Printer → Printer) (labels : A → Labels)
    → ((x : A) → Prints (visit x) (labels x))
    → (xs : List A) {k : Printer → Printer} {ts : Forest} → PrintsAll k ts
    → PrintsAll (λ s. k (visit_each visit xs s)) (each labels xs ts)
each_printed visit labels p [] q = q
each_printed visit labels p (x ∷ xs) q = cons_printed (p x) (each_printed visit labels p xs q)

declared_printed :
    (id : String) (n : Option ℤ) → Prints (print_declared id n) (declared_labels id n)
declared_printed id none = leaf_printed (text "var-declaration: " ∷ text id ∷ [])
declared_printed id (some n) = node_printed _ (one_printed (num_printed (i_val n)))

var_declaration_printed :
    (d : VarDeclaration) → Prints (visit_var_declaration d) (var_declaration_labels d)
var_declaration_printed d = declared_printed d.id d.num

mutual
  statement_printed : (b : Statement) → Prints (visit_statement b) (statement_labels b)
  statement_printed (expression_stmt e) = node_printed _ (optional_printed e)
  statement_printed (compound_stmt c) = compound_printed c
  statement_printed (selection_stmt e b) =
      node_printed _ (two_printed (expression_printed e) (statement_printed b))
  statement_printed (selection_else_stmt e b c) = node_printed _ (
      cons_printed (expression_printed e) (two_printed (statement_printed b) (statement_printed c)))
  statement_printed (iteration_stmt e b) =
      node_printed _ (two_printed (expression_printed e) (statement_printed b))
  statement_printed (return_stmt none) = leaf_printed (text "return-stmt" ∷ text ": void" ∷ [])
  statement_printed (return_stmt (some e)) = node_printed _ (one_printed (expression_printed e))

  compound_printed : (c : CompoundStmt) → Prints (visit_compound c) (compound_labels c)
  compound_printed (compound ds ss) = node_printed _ (
      each_printed visit_var_declaration var_declaration_labels var_declaration_printed ds
        (statements_printed ss))

  statements_printed : (bs : Statements) → PrintsAll (visit_statements bs) (statements_labels bs)
  statements_printed Statements.nil = none_printed
  statements_printed (Statements.cons b bs) =
      cons_printed (statement_printed b) (statements_printed bs)

param_printed : (p : Param) → Prints (visit_param p) (param_labels p)
param_printed p = leaf_printed (text "param: " ∷ text p.id ∷ array_mark p.isarray)

declaration_printed : (d : Declaration) → Prints (visit_declaration d) (declaration_labels d)
declaration_printed (var_declaration d) = var_declaration_printed d
declaration_printed (fun_declaration d) = node_printed _ (
    each_printed visit_param param_labels param_printed d.params
      (one_printed (compound_printed d.compound_stmt)))

-- From any depth and after any output, printing a program adds the lines of its tree in preorder:
-- each node's line before those of its children, which are indented by two more dashes. The depth
-- afterwards is that from before.
pub visit_program-eq-preorder :
    (ds : Program) (s : Printer)
    → visit_program ds s
      ≡ record { depth = s.depth; out = s.out ++ preorder s.depth (program_labels ds) }
visit_program-eq-preorder ds s =
    (node_printed (text "program" ∷ []) (
        each_printed visit_declaration declaration_labels declaration_printed ds
          none_printed)).prints
      s
