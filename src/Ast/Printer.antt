-- ===== src/Ast/Printer.antt =====
-- The class ASTPrinter of include/ast.hpp and src/common/ast.cpp. What it writes to std::cout is a
-- list of pieces; how numbers are formatted is the stream's.
use Prim.Native.Nat.{◌+◌, ◌-◌}
use ustc_2021_compliers.Base.{ℕ, String, Bool, true, false, Option, none, some, List, [], ◌∷◌, ◌++◌}
use ustc_2021_compliers.Base.Int.{ℤ}
use ustc_2021_compliers.Ast.{
  RelOp, op_le, op_lt, op_gt, op_ge, op_eq, op_neq, AddOp, op_plus, op_minus, MulOp, op_mul, op_div,
  Num, i_val, f_val, Expression, Var, AdditiveExpression, Term, Factor, Expressions,
  assign_expression, simple_expression, relation, scalar, element, single_term, sum, single_factor,
  product, Statement, Statements, CompoundStmt, compound, expression_stmt, compound_stmt,
  selection_stmt, selection_else_stmt, iteration_stmt, return_stmt, VarDeclaration, Param,
  FunDeclaration, Declaration, var_declaration, fun_declaration, Program,
}
pub mod Preorder
pub mod Programs

pub data Output : Type 0 where
  -- `std::string(N, '-')`
  dashes : ℕ → Output
  text : String → Output
  int_text : ℤ → Output
  float_text : ℕ → Output
  endl : Output

pub record Printer : Type 0 where
  pub depth : ℕ
  pub out : List Output

abbrev pub write : List Output → Printer → Printer
write os s = record s { out = s.out ++ os }

-- _DEBUG_PRINT_N_(depth), the pieces of a line, and its end.
abbrev pub print_line : List Output → Printer → Printer
print_line label s = write (dashes s.depth ∷ label ++ endl ∷ []) s

abbrev pub add_depth : Printer → Printer
add_depth s = record s { depth = s.depth + 2 }

abbrev pub remove_depth : Printer → Printer
remove_depth s = record s { depth = s.depth - 2 }

abbrev pub print_rel_op : RelOp → String
print_rel_op op_lt = "<"
print_rel_op op_le = "<="
print_rel_op op_ge = ">="
print_rel_op op_gt = ">"
print_rel_op op_eq = "=="
print_rel_op op_neq = "!="

abbrev pub print_add_op : AddOp → String
print_add_op op_plus = "+"
print_add_op op_minus = "-"

abbrev pub print_mul_op : MulOp → String
print_mul_op op_mul = "*"
print_mul_op op_div = "/"

abbrev pub visit_num : Num → Printer → Printer
visit_num (i_val z) s = print_line (text "num (int): " ∷ int_text z ∷ []) s
visit_num (f_val x) s = print_line (text "num (float): " ∷ float_text x ∷ []) s

abbrev mutual
  -- ASTAssignExpression and ASTSimpleExpression
  pub visit_expression : Expression → Printer → Printer
  visit_expression (assign_expression v e) s =
      remove_depth (
        visit_expression e (visit_var v (add_depth (print_line (text "assign-expression" ∷ []) s))))
  visit_expression (simple_expression a) s =
      remove_depth (visit_additive a (add_depth (print_line (text "simple-expression" ∷ []) s)))
  visit_expression (relation a o b) s = remove_depth (
      visit_additive b (
        visit_additive a (
          add_depth
            (print_line (text "simple-expression" ∷ text ": " ∷ text (print_rel_op o) ∷ []) s))))

  pub visit_var : Var → Printer → Printer
  visit_var (scalar id) s = print_line (text "var: " ∷ text id ∷ []) s
  visit_var (element id e) s =
      remove_depth
        (visit_expression e (add_depth (print_line (text "var: " ∷ text id ∷ text "[]" ∷ []) s)))

  pub visit_additive : AdditiveExpression → Printer → Printer
  visit_additive (single_term t) s =
      remove_depth (visit_term t (add_depth (print_line (text "additive-expression" ∷ []) s)))
  visit_additive (sum a o t) s = remove_depth (
      visit_term t (
        visit_additive a (
          add_depth
            (print_line (text "additive-expression" ∷ text ": " ∷ text (print_add_op o) ∷ []) s))))

  pub visit_term : Term → Printer → Printer
  visit_term (single_factor f) s =
      remove_depth (visit_factor f (add_depth (print_line (text "term" ∷ []) s)))
  visit_term (product t o f) s = remove_depth (
      visit_factor f (
        visit_term t
          (add_depth (print_line (text "term" ∷ text ": " ∷ text (print_mul_op o) ∷ []) s))))

  -- The virtual call of `accept`, and ASTCall
  pub visit_factor : Factor → Printer → Printer
  visit_factor (Factor.num n) s = visit_num n s
  visit_factor (Factor.expression e) s = visit_expression e s
  visit_factor (Factor.var v) s = visit_var v s
  visit_factor (Factor.call id es) s =
      remove_depth
        (visit_args es (add_depth (print_line (text "call: " ∷ text id ∷ text "()" ∷ []) s)))

  pub visit_args : Expressions → Printer → Printer
  visit_args Expressions.nil s = s
  visit_args (Expressions.cons e es) s = visit_args es (visit_expression e s)

abbrev pub visit_optional : Option Expression → Printer → Printer
visit_optional none s = s
visit_optional (some e) s = visit_expression e s

-- The length of an array is an ASTNum of type TYPE_INT.
abbrev pub print_declared : String → Option ℤ → Printer → Printer
print_declared id none s = print_line (text "var-declaration: " ∷ text id ∷ []) s
print_declared id (some n) s = remove_depth (
    visit_num (i_val n)
      (add_depth (print_line (text "var-declaration: " ∷ text id ∷ text "[]" ∷ []) s)))

abbrev pub visit_var_declaration : VarDeclaration → Printer → Printer
visit_var_declaration d s = print_declared d.id d.num s

-- A loop over a vector that lets each element accept the printer.
abbrev pub visit_each {ℓ} : {A : Type ℓ} → (A → Printer → Printer) → List A → Printer → Printer
visit_each f [] s = s
visit_each f (x ∷ xs) s = visit_each f xs (f x s)

abbrev mutual
  pub visit_statement : Statement → Printer → Printer
  visit_statement (expression_stmt e) s =
      remove_depth (visit_optional e (add_depth (print_line (text "expression-stmt" ∷ []) s)))
  visit_statement (compound_stmt c) s = visit_compound c s
  visit_statement (selection_stmt e b) s = remove_depth (
      visit_statement b
        (visit_expression e (add_depth (print_line (text "selection-stmt" ∷ []) s))))
  visit_statement (selection_else_stmt e b c) s = remove_depth (
      visit_statement c (
        visit_statement b
          (visit_expression e (add_depth (print_line (text "selection-stmt" ∷ []) s)))))
  visit_statement (iteration_stmt e b) s = remove_depth (
      visit_statement b
        (visit_expression e (add_depth (print_line (text "iteration-stmt" ∷ []) s))))
  visit_statement (return_stmt none) s = print_line (text "return-stmt" ∷ text ": void" ∷ []) s
  visit_statement (return_stmt (some e)) s =
      remove_depth (visit_expression e (add_depth (print_line (text "return-stmt" ∷ []) s)))

  pub visit_compound : CompoundStmt → Printer → Printer
  visit_compound (compound ds ss) s = remove_depth (
      visit_statements ss (
        visit_each visit_var_declaration ds (add_depth (print_line (text "compound-stmt" ∷ []) s))))

  pub visit_statements : Statements → Printer → Printer
  visit_statements Statements.nil s = s
  visit_statements (Statements.cons b bs) s = visit_statements bs (visit_statement b s)

abbrev pub array_mark : Bool → List Output
array_mark true = text "[]" ∷ []
array_mark false = []

abbrev pub visit_param : Param → Printer → Printer
visit_param p s = print_line (text "param: " ∷ text p.id ∷ array_mark p.isarray) s

abbrev pub visit_fun_declaration : FunDeclaration → Printer → Printer
visit_fun_declaration d s = remove_depth (
    visit_compound d.compound_stmt (
      visit_each visit_param d.params
        (add_depth (print_line (text "fun-declaration: " ∷ text d.id ∷ []) s))))

abbrev pub visit_declaration : Declaration → Printer → Printer
visit_declaration (var_declaration d) s = visit_var_declaration d s
visit_declaration (fun_declaration d) s = visit_fun_declaration d s

abbrev pub visit_program : Program → Printer → Printer
visit_program ds s =
    remove_depth (visit_each visit_declaration ds (add_depth (print_line (text "program" ∷ []) s)))
