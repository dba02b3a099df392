-- ===== src/Tests/OptRuns.antt =====
-- Constant folding and constant propagation (src/optimization/ConstPropagation.cpp) on the code
--   %2 = add 2, 3
--   %3 = mul %2, 3
--   ret %3
use Prim.Native.Nat.{zero, suc}
use mathlib.Core.Path.{subst}
use ustc_2021_compliers.Base.{
  ℕ, some, none, true, false, [], ◌∷◌, ◌≡◌, ◌↔◌, refl, Result, ok, undefined, List, arith, map,
  ◌==◌, if◌then◌else◌, ◌++◌, ◌≤◌, length,
}
use mathlib.Core.List.{flatten}
use ustc_2021_compliers.Base.Int.{pos, negsuc, ◌+ℤ◌, ◌*ℤ◌}
use ustc_2021_compliers.Ir.Instruction.{OpId, CmpOp}
use ustc_2021_compliers.Ir.Heap.{
  Heap, Kind, Use, constant_int, instruction, other, replace_all_use_with, new_constant,
  set_operand, remove_use_of_ops,
}
use ustc_2021_compliers.Ir.Heap.Replace.{
  slot, listed, IsBounded, Moved, Replaced, replace_all_use_with-Replaced,
}
use ustc_2021_compliers.Opt.ConstFolder.{Floats, compute, compute_cmp, is_int}
use ustc_2021_compliers.Opt.ConstFolder.Meaning.{
  wrap, run_int, Compares, compute-run_int, compute_cmp-Compares, compute-sdiv_undefined,
}
use ustc_2021_compliers.Opt.ConstProp.{
  run, run_blocks, run_block, visit_all, visit, visit_op, visit_int, fold_int, replace_by,
}
use ustc_2021_compliers.Opt.ConstProp.Values.{
  Value, int, address, Models, IsReady, Follows, IsConstant, Means, HasArity,
}
use ustc_2021_compliers.Ir.Heap.{add_operand}
use ustc_2021_compliers.Ir.Heap.Replace.{Accurate}
use ustc_2021_compliers.Ir.Heap.Operands.{add_operand-Accurate}
use ustc_2021_compliers.Opt.ConstProp.Unused.{operand_of}
use ustc_2021_compliers.Opt.ConstProp.Thinned.{Left, run-Follows}
use ustc_2021_compliers.Opt.ConstProp.Returns.{IsDefined}
use ustc_2021_compliers.Opt.ConstProp.Total.{run-returns}
use ustc_2021_compliers.Base.{All}

compute-run_int_example :
    (run_int OpId.sdiv (negsuc 6) (pos 2) ≡ some (negsuc 2)) × (is_int (negsuc 2) ≡ true)
unfolding compute
compute-run_int_example = compute-run_int OpId.sdiv (negsuc 6) (pos 2) (negsuc 2) refl

compute_cmp-Compares_example :
    (compute_cmp CmpOp.ge (pos 2) (negsuc 0) ≡ true) ↔ Compares CmpOp.ge (pos 2) (negsuc 0)
compute_cmp-Compares_example = compute_cmp-Compares CmpOp.ge (pos 2) (negsuc 0)

compute-sdiv_undefined_example :
    (compute OpId.sdiv (pos 7) (pos 0) ≡ undefined) ↔ (run_int OpId.sdiv (pos 7) (pos 0) ≡ none)
compute-sdiv_undefined_example = compute-sdiv_undefined (pos 7) (pos 0)

-- No float occurs in the code.
abbrev no_floats : Floats
no_floats = record {
  add = λ a b. 0;
  sub = λ a b. 0;
  mul = λ a b. 0;
  div = λ a b. 0;
  abs = λ a. a;
  less = λ a b. false;
  less_eq = λ a b. true;
  below = λ a. true;
  above = λ a. false;
  to_int = λ a. ok (pos 0);
  of_int = λ z. 0;
}

abbrev code_kind : ℕ → Kind
code_kind zero = constant_int (pos 2)
code_kind (suc zero) = constant_int (pos 3)
code_kind (suc (suc zero)) = instruction OpId.add CmpOp.eq
code_kind (suc (suc (suc zero))) = instruction OpId.mul CmpOp.eq
code_kind (suc (suc (suc (suc zero)))) = instruction OpId.ret CmpOp.eq
code_kind _ = other

abbrev code_operands : ℕ → List ℕ
code_operands (suc (suc zero)) = 0 ∷ 1 ∷ []
code_operands (suc (suc (suc zero))) = 2 ∷ 1 ∷ []
code_operands (suc (suc (suc (suc zero)))) = 3 ∷ []
code_operands _ = []

abbrev code_uses : ℕ → List Use
code_uses zero = record { val = 2; arg_no = 0 } ∷ []
code_uses (suc zero) = record { val = 2; arg_no = 1 } ∷ record { val = 3; arg_no = 1 } ∷ []
code_uses (suc (suc zero)) = record { val = 3; arg_no = 0 } ∷ []
code_uses (suc (suc (suc zero))) = record { val = 4; arg_no = 0 } ∷ []
code_uses _ = []

abbrev code : Heap
code = record { kind = code_kind; operands = code_operands; use_list = code_uses; next = 5 }

abbrev values : ℕ → Value
values zero = int (pos 2)
values (suc zero) = int (pos 3)
values (suc (suc zero)) = int (pos 5)
values (suc (suc (suc zero))) = int (pos 15)
values _ = address 0

code-constants : (p : ℕ) → IsConstant (code_kind p) (values p)
code-constants zero = refl
code-constants (suc zero) = refl
code-constants (suc (suc zero)) = tt
code-constants (suc (suc (suc zero))) = tt
code-constants (suc (suc (suc (suc zero)))) = tt
code-constants (suc (suc (suc (suc (suc p))))) = tt

same_op : {o o' : OpId} {c c' : CmpOp} → instruction o c ≡ instruction o' c' → o ≡ o'
same_op e = cc

code-results :
    (p : ℕ) (op : OpId) (c : CmpOp)
    → code_kind p ≡ instruction op c
    → Means no_floats op c (map values (code_operands p)) (values p)
unfolding run_int wrap ◌+ℤ◌ ◌*ℤ◌
code-results (suc (suc zero)) op c e =
    subst (λ o. Means no_floats o c (int (pos 2) ∷ int (pos 3) ∷ []) (int (pos 5))) (same_op e)
      (λ z h. cc)
code-results (suc (suc (suc zero))) op c e =
    subst (λ o. Means no_floats o c (int (pos 5) ∷ int (pos 3) ∷ []) (int (pos 15))) (same_op e)
      (λ z h. cc)
code-results (suc (suc (suc (suc zero)))) op c e =
    subst (λ o. Means no_floats o c (int (pos 15) ∷ []) (address 0)) (same_op e) tt
code-results zero op c e = cc
code-results (suc zero) op c e = cc
code-results (suc (suc (suc (suc (suc p))))) op c e = cc

code-IsBounded : IsBounded code
code-IsBounded zero = tt
code-IsBounded (suc zero) = tt
code-IsBounded (suc (suc zero)) = (omega arith, (omega arith, tt))
code-IsBounded (suc (suc (suc zero))) = (omega arith, (omega arith, tt))
code-IsBounded (suc (suc (suc (suc zero)))) = (omega arith, tt)
code-IsBounded (suc (suc (suc (suc (suc p))))) = tt

has_arity : (o op : OpId) (vs : List ℕ) → o ≡ op → HasArity o vs → HasArity op vs
has_arity o op vs e h = subst (λ x. HasArity x vs) e h

code-IsReady : IsReady no_floats code values (2 ∷ 3 ∷ 4 ∷ [])
code-IsReady = record {
  models = record { constants = code-constants; results = code-results };
  bounded = code-IsBounded;
  accurate = ((refl, tt), ((refl, tt), (tt, tt)));
  known = (omega arith, (omega arith, (omega arith, tt)));
  arity = (
    (λ op c e. has_arity OpId.add op (0 ∷ 1 ∷ []) (same_op e) (0, 1, refl)),
    (
      (λ op c e. has_arity OpId.mul op (2 ∷ 1 ∷ []) (same_op e) (2, 1, refl)),
      ((λ op c e. has_arity OpId.ret op (3 ∷ []) (same_op e) tt), tt),
    ),
  );
}

abbrev listing : List (List (List ℕ))
listing = ((2 ∷ 3 ∷ 4 ∷ []) ∷ []) ∷ []

abbrev value_of : {A : Type 0} → A → Result A → A
value_of a (ok b) = b
value_of a _ = a

abbrev run_of_code : Heap × List (List (List ℕ))
run_of_code = value_of (code, []) (run no_floats code listing)

-- The multiplication sees the sum folded, and the return is left with 15, the new object 6.
both_folded : (run_of_code.0.operands 4 ≡ 6 ∷ []) × (run_of_code.1 ≡ ((4 ∷ []) ∷ []) ∷ [])
unfolding run run_blocks run_block visit_all visit visit_op visit_int fold_int compute ◌+ℤ◌
    replace_by replace_all_use_with new_constant set_operand ◌*ℤ◌ remove_use_of_ops
both_folded = (refl, refl)

code_runs : run no_floats code listing ≡ ok run_of_code
unfolding run run_blocks run_block visit_all visit visit_op visit_int fold_int compute ◌+ℤ◌
    replace_by replace_all_use_with new_constant set_operand ◌*ℤ◌
code_runs = refl

-- The operands that are instructions are in the use lists.
operand-listed :
    (x i v : ℕ)
    → slot code (operand_of x i) ≡ some v
    → 2 ≤ v
    → listed (code.use_list v) (operand_of x i) ≡ true
operand-listed zero i v e le = cc
operand-listed (suc zero) i v e le = cc
operand-listed (suc (suc zero)) zero v e le =
    let same : 0 ≡ v = cc in absurd (omega (arith, same, le))
operand-listed (suc (suc zero)) (suc zero) v e le =
    let same : 1 ≡ v = cc in absurd (omega (arith, same, le))
operand-listed (suc (suc zero)) (suc (suc i)) v e le = cc
operand-listed (suc (suc (suc zero))) zero v e le =
    let same : 2 ≡ v = cc in subst (λ w. listed (code.use_list w) (operand_of 3 0) ≡ true) same refl
operand-listed (suc (suc (suc zero))) (suc zero) v e le =
    let same : 1 ≡ v = cc in absurd (omega (arith, same, le))
operand-listed (suc (suc (suc zero))) (suc (suc i)) v e le = cc
operand-listed (suc (suc (suc (suc zero)))) zero v e le =
    let same : 3 ≡ v = cc in subst (λ w. listed (code.use_list w) (operand_of 4 0) ≡ true) same refl
operand-listed (suc (suc (suc (suc zero)))) (suc i) v e le = cc
operand-listed (suc (suc (suc (suc (suc x))))) i v e le = cc

run-Follows_example :
    ((env' : ℕ → Value) × Follows code values run_of_code.0 env'
      × Models no_floats run_of_code.0 env')
    × ((gone : List (List (List ℕ))) × Left code run_of_code.0 listing run_of_code.1 gone)
unfolding flatten
run-Follows_example =
    run-Follows no_floats code values listing run_of_code.0 run_of_code.1 code-IsReady
      ((λ e. omega arith, (λ e. omega arith, tt)), ((λ e. omega arith, tt), (tt, tt)))
      (λ x m. (
        λ i e. operand-listed x i 2 e (omega arith),
        (
          λ i e. operand-listed x i 3 e (omega arith),
          (λ i e. operand-listed x i 4 e (omega arith), tt),
        ),
      ))
      code_runs

code-IsDefined : All (IsDefined no_floats code values) (2 ∷ 3 ∷ 4 ∷ [])
unfolding ◌+ℤ◌ ◌*ℤ◌
code-IsDefined = (
  (OpId.add, CmpOp.eq, refl, refl),
  ((OpId.mul, CmpOp.eq, refl, refl), ((OpId.ret, CmpOp.eq, refl, tt), tt)),
)

run-returns_example : (x : Heap × List (List (List ℕ))) × (run no_floats code listing ≡ ok x)
unfolding flatten
run-returns_example =
    run-returns no_floats code values listing code-IsReady
      ((λ e. omega arith, (λ e. omega arith, tt)), ((λ e. omega arith, tt), (tt, tt)))
      code-IsDefined

-- The heap's values where %2 is as much as the constant 2, which takes its place.
abbrev folded_code : Heap
folded_code = value_of code (replace_all_use_with code 2 0)

abbrev two_values : ℕ → Value
two_values p = if p == 3 then int (pos 6) else int (pos 2)

replace_all_use_with-Replaced_example :
    Moved (code.use_list 2) 0 code folded_code × Replaced two_values 2 0 refl code folded_code
unfolding replace_all_use_with set_operand
replace_all_use_with-Replaced_example =
    replace_all_use_with-Replaced two_values 2 0 refl code folded_code refl (refl, tt)

-- The sum becomes a second operand of the instruction 4.
add_operand-Accurate_example :
    ((u : ℕ)
      → (add_operand code 4 2).operands u
        ≡ (if 4 == u then code.operands 4 ++ 2 ∷ [] else code.operands u))
    × ((w : ℕ)
        → (add_operand code 4 2).use_list w ≡ (
            if 2 == w
            then code.use_list 2 ++ record { val = 4; arg_no = length (code.operands 4) } ∷ []
            else code.use_list w))
    × ((w : ℕ) → Accurate code w → Accurate (add_operand code 4 2) w)
add_operand-Accurate_example = add_operand-Accurate code 4 2
