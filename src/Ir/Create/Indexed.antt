-- ===== src/Ir/Create/Indexed.antt =====
-- GetElementPtrInst::get_element_type (src/lightir/Instruction.cpp) on arrays of arrays.
use Prim.Native.Nat.{zero, suc}
use ustc_2021_compliers.Base.{
  ℕ, ◌≡◌, refl, ap, ◌∙◌, true, ◌||◌, Option, some, none, List, [], ◌∷◌, ◌==◌, length, arith, ok,
}
use ustc_2021_compliers.Ir.Types.{Types, array, pointer, get_pointer_element_type}
use ustc_2021_compliers.Ir.Create.{
  is_array, may_index, walk_indices, indexed_type, element_of, get_element_type,
}

-- The type is an array of arrays and so on, so many deep, of the type `e`.
pub data Nested (ts : Types) (e : ℕ) : ℕ → ℕ → Type 0 where
  flat : Nested ts e zero e
  deeper :
      {k ty inner n : ℕ}
      → ts.shape ty ≡ array inner n
      → Nested ts e k inner
      → Nested ts e (suc k) ty

goes_on :
    (ts : Types) (e k inner : ℕ) (is : List ℕ)
    → Nested ts e k inner
    → length is ≡ k
    → ((0 == length is) || is_array (ts.shape inner)) ≡ true
goes_on ts e zero inner is flat l = ground (arith, l)
goes_on ts e (suc k) inner is (deeper s d) l = ground (arith, ap is_array s)

walk_indices-ok :
    (ts : Types) (e k ty : ℕ) (is : List ℕ)
    → Nested ts e k ty
    → length is ≡ k
    → walk_indices ts ty is ≡ ok e
walk_indices-ok ts e zero ty [] flat l = refl
walk_indices-ok ts e zero ty (i ∷ is) flat l = absurd (omega (arith, l))
walk_indices-ok ts e (suc k) ty [] (deeper s d) l = absurd (omega (arith, l))
walk_indices-ok ts e (suc k) ty (i ∷ is) (deeper {inner = inner} s d) l =
    let less : length is ≡ k = omega (arith, l) in
    rw (s, goes_on ts e k inner is d less) (walk_indices-ok ts e k inner is d less)

indexed_type-ok :
    (ts : Types) (e k ty i : ℕ) (is : List ℕ)
    → Nested ts e k ty
    → length is ≡ k
    → indexed_type ts ty (i ∷ is) ≡ ok e
indexed_type-ok ts e zero ty i [] flat l = ground arith
indexed_type-ok ts e zero ty i (x ∷ is) flat l = absurd (omega (arith, l))
indexed_type-ok ts e (suc k) ty i is (deeper {inner = inner} s d) l =
    rw s (walk_indices-ok ts e (suc k) ty is (deeper s d) l)

allowed :
    (ts : Types) (e k ty : ℕ)
    → Nested ts e k ty
    → may_index (ts.shape e) ≡ true
    → may_index (ts.shape ty) ≡ true
allowed ts e zero ty flat m = m
allowed ts e (suc k) ty (deeper s d) m = ap may_index s

-- For a pointer to a type that is an array so many deep of `e`, where `e` is an array, an integer or
-- the float type: with one index more than that, get_element_type passes its assertions and returns
-- `e`.
pub get_element_type-Nested :
    (ts : Types) (e k ty ptr_ty i : ℕ) (is : List ℕ)
    → ts.shape ptr_ty ≡ pointer ty
    → Nested ts e k ty
    → may_index (ts.shape e) ≡ true
    → length is ≡ k
    → get_element_type ts ptr_ty (i ∷ is) ≡ ok e
unfolding get_element_type
get_element_type-Nested ts e k ty ptr_ty i is s d m l =
    ap (λ o. element_of ts o (i ∷ is)) (pointed s)
    ∙ rw (allowed ts e k ty d m) (indexed_type-ok ts e k ty i is d l)
  where
    pointed : ts.shape ptr_ty ≡ pointer ty → get_pointer_element_type ts ptr_ty ≡ some ty
    pointed p = ap (λ sh. elim sh as (λ x. Option ℕ) [ pointer c ↦ some c | _ ↦ none ]) p
