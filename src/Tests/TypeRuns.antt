-- ===== src/Tests/TypeRuns.antt =====
-- The types that src/lightir/Module.cpp makes for `i32*` and `[10 x i32]`.
use ustc_2021_compliers.Base.{ℕ, ◌≡◌, ◌↔◌, refl, true, [], ◌∷◌, ◌≤◌, ok, arith}
use ustc_2021_compliers.Ir.Types.{
  Types, pointer, array, function_type, get_function_type, get_void_type, new_module,
  get_pointer_type, get_array_type, get_int32_type, is_eq_type,
}
use ustc_2021_compliers.Ir.Types.Interned.{
  IsInterned, new_module-IsInterned, is_eq_type-shape, get_pointer_type-IsInterned,
  get_array_type-IsInterned, get_function_type-IsInterned,
}

abbrev with_pointer : Types
with_pointer = (get_pointer_type new_module get_int32_type).0

is_eq_type-shape_example :
    (is_eq_type get_int32_type 5 ≡ true)
    ↔ (with_pointer.shape get_int32_type ≡ with_pointer.shape 5)
unfolding get_pointer_type
is_eq_type-shape_example =
    is_eq_type-shape with_pointer
      (get_pointer_type-IsInterned new_module new_module-IsInterned get_int32_type).0 get_int32_type
      5 (omega arith) (omega arith) refl

get_pointer_type-IsInterned_example :
    IsInterned with_pointer
    × (with_pointer.shape (get_pointer_type new_module get_int32_type).1 ≡ pointer get_int32_type)
get_pointer_type-IsInterned_example =
    get_pointer_type-IsInterned new_module new_module-IsInterned get_int32_type

get_array_type-IsInterned_example :
    (x : Types × ℕ) × (get_array_type new_module get_int32_type 10 ≡ ok x)
    × IsInterned x.0
    × (x.0.shape x.1 ≡ array get_int32_type 10)
get_array_type-IsInterned_example =
    get_array_type-IsInterned new_module new_module-IsInterned get_int32_type 10 refl

get_function_type-IsInterned_example :
    (x : Types × ℕ) × (get_function_type new_module get_void_type (get_int32_type ∷ []) ≡ ok x)
    × IsInterned x.0
    × (x.0.shape x.1 ≡ function_type get_void_type (get_int32_type ∷ []))
    × (5 ≤ x.1)
get_function_type-IsInterned_example =
    get_function_type-IsInterned new_module new_module-IsInterned get_void_type
      (get_int32_type ∷ []) refl refl
