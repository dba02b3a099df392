-- ===== src/Ir/Types.antt =====
-- The types of a module (src/lightir/Module.cpp, src/lightir/Type.cpp): objects that the module makes
-- once and hands out by pointer. A pointer is a number.
use Prim.Native.Nat.{zero, suc}
use ustc_2021_compliers.Base.{
  ℕ, ◌+◌, Bool, true, false, Option, none, some, List, [], ◌∷◌, Result, ok, abort, undefined, ◌==◌,
  ◌&&◌, ◌||◌, if◌then◌else◌,
}
use ustc_2021_compliers.Ir.Heap.{update}
pub mod Interned

-- The classes of types with their fields. A function type has its result and its parameters.
pub data Shape : Type 0 where
  void label float : Shape
  integer : ℕ → Shape
  array : ℕ → ℕ → Shape
  pointer : ℕ → Shape
  function_type : ℕ → List ℕ → Shape

pub record Types : Type 0 where
  pub shape : ℕ → Shape
  -- the next pointer that `new` returns
  pub next : ℕ
  pub pointer_map : List (ℕ × ℕ)
  pub array_map : List ((ℕ × ℕ) × ℕ)

-- The five types that the constructor of Module makes, in their order.
abbrev pub first_shape : ℕ → Shape
first_shape zero = void
first_shape (suc zero) = label
first_shape (suc (suc zero)) = integer 1
first_shape (suc (suc (suc zero))) = integer 32
first_shape _ = float

abbrev pub get_void_type : ℕ
get_void_type = 0

abbrev pub get_label_type : ℕ
get_label_type = 1

abbrev pub get_int1_type : ℕ
get_int1_type = 2

abbrev pub get_int32_type : ℕ
get_int32_type = 3

abbrev pub get_float_type : ℕ
get_float_type = 4

abbrev pub new_module : Types
new_module = record { shape = first_shape; next = 5; pointer_map = []; array_map = [] }

abbrev pub find_pointer : ℕ → List (ℕ × ℕ) → Option ℕ
find_pointer c [] = none
find_pointer c ((k, p) ∷ rest) = let found = find_pointer c rest in if k == c then some p else found

abbrev pub find_array : ℕ → ℕ → List ((ℕ × ℕ) × ℕ) → Option ℕ
find_array c n [] = none
find_array c n (((k, m), p) ∷ rest) =
    let found = find_array c n rest in if (k == c) && (m == n) then some p else found

-- `new PointerType(contained)`, entered in the map
abbrev pub new_pointer_type : Types → ℕ → Types × ℕ
new_pointer_type ts c = (
  record ts {
    shape = update ts.shape ts.next (pointer c);
    next = suc ts.next;
    pointer_map = (c, ts.next) ∷ ts.pointer_map;
  },
  ts.next,
)

abbrev pub found_or_new : Types → ℕ → Option ℕ → Types × ℕ
found_or_new ts c (some p) = (ts, p)
found_or_new ts c none = new_pointer_type ts c

-- Module::get_pointer_type, and PointerType::get
unfoldable pub get_pointer_type : Types → ℕ → Types × ℕ
get_pointer_type ts c = found_or_new ts c (find_pointer c ts.pointer_map)

-- ArrayType::is_valid_element_type
abbrev pub is_valid_element_type : Shape → Bool
is_valid_element_type (integer w) = true
is_valid_element_type (array c n) = true
is_valid_element_type float = true
is_valid_element_type _ = false

abbrev pub with_array_type : Types → ℕ → ℕ → Types
with_array_type ts c n = record ts {
  shape = update ts.shape ts.next (array c n);
  next = suc ts.next;
  array_map = ((c, n), ts.next) ∷ ts.array_map;
}

-- `new ArrayType(contained, num_elements)`, whose assertion may fail, entered in the map
abbrev pub new_array_type : Types → ℕ → ℕ → Result (Types × ℕ)
new_array_type ts c n =
    if is_valid_element_type (ts.shape c) then ok (with_array_type ts c n, ts.next) else abort

abbrev pub found_or_new_array : Types → ℕ → ℕ → Option ℕ → Result (Types × ℕ)
found_or_new_array ts c n (some p) = ok (ts, p)
found_or_new_array ts c n none = new_array_type ts c n

-- Module::get_array_type, and ArrayType::get
unfoldable pub get_array_type : Types → ℕ → ℕ → Result (Types × ℕ)
get_array_type ts c n = found_or_new_array ts c n (find_array c n ts.array_map)

-- Type::is_eq_type
abbrev pub is_eq_type : ℕ → ℕ → Bool
is_eq_type p q = p == q

-- Type::get_pointer_element_type and Type::get_array_element_type: a null pointer is `none`.
abbrev pub get_pointer_element_type : Types → ℕ → Option ℕ
get_pointer_element_type ts p = elim (ts.shape p) [ pointer c ↦ some c | _ ↦ none ]

abbrev pub get_array_element_type : Types → ℕ → Option ℕ
get_array_element_type ts p = elim (ts.shape p) [ array c n ↦ some c | _ ↦ none ]

-- FunctionType::is_valid_return_type and is_valid_argument_type
abbrev pub is_valid_return_type : Shape → Bool
is_valid_return_type (integer w) = true
is_valid_return_type void = true
is_valid_return_type float = true
is_valid_return_type _ = false

abbrev pub is_valid_argument_type : Shape → Bool
is_valid_argument_type (integer w) = true
is_valid_argument_type (pointer c) = true
is_valid_argument_type float = true
is_valid_argument_type _ = false

abbrev pub are_valid_arguments : Types → List ℕ → Bool
are_valid_arguments ts [] = true
are_valid_arguments ts (p ∷ ps) = is_valid_argument_type (ts.shape p) && are_valid_arguments ts ps

-- FunctionType::get: a new object at each call, with the assertions of the constructor
unfoldable pub get_function_type : Types → ℕ → List ℕ → Result (Types × ℕ)
get_function_type ts result params =
    if is_valid_return_type (ts.shape result) && are_valid_arguments ts params
    then ok (
      record ts {
        shape = update ts.shape ts.next (function_type result params);
        next = suc ts.next;
      },
      ts.next,
    )
    else abort
