-- ===== src/Ir/Types/Interned.antt =====
-- Each type of a module is one object (src/lightir/Module.cpp), so that Type::is_eq_type may compare
-- pointers.
use Prim.Native.Nat.{zero, suc}
use ustc_2021_compliers.Base.{
  ℕ, ◌<◌, ◌≤◌, ◌≡◌, ◌≢◌, ◌↔◌, ◌⊎◌, refl, sym, ap, ◌∙◌, Bool-cases, inl, inr, Bool, true, false,
  List, Option, none, some, ok, ◌==◌, ==_iff, if◌then◌else◌, arith,
}
use ustc_2021_compliers.Ir.Heap.{update}
use ustc_2021_compliers.Ir.Types.{
  Shape, void, label, float, integer, array, pointer, function_type, get_function_type,
  is_valid_return_type, are_valid_arguments, Types, first_shape, new_module, find_pointer,
  find_array, new_pointer_type, found_or_new, get_pointer_type, with_array_type, found_or_new_array,
  get_array_type, is_valid_element_type, is_eq_type,
}

-- The shapes of the types that a module makes.
abbrev pub IsKnown : Shape → Type 0
IsKnown (integer w) = (w ≡ 1) ⊎ (w ≡ 32)
IsKnown _ = Unit

-- The maps hold what was made, and nothing was made twice.
pub record IsInterned (ts : Types) : Type 0 where
  pub entry :
      (c p : ℕ) → find_pointer c ts.pointer_map ≡ some p → (p < ts.next) × (ts.shape p ≡ pointer c)
  pub made :
      (c p : ℕ) → p < ts.next → ts.shape p ≡ pointer c → find_pointer c ts.pointer_map ≡ some p
  pub array_entry :
      (c n p : ℕ) → find_array c n ts.array_map ≡ some p → (p < ts.next) × (ts.shape p ≡ array c n)
  pub array_made :
      (c n p : ℕ) → p < ts.next → ts.shape p ≡ array c n → find_array c n ts.array_map ≡ some p
  pub simple : (p : ℕ) → p < 5 → ts.shape p ≡ first_shape p
  pub others : (p : ℕ) → p < ts.next → (q : ℕ) → q < 5 → ts.shape p ≡ first_shape q → p ≡ q
  pub enough : 4 < ts.next
  pub known : (p : ℕ) → p < ts.next → IsKnown (ts.shape p)

first_shape-ne-pointer : (p c : ℕ) → first_shape p ≢ pointer c
first_shape-ne-pointer zero c e = cc
first_shape-ne-pointer (suc zero) c e = cc
first_shape-ne-pointer (suc (suc zero)) c e = cc
first_shape-ne-pointer (suc (suc (suc zero))) c e = cc
first_shape-ne-pointer (suc (suc (suc (suc p)))) c e = cc

first_shape-ne-array : (p c n : ℕ) → first_shape p ≢ array c n
first_shape-ne-array zero c n e = cc
first_shape-ne-array (suc zero) c n e = cc
first_shape-ne-array (suc (suc zero)) c n e = cc
first_shape-ne-array (suc (suc (suc zero))) c n e = cc
first_shape-ne-array (suc (suc (suc (suc p)))) c n e = cc

first_shape-ne-function_type : (p r : ℕ) (ps : List ℕ) → first_shape p ≢ function_type r ps
first_shape-ne-function_type zero r ps e = cc
first_shape-ne-function_type (suc zero) r ps e = cc
first_shape-ne-function_type (suc (suc zero)) r ps e = cc
first_shape-ne-function_type (suc (suc (suc zero))) r ps e = cc
first_shape-ne-function_type (suc (suc (suc (suc p)))) r ps e = cc

abbrev pub is_function_type : Shape → Bool
is_function_type (function_type r ps) = true
is_function_type _ = false

abbrev place : Shape → ℕ
place void = 0
place label = 1
place (integer w) = if w == 1 then 2 else 3
place _ = 4

place-first_shape : (p : ℕ) → p < 5 → place (first_shape p) ≡ p
place-first_shape zero lt = refl
place-first_shape (suc zero) lt = refl
place-first_shape (suc (suc zero)) lt = refl
place-first_shape (suc (suc (suc zero))) lt = refl
place-first_shape (suc (suc (suc (suc zero)))) lt = refl
place-first_shape (suc (suc (suc (suc (suc p))))) lt = omega arith

first_shape-IsKnown : (p : ℕ) → p < 5 → IsKnown (first_shape p)
first_shape-IsKnown zero lt = tt
first_shape-IsKnown (suc zero) lt = tt
first_shape-IsKnown (suc (suc zero)) lt = inl refl
first_shape-IsKnown (suc (suc (suc zero))) lt = inr refl
first_shape-IsKnown (suc (suc (suc (suc p)))) lt = tt

pub new_module-IsInterned : IsInterned new_module
new_module-IsInterned = record {
  entry = λ c p e. cc;
  made = λ c p lt e. absurd (first_shape-ne-pointer p c e);
  array_entry = λ c n p e. cc;
  array_made = λ c n p lt e. absurd (first_shape-ne-array p c n e);
  simple = λ p lt. refl;
  others = λ p lt q l e. sym (place-first_shape p lt) ∙ ap place e ∙ place-first_shape q l;
  enough = omega arith;
  known = first_shape-IsKnown;
}

module _ (ts : Types) (interned : IsInterned ts) where
  new_pointer_type-IsInterned :
      (c : ℕ) → find_pointer c ts.pointer_map ≡ none → IsInterned (new_pointer_type ts c).0
  new_pointer_type-IsInterned c none_yet = record {
    entry = λ d p e. ground (arith, interned.entry d p);
    made = λ d p lt e. ground (arith, interned.made d p);
    array_entry = λ d n p e. ground (arith, interned.array_entry d n p e);
    array_made = λ d n p lt e. ground (arith, interned.array_made d n p);
    simple = λ p lt. ground (arith, interned.simple p, interned.enough);
    others = λ p lt q l e. elim (Bool-cases (ts.next == p)) [
      | inl t ↦ absurd (first_shape-ne-pointer q c (sym (rw t at e)))
      | inr f ↦ interned.others p (ground arith) q l (rw f at e)
    ];
    enough = omega (arith, interned.enough);
    known = λ p lt. elim (Bool-cases (ts.next == p)) [
      | inl t ↦ rw t tt
      | inr f ↦ rw f (interned.known p (ground arith))
    ];
  }

  with_array_type-IsInterned :
      (c n : ℕ) → find_array c n ts.array_map ≡ none → IsInterned (with_array_type ts c n)
  with_array_type-IsInterned c n none_yet = record {
    entry = λ d p e. ground (arith, interned.entry d p e);
    made = λ d p lt e. ground (arith, interned.made d p);
    array_entry = λ d m p e. ground (arith, interned.array_entry d m p);
    array_made = λ d m p lt e. ground (arith, interned.array_made d m p);
    simple = λ p lt. ground (arith, interned.simple p, interned.enough);
    others = λ p lt q l e. elim (Bool-cases (ts.next == p)) [
      | inl t ↦ absurd (first_shape-ne-array q c n (sym (rw t at e)))
      | inr f ↦ interned.others p (ground arith) q l (rw f at e)
    ];
    enough = omega (arith, interned.enough);
    known = λ p lt. elim (Bool-cases (ts.next == p)) [
      | inl t ↦ rw t tt
      | inr f ↦ rw f (interned.known p (ground arith))
    ];
  }

  found_or_new-IsInterned :
      (c : ℕ) (o : Option ℕ)
      → find_pointer c ts.pointer_map ≡ o
      → IsInterned (found_or_new ts c o).0
  found_or_new-IsInterned c none e = new_pointer_type-IsInterned c e
  found_or_new-IsInterned c (some p) e = interned

  found_or_new-shape :
      (c : ℕ) (o : Option ℕ)
      → find_pointer c ts.pointer_map ≡ o
      → (found_or_new ts c o).0.shape (found_or_new ts c o).1 ≡ pointer c
  found_or_new-shape c none e = ground arith
  found_or_new-shape c (some p) e = (interned.entry c p e).1

  -- In a module whose types are interned, two types with the same class and the same fields, other than function types, are one object, so that
  -- Type::is_eq_type, which compares pointers, decides equality of these types.
  pub is_eq_type-shape :
      (p q : ℕ)
      → p < ts.next
      → q < ts.next
      → is_function_type (ts.shape q) ≡ false
      → (is_eq_type p q ≡ true) ↔ (ts.shape p ≡ ts.shape q)
  is_eq_type-shape p q lp lq plain =
      (λ t. ap ts.shape ((==_iff p q).0 t), λ e. (==_iff p q).1 (same (ts.shape q) refl e))
    where
      basic : (r : ℕ) → r < 5 → ts.shape p ≡ ts.shape q → ts.shape q ≡ first_shape r → p ≡ q
      basic r lr e f = interned.others p lp r lr (e ∙ f) ∙ sym (interned.others q lq r lr f)

      same : (k : Shape) → ts.shape q ≡ k → ts.shape p ≡ ts.shape q → p ≡ q
      same void f e = basic 0 (omega arith) e f
      same label f e = basic 1 (omega arith) e f
      same float f e = basic 4 (omega arith) e f
      same (integer w) f e = elim (rw f at (interned.known q lq)) [
        | inl w1 ↦ basic 2 (omega arith) e (f ∙ ap integer w1)
        | inr w32 ↦ basic 3 (omega arith) e (f ∙ ap integer w32)
      ]
      same (function_type r ps) f e = cc (plain, ap is_function_type f)
      same (pointer c) f e = cc (interned.made c p lp (e ∙ f), interned.made c q lq f)
      same (array c n) f e =
          cc (interned.array_made c n p lp (e ∙ f), interned.array_made c n q lq f)

  -- In a module whose types are interned, Module::get_pointer_type keeps the types interned, and returns the pointer type of its argument.
  pub get_pointer_type-IsInterned :
      (c : ℕ)
      → IsInterned (get_pointer_type ts c).0
        × ((get_pointer_type ts c).0.shape (get_pointer_type ts c).1 ≡ pointer c)
  unfolding get_pointer_type
  get_pointer_type-IsInterned c = (
    found_or_new-IsInterned c (find_pointer c ts.pointer_map) refl,
    found_or_new-shape c (find_pointer c ts.pointer_map) refl,
  )

  found_or_new_array-IsInterned :
      (c n : ℕ) (o : Option ℕ)
      → find_array c n ts.array_map ≡ o
      → is_valid_element_type (ts.shape c) ≡ true
      → (x : Types × ℕ) × (found_or_new_array ts c n o ≡ ok x)
        × IsInterned x.0
        × (x.0.shape x.1 ≡ array c n)
  found_or_new_array-IsInterned c n none e v =
      ((with_array_type ts c n, ts.next), rw v refl, with_array_type-IsInterned c n e, ground arith)
  found_or_new_array-IsInterned c n (some p) e v =
      ((ts, p), refl, interned, (interned.array_entry c n p e).1)

  -- In a module whose types are interned, Module::get_array_type returns where the element is an integer, a float or an array; it keeps the
  -- types interned, and returns the array type of its arguments.
  pub get_array_type-IsInterned :
      (c n : ℕ)
      → is_valid_element_type (ts.shape c) ≡ true
      → (x : Types × ℕ) × (get_array_type ts c n ≡ ok x)
        × IsInterned x.0
        × (x.0.shape x.1 ≡ array c n)
  unfolding get_array_type
  get_array_type-IsInterned c n v =
      found_or_new_array-IsInterned c n (find_array c n ts.array_map) refl v

  with_function_type-IsInterned :
      (r : ℕ) (ps : List ℕ)
      → IsInterned
          (record ts { shape = update ts.shape ts.next (function_type r ps); next = suc ts.next })
  with_function_type-IsInterned r ps = record {
    entry = λ d p e. ground (arith, interned.entry d p e);
    made = λ d p lt e. ground (arith, interned.made d p);
    array_entry = λ d m p e. ground (arith, interned.array_entry d m p e);
    array_made = λ d m p lt e. ground (arith, interned.array_made d m p);
    simple = λ p lt. ground (arith, interned.simple p, interned.enough);
    others = λ p lt q l e. elim (Bool-cases (ts.next == p)) [
      | inl t ↦ absurd (first_shape-ne-function_type q r ps (sym (rw t at e)))
      | inr f ↦ interned.others p (ground arith) q l (rw f at e)
    ];
    enough = omega (arith, interned.enough);
    known = λ p lt. elim (Bool-cases (ts.next == p)) [
      | inl t ↦ rw t tt
      | inr f ↦ rw f (interned.known p (ground arith))
    ];
  }

  -- In a module whose types are interned, FunctionType::get with a result and parameters that its assertions allow returns; it keeps the types
  -- interned, and the type that it returns is not one of those made before.
  pub get_function_type-IsInterned :
      (r : ℕ) (ps : List ℕ)
      → is_valid_return_type (ts.shape r) ≡ true
      → are_valid_arguments ts ps ≡ true
      → (x : Types × ℕ) × (get_function_type ts r ps ≡ ok x)
        × IsInterned x.0
        × (x.0.shape x.1 ≡ function_type r ps)
        × (ts.next ≤ x.1)
  unfolding get_function_type
  get_function_type-IsInterned r ps v vs = (
    (
      record ts { shape = update ts.shape ts.next (function_type r ps); next = suc ts.next },
      ts.next,
    ),
    rw (v, vs) refl,
    with_function_type-IsInterned r ps,
    ground arith,
    omega arith,
  )

  found_or_new-keeps :
      (c : ℕ) (o : Option ℕ)
      → find_pointer c ts.pointer_map ≡ o
      → (ts.next ≤ (found_or_new ts c o).0.next)
        × ((found_or_new ts c o).1 < (found_or_new ts c o).0.next)
        × ((p : ℕ) → p < ts.next → (found_or_new ts c o).0.shape p ≡ ts.shape p)
  found_or_new-keeps c none e = (omega arith, omega arith, λ p lt. ground (arith, lt))
  found_or_new-keeps c (some p) e = (omega arith, (interned.entry c p e).0, λ p lt. refl)

  -- The types that are there keep their class, and the pointer type is one of the types then.
  pub get_pointer_type-keeps :
      (c : ℕ)
      → (ts.next ≤ (get_pointer_type ts c).0.next)
        × ((get_pointer_type ts c).1 < (get_pointer_type ts c).0.next)
        × ((p : ℕ) → p < ts.next → (get_pointer_type ts c).0.shape p ≡ ts.shape p)
  unfolding get_pointer_type
  get_pointer_type-keeps c = found_or_new-keeps c (find_pointer c ts.pointer_map) refl

  -- The array type in the types that Module::get_array_type leaves
  pub record WithArray (c n : ℕ) (x : Types × ℕ) : Type 0 where
    pub still_interned : IsInterned x.0
    pub made : x.0.shape x.1 ≡ array c n
    pub grown : ts.next ≤ x.0.next
    pub known : x.1 < x.0.next
    pub shape_same : (p : ℕ) → p < ts.next → x.0.shape p ≡ ts.shape p

  found_or_new_array-WithArray :
      (c n : ℕ) (o : Option ℕ)
      → find_array c n ts.array_map ≡ o
      → is_valid_element_type (ts.shape c) ≡ true
      → (x : Types × ℕ) × (found_or_new_array ts c n o ≡ ok x) × WithArray c n x
  found_or_new_array-WithArray c n none e v = (
    (with_array_type ts c n, ts.next),
    rw v refl,
    record {
      still_interned = with_array_type-IsInterned c n e;
      made = ground arith;
      grown = omega arith;
      known = omega arith;
      shape_same = λ p lt. ground (arith, lt);
    },
  )
  found_or_new_array-WithArray c n (some p) e v = (
    (ts, p),
    refl,
    record {
      still_interned = interned;
      made = (interned.array_entry c n p e).1;
      grown = omega arith;
      known = (interned.array_entry c n p e).0;
      shape_same = λ q lt. refl;
    },
  )

  -- Module::get_array_type returns the array type, and the types that are there keep their class.
  pub get_array_type-WithArray :
      (c n : ℕ)
      → is_valid_element_type (ts.shape c) ≡ true
      → (x : Types × ℕ) × (get_array_type ts c n ≡ ok x) × WithArray c n x
  unfolding get_array_type
  get_array_type-WithArray c n v =
      found_or_new_array-WithArray c n (find_array c n ts.array_map) refl v
