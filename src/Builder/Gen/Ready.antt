-- ===== src/Builder/Gen/Ready.antt =====
-- What holds of the state of src/cminusfc/cminusf_builder.cpp while code is generated.
use ustc_2021_compliers.Base.{
  ℕ, String, ◌<◌, ◌≡◌, refl, ◌∙◌, true, some, List, [], ◌∷◌, length, arith,
}
use ustc_2021_compliers.Ir.Types.{Types, Shape, get_int32_type, get_float_type, get_void_type}
use ustc_2021_compliers.Ir.Create.{Code}
use ustc_2021_compliers.Ir.Create.Created.{IsObject}
use ustc_2021_compliers.Ir.Create.Kept.{IsSound, Grows, Grows-refl, Grows-trans, IsObject-Grows}
use ustc_2021_compliers.Builder.Scope.{find}
use ustc_2021_compliers.Builder.Gen.{Builder, is_function}
use ustc_2021_compliers.Builder.Gen.Typing.{
  Basic, int, float, Ty, basic, array, pointer, void, Entry, variable, function, Env,
}

abbrev pub type_id : Basic → ℕ
type_id int = get_int32_type
type_id float = get_float_type

-- The type `p` of the module is what the type system means.
abbrev pub HasType : Types → ℕ → Ty → Type 0
HasType ts p (basic b) = p ≡ type_id b
HasType ts p (array b) = (n : ℕ) × (ts.shape p ≡ Shape.array (type_id b) n)
HasType ts p (pointer b) = ts.shape p ≡ Shape.pointer (type_id b)
HasType ts p void = p ≡ get_void_type

-- The address of a variable of the type `t`
abbrev pub IsVariable : Code → ℕ → Ty → Type 0
IsVariable c v t =
    IsObject c.heap v
    × ((e : ℕ) × (c.types.shape (c.type_of v) ≡ Shape.pointer e)
        × (e < c.types.next)
        × HasType c.types e t)

abbrev pub HaveTypes : Code → List ℕ → List Ty → Type 0
HaveTypes c [] [] = Unit
HaveTypes c (a ∷ args) (t ∷ ts) =
    IsObject c.heap a × HasType c.types (c.type_of a) t × HaveTypes c args ts
HaveTypes c _ _ = ⊥

pub record IsFunction (c : Code) (func : ℕ) (args : List ℕ) (t : Ty) (params : List Ty)
    : Type 0 where
  pub object : IsObject c.heap func
  pub kind : is_function (c.heap.kind func) ≡ true
  pub returned_known : c.return_type func < c.types.next
  pub returned : HasType c.types (c.return_type func) t
  pub num : c.num_of_args func ≡ length params
  pub arguments : HaveTypes c args params

abbrev pub HasEntry : Builder → ℕ → Entry → Type 0
HasEntry s v (variable t) = IsVariable s.code v t
HasEntry s v (function t params) = IsFunction s.code v (s.arguments v) t params

-- Each visible name of the type system is a name of the scope, for a value that is as typed.
abbrev pub Agrees : Builder → Env → Type 0
Agrees s env =
    (name : String) (entry : Entry)
    → find env name ≡ some entry
    → (v : ℕ) × (find s.scope name ≡ some v) × HasEntry s v entry

-- The numbers of the labels fall from the newest to the oldest, all below the counter.
abbrev pub AreFresh : ℕ → List (ℕ × (String × ℕ)) → Type 0
AreFresh n [] = Unit
AreFresh n (l ∷ ls) = (l.1.1 < n) × AreFresh l.1.1 ls

pub record Ready (s : Builder) : Type 0 where
  pub sound : IsSound s.code
  pub ret : IsObject s.code.heap s.curr_ret_bb
  pub labels : AreFresh s.label_num s.labels

-- What the visit of an expression keeps
pub record Follows (s s' : Builder) : Type 0 where
  pub grows : Grows s.code s'.code
  pub scope_same : s'.scope ≡ s.scope
  pub arguments_same : s'.arguments ≡ s.arguments
  pub ret_bb_same : s'.curr_ret_bb ≡ s.curr_ret_bb
  pub ret_addr_same : s'.curr_ret_addr ≡ s.curr_ret_addr
  pub depth_same : s'.compound_stmt_depth ≡ s.compound_stmt_depth

pub Follows-refl : (s : Builder) → Follows s s
Follows-refl s = record {
  grows = Grows-refl s.code;
  scope_same = refl;
  arguments_same = refl;
  ret_bb_same = refl;
  ret_addr_same = refl;
  depth_same = refl;
}

pub Follows-trans : (a b c : Builder) → Follows a b → Follows b c → Follows a c
Follows-trans a b c f g = record {
  grows = Grows-trans a.code b.code c.code f.grows g.grows;
  scope_same = g.scope_same ∙ f.scope_same;
  arguments_same = g.arguments_same ∙ f.arguments_same;
  ret_bb_same = g.ret_bb_same ∙ f.ret_bb_same;
  ret_addr_same = g.ret_addr_same ∙ f.ret_addr_same;
  depth_same = g.depth_same ∙ f.depth_same;
}

module _ (c c' : Code) (sound : IsSound c) (g : Grows c c') where
  pub HasType-Grows :
      (p : ℕ) (t : Ty) → p < c.types.next → HasType c.types p t → HasType c'.types p t
  HasType-Grows p (basic b) lt h = h
  HasType-Grows p (array b) lt h = (h.0, g.shape_same p lt ∙ h.1)
  HasType-Grows p (pointer b) lt h = g.shape_same p lt ∙ h
  HasType-Grows p void lt h = h

  -- The type of an object stays.
  pub HasType-at :
      (v : ℕ) (t : Ty)
      → IsObject c.heap v
      → HasType c.types (c.type_of v) t
      → HasType c'.types (c'.type_of v) t
  HasType-at v t o h = rw (g.type_same v o.1) (HasType-Grows (c.type_of v) t (sound.typed v o.1) h)

  IsVariable-Grows : (v : ℕ) (t : Ty) → IsVariable c v t → IsVariable c' v t
  IsVariable-Grows v t (o, (e, shape, lt, h)) = (
    IsObject-Grows c c' g v o,
    (
      e,
      rw (g.type_same v o.1) (g.shape_same (c.type_of v) (sound.typed v o.1) ∙ shape),
      omega (arith, lt, g.types_le),
      HasType-Grows e t lt h,
    ),
  )

  pub HaveTypes-Grows : (args : List ℕ) (ts : List Ty) → HaveTypes c args ts → HaveTypes c' args ts
  HaveTypes-Grows [] [] h = tt
  HaveTypes-Grows [] (t ∷ ts) h = absurd h
  HaveTypes-Grows (a ∷ args) [] h = absurd h
  HaveTypes-Grows (a ∷ args) (t ∷ ts) (o, h, hs) =
      (IsObject-Grows c c' g a o, HasType-at a t o h, HaveTypes-Grows args ts hs)

  IsFunction-Grows :
      (func : ℕ) (args : List ℕ) (t : Ty) (params : List Ty)
      → IsFunction c func args t params
      → IsFunction c' func args t params
  IsFunction-Grows func args t params f = record {
    object = IsObject-Grows c c' g func f.object;
    kind = rw (g.kind_same func f.object.1) f.kind;
    returned_known = rw g.return_same (omega (arith, f.returned_known, g.types_le));
    returned = rw g.return_same (HasType-Grows (c.return_type func) t f.returned_known f.returned);
    num = rw g.num_same f.num;
    arguments = HaveTypes-Grows args params f.arguments;
  }

module _ (s s' : Builder) (sound : IsSound s.code) (f : Follows s s') where
  pub HasEntry-Follows : (v : ℕ) (entry : Entry) → HasEntry s v entry → HasEntry s' v entry
  HasEntry-Follows v (variable t) h = IsVariable-Grows s.code s'.code sound f.grows v t h
  HasEntry-Follows v (function t params) h =
      rw f.arguments_same
        (IsFunction-Grows s.code s'.code sound f.grows v (s.arguments v) t params h)

  -- The names stay what they are.
  pub Agrees-Follows : (env : Env) → Agrees s env → Agrees s' env
  Agrees-Follows env agrees name entry e =
      let (v, found, h) = agrees name entry e in
      (v, rw f.scope_same found, HasEntry-Follows v entry h)
