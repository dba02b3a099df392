-- ===== src/Builder/Gen/Addresses.antt =====
-- src/cminusfc/cminusf_builder.cpp: loads, calls and the addresses of elements in code that is as typed.
use ustc_2021_compliers.Base.{
  ℕ, ◌<◌, ◌≡◌, refl, ap, ◌∙◌, Bool, true, false, not, some, List, [], ◌∷◌, length, All, ok, ==_iff,
  if◌then◌else◌,
}
use ustc_2021_compliers.Ir.Instruction.{OpId, CmpOp}
use ustc_2021_compliers.Ir.Types.{
  Types, Shape, get_int32_type, get_float_type, get_void_type, get_pointer_type,
  get_pointer_element_type,
}
use ustc_2021_compliers.Ir.Types.Interned.{get_pointer_type-IsInterned, get_pointer_type-keeps}
use ustc_2021_compliers.Ir.Blocks.{add_edge}
use ustc_2021_compliers.Ir.Create.{create_gep, get_element_type}
use ustc_2021_compliers.Ir.Create.Created.{IsObject}
use ustc_2021_compliers.Ir.Create.Kept.{Grows-refl}
use ustc_2021_compliers.Builder.Gen.{
  Builder, emitted, loaded, build_load, build_br, build_cond_br, build_call, is_int32, is_float,
  build_sitofp, build_fptosi, to_float, to_index, set_insert_point,
}
use ustc_2021_compliers.Builder.Gen.Typing.{Basic, int, float, Ty}
use ustc_2021_compliers.Builder.Gen.Ready.{
  type_id, IsFunction, Ready, Follows, Follows-refl, Follows-trans,
}
use ustc_2021_compliers.Builder.Gen.Emits.{
  Made, emitted_in-Made, emitted-Made, void_known, int32_known, float_known, with_blocks-IsSound,
  with_blocks-Grows, with_pointer-IsSound, with_pointer-Grows,
}

-- The state after a statement of the code generator
pub record Steps (s s' : Builder) : Type 0 where
  pub ready : Ready s'
  pub follows : Follows s s'

pub Steps-trans : (a b c : Builder) → Steps a b → Steps b c → Steps a c
Steps-trans a b c m n = record {
  ready = n.ready;
  follows = Follows-trans a b c m.follows n.follows;
}

-- An address `v` of a cell of the type `ty`
pub record Addressed (s : Builder) (ty : ℕ) (s' : Builder) (v : ℕ) : Type 0 where
  pub ready : Ready s'
  pub follows : Follows s s'
  pub object : IsObject s'.code.heap v
  pub shape : s'.code.types.shape (s'.code.type_of v) ≡ Shape.pointer ty

pub get_pointer_element_type-shape :
    (ts : Types) (p e : ℕ) → ts.shape p ≡ Shape.pointer e → get_pointer_element_type ts p ≡ some e
get_pointer_element_type-shape ts p e shape = rw (get_pointer_element_type, shape) refl

abbrev pub is_int : Basic → Bool
is_int int = true
is_int float = false

module _ (s : Builder) (ready : Ready s) where
  pub basic_known : (b : Basic) → type_id b < s.code.types.next
  basic_known int = int32_known s ready
  basic_known float = float_known s ready

  pub is_int32-Basic : (v : ℕ) (x : Basic) → s.code.type_of v ≡ type_id x → is_int32 s v ≡ is_int x
  is_int32-Basic v int t = rw t refl
  is_int32-Basic v float t = rw t refl

  pub is_float-Basic :
      (v : ℕ) (x : Basic) → s.code.type_of v ≡ type_id x → is_float s v ≡ not (is_int x)
  is_float-Basic v int t = rw t refl
  is_float-Basic v float t = rw t refl

  pub build_load-Made :
      (ptr e : ℕ)
      → IsObject s.code.heap ptr
      → s.code.types.shape (s.code.type_of ptr) ≡ Shape.pointer e
      → e < s.code.types.next
      → (r : Builder × ℕ) × (build_load s ptr ≡ ok r) × Made s e r.0 r.1
  unfolding build_load
  build_load-Made ptr e o shape lt =
      let (r, d, m) =
        emitted-Made s ready OpId.load CmpOp.eq e (ptr ∷ []) s.insert_block lt (o, tt) in
      (
        r,
        ap (loaded s ptr) (get_pointer_element_type-shape s.code.types (s.code.type_of ptr) e shape)
            ∙ rw
                (
                  get_pointer_element_type-shape s.code.types (s.code.type_of ptr) e shape,
                  (==_iff e e).1 refl,
                )
                d,
        m,
      )

  pub build_br-Steps :
      (b : ℕ) → IsObject s.code.heap b → (s' : Builder) × (build_br s b ≡ ok s') × Steps s s'
  build_br-Steps b o =
      let g = add_edge s.code.blocks s.insert_block b in
      let (r, e, m, grown) =
        emitted_in-Made s ready (record (s.code) { blocks = g }) OpId.br CmpOp.eq get_void_type
          (b ∷ []) s.insert_block (with_blocks-IsSound s ready g) (with_blocks-Grows s ready g)
          (void_known s ready) (o, tt) in
      (r.0, rw e refl, record { ready = m.ready; follows = m.follows })

  pub build_cond_br-Steps :
      (cond b d : ℕ)
      → IsObject s.code.heap cond
      → IsObject s.code.heap b
      → IsObject s.code.heap d
      → (s' : Builder) × (build_cond_br s cond b d ≡ ok s') × Steps s s'
  build_cond_br-Steps cond b d oc ob od =
      let g = add_edge (add_edge s.code.blocks s.insert_block d) s.insert_block b in
      let (r, e, m, grown) =
        emitted_in-Made s ready (record (s.code) { blocks = g }) OpId.br CmpOp.eq get_void_type
          (cond ∷ b ∷ d ∷ []) s.insert_block (with_blocks-IsSound s ready g)
          (with_blocks-Grows s ready g) (void_known s ready) (oc, (ob, (od, tt))) in
      (r.0, rw e refl, record { ready = m.ready; follows = m.follows })

  -- A call of a function with as many arguments as it has parameters
  pub build_call-Made :
      (f : ℕ) (args : List ℕ) (t : Ty) (params : List Ty) (vals : List ℕ)
      → IsFunction s.code f args t params
      → All (IsObject s.code.heap) vals
      → length params ≡ length vals
      → (r : Builder × ℕ) × (build_call s (some f) vals ≡ ok r)
        × Made s (s.code.return_type f) r.0 r.1
  build_call-Made f args t params vals fn objects same =
      let (r, e, m) =
        emitted-Made s ready OpId.call CmpOp.eq (s.code.return_type f) (f ∷ vals) s.insert_block
          fn.returned_known (fn.object, objects) in
      (r, rw (fn.kind, (==_iff (s.code.num_of_args f) (length vals)).1 (fn.num ∙ same)) e, m)

  -- An element of what a pointer points to
  pub gep-Addressed :
      (ptr ty : ℕ) (idxs : List ℕ)
      → IsObject s.code.heap ptr
      → All (IsObject s.code.heap) idxs
      → get_element_type s.code.types (s.code.type_of ptr) idxs ≡ ok ty
      → (r : Builder × ℕ) × (emitted s (create_gep s.code ptr idxs s.insert_block) ≡ ok r)
        × Addressed s ty r.0 r.1
  gep-Addressed ptr ty idxs o os e =
      let ts = (get_pointer_type s.code.types ty).0 in
      let p = (get_pointer_type s.code.types ty).1 in
      let lt = (get_pointer_type-keeps s.code.types ready.sound.interned ty).1 in
      let (r, d, m, g) =
        emitted_in-Made s ready (record (s.code) { types = ts }) OpId.getelementptr CmpOp.eq p
          (ptr ∷ idxs) s.insert_block (with_pointer-IsSound s ready ty)
          (with_pointer-Grows s ready ty) lt (o, os) in
      (
        r,
        rw e d,
        record {
          ready = m.ready;
          follows = m.follows;
          object = m.object;
          shape = rw m.typed (
              g.shape_same p lt
              ∙ (get_pointer_type-IsInterned s.code.types ready.sound.interned ty).1);
        },
      )

  pub to_float-Made :
      (v : ℕ) (x : Basic)
      → IsObject s.code.heap v
      → s.code.type_of v ≡ type_id x
      → (r : Builder × ℕ) × (to_float s v ≡ ok r) × Made s get_float_type r.0 r.1
  unfolding to_float
  to_float-Made v int o t =
      let (r, e, m) =
        emitted-Made s ready OpId.sitofp CmpOp.eq get_float_type (v ∷ []) s.insert_block
          (float_known s ready) (o, tt) in
      (r, ap (λ b. if b then build_sitofp s v else ok (s, v)) (is_int32-Basic v int t) ∙ e, m)
  to_float-Made v float o t =
      ((s, v), rw t refl, record { ready = ready; follows = Follows-refl s; object = o; typed = t })

  pub to_index-Made :
      (v : ℕ) (x : Basic)
      → IsObject s.code.heap v
      → s.code.type_of v ≡ type_id x
      → (r : Builder × ℕ) × (to_index s v ≡ ok r) × Made s get_int32_type r.0 r.1
  unfolding to_index
  to_index-Made v float o t =
      let (r, e, m) =
        emitted-Made s ready OpId.fptosi CmpOp.eq get_int32_type (v ∷ []) s.insert_block
          (int32_known s ready) (o, tt) in
      (r, ap (λ b. if b then build_fptosi s v else ok (s, v)) (is_float-Basic v float t) ∙ e, m)
  to_index-Made v int o t =
      ((s, v), rw t refl, record { ready = ready; follows = Follows-refl s; object = o; typed = t })

  pub set_insert_point-Steps : (b : ℕ) → Steps s (set_insert_point s b)
  set_insert_point-Steps b = record {
    ready = record { sound = ready.sound; ret = ready.ret; labels = ready.labels };
    follows = record {
      grows = Grows-refl s.code;
      scope_same = refl;
      arguments_same = refl;
      ret_bb_same = refl;
      ret_addr_same = refl;
      depth_same = refl;
    };
  }
