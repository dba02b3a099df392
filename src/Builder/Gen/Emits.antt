-- ===== src/Builder/Gen/Emits.antt =====
-- The calls of include/lightir/IRBuilder.h by src/cminusfc/cminusf_builder.cpp: what each leaves.
use Prim.Native.Nat.{suc}
use ustc_2021_compliers.Base.{
  ℕ, String, ◌<◌, ◌≡◌, refl, Bool-cases, inl, inr, List, All, arith, ok, ◌==◌, ==_iff,
}
use ustc_2021_compliers.Ir.Instruction.{OpId, CmpOp}
use ustc_2021_compliers.Ir.Heap.{Kind, update}
use ustc_2021_compliers.Ir.Types.{
  get_int32_type, get_float_type, get_void_type, get_label_type, get_int1_type, get_pointer_type,
}
use ustc_2021_compliers.Ir.Types.Interned.{get_pointer_type-IsInterned, get_pointer_type-keeps}
use ustc_2021_compliers.Ir.Blocks.{Blocks}
use ustc_2021_compliers.Ir.Create.{Code, new_user, create}
use ustc_2021_compliers.Ir.Create.Linked.{new_user-IsAccurate, next-new_user}
use ustc_2021_compliers.Ir.Create.Created.{IsObject}
use ustc_2021_compliers.Ir.Create.Kept.{
  IsSound, Grows, Grows-refl, Grows-trans, IsObject-Grows, create-Gives,
}
use ustc_2021_compliers.Builder.Gen.{Builder, emitted, new_value, with_label, new_block}
use ustc_2021_compliers.Builder.Gen.Ready.{Ready, Follows, Follows-trans}

-- A new object `v` of the type `ty`, and a state that follows
pub record Made (s : Builder) (ty : ℕ) (s' : Builder) (v : ℕ) : Type 0 where
  pub ready : Ready s'
  pub follows : Follows s s'
  pub object : IsObject s'.code.heap v
  pub typed : s'.code.type_of v ≡ ty

-- A step after others.
pub Made-after :
    (a b : Builder) (ty : ℕ) (c : Builder) (v : ℕ) → Follows a b → Made b ty c v → Made a ty c v
Made-after a b ty c v f m = record {
  ready = m.ready;
  follows = Follows-trans a b c f m.follows;
  object = m.object;
  typed = m.typed;
}

module _ (s : Builder) (ready : Ready s) where
  -- Other code that has grown from that of the state
  pub with_code-Ready : (c : Code) → IsSound c → Grows s.code c → Ready (record s { code = c })
  with_code-Ready c sound g = record {
    sound = sound;
    ret = IsObject-Grows s.code c g s.curr_ret_bb ready.ret;
    labels = ready.labels;
  }

  pub with_code-Follows : (c : Code) → Grows s.code c → Follows s (record s { code = c })
  with_code-Follows c g = record {
    grows = g;
    scope_same = refl;
    arguments_same = refl;
    ret_bb_same = refl;
    ret_addr_same = refl;
    depth_same = refl;
  }

  -- The creation of an instruction in code `c` that has grown from that of the state
  pub emitted_in-Made :
      (c : Code) (op : OpId) (cmp_op : CmpOp) (ty : ℕ) (vals : List ℕ) (bb : ℕ)
      → IsSound c
      → Grows s.code c
      → ty < c.types.next
      → All (IsObject c.heap) vals
      → (r : Builder × ℕ) × (emitted s (create c op cmp_op ty vals bb) ≡ ok r)
        × Made s ty r.0 r.1
        × Grows c r.0.code
  unfolding emitted
  emitted_in-Made c op cmp_op ty vals bb sound g known objects =
      let (r, e, m) = create-Gives c sound ty known op cmp_op vals bb objects in
      let grown = Grows-trans s.code c r.0 g m.grows in
      (
        (record s { code = r.0 }, r.1),
        rw e refl,
        record {
          ready = with_code-Ready r.0 m.sound grown;
          follows = with_code-Follows r.0 grown;
          object = m.object;
          typed = m.typed;
        },
        m.grows,
      )

  -- The same in the code of the state
  pub emitted-Made :
      (op : OpId) (cmp_op : CmpOp) (ty : ℕ) (vals : List ℕ) (bb : ℕ)
      → ty < s.code.types.next
      → All (IsObject s.code.heap) vals
      → (r : Builder × ℕ) × (emitted s (create s.code op cmp_op ty vals bb) ≡ ok r)
        × Made s ty r.0 r.1
  emitted-Made op cmp_op ty vals bb known objects =
      let (r, e, m, g) =
        emitted_in-Made s.code op cmp_op ty vals bb ready.sound (Grows-refl s.code) known objects in
      (r, e, m)

  first_known : (ty : ℕ) → ty < 5 → ty < s.code.types.next
  first_known ty lt = omega (arith, lt, ready.sound.interned.enough)

  -- The types that each module has
  pub void_known : get_void_type < s.code.types.next
  void_known = first_known get_void_type (omega arith)

  pub label_known : get_label_type < s.code.types.next
  label_known = first_known get_label_type (omega arith)

  pub int1_known : get_int1_type < s.code.types.next
  int1_known = first_known get_int1_type (omega arith)

  pub int32_known : get_int32_type < s.code.types.next
  int32_known = first_known get_int32_type (omega arith)

  pub float_known : get_float_type < s.code.types.next
  float_known = first_known get_float_type (omega arith)

  -- The same in code with other blocks
  pub with_blocks-IsSound : (b : Blocks) → IsSound (record (s.code) { blocks = b })
  with_blocks-IsSound b = record {
    accurate = ready.sound.accurate;
    interned = ready.sound.interned;
    typed = ready.sound.typed;
  }

  pub with_blocks-Grows : (b : Blocks) → Grows s.code (record (s.code) { blocks = b })
  with_blocks-Grows b = record {
    heap_le = omega arith;
    types_le = omega arith;
    type_same = λ v lt. refl;
    kind_same = λ v lt. refl;
    shape_same = λ p lt. refl;
    return_same = refl;
    num_same = refl;
  }

  -- A type that Module::get_pointer_type returns, in the code that it leaves
  pub with_pointer-IsSound :
      (ty : ℕ) → IsSound (record (s.code) { types = (get_pointer_type s.code.types ty).0 })
  with_pointer-IsSound ty =
      let (le, lt, same) = get_pointer_type-keeps s.code.types ready.sound.interned ty in
      record {
        accurate = ready.sound.accurate;
        interned = (get_pointer_type-IsInterned s.code.types ready.sound.interned ty).0;
        typed = λ v l. omega (arith, le, ready.sound.typed v l);
      }

  pub with_pointer-Grows :
      (ty : ℕ) → Grows s.code (record (s.code) { types = (get_pointer_type s.code.types ty).0 })
  with_pointer-Grows ty =
      let (le, lt, same) = get_pointer_type-keeps s.code.types ready.sound.interned ty in
      record {
        heap_le = omega arith;
        types_le = le;
        type_same = λ v l. refl;
        kind_same = λ v l. refl;
        shape_same = same;
        return_same = refl;
        num_same = refl;
      }

  new_value-kind :
      (k : Kind) (v : ℕ)
      → v < s.code.heap.next
      → (new_user s.code.heap k 0).kind v ≡ s.code.heap.kind v
  unfolding new_user
  new_value-kind k v lt = ground (arith, lt)

  new_value-typed :
      (k : Kind) (ty v : ℕ)
      → ty < s.code.types.next
      → v < (new_user s.code.heap k 0).next
      → update s.code.type_of s.code.heap.next ty v < s.code.types.next
  new_value-typed k ty v known lt = elim (Bool-cases (s.code.heap.next == v)) [
    | inl t ↦ rw t known
    | inr f ↦ rw f (
        ready.sound.typed v
          (ground (arith, lt, next-new_user s.code.heap k 0 ready.sound.accurate)))
  ]

  -- A constant, an argument or a block
  pub new_value-Made :
      (k : Kind) (ty : ℕ)
      → ty < s.code.types.next
      → Made s ty (new_value s k ty).0 (new_value s k ty).1
  unfolding new_value
  new_value-Made k ty known =
      let size : (new_user s.code.heap k 0).next ≡ suc s.code.heap.next =
        next-new_user s.code.heap k 0 ready.sound.accurate in
      let c : Code = record (s.code) {
        heap = new_user s.code.heap k 0;
        type_of = update s.code.type_of s.code.heap.next ty;
      } in
      let sound : IsSound c = record {
        accurate = new_user-IsAccurate s.code.heap k 0 ready.sound.accurate;
        interned = ready.sound.interned;
        typed = λ v lt. new_value-typed k ty v known lt;
      } in
      let grows : Grows s.code c = record {
        heap_le = omega (arith, size);
        types_le = omega arith;
        type_same = λ v lt. ground (arith, lt);
        kind_same = λ v lt. new_value-kind k v lt;
        shape_same = λ p lt. refl;
        return_same = refl;
        num_same = refl;
      } in
      record {
        ready = with_code-Ready c sound grows;
        follows = with_code-Follows c grows;
        object = (ground (arith, ready.sound.accurate.positive), omega (arith, size));
        typed = rw ((==_iff s.code.heap.next s.code.heap.next).1 refl) refl;
      }

  -- A block enters the lists of the function with a label.
  with_label-Made :
      (s1 : Builder) (name : String) (ty b : ℕ)
      → Made s ty s1 b
      → Made s ty (with_label s1 name b) b
  with_label-Made s1 name ty b m = record {
    ready = record {
      sound = record {
        accurate = m.ready.sound.accurate;
        interned = m.ready.sound.interned;
        typed = m.ready.sound.typed;
      };
      ret = m.ready.ret;
      labels = (omega arith, m.ready.labels);
    };
    follows = record {
      grows = record {
        heap_le = m.follows.grows.heap_le;
        types_le = m.follows.grows.types_le;
        type_same = m.follows.grows.type_same;
        kind_same = m.follows.grows.kind_same;
        shape_same = m.follows.grows.shape_same;
        return_same = m.follows.grows.return_same;
        num_same = m.follows.grows.num_same;
      };
      scope_same = m.follows.scope_same;
      arguments_same = m.follows.arguments_same;
      ret_bb_same = m.follows.ret_bb_same;
      ret_addr_same = m.follows.ret_addr_same;
      depth_same = m.follows.depth_same;
    };
    object = m.object;
    typed = m.typed;
  }

  -- A new block of the function
  pub new_block-Made :
      (name : String) → Made s get_label_type (new_block s name).0 (new_block s name).1
  unfolding new_block
  new_block-Made name =
      with_label-Made (new_value s Kind.basic_block get_label_type).0 name get_label_type
        (new_value s Kind.basic_block get_label_type).1
        (new_value-Made Kind.basic_block get_label_type label_known)
