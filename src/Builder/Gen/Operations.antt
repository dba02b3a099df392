-- ===== src/Builder/Gen/Operations.antt =====
-- src/cminusfc/cminusf_builder.cpp: operations on numbers, in code that is as typed.
use mathlib.Core.Path.{subst}
use ustc_2021_compliers.Base.{
  ℕ, ◌≡◌, refl, sym, ap, ◌∙◌, ◌&&◌, Result, Yields, Yields-bind, if◌then◌else◌,
}
use ustc_2021_compliers.Ir.Create.{Code}
use ustc_2021_compliers.Ir.Create.Created.{IsObject}
use ustc_2021_compliers.Ir.Create.Kept.{IsSound, IsObject-Grows, Gives}
use ustc_2021_compliers.Builder.Gen.{Builder, emitted, is_int32}
use ustc_2021_compliers.Builder.Gen.Expressions.{build_binary, build_on_floats}
use ustc_2021_compliers.Builder.Gen.Typing.{Basic, int, float, Ty, join}
use ustc_2021_compliers.Builder.Gen.Ready.{type_id, HasType, Ready, Follows, Follows-trans}
use ustc_2021_compliers.Builder.Gen.Emits.{Made, Made-after, with_code-Ready, with_code-Follows}
use ustc_2021_compliers.Builder.Gen.Addresses.{is_int, is_int32-Basic, to_float-Made}

-- The state after an expression of the type `t`
pub record Visited (s : Builder) (t : Ty) (s' : Builder) : Type 0 where
  pub ready : Ready s'
  pub follows : Follows s s'
  pub object : IsObject s'.code.heap s'.curr_val
  pub typed : HasType s'.code.types (s'.code.type_of s'.curr_val) t

-- The visitor takes a value as its result.
pub set_val-Visited :
    (s s' : Builder) (v : ℕ) (t : Ty)
    → Ready s'
    → Follows s s'
    → IsObject s'.code.heap v
    → HasType s'.code.types (s'.code.type_of v) t
    → Visited s t (record s' { curr_val = v })
set_val-Visited s s' v t ready f o h = record {
  ready = record { sound = ready.sound; ret = ready.ret; labels = ready.labels };
  follows = record {
    grows = f.grows;
    scope_same = f.scope_same;
    arguments_same = f.arguments_same;
    ret_bb_same = f.ret_bb_same;
    ret_addr_same = f.ret_addr_same;
    depth_same = f.depth_same;
  };
  object = o;
  typed = h;
}

pub Visited-after :
    (a b : Builder) (t : Ty) (c : Builder) → Follows a b → Visited b t c → Visited a t c
Visited-after a b t c f m = record {
  ready = m.ready;
  follows = Follows-trans a b c f m.follows;
  object = m.object;
  typed = m.typed;
}

-- A function that creates an instruction of the type `ty` with two operands
abbrev pub Makes : (Code → ℕ → ℕ → ℕ → Result (Code × ℕ)) → ℕ → Type 0
Makes on ty =
    (c : Code) (l r b : ℕ)
    → IsSound c
    → IsObject c.heap l
    → IsObject c.heap r
    → Yields (on c l r b) (λ x. Gives c ty x.0 x.1)

abbrev pub pick : Basic → ℕ → ℕ → ℕ
pick int a b = a
pick float a b = b

module _ (s : Builder) (ready : Ready s) where
  emitted_by-Made :
      (call : Result (Code × ℕ)) (ty : ℕ)
      → Yields call (λ x. Gives s.code ty x.0 x.1)
      → Yields (emitted s call) (λ r. Made s ty r.0 r.1)
  unfolding emitted
  emitted_by-Made call ty made = Yields-bind made (λ r m. (
    (record s { code = r.0 }, r.1),
    refl,
    record {
      ready = with_code-Ready s ready r.0 m.sound m.grows;
      follows = with_code-Follows s ready r.0 m.grows;
      object = m.object;
      typed = m.typed;
    },
  ))

-- An operation on two numbers has the type for integers where both are, and that for floats otherwise.
module _ (on_ints on_floats : Code → ℕ → ℕ → ℕ → Result (Code × ℕ)) (ty_ints ty_floats : ℕ)
    (ints : Makes on_ints ty_ints) (floats : Makes on_floats ty_floats) (s : Builder)
    (ready : Ready s) (l r : ℕ) (ol : IsObject s.code.heap l) (or : IsObject s.code.heap r) where
  build_on_floats-Made :
      (x y : Basic)
      → s.code.type_of l ≡ type_id x
      → s.code.type_of r ≡ type_id y
      → Yields (build_on_floats on_floats s l r) (λ q. Made s ty_floats q.0 q.1)
  unfolding build_on_floats
  build_on_floats-Made x y tl tr = Yields-bind (to_float-Made s ready l x ol tl) (λ p m.
      Yields-bind
        (to_float-Made p.0 m.ready r y (IsObject-Grows s.code p.0.code m.follows.grows r or)
          (m.follows.grows.type_same r or.1 ∙ tr))
        (λ q n.
          let (z, e, a) =
            emitted_by-Made q.0 n.ready (on_floats q.0.code p.1 q.1 q.0.insert_block) ty_floats (
              floats q.0.code p.1 q.1 q.0.insert_block n.ready.sound
                (IsObject-Grows p.0.code q.0.code n.follows.grows p.1 m.object) n.object) in
          (
            z,
            e,
            Made-after s q.0 ty_floats z.0 z.1 (Follows-trans s p.0 q.0 m.follows n.follows) a,
          )))

  abbrev as_ints : Result (Builder × ℕ)
  as_ints = emitted s (on_ints s.code l r s.insert_block)

  abbrev as_floats : Result (Builder × ℕ)
  as_floats = build_on_floats on_floats s l r

  tests :
      (x y : Basic)
      → s.code.type_of l ≡ type_id x
      → s.code.type_of r ≡ type_id y
      → (is_int32 s l && is_int32 s r) ≡ (is_int x && is_int y)
  tests x y tl tr =
      ap (λ t. t && is_int32 s r) (is_int32-Basic s ready l x tl)
      ∙ ap (λ t. is_int x && t) (is_int32-Basic s ready r y tr)

  pub build_binary-Made :
      (x y : Basic)
      → s.code.type_of l ≡ type_id x
      → s.code.type_of r ≡ type_id y
      → Yields
          (build_binary on_ints on_floats s l r)
          (λ q. Made s (pick (join x y) ty_ints ty_floats) q.0 q.1)
  unfolding build_binary
  build_binary-Made int int tl tr =
      subst (λ t. Yields (if t then as_ints else as_floats) (λ q. Made s ty_ints q.0 q.1))
        (sym (tests int int tl tr))
        (emitted_by-Made s ready (on_ints s.code l r s.insert_block) ty_ints
          (ints s.code l r s.insert_block ready.sound ol or))
  build_binary-Made int float tl tr =
      subst (λ t. Yields (if t then as_ints else as_floats) (λ q. Made s ty_floats q.0 q.1))
        (sym (tests int float tl tr)) (build_on_floats-Made int float tl tr)
  build_binary-Made float y tl tr =
      subst (λ t. Yields (if t then as_ints else as_floats) (λ q. Made s ty_floats q.0 q.1))
        (sym (tests float y tl tr)) (build_on_floats-Made float y tl tr)
