-- ===== src/Opt/ConstProp/Values.antt =====
-- What the values of a function are when it runs, for the soundness of ConstPropagation
-- (src/optimization/ConstPropagation.cpp).
use ustc_2021_compliers.Base.{ℕ, ◌<◌, ◌≤◌, ◌≡◌, ◌∙◌, refl, ap, some, List, [], ◌∷◌, map, ok, All}
use ustc_2021_compliers.Base.Int.{ℤ, pos}
use ustc_2021_compliers.Ir.Instruction.{OpId, CmpOp}
use ustc_2021_compliers.Ir.Heap.{Heap, Kind, constant_int, constant_bool, constant_fp, instruction}
use ustc_2021_compliers.Ir.Heap.Replace.{Accurate, IsBounded}
use ustc_2021_compliers.Opt.ConstFolder.{Floats}
use ustc_2021_compliers.Opt.ConstFolder.Meaning.{run_int, Compares}
use ustc_2021_compliers.Opt.ConstProp.{bool_value}

-- The value that an object has at some point of a run.
pub data Value : Type 0 where
  int : ℤ → Value
  float : ℕ → Value
  address : ℕ → Value

abbrev pub IsConstant : Kind → Value → Type 0
IsConstant (constant_int z) v = v ≡ int z
IsConstant (constant_bool b) v = v ≡ int (bool_value b)
IsConstant (constant_fp x) v = v ≡ float x
IsConstant _ v = Unit

-- What the value of an arithmetic instruction has to do with the values of its operands. Nothing is
-- asked where the instruction has no result, nor of the other instructions.
module _ (fl : Floats) where
  abbrev pub Means : OpId → CmpOp → List Value → Value → Type 0
  Means OpId.add c (int a ∷ int b ∷ []) v = (z : ℤ) → run_int OpId.add a b ≡ some z → v ≡ int z
  Means OpId.sub c (int a ∷ int b ∷ []) v = (z : ℤ) → run_int OpId.sub a b ≡ some z → v ≡ int z
  Means OpId.mul c (int a ∷ int b ∷ []) v = (z : ℤ) → run_int OpId.mul a b ≡ some z → v ≡ int z
  Means OpId.sdiv c (int a ∷ int b ∷ []) v = (z : ℤ) → run_int OpId.sdiv a b ≡ some z → v ≡ int z
  Means OpId.cmp c (int a ∷ int b ∷ []) v =
      (Compares c a b → v ≡ int (pos 1)) × (¬ Compares c a b → v ≡ int (pos 0))
  Means OpId.fadd c (float a ∷ float b ∷ []) v = v ≡ float (fl.add a b)
  Means OpId.fsub c (float a ∷ float b ∷ []) v = v ≡ float (fl.sub a b)
  Means OpId.fmul c (float a ∷ float b ∷ []) v = v ≡ float (fl.mul a b)
  Means OpId.fdiv c (float a ∷ float b ∷ []) v = v ≡ float (fl.div a b)
  Means OpId.fptosi c (float a ∷ []) v = (z : ℤ) → fl.to_int a ≡ ok z → v ≡ int z
  Means OpId.sitofp c (int a ∷ []) v = v ≡ float (fl.of_int a)
  Means _ c vs v = Unit

  -- The values `env` are those of a run of the code that the heap holds.
  pub record Models (h : Heap) (env : ℕ → Value) : Type 0 where
    pub constants : (p : ℕ) → IsConstant (h.kind p) (env p)
    pub results :
        (p : ℕ) (op : OpId) (c : CmpOp)
        → h.kind p ≡ instruction op c
        → Means op c (map env (h.operands p)) (env p)

-- The number of operands of the instructions that the pass reads. Float comparisons are left out:
-- they are folded to another value than they have.
abbrev pub HasArity : OpId → List ℕ → Type 0
HasArity OpId.add vs = (a : ℕ) × (b : ℕ) × (vs ≡ a ∷ b ∷ [])
HasArity OpId.sub vs = (a : ℕ) × (b : ℕ) × (vs ≡ a ∷ b ∷ [])
HasArity OpId.mul vs = (a : ℕ) × (b : ℕ) × (vs ≡ a ∷ b ∷ [])
HasArity OpId.sdiv vs = (a : ℕ) × (b : ℕ) × (vs ≡ a ∷ b ∷ [])
HasArity OpId.cmp vs = (a : ℕ) × (b : ℕ) × (vs ≡ a ∷ b ∷ [])
HasArity OpId.fadd vs = (a : ℕ) × (b : ℕ) × (vs ≡ a ∷ b ∷ [])
HasArity OpId.fsub vs = (a : ℕ) × (b : ℕ) × (vs ≡ a ∷ b ∷ [])
HasArity OpId.fmul vs = (a : ℕ) × (b : ℕ) × (vs ≡ a ∷ b ∷ [])
HasArity OpId.fdiv vs = (a : ℕ) × (b : ℕ) × (vs ≡ a ∷ b ∷ [])
HasArity OpId.fptosi vs = (a : ℕ) × (vs ≡ a ∷ [])
HasArity OpId.sitofp vs = (a : ℕ) × (vs ≡ a ∷ [])
HasArity OpId.fcmp vs = ⊥
HasArity _ vs = Unit

abbrev pub IsWellFormed : Heap → ℕ → Type 0
IsWellFormed h p =
    (op : OpId) (c : CmpOp) → h.kind p ≡ instruction op c → HasArity op (h.operands p)

pair_of_map :
    (f g : ℕ → Value) (vs ws : List ℕ)
    → map f ws ≡ map g vs
    → (a : ℕ) × (b : ℕ) × (vs ≡ a ∷ b ∷ [])
    → (a : ℕ) × (b : ℕ) × (ws ≡ a ∷ b ∷ [])
pair_of_map f g vs (x ∷ y ∷ []) e h = (x, y, refl)
pair_of_map f g vs [] e (a, b, h) = cc (e ∙ ap (map g) h)
pair_of_map f g vs (x ∷ []) e (a, b, h) = cc (e ∙ ap (map g) h)
pair_of_map f g vs (x ∷ y ∷ z ∷ ws) e (a, b, h) = cc (e ∙ ap (map g) h)

single_of_map :
    (f g : ℕ → Value) (vs ws : List ℕ)
    → map f ws ≡ map g vs
    → (a : ℕ) × (vs ≡ a ∷ [])
    → (a : ℕ) × (ws ≡ a ∷ [])
single_of_map f g vs (x ∷ []) e h = (x, refl)
single_of_map f g vs [] e (a, h) = cc (e ∙ ap (map g) h)
single_of_map f g vs (x ∷ y ∷ ws) e (a, h) = cc (e ∙ ap (map g) h)

-- The operands of a user keep their number where they keep their values.
pub HasArity-map :
    (op : OpId) (f g : ℕ → Value) (vs ws : List ℕ)
    → map f ws ≡ map g vs
    → HasArity op vs
    → HasArity op ws
HasArity-map OpId.add f g vs ws e h = pair_of_map f g vs ws e h
HasArity-map OpId.sub f g vs ws e h = pair_of_map f g vs ws e h
HasArity-map OpId.mul f g vs ws e h = pair_of_map f g vs ws e h
HasArity-map OpId.sdiv f g vs ws e h = pair_of_map f g vs ws e h
HasArity-map OpId.cmp f g vs ws e h = pair_of_map f g vs ws e h
HasArity-map OpId.fadd f g vs ws e h = pair_of_map f g vs ws e h
HasArity-map OpId.fsub f g vs ws e h = pair_of_map f g vs ws e h
HasArity-map OpId.fmul f g vs ws e h = pair_of_map f g vs ws e h
HasArity-map OpId.fdiv f g vs ws e h = pair_of_map f g vs ws e h
HasArity-map OpId.fptosi f g vs ws e h = single_of_map f g vs ws e h
HasArity-map OpId.sitofp f g vs ws e h = single_of_map f g vs ws e h
HasArity-map OpId.fcmp f g vs ws e h = h
HasArity-map _ f g vs ws e h = tt

-- The state before the instructions `todo` are visited.
module _ (fl : Floats) where
  pub record IsReady (h : Heap) (env : ℕ → Value) (todo : List ℕ) : Type 0 where
    pub models : Models fl h env
    pub bounded : IsBounded h
    pub accurate : All (Accurate h) todo
    pub known : All (λ p. p < h.next) todo
    pub arity : All (IsWellFormed h) todo

-- What the pass keeps: the values of the old objects, their classes, and the values of the operands
-- of every user.
pub record Follows (h : Heap) (env : ℕ → Value) (h' : Heap) (env' : ℕ → Value) : Type 0 where
  pub kept : (p : ℕ) → p < h.next → env' p ≡ env p
  pub grows : h.next ≤ h'.next
  pub kinds : (p : ℕ) → p < h.next → h'.kind p ≡ h.kind p
  pub operands : (u : ℕ) → map env' (h'.operands u) ≡ map env (h.operands u)
