-- ===== src/Opt/ConstProp/Step.antt =====
-- One step of ConstPropagation (src/optimization/ConstPropagation.cpp): an instruction gives way to
-- a constant of its value.
use ustc_2021_compliers.Base.{
  ℕ, suc, if◌then◌else◌, ◌<◌, ◌≡◌, ◌≢◌, ◌∙◌, refl, sym, ap, Bool, true, false, List, [], ◌∷◌, map,
  ok, All, All-map, arith, ◌==◌, >>=-eq-ok,
}
use ustc_2021_compliers.Ir.Instruction.{OpId, CmpOp}
use ustc_2021_compliers.Ir.Heap.{
  Heap, Kind, update, instruction, replace_all_use_with, new_constant,
}
use ustc_2021_compliers.Ir.Heap.Replace.{Accurate, Replaced, replace_all_use_with-Replaced}
use ustc_2021_compliers.Opt.ConstFolder.{Floats}
use ustc_2021_compliers.Opt.ConstProp.{replace_by}
use ustc_2021_compliers.Opt.ConstProp.Values.{
  Value, IsConstant, Means, HasArity-map, IsWellFormed, IsReady, Follows,
}

map-update :
    (env : ℕ → Value) (n : ℕ) (v : Value) (xs : List ℕ)
    → All (λ p. p < n) xs
    → map (update env n v) xs ≡ map env xs
map-update env n v [] h = refl
map-update env n v (x ∷ xs) h = ground (arith, map-update env n v xs h.1)

module _ (fl : Floats) (h : Heap) (env : ℕ → Value) (p : ℕ) (todo : List ℕ) (k : Kind) (v : Value)
    (ready : IsReady fl h env (p ∷ todo)) (constant : IsConstant k v)
    (no_instruction : (op : OpId) (c : CmpOp) → k ≢ instruction op c) (value : env p ≡ v)
    (distinct : All (λ q. p ≢ q) todo) where
  extended : ℕ → Value
  extended = update env h.next v

  allocated : Heap
  allocated = record h { kind = update h.kind h.next k; next = suc h.next }

  same_value : extended p ≡ extended h.next
  unfolding extended
  same_value = ground (arith, ready.known.0)

  old_values : (u : ℕ) → map extended (h.operands u) ≡ map env (h.operands u)
  unfolding extended
  old_values u = map-update env h.next v (h.operands u) (ready.bounded u)

  module _ (h' : Heap) (done : replace_all_use_with allocated p h.next ≡ ok h') where
    replaced : Replaced extended p h.next same_value allocated h'
    unfolding allocated
    replaced =
        let (moved, same) =
          replace_all_use_with-Replaced extended p h.next same_value allocated h' done
            ready.accurate.0 in
        same

    kind_after : (q : ℕ) → h'.kind q ≡ update h.kind h.next k q
    unfolding allocated
    kind_after q = ap (λ (f : ℕ → Kind). f q) replaced.operands.kinds

    next_after : h'.next ≡ suc h.next
    unfolding allocated
    next_after = replaced.operands.size

    values_after : (u : ℕ) → map extended (h'.operands u) ≡ map env (h.operands u)
    unfolding allocated
    values_after u = replaced.operands.values u ∙ old_values u

    IsConstant-after : (q : ℕ) → IsConstant (h'.kind q) (extended q)
    unfolding extended
    IsConstant-after q = rw (kind_after q) (split (h.next == q))
      where
        split : (t : Bool) → IsConstant (if t then k else h.kind q) (if t then v else env q)
        split true = constant
        split false = ready.models.constants q

    result_after :
        (q : ℕ) (op : OpId) (c : CmpOp)
        → h'.kind q ≡ instruction op c
        → Means fl op c (map extended (h'.operands q)) (extended q)
    unfolding extended
    result_after q op c e = rw (values_after q) (split (h.next == q) (rw (kind_after q) at e))
      where
        split :
            (t : Bool)
            → (if t then k else h.kind q) ≡ instruction op c
            → Means fl op c (map env (h.operands q)) (if t then v else env q)
        split true x = absurd (no_instruction op c x)
        split false x = ready.models.results q op c x

    follows : Follows h env h' extended
    unfolding extended
    follows = record {
      kept = λ q lt. ground arith;
      grows = omega (arith, next_after);
      kinds = λ q lt. ground (arith, kind_after q);
      operands = values_after;
    }

    arity_after : (q : ℕ) → q < h.next → IsWellFormed h q → IsWellFormed h' q
    arity_after q lt w op c e =
        HasArity-map op extended env (h.operands q) (h'.operands q) (values_after q)
          (w op c (sym (ground (arith, kind_after q)) ∙ e))

    rest_after : All (Accurate h') todo × All (IsWellFormed h') todo
    unfolding allocated
    rest_after = go todo ready.accurate.1 ready.known.1 ready.arity.1 distinct
      where
        go :
            (qs : List ℕ)
            → All (Accurate h) qs
            → All (λ q. q < h.next) qs
            → All (IsWellFormed h) qs
            → All (λ q. p ≢ q) qs
            → All (Accurate h') qs × All (IsWellFormed h') qs
        go [] a b w d = (tt, tt)
        go (q ∷ qs) a b w d =
            let (x, y) = go qs a.1 b.1 w.1 d.1 in
            ((replaced.accurate q d.0 (omega arith) a.0, x), (arity_after q b.0 w.0, y))

    IsReady-after : IsReady fl h' extended todo
    unfolding allocated
    IsReady-after = record {
      models = record { constants = IsConstant-after; results = result_after };
      bounded =
          replaced.bounded (omega arith)
            (λ u. All-map (h.operands u) (λ q lt. omega arith) (ready.bounded u));
      accurate = rest_after.0;
      arity = rest_after.1;
      known = All-map todo (λ q lt. omega (arith, next_after)) ready.known.1;
    }

-- The step as a whole: the instruction is deleted, and what runs afterwards has the same values.
pub record Kept (fl : Floats) (h : Heap) (env : ℕ → Value) (h' : Heap) (todo : List ℕ)
    : Type 0 where
  pub env' : ℕ → Value
  pub follows : Follows h env h' env'
  pub ready : IsReady fl h' env' todo

pub replace_by-Kept :
    (fl : Floats) (h : Heap) (env : ℕ → Value) (p : ℕ) (todo : List ℕ) (k : Kind) (v : Value)
    → IsReady fl h env (p ∷ todo)
    → IsConstant k v
    → ((op : OpId) (c : CmpOp) → k ≢ instruction op c)
    → env p ≡ v
    → All (λ q. p ≢ q) todo
    → (h' : Heap) (folded : Bool) → replace_by h p k ≡ ok (h', folded)
    → Kept fl h env h' todo
unfolding replace_by new_constant allocated
replace_by-Kept fl h env p todo k v ready constant ni value distinct h' folded e =
    let (h2, e1, e2) =
      >>=-eq-ok
        (replace_all_use_with (allocated fl h env p todo k v ready constant ni value distinct) p
          h.next)
        _ e in
    let q : h2 ≡ h' = cc in
    record {
      env' = extended fl h env p todo k v ready constant ni value distinct;
      follows = follows fl h env p todo k v ready constant ni value distinct h' (rw q at e1);
      ready = IsReady-after fl h env p todo k v ready constant ni value distinct h' (rw q at e1);
    }
