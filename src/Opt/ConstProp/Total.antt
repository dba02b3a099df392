-- ===== src/Opt/ConstProp/Total.antt =====
-- ConstPropagation::run (src/optimization/ConstPropagation.cpp) as a whole returns on code whose
-- instructions have results.
use ustc_2021_compliers.Base.{
  ℕ, ◌<◌, ◌≡◌, ◌∙◌, refl, sym, List, [], ◌∷◌, ◌++◌, map, Result, ok, All, Returns, >>=-Returns,
  >>=-ok,
}
use mathlib.Core.Path.{subst}
use mathlib.Core.List.{append_assoc, flatten}
use ustc_2021_compliers.Opt.ConstProp.Step.{Kept}
use ustc_2021_compliers.Opt.ConstProp.Sound.{
  Distinct, Distinct-append, visit-Kept, run_block-Kept, run_blocks-Kept,
}
use ustc_2021_compliers.Ir.Heap.{Heap}
use ustc_2021_compliers.Opt.ConstFolder.{Floats}
use ustc_2021_compliers.Opt.ConstProp.{visit, visit_all, delete_all, run_block, run_blocks, run}
use ustc_2021_compliers.Opt.ConstProp.Values.{Value, IsReady, Follows}
use ustc_2021_compliers.Opt.ConstProp.Returns.{HasResult, IsDefined, visit-Returns}

-- A step keeps the code defined.
module _ (fl : Floats) (h h' : Heap) (env env' : ℕ → Value) (follows : Follows h env h' env') where
  IsDefined-Follows : (p : ℕ) → p < h.next → IsDefined fl h env p → IsDefined fl h' env' p
  IsDefined-Follows p lt (op, c, k, r) =
      (op, c, follows.kinds p lt ∙ k, subst (HasResult fl op) (sym (follows.operands p)) r)

  All-IsDefined-Follows :
      (ps : List ℕ)
      → All (λ p. p < h.next) ps
      → All (IsDefined fl h env) ps
      → All (IsDefined fl h' env') ps
  All-IsDefined-Follows [] b d = tt
  All-IsDefined-Follows (p ∷ ps) b d =
      (IsDefined-Follows p b.0 d.0, All-IsDefined-Follows ps b.1 d.1)

-- The state before `todo` is visited, on code whose instructions all have results.
record IsRunnable (fl : Floats) (h : Heap) (env : ℕ → Value) (todo : List ℕ) : Type 0 where
  ready : IsReady fl h env todo
  distinct : Distinct todo
  defined : All (IsDefined fl h env) todo

-- What the code that visits `ps` leaves to the code that visits `todo`.
record Done (fl : Floats) (h : Heap) (env : ℕ → Value) (todo : List ℕ) {A : Type 0}
    (call : Result (Heap × A)) : Type 0 where
  heap : Heap
  rest : A
  returns : call ≡ ok (heap, rest)
  kept : Kept fl h env heap todo
  runnable : IsRunnable fl heap kept.env' todo

module _ (fl : Floats) where
  All-drop : (P : ℕ → Type 0) (ps qs : List ℕ) → All P (ps ++ qs) → All P qs
  All-drop P [] qs a = a
  All-drop P (p ∷ ps) qs a = All-drop P ps qs a.1

  -- A call that returns and keeps the values.
  done :
      {A : Type 0} (ps todo : List ℕ) (h : Heap) (env : ℕ → Value) (call : Result (Heap × A))
      → IsRunnable fl h env (ps ++ todo)
      → Returns call
      → ((h' : Heap) (rest : A) → call ≡ ok (h', rest) → Kept fl h env h' todo)
      → Done fl h env todo call
  done ps todo h env call r ((h', rest), e) keep =
      let k = keep h' rest e in
      record {
        heap = h';
        rest = rest;
        returns = e;
        kept = k;
        runnable = record {
          ready = k.ready;
          distinct = Distinct-append ps todo r.distinct;
          defined =
              All-IsDefined-Follows fl h h' env k.env' k.follows todo
                (All-drop (λ p. p < h.next) ps todo r.ready.known)
                (All-drop (IsDefined fl h env) ps todo r.defined);
        };
      }

  visit_all-Returns :
      (ps todo : List ℕ) (h : Heap) (env : ℕ → Value)
      → IsRunnable fl h env (ps ++ todo)
      → Returns (visit_all fl h ps)
  unfolding visit_all
  visit_all-Returns [] todo h env r = ((h, []), refl)
  visit_all-Returns (p ∷ ps) todo h env r =
      let d =
        done (p ∷ []) (ps ++ todo) h env (visit fl h p) r
          (visit-Returns fl h env p (ps ++ todo) r.ready r.distinct.0 r.defined.0)
          (λ h' folded e. visit-Kept fl h env p (ps ++ todo) r.ready r.distinct.0 h' folded e) in
      let (y, e) = visit_all-Returns ps todo d.heap d.kept.env' d.runnable in
      (_, >>=-ok (visit fl h p) _ d.returns (>>=-ok (visit_all fl d.heap ps) _ e refl))

  run_block-Returns :
      (ps todo : List ℕ) (h : Heap) (env : ℕ → Value)
      → IsRunnable fl h env (ps ++ todo)
      → Returns (run_block fl h ps)
  unfolding run_block
  run_block-Returns ps todo h env r =
      >>=-Returns (visit_all fl h ps) _ (visit_all-Returns ps todo h env r)
        (λ x e. (delete_all x.0 ps x.1, refl))

  run_blocks-Returns :
      (bs : List (List ℕ)) (todo : List ℕ) (h : Heap) (env : ℕ → Value)
      → IsRunnable fl h env (flatten bs ++ todo)
      → Returns (run_blocks fl h bs)
  unfolding run_blocks flatten
  run_blocks-Returns [] todo h env r = ((h, []), refl)
  run_blocks-Returns (b ∷ bs) todo h env r =
      let r' = rw (append_assoc b (flatten bs) todo) at r in
      let d =
        done b (flatten bs ++ todo) h env (run_block fl h b) r'
          (run_block-Returns b (flatten bs ++ todo) h env r')
          (λ h' b' e.
            run_block-Kept fl b (flatten bs ++ todo) h env h' b' r'.ready r'.distinct e) in
      let (y, e) = run_blocks-Returns bs todo d.heap d.kept.env' d.runnable in
      (_, >>=-ok (run_block fl h b) _ d.returns (>>=-ok (run_blocks fl d.heap bs) _ e refl))

  run-Returns :
      (fs : List (List (List ℕ))) (h : Heap) (env : ℕ → Value)
      → IsRunnable fl h env (flatten (map flatten fs))
      → Returns (run fl h fs)
  unfolding run flatten
  run-Returns [] h env r = ((h, []), refl)
  run-Returns (f ∷ fs) h env r =
      let rest = flatten (map flatten fs) in
      let d =
        done (flatten f) rest h env (run_blocks fl h f) r (run_blocks-Returns f rest h env r)
          (λ h' f' e. run_blocks-Kept fl f rest h env h' f' r.ready r.distinct e) in
      let (y, e) = run-Returns fs d.heap d.kept.env' d.runnable in
      (_, >>=-ok (run_blocks fl h f) _ d.returns (>>=-ok (run fl d.heap fs) _ e refl))

-- Constant propagation returns on code whose instructions have results. Take values `env` of a run,
-- use lists whose entries are right, and instructions that occur once, have the operands of their
-- opcode and are no float comparisons. Where no integer instruction overflows or divides by zero on
-- these values, and each float that is converted fits an int, the pass returns: no null pointer, no
-- operand out of range and no arithmetic that C++ leaves undefined.
pub run-returns :
    (fl : Floats) (h : Heap) (env : ℕ → Value) (fs : List (List (List ℕ)))
    → IsReady fl h env (flatten (map flatten fs))
    → Distinct (flatten (map flatten fs))
    → All (IsDefined fl h env) (flatten (map flatten fs))
    → (x : Heap × List (List (List ℕ))) × (run fl h fs ≡ ok x)
run-returns fl h env fs r d a =
    run-Returns fl fs h env (record { ready = r; distinct = d; defined = a })
