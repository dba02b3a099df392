-- ===== src/Opt/ConstProp/Thinned.antt =====
-- ConstPropagation::run (src/optimization/ConstPropagation.cpp) as a whole: the values of a run, and the
-- instructions that are left.
use mathlib.Core.Path.{subst}
use mathlib.Core.List.{append_assoc, flatten}
use ustc_2021_compliers.Base.{
  ℕ, ◌≡◌, Bool, true, false, List, [], ◌∷◌, ◌++◌, if◌then◌else◌, map, ok, All, contains, remove_all,
  >>=-eq-ok, arith,
}
use ustc_2021_compliers.Ir.Heap.{Heap}
use ustc_2021_compliers.Opt.ConstFolder.{Floats}
use ustc_2021_compliers.Opt.ConstProp.{visit, visit_all, delete_all, run_block, run_blocks, run}
use ustc_2021_compliers.Opt.ConstProp.Values.{Value, Models, IsReady, Follows}
use ustc_2021_compliers.Opt.ConstProp.Step.{Kept}
use ustc_2021_compliers.Opt.ConstProp.Folds.{is_foldable}
use ustc_2021_compliers.Opt.ConstProp.Unused.{
  IsListed, IsUnused, Clears, Clears-refl, Clears-trans, waiting, visit-Clears,
}
use ustc_2021_compliers.Opt.ConstProp.Removals.{delete_all-list, delete_all-Clears}
use ustc_2021_compliers.Opt.ConstProp.Sound.{
  Distinct, Distinct-append, visit-Kept, run_block-Kept, run_blocks-Kept, run-Kept,
}

-- The lists `bs'` are the lists `bs` without the instructions of the lists `gone`, in the same order.
abbrev pub AreThinned : List (List ℕ) → List (List ℕ) → List (List ℕ) → Type 0
AreThinned [] [] [] = Unit
AreThinned (b ∷ bs) (g ∷ gone) (b' ∷ bs') = (b' ≡ remove_all b g) × AreThinned bs gone bs'
AreThinned _ _ _ = ⊥

-- The same for the blocks of each function
abbrev pub AreAllThinned :
    List (List (List ℕ)) → List (List (List ℕ)) → List (List (List ℕ)) → Type 0
AreAllThinned [] [] [] = Unit
AreAllThinned (f ∷ fs) (g ∷ gone) (f' ∷ fs') = AreThinned f g f' × AreAllThinned fs gone fs'
AreAllThinned _ _ _ = ⊥

module _ (fl : Floats) where
  -- After a part of the pass, what is ready stays so.
  Clears-after :
      {h h1 h2 : Heap} {env : ℕ → Value} {ts ms todo gone more : List ℕ}
      → IsReady fl h env ts
      → Kept fl h env h1 ms
      → Clears h h1 ts ms gone
      → Clears h1 h2 ms todo more
      → Clears h h2 ts todo (gone ++ more)
  Clears-after ready kept c d =
      Clears-trans (λ q lt. (kept.follows.kinds q lt, omega (arith, lt, kept.follows.grows)))
        ready.known c d

  visit_all-Clears :
      (ps todo : List ℕ) (h : Heap) (env : ℕ → Value) (h' : Heap) (waits : List ℕ)
      → IsReady fl h env (ps ++ todo)
      → Distinct (ps ++ todo)
      → visit_all fl h ps ≡ ok (h', waits)
      → Clears h h' (ps ++ todo) todo waits
  unfolding visit_all
  visit_all-Clears [] todo h env h' waits r d e =
      let start : Heap × List ℕ = (h, []) in
      let same : start ≡ (h', waits) = cc in
      subst (λ x. Clears h x.0 todo todo x.1) same (Clears-refl h todo)
  visit_all-Clears (p ∷ ps) todo h env h' waits r d e =
      let (x, e1, e2) = >>=-eq-ok (visit fl h p) _ e in
      let k1 = visit-Kept fl h env p (ps ++ todo) r d.0 x.0 x.1 e1 in
      let c1 = visit-Clears fl h p (ps ++ todo) x.0 x.1 r.bounded r.accurate.0 r.known e1 in
      let (y, e3, e4) = >>=-eq-ok (visit_all fl x.0 ps) _ e2 in
      let c2 = visit_all-Clears ps todo x.0 k1.env' y.0 y.1 k1.ready d.1 e3 in
      let end : Heap × List ℕ = (y.0, if x.1 then p ∷ y.1 else y.1) in
      let same : end ≡ (h', waits) = cc e4 in
      subst (λ z. Clears h z.0 (p ∷ ps ++ todo) todo z.1) same
        (all_waiting x.1 y.1 y.0 (Clears-after r k1 c1 c2))
    where
      all_waiting :
          (folded : Bool) (more : List ℕ) (h2 : Heap)
          → Clears h h2 (p ∷ ps ++ todo) todo (waiting folded p ++ more)
          → Clears h h2 (p ∷ ps ++ todo) todo (if folded then p ∷ more else more)
      all_waiting true more h2 c = c
      all_waiting false more h2 c = c

  run_block-Clears :
      (ps todo : List ℕ) (h : Heap) (env : ℕ → Value) (h' : Heap) (ps' : List ℕ)
      → IsReady fl h env (ps ++ todo)
      → Distinct (ps ++ todo)
      → run_block fl h ps ≡ ok (h', ps')
      → (gone : List ℕ) × Clears h h' (ps ++ todo) todo gone × (ps' ≡ remove_all ps gone)
  unfolding run_block
  run_block-Clears ps todo h env h' ps' r d e =
      let (x, e1, e2) = >>=-eq-ok (visit_all fl h ps) _ e in
      let c = visit_all-Clears ps todo h env x.0 x.1 r d e1 in
      let same : delete_all x.0 ps x.1 ≡ (h', ps') = cc e2 in
      (
        x.1,
        subst (λ z. Clears h z.0 (ps ++ todo) todo x.1) same
            (delete_all-Clears h x.0 ps (ps ++ todo) todo x.1 c),
        subst (λ z. z.1 ≡ remove_all ps x.1) same (delete_all-list x.1 ps x.0),
      )

  run_blocks-Clears :
      (bs : List (List ℕ)) (todo : List ℕ) (h : Heap) (env : ℕ → Value) (h' : Heap)
      (bs' : List (List ℕ))
      → IsReady fl h env (flatten bs ++ todo)
      → Distinct (flatten bs ++ todo)
      → run_blocks fl h bs ≡ ok (h', bs')
      → (gone : List (List ℕ)) × Clears h h' (flatten bs ++ todo) todo (flatten gone)
        × AreThinned bs gone bs'
  unfolding run_blocks flatten
  run_blocks-Clears [] todo h env h' bs' r d e =
      let start : Heap × List (List ℕ) = (h, []) in
      let same : start ≡ (h', bs') = cc in
      subst
        (λ z.
          (gone : List (List ℕ)) × Clears h z.0 todo todo (flatten gone) × AreThinned [] gone z.1)
        same ([], Clears-refl h todo, tt)
  run_blocks-Clears (b ∷ bs) todo h env h' bs' r d e =
      let q = append_assoc b (flatten bs) todo in
      let (x, e1, e2) = >>=-eq-ok (run_block fl h b) _ e in
      let r1 : IsReady fl h env (b ++ (flatten bs ++ todo)) = rw q at r in
      let d1 : Distinct (b ++ (flatten bs ++ todo)) = rw q at d in
      let k1 = run_block-Kept fl b (flatten bs ++ todo) h env x.0 x.1 r1 d1 e1 in
      let (g, c1, t1) = run_block-Clears b (flatten bs ++ todo) h env x.0 x.1 r1 d1 e1 in
      let (y, e3, e4) = >>=-eq-ok (run_blocks fl x.0 bs) _ e2 in
      let (gone, c2, t2) =
        run_blocks-Clears bs todo x.0 k1.env' y.0 y.1 k1.ready
          (Distinct-append b (flatten bs ++ todo) d1) e3 in
      let end : Heap × List (List ℕ) = (y.0, x.1 ∷ y.1) in
      let same : end ≡ (h', bs') = cc e4 in
      subst
        (λ z.
          (gone : List (List ℕ)) × Clears h z.0 ((b ++ flatten bs) ++ todo) todo (flatten gone)
          × AreThinned (b ∷ bs) gone z.1)
        same (g ∷ gone, rw q (Clears-after r1 k1 c1 c2), (t1, t2))

  run-Clears :
      (fs : List (List (List ℕ))) (h : Heap) (env : ℕ → Value) (h' : Heap)
      (fs' : List (List (List ℕ)))
      → IsReady fl h env (flatten (map flatten fs))
      → Distinct (flatten (map flatten fs))
      → run fl h fs ≡ ok (h', fs')
      → (gone : List (List (List ℕ))) × Clears h h'
          (flatten (map flatten fs))
          []
          (flatten (map flatten gone))
        × AreAllThinned fs gone fs'
  unfolding run flatten
  run-Clears [] h env h' fs' r d e =
      let start : Heap × List (List (List ℕ)) = (h, []) in
      let same : start ≡ (h', fs') = cc in
      subst
        (λ z.
          (gone : List (List (List ℕ))) × Clears h z.0 [] [] (flatten (map flatten gone))
          × AreAllThinned [] gone z.1)
        same ([], Clears-refl h [], tt)
  run-Clears (f ∷ fs) h env h' fs' r d e =
      let rest = flatten (map flatten fs) in
      let (x, e1, e2) = >>=-eq-ok (run_blocks fl h f) _ e in
      let k1 = run_blocks-Kept fl f rest h env x.0 x.1 r d e1 in
      let (g, c1, t1) = run_blocks-Clears f rest h env x.0 x.1 r d e1 in
      let (y, e3, e4) = >>=-eq-ok (run fl x.0 fs) _ e2 in
      let (gone, c2, t2) =
        run-Clears fs x.0 k1.env' y.0 y.1 k1.ready (Distinct-append (flatten f) rest d) e3 in
      let end : Heap × List (List (List ℕ)) = (y.0, x.1 ∷ y.1) in
      let same : end ≡ (h', fs') = cc e4 in
      subst
        (λ z.
          (gone : List (List (List ℕ))) × Clears h z.0 (flatten f ++ rest) []
            (flatten (map flatten gone))
          × AreAllThinned (f ∷ fs) gone z.1)
        same (g ∷ gone, Clears-after r k1 c1 c2, (t1, t2))

-- What is left of the code: `gone` are the instructions that are deleted.
pub record Left (h h' : Heap) (fs fs' gone : List (List (List ℕ))) : Type 0 where
  pub thinned : AreAllThinned fs gone fs'
  pub foldable : All (λ p. is_foldable (h.kind p) ≡ true) (flatten (map flatten gone))
  pub unused :
      (x : ℕ)
      → contains (flatten (map flatten fs)) x ≡ true
      → contains (flatten (map flatten gone)) x ≡ false
      → All (IsUnused h' x) (flatten (map flatten gone))

-- Constant propagation keeps what the program computes. Take values `env` of a run, use lists whose
-- entries are right, and instructions that occur once, have the operands of their opcode and are in
-- the use lists of the instructions that they use, with no float comparison among them. Where the
-- pass returns, there are values for the new heap that agree with `env` on every old object, that
-- are again those of a run of the new code, and by which every user has operands of the same values
-- as before. The lists of instructions that are left are the old ones in the old order without some
-- instructions: all of these are arithmetic, comparisons or conversions, and no instruction that is
-- left has one as an operand.
pub run-Follows :
    (fl : Floats) (h : Heap) (env : ℕ → Value) (fs : List (List (List ℕ))) (h' : Heap)
    (fs' : List (List (List ℕ)))
    → IsReady fl h env (flatten (map flatten fs))
    → Distinct (flatten (map flatten fs))
    → ((x : ℕ)
        → contains (flatten (map flatten fs)) x ≡ true
        → IsListed h x (flatten (map flatten fs)))
    → run fl h fs ≡ ok (h', fs')
    → ((env' : ℕ → Value) × Follows h env h' env' × Models fl h' env')
      × ((gone : List (List (List ℕ))) × Left h h' fs fs' gone)
run-Follows fl h env fs h' fs' r d listed e =
    let k = run-Kept fl fs h env h' fs' r d e in
    let (gone, c, t) = run-Clears fl fs h env h' fs' r d e in
    (
      (k.env', k.follows, k.ready.models),
      (
        gone,
        record { thinned = t; foldable = c.foldable; unused = λ x m n. c.unused x n (listed x m) },
      ),
    )
