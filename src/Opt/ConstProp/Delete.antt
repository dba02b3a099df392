-- ===== src/Opt/ConstProp/Delete.antt =====
-- BasicBlock::delete_instr and User::remove_use_of_ops (src/lightir/BasicBlock.cpp,
-- src/lightir/User.cpp) take entries out of use lists, and change no operand.
use ustc_2021_compliers.Base.{ℕ, ◌∙◌, refl, List, [], ◌∷◌, All-map, arith}
use ustc_2021_compliers.Ir.Heap.{Heap, remove_use, remove_use_of, remove_use_of_ops}
use ustc_2021_compliers.Ir.Heap.Operands.{Accurate-remove_use}
use ustc_2021_compliers.Opt.ConstFolder.{Floats}
use ustc_2021_compliers.Opt.ConstProp.{delete_all}
use ustc_2021_compliers.Base.{remove}
use ustc_2021_compliers.Opt.ConstProp.Values.{Value, IsReady, Follows}
use ustc_2021_compliers.Opt.ConstProp.Step.{Kept}

pub Follows-refl : (h : Heap) (env : ℕ → Value) → Follows h env h env
Follows-refl h env = record {
  kept = λ q lt. refl;
  grows = omega arith;
  kinds = λ q lt. refl;
  operands = λ u. refl;
}

pub Follows-trans :
    {h h' h'' : Heap} {env env' env'' : ℕ → Value}
    → Follows h env h' env'
    → Follows h' env' h'' env''
    → Follows h env h'' env''
Follows-trans f g = record {
  kept = λ p lt. g.kept p (omega (arith, f.grows)) ∙ f.kept p lt;
  grows = omega (arith, f.grows, g.grows);
  kinds = λ p lt. g.kinds p (omega (arith, f.grows)) ∙ f.kinds p lt;
  operands = λ u. g.operands u ∙ f.operands u;
}

module _ (fl : Floats) (h : Heap) (env : ℕ → Value) where
  pub Kept-refl : (todo : List ℕ) → IsReady fl h env todo → Kept fl h env h todo
  Kept-refl todo r = record { env' = env; follows = Follows-refl h env; ready = r }

  pub Kept-trans :
      {h1 h2 : Heap} {ts todo : List ℕ} (k : Kept fl h env h1 ts)
      → Kept fl h1 k.env' h2 todo
      → Kept fl h env h2 todo
  Kept-trans k l = record {
    env' = l.env';
    follows = Follows-trans k.follows l.follows;
    ready = l.ready;
  }

module _ (fl : Floats) where
  remove_use-Kept :
      (h : Heap) (env : ℕ → Value) (v user : ℕ) (todo : List ℕ)
      → IsReady fl h env todo
      → Kept fl h env (remove_use h v user) todo
  unfolding remove_use
  remove_use-Kept h env v user todo r = record {
    env' = env;
    follows = record {
      kept = λ q lt. refl;
      grows = omega arith;
      kinds = λ q lt. refl;
      operands = λ u. refl;
    };
    ready = record {
      models = record { constants = r.models.constants; results = r.models.results };
      bounded = r.bounded;
      accurate = All-map todo (λ w a. Accurate-remove_use h v user w a) r.accurate;
      known = r.known;
      arity = r.arity;
    };
  }

  remove_use_of-Kept :
      (vs : List ℕ) (h : Heap) (env : ℕ → Value) (user : ℕ) (todo : List ℕ)
      → IsReady fl h env todo
      → Kept fl h env (remove_use_of h vs user) todo
  unfolding remove_use_of
  remove_use_of-Kept [] h env user todo r = Kept-refl fl h env todo r
  remove_use_of-Kept (v ∷ vs) h env user todo r =
      let k = remove_use-Kept h env v user todo r in
      Kept-trans fl h env k (remove_use_of-Kept vs (remove_use h v user) k.env' user todo k.ready)

  pub delete_all-Kept :
      (ps instrs : List ℕ) (h : Heap) (env : ℕ → Value) (todo : List ℕ)
      → IsReady fl h env todo
      → Kept fl h env (delete_all h instrs ps).0 todo
  unfolding delete_all remove_use_of_ops
  delete_all-Kept [] instrs h env todo r = Kept-refl fl h env todo r
  delete_all-Kept (p ∷ ps) instrs h env todo r =
      let k = remove_use_of-Kept (h.operands p) h env p todo r in
      Kept-trans fl h env k
        (delete_all-Kept ps (remove instrs p) (remove_use_of_ops h p) k.env' todo k.ready)
