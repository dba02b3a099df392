-- ===== src/Opt/ActiveVars.antt =====
-- ActiveVars::run of src/optimization/ActiveVars.cpp: live variables of a function. A std::map is a
-- function that gives the empty set where nothing was entered.
use Prim.Native.Nat.{zero, suc}
use ustc_2021_compliers.Base.{
  ℕ, Bool, true, false, not, ◌&&◌, ◌||◌, Option, none, some, List, [], ◌∷◌, Result, ok, undefined,
  out_of_fuel, ◌>>=◌, ◌==◌, if◌then◌else◌, length, contains, insert, insert_all, remove_all,
  same_set,
}
use ustc_2021_compliers.Ir.Instruction.{OpId}
use ustc_2021_compliers.Ir.Heap.{
  Heap, Kind, update, constant_int, constant_bool, constant_fp, instruction, function, basic_block,
}
use ustc_2021_compliers.Ir.Blocks.{Blocks}
pub mod Equations
pub mod Rounds
pub mod Growth
pub mod Termination
pub mod Least
pub mod Exposed
pub mod Gathering
pub mod Operands
pub mod Analysis
pub mod Liveness

-- What the first loop finds in a block: `use`, `def`, `phi_all` and `phi_use` at this block.
pub record Facts : Type 0 where
  pub use_set : List ℕ
  pub def_set : List ℕ
  pub phi_all : List ℕ
  pub phi_use : ℕ → List ℕ

abbrev pub no_facts : Facts
no_facts = record { use_set = []; def_set = []; phi_all = []; phi_use = λ b. [] }

-- `!is_float_const && !is_int_const && !is_func`
abbrev pub is_variable : Kind → Bool
is_variable (constant_int z) = false
is_variable (constant_bool b) = false
is_variable (constant_fp x) = false
is_variable (function v) = false
is_variable _ = true

-- `get_type()->is_label_type()`
abbrev pub is_label : Kind → Bool
is_label basic_block = true
is_label _ = false

-- `if (def[bb].find(op) == def[bb].end()) use[bb].insert(op)`
abbrev pub add_use_of : Facts → ℕ → Facts
add_use_of f op = record f {
  use_set = if contains f.def_set op then f.use_set else insert f.use_set op;
}

abbrev pub define : Facts → ℕ → Facts
define f p = record f { def_set = insert f.def_set p }

-- The loop over the operands, which `counts` selects.
abbrev pub use_operands : (ℕ → Bool) → Facts → List ℕ → Facts
use_operands counts f [] = f
use_operands counts f (op ∷ ops) =
    use_operands counts (if counts op then add_use_of f op else f) ops

abbrev pub variables : Heap → ℕ → Bool
variables h op = is_variable (h.kind op)

abbrev pub not_labels : Heap → ℕ → Bool
not_labels h op = not (is_label (h.kind op))

-- The block at `i + 1` goes with the value at `i`; another object there is cast to the null pointer,
-- under which nothing is looked up.
abbrev pub choose : Heap → Facts → ℕ → List ℕ → Result Facts
choose h f op [] = undefined
choose h f op (b ∷ rest) = ok (record f {
  phi_use = if is_label (h.kind b) then update f.phi_use b (insert (f.phi_use b) op) else f.phi_use;
  phi_all = insert f.phi_all op;
})

abbrev pub choose_operands : Heap → Facts → List ℕ → Result Facts
choose_operands h f [] = ok f
choose_operands h f (op ∷ ops) = do
  f1 ← (if variables h op && not_labels h op then choose h f op ops else ok f)
  choose_operands h f1 ops

-- Instruction::is_void of a call: its type is the return type of the function.
abbrev pub calls_void : Heap → List ℕ → Bool
calls_void h [] = false
calls_void h (callee ∷ args) = elim (h.kind callee) [ function v ↦ v | _ ↦ false ]

abbrev pub visit_binary : Heap → Facts → ℕ → List ℕ → Facts
visit_binary h f p ops = if length ops == 2 then define (use_operands (variables h) f ops) p else f

abbrev pub visit_call : Heap → Facts → ℕ → List ℕ → Facts
visit_call h f p ops =
    let used = use_operands (variables h) f ops in if calls_void h ops then used else define used p

-- The body of the loop over a block's instructions.
unfoldable pub gather_op : Heap → Facts → ℕ → OpId → List ℕ → Result Facts
gather_op h f p OpId.add ops = ok (visit_binary h f p ops)
gather_op h f p OpId.sub ops = ok (visit_binary h f p ops)
gather_op h f p OpId.mul ops = ok (visit_binary h f p ops)
gather_op h f p OpId.sdiv ops = ok (visit_binary h f p ops)
gather_op h f p OpId.fadd ops = ok (visit_binary h f p ops)
gather_op h f p OpId.fsub ops = ok (visit_binary h f p ops)
gather_op h f p OpId.fmul ops = ok (visit_binary h f p ops)
gather_op h f p OpId.fdiv ops = ok (visit_binary h f p ops)
gather_op h f p OpId.cmp ops = ok (define (use_operands (variables h) f ops) p)
gather_op h f p OpId.fcmp ops = ok (define (use_operands (variables h) f ops) p)
gather_op h f p OpId.getelementptr ops = ok (define (use_operands (variables h) f ops) p)
gather_op h f p OpId.zext ops = ok (define (use_operands (variables h) f ops) p)
gather_op h f p OpId.fptosi ops = ok (define (use_operands (variables h) f ops) p)
gather_op h f p OpId.sitofp ops = ok (define (use_operands (variables h) f ops) p)
gather_op h f p OpId.load ops = ok (define (use_operands (variables h) f ops) p)
gather_op h f p OpId.ret ops = ok (if length ops == 1 then use_operands (variables h) f ops else f)
gather_op h f p OpId.br ops = ok (use_operands (not_labels h) f ops)
gather_op h f p OpId.alloca ops = ok (define f p)
gather_op h f p OpId.store ops = ok (use_operands (variables h) f ops)
gather_op h f p OpId.call ops = ok (visit_call h f p ops)
gather_op h f p OpId.phi ops = do f1 ← choose_operands h f ops; ok (define f1 p)

unfoldable pub gather_kind : Heap → Facts → ℕ → Kind → Result Facts
unfolding gather_op
gather_kind h f p (instruction op c) = gather_op h f p op (h.operands p)
gather_kind h f p k = undefined

unfoldable pub gather : Heap → Facts → List ℕ → Result Facts
unfolding gather_kind
gather h f [] = ok f
gather h f (p ∷ ps) = do f1 ← gather_kind h f p (h.kind p); gather h f1 ps

unfoldable pub gather_all : Heap → (ℕ → List ℕ) → (ℕ → Facts) → List ℕ → Result (ℕ → Facts)
unfolding gather
gather_all h instructions k [] = ok k
gather_all h instructions k (bb ∷ bbs) = do
  f ← gather h (k bb) (instructions bb)
  gather_all h instructions (update k bb f) bbs

pub record Live : Type 0 where
  pub live_in : ℕ → List ℕ
  pub live_out : ℕ → List ℕ

abbrev pub nothing_live : Live
nothing_live = record { live_in = λ b. []; live_out = λ b. [] }

module _ (k : ℕ → Facts) (g : Blocks) where
  -- The loop over `live_in[bb_succ]`, whose elements it leaves out where another block's phi
  -- operand is meant.
  abbrev pub flow_from : ℕ → ℕ → List ℕ → List ℕ → List ℕ
  flow_from succ bb out [] = out
  flow_from succ bb out (v ∷ vs) =
      flow_from succ bb
        (if contains ((k succ).phi_all) v && not (contains ((k succ).phi_use bb) v)
          then out
          else insert out v)
        vs

  -- `tem_out`, over the successors
  abbrev pub out_of : Live → ℕ → List ℕ → List ℕ → List ℕ
  out_of st bb out [] = out
  out_of st bb out (s ∷ ss) =
      out_of st bb (insert_all (flow_from s bb out (st.live_in s)) ((k s).phi_use bb)) ss

  -- The last loop for `tem_in`, over the predecessors
  abbrev pub add_chosen : ℕ → List ℕ → List ℕ → List ℕ
  add_chosen bb tem_in [] = tem_in
  add_chosen bb tem_in (p ∷ ps) = add_chosen bb (insert_all tem_in ((k bb).phi_use p)) ps

  abbrev pub in_of : ℕ → List ℕ → List ℕ
  in_of bb tem_out =
      add_chosen bb (insert_all (remove_all tem_out (k bb).def_set) (k bb).use_set) (g.pre_bbs bb)

  unfoldable pub visit_block : Live → ℕ → Live × Bool
  visit_block st bb =
      let tem_out = out_of st bb [] (g.succ_bbs bb) in
      let tem_in = in_of bb tem_out in
      (
        record { live_in = update st.live_in bb tem_in; live_out = update st.live_out bb tem_out },
        not (same_set (st.live_out bb) tem_out) || not (same_set (st.live_in bb) tem_in),
      )

  unfoldable pub round : Live → List ℕ → Live × Bool
  unfolding visit_block
  round st [] = (st, false)
  round st (bb ∷ bbs) =
      let (st1, changed) = visit_block st bb in
      let (st2, later) = round st1 bbs in (st2, changed || later)

  -- `while (flag)`, for at most so many rounds
  unfoldable pub iterate : ℕ → Live → Option Live
  unfolding round
  iterate zero st = none
  iterate (suc n) st =
      let (st1, flag) = round st g.basic_blocks in
      elim flag [ true ↦ iterate n st1 | false ↦ some st1 ]

-- ActiveVars::run on a function whose blocks hold these instructions, for at most so many rounds.
unfoldable pub analyze : Heap → (ℕ → List ℕ) → Blocks → ℕ → Result Live
unfolding gather_all iterate
analyze h instructions g rounds = do
  k ← gather_all h instructions (λ b. no_facts) g.basic_blocks
  elim (iterate k g rounds nothing_live) [ none ↦ out_of_fuel | some st ↦ ok st ]

-- The loop over the functions, whose declarations have no block. What it prints is taken from here.
unfoldable pub analyze_all : Heap → (ℕ → List ℕ) → List Blocks → ℕ → Result (List Live)
unfolding analyze
analyze_all h instructions [] rounds = ok []
analyze_all h instructions (g ∷ gs) rounds = elim g.basic_blocks [
  | [] ↦ analyze_all h instructions gs rounds
  | bb ∷ bbs ↦ do
    st ← analyze h instructions g rounds
    rest ← analyze_all h instructions gs rounds
    ok (st ∷ rest)
]
