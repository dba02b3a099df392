-- ===== src/Opt/ActiveVars/Gathering.antt =====
-- What each instruction adds to the sets of ActiveVars::run (src/optimization/ActiveVars.cpp), and so a
-- block: the description of ActiveVars.Exposed.
use mathlib.Core.Path.{subst}
use ustc_2021_compliers.Base.{
  ℕ, ◌≡◌, ◌∙◌, Bool, Bool-cases, inl, inr, false, not, ◌&&◌, ◌||◌, List, [], ◌∷◌, ◌==◌,
  if◌then◌else◌, arith, Option, none, some, ok, >>=-eq-ok, ==_iff, contains, insert,
  contains-insert, length,
}
use ustc_2021_compliers.Ir.Instruction.{OpId}
use ustc_2021_compliers.Ir.Heap.{Heap, Kind, instruction, update}
use ustc_2021_compliers.Opt.ActiveVars.{
  Facts, define, add_use_of, is_label, variables, not_labels, calls_void, use_operands, choose,
  choose_operands, visit_binary, visit_call, gather_op, gather_kind, gather,
}
use ustc_2021_compliers.Opt.ActiveVars.Exposed.{
  is_operand, uses_op, defines_op, heads, takes, takes_op, uses, defines, takes_at, exposed,
  defined, taken,
}

-- Whether the value is in phi_use for the block, or in phi_all.
abbrev pub in_phi : Facts → Option ℕ → ℕ → Bool
in_phi f none v = contains f.phi_all v
in_phi f (some b) v = contains (f.phi_use b) v

-- What an instruction adds to the sets.
pub record Adds (f f' : Facts) (uses defs : ℕ → Bool) (takes_from : Option ℕ → ℕ → Bool)
    : Type 0 where
  pub added_use :
      (v : ℕ)
      → contains f'.use_set v ≡ contains f.use_set v || (not (contains f.def_set v) && uses v)
  pub added_def : (v : ℕ) → contains f'.def_set v ≡ contains f.def_set v || defs v
  pub added_phi : (b : Option ℕ) (v : ℕ) → in_phi f' b v ≡ in_phi f b v || takes_from b v

Adds-refl : (f : Facts) → Adds f f (λ v. false) (λ v. false) (λ b v. false)
Adds-refl f = record {
  added_use = λ v. ground arith;
  added_def = λ v. ground arith;
  added_phi = λ b v. ground arith;
}

add_use-same_phi :
    (f : Facts) (counts : ℕ → Bool) (op : ℕ) (b : Option ℕ) (v : ℕ)
    → in_phi (if counts op then add_use_of f op else f) b v || false ≡ in_phi f b v || false
add_use-same_phi f counts op none v = ground arith
add_use-same_phi f counts op (some b) v = ground arith

use_operands-Adds :
    (counts : ℕ → Bool) (f : Facts) (ops : List ℕ)
    → Adds f (use_operands counts f ops) (is_operand counts ops) (λ v. false) (λ b v. false)
use_operands-Adds counts f [] = record {
  added_use = λ v. ground arith;
  added_def = λ v. ground arith;
  added_phi = λ b v. ground arith;
}
use_operands-Adds counts f (op ∷ ops) =
    let rest = use_operands-Adds counts (if counts op then add_use_of f op else f) ops in
    record {
      added_use = λ v. rest.added_use v ∙ ground (arith, contains-insert f.use_set op v);
      added_def = λ v. rest.added_def v ∙ ground arith;
      added_phi = λ b v. rest.added_phi b v ∙ add_use-same_phi f counts op b v;
    }

define-Adds :
    {f f' : Facts} {uses : ℕ → Bool} {takes_from : Option ℕ → ℕ → Bool} (p : ℕ)
    → Adds f f' uses (λ v. false) takes_from
    → Adds f (define f' p) uses (λ v. p == v) takes_from
define-Adds {f} {f'} p a = record {
  added_use = a.added_use;
  added_def = λ v. ground (arith, contains-insert f'.def_set p v, a.added_def v);
  added_phi = a.added_phi;
}

Adds-ok :
    {f f' f'' : Facts} {uses defs : ℕ → Bool} {takes_from : Option ℕ → ℕ → Bool}
    → ok f' ≡ ok f''
    → Adds f f' uses defs takes_from
    → Adds f f'' uses defs takes_from
Adds-ok {f} {f'} {f''} {uses} {defs} {takes_from} e a =
    let same : f' ≡ f'' = cc in subst (λ x. Adds f x uses defs takes_from) same a

chosen_phi :
    (h : Heap) (f : Facts) (op x : ℕ) (xs : List ℕ) (b : Option ℕ) (v : ℕ)
    → in_phi
        (record f {
          phi_use =
              if is_label (h.kind x)
              then update f.phi_use x (insert (f.phi_use x) op)
              else f.phi_use;
          phi_all = insert f.phi_all op;
        })
        b
        v
      ≡ in_phi f b v || (op == v && heads h (x ∷ xs) b)
chosen_phi h f op x xs none v = ground (arith, contains-insert f.phi_all op v)
chosen_phi h f op x xs (some b) v = elim (Bool-cases (x == b)) [
  | inl t ↦
      subst
        (λ y.
          contains
            ((if is_label (h.kind x)
                then update f.phi_use x (insert (f.phi_use x) op)
                else f.phi_use)
              y)
            v
          ≡ contains (f.phi_use y) v || (op == v && heads h (x ∷ xs) (some y)))
        ((==_iff x b).0 t) (ground (arith, contains-insert (f.phi_use x) op v))
  | inr n ↦ ground arith
]

choose-Adds :
    (h : Heap) (f f' : Facts) (op : ℕ) (rest : List ℕ)
    → choose h f op rest ≡ ok f'
    → Adds f f' (λ v. false) (λ v. false) (λ b v. op == v && heads h rest b)
choose-Adds h f f' op [] e = cc
choose-Adds h f f' op (x ∷ xs) e = Adds-ok e (record {
  added_use = λ v. ground arith;
  added_def = λ v. ground arith;
  added_phi = λ b v. chosen_phi h f op x xs b v;
})

choose_operands-Adds :
    (h : Heap) (f f' : Facts) (ops : List ℕ)
    → choose_operands h f ops ≡ ok f'
    → Adds f f' (λ v. false) (λ v. false) (takes h ops)
choose_operands-Adds h f f' [] e = Adds-ok e (Adds-refl f)
choose_operands-Adds h f f' (op ∷ ops) e = elim (Bool-cases (variables h op && not_labels h op)) [
  | inl t ↦
      let (f1, e1, e2) =
        >>=-eq-ok (choose h f op ops) (λ f1. choose_operands h f1 ops) (ground arith) in
      let rest = choose_operands-Adds h f1 f' ops e2 in
      let first = choose-Adds h f f1 op ops e1 in
      record {
        added_use = λ v. ground (arith, rest.added_use v, first.added_use v);
        added_def = λ v. ground (arith, rest.added_def v, first.added_def v);
        added_phi = λ b v. ground (arith, rest.added_phi b v, first.added_phi b v);
      }
  | inr n ↦
      let rest = choose_operands-Adds h f f' ops (ground arith) in
      record {
        added_use = λ v. ground (arith, rest.added_use v);
        added_def = λ v. ground (arith, rest.added_def v);
        added_phi = λ b v. ground (arith, rest.added_phi b v);
      }
]

module _ (h : Heap) (f : Facts) (p : ℕ) (ops : List ℕ) where
  uses_and_defines :
      Adds f
        (define (use_operands (variables h) f ops) p)
        (is_operand (variables h) ops)
        (λ v. p == v)
        (λ b v. false)
  uses_and_defines = define-Adds p (use_operands-Adds (variables h) f ops)

  visit_binary-Adds :
      Adds f
        (visit_binary h f p ops)
        (λ v. length ops == 2 && is_operand (variables h) ops v)
        (λ v. length ops == 2 && p == v)
        (λ b v. false)
  visit_binary-Adds = elim (Bool-cases (length ops == 2)) [
    | inl t ↦ rw t uses_and_defines
    | inr n ↦ rw n (Adds-refl f)
  ]

  visit_call-Adds :
      Adds f
        (visit_call h f p ops)
        (is_operand (variables h) ops)
        (λ v. not (calls_void h ops) && p == v)
        (λ b v. false)
  visit_call-Adds = elim (Bool-cases (calls_void h ops)) [
    | inl t ↦ rw t (use_operands-Adds (variables h) f ops)
    | inr n ↦ rw n uses_and_defines
  ]

  visit_ret-Adds :
      Adds f
        (if length ops == 1 then use_operands (variables h) f ops else f)
        (λ v. length ops == 1 && is_operand (variables h) ops v)
        (λ v. false)
        (λ b v. false)
  visit_ret-Adds = elim (Bool-cases (length ops == 1)) [
    | inl t ↦ rw t (use_operands-Adds (variables h) f ops)
    | inr n ↦ rw n (Adds-refl f)
  ]

  gather_op-Adds :
      (op : OpId) (f' : Facts)
      → gather_op h f p op ops ≡ ok f'
      → Adds f f' (uses_op h op ops) (λ v. defines_op h op ops && p == v) (takes_op h op ops)
  unfolding gather_op
  gather_op-Adds OpId.add f' e = Adds-ok e visit_binary-Adds
  gather_op-Adds OpId.sub f' e = Adds-ok e visit_binary-Adds
  gather_op-Adds OpId.mul f' e = Adds-ok e visit_binary-Adds
  gather_op-Adds OpId.sdiv f' e = Adds-ok e visit_binary-Adds
  gather_op-Adds OpId.fadd f' e = Adds-ok e visit_binary-Adds
  gather_op-Adds OpId.fsub f' e = Adds-ok e visit_binary-Adds
  gather_op-Adds OpId.fmul f' e = Adds-ok e visit_binary-Adds
  gather_op-Adds OpId.fdiv f' e = Adds-ok e visit_binary-Adds
  gather_op-Adds OpId.cmp f' e = Adds-ok e uses_and_defines
  gather_op-Adds OpId.fcmp f' e = Adds-ok e uses_and_defines
  gather_op-Adds OpId.getelementptr f' e = Adds-ok e uses_and_defines
  gather_op-Adds OpId.zext f' e = Adds-ok e uses_and_defines
  gather_op-Adds OpId.fptosi f' e = Adds-ok e uses_and_defines
  gather_op-Adds OpId.sitofp f' e = Adds-ok e uses_and_defines
  gather_op-Adds OpId.load f' e = Adds-ok e uses_and_defines
  gather_op-Adds OpId.ret f' e = Adds-ok e visit_ret-Adds
  gather_op-Adds OpId.br f' e = Adds-ok e (use_operands-Adds (not_labels h) f ops)
  gather_op-Adds OpId.alloca f' e = Adds-ok e (define-Adds p (Adds-refl f))
  gather_op-Adds OpId.store f' e = Adds-ok e (use_operands-Adds (variables h) f ops)
  gather_op-Adds OpId.call f' e = Adds-ok e visit_call-Adds
  gather_op-Adds OpId.phi f' e =
      let (f1, e1, e2) = >>=-eq-ok (choose_operands h f ops) (λ f1. ok (define f1 p)) e in
      Adds-ok e2 (define-Adds p (choose_operands-Adds h f f1 ops e1))

gather_kind-Adds :
    (h : Heap) (f f' : Facts) (p : ℕ) (k : Kind)
    → gather_kind h f p k ≡ ok f'
    → Adds f f' (uses h p k) (λ v. defines h p k && p == v) (takes_at h p k)
unfolding gather_kind
gather_kind-Adds h f f' p (instruction op c) e = gather_op-Adds h f p (h.operands p) op f' e
gather_kind-Adds h f f' p _ e = cc

pub gather-Adds :
    (h : Heap) (ps : List ℕ) (f f' : Facts)
    → gather h f ps ≡ ok f'
    → Adds f f' (exposed h ps) (defined h ps) (taken h ps)
unfolding gather
gather-Adds h [] f f' e = Adds-ok e (Adds-refl f)
gather-Adds h (p ∷ ps) f f' e =
    let (f1, e1, e2) = >>=-eq-ok (gather_kind h f p (h.kind p)) (λ f1. gather h f1 ps) e in
    let first = gather_kind-Adds h f f1 p (h.kind p) e1 in
    let rest = gather-Adds h ps f1 f' e2 in
    record {
      added_use = λ v. ground (arith, first.added_use v, first.added_def v, rest.added_use v);
      added_def = λ v. ground (arith, first.added_def v, rest.added_def v);
      added_phi = λ b v. ground (arith, first.added_phi b v, rest.added_phi b v);
    }
