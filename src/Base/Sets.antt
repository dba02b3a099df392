-- ===== src/Base/Sets.antt =====
-- A std::set is a list of its members: the code reads its members alone, never their number or order.
use Prim.Native.Nat.{ℕ}
use mathlib.Core.Path.{◌≡◌, refl, ◌∙◌, subst}
use mathlib.Core.Logic.{inl, inr}
use mathlib.Core.Bool.{Bool, true, false, not, ◌&&◌, ◌||◌}
use mathlib.Core.List.{List, [], ◌∷◌, ◌++◌}
use native.Mathlib.Omega.{arith}
use ustc_2021_compliers.Base.Tests.{◌==◌, if◌then◌else◌, Bool-cases, ==_iff}
use ustc_2021_compliers.Base.Lists.{All}

abbrev pub contains : List ℕ → ℕ → Bool
contains [] p = false
contains (q ∷ qs) p = let rest = contains qs p in q == p || rest

pub contains-append : (xs : List ℕ) (p q : ℕ) → contains (xs ++ p ∷ []) q ≡ contains xs q || p == q
contains-append [] p q = ground arith
contains-append (x ∷ xs) p q = ground (arith, contains-append xs p q)

-- Whether some member has the property, and whether every one has it.
abbrev pub any : List ℕ → (ℕ → Bool) → Bool
any [] p = false
any (x ∷ xs) p = let rest = any xs p in p x || rest

abbrev pub every : List ℕ → (ℕ → Bool) → Bool
every [] p = true
every (x ∷ xs) p = let rest = every xs p in p x && rest

pub any-ap : (xs : List ℕ) (p q : ℕ → Bool) → ((x : ℕ) → p x ≡ q x) → any xs p ≡ any xs q
any-ap [] p q e = refl
any-ap (x ∷ xs) p q e = ground (arith, e x, any-ap xs p q e)

pub any-true :
    (xs : List ℕ) (p : ℕ → Bool) → any xs p ≡ true → (x : ℕ) × (contains xs x ≡ true) × (p x ≡ true)
any-true [] p e = cc
any-true (x ∷ xs) p e = elim (Bool-cases (p x)) [
  | inl t ↦ (x, ground arith, t)
  | inr f ↦ let (y, m, t) = any-true xs p (ground arith) in (y, ground arith, t)
]

pub any-intro :
    (xs : List ℕ) (p : ℕ → Bool) (x : ℕ) → contains xs x ≡ true → p x ≡ true → any xs p ≡ true
any-intro [] p x m t = cc
any-intro (y ∷ xs) p x m t = elim (Bool-cases (y == x)) [
  | inl e ↦ ground arith
  | inr e ↦ ground (arith, any-intro xs p x)
]

pub any_mono :
    (xs : List ℕ) (p q : ℕ → Bool)
    → ((x : ℕ) → p x ≡ true → q x ≡ true)
    → any xs p ≡ true
    → any xs q ≡ true
any_mono xs p q h e = let (x, m, t) = any-true xs p e in any-intro xs q x m (h x t)

pub every-true :
    (xs : List ℕ) (p : ℕ → Bool) (x : ℕ) → every xs p ≡ true → contains xs x ≡ true → p x ≡ true
every-true [] p x e m = cc
every-true (y ∷ xs) p x e m = elim (Bool-cases (y == x)) [
  | inl t ↦ ground arith
  | inr f ↦ every-true xs p x (ground arith) (ground arith)
]

pub every-false :
    (xs : List ℕ) (p : ℕ → Bool)
    → every xs p ≡ false
    → (x : ℕ) × (contains xs x ≡ true) × (p x ≡ false)
every-false [] p e = cc
every-false (x ∷ xs) p e = elim (Bool-cases (p x)) [
  | inl t ↦ let (y, m, f) = every-false xs p (ground arith) in (y, ground arith, f)
  | inr f ↦ (x, ground arith, f)
]

-- `insert`
abbrev pub insert : List ℕ → ℕ → List ℕ
insert s v = if contains s v then s else v ∷ s

pub contains-insert : (s : List ℕ) (v w : ℕ) → contains (insert s v) w ≡ contains s w || v == w
contains-insert s v w = elim (Bool-cases (contains s v)) [
  | inl t ↦ ground arith
  | inr f ↦ ground arith
]

-- `for (auto v : xs) s.insert(v)`
abbrev pub insert_all : List ℕ → List ℕ → List ℕ
insert_all s [] = s
insert_all s (x ∷ xs) = insert_all (insert s x) xs

pub contains-insert_all :
    (s xs : List ℕ) (w : ℕ) → contains (insert_all s xs) w ≡ contains s w || contains xs w
contains-insert_all s [] w = ground arith
contains-insert_all s (x ∷ xs) w =
    contains-insert_all (insert s x) xs w ∙ ground (arith, contains-insert s x w)

-- `erase` of a set, and `remove` of a std::list: every occurrence goes.
abbrev pub remove : List ℕ → ℕ → List ℕ
remove [] v = []
remove (x ∷ xs) v = let rest = remove xs v in if x == v then rest else x ∷ rest

pub contains-remove :
    (s : List ℕ) (v w : ℕ) → contains (remove s v) w ≡ contains s w && not (v == w)
contains-remove [] v w = refl
contains-remove (x ∷ xs) v w = ground (arith, contains-remove xs v w)

abbrev pub remove_all : List ℕ → List ℕ → List ℕ
remove_all s [] = s
remove_all s (x ∷ xs) = remove_all (remove s x) xs

pub contains-remove_all :
    (s xs : List ℕ) (w : ℕ) → contains (remove_all s xs) w ≡ contains s w && not (contains xs w)
contains-remove_all s [] w = ground arith
contains-remove_all s (x ∷ xs) w =
    contains-remove_all (remove s x) xs w ∙ ground (arith, contains-remove s x w)

-- `==` of two sets
abbrev pub same_set : List ℕ → List ℕ → Bool
same_set s t = every s (contains t) && every t (contains s)

pub same_set-true : (s t : List ℕ) → same_set s t ≡ true → (w : ℕ) → contains s w ≡ contains t w
same_set-true s t e w = ground (arith, every-true s (contains t) w, every-true t (contains s) w)

-- A set that has all members of another and differs from it has one more.
pub same_set-false :
    (s t : List ℕ)
    → ((w : ℕ) → contains s w ≡ true → contains t w ≡ true)
    → same_set s t ≡ false
    → (w : ℕ) × (contains t w ≡ true) × (contains s w ≡ false)
same_set-false s t sub e = elim (Bool-cases (every s (contains t))) [
  | inl a ↦ every-false t (contains s) (ground arith)
  | inr f ↦ let (w, m, n) = every-false s (contains t) f in absurd (cc (sub w m))
]

pub All-at {ℓ} : (P : ℕ → Type ℓ) (xs : List ℕ) (x : ℕ) → All P xs → contains xs x ≡ true → P x
All-at P [] x h m = cc
All-at P (y ∷ xs) x h m = elim (Bool-cases (y == x)) [
  | inl e ↦ subst P ((==_iff y x).0 e) h.0
  | inr e ↦ All-at P xs x h.1 (ground arith)
]

-- No member stands twice in the list.
abbrev pub IsDistinct : List ℕ → Type 0
IsDistinct [] = Unit
IsDistinct (x ∷ xs) = (contains xs x ≡ false) × IsDistinct xs

pub contains-++ : (xs ys : List ℕ) (w : ℕ) → contains (xs ++ ys) w ≡ contains xs w || contains ys w
contains-++ [] ys w = refl
contains-++ (x ∷ xs) ys w = ground (arith, contains-++ xs ys w)
