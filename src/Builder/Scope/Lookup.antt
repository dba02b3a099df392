-- ===== src/Builder/Scope/Lookup.antt =====
-- What is found in a Scope (include/cminusf_builder.hpp) after its operations.
use text.Mathlib.Text.{◌==◌ as str_eq}
use ustc_2021_compliers.Base.{
  ◌≡◌, refl, sym, ap, ◌∙◌, String, Bool, Bool-cases, inl, inr, true, false, ◌&&◌, Option, none,
  some, List, [], ◌∷◌, Result, ok, ◌>>=◌, if◌then◌else◌,
}
use ustc_2021_compliers.Builder.Scope.{
  map_find, map_insert, insert_unless, or_else, enter, exit, push, find,
}
use text.Mathlib.TextEquality.{eq_iff}

module _ {V : Type 0} where
  abbrev pub is_none : Option V → Bool
  is_none none = true
  is_none (some v) = false

  pub map_find-insert_unless :
      (o : Option V) (s : List (String × V)) (name other : String) (val : V)
      → map_find other (insert_unless o name val s).0
        ≡ (if is_none o && str_eq name other then some val else map_find other s)
  map_find-insert_unless none s name other val = refl
  map_find-insert_unless (some v) s name other val = refl

  inserted-insert_unless :
      (o : Option V) (s : List (String × V)) (name : String) (val : V)
      → (insert_unless o name val s).1 ≡ is_none o
  inserted-insert_unless none s name val = refl
  inserted-insert_unless (some v) s name val = refl

  or_else-if :
      (t : Bool) (v : V) (o u : Option V)
      → or_else (if t then some v else o) u ≡ (if t then some v else or_else o u)
  or_else-if true v o u = refl
  or_else-if false v o u = refl

  or_else-none : (o : Option V) → or_else o none ≡ o
  or_else-none none = refl
  or_else-none (some v) = refl

  -- A name is found after an insertion into the innermost scope.
  pub find-map_insert :
      (s : List (String × V)) (inner : List (List (String × V))) (name other : String) (val : V)
      → find ((map_insert name val s).0 ∷ inner) other ≡ (
          if is_none (map_find name s) && str_eq name other
          then some val
          else find (s ∷ inner) other)
  unfolding find
  find-map_insert s inner name other val =
      ap (λ o. or_else o (find inner other))
        (map_find-insert_unless (map_find name s) s name other val)
      ∙ or_else-if (is_none (map_find name s) && str_eq name other) val (map_find other s)
          (find inner other)

  -- Scope::push in a scope `s` of those that are open, the inner ones before: it inserts just where
  -- `s` does not have the name; then the name is found with the new value, and every other name as
  -- before. A name that `s` has is refused, and nothing changes.
  pub find-push :
      (s : List (String × V)) (inner : List (List (String × V))) (name : String) (val : V)
      → (after : List (List (String × V))) × (push (s ∷ inner) name val
          ≡ ok (after, is_none (map_find name s)))
        × ((other : String)
            → find after other ≡ (
                if is_none (map_find name s) && str_eq name other
                then some val
                else find (s ∷ inner) other))
  unfolding push find
  find-push s inner name val = (
    (map_insert name val s).0 ∷ inner,
    ap (λ b. ok ((map_insert name val s).0 ∷ inner, b))
        (inserted-insert_unless (map_find name s) s name val),
    λ other. find-map_insert s inner name other val,
  )

  -- The declarations at the head of a block, pushed in their order.
  abbrev pub push_all :
      List (List (String × V)) → List (String × V) → Result (List (List (String × V)))
  push_all inner [] = ok inner
  push_all inner (d ∷ ds) = do (next, inserted) ← push inner d.0 d.1; push_all next ds

  -- A declaration that is pushed comes after those of the scope, and before those that follow.
  first_declaration :
      (s : List (String × V)) (key name : String) (val : V) (o : Option V)
      → or_else (map_find name (map_insert key val s).0) o
        ≡ or_else (map_find name s) (if str_eq key name then some val else o)
  first_declaration s key name val o = elim (Bool-cases (str_eq key name)) [
    | inl t ↦
        let e : key ≡ name = (eq_iff key name).0 t in
        rw (map_find-insert_unless (map_find key s) s key name val, t, e) (cases (map_find name s))
    | inr t ↦
        rw (map_find-insert_unless (map_find key s) s key name val, t) (plain (map_find key s))
  ]
    where
      cases :
          (u : Option V)
          → or_else (if is_none u && true then some val else u) o ≡ or_else u (some val)
      cases none = refl
      cases (some v) = refl

      plain :
          (u : Option V)
          → or_else (if is_none u && false then some val else map_find name s) o
            ≡ or_else (map_find name s) o
      plain none = refl
      plain (some v) = refl

  push_all-eq-ok :
      (ds s : List (String × V)) (inner : List (List (String × V)))
      → (s' : List (String × V)) × (push_all (s ∷ inner) ds ≡ ok (s' ∷ inner))
        × ((name : String) → map_find name s' ≡ or_else (map_find name s) (map_find name ds))
  unfolding push
  push_all-eq-ok [] s inner = (s, refl, λ name. sym (or_else-none (map_find name s)))
  push_all-eq-ok (d ∷ ds) s inner =
      let (s', e, f) = push_all-eq-ok ds (map_insert d.0 d.1 s).0 inner in
      (s', e, λ name. f name ∙ first_declaration s d.0 name d.1 (map_find name ds))

  -- A block: Scope::enter, then any declarations, then Scope::exit. The declarations are all made, in
  -- the block a name means its first declaration there and otherwise what it meant outside, and
  -- the exit brings back the scopes from before.
  pub exit-push_all :
      (inner : List (List (String × V))) (ds : List (String × V))
      → (after : List (List (String × V))) × (push_all (enter inner) ds ≡ ok after)
        × ((name : String) → find after name ≡ or_else (map_find name ds) (find inner name))
        × (exit after ≡ ok inner)
  unfolding enter exit find
  exit-push_all inner ds =
      let (s', e, f) = push_all-eq-ok ds [] inner in
      (s' ∷ inner, e, λ name. ap (λ o. or_else o (find inner name)) (f name), refl)
