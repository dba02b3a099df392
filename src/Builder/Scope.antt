-- ===== src/Builder/Scope.antt =====
-- The class Scope of include/cminusf_builder.hpp: the names that are visible while code is generated.
use text.Mathlib.Text.{◌==◌ as str_eq}
use ustc_2021_compliers.Base.{
  ℕ, String, Bool, true, false, Option, none, some, List, [], ◌∷◌, Result, ok, undefined, ◌>>=◌,
  ◌==◌, if◌then◌else◌, length,
}
pub mod Lookup

module _ {V : Type 0} where
  -- A `std::map<std::string, Value *>` is a list of its entries.
  abbrev pub map_find : String → List (String × V) → Option V
  map_find name [] = none
  map_find name ((key, val) ∷ names) =
      let rest = map_find name names in if str_eq key name then some val else rest

  -- `insert`: a key that is there keeps its value.
  abbrev pub insert_unless : Option V → String → V → List (String × V) → List (String × V) × Bool
  insert_unless none name val names = ((name, val) ∷ names, true)
  insert_unless (some w) name val names = (names, false)

  abbrev pub map_insert : String → V → List (String × V) → List (String × V) × Bool
  map_insert name val names = insert_unless (map_find name names) name val names

  -- `inner`, the last element first.
  unfoldable pub enter : List (List (String × V)) → List (List (String × V))
  enter inner = [] ∷ inner

  -- `pop_back` of an empty vector is undefined.
  unfoldable pub exit : List (List (String × V)) → Result (List (List (String × V)))
  exit [] = undefined
  exit (s ∷ inner) = ok inner

  unfoldable pub in_global : List (List (String × V)) → Bool
  in_global inner = length inner == 1

  unfoldable pub push :
      List (List (String × V)) → String → V → Result (List (List (String × V)) × Bool)
  push [] name val = undefined
  push (s ∷ inner) name val =
      let (names, inserted) = map_insert name val s in ok (names ∷ inner, inserted)

  abbrev pub or_else : Option V → Option V → Option V
  or_else none o = o
  or_else (some v) o = some v

  -- The null pointer is `none`.
  unfoldable pub find : List (List (String × V)) → String → Option V
  find [] name = none
  find (s ∷ inner) name = or_else (map_find name s) (find inner name)
