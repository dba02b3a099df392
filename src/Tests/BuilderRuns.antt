-- ===== src/Tests/BuilderRuns.antt =====
-- The scopes of src/cminusfc/cminusf_builder.cpp on concrete names; a value is a number.
use text.Mathlib.Text.{◌==◌ as str_eq}
use ustc_2021_compliers.Base.{ℕ, String, ◌≡◌, ◌&&◌, some, List, [], ◌∷◌, ok, if◌then◌else◌}
use ustc_2021_compliers.Builder.Scope.{enter, exit, push, find, map_find, or_else}
use ustc_2021_compliers.Builder.Scope.Lookup.{is_none, push_all, find-push, exit-push_all}

abbrev globals : List (String × ℕ)
globals = ("x", 1) ∷ ("f", 2) ∷ []

find-push_example :
    (after : List (List (String × ℕ))) × (push (globals ∷ []) "y" 3
      ≡ ok (after, is_none (map_find "y" globals)))
    × ((other : String)
        → find after other ≡ (
            if is_none (map_find "y" globals) && str_eq "y" other
            then some 3
            else find (globals ∷ []) other))
find-push_example = find-push globals [] "y" 3

exit-push_all_example :
    (after : List (List (String × ℕ))) × (push_all (enter (globals ∷ [])) (("x", 3) ∷ ("x", 4) ∷ [])
      ≡ ok after)
    × ((name : String)
        → find after name
          ≡ or_else (map_find name (("x", 3) ∷ ("x", 4) ∷ [])) (find (globals ∷ []) name))
    × (exit after ≡ ok (globals ∷ []))
exit-push_all_example = exit-push_all (globals ∷ []) (("x", 3) ∷ ("x", 4) ∷ [])
