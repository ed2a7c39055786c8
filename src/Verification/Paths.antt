-- ===== src/Verification/Paths.antt =====
-- `_is_test_path` of brain/application/verification_engine.py.
use development_brain.Prelude.{
  ℕ, String, Bool, true, false, ◌&&◌, ◌||◌, List, [], ◌∷◌, any, ◌==◌, nat_eq, if◌then◌else◌,
}
use development_brain.Prelude.Text.{Text, codes, lower, starts_with}

-- `path.replace("\\", "/")`
unfoldable pub normalize : Text → Text
normalize [] = []
normalize (c ∷ cs) = (if c == 92 then 47 else c) ∷ normalize cs

extend : ℕ → List Text → List Text
extend c [] = (c ∷ []) ∷ []
extend c (part ∷ parts) = (c ∷ part) ∷ parts

-- `text.split("/")`
unfoldable pub split : Text → List Text
unfolding extend
split [] = [] ∷ []
split (c ∷ cs) = let parts = split cs in if c == 47 then [] ∷ parts else extend c parts

unfoldable pub same : Text → Text → Bool
same [] [] = true
same (c ∷ cs) (d ∷ ds) = c == d && same cs ds
same _ _ = false

unfoldable pub is_test_directory : Text → Bool
is_test_directory part =
    let is = λ (word : String). same (lower part) (codes word) in
    is "test" || (is "tests" || (is "spec" || (is "specs" || is "__tests__")))

-- The part after the last slash.
unfoldable pub last_part : List Text → Text
last_part [] = []
last_part (part ∷ []) = part
last_part (part ∷ next ∷ parts) = last_part (next ∷ parts)

unfoldable pub ends_with : Text → Text → Bool
ends_with [] suffix = same [] suffix
ends_with (c ∷ cs) suffix = same (c ∷ cs) suffix || ends_with cs suffix

unfoldable pub is_test_path : String → Bool
is_test_path path =
    let parts = split (normalize (codes path)) in
    let name = last_part parts in
    any is_test_directory parts
    || (starts_with name (codes "test_") || ends_with name (codes "_test.py"))
