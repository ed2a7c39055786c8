-- ===== src/Planning/Keywords.antt =====
-- `_keywords` of brain/application/planning.py: the matches of `[a-z_][a-z0-9_]{2,}` in the lower-cased
-- text, less the stop words. A match is a run of word characters, less its first digits.
use development_brain.Prelude.{
  ℕ, Bool, not, ◌&&◌, ◌||◌, List, [], ◌∷◌, ◌++◌, keep, contains, length, leb, ltb, ◌==◌, nat_eq,
  list_eq, if◌then◌else◌,
}
use development_brain.Prelude.Text.{Text, codes, lower}

is_digit : ℕ → Bool
is_digit c = leb 48 c && leb c 57

unfoldable pub is_word_char : ℕ → Bool
unfolding is_digit
is_word_char c = (leb 97 c && leb c 122) || (c == 95 || is_digit c)

grow : ℕ → List Text → List Text
grow c [] = (c ∷ []) ∷ []
grow c (run ∷ runs) = (c ∷ run) ∷ runs

-- The runs of word characters, with empty ones between other characters.
unfoldable pub runs_of : Text → List Text
unfolding grow
runs_of [] = [] ∷ []
runs_of (c ∷ cs) = let runs = runs_of cs in if is_word_char c then grow c runs else [] ∷ runs

unfoldable pub without_digits : Text → Text
unfolding is_digit
without_digits [] = []
without_digits (c ∷ cs) = if is_digit c then without_digits cs else c ∷ cs

unfoldable pub words_of : List Text → List Text
words_of [] = []
words_of (run ∷ runs) =
    let rest = words_of runs in
    let word = without_digits run in if ltb (length word) 3 then rest else word ∷ rest

abbrev pub stop_words : List Text
stop_words =
    codes "the"
    ∷ codes "and"
    ∷ codes "for"
    ∷ codes "with"
    ∷ codes "implement"
    ∷ codes "task"
    ∷ codes "requirement"
    ∷ codes "support"
    ∷ []

unfoldable pub keywords_of : (title description : Text) → List Text
keywords_of title description =
    keep (λ w. not (contains stop_words w))
      (words_of (runs_of (lower (title ++ (32 ∷ description)))))
