-- ===== src/Context/Tokens.antt =====
-- brain/application/token_estimation.py: estimates of tokens from characters and words. The arithmetic is
-- exact, over a common denominator of the ratios; Python rounds each product.
use Prim.Native.Nat.{◌/◌}
use development_brain.Prelude.{
  ℕ, ◌+◌, ◌*◌, Bool, none, some, List, [], ◌∷◌, length, leb, nat_eq, list_eq, if◌then◌else◌,
}
use development_brain.Prelude.Dict
use development_brain.Prelude.Dict.{Dict}
use development_brain.Prelude.Text.{Text, codes, lower, is_space}

extend : ℕ → List Text → List Text
extend c [] = (c ∷ []) ∷ []
extend c (word ∷ words) = (c ∷ word) ∷ words

-- The runs of other characters between white space, empty ones included.
runs : Text → List Text
unfolding extend
runs [] = [] ∷ []
runs (c ∷ cs) = let rest = runs cs in if is_space c then [] ∷ rest else extend c rest

drop_empty : List Text → List Text
drop_empty [] = []
drop_empty ([] ∷ ts) = drop_empty ts
drop_empty ((c ∷ cs) ∷ ts) = (c ∷ cs) ∷ drop_empty ts

-- `text.split()`
unfoldable pub split_words : Text → List Text
unfolding runs drop_empty
split_words t = drop_empty (runs t)

-- Tokens for nine hundred characters.
unfoldable pub model_ratios : Dict Text ℕ
model_ratios =
    (codes "claude", 225)
    ∷ (codes "gpt", 225)
    ∷ (codes "llama", 200)
    ∷ (codes "qwen", 200)
    ∷ (codes "default", 225)
    ∷ []

unfoldable pub ratio_of : (model : Text) → ℕ
unfolding model_ratios
ratio_of model = elim (Dict.get model_ratios (lower model)) [ none ↦ 225 | some ratio ↦ ratio ]

unfoldable pub estimate : (text model : Text) → ℕ
unfolding ratio_of split_words
estimate text model =
    let nine_hundredths = length text * ratio_of model + length (split_words text) * 117 in
    let ceiling = (nine_hundredths + 899) / 900 in if leb 1 ceiling then ceiling else 1

unfoldable pub fits : (text : Text) (budget : ℕ) (model : Text) → Bool
unfolding estimate
fits text budget model = leb (estimate text model) budget
