-- ===== src/Prelude/Text.antt =====
-- `str` where the program looks inside a text: its list of code points. `lower` follows
-- `str.lower` on every character whose lower case has ASCII letters in it, the dotted capital I and
-- the Kelvin sign included, and leaves the others as they are; the program only looks for ASCII
-- words in the result.
use Prim.Native.Char.{code}
use Prim.Native.Nat.{ℕ, zero, suc, ◌+◌, ◌/◌, ◌%◌}
use Prim.Native.String.{String}
use mathlib.Core.Bool.{Bool, true, false, ◌&&◌, ◌||◌}
use mathlib.Core.List.{List, [], ◌∷◌, ◌++◌, reverse}
use development_brain.Prelude.Tests.{leb, ltb, if◌then◌else◌}
use development_brain.Prelude.Equality.{◌==◌, nat_eq}

abbrev pub Text : Type 0
Text = List ℕ

abbrev pub codes : String → Text
codes String.[] = []
codes (String.◌∷◌ c s) = code c ∷ codes s

lower_char : ℕ → List ℕ
lower_char c =
    if leb 65 c && leb c 90
    then (c + 32) ∷ []
    else if c == 304
    then 105 ∷ 775 ∷ []
    else if c == 8490
    then 107 ∷ []
    else c ∷ []

unfoldable pub lower : List ℕ → List ℕ
unfolding lower_char
lower [] = []
lower (c ∷ cs) = lower_char c ++ lower cs

-- `text.startswith(prefix)`
unfoldable pub starts_with : List ℕ → List ℕ → Bool
starts_with s [] = true
starts_with [] (p ∷ ps) = false
starts_with (c ∷ cs) (p ∷ ps) = c == p && starts_with cs ps

-- `needle in text`
unfoldable pub contains_text : List ℕ → List ℕ → Bool
unfolding starts_with
contains_text needle [] = starts_with [] needle
contains_text needle (c ∷ cs) = starts_with (c ∷ cs) needle || contains_text needle cs

decimal_from : ℕ → ℕ → Text → Text
decimal_from zero n acc = acc
decimal_from (suc fuel) n acc =
    let digit = 48 + n % 10 in
    let rest = decimal_from fuel (n / 10) (digit ∷ acc) in if ltb n 10 then digit ∷ acc else rest

-- `str(n)`; a number has at most n + 1 digits.
unfoldable pub decimal : ℕ → Text
unfolding decimal_from
decimal n = decimal_from (suc n) n []

-- The characters that `str.isspace` accepts.
unfoldable pub is_space : ℕ → Bool
is_space c =
    (leb 9 c && leb c 13)
    || ((leb 28 c && leb c 32)
        || (c == 133
            || (c == 160
                || (c == 5760
                    || ((leb 8192 c && leb c 8202)
                        || (c == 8232
                            || (c == 8233 || (c == 8239 || (c == 8287 || c == 12288)))))))))

unfoldable pub strip_start : Text → Text
strip_start [] = []
strip_start (c ∷ cs) = if is_space c then strip_start cs else c ∷ cs

-- `text.strip()`
unfoldable pub strip : Text → Text
strip t = reverse (strip_start (reverse (strip_start t)))

-- `s <= t`, by code points.
unfoldable pub not_after : Text → Text → Bool
not_after [] t = true
not_after (c ∷ cs) [] = false
not_after (c ∷ cs) (d ∷ ds) = ltb c d || (c == d && not_after cs ds)

insert_text : Text → List Text → List Text
insert_text t [] = t ∷ []
insert_text t (u ∷ us) =
    let later = u ∷ insert_text t us in if not_after t u then t ∷ u ∷ us else later

-- `sorted(texts)`
unfoldable pub sort_texts : List Text → List Text
unfolding insert_text
sort_texts [] = []
sort_texts (t ∷ ts) = insert_text t (sort_texts ts)
