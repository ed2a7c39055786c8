-- ===== src/Prelude/Lists.antt =====
-- Lists measured by native numbers, with what Python's list operations do.
use Prim.Native.Nat.{ℕ, zero, suc, ◌+◌, ◌-◌, ◌<◌, ◌≤◌}
use mathlib.Core.Path.{◌≡◌, refl, sym, ap, ◌∙◌}
use mathlib.Core.Bool.{Bool, true, false, not, ◌&&◌, ◌||◌}
use mathlib.Core.List.{List, [], ◌∷◌, ◌++◌}
use Prim.Native.Nat.{Ordering}
use Prim.Native.String.{String, compare}
use native.Mathlib.Omega.{arith}
use development_brain.Prelude.Tests.{if◌then◌else◌}
use development_brain.Prelude.Equality.{Eq, ◌==◌}

module _ {ℓ} {A : Type ℓ} where
  abbrev pub length : List A → ℕ
  length [] = 0
  length (x ∷ xs) = suc (length xs)

  abbrev pub drop : ℕ → List A → List A
  drop zero xs = xs
  drop (suc n) [] = []
  drop (suc n) (x ∷ xs) = drop n xs

  abbrev pub take : ℕ → List A → List A
  take zero xs = []
  take (suc n) [] = []
  take (suc n) (x ∷ xs) = x ∷ take n xs

  drop-nil : (n : ℕ) → drop n [] ≡ []
  drop-nil zero = refl
  drop-nil (suc n) = refl

  pub drop-drop : (n m : ℕ) (xs : List A) → drop n (drop m xs) ≡ drop (m + n) xs
  drop-drop n zero xs = let e : n ≡ 0 + n = omega arith in ap (λ k. drop k xs) e
  drop-drop n (suc m) [] = drop-nil n ∙ sym (drop-nil (suc m + n))
  drop-drop n (suc m) (x ∷ xs) =
      let e : suc (m + n) ≡ suc m + n = omega arith in
      drop-drop n m xs ∙ ap (λ k. drop k (x ∷ xs)) e

  pub append-take-drop : (n : ℕ) (xs : List A) → take n xs ++ drop n xs ≡ xs
  append-take-drop zero xs = refl
  append-take-drop (suc n) [] = refl
  append-take-drop (suc n) (x ∷ xs) = ap (λ ys. x ∷ ys) (append-take-drop n xs)

  -- `[x for x in xs if p(x)]`
  unfoldable pub keep : (A → Bool) → List A → List A
  keep p [] = []
  keep p (x ∷ xs) = let rest = keep p xs in if p x then x ∷ rest else rest

  pub keep-append : (p : A → Bool) (xs ys : List A) → keep p (xs ++ ys) ≡ keep p xs ++ keep p ys
  unfolding keep
  keep-append p [] ys = refl
  keep-append p (x ∷ xs) ys = ground (arith, keep-append p xs ys)

  -- `any(p(x) for x in xs)`
  unfoldable pub any : (A → Bool) → List A → Bool
  any p [] = false
  any p (x ∷ xs) = p x || any p xs

  pub length-append : (xs ys : List A) → length (xs ++ ys) ≡ length xs + length ys
  length-append [] ys = omega arith
  length-append (x ∷ xs) ys = omega (arith, length-append xs ys)

  -- A slice that is not full is the last one.
  pub drop-short : (n : ℕ) (xs : List A) → length (take n xs) < n → drop n xs ≡ []
  drop-short zero xs h = absurd (omega (arith, h))
  drop-short (suc n) [] h = refl
  drop-short (suc n) (x ∷ xs) h = drop-short n xs (omega (arith, h))

  pub length-drop : (n : ℕ) (xs : List A) → length (drop n xs) ≡ length xs - n
  length-drop zero xs = omega arith
  length-drop (suc n) [] = omega arith
  length-drop (suc n) (x ∷ xs) = omega (arith, length-drop n xs)

  pub length-take_le : (n : ℕ) (xs : List A) → length (take n xs) ≤ length xs
  length-take_le zero xs = omega arith
  length-take_le (suc n) [] = omega arith
  length-take_le (suc n) (x ∷ xs) = omega (arith, length-take_le n xs)

  abbrev pub All {κ} : (A → Type κ) → List A → Type κ
  All P [] = Unit
  All P (x ∷ xs) = P x × All P xs

module _ {ℓ} {A : Type ℓ} ⦃e : Eq A⦄ where
  -- `a in xs`
  unfoldable pub contains : List A → A → Bool
  contains [] a = false
  contains (x ∷ xs) a = a == x || contains xs a

  pub contains-append :
      (ks js : List A) (k : A) → contains (ks ++ js) k ≡ (contains ks k || contains js k)
  unfolding contains
  contains-append [] js k = ground arith
  contains-append (i ∷ ks) js k = ground (arith, contains-append ks js k)

-- Insertion into a list of texts in the order of their code points.
insert_sorted : String → List String → List String
insert_sorted t [] = t ∷ []
insert_sorted t (u ∷ us) =
    let later = u ∷ insert_sorted t us in
    elim (compare u t) [ Ordering.lt ↦ later | _ ↦ t ∷ u ∷ us ]

-- `sorted(texts)`
unfoldable pub sorted : List String → List String
unfolding insert_sorted
sorted [] = []
sorted (t ∷ ts) = insert_sorted t (sorted ts)

module _ {ℓ} {A : Type ℓ} ⦃e : Eq A⦄ where
  -- Each item once, where it is first.
  unfoldable pub unique : List A → List A
  unique [] = []
  unique (x ∷ xs) = x ∷ keep (λ y. not (x == y)) (unique xs)

  -- No item twice.
  unfoldable pub distinct : List A → Bool
  distinct [] = true
  distinct (x ∷ xs) = not (contains xs x) && distinct xs

  contains-keep_other :
      (x : A) (ys : List A) (t : A)
      → contains (keep (λ y. not (x == y)) ys) t ≡ (not (x == t) && contains ys t)
  unfolding contains keep
  contains-keep_other x [] t = ground arith
  contains-keep_other x (y ∷ ys) t = ground (arith, e.beq_iff t y, contains-keep_other x ys t)

  pub contains-unique : (xs : List A) (t : A) → contains (unique xs) t ≡ contains xs t
  unfolding contains unique
  contains-unique [] t = refl
  contains-unique (x ∷ xs) t = ground (
    arith,
    e.beq_iff x t,
    e.beq_iff t x,
    contains-keep_other x (unique xs) t,
    contains-unique xs t,
  )
