-- ===== src/Planning/Duplicates.antt =====
-- The duplicates that the count of titles reports.
use development_brain.Prelude.{
  ℕ, ◌+◌, ◌≡◌, ◌≤◌, refl, Bool, true, not, ◌&&◌, List, [], ◌∷◌, ◌++◌, contains, distinct, nat_eq,
  list_eq, list_beq_iff, arith,
}
use development_brain.Prelude.Dict
use development_brain.Prelude.Dict.{Dict, get-insert}
use development_brain.Prelude.Text.{Text}
use development_brain.Planning.{is_nil, is_given}
use development_brain.Planning.Service.{seen_before, count_titles, repeated}

pub is_nil-append {ℓ} : {A : Type ℓ} (xs ys : List A) → is_nil (xs ++ ys) ≡ (is_nil xs && is_nil ys)
is_nil-append [] ys = refl
is_nil-append (x ∷ xs) ys = refl

-- Every title in the table was seen.
abbrev Positive : Dict Text ℕ → Type 0
Positive [] = Unit
Positive ((t, n) ∷ seen) = (1 ≤ n) × Positive seen

insert-Positive :
    (seen : Dict Text ℕ) (t : Text) (n : ℕ) → Positive seen → Positive (Dict.insert seen t (n + 1))
unfolding Dict.insert
insert-Positive [] t n h = (omega arith, tt)
insert-Positive ((u, m) ∷ seen) t n h = ground (arith, insert-Positive seen t n)

repeated-insert :
    (seen : Dict Text ℕ) (t : Text)
    → Positive seen
    → is_nil (repeated (Dict.insert seen t (seen_before (Dict.get seen t) + 1)))
      ≡ (is_nil (repeated seen) && not (is_given (Dict.get seen t)))
unfolding Dict.insert Dict.get repeated
repeated-insert [] t h = refl
repeated-insert ((u, n) ∷ seen) t h = ground (arith, repeated-insert seen t)

-- No title of the list is in the table.
none_seen : List Text → Dict Text ℕ → Bool
none_seen [] seen = true
none_seen (t ∷ ts) seen = not (is_given (Dict.get seen t)) && none_seen ts seen

none_seen-insert :
    (ts : List Text) (seen : Dict Text ℕ) (t : Text) (n : ℕ)
    → none_seen ts (Dict.insert seen t n) ≡ (none_seen ts seen && not (contains ts t))
unfolding none_seen contains
none_seen-insert [] seen t n = refl
none_seen-insert (u ∷ us) seen t n =
    ground (
      arith,
      get-insert seen t u n,
      none_seen-insert us seen t n,
      list_beq_iff t u,
      list_beq_iff u t,
    )

count_titles-distinct :
    (ts : List Text) (seen : Dict Text ℕ)
    → Positive seen
    → is_nil (repeated (count_titles ts seen))
      ≡ (is_nil (repeated seen) && (none_seen ts seen && distinct ts))
unfolding count_titles none_seen distinct
count_titles-distinct [] seen h = ground arith
count_titles-distinct (t ∷ ts) seen h =
    let n = seen_before (Dict.get seen t) in
    ground (
      arith,
      repeated-insert seen t h,
      none_seen-insert ts seen t (n + 1),
      count_titles-distinct ts (Dict.insert seen t (n + 1)) (insert-Positive seen t n h),
    )

none_seen-nil : (ts : List Text) → none_seen ts [] ≡ true
unfolding none_seen Dict.get
none_seen-nil [] = refl
none_seen-nil (t ∷ ts) = none_seen-nil ts

pub repeated-count_titles : (ts : List Text) → is_nil (repeated (count_titles ts [])) ≡ distinct ts
unfolding repeated
repeated-count_titles ts = ground (arith, count_titles-distinct ts [] tt, none_seen-nil ts)
