-- ===== src/Context/Allocation.antt =====
-- The accounts of the categories under `BudgetAllocator` and the charges of `_build_capsule`.
use development_brain.Prelude.{
  ℕ, ◌+◌, ◌≤◌, ◌≡◌, refl, false, List, [], ◌∷◌, ◌++◌, All, any, ◌==◌, if◌then◌else◌, arith,
  Bool-cases, beq_sym, inl, inr,
}
use development_brain.Context.{
  ContextCategory-discrete, ContextCategory, category_eq, ContextCandidate, BudgetAllocation,
  remaining, allocation_for, is_exhausted, charge, allocate_from, default_weights,
}

-- The tokens of the candidates together, and of those of one category.
unfoldable pub tokens : List ContextCandidate → ℕ
tokens [] = 0
tokens (c ∷ cs) = c.token_estimate + tokens cs

unfoldable pub tokens_of : ContextCategory → List ContextCandidate → ℕ
tokens_of category [] = 0
tokens_of category (c ∷ cs) =
    (if c.category == category then c.token_estimate else 0) + tokens_of category cs

pub tokens-snoc :
    (cs : List ContextCandidate) (c : ContextCandidate)
    → tokens (cs ++ (c ∷ [])) ≡ tokens cs + c.token_estimate
unfolding tokens
tokens-snoc [] c = omega arith
tokens-snoc (d ∷ ds) c = omega (arith, tokens-snoc ds c)

tokens_of-snoc :
    (k : ContextCategory) (cs : List ContextCandidate) (c : ContextCandidate)
    → tokens_of k (cs ++ (c ∷ []))
      ≡ tokens_of k cs + (if c.category == k then c.token_estimate else 0)
unfolding tokens_of
tokens_of-snoc k [] c = omega arith
tokens_of-snoc k (d ∷ ds) c = omega (arith, tokens_of-snoc k ds c)

category_sym : (j k : ContextCategory) → (j == k) ≡ (k == j)
category_sym j k = beq_sym j k

-- No allocation of the category.
abbrev pub IsAbsent : ContextCategory → List BudgetAllocation → Type 0
IsAbsent k allocations = All (λ a. (a.category == k) ≡ false) allocations

-- One allocation for each category.
abbrev pub AreDistinct : List BudgetAllocation → Type 0
AreDistinct [] = Unit
AreDistinct (a ∷ rest) = IsAbsent a.category rest × AreDistinct rest

module _ (m : ℕ) where
  -- The allocation has the tokens of its category, and exceeds its share by `m` at most.
  abbrev pub IsAccounted : List ContextCandidate → BudgetAllocation → Type 0
  IsAccounted included a =
      (a.used_tokens ≡ tokens_of a.category included) × (a.used_tokens ≤ a.allocated_tokens + m)

  Accounted-other :
      (included : List ContextCandidate) (c : ContextCandidate)
      (allocations : List BudgetAllocation)
      → IsAbsent c.category allocations
      → All (IsAccounted included) allocations
      → All (IsAccounted (included ++ (c ∷ []))) allocations
  Accounted-other included c [] absent h = tt
  Accounted-other included c (a ∷ rest) (other, absent) (h, hs) = (
    ground (arith, tokens_of-snoc a.category included c, category_sym a.category c.category),
    Accounted-other included c rest absent hs,
  )

  pub charge-Accounted :
      (included : List ContextCandidate) (c : ContextCandidate)
      (allocations : List BudgetAllocation)
      → c.token_estimate ≤ m
      → AreDistinct allocations
      → is_exhausted c.category allocations ≡ false
      → All (IsAccounted included) allocations
      → All (IsAccounted (included ++ (c ∷ []))) (charge c.category c.token_estimate allocations)
  unfolding charge is_exhausted allocation_for remaining
  charge-Accounted included c [] le d room h = tt
  charge-Accounted included c (a ∷ rest) le (absent, d) room (h, hs) =
      elim (Bool-cases (a.category == c.category)) [
        | inl same ↦
            let same_category : a.category ≡ c.category =
              (category_eq.beq_iff a.category c.category).0 same in
            let absent' : IsAbsent c.category rest = rw (← same_category) absent in
            rw (charge, same)
              (
                ground (
                  arith,
                  tokens_of-snoc a.category included c,
                  category_sym a.category c.category,
                ),
                Accounted-other included c rest absent' hs,
              )
        | inr other ↦
            rw (charge, other)
              (
                ground (
                  arith,
                  tokens_of-snoc a.category included c,
                  category_sym a.category c.category,
                ),
                charge-Accounted included c rest le d (ground arith) hs,
              )
      ]

charge-IsAbsent :
    (k category : ContextCategory) (n : ℕ) (allocations : List BudgetAllocation)
    → IsAbsent k allocations
    → IsAbsent k (charge category n allocations)
unfolding charge
charge-IsAbsent k category n [] h = tt
charge-IsAbsent k category n (a ∷ rest) (h, hs) = elim (Bool-cases (a.category == category)) [
  | inl same ↦ rw (charge, same) (h, hs)
  | inr other ↦ rw (charge, other) (h, charge-IsAbsent k category n rest hs)
]

pub charge-AreDistinct :
    (category : ContextCategory) (n : ℕ) (allocations : List BudgetAllocation)
    → AreDistinct allocations
    → AreDistinct (charge category n allocations)
unfolding charge
charge-AreDistinct category n [] d = tt
charge-AreDistinct category n (a ∷ rest) (h, d) = elim (Bool-cases (a.category == category)) [
  | inl same ↦ rw (charge, same) (h, d)
  | inr other ↦
      rw (charge, other)
        (charge-IsAbsent a.category category n rest h, charge-AreDistinct category n rest d)
]

abbrev pub IsUnweighted : ContextCategory → List (ContextCategory × ℕ) → Type 0
IsUnweighted k weights = All (λ w. (w.0 == k) ≡ false) weights

abbrev pub AreWeightedOnce : List (ContextCategory × ℕ) → Type 0
AreWeightedOnce [] = Unit
AreWeightedOnce (w ∷ rest) = IsUnweighted w.0 rest × AreWeightedOnce rest

module _ (total : ℕ) (candidates : List ContextCandidate) where
  allocate_from-IsAbsent :
      (k : ContextCategory) (weights : List (ContextCategory × ℕ))
      → IsUnweighted k weights
      → IsAbsent k (allocate_from total candidates weights)
  unfolding allocate_from
  allocate_from-IsAbsent k [] h = tt
  allocate_from-IsAbsent k ((category, weight) ∷ weights) (h, hs) =
      elim (Bool-cases (any (λ c. c.category == category) candidates)) [
        | inl y ↦ rw (allocate_from, y) (h, allocate_from-IsAbsent k weights hs)
        | inr n ↦ rw (allocate_from, n) (allocate_from-IsAbsent k weights hs)
      ]

  -- The allocations of a list of weights are distinct, and nothing is used of them.
  pub allocate_from-AreDistinct :
      (m : ℕ) (weights : List (ContextCategory × ℕ))
      → AreWeightedOnce weights
      → AreDistinct (allocate_from total candidates weights)
        × All (IsAccounted m []) (allocate_from total candidates weights)
  unfolding allocate_from tokens_of
  allocate_from-AreDistinct m [] h = (tt, tt)
  allocate_from-AreDistinct m ((category, weight) ∷ weights) (h, hs) =
      let (d, a) = allocate_from-AreDistinct m weights hs in
      elim (Bool-cases (any (λ c. c.category == category) candidates)) [
        | inl y ↦
            rw (allocate_from, y)
              ((allocate_from-IsAbsent category weights h, d), ((refl, omega arith), a))
        | inr n ↦ rw (allocate_from, n) (d, a)
      ]

pub default_weights-once : AreWeightedOnce default_weights
unfolding ContextCategory-discrete
default_weights-once = (
  (refl, (refl, (refl, (refl, (refl, (refl, tt)))))),
  (
    (refl, (refl, (refl, (refl, (refl, tt))))),
    (
      (refl, (refl, (refl, (refl, tt)))),
      ((refl, (refl, (refl, tt))), ((refl, (refl, tt)), ((refl, tt), (tt, tt)))),
    ),
  ),
)
