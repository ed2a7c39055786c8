-- ===== src/KnowledgeGraph/Search.antt =====
-- The search by levels against walks of bounded length, over any function that gives the neighbours.
use development_brain.Prelude.{
  ℕ, zero, suc, ◌≤◌, ◌≡◌, refl, ◌↔◌, ◌⊎◌, inl, inr, Bool, true, not, ◌&&◌, List, [], ◌∷◌, ◌++◌,
  keep, contains, contains-append, ◌==◌, nat_eq, nat_beq_iff, arith, Bool-cases, beq_refl,
}
use development_brain.KnowledgeGraph.{next_frontier, search_levels}

abbrev pub IsIn : List ℕ → ℕ → Type 0
IsIn xs n = contains xs n ≡ true

module _ (linked : ℕ → ℕ → Bool) where
  -- `n` is `k` links from `s`.
  abbrev pub Walk : (k s n : ℕ) → Type 0
  Walk zero s n = s ≡ n
  Walk (suc k) s n = (t : ℕ) × (linked s t ≡ true) × Walk k t n

  -- `n` is at most `depth` links from one of the ids.
  abbrev pub Within : (depth : ℕ) → List ℕ → ℕ → Type 0
  Within depth starts n = (s : ℕ) × (k : ℕ) × IsIn starts s × (k ≤ depth) × Walk k s n

module _ (around : ℕ → List ℕ) where
  abbrev pub linked : ℕ → ℕ → Bool
  linked s t = contains (around s) t

  contains-keep :
      (p : ℕ → Bool) (xs : List ℕ) (n : ℕ) → contains (keep p xs) n ≡ (contains xs n && p n)
  unfolding contains keep
  contains-keep p [] n = refl
  contains-keep p (x ∷ xs) n = ground (arith, nat_beq_iff n x, contains-keep p xs n)

  IsIn-append : (xs ys : List ℕ) (n : ℕ) → IsIn (xs ++ ys) n → IsIn xs n ⊎ IsIn ys n
  IsIn-append xs ys n h = elim (Bool-cases (contains xs n)) [
    | inl y ↦ inl y
    | inr no_x ↦ inr (ground (arith, contains-append xs ys n))
  ]

  IsIn-left : (xs ys : List ℕ) (n : ℕ) → IsIn xs n → IsIn (xs ++ ys) n
  IsIn-left xs ys n h = rw (contains-append xs ys n, h) refl

  IsIn-right : (xs ys : List ℕ) (n : ℕ) → IsIn ys n → IsIn (xs ++ ys) n
  IsIn-right xs ys n h = ground (arith, contains-append xs ys n)

  IsIn-cons : (x : ℕ) (xs : List ℕ) (n : ℕ) → IsIn (x ∷ xs) n → (n ≡ x) ⊎ IsIn xs n
  unfolding contains
  IsIn-cons x xs n h = elim (Bool-cases (n == x)) [
    | inl y ↦ inl ((nat_beq_iff n x).0 y)
    | inr no_x ↦ inr (ground arith)
  ]

  IsIn-head : (x : ℕ) (xs : List ℕ) → IsIn (x ∷ xs) x
  unfolding contains
  IsIn-head x xs = ground (arith, beq_refl x)

  IsIn-tail : (x : ℕ) (xs : List ℕ) (n : ℕ) → IsIn xs n → IsIn (x ∷ xs) n
  unfolding contains
  IsIn-tail x xs n h = ground arith

  next_frontier_from :
      (reached frontier : List ℕ) (t : ℕ)
      → IsIn (next_frontier around reached frontier) t
      → (s : ℕ) × IsIn frontier s × IsIn (around s) t
  next_frontier_from reached [] t h = absurd (unfold next_frontier contains in cc h)
  next_frontier_from reached (i ∷ is) t h =
      let new = keep (λ j. not (contains reached j)) (around i) in
      let h' : IsIn (new ++ next_frontier around reached is) t = unfold next_frontier in h in
      elim (IsIn-append new (next_frontier around reached is) t h') [
        | inl here ↦ (
          i,
          IsIn-head i is,
          ground (arith, contains-keep (λ j. not (contains reached j)) (around i) t),
        )
        | inr later ↦
            let (s, f, e) = next_frontier_from reached is t later in (s, IsIn-tail i is s f, e)
      ]

  next_frontier_new :
      (reached frontier : List ℕ) (s t : ℕ)
      → IsIn frontier s
      → IsIn (around s) t
      → IsIn reached t ⊎ IsIn (next_frontier around reached frontier) t
  unfolding next_frontier
  next_frontier_new reached [] s t f h = absurd (unfold contains in cc f)
  next_frontier_new reached (i ∷ is) s t f h =
      let new = keep (λ j. not (contains reached j)) (around i) in
      let rest = next_frontier around reached is in
      elim (IsIn-cons i is s f) [
        | inl e ↦ elim (Bool-cases (contains reached t)) [
          | inl old ↦ inl old
          | inr fresh ↦
              let e' : IsIn (around i) t = rw (← e) h in
              inr (
                IsIn-left new rest t
                  (ground (arith, contains-keep (λ j. not (contains reached j)) (around i) t)))
        ]
        | inr later ↦ elim (next_frontier_new reached is s t later h) [
          | inl old ↦ inl old
          | inr fresh ↦ inr (IsIn-right new rest t fresh)
        ]
      ]

  -- What the search has is what was reached, or within as many steps of the frontier.
  search_levels_sound :
      (depth : ℕ) (reached frontier : List ℕ) (n : ℕ)
      → IsIn (search_levels around depth reached frontier) n
      → IsIn reached n ⊎ Within linked depth frontier n
  unfolding search_levels
  search_levels_sound zero reached frontier n h = elim (IsIn-append reached frontier n h) [
    | inl old ↦ inl old
    | inr new ↦ inr (n, 0, new, omega arith, refl)
  ]
  search_levels_sound (suc depth) reached [] n h = inl h
  search_levels_sound (suc depth) reached (i ∷ is) n h =
      let reached' = reached ++ (i ∷ is) in
      elim (search_levels_sound depth reached' (next_frontier around reached' (i ∷ is)) n h) [
        | inl old ↦ elim (IsIn-append reached (i ∷ is) n old) [
          | inl older ↦ inl older
          | inr new ↦ inr (n, 0, new, omega arith, refl)
        ]
        | inr (t, k, f, le, w) ↦
            let (s, f', e) = next_frontier_from reached' (i ∷ is) t f in
            inr (s, suc k, f', omega arith, (t, e, w))
      ]

  -- The neighbours of what was reached are reached or in the frontier.
  abbrev IsClosed : (reached frontier : List ℕ) → Type 0
  IsClosed reached frontier =
      (s t : ℕ) → IsIn reached s → IsIn (around s) t → IsIn reached t ⊎ IsIn frontier t

  IsClosed-next :
      (reached frontier : List ℕ)
      → IsClosed reached frontier
      → IsClosed (reached ++ frontier) (next_frontier around (reached ++ frontier) frontier)
  IsClosed-next reached frontier c s t r e = elim (IsIn-append reached frontier s r) [
    | inl old ↦ elim (c s t old e) [
      | inl o ↦ inl (IsIn-left reached frontier t o)
      | inr f ↦ inl (IsIn-right reached frontier t f)
    ]
    | inr new ↦ next_frontier_new (reached ++ frontier) frontier s t new e
  ]

  search_levels_keeps :
      (depth : ℕ) (reached frontier : List ℕ) (n : ℕ)
      → IsIn reached n ⊎ IsIn frontier n
      → IsIn (search_levels around depth reached frontier) n
  unfolding search_levels
  search_levels_keeps zero reached frontier n (inl r) = IsIn-left reached frontier n r
  search_levels_keeps zero reached frontier n (inr f) = IsIn-right reached frontier n f
  search_levels_keeps (suc depth) reached [] n (inl r) = r
  search_levels_keeps (suc depth) reached [] n (inr f) = absurd (unfold contains in cc f)
  search_levels_keeps (suc depth) reached (i ∷ is) n (inl r) =
      let reached' = reached ++ (i ∷ is) in
      search_levels_keeps depth reached' (next_frontier around reached' (i ∷ is)) n
        (inl (IsIn-left reached (i ∷ is) n r))
  search_levels_keeps (suc depth) reached (i ∷ is) n (inr f) =
      let reached' = reached ++ (i ∷ is) in
      search_levels_keeps depth reached' (next_frontier around reached' (i ∷ is)) n
        (inl (IsIn-right reached (i ∷ is) n f))

  search_levels_complete :
      (k depth : ℕ) (reached frontier : List ℕ) (s n : ℕ)
      → IsClosed reached frontier
      → k ≤ depth
      → IsIn reached s ⊎ IsIn frontier s
      → Walk linked k s n
      → IsIn (search_levels around depth reached frontier) n
  unfolding search_levels
  search_levels_complete zero depth reached frontier s n c le m w =
      rw (← w) (search_levels_keeps depth reached frontier s m)
  search_levels_complete (suc k) depth reached frontier s n c le (inl r) (t, e, w) =
      search_levels_complete k depth reached frontier t n c (omega arith) (c s t r e) w
  search_levels_complete (suc k) zero reached frontier s n c le (inr f) w = absurd (omega arith)
  search_levels_complete (suc k) (suc depth) reached [] s n c le (inr f) w =
      absurd (unfold contains in cc f)
  search_levels_complete (suc k) (suc depth) reached (i ∷ is) s n c le (inr f) (t, e, w) =
      let reached' = reached ++ (i ∷ is) in
      let next = next_frontier around reached' (i ∷ is) in
      search_levels_complete k depth reached' next t n (IsClosed-next reached (i ∷ is) c)
        (omega arith) (next_frontier_new reached' (i ∷ is) s t f e) w

  -- From nothing reached, the search has exactly what is within the depth of its start.
  pub search_levels_lem :
      (depth : ℕ) (starts : List ℕ) (n : ℕ)
      → IsIn (search_levels around depth [] starts) n ↔ Within linked depth starts n
  unfolding contains
  search_levels_lem depth starts n = (
    λ h. elim (search_levels_sound depth [] starts n h) [ inl no_r ↦ cc | inr w ↦ w ],
    λ (s, k, f, le, w).
        search_levels_complete k depth [] starts s n (λ s t r e. absurd (cc r)) le (inr f) w,
  )
