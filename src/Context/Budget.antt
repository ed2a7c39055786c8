-- ===== src/Context/Budget.antt =====
-- What `_build_capsule` keeps of the budgets.
use development_brain.Prelude.{
  ℕ, ◌+◌, ◌≤◌, ◌≡◌, refl, sym, ◌∙◌, append-nil, append_assoc, Bool, false, List, [], ◌∷◌, ◌++◌, All,
  ltb, arith, Bool-cases, inl, inr,
}
use development_brain.Prelude.Text.{Text}
use development_brain.Context.{
  insert_ranked, ranks_below, category_eq, ContextCandidate, ContextRequest, Capsules, Filling,
  is_exhausted, take_in, fill, build_capsule, allocate, default_weights, rank, build_from,
}
use development_brain.Context.Allocation.{
  tokens, tokens-snoc, AreDistinct, IsAccounted, charge-Accounted, charge-AreDistinct,
  allocate_from-AreDistinct, default_weights-once,
}

-- The second list is the first with some candidates left out, each with its estimate filled in.
pub data Picks (estimate : Text → ℕ) : List ContextCandidate → List ContextCandidate → Type 0 where
  end : (cs : List ContextCandidate) → Picks estimate cs []
  skip :
      (c : ContextCandidate) (cs ds : List ContextCandidate)
      → Picks estimate cs ds
      → Picks estimate (c ∷ cs) ds
  take :
      (c : ContextCandidate) (cs ds : List ContextCandidate)
      → Picks estimate cs ds
      → Picks estimate (c ∷ cs) (record c { token_estimate = estimate c.content } ∷ ds)

module _ (estimate : Text → ℕ) (budget m : ℕ) where
  -- The total is that of the candidates, and no budget is exceeded, but those of the categories by
  -- `m` at most.
  pub record IsFilled (s : Filling) : Type 0 where
    pub counted : s.total ≡ tokens s.included
    pub bounded : s.total ≤ budget
    pub distinct : AreDistinct s.allocations
    pub accounted : All (IsAccounted m s.included) s.allocations

  take_in-IsFilled :
      (c : ContextCandidate) (s : Filling)
      → estimate c.content ≤ m
      → is_exhausted c.category s.allocations ≡ false
      → ltb budget (s.total + estimate c.content) ≡ false
      → IsFilled s
      → IsFilled (take_in estimate budget c s)
  unfolding take_in
  take_in-IsFilled c s le room fits f =
      let c' : ContextCandidate = record c { token_estimate = estimate c.content } in
      record {
        counted = omega (arith, f.counted, tokens-snoc s.included c');
        bounded = ground arith;
        distinct = charge-AreDistinct c.category (estimate c.content) s.allocations f.distinct;
        accounted = charge-Accounted m s.included c' s.allocations le f.distinct room f.accounted;
      }

  fill-IsFilled :
      (cs : List ContextCandidate) (s : Filling)
      → All (λ c. estimate c.content ≤ m) cs
      → IsFilled s
      → IsFilled (fill estimate budget cs s)
        × ((ds : List ContextCandidate) × Picks estimate cs ds
            × ((fill estimate budget cs s).included ≡ s.included ++ ds))
  unfolding fill take_in
  fill-IsFilled [] s h f = (f, ([], end [], sym (append-nil s.included)))
  fill-IsFilled (c ∷ cs) s (h, hs) f = elim (Bool-cases (is_exhausted c.category s.allocations)) [
    | inl gone ↦
        let (f', (ds, p, e)) = fill-IsFilled cs s hs f in
        rw (fill, gone) (f', (ds, skip c cs ds p, e))
    | inr room ↦ elim (Bool-cases (ltb budget (s.total + estimate c.content))) [
      | inl over ↦ rw (fill, room, over) (f, ([], end (c ∷ cs), sym (append-nil s.included)))
      | inr fits ↦
          let s' = take_in estimate budget c s in
          let (f', (ds, p, e)) = fill-IsFilled cs s' hs (take_in-IsFilled c s h room fits f) in
          rw (fill, room, fits)
            (
              f',
              (
                _,
                take c cs ds p,
                e
                    ∙ append_assoc s.included
                        (record c { token_estimate = estimate c.content } ∷ []) ds,
              ),
            )
    ]
  ]

module _ (P : ContextCandidate → Type 0) where
  insert_ranked-All :
      (c : ContextCandidate) (cs : List ContextCandidate)
      → P c
      → All P cs
      → All P (insert_ranked c cs)
  unfolding insert_ranked
  insert_ranked-All c [] h hs = (h, tt)
  insert_ranked-All c (d ∷ ds) h (k, ks) = elim (Bool-cases (ranks_below d c)) [
    | inl y ↦ rw (insert_ranked, y) (h, (k, ks))
    | inr n ↦ rw (insert_ranked, n) (k, insert_ranked-All c ds h ks)
  ]

  rank-All : (cs : List ContextCandidate) → All P cs → All P (rank cs)
  unfolding rank
  rank-All [] h = tt
  rank-All (c ∷ cs) (h, hs) = insert_ranked-All c (rank cs) h (rank-All cs hs)

-- When no candidate is estimated at more than `m` tokens, the candidates of a capsule that is built
-- are those of the ranking, in its order, some left out, with their estimates filled in; the total
-- is the sum of these estimates and at most the budget of the model; and each category has used what
-- its candidates were estimated at, which is at most its allocation and `m` tokens more.
pub build_from-bounded :
    (estimate : Text → ℕ) (id : ℕ) (request : ContextRequest) (persist : Bool)
    (candidates : List ContextCandidate) (capsules : Capsules) (m : ℕ)
    → All (λ c. estimate c.content ≤ m) candidates
    → let capsule = (build_from estimate id request persist candidates capsules).0.capsule in
      Picks estimate (rank candidates) capsule.candidates
      × (capsule.total_tokens ≡ tokens capsule.candidates)
      × (capsule.total_tokens ≤ request.max_total_tokens)
      × All (IsAccounted m capsule.candidates) capsule.allocations
unfolding build_from build_capsule allocate tokens
build_from-bounded estimate id request persist candidates capsules m h =
    let ranked = rank candidates in
    let (d, a) =
      allocate_from-AreDistinct request.preferred_token_budget ranked m default_weights
        default_weights-once in
    let start : Filling = record {
      included = [];
      total = 0;
      allocations = allocate request.preferred_token_budget ranked;
    } in
    let empty : IsFilled estimate request.max_total_tokens m start = record {
      counted = refl;
      bounded = omega arith;
      distinct = d;
      accounted = a;
    } in
    let (f, (ds, p, e)) =
      fill-IsFilled estimate request.max_total_tokens m ranked start
        (rank-All (λ c. estimate c.content ≤ m) candidates h) empty in
    (rw e p, f.counted, f.bounded, f.accounted)
