-- ===== src/Planning/Coverage.antt =====
-- What a plan that the service builds contains, and when it is validated.
use development_brain.Prelude.{
  ℕ, ◌+◌, ◌≡◌, refl, ◌∙◌, ap, Bool, true, false, not, ◌&&◌, Option, none, some, List, [], ◌∷◌, ◌++◌,
  keep, contains, distinct, ◌==◌, nat_eq, list_eq, beq_refl, arith, Bool-cases, inl, inr,
}
use development_brain.Prelude.Text.{Text}
use development_brain.Planning.{
  Requirement, PlanItem, PlanItemType, Plans, AmbiguityAssessment, is_nil, list_if,
}
use development_brain.Planning.Service.{
  CodeGraph, is_wanted, assess, assess_one, decompose, item_for, analyze_one, analyze_existing,
  analyzed, status_from, is_done, reconcile, covered, required, uncovered, ids_of, item_errors,
  titles, count_titles, repeated, validate, build_plan,
}
use development_brain.Planning.Duplicates.{is_nil-append, repeated-count_titles}

never_done : (t : PlanItemType) (a b : Bool) → is_done t (status_from a b) ≡ false
unfolding is_done status_from
never_done PlanItemType.task true true = refl
never_done PlanItemType.task true false = refl
never_done PlanItemType.task false true = refl
never_done PlanItemType.task false false = refl
never_done PlanItemType.feature a b = refl
never_done PlanItemType.story a b = refl

analyze_one-kept :
    (graph : CodeGraph) (i : PlanItem)
    → is_done (analyze_one graph i).item_type (analyze_one graph i).implementation_status ≡ false
unfolding analyze_one
analyze_one-kept graph i = never_done i.item_type _ _

reconcile-analyze_existing :
    (graph : CodeGraph) (items : List PlanItem)
    → reconcile (analyze_existing graph items) ≡ analyze_existing graph items
unfolding reconcile keep analyze_existing
reconcile-analyze_existing graph [] = refl
reconcile-analyze_existing graph (i ∷ is) =
    rw (analyze_one-kept graph i)
      (ap (λ js. analyze_one graph i ∷ js) (reconcile-analyze_existing graph is))

reconcile-decompose :
    (uuid : ℕ → ℕ) (p n : ℕ) (w : Option (List ℕ)) (rs : List Requirement)
    → reconcile (decompose uuid p w n rs) ≡ decompose uuid p w n rs
unfolding reconcile keep decompose item_for is_done
reconcile-decompose uuid p n w [] = refl
reconcile-decompose uuid p n w (r ∷ rs) =
    ground (arith, reconcile-decompose uuid p n w rs, reconcile-decompose uuid p (n + 3) w rs)

-- Nothing is dropped: no item that the service makes is ever taken to be implemented.
pub reconcile-analyzed :
    (graph : Option CodeGraph) (uuid : ℕ → ℕ) (p n : ℕ) (w : Option (List ℕ))
    (rs : List Requirement)
    → reconcile (analyzed graph (decompose uuid p w n rs))
      ≡ analyzed graph (decompose uuid p w n rs)
reconcile-analyzed none uuid p n w rs = reconcile-decompose uuid p n w rs
reconcile-analyzed (some graph) uuid p n w rs =
    reconcile-analyze_existing graph (decompose uuid p w n rs)

-- Every item has acceptance criteria.
unfoldable pub all_criteria : List PlanItem → Bool
all_criteria [] = true
all_criteria (i ∷ is) = not (is_nil i.acceptance_criteria) && all_criteria is

-- Every requirement has acceptance criteria.
unfoldable pub criteria_given : List Requirement → Bool
criteria_given [] = true
criteria_given (r ∷ rs) = not (is_nil r.acceptance_criteria) && criteria_given rs

-- No item depends on another.
no_dependencies : List PlanItem → Bool
no_dependencies [] = true
no_dependencies (i ∷ is) = is_nil i.dependency_ids && no_dependencies is

analyzed-same :
    (graph : Option CodeGraph) (items : List PlanItem)
    → (covered (analyzed graph items) ≡ covered items)
      × (all_criteria (analyzed graph items) ≡ all_criteria items)
      × (no_dependencies (analyzed graph items) ≡ no_dependencies items)
      × (titles (analyzed graph items) ≡ titles items)
unfolding analyze_existing analyze_one covered all_criteria no_dependencies titles
analyzed-same none items = (refl, refl, refl, refl)
analyzed-same (some graph) [] = (refl, refl, refl, refl)
analyzed-same (some graph) (i ∷ is) =
    let (c, a, d, t) = analyzed-same (some graph) is in
    (
      ap (λ xs. i.requirement_refs ++ xs) c,
      ap (λ b. not (is_nil i.acceptance_criteria) && b) a,
      ap (λ b. is_nil i.dependency_ids && b) d,
      ap (λ ts. i.title ∷ ts) t,
    )

ids_of_requirements : List Requirement → List ℕ
ids_of_requirements [] = []
ids_of_requirements (r ∷ rs) = r.id ∷ ids_of_requirements rs

required-assess :
    (find : Text → List Text) (rs : List Requirement)
    → required (assess find rs) ≡ ids_of_requirements rs
unfolding required assess assess_one ids_of_requirements
required-assess find [] = refl
required-assess find (r ∷ rs) = ap (λ ids. r.id ∷ ids) (required-assess find rs)

module _ (uuid : ℕ → ℕ) (p : ℕ) where
  decompose-all_criteria :
      (n : ℕ) (rs : List Requirement)
      → (all_criteria (decompose uuid p none n rs) ≡ criteria_given rs)
        × (no_dependencies (decompose uuid p none n rs) ≡ true)
  unfolding all_criteria criteria_given no_dependencies decompose item_for
  decompose-all_criteria n [] = (refl, refl)
  decompose-all_criteria n (r ∷ rs) = ground (arith, decompose-all_criteria (n + 3) rs)

  decompose-covered :
      (n : ℕ) (rs : List Requirement) (i : ℕ)
      → contains (covered (decompose uuid p none n rs)) i ≡ contains (ids_of_requirements rs) i
  unfolding covered decompose item_for contains ids_of_requirements
  decompose-covered n [] i = refl
  decompose-covered n (r ∷ rs) i = ground (arith, decompose-covered (n + 3) rs i)

-- What is looked up in a list that has it all is not missing.
keep-missing :
    (xs ys : List ℕ)
    → ((i : ℕ) → contains ys i ≡ true → contains xs i ≡ true)
    → (zs : List ℕ) → ((i : ℕ) → contains zs i ≡ true → contains ys i ≡ true)
    → is_nil (keep (λ r. not (contains xs r)) zs) ≡ true
unfolding keep contains
keep-missing xs ys h [] k = refl
keep-missing xs ys h (z ∷ zs) k =
    let here : contains xs z ≡ true = h z (k z (ground (arith, beq_refl z))) in
    ground (arith, here, keep-missing xs ys h zs (λ i m. k i (ground (arith, m))))

is_nil-list_if {ℓ} :
    {A : Type ℓ} (b : Bool) (a : A) (rest : List A)
    → is_nil (list_if b a ++ rest) ≡ (not b && is_nil rest)
is_nil-list_if true a rest = refl
is_nil-list_if false a rest = refl

no_dangling :
    (ids ds : List ℕ) → is_nil ds ≡ true → is_nil (keep (λ d. not (contains ids d)) ds) ≡ true
unfolding keep
no_dangling ids [] h = refl
no_dangling ids (d ∷ ds) h = cc

item_errors-criteria :
    (ids : List ℕ) (items : List PlanItem)
    → no_dependencies items ≡ true
    → is_nil (item_errors ids items) ≡ all_criteria items
unfolding item_errors no_dependencies all_criteria
item_errors-criteria ids [] h = refl
item_errors-criteria ids (i ∷ is) h =
    rw (is_nil-list_if, is_nil-list_if, no_dangling ids i.dependency_ids (ground (arith, h)))
      (ap (λ b. not (is_nil i.acceptance_criteria) && b)
        (item_errors-criteria ids is (ground (arith, h))))

uncovered-none :
    (find : Text → List Text) (uuid : ℕ → ℕ) (p : ℕ) (rs : List Requirement) (items : List PlanItem)
    → covered items ≡ covered (decompose uuid p none 0 rs)
    → is_nil (uncovered (assess find rs) items) ≡ true
unfolding uncovered
uncovered-none find uuid p rs items same =
    rw (required-assess find rs, same)
      (keep-missing (covered (decompose uuid p none 0 rs)) (ids_of_requirements rs)
        (λ i m. decompose-covered uuid p 0 rs i ∙ m) (ids_of_requirements rs) (λ i m. m))

validate_complete :
    (assessments : List AmbiguityAssessment) (items : List PlanItem)
    → is_nil (uncovered assessments items) ≡ true
    → no_dependencies items ≡ true
    → is_nil (validate assessments items) ≡ (all_criteria items && distinct (titles items))
unfolding validate
validate_complete assessments items c d =
    rw
      (
        is_nil-list_if,
        c,
        is_nil-append (item_errors (ids_of items) items)
            (repeated (count_titles (titles items) [])),
        item_errors-criteria (ids_of items) items d,
        repeated-count_titles (titles items),
      )
      refl

-- A plan that the service builds is validated exactly when every requirement of the project has
-- acceptance criteria and no two titles of its features, stories and tasks are equal; no requirement
-- is ever uncovered, and no dependency missing.
pub build_plan-validated :
    (find : Text → List Text) (uuid : ℕ → ℕ) (plan_id p : ℕ) (title : Text) (rs : List Requirement)
    (graph : Option CodeGraph) (persist : Bool) (plans : Plans)
    → let own = keep (λ r. r.project_id == p) rs in
      let plan = (build_plan find uuid plan_id p title rs graph persist plans).0 in
      is_nil plan.validation_errors
      ≡ (criteria_given own && distinct (titles (decompose uuid p none 0 own)))
unfolding build_plan
build_plan-validated find uuid plan_id p title rs graph persist plans =
    let own = keep (λ r. r.project_id == p) rs in
    let made = decompose uuid p none 0 own in
    let (c, a, d, t) = analyzed-same graph made in
    let (given, free) = decompose-all_criteria uuid p 0 own in
    rw (reconcile-analyzed graph uuid p 0 none own) (
      validate_complete (assess find own) (analyzed graph made)
        (uncovered-none find uuid p own (analyzed graph made) c) (d ∙ free)
      ∙ rw (a, given, t) refl)

abbrev pub is_known : List ℕ → Option ℕ → Bool
is_known ids none = true
is_known ids (some i) = contains ids i

-- The parent of every item stands before it.
unfoldable pub parents_first : List ℕ → List PlanItem → Bool
parents_first ids [] = true
parents_first ids (i ∷ is) = is_known ids i.parent_id && parents_first (i.id ∷ ids) is

-- The items are numbered from `n` on.
unfoldable pub numbered_from : ℕ → List PlanItem → Bool
numbered_from n [] = true
numbered_from n (i ∷ is) = i.sort_order == n && numbered_from (n + 1) is

-- The features, stories and tasks of any selection of requirements are numbered from 1 on without
-- a gap, and the parent of each stands before it.
pub decompose-IsOrdered :
    (uuid : ℕ → ℕ) (p : ℕ) (wanted : Option (List ℕ)) (ids : List ℕ) (n : ℕ) (rs : List Requirement)
    → (parents_first ids (decompose uuid p wanted n rs) ≡ true)
      × (numbered_from (n + 1) (decompose uuid p wanted n rs) ≡ true)
unfolding parents_first numbered_from decompose item_for contains
decompose-IsOrdered uuid p wanted ids n [] = (refl, refl)
decompose-IsOrdered uuid p wanted ids n (r ∷ rs) = elim (Bool-cases (is_wanted wanted r.id)) [
  | inr skipped ↦ rw skipped (decompose-IsOrdered uuid p wanted ids n rs)
  | inl taken ↦
      let above = uuid (n + 2) ∷ uuid (n + 1) ∷ uuid n ∷ ids in
      let (first, order) = decompose-IsOrdered uuid p wanted above (n + 3) rs in
      let same : n + 1 + 1 + 1 + 1 ≡ n + 3 + 1 = omega arith in
      rw taken
        (rw (beq_refl (uuid n), beq_refl (uuid (n + 1))) first, rw same (ground (arith, order)))
]
