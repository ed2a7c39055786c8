-- ===== src/PullRequests/Gate.antt =====
-- When a pull request is opened.
use development_brain.Prelude.{
  ℕ, String, ◌≡◌, refl, Bool, true, false, ◌&&◌, Option, none, some, List, [], ◌∷◌, arith,
  Option-cases, inl, inr, ◌⊎◌,
}
use development_brain.Errors.{ok}
use development_brain.Domain.{WorkItem}
use development_brain.Observations.{Journal}
use development_brain.Repositories.{get_item, repositories_of_project}
use development_brain.PullRequests.{
  Container, PullRequestServiceResult, verification_passed, policy_permits, reasons_against,
  create_pull_request, refused,
}

abbrev is_some {ℓ} : {A : Type ℓ} → Option A → Bool
is_some none = false
is_some (some a) = true

abbrev non_empty {ℓ} : {A : Type ℓ} → List A → Bool
non_empty [] = false
non_empty (a ∷ rest) = true

abbrev holds_of {ℓ} : {A : Type ℓ} → (A → Bool) → Option A → Bool
holds_of p none = false
holds_of p (some a) = p a

-- All that is needed: a provider, the execution with a verification that passed, and a work item that
-- the policy lets through and whose project has a repository.
unfoldable pub ready : {W : Type 0} → Container W → (execution_id work_item_id : ℕ) → Bool
ready container e w =
    is_some container.pull_requests
    && (is_some (get_item e container.executions)
        && (verification_passed container e
            && holds_of
                (λ item.
                  policy_permits container item
                  && non_empty (repositories_of_project item.project_id container.repositories))
                (get_item w container.work_items)))

List-cases {ℓ} : {A : Type ℓ} (xs : List A) → (xs ≡ []) ⊎ ((y : A) × (ys : List A) × (xs ≡ y ∷ ys))
List-cases [] = inl refl
List-cases (x ∷ xs) = inr (x, xs, refl)

-- There is no reason against it exactly when verification passed and the policy permits.
reasons_against-none :
    {W : Type 0} (container : Container W) (i : ℕ) (w : WorkItem)
    → reasons_against container i w ≡ []
    → (verification_passed container i && policy_permits container w) ≡ true
unfolding reasons_against
reasons_against-none container i w h = ground (arith, h)

module _ {W : Type 0} (show_id : ℕ → String) (id now : ℕ) (container : Container W) where
  -- Unless all that is needed is there, no pull request is created: the provider is not asked, no
  -- event and no observation goes out, and the journal and the world stay as they are.
  pub create_pull_request-refused :
      (e w : ℕ) (j : Journal W)
      → ready container e w ≡ false
      → (r : PullRequestServiceResult) × ((create_pull_request show_id id now container e w j
            ≡ (ok r, j))
          × (r.created ≡ false))
  unfolding create_pull_request ready
  create_pull_request-refused e w j h = elim (Option-cases container.pull_requests) [
    | inl n ↦ (
      refused ("no pull request provider configured" ∷ []),
      (rw (create_pull_request, n) refl, refl),
    )
    | inr (port, p) ↦ elim (Option-cases (get_item e container.executions)) [
      | inl n ↦ (refused ("execution not found" ∷ []), (rw (create_pull_request, p, n) refl, refl))
      | inr (x, q) ↦ elim (Option-cases (get_item w container.work_items)) [
        | inl n ↦
            (refused ("work item not found" ∷ []), (rw (create_pull_request, p, q, n) refl, refl))
        | inr (item, i) ↦ elim (List-cases (reasons_against container e item)) [
          | inr (s, rest, k) ↦
              (refused (s ∷ rest), (rw (create_pull_request, p, q, i, k) refl, refl))
          | inl clear ↦
              elim (List-cases (repositories_of_project item.project_id container.repositories)) [
                | inl n ↦ (
                  refused ("no repository for the work item" ∷ []),
                  (rw (create_pull_request, p, q, i, clear, n) refl, refl),
                )
                | inr (repository, rest, k) ↦
                    let good = reasons_against-none container e item clear in
                    absurd (ground (arith, rw (ready, p, q, i, k) at h, good))
              ]
        ]
      ]
    ]
  ]
