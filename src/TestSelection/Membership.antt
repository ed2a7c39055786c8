-- ===== src/TestSelection/Membership.antt =====
-- Which tests the loops of `AdvancedTestSelector.select` select.
use development_brain.Prelude.{
  ◌≡◌, refl, ◌∙◌, ℕ, ◌+◌, Bool, ◌&&◌, ◌||◌, Option, none, some, List, [], ◌∷◌, ◌++◌, map, keep, any,
  contains, ◌==◌, nat_eq, list_eq, if◌then◌else◌, arith, Option-cases, Bool-cases, inl, inr,
}
use development_brain.Prelude.Dict
use development_brain.Prelude.Dict.{Dict}
use development_brain.Prelude.Text.{Text, codes}
use development_brain.TestSelection.{
  AdvancedTestSelection, RuntimeObservation, TargetedTest, Selected, is_test_relation, or_empty,
  tests_by_symbol, test_paths, path_of, fresh_test, with_reason, select_called, select_changed,
  covers_any, exercised, select_covered, select_history, called_tests, covered_tests, select,
}
use development_brain.CodeGraph.{Symbol, CodeRelation}
use development_brain.TestSelection.Extension.{
  same, has, IsNamed, get-IsNamed, names, values-has, by_score-contains, Extends, insert-Extends,
  Extends-trans, present-Extends,
}

module _ (paths : Dict Text Text) where
  select_called-Extends :
      (changed : Text) (ts : List Text) (d : Selected) (n : ℕ)
      → IsNamed d
      → Extends d (λ t. contains ts t) (select_called paths changed ts (d, n)).0
  unfolding select_called contains fresh_test with_reason
  select_called-Extends changed [] d n h = (h, λ t. refl)
  select_called-Extends changed (u ∷ us) d n h =
      let reason = codes "tests " ++ (changed ++ codes " via call graph") in
      elim (Option-cases (Dict.get d u)) [
        | inl p ↦
            let v = with_reason reason 5 (fresh_test paths u) in
            let d' = insert-Extends d u v h refl in
            rw (select_called, p)
              (Extends-trans (λ t. t == u) (λ t. contains us t) d (Dict.insert d u v) _ d'
                (select_called-Extends changed us (Dict.insert d u v) (n + 1) d'.0))
        | inr (w, p) ↦
            let v = with_reason reason 5 w in
            let d' = insert-Extends d u v h (get-IsNamed d u w h p) in
            rw (select_called, p)
              (Extends-trans (λ t. t == u) (λ t. contains us t) d (Dict.insert d u v) _ d'
                (select_called-Extends changed us (Dict.insert d u v) n d'.0))
      ]

  exercised-name : (t : TargetedTest) → (exercised t).0.test_name ≡ t.test_name
  unfolding exercised with_reason
  exercised-name t = ground arith

  covered-name :
      (d : Selected) (u : Text)
      → IsNamed d
      → (elim (Dict.get d u) as (λ _. TargetedTest) [
        | none ↦ fresh_test paths u
        | some t ↦ t
      ]).test_name
        ≡ u
  unfolding fresh_test
  covered-name d u h = elim (Option-cases (Dict.get d u)) [
    | inl p ↦ rw p refl
    | inr (w, p) ↦ rw p (get-IsNamed d u w h p)
  ]

  select_covered-Extends :
      (ts : List Text) (d : Selected) (n : ℕ)
      → IsNamed d
      → Extends d (λ t. contains ts t) (select_covered paths ts (d, n)).0
  unfolding select_covered contains
  select_covered-Extends [] d n h = (h, λ t. refl)
  select_covered-Extends (u ∷ us) d n h =
      let t : TargetedTest = elim (Dict.get d u) [ none ↦ fresh_test paths u | some t ↦ t ] in
      let v = exercised t in
      let d' = insert-Extends d u v.0 h (exercised-name t ∙ covered-name d u h) in
      Extends-trans (λ t. t == u) (λ t. contains us t) d (Dict.insert d u v.0) _ d'
        (select_covered-Extends us (Dict.insert d u v.0) (if v.1 then n + 1 else n) d'.0)

  select_history-Extends :
      (ts : List Text) (d : Selected) (n : ℕ)
      → IsNamed d
      → Extends d (λ t. contains ts t) (select_history paths ts (d, n)).0
  unfolding select_history contains
  select_history-Extends [] d n h = (h, λ t. refl)
  select_history-Extends (u ∷ us) d n h = elim (Option-cases (Dict.get d u)) [
    | inl p ↦
        let v : TargetedTest = record {
          test_name = u;
          path = path_of paths u;
          reasons = codes "historical failure" ∷ [];
          score = 3;
        } in
        let d' = insert-Extends d u v h refl in
        rw (select_history, p)
          (Extends-trans (λ t. t == u) (λ t. contains us t) d (Dict.insert d u v) _ d'
            (select_history-Extends us (Dict.insert d u v) (n + 1) d'.0))
    | inr (w, p) ↦
        rw (select_history, p)
          (Extends-trans (λ t. t == u) (λ t. contains us t) d d _ (present-Extends d u w h p)
            (select_history-Extends us d n h))
  ]

  -- A test of some changed symbol in the index.
  unfoldable indexed : Dict Text (List Text) → List Text → Text → Bool
  indexed index changed t = any (λ c. contains (or_empty (Dict.get index c)) t) changed

  select_changed-Extends :
      (index : Dict Text (List Text)) (changed : List Text) (d : Selected) (n : ℕ)
      → IsNamed d
      → Extends d (indexed index changed) (select_changed paths index changed (d, n)).0
  unfolding select_changed indexed any
  select_changed-Extends index [] d n h = (h, λ t. refl)
  select_changed-Extends index (c ∷ cs) d n h =
      let ts = or_empty (Dict.get index c) in
      let st = select_called paths c ts (d, n) in
      let d' = select_called-Extends c ts d n h in
      Extends-trans (λ t. contains ts t) (indexed index cs) d st.0 _ d'
        (select_changed-Extends index cs st.0 st.1 d'.0)

-- A relation says that the test `t` tests the symbol `c`.
unfoldable pub tests_symbol : List CodeRelation → Text → Text → Bool
tests_symbol relations c t =
    any
      (λ r.
        is_test_relation r
        && (r.target_identity.qualified_name == c && t == r.source_identity.qualified_name))
      relations

contains-snoc :
    (xs : List Text) (x t : Text) → contains (xs ++ (x ∷ [])) t ≡ (contains xs t || t == x)
unfolding contains
contains-snoc [] x t = ground arith
contains-snoc (y ∷ ys) x t = ground (arith, contains-snoc ys x t)

get-append_test :
    (d : Dict Text (List Text)) (k c x t : Text)
    → contains (or_empty (Dict.get (Dict.insert d k (or_empty (Dict.get d k) ++ (x ∷ []))) c)) t
      ≡ (contains (or_empty (Dict.get d c)) t || (k == c && t == x))
unfolding or_empty contains
get-append_test d k c x t =
    let xs = or_empty (Dict.get d k) in
    ground (arith, Dict.get-insert d k c (xs ++ (x ∷ [])), same k c, contains-snoc xs x t)

get-tests_by_symbol :
    (d : Dict Text (List Text)) (rs : List CodeRelation) (c t : Text)
    → contains (or_empty (Dict.get (tests_by_symbol d rs) c)) t
      ≡ (contains (or_empty (Dict.get d c)) t || tests_symbol rs c t)
unfolding tests_by_symbol tests_symbol any
get-tests_by_symbol d [] c t = ground arith
get-tests_by_symbol d (r ∷ rs) c t =
    let k = r.target_identity.qualified_name in
    let d' = Dict.insert d k (or_empty (Dict.get d k) ++ (r.source_identity.qualified_name ∷ [])) in
    let here = get-append_test d k c r.source_identity.qualified_name t in
    let there = get-tests_by_symbol d' rs c t in
    let same_index = get-tests_by_symbol d rs c t in
    elim (Bool-cases (is_test_relation r)) [
      | inl p ↦ rw p (there ∙ ground (arith, here))
      | inr p ↦ rw p same_index
    ]

any-cong :
    {A : Type 0} (p q : A → Bool) → ((a : A) → p a ≡ q a) → (xs : List A) → any p xs ≡ any q xs
unfolding any
any-cong p q h [] = refl
any-cong p q h (x ∷ xs) = ground (arith, h x, any-cong p q h xs)

contains-sources :
    (p : RuntimeObservation → Bool) (os : List RuntimeObservation) (t : Text)
    → contains (map (λ o. o.source) (keep p os)) t ≡ any (λ o. p o && t == o.source) os
unfolding contains keep any
contains-sources p [] t = refl
contains-sources p (o ∷ os) t = ground (arith, contains-sources p os t)

-- The names of the tests in a selection.
unfoldable pub selected_names : AdvancedTestSelection → List Text
unfolding names
selected_names s = names s.selected_tests

-- For every order in which sets are traversed, a test is selected exactly when a relation says that
-- it tests a changed symbol, or it ran a changed symbol in an observation of coverage, or it is in
-- the history.
pub select-members :
    (each : List Text → List Text)
    → ((xs : List Text) (t : Text) → contains (each xs) t ≡ contains xs t)
    → (symbols : List Symbol) (relations : List CodeRelation)
      (observations : List RuntimeObservation) (changed : List Text) (history : Option (List Text))
      (t : Text)
    → contains (selected_names (select each symbols relations observations changed history)) t ≡ (
        any (λ c. tests_symbol relations c t) changed
        || (any (λ o. covers_any changed o && t == o.source) observations
            || contains (or_empty history) t))
unfolding selected_names select called_tests covered_tests indexed has tests_symbol contains any
    Dict.get
select-members each h symbols relations observations changed history t =
    let paths = test_paths [] symbols in
    let index = tests_by_symbol [] relations in
    let st1 = select_changed paths index changed ([], 0) in
    let covered = each (map (λ o. o.source) (keep (covers_any changed) observations)) in
    let st2 = select_covered paths covered (st1.0, 0) in
    let past = each (or_empty history) in
    let st3 = select_history paths past (st2.0, 0) in
    let one = select_changed-Extends paths index changed [] 0 tt in
    let two = select_covered-Extends paths covered st1.0 0 one.0 in
    let three = select_history-Extends paths past st2.0 0 two.0 in
    let by_one = one.1 t in
    let by_two = two.1 t in
    let by_three = three.1 t in
    let from_index =
      any-cong (λ c. contains (or_empty (Dict.get index c)) t) (λ c. tests_symbol relations c t)
        (λ c. get-tests_by_symbol [] relations c t) changed in
    let from_runtime =
      h (map (λ o. o.source) (keep (covers_any changed) observations)) t
      ∙ contains-sources (covers_any changed) observations t in
    let from_history = h (or_empty history) t in
    by_score-contains (Dict.values st3.0) t
    ∙ (values-has st3.0 t three.0 ∙ ground (arith, from_index, from_runtime, from_history))
