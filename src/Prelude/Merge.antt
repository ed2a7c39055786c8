-- ===== src/Prelude/Merge.antt =====
-- Lists that take in the items of another one that have new keys, with the set of the keys that were
-- seen.
use development_brain.Prelude.{
  ◌≡◌, ◌∙◌, refl, sym, ap, Bool, true, false, ◌&&◌, List, [], ◌∷◌, ◌++◌, map, contains,
  contains-append, distinct, Eq, ◌==◌, beq_refl, append_assoc, append-nil, arith, All, Bool-cases,
  inl, inr, if◌then◌else◌, ◌↔◌,
}
use mathlib.Core.Path.{subst}

-- Two-part and three-part keys.
abbrev pub pair_beq {ℓ κ} : {A : Type ℓ} {B : Type κ} ⦃a : Eq A⦄ ⦃b : Eq B⦄ → A × B → A × B → Bool
pair_beq p q = p.0 == q.0 && p.1 == q.1

pub pair_beq_iff {ℓ κ} :
    {A : Type ℓ} {B : Type κ} ⦃a : Eq A⦄ ⦃b : Eq B⦄ (p q : A × B) → (pair_beq p q ≡ true) ↔ (p ≡ q)
pair_beq_iff ⦃a⦄ ⦃b⦄ p q = ground (arith, a.beq_iff p.0 q.0, b.beq_iff p.1 q.1)

instance abbrev pub pair_eq {ℓ κ} : {A : Type ℓ} {B : Type κ} ⦃a : Eq A⦄ ⦃b : Eq B⦄ → Eq (A × B)
pair_eq = record { beq = pair_beq; beq_iff = pair_beq_iff }

-- Each item of which the key was not seen goes to the end.
module _ {A K : Type 0} ⦃e : Eq K⦄ (key_of : A → K) where
  unfoldable pub merge_loop : List K → List A → List A → List A
  merge_loop seen existing [] = existing
  merge_loop seen existing (item ∷ incoming) =
      let kept = merge_loop seen existing incoming in
      let added = merge_loop (seen ++ (key_of item ∷ [])) (existing ++ (item ∷ [])) incoming in
      if contains seen (key_of item) then kept else added

  unfoldable pub merge_by : (existing incoming : List A) → List A
  merge_by existing incoming = merge_loop (map key_of existing) existing incoming

module _ {A K : Type 0} ⦃e : Eq K⦄ (key_of : A → K) where
  distinct-snoc :
      (ks : List K) (k : K)
      → distinct ks ≡ true
      → contains ks k ≡ false
      → distinct (ks ++ (k ∷ [])) ≡ true
  unfolding distinct contains
  distinct-snoc [] k d n = refl
  distinct-snoc (i ∷ ks) k d n =
      ground
        (arith, distinct-snoc ks k, contains-append ks (k ∷ []) i, e.beq_iff i k, e.beq_iff k i)

  contains-last : (ks : List K) (k : K) → contains (ks ++ (k ∷ [])) k ≡ true
  unfolding contains
  contains-last ks k = rw (contains-append ks (k ∷ []) k) (ground (arith, beq_refl k))

  pub keys-last : (ks js : List K) (k : K) → contains ks k ≡ true → contains (ks ++ js) k ≡ true
  keys-last ks js k h = rw (contains-append ks js k, h) refl

  -- The new candidates of which the keys are not there yet, in order.
  unfoldable pub unseen : List K → List A → List A
  unseen seen [] = []
  unseen seen (item ∷ items) =
      let kept = unseen seen items in
      let added = item ∷ unseen (seen ++ (key_of item ∷ [])) items in
      if contains seen (key_of item) then kept else added

  merge_loop-eq :
      (seen : List K) (existing incoming : List A)
      → merge_loop key_of seen existing incoming ≡ existing ++ unseen seen incoming
  unfolding merge_loop unseen
  merge_loop-eq seen existing [] = rw append-nil refl
  merge_loop-eq seen existing (item ∷ items) = elim (Bool-cases (contains seen (key_of item))) [
    | inl h ↦ rw h (merge_loop-eq seen existing items)
    | inr h ↦ rw h (
        merge_loop-eq (seen ++ (key_of item ∷ [])) (existing ++ (item ∷ [])) items
        ∙ append_assoc existing (item ∷ []) _)
  ]

  -- The keys of both, each new one once.
  unfoldable pub keys_after : List K → List A → List K
  keys_after seen items = seen ++ map key_of (unseen seen items)

  keys_after-seen :
      (seen : List K) (item : A) (items : List A)
      → contains seen (key_of item) ≡ true
      → keys_after seen (item ∷ items) ≡ keys_after seen items
  unfolding keys_after unseen
  keys_after-seen seen item items h = rw h refl

  keys_after-new :
      (seen : List K) (item : A) (items : List A)
      → contains seen (key_of item) ≡ false
      → keys_after seen (item ∷ items) ≡ keys_after (seen ++ (key_of item ∷ [])) items
  unfolding keys_after unseen
  keys_after-new seen item items h = rw h (sym (append_assoc seen (key_of item ∷ []) _))

  keys_after-nil : (seen : List K) → keys_after seen [] ≡ seen
  unfolding keys_after unseen
  keys_after-nil seen = append-nil seen

  keys_after-distinct :
      (seen : List K) (items : List A)
      → distinct seen ≡ true
      → distinct (keys_after seen items) ≡ true
  keys_after-distinct seen [] d = rw (keys_after-nil seen) d
  keys_after-distinct seen (item ∷ items) d = elim (Bool-cases (contains seen (key_of item))) [
    | inl h ↦ rw (keys_after-seen seen item items h) (keys_after-distinct seen items d)
    | inr h ↦ rw (keys_after-new seen item items h) (
        keys_after-distinct (seen ++ (key_of item ∷ [])) items
          (distinct-snoc seen (key_of item) d h))
  ]

  keys_after-contains :
      (seen : List K) (items : List A) (k : K)
      → contains seen k ≡ true
      → contains (keys_after seen items) k ≡ true
  unfolding keys_after
  keys_after-contains seen items k h = rw (contains-append seen _ k, h) refl

  abbrev pub Covers : List A → List K → Type 0
  Covers items ks = All (λ a. contains ks (key_of a) ≡ true) items

  -- Every key that was to be merged is there.
  keys_after-All : (seen : List K) (items : List A) → Covers items (keys_after seen items)
  keys_after-All seen [] = tt
  keys_after-All seen (item ∷ items) = elim (Bool-cases (contains seen (key_of item))) [
    | inl h ↦
        subst (Covers (item ∷ items)) (sym (keys_after-seen seen item items h))
          (keys_after-contains seen items (key_of item) h, keys_after-All seen items)
    | inr h ↦
        let seen' : List K = seen ++ (key_of item ∷ []) in
        let here : contains seen' (key_of item) ≡ true = contains-last seen (key_of item) in
        subst (Covers (item ∷ items)) (sym (keys_after-new seen item items h))
          (keys_after-contains seen' items (key_of item) here, keys_after-All seen' items)
  ]

  pub unseen-none :
      (seen : List K) (items : List A)
      → All (λ a. contains seen (key_of a) ≡ true) items
      → unseen seen items ≡ []
  unfolding unseen
  unseen-none seen [] h = refl
  unseen-none seen (item ∷ items) h = rw h.0 (unseen-none seen items h.1)

  pub map_append : (xs ys : List A) → map key_of (xs ++ ys) ≡ map key_of xs ++ map key_of ys
  map_append [] ys = refl
  map_append (x ∷ xs) ys = ap (λ zs. key_of x ∷ zs) (map_append xs ys)

  keys-merge_by :
      (existing incoming : List A)
      → map key_of (merge_by key_of existing incoming) ≡ keys_after (map key_of existing) incoming
  unfolding merge_by keys_after
  keys-merge_by ex inc = rw (merge_loop-eq (map key_of ex) ex inc) (map_append ex _)

  pub by_loop : (xs ys : List A) → merge_by key_of xs ys ≡ xs ++ unseen (map key_of xs) ys
  unfolding merge_by
  by_loop xs ys = merge_loop-eq (map key_of xs) xs ys

  -- Merged twice is merged once; the candidates that were there stay, in front; identities stay unique.
  pub merge_by-merge_by :
      (existing incoming : List A)
      → (merge_by key_of (merge_by key_of existing incoming) incoming
          ≡ merge_by key_of existing incoming)
        × ((merge_by key_of existing incoming ≡ existing ++ unseen (map key_of existing) incoming)
            × (distinct (map key_of existing) ≡ true
                → distinct (map key_of (merge_by key_of existing incoming)) ≡ true))
  merge_by-merge_by ex inc =
      let once = keys-merge_by ex inc in
      let merged = merge_by key_of ex inc in
      let all : Covers inc (map key_of merged) =
        subst (Covers inc) (sym once) (keys_after-All (map key_of ex) inc) in
      (
        by_loop merged inc ∙ (rw (unseen-none (map key_of merged) inc all) (append-nil merged)),
        (by_loop ex inc, λ d. rw once (keys_after-distinct (map key_of ex) inc d)),
      )

module _ {A K : Type 0} ⦃e : Eq K⦄ (key_of : A → K) where
  -- Items of which the keys are there change nothing.
  pub merge_by-covered :
      (existing incoming : List A)
      → Covers key_of incoming (map key_of existing)
      → merge_by key_of existing incoming ≡ existing
  merge_by-covered ex inc c =
      by_loop key_of ex inc
      ∙ (ap (λ xs. ex ++ xs) (unseen-none key_of (map key_of ex) inc c) ∙ append-nil ex)

  append-Covers : (ks : List K) (xs : List A) → Covers key_of xs (ks ++ map key_of xs)
  append-Covers ks [] = tt
  append-Covers ks (x ∷ xs) =
      subst (Covers key_of (x ∷ xs)) (append_assoc ks (key_of x ∷ []) (map key_of xs)) (
        keys-last key_of (ks ++ (key_of x ∷ [])) (map key_of xs) (key_of x)
            (contains-last key_of ks (key_of x)),
        append-Covers (ks ++ (key_of x ∷ [])) xs,
      )

  -- What was taken in is there, and what was to be taken in is there.
  pub merged-Covers :
      (existing incoming : List A)
      → Covers key_of
          (unseen key_of (map key_of existing) incoming)
          (map key_of (existing ++ unseen key_of (map key_of existing) incoming))
        × Covers key_of incoming
            (map key_of (existing ++ unseen key_of (map key_of existing) incoming))
  unfolding keys_after
  merged-Covers ex inc =
      let new = unseen key_of (map key_of ex) inc in
      let keys = sym (map_append key_of ex new) in
      (
        subst (Covers key_of new) keys (append-Covers (map key_of ex) new),
        subst (Covers key_of inc) keys (keys_after-All key_of (map key_of ex) inc),
      )

  pub merge_by-nil : (existing : List A) → merge_by key_of existing [] ≡ existing
  unfolding merge_by merge_loop
  merge_by-nil ex = refl

  pub merge_by-seen :
      (existing : List A) (item : A) (items : List A)
      → contains (map key_of existing) (key_of item) ≡ true
      → merge_by key_of existing (item ∷ items) ≡ merge_by key_of existing items
  unfolding merge_by merge_loop
  merge_by-seen ex item items h = rw h refl

  pub merge_by-new :
      (existing : List A) (item : A) (items : List A)
      → contains (map key_of existing) (key_of item) ≡ false
      → merge_by key_of existing (item ∷ items) ≡ merge_by key_of (existing ++ (item ∷ [])) items
  unfolding merge_by merge_loop
  merge_by-new ex item items h = rw (h, map_append key_of ex (item ∷ [])) refl
