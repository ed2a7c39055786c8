-- ===== src/Topology/Strongest.antt =====
-- The order on claims, and the strongest of the claims about an entity.
use development_brain.Prelude.{
  ◌≡◌,
  ◌∙◌,
  refl,
  sym,
  ap,
  Bool,
  true,
  false,
  not,
  Option,
  none,
  some,
  List,
  [],
  ◌∷◌,
  keep,
  any,
  ◌==◌,
  string_eq,
  arith,
  Bool-cases,
  inl,
  inr,
  if◌then◌else◌,
  Dict.{},
}
use development_brain.Prelude.Merge.{pair_eq}
use development_brain.Topology.{TopologyClaim, ClaimKey, kind_eq, claim_key, beats}

-- The first item that passes.
unfoldable pub first_of {ℓ} : {A : Type ℓ} → (A → Bool) → List A → Option A
first_of p [] = none
first_of p (x ∷ xs) = let later = first_of p xs in if p x then some x else later

unfoldable pub unbeaten : List TopologyClaim → TopologyClaim → Bool
unbeaten claims c = not (any (λ d. beats d c) claims)

-- Of the claims about an entity, the first that no claim about it beats.
unfoldable pub strongest : ClaimKey → List TopologyClaim → Option TopologyClaim
strongest key claims =
    let about = keep (λ c. claim_key c == key) claims in first_of (unbeaten about) about

beats_trans : (a b c : TopologyClaim) → beats a b ≡ true → beats b c ≡ true → beats a c ≡ true
unfolding beats
beats_trans a b c h k = ground arith

-- What a claim beats that does not beat the current one, the current one beats too.
beats_weaker : (a b c : TopologyClaim) → beats a b ≡ false → beats a c ≡ true → beats b c ≡ true
unfolding beats
beats_weaker a b c h k = ground arith

module _ {ℓ} {A : Type ℓ} where
  first_of-ext :
      (p q : A → Bool) → ((a : A) → p a ≡ q a) → (xs : List A) → first_of p xs ≡ first_of q xs
  unfolding first_of
  first_of-ext p q h [] = refl
  first_of-ext p q h (x ∷ xs) = rw (h x, first_of-ext p q h xs) refl

  any_mono :
      (p q : A → Bool)
      → ((a : A) → p a ≡ true → q a ≡ true)
      → (xs : List A) → any p xs ≡ true
      → any q xs ≡ true
  unfolding any
  any_mono p q h [] k = k
  any_mono p q h (x ∷ xs) k = ground (arith, h x, any_mono p q h xs)

-- The loop on the claims about one entity.
unfoldable pub fold : TopologyClaim → List TopologyClaim → TopologyClaim
fold current [] = current
fold current (c ∷ cs) =
    let taken = fold c cs in let left = fold current cs in if beats c current then taken else left

beaten-drop :
    (a b c : TopologyClaim) (cs : List TopologyClaim)
    → beats b a ≡ true
    → unbeaten (a ∷ b ∷ cs) c ≡ unbeaten (b ∷ cs) c
unfolding unbeaten any
beaten-drop a b c cs h = ground (arith, beats_trans b a c)

weaker-drop :
    (a b c : TopologyClaim) (cs : List TopologyClaim)
    → beats b a ≡ false
    → unbeaten (a ∷ b ∷ cs) c ≡ unbeaten (a ∷ cs) c
unfolding unbeaten any
weaker-drop a b c cs h = ground (arith, beats_weaker b a c)

beats_stronger : (a b x : TopologyClaim) → beats b a ≡ false → beats x a ≡ true → beats x b ≡ true
unfolding beats
beats_stronger a b x h k = ground arith

beats_irrefl : (a : TopologyClaim) → beats a a ≡ false
unfolding beats
beats_irrefl a = ground arith

beaten-head :
    (a b : TopologyClaim) (cs : List TopologyClaim)
    → beats b a ≡ false
    → unbeaten cs a ≡ false
    → unbeaten cs b ≡ false
unfolding unbeaten
beaten-head a b cs h k =
    ground (arith, any_mono (λ d. beats d a) (λ d. beats d b) (λ x. beats_stronger a b x h) cs)

first_of-skip {ℓ} :
    {A : Type ℓ} (p : A → Bool) (x : A) (xs : List A)
    → p x ≡ false
    → first_of p (x ∷ xs) ≡ first_of p xs
unfolding first_of
first_of-skip p x xs h = rw h refl

first_of-here {ℓ} :
    {A : Type ℓ} (p : A → Bool) (x : A) (xs : List A) → p x ≡ true → first_of p (x ∷ xs) ≡ some x
unfolding first_of
first_of-here p x xs h = rw h refl

beaten-second :
    (a b : TopologyClaim) (cs : List TopologyClaim)
    → beats b a ≡ true
    → unbeaten (a ∷ b ∷ cs) a ≡ false
unfolding unbeaten any
beaten-second a b cs h = ground arith

alone : (a : TopologyClaim) → unbeaten (a ∷ []) a ≡ true
unfolding unbeaten any
alone a = ground (arith, beats_irrefl a)

fold-nil : (a : TopologyClaim) → fold a [] ≡ a
unfolding fold
fold-nil a = refl

fold-taken :
    (a b : TopologyClaim) (cs : List TopologyClaim) → beats b a ≡ true → fold a (b ∷ cs) ≡ fold b cs
unfolding fold
fold-taken a b cs h = rw h refl

fold-left :
    (a b : TopologyClaim) (cs : List TopologyClaim)
    → beats b a ≡ false
    → fold a (b ∷ cs) ≡ fold a cs
unfolding fold
fold-left a b cs h = rw h refl

-- A weaker claim in the second place changes nothing.
first_of-weaker :
    (a b : TopologyClaim) (cs : List TopologyClaim)
    → beats b a ≡ false
    → first_of (unbeaten (a ∷ cs)) (a ∷ b ∷ cs) ≡ first_of (unbeaten (a ∷ cs)) (a ∷ cs)
first_of-weaker a b cs h =
    let p = unbeaten (a ∷ cs) in
    elim (Bool-cases (p a)) [
      | inl here ↦ first_of-here p a (b ∷ cs) here ∙ sym (first_of-here p a cs here)
      | inr beaten ↦
          first_of-skip p a (b ∷ cs) beaten
          ∙ (first_of-skip p b cs (beaten-head a b (a ∷ cs) h beaten)
              ∙ sym (first_of-skip p a cs beaten))
    ]

pub first_of-fold :
    (a : TopologyClaim) (cs : List TopologyClaim)
    → first_of (unbeaten (a ∷ cs)) (a ∷ cs) ≡ some (fold a cs)
first_of-fold a [] = first_of-here (unbeaten (a ∷ [])) a [] (alone a) ∙ ap some (sym (fold-nil a))
first_of-fold a (b ∷ cs) =
    let all = unbeaten (a ∷ b ∷ cs) in
    elim (Bool-cases (beats b a)) [
      | inl h ↦
          first_of-skip all a (b ∷ cs) (beaten-second a b cs h)
          ∙ (first_of-ext all (unbeaten (b ∷ cs)) (λ c. beaten-drop a b c cs h) (b ∷ cs)
              ∙ (first_of-fold b cs ∙ ap some (sym (fold-taken a b cs h))))
      | inr h ↦
          first_of-ext all (unbeaten (a ∷ cs)) (λ c. weaker-drop a b c cs h) (a ∷ b ∷ cs)
          ∙ (first_of-weaker a b cs h ∙ (first_of-fold a cs ∙ ap some (sym (fold-left a b cs h))))
    ]
