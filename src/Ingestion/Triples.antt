-- ===== src/Ingestion/Triples.antt =====
-- Triples on the steps of the ingestion: what holds before, after a result, and after an exception.
use development_brain.Prelude.{
  ◌≡◌, refl, arith, Bool, true, false, Option, none, some, if◌then◌else◌,
}
use development_brain.Errors.{Result, ok, err}
use development_brain.Ingestion.Effects.{M, after, ◌>>=◌, ◌>>◌, pure, asks, modify, guarded}

module _ {S : Type 0} where
  abbrev pub Outcome : {A : Type 0} → (A → S → Type 0) → (S → Type 0) → Result A × S → Type 0
  Outcome Q E (ok a, s) = Q a s
  Outcome Q E (err exc, s) = E s

  pub record Triple {A : Type 0} (P : S → Type 0) (m : M S A) (Q : A → S → Type 0) (E : S → Type 0)
      : Type 0 where
    pub run : (s : S) → P s → Outcome Q E (m s)

  -- What holds before holds after, whatever happens.
  abbrev pub Keeps : {A : Type 0} → (S → Type 0) → M S A → Type 0
  Keeps P m = Triple P m (λ _. P) P

  Outcome-after :
      {A C : Type 0} {Q : A → S → Type 0} {R : C → S → Type 0} {E : S → Type 0} {f : A → M S C}
      → ((a : A) → Triple (Q a) (f a) R E)
      → (r : Result A × S) → Outcome Q E r
      → Outcome R E (after f r)
  unfolding after
  Outcome-after k (ok a, s) h = (k a).run s h
  Outcome-after k (err exc, s) h = h

  Outcome-weaken :
      {A : Type 0} {Q R : A → S → Type 0} {E F : S → Type 0}
      → ((a : A) (s : S) → Q a s → R a s)
      → ((s : S) → E s → F s)
      → (r : Result A × S) → Outcome Q E r
      → Outcome R F r
  Outcome-weaken j k (ok a, s) h = j a s h
  Outcome-weaken j k (err exc, s) h = k s h

  pub bind-Triple :
      {A C : Type 0} {P : S → Type 0} {Q : A → S → Type 0} {R : C → S → Type 0} {E : S → Type 0}
      {m : M S A} {f : A → M S C}
      → Triple P m Q E
      → ((a : A) → Triple (Q a) (f a) R E)
      → Triple P (m >>= f) R E
  unfolding ◌>>=◌
  bind-Triple {m} h k = record { run = λ s p. Outcome-after k (m s) (h.run s p) }

  pub seq-Triple :
      {C : Type 0} {P Q : S → Type 0} {R : C → S → Type 0} {E : S → Type 0} {m : M S Unit}
      {k : M S C}
      → Triple P m (λ _. Q) E
      → Triple Q k R E
      → Triple P (m >> k) R E
  unfolding ◌>>◌
  seq-Triple {m} h g = record { run = λ s p. Outcome-after (λ _. g) (m s) (h.run s p) }

  pub pure-Triple :
      {A : Type 0} {P : S → Type 0} {Q : A → S → Type 0} {E : S → Type 0} (a : A)
      → ((s : S) → P s → Q a s)
      → Triple P (pure a) Q E
  unfolding pure
  pure-Triple x h = record { run = h }

  pub asks-Triple :
      {A : Type 0} {P : S → Type 0} {Q : A → S → Type 0} {E : S → Type 0} (f : S → A)
      → ((s : S) → P s → Q (f s) s)
      → Triple P (asks f) Q E
  unfolding asks
  asks-Triple x h = record { run = h }

  pub modify-Triple :
      {P Q E : S → Type 0} (f : S → S) → ((s : S) → P s → Q (f s)) → Triple P (modify f) (λ _. Q) E
  unfolding modify
  modify-Triple x h = record { run = h }

  -- What does not speak of the store, before.
  pub fact-Triple :
      {A C : Type 0} {P : S → Type 0} {Q : A → S → Type 0} {E : S → Type 0} {m : M S A}
      → (C → Triple P m Q E)
      → Triple (λ s. C × P s) m Q E
  fact-Triple h = record { run = λ s p. (h p.0).run s p.1 }

  pub weaken-Triple :
      {A : Type 0} {P : S → Type 0} {Q R : A → S → Type 0} {E F : S → Type 0} {m : M S A}
      → ((a : A) (s : S) → Q a s → R a s)
      → ((s : S) → E s → F s)
      → Triple P m Q E
      → Triple P m R F
  weaken-Triple {m} j k h = record { run = λ s p. Outcome-weaken j k (m s) (h.run s p) }

  pub option-Triple :
      {A C : Type 0} {P : S → Type 0} {Q : C → S → Type 0} {E : S → Type 0} {m : M S C}
      {f : A → M S C} (o : Option A)
      → (o ≡ none → Triple P m Q E)
      → ((a : A) → o ≡ some a → Triple P (f a) Q E)
      → Triple P (elim o as (λ _. M S C) [ none ↦ m | some a ↦ f a ]) Q E
  option-Triple none h k = h refl
  option-Triple (some a) h k = k a refl

  -- The same, where what holds before speaks of the value.
  pub found-Triple :
      {A C : Type 0} (P : Option A → S → Type 0) {Q : C → S → Type 0} {E : S → Type 0} {m : M S C}
      {f : A → M S C} (o : Option A)
      → Triple (P none) m Q E
      → ((a : A) → Triple (P (some a)) (f a) Q E)
      → Triple (P o) (elim o as (λ _. M S C) [ none ↦ m | some a ↦ f a ]) Q E
  found-Triple P none h k = h
  found-Triple P (some a) h k = k a

  pub if-Triple :
      {A : Type 0} {P : S → Type 0} {Q : A → S → Type 0} {E : S → Type 0} {m k : M S A} (b : Bool)
      → Triple P m Q E
      → Triple P k Q E
      → Triple P (if b then m else k) Q E
  if-Triple true h g = h
  if-Triple false h g = g

  -- The same, where the test is known on each side.
  pub cases-Triple :
      {A : Type 0} {P : S → Type 0} {Q : A → S → Type 0} {E : S → Type 0} {m k : M S A} (b : Bool)
      → (b ≡ true → Triple P m Q E)
      → (b ≡ false → Triple P k Q E)
      → Triple P (if b then m else k) Q E
  cases-Triple true h g = h refl
  cases-Triple false h g = g refl

  pub true-Triple :
      {A : Type 0} {P : S → Type 0} {Q : A → S → Type 0} {E : S → Type 0} {m : M S A} (k : M S A)
      (b : Bool)
      → b ≡ true
      → Triple P m Q E
      → Triple P (if b then m else k) Q E
  true-Triple k true e h = h
  true-Triple k false e h = ground (arith, e)

  Outcome-guarded : (P : S → Type 0) (r : Result Unit × S) → Outcome (λ _. P) P r → P r.1
  Outcome-guarded P (ok a, s) h = h
  Outcome-guarded P (err exc, s) h = h

  pub guarded-Keeps : {P : S → Type 0} {m : M S Unit} → Keeps P m → Keeps P (guarded m)
  unfolding guarded
  guarded-Keeps {P} {m} h = record { run = λ s p. Outcome-guarded P (m s) (h.run s p) }

  pub Outcome-kept :
      {A : Type 0} (P : S → Type 0) (r : Result A) (s : S) → P s → Outcome (λ _. P) P (r, s)
  Outcome-kept P (ok a) s p = p
  Outcome-kept P (err exc) s p = p
