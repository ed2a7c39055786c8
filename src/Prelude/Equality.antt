-- ===== src/Prelude/Equality.antt =====
-- Python's `==` on keys: a Boolean test that decides equality, found by the type of the key.
use Prim.Native.Nat.{ℕ}
use Prim.Native.String.{String}
use mathlib.Core.Path.{◌≡◌, refl}
use mathlib.Core.Logic.{◌↔◌, ◌≢◌}
use mathlib.Core.Bool.{Bool, true, false, ◌&&◌}
use mathlib.Core.List.{List, [], ◌∷◌}
use mathlib.Core.Option.{Option, none, some}
use native.Mathlib.Omega.{arith}
use text.Mathlib.Text.{◌==◌ as str_eq}
use text.Mathlib.TextEquality.{eq_iff}
use development_brain.Prelude.Tests.{nat_beq, nat_beq_iff}

pub record Eq {ℓ} (K : Type ℓ) : Type ℓ where
  pub beq : K → K → Bool
  pub beq_iff : (j k : K) → (beq j k ≡ true) ↔ (j ≡ k)

module _ {ℓ} {A : Type ℓ} where
  abbrev pub is_yes : {a b : A} → Dec (a ≡ b) → Bool
  is_yes (yes p) = true
  is_yes (no n) = false

  pub is_yes_iff : {a b : A} (d : Dec (a ≡ b)) → (is_yes d ≡ true) ↔ (a ≡ b)
  is_yes_iff (yes p) = (λ _. p, λ _. refl)
  is_yes_iff (no n) = (λ e. cc, λ p. absurd (n p))

  -- An enumeration is compared by its members.
  abbrev pub eq_of_discrete : Discrete A → Eq A
  eq_of_discrete d = record { beq = λ a b. is_yes (d a b); beq_iff = λ a b. is_yes_iff (d a b) }

instance abbrev pub string_eq : Eq String
string_eq = record { beq = str_eq; beq_iff = eq_iff }

infix 50 ◌==◌
abbrev pub ◌==◌ {ℓ} : {K : Type ℓ} ⦃e : Eq K⦄ → K → K → Bool
◌==◌ ⦃e⦄ = e.beq

instance abbrev pub nat_eq : Eq ℕ
nat_eq = record { beq = nat_beq; beq_iff = nat_beq_iff }

module _ {ℓ} {A : Type ℓ} ⦃e : Eq A⦄ where
  pub beq_refl : (a : A) → (a == a) ≡ true
  beq_refl a = (e.beq_iff a a).1 refl

  pub beq_of_ne : (a b : A) → a ≢ b → (a == b) ≡ false
  beq_of_ne a b h = ground (arith, e.beq_iff a b)

  pub beq_sym : (a b : A) → (a == b) ≡ (b == a)
  beq_sym a b = ground (arith, e.beq_iff a b, e.beq_iff b a)

module _ {ℓ} {K : Type ℓ} ⦃e : Eq K⦄ where
  abbrev pub list_beq : List K → List K → Bool
  list_beq [] [] = true
  list_beq (j ∷ js) (k ∷ ks) = j == k && list_beq js ks
  list_beq _ _ = false

  pub list_beq_iff : (js ks : List K) → (list_beq js ks ≡ true) ↔ (js ≡ ks)
  list_beq_iff [] [] = (λ _. refl, λ _. refl)
  list_beq_iff [] (k ∷ ks) = (λ h. cc, λ h. cc)
  list_beq_iff (j ∷ js) [] = (λ h. cc, λ h. cc)
  list_beq_iff (j ∷ js) (k ∷ ks) = ground (arith, e.beq_iff j k, list_beq_iff js ks)

  -- Sequences are compared item by item.
  instance abbrev pub list_eq : Eq (List K)
  list_eq = record { beq = list_beq; beq_iff = list_beq_iff }

module _ {ℓ} {K : Type ℓ} ⦃e : Eq K⦄ where
  abbrev pub option_beq : Option K → Option K → Bool
  option_beq none none = true
  option_beq (some j) (some k) = j == k
  option_beq _ _ = false

  pub option_beq_iff : (a b : Option K) → (option_beq a b ≡ true) ↔ (a ≡ b)
  option_beq_iff none none = (λ _. refl, λ _. refl)
  option_beq_iff none (some k) = (λ h. cc, λ h. cc)
  option_beq_iff (some j) none = (λ h. cc, λ h. cc)
  option_beq_iff (some j) (some k) = ground (arith, e.beq_iff j k)

  instance abbrev pub option_eq : Eq (Option K)
  option_eq = record { beq = option_beq; beq_iff = option_beq_iff }
