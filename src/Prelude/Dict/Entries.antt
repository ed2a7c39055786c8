-- ===== src/Prelude/Dict/Entries.antt =====
-- The entries of a dictionary as a collection: unique keys, and the values after writes and removals.
use mathlib.Core.List.Perm
use mathlib.Core.List.{Perm}
use mathlib.Core.Path.{◌≡◌, refl, subst}
use mathlib.Core.Logic.{inl, inr}
use mathlib.Core.Option.{none, some}
use mathlib.Core.List.{[], ◌∷◌, ◌++◌}
use native.Mathlib.Omega.{arith}
use development_brain.Prelude.Tests.{Bool-cases}
use development_brain.Prelude.Equality.{Eq, ◌==◌}
use development_brain.Prelude.Dict.{Dict, values, get, insert, remove, get-insert, get-remove}

module _ {ℓ κ} {K : Type ℓ} {V : Type κ} ⦃e : Eq K⦄ where
  -- No key stands twice.
  abbrev pub IsKeyed : Dict K V → Type κ
  IsKeyed [] = Unit
  IsKeyed ((k, v) ∷ d) = (get d k ≡ none) × IsKeyed d

  pub remove-absent : (d : Dict K V) (k : K) → get d k ≡ none → remove d k ≡ d
  unfolding get remove
  remove-absent [] k h = refl
  remove-absent ((j, v) ∷ d) k h = ground (arith, remove-absent d k)

  pub insert-IsKeyed : (d : Dict K V) (k : K) (v : V) → IsKeyed d → IsKeyed (insert d k v)
  unfolding get insert
  insert-IsKeyed [] k v h = (refl, tt)
  insert-IsKeyed ((j, w) ∷ d) k v h =
      ground (arith, insert-IsKeyed d k v, get-insert d k j v, e.beq_iff j k, e.beq_iff k j)

  pub remove-IsKeyed : (d : Dict K V) (k : K) → IsKeyed d → IsKeyed (remove d k)
  unfolding get remove
  remove-IsKeyed [] k h = tt
  remove-IsKeyed ((j, w) ∷ d) k h = ground (arith, remove-IsKeyed d k, get-remove d k j)

  -- A new key adds its value to the others.
  pub values-insert_new :
      (d : Dict K V) (k : K) (v : V) → get d k ≡ none → values (insert d k v) ≡ values d ++ (v ∷ [])
  unfolding values get insert
  values-insert_new [] k v h = refl
  values-insert_new ((j, w) ∷ d) k v h = ground (arith, values-insert_new d k v)

  -- Removing a key takes out its value, and no other.
  pub values-remove_perm :
      (d : Dict K V) (k : K) (v : V)
      → IsKeyed d
      → get d k ≡ some v
      → Perm (v ∷ values (remove d k)) (values d)
  unfolding values get remove
  values-remove_perm [] k v u h = cc
  values-remove_perm ((j, w) ∷ d) k v u h = elim (Bool-cases (j == k)) [
    | inl same ↦
        let key : j ≡ k = (e.beq_iff j k).0 same in
        let gone : remove d k ≡ d = remove-absent d k (subst (λ i. get d i ≡ none) key u.0) in
        let value : w ≡ v = ground arith in rw (same, gone, value) (Perm.refl _)
    | inr other ↦
        let rest = values-remove_perm d k v u.1 (rw other at h) in
        rw other (Perm.trans (Perm.swap w v (values (remove d k))) (Perm.cons w rest))
  ]
