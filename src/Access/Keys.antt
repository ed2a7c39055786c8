-- ===== src/Access/Keys.antt =====
-- Which keys open the interface.
use development_brain.Prelude.{
  ◌≡◌, refl, Bool, true, false, not, ◌&&◌, Option, none, some, List, [], ◌∷◌, ◌==◌, nat_eq,
  nat_beq_iff, list_eq, arith, Bool-cases, inl, inr, if◌then◌else◌,
}
use development_brain.Prelude.Text.{Text}
use mathlib.Core.Path.{subst}
use development_brain.Prelude.Dict
use development_brain.Prelude.Dict.Entries.{IsKeyed, remove-absent}
use development_brain.Access.{
  ApiKey, KeyStore, save_key, list_keys, opens, first_key, authenticate, Access, Permission,
  permitted, require_permission, api_key_dependency, extract_key, is_blank, may, identity_for,
}

is_some {ℓ} : {A : Type ℓ} → Option A → Bool
is_some none = false
is_some (some a) = true

-- Whether the request is let in.
abbrev pub is_granted : Access → Bool
is_granted (Access.granted identity) = true
is_granted _ = false

-- The first key with the hash that is not switched off, if its role has the permission.
unfoldable pub lets_in : Permission → Text → List ApiKey → Bool
lets_in permission wanted [] = false
lets_in permission wanted (key ∷ keys) =
    let later = lets_in permission wanted keys in
    if opens wanted key then may (identity_for key) permission else later

permitted-first :
    (permission : Permission) (wanted : Text) (keys : List ApiKey)
    → is_granted (
        permitted permission (elim (first_key wanted keys) [
          | none ↦ Access.unauthorized
          | some key ↦ Access.granted (identity_for key)
        ]))
      ≡ lets_in permission wanted keys
unfolding permitted first_key lets_in
permitted-first permission wanted [] = refl
permitted-first permission wanted (key ∷ keys) =
    ground (arith, permitted-first permission wanted keys)

-- Under the hash of a key that is saved as switched off, only the other keys are found.
switched_off :
    (store : KeyStore) (key : ApiKey) (wanted : Text)
    → IsKeyed store
    → key.enabled ≡ false
    → first_key wanted (list_keys (save_key key store))
      ≡ first_key wanted (list_keys (Dict.remove store key.id))
unfolding first_key list_keys save_key Dict.insert Dict.remove Dict.values
switched_off [] key wanted u off = rw off refl
switched_off ((i, k) ∷ store) key wanted u off = elim (Bool-cases (i == key.id)) [
  | inl same ↦
      let e : i ≡ key.id = (nat_beq_iff i key.id).0 same in
      let gone : Dict.remove store key.id ≡ store =
        remove-absent store key.id (subst (λ j. Dict.get store j ≡ none) e u.0) in
      rw (same, off, gone) refl
  | inr other ↦ rw (other, switched_off store key wanted u.1 off) refl
]

module _ (hash_api_key : Text → Text) (authorization x_api_key : Option Text) where
  -- A request with a permission is let in exactly when it carries a key, and the first key with its hash
  -- that is not switched off is of a role with the permission.
  pub require_permission-lets_in :
      (permission : Permission) (store : KeyStore)
      → is_granted (require_permission permission hash_api_key authorization x_api_key store) ≡ (
          not (is_blank (extract_key authorization x_api_key))
          && lets_in permission
              (hash_api_key (extract_key authorization x_api_key))
              (list_keys store))
  unfolding require_permission api_key_dependency authenticate permitted
  require_permission-lets_in permission store =
      let raw = extract_key authorization x_api_key in
      elim (Bool-cases (is_blank raw)) [
        | inl blank ↦ rw (blank, permitted) refl
        | inr given ↦ rw given (permitted-first permission (hash_api_key raw) (list_keys store))
      ]

  -- When a key is saved as switched off, requests are answered as if it had been taken out of the store.
  pub require_permission-revoked :
      (permission : Permission) (store : KeyStore) (key : ApiKey)
      → IsKeyed store
      → key.enabled ≡ false
      → require_permission permission hash_api_key authorization x_api_key (save_key key store)
        ≡ require_permission permission hash_api_key authorization x_api_key
            (Dict.remove store key.id)
  unfolding require_permission api_key_dependency authenticate
  require_permission-revoked permission store key u off =
      let raw = extract_key authorization x_api_key in
      rw (switched_off store key (hash_api_key raw) u off) refl
