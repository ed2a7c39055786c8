-- ===== src/Access.antt =====
-- brain/application/authorization.py, brain/domain/identity_auth.py, brain/adapters/in_memory/api_keys.py
-- and the checks of brain/api/auth.py: who calls, and what the caller may do. The hash of a key and the
-- signature of a body are parameters; keys from the environment are left out. An HTTP exception is its
-- status; the request's headers are options.
pub mod Keys
mod Samples
use development_brain.Prelude.{
  ℕ, Bool, true, false, not, ◌&&◌, ◌||◌, Option, none, some, List, [], ◌∷◌, ◌++◌, contains, drop,
  ◌==◌, nat_eq, list_eq, Eq, eq_of_discrete, if◌then◌else◌,
}
use development_brain.Prelude.Dict
use development_brain.Prelude.Dict.{Dict}
use development_brain.Prelude.Text.{Text, codes, lower, starts_with, strip}

pub data IdentityRole : Type 0 where
  human service webhook executor admin : IdentityRole

pub data Permission : Type 0 where
  project_access execution_trigger observation_resolve pr_create : Permission
  administration webhook_delivery executor_context : Permission

unfoldable pub Permission-discrete : Discrete Permission
Permission-discrete = hlevel

instance abbrev pub permission_eq : Eq Permission
permission_eq = eq_of_discrete Permission-discrete

pub record Identity : Type 0 where
  pub name : Text
  pub role : IdentityRole
  pub key_id : Option ℕ

pub record ApiKey : Type 0 where
  pub id : ℕ
  pub name : Text
  pub role : IdentityRole
  pub key_hash : Text
  pub enabled : Bool

-- The operations of a person or a service account.
abbrev pub operations : List Permission
operations =
    Permission.project_access ∷ Permission.execution_trigger ∷ Permission.observation_resolve
    ∷ Permission.pr_create ∷ []

unfoldable pub role_permissions : IdentityRole → List Permission
role_permissions IdentityRole.admin =
    Permission.project_access ∷ Permission.execution_trigger ∷ Permission.observation_resolve
    ∷ Permission.pr_create ∷ Permission.administration ∷ Permission.webhook_delivery
    ∷ Permission.executor_context ∷ []
role_permissions IdentityRole.human = operations
role_permissions IdentityRole.service = operations
role_permissions IdentityRole.webhook = Permission.webhook_delivery ∷ []
role_permissions IdentityRole.executor = Permission.executor_context ∷ []

unfoldable pub may : Identity → Permission → Bool
may identity permission = contains (role_permissions identity.role) permission

abbrev pub KeyStore : Type 0
KeyStore = Dict ℕ ApiKey

unfoldable pub save_key : ApiKey → KeyStore → KeyStore
save_key key store = Dict.insert store key.id key

unfoldable pub get_by_id : ℕ → KeyStore → Option ApiKey
get_by_id i store = Dict.get store i

unfoldable pub list_keys : KeyStore → List ApiKey
list_keys store = Dict.values store

-- The key has the hash and is not switched off.
abbrev pub opens : Text → ApiKey → Bool
opens wanted key = key.enabled && key.key_hash == wanted

unfoldable pub first_key : Text → List ApiKey → Option ApiKey
first_key wanted [] = none
first_key wanted (key ∷ keys) =
    let later = first_key wanted keys in if opens wanted key then some key else later

unfoldable pub authenticate : (Text → Text) → Text → KeyStore → Option ApiKey
authenticate hash_api_key plaintext store = first_key (hash_api_key plaintext) (list_keys store)

abbrev pub header : Option Text → Text
header none = []
header (some h) = h

unfoldable pub extract_key : (authorization x_api_key : Option Text) → Text
extract_key authorization x_api_key =
    let h = header authorization in
    if starts_with (lower h) (codes "bearer ") then strip (drop 7 h) else strip (header x_api_key)

pub data Access : Type 0 where
  granted : Identity → Access
  unauthorized forbidden : Access

abbrev pub identity_for : ApiKey → Identity
identity_for key = record { name = key.name; role = key.role; key_id = some key.id }

abbrev pub is_blank : Text → Bool
is_blank [] = true
is_blank (c ∷ cs) = false

unfoldable pub api_key_dependency :
    (Text → Text) → (authorization x_api_key : Option Text) → KeyStore → Access
api_key_dependency hash_api_key authorization x_api_key store =
    let raw_key = extract_key authorization x_api_key in
    if is_blank raw_key
    then Access.unauthorized
    else elim (authenticate hash_api_key raw_key store) [
      | none ↦ Access.unauthorized
      | some key ↦ Access.granted (identity_for key)
    ]

-- On top of an identity.
unfoldable pub permitted : Permission → Access → Access
permitted permission (Access.granted identity) =
    if may identity permission then Access.granted identity else Access.forbidden
permitted permission Access.unauthorized = Access.unauthorized
permitted permission Access.forbidden = Access.forbidden

unfoldable pub require_permission :
    Permission → (Text → Text) → (authorization x_api_key : Option Text) → KeyStore → Access
require_permission permission hash_api_key authorization x_api_key store =
    permitted permission (api_key_dependency hash_api_key authorization x_api_key store)

pub data WebhookProvider : Type 0 where
  openproject gitlab other : WebhookProvider

abbrev pub webhook_identity : Text → Access
webhook_identity provider =
    Access.granted (record { name = provider; role = IdentityRole.webhook; key_id = none })

-- `signature` is the hexadecimal HMAC of the body under the secret.
unfoldable pub verify_webhook :
    (signature : (secret body : Text) → Text)
    → WebhookProvider
    → (configured : Text) → (supplied : Option Text) (body : Text) → Access
verify_webhook signature WebhookProvider.openproject secret supplied body =
    let expected = codes "sha1=" ++ signature secret body in
    if is_blank secret || not (header supplied == expected)
    then Access.unauthorized
    else webhook_identity (codes "webhook:openproject")
verify_webhook signature WebhookProvider.gitlab token supplied body =
    if is_blank token || not (header supplied == token)
    then Access.unauthorized
    else webhook_identity (codes "webhook:gitlab")
verify_webhook signature WebhookProvider.other configured supplied body = Access.unauthorized
