-- ===== src/Access/Samples.antt =====
-- A person's key that is revoked, and the key of an executor.
use development_brain.Prelude.{
  ◌≡◌, refl, true, false, not, ◌&&◌, Option, none, some, [], ◌∷◌, ◌++◌, nat_eq,
}
use development_brain.Prelude.Dict
use development_brain.Prelude.Dict.Entries.{IsKeyed}
use development_brain.Prelude.Text.{Text, codes}
use development_brain.Access.{
  IdentityRole, Permission, ApiKey, KeyStore, save_key, list_keys, extract_key, is_blank,
  require_permission,
}
use development_brain.Access.Keys.{
  is_granted, lets_in, require_permission-lets_in, require_permission-revoked,
}

abbrev hashed : Text → Text
hashed t = codes "#" ++ t

abbrev person : ApiKey
person = record {
  id = 1;
  name = codes "ann";
  role = IdentityRole.human;
  key_hash = codes "#k1";
  enabled = true;
}

abbrev tool : ApiKey
tool = record person {
  id = 2;
  name = codes "tool";
  role = IdentityRole.executor;
  key_hash = codes "#k2";
}

abbrev store : KeyStore
store = (1, person) ∷ (2, tool) ∷ []

abbrev bearer : Option Text
bearer = some (codes "Bearer k1")

require_permission-lets_in_example :
    is_granted (require_permission Permission.pr_create hashed bearer none store) ≡ (
      not (is_blank (extract_key bearer none))
      && lets_in Permission.pr_create (hashed (extract_key bearer none)) (list_keys store))
require_permission-lets_in_example =
    require_permission-lets_in hashed bearer none Permission.pr_create store

keyed : IsKeyed store
unfolding Dict.get
keyed = (refl, (refl, tt))

require_permission-revoked_example :
    require_permission Permission.pr_create hashed bearer none
      (save_key (record person { enabled = false }) store)
    ≡ require_permission Permission.pr_create hashed bearer none (Dict.remove store 1)
require_permission-revoked_example =
    require_permission-revoked hashed bearer none Permission.pr_create store
      (record person { enabled = false }) keyed refl
