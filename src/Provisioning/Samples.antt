-- ===== src/Provisioning/Samples.antt =====
-- A project that is linked to one provider and linked to a second, and one for which a provider fails.
use development_brain.Prelude.{
  ℕ, suc, Bool, ◌≡◌, refl, true, none, some, [], ◌∷◌, map, distinct, length, string_eq, option_eq,
}
use development_brain.Prelude.Dict
use development_brain.Prelude.Text.{codes, decimal}
use development_brain.Prelude.Merge.{pair_eq, merge_by}
use development_brain.Errors.{ok, err}
use development_brain.Domain.{Project, ProjectStatus}
use development_brain.Repositories.{get_item}
use development_brain.Provisioning.{
  ExternalProjects, ProvisioningResult, State, Providers, bootstrap, provision, ref_to,
}
use development_brain.Provisioning.Linking.{ref_key, linked, with_refs}
use development_brain.Provisioning.Outcomes.{bootstrap-again}
use development_brain.Provisioning.Creating.{created, calls_for, provision-stored}

abbrev shop : Project
shop = record {
  id = 4;
  name = "Shop 2";
  description = some "";
  status = ProjectStatus.active;
  parent_id = none;
  repositories = [];
  external_refs = ref_to "openproject" "12" "project" ∷ [];
}

abbrev external : ExternalProjects
external = record {
  work_management = some "12";
  source_control = some "group/shop";
  documentation = some "";
}

-- The world counts the calls.
abbrev stored : State ℕ
stored = record { rows = (4, shop) ∷ []; world = 0 }

abbrev providers : Providers ℕ
providers = record {
  work_management = some (λ name description w. (ok (ref_to "openproject" "13" "project"), suc w));
  source_control = some (λ name description w.
      (err (record { type_name = codes "NotImplementedError"; text = codes "" }), suc w));
  documentation = none;
}

abbrev digits : ℕ → Bool
digits c = true

found : get_item 4 stored.rows ≡ some shop
unfolding get_item Dict.get
found = refl

bootstrap-again_example :
    (get_item 4 (bootstrap decimal 4 external stored).1.rows ≡ some (linked shop external))
    × ((distinct (map ref_key shop.external_refs) ≡ true
          → distinct (map ref_key (linked shop external).external_refs) ≡ true)
        × ((bootstrap decimal 4 external (bootstrap decimal 4 external stored).1).1
            ≡ (bootstrap decimal 4 external stored).1))
bootstrap-again_example = bootstrap-again decimal 4 external stored shop found refl

provision-stored_example :
    let run = provision decimal digits providers 4 stored in
    let (refs, w) = created (calls_for decimal digits providers shop) 0 in
    let project = with_refs shop (merge_by ref_key shop.external_refs refs) in
    (get_item 4 run.1.rows ≡ some project)
    × ((run.1.world ≡ w)
        × ((r : ProvisioningResult) × ((run.0 ≡ ok r)
              × ((r.project ≡ project) × ((r.refs_added ≡ refs) × (length r.details ≡ 3))))))
provision-stored_example = provision-stored decimal digits providers 4 stored shop found refl
