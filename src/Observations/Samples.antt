-- ===== src/Observations/Samples.antt =====
-- A failure that is reported twice, on a bus that counts.
use development_brain.Prelude.{ℕ, ◌+◌, ◌≡◌, refl, none, some, [], nat_eq}
use development_brain.Prelude.Dict
use development_brain.Errors.{ok}
use development_brain.Observations.{
  ObservationType, Finding, EventBus, Journal, Observation, first_with_key, find_by_dedup_key,
  get_observation, observed, emit, save_and_emit, create,
}
use development_brain.Observations.Deduplication.{create-once}

abbrev counting : EventBus ℕ
counting = some (λ event n. (ok tt, n + 1))

abbrev failure : Finding
failure = record {
  project_id = 1;
  work_item_id = some 2;
  execution_id = some 3;
  requirement_id = none;
  repository_id = none;
  context_capsule_id = none;
  verification_id = none;
  artifact_id = none;
  evidence_id = none;
  decision_id = none;
  repository_revision = none;
  evidence_refs = [];
  observation_type = ObservationType.verification_failure;
  title = "tests fail";
  body = "";
  source = "brain";
  dedup_key = some "tests-3";
}

abbrev blank : Journal ℕ
blank = record { rows = []; world = 0 }

abbrev first : Observation
first = observed 10 100 failure

unused : get_observation 10 blank.rows ≡ none
unfolding get_observation Dict.get
unused = refl

made : (create counting 10 100 failure blank).0 ≡ ok first
unfolding create find_by_dedup_key first_with_key Dict.values save_and_emit emit
made = refl

create-once_example :
    create counting 11 101
      (record failure { title = "tests fail again" })
      (create counting 10 100 failure blank).1
    ≡ (ok first, (create counting 10 100 failure blank).1)
create-once_example =
    create-once counting 10 100 11 101 failure (record failure { title = "tests fail again" }) blank
      "tests-3" first refl refl unused made
