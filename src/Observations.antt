-- ===== src/Observations.antt =====
-- brain/application/observations.py, brain/domain/observations.py and
-- brain/adapters/in_memory/observations.py: the journal of findings. The repository holds the very
-- object that is changed, and every change is saved, so rows under the ids serve as well. The bus
-- is a parameter: it takes an event, of which the envelope's ids are left out, and may raise. A
-- new observation's id and time are arguments.
pub mod Deduplication
mod Samples
use development_brain.Prelude.{
  ℕ, ◌-◌, String, Bool, true, false, Option, none, some, List, [], ◌∷◌, keep, length, drop, ◌==◌,
  nat_eq, string_eq, if◌then◌else◌,
}
use development_brain.Prelude.Dict
use development_brain.Prelude.Dict.{Dict}
use development_brain.Errors.{Result, ok, err}

pub data ObservationType : Type 0 where
  discovery warning conflict implementation_status scope_change assumption : ObservationType
  verification_failure verification_pass blocker dependency_discovered : ObservationType
  architecture_violation human_action_required : ObservationType

pub data ObservationSeverity : Type 0 where
  info warning error : ObservationSeverity

pub data ObservationVisibility : Type 0 where
  internal team important : ObservationVisibility

pub data ObservationStatus : Type 0 where
  opened acknowledged resolved : ObservationStatus

-- What `create` is given, but for the correlation id.
pub record Finding : Type 0 where
  pub project_id : ℕ
  pub work_item_id : Option ℕ
  pub execution_id : Option ℕ
  pub requirement_id : Option ℕ
  pub repository_id : Option ℕ
  pub context_capsule_id : Option ℕ
  pub verification_id : Option ℕ
  pub artifact_id : Option ℕ
  pub evidence_id : Option ℕ
  pub decision_id : Option ℕ
  pub repository_revision : Option String
  pub evidence_refs : List ℕ
  pub observation_type : ObservationType
  pub title : String
  pub body : String
  pub source : String
  pub dedup_key : Option String

pub record Observation : Type 0 where
  pub id : ℕ
  pub finding : Finding
  pub severity : ObservationSeverity
  pub visibility : ObservationVisibility
  pub status : ObservationStatus
  pub requires_human_attention : Bool
  pub created_at : ℕ
  pub acknowledged_at : Option ℕ
  pub resolved_at : Option ℕ

unfoldable pub is_important : ObservationType → Bool
is_important ObservationType.blocker = true
is_important ObservationType.human_action_required = true
is_important ObservationType.architecture_violation = true
is_important ObservationType.verification_failure = true
is_important ObservationType.conflict = true
is_important _ = false

unfoldable pub is_for_team : ObservationType → Bool
is_for_team ObservationType.warning = true
is_for_team ObservationType.scope_change = true
is_for_team ObservationType.dependency_discovered = true
is_for_team ObservationType.implementation_status = true
is_for_team _ = false

unfoldable pub is_warning : ObservationType → Bool
is_warning ObservationType.warning = true
is_warning ObservationType.scope_change = true
is_warning ObservationType.dependency_discovered = true
is_warning _ = false

unfoldable pub classify : ObservationType → ObservationVisibility
classify t =
    if is_important t
    then ObservationVisibility.important
    else if is_for_team t
    then ObservationVisibility.team
    else ObservationVisibility.internal

unfoldable pub severity_of : ObservationType → ObservationSeverity
severity_of t =
    if is_important t
    then ObservationSeverity.error
    else if is_warning t
    then ObservationSeverity.warning
    else ObservationSeverity.info

unfoldable pub needs_human : ObservationType → Bool
needs_human ObservationType.human_action_required = true
needs_human ObservationType.blocker = true
needs_human _ = false

abbrev pub Observations : Type 0
Observations = Dict ℕ Observation

unfoldable pub save_observation : Observation → Observations → Observations
save_observation o rows = Dict.insert rows o.id o

unfoldable pub get_observation : ℕ → Observations → Option Observation
get_observation i rows = Dict.get rows i

unfoldable pub list_by_project : ℕ → Observations → List Observation
list_by_project i rows = keep (λ o. o.finding.project_id == i) (Dict.values rows)

abbrev pub is_for : ℕ → Option ℕ → Bool
is_for i none = false
is_for i (some j) = j == i

unfoldable pub list_by_work_item : ℕ → Observations → List Observation
list_by_work_item i rows = keep (λ o. is_for i o.finding.work_item_id) (Dict.values rows)

unfoldable pub list_latest : ℕ → Observations → List Observation
list_latest limit rows =
    let all = Dict.values rows in if limit == 0 then all else drop (length all - limit) all

abbrev pub has_key : String → Option String → Bool
has_key key none = false
has_key key (some k) = k == key

unfoldable pub first_with_key : String → List Observation → Option Observation
first_with_key key [] = none
first_with_key key (o ∷ rest) =
    let later = first_with_key key rest in if has_key key o.finding.dedup_key then some o else later

unfoldable pub find_by_dedup_key : String → Observations → Option Observation
find_by_dedup_key key rows = first_with_key key (Dict.values rows)

pub data ObservationEvent : Type 0 where
  created acknowledged resolved : Observation → ObservationEvent

-- The journal, and the world behind the bus.
pub record Journal (W : Type 0) : Type 0 where
  pub rows : Observations
  pub world : W

abbrev pub EventBus : Type 0 → Type 0
EventBus W = Option (ObservationEvent → W → Result Unit × W)

abbrev pub existing : Option String → Observations → Option Observation
existing none rows = none
existing (some key) rows = find_by_dedup_key key rows

unfoldable pub observed : ℕ → ℕ → Finding → Observation
observed id now f = record {
  id = id;
  finding = f;
  severity = severity_of f.observation_type;
  visibility = classify f.observation_type;
  status = ObservationStatus.opened;
  requires_human_attention = needs_human f.observation_type;
  created_at = now;
  acknowledged_at = none;
  resolved_at = none;
}

unfoldable pub acknowledged_row : ℕ → Observation → Observation
acknowledged_row now o = record o {
  status = ObservationStatus.acknowledged;
  acknowledged_at = some now;
}

unfoldable pub resolved_row : ℕ → Observation → Observation
resolved_row now o = record o { status = ObservationStatus.resolved; resolved_at = some now }

module _ {W : Type 0} (bus : EventBus W) where
  unfoldable pub emit : ObservationEvent → W → Result Unit × W
  emit event w = elim bus [ none ↦ (ok tt, w) | some publish ↦ publish event w ]

  -- Saves and then emits; an exception of the bus goes to the caller, with the row saved.
  unfoldable pub save_and_emit :
      Observation → ObservationEvent → Journal W → Result Observation × Journal W
  save_and_emit o event j =
      let (result, w) = emit event j.world in
      let j' : Journal W = record { rows = save_observation o j.rows; world = w } in
      elim result [ ok u ↦ (ok o, j') | err exc ↦ (err exc, j') ]

  unfoldable pub create : (id now : ℕ) → Finding → Journal W → Result Observation × Journal W
  create id now f j = elim (existing f.dedup_key j.rows) [
    | some o ↦ (ok o, j)
    | none ↦ save_and_emit (observed id now f) (ObservationEvent.created (observed id now f)) j
  ]

  unfoldable pub acknowledge_observation :
      (now id : ℕ) → Journal W → Option (Result Observation) × Journal W
  acknowledge_observation now id j = elim (get_observation id j.rows) [
    | none ↦ (none, j)
    | some o ↦
        let o' = acknowledged_row now o in
        let (result, j') = save_and_emit o' (ObservationEvent.acknowledged o') j in
        (some result, j')
  ]

  unfoldable pub resolve : (now id : ℕ) → Journal W → Option (Result Observation) × Journal W
  resolve now id j = elim (get_observation id j.rows) [
    | none ↦ (none, j)
    | some o ↦
        let o' = resolved_row now o in
        let (result, j') = save_and_emit o' (ObservationEvent.resolved o') j in (some result, j')
  ]
