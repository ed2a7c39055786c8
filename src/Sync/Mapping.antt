-- ===== src/Sync/Mapping.antt =====
-- brain/application/openproject_mapping.py: the provider's names for types, states and priorities. An
-- absent name is the empty text, which is treated alike.
use development_brain.Prelude.{Option, none, some, [], ◌∷◌, ◌==◌, nat_eq, list_eq, if◌then◌else◌}
use development_brain.Prelude.Dict
use development_brain.Prelude.Dict.{Dict}
use development_brain.Prelude.Text.{Text, codes, lower, strip}
use development_brain.Domain.{WorkItemType, HumanWorkStatus, Priority}

unfoldable pub type_aliases : Dict Text WorkItemType
type_aliases =
    (codes "epic", WorkItemType.epic)
    ∷ (codes "feature", WorkItemType.feature)
    ∷ (codes "story", WorkItemType.story)
    ∷ (codes "user story", WorkItemType.story)
    ∷ (codes "user_story", WorkItemType.story)
    ∷ (codes "task", WorkItemType.task)
    ∷ (codes "bug", WorkItemType.bug)
    ∷ (codes "defect", WorkItemType.bug)
    ∷ (codes "investigation", WorkItemType.investigation)
    ∷ (codes "refactoring", WorkItemType.refactoring)
    ∷ (codes "verification", WorkItemType.verification)
    ∷ (codes "documentation", WorkItemType.documentation)
    ∷ (codes "operations", WorkItemType.operations)
    ∷ (codes "milestone", WorkItemType.task)
    ∷ (codes "phase", WorkItemType.task)
    ∷ []

unfoldable pub status_aliases : Dict Text HumanWorkStatus
status_aliases =
    (codes "new", HumanWorkStatus.new)
    ∷ (codes "in specification", HumanWorkStatus.in_progress)
    ∷ (codes "in progress", HumanWorkStatus.in_progress)
    ∷ (codes "in development", HumanWorkStatus.in_progress)
    ∷ (codes "in review", HumanWorkStatus.in_progress)
    ∷ (codes "in test", HumanWorkStatus.in_progress)
    ∷ (codes "blocked", HumanWorkStatus.blocked)
    ∷ (codes "done", HumanWorkStatus.finished)
    ∷ (codes "closed", HumanWorkStatus.finished)
    ∷ (codes "rejected", HumanWorkStatus.cancelled)
    ∷ (codes "cancelled", HumanWorkStatus.cancelled)
    ∷ (codes "canceled", HumanWorkStatus.cancelled)
    ∷ []

unfoldable pub priority_aliases : Dict Text Priority
priority_aliases =
    (codes "low", Priority.low)
    ∷ (codes "normal", Priority.medium)
    ∷ (codes "medium", Priority.medium)
    ∷ (codes "high", Priority.high)
    ∷ (codes "urgent", Priority.urgent)
    ∷ (codes "immediate", Priority.critical)
    ∷ []

-- The entry under the name, stripped and in lower case.
abbrev pub alias : {A : Type 0} → Dict Text A → Text → Option A
alias aliases raw = if raw == [] then none else Dict.get aliases (lower (strip raw))

abbrev pub or_else : {A : Type 0} → A → Option A → A
or_else a none = a
or_else a (some b) = b

unfoldable pub map_work_item_type : Text → WorkItemType
map_work_item_type raw = or_else WorkItemType.task (alias type_aliases raw)

unfoldable pub map_human_work_status : Text → HumanWorkStatus
map_human_work_status raw = or_else HumanWorkStatus.new (alias status_aliases raw)

unfoldable pub map_work_item_type_or_none : Text → Option WorkItemType
map_work_item_type_or_none raw = alias type_aliases raw

unfoldable pub map_human_work_status_or_none : Text → Option HumanWorkStatus
map_human_work_status_or_none raw = alias status_aliases raw

unfoldable pub map_priority : Text → Option Priority
map_priority raw = alias priority_aliases raw
