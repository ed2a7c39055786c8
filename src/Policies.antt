-- ===== src/Policies.antt =====
-- brain/domain/policies.py and the evaluation of brain/application/policy_service.py, with the
-- default policies of brain/adapters/in_memory/policies.py. The search by a regular expression is a
-- parameter, on the text of the pattern.
pub mod Evaluation
pub mod Approvals
mod Samples
use Prim.Native.String.{◌++◌ as join_text}
use development_brain.Prelude.{
  ℕ, String, Bool, true, false, not, ◌&&◌, ◌||◌, Option, none, some, List, [], ◌∷◌, ◌++◌, keep,
  contains, ◌==◌, nat_eq, if◌then◌else◌, Eq, eq_of_discrete,
}

pub data RiskLevel : Type 0 where
  low medium high critical : RiskLevel

pub data ApprovalType : Type 0 where
  plan architecture security pr execution : ApprovalType

pub data ApprovalDecision : Type 0 where
  pending approved rejected needs_changes : ApprovalDecision

pub data PolicyAction : Type 0 where
  allow deny require_approval : PolicyAction

unfoldable pub RiskLevel-discrete : Discrete RiskLevel
RiskLevel-discrete = hlevel

instance abbrev pub risk_eq : Eq RiskLevel
unfolding RiskLevel-discrete
risk_eq = eq_of_discrete RiskLevel-discrete

pub record ExecutionPermissions : Type 0 where
  pub repository_read : Bool
  pub repository_write : Bool
  pub shell : Bool
  pub network : Bool
  pub git_commit : Bool
  pub git_push : Bool
  pub create_pull_request : Bool
  pub merge_pull_request : Bool
  pub run_containers : Bool
  pub access_secrets : Bool
  pub deploy : Bool

-- `ExecutionPermissions()`
abbrev pub default_permissions : ExecutionPermissions
default_permissions = record {
  repository_read = true;
  repository_write = false;
  shell = false;
  network = false;
  git_commit = false;
  git_push = false;
  create_pull_request = false;
  merge_pull_request = false;
  run_containers = false;
  access_secrets = false;
  deploy = false;
}

pub record PolicyRule : Type 0 where
  pub name : String
  pub risk_levels : List RiskLevel
  pub action : PolicyAction
  pub approval_type : Option ApprovalType
  pub permissions : Option ExecutionPermissions

pub record PolicySet : Type 0 where
  pub name : String
  pub rules : List PolicyRule

unfoldable pub rules_for_risk : PolicySet → RiskLevel → List PolicyRule
rules_for_risk policy_set risk = keep (λ rule. contains rule.risk_levels risk) policy_set.rules

pub record RiskAssessment : Type 0 where
  pub risk : RiskLevel
  pub reasons : List String

pub record PolicyEvaluation : Type 0 where
  pub permissions : ExecutionPermissions
  pub required_approvals : List ApprovalType
  pub allowed : Bool
  pub reasons : List String

abbrev pub high_risk_patterns : List String
high_risk_patterns =
    "\\b(migrations?|alembic|schema change)\\b" ∷ "\\b(authentication|authn|login|oauth|sso)\\b"
    ∷ "\\b(authorization|authz|rbac|permissions?|role)\\b"
    ∷ "\\b(crypto|encryption|signature|cipher)\\b" ∷ "\\b(billing|payment|invoice|charge|stripe)\\b"
    ∷ "\\b(production|deploy|infrastructure|kubernetes|terraform)\\b"
    ∷ "\\b(secret|credential|token|api[_-]?key)\\b" ∷ "\\b(drop |truncate |delete |destructive)\\b"
    ∷ []

abbrev pub medium_risk_patterns : List String
medium_risk_patterns =
    "\\b(database|sql|query|model)\\b" ∷ "\\b(api|endpoint|http|rest)\\b"
    ∷ "\\b(cache|redis|queue|kafka)\\b" ∷ []

-- Of a work item, what the service reads.
pub record WorkItem : Type 0 where
  pub title : String
  pub description : String

-- f"{signal}: {pattern.pattern}" for each pattern that is found in the text.
unfoldable pub signals : (String → String → Bool) → String → List String → String → List String
signals search signal [] text = []
signals search signal (p ∷ ps) text =
    let rest = signals search signal ps text in
    if search p text then join_text signal (join_text ": " p) ∷ rest else rest

unfoldable pub risk_text : Option WorkItem → String → String → String
risk_text none title description = join_text "  " (join_text title (join_text " " description))
risk_text (some w) title description = join_text w.title (
    join_text " "
      (join_text w.description (join_text " " (join_text title (join_text " " description)))))

unfoldable pub assessed : (high_signals medium_signals : List String) → RiskAssessment
assessed (h ∷ hs) other = record { risk = RiskLevel.high; reasons = h ∷ hs }
assessed [] (m ∷ ms) = record { risk = RiskLevel.medium; reasons = m ∷ ms }
assessed [] [] = record { risk = RiskLevel.low; reasons = [] }

unfoldable pub classify_risk :
    (String → String → Bool) → Option WorkItem → (title description : String) → RiskAssessment
classify_risk search work_item title description =
    let text = risk_text work_item title description in
    assessed (signals search "high-risk signal" high_risk_patterns text)
      (signals search "medium-risk signal" medium_risk_patterns text)

unfoldable pub merge_permissions :
    ExecutionPermissions → ExecutionPermissions → ExecutionPermissions
merge_permissions base override = record {
  repository_read = base.repository_read || override.repository_read;
  repository_write = base.repository_write || override.repository_write;
  shell = base.shell || override.shell;
  network = base.network || override.network;
  git_commit = base.git_commit || override.git_commit;
  git_push = base.git_push || override.git_push;
  create_pull_request = base.create_pull_request || override.create_pull_request;
  merge_pull_request = base.merge_pull_request || override.merge_pull_request;
  run_containers = base.run_containers || override.run_containers;
  access_secrets = base.access_secrets || override.access_secrets;
  deploy = base.deploy || override.deploy;
}

unfoldable pub merged : ExecutionPermissions → Option ExecutionPermissions → ExecutionPermissions
merged base none = base
merged base (some override) = merge_permissions base override

-- The approval that a rule asks for.
unfoldable pub required_by : PolicyAction → Option ApprovalType → List ApprovalType
required_by PolicyAction.require_approval (some t) = t ∷ []
required_by _ _ = []

unfoldable pub denies : PolicyAction → Bool
denies PolicyAction.deny = true
denies _ = false

-- The loop over the rules.
unfoldable pub apply_rules : List PolicyRule → PolicyEvaluation → PolicyEvaluation
apply_rules [] e = e
apply_rules (rule ∷ rules) e = apply_rules rules (record {
  permissions = merged e.permissions rule.permissions;
  required_approvals = e.required_approvals ++ required_by rule.action rule.approval_type;
  allowed = if denies rule.action then false else e.allowed;
  reasons = e.reasons ++ (rule.name ∷ []);
})

unfoldable pub risk_value : RiskLevel → String
risk_value RiskLevel.low = "low"
risk_value RiskLevel.medium = "medium"
risk_value RiskLevel.high = "high"
risk_value RiskLevel.critical = "critical"

unfoldable pub reasons_or : String → List String → List String
reasons_or default [] = default ∷ []
reasons_or default (r ∷ rs) = r ∷ rs

unfoldable pub evaluate_risk : PolicySet → RiskLevel → PolicyEvaluation
evaluate_risk policy_set risk =
    let e = apply_rules (rules_for_risk policy_set risk) (record {
      permissions = default_permissions;
      required_approvals = [];
      allowed = true;
      reasons = [];
    }) in
    record e {
      reasons = reasons_or (join_text "no policies matched risk " (risk_value risk)) e.reasons;
    }

unfoldable pub evaluate :
    (String → String → Bool)
    → PolicySet
    → Option WorkItem
    → (title description : String) → PolicyEvaluation
evaluate search policy_set work_item title description =
    evaluate_risk policy_set (classify_risk search work_item title description).risk

-- The policy set of `DefaultPolicyProvider`.
abbrev pub default_policy_set : PolicySet
default_policy_set = record {
  name = "default";
  rules =
      record {
        name = "high risk requires approval";
        risk_levels = RiskLevel.high ∷ [];
        action = PolicyAction.require_approval;
        approval_type = some ApprovalType.execution;
        permissions = none;
      }
      ∷ [];
}
