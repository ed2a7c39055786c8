-- ===== src/Policies/Evaluation.antt =====
-- What an evaluation grants, allows and requires, from the rules that match the risk.
use development_brain.Prelude.{
  ◌≡◌, refl, Bool, false, not, ◌&&◌, ◌||◌, String, Option, none, some, List, [], ◌∷◌, ◌++◌, any,
  arith, Option-cases, inl, inr, if◌then◌else◌,
}
use development_brain.Policies.{
  ExecutionPermissions, default_permissions, PolicyRule, PolicySet, rules_for_risk,
  PolicyEvaluation, merge_permissions, merged, denies, apply_rules, evaluate_risk, WorkItem,
  classify_risk, evaluate, required_by,
}

-- A permission, by its field.
pub data Permission : Type 0 where
  repository_read repository_write shell network git_commit git_push : Permission
  create_pull_request merge_pull_request run_containers access_secrets deploy : Permission

unfoldable pub grants : ExecutionPermissions → Permission → Bool
grants e Permission.repository_read = e.repository_read
grants e Permission.repository_write = e.repository_write
grants e Permission.shell = e.shell
grants e Permission.network = e.network
grants e Permission.git_commit = e.git_commit
grants e Permission.git_push = e.git_push
grants e Permission.create_pull_request = e.create_pull_request
grants e Permission.merge_pull_request = e.merge_pull_request
grants e Permission.run_containers = e.run_containers
grants e Permission.access_secrets = e.access_secrets
grants e Permission.deploy = e.deploy

unfoldable pub rule_grants : PolicyRule → Permission → Bool
rule_grants rule p = elim (rule.permissions) [ none ↦ false | some e ↦ grants e p ]

merge_permissions-grants :
    (a b : ExecutionPermissions) (p : Permission)
    → grants (merge_permissions a b) p ≡ (grants a p || grants b p)
unfolding grants merge_permissions
merge_permissions-grants a b Permission.repository_read = refl
merge_permissions-grants a b Permission.repository_write = refl
merge_permissions-grants a b Permission.shell = refl
merge_permissions-grants a b Permission.network = refl
merge_permissions-grants a b Permission.git_commit = refl
merge_permissions-grants a b Permission.git_push = refl
merge_permissions-grants a b Permission.create_pull_request = refl
merge_permissions-grants a b Permission.merge_pull_request = refl
merge_permissions-grants a b Permission.run_containers = refl
merge_permissions-grants a b Permission.access_secrets = refl
merge_permissions-grants a b Permission.deploy = refl

merged-grants :
    (a : ExecutionPermissions) (rule : PolicyRule) (p : Permission)
    → grants (merged a rule.permissions) p ≡ (grants a p || rule_grants rule p)
unfolding merged rule_grants
merged-grants a rule p = elim (Option-cases rule.permissions) [
  | inl e ↦ rw e (ground arith)
  | inr (b, e) ↦ rw e (merge_permissions-grants a b p)
]

abbrev after_rule : PolicyRule → PolicyEvaluation → PolicyEvaluation
after_rule rule e = record {
  permissions = merged e.permissions rule.permissions;
  required_approvals = e.required_approvals ++ required_by rule.action rule.approval_type;
  allowed = if denies rule.action then false else e.allowed;
  reasons = e.reasons ++ (rule.name ∷ []);
}

apply_rules-grants :
    (rules : List PolicyRule) (e : PolicyEvaluation) (p : Permission)
    → grants (apply_rules rules e).permissions p
      ≡ (grants e.permissions p || any (λ r. rule_grants r p) rules)
unfolding apply_rules any
apply_rules-grants [] e p = ground arith
apply_rules-grants (rule ∷ rules) e p =
    ground
      (arith, apply_rules-grants rules (after_rule rule e) p, merged-grants e.permissions rule p)

apply_rules-allowed :
    (rules : List PolicyRule) (e : PolicyEvaluation)
    → (apply_rules rules e).allowed ≡ (e.allowed && not (any (λ r. denies r.action) rules))
unfolding apply_rules any
apply_rules-allowed [] e = ground arith
apply_rules-allowed (rule ∷ rules) e = ground (arith, apply_rules-allowed rules (after_rule rule e))

module _ (search : String → String → Bool) (policies : PolicySet) (work_item : Option WorkItem)
    (title description : String) where
  -- An evaluation grants exactly the permissions that are granted by default or by a rule for the
  -- risk of the work item.
  pub evaluate-grants :
      (p : Permission)
      → grants (evaluate search policies work_item title description).permissions p ≡ (
          grants default_permissions p
          || any
              (λ r. rule_grants r p)
              (rules_for_risk policies (classify_risk search work_item title description).risk))
  unfolding evaluate evaluate_risk
  evaluate-grants p =
      apply_rules-grants
        (rules_for_risk policies (classify_risk search work_item title description).risk) _ p

  -- An evaluation allows the work unless a rule for its risk denies it, whatever the order of the
  -- rules.
  pub evaluate-allowed :
      (evaluate search policies work_item title description).allowed
      ≡ not (
          any
            (λ r. denies r.action)
            (rules_for_risk policies (classify_risk search work_item title description).risk))
  unfolding evaluate evaluate_risk
  evaluate-allowed =
      apply_rules-allowed
        (rules_for_risk policies (classify_risk search work_item title description).risk) _
