-- ===== src/PullRequests/Samples.antt =====
-- An execution that passed its verification, and one that is not known.
use development_brain.Prelude.{
  ℕ, suc, String, ◌≡◌, refl, false, Option, none, some, [], ◌∷◌, nat_eq,
}
use mathlib.Core.Path.{subst}
use development_brain.Prelude.Dict
use development_brain.Errors.{Result, ok}
use development_brain.Domain.{
  ExternalReference, Execution, WorkItem, WorkItemType, HumanWorkStatus, ImplementationStatus,
  VerificationStatus, PullRequestStatus, Repository, VerificationResult, VerificationVerdict,
}
use development_brain.Observations.{Journal}
use development_brain.Repositories.{get_item}
use development_brain.PullRequests.{Container, PullRequestServiceResult, create_pull_request}
use development_brain.PullRequests.Gate.{ready, create_pull_request-refused}

abbrev merge_request : ExternalReference
merge_request = record {
  provider = "gitlab";
  external_id = "31";
  external_type = some "merge_request";
  url = none;
  namespace = none;
}

abbrev login : WorkItem
login = record {
  id = 10;
  project_id = 4;
  type = WorkItemType.task;
  title = "button";
  description = "make it blue";
  priority = none;
  parent_id = none;
  assignee = none;
  acceptance_criteria = [];
  requirement_refs = [];
  external_refs = [];
  human_work_status = HumanWorkStatus.new;
  implementation_status = ImplementationStatus.implemented;
  verification_status = VerificationStatus.passed;
  pull_request_status = PullRequestStatus.not_created;
}

abbrev execution : Execution
execution = record {
  id = 20;
  workflow_id = 1;
  work_item_id = 10;
  executor_id = 2;
  correlation_id = 3;
  base_branch = none;
  working_branch = none;
  worktree_path = none;
}

abbrev passed : VerificationResult
passed = record { id = 30; execution_id = 20; verdict = VerificationVerdict.pass; issues = [] }

abbrev repository : Repository
repository = record {
  id = 5;
  project_id = 4;
  name = "shop";
  clone_url = "git@host:shop";
  default_branch = "main";
  current_revision = none;
  external_refs = [];
}

-- The world counts the requests and the events; no pattern is found in any text, and no rule stands
-- against it.
abbrev container : Container ℕ
container = record {
  pull_requests = some (λ repository source target title description w. (ok merge_request, suc w));
  executions = (20, execution) ∷ [];
  work_items = (10, login) ∷ [];
  verification_results = (30, passed) ∷ [];
  repositories = (5, repository) ∷ [];
  search = λ pattern text. false;
  policy_set = record { name = "open"; rules = [] };
  publish = λ event w. (ok tt, suc w);
  observation_bus = none;
  project_observation = λ o ref w. (ok tt, suc w);
}

abbrev journal : Journal ℕ
journal = record { rows = []; world = 0 }

abbrev show_id : ℕ → String
show_id i = "id"

is_not_ready : ready container 21 10 ≡ false
unfolding ready get_item Dict.get
is_not_ready = refl

-- What the provider answers is a reference.
abbrev Answers :
    Repository
    → (source target title description : String) → ℕ
    → Option
        (Repository → (source target title description : String) → ℕ → Result ExternalReference × ℕ)
    → Type 0
Answers r source target title description w none = Unit
Answers r source target title description w (some port) =
    (ref : ExternalReference) × ((port r source target title description w).0 ≡ ok ref)

answers :
    (port : Repository
      → (source target title description : String) → ℕ
      → Result ExternalReference × ℕ)
    → container.pull_requests ≡ some port
    → (repository : Repository) (source target title description : String) (world : ℕ)
    → (ref : ExternalReference) × ((port repository source target title description world).0
        ≡ ok ref)
answers port h r source target title description w =
    subst (Answers r source target title description w) h (merge_request, refl)

create_pull_request-refused_example :
    (r : PullRequestServiceResult) × ((create_pull_request show_id 1 100 container 21 10 journal
        ≡ (ok r, journal))
      × (r.created ≡ false))
create_pull_request-refused_example =
    create_pull_request-refused show_id 1 100 container 21 10 journal is_not_ready
