-- ===== src/Lib.antt =====
-- A verification library for the core of Development Brain (brain/): a service that takes commands
-- from a queue, runs engineering workflows on them through executors, verifies what an execution
-- changed, and lets a pull request through or not.
--
-- The parts and their files:
--
-- - Prelude: what the Python standard types contribute: tests, lists, dictionaries in insertion
--   order, texts as code points, JSON objects. Errors: results of calls that may raise.
-- - Commands (brain/domain/commands.py): the envelopes. Commands/Dispatcher
--   (brain/application/command_dispatcher.py): the table of handlers. A handler acts on a world of
--   its own and may enqueue.
-- - Queue (brain/adapters/in_memory/commands.py): `enqueue`, `consume`, `acknowledge`, `requeue`,
--   `dead_letter`. Queue/Custody follows the commands through any sequence of calls;
--   Queue/CommandLoop is `run_command_loop`, with one unit of fuel for each command.
-- - Worker (brain/workers/loop.py) with Worker/Failures (brain/domain/command_failure.py):
--   `process_command`, the inner loop `try_command`, `finish`, and the outer loop `run`, over a schedule of what the
--   environment does around each pass. The inner loop is bounded by `max_attempts`, which the code
--   tests as well; the schedule is the only bound of the outer loop.
-- - Workflow (brain/domain/workflow.py) and Workflow/Engine (brain/application/workflow_engine.py over
--   brain/adapters/in_memory/workflow.py): the graph, `_advance` as `advance`, one pass of the loop as
--   `turn`, and the loop on fuel. Over the main graph 11 + 3 * max_retries passes are enough, since
--   each retry goes round execute, verify and retry; Workflow/Engine/Termination has the measure.
-- - Verification (brain/application/verification_engine.py, brain/domain/verification_plan.py): the
--   steps, the verdict and the gate; Verification/Paths is `_is_test_path`.
-- - Events (brain/application/events.py over the bus, the log and the idempotency store in memory).
-- - Locks (brain/application/workspace_locks.py): one execution at a time in a repository.
-- - Policies (brain/application/policy_service.py, brain/domain/policies.py): risk and permissions;
--   Policies/Approvals: approvals, their repository and brain/application/approval_gate.py.
-- - RateLimiter (brain/application/rate_limiter.py): the sliding window; RateLimiter/Log: a
--   limiter that forgets nothing.
-- - Observations (brain/application/observations.py, brain/domain/observations.py): the journal of
--   findings.
-- - Retry (brain/orchestration/retry.py): the classification of failures for the nodes of the
--   orchestrator.
-- - Domain, Domain/Work, Domain/Software (brain/domain/): the records that the services share.
-- - Repositories (brain/adapters/in_memory/base.py, brain/adapters/in_memory/repositories.py): rows
--   under their ids and the searches over them; Repositories/Relations: relations of work items and
--   watermarks; Repositories/Catalog: snapshots, change sets and the software catalogue;
--   Repositories/Classification: `classify_file` of brain/domain/repository_scan.py.
-- - Planning (brain/application/planning.py, brain/domain/planning.py): assessment, decomposition and
--   validation of plans; Planning/Keywords is `_keywords`.
-- - Topology (brain/domain/topology.py): discoveries as `merge`, their claims, and `reconcile`.
-- - Provisioning (brain/application/provisioning.py): `provision` and `bootstrap` over the projects.
-- - Sync (brain/application/work_management_sync.py): Sync/Pull and Sync/ProjectPull are
--   `sync_project`, of which the loop over pages has fuel: one unit for each page, up to the
--   first that is not full, is enough. Sync/Publishing: single items; Sync/Mapping:
--   brain/application/openproject_mapping.py.
-- - PullRequests (brain/application/pull_request_service.py): what verification and policy let
--   through, and the consequences of a merge. It reads Repositories, asks Policies, writes to
--   Observations and enqueues on Queue.
-- - Access (brain/application/authorization.py, brain/domain/identity_auth.py,
--   brain/adapters/in_memory/api_keys.py, brain/api/auth.py): keys, roles and permissions of callers.
-- - CodeGraph (brain/domain/code_intelligence.py, brain/adapters/in_memory/code_graph.py): symbols,
--   relations and their repository. Impact (brain/application/impact_analysis.py): what a change
--   touches.
-- - TestSelection (brain/application/runtime.py): `AdvancedTestSelector`; TestSelection/Extension holds
--   what its loops share.
-- - KnowledgeGraph (brain/adapters/in_memory/knowledge_graph.py, brain/ports/knowledge_graph.py,
--   brain/domain/graph_schema.py): entities and relations; KnowledgeGraph/Search and
--   KnowledgeGraph/Links: what the search of `_bfs` and its neighbours are. The depth is its fuel.
-- - Context (brain/application/context_engine.py, brain/domain/context.py): ranking, allocation and
--   the capsule; Context/Gathering and Context/Texts: the candidates, from Repositories, CodeGraph,
--   Impact and KnowledgeGraph; Context/Tokens (brain/application/token_estimation.py).
-- - Ingestion (brain/application/openproject_ingestion.py, brain/application/openproject_parser.py,
--   brain/adapters/in_memory/openproject_snapshot.py): Ingestion/Effects: its steps, which may raise;
--   Ingestion/Service, Ingestion/Comments and Ingestion/Projects: the operations;
--   Ingestion/WorkItems, Ingestion/Links, Ingestion/Attachments, Ingestion/Projection and
--   Ingestion/Records: their parts; Ingestion/Triples, Ingestion/Frames, Ingestion/Identity,
--   Ingestion/Attached, Ingestion/Reconciling, Ingestion/Repeating, Ingestion/Writes and
--   Ingestion/Settled: what the steps keep. It acts on Repositories and Sync.
--
-- The worker dispatches the commands of the queue; their handlers start workflows and verifications,
-- publish events and take locks, and are parameters here. Parameters are also the executor, the
-- command runner, the database session, regular expressions, generated ids and the clock. UUIDs and
-- times are natural numbers. Ids, times and metadata that no operation reads are left out, and so is
-- logging.
--
-- Not modelled: the HTTP interface, the command line, the wiring and settings, the adapters of
-- databases and external services, and the graphs over LangGraph (I/O and third-party code); hybrid
-- retrieval, optimization, the ingestion of documents and the scheduler (other subsystems); of the
-- provider's snapshots, the parser and the bootstrap of a whole instance; of planning, the extraction
-- of requirements from documents.
pub mod Prelude
pub mod Errors
pub mod Commands
pub mod Queue
pub mod Worker
pub mod Workflow
pub mod Verification
pub mod Events
pub mod Locks
pub mod Policies
pub mod RateLimiter
pub mod Domain
pub mod Observations
pub mod Retry
pub mod Planning
pub mod Repositories
pub mod Topology
pub mod Provisioning
pub mod Sync
pub mod PullRequests
pub mod Access
pub mod CodeGraph
pub mod Impact
pub mod TestSelection
pub mod KnowledgeGraph
pub mod Context
pub mod Ingestion
