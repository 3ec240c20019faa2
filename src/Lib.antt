-- ===== src/Lib.antt =====
-- A model of parts of the AI_OS kernel (kernel/src/ai_os_kernel).
--
-- The LLM Gateway, LlmGateway.antt and its children (kernel/src/ai_os_kernel/llm_gateway). A request
-- goes through `DispatchingLLMGateway.complete`, which asks the router for a chain of candidates and
-- tries one after the other; each is tried by `_call_with_backoff`, which repeats `_call`; `_call`
-- passes the budget enforcers, the rate limiter and the circuit breaker, calls a provider, and
-- reports what came back.
--   LlmGateway/Taxonomy        error_taxonomy.py, and `LLMProviderError` of errors.py
--   LlmGateway/CircuitBreaker  circuit_breaker.py, `InMemoryCircuitBreaker`
--   LlmGateway/Budget          budget_enforcer.py, the two enforcers and `step_scope`
--   LlmGateway/Router          router.py and capability_negotiator.py
--   LlmGateway/Backoff         backoff.py
--   LlmGateway/Gateway/Types   the records of models.py; the collaborators and surroundings of gateway.py
--   LlmGateway/Gateway/Call    gateway.py, `_call`, a function for each gate and each report
--   LlmGateway/Gateway/Complete  gateway.py, `_call_with_backoff` and `complete`
--
-- The Workflow Engine, WorkflowEngine.antt and its children (kernel/src/ai_os_kernel/workflow_engine).
-- Its repository keeps four tables: the instances, their events, the rows of step attempts, and the
-- outbox. Each write is a guarded update of one instance row with the rows that go with it.
--   WorkflowEngine/Definition  models.py, the declaration of a step and of a definition
--   WorkflowEngine/Instance    instance.py, step_record.py, and the rows that repository.py writes
--   WorkflowEngine/Repository  repository.py: the tables, the guarded update and its rejections
--     Statuses   `create`, `transition_to_running`, `cancel`, `mark_failed`, `retry`
--     Steps      `advance_workflow`, `reset_current_step`, `mark_waiting_for_human`,
--                `record_failed_attempt`, `step_failure_stats`
--                and what human_approval.py and run_manifest_recorder.py write of an instance
--     Commands   the writes as values, and the database after a history of them
--     Log, Agreement, Rows, Machine, Tables, Consistency, Races, Retries  the proofs
--   WorkflowEngine/Lease       lease.py: the table of leases, with the calls on it in Lease/Calls
--   WorkflowEngine/Service     service.py: which step comes next, over a definition that passes the
--                validators of models.py; `DecisionStepExecutor` of step_executor.py; the output that
--                quality_gate.py reads
--     Advance    `advance` and `retry_after_step_failure`, over the repository
--     Index, Walk, Branches, Commits, Progress  the proofs
--   WorkflowEngine/Approvals   human_approval.py: the table of approvals, `create_pending` and `decide`; who may decide is
--                asked of the Security Manager
--     Service    `ApprovalService.decide` and `HumanApprovalStepExecutor.execute`
--     Calls      histories of them, where a decision may read an older state than it writes
--     Decided, Changes, Permanence, Authority  the proofs
--   WorkflowEngine/Runner      advance_runner.py: the bounds of the retries; `run_once` and `run_to_completion` in
--                Runner/Loop; Bounds and Outcome are the proofs
--
-- The Capability Manager, CapabilityManager.antt and its children (kernel/src/ai_os_kernel/capability_manager):
-- the catalogue of packs and of their agents, tools, prompts and workflow definitions.
--   CapabilityManager            pack_state.py, the entries of a manifest, the tables of catalog_schema.py
--   CapabilityManager/Derive     manifest_catalog_installer.py: the rows that a manifest declares
--   CapabilityManager/Lifecycle  repository.py: `register`, `activate`, `deactivate`, `upgrade`, `mark_failed`,
--                `record_health`, each a transaction; the order of versions is a parameter
--   CapabilityManager/Polling    health_poller.py, `poll_pack_health`
--   CapabilityManager/Reconcile, Log, Published  the proofs
--
-- The Security Manager, SecurityManager.antt and its children (kernel/src/ai_os_kernel/security_manager): models.py,
-- approval_authorization.py, permissions.py, dependencies.py. What a token means is a parameter.
--   SecurityManager/Narrowing    narrowing.py, permission_grant.py of the capability manager, and `_refuse_if_over_granted` of
--                registry.py of the workflow engine
--   SecurityManager/Roles        role_administration.py: the grants of roles and the service in front of them
--   SecurityManager/Standing, Requests  the proofs
--
-- ConfigurationManager.antt: kernel/src/ai_os_kernel/configuration_manager/loader.py, the layers of a configuration and
-- their merge; Merge and Precedence below it are the proofs. A configuration is a JSON value whose numbers are
-- natural.
--
-- PromptEngine.antt: kernel/src/ai_os_kernel/prompt_engine, renderer.py, composition.py and cache_boundary.py, on texts as
-- lists of code points; Render and CacheBoundary below it are the proofs.
--
-- Observability/Audit.antt: kernel/src/ai_os_kernel/observability/audit.py, the hash chain of the audit
-- log. The digest (JSON and SHA-256) is a parameter.
--
-- Conventions. State is passed explicitly: a method takes the object's record and gives it back. An
-- exception is a value: `none` for a constructor's `ValueError`, `failed` for an `LLMProviderError`,
-- `refused` for an exception that nothing in the gateway catches. Times are natural numbers of
-- clock ticks, and a Decimal cost is a natural number of a smallest unit. Error messages are left
-- out. What a call asks of the outside (the clock, the random draw, the rate limiter, a provider) is
-- a function of `Surroundings` that takes the number of the interactions before it, so that any
-- sequence of answers is possible. One request is modelled on its own: what other coroutines do
-- to the breaker and the enforcers while it waits is not.
--
-- A transaction of the repository is a function from the database to the one with everything written
-- (`committed`) or to a reason (`rolled_back`): PostgreSQL runs guarded updates of one row one
-- after the other, and that is the order of a history. A write takes the clock of the process and that of the
-- database as they are at its time; nothing relates the two, nor the readings of two writes. A
-- database error other than a primary key that exists is not modelled. Fresh identifiers of event and
-- step rows, constant columns, and the idempotency key (made of workflow, step and attempt) are left
-- out; a JSON error with a reason alone is the reason.
--
-- The executor of a step is a parameter of `advance`, and what it wrote meanwhile is the difference between the
-- two databases that `advance` takes. In a run, what other workers write before each call of the lease service, the
-- service and the repository is a parameter too, by the number of the iteration.
--
-- The gateway's loops need no fuel: the retry loop recurses on the attempts that are left, the
-- fallback loop on the chain; and the loop of the runner on the iterations that are left.
--
-- Not modelled: the adapters, the call recorder and the prompt cache planner (I/O), embedding,
-- streaming and token counting, the listings of the repository, the recorders
-- that the service calls besides, the other step executors, and the other services of the kernel.
pub mod CapabilityManager
pub mod ConfigurationManager
pub mod LlmGateway
pub mod Observability
pub mod Prelude
pub mod PromptEngine
pub mod SecurityManager
pub mod WorkflowEngine
