-- ===== src/Lib.antt =====
-- HomePilot manages the machines of a home lab. A change to them is an artifact, a file with a
-- frontmatter and a body, which is proposed, approved by a person and then applied; agents on the
-- hosts register with a hub and report samples, on which alerts fire; guests are given machines
-- within a quota, and addresses. This library models those parts as they stand in src/homepilot/,
-- and proves what they promise.
--
-- Artifacts (src/homepilot/artifacts/). Artifacts/Model is the data of models.py with the table
-- VALID_TRANSITIONS and `validate_transition` of validator.py; Artifacts/Body is
-- `compute_body_hash` and the texts that transitions append; Artifacts/Spec is
-- `extract_composite_steps`. The state is `World` of Artifacts/World: the files of store.py, the
-- mirror and the approval codes in the database, the audit rows and the commits. Artifacts/Cascade
-- is `_composite_cascade`, Artifacts/Transitions holds approve, reject, mark_applied, mark_failed,
-- supersede and revoke of `ArtifactTransitionManager` (transitions.py), and Artifacts/Invalidate
-- holds edit and `_cascade_invalidate`. Artifacts/Machine puts all operations together as the steps
-- of one machine. Artifacts/Propose is `validate_propose_spec` of validator.py and `propose` of
-- lifecycle.py, with Artifacts/Proposal for the checks of single fields and Artifacts/Id for the
-- pattern of an id; Artifacts/Lifecycle is `approve` and `reject` of lifecycle.py, and
-- Artifacts/Codes is approval_code.py with its rows in repository.py of src/homepilot/db. An
-- operation is a function from the state to a result, which may be an error, and a state.
--
-- The recursion through composites passes its set `visited` along. It takes fuel: one more than the
-- number of files. That is enough, since each call that goes deeper has put one more file of the
-- store into `visited`, and a call on a file that is there already goes no deeper; the error
-- `out_of_fuel` has no counterpart in the source.
--
-- Executor (src/homepilot/executor/). Executor/Order is `_topological_sort` of composite_lib.py.
-- Its recursion takes fuel, one more than the number of steps, which is enough, since each deeper
-- call has put one more step into `visiting`. Executor/Composite is `execute` of composite.py, over
-- the parts that it is given: the store's statuses, and `apply` and `revoke` of the orchestrator.
-- Executor/Orchestrate is orchestrator.py: apply, replay and revoke of one artifact on the state of
-- Artifacts and a host, with the executors of the kinds and the snapshot call as parameters.
-- Executor/Orchestrate/Composed puts it in the place that Executor/Composite leaves for it.
-- Executor/Reconcile is `apply_single` of reconciler/apply.py, and Executor/Reversal is
-- rollback.py, which a proposal asks.
--
-- Tasks (src/homepilot/tasks/). Tasks is the table of repository.py with its operations, and
-- Tasks/Runner is `TaskRunner` of runner.py, which checks what it starts and runs the orchestrator.
-- Tasks/Steps takes every statement that writes to the table as a step of its own, so that starts,
-- runs and cancels interleave; a run and a start are one function each in Tasks/Runner.
--
-- Auth (src/homepilot/auth/). Auth/Scopes is scopes.py with the scopes of tokens.py, Auth/Request
-- is `require_token` and `require_scope` of deps.py with `resolve_api_token_tier` of mcp/server.py,
-- and Auth/Tiers is `mcp_tier_for_token` with the guard of `_handle_tool` of mcp/server.py.
--
-- Claim (src/homepilot/claim/). Claim is the row of repository.py, `ensure_claim_code` of
-- startup.py and `claim_instance` of router.py, which hand out the first admin credential;
-- Claim/Trust is `claim_source` of trust.py.
--
-- Mcp (src/homepilot/mcp/). Mcp/Approve is `handle_approve_artifact` of tools/artifact_tools.py
-- with its rate limit: the way by which an assistant may approve, with a code that a person relays.
--
-- Hub (src/homepilot/agent_hub/). Hub/Agents is the table of agents as repository.py of
-- src/homepilot/db keeps credentials in it, Hub/Tokens is `BootstrapTokenStore` of tokens.py,
-- Hub/Window is enrolment_window.py, and Hub/Auth is `_verify_auth` of server.py with
-- `_rebind_by_hostname` and `_enrolment_allowed`, which use the other three. Hub/Replay is
-- `NonceCache` of replay.py with `_check_register_freshness`, Hub/Session is `ReplaySession`, and
-- Hub/Canon is `_canon` with `canonical_bytes`, the text that the MAC covers.
--
-- Guest (src/homepilot/guest/). Guest/Quota is quota.py: the quotas, the sums over a guest's
-- machines, and the decision whether one more may be built.
--
-- Metrics (src/homepilot/metrics/). Metrics/Window is `breach_window` of repository.py, on the list
-- of the stored samples, and Metrics/Alerts is `condition_holds` and `AlertEvaluator` of alerts.py.
--
-- Provision (src/homepilot/provision/). Provision/Address is ip_allocation.py: the scan of the
-- guests' configurations, and the lowest free address.
--
-- Base has what the parts share: Python's dictionaries as association lists, texts as code points,
-- Boolean tests, and the counting argument for the fuel.
--
-- SHA-256, the MAC of a frame, the YAML loader, the clock, random tokens and whether the mirror and
-- the approval codes can be written are parameters, and so are glob matching, comparisons of samples and the Proxmox
-- client. Not modelled: git, file locks and paths, the transport of the hub, the executors of the
-- kinds, the other provisioning of machines, the other reconcilers, and the rest of the interfaces
-- (MCP, web, command line), which call what is modelled. The parsers of two kinds of spec, and the
-- searches of a body for secrets and expressions, are parameters of a proposal. The insert of an
-- audit row is taken to succeed: in the source it may raise after the file has been written, and
-- what comes after it is then left out. Each function is one step, so what the source awaits within
-- an operation does not interleave with another: a transition holds the lock of its own file while
-- it reads and writes it, and a count of wrong codes and the starts of a revoke and a replay hold
-- none. Only Tasks/Steps takes such pieces apart.
pub mod Base
pub mod Artifacts
pub mod Auth
pub mod Claim
pub mod Guest
pub mod Executor
pub mod Mcp
pub mod Hub
pub mod Metrics
pub mod Provision
pub mod Tasks
