-- ===== src/Lib.antt =====
-- Pip: the deterministic control plane that turns authorized GitHub issues into reviewed pull
-- requests. This library models its decision logic and proves what each part promises.
--
-- The program's parts. The engine takes a case, one issue of one repository, through a workflow
-- of planning, building, CI, two independent reviews and a final review. `pip-core` decides and
-- touches nothing outside: an event, the state of the case and its context give the next state
-- and the effects to perform. `pip-contracts` checks what the workers of the stages return.
-- `pip-controller` turns an event into the transition that the ledger stores: it checks the
-- command against the stored case, asks `pip-core`, and computes the next plan version, round and
-- head. It makes the tasks of an effect that was claimed, for the workers that the workflow
-- policy names. `pip-store` keeps the cases, the events that moved them, and the outbox of
-- effects that the executors lease. `pip-control` feeds the controller from GitHub, workers and
-- timers.
--
-- Files and the code that they model:
--
--   Core/Domain.antt              crates/pip-core/src/domain.rs: identifiers and the case key
--   Core/StateMachine.antt        crates/pip-core/src/state_machine.rs: `transition`
--   Core/StateMachine/Wire.antt   crates/pip-core/src/state_machine.rs: `string_enum!`
--   Core/ExactHead.antt           crates/pip-core/src/exact_head.rs: `evaluate_exact_head`
--   Core/Policy.antt              crates/pip-core/src/policy.rs: `evaluate_intake`
--   Core/Revision.antt            crates/pip-core/src/revision.rs: `evaluate_case_command`
--   Contracts.antt                crates/pip-contracts/src/lib.rs: the results and their bindings
--   Contracts/Validation.antt     crates/pip-contracts/src/lib.rs: the `validate` methods
--   Contracts/Binding.antt        crates/pip-contracts/src/lib.rs: `validate_binding`
--   Contracts/Filling.antt        crates/pip-contracts/src/lib.rs: `fill_binding`, `decode`
--   Controller/Ledger.antt        crates/pip-controller/src/ledger.rs: commands and transitions
--   Controller/Ledger/Transition.antt
--                                 crates/pip-controller/src/ledger.rs: `transition_input`
--   Controller/Ledger/Batch.antt  crates/pip-controller/src/ledger.rs: `apply`, `apply_batch`
--   Controller/Reviews.antt       crates/pip-controller/src/results.rs: `join_review`
--   Controller/Results.antt       crates/pip-controller/src/results.rs: `map_event`
--   Controller/Results/Commands.antt
--                                 crates/pip-controller/src/results.rs: `result_workflow`
--   Controller/Scheduling.antt    crates/pip-controller/src/scheduling.rs: the checks of a policy
--   Controller/Scheduling/Policy.antt
--                                 crates/pip-controller/src/scheduling.rs: `WorkflowPolicy`
--   Controller/Scheduling/Tasks.antt
--                                 crates/pip-controller/src/scheduling.rs: the parts of a task
--   Controller/Scheduling/Dispatch.antt
--                                 crates/pip-controller/src/scheduling.rs: `dispatch`
--   Controller/Scheduling/Effects.antt
--                                 crates/pip-controller/src/scheduling.rs: `schedule_effect`
--   Store.antt                    crates/pip-store/src/lib.rs: the tables and the errors
--   Store/Statements.antt         crates/pip-store/src/lib.rs: `insert_event` and the other statements
--   Store/Checks.antt             crates/pip-store/src/lib.rs: `validate_common`, `replay_or_conflict`
--   Store/Step.antt               crates/pip-store/src/lib.rs: one transition of a batch
--   Store/Apply.antt              crates/pip-store/src/lib.rs: `apply_transition_batch`
--   Store/Creation.antt           crates/pip-store/src/lib.rs: `create_case`
--   Store/History.antt            crates/pip-store/src/lib.rs: `reconstruct_case`, the repair
--   Store/Runs.antt               crates/pip-store/src/lib.rs: `run_by_task_id` and the review runs
--   Store/Outbox.antt             crates/pip-store/src/lib.rs: `claim_effect` to `release_effect`
--   Store/Completion.antt         crates/pip-store/src/lib.rs: `complete_effect_evidence`
--   Store/Control.antt            crates/pip-store/src/control.rs: `parking_event`, `validate_resume`
--   Store/Commands.antt           crates/pip-store/src/control.rs: the commands of humans
--   Store/Heartbeats.antt         crates/pip-store/src/control.rs: since when a controller runs
--   Store/Moves.antt              crates/pip-store/src/lib.rs: sequences of these operations
--   Store/Attempts.antt           crates/pip-store/src/lib.rs: `begin_direct_attempt` and its ends
--   Store/Attempts/Cooldown.antt  crates/pip-store/src/lib.rs: outages and the delay of their effect
--   Store/Attempts/Counts.antt    crates/pip-store/src/lib.rs: what is read of the attempts
--   Store/Attempts/Steps.antt     crates/pip-store/src/lib.rs: sequences of these operations
--   Control/Park.antt             crates/pip-control/src/park.rs: where a parked case resumes
--   Engine.antt                   crates/pip-controller/src/ledger.rs on the ledger of pip-store
--   Engine/Ingest.antt            crates/pip-controller/src/results.rs: `ingest_worker_result`
--
-- The modules below each of them hold its proofs, the modules named Tests its runs.
--
-- How the code is read. A Rust enum is a data type with its variants in order, a struct a record,
-- a `Result` the type of Prelude/Outcome.antt with `?` as the bind of a `do` block, an integer a
-- native natural number whose range is written where the code checks it (`checked_next`). A
-- `match` is a function by clauses, in which the clauses of a variant pattern `A | B` stand one
-- under the other. `transition` is the early returns of the source in their order (`settled`,
-- then `live`) before the `match` (`workflow`). A `Vec` that is pushed to is passed through the
-- checks. A text is the native string; where the code walks bytes, its UTF-8 bytes
-- (Prelude/Text.antt). Sets of which only membership is asked are lists. A Git SHA of the core
-- and of the controller is its bytes. The values of `serde_json` are a parameter with the
-- questions that the code asks of them (`is_object`, a text at a key); where a result is filled
-- its objects are one, which give back what was last inserted at a key (`IsLawful`). The store is
-- a record of the operations that the controller calls, on any ledger that they work on;
-- Engine.antt fills it with the ledger of pip-store. The join of reviews takes what the store and
-- `serde_json` answered. The ingest of a result is planned first, on the tables, by the checks of
-- the source in their order (`plan_ingest`), and then handed to the ledger as the one or two
-- commands of the plan (`perform`); the values of results and findings, their equality and the
-- result that a value is read as are those of `serde_json`, a parameter (`Serde`). The object
-- that an effect carries is a record of its fields; the body of a task is the list of the fields
-- that are inserted. The evidence bundle of a case, the index of it, SHA-256 and the paths of the
-- standard library are parameters of the scheduling (`Outside`).
--
-- The ledger is a handle with its tables, which are lists of rows with the newest first. An SQL
-- statement is a function on a list (`update`, `count`, a search), an insertion is refused where
-- a primary key, a unique constraint or a check of the schema refuses it, and a transaction that
-- fails returns its error in place of new tables. The table of direct attempts stands beside the
-- others (`DirectStore`); its results are the texts that `serde_json` printed, which are read and
-- digested again as the source does, and printing, reading and SHA-256 are parameters (`Json`).
-- The payloads of events, runs, evidence and findings are kept as values, which takes what is
-- read of their text to be what was printed; their digests are parameters (`Codec`), as are the
-- checks of the events that operators authorize (`Guards`) and the reading of the payload of a
-- leased effect.
--
-- Bounds and fuel. The decimal printer recurs on a bound on its number, which is enough because
-- each round divides the number by ten. All other functions are structural.
--
-- Not modelled: SQLite itself (a table is what its statements make of it, and a
-- transaction that is dropped before its commit is rolled back); the ledger's task
-- projections, webhooks, policies, conversations and workspaces; the contents of the evidence
-- bundle of a case; the cycles of pip-control, of which only the resume targets are read here,
-- and the adapters pip-github, pip-hermes and pip-executor, which are HTTP, processes, Git and
-- files; the texts of error messages.
mod Prelude
pub mod Core
pub mod Contracts
pub mod Controller
pub mod Store
pub mod Engine
pub mod Control
