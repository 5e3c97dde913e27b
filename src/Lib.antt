-- ===== src/Lib.antt =====
-- Verification of the control plane of self-hosted CI: the Python package github_automation, which
-- decides for each pull request whether a test run on the operator's own machine or a GitHub-hosted
-- run gives the verdict, and delivers it to one Check Run.
--
-- The parts and their files
--   github_automation/gatestore.py, the transactional store of gates that concurrent
--   coordinators share, is GateStore. Rows has the tables and the dataclasses, Monad the
--   transaction, Queries the SQL statements and `_owned`, Heads `observe_head`, Leases
--   `acquire` and `heartbeat`, Nonces `bind_attestation_nonce`, Admissions
--   `create_local_admission_after_pre_marker_verify`, Completions `_complete`, Verdicts the
--   four methods that decide a generation, Outbox the delivery side. Calls puts every writing
--   method into one type; `run` is a history of calls, each with its own clock reading and
--   fault hook. Moves, Lemmas, Effects, Permanence, Histories and Tables say what a call can do
--   to the tables; Fencing, SingleWinner, Commits, Overtaking, Agreement, Replays and
--   HeadEpochs say what follows.
--   github_automation/timing.py is Timing (Deadlines and Failures),
--   github_automation/watchdog.py is Watchdog (Planner is `reconcile`, Execution is
--   `execute_decision`), which uses Timing.
--   github_automation/check_delivery.py is CheckDelivery, with GitHubCheckTransport of
--   github_automation/github_adapter.py in Transport and what a delivery leaves in Deliveries;
--   github_automation/policy.py with the
--   freshness test of inventory.py is Policy, github_automation/operator.py is Operator, and
--   github_automation/pr_autodispatch.py is AutoDispatch.
--   github_automation/coordinator.py is Coordinator: Adapters has the protocols of the broker, of
--   GitHub, of the signer and of the progress record as functions that may raise, Packages the
--   mappings, also that of `github_hosted_fallback`, Dispatch `outbound_local_dispatch`. Sending and
--   Record say what it may dispatch, Races what a hosted run presupposes.
--   github_automation/local_approval.py: its LocalApprovalStore is LocalApproval. Rows has the
--   tables, Requests the checks of a work request, Approve `approve`, Claims the calls on one
--   approval, Polling `poll`, Discards the blocks, the discard checks and `status`, and Calls
--   one type of all calls and of their transactions. Steps is what a statement may do to the
--   table, Moves that each call does no more; Histories, Uniqueness, Approvals, Results,
--   Recovery and Polling/Termination say what follows. It calls GateStore's `observe_head`.
--   github_automation/registry.py is Registry, github_automation/approval.py is Approval, and
--   the audit log of github_automation/observability.py is Audit.
--   github_automation/runner_jit.py is Allocation. Formats and Payload validate, sign and verify an
--   allocation and its reservation; Rows has the tables of SqliteAllocationLedger, Admission
--   `admit`, `reserve`, `finalize`, `bind_scale_set` and the reading methods, Lifecycle
--   `transition` and `get`, with one function for each action in Actions, Outcomes the diagnostic events, Opening
--   the constructor's migration, and Calls one type of all calls that write. Lives is what the
--   ledger promises: a graph of the lives of an allocation. Steps is the table's invariant and what
--   an allocation may become, Updates its statements; Reading, Transitions, Moves and Migration that each call does no
--   more; Histories, Starts, Uniqueness, Nonces, Cleanups and Signing say what follows.
--   github_automation/runner_jit_broker.py is Broker, the client of that ledger and of a driver.
--   Recovery has `reserve`, `finalize`, `finish`, `recover` and `recover_all`, Jobs
--   `job_started` and its observation loop, Outcomes `record_outcome`. Moves says that the broker
--   changes the ledger by its calls only; Cleaning, Guarantees, Starting and Waiting say what
--   holds where a method returns.
--   Effects is state with exceptions and transactions, for LocalApproval, Allocation and Broker:
--   Related is what an action may change, Raised what it may raise, Found what it has read, Returned what it has done that has returned; Texts has the regular
--   expressions for SHAs, digests and names. Prelude has the shared tests, lists and tables;
--   Json has the objects that are hashed and stored.
--
-- How the code is modelled
--   A method of the store is a function from a database to a result or an exception and a
--   database; messages of exceptions are left out. A table is a list of rows, the newest first;
--   an UPDATE changes the rows under a key, an INSERT checks the keys, the UNIQUE columns, the
--   foreign key and the CHECK constraints that the values can break. SQLite's BEGIN IMMEDIATE
--   makes a call one step.
--   An instant is its UTC time in microseconds, also where the store keeps its ISO text; a naive
--   datetime, which the program refuses, is no value. A timedelta argument is an integer. Numbers
--   that the program requires to be positive are natural numbers. Texts are compared whole.
--   The JSON codec, SHA-256, the texts of numbers and instants, the clock, `uuid.uuid4` and the
--   fault hook are parameters. HTTP requests and the watchdog's adapter are
--   functions on an abstract state, as are the coordinator's adapters; the validation of a
--   protocol package is one of their fields, and any function may stand for it.
--   In LocalApproval the stamps of the table are whole seconds, the text of `active_key` is
--   kept as its three parts, and one call has the clock, the resolver, the builder, the random
--   values, the codec and the validators of other modules in a World; none stands for an
--   exception. What `approve` and `poll` do between their transactions reads one World, and a
--   history may also have each transaction as a call of its own.
--   In Allocation a column keeps the text that the payload has, times included, a flag is a boolean,
--   and a state is one of seven; canonical JSON, SHA-256, signatures and the parsers of times,
--   UUIDs and JSON are Services, where none stands for an exception. Each method is one
--   transaction. The driver of the broker is a record of functions on a world of any type, which
--   hold no ledger; its clock is one of them, and a timeout that may be negative is a pair of
--   readings. A job's context is the mapping that the hook is given.
--   An audit record keeps whatever an import finds; JSON numbers are natural numbers.
--   Recursion is structural but for three loops, which have fuel. Each round of `poll` that goes on
--   settles or claims a pending approval, so one more round than there are pending ones is enough.
--   Each round of `_wait_for_observation` that goes on sleeps, so more fuel than microseconds are
--   left is enough. `_wait_for_cleanup` repeats while the driver measures residue, and with
--   whatever fuel: what is shown of it is shown where it returns.
--
-- What is not modelled
--   The rest of github_adapter.py, the resolver and the builders of local_approval.py, the alerts and the evidence bundle of
--   observability.py, the validation of protocol packages in github.py, and the coordinator's
--   command line and environment. The driver of the GARM command line, its diagnostics and
--   `durable_denial_cause` of runner_jit_broker.py; the creation of tables and columns. Connections, pragmas and files of SQLite; HTTP, processes and
--   command lines; signatures. The other modules of github_automation, the host scripts,
--   images, packaging and templates.
pub mod Prelude
pub mod Json
pub mod Texts
pub mod Effects
pub mod GateStore
pub mod Timing
pub mod Watchdog
pub mod CheckDelivery
pub mod Policy
pub mod Operator
pub mod AutoDispatch
pub mod Audit
pub mod Registry
pub mod Allocation
pub mod Broker
pub mod Approval
pub mod Coordinator
pub mod LocalApproval
