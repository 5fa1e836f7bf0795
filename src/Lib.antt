-- ===== src/Lib.antt =====
-- AgentPay Sentinel: a gateway that decides on payments which AI agents ask for, and the demo payment
-- provider behind it. This library models the gateway's decision and payment path and states what
-- makes it correct.
--
-- How the parts interact. A request enters at Pipeline/Route (gateway/routes/payments.py,
-- `create_payment_intent`): Identity and Bearer (gateway/identity.py) check the delegation token,
-- RateLimit (gateway/ratelimit.py) the ceilings of the last minute, Canonical (gateway/canonical.py)
-- builds the transaction. Under two locks (Store/Lock, `DistributedLock` of gateway/store.py)
-- Pipeline/Running and Pipeline/Acting (`_run_pipeline`) ask Duplicates (gateway/payments.py) for a
-- replay or a conflict, load Context (gateway/context.py), read the approval token (Approvals,
-- Tokens, Values: gateway/approvals.py, gateway/tokens.py), ask the policy decision point through
-- Pdp (gateway/pdp.py), and act by the decision. Payments (gateway/payments.py, gateway/models.py)
-- keeps the rows of the transactions, follows the state machine of Lifecycle, posts charges
-- (Payments/Submission) and sweeps (Payments/Recovery). Provider (mock_provider/main.py) takes the
-- charges. Audit (gateway/audit.py) chains the events, and Checkpoint (gateway/checkpoint.py)
-- anchors the chain's head elsewhere. Money (gateway/money.py) converts amounts. Before the payment:
-- ControlPlane (control_plane/routes.py) keeps the registry that Context reads and the revocation
-- set that Identity reads, behind Admin (control_plane/auth.py, audit.py, keys.py), which checks the
-- admin key, keeps the trail and mints the tokens that Identity decodes; Linking
-- (control_plane/telegram.py) binds Telegram ids to accounts. Of the analyzer (gateway/analyzer),
-- Classifier models llm.py, Analyzer/Rules rules.py, Analyzer/Window and Analyzer/Similarity
-- similarity.py, Analyzer/Trust trust.py and `combine`, and Analyzer/Analysis `analyze`; Risk models
-- gateway/risk.py. AgentRun (apps/agent-simulator/agent_simulator) is a client: the graph of
-- graph.py (AgentRun/Nodes, AgentRun/Graph) with the storefront and the payment tool, and the runs
-- of service.py (AgentRun/Service). Data and helpers: Schemas (gateway/schemas.py) and Json hold the
-- data, Store (gateway/store.py, `MemoryStore`) is the shared state. Prelude, Result and Clock are
-- helpers, Samples holds sample data and the theorems at it.
--
-- How state is modelled. An asynchronous function becomes a function from the state before to the
-- result and the state after; what it reads from outside (the clock, `uuid4`, the provider's answer,
-- whether a lock is taken) is an argument. Time is in microseconds. A raised exception is a value of
-- `Result`, and what was committed before it stays in the state. A payment's row, the audit log and
-- the charges posted are one `World`; the n-th audit event reads the n-th entry of `outside`. What
-- a lock writes to the shared store and takes away again is in Store/Lock alone: the state of an
-- operation that runs under it has the store without the lock's entries. The
-- clients of the lock interleave by an explicit step relation; the rest runs one request at a time,
-- as the locks have it. Requests to the control plane and steps of the gateway interleave by a
-- relation too (ControlPlane/Revocation). Loops run over lists, and the fifty attempts of the lock
-- are its fuel: it is the code's own bound. A run of the agent's graph has fuel for five nodes, the
-- longest path from the start to END or to the interrupt (AgentRun/Shape).
--
-- Arguments stand for code that is not here: PyJWT, SHA-256, `json.dumps`, `str` of a decimal,
-- Python's text methods, regular expressions, floats, OPA, the LLM and its crew, the HTTP calls. In
-- the pipeline the analyzer's `analyze` and the risk engine's `assess` are arguments too;
-- Analyzer/Analysis and Risk define them. Scores are whole thousandths, and amounts are compared
-- exactly where the risk engine divides them.
--
-- Not modelled: the visualiser's events (gateway/events.py), RedisStore, the validation of fields by
-- pydantic, the policies in Rego (policies), configuration, database sessions and start-up, and of
-- the applications below apps all but the simulator's graph and runs: the rest is messaging and
-- display.
pub mod Prelude
pub mod Result
pub mod Lifecycle
pub mod Slices
pub mod Linking
pub mod Admin
pub mod ControlPlane
pub mod Classifier
pub mod Analyzer
pub mod Risk
pub mod AgentRun
pub mod Clock
pub mod Json
pub mod Money
pub mod Schemas
pub mod Bearer
pub mod Identity
pub mod Canonical
pub mod Context
pub mod Pdp
pub mod Values
pub mod Tokens
pub mod Approvals
pub mod Audit
pub mod Checkpoint
pub mod Store
pub mod RateLimit
pub mod Duplicates
pub mod Payments
pub mod Pipeline
pub mod Provider
pub mod Samples
