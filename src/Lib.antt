-- ===== src/Lib.antt =====
-- Sibyl: agents and plans that run as Temporal workflows.
--
-- Parts and how they interact. A plan is a graph of activities: package plan checks it, orders it in
-- layers, and runs the layers as a workflow. ConvergeWorkflow runs a researcher and a critic in
-- rounds until the critic approves. SupervisorWorkflow splits a question, runs a convergence loop
-- for each part and puts the answers together. Agents are functions wrapped in behaviours; the
-- behaviour of the human verdict posts an agent's output through the channels dispatcher and waits
-- for an answer there. The OAuth package gets tokens by a workflow that a callback wakes up, keeps
-- them in a store, and refreshes them when a call is refused. The event broker hands the events of
-- workflows to subscribers over bounded channels. The tool agent lets a model call tools in a loop,
-- such as the calculator and the reader of files; calls of a model go through middleware that retries
-- and caches. The Slack adapter is a channel of the dispatcher; an agent that needs credentials gets
-- them through the refresh of the OAuth package. PRReviewWorkflow lets three reviewers read a change
-- and a fourth put their reviews together; its activities emit events, through the broker, that show
-- the answers of the model as they come. The API server starts that workflow and streams its events to
-- a browser. Models are reached over HTTP or a subprocess, Okta over HTTP, and tokens and cached answers
-- can be kept in SQLite.
--
-- Files and the code they model:
--   Plan/Options     plan/plan.go: Options, Over, Check, OptionsFor
--   Plan/Graph       plan/plan.go: Node, Plan, Validate, Layers, Leaves
--   Plan/Layers      the proofs about Layers; Plan/Validation and Plan/Leaves: about Validate, Leaves
--   Plan/Run         plan/workflow.go: Workflow, activityOptions, Echo, Submit
--   Converge         agent/workflow.go: ConvergeWorkflow; its data from agent/types.go
--   Converge/Activities   agent/activities.go: Research, Critique; trimResponse of agent/llm.go
--   Supervisor       agent/supervisor.go: SupervisorWorkflow, Decompose; agent/decompose.go
--   Supervisor/Split       agent/decompose.go: splitHeuristic; Supervisor/Parts: the proofs about it
--   Supervisor/Synthesis   agent/decompose.go: synthesizeArrow
--   Channels/Types   channels/types.go
--   Channels/Setup   channels/channels.go: New, its options, the routers, PassthroughResolver
--   Channels/Post    channels/channels.go: Notify; Channels/Delivery: the proofs about it
--   Channels/Race    channels/channels.go: Await, normalize; Channels/Verdicts: the proofs
--   Channels/Durable channels/temporal/temporal.go: the options of its activities
--   Agents           agents/agent.go: Register; agents/verdict.go and agents/predicates.go: predicates
--   Agents/Verdict   agents/verdict.go: WithHumanVerdict, AlwaysAskPolicy; Agents/Asking: the proofs
--   Agents/Policies  agents/verdict.go: NeverAskPolicy; agents/predicates.go: SeverityIn
--   Agents/Credentials   agents/oauth.go: WithOAuth; Agents/Credentials/Injected: the proofs
--   Slack            channels/slack/slack.go: New, its Notify and Await; Slack/Render: DefaultRender;
--                    Slack/Reacted: the proofs about Await
--   OAuth/Types      auth/oauth/types.go, auth/oauth/provider.go
--   OAuth/Store      auth/oauth/store.go: MemoryTokenStore; OAuth/Stored: the proofs about it
--   OAuth/Refresh    auth/oauth/flow.go: WithRefresh, CurrentSession; OAuth/Current: the latter's proof
--   OAuth/Flow       auth/oauth/flow.go: NewFlow; auth/oauth/workflow.go: OAuthFlowWorkflow
--   OAuth/Performed  auth/oauth/activities.go: Exchange, Whoami, StoreTokens, and the workflow on them
--   OAuth/Cipher     auth/oauth/crypt.go: AESGCMCipher and its proof
--   OAuth/Registry   auth/oauth/provider.go: Registry, Use
--   OAuth/Memory     auth/oauth/store.go with crypt.go: the store that WithRefresh asks for
--   OAuth/Callback   auth/oauth/start.go, callback.go, request.go, and the state mapper and
--                    ParseCallback of activities.go; OAuth/Routing: the proofs
--   Broker           agent/broker.go: MemoryBroker; Broker/Steps, Broker/Shutdown: the proofs about it
--   ToolAgent        agent/tool_agent.go: RunToolAgent, its loop; agent/tools.go: Register, Get
--   ToolAgent/Prompts   agent/tool_agent.go, agent/tools.go: the two prompts, sortStrings
--   Calculator       agent/tools_builtin.go: CalculatorTool; Calculator/Syntax: the grammar;
--                    its other children: the proofs
--   FileRead         agent/tools_builtin.go: FileReadTool; FileRead/Roots and
--                    FileRead/Allowed: the proofs about it
--   Middleware       agent/middleware.go: WithRetry; Middleware/Retrying: the proofs about it
--   Middleware/Caching   agent/middleware.go: MemoryCache, WithCache; Middleware/Transparent: the proofs
--   Events           agent/events.go, and the Emitter of agent/broker.go
--   Streaming        agent/stream.go
--   Review           agent/review_workflow.go; Review/Reviewed: the proofs about it
--   Arrows           agent/convergence_arrows.go
--   Middleware/Accounting   agent/tokens.go: WithTokenAccounting; agent/llm.go: Chain
--   Middleware/Persistent   agent/cache_sqlite.go; Middleware/Persistent/Expiry: the proofs about it
--   Middleware/Metrics      agent/metrics.go: the observations, WithMetrics
--   OAuth/Sqlite     auth/oauth/store_sqlite.go; OAuth/Sqlite/Mirrors: the proofs about it
--   OAuth/Fields     auth/oauth/providers/okta/okta.go: the fields of a reply
--   OAuth/Okta       auth/oauth/providers/okta/okta.go; OAuth/Okta/Replies: the proofs about Refresh
--   Anthropic        agent/anthropic.go; Anthropic/Chunks: agent/anthropic_stream.go;
--                    Anthropic/Chunks/Collected: the proofs about the stream
--   ClaudeCode       agent/claudecode.go
--   Scripted         agent/llm.go: ScriptedLLM
--   WebSearch        agent/tools_builtin.go: WebSearchTool; WebSearch/Results: the proofs about it
--   Supervisor/Merging   agent/synthesize_llm.go: LLMSynthesizer
--   ApiServer        cmd/api-server/main.go: the handlers of /run and /events; ApiServer/Streamed and
--                    ApiServer/Started: the proofs about them
--   Worker           cmd/worker/main.go, cmd/api-server/main.go: the choice of backend and cache
--   Http             the requests and responses of net/http that the adapters share
--   Prelude          results and errors, Go's maps, integers and strings, lists, sorting
--   Examples         runs at fixed inputs, and the theorems at concrete inputs
--
-- How the code is modelled. Go's (value, error) is a Result, or a value with an optional error where
-- the code returns both. A map is an association list with each key once; where the code iterates
-- over a map the order is lost by a sort, is an argument, or is named as unspecified. Goroutines
-- that race are a list of what they return in an order of arrival. An int is an integer without
-- a bound; no modelled sum comes near a machine bound, since it counts nodes, rounds or answers. The
-- delay of WithRetry, which doubles, and the lifetime of a token of Okta are the bits of an int64.
-- Where positions in a text matter, a text is its bytes. A time is a number of nanoseconds since Go's
-- zero time, a duration a number of nanoseconds, and a reading of the clock is an argument.
-- Temporal, HTTP, random bytes, ciphers, JSON and the clients of other services are parameters: an
-- activity or a child workflow is a function of its input that gives what it returns after its
-- retries.
--
-- The broker is a state whose operations interleave as steps, with the sends of a Publish apart.
--
-- Loops and fuel. The layering loop has the number of nodes as its fuel, which is enough since every
-- round takes at least one node; that it never runs out is a theorem. The convergence loop recurses
-- on the rounds that are left, the tool agent on its steps, WithRetry on its attempts. The calculator
-- has three times the length of its text and three as fuel, since a byte is passed within three calls;
-- the split of a question has the length of the question and one. The wait of the Slack adapter takes
-- the number of its polls as an argument. All other loops are on a list.
--
-- Not modelled: logging and tracing, cancellation of contexts but for the waits of WithRetry, of the
-- Slack adapter and of the stream of Anthropic, the set-up of databases and of Prometheus, the rest of
-- the commands and servers, and the registration of workflows. A database is the statements that the
-- code runs, with what SQL says of a table with the primary key. Supervisor takes the split of a
-- question into parts as a parameter, which Supervisor/Split models.
mod Prelude
pub mod Plan
pub mod Converge
pub mod Supervisor
mod Examples
pub mod Channels
pub mod Agents
pub mod OAuth
pub mod Broker
pub mod ToolAgent
pub mod Calculator
pub mod FileRead
pub mod Middleware
pub mod Slack
pub mod Events
pub mod Streaming
pub mod Review
pub mod Arrows
pub mod ApiServer
pub mod Http
pub mod Anthropic
pub mod ClaudeCode
pub mod WebSearch
pub mod Scripted
pub mod Worker
