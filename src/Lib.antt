-- ===== src/Lib.antt =====
-- A model of the core logic of the custom Mattermost plugin for OpenClaw.
--
-- The plugin receives Mattermost posts, stores them as events in a durable queue, dispatches them
-- to OpenClaw, and streams the replies back to the web application of Mattermost.
--
-- Ingress* models src/mattermost/ingress-queue.ts: the queue that the monitor fills and drains.
--   Row has a row of `ingress_events` (StoredRow), the tests of its key and its token, and the
--   records that callers see (baseRecord, claimRecord, duplicateResult); Setup the helpers and the
--   name of a queue (createMattermostIngressQueue); Operations enqueue, complete, release, fail,
--   delete, refreshClaim and the lists; Claiming claim, claimNext and recoverStaleClaims;
--   Maintenance prune; History sequences of calls of several queues on one table.
--   Samples has small tables and options for the tests.
--   The other modules of Ingress hold proofs: Keys, Consistency and Invariant on the table, Custody and Rights
--   on what calls leave alone, Taking, Settling, Selection, Recovery, Retention and Delivery on what
--   the operations return; Phases has the abstract life of an event, Moves and Refinement that the
--   calls implement it.
-- Stream* models companion/webapp/src/stream-state.ts: Value the inspection of JavaScript values,
--   Snapshot parseSnapshot, snapshotForPost and messageForPost, Store the class EventStore.
--   Listeners, Publishing, Capacity and Histories hold proofs.
-- Reconnect* models src/mattermost/reconnect.ts (Loop, with Delays about it) and
--   src/mattermost/session-admission-retry.ts (Admission).
-- Form* models the matrix selections of src/mattermost/form-schema.ts: Selection has readSelections
--   and parseMatrixSelection, Matrix the proofs with the parser's tests, Allowed what they mean.
-- Monitor* models keepMattermostIngressAliveWhileDispatchPending of src/mattermost/monitor-ingress.ts:
--   Heartbeat has the bridge, Leases the proofs. Its callbacks of the source do not throw.
-- Reactions* models createMattermostReactionLifecycleStore of
--   src/mattermost/monitor-turn-reactions.ts: Lifecycle has the store, whose groups are objects at
--   addresses that its three maps share, and whose `finish` is two steps, before and after it awaits;
--   Custody and Handover have the proofs.
-- Picker* models src/mattermost/model-picker.ts: Context has the states and the contexts of the
--   buttons (buildContext, parseMattermostModelPickerContext), Pages paginateItems, Parts the
--   references, entries and buttons, Current the current model, Views and Runtime the four views.
--   Buttons and Paging hold proofs. `Sdk` is the record of what the file calls elsewhere, with what it relies on.
-- Slash* models src/mattermost/slash-commands.ts, src/mattermost/slash-state.ts and
--   src/mattermost/callback-host.ts: Commands has the payload of a callback, the settings and the
--   callback URL; Requests and Registration have registerSlashCommands and what it uses, over a
--   server that is a function of the requests so far and the next one; Routing the accounts
--   (activateSlashCommands, deactivateSlashCommands) and the HTTP route, with the readers of JSON
--   and form bodies as parameters. Sending, Ownership, Cleaning, Accounts and
--   Handlers hold proofs.
-- Callback* models src/mattermost/slash-http.ts: Limits the rate limit of the lookups, Caches the
--   remembered failures and clearMattermostSlashCommandValidationCacheForAccount, Lookup the lookup
--   and validateMattermostSlashCommandToken, Handler the HTTP handler up to the validation; what
--   awaits a lookup is in two steps, with any state between them. Agreement, Tokens, Rate, Allowance,
--   Memory and Refusing hold proofs. `Dates` is the record of the SDK's tests of timestamps.
-- Transition* models src/mattermost/channel-model-transition.ts: Lock has the transitions, whose
--   calls are two steps, before and after the task; Exclusion has the proofs.
-- Card* models src/mattermost/task-progress-card.ts: Lines has the normal forms of titles, explanations
--   and steps, Native the progress markup of native calls, Render renderMattermostTaskProgressCard,
--   State the variables of createMattermostTaskProgressCard, Sessions noteAgentEvent, Visible
--   noteVisibleWorkSessions, Writes publishLatest up to each request and from its answer on, Calls
--   the other methods, Run the histories: calls, starts of writes and answers. `writeTail` is a
--   queue, and one write waits for the server at a time. `Tools` is the record of what the file calls
--   elsewhere. Frame, Creation, Board, Soundness, Answers, Revisions, Work, Draining, Promises, Settling, Endings, Ending and
--   Links hold proofs.
-- Stop* models src/mattermost/preview-stop.ts: Registry has the turns of a monitor, their entries and the
--   registry, Cleanup what finish takes off the posts, Click handleMattermostPreviewStop up to its
--   first wait and from the answers on, Run the histories. An entry has the number of its object,
--   which no other entry has. Capability, Retirement, Expiry and Buttons hold proofs.
-- Base holds the shared names: results, lists measured by native numbers, integers, tables with the
--   SQL statements that the source uses, maps, stable sorting, and texts as the runtime treats them.
--
-- The choices of the model. The SQLite table is the list of its rows in insertion order; UPDATE,
-- DELETE and SELECT ... ORDER BY are functions on it, with the WHERE clauses of the source, in which
-- a test of a NULL column is not true, and a transaction that throws leaves the table as it was. The
-- clock's readings and the random tokens are arguments, one for each reading; times are
-- milliseconds. JSON is the interface `Json`, whose law is that parsing a stringified value gives it
-- back. `shouldRecover`, which is awaited between two statements, is a function that may change the
-- table. A Map is a list in insertion order, a listener is a number that stands for the identity
-- of the function, and a listener does not call the store again while it is notified. The jitter is
-- computed with exact fractions, where the source uses floating point. The waiting between the
-- requests of a registration is left out: an abort while it waits is a request that throws. A
-- handler of slash commands is a number that stands for its closure. A text is a list of code points, so
-- a cut by UTF-16 units that would split a surrogate pair drops the pair. The request for a card's
-- post carries the message and not the props, and `onSettled` is a counter.
--
-- Every loop of the source that is modelled runs over a list that is given, so recursion is
-- structural and no fuel is used.
--
-- Not modelled: the opening of the database and its schema, timers, HTTP and websocket traffic, the
-- plugin SDK, and the parts that are not named above, among them the monitor and the turn
-- orchestration, drafts, the authorization and the run of slash commands, approvals and the
-- companion's Go server.
pub mod Base
pub mod Ingress
pub mod Stream
pub mod Reconnect
pub mod Form
pub mod Monitor
pub mod Reactions
pub mod Picker
pub mod Slash
pub mod Callback
pub mod Transition
pub mod Card
pub mod Stop
