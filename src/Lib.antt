-- ===== src/Lib.antt =====
-- Snapdragon's gateway in process: the state that its stores keep, their operations, and how the
-- client joins them; sessions and the compaction of what an agent sees of them; the world of its user
-- interface and the editing of its prompt; the search over prompts; the requests an agent makes of a
-- provider; and the registry of its host.
--
-- The program. Snapdragon runs agents. Its gateway holds what outlives one run of an agent: jobs
-- that wait in queues, the workers that lease them, services that run now and then, mailboxes of
-- actors, events, tables, capabilities, sandboxes and a log. packages/gateway has a client of a
-- daemon for this and, for tests and embedded hosts, the gateway in process that is modelled here.
-- The client (packages/gateway/src/inline.ts) owns one store for each kind of entity and hands every
-- call to one of them; a job that is leased or ends goes through two, the jobs and the workers.
-- Stores write to the log through the client.
--
-- The files.
--   Prelude          library names passed on, Boolean tests, lists, `Map` as the list of its entries in
--                    the order of insertion, the stable `sort`, `trim` and identifiers, JSON values
--   Gateway/Effects  what a method is: a function of the store to its result, the new store and the
--                    lines it logs; a method that may throw returns an `Outcome`
--   Gateway/Types    jobs and leases of packages/gateway/src/types.ts
--   Gateway/JobHelpers  inline-job-helpers.ts: the choice of the next job, queue depths
--   Gateway/Jobs     inline-jobs.ts: enqueue, cancel, acquire, complete, fail, retry, counts
--   Gateway/Workers  inline-workers.ts: register, heartbeat, markLeased, clearLease
--   Gateway/Services inline-services.ts: register, enable, run, list
--   Gateway/Mailboxes   inline-mailboxes.ts: send and selective receive
--   Gateway/Events   inline-events.ts: append, list, cancel
--   Gateway/Tables   inline-tables.ts: create, names, snapshot
--   Gateway/Registry inline-registry.ts: register, whereis, snapshot
--   Gateway/Sandboxes   inline-sandboxes.ts: register, list, show, release, expire
--   Gateway/Agents   inline-agent-runtimes.ts and the descriptors of agent runtimes
--   Gateway/Logs     inline-logs.ts: append, tail, failures
--   Gateway/Client   inline.ts: the calls that reach the stores
--   Gateway/Filters  query-filters.ts: what a snapshot keeps of each store
--   Gateway/World    world.ts: the snapshot of the stores side by side
--   Gateway/Query    rest-query.ts, rest-query-values.ts: its options from the search part of a URL
--   Ui               packages/ui/src: the world of user-interface components and its events
--   Host             packages/host/src/registry.ts, stream/events.ts: capabilities, listeners, chats
--   Session/Records, Tokens, Summary   records.ts, context-options.ts, tokens.ts, context-summary.ts: what
--                    a file holds, what a text costs, and the text of a summary
--   Session/Packing, Window   context-packing.ts, context-window.ts, session-compaction.ts: which messages
--                    a chunk stands for, the messages of a request, and the passes of a compaction
--   Session/Lines    records.ts: the counters of a file from its raw lines
--   Session/Files    session.ts with its readers: JsonlSession
--   Session/Selecting, FreshTail, Prefixes, Watermark, Planning, Covering, Ending, Compaction, Counting, History,
--   Session/Reading, Bounds   what is proved of these
--   Sd/Draft         packages/sd/src/tui/draft-edit.ts: the text and the cursor of the prompt
--   Learn/Doubles    floating-point numbers as an interface
--   Learn/Candidates, Selection   gepa-types.ts, gepa-rng.ts, gepa-selection.ts: scores, dominance, the
--                    front, the choice of a parent
--   Learn/Dominance, Front   what dominance and the front are
--   Learn/Memory, Merge, Loop     gepa-memory.ts, gepa-merge.ts, gepa.ts and gepa-iterations.ts
--   Agent/Budget, Messages, Context   request-context*.ts: the budget and the tails of a request, the message
--                    that is replaced, the attempts on a session; JsonlSession is an AgentSession
--   Agent/Provider   provider-request.ts, provider-retry.ts, request-context-error.ts
--   Agent/Tails, Chosen, Keeping, Sending   what is proved of these
-- The files of packages/gateway/src that stand here without a folder are in that folder. Below a
-- component, the modules with proofs are named for what they prove, and Tests has runs.
--
-- A session (packages/session/src) is a file of records that only grows. A request shows the agent its
-- messages; old ones are summed up by chunks, which are records too, and a request then shows the
-- summaries and the messages above the watermark, the end of the latest chunk. The search over prompts
-- (packages/learn/src/gepa*.ts) keeps candidates with their scores, chooses parents from the Pareto front
-- of them, and remembers for each target what scored best and worst.
--
-- An agent (packages/agent/src) makes a request out of its session: it compacts the session with smaller
-- and smaller fresh tails until the messages fit, and sends them to a provider, again under more pressure
-- or after a pause when the provider throws certain errors.
--
-- Apart from these, packages/ui keeps a world of components that events change; sd draws it; and packages/host
-- registers capabilities and the listeners of streamed chats.
--
-- The correspondence.
--   A method has the source's name in snake case. A class is the record or the map that it keeps.
--   Each call reads the clock once, as the argument `now`, also where the source reads it again in
--   the same synchronous call; ids that the source makes at random are arguments.
--   Objects that the source changes in place are set anew at their key. Services alone are a heap of
--   objects and a map from names into it, since a run holds on to its service over an `await`; the
--   two sides of it are `begin_run` and `end_run`.
--   A method that throws keeps what it wrote before; the fields of a heartbeat are a list of edits.
--   Times, counts and durations are natural numbers and a priority is an integer; fractions, NaN and
--   infinities are outside. Values of type `unknown` are JSON values. `localeCompare` is an argument.
--   Objects of JSON keep their keys in the order of insertion; keys are taken to be distinct.
--   A snapshot of the world reads the stores with no other call in between.
--   Texts are native strings, and lists of UTF-16 units where the source measures or cuts them.
--   A session's file is the list of the records that were written, in their order, so that a line cut
--   off by a crash is outside. `JSON.stringify` is a parameter, also where the opening of a file looks for
--   texts in its lines.
--   3.5 units to a token are 7 for two: quotients are of natural numbers, and rounded as the source does.
--   The compaction takes the function that writes a chunk as an argument, as in the source; theorems
--   on it rely on that function keeping the range it is given, and the session's does.
--   The cursor of a prompt is an integer, as it may be negative before it is clamped. Which units are in
--   words is a parameter, for a regular expression of Unicode classes.
--   Of floating-point numbers only the order of scores has laws: it is a strict weak order,
--   as it is without NaN. The random numbers of the search are arguments, and so is an iteration of it,
--   which calls evaluators and providers of texts; one that throws is outside.
--   The product of a budget with the factor of a pressure is a parameter, as are the provider, the tests
--   of errors by regular expressions, and the errors that code of others throws while the messages of a
--   request are put together. A pause before a retry changes no state.
--   Fuel: the passes of a compaction are bounded in the source, and Session/Ending says how many are
--   enough; the loops to the right of a cursor get the length of what is right of it, and the digits of
--   a number n get n + 1 rounds; the halving of a tail gets as many as the tail (Agent/Tails) and the
--   sending of a request nine (Agent/Sending). Other loops run over a list.
--
-- Not modelled: the client of the daemon, the routes of REST and the Pi runtime of packages/gateway, which
-- are built on other processes or on these stores; the directory of sessions, its index and the previews
-- of lines; the evaluation of candidates, datasets and rubrics of packages/learn; the agent's turns, tools,
-- providers and checkpoints; the rest of sd; and the crates, which are Rust.
mod Prelude
pub mod Gateway
pub mod Ui
pub mod Host
pub mod Session
pub mod Sd
pub mod Learn
pub mod Agent
