-- ===== src/Lib.antt =====
-- Army of God: an Agent platform that learns which tasks its users repeat, promotes them to
-- contracts with a capability scope and a budget, and routes later prompts to them. The server keeps
-- everything in one JSON store; the services change it by mutations that run one after another.
--
-- The parts that are modelled, and their files:
--
-- - Records, Records.Runs, Records.Routes: the store's records (apps/server/src/types.ts,
--   apps/server/src/codify/types.ts).
-- - Store: `JsonStore.mutate` and its queue (apps/server/src/store.ts), over any state; whether the
--   file is written is an argument.
-- - Planner: `parsePlan`, `readySteps`, `waves` (apps/server/src/codify/planner.ts). The lines of the
--   reply are given taken apart: the regular expression STEP_LINE is not modelled.
-- - Session: `pendingSteps`, `shouldStop`, `claimTurn`, `settleTurn`
--   (apps/server/src/codify/coordination.ts), `createSession`, `stopSession`
--   (apps/server/src/codify/service.ts). `Session.Steps` has any sequence of these calls as a step
--   relation; a `Caller` says which claims and settlements are made, as `planWave` (service.ts) and
--   `runSessionTurn` (apps/server/src/agent-service.ts) make them.
-- - Budget: all of apps/server/src/codify/budget.ts. The loops of `contractLineage` run on fuel, one
--   round more than there are contracts: every round but the last adds a contract's id that the
--   lineage did not hold. `Budget.Counted` has the number and the tokens of the runs under a lineage
--   as a description of its own.
-- - Scope, Text: all of apps/server/src/codify/scope.ts, with strings as lists of code units.
--   `toLowerCase` and `localeCompare` are parameters.
-- - Contracts: `reviseContract` and `applyRefinement` (service.ts), each as what is prepared on a
--   snapshot and what the mutation then does.
-- - Matching, Routing: `matchAgainst`, `bestMatch` (apps/server/src/codify/semantic.ts), `route`,
--   `bindToPrincipal`, `summarise` (service.ts). Scores are of a type `F` with the operations that
--   the code applies to them, and the score of each channel is an argument. The sentence of a
--   decision is a data type with what the sentence shows.
-- - Runs: the mutations of `sendMessage`, `executeRun`, `initialize` and `setStatus`
--   (apps/server/src/agent-service.ts) on agents, runs and messages; `Runs.Open` has any sequence of
--   them as a step relation.
-- - Agents: `createAgent`, `applyBriefToAgent`, `updateAgent`, `deleteAgent`, `lastResponder`,
--   `getMessages`, `resetSession`, `getRun`, `getRuns`, `resumeThread`, `captureFeedback`
--   (apps/server/src/agent-service.ts). A call that reads a snapshot before its mutation takes both.
-- - Promotion, Matching.Clusters: the mutations of `recordPromptObservation` and
--   `backfillEmbeddings`, that of `recordRunEvidence` as far as it records behaviour,
--   `refreshCandidates`, `listCandidates`, `getCandidate`,
--   `approveCandidate`, `rejectCandidate`, `dedupeExemplars` (service.ts), `clusterByMatch`
--   (semantic.ts). The name and the brief that regular expressions and a model make of the prompts
--   are arguments. `Promotion.Stages` has any sequence of them, with snapshots of earlier stages.
-- - Snapshot: `snapshotWorkspace`, `diffWorkspace`, `pathsNamedByCommands`
--   (apps/server/src/codify/workspace-diff.ts). What `readdir` and `stat` report is an argument, as a
--   tree; the walk recurs on it.
-- - Trace: all of apps/server/src/codify/trace.ts; the calls of a tracer are any sequence. The store's
--   spans are apart from the tracer's, where the code lets the store hold the tracer's own objects
--   until the next mutation clones them.
-- - Session.Selection, Session.Split: `selectParticipant`, `planInstruction`, `buildInstruction`
--   (coordination.ts), `coordinatePrompt` (agent-service.ts).
-- - Session.Driver: `selectFor`, `planWave` (service.ts), `advanceSession`, `runSessionTurn`,
--   `runSessionToCompletion` (agent-service.ts). The turns of a wave run at once: a schedule is any
--   sequence of their claims and settlements and of an administrator's stops, and what a turn does
--   between the two is its outcome.
-- - Container: `containerName`, `workspaceMounts`, `buildContainerRunArgs`
--   (apps/server/src/container-codex-runner.ts), `buildCodexArgs` (apps/server/src/codex-runner.ts).
-- - Prelude: shared helpers. Examples: runs at concrete inputs, and the theorems applied to them.
--
-- `waves` runs on fuel as well, one round more than the plan has steps, and stops as the code does
-- when a wave is empty or no step is left. The loop of `runSessionToCompletion` runs on the guard that
-- the code counts, one round more than the session's ceiling, and its result says whether it ended by
-- its break.
--
-- Identifiers, contracts' names and timestamps are strings, and what the code takes apart is a list
-- of code units; times and new ids are arguments. Numbers are
-- natural numbers: the code's counts, limits and indices are whole and not negative, and stay far
-- below the bound to which its floating-point numbers are exact. A missing field is `none`.
--
-- Not modelled: `sendMessage` and `executeRun` as whole calls and `cancelExecution`, `autoPromote` and
-- the refinement of contracts from feedback, `parseDeclaredState`, `pathsRefusedByOutput`, redaction,
-- fingerprints, continuity, the HTTP interface, the runners but for the arguments of a container, the broker,
-- the model client and the web interface: regular expressions over free text, processes, files, the network and the screen.
mod Prelude
pub mod Text
pub mod Records
pub mod Store
pub mod Planner
pub mod Session
pub mod Budget
pub mod Scope
pub mod Contracts
pub mod Matching
pub mod Routing
pub mod Runs
pub mod Snapshot
pub mod Trace
pub mod Agents
pub mod Promotion
pub mod Container
mod Examples
