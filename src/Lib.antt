-- ===== src/Lib.antt =====
-- The agent workspace: a chat product whose agent loop calls language models through a metered
-- gateway, keeps its conversation within a context budget, asks for consent before irreversible
-- actions, and stores its history. This library models the parts of it that carry its rules.
--
-- Which file models which part:
--   Common        shared names, Boolean tests, lists over the native numbers, text, option chains
--   Protocol      packages/protocol/src: messages.ts (Messages), cost.ts (Cost), events.ts
--                 (Events), agui.ts (AgUi and below)
--   Core          packages/core/src: tokens.ts (Tokens), condenser.ts (Condenser and below),
--                 pinning.ts (Pinning and below), adapter.ts (Adapter and below), agent.ts (Agent:
--                 prepareStep and the loop over the stream; Agent/Send: send and switchModel; the
--                 other files below it prove what they are named for)
--   Gateway       packages/gateway-model/src: artifacts.ts (Artifacts), meter.ts and budget.ts
--                 (Budget), catalog.ts (Catalog), gateway.ts (Service)
--   Mcp           packages/mcp/src: registry.ts (Registry and below), toolset.ts (Toolset and below)
--   Session       packages/session/src: approvals.ts (Approvals and below), the names in
--                 checkpoints.ts (Checkpoints), editFile of tools-edit.ts (Editing) and restore of
--                 checkpoints.ts (Editing/Restore) on the interface of
--                 packages/workspace/src/types.ts; manager.ts (Manager and below: Calls are its
--                 calls in any order)
--   Store         packages/store/src: store.ts on the tables of schema.ts (Store and below)
--   Subagents     packages/subagents/src: readonly.ts (ReadOnly), scout.ts (Scout)
--   Workspace     packages/workspace/src: paths.ts (Paths and below)
--   Connectors    packages/connectors/src: tokens.ts (Tokens and below), oauth.ts (OAuth and below),
--                 providers.ts (Providers), tools.ts (Tools and below)
--   Skills        packages/skills/src: parse.ts (Parse), registry.ts (Registry and below), tools.ts
--                 (Tool)
-- A request of the agent is condensed (Core.Condenser), cleaned for the provider
-- (Gateway.Artifacts), put behind the policy (Core.Pinning) and sent to a model that the gateway
-- resolves (Gateway.Service), which checks the ceiling (Gateway.Budget) and the role
-- (Gateway.Catalog) and records the cost. Core.Agent composes these parts: a turn takes the calls
-- and the parts of the SDK's stream as a list of events, in the order in which they happen, and
-- appends to the agent what it emits and what it stores. A scout (Subagents.Scout) is such a turn
-- on a gateway of its own. The manager of the sessions (Session.Manager) stands over the store and
-- the consent gates: what a session says is stored, and opened again from there. A tool of a
-- connected service (Connectors.Tools) takes its token from the flow's store (Connectors.OAuth).
--
-- How the code is rendered. A string is the list of its UTF-16 code units. A value of type unknown
-- is a string, null, undefined, or a reference to any other value. An operation on a shared object
-- takes the state and returns the new one. The estimate of a size takes String(value) to return,
-- where JSON.stringify throws (Core.Tokens). The deletion of a thread and the disposal of the
-- manager are one step each: the disposal of a workspace, for which they wait, lets no other call
-- run in between. Of the agent's callbacks those that the manager can refuse may throw: onMessage,
-- and onEvent for the updated cost. A thrown error or a rejected promise is `none` or the error
-- case of a result. What the source calls and does not define (JSON.stringify, the functions that
-- a session passes in) is a parameter. The loops are structural; only `decimal` and the walk up
-- the directories of a path take fuel, one more than the number that is printed, which has fewer
-- digits, and one more than the length of the path, which shrinks at each step.
--
-- Amounts of money are a parameter with the laws of non-negative numbers under rounding
-- (Protocol.Cost). The workspace is an interface with the law that a write changes one file
-- (Session.Editing.File); a map from paths to texts fills it.
--
-- Not modelled: of the session manager, the wiring of workspaces, the gateway and tools; the tools
-- of a session other than editing and restoring, which wrap a browser, an interpreter and requests;
-- the clients of MCP servers; the tools of subagents; gmailRead, with its reading of nested and HTML
-- bodies; documents; the user interface, the route handlers, the Mac shell and the sidecar (glue and
-- rendering); the drivers of containers, databases and browsers; and the parsing of stored data by
-- schemas, which are calls of libraries. Of the store, the list of threads and the migration are
-- left out; of the agent, the reasoning effort and the set of tools that it sends.
mod Common
pub mod Protocol
pub mod Core
pub mod Session
pub mod Store
pub mod Workspace
pub mod Connectors
pub mod Subagents
pub mod Gateway
pub mod Mcp
pub mod Skills
