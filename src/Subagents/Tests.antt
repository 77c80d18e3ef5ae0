-- ===== src/Subagents/Tests.antt =====
-- packages/subagents/src: a scout whose stream breaks off, one that completes its first request, and
-- a workspace that counts what is written, with instances of the theorems.
use open_source_harness.Common.{
  ℕ, ◌≡◌, refl, none, true, List, [], ◌∷◌, Str, codes, str_eq, includes, before_first, suc,
}
use open_source_harness.Common.Dict.{get, member}
use open_source_harness.Protocol.Cost.{zero_cost}
use open_source_harness.Protocol.Events.{error}
use open_source_harness.Gateway.Budget.{assert_can_proceed, start_run}
use open_source_harness.Gateway.Budget.Tests.{cents}
use open_source_harness.Gateway.Catalog.{resolve, get_entry, permits, rates_for}
use open_source_harness.Gateway.Catalog.Default.{default_by_alias}
use open_source_harness.Gateway.Service.{
  ModelGateway, start_gateway_run, resolve_model, offer, vendor_of, price_only,
}
use open_source_harness.Gateway.Service.Tests.{names}
use open_source_harness.Core.Pinning.Tests.{policy}
use open_source_harness.Core.Agent.{run_stream, emit, push_message, handle_part, turn_event}
use open_source_harness.Core.Agent.Send.{begin_turn, send, try_turn, end_turn, fail_turn}
use open_source_harness.Core.Agent.Tests.{host, broken}
use open_source_harness.Subagents.ReadOnly.{
  Types, resolves, Workspace, read_only, WorkspaceCall, starts, reads, writes, executes, disposes,
  call_workspace, call_all, ReadsQuietly, read_only-contains,
}
use open_source_harness.Subagents.Scout.{
  ScoutOptions, ScoutRun, scout_gateway, scout_agent, spawn_scout,
}

abbrev options : ScoutOptions cents names host
options = record {
  task = codes "Find the parser.";
  policy = policy;
  model_alias = none;
  budget_usd = none;
  context_max_tokens = none;
  attachments = none;
  read_bytes = λ path. none;
}

abbrev run : ScoutRun cents names host
run = record {
  subagent_id = codes "s1";
  thread_id = codes "t2";
  run_id = codes "r1";
  user_id = codes "u1";
  message_id = codes "m1";
  events = broken.events;
  ending = broken.ending;
}

abbrev opens : ℕ → ModelGateway cents names
opens budget = scout_gateway cents names host (default_by_alias cents) [] budget

sealed : Unit {0}
unfolding spawn_scout scout_agent send begin_turn try_turn end_turn fail_turn push_message emit
    start_gateway_run start_run resolve_model offer vendor_of assert_can_proceed resolve get_entry
    get permits member str_eq run_stream turn_event handle_part rates_for zero_cost price_only
    includes before_first
sealed = tt

fails : (spawn_scout cents names host (λ e. []) opens options run).1.stopped_by ≡ error
unfolding sealed
fails = refl

-- The state is the number of calls that have changed something.
abbrev counted : Types
counted = record {
  State = ℕ;
  Text = Str;
  Bytes = Str;
  Contents = Str;
  Entries = List Str;
  ExecResult = ℕ;
  SnapshotRef = ℕ;
  Options = ℕ;
  Capabilities = ℕ;
  Failure = ℕ;
}

abbrev counting : Workspace counted
counting = record {
  id = codes "w";
  kind = codes "local";
  capabilities = 0;
  start = λ s. resolves s tt;
  exec = λ s command options. resolves (suc s) 0;
  read = λ s path. resolves s path;
  read_bytes = λ s path. resolves s path;
  write = λ s path contents. resolves (suc s) tt;
  list = λ s path. resolves s [];
  exists = λ s path. resolves s true;
  mkdir = λ s path. resolves (suc s) tt;
  remove = λ s path options. resolves (suc s) tt;
  suspend = λ s. resolves (suc s) tt;
  resume = λ s. resolves (suc s) tt;
  snapshot = λ s. resolves s 0;
  dispose = λ s. resolves 0 tt;
}

abbrev counting_quietly : ReadsQuietly counted (λ (s : ℕ). s) counting
counting_quietly = record {
  start = λ s. refl;
  read = λ s path. refl;
  read_bytes = λ s path. refl;
  list = λ s path. refl;
  exists = λ s path. refl;
}

abbrev calls : List (WorkspaceCall counted)
calls =
    starts
    ∷ writes (codes "/a") (codes "x")
    ∷ reads (codes "/a")
    ∷ executes (codes "rm") 0
    ∷ disposes
    ∷ []

counts : call_all counted counting 3 calls ≡ 0
unfolding call_all call_workspace
counts = refl

read_only-contains_example : call_all counted (read_only counted counting) 3 calls ≡ 3
read_only-contains_example =
    read_only-contains counted (λ (s : ℕ). s) counting 3 calls counting_quietly
