-- ===== src/Protocol/AgUi/Tests.antt =====
-- packages/protocol/src/agui.ts: a tool call whose arguments cannot be serialised, and an instance of
-- the theorem.
use open_source_harness.Common.{◌≡◌, ◌↔◌, refl, none, some, codes}
use open_source_harness.Protocol.Messages.{object}
use open_source_harness.Protocol.Events.{WorkspaceEvent, tool_call_started}
use open_source_harness.Protocol.AgUi.{Serialiser, stringify_result, to_ag_ui}
use open_source_harness.Protocol.AgUi.Throws.{IsUnserialisable, to_ag_ui-throws_iff}
use open_source_harness.Gateway.Budget.Tests.{cents}

-- Every value is circular.
abbrev circular : Serialiser
circular = record {
  stringify = λ value. none;
  to_string = λ value. some (codes "[object Object]");
  empty_object = codes "{}";
}

abbrev starts : WorkspaceEvent cents
starts = record {
  run_id = codes "r1";
  ts = 3;
  body = tool_call_started (codes "c1") (codes "read_file") (object 1);
}

caught : stringify_result cents circular (object 1) ≡ some (codes "[object Object]")
unfolding stringify_result
caught = refl

to_ag_ui-throws_iff_example :
    (to_ag_ui cents circular starts (codes "t1") ≡ none)
    ↔ IsUnserialisable cents circular
        (tool_call_started (codes "c1") (codes "read_file") (object 1))
to_ag_ui-throws_iff_example = to_ag_ui-throws_iff cents circular starts (codes "t1")
