-- ===== src/Execution/Deferred.antt =====
-- `build_deferred_tool_results` of netherbrain/agent_runtime/execution/coordinator.py: the user's
-- answers to the pending tools of the parent session, and the answers that stand in for missing ones.
pub mod Coverage
use netherbrain.Prelude.{
  String, Bool, true, false, Option, none, some, List, [], ◌∷◌, ◌==◌, if◌then◌else◌, or_text, not,
  ◌&&◌,
}
use netherbrain.Prelude.Dict
use netherbrain.Prelude.Dict.{Dict}

-- `UserInteraction` and `ToolResult`, of netherbrain/agent_runtime/models/input.py.
pub record UserInteraction : Type 0 where
  pub tool_call_id : String
  pub approved : Bool

pub record ToolResult : Type 0 where
  pub tool_call_id : String
  pub output : Option String
  pub error : Option String

-- The SDK's `ToolApproved` and `ToolDenied`; none is the SDK's own message.
pub data Approval : Type 0 where
  tool_approved : Approval
  tool_denied : (message : Option String) → Approval

-- `ToolReturn`, by its value.
abbrev pub ToolReturn : Type 0
ToolReturn = String

-- `deferred_tool_metadata`: the entry "type" of each pending tool, where it has one.
abbrev pub Metadata : Type 0
Metadata = Dict (Option String)

pub record DeferredToolResults : Type 0 where
  pub approvals : Dict Approval
  pub calls : Dict ToolReturn
  pub metadata : Metadata

abbrev pub verdict : Bool → Approval
verdict true = tool_approved
verdict false = tool_denied none

abbrev pub auto_denied : Approval
auto_denied = tool_denied (some "Auto-denied: no response provided")

abbrev pub auto_failed : ToolReturn
auto_failed = "Auto-failed: no result provided"

-- The loop of `_collect_approvals`.
unfoldable pub collect_approvals_from : Dict Approval → List UserInteraction → Dict Approval
collect_approvals_from approvals [] = approvals
collect_approvals_from approvals (i ∷ interactions) =
    collect_approvals_from (Dict.set i.tool_call_id (verdict i.approved) approvals) interactions

-- `_collect_approvals`.
unfoldable pub collect_approvals : Option (List UserInteraction) → Dict Approval
collect_approvals none = []
collect_approvals (some interactions) = collect_approvals_from [] interactions

-- `result.error or result.output or ""`.
unfoldable pub return_value : ToolResult → ToolReturn
return_value r = or_text r.error (or_text r.output "")

-- The loop of `_collect_calls`.
unfoldable pub collect_calls_from : Dict ToolReturn → List ToolResult → Dict ToolReturn
collect_calls_from calls [] = calls
collect_calls_from calls (r ∷ results) =
    collect_calls_from (Dict.set r.tool_call_id (return_value r) calls) results

-- `_collect_calls`.
unfoldable pub collect_calls : Option (List ToolResult) → Dict ToolReturn
collect_calls none = []
collect_calls (some results) = collect_calls_from [] results

-- `meta.get("type", "approval")`.
abbrev pub type_of : Option String → String
type_of none = "approval"
type_of (some tool_type) = tool_type

-- One round of `_fill_uncovered`.
unfoldable pub fill_one :
    String → String → Dict Approval × Dict ToolReturn → Dict Approval × Dict ToolReturn
fill_one tool_call_id tool_type (approvals, calls) =
    if tool_type == "approval" && not (Dict.has tool_call_id approvals)
    then (Dict.set tool_call_id auto_denied approvals, calls)
    else if tool_type == "call" && not (Dict.has tool_call_id calls)
    then (approvals, Dict.set tool_call_id auto_failed calls)
    else (approvals, calls)

-- `_fill_uncovered`.
unfoldable pub fill_uncovered :
    Metadata → Dict Approval × Dict ToolReturn → Dict Approval × Dict ToolReturn
fill_uncovered [] answers = answers
fill_uncovered ((tool_call_id, meta) ∷ metadata) answers =
    fill_uncovered metadata (fill_one tool_call_id (type_of meta) answers)

-- `None` where both are empty.
abbrev pub results_of : Metadata → Dict Approval → Dict ToolReturn → Option DeferredToolResults
results_of metadata [] [] = none
results_of metadata approvals calls =
    some (record { approvals = approvals; calls = calls; metadata = metadata })

-- `build_deferred_tool_results`.
unfoldable pub build_deferred_tool_results :
    Metadata → Option (List UserInteraction) → Option (List ToolResult) → Option DeferredToolResults
build_deferred_tool_results [] user_interactions tool_results = none
build_deferred_tool_results (m ∷ ms) user_interactions tool_results =
    let (approvals, calls) =
      fill_uncovered (m ∷ ms) (collect_approvals user_interactions, collect_calls tool_results) in
    results_of (m ∷ ms) approvals calls
