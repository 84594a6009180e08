-- ===== src/Execution/Deferred/Coverage.antt =====
-- Which answer each pending tool gets, against a description that looks the answers up one by one.
use netherbrain.Prelude.{
  String, Bool, true, false, Option, none, some, List, [], ◌∷◌, ◌==◌, ◌≡◌, refl, ap, ◌∙◌, arith,
  if◌then◌else◌, eq_iff, ◌&&◌, ◌||◌,
}
use netherbrain.Prelude.Dict
use netherbrain.Prelude.Dict.{has-get, Dict, get-set}
use netherbrain.Execution.Deferred.{
  UserInteraction, ToolResult, Approval, ToolReturn, Metadata, tool_approved, tool_denied,
  DeferredToolResults, verdict, auto_denied, auto_failed, collect_approvals_from, collect_approvals,
  collect_calls_from, collect_calls, return_value, type_of, fill_one, fill_uncovered, results_of,
  build_deferred_tool_results,
}

abbrev pub or_else {ℓ} : {A : Type ℓ} → Option A → Option A → Option A
or_else (some a) other = some a
or_else none other = other

-- What the user means by an answer.
abbrev pub meant : Bool → Approval
meant approved = if approved then tool_approved else tool_denied none

verdict-meant : (approved : Bool) → verdict approved ≡ meant approved
verdict-meant true = refl
verdict-meant false = refl

-- The last answer to a call.
abbrev pub last_verdict : String → List UserInteraction → Option Approval
last_verdict k [] = none
last_verdict k (i ∷ is) =
    or_else (last_verdict k is) (if i.tool_call_id == k then some (meant i.approved) else none)

abbrev pub last_return : String → List ToolResult → Option ToolReturn
last_return k [] = none
last_return k (r ∷ rs) =
    or_else (last_return k rs) (if r.tool_call_id == k then some (return_value r) else none)

-- A tool of the type waits under the id.
abbrev pub is_asked : String → String → Metadata → Bool
is_asked tool_type k [] = false
is_asked tool_type k ((j, meta) ∷ metadata) =
    (j == k && type_of meta == tool_type) || is_asked tool_type k metadata

abbrev pub approval_of : String → Option DeferredToolResults → Option Approval
approval_of k none = none
approval_of k (some r) = Dict.get k r.approvals

abbrev pub call_of : String → Option DeferredToolResults → Option ToolReturn
call_of k none = none
call_of k (some r) = Dict.get k r.calls

abbrev pub listed {ℓ} : {A : Type ℓ} → Option (List A) → List A
listed none = []
listed (some items) = items

abbrev pub fallback {ℓ} : {A : Type ℓ} → Bool → A → Option A
fallback true a = some a
fallback false a = none

approvals-last :
    (k : String) (a : Dict Approval) (is : List UserInteraction)
    → Dict.get k (collect_approvals_from a is) ≡ or_else (last_verdict k is) (Dict.get k a)
unfolding collect_approvals_from
approvals-last k a [] = refl
approvals-last k a (i ∷ is) = ground (
  arith,
  approvals-last k (Dict.set i.tool_call_id (verdict i.approved) a) is,
  get-set i.tool_call_id k (verdict i.approved) a,
  verdict-meant i.approved,
)

calls-last :
    (k : String) (c : Dict ToolReturn) (rs : List ToolResult)
    → Dict.get k (collect_calls_from c rs) ≡ or_else (last_return k rs) (Dict.get k c)
unfolding collect_calls_from
calls-last k c [] = refl
calls-last k c (r ∷ rs) = ground (
  arith,
  calls-last k (Dict.set r.tool_call_id (return_value r) c) rs,
  get-set r.tool_call_id k (return_value r) c,
)

approval-fill_one :
    (k j tool_type : String) (a : Dict Approval) (c : Dict ToolReturn)
    → Dict.get k (fill_one j tool_type (a, c)).0
      ≡ or_else (Dict.get k a) (fallback (j == k && tool_type == "approval") auto_denied)
unfolding fill_one
approval-fill_one k j tool_type a c =
    ground (arith, has-get j a, get-set j k auto_denied a, eq_iff j k, eq_iff tool_type "approval")

not_both : (t : String) → (t == "approval") ≡ true → (t == "call") ≡ false
not_both t h = let e : t ≡ "approval" = ground (arith, eq_iff t "approval") in rw e refl

call-fill_one :
    (k j tool_type : String) (a : Dict Approval) (c : Dict ToolReturn)
    → Dict.get k (fill_one j tool_type (a, c)).1
      ≡ or_else (Dict.get k c) (fallback (j == k && tool_type == "call") auto_failed)
unfolding fill_one
call-fill_one k j tool_type a c =
    ground (arith, has-get j c, get-set j k auto_failed c, eq_iff j k, not_both tool_type)

approval-fill :
    (k : String) (m : Metadata) (x : Dict Approval × Dict ToolReturn)
    → Dict.get k (fill_uncovered m x).0
      ≡ or_else (Dict.get k x.0) (fallback (is_asked "approval" k m) auto_denied)
unfolding fill_uncovered
approval-fill k [] x = ground arith
approval-fill k ((j, meta) ∷ m) x = ground (
  arith,
  approval-fill k m (fill_one j (type_of meta) x),
  approval-fill_one k j (type_of meta) x.0 x.1,
)

call-fill :
    (k : String) (m : Metadata) (x : Dict Approval × Dict ToolReturn)
    → Dict.get k (fill_uncovered m x).1
      ≡ or_else (Dict.get k x.1) (fallback (is_asked "call" k m) auto_failed)
unfolding fill_uncovered
call-fill k [] x = ground arith
call-fill k ((j, meta) ∷ m) x =
    ground
      (arith, call-fill k m (fill_one j (type_of meta) x), call-fill_one k j (type_of meta) x.0 x.1)

or_else-none {ℓ} : {A : Type ℓ} (o : Option A) → or_else o none ≡ o
or_else-none none = refl
or_else-none (some a) = refl

of_approvals :
    (k : String) (ui : Option (List UserInteraction))
    → Dict.get k (collect_approvals ui) ≡ last_verdict k (listed ui)
unfolding collect_approvals Dict.get
of_approvals k none = refl
of_approvals k (some is) = approvals-last k [] is ∙ or_else-none (last_verdict k is)

of_calls :
    (k : String) (tr : Option (List ToolResult))
    → Dict.get k (collect_calls tr) ≡ last_return k (listed tr)
unfolding collect_calls Dict.get
of_calls k none = refl
of_calls k (some rs) = calls-last k [] rs ∙ or_else-none (last_return k rs)

results-get :
    (k : String) (m : Metadata) (a : Dict Approval) (c : Dict ToolReturn)
    → (approval_of k (results_of m a c) ≡ Dict.get k a)
      × (call_of k (results_of m a c) ≡ Dict.get k c)
unfolding Dict.get
results-get k m [] [] = (refl, refl)
results-get k m (x ∷ a) c = (refl, refl)
results-get k m [] (x ∷ c) = (refl, refl)

-- When a session waits for tools, each tool call gets the last answer that the user gave to it; one
-- that waits for approval and got none is denied, one that waits for a result and got none fails,
-- and nothing else is answered.
pub build_deferred_tool_results-answers :
    (k j : String) (meta : Option String) (ms : Metadata)
    (user_interactions : Option (List UserInteraction)) (tool_results : Option (List ToolResult))
    → let m : Metadata = (j, meta) ∷ ms in
      let r = build_deferred_tool_results m user_interactions tool_results in
      (approval_of k r
        ≡ or_else
            (last_verdict k (listed user_interactions))
            (fallback (is_asked "approval" k m) auto_denied))
      × (call_of k r
          ≡ or_else
              (last_return k (listed tool_results))
              (fallback (is_asked "call" k m) auto_failed))
unfolding build_deferred_tool_results
build_deferred_tool_results-answers k j meta ms ui tr =
    let m : Metadata = (j, meta) ∷ ms in
    let x : Dict Approval × Dict ToolReturn = (collect_approvals ui, collect_calls tr) in
    let y = fill_uncovered m x in
    let g = results-get k m y.0 y.1 in
    (
      g.0
          ∙ approval-fill k m x
          ∙ ap (λ o. or_else o (fallback (is_asked "approval" k m) auto_denied))
              (of_approvals k ui),
      g.1
          ∙ call-fill k m x
          ∙ ap (λ o. or_else o (fallback (is_asked "call" k m) auto_failed)) (of_calls k tr),
    )
