-- ===== src/Managers/Sessions/Lineage.antt =====
-- Where a new session goes, and that every session's conversation exists.
use netherbrain.Prelude.{
  String, true, none, some, List, [], ◌∷◌, ◌==◌, ◌≡◌, refl, sym, ap, ◌∙◌, subst, ◌⊎◌, arith, map,
  is_some, eq_iff, Option-cases, Bool-cases, inl, inr, All-map,
}
use netherbrain.Prelude.Dict
use netherbrain.Prelude.Dict.{Dict, get-set, get-set_self, AllValues, AllValues-set}
use netherbrain.Enums.{SessionStatus, is_settled, is_created}
use netherbrain.Managers.Sessions.{
  System, SessionRow, ConversationRow, Commit, Creation, Result, ok, err, Error, committed_row,
  after_commit, commit_session, fail_session, failed_row, update_row, recover_orphaned_sessions,
  recovered_row, create_session, conversation_of, add_row, add_both, new_row, new_conversation,
}

-- The row's conversation is in the table.
abbrev pub IsPlaced : Dict ConversationRow → SessionRow → Type 0
IsPlaced conversations row = is_some (Dict.get row.conversation_id conversations) ≡ true

abbrev pub HasConversations : System → Type 0
HasConversations s = AllValues (IsPlaced s.conversations) s.sessions

-- The lineage rules: a conversation that is given is taken, as forks and subagents do; without one, a
-- session with a parent continues the parent's, and a session without is the root of its own.
pub data Lineage (c : Creation) (s : System) : String → Type 0 where
  named : (k : String) → c.conversation_id ≡ some k → Lineage c s k
  continued :
      (parent : String) (row : SessionRow)
      → c.conversation_id ≡ none
      → c.parent_session_id ≡ some parent
      → Dict.get parent s.sessions ≡ some row
      → Lineage c s row.conversation_id
  rooted : c.conversation_id ≡ none → c.parent_session_id ≡ none → Lineage c s c.session_id

-- The row of a session that has not run.
abbrev pub unrun : Creation → String → SessionRow
unrun c conversation_id = record {
  session_id = c.session_id;
  parent_session_id = c.parent_session_id;
  project_ids = c.project_ids;
  status = SessionStatus.created;
  session_type = c.session_type;
  transport = c.transport;
  conversation_id = conversation_id;
  spawned_by = c.spawned_by;
  preset_id = c.preset_id;
  input = c.input_parts;
  final_message = none;
  deferred_tools = none;
  run_summary = none;
  created_at = c.created_at;
}

conversation_of-Lineage :
    (c : Creation) (s : System) (k : String) → conversation_of c s ≡ some k → Lineage c s k
unfolding conversation_of
conversation_of-Lineage c s k h = elim (Option-cases c.conversation_id) [
  | inr (given, e) ↦ named k (e ∙ ground arith)
  | inl e ↦ elim (Option-cases c.parent_session_id) [
    | inl p ↦ subst (Lineage c s) (ground arith) (rooted e p)
    | inr (parent, p) ↦ elim (Option-cases (Dict.get parent s.sessions)) [
      | inl g ↦ absurd (ground arith)
      | inr (row, g) ↦ subst (Lineage c s) (ground arith) (continued parent row e p g)
    ]
  ]
]

-- What a creation that succeeds has done.
pub record IsCreated (c : Creation) (s s' : System) : Type 0 where
  pub conversation : String
  pub by_lineage : Lineage c s conversation
  pub in_table : is_some (Dict.get conversation s'.conversations) ≡ true
  pub sessions : s'.sessions ≡ Dict.set c.session_id (unrun c conversation) s.sessions
  pub same_or_new :
      (k : String)
      → is_some (Dict.get k s.conversations) ≡ true
      → Dict.get k s'.conversations ≡ Dict.get k s.conversations

module _ (c : Creation) (s s' : System) where
  existing-IsCreated :
      (conversation : String) (row : ConversationRow)
      → conversation_of c s ≡ some conversation
      → Dict.get conversation s.conversations ≡ some row
      → add_row c conversation s ≡ ok s'
      → IsCreated c s s'
  unfolding add_row new_row
  existing-IsCreated conversation row hc hr h = record {
    conversation = conversation;
    by_lineage = conversation_of-Lineage c s conversation hc;
    in_table = ground arith;
    sessions = ground arith;
    same_or_new = λ k hk. ground arith;
  }

  new-IsCreated :
      (conversation : String)
      → conversation_of c s ≡ some conversation
      → Dict.get conversation s.conversations ≡ none
      → add_both c conversation c.user_id s ≡ ok s'
      → IsCreated c s s'
  unfolding add_row new_row
  new-IsCreated conversation hc hr h = elim (Option-cases c.user_id) [
    | inl no_user ↦ absurd (ground arith)
    | inr (user_id, hu) ↦
        let added =
          Dict.set conversation (new_conversation c conversation user_id) s.conversations in
        let table : s'.conversations ≡ added = ground arith in
        record {
          conversation = conversation;
          by_lineage = conversation_of-Lineage c s conversation hc;
          in_table =
              rw
                (
                  table,
                  get-set_self conversation (new_conversation c conversation user_id)
                      s.conversations,
                )
                refl;
          sessions = ground arith;
          same_or_new = λ k hk. ground (
            arith,
            table,
            get-set conversation k (new_conversation c conversation user_id) s.conversations,
            eq_iff conversation k,
          );
        }
  ]

  -- A creation that succeeds adds the one row, with the caller's columns, no outcome and the status
  -- created, in the conversation that the lineage rules name: the one given, else the parent's, else
  -- its own; that conversation is then in the table, and every conversation that
  -- was there is unchanged.
  pub create_session-IsCreated : create_session c s ≡ ok s' → IsCreated c s s'
  unfolding create_session
  create_session-IsCreated h = elim (Option-cases (conversation_of c s)) [
    | inl no_parent ↦ absurd (ground arith)
    | inr (conversation, hc) ↦ elim (Option-cases (Dict.get conversation s.conversations)) [
      | inl absent ↦ new-IsCreated conversation hc absent (ground arith)
      | inr (row, present) ↦ existing-IsCreated conversation row hc present (ground arith)
    ]
  ]

create-HasConversations :
    (c : Creation) (s s' : System) → IsCreated c s s' → HasConversations s → HasConversations s'
create-HasConversations c s s' d v =
    subst (AllValues (IsPlaced s'.conversations)) (sym d.sessions) (
      AllValues-set (IsPlaced s'.conversations) c.session_id (unrun c d.conversation) s.sessions
        d.in_table
        (All-map (λ e. IsPlaced s.conversations e.1) (λ e. IsPlaced s'.conversations e.1) s.sessions
          (λ e h. ap is_some (d.same_or_new e.1.conversation_id h) ∙ h) v))

get-All :
    (P : SessionRow → Type 0) (id : String) (rows : Dict SessionRow) (row : SessionRow)
    → Dict.get id rows ≡ some row
    → AllValues P rows
    → P row
unfolding Dict.get
get-All P id [] row e h = absurd (ground arith)
get-All P id ((k, r) ∷ rows) row e h = elim (Bool-cases (k == id)) [
  | inl same ↦ subst P (ground arith) h.0
  | inr other ↦ get-All P id rows row (ground arith) h.1
]

update-IsPlaced :
    (conversations : Dict ConversationRow) (id : String) (f : SessionRow → SessionRow)
    (rows : Dict SessionRow)
    → ((r : SessionRow) → (f r).conversation_id ≡ r.conversation_id)
    → AllValues (IsPlaced conversations) rows
    → AllValues (IsPlaced conversations) (update_row id f rows)
unfolding update_row
update-IsPlaced conversations id f rows same h = elim (Option-cases (Dict.get id rows)) [
  | inl e ↦ rw (update_row, e) h
  | inr (row, e) ↦
      rw (update_row, e)
        (AllValues-set (IsPlaced conversations) id (f row) rows
          (ap (λ k. is_some (Dict.get k conversations)) (same row)
            ∙ get-All (IsPlaced conversations) id rows row e h)
          h)
]

recover-IsPlaced :
    (conversations : Dict ConversationRow) (rows : Dict SessionRow)
    → AllValues (IsPlaced conversations) rows
    → AllValues (IsPlaced conversations) (map recovered_row rows)
recover-IsPlaced conversations [] h = tt
recover-IsPlaced conversations ((k, r) ∷ rows) h = elim (Bool-cases (is_created r.status)) [
  | inl e ↦ rw e (h.0, recover-IsPlaced conversations rows h.1)
  | inr e ↦ rw e (h.0, recover-IsPlaced conversations rows h.1)
]

-- The operations that write.
pub data Call : Type 0 where
  creates : Creation → Call
  commits : String → Commit → Call
  fails : String → Call
  recovers : Call

-- An operation that raises leaves the system as it was.
abbrev pub after : System → Result → System
after s (ok s') = s'
after s (err e) = s

unfoldable pub step : System → Call → System
step s (creates c) = after s (create_session c s)
step s (commits id c) = after s (commit_session id c s)
step s (fails id) = fail_session id s
step s recovers = (recover_orphaned_sessions s).0

unfoldable pub run : System → List Call → System
run s [] = s
run s (c ∷ cs) = run (step s c) cs

Result-cases : (r : Result) → ((s : System) × (r ≡ ok s)) ⊎ ((e : Error) × (r ≡ err e))
Result-cases (ok s) = inl (s, refl)
Result-cases (err e) = inr (e, refl)

step-HasConversations :
    (s : System) (call : Call) → HasConversations s → HasConversations (step s call)
unfolding step commit_session after_commit fail_session recover_orphaned_sessions committed_row
step-HasConversations s (creates c) v = elim (Result-cases (create_session c s)) [
  | inl (s', e) ↦ rw e (create-HasConversations c s s' (create_session-IsCreated c s s' e) v)
  | inr (x, e) ↦ rw e v
]
step-HasConversations s (commits id c) v = elim (Bool-cases (is_settled c.status)) [
  | inl e ↦ rw e (update-IsPlaced s.conversations id (committed_row c) s.sessions (λ r. refl) v)
  | inr e ↦ rw e v
]
step-HasConversations s (fails id) v =
    update-IsPlaced s.conversations id failed_row s.sessions (λ r. refl) v
step-HasConversations s recovers v = recover-IsPlaced s.conversations s.sessions v

-- Through any sequence of creations, commits, failures and recoveries, whether they raise or not,
-- every session keeps a conversation that is in the table.
pub run-HasConversations :
    (s : System) (calls : List Call) → HasConversations s → HasConversations (run s calls)
unfolding run
run-HasConversations s [] v = v
run-HasConversations s (c ∷ cs) v = run-HasConversations (step s c) cs (step-HasConversations s c v)
