-- ===== src/Managers/Execution/Runs/Forks.antt =====
-- A fork that is prepared is what the next run of the new conversation continues.
use netherbrain.Prelude.{
  ℕ, String, Bool, true, Option, none, some, List, [], ◌∷◌, ◌++◌, ◌==◌, ◌≡◌, refl, sym, ap, ◌∙◌,
  subst, arith, Bool-cases, Option-cases, inl, inr, eq_refl, keep, head?, reverse,
}
use netherbrain.Prelude.Dict
use netherbrain.Prelude.Dict.{Dict, get-set_self}
use netherbrain.Prelude.Results.{Result, ok, err, required-ok, ok-injective}
use netherbrain.Prelude.Actions.{Action, next}
use netherbrain.Managers.Sessions
use netherbrain.Managers.Sessions.{
  System, SessionRow, SessionState, ConversationRow, Creation, create_session, add_row, add_both,
  new_row, is_parent_known, is_member, conversation_of, update_row, committed_row, after_commit,
  commit_session, write,
}
use netherbrain.Managers.Sessions.Read.{
  SessionData, is_turn, find_latest_committed_session, chronological, insert_row, get_session,
}
use netherbrain.Managers.Conversations
use netherbrain.Managers.Conversations.{
  ConversationUpdate, update_conversation, updated, conversation_not_found,
}
use netherbrain.Managers.Execution.{
  Error, Service, find_parent, resolve_fork_point, conversation_at,
}
use netherbrain.Managers.Execution.Runs.{
  fork_creation, fork_commit, of_session, copy_display, after_updating, fork_update, prepare_fork,
  save_fork, make_fork, fork_at,
}

-- A call that succeeds has passed each of its parts.
reading-ok :
    {S E A B : Type 0} (f : A → Action S E B) (s : S) (m : Result E A) (t : S) (b : B)
    → next f (s, m) ≡ (t, ok b)
    → (a : A) × (m ≡ ok a) × (f a s ≡ (t, ok b))
reading-ok f s (ok a) t b h = (a, refl, h)
reading-ok f s (err e) t b h = absurd (ground arith)

of_session-ok :
    {B : Type 0} (f : Unit {0} → Action Service Error B) (w : Service) (m : Sessions.Result)
    (t : Service) (b : B)
    → next f (of_session w m) ≡ (t, ok b)
    → (s : System) × (m ≡ Sessions.ok s) × (f tt (record w { system = s }) ≡ (t, ok b))
of_session-ok f w (Sessions.ok s) t b h = (s, refl, h)
of_session-ok f w (Sessions.err e) t b h = absurd (ground arith)

-- An update of a conversation leaves the sessions and the store.
update-frame :
    (conversation_id : String) (body : ConversationUpdate) (s t : System)
    → update_conversation conversation_id body s ≡ ok t
    → (t.sessions ≡ s.sessions) × (t.store ≡ s.store)
unfolding update_conversation
update-frame conversation_id body s t h =
    let (c, _, k) =
      required-ok (Dict.get conversation_id s.conversations)
        (conversation_not_found conversation_id)
        (λ c.
          ok (record s {
            conversations = Dict.set conversation_id (updated body c) s.conversations;
          }))
        t h in
    let same =
      ok-injective
        (record s { conversations = Dict.set conversation_id (updated body c) s.conversations }) t
        k in
    (ap (λ x. x.sessions) (sym same), ap (λ x. x.store) (sym same))

updating-ok :
    (w t : Service) (r b : String) (m : Result Conversations.Error System)
    → next (λ _ v. (v, ok r)) (after_updating w m) ≡ (t, ok b)
    → (s : System) × (m ≡ ok s) × (t.system ≡ s)
updating-ok w t r b (ok s) h = (s, refl, sym (ap (λ x. x.0.system) h))
updating-ok w t r b (err e) h = absurd (ground arith)

-- The sessions after a creation, and the store.
abbrev Adds : Creation → String → System → Sessions.Result → Type 0
Adds c conversation_id s (Sessions.ok s') =
    (s'.sessions ≡ Dict.set c.session_id (new_row c conversation_id) s.sessions)
    × (s'.store ≡ s.store)
Adds c conversation_id s (Sessions.err e) = Unit

add_row-Adds :
    (c : Creation) (conversation_id : String) (s : System)
    → Adds c conversation_id s (add_row c conversation_id s)
unfolding add_row
add_row-Adds c conversation_id s = elim (Bool-cases (is_parent_known c.parent_session_id s)) [
  | inl h ↦ rw (add_row, h) (refl, refl)
  | inr h ↦ rw (add_row, h) tt
]

add_both-Adds :
    (c : Creation) (conversation_id : String) (user_id : Option String) (s : System)
    → Adds c conversation_id s (add_both c conversation_id user_id s)
add_both-Adds c conversation_id none s = tt
add_both-Adds c conversation_id (some user_id) s = elim (Bool-cases (is_member user_id s.users)) [
  | inl h ↦ rw h (add_row-Adds c conversation_id _)
  | inr h ↦ rw h tt
]

create_session-Adds :
    (c : Creation) (conversation_id : String) (s : System)
    → c.conversation_id ≡ some conversation_id
    → Adds c conversation_id s (create_session c s)
unfolding create_session conversation_of new_row
create_session-Adds c conversation_id s e =
    elim (Option-cases (Dict.get conversation_id s.conversations)) [
      | inl g ↦ rw (create_session, e, g) (add_both-Adds c conversation_id c.user_id s)
      | inr (row, g) ↦ rw (create_session, e, g) (add_row-Adds c conversation_id s)
    ]

module _ {V : Type 0} where
  set-set : (k : String) (v w : V) (m : Dict V) → Dict.set k v (Dict.set k w m) ≡ Dict.set k v m
  unfolding Dict.set
  set-set k v w [] = ground (arith, eq_refl k)
  set-set k v w ((j, x) ∷ m) = ground (arith, set-set k v w m)

  keep-set :
      (p : V → Bool) (k : String) (v : V) (m : Dict V)
      → Dict.get k m ≡ none
      → keep p (Dict.values (Dict.set k v m)) ≡ keep p (Dict.values m) ++ keep p (v ∷ [])
  unfolding Dict.set Dict.get keep
  keep-set p k v [] h = refl
  keep-set p k v ((j, x) ∷ m) h = ground (arith, keep-set p k v m)

no_turns :
    (conversation_id : String) (rows : List SessionRow)
    → keep (λ r. r.conversation_id == conversation_id) rows ≡ []
    → keep (is_turn conversation_id) rows ≡ []
unfolding keep
no_turns conversation_id [] h = refl
no_turns conversation_id (r ∷ rows) h = ground (arith, no_turns conversation_id rows)

-- A row that is the only one of its conversation is its latest turn.
only_turn :
    (s : System) (conversation_id session_id : String) (row : SessionRow) (rows : Dict SessionRow)
    → s.sessions ≡ Dict.set session_id row rows
    → Dict.get session_id rows ≡ none
    → keep (λ r. r.conversation_id == conversation_id) (Dict.values rows) ≡ []
    → is_turn conversation_id row ≡ true
    → find_latest_committed_session conversation_id s ≡ some row
unfolding find_latest_committed_session chronological insert_row keep
only_turn s conversation_id session_id row rows e g h t =
    let kept : keep (is_turn conversation_id) (Dict.values s.sessions) ≡ row ∷ [] =
      ap (λ m. keep (is_turn conversation_id) (Dict.values m)) e
      ∙ keep-set (is_turn conversation_id) session_id row rows g
      ∙ ap (λ rs. rs ++ keep (is_turn conversation_id) (row ∷ []))
          (no_turns conversation_id (Dict.values rows) h)
      ∙ rw t refl in
    ap (λ rs. head? (reverse (chronological rs))) kept

-- The parent that such a session is.
parent_found :
    (w : Service) (conversation_id session_id : String) (row : SessionRow) (rows : Dict SessionRow)
    (state : SessionState)
    → w.system.sessions ≡ Dict.set session_id row rows
    → Dict.get session_id w.system.store.states ≡ some state
    → row.session_id ≡ session_id
    → Dict.get session_id rows ≡ none
    → keep (λ r. r.conversation_id == conversation_id) (Dict.values rows) ≡ []
    → is_turn conversation_id row ≡ true
    → find_parent conversation_id w
      ≡ ok (record {
        session_id = some session_id;
        state = some state;
        project_ids = some row.project_ids;
      })
unfolding find_parent get_session
parent_found w conversation_id session_id row rows state e st own g h t =
    let latest = only_turn w.system conversation_id session_id row rows e g h t in
    let there : Dict.get row.session_id w.system.sessions ≡ some row =
      ap (λ k. Dict.get k w.system.sessions) own
      ∙ ap (Dict.get session_id) e
      ∙ get-set_self session_id row rows in
    let held : Dict.get row.session_id w.system.store.states ≡ some state =
      ap (λ k. Dict.get k w.system.store.states) own ∙ st in
    rw (find_parent, latest, get_session, there, held, own) refl

update_row-set :
    (id : String) (f : SessionRow → SessionRow) (v : SessionRow) (m : Dict SessionRow)
    → update_row id f (Dict.set id v m) ≡ Dict.set id (f v) m
unfolding update_row
update_row-set id f v m = rw (update_row, get-set_self id v m) (set-set id (f v) v m)

copy-frame :
    (parent id : String) (s : System)
    → ((copy_display parent id s).sessions ≡ s.sessions)
      × ((copy_display parent id s).store.states ≡ s.store.states)
unfolding copy_display
copy-frame parent id s = elim (Option-cases (Dict.get parent s.store.display_messages)) [
  | inl h ↦ rw (copy_display, h) (refl, refl)
  | inr (m, h) ↦ rw (copy_display, h) (refl, refl)
]

-- The session that is saved, as a parent.
save_fork-parent :
    (new_id session_id : String) (created_at : ℕ) (metadata user_id : Option String)
    (source : ConversationRow) (point : SessionData) (w w' : Service) (s : System) (r : String)
    → let row = new_row (fork_creation session_id new_id created_at user_id point.index) new_id in
      s.sessions ≡ Dict.set session_id row w.system.sessions
      → Dict.get session_id w.system.sessions ≡ none
      → keep (λ x. x.conversation_id == new_id) (Dict.values w.system.sessions) ≡ []
      → save_fork new_id session_id metadata source point (record w { system = s }) ≡ (w', ok r)
      → find_parent new_id w'
        ≡ ok (record {
          session_id = some session_id;
          state = some (fork_commit point.state).state;
          project_ids = some point.index.project_ids;
        })
unfolding commit_session after_commit committed_row new_row write
save_fork-parent new_id session_id created_at metadata user_id source point w w' s r adds g k h =
    let row = new_row (fork_creation session_id new_id created_at user_id point.index) new_id in
    let cm = fork_commit point.state in
    let s2 = after_commit session_id cm s in
    let s3 = copy_display point.index.session_id session_id s2 in
    let body = fork_update source point.index metadata in
    let (t, m, e) =
      updating-ok (record w { system = s3 }) w' new_id r (update_conversation new_id body s3) h in
    let frame = update-frame new_id body s3 t m in
    let copied = copy-frame point.index.session_id session_id s2 in
    parent_found w' new_id session_id (committed_row cm row) w.system.sessions cm.state
      (ap (λ x. x.sessions) e
        ∙ frame.0
        ∙ copied.0
        ∙ ap (update_row session_id (committed_row cm)) adds
        ∙ update_row-set session_id (committed_row cm) row w.system.sessions)
      (ap (λ x. Dict.get session_id x.store.states) e
        ∙ ap (λ x. Dict.get session_id x.states) frame.1
        ∙ ap (Dict.get session_id) copied.1
        ∙ get-set_self session_id cm.state s.store.states)
      refl g k (ground (arith, eq_refl new_id))

-- After a fork is prepared, from any point, into a conversation that has no session yet, by a session
-- whose id is new: the next run of the new conversation continues the prepared session, with the
-- state and the projects of the fork's point.
pub find_parent-prepare_fork :
    (conversation_id new_conversation_id session_id : String) (created_at : ℕ)
    (from_session_id metadata user_id : Option String) (w w' : Service) (r : String)
    (point : SessionData)
    → resolve_fork_point conversation_id from_session_id w ≡ ok point
    → Dict.get session_id w.system.sessions ≡ none
    → keep (λ x. x.conversation_id == new_conversation_id) (Dict.values w.system.sessions) ≡ []
    → prepare_fork conversation_id new_conversation_id session_id created_at from_session_id
        metadata user_id w
      ≡ (w', ok r)
    → find_parent new_conversation_id w'
      ≡ ok (record {
        session_id = some session_id;
        state = some (fork_commit point.state).state;
        project_ids = some point.index.project_ids;
      })
unfolding prepare_fork
find_parent-prepare_fork conversation_id new_id session_id created_at from metadata user_id w w' r
      point p g k h =
    let (source, _, h1) =
      reading-ok (fork_at conversation_id new_id session_id created_at from metadata user_id) w
        (conversation_at conversation_id w) w' r h in
    let (point', p', h2) =
      reading-ok (make_fork new_id session_id created_at metadata user_id source) w
        (resolve_fork_point conversation_id from w) w' r h1 in
    let same : point' ≡ point = ok-injective point' point (sym p' ∙ p) in
    let h2' =
      subst (λ x. make_fork new_id session_id created_at metadata user_id source x w ≡ (w', ok r))
        same h2 in
    let c = fork_creation session_id new_id created_at user_id point.index in
    let (s, made, h3) =
      of_session-ok (λ _. save_fork new_id session_id metadata source point) w
        (create_session c w.system) w' r h2' in
    let adds = subst (Adds c new_id w.system) made (create_session-Adds c new_id w.system refl) in
    save_fork-parent new_id session_id created_at metadata user_id source point w w' s r adds.0 g k
      h3
