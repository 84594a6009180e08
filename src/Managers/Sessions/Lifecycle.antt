-- ===== src/Managers/Sessions/Lifecycle.antt =====
-- What the operations that write leave behind.
use netherbrain.Prelude.{
  ℕ, String, Option, true, false, none, some, [], ◌∷◌, ◌==◌, ◌≡◌, refl, ap, ◌∙◌, arith,
  if◌then◌else◌, map, count_if, Option-cases, inl, inr,
}
use netherbrain.Prelude.Dict
use netherbrain.Prelude.Dict.{Dict, get-set, get-set_self, get-pop_self}
use netherbrain.Enums.{is_settled, is_created}
use netherbrain.Registry
use netherbrain.Registry.{unregister}
use netherbrain.Managers.Sessions.{
  System, SessionRow, Store, Commit, ok, committed_row, after_commit, commit_session, failed_row,
  update_row, write, given, recover_orphaned_sessions, recovered_row,
}
use netherbrain.Managers.Sessions.Read.{get_session, SessionData}

pub update_row-get :
    (id : String) (f : SessionRow → SessionRow) (rows : Dict SessionRow) (row : SessionRow)
    → Dict.get id rows ≡ some row
    → Dict.get id (update_row id f rows) ≡ some (f row)
unfolding update_row
update_row-get id f rows row h = rw (update_row, h) (get-set_self id (f row) rows)

pub update_row-other :
    (id j : String) (f : SessionRow → SessionRow) (rows : Dict SessionRow)
    → (id == j) ≡ false
    → Dict.get j (update_row id f rows) ≡ Dict.get j rows
unfolding update_row
update_row-other id j f rows h = elim (Option-cases (Dict.get id rows)) [
  | inl e ↦ rw (update_row, e) refl
  | inr (row, e) ↦ rw (update_row, e, get-set, h) refl
]

pub unregister-get :
    (id : String) (r : Registry.Registry) → Registry.get id (unregister id r).0 ≡ none
unfolding unregister Registry.get
unregister-get id r = get-pop_self id r.sessions

write-display :
    (id : String) (c : Commit) (store : Store)
    → Dict.get id (write id c store).display_messages
      ≡ given c.display_messages (Dict.get id store.display_messages)
unfolding write
write-display id c store = elim (Option-cases c.display_messages) [
  | inl e ↦ rw e refl
  | inr (messages, e) ↦ rw e (get-set_self id messages store.display_messages)
]

data_of :
    (id : String) (s : System) (row : SessionRow)
    → Dict.get id s.sessions ≡ some row
    → get_session id true s
      ≡ some (record {
        index = row;
        display_messages = Dict.get id s.store.display_messages;
        state = Dict.get id s.store.states;
      })
unfolding get_session
data_of id s row h = rw (get_session, h) refl

-- The last of two values that is there.
abbrev pub latest {ℓ} : {A : Type ℓ} → (new old : Option A) → Option A
latest (some new) old = some new
latest none old = old

given-latest {ℓ} : {A : Type ℓ} (new old : Option A) → given new old ≡ latest new old
given-latest none old = refl
given-latest (some new) old = refl

-- What a reader is to find: the outcome in the session's row, whose other columns stay.
abbrev pub read_back : Commit → SessionRow → (old_display : Option String) → SessionData
read_back c row old_display = record {
  index = record row {
    status = c.status;
    final_message = latest c.final_message row.final_message;
    deferred_tools = latest c.deferred_tools row.deferred_tools;
    run_summary = latest c.run_summary row.run_summary;
  };
  display_messages = latest c.display_messages old_display;
  state = some c.state;
}

after_commit-read_back :
    (id : String) (c : Commit) (s : System) (row : SessionRow)
    → Dict.get id s.sessions ≡ some row
    → get_session id true (after_commit id c s)
      ≡ some (read_back c row (Dict.get id s.store.display_messages))
unfolding after_commit write committed_row
after_commit-read_back id c s row hr =
    data_of id (after_commit id c s) (committed_row c row)
      (update_row-get id (committed_row c) s.sessions row hr)
    ∙ rw
        (
          given-latest c.final_message row.final_message,
          given-latest c.deferred_tools row.deferred_tools,
          given-latest c.run_summary row.run_summary,
        )
        (ap
            (λ d. some (record (read_back c row none) {
              display_messages = d;
              state = Dict.get id (write id c s.store).states;
            }))
            (write-display id c s.store ∙ given-latest c.display_messages _)
          ∙ ap
              (λ t. some (record (read_back c row none) {
                display_messages = latest c.display_messages (Dict.get id s.store.display_messages);
                state = t;
              }))
              (get-set_self id c.state s.store.states))

-- A commit of a session that has a row, with a status that a commit accepts, succeeds: reading the
-- session then gives its row with the committed status, and with the final message, the deferred
-- tools and the run summary that were committed where they were given, the state that was committed,
-- and the display messages where some were given; the registry no longer holds the session.
pub get_session-commit_session :
    (id : String) (c : Commit) (s : System) (row : SessionRow)
    → is_settled c.status ≡ true
    → Dict.get id s.sessions ≡ some row
    → (s' : System) × (commit_session id c s ≡ ok s')
      × (get_session id true s' ≡ some (read_back c row (Dict.get id s.store.display_messages)))
      × (Registry.get id s'.registry ≡ none)
unfolding commit_session after_commit
get_session-commit_session id c s row hs hr = (
  after_commit id c s,
  rw hs refl,
  after_commit-read_back id c s row hr,
  unregister-get id s.registry,
)

-- A created session among the rows.
created_count : Dict SessionRow → ℕ
created_count rows = count_if (λ r. is_created r.status) (Dict.values rows)

recovered-none : (rows : Dict SessionRow) → created_count (map recovered_row rows) ≡ 0
unfolding created_count count_if
recovered-none [] = refl
recovered-none ((k, r) ∷ rows) = ground (arith, recovered-none rows)

-- What recovery makes of a row.
abbrev pub recovered : SessionRow → SessionRow
recovered row = if is_created row.status then failed_row row else row

recovered-get :
    (id : String) (rows : Dict SessionRow) (row : SessionRow)
    → Dict.get id rows ≡ some row
    → Dict.get id (map recovered_row rows) ≡ some (recovered row)
unfolding Dict.get
recovered-get id [] row h = absurd (ground arith)
recovered-get id ((k, r) ∷ rows) row h = ground (arith, recovered-get id rows row)

-- Recovery leaves no session in the status created, so a second one finds none; the row of a
-- session is marked failed where its status was created, and is unchanged otherwise.
pub recover_orphaned_sessions-recovered :
    (s : System) (id : String) (row : SessionRow)
    → Dict.get id s.sessions ≡ some row
    → ((recover_orphaned_sessions (recover_orphaned_sessions s).0).1 ≡ 0)
      × (Dict.get id (recover_orphaned_sessions s).0.sessions ≡ some (recovered row))
unfolding recover_orphaned_sessions created_count
recover_orphaned_sessions-recovered s id row h =
    (recovered-none s.sessions, recovered-get id s.sessions row h)
