-- ===== src/Execution/Coordinator/Finished.antt =====
-- The tables once a session has ended, by a commit or by a failure.
use netherbrain.Prelude.{String, none, some, ◌≡◌, ◌≢◌, refl, ap, arith, eq_iff}
use netherbrain.Prelude.Dict
use netherbrain.Prelude.Dict.{Dict, get-set, get-set_self, get-pop_self}
use netherbrain.Enums.{SessionStatus}
use netherbrain.Registry
use netherbrain.Registry.{unregister}
use netherbrain.Managers.Sessions.{
  System, SessionRow, Commit, after_commit, fail_session, failed_row, update_row, committed_row,
}
use netherbrain.Managers.Sessions.Lifecycle.{update_row-get, update_row-other, unregister-get}

-- The tables after the session `id` has ended with a status.
pub record IsFinished (id : String) (before s : System) (status : SessionStatus) : Type 0 where
  pub row :
      (r : SessionRow)
      → Dict.get id before.sessions ≡ some r
      → (r' : SessionRow) × (Dict.get id s.sessions ≡ some r') × (r'.status ≡ status)
  pub others : (j : String) → j ≢ id → Dict.get j s.sessions ≡ Dict.get j before.sessions
  pub gone : Dict.get id s.registry.sessions ≡ none

updated-IsFinished :
    (id : String) (before s : System) (f : SessionRow → SessionRow) (status : SessionStatus)
    → ((r : SessionRow) → (f r).status ≡ status)
    → s.sessions ≡ update_row id f before.sessions
    → Dict.get id s.registry.sessions ≡ none
    → IsFinished id before s status
updated-IsFinished id before s f status h e g = record {
  row = λ r m. (f r, rw e (update_row-get id f before.sessions r m), h r);
  others = λ j n. rw e (update_row-other id j f before.sessions (ground (arith, eq_iff id j)));
  gone = g;
}

pub fail-IsFinished :
    (id : String) (before s : System)
    → s.sessions ≡ before.sessions
    → IsFinished id before (fail_session id s) SessionStatus.failed
unfolding fail_session Registry.get
fail-IsFinished id before s e =
    updated-IsFinished id before (fail_session id s) failed_row SessionStatus.failed (λ r. refl)
      (ap (update_row id failed_row) e) (unregister-get id s.registry)

pub after_commit-IsFinished :
    (id : String) (c : Commit) (before s : System)
    → s.sessions ≡ before.sessions
    → IsFinished id before (after_commit id c s) c.status
unfolding after_commit committed_row Registry.get
after_commit-IsFinished id c before s e =
    updated-IsFinished id before (after_commit id c s) (committed_row c) c.status (λ r. refl)
      (ap (update_row id (committed_row c)) e) (unregister-get id s.registry)
