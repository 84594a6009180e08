-- ===== src/Managers/Execution/Firing.antt =====
-- Firing a conversation against the step that it stands for: one that delivers the waiting messages to
-- the new session, or does nothing to the mailbox.
use netherbrain.Prelude.{
  String, Option, false, true, none, ◌⊎◌, Bool, some, List, [], ◌∷◌, ◌≡◌, refl, ap, arith,
  if◌then◌else◌, Bool-cases, inl, inr, eq_refl, map, All, keep,
}
use netherbrain.Prelude.Results.{Result, ok, err}
use netherbrain.Managers.Sessions.{System}
use netherbrain.Managers.Mailbox.{MailboxMessage, Table, drain_undelivered, is_pending, mark}
use netherbrain.Execution.Launch.{LaunchError, LaunchResult, launch_session}
use netherbrain.Execution.Resolver.{ResolvedConfig}
use netherbrain.Managers.Execution.{Error, database_error, Service, Parent}
use netherbrain.Managers.Execution.Fire.{
  Firing, is_claimed, reassign, prepare, settled, claimed_launch, after_prepare, fire_conversation,
  continuation, Fault, reading_sources, reverting, updating, is_at,
}

-- No message carries the claim that is drawn.
abbrev pub IsFresh : String → Table → Type 0
IsFresh claim = All (λ m. is_claimed claim m ≡ false)

-- The abstract step.
abbrev pub delivered : String → Result Error LaunchResult → Table → Table
delivered conversation_id (err e) t = t
delivered conversation_id (ok x) t = (drain_undelivered conversation_id x.session_id t).0

-- A claim that is given back.
reassign-none :
    (conversation_id claim : String) (t : Table)
    → IsFresh claim t
    → reassign claim none (drain_undelivered conversation_id claim t).0 ≡ t
unfolding reassign drain_undelivered is_pending
reassign-none conversation_id claim [] h = refl
reassign-none conversation_id claim (m ∷ t) h =
    ground (arith, h.0, eq_refl claim, reassign-none conversation_id claim t h.1)

-- A claim that is made over.
reassign-some :
    (conversation_id claim session_id : String) (t : Table)
    → IsFresh claim t
    → reassign claim (some session_id) (drain_undelivered conversation_id claim t).0
      ≡ (drain_undelivered conversation_id session_id t).0
unfolding reassign drain_undelivered is_pending
reassign-some conversation_id claim session_id [] h = refl
reassign-some conversation_id claim session_id (m ∷ t) h =
    ground (arith, h.0, eq_refl claim, reassign-some conversation_id claim session_id t h.1)

-- A claim of nothing.
drain-none :
    (conversation_id claim : String) (t : Table)
    → keep (is_pending conversation_id) t ≡ []
    → map (λ m. if is_pending conversation_id m then mark claim m else m) t ≡ t
unfolding keep
drain-none conversation_id claim [] h = refl
drain-none conversation_id claim (m ∷ t) h = elim (Bool-cases (is_pending conversation_id m)) [
  | inl e ↦ absurd (ground arith)
  | inr e ↦ rw e (ap (λ t. m ∷ t) (drain-none conversation_id claim t (ground arith)))
]

no_marks : (claim : String) (t : Table) → map (mark claim) t ≡ [] → t ≡ []
no_marks claim [] h = refl
no_marks claim (m ∷ t) h = cc

-- The claim is left on the messages.
abbrev pub stranded : Firing → Table → Table
stranded f t = (drain_undelivered f.conversation_id f.temp_claim t).0

-- Whether the database has raised where a claim stands: the call then raises, or has launched the
-- session and only logs it.
abbrev pub leaves_claim : Option Fault → Result Error LaunchResult → Bool
leaves_claim (some reading_sources) (err database_error) = true
leaves_claim (some reverting) (err database_error) = true
leaves_claim (some updating) (ok x) = true
leaves_claim _ _ = false

at_reading :
    (o : Option Fault) → is_at reading_sources o ≡ true → leaves_claim o (err database_error) ≡ true
at_reading none h = h
at_reading (some reading_sources) h = refl
at_reading (some reverting) h = refl
at_reading (some updating) h = h

at_reverting :
    (o : Option Fault) → is_at reverting o ≡ true → leaves_claim o (err database_error) ≡ true
at_reverting none h = h
at_reverting (some reading_sources) h = refl
at_reverting (some reverting) h = refl
at_reverting (some updating) h = h

at_updating :
    (o : Option Fault) (x : LaunchResult) → is_at updating o ≡ true → leaves_claim o (ok x) ≡ true
at_updating none x h = h
at_updating (some reading_sources) x h = h
at_updating (some reverting) x h = h
at_updating (some updating) x h = refl

module _ (f : Firing) (w : Service) (fresh : IsFresh f.temp_claim w.mailbox) where
  abbrev Refines : Service × Result Error LaunchResult → Type 0
  Refines p =
      (p.0.mailbox ≡ delivered f.conversation_id p.1 w.mailbox)
      ⊎ ((leaves_claim f.fault p.1 ≡ true) × (p.0.mailbox ≡ stranded f w.mailbox))

  settled-Refines :
      (r : System × Result LaunchError LaunchResult)
      → Refines (settled f w (stranded f w.mailbox) r)
  settled-Refines (s, ok x) = elim (Bool-cases (is_at updating f.fault)) [
    | inl h ↦ rw h (inr (at_updating f.fault x h, refl))
    | inr h ↦ rw h (inl (reassign-some f.conversation_id f.temp_claim x.session_id w.mailbox fresh))
  ]
  settled-Refines (s, err e) = elim (Bool-cases (is_at reverting f.fault)) [
    | inl h ↦ rw h (inr (at_reverting f.fault h, refl))
    | inr h ↦ rw h (inl (reassign-none f.conversation_id f.temp_claim w.mailbox fresh))
  ]

  claimed-Refines :
      (plan : Parent × ResolvedConfig) (ms : List MailboxMessage)
      → (drain_undelivered f.conversation_id f.temp_claim w.mailbox).1 ≡ ms
      → Refines (claimed_launch f w plan (stranded f w.mailbox, ms))
  unfolding drain_undelivered
  claimed-Refines plan [] h =
      inl (drain-none f.conversation_id f.temp_claim w.mailbox (no_marks f.temp_claim _ h))
  claimed-Refines plan (m ∷ ms) h = elim (Bool-cases (is_at reading_sources f.fault)) [
    | inl h ↦ rw h (inr (at_reading f.fault h, refl))
    | inr h ↦ rw h (
        settled-Refines
          (launch_session w.has_redis (continuation f plan (m ∷ ms) w.system) w.system))
  ]

  prepared-Refines : (r : Result Error (Parent × ResolvedConfig)) → Refines (after_prepare f w r)
  prepared-Refines (err e) = inl refl
  prepared-Refines (ok plan) = claimed-Refines plan _ refl

-- Firing a conversation, with a claim that no message carries, does to the mailbox what one step would
-- do: if it succeeds, all that waited for the conversation is delivered to the new session, and if it
-- raises, the mailbox is as it was. Only where the database raises behind the claim (while the sources
-- are read, when the claim is reverted or when it is made over) may the claim stay on the messages.
pub fire_conversation-refines :
    (f : Firing) (w : Service)
    → IsFresh f.temp_claim w.mailbox
    → let p = fire_conversation f w in
      (p.0.mailbox ≡ delivered f.conversation_id p.1 w.mailbox)
      ⊎ ((leaves_claim f.fault p.1 ≡ true) × (p.0.mailbox ≡ stranded f w.mailbox))
unfolding fire_conversation
fire_conversation-refines f w fresh = prepared-Refines f w fresh (prepare f w)
