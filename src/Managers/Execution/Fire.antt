-- ===== src/Managers/Execution/Fire.antt =====
-- `ExecutionManager.fire_conversation`: the mailbox is claimed for a session that does not exist yet,
-- and the claim is given back, or passed to the session, once the launch has been tried.
use netherbrain.Prelude.{
  String, Bool, true, false, Option, none, some, List, [], ◌∷◌, ◌==◌, not, if◌then◌else◌, truthy,
  map, eqb,
}
use netherbrain.Prelude.Dict
use netherbrain.Prelude.Results.{Result, ok, err, ◌>>=◌, ◌>>◌, raise_if}
use netherbrain.Managers.Sessions.{System, InputPart, ConversationRow}
use netherbrain.Managers.Mailbox.{MailboxMessage, Table, drain_undelivered, count_pending}
use netherbrain.Execution.Resolver.{ResolvedConfig}
use netherbrain.Execution.MailboxPrompt.{
  MailboxMessageWithContent, render_mailbox_prompt, join_lines,
}
use netherbrain.Execution.Launch.{Launch, LaunchError, LaunchResult, launch_session}
use netherbrain.Managers.Execution.{
  Error, database_error, empty_mailbox, no_default_preset, of_launch, Service, Call, Parent,
  conversation_at, idle, find_parent, config_for, launch_of,
}

-- Where the database raises behind the claim: while the sources of the messages are read, when the
-- claim is reverted, or when it is made over to the session.
pub data Fault : Type 0 where
  reading_sources reverting updating : Fault

-- The arguments of `fire_conversation`, the claim that it draws, and what fails behind it.
pub record Firing : Type 0 where
  pub call : Call
  pub conversation_id : String
  pub preset_id : Option String
  pub temp_claim : String
  pub fault : Option Fault

abbrev pub is_at : Fault → Option Fault → Bool
is_at reading_sources (some reading_sources) = true
is_at reverting (some reverting) = true
is_at updating (some updating) = true
is_at _ _ = false

-- UPDATE ... SET delivered_to WHERE delivered_to = temp_claim.
abbrev pub is_claimed : String → MailboxMessage → Bool
is_claimed claim m = elim m.delivered_to [ none ↦ false | some d ↦ d == claim ]

unfoldable pub reassign : String → Option String → Table → Table
reassign claim delivered_to =
    map (λ m. if is_claimed claim m then record m { delivered_to = delivered_to } else m)

-- The message with the final text of its source.
unfoldable pub enrich : System → MailboxMessage → MailboxMessageWithContent
enrich s msg = record {
  message_id = msg.message_id;
  source_session_id = msg.source_session_id;
  source_type = msg.source_type;
  subagent_name = msg.subagent_name;
  final_message = elim (Dict.get msg.source_session_id s.sessions) [
    | none ↦ none
    | some row ↦ row.final_message
  ];
}

-- `[p.text for p in input_parts if p.text]`.
unfoldable pub text_parts : List InputPart → List String
text_parts [] = []
text_parts (p ∷ ps) = elim p.text [
  | none ↦ text_parts ps
  | some text ↦ if text == "" then text_parts ps else text ∷ text_parts ps
]

abbrev pub joined : List String → Option String
joined [] = none
joined (t ∷ ts) = some (join_lines (t ∷ ts))

-- `preset_id or conv.default_preset_id`.
abbrev pub effective_preset_id : Option String → ConversationRow → Option String
effective_preset_id preset_id conv = if truthy preset_id then preset_id else conv.default_preset_id

-- What is decided before the claim: the parent and the configuration.
unfoldable pub prepare : Firing → Service → Result Error (Parent × ResolvedConfig)
prepare f w = do
  conv ← conversation_at f.conversation_id w
  idle f.conversation_id w
  raise_if (eqb (count_pending f.conversation_id w.mailbox) 0) (empty_mailbox f.conversation_id)
  raise_if (not (truthy (effective_preset_id f.preset_id conv)))
      (no_default_preset f.conversation_id)
  parent ← find_parent f.conversation_id w
  config ← config_for f.call (effective_preset_id f.preset_id conv) parent.project_ids w
  ok (parent, config)

-- The launch with the mailbox's prompt as its only input.
abbrev pub continuation : Firing → Parent × ResolvedConfig → List MailboxMessage → System → Launch
continuation f plan drained s = launch_of f.call plan.1 plan.0.session_id (some f.conversation_id) (
    record {
      kind = "text";
      text =
          some (
            render_mailbox_prompt (map (enrich s) drained)
              (joined (text_parts f.call.input_parts)));
    }
    ∷ [])

-- The end of the call: the claim is reverted, or made over to the session.
abbrev pub settled :
    Firing
    → Service
    → Table
    → System × Result LaunchError LaunchResult
    → Service × Result Error LaunchResult
settled f w claimed (s, ok result) = (
  record w {
    system = s;
    mailbox =
        if is_at updating f.fault
        then claimed
        else reassign f.temp_claim (some result.session_id) claimed;
  },
  ok result,
)
settled f w claimed (s, err e) =
    if is_at reverting f.fault
    then (record w { system = s; mailbox = claimed }, err database_error)
    else (record w { system = s; mailbox = reassign f.temp_claim none claimed }, err (of_launch e))

-- The claim, and the launch where it has claimed something: nothing gives the claim back where the
-- reading of the sources raises.
abbrev pub claimed_launch :
    Firing
    → Service
    → Parent × ResolvedConfig
    → Table × List MailboxMessage
    → Service × Result Error LaunchResult
claimed_launch f w plan (t, []) = (record w { mailbox = t }, err (empty_mailbox f.conversation_id))
claimed_launch f w plan (t, m ∷ ms) =
    if is_at reading_sources f.fault
    then (record w { mailbox = t }, err database_error)
    else settled f w t (launch_session w.has_redis (continuation f plan (m ∷ ms) w.system) w.system)

abbrev pub claim_and_launch :
    Firing → Service → Parent × ResolvedConfig → Service × Result Error LaunchResult
claim_and_launch f w plan =
    claimed_launch f w plan (drain_undelivered f.conversation_id f.temp_claim w.mailbox)

abbrev pub after_prepare :
    Firing → Service → Result Error (Parent × ResolvedConfig) → Service × Result Error LaunchResult
after_prepare f w (err e) = (w, err e)
after_prepare f w (ok plan) = claim_and_launch f w plan

-- `fire_conversation`.
unfoldable pub fire_conversation : Firing → Service → Service × Result Error LaunchResult
fire_conversation f w = after_prepare f w (prepare f w)
