-- ===== src/Execution/MailboxPrompt.antt =====
-- netherbrain/agent_runtime/execution/mailbox_prompt.py: the prompt of a session that continues a
-- conversation with its subagents' reports.
use netherbrain.Prelude.{
  String, Option, none, some, List, [], ◌∷◌, ◌==◌, if◌then◌else◌, cat, or_text, map,
}
use netherbrain.Enums.{MailboxSourceType}

pub record MailboxMessageWithContent : Type 0 where
  pub message_id : String
  pub source_session_id : String
  pub source_type : MailboxSourceType
  pub subagent_name : String
  pub final_message : Option String

abbrev pub content_of : MailboxMessageWithContent → String
content_of msg = elim msg.source_type [
  | MailboxSourceType.subagent_result ↦ or_text msg.final_message "(no output)"
  | MailboxSourceType.subagent_failed ↦ "Error: subagent execution failed."
]

abbrev pub status_text : MailboxSourceType → String
status_text MailboxSourceType.subagent_result = "completed"
status_text MailboxSourceType.subagent_failed = "failed"

-- `_render_single`.
unfoldable pub render_single : MailboxMessageWithContent → String
render_single msg = cat "Async subagent '" (
    cat msg.subagent_name (
      cat "' (session: " (
        cat msg.source_session_id (elim msg.source_type [
          | MailboxSourceType.subagent_result ↦
              cat ") completed:\n" (or_text msg.final_message "(no output)")
          | MailboxSourceType.subagent_failed ↦ ") failed."
        ]))))

-- A part of the list, "\n{header}\n{content}".
unfoldable pub render_part : MailboxMessageWithContent → String
render_part msg = cat "\n## " (
    cat msg.subagent_name (
      cat " [" (
        cat (status_text msg.source_type)
          (cat "] (session: " (cat msg.source_session_id (cat ")\n" (content_of msg)))))))

-- `"\n".join(parts)`.
unfoldable pub join_lines : List String → String
join_lines [] = ""
join_lines (s ∷ []) = s
join_lines (s ∷ t ∷ ss) = cat s (cat "\n" (join_lines (t ∷ ss)))

abbrev pub with_user_input : Option String → String → String
with_user_input none body = body
with_user_input (some text) body =
    if text == "" then body else cat body (cat "\n\n---\nUser message:\n" text)

-- `render_mailbox_prompt`.
unfoldable pub render_mailbox_prompt : List MailboxMessageWithContent → Option String → String
render_mailbox_prompt [] user_input = or_text user_input ""
render_mailbox_prompt (m ∷ []) user_input = with_user_input user_input (render_single m)
render_mailbox_prompt (m ∷ n ∷ ms) user_input =
    with_user_input user_input
      (join_lines ("Async subagent results:" ∷ map render_part (m ∷ n ∷ ms)))
