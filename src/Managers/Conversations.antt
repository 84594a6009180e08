-- ===== src/Managers/Conversations.antt =====
-- netherbrain/agent_runtime/managers/conversations.py: reading and updating one conversation.
use netherbrain.Prelude.{String, Bool, false, Option, none, some, ◌==◌, ◌&&◌, not}
use netherbrain.Prelude.Dict
use netherbrain.Prelude.Dict.{Dict}
use netherbrain.Prelude.Results.{Result, ok, ◌>>=◌, ◌>>◌, raise_if, or_raise}
use netherbrain.Enums.{ConversationStatus}
use netherbrain.Managers.Sessions.{System, ConversationRow}

pub data Error : Type 0 where
  conversation_not_found : String → Error

-- `user_id is not None and not is_admin and conversation.user_id != user_id`.
abbrev pub is_foreign : Option String → Bool → ConversationRow → Bool
is_foreign none is_admin c = false
is_foreign (some user_id) is_admin c = not is_admin && not (c.user_id == user_id)

-- `get_conversation`.
unfoldable pub get_conversation :
    (conversation_id : String) (user_id : Option String) (is_admin : Bool)
    → System
    → Result Error ConversationRow
get_conversation conversation_id user_id is_admin s = do
  conversation ←
      or_raise (Dict.get conversation_id s.conversations) (conversation_not_found conversation_id)
  raise_if (is_foreign user_id is_admin conversation) (conversation_not_found conversation_id)
  ok conversation

-- `ConversationUpdate`: the fields that were set, each with its value.
pub record ConversationUpdate : Type 0 where
  pub title : Option (Option String)
  pub default_preset_id : Option (Option String)
  pub metadata : Option (Option String)
  pub status : Option ConversationStatus

abbrev pub assigned {ℓ} : {A : Type ℓ} → Option A → A → A
assigned none old = old
assigned (some a) old = a

abbrev pub updated : ConversationUpdate → ConversationRow → ConversationRow
updated body c = record c {
  title = assigned body.title c.title;
  default_preset_id = assigned body.default_preset_id c.default_preset_id;
  metadata = assigned body.metadata c.metadata;
  status = assigned body.status c.status;
}

-- `update_conversation`.
unfoldable pub update_conversation :
    (conversation_id : String) → ConversationUpdate → System → Result Error System
update_conversation conversation_id body s = do
  conversation ←
      or_raise (Dict.get conversation_id s.conversations) (conversation_not_found conversation_id)
  ok (record s {
    conversations = Dict.set conversation_id (updated body conversation) s.conversations;
  })
