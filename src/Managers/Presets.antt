-- ===== src/Managers/Presets.antt =====
-- netherbrain/agent_runtime/managers/presets.py, over the table that the resolver reads.
pub mod Defaults
use netherbrain.Prelude.{
  String, Bool, true, false, Option, none, some, List, ◌&&◌, not, is_some, if◌then◌else◌, or_text,
  [], ◌∷◌,
}
use netherbrain.Prelude.Dict
use netherbrain.Prelude.Dict.{Dict}
use netherbrain.Prelude.Results.{Result, ok, ◌>>=◌, ◌>>◌, raise_if, or_raise}
use netherbrain.Execution.Specs.{
  ModelPreset, ToolsetSpec, ToolConfigSpec, SubagentSpec, McpServerSpec, EnvironmentSpec,
  RawEnvironment,
}
use netherbrain.Execution.Resolver.{PresetRow, Database}
use netherbrain.Managers.Conversations.{assigned}

pub data Error : Type 0 where
  duplicate_preset preset_not_found : String → Error
  default_preset_conflict : Error

pub record PresetCreate : Type 0 where
  pub preset_id : Option String
  pub name : String
  pub description : Option String
  pub model : ModelPreset
  pub system_prompt : String
  pub toolsets : List ToolsetSpec
  pub environment : EnvironmentSpec
  pub tool_config : ToolConfigSpec
  pub subagents : SubagentSpec
  pub mcp_servers : List McpServerSpec
  pub is_default : Bool

-- The fields that the caller set, each with its value; a null is taken for the description alone.
pub record PresetUpdate : Type 0 where
  pub name : Option String
  pub description : Option (Option String)
  pub model : Option ModelPreset
  pub system_prompt : Option String
  pub toolsets : Option (List ToolsetSpec)
  pub environment : Option RawEnvironment
  pub tool_config : Option ToolConfigSpec
  pub subagents : Option SubagentSpec
  pub mcp_servers : Option (List McpServerSpec)
  pub is_default : Option Bool

-- `model_dump()` of an environment: every key, also those that were left at their defaults.
abbrev pub dumped : EnvironmentSpec → RawEnvironment
dumped env = record {
  mode = some env.mode;
  workspace_id = some env.workspace_id;
  project_ids = some env.project_ids;
  container_id = some env.container_id;
  container_workdir = some env.container_workdir;
}

-- `Preset(preset_id=preset_id, **row_data)`.
abbrev pub created : (preset_id : String) → PresetCreate → PresetRow
created preset_id body = record {
  preset_id = preset_id;
  name = body.name;
  description = body.description;
  model = body.model;
  system_prompt = body.system_prompt;
  toolsets = body.toolsets;
  environment = dumped body.environment;
  tool_config = body.tool_config;
  subagents = body.subagents;
  mcp_servers = body.mcp_servers;
  is_default = body.is_default;
}

-- The loop of `setattr` in `update_preset`.
abbrev pub updated : PresetUpdate → PresetRow → PresetRow
updated body row = record row {
  name = assigned body.name row.name;
  description = assigned body.description row.description;
  model = assigned body.model row.model;
  system_prompt = assigned body.system_prompt row.system_prompt;
  toolsets = assigned body.toolsets row.toolsets;
  environment = assigned body.environment row.environment;
  tool_config = assigned body.tool_config row.tool_config;
  subagents = assigned body.subagents row.subagents;
  mcp_servers = assigned body.mcp_servers row.mcp_servers;
  is_default = assigned body.is_default row.is_default;
}

abbrev pub without_default : Dict PresetRow → Dict PresetRow
without_default [] = []
without_default ((k, row) ∷ rows) = (k, record row { is_default = false }) ∷ without_default rows

-- `_unset_all_defaults`.
abbrev pub unset_all_defaults : Database → Database
unset_all_defaults db = record db { presets = without_default db.presets }

abbrev pub store : (preset_id : String) → PresetRow → Database → Database
store preset_id row db = record db { presets = Dict.set preset_id row db.presets }

-- `create_preset`: `fresh` is the drawn id, `raced` says whether another transaction commits a
-- default between the UPDATE and the commit, which the unique index then refuses.
unfoldable pub create_preset :
    (body : PresetCreate) (fresh : String) (raced : Bool) → Database → Result Error Database
create_preset body fresh raced db = do
  raise_if (Dict.has (or_text body.preset_id fresh) db.presets)
      (duplicate_preset (or_text body.preset_id fresh))
  raise_if (body.is_default && raced) default_preset_conflict
  ok (
      store (or_text body.preset_id fresh) (created (or_text body.preset_id fresh) body)
        (if body.is_default then unset_all_defaults db else db))

-- `get_preset`.
unfoldable pub get_preset : (preset_id : String) → Database → Result Error PresetRow
get_preset preset_id db = or_raise (Dict.get preset_id db.presets) (preset_not_found preset_id)

-- `not changes`.
abbrev pub is_empty : PresetUpdate → Bool
is_empty body =
    not (is_some body.name)
    && not (is_some body.description)
    && not (is_some body.model)
    && not (is_some body.system_prompt)
    && not (is_some body.toolsets)
    && not (is_some body.environment)
    && not (is_some body.tool_config)
    && not (is_some body.subagents)
    && not (is_some body.mcp_servers)
    && not (is_some body.is_default)

-- `changes.get("is_default")`.
abbrev pub sets_default : PresetUpdate → Bool
sets_default body = assigned body.is_default false

-- `update_preset` from the first write on.
abbrev pub apply_changes :
    (preset_id : String)
    → PresetUpdate
    → (raced : Bool) → Database
    → PresetRow
    → Result Error Database
apply_changes preset_id body raced db preset =
    raise_if (sets_default body && raced) default_preset_conflict
    >> ok (
        store preset_id (updated body preset)
          (if sets_default body then unset_all_defaults db else db))

-- `update_preset`, with `raced` as above.
unfoldable pub update_preset :
    (preset_id : String) → PresetUpdate → (raced : Bool) → Database → Result Error Database
update_preset preset_id body raced db = do
  preset ← get_preset preset_id db
  if is_empty body then ok db else apply_changes preset_id body raced db preset

-- `delete_preset`.
unfoldable pub delete_preset : (preset_id : String) → Database → Result Error Database
delete_preset preset_id db = do
  preset ← get_preset preset_id db
  ok (record db { presets = Dict.pop preset_id db.presets })
