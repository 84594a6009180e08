-- ===== src/Execution/Specs.antt =====
-- netherbrain/agent_runtime/models/preset.py and models/workspace.py: the parts of a preset. A JSON
-- document inside them is its text.
use netherbrain.Prelude.{
  ℕ, String, Bool, true, false, Option, none, some, List, truthy, ◌&&◌, not, if◌then◌else◌,
}
use netherbrain.Enums.{EnvironmentMode}

pub data McpTransport : Type 0 where
  streamable_http sse : McpTransport

pub record McpServerSpec : Type 0 where
  pub url : String
  pub transport : McpTransport
  pub headers : Option String
  pub tool_prefix : Option String
  pub timeout : Option ℕ
  pub optional : Bool
  pub description : Option String

pub record ModelPreset : Type 0 where
  pub name : String
  pub model_settings_preset : Option String
  pub model_settings : Option String
  pub model_config_preset : Option String
  pub model_config_overrides : Option String

pub record ToolsetSpec : Type 0 where
  pub toolset_name : String
  pub enabled : Bool
  pub exclude_tools : List String

pub record ToolConfigSpec : Type 0 where
  pub skip_url_verification : Bool
  pub enable_load_document : Bool
  pub image_understanding_model : Option String
  pub image_understanding_model_settings : Option String
  pub video_understanding_model : Option String
  pub video_understanding_model_settings : Option String

pub record SubagentRef : Type 0 where
  pub preset_id : String
  pub name : String
  pub description : String
  pub instruction : Option String

pub record SubagentSpec : Type 0 where
  pub include_builtin : Bool
  pub async_enabled : Bool
  pub refs : List SubagentRef

pub record EnvironmentSpec : Type 0 where
  pub mode : EnvironmentMode
  pub workspace_id : Option String
  pub project_ids : Option (List String)
  pub container_id : Option String
  pub container_workdir : String

-- The dict behind an `EnvironmentSpec`: each key, if it is there, with its value.
pub record RawEnvironment : Type 0 where
  pub mode : Option EnvironmentMode
  pub workspace_id : Option (Option String)
  pub project_ids : Option (Option (List String))
  pub container_id : Option (Option String)
  pub container_workdir : Option String

-- A value or the field's default.
abbrev pub or_default {ℓ} : {A : Type ℓ} → Option A → A → A
or_default none d = d
or_default (some a) d = a

abbrev pub is_sandbox : EnvironmentMode → Bool
is_sandbox EnvironmentMode.sandbox = true
is_sandbox EnvironmentMode.local = false

-- The fields of `EnvironmentSpec(**raw)`, with the defaults.
abbrev pub filled : RawEnvironment → EnvironmentSpec
filled raw = record {
  mode = or_default raw.mode EnvironmentMode.local;
  workspace_id = or_default raw.workspace_id none;
  project_ids = or_default raw.project_ids none;
  container_id = or_default raw.container_id none;
  container_workdir = or_default raw.container_workdir "/workspace";
}

-- `_validate_sandbox_requires_container`.
abbrev pub is_consistent : EnvironmentSpec → Bool
is_consistent env = not (is_sandbox env.mode && not (truthy env.container_id))

-- `EnvironmentSpec(**raw)`; none stands for the validation error.
unfoldable pub environment_spec : RawEnvironment → Option EnvironmentSpec
environment_spec raw = if is_consistent (filled raw) then some (filled raw) else none

pub record ProjectRef : Type 0 where
  pub id : String
  pub description : Option String
