-- ===== src/Execution/Resolver.antt =====
-- netherbrain/agent_runtime/execution/resolver.py, with `build_mcp_config` of
-- netherbrain/agent_runtime/execution/mcp.py. The tables of presets and workspaces are dicts by
-- their primary keys.
pub mod Priority
pub mod Outcome
use netherbrain.Prelude.{
  ℕ, String, Bool, true, false, Option, none, some, List, [], ◌∷◌, ◌&&◌, is_some, if◌then◌else◌,
  find, map, truthy, or_text,
}
use netherbrain.Prelude.Dict
use netherbrain.Prelude.Dict.{Dict}
use netherbrain.Prelude.Results.{Result, ok, err, ◌>>=◌, ◌>>◌, raise_if, or_raise}
use netherbrain.Enums.{EnvironmentMode}
use netherbrain.Execution.Specs.{
  ModelPreset, ToolsetSpec, ToolConfigSpec, SubagentSpec, McpServerSpec, EnvironmentSpec,
  RawEnvironment, environment_spec, ProjectRef,
}

-- The exceptions, `NoPresetError`, `WorkspaceNotFoundError` and `ProjectConflictError`, and
-- pydantic's `ValidationError`.
pub data Error : Type 0 where
  no_preset : Option String → Error
  workspace_not_found : String → Error
  project_conflict : (source : String) → Error
  validation_error : Error

-- The table `presets`, less its times.
pub record PresetRow : Type 0 where
  pub preset_id : String
  pub name : String
  pub description : Option String
  pub model : ModelPreset
  pub system_prompt : String
  pub toolsets : List ToolsetSpec
  pub environment : RawEnvironment
  pub tool_config : ToolConfigSpec
  pub subagents : SubagentSpec
  pub mcp_servers : List McpServerSpec
  pub is_default : Bool

-- An entry of a workspace's projects: a dict, or the bare id.
pub data Project : Type 0 where
  ref : ProjectRef → Project
  bare : String → Project

pub record Database : Type 0 where
  pub presets : Dict PresetRow
  pub workspaces : Dict (List Project)

pub record ConfigOverride : Type 0 where
  pub model : Option ModelPreset
  pub system_prompt : Option String
  pub toolsets : Option (List ToolsetSpec)
  pub environment : Option EnvironmentSpec
  pub tool_config : Option ToolConfigSpec
  pub subagents : Option SubagentSpec
  pub mcp_servers : Option (List McpServerSpec)

-- `McpConfig`.
pub record McpConfig : Type 0 where
  pub servers : List McpServerSpec
  pub max_results : ℕ
  pub optional_namespaces : List String

-- The comprehension of `build_mcp_config`.
unfoldable pub namespaces : List McpServerSpec → List String
namespaces [] = []
namespaces (s ∷ ss) =
    let rest = namespaces ss in
    if s.optional && truthy s.tool_prefix then or_text s.tool_prefix "" ∷ rest else rest

-- `build_mcp_config`.
unfoldable pub build_mcp_config : List McpServerSpec → McpConfig
build_mcp_config servers = record {
  servers = servers;
  max_results = 5;
  optional_namespaces = namespaces servers;
}

pub record ResolvedConfig : Type 0 where
  pub preset_id : String
  pub model : ModelPreset
  pub system_prompt : String
  pub toolsets : List ToolsetSpec
  pub tool_config : ToolConfigSpec
  pub subagents : SubagentSpec
  pub environment_mode : EnvironmentMode
  pub project_ids : List String
  pub project_descriptions : Dict String
  pub container_id : Option String
  pub container_workdir : Option String
  pub mcp : McpConfig

-- A project list with the descriptions.
abbrev pub Projects : Type 0
Projects = List String × Dict String

-- `_load_preset`.
unfoldable pub load_preset : Database → Option String → Result Error PresetRow
load_preset db (some preset_id) =
    or_raise (Dict.get preset_id db.presets) (no_preset (some preset_id))
load_preset db none = or_raise (find (λ p. p.is_default) (Dict.values db.presets)) (no_preset none)

abbrev pub ref_of : Project → ProjectRef
ref_of (ref r) = r
ref_of (bare id) = record { id = id; description = none }

-- The loop of `_resolve_workspace`.
unfoldable pub collect : List Project → Dict String → Dict String
collect [] descriptions = descriptions
collect (p ∷ ps) descriptions =
    let r = ref_of p in
    collect ps (
      if truthy r.description
      then Dict.set r.id (or_text r.description "") descriptions
      else descriptions)

-- `_resolve_workspace`.
unfoldable pub resolve_workspace : Database → String → Result Error Projects
resolve_workspace db workspace_id = do
  projects ← or_raise (Dict.get workspace_id db.workspaces) (workspace_not_found workspace_id)
  ok (map (λ p. (ref_of p).id) projects, collect projects [])

abbrev pub of_workspace :
    Database → Option String → Option (List String) → Result Error (Option Projects)
of_workspace db (some workspace_id) project_ids = do
  projects ← resolve_workspace db workspace_id
  ok (some projects)
of_workspace db none (some project_ids) = ok (some (project_ids, []))
of_workspace db none none = ok none

-- `_resolve_env_projects`.
unfoldable pub resolve_env_projects :
    Database → EnvironmentSpec → (source : String) → Result Error (Option Projects)
resolve_env_projects db env source = do
  raise_if (is_some env.workspace_id && is_some env.project_ids) (project_conflict source)
  of_workspace db env.workspace_id env.project_ids

-- Levels 4 and 5.
abbrev pub or_parent : Option (List String) → Projects
or_parent none = ([], [])
or_parent (some parent_project_ids) = (parent_project_ids, [])

-- Level 2, which is absent without an override.
abbrev pub override_projects : Database → Option EnvironmentSpec → Result Error (Option Projects)
override_projects db none = ok none
override_projects db (some env) = resolve_env_projects db env "override"

abbrev pub unless_set : Option Projects → Result Error Projects → Result Error Projects
unless_set (some projects) later = ok projects
unless_set none later = later

-- Levels 2 to 5 of `_resolve_projects`.
abbrev pub from_environments :
    Database
    → Option EnvironmentSpec
    → EnvironmentSpec
    → Option (List String)
    → Result Error Projects
from_environments db override_env preset_env parent_project_ids = do
  overridden ← override_projects db override_env
  unless_set overridden (do
    preset ← resolve_env_projects db preset_env "preset"
    unless_set preset (ok (or_parent parent_project_ids)))

-- `_resolve_projects`.
unfoldable pub resolve_projects :
    Database
    → (request_workspace_id : Option String) (request_project_ids : Option (List String))
      (override_env : Option EnvironmentSpec) (preset_env : EnvironmentSpec)
      (parent_project_ids : Option (List String))
    → Result Error Projects
resolve_projects db (some workspace_id) project_ids override_env preset_env parent =
    resolve_workspace db workspace_id
resolve_projects db none (some project_ids) override_env preset_env parent = ok (project_ids, [])
resolve_projects db none none override_env preset_env parent =
    from_environments db override_env preset_env parent

-- `_first`.
abbrev pub first {ℓ} : {A : Type ℓ} → Option A → A → A
first none default = default
first (some override) default = override

-- `_resolve_env_field`, where a value of the field's type is `given` from one that is not None.
unfoldable pub resolve_env_field {ℓ κ} :
    {T : Type ℓ} {V : Type κ} (given : T → V) (override_val : Option T) (in_preset : Bool)
    (preset_val : V) (parent_val : Option T) (default : V)
    → V
resolve_env_field given (some override) in_preset preset_val parent_val default = given override
resolve_env_field given none in_preset preset_val parent_val default =
    if in_preset
    then preset_val
    else elim parent_val [ none ↦ default | some parent ↦ given parent ]

-- `override and override.field`, a field of an object that may be None.
abbrev pub of_override {ℓ κ} : {R : Type ℓ} {A : Type κ} → Option R → (R → Option A) → Option A
of_override none field = none
of_override (some r) field = field r

-- The arguments of `resolve_config`.
pub record Request : Type 0 where
  pub preset_id : Option String
  pub override : Option ConfigOverride
  pub workspace_id : Option String
  pub project_ids : Option (List String)
  pub parent_project_ids : Option (List String)
  pub parent_environment_mode : Option EnvironmentMode
  pub parent_container_id : Option String
  pub parent_container_workdir : Option String

abbrev pub env_override : Request → Option EnvironmentSpec
env_override q = of_override q.override (λ o. o.environment)

-- The merged configuration, once preset, environment and projects are there.
unfoldable pub merged : Request → PresetRow → EnvironmentSpec → Projects → ResolvedConfig
merged q preset env projects =
    let mode : EnvironmentMode =
      resolve_env_field (λ m. m) (of_override (env_override q) (λ e. some e.mode))
        (is_some preset.environment.mode) env.mode q.parent_environment_mode
        EnvironmentMode.local in
    record {
      preset_id = preset.preset_id;
      model = first (of_override q.override (λ o. o.model)) preset.model;
      system_prompt = first (of_override q.override (λ o. o.system_prompt)) preset.system_prompt;
      toolsets = first (of_override q.override (λ o. o.toolsets)) preset.toolsets;
      tool_config = first (of_override q.override (λ o. o.tool_config)) preset.tool_config;
      subagents = first (of_override q.override (λ o. o.subagents)) preset.subagents;
      environment_mode = mode;
      project_ids = projects.0;
      project_descriptions = projects.1;
      container_id =
          resolve_env_field some (of_override (env_override q) (λ e. e.container_id))
            (is_some preset.environment.container_id) env.container_id q.parent_container_id none;
      container_workdir =
          resolve_env_field some (of_override (env_override q) (λ e. some e.container_workdir))
            (is_some preset.environment.container_workdir) (some env.container_workdir)
            q.parent_container_workdir none;
      mcp =
          build_mcp_config (first (of_override q.override (λ o. o.mcp_servers)) preset.mcp_servers);
    }

-- Steps 3 to 5 of `resolve_config`.
unfoldable pub with_environment :
    Database → Request → PresetRow → EnvironmentSpec → Result Error ResolvedConfig
with_environment db q preset env = do
  projects ←
      resolve_projects db q.workspace_id q.project_ids (env_override q) env q.parent_project_ids
  ok (merged q preset env projects)

-- Step 2, as far as it may raise, and what follows.
unfoldable pub with_preset : Database → Request → PresetRow → Result Error ResolvedConfig
with_preset db q preset = do
  env ← or_raise (environment_spec preset.environment) validation_error
  with_environment db q preset env

-- `resolve_config`.
unfoldable pub resolve_config : Database → Request → Result Error ResolvedConfig
resolve_config db q = do
  raise_if (is_some q.workspace_id && is_some q.project_ids) (project_conflict "request")
  preset ← load_preset db q.preset_id
  with_preset db q preset
