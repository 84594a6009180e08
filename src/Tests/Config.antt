-- ===== src/Tests/Config.antt =====
-- The resolution of a configuration, and deferred tools.
use netherbrain.Prelude.{true, false, arith, eq_iff, Option, none, some, List, [], ◌∷◌, ◌≡◌, refl}
use netherbrain.Prelude.Dict
use netherbrain.Prelude.Results.{ok}
use netherbrain.Enums.{EnvironmentMode}
use netherbrain.Execution.Specs.{EnvironmentSpec}
use netherbrain.Execution.Resolver.{
  PresetRow, Project, Database, load_preset, ResolvedConfig, Request, resolve_projects,
  resolve_config, build_mcp_config,
}
use netherbrain.Managers.Presets.{PresetCreate, create_preset, created, unset_all_defaults, store}
use netherbrain.Managers.Presets.Defaults.{
  HasOneDefault, create, perform-HasOneDefault, load_preset-create_preset,
}
use netherbrain.Execution.Resolver.Priority.{
  load, first_level, levels, resolve_projects-first_level,
}
use netherbrain.Execution.Resolver.Outcome.{is_ok, can_resolve, resolve_config-can_resolve}
use netherbrain.Execution.Deferred.{
  Metadata, UserInteraction, build_deferred_tool_results, auto_denied, auto_failed,
}
use netherbrain.Execution.Deferred.Coverage.{
  or_else, fallback, last_verdict, last_return, is_asked, listed, approval_of, call_of,
  build_deferred_tool_results-answers,
}

abbrev pub preset : PresetRow
preset = record {
  preset_id = "p";
  name = "helper";
  description = none;
  model = record {
    name = "m";
    model_settings_preset = none;
    model_settings = none;
    model_config_preset = none;
    model_config_overrides = none;
  };
  system_prompt = "Help.";
  toolsets = [];
  environment = record {
    mode = some EnvironmentMode.local;
    workspace_id = none;
    project_ids = none;
    container_id = none;
    container_workdir = none;
  };
  tool_config = record {
    skip_url_verification = true;
    enable_load_document = false;
    image_understanding_model = none;
    image_understanding_model_settings = none;
    video_understanding_model = none;
    video_understanding_model_settings = none;
  };
  subagents = record { include_builtin = true; async_enabled = false; refs = [] };
  mcp_servers = [];
  is_default = true;
}

abbrev pub database : Database
database = record { presets = ("p", preset) ∷ []; workspaces = ("w", Project.bare "one" ∷ []) ∷ [] }

abbrev boxed : EnvironmentSpec
boxed = record {
  mode = EnvironmentMode.sandbox;
  workspace_id = some "w";
  project_ids = none;
  container_id = some "box";
  container_workdir = "/work";
}

resolve_projects-first_level_example :
    resolve_projects database none none (some boxed) boxed (some [])
    ≡ load database (first_level (levels none none (some boxed) boxed (some [])))
resolve_projects-first_level_example =
    resolve_projects-first_level database none none (some boxed) boxed (some []) refl

abbrev request : Request
request = record {
  preset_id = none;
  override = some (record {
    model = none;
    system_prompt = none;
    toolsets = none;
    environment = some boxed;
    tool_config = none;
    subagents = none;
    mcp_servers = none;
  });
  workspace_id = none;
  project_ids = none;
  parent_project_ids = none;
  parent_environment_mode = none;
  parent_container_id = none;
  parent_container_workdir = none;
}

resolve_config-can_resolve_example :
    is_ok (resolve_config database request) ≡ can_resolve database request
resolve_config-can_resolve_example = resolve_config-can_resolve database request

abbrev pub resolved : ResolvedConfig
resolved = record {
  preset_id = "p";
  model = preset.model;
  system_prompt = "Help.";
  toolsets = [];
  tool_config = preset.tool_config;
  subagents = preset.subagents;
  environment_mode = EnvironmentMode.sandbox;
  project_ids = "one" ∷ [];
  project_descriptions = [];
  container_id = some "box";
  container_workdir = some "/work";
  mcp = build_mcp_config [];
}

abbrev waiting : Metadata
waiting = ("b", some "call") ∷ []

abbrev approved : Option (List UserInteraction)
approved = some (record { tool_call_id = "a"; approved = true } ∷ [])

build_deferred_tool_results-answers_example :
    let m : Metadata = ("a", none) ∷ waiting in
    let r = build_deferred_tool_results m approved none in
    (approval_of "a" r
      ≡ or_else
          (last_verdict "a" (listed approved))
          (fallback (is_asked "approval" "a" m) auto_denied))
    × (call_of "a" r
        ≡ or_else (last_return "a" (listed none)) (fallback (is_asked "call" "a" m) auto_failed))
build_deferred_tool_results-answers_example =
    build_deferred_tool_results-answers "a" "a" none waiting approved none

abbrev planner : PresetCreate
planner = record {
  preset_id = some "q";
  name = "planner";
  description = none;
  model = preset.model;
  system_prompt = "Plan.";
  toolsets = [];
  environment = boxed;
  tool_config = preset.tool_config;
  subagents = preset.subagents;
  mcp_servers = [];
  is_default = true;
}

abbrev with_planner : Database
with_planner = store "q" (created "q" planner) (unset_all_defaults database)

load_preset-create_preset_example : load_preset with_planner none ≡ ok (created "q" planner)
unfolding create_preset Dict.has
load_preset-create_preset_example =
    load_preset-create_preset planner "drawn" false database with_planner refl refl

database-HasOneDefault : HasOneDefault database.presets
unfolding Dict.get
database-HasOneDefault k l a b g h t t' = ground (arith, eq_iff "p" k, eq_iff "p" l)

perform-HasOneDefault_example : HasOneDefault with_planner.presets
unfolding create_preset Dict.has
perform-HasOneDefault_example =
    perform-HasOneDefault (create planner "drawn" false) database with_planner
      database-HasOneDefault refl
