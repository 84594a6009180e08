-- ===== src/Execution/Resolver/Outcome.antt =====
-- When a configuration is refused.
use netherbrain.Prelude.{
  String, Bool, true, false, Option, none, some, ◌&&◌, not, is_some, find, ◌≡◌, refl, ap, ◌∙◌,
  arith, Bool-cases, Option-cases, inl, inr, ◌⊎◌,
}
use netherbrain.Prelude.Dict
use netherbrain.Prelude.Dict.{has-get, Dict}
use netherbrain.Prelude.Results.{Result, ok, err, ◌>>=◌}
use netherbrain.Execution.Specs.{environment_spec, filled, is_consistent}
use netherbrain.Execution.Resolver.{
  Error, no_preset, PresetRow, Database, Request, load_preset, resolve_workspace, resolve_projects,
  env_override, merged, with_environment, with_preset, resolve_config,
}
use netherbrain.Execution.Resolver.Priority.{
  Level, unset, workspace, inline, both, first_level, load, levels, resolve_projects-first_level,
}

-- Whether a level can be loaded.
abbrev pub can_load : Database → Level → Bool
can_load db (workspace w) = Dict.has w db.workspaces
can_load db (both source) = false
can_load db _ = true

-- The preset that a request means: the one it names, or one marked as the default.
abbrev pub preset_of : Database → Option String → Option PresetRow
preset_of db (some preset_id) = Dict.get preset_id db.presets
preset_of db none = find (λ p. p.is_default) (Dict.values db.presets)

abbrev pub can_resolve_with : Database → Request → Option PresetRow → Bool
can_resolve_with db q none = false
can_resolve_with db q (some preset) =
    let env = filled preset.environment in
    is_consistent env
    && can_load db (
        first_level (levels q.workspace_id q.project_ids (env_override q) env q.parent_project_ids))

abbrev pub can_resolve : Database → Request → Bool
can_resolve db q =
    not (is_some q.workspace_id && is_some q.project_ids)
    && can_resolve_with db q (preset_of db q.preset_id)

abbrev pub is_ok {ℓ κ} : {E : Type ℓ} {A : Type κ} → Result E A → Bool
is_ok (ok a) = true
is_ok (err e) = false

is_ok-map : {E A B : Type 0} (f : A → B) (m : Result E A) → is_ok (m >>= λ a. ok (f a)) ≡ is_ok m
is_ok-map f (ok a) = refl
is_ok-map f (err e) = refl

can_load-load : (db : Database) (l : Level) → is_ok (load db l) ≡ can_load db l
unfolding resolve_workspace
can_load-load db unset = refl
can_load-load db (workspace w) = ground (arith, has-get w db.workspaces)
can_load-load db (inline ids) = refl
can_load-load db (both source) = refl

preset_of-load_preset :
    (db : Database) (id : Option String)
    → ((p : PresetRow) × (preset_of db id ≡ some p) × (load_preset db id ≡ ok p))
      ⊎ ((e : Error) × (preset_of db id ≡ none) × (load_preset db id ≡ err e))
unfolding load_preset
preset_of-load_preset db id = elim (Option-cases (preset_of db id)) [
  | inl n ↦ inr (no_preset id, n, missing id n)
  | inr (p, h) ↦ inl (p, h, found id p h)
]
  where
    missing : (i : Option String) → preset_of db i ≡ none → load_preset db i ≡ err (no_preset i)
    missing none h = rw h refl
    missing (some k) h = rw h refl

    found : (i : Option String) (p : PresetRow) → preset_of db i ≡ some p → load_preset db i ≡ ok p
    found none p h = rw h refl
    found (some k) p h = rw h refl

with_preset-can_resolve :
    (db : Database) (q : Request) (p : PresetRow)
    → is_some q.workspace_id && is_some q.project_ids ≡ false
    → is_ok (with_preset db q p) ≡ can_resolve_with db q (some p)
unfolding with_preset with_environment environment_spec
with_preset-can_resolve db q p h = elim (Bool-cases (is_consistent (filled p.environment))) [
  | inl c ↦
      let env = filled p.environment in
      let named =
        resolve_projects-first_level db q.workspace_id q.project_ids (env_override q) env
          q.parent_project_ids h in
      rw c (
        is_ok-map (λ projects. merged q p env projects)
          (resolve_projects db q.workspace_id q.project_ids (env_override q) env
            q.parent_project_ids)
        ∙ ap is_ok named
        ∙ can_load-load db (
            first_level
              (levels q.workspace_id q.project_ids (env_override q) env q.parent_project_ids)))
  | inr c ↦ rw c refl
]

-- A configuration is resolved exactly when the request does not name both a workspace and a project
-- list, the preset it means exists and has a consistent environment, and the deciding level of the
-- projects does not name both and, where it names a workspace, names one that exists.
pub resolve_config-can_resolve :
    (db : Database) (q : Request) → is_ok (resolve_config db q) ≡ can_resolve db q
unfolding resolve_config
resolve_config-can_resolve db q =
    elim (Bool-cases (is_some q.workspace_id && is_some q.project_ids)) [
      | inl e ↦ rw e refl
      | inr e ↦ elim (preset_of-load_preset db q.preset_id) [
        | inl (p, named, loads) ↦ rw (e, named, loads) (with_preset-can_resolve db q p e)
        | inr (x, named, fails) ↦ rw (e, named, fails) refl
      ]
    ]
