-- ===== src/Execution/Resolver/Priority.antt =====
-- Which level decides the projects of a configuration.
use netherbrain.Prelude.{
  String, false, Option, none, some, List, [], ◌∷◌, ◌&&◌, is_some, ◌≡◌, refl, arith, inl, inr,
}
use netherbrain.Prelude.Results.{Result, ok, err, Result-cases, ◌>>=◌, ◌>>◌, raise_if}
use netherbrain.Execution.Specs.{EnvironmentSpec}
use netherbrain.Execution.Resolver.{
  Error, project_conflict, Database, Projects, resolve_workspace, resolve_env_projects,
  resolve_projects, override_projects, of_workspace, unless_set, or_parent, from_environments,
}

-- What one level says about the projects.
pub data Level : Type 0 where
  unset : Level
  workspace : String → Level
  inline : List String → Level
  both : (source : String) → Level

abbrev pub level_of : (source : String) → Option String → Option (List String) → Level
level_of source (some w) (some ids) = both source
level_of source (some w) none = workspace w
level_of source none (some ids) = inline ids
level_of source none none = unset

abbrev pub env_level : (source : String) → EnvironmentSpec → Level
env_level source env = level_of source env.workspace_id env.project_ids

abbrev pub override_level : Option EnvironmentSpec → Level
override_level none = unset
override_level (some env) = env_level "override" env

abbrev pub parent_level : Option (List String) → Level
parent_level none = unset
parent_level (some ids) = inline ids

-- The first level that says something.
abbrev pub first_level : List Level → Level
first_level [] = unset
first_level (unset ∷ ls) = first_level ls
first_level (l ∷ ls) = l

abbrev pub load : Database → Level → Result Error Projects
load db unset = ok ([], [])
load db (workspace w) = resolve_workspace db w
load db (inline ids) = ok (ids, [])
load db (both source) = err (project_conflict source)

abbrev pub levels :
    Option String
    → Option (List String)
    → Option EnvironmentSpec
    → EnvironmentSpec
    → Option (List String)
    → List Level
levels w ids override_env preset_env parent =
    level_of "request" w ids
    ∷ override_level override_env
    ∷ env_level "preset" preset_env
    ∷ parent_level parent
    ∷ []

-- What resolving a level gives, nothing where it says nothing.
abbrev loaded : Database → Level → Result Error (Option Projects)
loaded db unset = ok none
loaded db l = load db l >>= λ projects. ok (some projects)

resolve_env_projects-loaded :
    (db : Database) (env : EnvironmentSpec) (source : String)
    → resolve_env_projects db env source ≡ loaded db (env_level source env)
unfolding resolve_env_projects
resolve_env_projects-loaded db env source = by_fields env.workspace_id env.project_ids
  where
    by_fields :
        (w : Option String) (ids : Option (List String))
        → (raise_if (is_some w && is_some ids) (project_conflict source) >> of_workspace db w ids)
          ≡ loaded db (level_of source w ids)
    by_fields (some w) (some ids) = refl
    by_fields (some w) none = refl
    by_fields none (some ids) = refl
    by_fields none none = refl

override_projects-loaded :
    (db : Database) (env : Option EnvironmentSpec)
    → override_projects db env ≡ loaded db (override_level env)
override_projects-loaded db none = refl
override_projects-loaded db (some env) = resolve_env_projects-loaded db env "override"

unless_set-loaded :
    (db : Database) (l : Level) (ls : List Level) (later : Result Error Projects)
    → later ≡ load db (first_level ls)
    → (loaded db l >>= λ o. unless_set o later) ≡ load db (first_level (l ∷ ls))
unless_set-loaded db unset ls later h = h
unless_set-loaded db (workspace w) ls later h = elim (Result-cases (resolve_workspace db w)) [
  | inl (p, e) ↦ rw e refl
  | inr (x, e) ↦ rw e refl
]
unless_set-loaded db (inline ids) ls later h = refl
unless_set-loaded db (both source) ls later h = refl

or_parent-load :
    (db : Database) (parent : Option (List String))
    → (unless_set none (ok (or_parent parent))) ≡ load db (first_level (parent_level parent ∷ []))
or_parent-load db none = refl
or_parent-load db (some ids) = refl

from_environments-first_level :
    (db : Database) (override_env : Option EnvironmentSpec) (preset_env : EnvironmentSpec)
    (parent : Option (List String))
    → from_environments db override_env preset_env parent
      ≡ load db (
          first_level (
            override_level override_env ∷ env_level "preset" preset_env ∷ parent_level parent ∷ []))
from_environments-first_level db override_env preset_env parent =
    rw (override_projects-loaded, resolve_env_projects-loaded)
      (unless_set-loaded db (override_level override_env) _ _
        (unless_set-loaded db (env_level "preset" preset_env) _ _ (or_parent-load db parent)))

-- The projects come from the first level that says anything: the request, the override's
-- environment, the preset's environment, the parent session. A level names a workspace, whose
-- entries are loaded, or a list; one that names both is refused where it decides, with its source;
-- where no level says anything there are no projects. The request itself names at most one.
pub resolve_projects-first_level :
    (db : Database) (w : Option String) (ids : Option (List String))
    (override_env : Option EnvironmentSpec) (preset_env : EnvironmentSpec)
    (parent : Option (List String))
    → is_some w && is_some ids ≡ false
    → resolve_projects db w ids override_env preset_env parent
      ≡ load db (first_level (levels w ids override_env preset_env parent))
unfolding resolve_projects
resolve_projects-first_level db (some w) (some ids) o e parent h = absurd (ground arith)
resolve_projects-first_level db (some w) none o e parent h = refl
resolve_projects-first_level db none (some ids) o e parent h = refl
resolve_projects-first_level db none none o e parent h = from_environments-first_level db o e parent
