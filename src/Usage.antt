-- ===== src/Usage.antt =====
-- Token usage: `ModelUsage` and `PipelineUsage` of
-- netherbrain/agent_runtime/execution/events.py. A `PipelineUsage` is its `model_usages` dict.
pub mod Laws
use netherbrain.Prelude.{ℕ, ◌+◌, String, Option, none, some, [], ◌∷◌, foldl}
use netherbrain.Prelude.Dict
use netherbrain.Prelude.Dict.{Dict}

pub record ModelUsage : Type 0 where
  pub input_tokens : ℕ
  pub output_tokens : ℕ
  pub cache_read_tokens : ℕ
  pub cache_write_tokens : ℕ
  pub reasoning_tokens : ℕ
  pub total_tokens : ℕ
  pub requests : ℕ

-- `ModelUsage()`.
abbrev pub no_usage : ModelUsage
no_usage = record {
  input_tokens = 0;
  output_tokens = 0;
  cache_read_tokens = 0;
  cache_write_tokens = 0;
  reasoning_tokens = 0;
  total_tokens = 0;
  requests = 0;
}

-- `ModelUsage.__add__`.
unfoldable pub plus : ModelUsage → ModelUsage → ModelUsage
plus a b = record {
  input_tokens = a.input_tokens + b.input_tokens;
  output_tokens = a.output_tokens + b.output_tokens;
  cache_read_tokens = a.cache_read_tokens + b.cache_read_tokens;
  cache_write_tokens = a.cache_write_tokens + b.cache_write_tokens;
  reasoning_tokens = a.reasoning_tokens + b.reasoning_tokens;
  total_tokens = a.total_tokens + b.total_tokens;
  requests = a.requests + b.requests;
}

-- What the code reads of `pydantic_ai.RunUsage`; `reasoning` is `details.get("reasoning_tokens")`.
pub record RunUsage : Type 0 where
  pub input_tokens : ℕ
  pub output_tokens : ℕ
  pub cache_read_tokens : ℕ
  pub cache_write_tokens : ℕ
  pub reasoning : Option ℕ
  pub requests : ℕ

or_zero : Option ℕ → ℕ
or_zero none = 0
or_zero (some n) = n

-- `ModelUsage.from_run_usage`.
unfoldable pub from_run_usage : RunUsage → ModelUsage
unfolding or_zero
from_run_usage u = record {
  input_tokens = u.input_tokens;
  output_tokens = u.output_tokens;
  cache_read_tokens = u.cache_read_tokens;
  cache_write_tokens = u.cache_write_tokens;
  reasoning_tokens = or_zero u.reasoning;
  total_tokens = u.input_tokens + u.output_tokens;
  requests = u.requests;
}

abbrev pub PipelineUsage : Type 0
PipelineUsage = Dict ModelUsage

-- `PipelineUsage.add`.
unfoldable pub add : String → ModelUsage → PipelineUsage → PipelineUsage
add model_id usage p = elim (Dict.get model_id p) [
  | some old ↦ Dict.set model_id (plus old usage) p
  | none ↦ Dict.set model_id usage p
]

-- `PipelineUsage.total`.
unfoldable pub total : PipelineUsage → ModelUsage
total p = foldl plus no_usage (Dict.values p)

-- `PipelineUsage.from_run_usage`.
unfoldable pub of_run_usage : String → RunUsage → PipelineUsage
of_run_usage model_id u = add model_id (from_run_usage u) []
