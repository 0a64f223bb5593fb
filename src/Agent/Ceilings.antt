-- ===== src/Agent/Ceilings.antt =====
-- measure_twice/agent_bench/models.py: `Ceilings`.
pub mod Floors
use measure_twice.Prelude.{
  ℕ, zero, suc, ◌+◌, ◌-◌, ◌*◌, ◌≤◌, ◌<◌, String, ◌≡◌, refl, sym, ap, ◌∙◌, subst, ◌≢◌, ◌↔◌, ◌⊎◌, inl,
  inr, Bool, true, false, not, ◌&&◌, ◌||◌, Option, none, some, List, [], ◌∷◌, ◌++◌, map, append-nil,
  append_assoc, arith, ltb, leb, if◌then◌else◌, Bool-cases, Option-cases, Eq, nat_eq, text_eq,
  option_eq, ◌==◌, contains, ==_refl, eq_of_==, length, take, drop, all, All, length-append,
  All-append, All-map, Result, ok, err, ◌>>=◌, ◌>>◌, raise_if, or_raise, traverse, bind-eq-ok,
  Result-cases, ok-injective, traverse-All, traverse-map, List-cases, not_raised, not_raised_unless,
  keep, keep-keep, keep-append, keep-ext, All-keep, Distinct, Distinct-keep, Distinct-append,
}
use measure_twice.Text.{
  Text, text, is_space, strip_left, strip_right, strip, is_blank, is_digit, decimal, is_break,
  cons_line, splitlines, split, join, unlines,
}
use measure_twice.Json.{
  Json, Items, Fields, null, bool, int, neg, flt, str, arr, obj, nil, cons, field, end, to_list,
  of_list,
}
use measure_twice.Agent.Wire.{
  AgentInputError, not_positive, bandwidth_too_large, tmpfs_too_small, too_few_inodes, bad_version,
  unsupported_version, bad_repetitions, bad_concurrency, bad_algorithm, wrong_attempts,
  wrong_suite_profile, wrong_model_profile, require_exact_keys, index, exact_int, member_of,
  require_positive_int, validate_safe_id,
}
use measure_twice.Agent.Models.{ModelSpec}
use measure_twice.Agent.Profile.{
  positive_field, all_positive, Limits, limits_of_json, RunPolicy, policy_of_json, RetryPolicy,
  retry_of_json,
}

pub record Ceilings : Type 0 where
  pub changed_paths : ℕ
  pub patch_bytes : ℕ
  pub stream_bytes_each : ℕ
  pub cell_artifact_bytes : ℕ
  pub evaluator_cpu_s : ℕ
  pub evaluator_memory_bytes : ℕ
  pub evaluator_processes : ℕ
  pub evaluator_files : ℕ
  pub evaluator_file_bytes : ℕ
  pub evaluator_cpu_bandwidth_percent : ℕ
  pub evaluator_tmpfs_bytes : ℕ
  pub evaluator_tmpfs_inodes : ℕ

-- `evaluator_tmpfs_minimum_bytes`
unfoldable pub evaluator_tmpfs_minimum_bytes : ℕ → ℕ → ℕ
evaluator_tmpfs_minimum_bytes file_bytes files = file_bytes + files * 4096

-- `require_positive_int` of every number of the object
unfoldable pub has_positive_ceilings : Ceilings → Bool
has_positive_ceilings self = all_positive (
    self.changed_paths ∷ self.patch_bytes ∷ self.stream_bytes_each ∷ self.cell_artifact_bytes
    ∷ self.evaluator_cpu_s ∷ self.evaluator_memory_bytes ∷ self.evaluator_processes
    ∷ self.evaluator_files ∷ self.evaluator_file_bytes ∷ self.evaluator_cpu_bandwidth_percent
    ∷ self.evaluator_tmpfs_bytes ∷ self.evaluator_tmpfs_inodes ∷ [])

-- `Ceilings.__post_init__`
unfoldable pub checked_ceilings : Ceilings → Result AgentInputError Ceilings
checked_ceilings self = do
  raise_if (not (has_positive_ceilings self)) not_positive
  raise_if (ltb 100 self.evaluator_cpu_bandwidth_percent) bandwidth_too_large
  raise_if
      (ltb self.evaluator_tmpfs_bytes
        (evaluator_tmpfs_minimum_bytes self.evaluator_file_bytes self.evaluator_files))
      tmpfs_too_small
  raise_if (ltb self.evaluator_tmpfs_inodes (self.evaluator_files + 10001)) too_few_inodes
  ok self

abbrev pub ceiling_keys : List Text
ceiling_keys =
    text "changed_paths"
    ∷ text "patch_bytes"
    ∷ text "stream_bytes_each"
    ∷ text "cell_artifact_bytes"
    ∷ text "evaluator_cpu_s"
    ∷ text "evaluator_memory_bytes"
    ∷ text "evaluator_processes"
    ∷ text "evaluator_files"
    ∷ text "evaluator_file_bytes"
    ∷ text "evaluator_cpu_bandwidth_percent"
    ∷ text "evaluator_tmpfs_bytes"
    ∷ text "evaluator_tmpfs_inodes"
    ∷ []

-- the arguments of the constructor
unfoldable pub read_ceilings : Fields → Result AgentInputError Ceilings
read_ceilings clean = do
  changed_paths ← positive_field clean (text "changed_paths")
  patch_bytes ← positive_field clean (text "patch_bytes")
  stream_bytes_each ← positive_field clean (text "stream_bytes_each")
  cell_artifact_bytes ← positive_field clean (text "cell_artifact_bytes")
  evaluator_cpu_s ← positive_field clean (text "evaluator_cpu_s")
  evaluator_memory_bytes ← positive_field clean (text "evaluator_memory_bytes")
  evaluator_processes ← positive_field clean (text "evaluator_processes")
  evaluator_files ← positive_field clean (text "evaluator_files")
  evaluator_file_bytes ← positive_field clean (text "evaluator_file_bytes")
  evaluator_cpu_bandwidth_percent ← positive_field clean (text "evaluator_cpu_bandwidth_percent")
  evaluator_tmpfs_bytes ← positive_field clean (text "evaluator_tmpfs_bytes")
  evaluator_tmpfs_inodes ← positive_field clean (text "evaluator_tmpfs_inodes")
  ok (record {
    changed_paths = changed_paths;
    patch_bytes = patch_bytes;
    stream_bytes_each = stream_bytes_each;
    cell_artifact_bytes = cell_artifact_bytes;
    evaluator_cpu_s = evaluator_cpu_s;
    evaluator_memory_bytes = evaluator_memory_bytes;
    evaluator_processes = evaluator_processes;
    evaluator_files = evaluator_files;
    evaluator_file_bytes = evaluator_file_bytes;
    evaluator_cpu_bandwidth_percent = evaluator_cpu_bandwidth_percent;
    evaluator_tmpfs_bytes = evaluator_tmpfs_bytes;
    evaluator_tmpfs_inodes = evaluator_tmpfs_inodes;
  })

-- `Ceilings.from_mapping`
unfoldable pub ceilings_of_json : Json → Result AgentInputError Ceilings
ceilings_of_json v = do
  clean ← require_exact_keys v ceiling_keys
  self ← read_ceilings clean
  checked_ceilings self
