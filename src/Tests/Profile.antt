-- ===== src/Tests/Profile.antt =====
-- Tests of measure_twice/agent_bench/models.py: an execution profile.
use measure_twice.Prelude.{◌≡◌, refl, nat_eq, text_eq, option_eq, ok}
use measure_twice.Text.{text}
use measure_twice.Json.{Json, int, str, arr, obj, nil, cons, field, end, lookup, keys}
use measure_twice.Ledger.Source.{without, is_empty}
use measure_twice.Agent.Wire.{
  require_exact_keys, index, validate_safe_id, is_safe_id, is_safe_first, is_safe_sign, member_of,
  exact_int, require_positive_int,
}
use measure_twice.Agent.Profile.{
  Limits, RunPolicy, limits_of_json, positive_field, has_positive_counts, checked_policy,
  read_policy, policy_of_json, retry_classes, are_texts, eligible_of, checked_retry, retry_of_json,
}
use measure_twice.Agent.Ceilings.{
  Ceilings, ceilings_of_json, checked_ceilings, read_ceilings, has_positive_ceilings,
  evaluator_tmpfs_minimum_bytes,
}
use measure_twice.Agent.Execution.{
  policies_of_json, ExecutionProfile, validate_profile_version, has_attempts, check_attempts,
  checked_profile, raw_profile, parts_of, profile_of_json,
}
use measure_twice.Agent.Execution.Bounds.{IsProfile, profile_of_json-IsProfile}

abbrev limits : Limits
limits = record { agent_timeout_s = 600; evaluator_timeout_s = 60 }

abbrev limits_json : Json
limits_json =
    obj (field (text "agent_timeout_s") (int 600) (field (text "evaluator_timeout_s") (int 60) end))

abbrev smoke : RunPolicy
smoke = record {
  limits = limits;
  task_count = 1;
  model_count = 2;
  samples = 1;
  max_cells_per_tranche = 2;
  terminal_cells = 2;
  provider_attempts = 4;
  wall_s = 600;
}

abbrev smoke_json : Json
smoke_json = obj (
    field (text "limits") limits_json (
      field (text "task_count") (int 1) (
        field (text "model_count") (int 2) (
          field (text "samples") (int 1) (
            field (text "max_cells_per_tranche") (int 2) (
              field (text "terminal_cells") (int 2) (
                field (text "provider_attempts") (int 4)
                  (field (text "wall_s") (int 600) end))))))))

abbrev pilot : RunPolicy
pilot = record {
  limits = limits;
  task_count = 3;
  model_count = 2;
  samples = 2;
  max_cells_per_tranche = 4;
  terminal_cells = 12;
  provider_attempts = 24;
  wall_s = 600;
}

abbrev pilot_json : Json
pilot_json = obj (
    field (text "limits") limits_json (
      field (text "task_count") (int 3) (
        field (text "model_count") (int 2) (
          field (text "samples") (int 2) (
            field (text "max_cells_per_tranche") (int 4) (
              field (text "terminal_cells") (int 12) (
                field (text "provider_attempts") (int 24)
                  (field (text "wall_s") (int 600) end))))))))

abbrev policies_json : Json
policies_json = obj (
    field (text "smoke") smoke_json
      (field (text "pilot") pilot_json (field (text "observation") pilot_json end)))

abbrev ceilings : Ceilings
ceilings = record {
  changed_paths = 100;
  patch_bytes = 1000;
  stream_bytes_each = 1000;
  cell_artifact_bytes = 1000;
  evaluator_cpu_s = 60;
  evaluator_memory_bytes = 1000000;
  evaluator_processes = 8;
  evaluator_files = 10;
  evaluator_file_bytes = 1000;
  evaluator_cpu_bandwidth_percent = 100;
  evaluator_tmpfs_bytes = 41960;
  evaluator_tmpfs_inodes = 10011;
}

abbrev ceilings_json : Json
ceilings_json = obj (
    field (text "changed_paths") (int 100) (
      field (text "patch_bytes") (int 1000) (
        field (text "stream_bytes_each") (int 1000) (
          field (text "cell_artifact_bytes") (int 1000) (
            field (text "evaluator_cpu_s") (int 60) (
              field (text "evaluator_memory_bytes") (int 1000000) (
                field (text "evaluator_processes") (int 8) (
                  field (text "evaluator_files") (int 10) (
                    field (text "evaluator_file_bytes") (int 1000) (
                      field (text "evaluator_cpu_bandwidth_percent") (int 100) (
                        field (text "evaluator_tmpfs_bytes") (int 41960)
                          (field (text "evaluator_tmpfs_inodes") (int 10011) end))))))))))))

abbrev retry_json : Json
retry_json = obj (
    field (text "eligible")
      (arr (
        cons (str (text "rate-limit"))
          (cons (str (text "provider-5xx")) (cons (str (text "preterminal-transport")) nil))))
      (field (text "max_fresh_retries") (int 1)
        (field (text "retry_after_cap_s") (int 60) (field (text "default_delay_s") (int 5) end))))

abbrev profile_json : Json
profile_json = obj (
    field (text "schema_version") (int 2) (
      field (text "id") (str (text "p")) (
        field (text "qualification_limits") limits_json (
          field (text "run_policy") policies_json (
            field (text "repetitions") (int 2) (
              field (text "concurrency") (int 1) (
                field (text "ceilings") ceilings_json (
                  field (text "retry") retry_json (
                    field (text "sandbox_contract_version") (str (text "linux-bwrap-v2")) (
                      field (text "schedule_algorithm") (str (text "schedule-v1")) (
                        field (text "analysis_algorithm") (str (text "bootstrap-v1")) end)))))))))))

abbrev profile : ExecutionProfile
profile = record {
  schema_version = 2;
  id = text "p";
  qualification_limits = limits;
  run_policy = record { smoke = smoke; pilot = pilot; observation = pilot };
  repetitions = 2;
  concurrency = 1;
  ceilings = ceilings;
  retry = record {
    eligible = retry_classes;
    max_fresh_retries = 1;
    retry_after_cap_s = 60;
    default_delay_s = 5;
  };
  sandbox_contract_version = text "linux-bwrap-v2";
  schedule_algorithm = text "schedule-v1";
  analysis_algorithm = text "bootstrap-v1";
}

smoke_read : policy_of_json smoke_json ≡ ok smoke
unfolding policy_of_json read_policy checked_policy has_positive_counts positive_field
    limits_of_json require_exact_keys index require_positive_int nat_eq text_eq lookup keys without
    is_empty
smoke_read = refl

pilot_read : policy_of_json pilot_json ≡ ok pilot
unfolding policy_of_json read_policy checked_policy has_positive_counts positive_field
    limits_of_json require_exact_keys index require_positive_int nat_eq text_eq lookup keys without
    is_empty
pilot_read = refl

policies_read :
    policies_of_json policies_json
    ≡ ok (record { smoke = smoke; pilot = pilot; observation = pilot })
unfolding policies_of_json require_exact_keys index nat_eq text_eq lookup keys without is_empty
policies_read = rw (smoke_read, pilot_read) refl

ceilings_read : ceilings_of_json ceilings_json ≡ ok ceilings
unfolding ceilings_of_json read_ceilings checked_ceilings has_positive_ceilings
    evaluator_tmpfs_minimum_bytes positive_field require_exact_keys index require_positive_int
    nat_eq text_eq lookup keys without is_empty
ceilings_read = refl

profile_read : profile_of_json profile_json ≡ ok profile
unfolding profile_of_json parts_of raw_profile checked_profile validate_profile_version
    check_attempts has_attempts limits_of_json positive_field require_positive_int retry_of_json
    checked_retry eligible_of are_texts require_exact_keys index validate_safe_id is_safe_id
    is_safe_first is_safe_sign member_of exact_int nat_eq text_eq lookup keys without is_empty
profile_read = rw (policies_read, ceilings_read) refl

profile_of_json-IsProfile_example : IsProfile profile
profile_of_json-IsProfile_example = profile_of_json-IsProfile profile_json profile profile_read
