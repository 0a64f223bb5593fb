-- ===== src/Lib.antt =====
-- Verification of measure-twice, a harness that measures language models with benchmark suites and
-- keeps a ledger of the claims its measurements support.
--
-- The program and the files here:
--
--   measure_twice/ledger.py              Ledger
--     A claim is the record `Claim`, a JSONL ledger a `List Claim`. `Ledger/Source` has the errors,
--     the validators of one source (`_parse_line_range`, `_validate_source_file`) and
--     `ClaimSource.from_mapping`; `Ledger/Claim` has `Claim.from_mapping` and `to_mapping`;
--     `Ledger/Store` has `load_ledger` and `write_ledger` on a `Disk` that holds the ledger and its
--     temporary file, the write as its three calls, any of which may meet a fault; `Ledger/Audit`
--     has `audit_ledger` over a `Workspace`; `Ledger/Render` has `render_claim_list` and
--     `render_ledger`, whose `sorted` is an insertion sort and whose `len` is counted in decimal
--     digits.
--   measure_twice/scoring/deterministic.py   Scoring/Verdict, Scoring/Deterministic
--     `Verdict` has the brace scan and the three tiers of `extract_verdict_label`, `Deterministic`
--     the scorers and `make_deterministic_scorer`. A `ScoringError` or `re.error` is an `err`.
--   measure_twice/runner.py              Runner
--     `Runner/Row` has `RunRow` and `_build_row`; its fields are JSON values, as `from_dict` casts
--     and checks nothing. `Runner/Store` has the file rows.jsonl as its text, with `_read_rows`,
--     `_rewrite_rows` and `_append_row`. `Runner/Sweep` has `_sweep_local` and `_sweep_gemini`,
--     which differ only in the model call they are given, over a state of the call budget
--     (measure_twice/adapters/claude_cli.py), the rows file and the outside world. `Sweep/Pool` has
--     the threads of `claude_call_batch` as a step relation, `Runner/Waves` has `_chunks`, on fuel
--     that is the number of cells, and `_sweep_claude` over any batch that the pool can come to;
--     `Sweep/Delivery` is what the run relies on of a sweep. `Runner/Pending` has `_pending_cells`,
--     `Runner/Run` the loop of `run` over its bindings and the tests of a resume. `Runner/Rescore`
--     has `score_run` and `score_run_batch` from the opened run on. `Runner/Directory` has the
--     check of a run id and `_resolve_run_dir`, over `Path.resolve` and the digits of Unicode.
--   measure_twice/scoring/judge.py       Judge
--     `Judge/Cell` has the prompt and `_judge_one_cell`, over a session of the outside world and
--     the provider identity of each judge; `Judge/Run` has `judge_run`, whose two dictionaries are
--     a list with an entry for each judge, and `_check_parse_fail_gate`, whose quotient is compared
--     as the integers it is made of (the same but for more than 2^53 attempts); `Judge/Rubric` has
--     the scorer of `make_rubric_run_scorer`. `JudgeMath` is what they take from Python's floats
--     and `statistics`, and the reading of a SCORE line.
--   measure_twice/suite.py               Suite
--     The fields of `Item` and `ScoringSpec`; `Suite/Spec` has `ScoringSpec.from_mapping` and
--     `Suite/Entry` has `Item.from_mapping`, `Suite/Whole` has `Suite.from_mapping`, each with the
--     checks of its constructor.
--   measure_twice/model_sweep_execution.py   Profiles
--     `Binding` has the field checks and `ModelBinding`, whose provider is a data type, `Context`
--     the two request contexts, `Whole` the profile and the bindings it gives for a roster.
--   measure_twice/agent_bench            Agent
--     The strict inputs of the coding-agent benchmark. `Agent/Wire` has the decoding and the field
--     checks of `_wire.py`, `Agent/Canonical` its canonical JSON; `Agent/Scope`, `Agent/Decision`
--     and `Agent/Analysis` have `analysis.py`, where `Decision` is what the policy of a plan
--     decides; `Agent/Models` has the registry and the selection of models.py, `Agent/Profile` its
--     limits, run policies and retries, `Agent/Ceilings` the ceilings and `Agent/Execution` the
--     execution profile. Each has the two mappings where the source has them, and the checks of the
--     constructor as a function of their own.
--
-- The audit reads the claims of a ledger, looks at their sources and writes the ledger back through
-- the validated write. A scorer is a function of an item and a stored response, so the run store
-- can apply it again without a model call.
--
-- `Prelude`, `Text` and `Json` hold what the parts share: results, lists, text as a list of code
-- points, and JSON values in insertion order. Code from outside the repository is a parameter:
-- `Json.Codec` for the json module (`none` where `loads` raises; that holds also of a text nested
-- past the recursion limit, which in the source only the scorer catches), `Externals` for the name
-- pattern of switchboard, `datetime.fromisoformat` and SHA-256, `Unicode` for `str.casefold` and
-- the case folding of `re`, `Regex` for a compiled exact pattern, `Workspace` for the file system
-- an audit sees, with the paths that `Path.resolve` takes at all. A float is its 64 bits and no
-- arithmetic is done on it.
--
-- Every loop of the source that is modelled runs over a list, a text or a number of samples, and
-- its function is a structural recursion; only `chunks_within` has fuel, and `chunks` gives it
-- enough.
--
-- Not modelled: the mean of `suite_score`, opening a run and what `run` checks and writes before
-- its sweeps, the SCORE pattern and the default caller of the judge, the adapters (HTTP and
-- subprocesses), configuration, execution receipts, the reports, the authoring tool, the reading of
-- a suite file, the command lines, and of measure_twice/agent_bench the suites, and process.py,
-- isolation.py and their helpers, which control processes and namespaces.
pub mod Prelude
pub mod Text
pub mod Unicode
pub mod Json
pub mod Externals
pub mod Suite
pub mod Ledger
pub mod Scoring
pub mod Runner
pub mod Profiles
pub mod Judge
pub mod Agent
mod Tests
