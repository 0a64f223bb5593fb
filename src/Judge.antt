-- ===== src/Judge.antt =====
-- measure_twice/scoring/judge.py: the rubric judge, a pass over all rows of a run.
pub mod Cell
pub mod Run
pub mod Rubric
