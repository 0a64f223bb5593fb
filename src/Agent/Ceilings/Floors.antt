-- ===== src/Agent/Ceilings/Floors.antt =====
-- The bounds that ceilings which load keep to.
use measure_twice.Prelude.{
  ℕ, ◌+◌, ◌*◌, ◌≤◌, ◌≡◌, subst, false, not, arith, ltb, nat_eq, text_eq, option_eq, ok, raise_if,
  bind-eq-ok, ok-injective, not_raised,
}
use measure_twice.Json.{Json}
use measure_twice.Agent.Wire.{
  not_positive, bandwidth_too_large, tmpfs_too_small, too_few_inodes, require_exact_keys,
}
use measure_twice.Agent.Ceilings.{
  has_positive_ceilings, Ceilings, checked_ceilings, read_ceilings, ceilings_of_json, ceiling_keys,
  evaluator_tmpfs_minimum_bytes,
}

-- A share of at most the whole processor, a page more than its bytes for every file, and an inode for
-- each file beside those of the directories.
abbrev pub AreBounded : Ceilings → Type 0
AreBounded c =
    (c.evaluator_cpu_bandwidth_percent ≤ 100)
    × (c.evaluator_file_bytes + c.evaluator_files * 4096 ≤ c.evaluator_tmpfs_bytes)
    × (c.evaluator_files + 10001 ≤ c.evaluator_tmpfs_inodes)

pub at_least : (a b : ℕ) → ltb a b ≡ false → b ≤ a
at_least a b h = grind (arith, h)

checked_ceilings-AreBounded : (self c : Ceilings) → checked_ceilings self ≡ ok c → AreBounded c
unfolding checked_ceilings evaluator_tmpfs_minimum_bytes
checked_ceilings-AreBounded self c h =
    let (x, _, h) = bind-eq-ok (raise_if (not (has_positive_ceilings self)) not_positive) _ h in
    let (y, a, h) =
      bind-eq-ok (raise_if (ltb 100 self.evaluator_cpu_bandwidth_percent) bandwidth_too_large) _
        h in
    let (z, b, h) =
      bind-eq-ok
        (raise_if
          (ltb self.evaluator_tmpfs_bytes (self.evaluator_file_bytes + self.evaluator_files * 4096))
          tmpfs_too_small)
        _ h in
    let (w, d, h) =
      bind-eq-ok
        (raise_if (ltb self.evaluator_tmpfs_inodes (self.evaluator_files + 10001)) too_few_inodes) _
        h in
    subst AreBounded (ok-injective h) (
      at_least 100 self.evaluator_cpu_bandwidth_percent
          (not_raised (ltb 100 self.evaluator_cpu_bandwidth_percent) bandwidth_too_large y a),
      at_least self.evaluator_tmpfs_bytes (self.evaluator_file_bytes + self.evaluator_files * 4096)
          (not_raised
            (ltb self.evaluator_tmpfs_bytes
              (self.evaluator_file_bytes + self.evaluator_files * 4096))
            tmpfs_too_small z b),
      at_least self.evaluator_tmpfs_inodes (self.evaluator_files + 10001) (
          not_raised (ltb self.evaluator_tmpfs_inodes (self.evaluator_files + 10001)) too_few_inodes
            w d),
    )

pub ceilings_of_json-AreBounded :
    (v : Json) (c : Ceilings) → ceilings_of_json v ≡ ok c → AreBounded c
unfolding ceilings_of_json
ceilings_of_json-AreBounded v c h =
    let (clean, _, h) = bind-eq-ok (require_exact_keys v ceiling_keys) _ h in
    let (self, _, h) = bind-eq-ok (read_ceilings clean) _ h in checked_ceilings-AreBounded self c h
