-- ===== src/Agent/Wire/Checks.antt =====
-- What the checks of single fields let through.
use measure_twice.Prelude.{
  ℕ, ◌≡◌, subst, ◌≢◌, true, false, not, ◌||◌, List, arith, nat_eq, text_eq, option_eq, ◌==◌,
  contains, eq_of_==, ok, raise_if, bind-eq-ok, ok-injective, not_raised_unless,
}
use measure_twice.Text.{Text, text}
use measure_twice.Json.{Json, int, str}
use measure_twice.Agent.Wire.{
  AgentInputError, unsafe_id, unsupported_version, validate_safe_id, is_safe_id, member_of,
  exact_int, validate_schema_version,
}

pub validate_safe_id-safe : (v : Json) (s : Text) → validate_safe_id v ≡ ok s → is_safe_id s ≡ true
unfolding validate_safe_id
validate_safe_id-safe (str t) s h =
    let (x, a, h) = bind-eq-ok (raise_if (not (is_safe_id t)) unsafe_id) _ h in
    let (y, b, h) = bind-eq-ok (raise_if (t == text "." || t == text "..") unsafe_id) _ h in
    subst (λ r. is_safe_id r ≡ true) (ok-injective h)
      (not_raised_unless (is_safe_id t) unsafe_id x a)
validate_safe_id-safe v s h = cc

pub member_of-known :
    (allowed : List Text) (e : AgentInputError) (v : Json) (s : Text)
    → member_of allowed e v ≡ ok s
    → contains allowed s ≡ true
unfolding member_of
member_of-known allowed e (str t) s h =
    let (x, a, h) = bind-eq-ok (raise_if (not (contains allowed t)) e) _ h in
    subst (λ r. contains allowed r ≡ true) (ok-injective h)
      (not_raised_unless (contains allowed t) e x a)
member_of-known allowed e v s h = cc

pub exact_int-equal :
    (expected : ℕ) (e : AgentInputError) (v : Json) (n : ℕ)
    → exact_int expected e v ≡ ok n
    → n ≡ expected
unfolding exact_int
exact_int-equal expected e (int k) n h =
    let (x, a, h) = bind-eq-ok (raise_if (not (k == expected)) e) _ h in
    subst (λ r. r ≡ expected) (ok-injective h)
      (eq_of_== k expected (not_raised_unless (k == expected) e x a))
exact_int-equal expected e v n h = cc

pub validate_schema_version-one : (v : Json) (n : ℕ) → validate_schema_version v ≡ ok n → n ≡ 1
unfolding validate_schema_version
validate_schema_version-one (int k) n h =
    let (x, a, h) = bind-eq-ok (raise_if (not (k == 1)) unsupported_version) _ h in
    subst (λ r. r ≡ 1) (ok-injective h)
      (eq_of_== k 1 (not_raised_unless (k == 1) unsupported_version x a))
validate_schema_version-one v n h = cc

pub not_same : (a b : Text) → (a == b) ≡ false → a ≢ b
not_same a b h e = ground (arith, h, e)
