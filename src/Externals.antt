-- ===== src/Externals.antt =====
-- What the package takes from outside its own source, as arguments of the definitions that use it.
use measure_twice.Prelude.{Bool, Option}
use measure_twice.Text.{Text}

pub record Externals : Type 0 where
  -- `switchboard.config._SAFE_NAME_RE.fullmatch`
  pub safe_name : Text → Bool
  -- `switchboard.config._SAFE_NAME_RE.match`, which accepts more if the pattern ends in `$`: that
  -- also holds before a newline at the end
  pub safe_start : Text → Bool
  -- `datetime.fromisoformat`: `none` for a `ValueError`, else whether `tzinfo` is set
  pub fromisoformat : Text → Option Bool
  -- `hashlib.sha256(text.encode("utf-8")).hexdigest()`
  pub sha256 : Text → Text
