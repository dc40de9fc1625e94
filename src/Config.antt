-- ===== src/Config.antt =====
-- internal/config/config.go: the settings, read from the environment. Package `strconv` and
-- `time.ParseDuration` are parameters.
pub mod Services
pub mod Checks
pub mod Probes
pub mod Sources
pub mod Load
use vless_sub_server.Base.{
  ◌≡◌, ◌*◌, ℕ, Bool, true, false, not, Option, none, some, if◌then◌else◌, Bool-cases, inl, inr,
}
use vless_sub_server.Base.Int.{ℤ}
use vless_sub_server.Base.Text.{Text, is_empty}
use vless_sub_server.Base.Clock.{Duration}
use vless_sub_server.Base.Result.{Result, err, ok, ◌>>=◌}

abbrev pub second : ℕ
second = 1_000_000_000

abbrev pub millisecond : ℕ
millisecond = 1_000_000

abbrev pub hour : ℕ
hour = 3_600_000_000_000

-- `strconv.Atoi`, `strconv.ParseInt(value, 10, 64)`, `strconv.ParseBool` and `time.ParseDuration`;
-- `none` is an error.
pub record Library : Type 0 where
  pub atoi : Text → Option ℤ
  pub parse_int64 : Text → Option ℤ
  pub parse_bool : Text → Option Bool
  pub parse_duration : Text → Option Duration

-- `os.Getenv`
abbrev pub Env : Type 0
Env = Text → Text

-- An error of the program's own, or one that wraps the parser's under the name of the variable.
pub data ConfigError : Type 0 where
  message : Text → ConfigError
  unreadable : Text → ConfigError

-- `if value == "" { return fallback, nil }`, and the value that was parsed.
unfoldable pub parsed_env : {A : Type 0} → Text → A → Bool → Option A → Result ConfigError A
parsed_env name fallback unset none = if unset then ok fallback else err (unreadable name)
parsed_env name fallback unset (some v) = if unset then ok fallback else ok v

unfoldable pub int64_env : Library → Env → Text → ℤ → Result ConfigError ℤ
unfolding parsed_env
int64_env lib env name fallback =
    parsed_env name fallback (is_empty (env name)) (lib.parse_int64 (env name))

unfoldable pub int_env : Library → Env → Text → ℤ → Result ConfigError ℤ
unfolding parsed_env
int_env lib env name fallback = parsed_env name fallback (is_empty (env name)) (lib.atoi (env name))

unfoldable pub duration_env : Library → Env → Text → Duration → Result ConfigError Duration
unfolding parsed_env
duration_env lib env name fallback =
    parsed_env name fallback (is_empty (env name)) (lib.parse_duration (env name))

-- `if raw := os.Getenv(name); raw != "" { … strconv.ParseBool(raw) … }`
unfoldable pub bool_env : Library → Env → Text → Bool → Result ConfigError Bool
unfolding parsed_env
bool_env lib env name fallback =
    parsed_env name fallback (is_empty (env name)) (lib.parse_bool (env name))

-- `err != nil || bad(value)`: one message for an unreadable value and one that is out of bounds.
unfoldable pub demand : (ℤ → Bool) → Text → Result ConfigError ℤ → Result ConfigError ℤ
demand bad problem (err e) = err (message problem)
demand bad problem (ok v) = if bad v then err (message problem) else ok v

-- What holds of the value, if there is one.
pub data Ensures {A : Type 0} (P : A → Type 0) : Result ConfigError A → Type 0 where
  fails : {e : ConfigError} → Ensures P (err e)
  holds : {a : A} → P a → Ensures P (ok a)

module _ {A B : Type 0} {P : B → Type 0} where
  pub then_any :
      (m : Result ConfigError A) (next : A → Result ConfigError B)
      → ((v : A) → Ensures P (next v))
      → Ensures P (m >>= next)
  then_any (err e) next h = fails
  then_any (ok v) next h = h v

module _ {A B : Type 0} {P : B → Type 0} {Q : A → Type 0} where
  pub then_ensured :
      {m : Result ConfigError A} (next : A → Result ConfigError B)
      → Ensures Q m
      → ((v : A) → Q v → Ensures P (next v))
      → Ensures P (m >>= next)
  then_ensured next fails h = fails
  then_ensured next (holds {a} q) h = h a q

module _ {B : Type 0} {P : B → Type 0} where
  pub then_demand :
      (bad : ℤ → Bool) (problem : Text) (m : Result ConfigError ℤ) (next : ℤ → Result ConfigError B)
      → ((v : ℤ) → bad v ≡ false → Ensures P (next v))
      → Ensures P (demand bad problem m >>= next)
  unfolding demand
  then_demand bad problem (err e) next h = fails
  then_demand bad problem (ok v) next h = elim (Bool-cases (bad v)) [
    | inl e ↦ rw e fails
    | inr e ↦ rw e (h v e)
  ]
