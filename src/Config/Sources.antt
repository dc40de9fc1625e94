-- ===== src/Config/Sources.antt =====
-- internal/config/config.go: the subscriptions' settings, the first part of `Load`, and what is
-- asked of them for each source by its position.
pub mod Laws
use vless_sub_server.Base.{
  ◌≡◌, refl, ℕ, zero, suc, Bool, true, false, ◌||◌, not, List, [], ◌∷◌, ◌++◌, Option, none, some,
  take, arith, if◌then◌else◌,
}
use vless_sub_server.Base.Int.{ℤ, pos, ◌≤ℤ◌, ltb_ℤ}
use vless_sub_server.Base.Text.{Text, text, is_empty, trim_space, split}
use vless_sub_server.Base.Result.{Result, err, ok, ◌>>=◌}
use vless_sub_server.Config.{
  Library, Env, ConfigError, message, int_env, demand, Ensures, fails, holds, then_any, then_demand,
}
use vless_sub_server.Parse.Query.{itoa}
use vless_sub_server.Quality.Identity as Identity

pub record SourceSettings : Type 0 where
  pub subscription_urls : List Text
  pub hwid : Text
  pub name_include : Text
  pub name_exclude : Text
  pub port : ℤ
  pub metrics_port : ℤ
  pub source_aliases : List Text
  pub source_fetch_proxies : List Text

-- A variable that must be set.
unfoldable pub required : Env → Text → Text → Result ConfigError Text
required env name problem = if is_empty (env name) then err (message problem) else ok (env name)

-- `if raw := os.Getenv(name); raw != "" { … = strings.Split(raw, ",") }`
unfoldable pub list_env : Env → Text → List Text
list_env env name = if not (is_empty (env name)) then split b',' (env name) else []

unfoldable pub load_source : Library → Env → Result ConfigError SourceSettings
unfolding list_env
load_source lib env =
    required env (text "SUBSCRIPTION_URLS") (text "SUBSCRIPTION_URLS is required") >>= λ urls.
    required env (text "HWID") (text "HWID is required") >>= λ hwid.
    int_env lib env (text "PORT") (pos 8080) >>= λ port.
    demand (λ v. ltb_ℤ v (pos 0) || ltb_ℤ (pos 65535) v)
      (text "METRICS_PORT must be a valid port or 0 to disable")
      (int_env lib env (text "METRICS_PORT") (pos 9090))
    >>= λ metrics_port. ok (record {
      subscription_urls = split b',' urls;
      hwid = hwid;
      name_include = env (text "NAME_INCLUDE");
      name_exclude = env (text "NAME_EXCLUDE");
      port = port;
      metrics_port = metrics_port;
      source_aliases = list_env env (text "SOURCE_ALIASES");
      source_fetch_proxies = list_env env (text "SOURCE_FETCH_PROXIES");
    })

-- `s[index]`, with the test `index < len(s)`.
abbrev pub get_elem? : List Text → ℕ → Option Text
get_elem? [] n = none
get_elem? (x ∷ xs) zero = some x
get_elem? (x ∷ xs) (suc n) = get_elem? xs n

unfoldable pub trimmed_at : List Text → ℕ → Text
trimmed_at xs index = elim (get_elem? xs index) [ none ↦ [] | some x ↦ trim_space x ]

-- `hex.EncodeToString(sha256.Sum256(…))[:8]`, by the digest of the crypto library.
unfoldable pub hashed_alias : Identity.Library → Option Text → ℕ → Text
hashed_alias crypto none index = text "source-" ++ itoa (pos index)
hashed_alias crypto (some url) index = take 8 (crypto.sha256_hex url)

unfoldable pub source_alias : Identity.Library → SourceSettings → ℕ → Text
unfolding trimmed_at hashed_alias
source_alias crypto c index =
    if not (is_empty (trimmed_at c.source_aliases index))
    then trimmed_at c.source_aliases index
    else hashed_alias crypto (get_elem? c.subscription_urls index) index

unfoldable pub fetch_proxy_url : SourceSettings → ℕ → Text
unfolding trimmed_at
fetch_proxy_url c index = trimmed_at c.source_fetch_proxies index
