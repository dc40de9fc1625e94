-- ===== src/Config/Sources/Laws.antt =====
-- A loaded configuration names at least one source, and gives each source a label.
use vless_sub_server.Base.{◌≡◌, false, arith, Bool-cases, inl, inr, length, ◌<◌, ℕ}
use vless_sub_server.Base.Int.{pos, ◌≤ℤ◌}
use vless_sub_server.Base.Text.{Text, is_empty, split}
use vless_sub_server.Base.Result.{◌>>=◌, Result}
use vless_sub_server.Config.{
  Library, Env, ConfigError, Ensures, fails, holds, then_any, then_demand,
}
use vless_sub_server.Config.Sources.{SourceSettings, required, load_source}

-- There is at least one source.
pub record AreSourceBounds (s : SourceSettings) : Type 0 where
  pub some_source : 0 < length s.subscription_urls
  pub some_hwid : is_empty s.hwid ≡ false
  pub metrics_port_bounds : (pos 0 ≤ℤ s.metrics_port) × (s.metrics_port ≤ℤ pos 65535)

then_required :
    {B : Type 0} {P : B → Type 0} (env : Env) (name problem : Text)
    (next : Text → Result ConfigError B)
    → ((v : Text) → is_empty v ≡ false → Ensures P (next v))
    → Ensures P (required env name problem >>= next)
unfolding required
then_required env name problem next h = elim (Bool-cases (is_empty (env name))) [
  | inl e ↦ rw e fails
  | inr e ↦ rw e (h (env name) e)
]

split_some : (sep : ℕ) (s : Text) → 0 < length (split sep s)
unfolding split
split_some sep s = omega arith

pub load_source-Ensures :
    (lib : Library) (env : Env) → Ensures AreSourceBounds (load_source lib env)
unfolding load_source
load_source-Ensures lib env = then_required env _ _ _ (λ urls urls_h.
    then_required env _ _ _ (λ hwid hwid_h. then_any _ _ (λ port.
      then_demand _ _ _ _ (λ metrics_port metrics_port_h. holds (record {
        some_source = split_some b',' urls;
        some_hwid = hwid_h;
        metrics_port_bounds = ground arith;
      })))))
