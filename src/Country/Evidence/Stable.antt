-- ===== src/Country/Evidence/Stable.antt =====
-- internal/country/country.go, `Observe`: a country is kept until two observations agree on another.
use vless_sub_server.Base.{
  ◌≡◌, refl, ◌≢◌, inl, inr, ◌∙◌, ap, Bool-cases, true, false, List, [], ◌∷◌, Option, none, some,
  arith, if◌then◌else◌,
}
use mathlib.Core.Bool.{false≢true}
use vless_sub_server.Base.Text.{Text, is_empty, to_upper, text_eq}
use vless_sub_server.Base.Text.Laws.{text_eq_iff, text_eq_refl}
use vless_sub_server.Base.Clock.{Time}
use vless_sub_server.Country.Codes.{is_code}
use vless_sub_server.Country.Evidence.{
  Observation, FamilyResult, Status, unset, unknown, confirmed, conflict, observe, valid, weigh,
}

-- What holds of every family's evidence, from `no_evidence` on.
pub record IsWell (f : FamilyResult) : Type 0 where
  pub known : f.status ≢ unknown
  pub fresh : f.status ≡ unset → (f.available ≡ false) × (f.country ≡ [])
  pub seen : f.status ≢ unset → (f.available ≡ true) × (is_empty f.country ≡ false)
  pub agreed :
      f.status ≡ confirmed
      → (f.observed_country ≡ f.country) × (f.candidate_country ≡ []) × (f.candidate_count ≡ 0)
  pub disputed :
      f.status ≡ conflict
      → (f.observed_country ≡ f.candidate_country)
        × (is_empty f.candidate_country ≡ false)
        × (text_eq f.candidate_country f.country ≡ false)
        × (f.candidate_count ≡ 1)

is_empty-to_upper : (s : Text) → is_code s ≡ true → is_empty (to_upper s) ≡ false
unfolding to_upper is_code
is_empty-to_upper [] h = absurd (false≢true h)
is_empty-to_upper (c ∷ s) h = refl

-- The evidence as `Observe` first marks it.
abbrev sighted : FamilyResult → Observation → Time → FamilyResult
sighted f o now = record f {
  available = true;
  ip = o.ip;
  observed_country = to_upper o.country;
  observed_at = now;
}

weigh-IsWell :
    (f : FamilyResult) (o : Observation) (now : Time)
    → IsWell f
    → is_empty (to_upper o.country) ≡ false
    → IsWell (weigh (sighted f o now) (to_upper o.country) now)
unfolding weigh
weigh-IsWell f o now w e = ground (
  arith,
  text_eq_iff (to_upper o.country) f.country,
  text_eq_iff f.candidate_country (to_upper o.country),
)

pub observe-IsWell :
    (f : FamilyResult) (o : Observation) (now : Time) → IsWell f → IsWell (observe f o now)
unfolding observe
observe-IsWell f o now w = ground (arith, weigh-IsWell f o now w, is_empty-to_upper o.country)

-- The abstract view: no country yet, or the confirmed country and perhaps its challenger.
abbrev pub Memory : Type 0
Memory = Option (Text × Option Text)

view_at : Status → FamilyResult → Memory
view_at unset f = none
view_at unknown f = none
view_at confirmed f = some (f.country, none)
view_at conflict f = some (f.country, some f.candidate_country)

pub view : FamilyResult → Memory
unfolding view_at
view f = view_at f.status f

-- A country that was heard twice in a row replaces the old one.
challenged : Text → Option Text → Text → Memory
challenged k none c = some (k, some c)
challenged k (some q) c = if text_eq q c then some (c, none) else some (k, some c)

pub hear : Memory → Text → Memory
unfolding challenged
hear none c = some (c, none)
hear (some (k, q)) c = if text_eq c k then some (k, none) else challenged k q c

view-weigh :
    (f : FamilyResult) (o : Observation) (now : Time)
    → IsWell f
    → view (weigh (sighted f o now) (to_upper o.country) now) ≡ hear (view f) (to_upper o.country)
unfolding view hear weigh
view-weigh f o now w = ground (
  arith,
  text_eq_iff (to_upper o.country) f.country,
  text_eq_iff f.candidate_country (to_upper o.country),
)

view-observe :
    (f : FamilyResult) (o : Observation) (now : Time)
    → IsWell f
    → view (observe f o now) ≡ (if valid o then hear (view f) (to_upper o.country) else view f)
unfolding observe
view-observe f o now w = elim (Bool-cases (valid o)) [
  | inl good ↦ rw good (view-weigh f o now w)
  | inr bad ↦ rw bad
]

-- The evidence after a list of observations, and the countries of the valid ones.
abbrev pub observe_all : FamilyResult → List (Observation × Time) → FamilyResult
observe_all f [] = f
observe_all f ((o, now) ∷ seen) = observe_all (observe f o now) seen

abbrev pub hear_all : Memory → List (Observation × Time) → Memory
hear_all m [] = m
hear_all m ((o, now) ∷ seen) = hear_all (if valid o then hear m (to_upper o.country) else m) seen

-- From coherent evidence on, `Observe` refines the abstract memory over any history of observations.
pub view-observe_all :
    (f : FamilyResult) (seen : List (Observation × Time))
    → IsWell f
    → view (observe_all f seen) ≡ hear_all (view f) seen
view-observe_all f [] w = refl
view-observe_all f ((o, now) ∷ seen) w =
    view-observe_all (observe f o now) seen (observe-IsWell f o now w)
    ∙ ap (λ m. hear_all m seen) (view-observe f o now w)

hear_twice : (m : Memory) (c : Text) → hear (hear m c) c ≡ some (c, none)
unfolding hear
hear_twice none c = rw (text_eq_refl c)
hear_twice (some (k, none)) c = ground (arith, text_eq_iff c k, text_eq_refl c)
hear_twice (some (k, some q)) c = ground (arith, text_eq_iff c k, text_eq_iff q c, text_eq_refl c)

confirmed_of_view :
    (f : FamilyResult) (c : Text)
    → view f ≡ some (c, none)
    → (f.country ≡ c) × (f.status ≡ confirmed)
unfolding view
confirmed_of_view f c h = ground arith

-- Two valid observations of one country in a row confirm it, whatever coherent evidence was known
-- before.
pub observe_twice :
    (f : FamilyResult) (o o' : Observation) (t t' : Time)
    → IsWell f
    → valid o ≡ true
    → valid o' ≡ true
    → to_upper o'.country ≡ to_upper o.country
    → ((observe (observe f o t) o' t').country ≡ to_upper o.country)
      × ((observe (observe f o t) o' t').status ≡ confirmed)
observe_twice f o o' t t' w v v' e =
    confirmed_of_view (observe (observe f o t) o' t') (to_upper o.country) (
      view-observe_all f ((o, t) ∷ (o', t') ∷ []) w
      ∙ rw (v, v', e) (hear_twice (view f) (to_upper o.country)))

-- In coherent evidence of an available family, an observation changes the country only to one that
-- was already its challenger, while the two were in conflict.
observe_change :
    (f : FamilyResult) (o : Observation) (now : Time)
    → IsWell f
    → f.available ≡ true
    → (observe f o now).country ≢ f.country
    → (f.status ≡ conflict)
      × (f.candidate_country ≡ to_upper o.country)
      × ((observe f o now).country ≡ to_upper o.country)
unfolding observe weigh
observe_change f o now w a h = ground (
  arith,
  text_eq_iff (to_upper o.country) f.country,
  text_eq_iff f.candidate_country (to_upper o.country),
)
