-- ===== src/Subview/Request/Laws.antt =====
-- internal/subview/view.go: which options a request can have.
use vless_sub_server.Base.{
  ◌≡◌, ◌≢◌, refl, sym, subst, ap, ◌∙◌, Bool, true, false, List, [], ◌∷◌, arith, if◌then◌else◌,
  Bool-cases, inl, inr,
}
use vless_sub_server.Base.Text.{Text, text, is_empty, text_eq}
use vless_sub_server.Base.Dict.{insert, lookup-insert, Text-eq}
use vless_sub_server.Base.Result.{Result, ok, >>=-eq-ok}
use vless_sub_server.Country.Codes.{Codes, parse_codes}
use vless_sub_server.Pipeline.Cached.{RoutingProfile, unset, russia, without_rules}
use vless_sub_server.Subview.Request.{
  Format, url, json, singbox, clash, Client, Options, Values, all_values, get, first, parse_format,
  is_url, is_flattened, parse_warp, check_warp, check_profile, parse_profile, parse_exclude,
  parse_for_client,
}

-- Options that can be served to a client: a list of URLs has neither WARP nor routing rules, and a
-- client that flattens the outbounds of a complete config gets no WARP in one.
pub record IsServed (client : Client) (o : Options) : Type 0 where
  pub plain : is_url o.format ≡ true → (o.warp ≡ false) × (o.profile ≡ russia)
  pub flattened : is_flattened o.format client ≡ true → o.warp ≡ false
  pub profiled : o.profile ≢ unset

-- What a successful parse has found in each step.
record Steps (values : Values) (client : Client) (o : Options) : Type 0 where
  format : parse_format (get (text "format") values) ≡ ok o.format
  warp : parse_warp o.format client (get (text "warp") values) ≡ ok o.warp
  allowed : check_warp o.format o.warp ≡ ok o.warp
  profile : parse_profile o.format (get (text "profile") values) ≡ ok o.profile
  exclude : parse_exclude (all_values (text "exclude") values) ≡ ok o.exclude

check_warp_same : (f : Format) (w w' : Bool) → check_warp f w ≡ ok w' → w ≡ w'
unfolding check_warp
check_warp_same f w w' h = ground arith

ok_inj : {E A : Type 0} {a b : A} → ◌≡◌ {A = Result E A} (ok a) (ok b) → a ≡ b
ok_inj h = cc

parse_exclude_of :
    (values : List Text) (set : Codes) → parse_exclude values ≡ ok set → parse_codes values ≡ ok set
unfolding parse_exclude
parse_exclude_of values set h = ground arith

parse_for_client-Steps :
    (values : Values) (client : Client) (o : Options)
    → parse_for_client values client ≡ ok o
    → Steps values client o
unfolding parse_for_client
parse_for_client-Steps values client o h =
    let (f, hf, h1) = >>=-eq-ok (parse_format (get (text "format") values)) _ h in
    let (w, hw, h2) = >>=-eq-ok (parse_warp f client (get (text "warp") values)) _ h1 in
    let (w', hc, h3) = >>=-eq-ok (check_warp f w) _ h2 in
    let (p, hp, h4) = >>=-eq-ok (parse_profile f (get (text "profile") values)) _ h3 in
    let (set, he, h5) = >>=-eq-ok (parse_exclude (all_values (text "exclude") values)) _ h4 in
    let same = check_warp_same f w w' hc in
    let o' : Options = record { format = f; warp = w'; profile = p; exclude = set } in
    let steps : Steps values client o' = record {
      format = hf;
      warp = hw ∙ ap ok same;
      allowed = ap (check_warp f) (sym same) ∙ hc;
      profile = hp;
      exclude = he;
    } in
    subst (Steps values client) (ok_inj h5) steps

check_warp-plain : (f : Format) (w : Bool) → check_warp f w ≡ ok w → is_url f ≡ true → w ≡ false
unfolding check_warp
check_warp-plain f w h e = ground arith

parse_warp-flattened :
    (f : Format) (client : Client) (value : Text) (w : Bool)
    → parse_warp f client value ≡ ok w
    → is_flattened f client ≡ true
    → w ≡ false
unfolding parse_warp
parse_warp-flattened f client value w h e = ground arith

parse_profile-plain :
    (f : Format) (value : Text) (p : RoutingProfile)
    → parse_profile f value ≡ ok p
    → is_url f ≡ true
    → (p ≡ russia) × (is_empty value ≡ true)
unfolding parse_profile check_profile
parse_profile-plain f value p h e = ground arith

parse_profile-set :
    (f : Format) (value : Text) (p : RoutingProfile) → parse_profile f value ≡ ok p → p ≢ unset
unfolding parse_profile check_profile
parse_profile-set f value p h e = ground arith

-- A request that is accepted gives options that can be served to the client, with the country codes
-- of its `exclude` values.
pub parse_for_client-IsServed :
    (values : Values) (client : Client) (o : Options)
    → parse_for_client values client ≡ ok o
    → IsServed client o × (parse_codes (all_values (text "exclude") values) ≡ ok o.exclude)
parse_for_client-IsServed values client o h =
    let s = parse_for_client-Steps values client o h in
    (
      record {
        plain = λ e. (
          check_warp-plain o.format o.warp s.allowed e,
          (parse_profile-plain o.format (get (text "profile") values) o.profile s.profile e).0,
        );
        flattened = parse_warp-flattened o.format client (get (text "warp") values) o.warp s.warp;
        profiled = parse_profile-set o.format (get (text "profile") values) o.profile s.profile;
      },
      parse_exclude_of (all_values (text "exclude") values) o.exclude s.exclude,
    )

abbrev pub format_text : Format → Text
format_text url = text "url"
format_text json = text "json"
format_text singbox = text "singbox"
format_text clash = text "clash"

abbrev pub warp_text : Bool → Text
warp_text true = text "on"
warp_text false = text "off"

abbrev pub profile_text : RoutingProfile → Text
profile_text without_rules = text "none"
profile_text p = text "ru"

-- The request that names what another one leaves to the defaults. A profile cannot be named for a
-- list of URLs.
abbrev pub explicit : Options → Values → Values
explicit o values =
    let named =
      insert (text "format") (format_text o.format ∷ [])
        (insert (text "warp") (warp_text o.warp ∷ []) values) in
    if is_url o.format then named else insert (text "profile") (profile_text o.profile ∷ []) named

parse_of_Steps :
    (values : Values) (client : Client) (o : Options)
    → Steps values client o
    → parse_for_client values client ≡ ok o
unfolding parse_for_client
parse_of_Steps values client o s = rw (s.format, s.warp, s.allowed, s.profile, s.exclude) refl

parse_format_text : (f : Format) → parse_format (format_text f) ≡ ok f
unfolding parse_format text_eq
parse_format_text url = refl
parse_format_text json = refl
parse_format_text singbox = refl
parse_format_text clash = refl

parse_warp_text :
    (f : Format) (client : Client) (w : Bool)
    → (is_flattened f client ≡ true → w ≡ false)
    → parse_warp f client (warp_text w) ≡ ok w
unfolding parse_warp text_eq
parse_warp_text f client true h = ground (arith, h)
parse_warp_text f client false h = refl

parse_profile_text :
    (f : Format) (p : RoutingProfile)
    → is_url f ≡ false
    → p ≢ unset
    → parse_profile f (profile_text p) ≡ ok p
unfolding parse_profile check_profile text_eq
parse_profile_text f unset e h = absurd (h refl)
parse_profile_text f russia e h = ground arith
parse_profile_text f without_rules e h = ground arith

all_values-insert :
    (k j : Text) (v : List Text) (m : Values)
    → all_values j (insert k v m) ≡ (if text_eq k j then v else all_values j m)
all_values-insert k j v m = rw (all_values, lookup-insert k j v m) (ground arith)

-- The values of the other keys are kept.
explicit-lookup :
    (o : Options) (values : Values)
    → (get (text "format") (explicit o values) ≡ format_text o.format)
      × (get (text "warp") (explicit o values) ≡ warp_text o.warp)
      × (get (text "profile") (explicit o values)
          ≡ (if is_url o.format then get (text "profile") values else profile_text o.profile))
      × (all_values (text "exclude") (explicit o values) ≡ all_values (text "exclude") values)
unfolding text_eq
explicit-lookup o values =
    let a : List Text = format_text o.format ∷ [] in
    let b : List Text = warp_text o.warp ∷ [] in
    let c : List Text = profile_text o.profile ∷ [] in
    let m : Values = insert (text "warp") b values in
    let n : Values = insert (text "format") a m in
    let at_format = all_values-insert (text "format") (text "format") a m in
    let at_warp =
      all_values-insert (text "format") (text "warp") a m
      ∙ all_values-insert (text "warp") (text "warp") b values in
    let at_profile =
      all_values-insert (text "format") (text "profile") a m
      ∙ all_values-insert (text "warp") (text "profile") b values in
    let at_exclude =
      all_values-insert (text "format") (text "exclude") a m
      ∙ all_values-insert (text "warp") (text "exclude") b values in
    elim (Bool-cases (is_url o.format)) [
      | inl plain ↦ rw plain (ap first at_format, ap first at_warp, ap first at_profile, at_exclude)
      | inr rich ↦ rw rich (
        ap first (all_values-insert (text "profile") (text "format") c n ∙ at_format),
        ap first (all_values-insert (text "profile") (text "warp") c n ∙ at_warp),
        ap first (all_values-insert (text "profile") (text "profile") c n),
        all_values-insert (text "profile") (text "exclude") c n ∙ at_exclude,
      )
    ]

-- A request that is accepted means the same when its defaults are written out.
pub parse_for_client-explicit :
    (values : Values) (client : Client) (o : Options)
    → parse_for_client values client ≡ ok o
    → parse_for_client (explicit o values) client ≡ ok o
parse_for_client-explicit values client o h =
    let s = parse_for_client-Steps values client o h in
    let (served, codes) = parse_for_client-IsServed values client o h in
    let (f, w, p, x) = explicit-lookup o values in
    parse_of_Steps (explicit o values) client o (record {
      format = ap parse_format f ∙ parse_format_text o.format;
      warp =
          ap (parse_warp o.format client) w
          ∙ parse_warp_text o.format client o.warp served.flattened;
      allowed = s.allowed;
      profile = ap (parse_profile o.format) p ∙ elim (Bool-cases (is_url o.format)) [
        | inl plain ↦ rw plain s.profile
        | inr rich ↦ rw rich (parse_profile_text o.format o.profile rich served.profiled)
      ];
      exclude = ap parse_exclude x ∙ s.exclude;
    })
