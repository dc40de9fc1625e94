-- ===== src/Parse/Params/Laws.antt =====
-- What the normalisation of the parameters leaves.
use vless_sub_server.Base.{◌≡◌, Bool, false, ◌&&◌, ◌||◌, not, none, some, arith, if◌then◌else◌}
use vless_sub_server.Base.Text.{Text, text, is_empty, text_eq}
use vless_sub_server.Base.Text.Laws.{text_eq_iff}
use vless_sub_server.Base.Dict.{Dict, lookup, insert, delete, lookup-insert, lookup-delete, Text-eq}
use vless_sub_server.Parse.Params.{value_of, get_param, insecure_value, normalize_insecure}

-- The parameter has a value that is not empty.
abbrev pub is_given : Text → Dict Text Text → Bool
is_given key params = elim (lookup key params) [ none ↦ false | some v ↦ not (is_empty v) ]

insecure_value-given :
    (params : Dict Text Text)
    → not (is_empty (insecure_value params)) ≡ (
        is_given (text "allowInsecure") params
        || (is_given (text "insecure") params || is_given (text "allow_insecure") params))
insecure_value-given params = ground arith

-- The parameters for insecure connections, under their three names, become one: it is 1 if one of the
-- three had any value, also one that says no; the other names are gone, and no other parameter
-- changes.
pub lookup-normalize_insecure :
    (key : Text) (params : Dict Text Text)
    → lookup key (normalize_insecure params) ≡ (
        if text_eq (text "allow_insecure") key || text_eq (text "allowInsecure") key
        then none
        else if text_eq (text "insecure") key
            && (is_given (text "allowInsecure") params
                || (is_given (text "insecure") params || is_given (text "allow_insecure") params))
        then some (text "1")
        else lookup key params)
unfolding normalize_insecure
lookup-normalize_insecure key params =
    let set : Dict Text Text =
      if not (is_empty (insecure_value params))
      then insert (text "insecure") (text "1") params
      else params in
    ground (
      arith,
      lookup-delete (text "allow_insecure") key (delete (text "allowInsecure") set),
      lookup-delete (text "allowInsecure") key set,
      lookup-insert (text "insecure") key (text "1") params,
      insecure_value-given params,
    )

insecure_value-none :
    (params : Dict Text Text)
    → lookup (text "allowInsecure") params ≡ none
    → lookup (text "allow_insecure") params ≡ none
    → insecure_value params ≡ value_of (lookup (text "insecure") params)
insecure_value-none params h k = ground arith

-- No alias is left, and the parameter for insecure connections is 1 where it has a value.
pub record IsNormal (params : Dict Text Text) : Type 0 where
  pub no_allow : lookup (text "allowInsecure") params ≡ none
  pub no_allow_ : lookup (text "allow_insecure") params ≡ none
  pub insecure_is :
      is_empty (get_param (text "insecure") params) ≡ false
      → lookup (text "insecure") params ≡ some (text "1")

pub normalize_insecure-IsNormal : (params : Dict Text Text) → IsNormal (normalize_insecure params)
unfolding text_eq
normalize_insecure-IsNormal params = record {
  no_allow = lookup-normalize_insecure (text "allowInsecure") params;
  no_allow_ = lookup-normalize_insecure (text "allow_insecure") params;
  insecure_is = λ h. ground (arith, lookup-normalize_insecure (text "insecure") params);
}

-- To normalise twice gives each parameter the value that it has after the first time.
normalize_insecure_idem :
    (key : Text) (params : Dict Text Text)
    → lookup key (normalize_insecure (normalize_insecure params))
      ≡ lookup key (normalize_insecure params)
normalize_insecure_idem key params =
    let once = normalize_insecure params in
    let n = normalize_insecure-IsNormal params in
    let value = insecure_value-none once n.no_allow n.no_allow_ in
    ground (
      arith,
      lookup-normalize_insecure key once,
      lookup-normalize_insecure key params,
      text_eq_iff (text "insecure") key,
      n.insecure_is,
      value,
    )

-- A parameter of another name does not matter.
pub insert-IsNormal :
    (key value : Text) (params : Dict Text Text)
    → (text_eq key (text "allowInsecure")
        || (text_eq key (text "allow_insecure") || text_eq key (text "insecure")))
      ≡ false
    → IsNormal params
    → IsNormal (insert key value params)
insert-IsNormal key value params apart n = record {
  no_allow = ground (arith, n.no_allow, lookup-insert key (text "allowInsecure") value params);
  no_allow_ = ground (arith, n.no_allow_, lookup-insert key (text "allow_insecure") value params);
  insecure_is =
      λ h. ground (arith, n.insecure_is, lookup-insert key (text "insecure") value params);
}
