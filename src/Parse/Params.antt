-- ===== src/Parse/Params.antt =====
-- internal/parse/parse.go: the query parameters of a record, and how they are normalised.
pub mod Laws
use vless_sub_server.Base.{
  ◌≡◌, Bool, true, false, ◌&&◌, not, List, [], ◌∷◌, Option, none, some, if◌then◌else◌,
}
use vless_sub_server.Base.Text.{Text, text, is_empty, text_eq}
use vless_sub_server.Base.Dict.{Dict, lookup, insert, delete, Text-eq}

-- `params[key]`, which is empty for a key that is not there.
abbrev pub value_of : Option Text → Text
value_of none = []
value_of (some v) = v

abbrev pub get_param : Text → Dict Text Text → Text
get_param key params = value_of (lookup key params)

abbrev pub first_value : List Text → Text
first_value [] = []
first_value (v ∷ vs) = v

-- The loop over `u.Query()`: the first value of each key.
unfoldable pub first_values : Dict Text (List Text) → Dict Text Text
first_values [] = []
first_values ((k, v) ∷ m) = (k, first_value v) ∷ first_values m

-- The first of two texts that is not empty.
abbrev pub or_else : Text → Text → Text
or_else val other = if is_empty val then other else val

abbrev pub insecure_value : Dict Text Text → Text
insecure_value params =
    or_else (or_else (get_param (text "allowInsecure") params) (get_param (text "insecure") params))
      (get_param (text "allow_insecure") params)

unfoldable pub normalize_insecure : Dict Text Text → Dict Text Text
normalize_insecure params =
    let set =
      if not (is_empty (insecure_value params))
      then insert (text "insecure") (text "1") params
      else params in
    delete (text "allow_insecure") (delete (text "allowInsecure") set)

-- `params["extra"] = normalized`, unless `NormalizeExtra` refuses the value.
abbrev pub with_extra : Dict Text Text → Option Text → Option (Dict Text Text)
with_extra params none = none
with_extra params (some normalized) = some (insert (text "extra") normalized params)

-- `none` for `false`. `normalize_extra` is the function of internal/xhttp.
unfoldable pub normalize_xhttp : (Text → Option Text) → Dict Text Text → Option (Dict Text Text)
normalize_xhttp normalize_extra params =
    let type = get_param (text "type") params in
    let typed = insert (text "type") (text "xhttp") params in
    if not (text_eq type (text "xhttp")) && not (text_eq type (text "splithttp"))
    then some params
    else if is_empty (get_param (text "extra") typed)
    then some typed
    else with_extra typed (normalize_extra (get_param (text "extra") typed))
