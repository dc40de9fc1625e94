-- ===== src/Fetch/Decode/Laws.antt =====
-- internal/fetch/fetch.go, `decodeSubscription`: what lines a body gives.
use vless_sub_server.Base.{
  ◌%◌, ◌≡◌, ◌⊎◌, refl, subst, map, filter, Option, none, if◌then◌else◌, true, false, not, List, [],
  ◌∷◌, some, All, arith, ◌==◌, Bool-cases, inl, inr,
}
use vless_sub_server.Base.Text.{Text, is_empty, has_prefix, trim_space, split}
use vless_sub_server.Fetch.Decode.{
  Decoders, keep_lines, split_non_empty, has_proxy_scheme, urls_or, decoded_lines,
  decode_subscription,
}
use vless_sub_server.Base.Text.Laws.{text_eq_refl}
use vless_sub_server.Base.Dict.{has, Text-eq}
use vless_sub_server.Parse.Lines.{has_scheme, proxy_schemes}
use vless_sub_server.Parse.Query.{byte_length}
use vless_sub_server.Parse.Schemes.Shadowsocks.{pad}
use vless_sub_server.Parse.Schemes.Shadowsocks.Laws.{pad_full, IsPadded, pad-IsPadded}
use vless_sub_server.Parse.Schemes.Vmess.{standard_alphabet, standard_code}

-- The lines of a text, each trimmed, without those that are empty then.
abbrev pub lines_of : Text → List Text
lines_of s = filter (λ l. not (is_empty l)) (map trim_space (split b'\n' s))

-- A line that begins with the scheme of a link, and one that does not.
abbrev pub IsLink : Text → Type 0
IsLink l = (p : Text) × (has p proxy_schemes ≡ true) × (has_prefix l p ≡ true)

abbrev pub IsOther : Text → Type 0
IsOther l = All (λ p. has_prefix l p ≡ false) proxy_schemes

-- The characters - and _ of the alphabet for URLs, replaced.
abbrev pub in_standard : Text → Text
in_standard [] = []
in_standard (c ∷ s) = (if c == b'-' then b'+' else if c == b'_' then b'/' else c) ∷ in_standard s

-- What lines the body gives, where `code` is its text as base64: those of a sing-box document, in the
-- clear or encoded; the lines of the text that is encoded, if one is a link; or else its own lines.
pub data IsDecoded (lib : Decoders) (body code : Text) : List Text → Type 0 where
  document :
      (u : Text) (urls : List Text)
      → lib.singbox_urls body ≡ u ∷ urls
      → IsDecoded lib body code (u ∷ urls)
  encoded_document :
      (content u : Text) (urls : List Text)
      → lib.singbox_urls body ≡ []
      → lib.std_base64 code ≡ some content
      → lib.singbox_urls content ≡ u ∷ urls
      → IsDecoded lib body code (u ∷ urls)
  encoded_links :
      (content link : Text)
      → lib.singbox_urls body ≡ []
      → lib.std_base64 code ≡ some content
      → lib.singbox_urls content ≡ []
      → has link (lines_of content) ≡ true
      → IsLink link
      → IsDecoded lib body code (lines_of content)
  not_links :
      (content : Text)
      → lib.singbox_urls body ≡ []
      → lib.std_base64 code ≡ some content
      → lib.singbox_urls content ≡ []
      → All IsOther (lines_of content)
      → IsDecoded lib body code (lines_of body)
  not_base64 :
      lib.singbox_urls body ≡ []
      → lib.std_base64 code ≡ none
      → IsDecoded lib body code (lines_of body)

keep_lines-filter :
    (ls : List Text) → keep_lines ls ≡ filter (λ l. not (is_empty l)) (map trim_space ls)
unfolding keep_lines
keep_lines-filter [] = refl
keep_lines-filter (l ∷ ls) = ground (arith, keep_lines-filter ls)

split_non_empty_lem : (s : Text) → split_non_empty s ≡ lines_of s
unfolding split_non_empty
split_non_empty_lem s = keep_lines-filter (split b'\n' s)

has_scheme-cases :
    (l : Text) (ps : List Text)
    → ((p : Text) × (has p ps ≡ true) × (has_prefix l p ≡ true) × (has_scheme l ps ≡ true))
      ⊎ (All (λ p. has_prefix l p ≡ false) ps × (has_scheme l ps ≡ false))
unfolding has_scheme
has_scheme-cases l [] = inr (tt, refl)
has_scheme-cases l (p ∷ ps) = elim (Bool-cases (has_prefix l p)) [
  | inl h ↦ inl (p, ground (arith, text_eq_refl p), h, rw h refl)
  | inr h ↦ elim (has_scheme-cases l ps) [
    | inl (q, m, k, e) ↦ inl (q, ground (arith, m), k, rw h e)
    | inr (a, e) ↦ inr ((h, a), rw h e)
  ]
]

has_proxy_scheme-cases :
    (ls : List Text)
    → ((l : Text) × (has l ls ≡ true) × IsLink l × (has_proxy_scheme ls ≡ true))
      ⊎ (All IsOther ls × (has_proxy_scheme ls ≡ false))
unfolding has_proxy_scheme
has_proxy_scheme-cases [] = inr (tt, refl)
has_proxy_scheme-cases (l ∷ ls) = elim (has_scheme-cases l proxy_schemes) [
  | inl (p, m, h, e) ↦ inl (l, ground (arith, text_eq_refl l), (p, m, h), rw e refl)
  | inr (a, e) ↦ elim (has_proxy_scheme-cases ls) [
    | inl (k, m, s, e') ↦ inl (k, ground (arith, m), s, rw e e')
    | inr (b, e') ↦ inr ((a, b), rw e e')
  ]
]

standard_alphabet_lem : (s : Text) → standard_alphabet s ≡ in_standard s
unfolding standard_alphabet standard_code
standard_alphabet_lem [] = refl
standard_alphabet_lem (c ∷ s) = ground (arith, standard_alphabet_lem s)

module _ (lib : Decoders) (body code : Text) (plain : lib.singbox_urls body ≡ []) where
  links-IsDecoded :
      (content : Text)
      → lib.std_base64 code ≡ some content
      → lib.singbox_urls content ≡ []
      → IsDecoded lib body code
          (if has_proxy_scheme (lines_of content) then lines_of content else lines_of body)
  links-IsDecoded content decodes plain' = elim (has_proxy_scheme-cases (lines_of content)) [
    | inl (l, m, s, e) ↦ rw e (encoded_links content l plain decodes plain' m s)
    | inr (others, e) ↦ rw e (not_links content plain decodes plain' others)
  ]

  content-IsDecoded :
      (content : Text) (urls : List Text)
      → lib.std_base64 code ≡ some content
      → lib.singbox_urls content ≡ urls
      → IsDecoded lib body code (
          urls_or urls
            (if has_proxy_scheme (lines_of content) then lines_of content else lines_of body))
  content-IsDecoded content [] decodes e = links-IsDecoded content decodes e
  content-IsDecoded content (u ∷ urls) decodes e = encoded_document content u urls plain decodes e

  base64-IsDecoded :
      (o : Option Text)
      → lib.std_base64 code ≡ o
      → IsDecoded lib body code (elim o [
        | none ↦ split_non_empty body
        | some content ↦ decoded_lines lib content (split_non_empty body)
      ])
  unfolding decoded_lines
  base64-IsDecoded none e = rw (split_non_empty_lem body) (not_base64 plain e)
  base64-IsDecoded (some content) e =
      rw (split_non_empty_lem body, split_non_empty_lem content)
        (content-IsDecoded content (lib.singbox_urls content) e refl)

body-IsDecoded :
    (lib : Decoders) (body code : Text) (urls : List Text)
    → lib.singbox_urls body ≡ urls
    → IsDecoded lib body code (
        urls_or urls (elim (lib.std_base64 code) [
          | none ↦ split_non_empty body
          | some content ↦ decoded_lines lib content (split_non_empty body)
        ]))
body-IsDecoded lib body code [] e = base64-IsDecoded lib body code e (lib.std_base64 code) refl
body-IsDecoded lib body code (u ∷ urls) e = document u urls e

-- What a body gives, whatever it is, once it is trimmed. The links of a sing-box document come first.
-- Otherwise the body is taken for base64, in either alphabet and with up to three signs added for a
-- number of bytes divisible by four; if it is the base64 of a document the links of that are taken,
-- and if it is that of a text with a link among its lines, these lines. In all other cases its own
-- lines are taken. Lines are trimmed, and the empty ones are left out.
pub decode_subscription-IsDecoded :
    (lib : Decoders) (raw : Text)
    → (code : Text) × IsPadded 3 (in_standard (trim_space raw)) code
      × (byte_length code % 4 ≡ 0)
      × IsDecoded lib (trim_space raw) code (decode_subscription lib raw)
unfolding decode_subscription
decode_subscription-IsDecoded lib raw =
    let body = trim_space raw in
    let code = pad (standard_alphabet body) in
    (
      code,
      subst (λ s. IsPadded 3 s code) (standard_alphabet_lem body)
          (pad-IsPadded (standard_alphabet body)),
      (pad_full (standard_alphabet body)).0,
      body-IsDecoded lib body code (lib.singbox_urls body) refl,
    )
