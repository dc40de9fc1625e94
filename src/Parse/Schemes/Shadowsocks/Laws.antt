-- ===== src/Parse/Schemes/Shadowsocks/Laws.antt =====
-- Padding ends, and what the records of Shadowsocks links have.
use mathlib.Core.List.{append_assoc, append-nil}
use vless_sub_server.Base.{
  ℕ, zero, suc, ◌-◌, ◌≤◌, ◌%◌, ◌≡◌, refl, sym, ◌∙◌, ◌==◌, false, ◌||◌, [], ◌∷◌, ◌++◌, Option, none,
  some, inl, inr, arith, Bool-cases, drop,
}
use vless_sub_server.Base.Text.{Text, text, is_empty, split}
use vless_sub_server.Base.Dict.{Dict, lookup, lookup-insert_self, Text-eq}
use vless_sub_server.Parse.Query.{byte_length, utf8}
use vless_sub_server.Parse.Record.{ss, ProxyRecord}
use vless_sub_server.Parse.Schemes.{Library}
use vless_sub_server.Parse.Schemes.Laws.{Gives}
use vless_sub_server.Parse.Schemes.Shadowsocks.{
  pad_rounds, pad, ss_record, ss_main, ss_query, parse_ss, is_zero_port, then_text, then_parts,
  cut_first, cut_last, ss_method, base64decode, split_host_port, ss_pairs, trim_slash,
}

byte_length-snoc : (s : Text) → byte_length (s ++ b'=' ∷ []) ≡ suc (byte_length s)
unfolding byte_length utf8
byte_length-snoc [] = refl
byte_length-snoc (c ∷ s) = omega (arith, byte_length-snoc s)

abbrev missing : Text → ℕ
missing s = (4 - byte_length s % 4) % 4

pad_rounds_full :
    (rounds : ℕ) (s : Text) → missing s ≤ rounds → byte_length (pad_rounds rounds s) % 4 ≡ 0
unfolding pad_rounds
pad_rounds_full zero s h = omega arith
pad_rounds_full (suc rounds) s h =
    ground (arith, byte_length-snoc s, pad_rounds_full rounds (s ++ b'=' ∷ []))

-- The loops that pad a text to a multiple of four bytes end within three rounds, whatever the text:
-- the length of the result is a multiple of four, and a text of such a length is left as it is.
pub pad_full : (s : Text) → (byte_length (pad s) % 4 ≡ 0) × (byte_length s % 4 ≡ 0 → pad s ≡ s)
unfolding pad
pad_full s = (pad_rounds_full 3 s (omega arith), λ h. unfold pad_rounds in ground arith)

abbrev pub equals_signs : ℕ → Text
equals_signs zero = []
equals_signs (suc n) = b'=' ∷ equals_signs n

-- A text with at most `most` signs after it.
pub record IsPadded (most : ℕ) (s padded : Text) : Type 0 where
  pub signs : ℕ
  pub few : signs ≤ most
  pub same : padded ≡ s ++ equals_signs signs

pad_rounds-IsPadded : (rounds : ℕ) (s : Text) → IsPadded rounds s (pad_rounds rounds s)
unfolding pad_rounds
pad_rounds-IsPadded zero s = record { signs = 0; few = omega arith; same = sym (append-nil s) }
pad_rounds-IsPadded (suc rounds) s = elim (Bool-cases (byte_length s % 4 == 0)) [
  | inl full ↦ rw full (record { signs = 0; few = omega arith; same = sym (append-nil s) })
  | inr short ↦
      let p = pad_rounds-IsPadded rounds (s ++ b'=' ∷ []) in
      rw short (record {
        signs = suc p.signs;
        few = omega (arith, p.few);
        same = p.same ∙ append_assoc s (b'=' ∷ []) (equals_signs p.signs);
      })
]

pub pad-IsPadded : (s : Text) → IsPadded 3 s (pad s)
unfolding pad
pad-IsPadded s = pad_rounds-IsPadded 3 s

-- A Shadowsocks record names a host, a port other than 0 and a method, and keeps the line.
pub record IsSs (line : Text) (r : ProxyRecord) : Type 0 where
  pub own_protocol : r.protocol ≡ ss
  pub own_line : r.original_line ≡ line
  pub some_host : is_empty r.host ≡ false
  pub some_port : is_zero_port r.port ≡ false
  pub method : Text
  pub some_method : lookup (text "method") r.query_params ≡ some method

module _ (lib : Library) (line : Text) where
  ss_record-IsSs :
      (fragment : Text) (params : Dict Text Text) (m : Text × Text) (host_port : Text)
      → Gives (IsSs line) (ss_record lib line fragment params m host_port)
  unfolding ss_record
  ss_record-IsSs fragment params (method, password) host_port =
      let (host, port) = split_host_port lib host_port in
      elim (Bool-cases (is_empty host || is_zero_port port)) [
        | inl e ↦ rw e tt
        | inr e ↦ rw e (record {
          own_protocol = refl;
          own_line = refl;
          some_host = ground arith;
          some_port = ground arith;
          method = method;
          some_method = lookup-insert_self (text "method") method params;
        })
      ]

  then_text-IsSs :
      (o : Option Text) (next : Text → Option ProxyRecord)
      → ((s : Text) → Gives (IsSs line) (next s))
      → Gives (IsSs line) (then_text o next)
  then_text-IsSs none next h = tt
  then_text-IsSs (some s) next h = h s

  then_parts-IsSs :
      (o : Option (Text × Text)) (next : Text × Text → Option ProxyRecord)
      → ((s : Text × Text) → Gives (IsSs line) (next s))
      → Gives (IsSs line) (then_parts o next)
  then_parts-IsSs none next h = tt
  then_parts-IsSs (some s) next h = h s

  ss_main-IsSs :
      (fragment : Text) (params : Dict Text Text) (main : Text)
      → Gives (IsSs line) (ss_main lib line fragment params main)
  unfolding ss_main
  ss_main-IsSs fragment params main =
      elim (cut_last b'@' main)
        as (λ o. Gives (IsSs line) (elim o [
          | some (method_password, host_port) ↦
              then_parts (ss_method lib method_password)
                (λ m. ss_record lib line fragment params m host_port)
          | none ↦ then_text (base64decode lib main) (λ decoded.
              then_parts (cut_last b'@' decoded) (λ parts.
                then_parts (cut_first b':' parts.0)
                  (λ m. ss_record lib line fragment params m parts.1)))
        ])) [
          | some (method_password, host_port) ↦
              then_parts-IsSs (ss_method lib method_password) _
                (λ m. ss_record-IsSs fragment params m host_port)
          | none ↦ then_text-IsSs (base64decode lib main) _ (λ decoded.
              then_parts-IsSs (cut_last b'@' decoded) _ (λ parts.
                then_parts-IsSs (cut_first b':' parts.0) _
                  (λ m. ss_record-IsSs fragment params m parts.1)))
        ]

  ss_query-IsSs : (fragment main : Text) → Gives (IsSs line) (ss_query lib line fragment main)
  unfolding ss_query
  ss_query-IsSs fragment main =
      elim (cut_first b'?' main)
        as (λ o. Gives (IsSs line) (elim o [
          | some (host_port, query) ↦
              ss_main lib line fragment (ss_pairs [] (split b'&' query)) (trim_slash host_port)
          | none ↦ ss_main lib line fragment [] (trim_slash main)
        ])) [
          | some (host_port, query) ↦
              ss_main-IsSs fragment (ss_pairs [] (split b'&' query)) (trim_slash host_port)
          | none ↦ ss_main-IsSs fragment [] (trim_slash main)
        ]

  pub parse_ss-IsSs : Gives (IsSs line) (parse_ss lib line)
  unfolding parse_ss
  parse_ss-IsSs =
      elim (cut_first b'#' (drop 5 line))
        as (λ o. Gives (IsSs line) (elim o [
          | some (main, fragment) ↦ ss_query lib line fragment main
          | none ↦ ss_query lib line [] (drop 5 line)
        ])) [
          | some (main, fragment) ↦ ss_query-IsSs fragment main
          | none ↦ ss_query-IsSs [] (drop 5 line)
        ]
