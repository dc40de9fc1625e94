-- ===== src/Format/Links/Laws.antt =====
-- A Shadowsocks link is read back as the record that it was printed from.
use mathlib.Core.List.{append_assoc, append-nil}
use vless_sub_server.Base.{
  ℕ, ◌≡◌, refl, ◌∙◌, ap, sym, Bool, true, false, ◌||◌, not, [], ◌∷◌, ◌++◌, none, some, arith, ◌==◌,
  drop, if◌then◌else◌,
}
use vless_sub_server.Base.Int.{ℤ}
use vless_sub_server.Base.Text.{Text, text, is_empty}
use vless_sub_server.Base.Dict.{Text-eq}
use vless_sub_server.Format.Links.{Encoders, authority, method_of, reconstruct_ss}
use vless_sub_server.Parse.Query.{itoa}
use vless_sub_server.Parse.Record.{ss, ProxyRecord}
use vless_sub_server.Parse.Schemes.{Library, make_record}
use vless_sub_server.Parse.Schemes.Shadowsocks.{
  cut_first, cut_last, trim_slash, is_zero_port, base64decode, split_host_port, ss_method,
  ss_record, ss_main, ss_query, parse_ss,
}

-- Whether a text has a character.
unfoldable pub mentions : ℕ → Text → Bool
mentions sep [] = false
mentions sep (c ∷ s) = (c == sep) || mentions sep s

mentions-append :
    (sep : ℕ) (s t : Text) → mentions sep (s ++ t) ≡ (mentions sep s || mentions sep t)
unfolding mentions
mentions-append sep [] t = refl
mentions-append sep (c ∷ s) t = ground (arith, mentions-append sep s t)

cut_first-none : (sep : ℕ) (s : Text) → mentions sep s ≡ false → cut_first sep s ≡ none
unfolding mentions cut_first
cut_first-none sep [] h = refl
cut_first-none sep (c ∷ s) h = ground (arith, cut_first-none sep s)

cut_first-append :
    (sep : ℕ) (s t : Text) → mentions sep s ≡ false → cut_first sep (s ++ sep ∷ t) ≡ some (s, t)
unfolding mentions cut_first
cut_first-append sep [] t h = ground arith
cut_first-append sep (c ∷ s) t h = ground (arith, cut_first-append sep s t)

cut_last-none : (sep : ℕ) (s : Text) → mentions sep s ≡ false → cut_last sep s ≡ none
unfolding mentions cut_last
cut_last-none sep [] h = refl
cut_last-none sep (c ∷ s) h = ground (arith, cut_last-none sep s)

cut_last-append :
    (sep : ℕ) (s t : Text) → mentions sep t ≡ false → cut_last sep (s ++ sep ∷ t) ≡ some (s, t)
unfolding mentions cut_last
cut_last-append sep [] t h = ground (arith, cut_last-none sep t)
cut_last-append sep (c ∷ s) t h = ground (arith, cut_last-append sep s t)

trim_slash_none : (s : Text) → mentions b'/' s ≡ false → trim_slash s ≡ s
unfolding mentions trim_slash
trim_slash_none [] h = refl
trim_slash_none (c ∷ s) h = ground (arith, trim_slash_none s)

-- Base64 for URLs: what is encoded can be decoded, and the encoded text has none of the characters
-- that a link is split at.
pub record IsCodec (enc : Encoders) (lib : Library) : Type 0 where
  pub decodes : (s : Text) → lib.raw_url_base64 (enc.raw_url_base64 s) ≡ some s
  pub no_hash : (s : Text) → mentions b'#' (enc.raw_url_base64 s) ≡ false
  pub no_question : (s : Text) → mentions b'?' (enc.raw_url_base64 s) ≡ false
  pub no_colon : (s : Text) → mentions b':' (enc.raw_url_base64 s) ≡ false
  pub no_slash : (s : Text) → mentions b'/' (enc.raw_url_base64 s) ≡ false

-- An address that `net.SplitHostPort` and `strconv.Atoi` read back from its printed form.
pub record IsAddress (lib : Library) (host : Text) (port : ℤ) : Type 0 where
  pub some_host : is_empty host ≡ false
  pub some_port : is_zero_port port ≡ false
  pub splits : lib.split_host_port (authority host port) ≡ some (host, itoa port)
  pub reads_value : (lib.atoi (itoa port)).value ≡ port
  pub reads_ok : (lib.atoi (itoa port)).is_ok ≡ true
  pub no_hash : mentions b'#' (authority host port) ≡ false
  pub no_question : mentions b'?' (authority host port) ≡ false
  pub no_at : mentions b'@' (authority host port) ≡ false
  pub no_slash : mentions b'/' (authority host port) ≡ false

-- The parts of a printed link: the encoded method and password, and the address.
record AreParts (lib : Library) (info address method password host : Text) (port : ℤ) : Type 0 where
  decodes : lib.raw_url_base64 info ≡ some (method ++ b':' ∷ password)
  method_only : mentions b':' method ≡ false
  splits : lib.split_host_port address ≡ some (host, itoa port)
  reads_value : (lib.atoi (itoa port)).value ≡ port
  reads_ok : (lib.atoi (itoa port)).is_ok ≡ true
  some_host : is_empty host ≡ false
  some_port : is_zero_port port ≡ false
  no_colon : mentions b':' info ≡ false
  no_at : mentions b'@' address ≡ false
  no_hash : mentions b'#' (info ++ b'@' ∷ address) ≡ false
  no_question : mentions b'?' (info ++ b'@' ∷ address) ≡ false
  no_slash : mentions b'/' (info ++ b'@' ∷ address) ≡ false

module _ (lib : Library) (info address method password host : Text) (port : ℤ)
    (a : AreParts lib info address method password host port) where
  ss_method_info : ss_method lib info ≡ some (method, password)
  unfolding ss_method base64decode
  ss_method_info =
      rw (ss_method, base64decode, cut_first-none b':' info a.no_colon, a.decodes)
        (cut_first-append b':' method password a.method_only)

  abbrev read_back : Text → Text → ProxyRecord
  read_back line fragment =
      make_record ss host port password ((text "method", method) ∷ []) fragment line

  ss_record-address :
      (line fragment : Text)
      → ss_record lib line fragment [] (method, password) address ≡ some (read_back line fragment)
  unfolding ss_record split_host_port
  ss_record-address line fragment =
      rw (ss_record, split_host_port, a.splits, a.reads_ok, a.reads_value, a.some_host, a.some_port)
        refl

  ss_main_parts :
      (line fragment : Text)
      → ss_main lib line fragment [] (info ++ b'@' ∷ address) ≡ some (read_back line fragment)
  unfolding ss_main
  ss_main_parts line fragment =
      rw (ss_main, cut_last-append b'@' info address a.no_at)
        (rw (ss_method_info) (ss_record-address line fragment))

  ss_query_parts :
      (line fragment : Text)
      → ss_query lib line fragment (info ++ b'@' ∷ address) ≡ some (read_back line fragment)
  unfolding ss_query
  ss_query_parts line fragment =
      rw (ss_query, cut_first-none b'?' (info ++ b'@' ∷ address) a.no_question)
        (rw (trim_slash_none (info ++ b'@' ∷ address) a.no_slash) (ss_main_parts line fragment))

  parse_ss_bare :
      (line : Text)
      → drop 5 line ≡ info ++ b'@' ∷ address
      → parse_ss lib line ≡ some (read_back line [])
  unfolding parse_ss
  parse_ss_bare line e =
      rw (parse_ss, e, cut_first-none b'#' (info ++ b'@' ∷ address) a.no_hash)
        (rw e (ss_query_parts line []))

  parse_ss_named :
      (line fragment : Text)
      → drop 5 line ≡ (info ++ b'@' ∷ address) ++ b'#' ∷ fragment
      → parse_ss lib line ≡ some (read_back line fragment)
  unfolding parse_ss
  parse_ss_named line fragment e =
      rw (parse_ss, e, cut_first-append b'#' (info ++ b'@' ∷ address) fragment a.no_hash)
        (ss_query_parts line fragment)

printed-AreParts :
    (enc : Encoders) (lib : Library) (r : ProxyRecord)
    → IsCodec enc lib
    → IsAddress lib r.host r.port
    → mentions b':' (method_of r) ≡ false
    → AreParts lib
        (enc.raw_url_base64 (method_of r ++ b':' ∷ r.uuid_or_password))
        (authority r.host r.port)
        (method_of r)
        r.uuid_or_password
        r.host
        r.port
unfolding mentions
printed-AreParts enc lib r c a no_colon =
    let secret = method_of r ++ b':' ∷ r.uuid_or_password in
    let info = enc.raw_url_base64 secret in
    let tail = b'@' ∷ authority r.host r.port in
    record {
      decodes = c.decodes secret;
      method_only = no_colon;
      splits = a.splits;
      reads_value = a.reads_value;
      reads_ok = a.reads_ok;
      some_host = a.some_host;
      some_port = a.some_port;
      no_colon = c.no_colon secret;
      no_at = a.no_at;
      no_hash = mentions-append b'#' info tail ∙ rw (c.no_hash secret) a.no_hash;
      no_question = mentions-append b'?' info tail ∙ rw (c.no_question secret) a.no_question;
      no_slash = mentions-append b'/' info tail ∙ rw (c.no_slash secret) a.no_slash;
    }

-- The fragment of a link as the parser reads it: still escaped.
abbrev pub escaped : Encoders → Text → Text
escaped enc fragment = if not (is_empty fragment) then enc.path_escape fragment else []

-- A Shadowsocks record, printed with a fragment and read again, has its host, port and password, the
-- method that was printed and no other parameter, and the fragment as it was escaped. The base64
-- coder is assumed to decode what it encoded and to use none of the characters # ? : / and @ is free
-- of the address, which the network library reads back; the method has no colon.
pub parse_ss-reconstruct_ss :
    (enc : Encoders) (lib : Library) (r : ProxyRecord) (fragment : Text)
    → IsCodec enc lib
    → IsAddress lib r.host r.port
    → mentions b':' (method_of r) ≡ false
    → let line = reconstruct_ss enc r fragment in
      parse_ss lib line
      ≡ some (
          make_record ss r.host r.port r.uuid_or_password
            ((text "method", method_of r) ∷ [])
            (escaped enc fragment)
            line)
unfolding reconstruct_ss
parse_ss-reconstruct_ss enc lib r [] c a no_colon =
    let info = enc.raw_url_base64 (method_of r ++ b':' ∷ r.uuid_or_password) in
    let address = authority r.host r.port in
    parse_ss_bare lib info address (method_of r) r.uuid_or_password r.host r.port
      (printed-AreParts enc lib r c a no_colon) (reconstruct_ss enc r [])
      (ap (λ (t : Text). info ++ b'@' ∷ t) (append-nil address))
parse_ss-reconstruct_ss enc lib r (x ∷ xs) c a no_colon =
    let info = enc.raw_url_base64 (method_of r ++ b':' ∷ r.uuid_or_password) in
    let address = authority r.host r.port in
    let fragment = enc.path_escape (x ∷ xs) in
    parse_ss_named lib info address (method_of r) r.uuid_or_password r.host r.port
      (printed-AreParts enc lib r c a no_colon) (reconstruct_ss enc r (x ∷ xs)) fragment
      (sym (append_assoc info (b'@' ∷ address) (b'#' ∷ fragment)))
