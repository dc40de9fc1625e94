-- ===== src/Fetch/Decode/Failures.antt =====
-- Which failures of a fetch are final, by the status of the answer.
use vless_sub_server.Base.{
  ℕ, suc, ◌≢◌, ◌↔◌, ◌∙◌, ◌+◌, ◌/◌, ◌%◌, ◌≤◌, ◌≡◌, refl, true, false, [], ◌∷◌, ◌++◌, Option, arith,
}
use vless_sub_server.Base.Int.{pos}
use vless_sub_server.Base.Text.{Text, text, has_prefix, text_eq}
use vless_sub_server.Fetch.Decode.{Decoders, answered, failure, fetch_single}
use vless_sub_server.Fetch.Sources.{is_authoritative_failure, is_ok}
use vless_sub_server.Parse.Query.{itoa, decimal, decimal_from}

more_digits :
    (fuel n : ℕ) (out : Text)
    → 10 ≤ n
    → decimal_from (suc fuel) n out ≡ decimal_from fuel (n / 10) ((48 + n % 10) ∷ out)
unfolding decimal_from
more_digits fuel n out h = ground arith

last_digit : (fuel n : ℕ) (out : Text) → n ≤ 9 → decimal_from (suc fuel) n out ≡ (48 + n % 10) ∷ out
unfolding decimal_from
last_digit fuel n out h = ground arith

-- The digits of a status.
decimal_status :
    (n : ℕ)
    → 100 ≤ n
    → n ≤ 999
    → decimal n ≡ (48 + n / 10 / 10 % 10) ∷ (48 + n / 10 % 10) ∷ (48 + n % 10) ∷ []
unfolding decimal
decimal_status n h k =
    more_digits 19 n [] (omega arith)
    ∙ (more_digits 18 (n / 10) _ (omega arith) ∙ last_digit 17 (n / 10 / 10) _ (omega arith))

is_final_status :
    (n : ℕ)
    → 100 ≤ n
    → n ≤ 999
    → (is_authoritative_failure (text "HTTP " ++ itoa (pos n)) ≡ true)
      ↔ ((400 ≤ n) × (n ≤ 499) × (n ≢ 429))
unfolding is_authoritative_failure has_prefix itoa
is_final_status n h k = rw (decimal_status n h k) (ground arith)

status_failure :
    (lib : Decoders) (url via : Text) (n : ℕ) (body : Option Text)
    → n ≢ 200
    → fetch_single lib url via (answered n body) ≡ failure url (text "HTTP " ++ itoa (pos n))
unfolding fetch_single
status_failure lib url via n body other = ground arith

-- A fetch that is answered with another status than 200 fails, and the failure is final, so that the
-- kept lines of the source are dropped, exactly for the statuses from 400 to 499 other than 429;
-- a status has three digits.
pub fetch_single_status :
    (lib : Decoders) (url via : Text) (n : ℕ) (body : Option Text)
    → 100 ≤ n
    → n ≤ 999
    → n ≢ 200
    → let r = fetch_single lib url via (answered n body) in
      (is_ok r ≡ false)
      × ((is_authoritative_failure r.error ≡ true) ↔ ((400 ≤ n) × (n ≤ 499) × (n ≢ 429)))
unfolding is_ok text_eq
fetch_single_status lib url via n body h k other =
    rw (status_failure lib url via n body other) (refl, is_final_status n h k)
