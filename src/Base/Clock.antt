-- ===== src/Base/Clock.antt =====
-- Package `time`: an instant is the number of nanoseconds since Go's zero `time.Time`, before which
-- no clock of the program reads; a duration is a signed 64-bit count of nanoseconds.
use vless_sub_server.Base.{
  ℕ, suc, ◌+◌, ◌-◌, ◌^◌, ◌≤◌, ◌<◌, ◌≡◌, ◌↔◌, Bool, true, false, arith, leb, ltb, ◌==◌,
  if◌then◌else◌, not,
}
use vless_sub_server.Base.Int.{ℤ, pos, negsuc, ltb_ℤ}
use Prim.Native.Nat.{min}

abbrev pub Time : Type 0
Time = ℕ

abbrev pub Duration : Type 0
Duration = ℤ

abbrev pub is_zero : Time → Bool
is_zero t = t == 0

abbrev pub max_duration : ℕ
max_duration = 2 ^ 63 - 1

abbrev pub minute : ℕ
minute = 60_000_000_000

-- `now.Sub(t)`, which saturates at the ends of the 64-bit range.
unfoldable pub since : Time → Time → Duration
since now t =
    if leb t now then pos (min (now - t) max_duration) else negsuc (min (t - now - 1) max_duration)

-- `now.Sub(t) < d`
unfoldable pub within : Time → Time → Duration → Bool
unfolding since
within now t d = ltb_ℤ (since now t) d

-- For a duration that is not negative the saturation does not matter.
pub within-eq-false_iff :
    (now t d : ℕ) → d ≤ max_duration → (within now t (pos d) ≡ false) ↔ (t + d ≤ now)
unfolding within
within-eq-false_iff now t d h = ground arith

-- `now.Sub(t) <= d`
unfoldable pub at_most : Time → Time → Duration → Bool
unfolding since
at_most now t d = not (ltb_ℤ d (since now t))

pub at_most_iff : (now t d : ℕ) → d < max_duration → (at_most now t (pos d) ≡ true) ↔ (now ≤ t + d)
unfolding at_most
at_most_iff now t d h = ground arith

-- `now.After(t)`
abbrev pub is_after : Time → Time → Bool
is_after now t = ltb t now

-- `t.Add(d)`; an instant before Go's zero time is not represented.
abbrev pub add : Time → Duration → Time
add t (pos d) = t + d
add t (negsuc d) = t - suc d
