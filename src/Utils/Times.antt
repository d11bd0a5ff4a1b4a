-- ===== src/Utils/Times.antt =====
-- `fromMsTsToUtcTime` and `getISO8601CurrentTimeStamp`. What `put_time` prints of the broken-down
-- time is an argument.
use unleash_cpp_sdk.Base.{
  Bool, Text, abs, arith, codes, if◌then◌else◌, leb_ℤ, ltb_ℤ, neg, neg_part, negsuc, pos, pos_part,
  quot, rem, suc, zero, ℕ, ℤ, ◌*◌, ◌++◌, ◌+◌, ◌-◌, ◌/◌, ◌<◌, ◌↔◌, ◌∷◌, ◌≡◌, ◌≢◌, ◌≤◌, ◌⊎◌,
}
use unleash_cpp_sdk.Utils.Strings.{int_to_string, pad_zero, to_string}

-- Seconds and milliseconds: a negative remainder borrows a second.
unfoldable pub split_ms : ℤ → ℤ × ℤ
split_ms ts =
    let sec = quot ts 1000 in
    let ms = rem ts 1000 in
    if ltb_ℤ ms (pos 0) then (neg (neg_part sec + 1), pos (1000 - neg_part ms)) else (sec, ms)

-- `utc` is `put_time(gmtime(sec), "%Y-%m-%dT%H:%M:%S")`.
unfoldable pub from_ms_ts_to_utc_time : (ℤ → Text) → ℤ → Text
unfolding split_ms
from_ms_ts_to_utc_time utc ts =
    utc (split_ms ts).0 ++ (codes "." ++ (pad_zero 3 (int_to_string (split_ms ts).1) ++ codes "Z"))

-- The sign, the hours and the minutes of a zone's offset in seconds.
pub record ZoneOffset : Type 0 where
  pub plus : Bool
  pub hours : ℕ
  pub minutes : ℕ

unfoldable pub zone_offset : ℤ → ZoneOffset
zone_offset seconds = record {
  plus = leb_ℤ (pos 0) (quot seconds 3600);
  hours = abs (quot seconds 3600);
  minutes = abs (quot (rem seconds 3600) 60);
}

-- `local` is `put_time(localtime(now), "%Y-%m-%dT%H:%M:%S")`.
unfoldable pub iso8601_time_stamp : Text → ℤ → Text
unfolding zone_offset
iso8601_time_stamp local seconds =
    let z = zone_offset seconds in
    local
    ++ ((if z.plus then b'+' else b'-')
        ∷ (pad_zero 2 (to_string z.hours) ++ b':' ∷ pad_zero 2 (to_string z.minutes)))

-- The time stamp is its seconds times 1000 plus its milliseconds, which lie below 1000 for every
-- time stamp, also before 1970.
pub split_ms-floor :
    (ts : ℤ)
    → let (sec, ms) = split_ms ts in
      (neg_part ms ≡ 0)
      × (pos_part ms < 1000)
      × (pos_part sec * 1000 + pos_part ms + neg_part ts ≡ pos_part ts + neg_part sec * 1000)
unfolding split_ms
split_ms-floor (pos n) = ground arith
split_ms-floor (negsuc n) = ground arith

-- The offset in minutes that a reader takes from the three parts.
unfoldable pub read_minutes : ZoneOffset → ℤ
read_minutes z = if z.plus then pos (z.hours * 60 + z.minutes) else neg (z.hours * 60 + z.minutes)

-- The printed offset reads as the zone's offset in whole minutes, rounded towards zero, unless the
-- zone lies west of Greenwich by at least a minute and less than an hour.
pub read_minutes-zone_offset :
    (seconds : ℤ)
    → (neg_part seconds < 60) ⊎ (3600 ≤ neg_part seconds)
    → read_minutes (zone_offset seconds) ≡ quot seconds 60
unfolding read_minutes zone_offset
read_minutes-zone_offset (pos n) h = ground arith
read_minutes-zone_offset (negsuc n) h = ground arith

-- A zone west of Greenwich by at least a minute and less than an hour is printed with a plus sign,
-- and so reads as one as far to the east.
pub zone_offset_wrong_sign :
    (n : ℕ)
    → 60 ≤ n
    → n < 3600
    → (read_minutes (zone_offset (neg n)) ≡ pos (n / 60)) × (quot (neg n) 60 ≢ pos (n / 60))
unfolding read_minutes zone_offset
zone_offset_wrong_sign zero h k = absurd (omega arith)
zone_offset_wrong_sign (suc n) h k = ground arith

-- The zones whose offset is printed right.
zone_offset_right :
    (seconds : ℤ)
    → read_minutes (zone_offset seconds) ≡ quot seconds 60
    → (neg_part seconds < 60) ⊎ (3600 ≤ neg_part seconds)
unfolding read_minutes zone_offset
zone_offset_right (pos n) h = ground arith
zone_offset_right (negsuc n) h = ground arith

-- The printed zone offset reads as the zone's offset in whole minutes, rounded towards zero, exactly if
-- the zone does not lie west of Greenwich by at least a minute and less than an hour.
pub zone_offset_iff :
    (seconds : ℤ)
    → (read_minutes (zone_offset seconds) ≡ quot seconds 60)
      ↔ ((neg_part seconds < 60) ⊎ (3600 ≤ neg_part seconds))
zone_offset_iff seconds = (zone_offset_right seconds, read_minutes-zone_offset seconds)
