-- ===== src/Inventory/Calendar.antt =====
-- The dates of the inventory's time stamps (crates/agent/src/session_inventory.rs). Its callers have
-- rejected a time before the epoch, so the days are natural numbers and the source's branch for
-- negative days is not taken; nothing overflows an `i64`, which a count of seconds fits in.
pub mod Reference
pub mod Civil
use Prim.Native.String.{count}
use chaop.Base.{
  ℕ, zero, suc, ◌+◌, ◌-◌, ◌*◌, ◌/◌, ◌%◌, ltb, leb, if◌then◌else◌, String, ◌str++◌, Option, none,
  some, ℤ, pos, negsuc, ◌≡◌, refl,
}
use chaop.Connector.Instances.Text.{decimal}

pub record CivilDate : Type 0 where
  pub year : ℕ
  pub month : ℕ
  pub day : ℕ

abbrev pub day_of_era : ℕ → ℕ
day_of_era shifted_days = shifted_days % 146097

unfoldable pub year_of_era : ℕ → ℕ
year_of_era doe = (doe - doe / 1460 + doe / 36524 - doe / 146096) / 365

abbrev pub day_of_year : ℕ → ℕ → ℕ
day_of_year doe yoe = doe - (365 * yoe + yoe / 4 - yoe / 100)

unfoldable pub civil_from_days : ℕ → CivilDate
unfolding year_of_era
civil_from_days days_since_unix_epoch =
    let shifted_days = days_since_unix_epoch + 719468 in
    let era = shifted_days / 146097 in
    let doe = shifted_days - era * 146097 in
    let yoe = year_of_era doe in
    let doy = day_of_year doe yoe in
    let month_piece = (5 * doy + 2) / 153 in
    let m = if ltb month_piece 10 then month_piece + 3 else month_piece - 9 in
    record {
      year = if leb m 2 then yoe + era * 400 + 1 else yoe + era * 400;
      month = m;
      day = doy - (153 * month_piece + 2) / 5 + 1;
    }

-- `{n:0width}`
abbrev zeros : ℕ → String
zeros zero = ""
zeros (suc n) = "0" str++ zeros n

abbrev padded : ℕ → ℕ → String
padded width n = zeros (width - count (decimal n)) str++ decimal n

unfoldable pub iso_text : CivilDate → ℕ → ℕ → String
unfolding decimal
iso_text date seconds_of_day millis =
    padded 4 date.year
    str++ ("-"
        str++ (padded 2 date.month
            str++ ("-"
                str++ (padded 2 date.day
                    str++ ("T"
                        str++ (padded 2 (seconds_of_day / 3600)
                            str++ (":"
                                str++ (padded 2 (seconds_of_day % 3600 / 60)
                                    str++ (":"
                                        str++ (padded 2 (seconds_of_day % 60)
                                            str++ ("." str++ (padded 3 millis str++ "Z"))))))))))))

unfoldable pub unix_timestamp_to_iso : ℤ → ℕ → Option String
unfolding civil_from_days iso_text
unix_timestamp_to_iso (negsuc n) millis = none
unix_timestamp_to_iso (pos seconds) millis =
    some (iso_text (civil_from_days (seconds / 86400)) (seconds % 86400) millis)

unfoldable pub unix_seconds_to_iso : ℤ → Option String
unfolding unix_timestamp_to_iso
unix_seconds_to_iso seconds = unix_timestamp_to_iso seconds 0

t : unix_seconds_to_iso (pos 1709210096) ≡ some "2024-02-29T12:34:56.000Z"
unfolding unix_seconds_to_iso
t = refl
