-- ===== src/Budget/Calendar.antt =====
-- monthly_period of storage/work_budgets.py: UTC months of the proleptic Gregorian calendar, for
-- timestamps from 1970 on.
use chess_crawl.Prelude.{ℕ, ◌+◌, ◌-◌, ◌*◌, ◌/◌, ◌%◌, ◌≡◌, refl, ltb, leb, ◌==◌, if◌then◌else◌}

-- datetime.fromtimestamp(now, UTC), its year and month: years that begin in March.
unfoldable pub year_month : ℕ → ℕ × ℕ
year_month now =
    let z : ℕ = now / 86400 + 719468 in
    let era : ℕ = z / 146097 in
    let doe : ℕ = z % 146097 in
    let yoe : ℕ = (doe - doe / 1460 + doe / 36524 - doe / 146096) / 365 in
    let doy : ℕ = doe - (365 * yoe + yoe / 4 - yoe / 100) in
    let mp : ℕ = (5 * doy + 2) / 153 in
    let month : ℕ = if ltb mp 10 then mp + 3 else mp - 9 in
    (yoe + era * 400 + (if leb month 2 then 1 else 0), month)

-- datetime(year, month, 1, tzinfo=UTC).timestamp()
unfoldable pub month_start : ℕ → ℕ → ℕ
month_start year month =
    let y : ℕ = if leb month 2 then year - 1 else year in
    let era : ℕ = y / 400 in
    let yoe : ℕ = y % 400 in
    let mp : ℕ = if ltb 2 month then month - 3 else month + 9 in
    let doy : ℕ = (153 * mp + 2) / 5 in
    let doe : ℕ = yoe * 365 + yoe / 4 - yoe / 100 + doy in (era * 146097 + doe - 719468) * 86400

unfoldable pub monthly_period : ℕ → ℕ × ℕ
unfolding year_month month_start
monthly_period now =
    let (year, month) = year_month now in
    (
      month_start year month,
      month_start (if month == 12 then year + 1 else year) (if month == 12 then 1 else month + 1),
    )

-- 2024-02-29 12:00 lies in the month of 29 days.
leap_february : monthly_period 1709208000 ≡ (1706745600, 1709251200)
unfolding monthly_period
leap_february = refl

new_year : monthly_period 1767225599 ≡ (1764547200, 1767225600)
unfolding monthly_period
new_year = refl
