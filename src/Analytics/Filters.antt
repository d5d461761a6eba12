-- ===== src/Analytics/Filters.antt =====
-- The filters of apps/server/internal/analytics/biz/analytics.go.
use rago_desk.Base.{
  ℕ, ◌-◌, not, ◌&&◌, ◌||◌, ltb, ◌==◌, nat_eq, if◌then◌else◌, Text, ℤ, pos, ltℤ, leℤ,
}

-- A time is 0 where Go's is zero.
pub record AnalyticsFilter : Type 0 where
  pub bot_id : Text
  pub start : ℕ
  pub end : ℕ
  pub limit : ℤ

abbrev pub default_analytics_window : ℕ
default_analytics_window = 604800000000000

-- `end = now`, `start = now - window` where neither is set; the clock stands more than the window
-- after the zero time.
unfoldable pub fill_window : ℕ → ℕ → AnalyticsFilter → AnalyticsFilter
fill_window now window f =
    if ltb 0 window && f.start == 0 && f.end == 0
    then record f { start = now - window; end = now }
    else f

unfoldable pub swap_window : AnalyticsFilter → AnalyticsFilter
swap_window f =
    if not (f.start == 0) && not (f.end == 0) && ltb f.end f.start
    then record f { start = f.end; end = f.start }
    else f

unfoldable pub normalize_filter : ℕ → AnalyticsFilter → ℕ → AnalyticsFilter
normalize_filter now f window =
    let limit = if leℤ f.limit (pos 0) || ltℤ (pos 100) f.limit then pos 100 else f.limit in
    swap_window (fill_window now window (record f { limit = limit }))
