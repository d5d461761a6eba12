-- ===== src/Analytics/Windows.antt =====
-- What the queries of the repository are given.
use rago_desk.Base.{ℕ, ◌≡◌, true, false, not, ◌||◌, ltb, ◌==◌, nat_eq, pos, ltℤ, leℤ, arith}
use rago_desk.Analytics.Filters.{AnalyticsFilter, fill_window, swap_window, normalize_filter}

-- The window is in order, and the limit is between 1 and 100.
pub record IsRunnable (f : AnalyticsFilter) : Type 0 where
  pub ordered : (f.end == 0 || not (ltb f.end f.start)) ≡ true
  pub positive : leℤ f.limit (pos 0) ≡ false
  pub bounded : ltℤ (pos 100) f.limit ≡ false

-- Whatever the filter: once normalised its limit is between 1 and 100, and its end, if it is set, is
-- not before its start.
pub normalize_filter-IsRunnable :
    (now window : ℕ) (f : AnalyticsFilter) → IsRunnable (normalize_filter now f window)
unfolding normalize_filter fill_window swap_window
normalize_filter-IsRunnable now window f = record {
  ordered = ground arith;
  positive = ground arith;
  bounded = ground arith;
}

-- A window whose start is set and whose end is not before it is kept as it is.
pub normalize_filter-keeps_window :
    (now window : ℕ) (f : AnalyticsFilter)
    → (f.start == 0 || ltb f.end f.start) ≡ false
    → ((normalize_filter now f window).start ≡ f.start)
      × ((normalize_filter now f window).end ≡ f.end)
unfolding normalize_filter fill_window swap_window
normalize_filter-keeps_window now window f h = (ground arith, ground arith)
