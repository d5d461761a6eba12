-- ===== src/Analytics/Examples.antt =====
-- The theorem on filters at a concrete filter.
use rago_desk.Base.{[], pos}
use rago_desk.Analytics.Filters.{AnalyticsFilter, normalize_filter}
use rago_desk.Analytics.Windows.{IsRunnable, normalize_filter-IsRunnable}

abbrev backwards : AnalyticsFilter
backwards = record { bot_id = []; start = 9; end = 5; limit = pos 0 }

normalize_filter-IsRunnable_example : IsRunnable (normalize_filter 100 backwards 7)
normalize_filter-IsRunnable_example = normalize_filter-IsRunnable 100 7 backwards

abbrev forwards : AnalyticsFilter
forwards = record backwards { start = 5; end = 9 }
