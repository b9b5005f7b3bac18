-- ===== src/Chart/Tests.antt =====
-- Dashboard.tsx: a "24h" chart of natural numbers, and a trade of 23 hours and 30 minutes ago that it leaves out.
use pumpy_v.Common.{ℕ, ◌+◌, some}
use pumpy_v.Chart.{Trade, Clock}

abbrev clock : Clock ℕ
clock = record { zero_ = 0; plus = ◌+◌; hour_label = λ ms. "00:00"; day_of = λ ms. "1/1/1970" }

-- Half past midnight of the fourth day of the epoch.
abbrev half_past : ℕ
half_past = 259200000 + 1800000

abbrev recent : Trade ℕ
recent = record { created_at = some 259200000; pnl_sol = some 5 }

-- 23 hours and 45 minutes before.
abbrev late : Trade ℕ
late = record { created_at = some 175500000; pnl_sol = some 7 }
