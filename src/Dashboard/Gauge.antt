-- ===== src/Dashboard/Gauge.antt =====
-- src/tui.rs: `render_memory`, the percentage of the gauge and its label.
use aerugo_cache.Prelude.Ascii.{codes}
use aerugo_cache.Dashboard.Format.{format_bytes}
use Prim.Native.Nat.{min}
use aerugo_cache.Text.Float.{f64_round, f64_ratio, as_f64, show_tenths, tiny}
use aerugo_cache.Dashboard.{DashboardStats}
use aerugo_cache.Prelude.{zero, suc, none, some, arith, ℕ, ◌≤◌, Bytes, Option, ◌++◌, ◌*◌}

-- `(estimated as f64 / max as f64 * 100.0).clamp(0.0, 100.0)`, as a number of tiny units.
unfoldable pub percent_of : ℕ → ℕ → ℕ
percent_of estimated max_memory =
    min (f64_ratio (100 * f64_ratio (as_f64 estimated) (as_f64 max_memory)) tiny) (100 * tiny)

unfoldable pub unbounded_label : ℕ → Bytes
unbounded_label estimated = format_bytes estimated ++ codes " / unbounded"

unfoldable pub limit_label : ℕ → ℕ → Bytes
limit_label estimated max_memory =
    format_bytes estimated
    ++ (codes " / "
        ++ (format_bytes max_memory
            ++ (codes " (" ++ (show_tenths (percent_of estimated max_memory) tiny ++ codes "%)"))))

-- The percentage of the gauge, and its label.
unfoldable pub gauge_of : ℕ → Option ℕ → ℕ × Bytes
gauge_of estimated none = (0, unbounded_label estimated)
gauge_of estimated (some zero) = (0, unbounded_label estimated)
gauge_of estimated (some (suc n)) =
    (f64_round (percent_of estimated (suc n)), limit_label estimated (suc n))

unfoldable pub render_memory : DashboardStats → ℕ × Bytes
render_memory stats = gauge_of stats.estimated_memory_bytes stats.max_memory_bytes

gauge_of-le : (estimated : ℕ) (limit : Option ℕ) → (gauge_of estimated limit).0 ≤ 100
unfolding gauge_of f64_round percent_of
gauge_of-le estimated none = omega arith
gauge_of-le estimated (some zero) = omega arith
gauge_of-le estimated (some (suc n)) = omega arith

-- The gauge is given a percentage that it takes, 100 at most.
pub render_memory-le : (stats : DashboardStats) → (render_memory stats).0 ≤ 100
unfolding render_memory
render_memory-le stats = gauge_of-le stats.estimated_memory_bytes stats.max_memory_bytes
