-- ===== src/App/Service/Limits.antt =====
-- The limits of internal/app.
use tuskbase.Common.{ℕ, ◌≤◌, ◌<◌, ◌≡◌, arith}
use tuskbase.App.Service.{default_limit, stats_scan_limit, context_limit, bounded_limit}

-- The limit of a context lies from 1 to 10 and is the given one where that lies there; a bounded
-- limit lies from 1 to 1000 and is the given one where that lies there, if its fallback is not
-- zero.
pub limits :
    (limit fallback : ℕ)
    → 0 < fallback
    → (0 < context_limit limit)
      × (context_limit limit ≤ default_limit)
      × (0 < limit → limit ≤ default_limit → context_limit limit ≡ limit)
      × (0 < bounded_limit limit fallback)
      × (bounded_limit limit fallback ≤ stats_scan_limit)
      × (0 < limit → limit ≤ stats_scan_limit → bounded_limit limit fallback ≡ limit)
unfolding context_limit bounded_limit
limits limit fallback h = (
  ground arith,
  ground arith,
  λ p q. ground arith,
  ground arith,
  ground arith,
  λ p q. ground arith,
)
