-- ===== src/Quota/Tests.antt =====
-- Runs of the modelled code of web/src/state/quota.ts, and each theorem at an input of its own.
use fusion_on_prem_server.Base.{ℕ, String, ◌≡◌, refl, true, Option, none, some, [], ◌∷◌, arith}
use fusion_on_prem_server.Base.Int.{pos}
use fusion_on_prem_server.Quota.{
  QuotaState, initial, report_rate_limited, is_hot, cooldown_remaining_ms,
}
use fusion_on_prem_server.Quota.Banner.{header, run, run-is_hot}

abbrev no_dates : String → Option ℕ
no_dates s = none

abbrev limited : QuotaState
limited = record initial { last_rate_limited_at = 1000; retry_after_ms = 5000 }

counts_down : cooldown_remaining_ms limited 4000 ≡ 2000
unfolding cooldown_remaining_ms
counts_down = refl

run-is_hot_example :
    is_hot
      (run no_dates
        (header (some "ok") none 2000 ∷ [])
        (report_rate_limited (some (pos 5000)) 1000 initial))
      60000
    ≡ true
run-is_hot_example =
    run-is_hot no_dates (some (pos 5000)) 1000 60000 (header (some "ok") none 2000 ∷ []) initial
      (omega arith) (omega arith, tt) (omega arith)
