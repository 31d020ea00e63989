-- ===== src/Quota/Cooldown.antt =====
-- The countdown of web/src/state/quota.ts.
use fusion_on_prem_server.Base.{ℕ, ◌+◌, ◌-◌, ◌≤◌, ◌≡◌, Option, some, arith, ◌&&◌, ltb}
use fusion_on_prem_server.Quota.{
  QuotaState, hot_window_ms, apply_level, apply_header, is_hot, cooldown_remaining_ms,
}

-- The countdown loses a millisecond with each that passes, and stays at 0.
pub cooldown_remaining_ms_lem :
    (s : QuotaState) (now t : ℕ)
    → cooldown_remaining_ms s (now + t) ≡ cooldown_remaining_ms s now - t
unfolding cooldown_remaining_ms
cooldown_remaining_ms_lem s now t = ground arith

-- After a header "ok" the banner shows only for a 429 of the last minute, and the countdown only for
-- the wait that a 429 asked for.
pub apply_header-ok :
    (u : Option ℕ) (at now : ℕ) (s : QuotaState)
    → (is_hot (apply_header (some "ok") u at s) now
        ≡ (ltb 0 s.last_rate_limited_at && ltb now (s.last_rate_limited_at + hot_window_ms)))
      × (cooldown_remaining_ms (apply_header (some "ok") u at s) now
          ≤ s.last_rate_limited_at + s.retry_after_ms - now)
unfolding apply_header apply_level is_hot cooldown_remaining_ms
apply_header-ok u at now s = ground arith
