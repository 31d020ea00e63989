-- ===== src/Quota/Banner.antt =====
-- When the banner of web/src/state/quota.ts shows.
use fusion_on_prem_server.Base.{
  ℕ, ◌+◌, ◌≤◌, ◌<◌, String, ◌≡◌, refl, true, Option, none, some, List, [], ◌∷◌, arith, All,
}
use fusion_on_prem_server.Base.Int.{ℤ}
use fusion_on_prem_server.Quota.{
  ThrottleLevel, QuotaStatus, QuotaState, hot_window_ms, apply_level, apply_header, apply_found,
  header_level, report_rate_limited, apply_server_status, is_hot,
}

-- What the client learns, and when.
pub data Event : Type 0 where
  header : Option String → Option ℕ → ℕ → Event
  rate_limited : Option ℤ → ℕ → Event
  status : QuotaStatus → ℕ → Event

abbrev pub time_of : Event → ℕ
time_of (header level until_ms now) = now
time_of (rate_limited retry now) = now
time_of (status s now) = now

module _ (parse : String → Option ℕ) where
  unfoldable pub handle : Event → QuotaState → QuotaState
  handle (header level until_ms now) state = apply_header level until_ms now state
  handle (rate_limited retry now) state = report_rate_limited retry now state
  handle (status s now) state = apply_server_status parse s now state

  unfoldable pub run : List Event → QuotaState → QuotaState
  run [] state = state
  run (e ∷ events) state = run events (handle e state)

  apply_found-last :
      (l : Option ThrottleLevel) (u : Option ℕ) (now : ℕ) (s : QuotaState)
      → (apply_found l u now s).last_rate_limited_at ≡ s.last_rate_limited_at
  unfolding apply_level
  apply_found-last none u now s = refl
  apply_found-last (some l) u now s = ground arith

  handle-last :
      (e : Event) (s : QuotaState) (since : ℕ)
      → since ≤ s.last_rate_limited_at
      → since ≤ time_of e
      → since ≤ (handle e s).last_rate_limited_at
  unfolding handle apply_header report_rate_limited apply_server_status
  handle-last (header level u now) s since h later =
      omega (arith, apply_found-last (header_level level) u now s)
  handle-last (rate_limited retry now) s since h later = later
  handle-last (status st now) s since h later = h

  run-last :
      (events : List Event) (s : QuotaState) (since : ℕ)
      → since ≤ s.last_rate_limited_at
      → All (λ e. since ≤ time_of e) events
      → since ≤ (run events s).last_rate_limited_at
  unfolding run
  run-last [] s since h later = h
  run-last (e ∷ events) s since h (now, later) =
      run-last events (handle e s) since (handle-last e s since h now) later

  -- Once the client saw a 429, at a time after 0, the banner shows for a minute, whatever the
  -- server says and whatever other 429 the client sees meanwhile.
  pub run-is_hot :
      (retry : Option ℤ) (since now : ℕ) (events : List Event) (s : QuotaState)
      → 0 < since
      → All (λ e. since ≤ time_of e) events
      → now < since + hot_window_ms
      → is_hot (run events (report_rate_limited retry since s)) now ≡ true
  unfolding is_hot report_rate_limited
  run-is_hot retry since now events s given later soon =
      let last = run-last events (report_rate_limited retry since s) since (omega arith) later in
      ground arith
