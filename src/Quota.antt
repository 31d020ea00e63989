-- ===== src/Quota.antt =====
-- web/src/state/quota.ts: what the client knows of the server's request budget. Times are milliseconds.
pub mod Banner
pub mod Cooldown
mod Tests
use fusion_on_prem_server.Base.{
  ℕ, ◌+◌, ◌-◌, max, String, Bool, true, false, ◌&&◌, ◌||◌, not, Option, none, some, List, [], ◌∷◌,
  if◌then◌else◌, str_eq, ◌==◌, ltb, or_else,
}
use fusion_on_prem_server.Base.Int.{ℤ, pos, negsuc}

pub data ThrottleLevel : Type 0 where
  ok slow cooldown : ThrottleLevel

pub record Queued : Type 0 where
  pub p0 : ℕ
  pub p1 : ℕ
  pub p2 : ℕ

pub record QuotaStatus : Type 0 where
  pub level : ThrottleLevel
  pub throttled : Bool
  pub cooldown_until : Option String
  pub rest_cooldown_until : Option String
  pub retry_after_ms : ℕ
  pub capacity : ℕ
  pub available : ℕ
  pub points_used_last_minute : ℕ
  pub in_flight : ℕ
  pub queued : Queued
  pub refused : ℕ
  pub trips : ℕ
  pub enabled : Bool

pub record QuotaState : Type 0 where
  pub level : ThrottleLevel
  pub level_at : ℕ
  pub until_ms : ℕ
  pub last_rate_limited_at : ℕ
  pub retry_after_ms : ℕ
  pub server : Option QuotaStatus

abbrev pub hot_window_ms : ℕ
hot_window_ms = 60000

abbrev pub initial : QuotaState
initial = record {
  level = ok;
  level_at = 0;
  until_ms = 0;
  last_rate_limited_at = 0;
  retry_after_ms = 0;
  server = none;
}

abbrev pub level_of : String → Option ThrottleLevel
level_of s =
    if str_eq s "ok"
    then some ok
    else if str_eq s "slow"
    then some slow
    else if str_eq s "cooldown"
    then some cooldown
    else none

abbrev pub is_ok : ThrottleLevel → Bool
is_ok ok = true
is_ok _ = false

abbrev pub eq_level : ThrottleLevel → ThrottleLevel → Bool
eq_level ok ok = true
eq_level slow slow = true
eq_level cooldown cooldown = true
eq_level _ _ = false

-- From a level that the header may have on.
unfoldable pub apply_level : ThrottleLevel → Option ℕ → ℕ → QuotaState → QuotaState
apply_level level until_ms now state =
    let until = if is_ok level then 0 else or_else until_ms state.until_ms in
    if eq_level level state.level && until == state.until_ms && ltb now (state.level_at + 1000)
    then state
    else record state { level = level; level_at = now; until_ms = until }

abbrev pub apply_found : Option ThrottleLevel → Option ℕ → ℕ → QuotaState → QuotaState
apply_found none until_ms now state = state
apply_found (some level) until_ms now state = apply_level level until_ms now state

abbrev pub header_level : Option String → Option ThrottleLevel
header_level none = none
header_level (some s) = level_of s

unfoldable pub apply_header : Option String → Option ℕ → ℕ → QuotaState → QuotaState
apply_header level until_ms now state = apply_found (header_level level) until_ms now state

-- `retryAfterMs && retryAfterMs > 0 ? retryAfterMs : 0`
abbrev pub wait_of : Option ℤ → ℕ
wait_of none = 0
wait_of (some (pos n)) = n
wait_of (some (negsuc n)) = 0

unfoldable pub report_rate_limited : Option ℤ → ℕ → QuotaState → QuotaState
report_rate_limited retry_after_ms now state = record state {
  last_rate_limited_at = now;
  retry_after_ms = wait_of retry_after_ms;
  level = if is_ok state.level then slow else state.level;
  level_at = if is_ok state.level then now else state.level_at;
}

abbrev pub is_given : Option String → Bool
is_given none = false
is_given (some s) = not (str_eq s "")

-- `Date.parse`, `none` for NaN, of a string that is given.
abbrev pub parsed : (String → Option ℕ) → Option String → ℕ
parsed parse none = 0
parsed parse (some s) = or_else (parse s) 0

unfoldable pub apply_server_status : (String → Option ℕ) → QuotaStatus → ℕ → QuotaState → QuotaState
apply_server_status parse s now state = record state {
  server = some s;
  level = s.level;
  level_at = now;
  until_ms =
      if is_given s.cooldown_until
      then parsed parse s.cooldown_until
      else if is_given s.rest_cooldown_until
      then parsed parse s.rest_cooldown_until
      else 0;
}

unfoldable pub is_hot : QuotaState → ℕ → Bool
is_hot s now =
    not (is_ok s.level)
    || ltb 0 s.last_rate_limited_at && ltb now (s.last_rate_limited_at + hot_window_ms)

unfoldable pub cooldown_remaining_ms : QuotaState → ℕ → ℕ
cooldown_remaining_ms s now =
    let client_end =
      if ltb 0 s.last_rate_limited_at && ltb 0 s.retry_after_ms
      then s.last_rate_limited_at + s.retry_after_ms
      else 0 in
    let end = max s.until_ms client_end in if ltb now end then end - now else 0
