-- ===== src/Quota/Window/Retry.antt =====
-- What the Retry-After of Quota/Window promises a client.
use daiki_aipass_backend.Prelude.{ℕ, ◌+◌, ◌-◌, ◌*◌, ◌≤◌, ◌<◌, none, some, ◌≡◌, refl, arith}
use daiki_aipass_backend.Quota.Window.{second, quota_retry_after_seconds}

-- A client that waits the seconds of the Retry-After finds the limit reset, and the seconds are the
-- fewest that do, but at least one; a limit without a reset gives none.
pub quota_retry_after_seconds-least :
    (reset now : ℕ)
    → (reset ≤ now + quota_retry_after_seconds (some reset) now * second)
      × (1 ≤ quota_retry_after_seconds (some reset) now)
      × (1 < quota_retry_after_seconds (some reset) now
          → now + (quota_retry_after_seconds (some reset) now - 1) * second < reset)
      × (quota_retry_after_seconds none now ≡ 0)
unfolding quota_retry_after_seconds
quota_retry_after_seconds-least reset now = (ground arith, ground arith, λ h. ground arith, refl)
