-- ===== src/Code/Timestamp/Fresh.antt =====
-- When a timestamped container opens.
use openid_tls_connector.Common.{◌+◌, ◌≤◌, ◌<◌, ◌≡◌, ◌↔◌, ok, arith}
use openid_tls_connector.Code.Timestamp.{SystemTime, Duration, TimestampedContainer, extract}

module _ {ℓ} {T : Type ℓ} where
  -- A container opens, and gives its content, exactly from its timestamp on and strictly before
  -- `max_age` has passed: not before the timestamp, and not at the end of the age.
  pub extract_iff :
      (now : SystemTime) (c : TimestampedContainer T) (max_age : Duration) (t : T)
      → (extract now c max_age ≡ ok t)
        ↔ ((c.timestamp ≤ now) × (now < c.timestamp + max_age) × (c.content ≡ t))
  unfolding extract
  extract_iff now c max_age t = (λ h. (ground arith, ground arith, ground arith), λ h. ground arith)
