-- ===== src/Code/Timestamp.antt =====
-- src/oidc/code/timestamp.rs. A `SystemTime` is the number of nanoseconds since the earliest one,
-- a `Duration` a number of nanoseconds; each reading of the clock is an argument.
pub mod Fresh
use openid_tls_connector.Common.{
  ℕ, ◌-◌, Bool, false, Option, none, some, Result, ok, err, ltb, leb, if◌then◌else◌,
}

abbrev pub SystemTime : Type 0
SystemTime = ℕ

abbrev pub Duration : Type 0
Duration = ℕ

-- `now.duration_since(earlier)`
abbrev pub duration_since : SystemTime → SystemTime → Option Duration
duration_since now earlier = if leb earlier now then some (now - earlier) else none

pub data TimestampError : Type 0 where
  not_fresh : TimestampError

pub record TimestampedContainer {ℓ} (T : Type ℓ) : Type ℓ where
  pub content : T
  pub timestamp : SystemTime

module _ {ℓ} {T : Type ℓ} where
  unfoldable pub new : SystemTime → T → TimestampedContainer T
  new now content = record { content = content; timestamp = now }

  unfoldable pub extract : SystemTime → TimestampedContainer T → Duration → Result TimestampError T
  extract now c max_age =
      let fresh : Bool = elim (duration_since now c.timestamp) [
        | none ↦ false
        | some elapsed ↦ ltb elapsed max_age
      ] in
      if fresh then ok c.content else err not_fresh
