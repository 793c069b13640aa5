-- ===== src/Expiry.antt =====
-- The pattern that the stores of internal/server/store.go share: a map whose values expire, where a
-- load deletes an expired entry and a background loop deletes all of them.
pub mod Laws
pub mod Refines
use oauth_2_0_and_open_id_co.Base.{String, Bool, not, Option, none, some, if◌then◌else◌}
use oauth_2_0_and_open_id_co.Dict
use oauth_2_0_and_open_id_co.Dict.{Dict}
use oauth_2_0_and_open_id_co.Time.{Time, after}

module _ {ℓ} {V : Type ℓ} (expires_at : V → Time) where
  fetch_loaded : Time → Dict V → String → Option V → Option V × Dict V
  fetch_loaded now d key none = (none, d)
  fetch_loaded now d key (some v) =
      if after now (expires_at v) then (none, Dict.delete d key) else (some v, d)

  -- v, ok := m.Load(key), with the expired entry deleted
  unfoldable pub fetch : Time → Dict V → String → Option V × Dict V
  unfolding fetch_loaded
  fetch now d key = fetch_loaded now d key (Dict.get d key)

  -- One round of the clean-up loop.
  unfoldable pub sweep : Time → Dict V → Dict V
  sweep now d = Dict.retain (λ v. not (after now (expires_at v))) d
