-- ===== src/Config/Validity.antt =====
-- The configuration's checks, and its storage provider.
use unleash_cpp_sdk.Base.{arith, false, is_empty, neg_part, true, ℤ, ◌↔◌, ◌≡◌}
use unleash_cpp_sdk.Config.{ClientConfig, is_valid}

abbrev IsNonNegative : ℤ → Type 0
IsNonNegative s = neg_part s ≡ 0

module _ {W : Type 0} where
  -- A configuration is valid exactly if the URL and the client key are not empty and none of the three
  -- intervals is negative.
  pub is_valid_iff :
      (c : ClientConfig W)
      → (is_valid c ≡ true) ↔ (
          (is_empty c.url ≡ false)
          × (is_empty c.client_key ≡ false)
          × (neg_part c.refresh_interval ≡ 0)
          × (neg_part c.metrics_interval ≡ 0)
          × (neg_part c.metrics_interval_initial ≡ 0))
  unfolding is_valid
  is_valid_iff c = ground arith
