-- ===== src/Store/Provider.antt =====
-- `IStorageProvider` and `LocalStorageProvider` of storageProvider.hpp. An implementation reads and
-- writes a state of type `W`.
use unleash_cpp_sdk.Base.{Option, none}
use unleash_cpp_sdk.Domain.Toggles.{ToggleSet}

pub record Provider (W : Type 0) : Type 0 where
  pub get : W → Option ToggleSet
  pub save : ToggleSet → W → W

unfoldable pub local_provider : {W : Type 0} → Provider W
local_provider = record { get = λ w. none; save = λ t w. w }
