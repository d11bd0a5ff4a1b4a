-- ===== src/Store/Flags.antt =====
-- flagStore.hpp and flagStore.cpp. The atomic pointer and the atomic flag are fields; a null pointer
-- is `none`.
use unleash_cpp_sdk.Base.{Bool, List, Option, [], false, none, refl, some, true, ◌∷◌, ◌≡◌}
use unleash_cpp_sdk.Domain.Toggles.{ToggleSet, empty_set}

pub record FlagStore : Type 0 where
  pub current : ToggleSet
  pub ready : Bool

abbrev pub empty_store : FlagStore
empty_store = record { current = empty_set; ready = false }

unfoldable pub snapshot : FlagStore → ToggleSet
snapshot s = s.current

unfoldable pub replace : Option ToggleSet → FlagStore → FlagStore
replace none s = s
replace (some t) s = record { current = t; ready = true }

unfoldable pub is_ready : FlagStore → Bool
is_ready s = s.ready

unfoldable pub replace_all : List (Option ToggleSet) → FlagStore → FlagStore
unfolding replace
replace_all [] s = s
replace_all (o ∷ os) s = replace_all os (replace o s)

-- The last set of a list of pointers, of which some are null.
unfoldable pub last_set : List (Option ToggleSet) → Option ToggleSet → Option ToggleSet
last_set [] last = last
last_set (none ∷ os) last = last_set os last
last_set (some t ∷ os) last = last_set os (some t)

-- What a store shows once `last` is the last set that it was given.
unfoldable pub shows : Option ToggleSet → FlagStore
shows none = empty_store
shows (some t) = record { current = t; ready = true }

replace_all-from :
    (os : List (Option ToggleSet)) (last : Option ToggleSet)
    → replace_all os (shows last) ≡ shows (last_set os last)
unfolding replace_all shows last_set
replace_all-from [] last = refl
replace_all-from (none ∷ os) last = replace_all-from os last
replace_all-from (some t ∷ os) last = replace_all-from os (some t)

-- After any sequence of replacements a new store holds the last set that was not null, and is ready
-- exactly if there was one; before that it holds no toggle.
pub replace_all-shows :
    (os : List (Option ToggleSet)) → replace_all os empty_store ≡ shows (last_set os none)
replace_all-shows os = unfold shows in replace_all-from os none
