-- ===== src/Client/State/Cache.antt =====
-- What the constructor and `start` do with stored and bootstrap toggles.
use unleash_cpp_sdk.Base.{
  Bool, Dict, Option, Text, [], arith, false, if◌then◌else◌, is_some, length, ltb, none, refl, some,
  true, ℤ, ◌&&◌, ◌||◌, ◌∙◌, ◌∷◌, ◌≡◌,
}
use unleash_cpp_sdk.Domain.Variant.{Toggle}
use unleash_cpp_sdk.Client.State.{
  Client, bootstrap_of, initialize_toggle_cache, load_bootstrap, load_cache, make_client,
  new_client, start_client,
}
use unleash_cpp_sdk.Config.{ClientConfig}
use unleash_cpp_sdk.Domain.Toggles.{ToggleSet, from_map}
use unleash_cpp_sdk.Domain.Context.{Context}
use unleash_cpp_sdk.Events as Handlers
use unleash_cpp_sdk.Events.{emit}
use unleash_cpp_sdk.Store.Flags.{empty_store, is_ready, replace, snapshot}

-- The stored toggles, if there are any.
unfoldable pub stored : Option ToggleSet → Option ToggleSet
stored none = none
stored (some s) = if ltb 0 (length s.toggles) then some s else none

unfoldable pub first_of_two {ℓ} : {A : Type ℓ} → Option A → Option A → Option A
first_of_two none o = o
first_of_two (some a) o = some a

abbrev pub save_if {ℓ} : {A : Type ℓ} {W : Type 0} → Option A → (A → W → W) → W → W
save_if none save w = w
save_if (some a) save w = save a w

-- A bootstrap that may override and has a toggle.
usable : Bool → Option (Dict Toggle) → Option ToggleSet
usable override none = none
usable override (some m) =
    if override && ltb 0 (length m) then some (record { toggles = m }) else none

unfoldable pub usable_bootstrap : {W : Type 0} → ClientConfig W → Option ToggleSet
unfolding usable
usable_bootstrap c = usable c.bootstrap_override c.bootstrap

bootstrap_of-usable :
    (override : Bool) (b : Option (Dict Toggle)) → bootstrap_of override b ≡ usable override b
unfolding bootstrap_of usable from_map
bootstrap_of-usable override none = refl
bootstrap_of-usable override (some []) = ground arith
bootstrap_of-usable override (some (e ∷ m)) = ground arith

module _ {W : Type 0} where
  load_cache-lem :
      (o b : Option ToggleSet) (c : Client W)
      → ((load_cache o b (load_bootstrap b c)).flag_store
          ≡ replace (first_of_two (stored o) b) c.flag_store)
        × ((load_cache o b (load_bootstrap b c)).world ≡ (
            if is_some (stored o)
            then c.world
            else save_if b c.config.storage_provider.save c.world))
  unfolding load_cache load_bootstrap stored first_of_two replace
  load_cache-lem none none c = ground arith
  load_cache-lem none (some b) c = ground arith
  load_cache-lem (some s) none c = ground arith
  load_cache-lem (some s) (some b) c = ground arith

  cache-lem :
      (b : Option ToggleSet) (c : Client W)
      → let c' = load_bootstrap b c in
        let o = c'.config.storage_provider.get c'.world in
        let cached = stored (c.config.storage_provider.get c.world) in
        ((load_cache o b c').flag_store ≡ replace (first_of_two cached b) c.flag_store)
        × ((load_cache o b c').world ≡ (
            if is_some cached then c.world else save_if b c.config.storage_provider.save c.world))
  cache-lem none c =
      unfold load_bootstrap in load_cache-lem (c.config.storage_provider.get c.world) none c
  cache-lem (some b) c =
      unfold load_bootstrap in load_cache-lem (c.config.storage_provider.get c.world) (some b) c

  -- The cache that the constructor sets up holds the stored toggles if there are any, else the
  -- bootstrap if it may override and is not empty, else what it held; it is ready if one of the two
  -- was there. The bootstrap is saved exactly if it is used and nothing is stored.
  pub initialize_toggle_cache_lem :
      (c : Client W)
      → let cached = stored (c.config.storage_provider.get c.world) in
        let boot = usable_bootstrap c.config in
        ((initialize_toggle_cache c).flag_store ≡ replace (first_of_two cached boot) c.flag_store)
        × ((initialize_toggle_cache c).world ≡ (
            if is_some cached
            then c.world
            else save_if boot c.config.storage_provider.save c.world))
  unfolding initialize_toggle_cache usable_bootstrap
  initialize_toggle_cache_lem c =
      rw (bootstrap_of-usable c.config.bootstrap_override c.config.bootstrap)
        (cache-lem (usable c.config.bootstrap_override c.config.bootstrap) c)

  -- Starting a client that does not run, with an event handler that is not started, queues no event
  -- at all, whatever callbacks are registered: neither the init event nor, with a cache that is ready, the ready event. It does mark
  -- the client ready if its cache is.
  pub start_client_silent :
      (c : Client W)
      → c.running ≡ false
      → c.event_handler.started ≡ false
      → ((start_client c).event_handler ≡ Handlers.start c.event_handler)
        × ((start_client c).ready ≡ (c.ready || is_ready c.flag_store))
        × ((start_client c).running ≡ true)
  unfolding start_client emit Handlers.start
  start_client_silent c r s = ground arith

module _ {W : Type 0} where
  pub make_client-stored :
      (version : Text) (now : ℤ) (config : ClientConfig W) (ctx : Context) (world : W)
      (s : ToggleSet)
      → config.storage_provider.get world ≡ some s
      → ltb 0 (length s.toggles) ≡ true
      → (make_client version now config ctx world).flag_store ≡ replace (some s) empty_store
  unfolding make_client new_client stored first_of_two replace
  make_client-stored version now config ctx world s e n =
      (initialize_toggle_cache_lem (new_client version now config ctx world)).0
      ∙ rw (e, stored) (rw (n, first_of_two))

  pub start_client-snapshot :
      (c : Client W) → snapshot (start_client c).flag_store ≡ snapshot c.flag_store
  unfolding start_client
  start_client-snapshot c = ground arith
