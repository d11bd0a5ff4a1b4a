-- ===== src/Client/Evaluate/Sound.antt =====
-- The evaluations keep the flags of the client together.
use unleash_cpp_sdk.Base.{Bool, Text, arith, false, if◌then◌else◌, not, true}
use unleash_cpp_sdk.Client.State.{Client}
use unleash_cpp_sdk.Client.State.Sound.{IsSound, emit-started}
use unleash_cpp_sdk.Client.Evaluate as Evaluate
use unleash_cpp_sdk.Client.Evaluate.{count_report, emit_impression}
use unleash_cpp_sdk.Domain.Variant.{disabled_factory}
use unleash_cpp_sdk.Domain.Toggles as Toggles
use unleash_cpp_sdk.Events.{ClientImpression, impression}
use unleash_cpp_sdk.Metrics.MetricList as Reports
use unleash_cpp_sdk.Store.Flags.{snapshot}

module _ {W : Type 0} where
  emit_impression-IsSound :
      (wanted : Bool) (e : ClientImpression) (r : Reports.Report) (c : Client W)
      → IsSound c
      → IsSound (emit_impression wanted e (count_report r c))
  unfolding emit_impression count_report
  emit_impression-IsSound wanted e r c s = record {
    loops = ground (arith, s.loops);
    handler = ground (arith, s.handler, emit-started (impression e) c.event_handler);
    exits = ground (arith, s.exits);
    snapshot = ground (arith, s.snapshot);
  }

  guarded-IsSound :
      {B : Type 0} (a b : Bool) (c c' : Client W) (x y : B)
      → IsSound c
      → IsSound c'
      → IsSound
          (if◌then◌else◌ {A = Client W × B} (not a) (c, x) (if not b then (c, x) else (c', y))).0
  guarded-IsSound true true c c' x y s s' = s'
  guarded-IsSound true false c c' x y s s' = s
  guarded-IsSound false b c c' x y s s' = s

  pub is_enabled-IsSound :
      (name : Text) (c : Client W) → IsSound c → IsSound (Evaluate.is_enabled name c).0
  unfolding Evaluate.is_enabled
  is_enabled-IsSound name c s =
      guarded-IsSound c.ready (Toggles.contains name (snapshot c.flag_store)) c _ false _ s
        (emit_impression-IsSound _ _ _ c s)

  pub get_variant-IsSound :
      (name : Text) (c : Client W) → IsSound c → IsSound (Evaluate.get_variant name c).0
  unfolding Evaluate.get_variant
  get_variant-IsSound name c s =
      guarded-IsSound c.ready (Toggles.contains name (snapshot c.flag_store)) c _ disabled_factory _
        s (emit_impression-IsSound _ _ _ c s)
