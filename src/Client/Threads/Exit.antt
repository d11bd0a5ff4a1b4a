-- ===== src/Client/Threads/Exit.antt =====
-- The end of the two loops.
use unleash_cpp_sdk.Client.Threads.{
  MetricWake, PollWake, feature_polling_loop, metric_rounds, metric_sending_loop, polling_rounds,
  single_fetch_toggles, wait_and_maybe_send,
}
use unleash_cpp_sdk.Transport.Messages.{ComResponse, HttpRequest}
use unleash_cpp_sdk.Base.{
  Bool, Bool-cases, List, Option, Option-cases, Text, [], false, inl, inr, none, refl, some, sym,
  true, ℤ, ◌++◌, ◌∙◌, ◌∷◌, ◌≡◌,
}
use unleash_cpp_sdk.Client.State.{Client}
use unleash_cpp_sdk.Json.Library.{Library}

module _ {W : Type 0} (l : Library) where
  polling_rounds-exit :
      (ws rest : List PollWake) (w : PollWake) (c : Client W)
      → w.exit ≡ true
      → polling_rounds l (ws ++ w ∷ rest) c ≡ polling_rounds l (ws ++ w ∷ []) c
  unfolding polling_rounds
  polling_rounds-exit [] rest w c h = rw h
  polling_rounds-exit (v ∷ ws) rest w c h = elim (Bool-cases v.exit) [
    | inl x ↦ rw x
    | inr x ↦
        rw x
          (elim (Option-cases
            (single_fetch_toggles l v.client c.context (record c { context_updated = false }))) [
              | inl e ↦ rw e
              | inr (d, e) ↦ rw e (polling_rounds-exit ws rest w d h)
            ])
  ]

  -- What the metrics thread does after a round.
  next_round : (ℤ → Text) → List MetricWake → Option (Client W × Bool) → Option (Client W)
  next_round utc ws none = none
  next_round utc ws (some (c, true)) = metric_rounds l utc ws c
  next_round utc ws (some (c, false)) = some c

  metric_rounds-cons :
      (utc : ℤ → Text) (w : MetricWake) (ws : List MetricWake) (c : Client W)
      → metric_rounds l utc (w ∷ ws) c ≡ next_round utc ws (wait_and_maybe_send l utc w c)
  unfolding metric_rounds next_round
  metric_rounds-cons utc w ws c = refl

  next_round-same :
      (utc : ℤ → Text) (ws vs : List MetricWake) (o : Option (Client W × Bool))
      → ((c : Client W) → metric_rounds l utc ws c ≡ metric_rounds l utc vs c)
      → next_round utc ws o ≡ next_round utc vs o
  unfolding next_round
  next_round-same utc ws vs none same = refl
  next_round-same utc ws vs (some (c, true)) same = same c
  next_round-same utc ws vs (some (c, false)) same = refl

  metric_rounds-exit :
      (utc : ℤ → Text) (ws rest : List MetricWake) (w : MetricWake) (c : Client W)
      → w.exit ≡ true
      → metric_rounds l utc (ws ++ w ∷ rest) c ≡ metric_rounds l utc (ws ++ w ∷ []) c
  metric_rounds-exit utc [] rest w c h = unfold metric_rounds wait_and_maybe_send in rw h
  metric_rounds-exit utc (v ∷ ws) rest w c h =
      metric_rounds-cons utc v (ws ++ w ∷ rest) c
      ∙ (next_round-same utc (ws ++ w ∷ rest) (ws ++ w ∷ []) (wait_and_maybe_send l utc v c)
            (λ d. metric_rounds-exit utc ws rest w d h)
          ∙ sym (metric_rounds-cons utc v (ws ++ w ∷ []) c))

  -- Once a loop has seen the exit flag, at the end of one of its waits, it is over: whatever ends of
  -- waits would follow, the polling thread makes no further fetch and the metrics thread sends
  -- nothing more.
  pub loops-exit :
      (first : HttpRequest → Option ComResponse) (ps more : List PollWake) (p : PollWake)
      (utc : ℤ → Text) (ms others : List MetricWake) (m : MetricWake) (c : Client W)
      → p.exit ≡ true
      → m.exit ≡ true
      → (feature_polling_loop l first (ps ++ p ∷ more) c
          ≡ feature_polling_loop l first (ps ++ p ∷ []) c)
        × (metric_sending_loop l utc (ms ++ m ∷ others) c
            ≡ metric_sending_loop l utc (ms ++ m ∷ []) c)
  unfolding feature_polling_loop metric_sending_loop
  loops-exit first ps more p utc ms others m c h k = (
    elim (Option-cases (single_fetch_toggles l first c.context c)) [
      | inl e ↦ rw e
      | inr (d, e) ↦ rw (e, polling_rounds-exit ps more p d h)
    ],
    rw (metric_rounds-exit utc ms others m c k),
  )
