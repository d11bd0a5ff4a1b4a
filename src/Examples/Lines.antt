-- ===== src/Examples/Lines.antt =====
-- What the program prints.
use unleash_cpp_sdk.Json.Decode.{decode_client_features_response}
use unleash_cpp_sdk.Fetcher.Results.{is_success}
use unleash_cpp_sdk.Fetcher.{ToggleFetcher, prepare}
use unleash_cpp_sdk.Base.Expected.{expected}
use unleash_cpp_sdk.Base.{
  List, Option, Option-cases, Text, [], ap, ap₂, false, inl, inr, is_empty, refl, some, sym, true,
  ℕ, ℤ, ◌++◌, ◌∙◌, ◌∷◌, ◌≡◌,
}
use unleash_cpp_sdk.Client.Answers.{AnswersAs-stored, fetch_stores}
use unleash_cpp_sdk.Client.Evaluate as Evaluate
use unleash_cpp_sdk.Client.Evaluate.Effects.{is_enabled-ready, is_enabled_lem}
use unleash_cpp_sdk.Client.State.{Client}
use unleash_cpp_sdk.Client.Threads.{single_fetch_toggles}
use unleash_cpp_sdk.Domain.Context.{Context}
use unleash_cpp_sdk.Domain.Toggles as Toggles
use unleash_cpp_sdk.Domain.Toggles.{ToggleSet}
use unleash_cpp_sdk.Examples.{
  Round, Work, and_then, answer_line, flag_name, goes_on, live_client, live_main, live_round,
  live_rounds, poll, with_line, work, work_all,
}
use unleash_cpp_sdk.Json.Library.{Library}
use unleash_cpp_sdk.Store.Flags.{snapshot}
use unleash_cpp_sdk.Transport.Messages.{ComResponse, HttpRequest, HttpResponse, http_response}

module _ {W : Type 0} (l : Library) (utc : ℤ → Text) where
  work_all-cons :
      (w : Work) (works : List Work) (c d : Client W)
      → work l utc w c ≡ some d
      → work_all l utc (w ∷ works) c ≡ work_all l utc works d
  work_all-cons w works c d e = unfold work_all in rw e (unfold and_then in refl)

  -- Works that are followed by a fetch.
  work_all-poll :
      (works : List Work) (client : HttpRequest → Option ComResponse) (ctx : Context)
      (c c₁ c' : Client W)
      → work_all l utc works c ≡ some c₁
      → single_fetch_toggles l client ctx c₁ ≡ some c'
      → work_all l utc (works ++ poll client ctx ∷ []) c ≡ some c'
  work_all-poll [] client ctx c c₁ c' e h =
      let same : c ≡ c₁ = unfold work_all in cc in
      unfold work_all work in rw same (rw h (unfold and_then in refl))
  work_all-poll (w ∷ works) client ctx c c₁ c' e h = elim (Option-cases (work l utc w c)) [
    | inl n ↦ absurd (unfold work_all and_then in cc)
    | inr (d, n) ↦
        let first = λ (ws : List Work). work_all-cons w ws c d n in
        first (works ++ poll client ctx ∷ [])
        ∙ work_all-poll works client ctx d c₁ c' (sym (first works) ∙ e) h
  ]

  -- A round whose client is ready with a set, and stays so, has this line.
  live_round-line :
      (flag : Text) (before : List Work) (c c' : Client W) (s : ToggleSet)
      → work_all l utc before c ≡ some c'
      → c'.ready ≡ true
      → snapshot c'.flag_store ≡ s
      → (d : Client W) × (live_round l utc flag (record { before = before; between = [] }) c
          ≡ some (d, answer_line flag (Toggles.is_enabled flag s) (Toggles.get_variant flag s)))
  unfolding live_round work_all
  live_round-line flag before c c' s w r e =
      let d = (Evaluate.is_enabled flag c').0 in
      let first = (AnswersAs-stored s c' r e flag).0 in
      let kept : snapshot d.flag_store ≡ s = ap snapshot (is_enabled_lem flag c').3 ∙ e in
      let second = (AnswersAs-stored s d (is_enabled-ready flag c' ∙ r) kept flag).1 in
      (
        (Evaluate.get_variant flag d).0,
        rw w (
            ap (λ t. some ((Evaluate.get_variant flag d).0, t))
              (ap₂ (answer_line flag) first second)),
      )

-- The round in which a fetch is the last work before the questions, and nothing falls between them.
abbrev pub fetch_round : List Work → (HttpRequest → Option ComResponse) → Context → Round
fetch_round works client ctx = record { before = works ++ poll client ctx ∷ []; between = [] }

-- With both variables of the server in the environment, and one round: if the client's threads work
-- without an exception while the program sleeps and the last of this is a fetch, whose request is made
-- and is answered with a status from 200 to 299 and a text that is decoded to a set of toggles which is
-- not empty, and if the threads do nothing between the two questions, then the one line says what this
-- set answers for the flag of the third variable, or else for `demo-flag`.
pub live_main-answers :
    {W : Type 0} (l : Library) (utc : ℤ → Text) (version : Text) (now : ℤ) (draw : ℕ → ℕ)
    (random_id : Text) (world : W) (url api_key : Text) (name : Option Text) (works : List Work)
    (client : HttpRequest → Option ComResponse) (ctx : Context) (c₁ : Client W) (f : ToggleFetcher)
    (resp : HttpResponse) (s : ToggleSet)
    → work_all l utc works (live_client version now draw random_id world url api_key) ≡ some c₁
    → prepare l ctx c₁.toggle_fetcher ≡ some f
    → client f.http_request ≡ some (http_response resp)
    → is_success resp.status ≡ true
    → decode_client_features_response l resp.body ≡ expected s
    → is_empty s.toggles ≡ false
    → (c : Client W) × (live_main l utc version now draw random_id world
          (some url)
          (some api_key)
          name
          (fetch_round works client ctx ∷ [])
        ≡ goes_on c (
            answer_line
              (flag_name name)
              (Toggles.is_enabled (flag_name name) s)
              (Toggles.get_variant (flag_name name) s)
            ∷ []))
unfolding live_main live_rounds with_line
live_main-answers l utc version now draw random_id world url api_key name works client ctx c₁ f resp
      s w p e h d n =
    let c₀ = live_client version now draw random_id world url api_key in
    let (c', g, ready, stored, saved) = fetch_stores l client ctx c₁ f resp s p e h d n in
    let (c, line) =
      live_round-line l utc (flag_name name) (works ++ poll client ctx ∷ []) c₀ c' s
        (work_all-poll l utc works client ctx c₀ c₁ c' w g) ready stored in
    (c, rw line)
