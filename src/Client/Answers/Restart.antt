-- ===== src/Client/Answers/Restart.antt =====
-- The backup file carries the answers over to the next client.
use unleash_cpp_sdk.Base.{
  Dict, Option, Text, [], arith, false, is_empty, length, lookup, ltb, refl, some, sym,
  text_eq_refl, true, ℤ, ◌∙◌, ◌∷◌, ◌≡◌,
}
use unleash_cpp_sdk.Base.Expected.{expected}
use unleash_cpp_sdk.Config.{ClientConfig}
use unleash_cpp_sdk.Domain.Context.{Context}
use unleash_cpp_sdk.Domain.Toggles as Toggles
use unleash_cpp_sdk.Domain.Toggles.{ToggleSet, find-lookup}
use unleash_cpp_sdk.Json.Library.{Laws, Library}
use unleash_cpp_sdk.Json.Decode.{decode_client_features_response}
use unleash_cpp_sdk.Json.Encode.{encode_client_features_response, encode_root}
use unleash_cpp_sdk.Json.RoundTrip.Sets.{decode_client_features_response-AreEntries}
use unleash_cpp_sdk.Transport.Messages.{ComResponse, HttpRequest, HttpResponse, http_response}
use unleash_cpp_sdk.Fetcher.{ToggleFetcher, prepare}
use unleash_cpp_sdk.Fetcher.Results.{is_success}
use unleash_cpp_sdk.Store.Flags.{is_ready, replace, snapshot}
use unleash_cpp_sdk.Store.Files.{Access, Disk, file_provider, is_whitespace_only}
use unleash_cpp_sdk.Store.Files.Backup.{file_get-file_save}
use unleash_cpp_sdk.Client.State.{Client, make_client, start_client}
use unleash_cpp_sdk.Client.State.Sound.{make_client-flags}
use unleash_cpp_sdk.Client.State.Cache.{
  make_client-stored, start_client-snapshot, start_client_silent,
}
use unleash_cpp_sdk.Client.Threads.{single_fetch_toggles}
use unleash_cpp_sdk.Client.Answers.{AnswersAs, AnswersAs-stored, fetch_answers}

some-is_not_empty :
    {V : Type 0} (k : Text) (v : V) (m : Dict V) → lookup k m ≡ some v → ltb 0 (length m) ≡ true
unfolding lookup
some-is_not_empty k v [] e = cc
some-is_not_empty k v ((j, w) ∷ m) e = ground arith

first-is_found : {V : Type 0} (k : Text) (v : V) (m : Dict V) → lookup k ((k, v) ∷ m) ≡ some v
unfolding lookup
first-is_found k v m = rw (text_eq_refl k)

-- A map that answers each look-up as one that is not empty is not empty either.
is_empty-agree :
    {V : Type 0} (m n : Dict V)
    → ((k : Text) → lookup k n ≡ lookup k m)
    → is_empty m ≡ false
    → ltb 0 (length n) ≡ true
is_empty-agree [] n f h = absurd (ground arith)
is_empty-agree ((k, v) ∷ m) n f h = some-is_not_empty k v n (f k ∙ first-is_found k v m)

module _ {W : Type 0} where
  -- A client that has something stored, made and started.
  started_stored :
      (version : Text) (now : ℤ) (config : ClientConfig W) (ctx : Context) (world : W)
      (s : ToggleSet)
      → config.storage_provider.get world ≡ some s
      → ltb 0 (length s.toggles) ≡ true
      → AnswersAs s (start_client (make_client version now config ctx world))
  started_stored version now config ctx world s e n =
      let c = make_client version now config ctx world in
      let (idle, silent) = make_client-flags version now config ctx world in
      let (a, b, d) = start_client_silent c idle silent in
      let f = make_client-stored version now config ctx world s e n in
      AnswersAs-stored s (start_client c) (b ∙ rw f (unfold is_ready replace in ground arith))
        (start_client-snapshot c ∙ rw f (unfold snapshot replace in refl))

AnswersAs-agree :
    {W : Type 0} (s' s : ToggleSet) (c : Client W)
    → ((k : Text) → Toggles.find k s' ≡ Toggles.find k s)
    → AnswersAs s' c
    → AnswersAs s c
AnswersAs-agree s' s c agree a name = (
  (a name).0 ∙ (unfold Toggles.is_enabled in rw (agree name)),
  (a name).1 ∙ unfold Toggles.get_variant in rw (agree name),
)

module _ (l : Library) (laws : Laws l) (os : Access) (path : Text) where
  -- A client keeps its toggles in a backup file that can be written and read. If a fetch's request
  -- is made and is answered with a status from 200 to 299 and a text that is decoded to a set of toggles which is not empty,
  -- then it answers every name as this set does, and so does any later client that is made with the
  -- same file and started, before it fetches anything, whatever else its configuration is: provided
  -- that the library parses the text it writes, which is not white space alone.
  pub restart_answers :
      (client : HttpRequest → Option ComResponse) (ctx : Context) (c : Client Disk)
      (f' : ToggleFetcher) (resp : HttpResponse) (s : ToggleSet) (version : Text) (now : ℤ)
      (config : ClientConfig Disk) (ctx₂ : Context)
      → c.config.storage_provider ≡ file_provider l os path
      → config.storage_provider ≡ file_provider l os path
      → (os.directories ≡ true) × (os.writable ≡ true) × (os.readable ≡ true)
      → prepare l ctx c.toggle_fetcher ≡ some f'
      → client f'.http_request ≡ some (http_response resp)
      → is_success resp.status ≡ true
      → decode_client_features_response l resp.body ≡ expected s
      → is_empty s.toggles ≡ false
      → l.parse (encode_client_features_response l s) ≡ some (encode_root l s)
      → is_whitespace_only (encode_client_features_response l s) ≡ false
      → (c' : Client Disk) × (single_fetch_toggles l client ctx c ≡ some c')
        × AnswersAs s c'
        × AnswersAs s (start_client (make_client version now config ctx₂ c'.world))
  restart_answers client ctx c f' resp s version now config ctx₂ p p₂ ok b e h d n q w =
      let (c', f, r, a, saves) = fetch_answers l client ctx c f' resp s b e h d n in
      let (s', g, agree) =
        file_get-file_save l laws os path s c.world ok
          (decode_client_features_response-AreEntries l resp.body s d) q w in
      let m =
        is_empty-agree s.toggles s'.toggles
          (λ i. sym (find-lookup i s') ∙ (agree i ∙ find-lookup i s)) n in
      let back : config.storage_provider.get c'.world ≡ some s' =
        rw (p₂, saves, p) (unfold file_provider in g) in
      (
        c',
        f,
        a,
        AnswersAs-agree s' s _ agree (started_stored version now config ctx₂ c'.world s' back m),
      )
