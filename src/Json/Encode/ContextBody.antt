-- ===== src/Json/Encode/ContextBody.antt =====
-- What a reader finds in the body of a POST request for toggles.
use unleash_cpp_sdk.Base.{
  Dict, HasOnce, List, Option, Text, [], codes, false, if◌then◌else◌, is_empty, lookup, none, refl,
  some, text_eq, ◌∙◌, ◌∷◌, ◌≡◌,
}
use unleash_cpp_sdk.Domain.Context.{Context}
use unleash_cpp_sdk.Json.Library.{CanSet, Laws, Library, on_null, on_object, on_set}
use unleash_cpp_sdk.Json.RoundTrip.{hit, miss}
use unleash_cpp_sdk.Json.Encode.{encode_context_request_body, set_if, set_properties}
use unleash_cpp_sdk.Json.Encode.Paths.{
  at_path, at_path-cons, at_path-missing, at_path-single, find-set_entries, found, set_entries,
}

module _ (l : Library) where
  open l use {Json, of_string, set, object, null}

  set_properties-entries :
      (m : Dict Text) (j : Json) → set_properties l m j ≡ set_entries l of_string m j
  unfolding set_properties set_entries
  set_properties-entries [] j = refl
  set_properties-entries ((k, v) ∷ m) j = set_properties-entries m (set k (of_string v) j)

  set_if-CanSet : (k : Text) (o : Option Text) (j : Json) → CanSet l j → CanSet l (set_if l k o j)
  unfolding set_if
  set_if-CanSet k none j c = c
  set_if-CanSet k (some s) j c = on_set c

  -- The members before the properties, and all of them.
  fields : Context → Json
  fields ctx =
      let mc = ctx.mutable_context in
      set_if l (codes "currentTime") mc.current_time (
        set_if l (codes "remoteAddress") mc.remote_address (
          set_if l (codes "userId") mc.user_id (
            set_if l (codes "environment") ctx.environment (
              set (codes "sessionId") (of_string ctx.session_id)
                (set (codes "appName") (of_string ctx.app_name) object)))))

  with_properties : Dict Text → Json → Json
  with_properties m j =
      if is_empty m then j else set (codes "properties") (set_properties l m null) j

module _ (l : Library) (laws : Laws l) where
  open l use {Json, find, dump, is_utf8, of_string, set, object, null}

  set_if-skip :
      (i k : Text) (o : Option Text) (j : Json)
      → CanSet l j
      → text_eq i k ≡ false
      → find k (set_if l i o j) ≡ find k j
  unfolding set_if
  set_if-skip i k none j c e = refl
  set_if-skip i k (some s) j c e = miss l laws i k (of_string s) j c e

  set_if-take :
      (k : Text) (o : Option Text) (j : Json)
      → CanSet l j
      → find k j ≡ none
      → find k (set_if l k o j) ≡ found of_string o none
  unfolding set_if found
  set_if-take k none j c e = e
  set_if-take k (some s) j c e = hit l laws k (of_string s) j c

  fields-CanSet : (ctx : Context) → CanSet l (fields l ctx)
  unfolding fields
  fields-CanSet ctx = set_if-CanSet l _ _ _ (
      set_if-CanSet l _ _ _
        (set_if-CanSet l _ _ _ (set_if-CanSet l _ _ _ (on_set (on_set on_object)))))

  -- What the members are.
  fields-find :
      (ctx : Context)
      → let mc = ctx.mutable_context in
        (find (codes "appName") (fields l ctx) ≡ some (of_string ctx.app_name))
        × (find (codes "sessionId") (fields l ctx) ≡ some (of_string ctx.session_id))
        × (find (codes "environment") (fields l ctx) ≡ found of_string ctx.environment none)
        × (find (codes "userId") (fields l ctx) ≡ found of_string mc.user_id none)
        × (find (codes "remoteAddress") (fields l ctx) ≡ found of_string mc.remote_address none)
        × (find (codes "currentTime") (fields l ctx) ≡ found of_string mc.current_time none)
        × (find (codes "properties") (fields l ctx) ≡ none)
  unfolding fields text_eq
  fields-find ctx =
      let mc = ctx.mutable_context in
      let a = codes "appName" in
      let n = codes "sessionId" in
      let e = codes "environment" in
      let u = codes "userId" in
      let r = codes "remoteAddress" in
      let t = codes "currentTime" in
      let p = codes "properties" in
      let o₁ = set a (of_string ctx.app_name) object in
      let d₁ : CanSet l o₁ = on_set on_object in
      let j₀ = set n (of_string ctx.session_id) o₁ in
      let c₀ : CanSet l j₀ = on_set d₁ in
      let j₁ = set_if l e ctx.environment j₀ in
      let c₁ = set_if-CanSet l e ctx.environment j₀ c₀ in
      let j₂ = set_if l u mc.user_id j₁ in
      let c₂ = set_if-CanSet l u mc.user_id j₁ c₁ in
      let j₃ = set_if l r mc.remote_address j₂ in
      let c₃ = set_if-CanSet l r mc.remote_address j₂ c₂ in
      let one = λ (k : Text) (h : text_eq e k ≡ false). set_if-skip e k ctx.environment j₀ c₀ h in
      let two = λ (k : Text) (h : text_eq u k ≡ false). set_if-skip u k mc.user_id j₁ c₁ h in
      let three =
        λ (k : Text) (h : text_eq r k ≡ false). set_if-skip r k mc.remote_address j₂ c₂ h in
      let four = λ (k : Text) (h : text_eq t k ≡ false). set_if-skip t k mc.current_time j₃ c₃ h in
      let none₀ = λ (k : Text) (g : text_eq a k ≡ false) (h : text_eq n k ≡ false).
        miss l laws n k (of_string ctx.session_id) o₁ d₁ h
        ∙ (miss l laws a k (of_string ctx.app_name) object on_object g ∙ laws.find-object k) in
      (
        four a refl
            ∙ (three a refl
                ∙ (two a refl
                    ∙ (one a refl
                        ∙ (miss l laws n a (of_string ctx.session_id) o₁ d₁ refl
                            ∙ hit l laws a (of_string ctx.app_name) object on_object)))),
        four n refl
            ∙ (three n refl
                ∙ (two n refl ∙ (one n refl ∙ hit l laws n (of_string ctx.session_id) o₁ d₁))),
        four e refl
            ∙ (three e refl
                ∙ (two e refl ∙ set_if-take e ctx.environment j₀ c₀ (none₀ e refl refl))),
        four u refl
            ∙ (three u refl ∙ set_if-take u mc.user_id j₁ c₁ (one u refl ∙ none₀ u refl refl)),
        four r refl
            ∙ set_if-take r mc.remote_address j₂ c₂ (two r refl ∙ (one r refl ∙ none₀ r refl refl)),
        set_if-take t mc.current_time j₃ c₃
            (three t refl ∙ (two t refl ∙ (one t refl ∙ none₀ t refl refl))),
        four p refl ∙ (three p refl ∙ (two p refl ∙ (one p refl ∙ none₀ p refl refl))),
      )

  with_properties-skip :
      (k : Text) (m : Dict Text) (j : Json)
      → CanSet l j
      → text_eq (codes "properties") k ≡ false
      → find k (with_properties l m j) ≡ find k j
  unfolding with_properties
  with_properties-skip k [] j c e = refl
  with_properties-skip k (p ∷ m) j c e = miss l laws (codes "properties") k _ j c e

  with_properties-take :
      (k : Text) (m : Dict Text) (j : Json)
      → CanSet l j
      → HasOnce m
      → find (codes "properties") j ≡ none
      → at_path l (with_properties l m j) (codes "properties" ∷ k ∷ [])
        ≡ found of_string (lookup k m) none
  unfolding with_properties found lookup
  with_properties-take k [] j c h e = at_path-missing l _ _ _ e
  with_properties-take k (p ∷ m) j c h e =
      let o = set_properties l (p ∷ m) null in
      at_path-cons l _ _ _ (k ∷ []) (hit l laws (codes "properties") o j c)
      ∙ (at_path-single l k o
          ∙ (rw (set_properties-entries l (p ∷ m) null)
              (find-set_entries l laws of_string k (p ∷ m) null h on_null ∙ rw (laws.find-null k))))

  -- The body of a POST request is the text of a value, or an exception if this value holds a string
  -- that is not UTF-8, in which a reader finds, under `context`: the
  -- application's name and the session; the environment, the user, the remote address and the
  -- current time if the context has them, and nothing else under these keys; and under `properties`
  -- each property with its value and no other; provided that no key stands twice among these.
  pub encode_context_request_body-members :
      (ctx : Context)
      → HasOnce ctx.mutable_context.properties
      → let mc = ctx.mutable_context in
        (root : Json) × (encode_context_request_body l ctx
          ≡ (if is_utf8 root then some (dump root) else none))
        × (at_path l root (codes "context" ∷ codes "appName" ∷ []) ≡ some (of_string ctx.app_name))
        × (at_path l root (codes "context" ∷ codes "sessionId" ∷ [])
            ≡ some (of_string ctx.session_id))
        × (at_path l root (codes "context" ∷ codes "environment" ∷ [])
            ≡ found of_string ctx.environment none)
        × (at_path l root (codes "context" ∷ codes "userId" ∷ []) ≡ found of_string mc.user_id none)
        × (at_path l root (codes "context" ∷ codes "remoteAddress" ∷ [])
            ≡ found of_string mc.remote_address none)
        × (at_path l root (codes "context" ∷ codes "currentTime" ∷ [])
            ≡ found of_string mc.current_time none)
        × ((k : Text)
            → at_path l root (codes "context" ∷ codes "properties" ∷ k ∷ [])
              ≡ found of_string (lookup k mc.properties) none)
  unfolding text_eq
  encode_context_request_body-members ctx h =
      let m = ctx.mutable_context.properties in
      let j = with_properties l m (fields l ctx) in
      let c = fields-CanSet ctx in
      let into = λ (ks : List Text).
        at_path-cons l (codes "context") (set (codes "context") j null) j ks
          (hit l laws (codes "context") j null on_null) in
      let member = λ (k : Text) (e : text_eq (codes "properties") k ≡ false).
        into (k ∷ []) ∙ (at_path-single l k j ∙ with_properties-skip k m (fields l ctx) c e) in
      let (a, n, e, u, r, t, p) = fields-find ctx in
      (
        set (codes "context") j null,
        unfold encode_context_request_body with_properties fields in refl,
        member (codes "appName") refl ∙ a,
        member (codes "sessionId") refl ∙ n,
        member (codes "environment") refl ∙ e,
        member (codes "userId") refl ∙ u,
        member (codes "remoteAddress") refl ∙ r,
        member (codes "currentTime") refl ∙ t,
        λ k. into (codes "properties" ∷ k ∷ []) ∙ with_properties-take k m (fields l ctx) c h p,
      )
