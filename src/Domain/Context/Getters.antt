-- ===== src/Domain/Context/Getters.antt =====
-- The getters of the context after any sequence of its setters.
use unleash_cpp_sdk.Base.{
  Dict, List, Option, Text, [], arith, if◌then◌else◌, is_empty, last_given, none, or_given, refl,
  some, ◌∷◌, ◌≡◌,
}
use unleash_cpp_sdk.Domain.Context.{
  Context, MutableContext, Setting, apply_setting, current_time, default_app_name, make_context,
  remote_address, set_context, set_current_time, set_property, set_remote_address, set_user_id,
  unless_empty, user_id,
}

-- The getters of `MutableContext`.
unfoldable pub get_user_id : MutableContext → Option Text
get_user_id c = c.user_id

unfoldable pub get_remote_address : MutableContext → Option Text
get_remote_address c = c.remote_address

unfoldable pub get_current_time : MutableContext → Option Text
get_current_time c = c.current_time

unfoldable pub get_properties : MutableContext → Dict Text
get_properties c = c.properties

-- Those of `Context`, of which the last four ask the mutable part.
unfoldable pub get_app_name : Context → Text
get_app_name c = c.app_name

unfoldable pub get_session_id : Context → Text
get_session_id c = c.session_id

unfoldable pub get_environment : Context → Option Text
get_environment c = c.environment

unfoldable pub get_context_user_id : Context → Option Text
unfolding get_user_id
get_context_user_id c = get_user_id c.mutable_context

unfoldable pub get_context_remote_address : Context → Option Text
unfolding get_remote_address
get_context_remote_address c = get_remote_address c.mutable_context

unfoldable pub get_context_current_time : Context → Option Text
unfolding get_current_time
get_context_current_time c = get_current_time c.mutable_context

unfoldable pub get_context_properties : Context → Dict Text
unfolding get_properties
get_context_properties c = get_properties c.mutable_context

-- A chain of setters.
unfoldable pub set_all : List Setting → Context → Context
set_all [] c = c
set_all (s ∷ ss) c = set_all ss (set_context s c)

abbrev pub or_reset : Text → Option Text
or_reset s = if is_empty s then none else some s

-- What a setter gives for each field; the empty text resets the first two.
abbrev pub given_user_id : Setting → Option (Option Text)
given_user_id (user_id s) = some (or_reset s)
given_user_id _ = none

abbrev pub given_remote_address : Setting → Option (Option Text)
given_remote_address (remote_address s) = some (or_reset s)
given_remote_address _ = none

abbrev pub given_current_time : Setting → Option (Option Text)
given_current_time (current_time now) = some (some now)
given_current_time _ = none

module _ {A : Type 0} (get : Context → A) (given : Setting → Option A)
    (step : (s : Setting) (c : Context) → get (set_context s c) ≡ or_given (given s) (get c)) where
  get-set_all : (ss : List Setting) (c : Context) → get (set_all ss c) ≡ last_given given ss (get c)
  unfolding set_all last_given
  get-set_all [] c = refl
  get-set_all (s ∷ ss) c = rw (← step s c) (get-set_all ss (set_context s c))

step_user_id :
    (s : Setting) (c : Context)
    → get_context_user_id (set_context s c) ≡ or_given (given_user_id s) (get_context_user_id c)
unfolding set_context apply_setting or_given get_context_user_id get_user_id set_user_id
    set_remote_address set_current_time set_property unless_empty
step_user_id s c = ground arith

step_remote_address :
    (s : Setting) (c : Context)
    → get_context_remote_address (set_context s c)
      ≡ or_given (given_remote_address s) (get_context_remote_address c)
unfolding set_context apply_setting or_given get_context_remote_address get_remote_address
    set_user_id set_remote_address set_current_time set_property unless_empty
step_remote_address s c = ground arith

step_current_time :
    (s : Setting) (c : Context)
    → get_context_current_time (set_context s c)
      ≡ or_given (given_current_time s) (get_context_current_time c)
unfolding set_context apply_setting or_given get_context_current_time get_current_time set_user_id
    set_remote_address set_current_time set_property unless_empty
step_current_time s c = ground arith

set_all-mutable :
    (ss : List Setting) (c : Context)
    → (get_app_name (set_all ss c) ≡ get_app_name c)
      × (get_session_id (set_all ss c) ≡ get_session_id c)
      × (get_environment (set_all ss c) ≡ get_environment c)
unfolding set_all set_context get_app_name get_session_id get_environment
set_all-mutable [] c = (refl, refl, refl)
set_all-mutable (s ∷ ss) c = set_all-mutable ss (set_context s c)

-- After any chain of setters on a new context: the application's name, the session and the environment
-- are those of the constructor, with its defaults for empty texts; and the user, the remote address
-- and the current time are what the last of their setters was given, which an empty user or address
-- resets, or nothing if there was none.
pub set_all-getters :
    (app_name environment session_id random_id : Text) (ss : List Setting)
    → let c = set_all ss (make_context app_name environment session_id random_id) in
      (get_app_name c ≡ (if is_empty app_name then default_app_name else app_name))
      × (get_session_id c ≡ (if is_empty session_id then random_id else session_id))
      × (get_environment c ≡ or_reset environment)
      × (get_context_user_id c ≡ last_given given_user_id ss none)
      × (get_context_remote_address c ≡ last_given given_remote_address ss none)
      × (get_context_current_time c ≡ last_given given_current_time ss none)
unfolding make_context get_app_name get_session_id get_environment get_context_user_id get_user_id
    get_context_remote_address get_remote_address get_context_current_time get_current_time
set_all-getters app_name environment session_id random_id ss =
    let c = make_context app_name environment session_id random_id in
    let (a, s, e) = set_all-mutable ss c in
    (
      a,
      s,
      e,
      get-set_all get_context_user_id given_user_id step_user_id ss c,
      get-set_all get_context_remote_address given_remote_address step_remote_address ss c,
      get-set_all get_context_current_time given_current_time step_current_time ss c,
    )
