-- ===== src/Domain/Context.antt =====
-- context.hpp and context.cpp: the fixed and the mutable fields of an evaluation context. The clock
-- of `setCurrentTime` and the random number of `resolveSessionId` are arguments.
pub mod Properties
pub mod Getters
use unleash_cpp_sdk.Utils.Strings.{to_string}
use unleash_cpp_sdk.Base.{
  Bool, Dict, Option, Text, [], codes, if◌then◌else◌, is_empty, none, refl, some, text_eq, ℕ, ◌||◌,
  ◌∷◌, ◌≡◌,
}

abbrev pub default_app_name : Text
default_app_name = codes "unleash-client-app"

unfoldable pub is_reserved_context_key : Text → Bool
is_reserved_context_key key =
    text_eq key (codes "appName")
    || (text_eq key (codes "environment")
        || (text_eq key (codes "userId")
            || (text_eq key (codes "sessionId")
                || (text_eq key (codes "remoteAddress") || text_eq key (codes "currentTime")))))

-- A vector of pairs, in the order in which the keys were first set.
pub record MutableContext : Type 0 where
  pub user_id : Option Text
  pub remote_address : Option Text
  pub current_time : Option Text
  pub properties : Dict Text

abbrev pub empty_mutable : MutableContext
empty_mutable = record {
  user_id = none;
  remote_address = none;
  current_time = none;
  properties = [];
}

-- What `setUserId` and `setRemoteAddress` store: the empty text resets the field.
unless_empty : Text → Option Text
unless_empty s = if is_empty s then none else some s

unfoldable pub set_user_id : Text → MutableContext → MutableContext
unfolding unless_empty
set_user_id s c = record c { user_id = unless_empty s }

unfoldable pub set_remote_address : Text → MutableContext → MutableContext
unfolding unless_empty
set_remote_address s c = record c { remote_address = unless_empty s }

-- `now` is what `getISO8601CurrentTimeStamp` returns.
unfoldable pub set_current_time : Text → MutableContext → MutableContext
set_current_time now c = record c { current_time = some now }

-- `find_if`, then the write or the `emplace_back`.
unfoldable pub store_property : Text → Text → Dict Text → Dict Text
store_property key value [] = (key, value) ∷ []
store_property key value ((j, w) ∷ m) =
    if text_eq j key then (j, value) ∷ m else (j, w) ∷ store_property key value m

unfoldable pub set_property : Text → Text → MutableContext → MutableContext
unfolding store_property
set_property key value c =
    if is_empty key
    then c
    else if is_reserved_context_key key
    then c
    else record c { properties = store_property key value c.properties }

pub record Context : Type 0 where
  pub app_name : Text
  pub session_id : Text
  pub environment : Option Text
  pub mutable_context : MutableContext

-- `random_id` is the text of the number that `resolveSessionId` draws.
unfoldable pub make_context : Text → Text → Text → Text → Context
make_context app_name environment session_id random_id = record {
  app_name = if is_empty app_name then default_app_name else app_name;
  session_id = if is_empty session_id then random_id else session_id;
  environment = if is_empty environment then none else some environment;
  mutable_context = empty_mutable;
}

-- `resolveSessionId`, with the number that the generator draws from 1 to 1000000000.
unfoldable pub resolve_session_id : ℕ → Context → Context
resolve_session_id drawn c = record c { session_id = to_string drawn }

-- The constructor resolves the session exactly if it is given none.
pub make_context-resolve_session_id :
    (app_name environment session_id : Text) (drawn : ℕ)
    → make_context app_name environment session_id (to_string drawn) ≡ (
        if is_empty session_id
        then resolve_session_id drawn (make_context app_name environment session_id [])
        else make_context app_name environment session_id [])
unfolding make_context resolve_session_id
make_context-resolve_session_id app_name environment [] drawn = refl
make_context-resolve_session_id app_name environment (c ∷ s) drawn = refl

unfoldable pub update_mutable_context : MutableContext → Context → Context
update_mutable_context mc c = record c { mutable_context = mc }

-- The setters of `Context` pass their arguments on to the mutable part.
pub data Setting : Type 0 where
  user_id remote_address current_time : Text → Setting
  property : Text → Text → Setting

unfoldable pub apply_setting : Setting → MutableContext → MutableContext
apply_setting (user_id s) c = set_user_id s c
apply_setting (remote_address s) c = set_remote_address s c
apply_setting (current_time now) c = set_current_time now c
apply_setting (property key value) c = set_property key value c

unfoldable pub set_context : Setting → Context → Context
set_context s c = record c { mutable_context = apply_setting s c.mutable_context }
