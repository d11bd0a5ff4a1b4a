-- ===== src/Transport/Handles/Protocol.antt =====
-- The order of calls that libcurl asks for, and that the SDK's calls keep to it.
use unleash_cpp_sdk.Base.{
  Bool, List, Text, [], false, is_some, none, not, some, true, ◌&&◌, ◌∷◌, ◌≡◌,
}
use unleash_cpp_sdk.Transport.HttpClient.{CurlOption, http_header}
use unleash_cpp_sdk.Transport.Handles.{
  CurlCall, SList, Use, append, easy_cleanup, easy_getinfo, easy_init, easy_perform, easy_setopt,
  global_cleanup, global_init, slist_append, slist_free_all, transfer,
}

-- The life of the library, which begins once.
pub data Life : Type 0 where
  unborn begun ended : Life

-- The library's life, and what is alive in it: an easy handle, and a list of header lines; and whether
-- the handle refers to the list.
pub record Alive : Type 0 where
  pub library : Life
  pub handle : Bool
  pub list : SList
  pub refers : Bool

unfoldable pub takes_list : CurlOption → Bool
takes_list (http_header lines) = true
takes_list _ = false

-- No handle and no list, in this phase of the library's life.
abbrev pub idle : Life → Alive
idle phase = record { library = phase; handle = false; list = none; refers = false }

-- A call that libcurl allows, and what is alive behind it. Every call but the first comes after the
-- library has begun, and none after it has ended. An append that fails keeps the list, and
-- a list that a handle refers to is there when the transfer is performed.
pub data Allowed (a : Alive) : CurlCall → Alive → Type 0 where
  library_begins : a.library ≡ unborn → Allowed a global_init (record a { library = begun })
  library_ends :
      a.library ≡ begun
      → a.handle ≡ false
      → a.list ≡ none
      → Allowed a global_cleanup (record a { library = ended })
  handle_made :
      a.library ≡ begun → a.handle ≡ false → Allowed a (easy_init true) (record a { handle = true })
  handle_missing : a.library ≡ begun → a.handle ≡ false → Allowed a (easy_init false) a
  option_set :
      {o : CurlOption}
      → a.library ≡ begun
      → a.handle ≡ true
      → takes_list o ≡ false
      → Allowed a (easy_setopt o) a
  headers_set :
      {lines : List Text}
      → a.library ≡ begun
      → a.handle ≡ true
      → a.list ≡ some lines
      → Allowed a (easy_setopt (http_header lines)) (record a { refers = true })
  line_appended :
      {line : Text}
      → a.library ≡ begun
      → Allowed a (slist_append line true) (record a { list = append line true a.list })
  line_failed : {line : Text} → a.library ≡ begun → Allowed a (slist_append line false) a
  performed :
      a.library ≡ begun
      → a.handle ≡ true
      → (a.refers && not (is_some a.list)) ≡ false
      → Allowed a easy_perform a
  info_read : a.library ≡ begun → a.handle ≡ true → Allowed a easy_getinfo a
  list_freed :
      {lines : List Text}
      → a.library ≡ begun
      → a.list ≡ some lines
      → Allowed a slist_free_all (record a { list = none })
  handle_freed :
      a.library ≡ begun
      → a.handle ≡ true
      → Allowed a easy_cleanup (record a { handle = false; refers = false })

pub data Obeys : Alive → List CurlCall → Alive → Type 0 where
  done : {a : Alive} → Obeys a [] a
  next :
      {a b e : Alive} {c : CurlCall} {cs : List CurlCall}
      → Allowed a c b
      → Obeys b cs e
      → Obeys a (c ∷ cs) e

takes_no_list : List CurlOption → Bool
unfolding takes_list
takes_no_list [] = true
takes_no_list (o ∷ os) = not (takes_list o) && takes_no_list os

abbrev transferring : SList → Bool → Alive
transferring list refers = record { library = begun; handle = true; list = list; refers = refers }

-- Every append succeeds.
abbrev pub NeverFails : Use → Type 0
NeverFails (transfer appended valid ok cancellable req) = (line : Text) → appended line ≡ true
NeverFails _ = Unit {0}
