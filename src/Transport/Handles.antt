-- ===== src/Transport/Handles.antt =====
-- The calls of libcurl that httpClient.hpp and httpClient.cpp make, with the handles and lists that
-- their destructors free. What libcurl returns is an argument.
pub mod Protocol
use unleash_cpp_sdk.Base.{
  Bool, Dict, List, Option, Text, [], codes, false, if◌then◌else◌, none, not, some, true, ◌++◌, ◌∷◌,
}
use unleash_cpp_sdk.Transport.Messages.{HttpRequest}
use unleash_cpp_sdk.Transport.HttpClient.{
  CurlOption, c_str, callback_options, http_header, request_options,
}

-- A call, where the options of one callback count as one, with whether it returned a handle or a list where it may return none.
pub data CurlCall : Type 0 where
  global_init global_cleanup easy_perform easy_getinfo easy_cleanup slist_free_all : CurlCall
  easy_init : Bool → CurlCall
  easy_setopt : CurlOption → CurlCall
  slist_append : Text → Bool → CurlCall

-- The pointer of a `CurlSList`; `none` is null.
abbrev pub SList : Type 0
SList = Option (List Text)

unfoldable pub append : Text → Bool → SList → SList
append line false list = none
append line true none = some (line ∷ [])
append line true (some lines) = some (lines ++ line ∷ [])

-- `~CurlSList`
unfoldable pub free_list : SList → List CurlCall
free_list none = []
free_list (some lines) = slist_free_all ∷ []

-- `~CurlHandle`
unfoldable pub cleanup_handle : Bool → List CurlCall
cleanup_handle valid = if valid then easy_cleanup ∷ [] else []

unfoldable pub set_all : List CurlOption → List CurlCall
set_all [] = []
set_all (o ∷ os) = easy_setopt o ∷ set_all os

unfoldable pub set_headers : SList → List CurlCall
set_headers none = []
set_headers (some lines) = easy_setopt (http_header lines) ∷ []

-- `appended` tells of each line whether libcurl could append it.
module _ (appended : Text → Bool) where
  -- The loop over the headers: its calls, and the list at its end.
  unfoldable pub append_headers : Dict Text → SList → List CurlCall × SList
  unfolding append c_str
  append_headers [] list = ([], list)
  append_headers ((k, v) ∷ m) list =
      let line = c_str (k ++ (codes ": " ++ v)) in
      let (calls, list') = append_headers m (append line (appended line) list) in
      (slist_append line (appended line) ∷ calls, list')

  -- `requestHttp`: `valid` tells whether there is a handle, and `ok` whether the transfer succeeded.
  -- The list is freed before the handle, as it is declared behind it.
  unfoldable pub request_calls : Bool → Bool → Bool → HttpRequest → List CurlCall
  unfolding cleanup_handle set_all request_options append_headers set_headers callback_options
      free_list
  request_calls valid ok cancellable req =
      let (calls, list) = append_headers req.headers none in
      easy_init valid
      ∷ ((if not valid
            then []
            else set_all (request_options req)
              ++ (calls
                  ++ (set_headers list
                      ++ (set_all (callback_options cancellable)
                          ++ easy_perform
                            ∷ ((if ok then easy_getinfo ∷ [] else []) ++ free_list list)))))
          ++ cleanup_handle valid)

-- `ensureCurlInit`: the static variable is constructed by the first call.
unfoldable pub ensure_curl_init : Bool → List CurlCall × Bool
ensure_curl_init true = ([], true)
ensure_curl_init false = (global_init ∷ [], true)

-- What a process does with the HTTP clients of the SDK; the destructor of a client calls nothing.
pub data Use : Type 0 where
  construct destruct : Use
  transfer : (Text → Bool) → Bool → Bool → Bool → HttpRequest → Use

-- The calls of a process, to its end, where the static variable is destroyed if it was constructed.
unfoldable pub process_calls : List Use → Bool → List CurlCall
unfolding request_calls ensure_curl_init
process_calls [] up = if up then global_cleanup ∷ [] else []
process_calls (construct ∷ us) up =
    let (calls, up') = ensure_curl_init up in calls ++ process_calls us up'
process_calls (destruct ∷ us) up = process_calls us up
process_calls (transfer appended valid ok cancellable req ∷ us) up =
    request_calls appended valid ok cancellable req ++ process_calls us up
