-- ===== src/Fetcher/Connection.antt =====
-- The header that identifies the connection, in the requests of the fetcher and of the sender.
use unleash_cpp_sdk.Base.{
  Bool, Dict, Text, [], ap, arith, assign, codes, false, is_empty, lookup, lookup-assign, none, not,
  refl, some, text_eq, ℕ, ◌∙◌, ◌≡◌,
}
use unleash_cpp_sdk.Config.{ClientConfig}
use unleash_cpp_sdk.Fetcher.Requests.{last_header, lookup-add_custom_headers}
use unleash_cpp_sdk.Fetcher.{assign_if, frontend_headers, make_fetcher}
use unleash_cpp_sdk.Metrics.MetricSender.{make_sender, metric_headers}
use unleash_cpp_sdk.Utils.Strings.{agent_version, keys_to_lower_case, sdk_version}

abbrev pub connection_header : Text
connection_header = codes "unleash-connection-id"

-- The API token is not sent under the name of the connection's header.
abbrev pub HasOwnHeader : {W : Type 0} → ClientConfig W → Type 0
HasOwnHeader c = text_eq (keys_to_lower_case c.header_name) connection_header ≡ false

lookup-assign_other :
    (j k v : Text) (h : Dict Text) → text_eq k j ≡ false → lookup j (assign k v h) ≡ lookup j h
lookup-assign_other j k v h e = lookup-assign k j v h ∙ rw e

lookup-assign_if :
    (j k v : Text) (b : Bool) (h : Dict Text)
    → text_eq k j ≡ false
    → lookup j (assign_if b k v h) ≡ lookup j h
unfolding assign_if
lookup-assign_if j k v b h e = ground (arith, lookup-assign_other j k v h e)

module _ {W : Type 0} (version : Text) (c : ClientConfig W) where
  lookup-frontend_headers :
      HasOwnHeader c → lookup connection_header (frontend_headers version c []) ≡ none
  unfolding frontend_headers text_eq
  lookup-frontend_headers own =
      lookup-assign_if connection_header (codes "if-none-match") [] (not (is_empty {A = ℕ} [])) _
        refl
      ∙ (lookup-assign_if connection_header (codes "content-type") (codes "application/json")
            c.use_post_requests _ refl
          ∙ (lookup-assign_other connection_header (codes "unleash-appname") c.app_name _ refl
              ∙ (lookup-assign_other connection_header (codes "user-agent") (agent_version version)
                    _ refl
                  ∙ (lookup-assign_other connection_header (codes "unleash-sdk")
                        (sdk_version version) _ refl
                      ∙ (lookup-assign_other connection_header (keys_to_lower_case c.header_name) _
                            _ own
                          ∙ (lookup-assign_other connection_header (codes "'unleash-connection-id'")
                                _ _ refl
                              ∙ (lookup-assign_other connection_header (codes "accept")
                                    (codes "application/json") [] refl
                                  ∙ unfold lookup in refl)))))))

  lookup-metric_headers :
      HasOwnHeader c → lookup connection_header (metric_headers version c) ≡ some c.connection_id
  unfolding metric_headers text_eq
  lookup-metric_headers own =
      lookup-assign_other connection_header (codes "unleash-appname") _ _ refl
      ∙ (lookup-assign_other connection_header (codes "content-type") _ _ refl
          ∙ (lookup-assign_other connection_header (codes "user-agent") _ _ refl
              ∙ (lookup-assign_other connection_header (codes "unleash-sdk") _ _ refl
                  ∙ (lookup-assign_other connection_header (keys_to_lower_case c.header_name) _ _
                        own
                      ∙ lookup-assign connection_header connection_header c.connection_id _))))

  -- Unless the API token has that name, the metrics requests send the connection's id under
  -- `unleash-connection-id`, and the fetch requests of a new fetcher send nothing under it, where the
  -- custom headers do not set it; where they do, both send what these set last.
  pub connection_id_misnamed :
      HasOwnHeader c
      → (lookup connection_header (make_fetcher version c).http_request.headers
          ≡ last_header connection_header c.custom_headers none)
        × (lookup connection_header (make_sender version c).http_request.headers
            ≡ last_header connection_header c.custom_headers (some c.connection_id))
  unfolding make_fetcher make_sender
  connection_id_misnamed own = (
    lookup-add_custom_headers connection_header c.custom_headers (frontend_headers version c [])
        ∙ ap (last_header connection_header c.custom_headers) (lookup-frontend_headers own),
    lookup-add_custom_headers connection_header c.custom_headers (metric_headers version c)
        ∙ ap (last_header connection_header c.custom_headers) (lookup-metric_headers own),
  )
