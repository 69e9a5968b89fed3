-- ===== src/Forwarder.antt =====
-- apps/gateway/proxy/forwarder.py: the request that `forward` sends. What `httpx.Headers` makes of
-- the inbound headers, and the sending itself, are the library's and stay parameters.
pub mod Headers
pub mod Examples
use sentinel_distributed_api.Prelude.{
  ℕ, String, Bool, not, List, [], ◌∷◌, keep, any, Dict, insert, lower, str_eq,
}

-- `_HOP_BY_HOP_HEADERS`.
abbrev pub hop_by_hop_headers : List String
hop_by_hop_headers =
    "connection" ∷ "keep-alive" ∷ "proxy-authenticate" ∷ "proxy-authorization" ∷ "te" ∷ "trailers"
    ∷ "transfer-encoding" ∷ "upgrade" ∷ "host" ∷ []

unfoldable pub is_hop_by_hop : String → Bool
is_hop_by_hop k = any (str_eq (lower k)) hop_by_hop_headers

-- `_clean_headers`.
unfoldable pub clean_headers : Dict String → Dict String
unfolding is_hop_by_hop
clean_headers = keep λ h. not (is_hop_by_hop h.0)

-- What `self._client.request` is given.
pub record Outbound : Type 0 where
  pub method : String
  pub url : String
  pub headers : Dict String
  pub params : Dict String
  pub content : String
  pub timeout : ℕ

-- `headers_of` is `httpx.Headers(headers).items()`.
module _ (headers_of : Dict String → Dict String) where
  unfoldable pub outbound_headers : Dict String → String → String → String → Dict String
  unfolding clean_headers
  outbound_headers headers request_id instance_id client_ip = insert "X-Forwarded-Proto" "https" (
      insert "X-Forwarded-For" client_ip (
        insert "X-Sentinel-Instance" instance_id
          (insert "X-Request-ID" request_id (clean_headers (headers_of headers)))))

  unfoldable pub forward :
      (method target_url : String) (headers params : Dict String)
      (body request_id instance_id client_ip : String) (per_attempt_timeout : ℕ)
      → Outbound
  unfolding outbound_headers
  forward method target_url headers params body request_id instance_id client_ip
        per_attempt_timeout =
      record {
        method = method;
        url = target_url;
        headers = outbound_headers headers request_id instance_id client_ip;
        params = params;
        content = body;
        timeout = per_attempt_timeout;
      }
