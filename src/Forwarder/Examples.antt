-- ===== src/Forwarder/Examples.antt =====
-- A request whose client sends headers that the gateway sets itself.
use sentinel_distributed_api.Prelude.{
  ◌≡◌, refl, String, some, none, [], ◌∷◌, Dict, lookup, insert, str_eq, lower,
}
use sentinel_distributed_api.Forwarder.{forward, outbound_headers, clean_headers, is_hop_by_hop}
use sentinel_distributed_api.Forwarder.Headers.{forward_headers}

abbrev inbound : Dict String
inbound = ("accept", "*/*") ∷ ("connection", "close") ∷ ("x-forwarded-for", "10.0.0.1") ∷ []

abbrev sent : Dict String
unfolding forward
sent =
    (forward (λ h. h) "GET" "http://users:8001/users/" inbound [] "" "r-1" "gw-1" "203.0.113.9"
      1000).headers

connection_dropped : lookup "connection" sent ≡ none
unfolding sent outbound_headers clean_headers is_hop_by_hop lookup insert str_eq lower
connection_dropped = refl

forward_headers_example : lookup "x-forwarded-for" sent ≡ some "10.0.0.1"
unfolding sent lookup is_hop_by_hop str_eq lower
forward_headers_example =
    forward_headers (λ h. h) "x-forwarded-for" "GET" "http://users:8001/users/" inbound [] "" "r-1"
      "gw-1" "203.0.113.9" 1000
