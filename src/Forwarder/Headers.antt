-- ===== src/Forwarder/Headers.antt =====
-- What a backend reads in the headers of a forwarded request.
use sentinel_distributed_api.Prelude.{
  ℕ, ◌≡◌, refl, String, Bool, true, false, not, none, some, [], ◌∷◌, arith, keep, if◌then◌else◌,
  Dict, lookup, insert, lookup-insert, str_eq, str_eq_iff,
}
use sentinel_distributed_api.Forwarder.{is_hop_by_hop, clean_headers, outbound_headers, forward}

lookup-keep :
    (test : String → Bool) (k : String) (d : Dict String)
    → lookup k (keep (λ h. test h.0) d) ≡ (if test k then lookup k d else none)
unfolding lookup
lookup-keep test k [] = ground arith
lookup-keep test k ((j, v) ∷ d) = ground (arith, lookup-keep test k d, str_eq_iff j k)

if_not {ℓ} : {A : Type ℓ} (b : Bool) (x y : A) → (if not b then x else y) ≡ (if b then y else x)
if_not true x y = refl
if_not false x y = refl

-- Every header of a forwarded request, by its exact name: the four that the gateway sets have its
-- values, no hop-by-hop header is there, and any other is as `httpx` reads it from the client. So a
-- client's `x-forwarded-for` in lower case is passed on beside the gateway's.
pub forward_headers :
    (headers_of : Dict String → Dict String) (k method target_url : String)
    (headers params : Dict String) (body request_id instance_id client_ip : String) (t : ℕ)
    → lookup k
        (forward headers_of method target_url headers params body request_id instance_id client_ip
          t).headers
      ≡ (if str_eq "X-Forwarded-Proto" k
          then some "https"
          else if str_eq "X-Forwarded-For" k
          then some client_ip
          else if str_eq "X-Sentinel-Instance" k
          then some instance_id
          else if str_eq "X-Request-ID" k
          then some request_id
          else if is_hop_by_hop k
          then none
          else lookup k (headers_of headers))
unfolding forward outbound_headers clean_headers
forward_headers headers_of k method target_url headers params body request_id instance_id client_ip
      t =
    let d1 = clean_headers (headers_of headers) in
    let d2 = insert "X-Request-ID" request_id d1 in
    let d3 = insert "X-Sentinel-Instance" instance_id d2 in
    let d4 = insert "X-Forwarded-For" client_ip d3 in
    rw
      (
        lookup-insert "X-Forwarded-Proto" k "https" d4,
        lookup-insert "X-Forwarded-For" k client_ip d3,
        lookup-insert "X-Sentinel-Instance" k instance_id d2,
        lookup-insert "X-Request-ID" k request_id d1,
        lookup-keep (λ j. not (is_hop_by_hop j)) k (headers_of headers),
        if_not (is_hop_by_hop k) (lookup k (headers_of headers)) none,
      )
      refl
