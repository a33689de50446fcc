-- ===== src/Proxy/Handle/Overflow.antt =====
-- A long response in `forward_request` of proxy lab/proxylab-handout/proxy.c: `cache_buffer` has
-- MAX_OBJECT_SIZE characters, and every piece of the response is put behind the others before the size
-- is looked at.
use computer_systems_practic.Prelude.{
  ℕ, ◌+◌, ◌<◌, ◌≤◌, ◌≡◌, some, none, List, [], ◌∷◌, ◌++◌, arith, refl, ◌∙◌, ltb, Bool-cases, inl,
  inr, length, length-append, concat, c_str-Without, Without,
}
use computer_systems_practic.Proxy.Cache.{Cache}
use computer_systems_practic.Proxy.Cache.Chain.{IsCache}
use computer_systems_practic.Proxy.Cache.Lookup.{Tagless}
use computer_systems_practic.Proxy.Cache.Hit.{get_object_miss}
use computer_systems_practic.Proxy.Request.{Str, max_object_size, Target, parse_uri, build_request}
use computer_systems_practic.Proxy.Request.Headers.{strcat_fits, strcat_past}
use computer_systems_practic.Proxy.Handle.{
  Server, faults, uri_in, read_response, forward_request, handle_request,
}
use computer_systems_practic.Proxy.Handle.Cached.{All-concat, IsGet, handle_request-forward}

read_response_past :
    (pieces : List Str) (buffer : Str) (size : ℕ)
    → Without 0 (concat pieces)
    → length buffer < max_object_size
    → max_object_size ≤ length buffer + length (concat pieces)
    → read_response pieces buffer size ≡ none
unfolding read_response
read_response_past [] buffer size a small large = absurd (omega arith)
read_response_past (piece ∷ rest) buffer size a small large =
    let (a1, a2) = All-concat _ piece (concat rest) a in
    let whole = length-append piece (concat rest) in
    let grown = length-append buffer piece in
    let same = c_str-Without piece a1 in
    elim (Bool-cases (ltb (length buffer + length piece) max_object_size)) [
      | inr past ↦
          let s = strcat_past max_object_size buffer piece (ground arith) in
          rw (read_response, same, s) refl
      | inl fits ↦
          let less : length buffer + length piece < max_object_size = ground arith in
          let s = strcat_fits max_object_size buffer piece less in
          rw (read_response, same, s)
            (read_response_past rest (buffer ++ piece) (size + length piece) a2 (omega arith)
              (omega arith))
    ]

-- In a well-formed cache with a round for each line, for a request whose uri no line has and that
-- reaches the server: when the response has no NUL and MAX_OBJECT_SIZE characters or more, the proxy
-- writes past the end of `cache_buffer`.
pub handle_request_overflows :
    (fuel : ℕ) (first : Str) (lines : List Str) (server : Server)
    → (c : Cache) (xs : List ℕ) (target : Target) (req : Str) → IsGet first
    → parse_uri (uri_in first) ≡ some target
    → build_request lines target ≡ some req
    → Without 0 (concat (server target.host target.port req))
    → max_object_size ≤ length (concat (server target.host target.port req))
    → IsCache c xs
    → length xs ≤ fuel
    → Tagless c (uri_in first) xs
    → handle_request fuel first lines server c ≡ faults
unfolding forward_request
handle_request_overflows fuel first lines server c xs target req get parsed built a large v enough
      new =
    let miss = get_object_miss fuel (uri_in first) c xs v enough new in
    let past =
      read_response_past (server target.host target.port req) [] 0 a (omega arith)
        (omega (arith, large)) in
    handle_request-forward fuel first lines server c target req get miss parsed built
    ∙ rw (forward_request, past) refl
