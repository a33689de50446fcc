-- ===== src/Proxy/Handle.antt =====
-- A client's request in proxy lab/proxylab-handout/proxy.c, from its first line to the answer, one
-- request at a time. What the CS:APP library does is an argument: the lines that Rio_readlineb returns,
-- and the server, a function from a host, a port and a request to the pieces of its response, none of
-- them empty, as Rio_readnb returns them.
pub mod Cached
pub mod Overflow
use computer_systems_practic.Prelude.{
  ℕ, zero, suc, ◌+◌, Bool, true, false, Option, none, some, List, [], ◌∷◌, ◌++◌, ltb, if◌then◌else◌,
  length, take, str_beq, codes, c_str, ◌>>=◌,
}
use computer_systems_practic.Proxy.Cache.{
  Ptr, Cache, Outcome, returned, crashed, running, get_object, add_object, free_cache,
}
use computer_systems_practic.Proxy.Request.{
  Str, max_object_size, crlf, word, skip_space, after_word, strcat, Target, parse_uri,
  build_request,
}

abbrev pub Server : Type 0
Server = (host port req : Str) → List Str

-- What is written to the client, piece by piece, with the cache behind it; or undefined behaviour; or a
-- walk through the cache that has not ended.
pub data Handled : Type 0 where
  answered : List Str → Cache → Handled
  faults : Handled
  walking : Handled

abbrev pub error_method : Str
error_method = codes "Only accept GET method." ++ crlf

abbrev pub error_uri : Str
error_uri = codes "URI invalid." ++ crlf

-- sscanf(buffer, "%s %s", req_method, uri)
unfoldable pub method_of : Str → Str
unfolding word skip_space
method_of buffer = word (skip_space buffer)

unfoldable pub uri_in : Str → Str
unfolding word skip_space after_word
uri_in buffer = word (skip_space (after_word (skip_space buffer)))

-- The loop of `forward_request`: `cache_buffer` and `buffer_size`.
unfoldable pub read_response : List Str → Str → ℕ → Option (Str × ℕ)
unfolding c_str strcat
read_response [] buffer size = some (buffer, size)
read_response (response ∷ rest) buffer size =
    strcat max_object_size buffer (c_str response) >>= λ b.
    read_response rest b (size + length response)

abbrev pub after_add : List Str → Outcome → Handled
after_add sent (returned p c) = answered sent c
after_add sent crashed = faults
after_add sent running = walking

unfoldable pub forward_request :
    (fuel : ℕ) → (uri : Str) → Target → (req : Str) → Server → Cache → Handled
unfolding read_response
forward_request fuel uri target req server c =
    let response = server target.host target.port req in
    elim (read_response response [] 0) [
      | none ↦ faults
      | some (buffer, size) ↦ elim (ltb size max_object_size) [
        | true ↦ after_add response (add_object fuel uri buffer size c)
        | false ↦ answered response c
      ]
    ]

-- `send_from_cache`
abbrev pub send_from_cache : ℕ → Cache → Handled
send_from_cache a c = elim (c.lines a) [
  | none ↦ faults
  | some l ↦ answered (take l.length l.object ∷ []) c
]

-- What follows where the object is not in the cache.
unfoldable pub handle_miss :
    (fuel : ℕ) → (uri : Str) → (lines : List Str) → Server → Cache → Handled
unfolding parse_uri build_request forward_request
handle_miss fuel uri lines server c = elim (parse_uri uri) [
  | none ↦ faults
  | some target ↦ elim (build_request lines target) [
    | none ↦ faults
    | some req ↦ forward_request fuel uri target req server c
  ]
]

abbrev pub after_get : (fuel : ℕ) → (uri : Str) → (lines : List Str) → Server → Outcome → Handled
after_get fuel uri lines server crashed = faults
after_get fuel uri lines server running = walking
after_get fuel uri lines server (returned none c) = handle_miss fuel uri lines server c
after_get fuel uri lines server (returned (some a) c) = send_from_cache a c

unfoldable pub handle_request :
    (fuel : ℕ) → (first : Str) → (lines : List Str) → Server → Cache → Handled
unfolding method_of uri_in handle_miss
handle_request fuel first lines server c =
    if str_beq (method_of first) (codes "GET")
    then (if str_beq (take 7 (uri_in first)) (codes "http://")
        then after_get fuel (uri_in first) lines server (get_object fuel (uri_in first) c)
        else answered (error_uri ∷ []) c)
    else answered (error_method ∷ []) c
