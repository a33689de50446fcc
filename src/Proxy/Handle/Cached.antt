-- ===== src/Proxy/Handle/Cached.antt =====
-- Two requests for one uri: the second is answered from the cache.
use mathlib.Core.List.{append_assoc, append-nil}
use computer_systems_practic.Prelude.{
  ℕ, suc, ◌+◌, ◌<◌, ◌≤◌, ◌≡◌, refl, sym, ap, ◌∙◌, true, Option, none, some, List, [], ◌∷◌, ◌++◌,
  arith, ltb, All, length, length-append, take, concat, str_beq, str_beq_refl, codes, c_str,
  c_str-Without, Without, inl, inr,
}
use computer_systems_practic.Proxy.Cache.{
  CacheLine, Cache, strncpy, returned, get_object, new_line, max_line,
}
use computer_systems_practic.Proxy.Cache.Chain.{IsCache}
use computer_systems_practic.Proxy.Cache.Lookup.{Tagless}
use computer_systems_practic.Proxy.Cache.Sizes.{IsSized}
use computer_systems_practic.Proxy.Cache.Hit.{get_object_miss, get_object_head}
use computer_systems_practic.Proxy.Cache.Add.{Added, add_object-Added}
use computer_systems_practic.Proxy.Request.{
  Str, max_object_size, strcat, Target, parse_uri, build_request,
}
use computer_systems_practic.Proxy.Request.Headers.{strcat_fits}
use computer_systems_practic.Proxy.Handle.{
  Server, Handled, answered, faults, send_from_cache, method_of, uri_in, read_response,
  forward_request, handle_miss, handle_request,
}

pub All-concat : (P : ℕ → Type 0) (s t : Str) → All P (s ++ t) → All P s × All P t
All-concat P [] t a = (tt, a)
All-concat P (c ∷ s) t (p, a) = let (b, r) = All-concat P s t a in ((p, b), r)

-- The pieces of a response without a NUL that fits the buffer are put together.
read_response_fits :
    (pieces : List Str) (buffer : Str) (size : ℕ)
    → Without 0 (concat pieces)
    → length buffer + length (concat pieces) < max_object_size
    → read_response pieces buffer size
      ≡ some (buffer ++ concat pieces, size + length (concat pieces))
unfolding read_response strcat
read_response_fits [] buffer size a h =
    let z : size + 0 ≡ size = omega arith in rw (append-nil buffer, z) refl
read_response_fits (piece ∷ rest) buffer size a h =
    let (a1, a2) = All-concat _ piece (concat rest) a in
    let whole = length-append piece (concat rest) in
    let grown = length-append buffer piece in
    let s : strcat max_object_size buffer (c_str piece) ≡ some (buffer ++ piece) =
      rw (c_str-Without piece a1) (strcat_fits max_object_size buffer piece (omega arith)) in
    let z : size + length (piece ++ concat rest) ≡ (size + length piece) + length (concat rest) =
      omega arith in
    rw (read_response, s, z, sym (append_assoc buffer piece (concat rest)))
      (read_response_fits rest (buffer ++ piece) (size + length piece) a2 (omega arith))

strncpy-Without : (s : Str) → Without 0 s → strncpy (length s) s ≡ s
unfolding strncpy
strncpy-Without [] a = refl
strncpy-Without (c ∷ s) (ne, a) = ground (arith, strncpy-Without s a)

take_length : (s : Str) → take (length s) s ≡ s
take_length [] = refl
take_length (c ∷ s) = ap (λ t. c ∷ t) (take_length s)

-- A response that fits the buffer, for a uri that fits its array, is sent on piece by piece, and its whole text goes to the cache.
forward_request-Added :
    (fuel : ℕ) (uri : Str) (target : Target) (req : Str) (server : Server) (c : Cache) (xs : List ℕ)
    → length uri < max_line
    → Without 0 (concat (server target.host target.port req))
    → length (concat (server target.host target.port req)) < max_object_size
    → IsCache c xs
    → IsSized c xs
    → length xs ≤ fuel
    → (kept : List ℕ) × (gone : List ℕ) × (c1 : Cache) × (forward_request fuel uri target req server
          c
        ≡ answered (server target.host target.port req) c1)
      × Added c.next_free
          (new_line uri
            (concat (server target.host target.port req))
            (length (concat (server target.host target.port req))))
          c
          c1
          xs
          kept
          gone
unfolding forward_request
forward_request-Added fuel uri target req server c xs short a small v sized enough =
    let pieces = server target.host target.port req in
    let text = concat pieces in
    let z : 0 + length text ≡ length text = omega arith in
    let put : ℕ → Option (Str × ℕ) = λ n. some (text, n) in
    let read : read_response pieces [] 0 ≡ some (text, length text) =
      read_response_fits pieces [] 0 a (omega (arith, small)) ∙ ap put z in
    let fits : ltb (length text) max_object_size ≡ true = ground arith in
    elim (add_object-Added fuel uri text (length text) c xs v sized enough) [
      | inl (tag_fits, fits', (kept, gone, c1, e, added)) ↦
          (kept, gone, c1, rw (forward_request, read, fits, e) refl, added)
      | inr (past, e) ↦ absurd (omega arith)
    ]

-- The first line of a request that the proxy takes.
abbrev pub IsGet : Str → Type 0
IsGet first =
    (str_beq (method_of first) (codes "GET") ≡ true)
    × (str_beq (take 7 (uri_in first)) (codes "http://") ≡ true)

pub handle_request-forward :
    (fuel : ℕ) (first : Str) (lines : List Str) (server : Server) (c : Cache) (target : Target)
    (req : Str)
    → IsGet first
    → get_object fuel (uri_in first) c ≡ returned none c
    → parse_uri (uri_in first) ≡ some target
    → build_request lines target ≡ some req
    → handle_request fuel first lines server c
      ≡ forward_request fuel (uri_in first) target req server c
unfolding handle_request handle_miss
handle_request-forward fuel first lines server c target req (get, http) miss parsed built =
    rw (handle_request, get, http, miss, handle_miss, parsed, built) refl

send_line :
    (t : ℕ) (c : Cache) (l : CacheLine)
    → c.lines t ≡ some l
    → send_from_cache t c ≡ answered (take l.length l.object ∷ []) c
send_line t c l at =
    ap
      (λ o. elim o as (λ x. Handled) [
        | none ↦ faults
        | some k ↦ answered (take k.length k.object ∷ []) c
      ])
      at

handle_request-hit :
    (fuel : ℕ) (first : Str) (lines : List Str) (server : Server) (c c1 : Cache) (t : ℕ)
    (l : CacheLine)
    → IsGet first
    → get_object fuel (uri_in first) c ≡ returned (some t) c1
    → c1.lines t ≡ some l
    → handle_request fuel first lines server c ≡ answered (take l.length l.object ∷ []) c1
unfolding handle_request
handle_request-hit fuel first lines server c c1 t l (get, http) hit at =
    rw (handle_request, get, http, hit) (send_line t c1 l at)

-- A request whose uri no line of the cache has and is shorter than MAXLINE, and after it a request for
-- the same uri, where the uri and the header lines of the first are handled without an overflow, the cache is well-formed and sized,
-- there are as many rounds as lines, and the response has no NUL and fewer characters than
-- MAX_OBJECT_SIZE: the first client gets the response piece by piece, and the second gets the whole text
-- of it in one piece, whatever header it sends and whatever the server would answer then. The cache is
-- well-formed again, with the line first and the most recently used ones of the others behind it.
pub handle_request-twice :
    (fuel : ℕ) (first again : Str) (lines lines' : List Str) (server server' : Server)
    → (c : Cache) (xs : List ℕ) (target : Target) (req : Str) → IsGet first
    → IsGet again
    → uri_in again ≡ uri_in first
    → length (uri_in first) < max_line
    → parse_uri (uri_in first) ≡ some target
    → build_request lines target ≡ some req
    → Without 0 (concat (server target.host target.port req))
    → length (concat (server target.host target.port req)) < max_object_size
    → IsCache c xs
    → IsSized c xs
    → length xs ≤ suc fuel
    → Tagless c (uri_in first) xs
    → (kept : List ℕ) × (gone : List ℕ) × (c1 : Cache) × (c2 : Cache) × (handle_request
          (suc fuel)
          first
          lines
          server
          c
        ≡ answered (server target.host target.port req) c1)
      × (handle_request (suc fuel) again lines' server' c1
          ≡ answered (concat (server target.host target.port req) ∷ []) c2)
      × (xs ≡ kept ++ gone)
      × IsCache c2 (c.next_free ∷ kept)
handle_request-twice fuel first again lines lines' server server' c xs target req get get' same
      short parsed built a small v sized enough new =
    let uri = uri_in first in
    let t = c.next_free in
    let text = concat (server target.host target.port req) in
    let miss = get_object_miss (suc fuel) uri c xs v enough new in
    let to_server =
      handle_request-forward (suc fuel) first lines server c target req get miss parsed built in
    let (kept, gone, c1, e1, added) =
      forward_request-Added (suc fuel) uri target req server c xs short a small v sized enough in
    let (l, at, tag, object, len) = added.line in
    let tagged : str_beq l.tag (uri_in again) ≡ true = rw (tag, same) (str_beq_refl uri) in
    let (c2, hit, v2, (l2, at2, tag2, object2, len2)) =
      get_object_head fuel (uri_in again) t l c1 kept added.cache at tagged in
    let whole : take l2.length l2.object ≡ text =
      rw (object2, object, len2, len, strncpy-Without text a) (take_length text) in
    (
      kept,
      gone,
      c1,
      c2,
      to_server ∙ e1,
      handle_request-hit (suc fuel) again lines' server' c1 c2 t l2 get' hit at2
          ∙ ap (λ s. answered (s ∷ []) c2) whole,
      added.parts,
      v2,
    )
