-- ===== src/Proxy/Tests.antt =====
-- Runs of the proxy.
use computer_systems_practic.Prelude.{
  ltb→lt, arith, Without, ◌==◌, not, ◌&&◌, replicate, length, ap, ◌<◌, ℕ, zero, suc, ◌≡◌, refl,
  none, some, List, [], ◌∷◌, ◌++◌, codes, c_str, index_of, true, Bool,
}
use computer_systems_practic.Proxy.Cache.{
  Cache, get_object, add_object, add_line, find_line, strncpy, insert_cache_line,
}
use computer_systems_practic.Proxy.Request.{
  Str, crlf, word, skip_space, after_word, strcat, parse_uri, add_request_header, read_headers,
  complete_request_header, generate_request, build_request,
}
use computer_systems_practic.Proxy.Cache.Chain.{IsCache}
use computer_systems_practic.Proxy.Request.{Target}
use computer_systems_practic.Proxy.Request.Headers.{
  Line, request_text, kept, path_or_slash, build_request-request_text,
}
use computer_systems_practic.Proxy.Request.Uri.{
  IsPlain, uri_of, port_part, path_part, parse_uri-uri_of,
}
use computer_systems_practic.Proxy.Handle.Overflow.{handle_request_overflows}
use computer_systems_practic.Proxy.Handle.Cached.{IsGet, handle_request-twice}
use computer_systems_practic.Proxy.Handle.{
  Server, Handled, answered, faults, walking, method_of, uri_in, read_response, forward_request,
  handle_miss, handle_request,
}

abbrev fresh : Cache
fresh = record {
  c_head = none;
  c_tail = none;
  remain_size = 1049000;
  lines = λ a. none;
  next_free = 0;
}

abbrev hello : Server
hello host port req = (codes "<p>" ++ port) ∷ codes "</p>" ∷ []

abbrev line : Str
line = codes "GET http://a.b:81/c HTTP/1.1" ++ crlf

abbrev answer : Handled → List Str
answer (answered sent c) = sent
answer faults = []
answer walking = []

abbrev no_char : ℕ → Str → Bool
no_char c [] = true
no_char c (d ∷ s) = not (d == c) && no_char c s

Without-test : (c : ℕ) (s : Str) → no_char c s ≡ true → Without c s
Without-test c [] h = tt
Without-test c (d ∷ s) h = (ground arith, Without-test c s (ground arith))

first_answer :
    answer (handle_request 1 line (crlf ∷ []) hello fresh) ≡ codes "<p>81" ∷ codes "</p>" ∷ []
unfolding handle_request method_of uri_in word skip_space after_word handle_miss parse_uri strcat
    c_str index_of build_request read_headers add_request_header complete_request_header
    generate_request forward_request read_response get_object add_object add_line find_line strncpy
    insert_cache_line
first_answer = refl

fresh-IsCache : IsCache fresh []
fresh-IsCache = record { chain = refl; tail = refl; distinct = tt; allocated = tt }

abbrev the_target : Target
the_target = record { host = codes "a.b"; port = codes "81"; path = codes "/c" }

parsed : parse_uri (uri_in line) ≡ some the_target
unfolding parse_uri uri_in word skip_space after_word strcat c_str index_of
parsed = refl

line-IsGet : IsGet line
unfolding method_of uri_in word skip_space after_word
line-IsGet = (refl, refl)

plain_fits : length (request_text [] the_target) < 102400
unfolding request_text kept path_or_slash
plain_fits = ltb→lt (length (request_text [] the_target)) 102400 refl

plain_request : build_request (crlf ∷ []) the_target ≡ some (request_text [] the_target)
plain_request = build_request-request_text [] [] the_target tt plain_fits

line_short : length (uri_in line) < 8192
unfolding uri_in word skip_space after_word
line_short = ltb→lt (length (uri_in line)) 8192 refl

handle_request-twice_example :
    (kept : List ℕ) × (gone : List ℕ) × (c1 : Cache) × (c2 : Cache) × (handle_request 1 line
        (crlf ∷ [])
        hello
        fresh
      ≡ answered (codes "<p>81" ∷ codes "</p>" ∷ []) c1)
    × (handle_request 1 line [] (λ h p r. []) c1 ≡ answered (codes "<p>81</p>" ∷ []) c2)
    × ([] ≡ kept ++ gone)
    × IsCache c2 (0 ∷ kept)
handle_request-twice_example =
    handle_request-twice 0 line line (crlf ∷ []) [] hello (λ h p r. []) fresh [] the_target
      (request_text [] the_target) line-IsGet line-IsGet refl line_short parsed plain_request
      (Without-test 0 (codes "<p>81</p>") refl) (omega arith) fresh-IsCache refl (omega arith) tt

-- A server whose response has MAX_OBJECT_SIZE characters.
abbrev flood : Server
flood host port req = replicate 102400 b'x' ∷ []

flood-Without : (n : ℕ) → Without 0 (replicate n b'x' ++ [])
flood-Without zero = tt
flood-Without (suc n) = (omega arith, flood-Without n)

flood_size : (n : ℕ) → length {A = ℕ} (replicate n b'x' ++ []) ≡ n
flood_size zero = refl
flood_size (suc n) = ap suc (flood_size n)

handle_request_overflows_example : handle_request 1 line (crlf ∷ []) flood fresh ≡ faults
handle_request_overflows_example =
    handle_request_overflows 1 line (crlf ∷ []) flood fresh [] the_target
      (request_text [] the_target) line-IsGet parsed plain_request (flood-Without 102400)
      (omega (arith, flood_size 102400)) fresh-IsCache (omega arith) tt

a_host : IsPlain (b'a' ∷ [])
a_host = ((omega arith, omega arith, omega arith, refl), tt)

parse_uri-uri_of_example :
    parse_uri (uri_of ((b'a' ∷ [] ++ port_part (some (b'8' ∷ []))) ++ path_part (some (b'c' ∷ []))))
    ≡ some (record { host = b'a' ∷ []; port = b'8' ∷ []; path = b'/' ∷ b'c' ∷ [] })
parse_uri-uri_of_example =
    parse_uri-uri_of (b'a' ∷ []) (some (b'8' ∷ [])) (some (b'c' ∷ [])) a_host
      (((omega arith, omega arith, omega arith, refl), tt), omega arith) ((omega arith, refl), tt)

abbrev two_lines : List Line
two_lines =
    record { name = codes "Connection"; value = codes " keep-alive" ++ crlf }
    ∷ record { name = codes "Host"; value = codes " a.b" ++ crlf }
    ∷ []
