-- ===== src/Proxy/Request.antt =====
-- The text of requests in proxy lab/proxylab-handout/proxy.c: the checks of the command line, the uri,
-- the header lines and the request that is sent on. A string is the list of its characters without the
-- NUL. `none` is a write past the end of an array.
pub mod Uri
pub mod Headers
use computer_systems_practic.Prelude.{
  ℕ, zero, suc, ◌+◌, Bool, true, false, ◌&&◌, ◌||◌, Option, none, some, List, [], ◌∷◌, ◌++◌, ◌==◌,
  ltb, leb, if◌then◌else◌, length, take, drop, set, str_beq, codes, c_str, index_of, ◌>>=◌,
}

abbrev pub Str : Type 0
Str = List ℕ

abbrev pub max_object_size : ℕ
max_object_size = 102400

abbrev pub crlf : Str
crlf = 13 ∷ 10 ∷ []

abbrev pub user_agent_hdr : Str
user_agent_hdr =
    codes "User-Agent: Mozilla/5.0 (X11; Linux x86_64; rv:10.0.3) Gecko/20120305 Firefox/10.0.3"
    ++ crlf

abbrev pub connection : Str
connection = codes "Connection: close" ++ crlf

abbrev pub proxy_connection : Str
proxy_connection = codes "Proxy-Connection: close" ++ crlf

abbrev pub accept_hdr : Str
accept_hdr = codes "Accept: text/html,application/xhtml+xml,application/xml;q=0.9,*/*;q=0.8" ++ crlf

abbrev pub accept_encoding : Str
accept_encoding = codes "Accept-Encoding: gzip, deflate" ++ crlf

-- `arg_is_valid`: 1 or 0.
unfoldable pub arg_is_valid : Str → ℕ
arg_is_valid [] = 1
arg_is_valid (c ∷ arg) = let rest = arg_is_valid arg in if ltb c b'0' || ltb b'9' c then 0 else rest

-- The checks of `main` on argv: the port, or none where it exits.
unfoldable pub check_args : (atoi : Str → ℕ) → List Str → Option ℕ
unfolding arg_is_valid
check_args atoi (name ∷ arg ∷ []) =
    if arg_is_valid arg == 0
    then none
    else if ltb (atoi arg) 1024 || ltb 65535 (atoi arg)
    then none
    else some (atoi arg)
check_args atoi _ = none

-- %s of sscanf: the characters up to white space, after white space, and what is left.
abbrev pub is_space : ℕ → Bool
is_space c = (c == 32) || (leb 9 c && leb c 13)

unfoldable pub skip_space : Str → Str
skip_space [] = []
skip_space (c ∷ s) = let rest = skip_space s in if is_space c then rest else c ∷ s

unfoldable pub word : Str → Str
word [] = []
word (c ∷ s) = let rest = word s in if is_space c then [] else c ∷ rest

unfoldable pub after_word : Str → Str
after_word [] = []
after_word (c ∷ s) = let rest = after_word s in if is_space c then c ∷ s else rest

-- strcpy and strcat into an array of a size that holds `dst`.
unfoldable pub strcat : (size : ℕ) → Str → Str → Option Str
strcat size dst src = if ltb (length dst + length src) size then some (dst ++ src) else none

-- What `parse_uri` leaves in its three arrays. The array of the port has 8 characters; the others are
-- as large as the uri's.
pub record Target : Type 0 where
  pub host : Str
  pub port : Str
  pub path : Str

-- sscanf(uri, "http://%s", host) for a uri that begins so; `host` was empty before.
abbrev pub host_text : Str → Str
host_text uri = word (skip_space (drop 7 uri))

-- The array with its NUL, and the writes through `path_pos` and `port_pos`, which are found before.
abbrev pub cut_at : Option ℕ → List ℕ → List ℕ
cut_at none array = array
cut_at (some i) array = set array i 0

abbrev pub path_text : Option ℕ → List ℕ → Str
path_text none array = []
path_text (some i) array = c_str (drop i array)

abbrev pub port_text : Option ℕ → List ℕ → Option Str
port_text none array = some (codes "80")
port_text (some i) array = strcat 8 [] (c_str (drop (i + 1) array))

unfoldable pub parse_uri : Str → Option Target
unfolding word skip_space c_str index_of strcat
parse_uri uri =
    let array = host_text uri ++ 0 ∷ [] in
    let path_pos = index_of b'/' (host_text uri) in
    let port_pos = index_of b':' (host_text uri) in
    let array1 = cut_at path_pos array in
    port_text port_pos array1 >>= λ port.
    some (record {
      host = c_str (cut_at port_pos array1);
      port = port;
      path = path_text path_pos array;
    })

-- The array `flags`.
pub record Flags : Type 0 where
  pub has_host : Bool
  pub has_agent : Bool

-- The name of a header line; without a colon strncpy gets a negative length and writes past `key`.
abbrev pub key_of : Str → Option Str
key_of buffer = index_of b':' buffer >>= λ i. some (take i buffer)

abbrev pub is_dropped : Str → Bool
is_dropped key =
    str_beq key (codes "Connection")
    || (str_beq key (codes "Proxy-Connection")
        || (str_beq key (codes "Accept") || str_beq key (codes "Accept-Encoding")))

unfoldable pub add_request_header : (header buffer : Str) → Flags → Option (Str × Flags)
unfolding index_of strcat
add_request_header header buffer flags = key_of buffer >>= λ key.
    if str_beq key (codes "Host")
    then (strcat max_object_size header buffer >>= λ h. some (h, record flags { has_host = true }))
    else if str_beq key (codes "User-Agent")
    then (strcat max_object_size header buffer >>= λ h. some (h, record flags { has_agent = true }))
    else if is_dropped key
    then some (header, flags)
    else (strcat max_object_size header buffer >>= λ h. some (h, flags))

-- The loop over the header lines, up to the empty one. Where the input ends before that, `buffer` is
-- empty and has no colon.
unfoldable pub read_headers : List Str → (header : Str) → Flags → Option (Str × Flags)
unfolding add_request_header
read_headers [] header flags = add_request_header header [] flags
read_headers (line ∷ lines) header flags =
    let rest = add_request_header header line flags >>= λ (h, f). read_headers lines h f in
    if str_beq line crlf then some (header, flags) else rest

-- The lines that are put behind the client's.
abbrev pub default_lines : Flags → (host : Str) → Str
default_lines flags host =
    (if flags.has_host then [] else codes "Host: " ++ (host ++ crlf))
    ++ (if flags.has_agent then [] else user_agent_hdr)

unfoldable pub complete_request_header : (header host : Str) → Flags → Option Str
unfolding strcat
complete_request_header header host flags = strcat max_object_size header (
    default_lines flags host
    ++ (connection ++ (proxy_connection ++ (accept_hdr ++ accept_encoding))))

unfoldable pub generate_request : (path header : Str) → Option Str
unfolding strcat
generate_request path header =
    let path' = if str_beq path [] then b'/' ∷ [] else path in
    let first = codes "GET " ++ (path' ++ (codes " HTTP/1.0" ++ crlf)) in
    strcat max_object_size first (header ++ crlf)

-- The request that is sent on, from the lines behind the first and what `parse_uri` found.
unfoldable pub build_request : (lines : List Str) → Target → Option Str
unfolding read_headers complete_request_header generate_request
build_request lines target =
    read_headers lines [] (record { has_host = false; has_agent = false }) >>= λ (header, flags).
    complete_request_header header target.host flags >>= λ complete.
    generate_request target.path complete
