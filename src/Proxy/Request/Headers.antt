-- ===== src/Proxy/Request/Headers.antt =====
-- The request that proxy.c sends on, line by line.
use mathlib.Core.List.{append_assoc, append-nil}
use computer_systems_practic.Prelude.{
  ℕ, ◌+◌, ◌≤◌, ◌<◌, ◌≡◌, refl, ap, ◌∙◌, Bool, false, ◌||◌, none, some, List, [], ◌∷◌, ◌++◌, map,
  arith, if◌then◌else◌, Bool-cases, inl, inr, length, take, All, length-append, take-append, codes,
  str_beq, str_beq_eq, index_of, index_of-append, Without, ◌>>=◌,
}
use computer_systems_practic.Proxy.Request.{
  Str, max_object_size, crlf, connection, proxy_connection, accept_hdr, accept_encoding, strcat,
  Target, Flags, key_of, is_dropped, add_request_header, read_headers, default_lines,
  complete_request_header, generate_request, build_request,
}

-- A header line with its name and what follows the colon, the end of line included.
pub record Line : Type 0 where
  pub name : Str
  pub value : Str

abbrev pub line_of : Line → Str
line_of l = l.name ++ b':' ∷ l.value

abbrev pub IsLine : Line → Type 0
IsLine l = Without b':' l.name

-- The lines of the client that are sent on.
unfoldable pub kept : List Line → Str
kept [] = []
kept (l ∷ ls) = (if is_dropped l.name then [] else line_of l) ++ kept ls

-- Does a line have the name?
abbrev pub is_named : Str → List Line → Bool
is_named s [] = false
is_named s (l ∷ ls) = str_beq l.name s || is_named s ls

key_of-line : (l : Line) → IsLine l → key_of (line_of l) ≡ some l.name
key_of-line l h =
    ap (λ o. o >>= λ i. some (take i (line_of l))) (index_of-append b':' l.name l.value h)
    ∙ ap some (take-append l.name (b':' ∷ l.value))

-- A line with a colon is not the empty line.
line-ne-crlf : (l : Line) → IsLine l → str_beq (line_of l) crlf ≡ false
unfolding index_of
line-ne-crlf l h = elim (Bool-cases (str_beq (line_of l) crlf)) [
  | inr other ↦ other
  | inl same ↦
      let e : index_of b':' (line_of l) ≡ none =
        ap (index_of b':') (str_beq_eq (line_of l) crlf same) in
      let found = index_of-append b':' l.name l.value h in cc
]

pub strcat_fits :
    (size : ℕ) (dst src : Str)
    → length dst + length src < size
    → strcat size dst src ≡ some (dst ++ src)
unfolding strcat
strcat_fits size dst src h = ground arith

pub strcat_past :
    (size : ℕ) (dst src : Str) → size ≤ length dst + length src → strcat size dst src ≡ none
unfolding strcat
strcat_past size dst src h = ground arith

-- A line goes to the header unless its name is dropped, and the flags tell its name.
add_line :
    (header : Str) (l : Line) (flags : Flags)
    → IsLine l
    → length header + length (if is_dropped l.name then [] else line_of l) < max_object_size
    → add_request_header header (line_of l) flags
      ≡ some (
        header ++ (if is_dropped l.name then [] else line_of l),
        record {
          has_host = flags.has_host || str_beq l.name (codes "Host");
          has_agent = flags.has_agent || str_beq l.name (codes "User-Agent");
        },
      )
unfolding add_request_header
add_line header l flags h fits =
    let key = key_of-line l h in
    let put : is_dropped l.name ≡ false
        → strcat max_object_size header (line_of l) ≡ some (header ++ line_of l) =
      λ stays. strcat_fits max_object_size header (line_of l) (ground arith) in
    elim (Bool-cases (str_beq l.name (codes "Host"))) [
      | inl host ↦
          let e = str_beq_eq l.name (codes "Host") host in
          let kept_line : is_dropped l.name ≡ false = rw e refl in
          let other : str_beq l.name (codes "User-Agent") ≡ false = rw e refl in
          rw (add_request_header, key, host, put kept_line, kept_line, other) (ground arith)
      | inr no_host ↦ elim (Bool-cases (str_beq l.name (codes "User-Agent"))) [
        | inl agent ↦
            let e = str_beq_eq l.name (codes "User-Agent") agent in
            let kept_line : is_dropped l.name ≡ false = rw e refl in
            rw (add_request_header, key, no_host, agent, put kept_line, kept_line) (ground arith)
        | inr no_agent ↦ elim (Bool-cases (is_dropped l.name)) [
          | inl gone ↦
              rw (add_request_header, key, no_host, no_agent, gone) (rw append-nil (ground arith))
          | inr stays ↦
              rw (add_request_header, key, no_host, no_agent, stays, put stays) (ground arith)
        ]
      ]
    ]

-- The flags behind a line, and behind some lines.
abbrev flags_with : Flags → Line → Flags
flags_with flags l = record {
  has_host = flags.has_host || str_beq l.name (codes "Host");
  has_agent = flags.has_agent || str_beq l.name (codes "User-Agent");
}

abbrev flags_of : Flags → List Line → Flags
flags_of flags ls = record {
  has_host = flags.has_host || is_named (codes "Host") ls;
  has_agent = flags.has_agent || is_named (codes "User-Agent") ls;
}

read_headers-kept :
    (ls : List Line) (rest : List Str) (header : Str) (flags : Flags)
    → All IsLine ls
    → length header + length (kept ls) < max_object_size
    → read_headers (map line_of ls ++ crlf ∷ rest) header flags
      ≡ some (header ++ kept ls, flags_of flags ls)
unfolding read_headers kept
read_headers-kept [] rest header flags a fits = rw append-nil (ground arith)
read_headers-kept (l ∷ ls) rest header flags (h, a) fits =
    let piece = if is_dropped l.name then [] else line_of l in
    let fits' : length header + length piece + length (kept ls) < max_object_size =
      omega (arith, length-append piece (kept ls)) in
    let one = add_line header l flags h (omega arith) in
    let others =
      read_headers-kept ls rest (header ++ piece) (flags_with flags l) a
        (omega (arith, length-append header piece)) in
    rw (read_headers, line-ne-crlf l h, one, others, append_assoc) (ground arith)

-- The request for a path, or / where there is none, with what stands behind the kept lines.
unfoldable pub path_or_slash : Str → Str
path_or_slash [] = b'/' ∷ []
path_or_slash (c ∷ p) = c ∷ p

abbrev no_flags : Flags
no_flags = record { has_host = false; has_agent = false }

unfoldable pub request_text : List Line → Target → Str
request_text ls target =
    (codes "GET " ++ (path_or_slash target.path ++ (codes " HTTP/1.0" ++ crlf)))
    ++ ((kept ls
          ++ (default_lines (flags_of no_flags ls) target.host
              ++ (connection ++ (proxy_connection ++ (accept_hdr ++ accept_encoding)))))
        ++ crlf)

generate_request_lem :
    (path header : Str)
    → length
        ((codes "GET " ++ (path_or_slash path ++ (codes " HTTP/1.0" ++ crlf))) ++ (header ++ crlf))
      < max_object_size
    → generate_request path header
      ≡ some (
          (codes "GET " ++ (path_or_slash path ++ (codes " HTTP/1.0" ++ crlf))) ++ (header ++ crlf))
unfolding generate_request path_or_slash strcat
generate_request_lem [] header fits = ground (arith, fits)
generate_request_lem (c ∷ p) header fits =
    let first = codes "GET " ++ ((c ∷ p) ++ (codes " HTTP/1.0" ++ crlf)) in
    strcat_fits max_object_size first (header ++ crlf)
      (omega (arith, length-append first (header ++ crlf)))

pub build_request-request_text :
    (ls : List Line) (rest : List Str) (target : Target)
    → All IsLine ls
    → length (request_text ls target) < max_object_size
    → build_request (map line_of ls ++ crlf ∷ rest) target ≡ some (request_text ls target)
unfolding build_request request_text complete_request_header
build_request-request_text ls rest target a fits =
    let first = codes "GET " ++ (path_or_slash target.path ++ (codes " HTTP/1.0" ++ crlf)) in
    let flags = flags_of no_flags ls in
    let tail =
      default_lines flags target.host
      ++ (connection ++ (proxy_connection ++ (accept_hdr ++ accept_encoding))) in
    let header = kept ls ++ tail in
    let size = length-append first (header ++ crlf) in
    let size' = length-append header crlf in
    let size'' = length-append (kept ls) tail in
    let read = read_headers-kept ls rest [] no_flags a (omega arith) in
    let complete : complete_request_header (kept ls) target.host flags ≡ some header =
      strcat_fits max_object_size (kept ls) tail (omega arith) in
    rw (build_request, read, complete) (generate_request_lem target.path header fits)
