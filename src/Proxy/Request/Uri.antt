-- ===== src/Proxy/Request/Uri.antt =====
-- What `parse_uri` of proxy.c takes out of a uri.
use mathlib.Core.List.{append_assoc, append-nil}
use computer_systems_practic.Prelude.{
  ℕ, ◌<◌, ◌≡◌, refl, sym, ap, ◌∙◌, ◌≢◌, false, Option, none, some, List, [], ◌∷◌, ◌++◌, arith, ltb,
  if◌then◌else◌, length, drop, set, All, All-append, length-append, drop-append, drop-append_suc,
  All-map, set-append, codes, c_str, c_str-append, index_of, index_of-append, index_of-Without,
  Without, ◌>>=◌,
}
use computer_systems_practic.Proxy.Request.{
  Str, is_space, skip_space, word, strcat, Target, cut_at, path_text, port_text, parse_uri,
}

-- Characters of a host or a port.
abbrev pub IsPlain : Str → Type 0
IsPlain s = All (λ c. (c ≢ 0) × (c ≢ b'/') × (c ≢ b':') × (is_space c ≡ false)) s

-- Characters of a path.
abbrev pub IsPath : Str → Type 0
IsPath s = All (λ c. (c ≢ 0) × (is_space c ≡ false)) s

abbrev IsWord : Str → Type 0
IsWord s = All (λ c. is_space c ≡ false) s

word-IsWord : (s : Str) → IsWord s → word s ≡ s
unfolding word
word-IsWord [] a = refl
word-IsWord (c ∷ s) (h, a) = rw (h, word-IsWord s a) refl

-- A text with no white space is one word.
skip_space-IsWord : (s : Str) → IsWord s → word (skip_space s) ≡ s
unfolding skip_space
skip_space-IsWord [] a = word-IsWord [] tt
skip_space-IsWord (c ∷ s) (h, a) = rw h (word-IsWord (c ∷ s) (h, a))

IsPlain-Without : (s : Str) → IsPlain s → Without 0 s × Without b'/' s × Without b':' s × IsWord s
IsPlain-Without s a = (
  All-map (λ c h. h.0) s a,
  All-map (λ c h. h.1) s a,
  All-map (λ c h. h.2) s a,
  All-map (λ c h. h.3) s a,
)

-- Where the text has its first slash behind s.
module _ (s q : Str) (no_slash : Without b'/' s) (no_zero : Without 0 q) where
  abbrev text : Str
  text = s ++ b'/' ∷ q

  abbrev array : List ℕ
  array = text ++ 0 ∷ []

  path_pos_lem : index_of b'/' text ≡ some (length s)
  path_pos_lem = index_of-append b'/' s q no_slash

  cut_path : cut_at (index_of b'/' text) array ≡ s ++ 0 ∷ (q ++ 0 ∷ [])
  cut_path =
      ap (λ p. cut_at p array) path_pos_lem
      ∙ ap (λ a. set a (length s) 0) (append_assoc s (b'/' ∷ q) (0 ∷ []))
      ∙ set-append s (q ++ 0 ∷ []) 0 b'/'

  path_text_lem : path_text (index_of b'/' text) array ≡ b'/' ∷ q
  path_text_lem =
      ap (λ p. path_text p array) path_pos_lem
      ∙ ap (λ a. c_str (drop (length s) a)) (append_assoc s (b'/' ∷ q) (0 ∷ []))
      ∙ ap c_str (drop-append s (b'/' ∷ (q ++ 0 ∷ [])))
      ∙ c_str-append (b'/' ∷ q) [] (omega arith, no_zero)

-- Where a colon stands behind h, and p up to the next zero.
module _ (h p z : Str) (no_zero : Without 0 p) where
  port_text_lem : port_text (some (length h)) (h ++ b':' ∷ (p ++ 0 ∷ z)) ≡ strcat 8 [] p
  port_text_lem =
      ap (λ a. strcat 8 [] (c_str a)) (drop-append_suc h (p ++ 0 ∷ z) b':')
      ∙ ap (strcat 8 []) (c_str-append p z no_zero)

  host_lem : Without 0 h → c_str (cut_at (some (length h)) (h ++ b':' ∷ (p ++ 0 ∷ z))) ≡ h
  host_lem no_zero' =
      ap c_str (set-append h (p ++ 0 ∷ z) 0 b':') ∙ c_str-append h (p ++ 0 ∷ z) no_zero'

-- The uri of a text behind the protocol.
abbrev pub uri_of : Str → Str
uri_of t = codes "http://" ++ t

-- `parse_uri` by its pieces.
parse_uri-by :
    (t array1 pa ho : Str) (po : Option Str)
    → IsWord t
    → cut_at (index_of b'/' t) (t ++ 0 ∷ []) ≡ array1
    → path_text (index_of b'/' t) (t ++ 0 ∷ []) ≡ pa
    → port_text (index_of b':' t) array1 ≡ po
    → c_str (cut_at (index_of b':' t) array1) ≡ ho
    → parse_uri (uri_of t) ≡ (po >>= λ port. some (record { host = ho; port = port; path = pa }))
unfolding parse_uri
parse_uri-by t array1 pa ho po w e1 e2 e3 e4 =
    rw (parse_uri, skip_space-IsWord t w, e1, e2, e3, e4) refl

abbrev pub port_part : Option Str → Str
port_part none = []
port_part (some p) = b':' ∷ p

abbrev pub path_part : Option Str → Str
path_part none = []
path_part (some q) = b'/' ∷ q

abbrev pub port_or_80 : Option Str → Str
port_or_80 none = codes "80"
port_or_80 (some p) = p

-- A port fits its array, and a path has no colon where there is no port.
abbrev pub IsPort : Option Str → Type 0
IsPort none = Unit
IsPort (some p) = IsPlain p × (length p < 8)

abbrev pub IsPathOf : (port path : Option Str) → Type 0
IsPathOf port none = Unit
IsPathOf none (some q) = IsPath q × Without b':' q
IsPathOf (some p) (some q) = IsPath q

strcat_fits : (p : Str) → length p < 8 → strcat 8 [] p ≡ some p
unfolding strcat
strcat_fits p h = ground arith

IsPath-IsWord : (q : Str) → IsPath q → Without 0 q × IsWord q
IsPath-IsWord q a = (All-map (λ c h. h.0) q a, All-map (λ c h. h.1) q a)

IsWord-append : (s t : Str) → IsWord s → IsWord t → IsWord (s ++ t)
IsWord-append s t a b = All-append (λ c. is_space c ≡ false) s t a b

-- The host and the port before a slash.
with_port :
    (h p q : Str)
    → IsPlain h
    → IsPlain p
    → length p < 8
    → IsPath q
    → parse_uri (uri_of ((h ++ b':' ∷ p) ++ b'/' ∷ q))
      ≡ some (record { host = h; port = p; path = b'/' ∷ q })
with_port h p q ih ip fits iq =
    let (h0, h_slash, h_colon, h_word) = IsPlain-Without h ih in
    let (p0, p_slash, p_colon, p_word) = IsPlain-Without p ip in
    let (q0, q_word) = IsPath-IsWord q iq in
    let front = h ++ b':' ∷ p in
    let no_slash : Without b'/' front =
      All-append (λ d. d ≢ b'/') h (b':' ∷ p) h_slash (omega arith, p_slash) in
    let t_word : IsWord (front ++ b'/' ∷ q) =
      IsWord-append front (b'/' ∷ q) (IsWord-append h (b':' ∷ p) h_word (refl, p_word))
        (refl, q_word) in
    let colon : index_of b':' (front ++ b'/' ∷ q) ≡ some (length h) =
      ap (index_of b':') (append_assoc h (b':' ∷ p) (b'/' ∷ q))
      ∙ index_of-append b':' h (p ++ b'/' ∷ q) h_colon in
    let array1 = h ++ b':' ∷ (p ++ 0 ∷ (q ++ 0 ∷ [])) in
    let cut = cut_path front q no_slash q0 ∙ append_assoc h (b':' ∷ p) (0 ∷ (q ++ 0 ∷ [])) in
    parse_uri-by (front ++ b'/' ∷ q) array1 (b'/' ∷ q) h (some p) t_word cut
      (path_text_lem front q no_slash q0)
      (ap (λ i. port_text i array1) colon ∙ port_text_lem h p (q ++ 0 ∷ []) p0 ∙ strcat_fits p fits)
      (ap (λ i. c_str (cut_at i array1)) colon ∙ host_lem h p (q ++ 0 ∷ []) p0 h0)

port_only :
    (h p : Str)
    → IsPlain h
    → IsPlain p
    → length p < 8
    → parse_uri (uri_of (h ++ b':' ∷ p)) ≡ some (record { host = h; port = p; path = [] })
port_only h p ih ip fits =
    let (h0, h_slash, h_colon, h_word) = IsPlain-Without h ih in
    let (p0, p_slash, p_colon, p_word) = IsPlain-Without p ip in
    let t = h ++ b':' ∷ p in
    let no_path : index_of b'/' t ≡ none =
      index_of-Without b'/' t
        (All-append (λ d. d ≢ b'/') h (b':' ∷ p) h_slash (omega arith, p_slash)) in
    let colon = index_of-append b':' h p h_colon in
    let array1 = h ++ b':' ∷ (p ++ 0 ∷ []) in
    parse_uri-by t array1 [] h (some p) (IsWord-append h (b':' ∷ p) h_word (refl, p_word))
      (ap (λ i. cut_at i (t ++ 0 ∷ [])) no_path ∙ append_assoc h (b':' ∷ p) (0 ∷ []))
      (ap (λ i. path_text i (t ++ 0 ∷ [])) no_path)
      (ap (λ i. port_text i array1) colon ∙ port_text_lem h p [] p0 ∙ strcat_fits p fits)
      (ap (λ i. c_str (cut_at i array1)) colon ∙ host_lem h p [] p0 h0)

path_only :
    (h q : Str)
    → IsPlain h
    → IsPath q
    → Without b':' q
    → parse_uri (uri_of (h ++ b'/' ∷ q))
      ≡ some (record { host = h; port = codes "80"; path = b'/' ∷ q })
path_only h q ih iq q_colon =
    let (h0, h_slash, h_colon, h_word) = IsPlain-Without h ih in
    let (q0, q_word) = IsPath-IsWord q iq in
    let t = h ++ b'/' ∷ q in
    let no_port : index_of b':' t ≡ none =
      index_of-Without b':' t
        (All-append (λ d. d ≢ b':') h (b'/' ∷ q) h_colon (omega arith, q_colon)) in
    let array1 = h ++ 0 ∷ (q ++ 0 ∷ []) in
    parse_uri-by t array1 (b'/' ∷ q) h (some (codes "80"))
      (IsWord-append h (b'/' ∷ q) h_word (refl, q_word)) (cut_path h q h_slash q0)
      (path_text_lem h q h_slash q0) (ap (λ i. port_text i array1) no_port)
      (ap (λ i. c_str (cut_at i array1)) no_port ∙ c_str-append h (q ++ 0 ∷ []) h0)

host_only :
    (h : Str)
    → IsPlain h
    → parse_uri (uri_of h) ≡ some (record { host = h; port = codes "80"; path = [] })
host_only h ih =
    let (h0, h_slash, h_colon, h_word) = IsPlain-Without h ih in
    let no_port = index_of-Without b':' h h_colon in
    let no_path = index_of-Without b'/' h h_slash in
    let array1 = h ++ 0 ∷ [] in
    parse_uri-by h array1 [] h (some (codes "80")) h_word (ap (λ i. cut_at i array1) no_path)
      (ap (λ i. path_text i array1) no_path) (ap (λ i. port_text i array1) no_port)
      (ap (λ i. c_str (cut_at i array1)) no_port ∙ c_str-append h [] h0)

-- `parse_uri` reads back a uri that is put together from a host, a port if any and a path if any: the
-- host and the port have no white space, NUL, slash or colon, the port less than 8 characters, the path
-- no white space or NUL, and no colon where there is no port. Without a port it is 80, and without a
-- path that is empty.
pub parse_uri-uri_of :
    (h : Str) (port path : Option Str)
    → IsPlain h
    → IsPort port
    → IsPathOf port path
    → parse_uri (uri_of ((h ++ port_part port) ++ path_part path))
      ≡ some (record { host = h; port = port_or_80 port; path = path_part path })
parse_uri-uri_of h none none ih ip iq =
    ap (λ t. parse_uri (uri_of t)) (append-nil (h ++ []) ∙ append-nil h) ∙ host_only h ih
parse_uri-uri_of h none (some q) ih ip iq = rw append-nil (path_only h q ih iq.0 iq.1)
parse_uri-uri_of h (some p) none ih ip iq = rw append-nil (port_only h p ih ip.0 ip.1)
parse_uri-uri_of h (some p) (some q) ih ip iq = with_port h p q ih ip.0 ip.1 iq

abbrev target : (host port path : Str) → Target
target h p path = record { host = h; port = p; path = path }

port_fits :
    (h r path : Str)
    → (strcat 8 [] r >>= λ port. some (target h port path))
      ≡ (if ltb (length r) 8 then some (target h r path) else none)
unfolding strcat
port_fits h r path = ground arith

-- For a host without port, white space, NUL, slash or colon, and a path with a colon and without white
-- space or NUL: what stands behind the first colon of the path becomes the port, and where that has 8
-- characters or more it is written past the end of `port`.
parse_uri_colon :
    (h q r : Str)
    → IsPlain h
    → IsPath q
    → Without b':' q
    → IsPath r
    → parse_uri (uri_of (h ++ b'/' ∷ (q ++ b':' ∷ r))) ≡ (
        if ltb (length r) 8
        then some (record { host = h; port = r; path = b'/' ∷ (q ++ b':' ∷ r) })
        else none)
parse_uri_colon h q r ih iq q_colon ir =
    let (h0, h_slash, h_colon, h_word) = IsPlain-Without h ih in
    let (q0, q_word) = IsPath-IsWord q iq in
    let (r0, r_word) = IsPath-IsWord r ir in
    let q' = q ++ b':' ∷ r in
    let q'0 : Without 0 q' = All-append (λ d. d ≢ 0) q (b':' ∷ r) q0 (omega arith, r0) in
    let t = h ++ b'/' ∷ q' in
    let t_word : IsWord t =
      IsWord-append h (b'/' ∷ q') h_word (refl, IsWord-append q (b':' ∷ r) q_word (refl, r_word)) in
    let g = h ++ 0 ∷ q in
    let same : length (h ++ b'/' ∷ q) ≡ length g =
      omega (arith, length-append h (b'/' ∷ q), length-append h (0 ∷ q)) in
    let front : Without b':' (h ++ b'/' ∷ q) =
      All-append (λ d. d ≢ b':') h (b'/' ∷ q) h_colon (omega arith, q_colon) in
    let colon : index_of b':' t ≡ some (length g) =
      ap (index_of b':') (sym (append_assoc h (b'/' ∷ q) (b':' ∷ r)))
      ∙ index_of-append b':' (h ++ b'/' ∷ q) r front
      ∙ ap some same in
    let array1 = g ++ b':' ∷ (r ++ 0 ∷ []) in
    let shape : h ++ 0 ∷ (q' ++ 0 ∷ []) ≡ array1 =
      ap (λ w. h ++ 0 ∷ w) (append_assoc q (b':' ∷ r) (0 ∷ []))
      ∙ sym (append_assoc h (0 ∷ q) (b':' ∷ (r ++ 0 ∷ []))) in
    let host : c_str (cut_at (some (length g)) array1) ≡ h =
      ap c_str (set-append g (r ++ 0 ∷ []) 0 b':' ∙ append_assoc h (0 ∷ q) (0 ∷ (r ++ 0 ∷ [])))
      ∙ c_str-append h (q ++ 0 ∷ (r ++ 0 ∷ [])) h0 in
    parse_uri-by t array1 (b'/' ∷ q') h (strcat 8 [] r) t_word (cut_path h q' h_slash q'0 ∙ shape)
      (path_text_lem h q' h_slash q'0)
      (ap (λ i. port_text i array1) colon ∙ port_text_lem g r [] r0)
      (ap (λ i. c_str (cut_at i array1)) colon ∙ host)
    ∙ port_fits h r (b'/' ∷ q')
