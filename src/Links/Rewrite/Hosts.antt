-- ===== src/Links/Rewrite/Hosts.antt =====
-- A link that is rewritten leads to the new host and port.
use proxy_balacer.Base.{
  ℕ, zero, suc, ◌^◌, ◌≤◌, ◌<◌, ◌≡◌, refl, ap, ◌∙◌, Bytes, Bool, false, true, not, ◌&&◌, ◌||◌, [],
  ◌∷◌, ◌++◌, All, All-append, length, length-append, arith, if◌then◌else◌, ok, panic, Result, some,
  has_prefix, decimal, length-decimal, IsDigit, decimal-IsDigit, ◌==◌, append_assoc, le→leb, pos,
}
use proxy_balacer.Links.{Library, Values, extract_server_info, cut, vless_prefix, query_sni}
use proxy_balacer.Links.Server.{Without, cut-append, vless_link, extract-vless_link}
use proxy_balacer.Links.Rewrite.{
  Remarshal, digits_length, match_parts, match_length, replace_hosts, has_byte, keep_fragment,
  rewrite_raw_link,
}

-- What has no `@` is kept.
replace_kept :
    (new a t : Bytes) → Without b'@' a → replace_hosts new 0 (a ++ t) ≡ a ++ replace_hosts new 0 t
unfolding replace_hosts
replace_kept new [] t h = refl
replace_kept new (x ∷ a) t (p, h) = rw p (ap (◌∷◌ x) (replace_kept new a t h))

replace_all_kept : (new a : Bytes) → Without b'@' a → replace_hosts new 0 a ≡ a
unfolding replace_hosts
replace_all_kept new [] h = refl
replace_all_kept new (x ∷ a) (p, h) = rw p (ap (◌∷◌ x) (replace_all_kept new a h))

-- The rest of a match is skipped.
skipped :
    (new a t : Bytes) (n : ℕ) → n ≡ length a → replace_hosts new n (a ++ t) ≡ replace_hosts new 0 t
unfolding replace_hosts
skipped new [] t n e = ap (λ k. replace_hosts new k t) e
skipped new (x ∷ a) t zero e = absurd (omega arith)
skipped new (x ∷ a) t (suc n) e = skipped new a t n (omega arith)

digits_before : (s rest : Bytes) → All IsDigit s → digits_length (s ++ (b'?' ∷ rest)) ≡ length s
unfolding digits_length
digits_before [] rest h = refl
digits_before (c ∷ s) rest ((a, b), h) =
    rw (le→leb b'0' c a, le→leb c b'9' b) (ap suc (digits_before s rest h))

parts_lem :
    (host rest : Bytes) (port : ℕ)
    → 1 ≤ length host
    → match_parts (some (host, decimal port ++ (b'?' ∷ rest)))
      ≡ length (host ++ (b':' ∷ decimal port))
unfolding match_parts
parts_lem [] rest port h = absurd (omega arith)
parts_lem (x ∷ host) rest port h =
    rw (digits_before (decimal port) rest (decimal-IsDigit port))
      (ground (arith, length-decimal port, length-append host (b':' ∷ decimal port)))

matched :
    (host rest : Bytes) (port : ℕ)
    → 1 ≤ length host
    → Without b':' host
    → match_length ((host ++ (b':' ∷ decimal port)) ++ (b'?' ∷ rest))
      ≡ length (host ++ (b':' ∷ decimal port))
unfolding match_length
matched host rest port h k =
    ap (λ s. match_parts (cut b':' s)) (append_assoc host (b':' ∷ decimal port) (b'?' ∷ rest))
    ∙ ap match_parts (cut-append b':' host (decimal port ++ (b'?' ∷ rest)) k)
    ∙ parts_lem host rest port h

replace_at :
    (new s t : Bytes) (n : ℕ)
    → match_length (s ++ t) ≡ n
    → 1 ≤ n
    → n ≡ length s
    → replace_hosts new 0 (b'@' ∷ (s ++ t)) ≡ new ++ replace_hosts new 0 t
unfolding replace_hosts
replace_at new s t n e h k =
    let z : (n == 0) ≡ false = ground arith in rw (e, z) (ap (λ r. new ++ r) (skipped new s t n k))

-- A link with the text `x` between `@` and `?`.
abbrev with_host : Bytes → Bytes → Bytes → Bytes
with_host user x rest = vless_prefix ++ (user ++ (b'@' ∷ (x ++ (b'?' ∷ rest))))

prefix-Without : Without b'@' vless_prefix
prefix-Without = (refl, (refl, (refl, (refl, (refl, (refl, (refl, (refl, tt))))))))

replaced :
    (user host rest new : Bytes) (port : ℕ)
    → Without b'@' user
    → Without b'@' rest
    → 1 ≤ length host
    → Without b':' host
    → replace_hosts (b'@' ∷ new) 0 (with_host user (host ++ (b':' ∷ decimal port)) rest)
      ≡ with_host user new rest
replaced user host rest new port u r h k =
    let s = host ++ (b':' ∷ decimal port) in
    let t = b'?' ∷ rest in
    replace_kept (b'@' ∷ new) vless_prefix (user ++ (b'@' ∷ (s ++ t))) prefix-Without
    ∙ ap (λ x. vless_prefix ++ x)
        (replace_kept (b'@' ∷ new) user (b'@' ∷ (s ++ t)) u
          ∙ ap (λ x. user ++ x)
              (replace_at (b'@' ∷ new) s t (length s) (matched host rest port h k)
                  (omega (arith, length-append host (b':' ∷ decimal port))) refl
                ∙ ap (λ x. b'@' ∷ (new ++ x)) (replace_all_kept (b'@' ∷ new) t (refl, r))))

byte-append : (c : ℕ) (a b : Bytes) → has_byte c (a ++ b) ≡ (has_byte c a || has_byte c b)
unfolding has_byte
byte-append c [] b = refl
byte-append c (x ∷ a) b = ground (arith, byte-append c a b)

no_byte : (c : ℕ) (a : Bytes) → Without c a → has_byte c a ≡ false
unfolding has_byte
no_byte c [] h = refl
no_byte c (x ∷ a) (p, h) = rw (p, no_byte c a h) refl

byte_lem :
    (user x rest : Bytes)
    → has_byte b'#' (with_host user x rest)
      ≡ (has_byte b'#' user || (has_byte b'#' x || has_byte b'#' rest))
unfolding has_byte
byte_lem user x rest =
    byte-append b'#' user (b'@' ∷ (x ++ (b'?' ∷ rest)))
    ∙ ap (λ q. has_byte b'#' user || q) (byte-append b'#' x (b'?' ∷ rest))

cases :
    (a b c : Bool) (s : Bytes)
    → ◌≡◌ {A = Result (Unit {0}) Bytes}
        (if (a || (false || c)) && not (a || (b || c)) then panic else ok s)
        (ok s)
cases true b c s = refl
cases false true true s = refl
cases false true false s = refl
cases false false true s = refl
cases false false false s = refl

small-digits : (s : Bytes) → All IsDigit s → Without b'#' s
small-digits [] h = tt
small-digits (x ∷ s) ((a, b), h) = (ground arith, small-digits s h)

kept_lem :
    (user x y rest : Bytes)
    → has_byte b'#' x ≡ false
    → keep_fragment (with_host user x rest) (with_host user y rest) ≡ ok (with_host user y rest)
unfolding keep_fragment
kept_lem user x y rest h =
    rw (byte_lem user x rest, byte_lem user y rest, h)
      (cases (has_byte b'#' user) (has_byte b'#' y) (has_byte b'#' rest) (with_host user y rest))

rewrites_vless :
    (json : Remarshal) (s host : Bytes) (port : ℕ)
    → rewrite_raw_link json (vless_prefix ++ s) host port
      ≡ keep_fragment
          (vless_prefix ++ s)
          (replace_hosts (b'@' ∷ (host ++ (b':' ∷ decimal port))) 0 (vless_prefix ++ s))
unfolding rewrite_raw_link has_prefix
rewrites_vless json s host port = refl

link_parts :
    (user host rest : Bytes) (port : ℕ)
    → vless_link user host port rest ≡ with_host user (host ++ (b':' ∷ decimal port)) rest
unfolding vless_link
link_parts user host rest port = refl

-- Where neither the user of a link of VLESS nor its query has an `@`, and its host is not empty and has
-- neither `:` nor `#`, the rewritten link is the same with the new host and port.
pub rewrite-vless_link :
    (json : Remarshal) (user host rest new_host : Bytes) (port new_port : ℕ)
    → Without b'@' user
    → Without b'@' rest
    → 1 ≤ length host
    → Without b':' host
    → Without b'#' host
    → rewrite_raw_link json (vless_link user host port rest) new_host new_port
      ≡ ok (vless_link user new_host new_port rest)
rewrite-vless_link json user host rest new_host port new_port u r h k f =
    let x = host ++ (b':' ∷ decimal port) in
    let y = new_host ++ (b':' ∷ decimal new_port) in
    let n =
      All-append (λ c. (c == b'#') ≡ false) host (b':' ∷ decimal port) f
        (refl, small-digits (decimal port) (decimal-IsDigit port)) in
    rw (link_parts user host rest port, link_parts user new_host rest new_port)
      (rewrites_vless json (user ++ (b'@' ∷ (x ++ (b'?' ∷ rest)))) new_host new_port
        ∙ ap (keep_fragment (with_host user x rest)) (replaced user host rest y port u r h k)
        ∙ kept_lem user x y rest (no_byte b'#' x n))

-- The rewritten link leads to the new host and port, where the library parses it.
pub extract-rewrite :
    (json : Remarshal) (lib : Library) (user host rest new_host : Bytes) (port new_port : ℕ)
    (q : Values)
    → Without b'@' user
    → Without b'@' rest
    → 1 ≤ length host
    → Without b':' host
    → Without b'#' host
    → Without b'?' new_host
    → Without b':' new_host
    → new_port < 2 ^ 63
    → lib.query (vless_link user new_host new_port rest) ≡ some q
    → (link : Bytes) × (rewrite_raw_link json (vless_link user host port rest) new_host new_port
        ≡ ok link)
      × (extract_server_info lib link
          ≡ ok (record { host = new_host; port = pos new_port; sni = query_sni new_host q }))
extract-rewrite json lib user host rest new_host port new_port q u r h k f a b p e = (
  vless_link user new_host new_port rest,
  rewrite-vless_link json user host rest new_host port new_port u r h k f,
  extract-vless_link lib user new_host rest new_port q u a b p e,
)
