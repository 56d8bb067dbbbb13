-- ===== src/Links/Server.antt =====
-- What `extractServerInfo` finds in a link.
use proxy_balacer.Base.{
  ℕ, ◌^◌, ◌<◌, ◌≡◌, refl, ap, ◌∙◌, Bytes, false, [], ◌∷◌, ◌++◌, All, All-append, arith, ok, panic,
  some, none, has_prefix, decimal, atoi-decimal, pos, IsDigit, decimal-IsDigit, ◌==◌,
}
use proxy_balacer.Links.{
  Library, Values, cut, before, host_port, with_query, link_server, server_loop,
  extract_server_info, query_sni, vmess_prefix, vless_prefix,
}

-- A text without the byte `c`.
abbrev pub Without : ℕ → Bytes → Type 0
Without c s = All (λ x. (x == c) ≡ false) s

pub cut-append : (c : ℕ) (a b : Bytes) → Without c a → cut c (a ++ (c ∷ b)) ≡ some (a, b)
unfolding cut
cut-append c [] b h = ground arith
cut-append c (x ∷ a) b (p, h) = rw (p, cut-append c a b h) refl

before-append : (c : ℕ) (a b : Bytes) → Without c a → before c (a ++ (c ∷ b)) ≡ a
unfolding before
before-append c a b h = rw (cut-append c a b h) refl

pub digit-other : (s : Bytes) (c : ℕ) → 57 < c → All IsDigit s → Without c s
digit-other [] c k h = tt
digit-other (x ∷ s) c k ((a, b), h) = (ground arith, digit-other s c k h)

-- The parts of a link of VLESS.
unfoldable pub vless_link : Bytes → Bytes → ℕ → Bytes → Bytes
vless_link user host port rest =
    vless_prefix ++ (user ++ (b'@' ∷ ((host ++ (b':' ∷ decimal port)) ++ (b'?' ∷ rest))))

not_vmess : (s : Bytes) → has_prefix (vless_prefix ++ s) vmess_prefix ≡ false
unfolding has_prefix
not_vmess s = refl

vless_lem :
    (lib : Library) (user rest : Bytes)
    → Without b'@' user
    → let link = vless_prefix ++ (user ++ (b'@' ∷ rest)) in
      extract_server_info lib link
      ≡ with_query (host_port (cut b':' (before b'?' rest))) (lib.query link)
unfolding extract_server_info server_loop link_server has_prefix
vless_lem lib user rest h = rw (cut-append b'@' user rest h) refl

colon-query :
    (host : Bytes) (port : ℕ) → Without b'?' host → Without b'?' (host ++ (b':' ∷ decimal port))
colon-query host port h =
    All-append (λ x. (x == b'?') ≡ false) host (b':' ∷ decimal port) h
      (refl, digit-other (decimal port) b'?' (omega arith) (decimal-IsDigit port))

host_port_lem :
    (host rest : Bytes) (port : ℕ)
    → Without b'?' host
    → Without b':' host
    → port < 2 ^ 63
    → host_port (cut b':' (before b'?' ((host ++ (b':' ∷ decimal port)) ++ (b'?' ∷ rest))))
      ≡ (host, pos port)
unfolding host_port
host_port_lem host rest port h k l =
    rw
      (
        before-append b'?' (host ++ (b':' ∷ decimal port)) rest (colon-query host port h),
        cut-append b':' host (decimal port) k,
      )
      (ap (λ p. (host, p)) (atoi-decimal port l))

-- From a link of VLESS whose user has no `@`, with a host without `:` and `?` and a port that fits an `int`
-- before the query, this host and port are read; where the library parses the link, the server's name is
-- the value of `host` in its query, else that of `sni`, else the host if the security is `tls`.
pub extract-vless_link :
    (lib : Library) (user host rest : Bytes) (port : ℕ) (q : Values)
    → Without b'@' user
    → Without b'?' host
    → Without b':' host
    → port < 2 ^ 63
    → lib.query (vless_link user host port rest) ≡ some q
    → extract_server_info lib (vless_link user host port rest)
      ≡ ok (record { host = host; port = pos port; sni = query_sni host q })
unfolding vless_link with_query
extract-vless_link lib user host rest port q a b c d e =
    vless_lem lib user ((host ++ (b':' ∷ decimal port)) ++ (b'?' ∷ rest)) a
    ∙ ap (λ x. with_query x (lib.query (vless_link user host port rest)))
        (host_port_lem host rest port b c d)
    ∙ ap (with_query (host, pos port)) e

-- A link of VLESS with an `@` that does not parse as a URL ends the call in a panic.
pub extract-unparsed :
    (lib : Library) (user rest : Bytes)
    → Without b'@' user
    → lib.query (vless_prefix ++ (user ++ (b'@' ∷ rest))) ≡ none
    → extract_server_info lib (vless_prefix ++ (user ++ (b'@' ∷ rest))) ≡ panic
unfolding with_query
extract-unparsed lib user rest h e =
    vless_lem lib user rest h ∙ ap (with_query (host_port (cut b':' (before b'?' rest)))) e
