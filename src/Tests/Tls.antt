-- ===== src/Tests/Tls.antt =====
-- Server names in concrete ClientHellos.
use proxy_balacer.Base.{Bytes, codes, [], ◌∷◌, ◌++◌, replicate, ok, err, panic, ◌≡◌, ◌≢◌, refl}
use proxy_balacer.Tls.{extract_sni, not_found, stuck, short_session}
use proxy_balacer.Tls.Safety.{extract_sni_total}

-- The record header, the handshake header, the version and the random.
abbrev hello_head : Bytes
hello_head = 0x16 ∷ 3 ∷ 1 ∷ 0 ∷ 0 ∷ 0x01 ∷ 0 ∷ 0 ∷ 0 ∷ 3 ∷ 3 ∷ replicate 32 5

-- An empty session, one cipher suite, one compression method.
abbrev hello_fields : Bytes
hello_fields = 0 ∷ 0 ∷ 2 ∷ 0x13 ∷ 1 ∷ 1 ∷ 0 ∷ []

-- Another extension, and a server name.
abbrev hello : Bytes
hello =
    hello_head
    ++ (hello_fields
        ++ (0 ∷ 17 ∷ 0 ∷ 23 ∷ 0 ∷ 0 ∷ 0 ∷ 0 ∷ 0 ∷ 9 ∷ 0 ∷ 7 ∷ 0 ∷ 0 ∷ 4 ∷ codes "a.io"))

hello_name : extract_sni hello ≡ ok (codes "a.io")
unfolding extract_sni
hello_name = refl

hello_unnamed : extract_sni (hello_head ++ (hello_fields ++ (0 ∷ 0 ∷ []))) ≡ err not_found
unfolding extract_sni
hello_unnamed = refl

hello_cut : extract_sni hello_head ≡ err short_session
unfolding extract_sni
hello_cut = refl

extract_sni_total_example : (extract_sni hello ≢ panic) × (extract_sni hello ≢ err stuck)
extract_sni_total_example = extract_sni_total hello
