-- ===== src/Vless/Header/RoundTrip.antt =====
-- The reader and the writer of VLESS headers are inverse to one another.
use proxy_balacer.Base.{
  ℕ, ◌%◌, ◌<◌, ◌≡◌, ◌≢◌, ◌⊎◌, inl, inr, refl, ◌∙◌, arith, Bytes, IsByte, All, length, ◌++◌, [], ◌∷◌,
  ◌==◌, if◌then◌else◌, Result, ok, err, ◌>>=◌, wrap, put_be16, append_assoc, Bool-cases,
  All-append_right, subst, wrap-bind, bind-ok, false,
}
use proxy_balacer.Io.{
  read_full, read_byte, read_u16, read_full-append, read_full_sound, read_u16-put, read_u16_sound,
  read_byte_sound,
}
use proxy_balacer.Vless.Header.{
  VlessHeader, HeaderError, read_header, read_fields, read_addr, read_addon_bytes, write_header,
  write_addr,
}

-- The address has the form that its type says.
abbrev pub FitsAtyp : ℕ → Bytes → Type 0
FitsAtyp atyp addr =
    ((atyp ≡ 1) × (length addr ≡ 4))
    ⊎ ((atyp ≡ 4) × (length addr ≡ 16))
    ⊎ ((atyp ≡ 2) × (length addr < 256))

pub record IsWire (h : VlessHeader) : Type 0 where
  pub version_zero : h.version ≡ 0
  pub uuid_16 : length h.uuid ≡ 16
  pub addon_short : length h.addon < 256
  pub port_u16 : h.port < 65536
  pub addr_fits : FitsAtyp h.atyp h.addr

read_full_at : (n : ℕ) (xs ys : Bytes) → length xs ≡ n → read_full n (xs ++ ys) ≡ ok (xs, ys)
read_full_at n xs ys e = rw (← e) (read_full-append xs ys)

read_addr-write :
    (atyp : ℕ) (addr rest : Bytes)
    → FitsAtyp atyp addr
    → read_addr atyp (write_addr atyp addr ++ rest) ≡ ok (addr, rest)
unfolding read_addr write_addr read_byte
read_addr-write atyp addr rest (inl (a, n)) = ground (arith, read_full_at 4 addr rest n)
read_addr-write atyp addr rest (inr (inl (a, n))) = ground (arith, read_full_at 16 addr rest n)
read_addr-write atyp addr rest (inr (inr (a, n))) = ground (arith, read_full-append addr rest)

read_addon-write :
    (addon rest : Bytes)
    → length addon < 256
    → read_addon_bytes (length addon % 256) (addon ++ rest) ≡ ok (addon, rest)
unfolding read_addon_bytes
read_addon-write [] rest h = refl
read_addon-write (b ∷ s) rest h = ground (arith, read_full-append (b ∷ s) rest)

-- The six parts of a written header, before the bytes that follow it.
write_header-append :
    (h : VlessHeader) (rest : Bytes)
    → write_header h ++ rest
      ≡ h.version
        ∷ (h.uuid
            ++ ((length h.addon % 256)
                ∷ (h.addon
                    ++ (h.cmd
                        ∷ (put_be16 h.port ++ (h.atyp ∷ (write_addr h.atyp h.addr ++ rest)))))))
unfolding write_header
write_header-append h rest = simp append_assoc

-- Reading what was written gives the header back, and leaves whatever follows it.
pub read-write :
    (h : VlessHeader) (rest : Bytes)
    → IsWire h
    → read_header (write_header h ++ rest) ≡ ok (h, rest)
unfolding read_header read_fields read_byte
read-write h rest w = rw write_header-append (
    ground (
      arith,
      read_full_at 16 h.uuid (
          (length h.addon % 256)
          ∷ (h.addon
              ++ (h.cmd ∷ (put_be16 h.port ++ (h.atyp ∷ (write_addr h.atyp h.addr ++ rest)))))),
      read_addon-write h.addon
          (h.cmd ∷ (put_be16 h.port ++ (h.atyp ∷ (write_addr h.atyp h.addr ++ rest)))),
      read_u16-put h.port (h.atyp ∷ (write_addr h.atyp h.addr ++ rest)),
      read_addr-write h.atyp h.addr rest w.addr_fits,
    ))

read_domain_sound :
    (s : Bytes) (addr rest : Bytes)
    → All IsByte s
    → (wrap HeaderError.read_domain_len (read_byte s) >>= λ r.
        wrap HeaderError.read_domain (read_full r.0 r.1))
      ≡ ok (addr, rest)
    → (length addr < 256) × (s ≡ (length addr % 256) ∷ (addr ++ rest))
unfolding read_byte
read_domain_sound [] addr rest w e = cc
read_domain_sound (b ∷ s) addr rest w e = ground (arith, read_full_sound b s addr rest)

read_addr_sound :
    (atyp : ℕ) (s : Bytes) (addr rest : Bytes)
    → All IsByte s
    → read_addr atyp s ≡ ok (addr, rest)
    → FitsAtyp atyp addr × (s ≡ write_addr atyp addr ++ rest)
unfolding read_addr write_addr
read_addr_sound atyp s addr rest w e = ground (
  arith,
  read_full_sound 4 s addr rest,
  read_full_sound 16 s addr rest,
  read_domain_sound s addr rest w,
)

read_addon_sound :
    (n : ℕ) (s : Bytes) (addon rest : Bytes)
    → read_addon_bytes n s ≡ ok (addon, rest)
    → (length addon ≡ n) × (s ≡ addon ++ rest)
unfolding read_addon_bytes
read_addon_sound n s addon rest e = ground (arith, read_full_sound n s addon rest)

-- The parts of an input, put together.
assemble :
    (h : VlessHeader) (s s₁ s₂ s₃ s₄ s₅ s₆ rest : Bytes) (n : ℕ)
    → s ≡ h.uuid ++ s₁
    → s₁ ≡ n ∷ s₂
    → n < 256
    → length h.addon ≡ n
    → s₂ ≡ h.addon ++ s₃
    → s₃ ≡ h.cmd ∷ s₄
    → s₄ ≡ put_be16 h.port ++ s₅
    → s₅ ≡ h.atyp ∷ s₆
    → s₆ ≡ write_addr h.atyp h.addr ++ rest
    → h.version ∷ s ≡ write_header h ++ rest
assemble h s s₁ s₂ s₃ s₄ s₅ s₆ rest n e₁ e₂ b l e₃ e₄ e₅ e₆ e₇ =
    rw write_header-append (ground arith)

rest_bytes : (s xs ys : Bytes) → s ≡ xs ++ ys → All IsByte s → All IsByte ys
rest_bytes s xs ys e w = All-append_right IsByte xs ys (subst (All IsByte) e w)

next_bytes : (s : Bytes) (b : ℕ) (ys : Bytes) → s ≡ b ∷ ys → All IsByte s → IsByte b × All IsByte ys
next_bytes s b ys e w = subst (All IsByte) e w

abbrev Sound : ℕ → Bytes → VlessHeader → Bytes → Type 0
Sound v s h rest =
    (h.version ≡ v)
    × (v ∷ s ≡ write_header h ++ rest)
    × (length h.uuid ≡ 16)
    × (length h.addon < 256)
    × (h.port < 65536)
    × FitsAtyp h.atyp h.addr

refused :
    (v : ℕ) (s rest : Bytes) (h : VlessHeader)
    → (v == 0) ≡ false
    → (if v == 0 then read_fields v s else err (HeaderError.unsupported_version v)) ≢ ok (h, rest)
refused v s rest h z e = cc (rw z at e)

Sound-eq :
    (v : ℕ) (s rest rest' : Bytes) (h h' : VlessHeader)
    → Sound v s h rest
    → ◌≡◌ {A = Result HeaderError (VlessHeader × Bytes)} (ok (h, rest)) (ok (h', rest'))
    → Sound v s h' rest'
Sound-eq v s rest rest' h h' w e = ground arith

read_fields-Sound :
    (v : ℕ) (s rest : Bytes) (h : VlessHeader)
    → All IsByte s
    → read_fields v s ≡ ok (h, rest)
    → Sound v s h rest
unfolding read_fields
read_fields-Sound v s rest h w e = wrap-bind _ (read_full 16 s) _ e λ (u, s₁) p₁ e₁.
    let (d₁, l₁) = read_full_sound 16 s u s₁ p₁ in
    let w₁ = rest_bytes s u s₁ d₁ w in
    wrap-bind _ (read_byte s₁) _ e₁ λ (n, s₂) p₂ e₂.
      let d₂ = read_byte_sound s₁ n s₂ p₂ in
      let w₂ = next_bytes s₁ n s₂ d₂ w₁ in
      bind-ok (read_addon_bytes n s₂) _ e₂ λ (a, s₃) p₃ e₃.
        let (l₃, d₃) = read_addon_sound n s₂ a s₃ p₃ in
        let w₃ = rest_bytes s₂ a s₃ d₃ w₂.1 in
        wrap-bind _ (read_byte s₃) _ e₃ λ (c, s₄) p₄ e₄.
          let d₄ = read_byte_sound s₃ c s₄ p₄ in
          let w₄ = next_bytes s₃ c s₄ d₄ w₃ in
          wrap-bind _ (read_u16 s₄) _ e₄ λ (q, s₅) p₅ e₅.
            let (d₅, b₅) = read_u16_sound s₄ q s₅ w₄.1 p₅ in
            let w₅ = rest_bytes s₄ (put_be16 q) s₅ d₅ w₄.1 in
            wrap-bind _ (read_byte s₅) _ e₅ λ (t, s₆) p₆ e₆.
              let d₆ = read_byte_sound s₅ t s₆ p₆ in
              let w₆ = next_bytes s₅ t s₆ d₆ w₅ in
              bind-ok (read_addr t s₆) _ e₆ λ (x, s₇) p₇ e₇.
                let (f₇, d₇) = read_addr_sound t s₆ x s₇ w₆.1 p₇ in
                let h' : VlessHeader = record {
                  version = v;
                  uuid = u;
                  addon = a;
                  cmd = c;
                  port = q;
                  atyp = t;
                  addr = x;
                } in
                Sound-eq v s s₇ rest h' h
                  (
                    refl,
                    assemble h' s s₁ s₂ s₃ s₄ s₅ s₆ s₇ n d₁ d₂ w₂.0 l₃ d₃ d₄ d₅ d₆ d₇,
                    l₁,
                    rw l₃ w₂.0,
                    b₅,
                    f₇,
                  )
                  e₇

-- What the reader accepts is exactly what the writer makes: the header that comes out is well formed,
-- and writing it gives back the bytes that were taken.
pub write-read :
    (s rest : Bytes) (h : VlessHeader)
    → All IsByte s
    → read_header s ≡ ok (h, rest)
    → IsWire h × (s ≡ write_header h ++ rest)
unfolding read_header
write-read s rest h w e = wrap-bind _ (read_byte s) _ e λ (v, s₀) p e₀.
    let d = read_byte_sound s v s₀ p in
    let w₀ = next_bytes s v s₀ d w in
    elim (Bool-cases (v == 0)) [
      | inl z ↦
          let r = read_fields-Sound v s₀ rest h w₀.1 (rw z at e₀) in
          (
            record {
              version_zero = ground arith;
              uuid_16 = r.2;
              addon_short = r.3;
              port_u16 = r.4;
              addr_fits = r.5;
            },
            d ∙ r.1,
          )
      | inr z ↦ absurd (refused v s₀ rest h z e₀)
    ]
