-- ===== src/Reality/Dial/Extension.antt =====
-- What a connection to a backend carries in its extension.
use proxy_balacer.Base.{
  ℕ, ◌-◌, ◌≡◌, refl, ap, sym, ◌∙◌, subst, Bytes, Bool-cases, Option, none, some, [], ◌++◌, length,
  take, drop, replicate, arith, length-append, length-take, length-replicate, take-length_append,
  drop-length_append, ◌==◌, ==_iff, ◌=ᵇ◌, if◌then◌else◌, Result, ok, err, panic, put_be16, inl, inr,
}
use proxy_balacer.Reality.Keys.{base64_to_bytes, short_id, copy_8}
use proxy_balacer.Reality.Dial.{
  RealityConfig, Preset, DialWorld, DialError, build_reality_extension, preset_of, connect,
  with_key, dial_reality,
}

length-copy_8 : (o : Option Bytes) → length (copy_8 o) ≡ 8
unfolding copy_8
length-copy_8 none = refl
length-copy_8 (some s) = omega (
  arith,
  length-append (take 8 s) (replicate (8 - length s) 0),
  length-take 8 s,
  length-replicate {A = ℕ} (8 - length s) 0,
)

length-short_id : (s : Bytes) → length (short_id s) ≡ 8
unfolding short_id
length-short_id s = elim (Bool-cases (s =ᵇ [])) [
  | inl e ↦ rw e refl
  | inr e ↦ rw e (length-copy_8 _)
]

-- The preset that a connection was set up with is that of its configuration and key.
connect_lem : (wd : DialWorld) (p q : Preset) → connect wd p ≡ ok q → p ≡ q
unfolding connect
connect_lem wd p q e = ground arith

abbrev IsErr : Result DialError Preset → Type 0
IsErr (ok p) = ⊥
IsErr (err e) = Unit
IsErr panic = Unit

key_lem :
    (wd : DialWorld) (cfg : RealityConfig) (p : Preset) (o : Option Bytes)
    → with_key wd cfg o ≡ ok p
    → (key : Bytes) × (o ≡ some key) × (length key ≡ 32) × (preset_of cfg key ≡ p)
unfolding with_key
key_lem wd cfg p none e = absurd (cc)
key_lem wd cfg p (some key) e = elim (Bool-cases (length key == 32)) [
  | inl h ↦ (
    key,
    refl,
    (==_iff (length key) 32).0 h,
    connect_lem wd (preset_of cfg key) p (
        sym (
          ap
            (λ b.
              if b then connect wd (preset_of cfg key) else err (DialError.key_length (length key)))
            h)
        ∙ e),
  )
  | inr h ↦ absurd (
      subst IsErr
        (sym (
            ap
              (λ b.
                if b
                then connect wd (preset_of cfg key)
                else err (DialError.key_length (length key)))
              h)
          ∙ e)
        tt)
]

dial_lem :
    (wd : DialWorld) (cfg : RealityConfig) (p : Preset)
    → dial_reality wd cfg ≡ ok p
    → with_key wd cfg (base64_to_bytes cfg.pub_key) ≡ ok p
unfolding dial_reality
dial_lem wd cfg p e = ground arith

extension_lem :
    (cfg : RealityConfig) (key : Bytes)
    → length key ≡ 32
    → let x = (preset_of cfg key).extension in
      (take 8 x ≡ short_id cfg.short_id)
      × (drop 8 x ≡ key ++ (put_be16 (length cfg.spider_x) ++ cfg.spider_x))
unfolding preset_of build_reality_extension
extension_lem cfg key h =
    let i = short_id cfg.short_id in
    let r = key ++ (put_be16 (length cfg.spider_x) ++ cfg.spider_x) in
    (
      sym (ap (λ n. take n (i ++ r)) (length-short_id cfg.short_id)) ∙ take-length_append i r,
      sym (ap (λ n. drop n (i ++ r)) (length-short_id cfg.short_id)) ∙ drop-length_append i r,
    )

-- A connection is set up with the backend's key alone: where the dial succeeds, the key of the configuration
-- decodes to exactly 32 bytes, and the extension holds the short identifier in its first eight bytes, and
-- behind it the key, the length of the text in two bytes, and the text.
pub dial_reality-extension :
    (wd : DialWorld) (cfg : RealityConfig) (p : Preset)
    → dial_reality wd cfg ≡ ok p
    → (key : Bytes) × (base64_to_bytes cfg.pub_key ≡ some key)
      × (length key ≡ 32)
      × (take 8 p.extension ≡ short_id cfg.short_id)
      × (drop 8 p.extension ≡ key ++ (put_be16 (length cfg.spider_x) ++ cfg.spider_x))
dial_reality-extension wd cfg p e =
    let (key, a, b, q) = key_lem wd cfg p (base64_to_bytes cfg.pub_key) (dial_lem wd cfg p e) in
    let (f, g) = extension_lem cfg key b in
    (
      key,
      a,
      b,
      ap (λ (x : Preset). take 8 x.extension) (sym q) ∙ f,
      ap (λ (x : Preset). drop 8 x.extension) (sym q) ∙ g,
    )
