-- ===== src/Links/Fetch/RoundTrip.antt =====
-- A subscription is read back from its text.
use proxy_balacer.Base.{
  ℕ, ◌+◌, ◌/◌, ◌%◌, ◌*◌, ◌≤◌, ◌<◌, ◌≡◌, refl, ap, ◌∙◌, Bytes, Bool, false, true, List, [], ◌∷◌,
  ◌++◌, All, length, length-append, arith, ok, IsByte, All-append, codes, has_prefix, ◌==◌, ◌=ᵇ◌,
  ◌&&◌,
}
use proxy_balacer.Base64.{trim_space, trim_right, blank_at, is_blank, digit_of, encode_std}
use proxy_balacer.Base64.Trim.{Plain, trim-Plain, trim_right-feed, blank_at-feed, trim_space-kept}
use proxy_balacer.Base64.RoundTrip.{decode-encode_std}
use proxy_balacer.Links.Rewrite.{join_lines}
use proxy_balacer.Links.Fetch.{
  body, is_link, split_lines, keep_lines, configs_of, or_raw, read_content, fetch_subscription_url,
}

-- A line: bytes, at least one, none of them a line feed, without white space at its start and its end.
abbrev pub IsLine : Bytes → Type 0
IsLine l =
    (1 ≤ length l)
    × All IsByte l
    × All (λ c. (c == 10) ≡ false) l
    × (blank_at l ≡ 0)
    × (trim_right l ≡ l)

join-IsByte : (ls : List Bytes) → All IsLine ls → All IsByte (join_lines ls)
unfolding join_lines
join-IsByte [] h = tt
join-IsByte (l ∷ []) ((a, b, c, k, e), h) = b
join-IsByte (l ∷ m ∷ ls) ((a, b, c, k, e), h) =
    All-append IsByte l _ b (omega arith, join-IsByte (m ∷ ls) h)

length-join : (l : Bytes) (ls : List Bytes) → All IsLine (l ∷ ls) → 1 ≤ length (join_lines (l ∷ ls))
unfolding join_lines
length-join l [] ((a, b, c, k, e), h) = a
length-join l (m ∷ ls) ((a, b, c, k, e), h) =
    omega (arith, length-append l (10 ∷ join_lines (m ∷ ls)))

after_feed :
    (l t : Bytes) → 1 ≤ length t → trim_right t ≡ t → trim_right (l ++ (10 ∷ t)) ≡ l ++ (10 ∷ t)
after_feed l [] h e = absurd (omega arith)
after_feed l (d ∷ t) h e = trim_right-feed l d t e

trim_right-join :
    (l : Bytes) (ls : List Bytes)
    → All IsLine (l ∷ ls)
    → trim_right (join_lines (l ∷ ls)) ≡ join_lines (l ∷ ls)
unfolding join_lines
trim_right-join l [] ((a, b, c, k, e), h) = e
trim_right-join l (m ∷ ls) ((a, b, c, k, e), h) =
    after_feed l (join_lines (m ∷ ls)) (length-join m ls h) (trim_right-join m ls h)

blank_at-join :
    (l : Bytes) (ls : List Bytes) → All IsLine (l ∷ ls) → blank_at (join_lines (l ∷ ls)) ≡ 0
unfolding join_lines
blank_at-join l [] ((a, b, c, k, e), h) = k
blank_at-join [] (m ∷ ls) ((a, b, c, k, e), h) = absurd (omega arith)
blank_at-join (x ∷ l) (m ∷ ls) ((a, b, c, k, e), h) = blank_at-feed x l (join_lines (m ∷ ls)) k

trim-join :
    (l : Bytes) (ls : List Bytes)
    → All IsLine (l ∷ ls)
    → trim_space (join_lines (l ∷ ls)) ≡ join_lines (l ∷ ls)
trim-join l ls h =
    trim_space-kept (join_lines (l ∷ ls)) (blank_at-join l ls h) (trim_right-join l ls h)

split_line :
    (l : Bytes) (s : Bytes)
    → All (λ c. (c == 10) ≡ false) l
    → split_lines (l ++ (10 ∷ s)) ≡ l ∷ split_lines s
unfolding split_lines
split_line [] s h = refl
split_line (x ∷ l) s (p, h) = rw (p, split_line l s h) refl

split_last : (l : Bytes) → All (λ c. (c == 10) ≡ false) l → split_lines l ≡ l ∷ []
unfolding split_lines
split_last [] h = refl
split_last (x ∷ l) (p, h) = rw (p, split_last l h) refl

split-join :
    (l : Bytes) (ls : List Bytes) → All IsLine (l ∷ ls) → split_lines (join_lines (l ∷ ls)) ≡ l ∷ ls
unfolding join_lines
split-join l [] ((a, b, c, k, e), h) = split_last l c
split-join l (m ∷ ls) ((a, b, c, k, e), h) =
    split_line l (join_lines (m ∷ ls)) c ∙ ap (◌∷◌ l) (split-join m ls h)

not_empty : (l : Bytes) → 1 ≤ length l → (l =ᵇ []) ≡ false
unfolding ◌=ᵇ◌
not_empty [] h = absurd (omega arith)
not_empty (x ∷ l) h = refl

keep_all : (ls : List Bytes) → All IsLine ls → keep_lines ls ≡ ls
unfolding keep_lines
keep_all [] h = refl
keep_all (l ∷ ls) ((a, b, c, k, e), h) =
    rw (trim_space-kept l k e, not_empty l a, keep_all ls h) refl

configs-join :
    (l : Bytes) (ls : List Bytes) → All IsLine (l ∷ ls) → configs_of (join_lines (l ∷ ls)) ≡ l ∷ ls
unfolding configs_of
configs-join l ls h =
    ap (λ s. keep_lines (split_lines s)) (trim-join l ls h)
    ∙ ap keep_lines (split-join l ls h)
    ∙ keep_all (l ∷ ls) h

-- The text of the alphabet is ASCII, without blanks and colons.
abbrev InText : ℕ → Type 0
InText c = Plain c × ((c == b':') ≡ false)

digit-InText : (v : ℕ) → v < 64 → InText (digit_of v)
unfolding is_blank digit_of
digit-InText v h = ((ground arith, ground arith), ground arith)

pad-InText : InText b'='
unfolding is_blank
pad-InText = ((refl, omega arith), refl)

encode-InText : (s : Bytes) → All IsByte s → All InText (encode_std s)
unfolding encode_std
encode-InText [] h = tt
encode-InText (x ∷ []) (p, h) = (
  digit-InText (x / 4) (omega arith),
  (digit-InText (x % 4 * 16) (omega arith), (pad-InText, (pad-InText, tt))),
)
encode-InText (x ∷ y ∷ []) (p, (q, h)) = (
  digit-InText (x / 4) (omega arith),
  (
    digit-InText (x % 4 * 16 + y / 16) (omega arith),
    (digit-InText (y % 16 * 4) (omega arith), (pad-InText, tt)),
  ),
)
encode-InText (x ∷ y ∷ z ∷ s) (p, (q, (r, h))) = (
  digit-InText (x / 4) (omega arith),
  (
    digit-InText (x % 4 * 16 + y / 16) (omega arith),
    (
      digit-InText (y % 16 * 4 + z / 64) (omega arith),
      (digit-InText (z % 64) (omega arith), encode-InText s h),
    ),
  ),
)

InText-Plain : (s : Bytes) → All InText s → All Plain s
InText-Plain [] h = tt
InText-Plain (c ∷ s) ((a, b), h) = (a, InText-Plain s h)

and_false : (b : Bool) → (b && false) ≡ false
and_false true = refl
and_false false = refl

-- A text without a colon does not start with one that has it.
no_prefix : (p q s : Bytes) → All InText s → has_prefix s (p ++ (b':' ∷ q)) ≡ false
unfolding has_prefix
no_prefix [] q [] h = refl
no_prefix [] q (c ∷ s) ((a, b), h) = rw b refl
no_prefix (x ∷ p) q [] h = refl
no_prefix (x ∷ p) q (c ∷ s) ((a, b), h) = rw (no_prefix p q s h) (and_false (c == x))

no_link : (s : Bytes) → All InText s → is_link s ≡ false
unfolding is_link
no_link s h =
    rw
      (
        no_prefix (codes "vmess") (codes "//") s h,
        no_prefix (codes "vless") (codes "//") s h,
        no_prefix (codes "trojan") (codes "//") s h,
        no_prefix (codes "ss") (codes "//") s h,
      )
      refl

length-encode : (x : ℕ) (s : Bytes) → 1 ≤ length (encode_std (x ∷ s))
unfolding encode_std
length-encode x [] = omega arith
length-encode x (y ∷ []) = omega arith
length-encode x (y ∷ z ∷ s) = omega arith

decoded-join :
    (x : ℕ) (s : Bytes)
    → All IsByte (x ∷ s)
    → read_content (encode_std (x ∷ s)) ≡ ok (configs_of (x ∷ s))
unfolding read_content or_raw
decoded-join x s h =
    rw
      (
        not_empty (encode_std (x ∷ s)) (length-encode x s),
        no_link (encode_std (x ∷ s)) (encode-InText (x ∷ s) h),
        decode-encode_std (x ∷ s) h,
      )
      refl

decoded-text :
    (s : Bytes) → 1 ≤ length s → All IsByte s → read_content (encode_std s) ≡ ok (configs_of s)
decoded-text [] k h = absurd (omega arith)
decoded-text (x ∷ s) k h = decoded-join x s h

-- The answer that holds lines, at least one, each of at least a byte, without a line feed in it and without
-- white space (that of Unicode, in UTF-8) at its start and its end, joined by line feeds and then encoded in
-- base64, gives back these lines.
pub fetch-encode_std :
    (l : Bytes) (ls : List Bytes)
    → All IsLine (l ∷ ls)
    → fetch_subscription_url (body (encode_std (join_lines (l ∷ ls)))) ≡ ok (l ∷ ls)
unfolding fetch_subscription_url
fetch-encode_std l ls h =
    let s = join_lines (l ∷ ls) in
    let b = join-IsByte (l ∷ ls) h in
    ap read_content (trim-Plain (encode_std s) (InText-Plain (encode_std s) (encode-InText s b)))
    ∙ decoded-text s (length-join l ls h) b
    ∙ ap ok (configs-join l ls h)

kept_text : (s : Bytes) → is_link s ≡ true → 1 ≤ length s
unfolding is_link has_prefix
kept_text [] e = absurd (cc)
kept_text (x ∷ s) e = omega arith

linked-text : (s : Bytes) → is_link s ≡ true → read_content s ≡ ok (configs_of s)
unfolding read_content
linked-text s e = rw (not_empty s (kept_text s e), e) refl

-- So does the answer that holds such lines as they are, where the first one is a link.
pub fetch-join_lines :
    (l : Bytes) (ls : List Bytes)
    → All IsLine (l ∷ ls)
    → is_link (join_lines (l ∷ ls)) ≡ true
    → fetch_subscription_url (body (join_lines (l ∷ ls))) ≡ ok (l ∷ ls)
unfolding fetch_subscription_url
fetch-join_lines l ls h e =
    ap read_content (trim-join l ls h)
    ∙ linked-text (join_lines (l ∷ ls)) e
    ∙ ap ok (configs-join l ls h)
