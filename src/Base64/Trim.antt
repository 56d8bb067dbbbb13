-- ===== src/Base64/Trim.antt =====
-- Text that `trim_space` leaves as it is.
use proxy_balacer.Base.{ℕ, ◌<◌, ◌≡◌, refl, Bytes, false, [], ◌∷◌, ◌++◌, All, arith, ap, ◌∙◌}
use proxy_balacer.Base64.{
  trim_space, trim_left, trim_from, trim_right, drop_if_blank, is_blank, is_blank_2, is_blank_3,
  blank_at, is_one_blank,
}

-- A byte of ASCII that is no white space.
abbrev pub Plain : ℕ → Type 0
Plain c = (is_blank c ≡ false) × (c < 128)

narrow : (c d : ℕ) → c < 128 → is_blank_2 c d ≡ false
unfolding is_blank_2
narrow c d h = ground arith

narrow_3 : (c d e : ℕ) → c < 128 → is_blank_3 c d e ≡ false
unfolding is_blank_3
narrow_3 c d e h = ground arith

blank_at-Plain : (c : ℕ) (s : Bytes) → Plain c → blank_at (c ∷ s) ≡ 0
unfolding blank_at
blank_at-Plain c [] (h, k) = rw h refl
blank_at-Plain c (d ∷ []) (h, k) = rw (h, narrow c d k) refl
blank_at-Plain c (d ∷ e ∷ s) (h, k) = rw (h, narrow c d k, narrow_3 c d e k) refl

one_blank-Plain : (c : ℕ) (s : Bytes) → Plain c → is_one_blank (c ∷ s) ≡ false
unfolding is_one_blank
one_blank-Plain c [] (h, k) = h
one_blank-Plain c (d ∷ []) (h, k) = narrow c d k
one_blank-Plain c (d ∷ e ∷ []) (h, k) = narrow_3 c d e k
one_blank-Plain c (d ∷ e ∷ f ∷ s) (h, k) = refl

pub trim_left_start : (s : Bytes) → blank_at s ≡ 0 → trim_left s ≡ s
unfolding trim_left trim_from
trim_left_start [] h = refl
trim_left_start (c ∷ s) h = rw (h, trim_from, trim_left) refl

trim_left-Plain : (s : Bytes) → All Plain s → trim_left s ≡ s
trim_left-Plain [] h = trim_left_start [] (unfold blank_at in refl)
trim_left-Plain (c ∷ s) (h, hs) = trim_left_start (c ∷ s) (blank_at-Plain c s h)

kept : (c : ℕ) (s : Bytes) → is_one_blank (c ∷ s) ≡ false → drop_if_blank c s ≡ c ∷ s
unfolding drop_if_blank
kept c s h = rw h refl

pub trim_right-Plain : (s : Bytes) → All Plain s → trim_right s ≡ s
unfolding trim_right
trim_right-Plain [] h = refl
trim_right-Plain (c ∷ s) (h, hs) = rw (trim_right-Plain s hs) (kept c s (one_blank-Plain c s h))

pub trim-Plain : (s : Bytes) → All Plain s → trim_space s ≡ s
unfolding trim_space
trim-Plain s h = rw (trim_left-Plain s h) (trim_right-Plain s h)

-- A line feed is no part of a longer character.
one_blank_feed :
    (c : ℕ) (s : Bytes) (d : ℕ) (t : Bytes) → is_one_blank (c ∷ s ++ (10 ∷ d ∷ t)) ≡ false
unfolding is_one_blank is_blank_3
one_blank_feed c [] d [] = ground arith
one_blank_feed c [] d (e ∷ t) = refl
one_blank_feed c (x ∷ []) d t = refl
one_blank_feed c (x ∷ y ∷ []) d t = refl
one_blank_feed c (x ∷ y ∷ z ∷ s) d t = refl

one_blank_line : (d : ℕ) (t : Bytes) → is_one_blank (10 ∷ d ∷ t) ≡ false
unfolding is_one_blank is_blank_2 is_blank_3
one_blank_line d [] = refl
one_blank_line d (e ∷ []) = refl
one_blank_line d (e ∷ f ∷ t) = refl

-- What stands on lines before a text whose end is kept.
pub trim_right-feed :
    (s : Bytes) (d : ℕ) (t : Bytes)
    → trim_right (d ∷ t) ≡ d ∷ t
    → trim_right (s ++ (10 ∷ d ∷ t)) ≡ s ++ (10 ∷ d ∷ t)
unfolding trim_right
trim_right-feed [] d t e = ap (drop_if_blank 10) e ∙ kept 10 (d ∷ t) (one_blank_line d t)
trim_right-feed (c ∷ s) d t e =
    ap (drop_if_blank c) (trim_right-feed s d t e)
    ∙ kept c (s ++ (10 ∷ d ∷ t)) (one_blank_feed c s d t)

-- The start of a line is that of the text.
pub blank_at-feed : (c : ℕ) (s t : Bytes) → blank_at (c ∷ s) ≡ 0 → blank_at (c ∷ s ++ (10 ∷ t)) ≡ 0
unfolding blank_at is_blank_2 is_blank_3
blank_at-feed c [] [] h = ground arith
blank_at-feed c [] (e ∷ t) h = ground arith
blank_at-feed c (d ∷ []) t h = ground arith
blank_at-feed c (d ∷ e ∷ s) t h = h

pub trim_space-kept : (s : Bytes) → blank_at s ≡ 0 → trim_right s ≡ s → trim_space s ≡ s
unfolding trim_space
trim_space-kept s h e = ap trim_right (trim_left_start s h) ∙ e
