-- ===== src/Encoding/Trim.antt =====
-- `str::trim`: white space in the sense of Unicode, taken off both ends of a UTF-8 text.
use vdsm_rs.Base.{
  ℕ, zero, suc, List, All, All-append, ap, ◌∙◌, ◌≤◌, ◌<◌, arith, ◌≡◌, refl, Bool, ◌&&◌, ◌||◌, [],
  ◌∷◌, leb, ◌==◌, if◌then◌else◌, Bytes, Text, codes,
}
use mathlib.Core.List.{reverse, reverse-reverse, reverse-cons}

-- U+0009 to U+000D, and the space.
abbrev is_ascii_space : ℕ → Bool
is_ascii_space c = c == 0x20 || (leb 0x09 c && leb c 0x0D)

-- U+0085 and U+00A0.
abbrev is_space2 : ℕ → ℕ → Bool
is_space2 a b = a == 0xC2 && (b == 0x85 || b == 0xA0)

-- U+1680, U+2000 to U+200A, U+2028, U+2029, U+202F, U+205F and U+3000.
abbrev is_space3 : ℕ → ℕ → ℕ → Bool
is_space3 a b c =
    (a == 0xE1 && b == 0x9A && c == 0x80)
    || (a == 0xE2
        && b == 0x80
        && ((leb 0x80 c && leb c 0x8A) || c == 0xA8 || c == 0xA9 || c == 0xAF))
    || (a == 0xE2 && b == 0x81 && c == 0x9F)
    || (a == 0xE3 && b == 0x80 && c == 0x80)

-- The bytes of the white space at the front; 0 if there is none.
front_space : Bytes → ℕ
front_space [] = 0
front_space (a ∷ []) = if is_ascii_space a then 1 else 0
front_space (a ∷ b ∷ []) = if is_ascii_space a then 1 else if is_space2 a b then 2 else 0
front_space (a ∷ b ∷ c ∷ s) =
    if is_ascii_space a then 1 else if is_space2 a b then 2 else if is_space3 a b c then 3 else 0

-- The same at the front of a reversed text.
back_space : Bytes → ℕ
back_space [] = 0
back_space (a ∷ []) = if is_ascii_space a then 1 else 0
back_space (b ∷ a ∷ []) = if is_ascii_space b then 1 else if is_space2 a b then 2 else 0
back_space (c ∷ b ∷ a ∷ s) =
    if is_ascii_space c then 1 else if is_space2 b c then 2 else if is_space3 a b c then 3 else 0

-- The first argument counts the bytes of a white space that are still to be dropped.
drop_space : (Bytes → ℕ) → ℕ → Bytes → Bytes
drop_space measure k [] = []
drop_space measure (suc k) (c ∷ s) = drop_space measure k s
drop_space measure zero (c ∷ s) = elim (measure (c ∷ s)) [
  | zero ↦ c ∷ s
  | suc k ↦ drop_space measure k s
]

-- `str::trim`
unfoldable pub trim : Text → Text
unfolding front_space back_space drop_space reverse
trim s = reverse (drop_space back_space 0 (reverse (drop_space front_space 0 s)))

push_word : Bytes → List Text → List Text
push_word [] ws = ws
push_word (c ∷ cur) ws = reverse (c ∷ cur) ∷ ws

-- The words from here on, with the bytes of the word that has begun, last first.
words_from : ℕ → Bytes → Bytes → List Text
words_from k cur [] = push_word cur []
words_from (suc k) cur (c ∷ s) = words_from k cur s
words_from zero cur (c ∷ s) = elim (front_space (c ∷ s)) [
  | zero ↦ words_from zero (c ∷ cur) s
  | suc k ↦ push_word cur (words_from k [] s)
]

-- `str::split_whitespace`
unfoldable pub split_whitespace : Text → List Text
unfolding words_from push_word front_space
split_whitespace s = words_from 0 [] s

two_words : split_whitespace (codes " ab\tc\n") ≡ codes "ab" ∷ codes "c" ∷ []
unfolding split_whitespace reverse
two_words = refl

trim_both : trim (codes " a b\r\n") ≡ codes "a b"
unfolding trim
trim_both = refl

-- ASCII that is printed and no white space.
abbrev pub IsVisible : ℕ → Type 0
IsVisible c = (0x21 ≤ c) × (c < 0x7F)

front_space_visible : (c : ℕ) (s : Bytes) → IsVisible c → front_space (c ∷ s) ≡ 0
unfolding front_space
front_space_visible c [] h = ground arith
front_space_visible c (b ∷ []) h = ground arith
front_space_visible c (b ∷ d ∷ s) h = ground arith

back_space_visible : (c : ℕ) (s : Bytes) → IsVisible c → back_space (c ∷ s) ≡ 0
unfolding back_space
back_space_visible c [] h = ground arith
back_space_visible c (b ∷ []) h = ground arith
back_space_visible c (b ∷ d ∷ s) h = ground arith

drop_space_none :
    (measure : Bytes → ℕ) (c : ℕ) (s : Bytes)
    → measure (c ∷ s) ≡ 0
    → drop_space measure 0 (c ∷ s) ≡ c ∷ s
unfolding drop_space
drop_space_none measure c s h = rw (h, drop_space) refl

drop_front_visible : (s : Bytes) → All IsVisible s → drop_space front_space 0 s ≡ s
drop_front_visible [] h = unfold drop_space in refl
drop_front_visible (c ∷ s) h = drop_space_none front_space c s (front_space_visible c s h.0)

drop_back_visible : (s : Bytes) → All IsVisible s → drop_space back_space 0 s ≡ s
drop_back_visible [] h = unfold drop_space in refl
drop_back_visible (c ∷ s) h = drop_space_none back_space c s (back_space_visible c s h.0)

All-reverse : (s : Bytes) → All IsVisible s → All IsVisible (reverse s)
All-reverse [] h = unfold reverse in tt
All-reverse (c ∷ s) h =
    rw reverse-cons (All-append IsVisible (reverse s) (c ∷ []) (All-reverse s h.1) (h.0, tt))

-- A text of visible ASCII loses nothing.
pub trim_visible : (s : Text) → All IsVisible s → trim s ≡ s
unfolding trim
trim_visible s h =
    ap (λ t. reverse (drop_space back_space 0 (reverse t))) (drop_front_visible s h)
    ∙ ap reverse (drop_back_visible (reverse s) (All-reverse s h))
    ∙ reverse-reverse s
