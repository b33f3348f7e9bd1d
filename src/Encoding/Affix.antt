-- ===== src/Encoding/Affix.antt =====
-- `str::strip_prefix`, `str::strip_suffix`, `char::to_ascii_lowercase` and `str::replace` of a byte.
use vdsm_rs.Base.{
  ℕ, ◌+◌, ◌≡◌, refl, Bool, ◌&&◌, Option, none, some, [], ◌∷◌, ◌++◌, leb, ◌==◌, if◌then◌else◌, Text,
  codes, text_eq, map,
}

-- The rest of the text behind a prefix.
unfoldable pub strip_prefix : Text → Text → Option Text
strip_prefix [] s = some s
strip_prefix (d ∷ p) [] = none
strip_prefix (d ∷ p) (c ∷ s) = let rest = strip_prefix p s in if d == c then rest else none

cons_some : ℕ → Option Text → Option Text
cons_some c none = none
cons_some c (some s) = some (c ∷ s)

-- The part of the text before a suffix.
unfoldable pub strip_suffix : Text → Text → Option Text
unfolding cons_some
strip_suffix p [] = if text_eq [] p then some [] else none
strip_suffix p (c ∷ s) =
    let rest = strip_suffix p s in if text_eq (c ∷ s) p then some [] else cons_some c rest

unfoldable pub to_ascii_lowercase : ℕ → ℕ
to_ascii_lowercase c = if leb b'A' c && leb c b'Z' then c + 32 else c

-- `eq_ignore_ascii_case`
unfoldable pub eq_ignore_ascii_case : Text → Text → Bool
unfolding to_ascii_lowercase
eq_ignore_ascii_case s t = text_eq (map to_ascii_lowercase s) (map to_ascii_lowercase t)

-- `s.replace(c, r)` for one byte `c`.
unfoldable pub replace_byte : ℕ → Text → Text → Text
replace_byte b r [] = []
replace_byte b r (c ∷ s) = (if c == b then r else c ∷ []) ++ replace_byte b r s

strip_runs : strip_prefix (codes "ab") (codes "abc") ≡ some (codes "c")
unfolding strip_prefix
strip_runs = refl

suffix_runs : strip_suffix (codes ".meta") (codes "v.meta") ≡ some (codes "v")
unfolding strip_suffix text_eq
suffix_runs = refl
