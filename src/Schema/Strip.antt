-- ===== src/Schema/Strip.antt =====
-- crates/vdsm-schema/build.rs: `strip_anchors_and_aliases`, over the bytes of the text.
use vdsm_rs.Base.{
  ℕ, ◌+◌, ◌/◌, ◌%◌, ◌≡◌, refl, Bool, true, false, ◌&&◌, ◌||◌, [], ◌∷◌, ltb, ◌==◌, if◌then◌else◌,
  Text, codes, is_ascii_alphanumeric,
}
use vdsm_rs.Schema.Names.{is_ascii_lowercase, is_ascii_uppercase}

-- The bytes of the character of a byte: `out.push(b as char)`.
unfoldable pub push_char : ℕ → Text → Text
push_char b s = if ltb b 128 then b ∷ s else (192 + b / 64) ∷ (128 + b % 64) ∷ s

abbrev pub is_ident_byte : ℕ → Bool
is_ident_byte c = is_ascii_alphanumeric c || (c == b'_')

abbrev pub is_ident_start : ℕ → Bool
is_ident_start c = is_ascii_lowercase c || is_ascii_uppercase c || (c == b'_')

-- A marker with a name's first byte behind it.
unfoldable pub opens_name : ℕ → Text → Bool
opens_name b [] = false
opens_name b (n ∷ s) = ((b == b'&') || (b == b'*')) && is_ident_start n

-- Where the loop stands: between names, or inside the name of an anchor, which is dropped, or of an
-- alias, which is kept.
pub data Place : Type 0 where
  between anchor_name alias_name : Place

place_of : ℕ → Place
place_of b = if b == b'*' then alias_name else anchor_name

in_name : Place → Bool
in_name between = false
in_name anchor_name = true
in_name alias_name = true

-- The place behind a byte.
unfoldable pub next_place : Place → ℕ → Text → Place
unfolding in_name opens_name place_of
next_place p c s =
    if in_name p && is_ident_byte c then p else if opens_name c s then place_of c else between

keep_ident : Place → ℕ → Text → Text
keep_ident alias_name c out = c ∷ out
keep_ident other c out = out

-- What is written for a byte, in front of the rest.
unfoldable pub written : Place → ℕ → Text → Text → Text
unfolding in_name opens_name keep_ident push_char
written p c s out =
    if in_name p && is_ident_byte c
    then keep_ident p c out
    else if opens_name c s
    then out
    else push_char c out

unfoldable pub strip_from : Place → Text → Text
strip_from p [] = []
strip_from p (c ∷ s) = written p c s (strip_from (next_place p c s) s)

-- `strip_anchors_and_aliases`
unfoldable pub strip_anchors_and_aliases : Text → Text
strip_anchors_and_aliases = strip_from between

strip_runs :
    strip_anchors_and_aliases (codes "A: &Foo {type: *Bar, d: 3 & 4}")
    ≡ codes "A:  {type: Bar, d: 3 & 4}"
unfolding strip_anchors_and_aliases strip_from written next_place opens_name push_char
strip_runs = refl
