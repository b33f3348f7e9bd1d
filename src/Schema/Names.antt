-- ===== src/Schema/Names.antt =====
-- crates/vdsm-schema/build.rs: the primitive types, the keywords, and the identifiers that are made of
-- the schema's names. A name is its UTF-8 bytes: a byte above 127 is no letter, digit or mark, as the
-- character is not that it belongs to.
use vdsm_rs.Base.{
  ℕ, ◌-◌, ◌≡◌, refl, Bool, true, false, not, ◌&&◌, ◌||◌, Option, none, some, List, [], ◌∷◌, ◌++◌,
  leb, ◌==◌, if◌then◌else◌, Text, codes, text_eq, is_ascii_digit, is_ascii_alphanumeric, any,
  is_empty,
}
use mathlib.Core.List.{reverse}
use vdsm_rs.Encoding.Affix.{to_ascii_lowercase}
use vdsm_rs.Encoding.Trim.{split_whitespace}

abbrev pub json_value : Text
json_value = codes "serde_json::Value"

-- `PRIMITIVES`
abbrev pub primitives : List (Text × Text)
primitives =
    (codes "string", codes "String")
    ∷ (codes "str", codes "String")
    ∷ (codes "int", codes "i32")
    ∷ (codes "uint", codes "u32")
    ∷ (codes "long", codes "i64")
    ∷ (codes "ulong", codes "u64")
    ∷ (codes "float", codes "f64")
    ∷ (codes "double", codes "f64")
    ∷ (codes "boolean", codes "bool")
    ∷ (codes "bool", codes "bool")
    ∷ (codes "dict", json_value)
    ∷ (codes "any", json_value)
    ∷ (codes "object", json_value)
    ∷ (codes "enum", json_value)
    ∷ (codes "alias", json_value)
    ∷ (codes "union", json_value)
    ∷ (codes "map", json_value)
    ∷ []

-- `RUST_KEYWORDS`, in the words' order in the source.
abbrev pub rust_keywords : List Text
rust_keywords = split_whitespace (
    codes
      "as break const continue crate else enum extern false fn for if impl in let loop match mod move mut pub ref return self Self static struct super trait true type unsafe use where while async await dyn abstract become box do final macro override priv typeof unsized virtual yield try union")

-- `is_keyword`
unfoldable pub is_keyword : Text → Bool
is_keyword s = any (text_eq s) rust_keywords

find_primitive : List (Text × Text) → Text → Option Text
find_primitive [] s = none
find_primitive ((k, v) ∷ ps) s =
    let rest = find_primitive ps s in if text_eq k s then some v else rest

-- `map_primitive`
unfoldable pub map_primitive : Text → Option Text
unfolding find_primitive
map_primitive = find_primitive primitives

abbrev pub is_ascii_uppercase : ℕ → Bool
is_ascii_uppercase c = leb b'A' c && leb c b'Z'

abbrev pub is_ascii_lowercase : ℕ → Bool
is_ascii_lowercase c = leb b'a' c && leb c b'z'

unfoldable pub to_ascii_uppercase : ℕ → ℕ
to_ascii_uppercase c = if is_ascii_lowercase c then c - 32 else c

-- The loop of `pascal`: the flag is set where a word begins.
unfoldable pub pascal_loop : Text → Text → Bool → Text
unfolding to_ascii_uppercase
pascal_loop [] out up = out
pascal_loop (c ∷ s) out up =
    pascal_loop s
      (if is_ascii_alphanumeric c
        then out ++ (if up then to_ascii_uppercase c else c) ∷ []
        else out)
      (not (is_ascii_alphanumeric c))

unfoldable pub named : Text → Text → Text → Text
named unnamed before [] = unnamed
named unnamed before (c ∷ out) = if is_ascii_digit c then before ++ c ∷ out else c ∷ out

-- `pascal`
unfoldable pub pascal : Text → Text
unfolding named
pascal s = named (codes "Unnamed") (codes "V") (pascal_loop s [] true)

ends_with_mark : Text → Bool
ends_with_mark [] = false
ends_with_mark (c ∷ []) = c == b'_'
ends_with_mark (c ∷ d ∷ s) = ends_with_mark (d ∷ s)

mark_if : Bool → Text → Text
mark_if b out =
    if b && (not (is_empty out) && not (ends_with_mark out)) then out ++ b'_' ∷ [] else out

-- The loop of `snake`: the flag says that a lower-case letter or a digit was before.
unfoldable pub snake_loop : Text → Text → Bool → Text
unfolding mark_if ends_with_mark to_ascii_lowercase
snake_loop [] out prev = out
snake_loop (c ∷ s) out prev =
    snake_loop s
      (if is_ascii_uppercase c
        then mark_if prev out ++ to_ascii_lowercase c ∷ []
        else if is_ascii_alphanumeric c
        then out ++ c ∷ []
        else mark_if true out)
      (is_ascii_lowercase c || is_ascii_digit c)

drop_marks : Text → Text
drop_marks [] = []
drop_marks (c ∷ s) = let rest = drop_marks s in if c == b'_' then rest else c ∷ s

-- `snake`
unfoldable pub snake : Text → Text
unfolding named drop_marks
snake s =
    named (codes "field") (codes "f_")
      (drop_marks (reverse (drop_marks (reverse (snake_loop s [] false)))))

-- `rust_field_ident`
unfoldable pub rust_field_ident : Text → Text × Bool
rust_field_ident yaml_name =
    let snk = snake yaml_name in
    (if is_keyword snk then codes "r#" ++ snk else snk, not (text_eq snk yaml_name))

-- `rust_variant_ident`
unfoldable pub rust_variant_ident : Text → Text × Bool
rust_variant_ident yaml_key =
    let p = pascal yaml_key in
    let v = if is_keyword p then p ++ b'_' ∷ [] else p in (v, not (text_eq v yaml_key))

join_words : List Text → Text
join_words [] = []
join_words (w ∷ []) = w
join_words (w ∷ v ∷ ws) = w ++ (b' ' ∷ join_words (v ∷ ws))

-- `esc_doc`
unfoldable pub esc_doc : Text → Text
unfolding join_words
esc_doc s = join_words (split_whitespace s)

snake_runs : snake (codes "vmID_2x") ≡ codes "vm_id_2x"
unfolding snake snake_loop to_ascii_lowercase
snake_runs = refl

pascal_runs : pascal (codes "host.getStats") ≡ codes "HostGetStats"
unfolding pascal pascal_loop to_ascii_uppercase
pascal_runs = refl
