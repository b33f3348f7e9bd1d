-- ===== src/Schema/Emit.antt =====
-- crates/vdsm-schema/build.rs: the Rust text that is written for types and verbs, and the whole output.
use vdsm_rs.Base.{
  ℕ, ◌+◌, Bool, Option, none, some, List, [], ◌∷◌, ◌++◌, if◌then◌else◌, Text, codes, text_eq,
  is_empty, any, flatten, map, length,
}
use vdsm_rs.Encoding.Decimal.{to_string}
use vdsm_rs.Encoding.Sort.{sort}
use vdsm_rs.Encoding.Split.{split_on}
use vdsm_rs.Encoding.Trim.{trim}
use vdsm_rs.Schema.Names.{rust_field_ident, rust_variant_ident, snake}
use vdsm_rs.Schema.{
  PropDef, TypeKind, object_kind, enum_kind, alias_kind, union_kind, map_kind, TypeDef, VerbDef,
}

-- `writeln!`
abbrev pub line : List Text → Text
line parts = flatten parts ++ b'\n' ∷ []

doc_lines : List Text → Text
doc_lines [] = []
doc_lines (l ∷ ls) = line (codes "/// " ∷ trim l ∷ []) ++ doc_lines ls

doc_text : Option Text → Text
doc_text none = []
doc_text (some d) = if is_empty d then [] else doc_lines (split_on b'\n' d)

added_text : Text → Option Text → Text
added_text doc none = []
added_text doc (some a) =
    if is_empty a
    then []
    else (if is_empty doc then [] else line (codes "///" ∷ []))
      ++ line (codes "/// (added in oVirt " ∷ a ∷ codes ")" ∷ [])

-- `emit_doc`
unfoldable pub emit_doc : Option Text → Option Text → Text
unfolding doc_text doc_lines added_text
emit_doc doc added = doc_text doc ++ added_text (doc_text doc) added

-- `emit_indent_doc`
unfoldable pub emit_indent_doc : Text → Option Text → Text
emit_indent_doc indent none = []
emit_indent_doc indent (some d) = if is_empty d then [] else line (indent ∷ codes "/// " ∷ d ∷ [])

rename_line : Bool → Text → Text
rename_line b name =
    if b then line (codes "    #[serde(rename = \"" ∷ name ∷ codes "\")]" ∷ []) else []

-- The lines of one field.
unfoldable pub emit_field : PropDef → Text
unfolding rename_line
emit_field p =
    let (ident, needs_rename) = rust_field_ident p.yaml_name in
    emit_indent_doc (codes "    ") p.doc
    ++ (rename_line needs_rename p.yaml_name
        ++ (line (codes "    #[serde(default, skip_serializing_if = \"Option::is_none\")]" ∷ [])
            ++ line (codes "    pub " ∷ ident ∷ codes ": Option<" ∷ p.rust_type ∷ codes ">," ∷ [])))

-- The elements whose key no element before them has: `if !seen.insert(key) { continue }`.
unfoldable pub first_of_each : {A : Type 0} → (A → Text) → List Text → List A → List A
first_of_each key seen [] = []
first_of_each key seen (x ∷ xs) =
    let again = any (text_eq (key x)) seen in
    let rest = first_of_each key (if again then seen else key x ∷ seen) xs in
    if again then rest else x ∷ rest

-- The bare name of a field, `ident.trim_start_matches("r#")`: no name that `snake` makes has a `#`.
abbrev pub field_key : PropDef → Text
field_key p = snake p.yaml_name

-- The fields that are written of a list of properties.
abbrev pub fields : List PropDef → List PropDef
fields = first_of_each field_key []

unfoldable pub derive_default : Text
derive_default =
    line (codes "#[derive(Debug, Clone, Default, serde::Serialize, serde::Deserialize)]" ∷ [])

unfoldable pub closing : Text
closing = line (codes "}\n" ∷ [])

-- A struct with the fields of its properties.
unfoldable pub emit_struct : Text → List PropDef → Text
unfolding derive_default closing
emit_struct name properties =
    derive_default
    ++ (line (codes "pub struct " ∷ name ∷ codes " {" ∷ [])
        ++ (flatten (map emit_field (fields properties)) ++ closing))

-- The name of a variant in Rust.
abbrev pub variant_ident : Text × Text → Text
variant_ident (key, desc) = (rust_variant_ident key).0

-- The variants that are written of an enum's values.
abbrev pub written_variants : List (Text × Text) → List (Text × Text)
written_variants = first_of_each variant_ident []

-- The lines of one variant.
unfoldable pub emit_variant : Text × Text → Text
unfolding rename_line
emit_variant (key, desc) =
    let (ident, needs_rename) = rust_variant_ident key in
    emit_indent_doc (codes "    ") (some desc)
    ++ (rename_line needs_rename key ++ line (codes "    " ∷ ident ∷ codes "," ∷ []))

emit_union : ℕ → List Text → Text
emit_union i [] = []
emit_union i (v ∷ vs) =
    line (codes "    V" ∷ to_string i ∷ codes "(" ∷ v ∷ codes ")," ∷ []) ++ emit_union (i + 1) vs

-- The text of a type behind its comment.
unfoldable pub emit_kind : Text → TypeKind → Text
unfolding derive_default closing emit_union emit_variant
emit_kind name (object_kind ps) = emit_struct name ps
emit_kind name (enum_kind vs) =
    line (
      codes "#[derive(Debug, Clone, PartialEq, Eq, Hash, serde::Serialize, serde::Deserialize)]"
      ∷ [])
    ++ (line (codes "pub enum " ∷ name ∷ codes " {" ∷ [])
        ++ (flatten (map emit_variant (written_variants vs)) ++ closing))
emit_kind name (alias_kind source) =
    line (codes "pub type " ∷ name ∷ codes " = " ∷ source ∷ codes ";\n" ∷ [])
emit_kind name (union_kind vs) =
    line (codes "#[derive(Debug, Clone, serde::Serialize, serde::Deserialize)]" ∷ [])
    ++ (line (codes "#[serde(untagged)]" ∷ [])
        ++ (line (codes "pub enum " ∷ name ∷ codes " {" ∷ []) ++ (emit_union 0 vs ++ closing)))
emit_kind name (map_kind key value) = line (
    codes "pub type "
    ∷ name
    ∷ codes " = std::collections::HashMap<"
    ∷ key
    ∷ codes ", "
    ∷ value
    ∷ codes ">;\n"
    ∷ [])

-- `emit_type`
unfoldable pub emit_type : TypeDef → Text
unfolding emit_kind
emit_type t = emit_doc t.type_doc t.type_added ++ emit_kind t.type_name t.kind

-- The verbs that are written: of those with one name in Rust, the first.
abbrev pub written_verbs : List VerbDef → List VerbDef
written_verbs = first_of_each (λ v. v.rust_name) []

variant_line : VerbDef → Text
variant_line v = line (codes "    " ∷ v.rust_name ∷ codes "," ∷ [])

as_str_line : VerbDef → Text
as_str_line v =
    line
      (codes "            Verb::" ∷ v.rust_name ∷ codes " => \"" ∷ v.verb_name ∷ codes "\"," ∷ [])

from_wire_line : VerbDef → Text
from_wire_line v = line (
    codes "            \""
    ∷ v.verb_name
    ∷ codes "\" => Some(Verb::"
    ∷ v.rust_name
    ∷ codes "),"
    ∷ [])

-- The enum of the verbs, with the name of each on the wire and back.
unfoldable pub verb_table : List VerbDef → Text
unfolding variant_line as_str_line from_wire_line
verb_table vs = flatten (
    line (codes "/// Every verb defined by vdsm-api.yml." ∷ [])
    ∷ line (codes "#[derive(Debug, Clone, Copy, PartialEq, Eq, Hash)]" ∷ [])
    ∷ line (codes "#[non_exhaustive]" ∷ [])
    ∷ line (codes "pub enum Verb {" ∷ [])
    ∷ flatten (map variant_line vs)
    ∷ line (codes "}\n" ∷ [])
    ∷ line (codes "impl Verb {" ∷ [])
    ∷ line (codes "    pub const fn as_str(&self) -> &'static str {" ∷ [])
    ∷ line (codes "        match self {" ∷ [])
    ∷ flatten (map as_str_line vs)
    ∷ line (codes "        }" ∷ [])
    ∷ line (codes "    }\n" ∷ [])
    ∷ line (codes "    pub fn from_wire(s: &str) -> Option<Self> {" ∷ [])
    ∷ line (codes "        match s {" ∷ [])
    ∷ flatten (map from_wire_line vs)
    ∷ line (codes "            _ => None," ∷ [])
    ∷ line (codes "        }" ∷ [])
    ∷ line (codes "    }" ∷ [])
    ∷ line (codes "}\n" ∷ [])
    ∷ [])

-- `emit_verb_table`
unfoldable pub emit_verb_table : List VerbDef → Text
emit_verb_table verbs = verb_table (written_verbs verbs)

response_alias : VerbDef → Option Text → Text
response_alias v none = []
response_alias v (some ret) = line (
    codes "/// Response payload for `"
    ∷ v.verb_name
    ∷ codes "`.\npub type "
    ∷ v.rust_name
    ∷ codes "Response = "
    ∷ ret
    ∷ codes ";\n"
    ∷ [])

-- The types of a verb's request and response.
unfoldable pub request_struct : VerbDef → Text
unfolding response_alias
request_struct v =
    emit_doc v.verb_doc v.verb_added
    ++ (emit_struct (v.rust_name ++ codes "Request") v.params ++ response_alias v v.ret)

-- `emit_verb_request_structs`
unfoldable pub emit_verb_request_structs : List VerbDef → Text
emit_verb_request_structs verbs = flatten (map request_struct (written_verbs verbs))

quoted_line : Text → Text
quoted_line n = line (codes "    \"" ∷ n ∷ codes "\"," ∷ [])

-- The text that `main` writes.
unfoldable pub generated : List TypeDef → List VerbDef → Text
unfolding quoted_line
generated types verbs = flatten (
    line (codes "// Auto-generated from schema/vdsm-api.yml. DO NOT EDIT." ∷ [])
    ∷ line (codes "// Regenerate via `cargo build` after vendoring a new schema." ∷ [])
    ∷ line []
    ∷ line (codes "/// Number of named types emitted from vdsm-api.yml." ∷ [])
    ∷ line (codes "pub const TYPE_COUNT: usize = " ∷ to_string (length types) ∷ codes ";" ∷ [])
    ∷ line (codes "/// Number of verbs emitted from vdsm-api.yml." ∷ [])
    ∷ line (codes "pub const VERB_COUNT: usize = " ∷ to_string (length verbs) ∷ codes ";" ∷ [])
    ∷ line []
    ∷ line (codes "/// Sorted list of all type names from the schema." ∷ [])
    ∷ line (codes "pub const TYPES: &[&str] = &[" ∷ [])
    ∷ flatten (map quoted_line (sort (map (λ (t : TypeDef). t.type_name) types)))
    ∷ line (codes "];\n" ∷ [])
    ∷ line (codes "/// Sorted list of all verb names from the schema." ∷ [])
    ∷ line (codes "pub const VERBS: &[&str] = &[" ∷ [])
    ∷ flatten (map quoted_line (sort (map (λ (v : VerbDef). v.verb_name) verbs)))
    ∷ line (codes "];\n" ∷ [])
    ∷ flatten (map emit_type types)
    ∷ emit_verb_table verbs
    ∷ emit_verb_request_structs verbs
    ∷ [])
