-- ===== src/Schema/Types.antt =====
-- crates/vdsm-schema/build.rs: the Rust type of a schema node, and the properties, types and verbs that
-- are read from the schema.
use vdsm_rs.Base.{
  Bool, true, false, not, ◌||◌, Option, none, some, List, [], ◌∷◌, ◌++◌, if◌then◌else◌, Text, codes,
  text_eq, is_empty, ℤ, pos, negsuc, suc, contains_byte,
}
use vdsm_rs.Encoding.Decimal.{to_string}
use vdsm_rs.Schema.Names.{json_value, map_primitive, pascal, esc_doc}
use vdsm_rs.Schema.{
  Yaml, real, string, integer, boolean, array, hash, null, bad_value, Yamls, no_items, item,
  Entries, no_entries, entry, YamlLib, PropDef, TypeKind, object_kind, enum_kind, alias_kind,
  union_kind, map_kind, TypeDef, VerbDef,
}

-- `Yaml::as_str`
unfoldable pub as_str : Yaml → Option Text
as_str (string s) = some s
as_str other = none

str_of : Option Yaml → Option Text
str_of none = none
str_of (some y) = as_str y

or_pascal : Text → Option Text → Text
or_pascal s none = pascal s
or_pascal s (some t) = t

-- A type's name: that of a primitive, or one in the spelling of Rust.
unfoldable pub type_of_name : Text → Text
unfolding or_pascal
type_of_name s = or_pascal s (map_primitive s)

pascal_or_json : Option Text → Text
pascal_or_json none = json_value
pascal_or_json (some s) = pascal s

-- `type_seen.contains`
unfoldable pub has_type : Text → List TypeDef → Bool
has_type n [] = false
has_type n (t ∷ ts) = text_eq t.type_name n || has_type n ts

module _ (lib : YamlLib) where
  -- `resolve_type`
  unfoldable pub resolve_type : Yaml → Text
  unfolding str_of pascal_or_json as_str
  resolve_type (string s) = type_of_name s
  resolve_type (array no_items) = codes "Vec<serde_json::Value>"
  resolve_type (array (item y ys)) = codes "Vec<" ++ (resolve_type y ++ codes ">")
  resolve_type (hash h) = pascal_or_json (str_of (lib.get (string (codes "name")) h))
  resolve_type (real s) = json_value
  resolve_type (integer n) = json_value
  resolve_type (boolean b) = json_value
  resolve_type null = json_value
  resolve_type bad_value = json_value

  -- `yaml_get`
  unfoldable pub yaml_get : Yaml → Text → Option Yaml
  yaml_get (hash h) key = lib.get (string key) h
  yaml_get other key = none

  -- `yaml_str`
  unfoldable pub yaml_str : Yaml → Text → Option Text
  unfolding str_of
  yaml_str y key = str_of (yaml_get y key)

  described : Option Text → Option Text
  described none = none
  described (some s) = some (esc_doc s)

  named_property : Yaml → Option Text → Option Yaml → Option PropDef
  named_property node none t = none
  named_property node (some name) none = none
  named_property node (some name) (some t) = some (record {
    yaml_name = name;
    rust_type = resolve_type t;
    doc = described (yaml_str node (codes "description"));
  })

  -- `parse_property`
  unfoldable pub parse_property : Yaml → Option PropDef
  unfolding named_property described
  parse_property node =
      named_property node (yaml_str node (codes "name")) (yaml_get node (codes "type"))

  -- `v.iter().filter_map(parse_property).collect()`
  unfoldable pub properties : Yamls → List PropDef
  properties no_items = []
  properties (item y ys) =
      let rest = properties ys in elim (parse_property y) [ none ↦ rest | some p ↦ p ∷ rest ]

  properties_of : Option Yaml → List PropDef
  properties_of (some (array ys)) = properties ys
  properties_of other = []

  bool_text : Bool → Text
  bool_text true = codes "true"
  bool_text false = codes "false"

  int_text : ℤ → Text
  int_text (pos n) = to_string n
  int_text (negsuc n) = b'-' ∷ to_string (suc n)

  variant_key : Yaml → Option Text
  variant_key (string s) = some s
  variant_key (integer n) = some (int_text n)
  variant_key (real r) = some r
  variant_key (boolean b) = some (bool_text b)
  variant_key other = none

  variant_doc : Yaml → Text
  variant_doc (string s) = esc_doc s
  variant_doc other = []

  -- The variants of an enum.
  unfoldable pub enum_variants : Entries → List (Text × Text)
  unfolding variant_key variant_doc int_text bool_text
  enum_variants no_entries = []
  enum_variants (entry k v es) =
      let rest = enum_variants es in
      elim (variant_key k) [ none ↦ rest | some key ↦ (key, variant_doc v) ∷ rest ]

  variants_of : Option Yaml → List (Text × Text)
  variants_of (some (hash h)) = enum_variants h
  variants_of other = []

  resolve_all : Yamls → List Text
  resolve_all no_items = []
  resolve_all (item y ys) = resolve_type y ∷ resolve_all ys

  union_types : Option Yaml → List Text
  union_types (some (array ys)) = resolve_all ys
  union_types other = []

  resolve_or : Text → Option Yaml → Text
  resolve_or d none = d
  resolve_or d (some y) = resolve_type y

  is_array : Option Yaml → Bool
  is_array (some (array ys)) = true
  is_array other = false

  kind_of : Yaml → Option Text → Option TypeKind
  kind_of d none =
      if is_array (yaml_get d (codes "properties"))
      then some (object_kind (properties_of (yaml_get d (codes "properties"))))
      else none
  kind_of d (some k) =
      if text_eq k (codes "object")
      then some (object_kind (properties_of (yaml_get d (codes "properties"))))
      else if text_eq k (codes "enum")
      then some (enum_kind (variants_of (yaml_get d (codes "values"))))
      else if text_eq k (codes "alias")
      then some (alias_kind (resolve_or json_value (yaml_get d (codes "sourcetype"))))
      else if text_eq k (codes "union")
      then some (union_kind (union_types (yaml_get d (codes "values"))))
      else if text_eq k (codes "map")
      then some (
          map_kind (resolve_or (codes "String") (yaml_get d (codes "key-type")))
            (resolve_or json_value (yaml_get d (codes "value-type"))))
      else if not (is_empty k)
      then some (alias_kind (type_of_name k))
      else none

  type_def : Text → Yaml → Option TypeKind → Option TypeDef
  type_def yaml_key d none = none
  type_def yaml_key d (some k) = some (record {
    type_name = pascal yaml_key;
    kind = k;
    type_doc = described (yaml_str d (codes "description"));
    type_added = yaml_str d (codes "added");
  })

  -- `parse_type_entry`
  unfoldable pub parse_type_entry : Text → Yaml → Option TypeDef
  unfolding type_def kind_of is_array resolve_or union_types resolve_all variants_of properties_of
      described
  parse_type_entry yaml_key d = type_def yaml_key d (kind_of d (yaml_str d (codes "type")))

  return_type : Option Yaml → Option Text
  return_type none = none
  return_type (some r) = elim (yaml_get r (codes "type")) [
    | none ↦ none
    | some t ↦ some (resolve_type t)
  ]

  -- `parse_verb`
  unfoldable pub parse_verb : Text → Yaml → Option VerbDef
  unfolding return_type described properties_of
  parse_verb yaml_name (hash h) =
      let d = hash h in
      some (record {
        verb_name = yaml_name;
        rust_name = pascal yaml_name;
        verb_doc = described (yaml_str d (codes "description"));
        verb_added = yaml_str d (codes "added");
        params = properties_of (yaml_get d (codes "params"));
        ret = return_type (yaml_get d (codes "return"));
      })
  parse_verb yaml_name other = none

  add_type : List TypeDef → Option TypeDef → List TypeDef
  add_type seen none = seen
  add_type seen (some t) = if has_type t.type_name seen then seen else seen ++ t ∷ []

  -- The types of the schema, each name's first one.
  unfoldable pub collect_types : Entries → List TypeDef → List TypeDef
  unfolding add_type
  collect_types no_entries seen = seen
  collect_types (entry k v es) seen =
      collect_types es
        (elim (as_str k) [ none ↦ seen | some n ↦ add_type seen (parse_type_entry n v) ])

  types_of : Yaml → List TypeDef → List TypeDef
  types_of (hash h) seen = collect_types h seen
  types_of other seen = seen

  add_verb : List VerbDef → Option VerbDef → List VerbDef
  add_verb seen none = seen
  add_verb seen (some v) = seen ++ v ∷ []

  collect_key : Text → Yaml → List TypeDef × List VerbDef → List TypeDef × List VerbDef
  collect_key key v (types, verbs) =
      if text_eq key (codes "types")
      then (types_of v types, verbs)
      else if contains_byte key b'.'
      then (types, add_verb verbs (parse_verb key v))
      else (types, verbs)

  -- The loop of `main` over the schema's root.
  unfoldable pub collect : Entries → List TypeDef × List VerbDef → List TypeDef × List VerbDef
  unfolding collect_key types_of add_verb
  collect no_entries acc = acc
  collect (entry k v es) acc =
      collect es (elim (as_str k) [ none ↦ acc | some key ↦ collect_key key v acc ])
