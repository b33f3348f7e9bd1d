-- ===== src/Schema.antt =====
-- crates/vdsm-schema/build.rs: the compiler of the API's schema to Rust. YAML values with the variants
-- that the code names; the map inside one, a type of the YAML library, is a list of entries in their
-- order, whose lookup and insertion are parameters.
pub mod Names
pub mod Strip
pub mod Loader
pub mod Types
pub mod Emit
pub mod Main
pub mod Loading
pub mod Identifiers
pub mod Fields
pub mod Stripping
use vdsm_rs.Base.{ℕ, Bool, Option, List, Text, ℤ}

mutual
  -- `yaml_rust2::Yaml`
  pub data Yaml : Type 0 where
    real string : Text → Yaml
    integer : ℤ → Yaml
    boolean : Bool → Yaml
    array : Yamls → Yaml
    hash : Entries → Yaml
    null bad_value : Yaml

  pub data Yamls : Type 0 where
    no_items : Yamls
    item : Yaml → Yamls → Yamls

  pub data Entries : Type 0 where
    no_entries : Entries
    entry : Yaml → Yaml → Entries → Entries

-- The library's map, its reading of a plain scalar, and whether a text is a floating-point number.
pub record YamlLib : Type 0 where
  pub get : Yaml → Entries → Option Yaml
  pub insert : Yaml → Yaml → Entries → Entries
  pub from_str : Text → Yaml
  pub is_f64 : Text → Bool

-- `PropDef`
pub record PropDef : Type 0 where
  pub yaml_name : Text
  pub rust_type : Text
  pub doc : Option Text

-- `TypeKind`
pub data TypeKind : Type 0 where
  object_kind : List PropDef → TypeKind
  enum_kind : List (Text × Text) → TypeKind
  alias_kind : Text → TypeKind
  union_kind : List Text → TypeKind
  map_kind : Text → Text → TypeKind

-- `TypeDef`
pub record TypeDef : Type 0 where
  pub type_name : Text
  pub kind : TypeKind
  pub type_doc : Option Text
  pub type_added : Option Text

-- `VerbDef`
pub record VerbDef : Type 0 where
  pub verb_name : Text
  pub rust_name : Text
  pub verb_doc : Option Text
  pub verb_added : Option Text
  pub params : List PropDef
  pub ret : Option Text
