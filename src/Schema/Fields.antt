-- ===== src/Schema/Fields.antt =====
-- crates/vdsm-schema/build.rs: which fields, variants and verbs are written: of those with one name the
-- first.
use vdsm_rs.Base.{
  ◌≡◌, Bool, false, List, [], ◌∷◌, Text, text_eq, any, map, flatten, Option, none, some, ◌++◌,
  codes, if◌then◌else◌,
}
use vdsm_rs.Schema.Emit.{
  field_key, variant_ident, emit_struct, line, emit_field, closing, derive_default, emit_kind,
  emit_variant, emit_verb_table, verb_table, emit_verb_request_structs, request_struct,
}
use vdsm_rs.Schema.{PropDef, VerbDef, enum_kind}

-- `keys.contains(&k)`
abbrev pub holds : List Text → Text → Bool
holds keys k = any (text_eq k) keys

-- No key stands twice, and none is among the others.
abbrev pub AreNew : List Text → List Text → Type 0
AreNew seen [] = Unit
AreNew seen (k ∷ ks) = (holds seen k ≡ false) × AreNew (k ∷ seen) ks

-- The first element with a key.
unfoldable pub first_with : {A : Type 0} → (A → Text) → Text → List A → Option A
first_with key k [] = none
first_with key k (x ∷ xs) =
    let rest = first_with key k xs in if text_eq k (key x) then some x else rest

-- Of the elements of `xs`, those of `ys` have no key twice, and are the first with their keys, for each
-- key that there is.
abbrev pub IsOnce : {A : Type 0} → (A → Text) → List A → List A → Type 0
IsOnce key xs ys = AreNew [] (map key ys) × ((k : Text) → first_with key k ys ≡ first_with key k xs)

-- What is written of a struct, an enum and the verbs.
abbrev pub AreEmittedOnce : Text → List PropDef → List (Text × Text) → List VerbDef → Type 0
AreEmittedOnce name ps vs verbs =
    ((ws : List PropDef) × IsOnce field_key ps ws
      × (emit_struct name ps
          ≡ derive_default
            ++ (line (codes "pub struct " ∷ name ∷ codes " {" ∷ [])
                ++ (flatten (map emit_field ws) ++ closing))))
    × ((ws : List (Text × Text)) × IsOnce variant_ident vs ws
        × (emit_kind name (enum_kind vs)
            ≡ line (
                codes
                  "#[derive(Debug, Clone, PartialEq, Eq, Hash, serde::Serialize, serde::Deserialize)]"
                ∷ [])
              ++ (line (codes "pub enum " ∷ name ∷ codes " {" ∷ [])
                  ++ (flatten (map emit_variant ws) ++ closing))))
    × ((ws : List VerbDef) × IsOnce (λ v. v.rust_name) verbs ws
        × (emit_verb_table verbs ≡ verb_table ws)
        × (emit_verb_request_structs verbs ≡ flatten (map request_struct ws)))
