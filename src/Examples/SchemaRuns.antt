-- ===== src/Examples/SchemaRuns.antt =====
-- crates/vdsm-schema/build.rs: a small document, names and fields.
use vdsm_rs.Base.{◌≡◌, ◌↔◌, refl, false, none, some, List, [], ◌∷◌, codes, arith}
use vdsm_rs.Schema.Identifiers.{IsIdent, rust_variant_ident-IsIdent}
use vdsm_rs.Schema.Loader.{
  plain, is_badvalue, no_event, document_end, load, new_loader, scalar_to_yaml,
}
use vdsm_rs.Schema.Loading.{
  Doc, leaf, sequence, mapping, no_docs, doc_then, no_pairs, pair_then, events, value, HasGoodKeys,
  load-document,
}
use vdsm_rs.Schema.Names.{rust_variant_ident, is_keyword}
use vdsm_rs.Schema.Strip.{strip_anchors_and_aliases}
use vdsm_rs.Schema.Stripping.{AreAscii, code_points, strip-AreAscii_iff}
use vdsm_rs.Schema.{string, entry, YamlLib, PropDef, VerbDef}

-- A library that reads every plain scalar as a text, and looks up in an empty map only.
abbrev texts_only : YamlLib
texts_only = record {
  get = λ k h. none;
  insert = λ k v h. entry k v h;
  from_str = λ s. string s;
  is_f64 = λ s. false;
}

-- `type: [string]`
abbrev small : Doc
small = mapping (
    pair_then (leaf (codes "type") plain none)
      (sequence (doc_then (leaf (codes "string") plain none) no_docs)) no_pairs)

load-document_example :
    load texts_only (no_event ∷ no_event ∷ events small (document_end ∷ no_event ∷ [])) new_loader
    ≡ some (record new_loader { docs = value texts_only small ∷ [] })
unfolding HasGoodKeys is_badvalue value scalar_to_yaml
load-document_example = load-document texts_only small (refl, tt, (tt, tt), tt)

rust_variant_ident-IsIdent_example :
    IsIdent (rust_variant_ident (codes "self")).0
    × (is_keyword (rust_variant_ident (codes "self")).0 ≡ false)
rust_variant_ident-IsIdent_example = rust_variant_ident-IsIdent (codes "self")

abbrev two_fields : List PropDef
two_fields =
    record { yaml_name = codes "vmID"; rust_type = codes "String"; doc = none }
    ∷ record { yaml_name = codes "vm_id"; rust_type = codes "i32"; doc = none }
    ∷ []

abbrev two_verbs : List VerbDef
two_verbs =
    record {
      verb_name = codes "Host.getStats";
      rust_name = codes "HostGetStats";
      verb_doc = none;
      verb_added = none;
      params = two_fields;
      ret = none;
    }
    ∷ record {
      verb_name = codes "Host.get_stats";
      rust_name = codes "HostGetStats";
      verb_doc = none;
      verb_added = none;
      params = [];
      ret = some (codes "HostStats");
    }
    ∷ []

strip-AreAscii_iff_example :
    (code_points (strip_anchors_and_aliases (195 ∷ 169 ∷ [])) ≡ 195 ∷ 169 ∷ [])
    × ((strip_anchors_and_aliases (195 ∷ 169 ∷ []) ≡ 195 ∷ 169 ∷ []) ↔ AreAscii (195 ∷ 169 ∷ []))
strip-AreAscii_iff_example = strip-AreAscii_iff (195 ∷ 169 ∷ []) (omega arith)
