-- ===== src/Schema/Main.antt =====
-- crates/vdsm-schema/build.rs: `main`, from the text of the schema to the text of the generated file. The
-- YAML parser is a parameter, and a panic is `none`.
use vdsm_rs.Base.{Option, none, some, List, [], ◌∷◌, Text, Result, ok, err}
use vdsm_rs.Schema.Emit.{generated}
use vdsm_rs.Schema.Loader.{Event, Loader, load, new_loader}
use vdsm_rs.Schema.Strip.{strip_anchors_and_aliases}
use vdsm_rs.Schema.Types.{collect}
use vdsm_rs.Schema.{Yaml, hash, YamlLib}

module _ (lib : YamlLib) where
  of_root : Yaml → Option Text
  of_root (hash h) = let (types, verbs) = collect lib h ([], []) in some (generated types verbs)
  of_root other = none

  of_docs : List Yaml → Option Text
  of_docs [] = none
  of_docs (root ∷ more) = of_root root

  of_loaded : Option Loader → Option Text
  of_loaded none = none
  of_loaded (some l) = of_docs l.docs

  of_parsed : Result Text (List Event) → Option Text
  of_parsed (err e) = none
  of_parsed (ok events) = of_loaded (load lib events new_loader)

  -- `main`, given the text of the schema.
  unfoldable pub compile : (Text → Result Text (List Event)) → Text → Option Text
  unfolding of_parsed of_loaded of_docs of_root
  compile parse raw = of_parsed (parse (strip_anchors_and_aliases raw))
