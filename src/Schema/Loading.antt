-- ===== src/Schema/Loading.antt =====
-- crates/vdsm-schema/build.rs: the loader builds the value of a document, without aliases and anchors,
-- from the events of its nodes.
use vdsm_rs.Base.{ℕ, ◌≡◌, refl, ap, sym, ◌∙◌, false, Option, none, some, List, [], ◌∷◌, Text}
use vdsm_rs.Schema.Loader.{
  ScalarStyle, Tag, Event, no_event, document_end, sequence_end, mapping_end, sequence_start,
  mapping_start, scalar, Loader, insert_node, scalar_to_yaml, on_event, load, new_loader,
  is_badvalue, push_item,
}
use vdsm_rs.Schema.{
  Yaml, array, hash, bad_value, Yamls, no_items, item, Entries, no_entries, YamlLib,
}

mutual
  -- The nodes of a document.
  pub data Doc : Type 0 where
    leaf : Text → ScalarStyle → Option Tag → Doc
    sequence : Docs → Doc
    mapping : Pairs → Doc

  pub data Docs : Type 0 where
    no_docs : Docs
    doc_then : Doc → Docs → Docs

  pub data Pairs : Type 0 where
    no_pairs : Pairs
    pair_then : Doc → Doc → Pairs → Pairs

unfoldable mutual
  -- What the parser reports of a node, in front of other events.
  pub events : Doc → List Event → List Event
  events (leaf v style tag) es = scalar v style 0 tag ∷ es
  events (sequence ds) es = sequence_start 0 ∷ events_of ds (sequence_end ∷ es)
  events (mapping ps) es = mapping_start 0 ∷ events_in ps (mapping_end ∷ es)

  pub events_of : Docs → List Event → List Event
  events_of no_docs es = es
  events_of (doc_then d ds) es = events d (events_of ds es)

  pub events_in : Pairs → List Event → List Event
  events_in no_pairs es = es
  events_in (pair_then k v ps) es = events k (events v (events_in ps es))

module _ (lib : YamlLib) where
  unfoldable mutual
    -- The value of a node: later entries of a mapping are inserted over earlier ones.
    pub value : Doc → Yaml
    value (leaf v style tag) = scalar_to_yaml lib v style tag
    value (sequence ds) = array (items ds)
    value (mapping ps) = hash (entries ps no_entries)

    pub items : Docs → Yamls
    items no_docs = no_items
    items (doc_then d ds) = item (value d) (items ds)

    pub entries : Pairs → Entries → Entries
    entries no_pairs h = h
    entries (pair_then k v ps) h = entries ps (lib.insert (value k) (value v) h)

  unfoldable mutual
    -- No key of a mapping is the library's bad value.
    pub HasGoodKeys : Doc → Type 0
    HasGoodKeys (leaf v style tag) = Unit
    HasGoodKeys (sequence ds) = HaveGoodKeys ds
    HasGoodKeys (mapping ps) = AreGood ps

    pub HaveGoodKeys : Docs → Type 0
    HaveGoodKeys no_docs = Unit
    HaveGoodKeys (doc_then d ds) = HasGoodKeys d × HaveGoodKeys ds

    pub AreGood : Pairs → Type 0
    AreGood no_pairs = Unit
    AreGood (pair_then k v ps) =
        (is_badvalue (value k) ≡ false) × HasGoodKeys k × HasGoodKeys v × AreGood ps

  continued : List Event → Option Loader → Option Loader
  continued es none = none
  continued es (some k) = load lib es k

  -- The loader under an open sequence, and under an open mapping that waits for a key.
  in_sequence : Yamls → List (Yaml × ℕ) → Loader → Loader
  in_sequence vs st l = record l { doc_stack = (array vs, 0) ∷ st }

  in_mapping : Entries → List (Yaml × ℕ) → List Yaml → Loader → Loader
  in_mapping h st ks l = record l { doc_stack = (hash h, 0) ∷ st; key_stack = bad_value ∷ ks }

  -- More items behind those that are there.
  append_items : Yamls → Yamls → Yamls
  append_items no_items ws = ws
  append_items (item y ys) ws = item y (append_items ys ws)

  append_items-no_items : (ys : Yamls) → append_items ys no_items ≡ ys
  unfolding append_items
  append_items-no_items no_items = refl
  append_items-no_items (item y ys) = ap (item y) (append_items-no_items ys)

  append_items-push_item :
      (ys : Yamls) (y : Yaml) (ws : Yamls)
      → append_items (push_item ys y) ws ≡ append_items ys (item y ws)
  unfolding append_items push_item
  append_items-push_item no_items y ws = refl
  append_items-push_item (item x ys) y ws = ap (item x) (append_items-push_item ys y ws)

  mutual
    unfolding append_items load on_event insert_node continued in_sequence in_mapping events value
        HasGoodKeys is_badvalue

    load-events :
        (d : Doc) (good : HasGoodKeys d) (es : List Event) (l : Loader)
        → load lib (events d es) l ≡ continued es (insert_node lib (value d, 0) l)
    load-events (leaf v style tag) good es l = refl
    load-events (sequence ds) good es l =
        load-events_of ds good no_items l.doc_stack (sequence_end ∷ es) l ∙ refl
    load-events (mapping ps) good es l =
        load-events_in ps good no_entries l.doc_stack l.key_stack (mapping_end ∷ es) l ∙ refl

    load-events_of :
        (ds : Docs) (good : HaveGoodKeys ds) (vs : Yamls) (st : List (Yaml × ℕ)) (es : List Event)
        (l : Loader)
        → load lib (events_of ds es) (in_sequence vs st l)
          ≡ load lib es (in_sequence (append_items vs (items ds)) st l)
    load-events_of no_docs good vs st es l =
        ap (λ ys. load lib es (in_sequence ys st l)) (sym (append_items-no_items vs))
    load-events_of (doc_then d ds) good vs st es l =
        load-events d good.0 (events_of ds es) (in_sequence vs st l)
        ∙ (load-events_of ds good.1 (push_item vs (value d)) st es l
            ∙ ap (λ ys. load lib es (in_sequence ys st l))
                (append_items-push_item vs (value d) (items ds)))

    load-events_in :
        (ps : Pairs) (good : AreGood ps) (h : Entries) (st : List (Yaml × ℕ)) (ks : List Yaml)
        (es : List Event) (l : Loader)
        → load lib (events_in ps es) (in_mapping h st ks l)
          ≡ load lib es (in_mapping (entries ps h) st ks l)
    load-events_in no_pairs good h st ks es l = refl
    load-events_in (pair_then k v ps) (e, gk, gv, gs) h st ks es l =
        load-events k gk (events v (events_in ps es)) (in_mapping h st ks l)
        ∙ (load-events v gv (events_in ps es) _
            ∙ (rw e refl ∙ load-events_in ps gs (lib.insert (value k) (value v) h) st ks es l))

  -- The events of a stream with one document, without aliases and anchors and none of whose keys is bad,
  -- load without a panic, and leave the value of the document and empty stacks.
  pub load-document :
      (d : Doc)
      → HasGoodKeys d
      → load lib (no_event ∷ no_event ∷ events d (document_end ∷ no_event ∷ [])) new_loader
        ≡ some (record new_loader { docs = value d ∷ [] })
  unfolding load on_event insert_node continued
  load-document d good = load-events d good (document_end ∷ no_event ∷ []) new_loader ∙ refl
