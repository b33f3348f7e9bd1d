-- ===== src/Schema/Loader.antt =====
-- crates/vdsm-schema/build.rs: `LenientLoader`, which builds a value from the parser's events. An `unwrap`
-- of nothing and an `unreachable` are `none`.
use vdsm_rs.Base.{
  ℕ, zero, suc, pos, negsuc, not, ◌^◌, ◌-◌, ltb, ◌==◌, Bool, true, false, ◌||◌, Option, none, some,
  List, [], ◌∷◌, ◌++◌, if◌then◌else◌, Text, codes, text_eq, ℤ,
}
use vdsm_rs.Encoding.Decimal.{parse_word}
use vdsm_rs.Schema.{
  Yaml, real, string, integer, boolean, array, hash, null, bad_value, Yamls, no_items, item,
  Entries, no_entries, YamlLib,
}

-- `TScalarStyle`, as far as the code tells its cases apart.
pub data ScalarStyle : Type 0 where
  plain quoted : ScalarStyle

-- `Tag`
pub record Tag : Type 0 where
  pub handle : Text
  pub suffix : Text

-- `Event`: the first one stands for those of the stream and the start of a document.
pub data Event : Type 0 where
  no_event document_end sequence_end mapping_end : Event
  sequence_start mapping_start alias : ℕ → Event
  scalar : Text → ScalarStyle → ℕ → Option Tag → Event

-- `LenientLoader`, with the top of each stack in front.
pub record Loader : Type 0 where
  pub docs : List Yaml
  pub doc_stack : List (Yaml × ℕ)
  pub key_stack : List Yaml
  pub anchor_map : List (ℕ × Yaml)

-- `anchor_map.get`: the map's newest entry of a key is in front.
unfoldable pub find_anchor : ℕ → List (ℕ × Yaml) → Option Yaml
find_anchor a [] = none
find_anchor a ((b, v) ∷ m) = let rest = find_anchor a m in if a == b then some v else rest

unfoldable pub push_item : Yamls → Yaml → Yamls
push_item no_items y = item y no_items
push_item (item x xs) y = item x (push_item xs y)

unfoldable pub is_badvalue : Yaml → Bool
is_badvalue bad_value = true
is_badvalue (real s) = false
is_badvalue (string s) = false
is_badvalue (integer n) = false
is_badvalue (boolean b) = false
is_badvalue (array vs) = false
is_badvalue (hash h) = false
is_badvalue null = false

negated : ℕ → ℤ
negated zero = pos 0
negated (suc n) = negsuc n

signed : (ℕ → ℤ) → Option ℕ → Option ℤ
signed f none = none
signed f (some n) = some (f n)

unsigned : Text → Bool
unsigned [] = true
unsigned (c ∷ s) = not (c == b'+')

-- `str::parse::<i64>`
unfoldable pub parse_i64 : Text → Option ℤ
unfolding negated signed unsigned
parse_i64 [] = none
parse_i64 (c ∷ s) =
    if c == b'-'
    then (if unsigned s then signed negated (parse_word (2 ^ 63) s) else none)
    else signed pos (parse_word (2 ^ 63 - 1) (c ∷ s))

module _ (lib : YamlLib) where
  -- A node under an open map: it is the key, or the value of the key that waits.
  in_hash : Entries → ℕ → List (Yaml × ℕ) → Yaml → List Yaml → Loader → Option Loader
  in_hash h a rest y [] l = none
  in_hash h a rest y (k ∷ ks) l = some (
      if is_badvalue k
      then record l { key_stack = y ∷ ks }
      else record l { doc_stack = (hash (lib.insert k y h), a) ∷ rest; key_stack = bad_value ∷ ks })

  in_parent : Yaml × ℕ → List (Yaml × ℕ) → Loader → Option Loader
  in_parent node [] l = some (record l { doc_stack = node ∷ [] })
  in_parent (y, b) ((array vs, a) ∷ rest) l =
      some (record l { doc_stack = (array (push_item vs y), a) ∷ rest })
  in_parent (y, b) ((hash h, a) ∷ rest) l = in_hash h a rest y l.key_stack l
  in_parent (y, b) (other ∷ rest) l = none

  noted : Yaml × ℕ → Loader → Loader
  noted (y, a) l = if ltb 0 a then record l { anchor_map = (a, y) ∷ l.anchor_map } else l

  -- `insert_node`
  unfoldable pub insert_node : Yaml × ℕ → Loader → Option Loader
  unfolding in_hash in_parent noted is_badvalue push_item
  insert_node node l = in_parent node l.doc_stack (noted node l)

bool_of : Text → Yaml
bool_of v =
    if text_eq v (codes "true") || text_eq v (codes "True") || text_eq v (codes "TRUE")
    then boolean true
    else if text_eq v (codes "false") || text_eq v (codes "False") || text_eq v (codes "FALSE")
    then boolean false
    else bad_value

integer_of : Option ℤ → Yaml
integer_of none = bad_value
integer_of (some n) = integer n

module _ (lib : YamlLib) where
  tagged : Text → Text → Yaml
  tagged suffix v =
      if text_eq suffix (codes "bool")
      then bool_of v
      else if text_eq suffix (codes "int")
      then integer_of (parse_i64 v)
      else if text_eq suffix (codes "float")
      then (if lib.is_f64 v then real v else bad_value)
      else if text_eq suffix (codes "null")
      then (if text_eq v (codes "~") || text_eq v (codes "null") then null else bad_value)
      else string v

  plain_scalar : Text → Option Tag → Yaml
  plain_scalar v none = lib.from_str v
  plain_scalar v (some t) =
      if text_eq t.handle (codes "tag:yaml.org,2002:") then tagged t.suffix v else string v

  -- `scalar_to_yaml`
  unfoldable pub scalar_to_yaml : Text → ScalarStyle → Option Tag → Yaml
  unfolding plain_scalar tagged integer_of bool_of
  scalar_to_yaml v plain tag = plain_scalar v tag
  scalar_to_yaml v quoted tag = string v

  or_bad : Option Yaml → Yaml
  or_bad none = bad_value
  or_bad (some y) = y

  end_document : List (Yaml × ℕ) → Loader → Option Loader
  end_document [] l = some (record l { docs = l.docs ++ bad_value ∷ [] })
  end_document ((y, a) ∷ []) l = some (record l { docs = l.docs ++ y ∷ []; doc_stack = [] })
  end_document (n ∷ m ∷ rest) l = none

  end_node : List (Yaml × ℕ) → Loader → Option Loader
  end_node [] l = none
  end_node (n ∷ rest) l = insert_node lib n (record l { doc_stack = rest })

  end_mapping : List Yaml → Loader → Option Loader
  end_mapping [] l = none
  end_mapping (k ∷ ks) l = end_node l.doc_stack (record l { key_stack = ks })

  -- `on_event`
  unfoldable pub on_event : Event → Loader → Option Loader
  unfolding end_document end_node end_mapping or_bad
  on_event no_event l = some l
  on_event document_end l = end_document l.doc_stack l
  on_event (sequence_start a) l = some (record l { doc_stack = (array no_items, a) ∷ l.doc_stack })
  on_event sequence_end l = end_node l.doc_stack l
  on_event (mapping_start a) l = some (record l {
    doc_stack = (hash no_entries, a) ∷ l.doc_stack;
    key_stack = bad_value ∷ l.key_stack;
  })
  on_event mapping_end l = end_mapping l.key_stack l
  on_event (scalar v style a tag) l = insert_node lib (scalar_to_yaml v style tag, a) l
  on_event (alias id) l = insert_node lib (or_bad (find_anchor id l.anchor_map), 0) l

  -- `Parser::load` hands the loader one event after the other.
  unfoldable pub load : List Event → Loader → Option Loader
  load [] l = some l
  load (e ∷ es) l = elim (on_event e l) [ none ↦ none | some k ↦ load es k ]

abbrev pub new_loader : Loader
new_loader = record { docs = []; doc_stack = []; key_stack = []; anchor_map = [] }
