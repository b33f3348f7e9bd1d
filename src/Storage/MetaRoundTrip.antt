-- ===== src/Storage/MetaRoundTrip.antt =====
-- crates/vdsm-storage/src/volumes.rs and domain.rs: metadata that was written is read back.
use vdsm_rs.Base.{
  ℕ, ◌≡◌, ◌≢◌, refl, sym, ap, ◌∙◌, some, List, [], ◌∷◌, ◌++◌, append_assoc, arith, Text, codes, All,
  Lacks, text_eq,
}
use mathlib.Core.List.{reverse}
use vdsm_rs.Encoding.Decimal.{to_string, to_string-IsDigit, IsDigit}
use vdsm_rs.Encoding.Split.{lines, lines-cons, LastIsNot}
use vdsm_rs.Encoding.TextMap
use vdsm_rs.Encoding.TextMap.{TextMap}
use vdsm_rs.Encoding.Trim.{trim, trim_visible, IsVisible}
use vdsm_rs.Storage.Metadata.{
  VolumeMeta, entries_of, build_meta, print_entries, split_once, insert_lines, insert_entry,
  read_meta, cons_key,
}

-- A value that is one line and has no white space at its ends.
abbrev pub IsPlain : Text → Type 0
IsPlain v = Lacks b'\n' v × LastIsNot b'\r' v × (trim v ≡ v)

split_once-append : (k v : Text) → Lacks b'=' k → split_once (k ++ (b'=' ∷ v)) ≡ some (k, v)
unfolding split_once cons_key
split_once-append [] v h = refl
split_once-append (c ∷ k) v h = ground (arith, split_once-append k v h.1)

LastIsNot-append : (b : ℕ) (k v : Text) (c : ℕ) → c ≢ b → LastIsNot b v → LastIsNot b (k ++ (c ∷ v))
LastIsNot-append b [] [] c n h = n
LastIsNot-append b [] (d ∷ v) c n h = h
LastIsNot-append b (x ∷ []) v c n h = LastIsNot-append b [] v c n h
LastIsNot-append b (x ∷ y ∷ k) v c n h = LastIsNot-append b (y ∷ k) v c n h

Lacks-append : (b : ℕ) (s t : Text) → Lacks b s → Lacks b t → Lacks b (s ++ t)
Lacks-append b [] t h k = k
Lacks-append b (c ∷ s) t h k = (h.0, Lacks-append b s t h.1 k)

-- A key is one line without an equals sign, and has no white space at its ends.
abbrev pub IsKey : Text → Type 0
IsKey k = Lacks b'\n' k × Lacks b'=' k × (trim k ≡ k)

abbrev pub IsEntry : Text × Text → Type 0
IsEntry e = IsKey e.0 × IsPlain e.1

insert_all : List (Text × Text) → TextMap Text → TextMap Text
insert_all [] m = m
insert_all ((k, v) ∷ es) m = insert_all es (TextMap.insert k v m)

entry-IsEntry :
    (k v : Text) (m : TextMap Text)
    → Lacks b'=' k
    → trim k ≡ k
    → trim v ≡ v
    → insert_entry (split_once (k ++ (b'=' ∷ v))) m ≡ TextMap.insert k v m
unfolding insert_entry
entry-IsEntry k v m h a b =
    ap (λ e. insert_entry e m) (split_once-append k v h)
    ∙ ap (λ x. TextMap.insert x (trim v) m) a
    ∙ ap (λ y. TextMap.insert k y m) b

-- The loop reads the printed entries one after the other.
insert-print_entries :
    (es : List (Text × Text)) (tail : Text) (m : TextMap Text)
    → All IsEntry es
    → insert_lines (lines (print_entries es tail)) m ≡ insert_lines (lines tail) (insert_all es m)
unfolding print_entries insert_lines insert_entry insert_all
insert-print_entries [] tail m h = refl
insert-print_entries ((k, v) ∷ es) tail m (((kn, ke, kt), (vn, vr, vt)), h) =
    ap (λ s. insert_lines (lines s) m)
      (sym (append_assoc k (b'=' ∷ v) (b'\n' ∷ print_entries es tail)))
    ∙ ap (λ ls. insert_lines ls m)
        (lines-cons (k ++ (b'=' ∷ v)) (print_entries es tail)
          (Lacks-append b'\n' k (b'=' ∷ v) kn (omega arith, vn))
          (LastIsNot-append b'\r' k v b'=' (omega arith) vr))
    ∙ ap (λ n. insert_lines (lines (print_entries es tail)) n) (entry-IsEntry k v m ke kt vt)
    ∙ insert-print_entries es tail (TextMap.insert k v m) h

-- A volume's texts are each one line without white space at its ends.
abbrev pub IsPlainMeta : VolumeMeta → Type 0
IsPlainMeta m =
    IsPlain m.desc
    × IsPlain m.disk_type
    × IsPlain m.sd_id
    × IsPlain m.fmt_str
    × IsPlain m.img_id
    × IsPlain m.src_vol
    × IsPlain m.alloc_str

digits_one_line : (s : Text) → All IsDigit s → Lacks b'\n' s × LastIsNot b'\r' s × All IsVisible s
digits_one_line [] h = (tt, tt, tt)
digits_one_line (c ∷ []) h = ((omega arith, tt), omega arith, ((omega arith, omega arith), tt))
digits_one_line (c ∷ d ∷ s) h =
    let (a, b, v) = digits_one_line (d ∷ s) h.1 in
    ((omega arith, a), b, ((omega arith, omega arith), v))

digits-IsPlain : (n : ℕ) → IsPlain (to_string n)
digits-IsPlain n =
    let (a, b, v) = digits_one_line (to_string n) (to_string-IsDigit n) in
    (a, b, trim_visible (to_string n) v)

entries_of-IsEntry : (m : VolumeMeta) → IsPlainMeta m → All IsEntry (entries_of m)
unfolding trim reverse
entries_of-IsEntry m (d, t, s, f, i, p, a) = (
  ((omega arith, omega arith, refl), digits-IsPlain m.size_bytes),
  (
    ((omega arith, omega arith, refl), digits-IsPlain m.ctime),
    (
      ((omega arith, omega arith, refl), d),
      (
        ((omega arith, omega arith, refl), t),
        (
          ((omega arith, omega arith, refl), s),
          (
            ((omega arith, omega arith, refl), f),
            (
              ((omega arith, omega arith, refl), (omega arith, omega arith, refl)),
              (
                ((omega arith, omega arith, refl), i),
                (
                  ((omega arith, omega arith, refl), (omega arith, omega arith, refl)),
                  (
                    ((omega arith, omega arith, refl), p),
                    (
                      ((omega arith, omega arith, refl), a),
                      (((omega arith, omega arith, refl), (omega arith, omega arith, refl)), tt),
                    ),
                  ),
                ),
              ),
            ),
          ),
        ),
      ),
    ),
  ),
)

-- What `volume_create` writes beside a volume is read back by `volume_get_info` entry by entry.
pub read_meta-build_meta :
    (m : VolumeMeta) → IsPlainMeta m → read_meta (build_meta m) ≡ entries_of m
unfolding read_meta build_meta insert_lines insert_entry insert_all lines split_once cons_key
    TextMap.insert text_eq trim reverse
read_meta-build_meta m h =
    insert-print_entries (entries_of m) (codes "EOF\n") [] (entries_of-IsEntry m h)
