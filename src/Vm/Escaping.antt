-- ===== src/Vm/Escaping.antt =====
-- crates/vdsm-virt/src/domain_xml.rs: what `xml_escape` makes of a text, and a reader of it.
use vdsm_rs.Base.{
  ℕ, zero, suc, ◌≡◌, ◌≢◌, refl, sym, ◌∙◌, ap, false, [], ◌∷◌, ◌++◌, append_assoc, arith, inl, inr,
  Bool-cases, if◌then◌else◌, ◌==◌, ==_iff, All, All-append, flatten, map, Text, codes, starts_with,
}
use vdsm_rs.Encoding.Affix.{replace_byte}
use vdsm_rs.Vm.DomainXml.{xml_escape}

-- The text that stands for a byte.
abbrev pub entity : ℕ → Text
entity c =
    if c == b'&'
    then codes "&amp;"
    else if c == b'<'
    then codes "&lt;"
    else if c == b'>'
    then codes "&gt;"
    else if c == b'"'
    then codes "&quot;"
    else if c == b'\''
    then codes "&apos;"
    else c ∷ []

replace_byte-append :
    (b : ℕ) (r s t : Text) → replace_byte b r (s ++ t) ≡ replace_byte b r s ++ replace_byte b r t
unfolding replace_byte
replace_byte-append b r [] t = refl
replace_byte-append b r (c ∷ s) t =
    rw (replace_byte-append b r s t)
      (sym (append_assoc (if c == b then r else c ∷ []) (replace_byte b r s) (replace_byte b r t)))

xml_escape-append : (s t : Text) → xml_escape (s ++ t) ≡ xml_escape s ++ xml_escape t
unfolding xml_escape
xml_escape-append s t = simp (replace_byte-append) refl

-- A byte is one of the five that are escaped, or another one.
by_entity :
    (P : ℕ → Type 0) (c : ℕ)
    → P b'&'
    → P b'<'
    → P b'>'
    → P b'"'
    → P b'\''
    → ((c == b'&') ≡ false
        → (c == b'<') ≡ false
        → (c == b'>') ≡ false
        → (c == b'"') ≡ false
        → (c == b'\'') ≡ false
        → P c)
    → P c
by_entity P c a l g q p other = elim (Bool-cases (c == b'&')) [
  | inl e ↦ rw ((==_iff c b'&').0 e) a
  | inr e0 ↦ elim (Bool-cases (c == b'<')) [
    | inl e ↦ rw ((==_iff c b'<').0 e) l
    | inr e1 ↦ elim (Bool-cases (c == b'>')) [
      | inl e ↦ rw ((==_iff c b'>').0 e) g
      | inr e2 ↦ elim (Bool-cases (c == b'"')) [
        | inl e ↦ rw ((==_iff c b'"').0 e) q
        | inr e3 ↦ elim (Bool-cases (c == b'\'')) [
          | inl e ↦ rw ((==_iff c b'\'').0 e) p
          | inr e4 ↦ other e0 e1 e2 e3 e4
        ]
      ]
    ]
  ]
]

xml_escape-entity : (c : ℕ) → xml_escape (c ∷ []) ≡ entity c
unfolding xml_escape replace_byte
xml_escape-entity c =
    by_entity (λ c. xml_escape (c ∷ []) ≡ entity c) c refl refl refl refl refl
      (λ e0 e1 e2 e3 e4. simp (e0, e1, e2, e3, e4) refl)

-- The five replacements, one behind the other, are one pass that puts an entity for each byte.
xml_escape-flatten : (s : Text) → xml_escape s ≡ flatten (map entity s)
xml_escape-flatten [] = unfold xml_escape replace_byte in refl
xml_escape-flatten (c ∷ s) =
    xml_escape-append (c ∷ []) s ∙ rw (xml_escape-entity c, xml_escape-flatten s) refl

-- A reader of entities: those bytes of one that are left are skipped.
unfoldable pub unescape : ℕ → Text → Text
unfolding starts_with
unescape k [] = []
unescape (suc k) (c ∷ s) = unescape k s
unescape zero (c ∷ s) =
    if starts_with (c ∷ s) (codes "&amp;")
    then b'&' ∷ unescape 4 s
    else if starts_with (c ∷ s) (codes "&lt;")
    then b'<' ∷ unescape 3 s
    else if starts_with (c ∷ s) (codes "&gt;")
    then b'>' ∷ unescape 3 s
    else if starts_with (c ∷ s) (codes "&quot;")
    then b'"' ∷ unescape 5 s
    else if starts_with (c ∷ s) (codes "&apos;")
    then b'\'' ∷ unescape 5 s
    else c ∷ unescape 0 s

unescape-entity : (c : ℕ) (s : Text) → unescape 0 (entity c ++ s) ≡ c ∷ unescape 0 s
unfolding unescape starts_with
unescape-entity c s =
    by_entity (λ c. unescape 0 (entity c ++ s) ≡ c ∷ unescape 0 s) c refl refl refl refl refl
      (λ e0 e1 e2 e3 e4. simp (e0, e1, e2, e3, e4) refl)

unescape-flatten : (s : Text) → unescape 0 (flatten (map entity s)) ≡ s
unescape-flatten [] = unfold unescape in refl
unescape-flatten (c ∷ s) =
    unescape-entity c (flatten (map entity s)) ∙ ap (λ r. c ∷ r) (unescape-flatten s)

-- A byte that neither opens nor closes a tag or a quoted value.
abbrev pub IsPlain : ℕ → Type 0
IsPlain c = (c ≢ b'<') × (c ≢ b'>') × (c ≢ b'"') × (c ≢ b'\'')

entity-IsPlain : (c : ℕ) → All IsPlain (entity c)
entity-IsPlain c =
    by_entity (λ c. All IsPlain (entity c)) c (ground arith) (ground arith) (ground arith)
      (ground arith) (ground arith)
      (λ e0 e1 e2 e3 e4. rw (e0) (
        rw (e1) (
          rw (e2)
            (rw (e3) (rw (e4) ((ground arith, ground arith, ground arith, ground arith), tt))))))

flatten-IsPlain : (s : Text) → All IsPlain (flatten (map entity s))
flatten-IsPlain [] = tt
flatten-IsPlain (c ∷ s) =
    All-append IsPlain (entity c) (flatten (map entity s)) (entity-IsPlain c) (flatten-IsPlain s)

-- `xml_escape` puts for each byte of a text its entity or the byte itself; what it gives has no angle
-- bracket and no quote, and a reader of the five entities has the text again.
pub xml_escape-unescape :
    (s : Text)
    → (xml_escape s ≡ flatten (map entity s))
      × All IsPlain (xml_escape s)
      × (unescape 0 (xml_escape s) ≡ s)
xml_escape-unescape s = (
  xml_escape-flatten s,
  rw (xml_escape-flatten s) (flatten-IsPlain s),
  rw (xml_escape-flatten s) (unescape-flatten s),
)
