-- ===== src/Schema/Identifiers.antt =====
-- crates/vdsm-schema/build.rs: the names that `pascal` and `rust_variant_ident` make.
use vdsm_rs.Base.{
  ℕ, ◌≡◌, refl, Bool, true, false, not, ◌||◌, List, [], ◌∷◌, ◌++◌, arith, inl, inr, Bool-cases,
  if◌then◌else◌, ◌==◌, All, All-append, Text, codes, text_eq, is_ascii_digit, is_ascii_alphanumeric,
  any, all, contains_byte,
}
use vdsm_rs.Encoding.Trim.{split_whitespace}
use vdsm_rs.Schema.Names.{
  pascal, pascal_loop, to_ascii_uppercase, is_ascii_lowercase, is_ascii_uppercase, is_keyword,
  rust_keywords, rust_variant_ident, named,
}

-- A letter, digit or low line.
abbrev pub IsWord : ℕ → Type 0
IsWord c = (is_ascii_alphanumeric c || (c == b'_')) ≡ true

-- A letter, and words behind it.
abbrev pub IsIdent : Text → Type 0
IsIdent [] = ⊥
IsIdent (c ∷ s) = ((is_ascii_lowercase c || is_ascii_uppercase c) ≡ true) × All IsWord s

abbrev IsAlphanumeric : ℕ → Type 0
IsAlphanumeric c = is_ascii_alphanumeric c ≡ true

to_ascii_uppercase-IsAlphanumeric :
    (c : ℕ) → IsAlphanumeric c → IsAlphanumeric (to_ascii_uppercase c)
unfolding to_ascii_uppercase
to_ascii_uppercase-IsAlphanumeric c h = ground arith

raised-IsAlphanumeric :
    (c : ℕ) (up : Bool) → IsAlphanumeric c → IsAlphanumeric (if up then to_ascii_uppercase c else c)
raised-IsAlphanumeric c true h = to_ascii_uppercase-IsAlphanumeric c h
raised-IsAlphanumeric c false h = h

pascal_loop-IsAlphanumeric :
    (s out : Text) (up : Bool) → All IsAlphanumeric out → All IsAlphanumeric (pascal_loop s out up)
unfolding pascal_loop
pascal_loop-IsAlphanumeric [] out up h = h
pascal_loop-IsAlphanumeric (c ∷ s) out up h = elim (Bool-cases (is_ascii_alphanumeric c)) [
  | inl q ↦ rw q (
      pascal_loop-IsAlphanumeric s _ false
        (All-append IsAlphanumeric out _ h (raised-IsAlphanumeric c up q, tt)))
  | inr q ↦ rw q (pascal_loop-IsAlphanumeric s out true h)
]

All-IsWord : (s : Text) → All IsAlphanumeric s → All IsWord s
All-IsWord [] h = tt
All-IsWord (c ∷ s) h = (rw (h.0) refl, All-IsWord s h.1)

named-IsIdent :
    (out : Text) → All IsAlphanumeric out → IsIdent (named (codes "Unnamed") (codes "V") out)
unfolding named
named-IsIdent [] h = (refl, (refl, (refl, (refl, (refl, (refl, (refl, tt)))))))
named-IsIdent (c ∷ s) h = elim (Bool-cases (is_ascii_digit c)) [
  | inl q ↦ rw q (refl, All-IsWord (c ∷ s) h)
  | inr q ↦ rw q (ground (arith, h.0), All-IsWord s h.1)
]

pascal-IsIdent : (s : Text) → IsIdent (pascal s)
unfolding pascal
pascal-IsIdent s = named-IsIdent (pascal_loop s [] true) (pascal_loop-IsAlphanumeric s [] true tt)

-- A text that ends in a low line is none that has no low line.
text_eq-marked : (p w : Text) → contains_byte w b'_' ≡ false → text_eq (p ++ b'_' ∷ []) w ≡ false
unfolding text_eq contains_byte
text_eq-marked [] [] h = refl
text_eq-marked [] (d ∷ w) h = ground arith
text_eq-marked (c ∷ p) [] h = refl
text_eq-marked (c ∷ p) (d ∷ w) h = ground (arith, text_eq-marked p w)

any-marked :
    (p : Text) (ws : List Text)
    → all (λ w. not (contains_byte w b'_')) ws ≡ true
    → any (text_eq (p ++ b'_' ∷ [])) ws ≡ false
any-marked p [] h = refl
any-marked p (w ∷ ws) h = ground (arith, text_eq-marked p w, any-marked p ws)

keywords_plain : all (λ w. not (contains_byte w b'_')) rust_keywords ≡ true
unfolding contains_byte split_whitespace
keywords_plain = refl

is_keyword-marked : (p : Text) → is_keyword (p ++ b'_' ∷ []) ≡ false
unfolding is_keyword
is_keyword-marked p = any-marked p rust_keywords keywords_plain

marked-IsIdent : (p : Text) → IsIdent p → IsIdent (p ++ b'_' ∷ [])
marked-IsIdent [] h = absurd h
marked-IsIdent (c ∷ s) h = (h.0, All-append IsWord s (b'_' ∷ []) h.1 (refl, tt))

-- Whatever the schema calls a value, its variant's name is a letter with letters, digits and low lines
-- behind it, and no keyword.
pub rust_variant_ident-IsIdent :
    (yaml_key : Text)
    → IsIdent (rust_variant_ident yaml_key).0 × (is_keyword (rust_variant_ident yaml_key).0 ≡ false)
unfolding rust_variant_ident
rust_variant_ident-IsIdent yaml_key = elim (Bool-cases (is_keyword (pascal yaml_key))) [
  | inl q ↦ rw q (
    marked-IsIdent (pascal yaml_key) (pascal-IsIdent yaml_key),
    is_keyword-marked (pascal yaml_key),
  )
  | inr q ↦ rw q (pascal-IsIdent yaml_key, q)
]
