-- ===== src/Stomp/Escape.antt =====
-- crates/vdsm-rpc/src/stomp.rs: `escape_header` and `unescape_header`. The bytes that they look at
-- are ASCII, which never occur inside a longer character, so a walk over bytes is one over `char`s.
use vdsm_rs.Base.{
  ℕ, ◌≤◌, ◌<◌, ◌≡◌, ◌≢◌, refl, ap, true, false, [], ◌∷◌, ◌++◌, arith, ltb, ◌==◌, if◌then◌else◌,
  Text, ltb→lt, ltb→ge, All, All-append, none, Bool-cases, inl, inr,
}
use vdsm_rs.Encoding.Utf8.{
  Scan, utf8_error_from, IsUtf8, SameNeed, advance, error_from-ascii, step-SameNeed, step-ascii,
  IsUtf8-of_from, error_from-nil, error_from-cons, error_from_step,
}

-- One round of the loop of `escape_header`: what is pushed for `c`.
unfoldable pub escape_char : ℕ → Text
escape_char c =
    if c == b'\\'
    then b'\\' ∷ b'\\' ∷ []
    else if c == b'\r'
    then b'\\' ∷ b'r' ∷ []
    else if c == b'\n'
    then b'\\' ∷ b'n' ∷ []
    else if c == b':'
    then b'\\' ∷ b'c' ∷ []
    else c ∷ []

unfoldable pub escape_header : Text → Text
unfolding escape_char
escape_header [] = []
escape_header (c ∷ s) = escape_char c ++ escape_header s

-- What is pushed for the character behind a backslash; an unknown escape is kept as it is.
unfoldable pub unescape_char : ℕ → Text
unescape_char c =
    if c == b'\\'
    then b'\\' ∷ []
    else if c == b'r'
    then b'\r' ∷ []
    else if c == b'n'
    then b'\n' ∷ []
    else if c == b'c'
    then b':' ∷ []
    else b'\\' ∷ c ∷ []

-- A lone backslash at the end is kept.
unfoldable pub unescape_header : Text → Text
unfolding unescape_char
unescape_header [] = []
unescape_header (c ∷ []) = c ∷ []
unescape_header (c ∷ d ∷ s) = elim (c == b'\\') [
  | true ↦ unescape_char d ++ unescape_header s
  | false ↦ c ∷ unescape_header (d ∷ s)
]

-- A byte that needs no escape passes through both loops.
unescape_plain : (c : ℕ) (s : Text) → c ≢ b'\\' → unescape_header (c ∷ s) ≡ c ∷ unescape_header s
unfolding unescape_header
unescape_plain c [] h = refl
unescape_plain c (d ∷ s) h = ground arith

unescape-escape_char :
    (c : ℕ) (s : Text) → unescape_header (escape_char c ++ s) ≡ c ∷ unescape_header s
unfolding escape_char unescape_header
unescape-escape_char c s = ground (arith, unescape_plain c s)

-- Every header text is read back from its escaped form.
pub unescape-escape : (s : Text) → unescape_header (escape_header s) ≡ s
unfolding escape_header unescape_header
unescape-escape [] = refl
unescape-escape (c ∷ s) = rw unescape-escape_char (ap (λ r. c ∷ r) (unescape-escape s))

-- The bytes that would end a header's name or its line.
abbrev pub IsInert : ℕ → Type 0
IsInert c = (c ≢ b'\r') × (c ≢ b'\n') × (c ≢ b':')

escape_char-IsInert : (c : ℕ) → All IsInert (escape_char c)
unfolding escape_char
escape_char-IsInert c = ground arith

-- Escaped text holds no carriage return, no newline and no colon.
pub escape-IsInert : (s : Text) → All IsInert (escape_header s)
unfolding escape_header
escape-IsInert [] = tt
escape-IsInert (c ∷ s) =
    All-append IsInert (escape_char c) _ (escape_char-IsInert c) (escape-IsInert s)

-- A byte that the loop pushes as it is.
escape_char_plain : (c : ℕ) → 128 ≤ c → escape_char c ≡ c ∷ []
unfolding escape_char
escape_char_plain c h = ground arith

escape_char-utf8_from :
    (c : ℕ) (r : Text) (b : Scan)
    → c < 128
    → b.need ≡ 0
    → utf8_error_from (advance b) r ≡ none
    → utf8_error_from (advance (advance b)) r ≡ none
    → utf8_error_from b (escape_char c ++ r) ≡ none
unfolding escape_char
escape_char-utf8_from c r b h n e₁ e₂ = ground (
  arith,
  error_from-ascii b c r,
  error_from-ascii b b'\\' (b'\\' ∷ r),
  error_from-ascii b b'\\' (b'r' ∷ r),
  error_from-ascii b b'\\' (b'n' ∷ r),
  error_from-ascii b b'\\' (b'c' ∷ r),
  error_from-ascii (advance b) b'\\' r,
  error_from-ascii (advance b) b'r' r,
  error_from-ascii (advance b) b'n' r,
  error_from-ascii (advance b) b'c' r,
)

escape-utf8_from :
    (s : Text) (a b : Scan)
    → SameNeed a b
    → utf8_error_from a s ≡ none
    → utf8_error_from b (escape_header s) ≡ none
unfolding escape_header
escape-utf8_from [] a b h e = error_from-nil a b h e
escape-utf8_from (c ∷ s) a b h e =
    let (a', accepts, later) = error_from-cons a c s e in
    let (b', accepts', same) = step-SameNeed a b a' c h accepts in
    elim (Bool-cases (ltb c 128)) [
      | inl small ↦
          let (open_a, lo, hi, closed) = step-ascii a a' c h.3 accepts (ltb→lt c 128 small) in
          escape_char-utf8_from c _ b (ltb→lt c 128 small) (omega arith)
            (escape-utf8_from s a' (advance b) (omega arith) later)
            (escape-utf8_from s a' (advance (advance b)) (omega arith) later)
      | inr large ↦
          rw (escape_char_plain c (ltb→ge c 128 large), error_from_step b b' c _ accepts')
            (escape-utf8_from s a' b' same later)
    ]

-- Escaping a text gives a text.
pub escape-IsUtf8 : (s : Text) → IsUtf8 s → IsUtf8 (escape_header s)
escape-IsUtf8 s = IsUtf8-of_from s (escape_header s) (escape-utf8_from s)
