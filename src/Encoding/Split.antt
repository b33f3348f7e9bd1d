-- ===== src/Encoding/Split.antt =====
-- `str::split` on a byte, and `str::lines`.
use vdsm_rs.Base.{
  Lacks, ap, ◌++◌, ◌≢◌, ◌∙◌, arith, ℕ, ◌≡◌, refl, List, [], ◌∷◌, ◌==◌, if◌then◌else◌, Text, codes,
  is_empty,
}

cons_first : ℕ → List Text → List Text
cons_first c [] = (c ∷ []) ∷ []
cons_first c (p ∷ ps) = (c ∷ p) ∷ ps

-- The pieces between the separators; there is at least one.
unfoldable pub split_on : ℕ → Text → List Text
unfolding cons_first
split_on sep [] = [] ∷ []
split_on sep (c ∷ s) =
    let rest = split_on sep s in if c == sep then [] ∷ rest else cons_first c rest

chomp_cr : Text → Text
chomp_cr [] = []
chomp_cr (c ∷ []) = if c == b'\r' then [] else c ∷ []
chomp_cr (c ∷ d ∷ s) = c ∷ chomp_cr (d ∷ s)

-- A line that ends in a newline may end in a carriage return before it; what is behind the last
-- newline is a line if it is not empty.
line_ends : List Text → List Text
line_ends [] = []
line_ends (p ∷ []) = if is_empty p then [] else p ∷ []
line_ends (p ∷ q ∷ ps) = chomp_cr p ∷ line_ends (q ∷ ps)

unfoldable pub lines : Text → List Text
unfolding split_on chomp_cr line_ends
lines s = line_ends (split_on b'\n' s)

two_lines : lines (codes "a:b\r\n\nc\n") ≡ codes "a:b" ∷ [] ∷ codes "c" ∷ []
unfolding lines
two_lines = refl

-- The text does not end in this byte.
abbrev pub LastIsNot : ℕ → Text → Type 0
LastIsNot b [] = Unit
LastIsNot b (c ∷ []) = c ≢ b
LastIsNot b (c ∷ d ∷ s) = LastIsNot b (d ∷ s)

split_on-line :
    (sep : ℕ) (l rest : Text)
    → Lacks sep l
    → split_on sep (l ++ (sep ∷ rest)) ≡ l ∷ split_on sep rest
unfolding split_on cons_first
split_on-line sep [] rest h = ground arith
split_on-line sep (c ∷ l) rest h = ground (arith, split_on-line sep l rest h.1)

chomp_cr_keeps : (l : Text) → LastIsNot b'\r' l → chomp_cr l ≡ l
unfolding chomp_cr
chomp_cr_keeps [] h = refl
chomp_cr_keeps (c ∷ []) h = ground arith
chomp_cr_keeps (c ∷ d ∷ s) h = ap (λ r. c ∷ r) (chomp_cr_keeps (d ∷ s) h)

line_ends-cons :
    (l : Text) (ps : List Text) → ps ≢ [] → line_ends (l ∷ ps) ≡ chomp_cr l ∷ line_ends ps
unfolding line_ends
line_ends-cons l [] h = absurd (h refl)
line_ends-cons l (p ∷ ps) h = refl

cons_first-ne-nil : (c : ℕ) (ps : List Text) → cons_first c ps ≢ []
unfolding cons_first
cons_first-ne-nil c [] h = cc
cons_first-ne-nil c (p ∷ ps) h = cc

split_on-ne-nil : (sep : ℕ) (s : Text) → split_on sep s ≢ []
unfolding split_on
split_on-ne-nil sep [] h = cc
split_on-ne-nil sep (c ∷ s) h = ground (arith, cons_first-ne-nil c (split_on sep s))

-- The first line of a text, and the lines behind it.
pub lines-cons :
    (l rest : Text)
    → Lacks b'\n' l
    → LastIsNot b'\r' l
    → lines (l ++ (b'\n' ∷ rest)) ≡ l ∷ lines rest
unfolding lines
lines-cons l rest h k =
    ap line_ends (split_on-line b'\n' l rest h)
    ∙ line_ends-cons l (split_on b'\n' rest) (split_on-ne-nil b'\n' rest)
    ∙ ap (λ x. x ∷ line_ends (split_on b'\n' rest)) (chomp_cr_keeps l k)
