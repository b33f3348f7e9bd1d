-- ===== src/Encoding/Decimal.antt =====
-- `to_string` of an unsigned integer, and `str::parse` to one, on a 64-bit machine.
use vdsm_rs.Base.{
  ℕ, zero, suc, ◌+◌, ◌-◌, ◌*◌, ◌/◌, ◌%◌, ◌≤◌, ◌<◌, ◌≡◌, ◌≢◌, refl, ◌∙◌, true, false, ◌||◌, Option,
  none, some, [], ◌∷◌, arith, ltb, ◌==◌, if◌then◌else◌, Text, All, codes, Bool-cases, inl, inr,
}

abbrev pub usize_max : ℕ
usize_max = 18446744073709551615

abbrev pub u32_max : ℕ
u32_max = 4294967295

-- Each round puts the last digit in front and divides by ten.
emit_digits : ℕ → ℕ → Text → Text
emit_digits zero n out = out
emit_digits (suc f) n out = elim (n / 10 == 0) [
  | true ↦ (b'0' + n % 10) ∷ out
  | false ↦ emit_digits f (n / 10) ((b'0' + n % 10) ∷ out)
]

-- `n.to_string()`; the fuel is enough, since each round makes `n` smaller.
unfoldable pub to_string : ℕ → Text
unfolding emit_digits
to_string n = emit_digits (suc n) n []

-- The digits, with an error on any other byte and on overflow.
scan_digits : ℕ → Text → ℕ → Option ℕ
scan_digits max [] n = some n
scan_digits max (c ∷ s) n =
    if ltb c b'0' || ltb b'9' c
    then none
    else if ltb max (n * 10 + (c - b'0'))
    then none
    else scan_digits max s (n * 10 + (c - b'0'))

-- `parse` to a type whose largest value is `max`. One leading `+` is accepted, and no digit at all is
-- refused.
unfoldable pub parse_word : ℕ → Text → Option ℕ
unfolding scan_digits
parse_word max [] = none
parse_word max (c ∷ []) = if c == b'+' then none else scan_digits max (c ∷ []) 0
parse_word max (c ∷ d ∷ s) =
    if c == b'+' then scan_digits max (d ∷ s) 0 else scan_digits max (c ∷ d ∷ s) 0

-- `str::parse::<usize>`
unfoldable pub parse_usize : Text → Option ℕ
unfolding parse_word
parse_usize = parse_word usize_max

parse_plus : parse_usize (codes "+12") ≡ some 12
unfolding parse_usize
parse_plus = refl

show_small : to_string 4095 ≡ codes "4095"
unfolding to_string
show_small = refl

scan-emit_digits :
    (f n : ℕ) (out : Text)
    → n < f
    → n ≤ usize_max
    → scan_digits usize_max (emit_digits f n out) 0 ≡ scan_digits usize_max out n
unfolding emit_digits scan_digits
scan-emit_digits zero n out h fits = absurd (omega arith)
scan-emit_digits (suc f) n out h fits =
    ground (arith, scan-emit_digits f (n / 10) ((b'0' + n % 10) ∷ out))

abbrev pub IsDigit : ℕ → Type 0
IsDigit c = (b'0' ≤ c) × (c ≤ b'9')

emit_digits-IsDigit : (f n : ℕ) (out : Text) → All IsDigit out → All IsDigit (emit_digits f n out)
unfolding emit_digits
emit_digits-IsDigit zero n out h = h
emit_digits-IsDigit (suc f) n out h =
    let digit : IsDigit (b'0' + n % 10) = (omega arith, omega arith) in
    elim (Bool-cases (n / 10 == 0)) [
      | inl e ↦ rw (e, emit_digits) (digit, h)
      | inr e ↦ rw (e, emit_digits) (emit_digits-IsDigit f (n / 10) _ (digit, h))
    ]

pub to_string-IsDigit : (n : ℕ) → All IsDigit (to_string n)
unfolding to_string
to_string-IsDigit n = emit_digits-IsDigit (suc n) n [] tt

emit_digits-ne-nil : (f n : ℕ) (out : Text) → emit_digits (suc f) n out ≢ []
unfolding emit_digits
emit_digits-ne-nil zero n out h = ground arith
emit_digits-ne-nil (suc f) n out h =
    ground (arith, emit_digits-ne-nil f (n / 10) ((b'0' + n % 10) ∷ out))

parse-scan_digits : (s : Text) → s ≢ [] → All IsDigit s → parse_usize s ≡ scan_digits usize_max s 0
unfolding parse_usize
parse-scan_digits [] ne h = absurd (ne refl)
parse-scan_digits (c ∷ []) ne h = ground arith
parse-scan_digits (c ∷ d ∷ s) ne h = ground arith

pub to_string-ne-nil : (n : ℕ) → to_string n ≢ []
unfolding to_string
to_string-ne-nil n = emit_digits-ne-nil n n []

scan-to_string : (n : ℕ) → n ≤ usize_max → scan_digits usize_max (to_string n) 0 ≡ some n
unfolding to_string scan_digits
scan-to_string n h = scan-emit_digits (suc n) n [] (omega arith) h

-- Every word is read back from its decimal print.
pub parse_usize-to_string : (n : ℕ) → n ≤ usize_max → parse_usize (to_string n) ≡ some n
parse_usize-to_string n h =
    parse-scan_digits _ (to_string-ne-nil n) (to_string-IsDigit n) ∙ scan-to_string n h
