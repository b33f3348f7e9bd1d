-- ===== src/Encoding/Utf8.antt =====
-- `std::str::from_utf8`: the validation, with the position that its error reports.
use vdsm_rs.Base.{
  ℕ, zero, suc, ◌+◌, ◌≤◌, ◌<◌, ◌≡◌, refl, ◌∙◌, ◌&&◌, Option, none, some, [], ◌∷◌, arith, leb, ltb,
  ◌==◌, if◌then◌else◌, Result, ok, err, Bytes, Text, All,
}

-- `Utf8Error`: the length of the valid prefix, and the length of the invalid sequence, which is
-- `none` if the input ends inside a character.
pub record Utf8Error : Type 0 where
  pub valid_up_to : ℕ
  pub error_len : Option ℕ

-- Between bytes: where the current character starts, how many of its bytes were read, the range of
-- its next byte and how many bytes it still needs.
pub record Scan : Type 0 where
  pub start : ℕ
  pub seen : ℕ
  pub lo : ℕ
  pub hi : ℕ
  pub need : ℕ

abbrev pub scan_start : Scan
scan_start = record { start = 0; seen = 0; lo = 0x80; hi = 0xBF; need = 0 }

abbrev opens : Scan → ℕ → ℕ → ℕ → Result Utf8Error Scan
opens s l h n = ok (record s { seen = 1; lo = l; hi = h; need = n })

-- The first byte of a character.
lead : Scan → ℕ → Result Utf8Error Scan
lead s c =
    if ltb c 0x80
    then ok (record s { start = s.start + 1; seen = 0; lo = 0x80; hi = 0xBF; need = 0 })
    else if leb 0xC2 c && leb c 0xDF
    then opens s 0x80 0xBF 1
    else if c == 0xE0
    then opens s 0xA0 0xBF 2
    else if c == 0xED
    then opens s 0x80 0x9F 2
    else if leb 0xE1 c && leb c 0xEF
    then opens s 0x80 0xBF 2
    else if c == 0xF0
    then opens s 0x90 0xBF 3
    else if leb 0xF1 c && leb c 0xF3
    then opens s 0x80 0xBF 3
    else if c == 0xF4
    then opens s 0x80 0x8F 3
    else err (record { valid_up_to = s.start; error_len = some 1 })

-- A byte behind the first; `k` more are needed after it.
follow : Scan → ℕ → ℕ → Result Utf8Error Scan
follow s k c =
    if leb s.lo c && leb c s.hi
    then (if k == 0
        then ok
            (record s { start = s.start + s.seen + 1; seen = 0; lo = 0x80; hi = 0xBF; need = 0 })
        else ok (record s { seen = s.seen + 1; lo = 0x80; hi = 0xBF; need = k }))
    else err (record { valid_up_to = s.start; error_len = some s.seen })

step_need : ℕ → Scan → ℕ → Result Utf8Error Scan
step_need zero s c = lead s c
step_need (suc k) s c = follow s k c

finish_need : ℕ → Scan → Option Utf8Error
finish_need zero s = none
finish_need (suc k) s = some (record { valid_up_to = s.start; error_len = none })

unfoldable pub utf8_error_from : Scan → Bytes → Option Utf8Error
unfolding lead follow step_need finish_need
utf8_error_from s [] = finish_need s.need s
utf8_error_from s (c ∷ cs) = elim (step_need s.need s c) [
  | ok s' ↦ utf8_error_from s' cs
  | err e ↦ some e
]

pub utf8_error : Bytes → Option Utf8Error
utf8_error = utf8_error_from scan_start

-- A text is bytes in which no error is found: the invariant of Rust's `str`.
abbrev pub IsUtf8 : Bytes → Type 0
IsUtf8 s = utf8_error s ≡ none

abbrev pub lift_utf8 : Bytes → Option Utf8Error → Result Utf8Error Text
lift_utf8 s none = ok s
lift_utf8 s (some e) = err e

unfoldable pub from_utf8 : Bytes → Result Utf8Error Text
from_utf8 s = lift_utf8 s (utf8_error s)

pub from_utf8-IsUtf8 : (s : Bytes) → IsUtf8 s → from_utf8 s ≡ ok s
unfolding from_utf8
from_utf8-IsUtf8 s h = ground arith

abbrev pub IsAscii : Bytes → Type 0
IsAscii = All (λ c. c < 128)

-- Two scans that accept the same bytes: they differ in positions only.
abbrev pub SameNeed : Scan → Scan → Type 0
SameNeed s t = (s.lo ≡ t.lo) × (s.hi ≡ t.hi) × (s.need ≡ t.need) × (128 ≤ s.lo)

-- The scan behind an ASCII byte.
abbrev pub advance : Scan → Scan
advance s = record { start = s.start + 1; seen = 0; lo = 0x80; hi = 0xBF; need = 0 }

-- A byte below 128 between two characters leaves the scan between two characters.
pub error_from-ascii :
    (s : Scan) (c : ℕ) (cs : Bytes)
    → s.need ≡ 0
    → c < 128
    → utf8_error_from s (c ∷ cs) ≡ utf8_error_from (advance s) cs
unfolding utf8_error_from
error_from-ascii s c cs n h = ground arith

unfoldable pub step : Scan → ℕ → Result Utf8Error Scan
unfolding lead follow step_need
step s c = step_need s.need s c

abbrev scan_of : Scan → Result Utf8Error Scan → Scan
scan_of s (ok s') = s'
scan_of s (err e) = s

-- A byte that one of two such scans accepts is accepted by the other, with the same outcome.
pub step-SameNeed :
    (a b a' : Scan) (c : ℕ)
    → SameNeed a b
    → step a c ≡ ok a'
    → (b' : Scan) × (step b c ≡ ok b') × SameNeed a' b'
unfolding step
step-SameNeed a b a' c h e = (scan_of b (step b c), ground arith, ground arith)

-- Inside a character no byte below 128 is accepted.
pub step-ascii :
    (a a' : Scan) (c : ℕ)
    → 128 ≤ a.lo
    → step a c ≡ ok a'
    → c < 128
    → (a.need ≡ 0) × (a'.lo ≡ 128) × (a'.hi ≡ 0xBF) × (a'.need ≡ 0)
unfolding step
step-ascii a a' c l e h = ground arith

pub error_from-nil :
    (a b : Scan) → SameNeed a b → utf8_error_from a [] ≡ none → utf8_error_from b [] ≡ none
unfolding utf8_error_from
error_from-nil a b h e = ground arith

pub error_from-cons :
    (a : Scan) (c : ℕ) (cs : Bytes)
    → utf8_error_from a (c ∷ cs) ≡ none
    → (a' : Scan) × (step a c ≡ ok a') × (utf8_error_from a' cs ≡ none)
unfolding utf8_error_from step
error_from-cons a c cs e = (scan_of a (step a c), ground arith, ground arith)

pub error_from_step :
    (a a' : Scan) (c : ℕ) (cs : Bytes)
    → step a c ≡ ok a'
    → utf8_error_from a (c ∷ cs) ≡ utf8_error_from a' cs
unfolding utf8_error_from step
error_from_step a a' c cs e = ground arith

IsAscii-error_from : (s : Bytes) (st : Scan) → st.need ≡ 0 → IsAscii s → utf8_error_from st s ≡ none
IsAscii-error_from [] st n h = unfold utf8_error_from in ground arith
IsAscii-error_from (c ∷ s) st n h =
    error_from-ascii st c s n h.0 ∙ IsAscii-error_from s (advance st) refl h.1

-- A change of texts that scans do not notice keeps them valid.
pub IsUtf8-of_from :
    (s t : Bytes)
    → ((a b : Scan) → SameNeed a b → utf8_error_from a s ≡ none → utf8_error_from b t ≡ none)
    → IsUtf8 s
    → IsUtf8 t
unfolding utf8_error
IsUtf8-of_from s t keep h = keep scan_start scan_start (omega arith) h

pub IsAscii-IsUtf8 : (s : Bytes) → IsAscii s → IsUtf8 s
unfolding utf8_error
IsAscii-IsUtf8 s = IsAscii-error_from s scan_start refl
