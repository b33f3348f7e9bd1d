-- ===== src/Schema/Stripping.antt =====
-- crates/vdsm-schema/build.rs: which texts without anchors and aliases come through the pass unchanged.
use vdsm_rs.Base.{
  ◌-◌, ◌*◌, ◌/◌, ◌%◌, List, lt→ltb, if◌then◌else◌, ℕ, ◌+◌, ◌≡◌, ◌≢◌, ◌↔◌, ◌≤◌, ◌<◌, refl, ◌∙◌, ap,
  sym, false, [], ◌∷◌, arith, ltb, ltb→lt, ltb→ge, ge→ltb, All, Text, length, drop, inl, inr,
  Bool-cases,
}
use vdsm_rs.Schema.Strip.{
  strip_anchors_and_aliases, strip_from, next_place, written, opens_name, push_char, between,
}

-- The bytes that begin no anchor and no alias.
abbrev pub AreUnmarked : Text → Type 0
AreUnmarked = All (λ c. (c ≢ b'&') × (c ≢ b'*'))

abbrev pub AreAscii : Text → Type 0
AreAscii = All (λ c. c < 128)

strip_unmarked : (c : ℕ) (s : Text) → c ≢ b'&' → c ≢ b'*' → opens_name c s ≡ false
unfolding opens_name
strip_unmarked c [] h k = refl
strip_unmarked c (n ∷ s) h k = ground arith

strip-push_char :
    (c : ℕ) (s : Text)
    → AreUnmarked (c ∷ s)
    → strip_from between (c ∷ s) ≡ push_char c (strip_from between s)
unfolding strip_from written next_place
strip-push_char c s h = rw (strip_unmarked c s h.0.0 h.0.1) refl

push_char-ascii : (c : ℕ) (s : Text) → c < 128 → push_char c s ≡ c ∷ s
unfolding push_char
push_char-ascii c s h = ground arith

push_char-other : (c : ℕ) (s : Text) → 128 ≤ c → length (push_char c s) ≡ length s + 2
unfolding push_char
push_char-other c s h = rw (ge→ltb c 128 h) (omega arith)

strip-AreAscii : (s : Text) → AreUnmarked s → AreAscii s → strip_from between s ≡ s
strip-AreAscii [] h a = unfold strip_from in refl
strip-AreAscii (c ∷ s) h a =
    strip-push_char c s h
    ∙ (push_char-ascii c (strip_from between s) a.0 ∙ ap (λ r. c ∷ r) (strip-AreAscii s h.1 a.1))

-- The pass makes no such text shorter.
length_strip : (s : Text) → AreUnmarked s → length s ≤ length (strip_from between s)
length_strip [] h = omega arith
length_strip (c ∷ s) h = elim (Bool-cases (ltb c 128)) [
  | inl q ↦ omega (
    arith,
    length_strip s h.1,
    ap length (strip-push_char c s h ∙ push_char-ascii c (strip_from between s) (ltb→lt c 128 q)),
  )
  | inr q ↦ omega (
    arith,
    length_strip s h.1,
    ap length (strip-push_char c s h),
    push_char-other c (strip_from between s) (ltb→ge c 128 q),
  )
]

kept-AreAscii : (s : Text) → AreUnmarked s → strip_from between s ≡ s → AreAscii s
kept-AreAscii [] h e = tt
kept-AreAscii (c ∷ s) h e = elim (Bool-cases (ltb c 128)) [
  | inl q ↦ (
    ltb→lt c 128 q,
    kept-AreAscii s h.1 (
        ap (drop 1) (
          sym (strip-push_char c s h ∙ push_char-ascii c (strip_from between s) (ltb→lt c 128 q))
          ∙ e)),
  )
  | inr q ↦ absurd (
      omega (
        arith,
        length_strip s h.1,
        ap length (sym (strip-push_char c s h) ∙ e),
        push_char-other c (strip_from between s) (ltb→ge c 128 q),
      ))
]

-- A reader of characters of one byte and of two, to their code points.
unfoldable pub code_points : Text → List ℕ
code_points [] = []
code_points (a ∷ []) = a ∷ []
code_points (a ∷ b ∷ s) =
    let one = code_points (b ∷ s) in
    let two = code_points s in if ltb a 128 then a ∷ one else ((a - 192) * 64 + (b - 128)) ∷ two

code_points-ascii : (c : ℕ) (s : Text) → c < 128 → code_points (c ∷ s) ≡ c ∷ code_points s
unfolding code_points
code_points-ascii c [] h = refl
code_points-ascii c (b ∷ s) h = rw (lt→ltb c 128 h) refl

code_points-two :
    (c : ℕ) (s : Text) → code_points ((192 + c / 64) ∷ (128 + c % 64) ∷ s) ≡ c ∷ code_points s
unfolding code_points
code_points-two c s =
    rw (ge→ltb (192 + c / 64) 128 (omega arith)) (ap (λ n. n ∷ code_points s) (omega arith))

code_points-push_char : (c : ℕ) (s : Text) → code_points (push_char c s) ≡ c ∷ code_points s
unfolding push_char
code_points-push_char c s = elim (Bool-cases (ltb c 128)) [
  | inl q ↦ rw q (code_points-ascii c s (ltb→lt c 128 q))
  | inr q ↦ rw q (code_points-two c s)
]

code_points-strip : (s : Text) → AreUnmarked s → code_points (strip_from between s) ≡ s
code_points-strip [] h = unfold strip_from code_points in refl
code_points-strip (c ∷ s) h =
    ap code_points (strip-push_char c s h)
    ∙ (code_points-push_char c (strip_from between s) ∙ ap (λ r. c ∷ r) (code_points-strip s h.1))

-- A text without `&` and `*` comes out of the pass with each of its bytes as a character of its own,
-- of one byte or two: read as such characters, the output has the bytes of the text as its code points.
-- So it comes through unchanged exactly when it is ASCII.
pub strip-AreAscii_iff :
    (s : Text)
    → AreUnmarked s
    → (code_points (strip_anchors_and_aliases s) ≡ s)
      × ((strip_anchors_and_aliases s ≡ s) ↔ AreAscii s)
unfolding strip_anchors_and_aliases
strip-AreAscii_iff s h = (code_points-strip s h, (kept-AreAscii s h, strip-AreAscii s h))
