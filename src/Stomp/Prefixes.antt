-- ===== src/Stomp/Prefixes.antt =====
-- crates/vdsm-rpc/src/stomp.rs: a frame that has not arrived whole is waited for, and a frame that has
-- takes bytes off the buffer.
use vdsm_rs.Base.{
  ℕ, zero, suc, ◌<◌, ◌≤◌, ◌≡◌, ◌≢◌, refl, sym, ap, ◌∙◌, Option, none, some, [], ◌∷◌, ◌++◌,
  append-nil, arith, Bytes, length, length-drop, inl, inr, ltb, get_elem?, Bool-cases, ◌==◌,
}
use vdsm_rs.Stomp.{Frame, Parse, done, more, fail, panic, >>=-eq-done, or_more}
use vdsm_rs.Stomp.Lines.{
  skip_heartbeats, next_line, next_line-cases, next_line-shorter, length-skip_heartbeats, memchr,
}
use vdsm_rs.Stomp.Parser.{
  Headers, parse_header, note_length, header_lines, read_body, checked_succ, or_panic, terminated,
  parse_command, parse_rest, parse_frame, parse_frame_lem,
}
use vdsm_rs.Stomp.RoundTrip.{IsSendable, parse-to_bytes}
use vdsm_rs.Stomp.Streaming.{Grows, parse_frame-extend}
use vdsm_rs.Stomp.Wire.{to_bytes}

append-ne-nil : (r s : Bytes) → s ≢ [] → r ++ s ≢ []
append-ne-nil [] s h e = h e
append-ne-nil (c ∷ r) s h e = cc

Grows-prefix :
    (f : Frame) (s : Bytes) (p q : Parse (Frame × Bytes))
    → s ≢ []
    → Grows s p q
    → q ≡ done (f, [])
    → p ≡ more
Grows-prefix f s (done (g, r)) q ne h e = absurd (append-ne-nil r s ne (ground arith))
Grows-prefix f s more q ne h e = refl
Grows-prefix f s (fail x) q ne h e = cc
Grows-prefix f s panic q ne h e = cc

-- While a proper prefix of a sendable frame is all that has arrived, the parser asks for more; it
-- neither fails nor makes up a frame.
pub parse_prefix :
    (f : Frame) (p s : Bytes) → IsSendable f → to_bytes f ≡ p ++ s → s ≢ [] → parse_frame p ≡ more
parse_prefix f p s h e ne =
    Grows-prefix f s (parse_frame p) (parse_frame (p ++ s)) ne (parse_frame-extend p s)
      (ap parse_frame (sym e ∙ sym (append-nil (to_bytes f))) ∙ parse-to_bytes f [] h)

done-injective : {A : Type 0} {a b : A} → done a ≡ done b → a ≡ b
done-injective h = cc

header_lines-le :
    (f : ℕ) (s r : Bytes) (acc hs : Headers) (len l : Option ℕ)
    → header_lines f s acc len ≡ done (hs, l, r)
    → length r ≤ length s
unfolding header_lines
header_lines-le zero s r acc hs len l e = cc
header_lines-le (suc f) s r acc hs len l e = elim (next_line-cases s) [
  | inl m ↦ absurd (cc (rw m at e))
  | inr ([], b, m) ↦
      let same = ap (λ (t : Headers × Option ℕ × Bytes). length t.2) (done-injective (rw m at e)) in
      omega (arith, next_line-shorter s m, same)
  | inr (c ∷ cs, b, m) ↦
      let (kv, parsed, e₂) = >>=-eq-done (parse_header (c ∷ cs)) _ (rw m at e) in
      let (len', noted, e₃) = >>=-eq-done (note_length kv.0 kv.1 len) _ e₂ in
      omega (arith, next_line-shorter s m, header_lines-le f b r (acc ++ kv ∷ []) hs len' l e₃)
]

read_body-le :
    (len : Option ℕ) (s b r : Bytes) → read_body len s ≡ done (b, r) → length r ≤ length s
unfolding read_body terminated
read_body-le none s b r e =
    let (nul, found, e') = >>=-eq-done (or_more (memchr 0 s)) _ e in
    let same = ap (λ (t : Bytes × Bytes). length t.1) (done-injective e') in
    omega (arith, same, length-drop {0} (suc nul) s)
read_body-le (some n) s b r e =
    let (m, fine, e₁) = >>=-eq-done (or_panic (checked_succ n)) _ e in
    elim (Bool-cases (ltb (length s) m)) [
      | inl short ↦ absurd (cc (rw short at e₁))
      | inr long ↦
          let (x, found, e₂) = >>=-eq-done (or_panic (get_elem? s n)) _ (rw long at e₁) in
          elim (Bool-cases (x == 0)) [
            | inl nul ↦
                let same = ap (λ (t : Bytes × Bytes). length t.1) (done-injective (rw nul at e₂)) in
                omega (arith, same, length-drop {0} (suc n) s)
            | inr other ↦ absurd (cc (rw other at e₂))
          ]
    ]

parse_rest-shorter : (s r : Bytes) (f : Frame) → parse_rest s ≡ done (f, r) → length r < length s
unfolding parse_rest
parse_rest-shorter s r f e =
    let ((l, b), line, e₁) = >>=-eq-done (next_line s) _ e in
    let (command, ok_command, e₂) = >>=-eq-done (parse_command l) _ e₁ in
    let ((hs, len, c), heads, e₃) = >>=-eq-done (header_lines (suc (length b)) b [] none) _ e₂ in
    let ((body, d), ok_body, e₄) = >>=-eq-done (read_body len c) _ e₃ in
    let same = ap (λ (t : Frame × Bytes). length t.1) (done-injective e₄) in
    omega (
      arith,
      same,
      next_line-shorter s line,
      header_lines-le _ b c [] hs none len heads,
      read_body-le len c body d ok_body,
    )

-- A frame takes at least one byte off the buffer.
pub parse_frame-shorter :
    (s r : Bytes) (f : Frame) → parse_frame s ≡ done (f, r) → length r < length s
parse_frame-shorter s r f e = omega (
  arith,
  length-skip_heartbeats s,
  parse_rest-shorter (skip_heartbeats s) r f (sym (parse_frame_lem s) ∙ e),
)
