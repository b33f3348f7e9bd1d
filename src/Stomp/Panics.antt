-- ===== src/Stomp/Panics.antt =====
-- crates/vdsm-rpc/src/stomp.rs: where `parse_frame` panics.
use vdsm_rs.Base.{
  ℕ, suc, ◌≡◌, ◌≢◌, ◌↔◌, refl, ap, ◌∙◌, Option, none, some, ◌∷◌, ◌++◌, arith, Bytes, Text, length,
  inl, inr, ltb, Bool-cases, ◌==◌, ltb→ge, ==_iff, get_elem?-in_range,
}
use vdsm_rs.Encoding.Decimal.{usize_max, parse_usize}
use vdsm_rs.Stomp.{Frame, panic, find_header}
use vdsm_rs.Stomp.Parser.{content_length, read_body, checked_succ, terminated, parse_frame}
use vdsm_rs.Stomp.RoundTrip.{HasHead, parse-head_then, to_bytes-append}
use vdsm_rs.Stomp.Wire.{to_bytes, frame_then}

read_body_max : (s : Bytes) → read_body (some usize_max) s ≡ panic
unfolding read_body checked_succ
read_body_max s = refl

terminated-ne-panic : (n b : ℕ) (s : Bytes) → terminated n s b ≢ panic
unfolding terminated
terminated-ne-panic n b s h = ground arith

read_body-ne-panic : (n : ℕ) (s : Bytes) → n ≢ usize_max → read_body (some n) s ≢ panic
unfolding read_body checked_succ
read_body-ne-panic n s h e = elim (Bool-cases (n == usize_max)) [
  | inl q ↦ ground arith
  | inr q ↦ elim (Bool-cases (ltb (length s) (suc n))) [
    | inl short ↦ absurd (cc (rw (q, short) at e))
    | inr long ↦
        let (b, at) = get_elem?-in_range n s (ltb→ge (length s) (suc n) long) in
        terminated-ne-panic n b s (rw (q, long, at) at e)
  ]
]

read_body-none-ne-panic : (s : Bytes) → read_body none s ≢ panic
unfolding read_body
read_body-none-ne-panic s e = ground arith

read_body-eq-panic : (len : Option ℕ) (s : Bytes) → read_body len s ≡ panic → len ≡ some usize_max
read_body-eq-panic none s e = absurd (read_body-none-ne-panic s e)
read_body-eq-panic (some n) s e = elim (Bool-cases (n == usize_max)) [
  | inl q ↦ ap some ((==_iff n usize_max).0 q)
  | inr q ↦ absurd (read_body-ne-panic n s (λ w. ground arith) e)
]

-- Reading the body panics exactly when the declared length is the largest word: with every other
-- length, and with none, each index and slice that the code takes stays within the buffer.
pub read_body-panic_iff :
    (len : Option ℕ) (s : Bytes) → (read_body len s ≡ panic) ↔ (len ≡ some usize_max)
read_body-panic_iff len s = (read_body-eq-panic len s, λ e. rw e (read_body_max s))

-- A frame with a well-formed head whose first `content-length` is the largest word makes the parser
-- panic, whatever its body and whatever follows.
pub parse_max_length-panic :
    (f : Frame) (rest : Bytes) (v : Text)
    → HasHead f
    → find_header content_length f.headers ≡ some v
    → parse_usize v ≡ some usize_max
    → parse_frame (to_bytes f ++ rest) ≡ panic
unfolding frame_then
parse_max_length-panic f rest v h e p = rw to_bytes-append (
    parse-head_then f (f.body ++ (0 ∷ rest)) h (some usize_max) (rw e (usize_max, p, refl))
    ∙ rw read_body_max)
