-- ===== src/Stomp/Streaming.antt =====
-- crates/vdsm-rpc/src/stomp.rs: what `parse_frame` says of a buffer, it says of a longer one.
use vdsm_rs.Base.{
  ℕ, zero, suc, ◌≤◌, ◌<◌, ◌≡◌, refl, Option, none, some, [], ◌∷◌, ◌++◌, arith, ltb, ◌==◌, Bytes,
  length, length-append, Bool-cases, inl, inr, take-append, drop-append, get_elem?-append,
  get_elem?-in_range, ge→ltb, ltb→ge, Option-cases,
}
use vdsm_rs.Stomp.{Parse, done, more, fail, panic, ◌>>=◌}
use vdsm_rs.Stomp.Lines.{
  skip_heartbeats, memchr, next_line, next_line-cases, next_line-extend, next_line-shorter,
  memchr-extend, skip_heartbeats-append,
}
use vdsm_rs.Stomp.Parser.{
  Headers, parse_header, note_length, header_lines, checked_succ, terminated, read_body,
  parse_command, parse_rest, parse_frame, parse_frame_lem,
}

-- The outcome on a buffer with `t` behind it, from the outcome without: a frame, an error and a panic
-- stay, and `t` is left behind the frame. Only `Ok(None)` may change.
abbrev pub Grows {ℓ} : {A : Type ℓ} → Bytes → Parse (A × Bytes) → Parse (A × Bytes) → Type ℓ
Grows t (done (a, r)) q = q ≡ done (a, r ++ t)
Grows t more q = Unit
Grows t (fail e) q = q ≡ fail e
Grows t panic q = q ≡ panic

-- The same for the header loop, which hands on the headers and the length too.
abbrev HeadersGrow :
    Bytes → Parse (Headers × Option ℕ × Bytes) → Parse (Headers × Option ℕ × Bytes) → Type 0
HeadersGrow t (done (hs, len, r)) q = q ≡ done (hs, len, r ++ t)
HeadersGrow t more q = Unit
HeadersGrow t (fail e) q = q ≡ fail e
HeadersGrow t panic q = q ≡ panic

module _ {A : Type 0} (t : Bytes) where
  HeadersGrow-bind :
      (p : Parse A) (k k' : A → Parse (Headers × Option ℕ × Bytes))
      → ((a : A) → HeadersGrow t (k a) (k' a))
      → HeadersGrow t (p >>= k) (p >>= k')
  HeadersGrow-bind (done a) k k' h = h a
  HeadersGrow-bind more k k' h = tt
  HeadersGrow-bind (fail e) k k' h = refl
  HeadersGrow-bind panic k k' h = refl

  Grows-bind :
      {B : Type 0} (p : Parse A) (k k' : A → Parse (B × Bytes))
      → ((a : A) → Grows t (k a) (k' a))
      → Grows t (p >>= k) (p >>= k')
  Grows-bind (done a) k k' h = h a
  Grows-bind more k k' h = tt
  Grows-bind (fail e) k k' h = refl
  Grows-bind panic k k' h = refl

-- The header loop, with any fuel that is enough on either side.
header_lines-extend :
    (f g : ℕ) (s t : Bytes) (acc : Headers) (len : Option ℕ)
    → length s < f
    → length s < g
    → HeadersGrow t (header_lines f s acc len) (header_lines g (s ++ t) acc len)
unfolding header_lines
header_lines-extend zero g s t acc len h k = absurd (omega arith)
header_lines-extend (suc f) zero s t acc len h k = absurd (omega arith)
header_lines-extend (suc f) (suc g) s t acc len h k = elim (next_line-cases s) [
  | inl e ↦ rw e tt
  | inr ([], r, e) ↦ rw (e, next_line-extend s t e) refl
  | inr (c ∷ cs, r, e) ↦
      rw (e, next_line-extend s t e)
        (HeadersGrow-bind t (parse_header (c ∷ cs)) _ _ λ kv.
          HeadersGrow-bind t (note_length kv.0 kv.1 len) _ _ λ len'.
            header_lines-extend f g r t (acc ++ kv ∷ []) len' (omega (arith, next_line-shorter s e))
              (omega (arith, next_line-shorter s e)))
]

terminated-extend :
    (n b : ℕ) (s t : Bytes) → n < length s → Grows t (terminated n s b) (terminated n (s ++ t) b)
unfolding terminated
terminated-extend n b s t h =
    rw (take-append n s t (omega arith), drop-append (suc n) s t h)
      (elim (Bool-cases (b == 0)) [ inl e ↦ rw e refl | inr e ↦ rw e refl ])

checked_succ-some : (n m : ℕ) → checked_succ n ≡ some m → m ≡ suc n
unfolding checked_succ
checked_succ-some n m h = ground arith

read_body-extend :
    (len : Option ℕ) (s t : Bytes) → Grows t (read_body len s) (read_body len (s ++ t))
unfolding read_body
read_body-extend none s t = elim (Option-cases (memchr 0 s)) [
  | inl missing ↦ rw missing tt
  | inr (e, found) ↦
      let (again, lt) = memchr-extend 0 s t e found in
      rw (found, again, take-append e s t (omega arith), drop-append (suc e) s t lt)
]
read_body-extend (some n) s t = elim (Option-cases (checked_succ n)) [
  | inl over ↦ rw over refl
  | inr (m, fine) ↦ rw fine (elim (Bool-cases (ltb (length s) m)) [
    | inl short ↦ rw short tt
    | inr long ↦
        let room : n < length s =
          omega (arith, checked_succ-some n m fine, ltb→ge (length s) m long) in
        let (b, at) = get_elem?-in_range n s room in
        let room' : m ≤ length (s ++ t) =
          omega (arith, ltb→ge (length s) m long, length-append {0} s t) in
        rw (long, ge→ltb _ m room', get_elem?-append n s t room, at)
          (terminated-extend n b s t room)
  ])
]

module _ {A : Type 0} (t : Bytes) where
  HeadersGrow-then :
      (p q : Parse (Headers × Option ℕ × Bytes))
      (k : Headers × Option ℕ × Bytes → Parse (A × Bytes))
      → HeadersGrow t p q
      → ((hs : Headers) (len : Option ℕ) (r : Bytes)
          → Grows t (k (hs, len, r)) (k (hs, len, r ++ t)))
      → Grows t (p >>= k) (q >>= k)
  HeadersGrow-then (done (hs, len, r)) q k e h = rw e (h hs len r)
  HeadersGrow-then more q k e h = tt
  HeadersGrow-then (fail x) q k e h = rw e
  HeadersGrow-then panic q k e h = rw e

  Grows-then :
      {B : Type 0} (p q : Parse (B × Bytes)) (k : B × Bytes → Parse (A × Bytes))
      → Grows t p q
      → ((b : B) (r : Bytes) → Grows t (k (b, r)) (k (b, r ++ t)))
      → Grows t (p >>= k) (q >>= k)
  Grows-then (done (b, r)) q k e h = rw e (h b r)
  Grows-then more q k e h = tt
  Grows-then (fail x) q k e h = rw e
  Grows-then panic q k e h = rw e

parse_rest-extend : (s t : Bytes) → Grows t (parse_rest s) (parse_rest (s ++ t))
unfolding parse_rest
parse_rest-extend s t = elim (next_line-cases s) [
  | inl e ↦ rw e tt
  | inr (l, r, e) ↦
      rw (e, next_line-extend s t e)
        (Grows-bind t (parse_command l) _ _ λ command.
          HeadersGrow-then t (header_lines (suc (length r)) r [] none) _ _
            (header_lines-extend (suc (length r)) (suc (length (r ++ t))) r t [] none (omega arith)
              (omega (arith, length-append {0} r t)))
            λ hs len b.
              Grows-then t (read_body len b) (read_body len (b ++ t)) _ (read_body-extend len b t)
                λ body rest. refl)
]

parse_rest_more : (s : Bytes) → next_line s ≡ more → parse_rest s ≡ more
unfolding parse_rest
parse_rest_more s e = rw e

-- More bytes behind a buffer change nothing of a frame, an error or a panic that the parser found
-- in it: the frame is the same, and the new bytes stand behind what remains.
pub parse_frame-extend : (s t : Bytes) → Grows t (parse_frame s) (parse_frame (s ++ t))
parse_frame-extend s t = elim (next_line-cases (skip_heartbeats s)) [
  | inl e ↦ rw (parse_frame_lem, parse_rest_more _ e) tt
  | inr (l, r, e) ↦
      rw (parse_frame_lem s, parse_frame_lem (s ++ t), skip_heartbeats-append s t e)
        (parse_rest-extend (skip_heartbeats s) t)
]
