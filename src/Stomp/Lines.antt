-- ===== src/Stomp/Lines.antt =====
-- crates/vdsm-rpc/src/stomp.rs: `skip_heartbeats`, `strip_cr`, `memchr`, and the step that both parts
-- of the parser make to take one line off the cursor.
use vdsm_rs.Base.{
  ℕ, suc, ◌≤◌, ◌<◌, ◌≡◌, ◌≢◌, ◌⊎◌, refl, true, false, ◌&&◌, Option, some, [], ◌∷◌, ◌++◌, arith,
  ◌==◌, if◌then◌else◌, Bytes, Lacks, position, length, take, drop, Bool-cases, inl, inr,
  take-append, drop-append, take-length, drop-suc-length, length-drop, Option-cases,
}
use vdsm_rs.Stomp.{Parse, done, more, ◌>>=◌, or_more}

abbrev pub newline : ℕ
newline = b'\n'

abbrev pub carriage : ℕ
carriage = b'\r'

unfoldable pub skip_heartbeats : Bytes → Bytes
skip_heartbeats [] = []
skip_heartbeats (c ∷ []) = if c == newline then [] else c ∷ []
skip_heartbeats (c ∷ d ∷ s) = elim (c == newline) [
  | true ↦ skip_heartbeats (d ∷ s)
  | false ↦ elim (c == carriage && d == newline) [ true ↦ skip_heartbeats s | false ↦ c ∷ d ∷ s ]
]

unfoldable pub strip_cr : Bytes → Bytes
strip_cr [] = []
strip_cr (c ∷ []) = if c == carriage then [] else c ∷ []
strip_cr (c ∷ d ∷ s) = c ∷ strip_cr (d ∷ s)

unfoldable pub memchr : ℕ → Bytes → Option ℕ
unfolding position
memchr needle haystack = position needle haystack

-- `let Some(line_end) = memchr(b'\n', cursor) else { return Ok(None) }`, and the two slices.
unfoldable pub next_line : Bytes → Parse (Bytes × Bytes)
next_line cursor = do
  line_end ← or_more (memchr newline cursor)
  done (strip_cr (take line_end cursor), drop (suc line_end) cursor)

pub memchr-append :
    (b : ℕ) (p rest : Bytes) → Lacks b p → memchr b (p ++ b ∷ rest) ≡ some (length p)
unfolding memchr
memchr-append b [] rest h = ground arith
memchr-append b (c ∷ p) rest h = ground (arith, memchr-append b p rest h.1)

-- A byte that is found is found at the same place when more follows.
pub memchr-extend :
    (b : ℕ) (s t : Bytes) (e : ℕ)
    → memchr b s ≡ some e
    → (memchr b (s ++ t) ≡ some e) × (e < length s)
unfolding memchr
memchr-extend b [] t e h = cc
memchr-extend b (c ∷ s) t e h = elim (Bool-cases (c == b)) [
  | inl q ↦ (ground arith, ground arith)
  | inr q ↦ elim (Option-cases (position b s)) [
    | inl missing ↦ ground arith
    | inr (d, found) ↦ let (p, lt) = memchr-extend b s t d found in (ground arith, ground arith)
  ]
]

-- A line with no newline in it is taken off whole.
pub next_line-append :
    (p rest : Bytes)
    → Lacks newline p
    → strip_cr p ≡ p
    → next_line (p ++ newline ∷ rest) ≡ done (p, rest)
unfolding next_line
next_line-append p rest h e = rw (memchr-append newline p rest h, take-length, drop-suc-length, e)

-- What follows a complete line does not change it.
pub next_line-extend :
    (s t : Bytes) {l r : Bytes} → next_line s ≡ done (l, r) → next_line (s ++ t) ≡ done (l, r ++ t)
unfolding next_line
next_line-extend s t {l} {r} h = elim (Option-cases (memchr newline s)) [
  | inl missing ↦ ground arith
  | inr (e, found) ↦
      let (again, lt) = memchr-extend newline s t e found in
      ground (arith, take-append e s t, drop-append (suc e) s t)
]

-- The cursor moves.
pub next_line-shorter : (s : Bytes) {l r : Bytes} → next_line s ≡ done (l, r) → length r < length s
unfolding next_line
next_line-shorter s {l} {r} h = elim (Option-cases (memchr newline s)) [
  | inl missing ↦ ground arith
  | inr (e, found) ↦
      let (again, lt) = memchr-extend newline s [] e found in ground (arith, length-drop (suc e) s)
]

-- There is a whole line, or more bytes are wanted.
pub next_line-cases :
    (s : Bytes) → (next_line s ≡ more) ⊎ ((l : Bytes) × (r : Bytes) × (next_line s ≡ done (l, r)))
unfolding next_line
next_line-cases s = elim (Option-cases (memchr newline s)) [
  | inl missing ↦ inl (rw missing)
  | inr (e, found) ↦ inr (strip_cr (take e s), drop (suc e) s, rw found)
]

-- Only heartbeats are skipped, so a buffer does not grow.
pub length-skip_heartbeats : (s : Bytes) → length (skip_heartbeats s) ≤ length s
unfolding skip_heartbeats
length-skip_heartbeats [] = omega arith
length-skip_heartbeats (c ∷ []) = ground arith
length-skip_heartbeats (c ∷ d ∷ s) =
    ground (arith, length-skip_heartbeats (d ∷ s), length-skip_heartbeats s)

next_line-nil : {l r : Bytes} → next_line [] ≢ done (l, r)
unfolding next_line memchr
next_line-nil h = cc

next_line-single : (c : ℕ) {l r : Bytes} → (c == newline) ≡ false → next_line (c ∷ []) ≢ done (l, r)
unfolding next_line memchr
next_line-single c q h = ground arith

-- Skipping ends at the same place when more follows, if a complete line stands there.
pub skip_heartbeats-append :
    (s t : Bytes) {l r : Bytes}
    → next_line (skip_heartbeats s) ≡ done (l, r)
    → skip_heartbeats (s ++ t) ≡ skip_heartbeats s ++ t
unfolding skip_heartbeats
skip_heartbeats-append [] t h = absurd (next_line-nil h)
skip_heartbeats-append (c ∷ []) t {l} {r} h = elim (Bool-cases (c == newline)) [
  | inl q ↦ absurd (next_line-nil (rw q at h))
  | inr q ↦ absurd (next_line-single c q (rw q at h))
]
skip_heartbeats-append (c ∷ d ∷ s) t {l} {r} h = elim (Bool-cases (c == newline)) [
  | inl q ↦
      rw (q, skip_heartbeats) (skip_heartbeats-append (d ∷ s) t (rw (q, skip_heartbeats) at h))
  | inr q ↦ elim (Bool-cases (c == carriage && d == newline)) [
    | inl p ↦
        rw (q, p, skip_heartbeats) (skip_heartbeats-append s t (rw (q, p, skip_heartbeats) at h))
    | inr p ↦ rw (q, p, skip_heartbeats)
  ]
]

-- Text that begins with neither a newline nor a carriage return and a newline is not skipped.
pub skip_heartbeats-stop :
    (p rest : Bytes)
    → Lacks newline p
    → strip_cr p ≡ p
    → p ≢ []
    → skip_heartbeats (p ++ newline ∷ rest) ≡ p ++ newline ∷ rest
unfolding skip_heartbeats strip_cr
skip_heartbeats-stop [] rest h e ne = absurd (ne refl)
skip_heartbeats-stop (c ∷ []) rest h e ne = ground arith
skip_heartbeats-stop (c ∷ d ∷ p) rest h e ne = ground arith
