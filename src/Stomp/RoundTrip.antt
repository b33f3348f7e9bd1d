-- ===== src/Stomp/RoundTrip.antt =====
-- crates/vdsm-rpc/src/stomp.rs: what `to_bytes` writes, `parse_frame` reads back.
use vdsm_rs.Base.{
  ℕ, zero, suc, ◌≤◌, ◌<◌, ◌≡◌, ◌≢◌, refl, ap, ◌∙◌, true, false, Option, none, some, [], ◌∷◌, ◌++◌,
  append_assoc, append-nil, arith, ltb, Bytes, Text, Lacks, All, All-append, length, take-length,
  drop-suc-length, get_elem?-length, length-append, Bool-cases, inl, inr, text_eq, position, ge→ltb,
}
use vdsm_rs.Encoding.Split.{LastIsNot}
use vdsm_rs.Encoding.Utf8.{IsUtf8, from_utf8-IsUtf8}
use vdsm_rs.Encoding.Decimal.{usize_max, parse_usize}
use vdsm_rs.Stomp.{Frame, done, ◌>>=◌, find_header}
use vdsm_rs.Stomp.Escape.{escape_header, unescape-escape, IsInert, escape-IsInert, escape-IsUtf8}
use vdsm_rs.Stomp.Lines.{
  newline, carriage, skip_heartbeats, strip_cr, memchr, next_line, next_line-append, memchr-append,
  skip_heartbeats-stop,
}
use vdsm_rs.Stomp.Parser.{
  Headers, colon, content_length, parse_header, note_length, header_lines, checked_succ, terminated,
  read_body, parse_command, parse_rest, parse_frame, parse_frame_lem,
}
use vdsm_rs.Stomp.Wire.{header_line, header_bytes, frame_then, to_bytes}

abbrev pub IsUtf8Header : Text × Text → Type 0
IsUtf8Header (k, v) = IsUtf8 k × IsUtf8 v

-- The first `content-length` header, if there is one, gives the length of the body; else the body
-- holds no NUL.
abbrev pub BodyFits : Option Text → Bytes → Type 0
BodyFits none body = Lacks 0 body
BodyFits (some v) body = (parse_usize v ≡ some (length body)) × (length body < usize_max)

-- A command that is one line of text, and headers that are texts.
pub record HasHead (f : Frame) : Type 0 where
  pub command_utf8 : IsUtf8 f.command
  pub command_ne_nil : f.command ≢ []
  pub one_line : Lacks newline f.command
  pub no_cr : LastIsNot carriage f.command
  pub headers_utf8 : All IsUtf8Header f.headers

-- What a caller has to see to, for the frame to be read back.
pub record IsSendable (f : Frame) : Type 0 where
  pub head : HasHead f
  pub body_fits : BodyFits (find_header content_length f.headers) f.body

strip_cr_keeps : (s : Bytes) → LastIsNot carriage s → strip_cr s ≡ s
unfolding strip_cr
strip_cr_keeps [] h = refl
strip_cr_keeps (c ∷ []) h = ground arith
strip_cr_keeps (c ∷ d ∷ s) h = ap (λ r. c ∷ r) (strip_cr_keeps (d ∷ s) h)

Lacks-IsInert : (s : Text) → All IsInert s → Lacks newline s × Lacks colon s × LastIsNot carriage s
Lacks-IsInert [] h = (tt, tt, tt)
Lacks-IsInert (c ∷ []) h = (ground arith, ground arith, ground arith)
Lacks-IsInert (c ∷ d ∷ s) h =
    let (l, m, e) = Lacks-IsInert (d ∷ s) h.1 in ((h.0.1, l), (h.0.2, m), e)

LastIsNot-append :
    (b : ℕ) (s : Bytes) (c : ℕ) (t : Bytes) → LastIsNot b (c ∷ t) → LastIsNot b (s ++ (c ∷ t))
LastIsNot-append b [] c t h = h
LastIsNot-append b (x ∷ []) c t h = h
LastIsNot-append b (x ∷ y ∷ s) c t h = LastIsNot-append b (y ∷ s) c t h

LastIsNot-cons : (b c : ℕ) (t : Bytes) → c ≢ b → LastIsNot b t → LastIsNot b (c ∷ t)
LastIsNot-cons b c [] h e = h
LastIsNot-cons b c (d ∷ t) h e = e

module _ (k v : Text) where
  -- A header line is one line, whatever the name and the value hold.
  header_line-Lacks : Lacks newline (header_line k v)
  unfolding header_line
  header_line-Lacks =
      All-append _ (escape_header k) _ (Lacks-IsInert _ (escape-IsInert k)).0
        (omega arith, (Lacks-IsInert _ (escape-IsInert v)).0)

  header_line-strip_cr : strip_cr (header_line k v) ≡ header_line k v
  unfolding header_line
  header_line-strip_cr = strip_cr_keeps _ (
      LastIsNot-append carriage (escape_header k) colon (escape_header v) (
        LastIsNot-cons carriage colon (escape_header v) (omega arith)
          (Lacks-IsInert _ (escape-IsInert v)).2))

  position-header_line : position colon (header_line k v) ≡ some (length (escape_header k))
  unfolding header_line memchr
  position-header_line =
      memchr-append colon (escape_header k) (escape_header v) (Lacks-IsInert _ (escape-IsInert k)).1

  -- The name and the value of a header line are read back.
  parse-header_line : IsUtf8 k → IsUtf8 v → parse_header (header_line k v) ≡ done (k, v)
  unfolding parse_header
  parse-header_line hk hv = rw position-header_line (
      unfold header_line in
      rw (
        take-length,
        drop-suc-length,
        from_utf8-IsUtf8 _ (escape-IsUtf8 k hk),
        from_utf8-IsUtf8 _ (escape-IsUtf8 v hv),
        unescape-escape k,
        unescape-escape v,
      ))

append-cons : (s : Bytes) (c : ℕ) (t : Bytes) → (x : ℕ) × (xs : Bytes) × (s ++ (c ∷ t) ≡ x ∷ xs)
append-cons [] c t = (c, t, refl)
append-cons (x ∷ s) c t = (x, s ++ (c ∷ t), refl)

-- One round of the header loop.
header_lines_round :
    (f : ℕ) (cursor rest : Bytes) (acc : Headers) (len len' : Option ℕ) (x : ℕ) (xs : Bytes)
    (k v : Text)
    → next_line cursor ≡ done (x ∷ xs, rest)
    → parse_header (x ∷ xs) ≡ done (k, v)
    → note_length k v len ≡ done len'
    → header_lines (suc f) cursor acc len ≡ header_lines f rest (acc ++ (k, v) ∷ []) len'
unfolding header_lines
header_lines_round f cursor rest acc len len' x xs k v line parsed noted = rw (line, parsed, noted)

header_line-cons : (k v : Text) → (x : ℕ) × (xs : Bytes) × (header_line k v ≡ x ∷ xs)
unfolding header_line
header_line-cons k v = append-cons (escape_header k) colon (escape_header v)

-- One header is read back, whatever follows it.
header_lines-header_line :
    (f : ℕ) (k v : Text) (tail : Bytes) (acc : Headers) (len len' : Option ℕ)
    → IsUtf8 k
    → IsUtf8 v
    → note_length k v len ≡ done len'
    → header_lines (suc f) (header_line k v ++ (newline ∷ tail)) acc len
      ≡ header_lines f tail (acc ++ (k, v) ∷ []) len'
header_lines-header_line f k v tail acc len len' hk hv noted =
    let (x, xs, split) = header_line-cons k v in
    header_lines_round f _ tail acc len len' x xs k v
      (next_line-append _ tail (header_line-Lacks k v) (header_line-strip_cr k v) ∙ rw split)
      (rw (← split) (parse-header_line k v hk hv)) noted

header_lines-blank :
    (f : ℕ) (tail : Bytes) (acc : Headers) (len : Option ℕ)
    → header_lines (suc f) (newline ∷ tail) acc len ≡ done (acc, len, tail)
unfolding header_lines
header_lines-blank f tail acc len = rw (next_line-append [] tail tt (unfold strip_cr in refl))

-- What the loop makes of the first `content-length` header.
abbrev pub Declares : Option Text → Option ℕ → Type 0
Declares none len = len ≡ none
Declares (some v) len = (n : ℕ) × (parse_usize v ≡ some n) × (len ≡ some n)

header_bytes-cons :
    (k v : Text) (hs : Headers) (tail : Bytes)
    → header_bytes ((k, v) ∷ hs) tail ≡ header_line k v ++ (newline ∷ header_bytes hs tail)
unfolding header_bytes
header_bytes-cons k v hs tail = refl

header_bytes-nil : (tail : Bytes) → header_bytes [] tail ≡ tail
unfolding header_bytes
header_bytes-nil tail = refl

note_length_again : (k v : Text) (n : ℕ) → note_length k v (some n) ≡ done (some n)
unfolding note_length
note_length_again k v n = refl

note_length_first :
    (k v : Text) (n : ℕ)
    → text_eq k content_length ≡ true
    → parse_usize v ≡ some n
    → note_length k v none ≡ done (some n)
unfolding note_length
note_length_first k v n e p = rw (e, p)

note_length_other :
    (k v : Text) → text_eq k content_length ≡ false → note_length k v none ≡ done none
unfolding note_length
note_length_other k v e = rw e

-- The length that is noted stays.
header_lines_noted :
    (f n : ℕ) (hs acc : Headers) (tail : Bytes)
    → All IsUtf8Header hs
    → length hs < f
    → header_lines f (header_bytes hs (newline ∷ tail)) acc (some n)
      ≡ done (acc ++ hs, some n, tail)
header_lines_noted zero n hs acc tail h lt = absurd (omega arith)
header_lines_noted (suc f) n [] acc tail h lt =
    rw (append-nil, header_bytes-nil) (header_lines-blank f tail acc (some n))
header_lines_noted (suc f) n ((k, v) ∷ hs) acc tail h lt = rw header_bytes-cons (
    header_lines-header_line f k v _ acc (some n) (some n) h.0.0 h.0.1 (note_length_again k v n)
    ∙ header_lines_noted f n hs (acc ++ (k, v) ∷ []) tail h.1 (omega arith)
    ∙ rw append_assoc)

-- The loop reads all headers back, and notes the first `content-length`.
header_lines-header_bytes :
    (f : ℕ) (hs acc : Headers) (tail : Bytes) (len : Option ℕ)
    → All IsUtf8Header hs
    → Declares (find_header content_length hs) len
    → length hs < f
    → header_lines f (header_bytes hs (newline ∷ tail)) acc none ≡ done (acc ++ hs, len, tail)
unfolding find_header
header_lines-header_bytes zero hs acc tail len h d lt = absurd (omega arith)
header_lines-header_bytes (suc f) [] acc tail len h d lt =
    rw (append-nil, header_bytes-nil, d) (header_lines-blank f tail acc none)
header_lines-header_bytes (suc f) ((k, v) ∷ hs) acc tail len h d lt =
    elim (Bool-cases (text_eq k content_length)) [
      | inl e ↦
          let (n, p, q) : Declares (some v) len = rw e at d in
          rw (header_bytes-cons, q)
            (header_lines-header_line f k v _ acc none (some n) h.0.0 h.0.1
                (note_length_first k v n e p)
              ∙ header_lines_noted f n hs (acc ++ (k, v) ∷ []) tail h.1 (omega arith)
              ∙ rw append_assoc)
      | inr e ↦ rw header_bytes-cons (
          header_lines-header_line f k v _ acc none none h.0.0 h.0.1 (note_length_other k v e)
          ∙ header_lines-header_bytes f hs (acc ++ (k, v) ∷ []) tail len h.1 (rw e at d)
              (omega arith)
          ∙ rw append_assoc)
    ]

length-header_bytes : (hs : Headers) (tail : Bytes) → length hs ≤ length (header_bytes hs tail)
unfolding header_bytes
length-header_bytes [] tail = omega arith
length-header_bytes ((k, v) ∷ hs) tail = omega (
  arith,
  length-append {0} (header_line k v) (newline ∷ header_bytes hs tail),
  length-header_bytes hs tail,
)

-- The length that a frame with a fitting body declares.
declared : Option Text → Bytes → Option ℕ
declared none body = none
declared (some v) body = some (length body)

declared-Declares :
    (o : Option Text) (body : Bytes) → BodyFits o body → Declares o (declared o body)
unfolding declared
declared-Declares none body h = refl
declared-Declares (some v) body h = (length body, h.0, refl)

checked_succ_below : (n : ℕ) → n < usize_max → checked_succ n ≡ some (suc n)
unfolding checked_succ
checked_succ_below n h = ground arith

-- The body is read back, by its length or up to its end.
read-body :
    (o : Option Text) (body rest : Bytes)
    → BodyFits o body
    → read_body (declared o body) (body ++ (0 ∷ rest)) ≡ done (body, rest)
unfolding read_body declared terminated
read-body none body rest h = rw (memchr-append 0 body rest h, take-length, drop-suc-length)
read-body (some v) body rest h =
    let fits : ltb (length (body ++ (0 ∷ rest))) (suc (length body)) ≡ false =
      ge→ltb _ _ (omega (arith, length-append {0} body (0 ∷ rest))) in
    rw (
      checked_succ_below (length body) h.1,
      fits,
      get_elem?-length,
      take-length body (0 ∷ rest),
      drop-suc-length,
    )

parse-command : (s : Text) → s ≢ [] → IsUtf8 s → parse_command s ≡ done s
unfolding parse_command
parse-command [] ne h = absurd (ne refl)
parse-command (c ∷ s) ne h = rw (from_utf8-IsUtf8 (c ∷ s) h)

module _ (f : Frame) (tail : Bytes) (h : HasHead f) where
  -- The command line and the headers, with the bytes of the body and more behind them.
  head_then : Bytes
  head_then = f.command ++ (newline ∷ header_bytes f.headers (newline ∷ tail))

  parse_rest-head_then :
      (len : Option ℕ)
      → Declares (find_header content_length f.headers) len
      → parse_rest head_then ≡ (
          read_body len tail >>= λ br.
          done (record { command = f.command; headers = f.headers; body = br.0 }, br.1))
  unfolding parse_rest head_then
  parse_rest-head_then len d =
      let behind : Bytes = header_bytes f.headers (newline ∷ tail) in
      rw (
        next_line-append f.command behind h.one_line (strip_cr_keeps f.command h.no_cr),
        parse-command f.command h.command_ne_nil h.command_utf8,
        header_lines-header_bytes (suc (length behind)) f.headers [] tail len h.headers_utf8 d
            (omega (arith, length-header_bytes f.headers (newline ∷ tail))),
      )

  skip_heartbeats-head_then : skip_heartbeats head_then ≡ head_then
  unfolding head_then
  skip_heartbeats-head_then =
      skip_heartbeats-stop f.command _ h.one_line (strip_cr_keeps f.command h.no_cr)
        h.command_ne_nil

  -- The head of a frame is read back, and the rest of the parse is that of the body.
  pub parse-head_then :
      (len : Option ℕ)
      → Declares (find_header content_length f.headers) len
      → parse_frame (f.command ++ (newline ∷ header_bytes f.headers (newline ∷ tail))) ≡ (
          read_body len tail >>= λ br.
          done (record { command = f.command; headers = f.headers; body = br.0 }, br.1))
  unfolding head_then
  parse-head_then len d =
      parse_frame_lem head_then
      ∙ ap parse_rest skip_heartbeats-head_then
      ∙ parse_rest-head_then len d

header_bytes-append :
    (hs : Headers) (t r : Bytes) → header_bytes hs t ++ r ≡ header_bytes hs (t ++ r)
unfolding header_bytes
header_bytes-append [] t r = refl
header_bytes-append ((k, v) ∷ hs) t r =
    rw (append_assoc (header_line k v), header_bytes-append hs t r)

pub to_bytes-append : (f : Frame) (rest : Bytes) → to_bytes f ++ rest ≡ frame_then f rest
unfolding to_bytes
to_bytes-append f rest = simp (append_assoc, header_bytes-append)

-- A sendable frame that `to_bytes` wrote is read back whole by `parse_frame`, whatever bytes stand
-- behind it, and those bytes are what remains.
pub parse-to_bytes :
    (f : Frame) (rest : Bytes) → IsSendable f → parse_frame (to_bytes f ++ rest) ≡ done (f, rest)
unfolding frame_then
parse-to_bytes f rest h = rw to_bytes-append (
    parse-head_then f (f.body ++ (0 ∷ rest)) h.head _ (declared-Declares _ f.body h.body_fits)
    ∙ rw (read-body (find_header content_length f.headers) f.body rest h.body_fits))
