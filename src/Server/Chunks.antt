-- ===== src/Server/Chunks.antt =====
-- crates/vdsm-rpc/src/server.rs: how the bytes are cut into reads does not matter.
use vdsm_rs.Base.{
  ℕ, zero, suc, ◌<◌, ◌≡◌, ◌≢◌, refl, sym, ap, ◌∙◌, List, [], ◌∷◌, ◌++◌, append-nil, append_assoc,
  arith, Bytes, length, length-append, All, flatten,
}
use vdsm_rs.Server.{Env}
use vdsm_rs.Server.Session.{Session, Next, go, stop, on_frame}
use vdsm_rs.Server.Stream.{Conn, live, closed, crashed, proceed, round, run, drain, feed, feed_all}
use vdsm_rs.Stomp.Parser.{parse_frame}
use vdsm_rs.Stomp.Prefixes.{parse_frame-shorter}
use vdsm_rs.Stomp.Streaming.{parse_frame-extend}
use vdsm_rs.Stomp.{Frame, Parse, done, more, fail, panic}

pub append-left-nil : (a b : Bytes) → a ++ b ≡ [] → a ≡ []
append-left-nil [] b e = refl
append-left-nil (c ∷ a) b e = cc

module _ {V W : Type 0} (env : Env V W) where
  -- Two loops that agree on shorter buffers agree on one round.
  round-cong :
      (again again' : Bytes → Session W → Conn W) (buf : Bytes) (s : Session W)
      (p : Parse (Frame × Bytes))
      → parse_frame buf ≡ p
      → ((rest : Bytes) (s' : Session W)
          → length rest < length buf
          → again rest s' ≡ again' rest s')
      → round env again buf s p ≡ round env again' buf s p
  unfolding round
  round-cong again again' buf s (done (frame, rest)) e h =
      go_on (on_frame env frame s) (parse_frame-shorter buf rest frame e)
    where
      go_on :
          (n : Next W)
          → length rest < length buf
          → proceed env again rest n ≡ proceed env again' rest n
      go_on (go s') lt = unfold proceed in h rest s' lt
      go_on (stop s') lt = unfold proceed in refl
  round-cong again again' buf s more e h = refl
  round-cong again again' buf s (fail x) e h = refl
  round-cong again again' buf s panic e h = refl

  -- Enough fuel is as good as more.
  run-fuel :
      (f g : ℕ) (buf : Bytes) (s : Session W)
      → length buf < f
      → length buf < g
      → run env f buf s ≡ run env g buf s
  unfolding run
  run-fuel zero g buf s h k = absurd (omega arith)
  run-fuel (suc f) zero buf s h k = absurd (omega arith)
  run-fuel (suc f) (suc g) buf s h k =
      round-cong (run env f) (run env g) buf s (parse_frame buf) refl
        λ rest s' lt. run-fuel f g rest s' (omega arith) (omega arith)

  -- What a connection makes of more bytes; at least one is meant.
  feed_more : Bytes → Conn W → Conn W
  feed_more b (live buf s) = drain env (buf ++ b) s
  feed_more b (closed s) = closed s
  feed_more b (crashed s) = crashed s

  proceed-feed_more :
      (again again' : Bytes → Session W → Conn W) (rest b : Bytes) (n : Next W)
      → ((s : Session W) → feed_more b (again rest s) ≡ again' (rest ++ b) s)
      → feed_more b (proceed env again rest n) ≡ proceed env again' (rest ++ b) n
  unfolding proceed feed_more
  proceed-feed_more again again' rest b (go s) h = h s
  proceed-feed_more again again' rest b (stop s) h = refl

  pub run-round :
      (g : ℕ) (buf : Bytes) (s : Session W)
      → run env (suc g) buf s ≡ round env (run env g) buf s (parse_frame buf)
  unfolding run
  run-round g buf s = refl

  round-feed_more :
      (again : Bytes → Session W → Conn W) (g : ℕ) (buf b : Bytes) (s : Session W)
      (p : Parse (Frame × Bytes))
      → parse_frame buf ≡ p
      → length (buf ++ b) < suc g
      → ((rest : Bytes) (s' : Session W)
          → length rest < length buf
          → feed_more b (again rest s') ≡ run env g (rest ++ b) s')
      → feed_more b (round env again buf s p) ≡ run env (suc g) (buf ++ b) s
  unfolding round
  round-feed_more again g buf b s (done (frame, rest)) e k h =
      let grown : parse_frame (buf ++ b) ≡ done (frame, rest ++ b) =
        rw e at (parse_frame-extend buf b) in
      proceed-feed_more again (run env g) rest b (on_frame env frame s)
        (λ s'. h rest s' (parse_frame-shorter buf rest frame e))
      ∙ sym (run-round g (buf ++ b) s ∙ rw grown)
  round-feed_more again g buf b s more e k h =
      unfold feed_more drain in
      run-fuel (suc (length (buf ++ b))) (suc g) (buf ++ b) s (omega arith) k
  round-feed_more again g buf b s (fail x) e k h =
      let grown : parse_frame (buf ++ b) ≡ fail x = rw e at (parse_frame-extend buf b) in
      unfold feed_more in sym (run-round g (buf ++ b) s ∙ rw grown)
  round-feed_more again g buf b s panic e k h =
      let grown : parse_frame (buf ++ b) ≡ panic = rw e at (parse_frame-extend buf b) in
      unfold feed_more in sym (run-round g (buf ++ b) s ∙ rw grown)

  -- Bytes that arrive after a drain are as if they had been in the buffer from the start.
  run-feed_more :
      (f g : ℕ) (buf b : Bytes) (s : Session W)
      → length buf < f
      → length (buf ++ b) < g
      → feed_more b (run env f buf s) ≡ run env g (buf ++ b) s
  unfolding run
  run-feed_more zero g buf b s h k = absurd (omega arith)
  run-feed_more (suc f) zero buf b s h k = absurd (omega arith)
  run-feed_more (suc f) (suc g) buf b s h k =
      round-feed_more (run env f) g buf b s (parse_frame buf) refl k λ rest s' lt.
        run-feed_more f g rest b s' (omega arith)
          (omega (arith, length-append {0} buf b, length-append {0} rest b))

  drain-feed_more :
      (buf b : Bytes) (s : Session W) → feed_more b (drain env buf s) ≡ drain env (buf ++ b) s
  unfolding drain
  drain-feed_more buf b s = run-feed_more _ _ buf b s (omega arith) (omega arith)

  feed_lem : (c : Conn W) (b : Bytes) → b ≢ [] → feed env c b ≡ feed_more b c
  unfolding feed feed_more
  feed_lem c [] h = absurd (h refl)
  feed_lem (live buf s) (x ∷ xs) h = refl
  feed_lem (closed s) (x ∷ xs) h = refl
  feed_lem (crashed s) (x ∷ xs) h = refl

  feed_more-feed_more :
      (c : Conn W) (a b : Bytes) → feed_more b (feed_more a c) ≡ feed_more (a ++ b) c
  unfolding feed_more
  feed_more-feed_more (live buf s) a b =
      drain-feed_more (buf ++ a) b s ∙ ap (λ x. drain env x s) (append_assoc buf a b)
  feed_more-feed_more (closed s) a b = refl
  feed_more-feed_more (crashed s) a b = refl

  feed_all-feed_more :
      (c : Conn W) (a : Bytes) (chunks : List Bytes)
      → All (λ b. b ≢ []) chunks
      → feed_all env (feed_more a c) chunks ≡ feed_more (a ++ flatten chunks) c
  unfolding feed_all
  feed_all-feed_more c a [] h = ap (λ x. feed_more x c) (sym (append-nil a))
  feed_all-feed_more c a (b ∷ chunks) h =
      ap (λ x. feed_all env x chunks) (feed_lem (feed_more a c) b h.0 ∙ feed_more-feed_more c a b)
      ∙ feed_all-feed_more c (a ++ b) chunks h.1
      ∙ ap (λ x. feed_more x c) (append_assoc a b (flatten chunks))

  feed_all_lem :
      (c : Conn W) (b : Bytes) (chunks : List Bytes)
      → All (λ x. x ≢ []) (b ∷ chunks)
      → feed_all env c (b ∷ chunks) ≡ feed_more (flatten (b ∷ chunks)) c
  unfolding feed_all
  feed_all_lem c b chunks h =
      ap (λ x. feed_all env x chunks) (feed_lem c b h.0) ∙ feed_all-feed_more c b chunks h.1

  -- A connection that has not ended is the same after any two ways to cut the same bytes into reads of
  -- at least one byte: the same frames are answered, with the same replies, in the same order.
  pub feed_all-chunks :
      (c : Conn W) (xs ys : List Bytes)
      → All (λ x. x ≢ []) xs
      → All (λ x. x ≢ []) ys
      → flatten xs ≡ flatten ys
      → feed_all env c xs ≡ feed_all env c ys
  feed_all-chunks c [] [] hx hy e = refl
  feed_all-chunks c [] (y ∷ ys) hx hy e = absurd (hy.0 (append-left-nil y (flatten ys) (sym e)))
  feed_all-chunks c (x ∷ xs) [] hx hy e = absurd (hx.0 (append-left-nil x (flatten xs) e))
  feed_all-chunks c (x ∷ xs) (y ∷ ys) hx hy e =
      feed_all_lem c x xs hx ∙ ap (λ b. feed_more b c) e ∙ sym (feed_all_lem c y ys hy)
