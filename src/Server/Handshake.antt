-- ===== src/Server/Handshake.antt =====
-- crates/vdsm-rpc/src/server.rs: nothing is dispatched before the handshake, which happens once.
use vdsm_rs.Base.{
  ℕ, zero, suc, ◌≡◌, ◌⊎◌, inl, inr, refl, ap, sym, ◌∙◌, if-cases, Bool, true, false, not, ◌&&◌,
  Option, List, [], ◌∷◌, ◌++◌, Bytes, Text, codes, text_eq, All, All-append, Bool-cases,
  Option-cases,
}
use vdsm_rs.Server.{Env}
use vdsm_rs.Server.Reply.{
  Sent, silent, wrote, broken, handle_stomp_send, handle_stomp_send-cases, reply_to, is_none,
}
use vdsm_rs.Server.Session.{
  Session, new_session, Next, go, stop, write, is_connect, connected_frame, on_connect,
  on_subscribe, on_unsubscribe, on_send, on_disconnect, on_command, on_frame, after_send,
}
use vdsm_rs.Server.Stream.{
  Conn, live, closed, crashed, proceed, round, run, drain, feed, feed_all, serve_stomp, session_of,
  display_error,
}
use vdsm_rs.Stomp.Build.{message, error, receipt}
use vdsm_rs.Rpc.Protocol.{Response}
use vdsm_rs.Encoding.TextMap.{TextMap}
use vdsm_rs.Stomp.Parser.{parse_frame}
use vdsm_rs.Stomp.{Frame, Parse, done, more, fail, panic, header}

-- The command of the reply to CONNECT.
abbrev pub is_connected_frame : Frame → Bool
is_connected_frame f = text_eq f.command (codes "CONNECTED")

true-ne-false : {P : Type 0} → true ≡ false → P
true-ne-false h = cc

module _ {V W : Type 0} (env : Env V W) (w : W) where
  -- Before the handshake: no handler has run and no subscription is kept; only ERROR frames have been
  -- written.
  pub record IsFresh (s : Session W) : Type 0 where
    pub down : s.connected ≡ false
    pub untouched : s.world ≡ w
    pub no_subscription : s.subscriptions ≡ []
    pub errors : All (λ f. f.command ≡ codes "ERROR") s.sent

  -- Behind the handshake: the reply to CONNECT is the first frame written, and the only one of its
  -- kind.
  pub record IsOpen (s : Session W) : Type 0 where
    pub up : s.connected ≡ true
    pub later : List Frame
    pub first : s.sent ≡ connected_frame env ∷ later
    pub once : All (λ f. is_connected_frame f ≡ false) later

  -- A loop that goes on has either written nothing or is open.
  IsLive : Session W → Type 0
  IsLive s = (IsFresh s × (s.sent ≡ [])) ⊎ IsOpen s

  abbrev pub IsOrderly : Session W → Type 0
  IsOrderly s = IsFresh s ⊎ IsOpen s

  abbrev NextIsOrderly : Next W → Type 0
  NextIsOrderly (go s) = IsLive s
  NextIsOrderly (stop s) = IsOrderly s

  IsOpen-write :
      {s : Session W} (f : Frame) → is_connected_frame f ≡ false → IsOpen s → IsOpen (write f s)
  IsOpen-write f e h = record {
    up = h.up;
    later = h.later ++ f ∷ [];
    first = rw h.first;
    once = All-append _ h.later (f ∷ []) h.once (e, tt);
  }

  -- A change of subscriptions or of the host's state.
  IsOpen-same :
      (s s' : Session W) → s'.connected ≡ s.connected → s'.sent ≡ s.sent → IsOpen s → IsOpen s'
  IsOpen-same s s' c e h = record {
    up = c ∙ h.up;
    later = h.later;
    first = e ∙ h.first;
    once = h.once;
  }

  abbrev SentIsReply : Sent → Type 0
  SentIsReply silent = Unit
  SentIsReply (wrote f) = is_connected_frame f ≡ false
  SentIsReply broken = Unit

  after_send-NextIsOrderly :
      (s : Session W) (x : Sent) (v : W)
      → SentIsReply x
      → IsOpen s
      → NextIsOrderly (after_send s x v)
  unfolding after_send IsLive
  after_send-NextIsOrderly s silent v k h = inr (IsOpen-same s _ refl refl h)
  after_send-NextIsOrderly s (wrote f) v k h = inr (IsOpen-write f k (IsOpen-same s _ refl refl h))
  after_send-NextIsOrderly s broken v k h = inr (IsOpen-same s _ refl refl h)

  reply_to-SentIsReply :
      (f : Frame) (m : TextMap Text) (r : Response V) (id : Option V)
      → SentIsReply (reply_to env f m r id)
  unfolding reply_to message text_eq
  reply_to-SentIsReply f m r id = elim (Bool-cases (is_none id && is_none r.error)) [
    | inl e ↦ rw e tt
    | inr e ↦
        rw e (elim (Option-cases (env.encode r)) [ inl q ↦ rw q tt | inr (body, q) ↦ rw q refl ])
  ]

  handle-SentIsReply :
      (f : Frame) (m : TextMap Text) (v : W) → SentIsReply (handle_stomp_send env f m v).0
  handle-SentIsReply f m v = elim (handle_stomp_send-cases env f m v) [
    | inl e ↦ rw e tt
    | inr (t, q, e) ↦ rw e (reply_to-SentIsReply f m _ _)
  ]

  IsLive-open : {s : Session W} → IsOpen s → IsLive s
  unfolding IsLive
  IsLive-open h = inr h

  on_connect-NextIsOrderly : (s : Session W) → IsLive s → NextIsOrderly (on_connect env s)
  unfolding on_connect IsLive error text_eq
  on_connect-NextIsOrderly s (inl (h, e)) =
      if-cases NextIsOrderly s.connected _ _ (λ up. true-ne-false (sym up ∙ h.down))
        λ down. inr (record { up = refl; later = []; first = rw e; once = tt })
  on_connect-NextIsOrderly s (inr h) =
      if-cases NextIsOrderly s.connected _ _
        (λ up. inr (IsOpen-write (error (codes "already connected") []) refl h))
        λ down. true-ne-false (sym h.up ∙ down)

  on_disconnect-IsOpen : (f : Frame) (s : Session W) → IsOpen s → IsOpen (on_disconnect f s)
  unfolding on_disconnect receipt text_eq
  on_disconnect-IsOpen f s h = elim (Option-cases (header f (codes "receipt"))) [
    | inl e ↦ rw e h
    | inr (id, e) ↦ rw e (IsOpen-write _ refl h)
  ]

  on_unsubscribe-IsOpen : (f : Frame) (s : Session W) → IsOpen s → IsOpen (on_unsubscribe f s)
  unfolding on_unsubscribe
  on_unsubscribe-IsOpen f s h = elim (Option-cases (header f (codes "id"))) [
    | inl e ↦ rw e h
    | inr (id, e) ↦ rw e (IsOpen-same s _ refl refl h)
  ]

  on_send-NextIsOrderly : (f : Frame) (s : Session W) → IsOpen s → NextIsOrderly (on_send env f s)
  unfolding on_send
  on_send-NextIsOrderly f s h =
      after_send-NextIsOrderly s _ _ (handle-SentIsReply f s.subscriptions s.world) h

  on_command-NextIsOrderly :
      (f : Frame) (s : Session W)
      → (is_connect f ≡ true) ⊎ IsOpen s
      → IsLive s
      → NextIsOrderly (on_command env f s)
  unfolding on_command on_subscribe
  on_command-NextIsOrderly f s (inl c) alive = rw c (on_connect-NextIsOrderly s alive)
  on_command-NextIsOrderly f s (inr h) alive =
      if-cases NextIsOrderly (is_connect f) _ _ (λ c. on_connect-NextIsOrderly s alive)
        λ c.
          if-cases NextIsOrderly (text_eq f.command (codes "SUBSCRIBE")) _ _
            (λ e. IsLive-open (IsOpen-same s _ refl refl h))
            λ e.
              if-cases NextIsOrderly (text_eq f.command (codes "UNSUBSCRIBE")) _ _
                (λ e. IsLive-open (on_unsubscribe-IsOpen f s h))
                λ e.
                  if-cases NextIsOrderly (text_eq f.command (codes "SEND")) _ _
                    (λ e. on_send-NextIsOrderly f s h)
                    λ e.
                      if-cases NextIsOrderly (text_eq f.command (codes "DISCONNECT")) _ _
                        (λ e. inr (on_disconnect-IsOpen f s h)) λ e. IsLive-open h

  refuse-IsOrderly : (s : Session W) (m b : Text) → IsLive s → IsOrderly (write (error m b) s)
  unfolding IsLive error text_eq
  refuse-IsOrderly s m b (inl (h, e)) = inl (record {
    down = h.down;
    untouched = h.untouched;
    no_subscription = h.no_subscription;
    errors = All-append _ s.sent _ h.errors (refl, tt);
  })
  refuse-IsOrderly s m b (inr h) = inr (IsOpen-write (error m b) refl h)

  connect_or_IsOpen :
      (f : Frame) (s : Session W)
      → (not s.connected && not (is_connect f)) ≡ false
      → IsLive s
      → (is_connect f ≡ true) ⊎ IsOpen s
  unfolding IsLive
  connect_or_IsOpen f s e (inr h) = inr h
  connect_or_IsOpen f s e (inl (h, _)) = elim (Bool-cases (is_connect f)) [
    | inl c ↦ inl c
    | inr c ↦ true-ne-false (cc (ap not h.down, ap not c))
  ]

  -- One frame.
  on_frame-NextIsOrderly : (f : Frame) (s : Session W) → IsLive s → NextIsOrderly (on_frame env f s)
  unfolding on_frame
  on_frame-NextIsOrderly f s h =
      if-cases NextIsOrderly (not s.connected && not (is_connect f)) _ _
        (λ e. refuse-IsOrderly s (codes "expected CONNECT") [] h)
        λ e. on_command-NextIsOrderly f s (connect_or_IsOpen f s e h) h

  -- The session that a connection has or ended with.
  abbrev ConnIsOrderly : Conn W → Type 0
  ConnIsOrderly (live b s) = IsLive s
  ConnIsOrderly (closed s) = IsOrderly s
  ConnIsOrderly (crashed s) = IsOrderly s

  IsLive-IsOrderly : (s : Session W) → IsLive s → IsOrderly s
  unfolding IsLive
  IsLive-IsOrderly s (inl (h, e)) = inl h
  IsLive-IsOrderly s (inr h) = inr h

  proceed-ConnIsOrderly :
      (again : Bytes → Session W → Conn W) (rest : Bytes) (n : Next W)
      → ((s : Session W) → IsLive s → ConnIsOrderly (again rest s))
      → NextIsOrderly n
      → ConnIsOrderly (proceed env again rest n)
  unfolding proceed
  proceed-ConnIsOrderly again rest (go s) keep h = keep s h
  proceed-ConnIsOrderly again rest (stop s) keep h = h

  round-ConnIsOrderly :
      (again : Bytes → Session W → Conn W) (buf : Bytes) (s : Session W) (p : Parse (Frame × Bytes))
      → ((rest : Bytes) (s' : Session W) → IsLive s' → ConnIsOrderly (again rest s'))
      → IsLive s
      → ConnIsOrderly (round env again buf s p)
  unfolding round
  round-ConnIsOrderly again buf s (done (f, rest)) keep h =
      proceed-ConnIsOrderly again rest (on_frame env f s) (keep rest) (on_frame-NextIsOrderly f s h)
  round-ConnIsOrderly again buf s more keep h = h
  round-ConnIsOrderly again buf s (fail e) keep h =
      refuse-IsOrderly s (codes "malformed frame") (display_error e) h
  round-ConnIsOrderly again buf s panic keep h = IsLive-IsOrderly s h

  run-ConnIsOrderly :
      (k : ℕ) (buf : Bytes) (s : Session W) → IsLive s → ConnIsOrderly (run env k buf s)
  unfolding run
  run-ConnIsOrderly zero buf s h = h
  run-ConnIsOrderly (suc k) buf s h =
      round-ConnIsOrderly (run env k) buf s (parse_frame buf) (run-ConnIsOrderly k) h

  feed-ConnIsOrderly :
      (c : Conn W) (chunk : Bytes) → ConnIsOrderly c → ConnIsOrderly (feed env c chunk)
  unfolding feed drain
  feed-ConnIsOrderly (live buf s) [] h = IsLive-IsOrderly s h
  feed-ConnIsOrderly (live buf s) (x ∷ xs) h = run-ConnIsOrderly _ (buf ++ (x ∷ xs)) s h
  feed-ConnIsOrderly (closed s) chunk h = h
  feed-ConnIsOrderly (crashed s) chunk h = h

  feed_all-ConnIsOrderly :
      (c : Conn W) (chunks : List Bytes) → ConnIsOrderly c → ConnIsOrderly (feed_all env c chunks)
  unfolding feed_all
  feed_all-ConnIsOrderly c [] h = h
  feed_all-ConnIsOrderly c (b ∷ chunks) h =
      feed_all-ConnIsOrderly (feed env c b) chunks (feed-ConnIsOrderly c b h)

  ConnIsOrderly-session : (c : Conn W) → ConnIsOrderly c → IsOrderly (session_of c)
  ConnIsOrderly-session (live b s) h = IsLive-IsOrderly s h
  ConnIsOrderly-session (closed s) h = h
  ConnIsOrderly-session (crashed s) h = h

  -- Whatever bytes a peer sends, in whatever reads: either the connection has not been opened, the
  -- state of the host is as it was, no subscription is kept and nothing but ERROR frames has been
  -- written; or it has, and the reply to CONNECT was the first frame written and the only such.
  pub serve_stomp-IsOrderly :
      (chunks : List Bytes) → IsOrderly (session_of (serve_stomp env w chunks))
  unfolding serve_stomp IsLive
  serve_stomp-IsOrderly chunks = ConnIsOrderly-session _ (
      feed_all-ConnIsOrderly (live [] (new_session w)) chunks
        (inl (record { down = refl; untouched = refl; no_subscription = refl; errors = tt }, refl)))
