-- ===== src/Server/Agreement.antt =====
-- crates/vdsm-rpc/src/server.rs: a whole connection in either framing, for the same requests.
use vdsm_rs.Base.{
  ◌≡◌, ◌≢◌, refl, sym, ap, ◌∙◌, true, some, List, [], ◌∷◌, ◌++◌, append-nil, append_assoc, map,
  flatten, All, Bytes, Text, codes, Result, ok, text_eq,
}
use mathlib.Core.List.{Perm}
use vdsm_rs.Encoding.TextMap.{TextMap}
use vdsm_rs.Encoding.Trim.{trim}
use vdsm_rs.Encoding.Utf8.{IsUtf8, from_utf8-IsUtf8}
use vdsm_rs.Rpc.Dispatch
use vdsm_rs.Rpc.Protocol.{Request, Response, JsonRpcError}
use vdsm_rs.Server.{Env}
use vdsm_rs.Server.Answers.{request_answered}
use vdsm_rs.Server.EndToEnd.{wire, serve-frames}
use vdsm_rs.Server.LineFraming.{
  LineSession, process_one, write_line, on_trimmed, on_line, serve_lines,
}
use vdsm_rs.Server.Reply.{outcome, wrote, handle_stomp_send}
use vdsm_rs.Server.Session.{
  Session, new_session, go, write, after_send, connected_frame, on_connect, on_send, on_command,
  on_frame,
}
use vdsm_rs.Server.Stream.{live, run_frames, serve_stomp}
use vdsm_rs.Stomp.Build.{message}
use vdsm_rs.Stomp.Lines.{newline}
use vdsm_rs.Stomp.RoundTrip.{IsSendable}
use vdsm_rs.Stomp.{Frame}

-- One request as a line and as a frame, and the bytes of its response.
pub record Exchange : Type 0 where
  pub line : Bytes
  pub frame : Frame
  pub response : Bytes

-- The line holds the frame's body, between white space.
pub record IsSameText (c : Exchange) : Type 0 where
  pub sends : c.frame.command ≡ codes "SEND"
  pub line_utf8 : IsUtf8 c.line
  pub body_utf8 : IsUtf8 c.frame.body
  pub trimmed : trim c.line ≡ c.frame.body
  pub body_ne_nil : c.frame.body ≢ []

bodies-message :
    (dest sub : Text) (b : Bytes) (gs : List Frame) (bs : List Bytes)
    → map (λ g. g.body) gs ≡ bs
    → map (λ g. g.body) (message dest sub b ∷ gs) ≡ b ∷ bs
unfolding message
bodies-message dest sub b gs bs h = ap (λ r. b ∷ r) h

module _ {V W : Type 0} (env : Env V W) where
  -- The text is a request with an id, which changes the host from `w` to `v`, and the response to it
  -- is encoded as the bytes.
  abbrev pub IsServed : W → Text → Bytes → W → Type 0
  IsServed w t b v =
      (req : Request V) × (i : V) × (r : Result (JsonRpcError V) V) × (env.decode t ≡ ok req)
      × (req.id ≡ some i)
      × (Dispatch.invoke env.dispatcher req.method req.params w ≡ (r, v))
      × (env.encode (outcome (some i) r) ≡ some b)

  -- So is each of the requests in turn.
  abbrev pub AreServed : W → List Exchange → W → Type 0
  AreServed w [] u = u ≡ w
  AreServed w (c ∷ cs) u =
      IsSameText c × ((v : W) × IsServed w c.frame.body c.response v × AreServed v cs u)

  write_line-encoded :
      (r : Response V) (b : Bytes) (s : LineSession W)
      → env.encode r ≡ some b
      → write_line env (some r) s ≡ (true, record s { out = s.out ++ (b ++ (newline ∷ [])) ∷ [] })
  unfolding write_line
  write_line-encoded r b s q = rw (write_line, q) refl

  on_line-answered :
      (l t : Bytes) (s : LineSession W) (r : Response V) (b : Bytes) (v : W)
      → IsUtf8 l
      → trim l ≡ t
      → t ≢ []
      → process_one env t s.world ≡ (some r, v)
      → env.encode r ≡ some b
      → (rest : List Bytes)
      → serve_lines env (l ∷ rest) s
        ≡ serve_lines env rest (record s { world = v; out = s.out ++ (b ++ (newline ∷ [])) ∷ [] })
  unfolding serve_lines on_line on_trimmed
  on_line-answered l [] s r b v h e n p q rest = absurd (n refl)
  on_line-answered l (c ∷ t) s r b v h e n p q rest =
      rw (from_utf8-IsUtf8 l h, e, p, write_line-encoded r b (record s { world = v }) q) refl

  on_frame-send :
      (f : Frame) (s : Session W)
      → s.connected ≡ true
      → f.command ≡ codes "SEND"
      → on_frame env f s ≡ on_send env f s
  unfolding on_frame on_command text_eq
  on_frame-send f s c e = rw (c, e) refl

  on_send-wrote :
      (f g : Frame) (s : Session W) (v : W)
      → handle_stomp_send env f s.subscriptions s.world ≡ (wrote g, v)
      → on_send env f s ≡ go (write g (record s { world = v }))
  unfolding on_send after_send
  on_send-wrote f g s v h = rw h refl

  run_frames-go :
      (f : Frame) (s s' : Session W) (rest : List Frame)
      → on_frame env f s ≡ go s'
      → run_frames env (f ∷ rest) s ≡ run_frames env rest s'
  unfolding run_frames
  run_frames-go f s s' rest h = rw (run_frames, h) refl

  run_frames-connect :
      (f : Frame) (w : W) (rest : List Frame)
      → f.command ≡ codes "CONNECT"
      → run_frames env (f ∷ rest) (new_session w)
        ≡ run_frames env rest (record {
          subscriptions = [];
          connected = true;
          world = w;
          sent = connected_frame env ∷ [];
        })
  unfolding run_frames on_frame on_command on_connect text_eq
  run_frames-connect f w rest e = rw e refl

  serve_lines-served :
      (cs : List Exchange) (w u : W) (out : List Bytes)
      → AreServed w cs u
      → serve_lines env (map (λ c. c.line) cs) (record { world = w; out = out })
        ≡ record { world = u; out = out ++ map (λ c. c.response ++ (newline ∷ [])) cs }
  unfolding process_one
  serve_lines-served [] w u out e =
      unfold serve_lines in rw (append-nil out) (ap (λ x. record { world = x; out = out }) (sym e))
  serve_lines-served (c ∷ cs) w u out (t, (v, (req, i, r, d, has_id, ran, encodes), later)) =
      on_line-answered c.line c.frame.body (record { world = w; out = out }) (outcome (some i) r)
        c.response v t.line_utf8 t.trimmed t.body_ne_nil (rw (d, ran, has_id) refl) encodes
        (map (λ x. x.line) cs)
      ∙ serve_lines-served cs v u (out ++ (c.response ++ (newline ∷ [])) ∷ []) later
      ∙ ap (λ o. record { world = u; out = o }) (append_assoc out _ _)

-- A hash map is iterated over its own entries, each once, in some order.
module _ {V W : Type 0} (env : Env V W) (visits : (m : TextMap Text) → Perm (env.iter m) m) where
  run_frames-served :
      (cs : List Exchange) (w u : W) (s : Session W)
      → s.connected ≡ true
      → AreServed env s.world cs u
      → (gs : List Frame) × (map (λ g. g.body) gs ≡ map (λ c. c.response) cs)
        × (run_frames env (map (λ c. c.frame) cs) s
            ≡ live [] (record s { world = u; sent = s.sent ++ gs }))
  run_frames-served [] w u s c e = (
    [],
    refl,
    unfold run_frames in
        rw (append-nil s.sent) (ap (λ x. live [] (record s { world = x })) (sym e)),
  )
  run_frames-served (x ∷ xs) w u s c (t, (v, (req, i, r, d, has_id, ran, encodes), later)) =
      let (dest, sub, sent, to, under, same) =
        request_answered env visits x.frame s.subscriptions s.world v req i r x.response t.body_utf8
          d has_id ran encodes in
      let g = message dest sub x.response in
      let s' : Session W = write g (record s { world = v }) in
      let (gs, bodies, runs) = run_frames-served xs v u s' c later in
      (
        g ∷ gs,
        bodies-message dest sub x.response gs _ bodies,
        run_frames-go env x.frame s s' _
              (on_frame-send env x.frame s c t.sends ∙ on_send-wrote env x.frame g s v sent)
            ∙ runs
            ∙ ap (λ sent. live [] (record s { world = u; sent = sent })) (append_assoc s.sent _ _),
      )

  -- A client that sends requests with ids, which are served in turn with responses that encode, one
  -- behind the other: as frames behind a CONNECT, whose bytes are cut into reads of at least one byte
  -- each in any way, or as lines. On both connections the host ends in the same state, and what is
  -- written is the responses in the order of the requests, each once: over STOMP behind the reply to
  -- CONNECT as the bodies of the frames, in the line framing each with a newline behind it.
  pub framings_agree :
      (w u : W) (hello : Frame) (cs : List Exchange) (chunks : List Bytes)
      → hello.command ≡ codes "CONNECT"
      → IsSendable hello
      → All IsSendable (map (λ c. c.frame) cs)
      → AreServed env w cs u
      → All (λ b. b ≢ []) chunks
      → flatten chunks ≡ wire (hello ∷ map (λ c. c.frame) cs)
      → ((gs : List Frame) × (map (λ g. g.body) gs ≡ map (λ c. c.response) cs)
          × (serve_stomp env w chunks
              ≡ live [] (record {
                subscriptions = [];
                connected = true;
                world = u;
                sent = connected_frame env ∷ gs;
              })))
        × (serve_lines env (map (λ c. c.line) cs) (record { world = w; out = [] })
            ≡ record { world = u; out = map (λ c. c.response ++ (newline ∷ [])) cs })
  framings_agree w u hello cs chunks e h hs served hc bytes =
      let (gs, bodies, runs) = run_frames-served cs w u _ refl served in
      (
        (
          gs,
          bodies,
          serve-frames env w (hello ∷ map (λ c. c.frame) cs) chunks (h, hs) hc bytes
              ∙ run_frames-connect env hello w _ e
              ∙ runs,
        ),
        serve_lines-served env cs w u [] served,
      )
