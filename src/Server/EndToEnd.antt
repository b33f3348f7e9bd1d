-- ===== src/Server/EndToEnd.antt =====
-- crates/vdsm-rpc/src/server.rs: the byte stream of encoded frames is served as the frames themselves.
use vdsm_rs.Base.{
  ℕ, zero, suc, ◌<◌, ◌≡◌, ◌≢◌, refl, sym, ◌∙◌, List, [], ◌∷◌, ◌++◌, append-nil, arith, Bytes,
  length, All, flatten, map,
}
use vdsm_rs.Server.{Env}
use vdsm_rs.Server.Chunks.{run-round, feed_all-chunks, append-left-nil}
use vdsm_rs.Server.Session.{Session, new_session, Next, go, stop, on_frame}
use vdsm_rs.Server.Stream.{
  Conn, live, closed, proceed, round, run, drain, feed, feed_all, serve_stomp, run_frames,
}
use vdsm_rs.Stomp.Parser.{parse_frame, parse_frame-nil}
use vdsm_rs.Stomp.Prefixes.{parse_frame-shorter}
use vdsm_rs.Stomp.RoundTrip.{IsSendable, parse-to_bytes}
use vdsm_rs.Stomp.Wire.{to_bytes}
use vdsm_rs.Stomp.{Frame, done}

-- What a client writes that sends these frames.
abbrev pub wire : List Frame → Bytes
wire fs = flatten (map to_bytes fs)

done-ne-nil : (b : Bytes) (f : Frame) (r : Bytes) → parse_frame b ≡ done (f, r) → b ≢ []
done-ne-nil [] f r e = cc parse_frame-nil
done-ne-nil (c ∷ b) f r e = cc

module _ {V W : Type 0} (env : Env V W) where
  -- What is left to do behind one frame.
  then_frames : List Frame → Next W → Conn W
  then_frames fs (go s) = run_frames env fs s
  then_frames fs (stop s) = closed s

  run_frames-cons :
      (f : Frame) (fs : List Frame) (s : Session W)
      → run_frames env (f ∷ fs) s ≡ then_frames fs (on_frame env f s)
  unfolding run_frames then_frames
  run_frames-cons f fs s = ground arith

  proceed-then_frames :
      (n : Next W) (fs : List Frame) (k : ℕ)
      → ((s : Session W) → run env k (wire fs) s ≡ run_frames env fs s)
      → proceed env (run env k) (wire fs) n ≡ then_frames fs n
  unfolding proceed then_frames
  proceed-then_frames (go s) fs k h = h s
  proceed-then_frames (stop s) fs k h = refl

  run-frames :
      (fs : List Frame) (k : ℕ) (s : Session W)
      → All IsSendable fs
      → length (wire fs) < k
      → run env k (wire fs) s ≡ run_frames env fs s
  unfolding round run_frames
  run-frames fs zero s h lt = absurd (omega arith)
  run-frames [] (suc k) s h lt = run-round env k [] s ∙ rw parse_frame-nil
  run-frames (f ∷ fs) (suc k) s h lt =
      let read : parse_frame (to_bytes f ++ wire fs) ≡ done (f, wire fs) =
        parse-to_bytes f (wire fs) h.0 in
      run-round env k (wire (f ∷ fs)) s
      ∙ rw read (
          proceed-then_frames (on_frame env f s) fs k
            λ s'. run-frames fs k s' h.1 (omega (arith, parse_frame-shorter _ (wire fs) f read)))
      ∙ sym (run_frames-cons f fs s)

  feed_all_one :
      (b : Bytes) (s : Session W) → b ≢ [] → feed_all env (live [] s) (b ∷ []) ≡ drain env b s
  unfolding feed_all feed
  feed_all_one [] s h = absurd (h refl)
  feed_all_one (c ∷ b) s h = refl

  -- However the bytes of a client's frames are cut into reads, each of at least one byte, the
  -- connection ends up as if it had been given the frames one after the other: each is handled once
  -- and in order, until one of them ends the connection.
  pub serve-frames :
      (w : W) (fs : List Frame) (chunks : List Bytes)
      → All IsSendable fs
      → All (λ b. b ≢ []) chunks
      → flatten chunks ≡ wire fs
      → serve_stomp env w chunks ≡ run_frames env fs (new_session w)
  unfolding serve_stomp
  serve-frames w [] [] hf hc e = unfold feed_all run_frames in refl
  serve-frames w [] (b ∷ chunks) hf hc e = absurd (hc.0 (append-left-nil b (flatten chunks) e))
  serve-frames w (f ∷ fs) chunks hf hc e =
      let s = new_session w in
      let some_bytes : wire (f ∷ fs) ≢ [] =
        done-ne-nil (wire (f ∷ fs)) f (wire fs) (parse-to_bytes f (wire fs) hf.0) in
      feed_all-chunks env (live [] s) chunks (wire (f ∷ fs) ∷ []) hc (some_bytes, tt)
        (e ∙ sym (append-nil (wire (f ∷ fs))))
      ∙ feed_all_one (wire (f ∷ fs)) s some_bytes
      ∙ (unfold drain in run-frames (f ∷ fs) (suc (length (wire (f ∷ fs)))) s hf (omega arith))
