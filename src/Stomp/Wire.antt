-- ===== src/Stomp/Wire.antt =====
-- crates/vdsm-rpc/src/stomp.rs: `Frame::to_bytes`.
use vdsm_rs.Base.{[], ◌∷◌, ◌++◌, Bytes, Text}
use vdsm_rs.Stomp.{Frame}
use vdsm_rs.Stomp.Escape.{escape_header}
use vdsm_rs.Stomp.Parser.{Headers, colon}
use vdsm_rs.Stomp.Lines.{newline}

-- One header line, without its newline.
unfoldable pub header_line : Text → Text → Bytes
header_line k v = escape_header k ++ (colon ∷ escape_header v)

-- `for (k, v) in &self.headers { … }`, with what is pushed behind the loop.
unfoldable pub header_bytes : Headers → Bytes → Bytes
unfolding header_line
header_bytes [] tail = tail
header_bytes ((k, v) ∷ hs) tail = header_line k v ++ (newline ∷ header_bytes hs tail)

-- The frame, and what the caller writes behind it.
unfoldable pub frame_then : Frame → Bytes → Bytes
frame_then f rest =
    f.command ++ (newline ∷ header_bytes f.headers (newline ∷ (f.body ++ (0 ∷ rest))))

-- `Frame::to_bytes`
unfoldable pub to_bytes : Frame → Bytes
unfolding frame_then
to_bytes f = frame_then f []
