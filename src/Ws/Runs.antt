-- ===== src/Ws/Runs.antt =====
-- Frames of src/ws.rs on small buffers.
use robinhood_feed_bench.Common.{ℕ, ◌≡◌, ◌⊎◌, refl, true, false, List, [], ◌∷◌, ◌++◌, length, arith}
use robinhood_feed_bench.Ws.{Frame, Parsed, parse_frame, client_frame, op_text, take_frame}
use robinhood_feed_bench.Ws.Frames.{parse_frame-client_frame}
use robinhood_feed_bench.Ws.Stream.{extend, parse_frame-append}

abbrev mask : List ℕ
mask = 1 ∷ 2 ∷ 3 ∷ 4 ∷ []

-- `hi` and a byte of the next frame.
abbrev payload : List ℕ
payload = 104 ∷ 105 ∷ []

parse_frame-client_frame_example :
    parse_frame (client_frame mask payload op_text ++ (137 ∷ [])) 1000
    ≡ Parsed.complete
        (record {
          fin = true;
          rsv1 = false;
          opcode = op_text;
          payload = payload;
          wire_len = length (client_frame mask payload op_text);
        })
        (137 ∷ [])
parse_frame-client_frame_example =
    parse_frame-client_frame mask payload (137 ∷ []) op_text 1000 refl (ground arith) (ground arith)
      (omega arith) (omega arith) (omega arith)

-- An unmasked text frame, as a server sends it.
abbrev served : List ℕ
served = 129 ∷ 2 ∷ 104 ∷ 105 ∷ 137 ∷ []

abbrev served_frame : Frame
served_frame = record { fin = true; rsv1 = false; opcode = 1; payload = payload; wire_len = 4 }

served_parsed : parse_frame served 1000 ≡ Parsed.complete served_frame (137 ∷ [])
unfolding parse_frame take_frame
served_parsed = refl

parse_frame-append_example :
    (parse_frame served 1000 ≡ Parsed.incomplete)
    ⊎ (parse_frame (served ++ (0 ∷ [])) 1000 ≡ extend (0 ∷ []) (parse_frame served 1000))
parse_frame-append_example = parse_frame-append 1000 served (0 ∷ [])
