-- ===== src/Tests/Streams.antt =====
-- Concrete connections of castd/wfdsink.
use miracast_device.Base.{
  ℕ, ◌≡◌, ◌≢◌, refl, false, Bool, List, [], ◌∷◌, ◌++◌, none, ok, arith, codes, Text, drop, leb,
  find?, search_for,
}
use miracast_device.Header.{
  find_cseq, cseq_here, find_server_port, server_port_here, find_session, session_here,
  int_of_digits, find_content_length, content_length_here,
}
use miracast_device.Rtsp
use miracast_device.Rtsp.{
  streaming, WfdCapabilities, Negotiator, aac, streaming, torn_down, build_m7_play_request, Raised,
  os_error,
}
use miracast_device.Rtsp.Order.{
  Call, receive, m2_request, m6_request, Message, m1, m3, m4, m5, m6_response, call, calls,
  progress, handshake, handshake_in_order,
}
use miracast_device.Session
use miracast_device.Session.{
  negotiate, Channel, Recv, chunk, timed_out, run_steady_state, out_of_fuel,
  open_control_connection,
}
use miracast_device.Session.Chunks.{Received, receive_messages}
use miracast_device.Session.Steady.{run_steady_state_ends}

abbrev caps : WfdCapabilities
caps = record {
  audio_codec = aac;
  allow_1080p60 = false;
  device_name = codes "Lab";
  sink_model = codes "castd";
  sink_version = codes "1";
  enable_uibc = false;
  edid = none;
}

abbrev is_letter : ℕ → Bool
is_letter c = leb 97 c

-- M1 twice, an early M6 response, and then the handshake as far as the M6 response.
abbrev conversation : List Call
conversation =
    receive m1 (codes "OPTIONS\r\nCSeq: 1\r\n\r\n")
    ∷ receive m1 (codes "OPTIONS\r\nCSeq: 1\r\n\r\n")
    ∷ m2_request
    ∷ receive m6_response (codes "server_port=5000\r\nSession: abc\r\n")
    ∷ receive m3 (codes "cseq:2")
    ∷ receive m4 (codes "CSeq: 3")
    ∷ receive m5 (codes "CSeq: 4")
    ∷ m6_request (codes "10.0.0.2")
    ∷ receive m6_response (codes "server_port=5000\r\nSession: abc\r\n")
    ∷ []

handshake_in_order_example :
    let (n, accepted) = calls is_letter (Rtsp.new caps 1028) conversation in
    (rest : List Message) × (handshake ≡ accepted ++ rest)
    × (n.state ≢ torn_down → rest ≡ drop (progress n.state) handshake)
handshake_in_order_example = handshake_in_order is_letter caps 1028 conversation

reached : progress (calls is_letter (Rtsp.new caps 1028) conversation).0.state ≡ 5
unfolding calls call Rtsp.extract_cseq find_cseq search_for cseq_here find_server_port
    server_port_here find_session session_here int_of_digits Rtsp.new Rtsp.handle_m1_options
    Rtsp.handle_m3_get_parameter Rtsp.handle_m4_set_parameter Rtsp.handle_m5_generic
    Rtsp.parse_m6_response Rtsp.build_m2_options_request Rtsp.build_m6_setup_request
reached = refl

abbrev socket : List Recv → Channel
socket inbound = record { inbound = inbound; buf = []; sent = []; send_fails = λ k. false }

abbrev two_messages : List Text
two_messages = codes "A\r\n\r\n" ∷ codes "Content-Length: 3\r\n\r\nxyz" ∷ []

abbrev pieces : List Text
pieces = codes "A\r\n\r" ∷ codes "\nContent-Length: 3\r\n\r\nx" ∷ codes "yzB" ∷ []

receive_messages_example : Received (socket []) two_messages [] pieces (codes "B") (timed_out ∷ [])
unfolding Session.frame find? find_content_length search_for content_length_here
receive_messages_example =
    receive_messages (socket []) two_messages [] pieces (codes "B") (timed_out ∷ [])
      (refl, (refl, tt)) (ground arith) refl

run_steady_state_ends_example :
    ((run_steady_state 30 (Rtsp.new caps 1028) (socket (chunk (codes "OPTIONS\r\n\r\n") ∷ []))).0
      ≢ ok out_of_fuel)
    × ((run_steady_state 30
          (Rtsp.new caps 1028)
          (socket (chunk (codes "OPTIONS\r\n\r\n") ∷ []))).1.state
        ≡ torn_down)
run_steady_state_ends_example =
    run_steady_state_ends 30 (Rtsp.new caps 1028) (socket (chunk (codes "OPTIONS\r\n\r\n") ∷ []))
      (omega arith)
