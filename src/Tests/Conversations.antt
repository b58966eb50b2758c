-- ===== src/Tests/Conversations.antt =====
-- Concrete sources that keep to the protocol of castd/wfdsink.
use miracast_device.Base.{
  ℕ, ◌≡◌, ok, refl, true, false, Bool, List, [], ◌∷◌, ◌++◌, none, some, arith, codes, Text, leb,
  ◌&&◌, contains, find?, split, search_for,
}
use miracast_device.Base.Utf8
use miracast_device.Header.{
  find_cseq, cseq_here, find_server_port, server_port_here, find_session, session_here,
  int_of_digits, find_content_length, content_length_here,
}
use miracast_device.Arbiter.{idle}
use miracast_device.Process.{absent, alive}
use miracast_device.Rtsp
use miracast_device.Rtsp.{
  handle_m3_get_parameter, build_capability_body, wait_m3, wait_m4, WfdCapabilities, Negotiator,
  aac, lpcm, streaming, is_teardown, ok_response, crlf, ack_entries, wants_ack,
}
use miracast_device.Rtsp.Encodable.{IsWordClass}
use miracast_device.Rtsp.Texts.{IsPlainSetup, described}
use miracast_device.Rtsp.Capabilities.{IsOneLine, Declares, build_capability_body-Declares}
use miracast_device.Rtsp.BodyLength.{Measured, handle_m3_get_parameter_length}
use miracast_device.Session
use miracast_device.Session.{Channel, Recv, chunk, timed_out}
use miracast_device.Session.Chunks.{arriving}
use miracast_device.Session.Handshake.{Source, Answers, IsConforming, agreed_with, replies}
use miracast_device.Session.KeepAlive.{
  Rounds, AreRequests, IsAnswered, done, other, get_request, set_request, Finished,
  run_steady_state_answers,
}
use miracast_device.Daemon.{Daemon, on_screen}
use miracast_device.Daemon.Conducted.{Conducted, run_source_session-Conducted}

abbrev caps : WfdCapabilities
caps = record {
  audio_codec = aac;
  allow_1080p60 = false;
  device_name = codes "Lab";
  sink_model = codes "castd";
  sink_version = codes "1";
  enable_uibc = false;
  edid = none;
}

caps-IsPlainSetup : IsPlainSetup caps
caps-IsPlainSetup = record {
  device_name = record { plain = refl };
  sink_model = record { plain = refl };
  sink_version = record { plain = refl };
  no_edid = refl;
}

abbrev socket : List Recv → Channel
socket inbound = record { inbound = inbound; buf = []; sent = []; send_fails = λ k. false }

abbrev source : Source
source = record {
  m1 = codes "OPTIONS\r\nCSeq: 1\r\n\r\n";
  m2_response = codes "RTSP/1.0 200 OK\r\n\r\n";
  m3 = codes "CSeq: 2\r\n\r\n";
  m4 = codes "CSeq: 3\r\n\r\n";
  m5 = codes "CSeq: 4\r\n\r\n";
  m6_response = codes "server_port=5\r\nSession: ab\r\n\r\n";
  m7_response = codes "200 OK\r\n\r\n";
}

abbrev answers : Answers
answers = record {
  cseq1 = codes "1";
  cseq3 = codes "2";
  cseq4 = codes "3";
  cseq5 = codes "4";
  port_digits = codes "5";
  session_id = codes "ab";
  server_port = 5;
}

abbrev is_ascii_letter : ℕ → Bool
is_ascii_letter c = leb 97 c && leb c 122

source-IsConforming : IsConforming is_ascii_letter source answers
unfolding Session.frame find? find_content_length content_length_here find_cseq search_for cseq_here
    find_server_port server_port_here find_session session_here int_of_digits Utf8.decode
    Utf8.first_byte contains
source-IsConforming = record {
  framed = (refl, (refl, (refl, (refl, (refl, (refl, (refl, tt)))))));
  numbered1 = refl;
  numbered3 = refl;
  numbered4 = refl;
  numbered5 = refl;
  has_port = refl;
  is_number = refl;
  has_session = refl;
  agrees = refl;
}

ascii_letters-IsWordClass : IsWordClass is_ascii_letter
ascii_letters-IsWordClass c h = ground (arith, h)

-- M1 arrives in two pieces, the second with all of the rest.
abbrev handshake_pieces : List Text
handshake_pieces =
    codes "OPTIONS\r\nCSe"
    ∷ (codes "q: 1\r\n\r\n"
        ++ (source.m2_response
            ++ (source.m3
                ++ (source.m4 ++ (source.m5 ++ (source.m6_response ++ source.m7_response))))))
    ∷ []

-- A keep-alive, and a TEARDOWN that is acknowledged.
abbrev rounds : Rounds
rounds = (codes "GET_PARAMETER\r\nCSeq: 5\r\n\r\n", ok_response (codes "5") crlf ∷ []) ∷ []

abbrev teardown : Text
teardown =
    codes "SET_PARAMETER\r\nCSeq: 6\r\nContent-Length: 28\r\n\r\nwfd_trigger_method: TEARDOWN"

rounds-AreRequests : AreRequests rounds
unfolding Session.frame find? find_content_length content_length_here find_cseq search_for cseq_here
    Utf8.decode Utf8.first_byte contains split is_teardown int_of_digits
rounds-AreRequests =
    ((record { framed = refl; numbered = get_request refl refl (other refl refl done) }, refl), tt)

teardown-IsAnswered : IsAnswered teardown (ok_response (codes "6") crlf ∷ [])
unfolding Session.frame find? find_content_length content_length_here find_cseq search_for cseq_here
    Utf8.decode Utf8.first_byte contains split int_of_digits
teardown-IsAnswered = record {
  framed = refl;
  numbered = set_request refl refl (other refl refl done);
}

is_teardown-teardown : is_teardown (Utf8.decode teardown) ≡ true
unfolding is_teardown Utf8.decode Utf8.first_byte contains
is_teardown-teardown = refl

abbrev streaming_pieces : List Text
streaming_pieces =
    codes "GET_PARAMETER\r\nCSeq: 5\r\n\r\nSET_PARAMETER\r\nCSeq: 6\r\nContent-Length: 28\r\n\r"
    ∷ codes "\nwfd_trigger_method: TEARDOWN"
    ∷ []

abbrev steady_channel : Channel
steady_channel = socket (arriving streaming_pieces (timed_out ∷ []))

run_steady_state_answers_example :
    Finished
      (timed_out ∷ [])
      2
      (agreed_with caps 1028 source answers)
      []
      (ok_response (codes "5") crlf ∷ ok_response (codes "6") crlf ∷ [])
      steady_channel
run_steady_state_answers_example =
    run_steady_state_answers (agreed_with caps 1028 source answers) (timed_out ∷ []) rounds teardown
      (ok_response (codes "6") crlf ∷ []) 2 [] [] steady_channel refl rounds-AreRequests
      teardown-IsAnswered is_teardown-teardown (omega arith)
      (record {
        chunks = streaming_pieces;
        are_chunks = (λ p. cc p, (λ p. cc p, tt));
        inbound = refl;
        bytes = refl;
        told = refl;
        works = refl;
      })

abbrev free : Daemon
free = record {
  arbiter = idle;
  render = record { child = absent; first_frame_seen = false };
  uxplay = some (record { child = alive; expect_exit = false });
  health = idle;
  published = true;
  painted = none;
  footer = none;
  credentials = none;
  control_sock = false;
  render_pipeline_expected = false;
  screen = on_screen;
  takes_ies = true;
}

abbrev session_pieces : List Text
session_pieces = handshake_pieces ++ streaming_pieces

abbrev conversing : Channel
conversing = socket (arriving session_pieces [])

run_source_session-Conducted_example :
    Conducted is_ascii_letter caps 2
      (codes "10.0.0.2")
      (agreed_with caps 1028 source answers)
      []
      (replies caps 1028 (codes "10.0.0.2") source answers
        ++ ok_response (codes "5") crlf ∷ ok_response (codes "6") crlf ∷ [])
      []
      conversing
      free
run_source_session-Conducted_example =
    run_source_session-Conducted is_ascii_letter caps 2 (codes "10.0.0.2") source answers rounds
      teardown (ok_response (codes "6") crlf ∷ []) [] [] [] conversing free
      (record {
        airplay_open = refl;
        discovery = refl;
        reported = refl;
        screen_works = refl;
        bus_takes = refl;
      })
      refl ascii_letters-IsWordClass caps-IsPlainSetup (record { plain = refl }) source-IsConforming
      rounds-AreRequests teardown-IsAnswered is_teardown-teardown (omega arith)
      (record {
        chunks = session_pieces;
        are_chunks = (λ p. cc p, (λ p. cc p, (λ p. cc p, (λ p. cc p, tt))));
        inbound = refl;
        bytes = refl;
        told = refl;
        works = refl;
      })

-- A room with a name that is not ASCII, and a source that asks for the name.
abbrev cafe : Negotiator
cafe = record (Rtsp.new (record caps { device_name = codes "Café" }) 1028) { state = wait_m3 }

cafe-IsPlainSetup : IsPlainSetup (record caps { device_name = codes "Café" })
cafe-IsPlainSetup = record {
  device_name = record { plain = refl };
  sink_model = record { plain = refl };
  sink_version = record { plain = refl };
  no_edid = refl;
}

abbrev name_asked : Text
name_asked = codes "GET_PARAMETER\r\nCSeq: 2\r\n\r\nintel_friendly_name\r\n"

cafe_answers :
    handle_m3_get_parameter cafe name_asked
    ≡ ok (described cafe (codes "2") name_asked, record cafe { state = wait_m4 })
unfolding handle_m3_get_parameter Rtsp.new Rtsp.extract_cseq find_cseq search_for cseq_here
cafe_answers = refl

handle_m3_get_parameter_length_example :
    let body = build_capability_body cafe name_asked in
    ((cseq : Text) × (described cafe (codes "2") name_asked ≡ described cafe cseq name_asked))
    × ((bs : Text) × (Utf8.encode body ≡ some bs) × Measured body bs)
unfolding Rtsp.new
handle_m3_get_parameter_length_example =
    handle_m3_get_parameter_length cafe (record cafe { state = wait_m4 }) name_asked
      (described cafe (codes "2") name_asked) cafe-IsPlainSetup cafe_answers

cafe-IsOneLine : IsOneLine cafe.capabilities
unfolding Rtsp.new
cafe-IsOneLine = record { device_name = refl; sink_model = refl; sink_version = refl }

build_capability_body-Declares_example :
    Declares cafe name_asked (split crlf (build_capability_body cafe name_asked))
build_capability_body-Declares_example =
    build_capability_body-Declares cafe name_asked cafe-IsOneLine
