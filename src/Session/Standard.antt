-- ===== src/Session/Standard.antt =====
-- A source that writes its messages the way the WFD standard does, against wfdsink/session.py and
-- wfdsink/rtsp.py of castd.
use mathlib.Core.List.{append-nil}
use miracast_device.Base.{
  ℕ, ◌<◌, ◌≡◌, refl, ap, ◌∙◌, Bool, true, ◌++◌, Text, length, codes, arith, decimal, search_for,
  contains, after_prefix, starts_with,
}
use miracast_device.Base.Utf8.{decode-ascii}
use miracast_device.Header.{
  find_cseq, find_server_port, find_session, find_content_length, content_length_here,
}
use miracast_device.Header.Numbers.{int_of_digits-decimal}
use miracast_device.Session.Requests.{
  is_ascii, request, request-IsMessage, request-cseq, request-ascii,
}
use miracast_device.Session.Handshake.{Source, Answers, IsConforming}
use miracast_device.Session.Responses.{
  short, short_header, short-IsMessage, short-cseq, short-ascii, options, get_parameter,
  set_parameter, ok_line, options-IsPassed, get_parameter-IsPassed, set_parameter-IsPassed,
  ok_line-IsPassed, setup_response, KnowsDigits, port_found, session_found, setup-IsMessage,
  setup-ascii,
}

-- What such a source chooses: its numbers, the parameters it asks for in M3, those it sets in M4, and
-- the port and the number of the session.
pub record Script : Type 0 where
  pub k1 : ℕ
  pub k2 : ℕ
  pub k3 : ℕ
  pub k4 : ℕ
  pub k5 : ℕ
  pub k6 : ℕ
  pub k7 : ℕ
  pub asks : Text
  pub chosen : Text
  pub port : ℕ
  pub id : ℕ

abbrev pub methods : Text
methods = codes "Public: org.wfa.wfd1.0, SETUP, TEARDOWN, PLAY, PAUSE, GET_PARAMETER, SET_PARAMETER"

abbrev pub trigger : Text
trigger = codes "wfd_trigger_method: SETUP\r\n"

abbrev pub standard : Script → Source
standard s = record {
  m1 = short options s.k1 (codes "Require: org.wfa.wfd1.0");
  m2_response = short ok_line s.k2 methods;
  m3 = request get_parameter s.k3 s.asks;
  m4 = request set_parameter s.k4 s.chosen;
  m5 = request set_parameter s.k5 trigger;
  m6_response = setup_response s.k6 s.port s.id;
  m7_response = short ok_line s.k7 (codes "Server: source");
}

abbrev pub given : Script → Answers
given s = record {
  cseq1 = decimal s.k1;
  cseq3 = decimal s.k3;
  cseq4 = decimal s.k4;
  cseq5 = decimal s.k5;
  port_digits = decimal s.port;
  session_id = decimal s.id;
  server_port = s.port;
}

-- The bodies are ASCII and shorter than 100,000 characters, and the port is one.
pub record IsScript (s : Script) : Type 0 where
  pub asks_ascii : is_ascii s.asks ≡ true
  pub chosen_ascii : is_ascii s.chosen ≡ true
  pub asks_short : length s.asks < 100000
  pub chosen_short : length s.chosen < 100000
  pub is_port : s.port < 65536

status_agrees : (r : Text) → contains (codes "200 OK") (ok_line ++ r) ≡ true
unfolding contains starts_with
status_agrees r = refl

pub standard-IsConforming :
    (is_word : ℕ → Bool) (s : Script)
    → KnowsDigits is_word
    → IsScript s
    → IsConforming is_word (standard s) (given s)
unfolding find_content_length search_for content_length_here after_prefix
standard-IsConforming is_word s knows h =
    let m1 = short-ascii options (codes "Require: org.wfa.wfd1.0") options-IsPassed s.k1 refl in
    let m3 = request-ascii get_parameter get_parameter-IsPassed s.k3 s.asks h.asks_ascii in
    let m4 = request-ascii set_parameter set_parameter-IsPassed s.k4 s.chosen h.chosen_ascii in
    let m5 = request-ascii set_parameter set_parameter-IsPassed s.k5 trigger refl in
    let m6 = setup-ascii s.k6 s.port s.id in
    let m7 = short-ascii ok_line (codes "Server: source") ok_line-IsPassed s.k7 refl in
    record {
      framed = (
        short-IsMessage options _ options-IsPassed s.k1 refl refl,
        (
          short-IsMessage ok_line _ ok_line-IsPassed s.k2 refl refl,
          (
            request-IsMessage get_parameter get_parameter-IsPassed s.k3 s.asks h.asks_short,
            (
              request-IsMessage set_parameter set_parameter-IsPassed s.k4 s.chosen h.chosen_short,
              (
                request-IsMessage set_parameter set_parameter-IsPassed s.k5 trigger (omega arith),
                (
                  setup-IsMessage s.k6 s.port s.id,
                  (short-IsMessage ok_line _ ok_line-IsPassed s.k7 refl refl, tt),
                ),
              ),
            ),
          ),
        ),
      );
      numbered1 = ap find_cseq (decode-ascii _ m1) ∙ short-cseq options _ options-IsPassed s.k1;
      numbered3 =
          ap find_cseq (decode-ascii _ m3)
          ∙ request-cseq get_parameter get_parameter-IsPassed s.k3 s.asks;
      numbered4 =
          ap find_cseq (decode-ascii _ m4)
          ∙ request-cseq set_parameter set_parameter-IsPassed s.k4 s.chosen;
      numbered5 =
          ap find_cseq (decode-ascii _ m5)
          ∙ request-cseq set_parameter set_parameter-IsPassed s.k5 trigger;
      has_port = ap find_server_port (decode-ascii _ m6) ∙ port_found s.k6 s.port s.id;
      is_number = int_of_digits-decimal s.port (omega (arith, h.is_port));
      has_session =
          ap (find_session is_word) (decode-ascii _ m6)
          ∙ session_found s.k6 s.port s.id is_word knows;
      agrees =
          ap (contains (codes "200 OK")) (decode-ascii _ m7)
          ∙ ap (contains (codes "200 OK"))
              (append-nil _ ∙ short_header ok_line (codes "Server: source") ok_line-IsPassed s.k7)
          ∙ status_agrees _;
    }
