-- ===== src/Rtsp.antt =====
-- castd/wfdsink/rtsp.py: the sink's side of the WFD handshake M1 to M7.
pub mod Order
pub mod Encodable
pub mod Texts
pub mod BodyLength
pub mod Lines
pub mod Capabilities
use miracast_device.Base.{
  ℕ, ◌+◌, ◌-◌, ◌*◌, ◌/◌, ◌%◌, Bool, true, false, not, ◌||◌, List, [], ◌∷◌, ◌++◌, Option, none, some,
  Text, Result, ok, err, ◌>>=◌, ◌>>◌, length, leb, ltb, ◌==◌, if◌then◌else◌, codes, contains, split,
  join, text_eq, decimal,
}
use miracast_device.Header.{
  find_cseq, find_server_port, find_session, find_uibc_port, int_of_digits,
}

-- The `NegotiationError`s.
pub data NegotiationError : Type 0 where
  unexpected_state no_cseq no_server_port no_session_id no_session_yet : NegotiationError
  not_acknowledged : NegotiationError

-- What the handshake may raise.
pub data Raised : Type 0 where
  negotiation : NegotiationError → Raised
  value_error os_error timeout_error : Raised

pub data Codec : Type 0 where
  lpcm aac : Codec

pub record WfdCapabilities : Type 0 where
  pub audio_codec : Codec
  pub allow_1080p60 : Bool
  pub device_name : Text
  pub sink_model : Text
  pub sink_version : Text
  pub enable_uibc : Bool
  pub edid : Option (List ℕ)

pub data State : Type 0 where
  wait_m1 wait_m3 wait_m4 wait_m5 wait_m6_response wait_m7_response streaming torn_down : State

-- The fields of `WfdSessionParams` that the program writes.
pub record Session : Type 0 where
  pub sink_rtp_port : ℕ
  pub server_port : Option ℕ
  pub session_id : Option Text
  pub uibc_port : Option Text
  pub use_hidc : Bool

pub record Negotiator : Type 0 where
  pub capabilities : WfdCapabilities
  pub session : Session
  pub state : State
  pub own_cseq : ℕ

unfoldable pub new : WfdCapabilities → ℕ → Negotiator
new capabilities sink_rtp_port = record {
  capabilities = capabilities;
  session = record {
    sink_rtp_port = sink_rtp_port;
    server_port = none;
    session_id = none;
    uibc_port = none;
    use_hidc = false;
  };
  state = wait_m1;
  own_cseq = 0;
}

-- A method that raises has changed nothing, so only its result carries the new negotiator.
abbrev pub Step {ℓ} : Type ℓ → Type ℓ
Step A = Result Raised (A × Negotiator)

abbrev found : NegotiationError → Option Text → Result Raised Text
found e none = err (negotiation e)
found e (some t) = ok t

unfoldable pub extract_cseq : Text → Result Raised Text
extract_cseq message = found no_cseq (find_cseq message)

abbrev is_state : State → State → Bool
is_state wait_m1 wait_m1 = true
is_state wait_m3 wait_m3 = true
is_state wait_m4 wait_m4 = true
is_state wait_m5 wait_m5 = true
is_state wait_m6_response wait_m6_response = true
is_state wait_m7_response wait_m7_response = true
is_state streaming streaming = true
is_state torn_down torn_down = true
is_state _ _ = false

abbrev expect : State → Negotiator → Result Raised (Unit {0})
expect s n = if is_state n.state s then ok tt else err (negotiation unexpected_state)

abbrev pub crlf : Text
crlf = codes "\r\n"

abbrev pub blank_line : Text
blank_line = codes "\r\n\r\n"

-- "RTSP/1.0 200 OK", the source's CSeq, and the rest.
abbrev pub ok_response : Text → Text → Text
ok_response cseq rest = codes "RTSP/1.0 200 OK\r\nCSeq: " ++ (cseq ++ (crlf ++ rest))

unfoldable pub handle_m1_options : Negotiator → Text → Step Text
handle_m1_options n request = do
  expect wait_m1 n
  cseq ← extract_cseq request
  ok (
    ok_response cseq (codes "Public: org.wfa.wfd1.0, SET_PARAMETER, GET_PARAMETER\r\n\r\n"),
    record n { state = wait_m3 },
  )

unfoldable pub build_m2_options_request : Negotiator → Text × Negotiator
build_m2_options_request n =
    let cseq = n.own_cseq + 1 in
    (
      codes "OPTIONS * RTSP/1.0\r\nCSeq: "
          ++ (decimal cseq ++ codes "\r\nRequire: org.wfa.wfd1.0\r\n\r\n"),
      record n { own_cseq = cseq },
    )

-- A hexadecimal digit, with the letters starting at `letter`.
abbrev pub hex_digit : ℕ → ℕ → ℕ
hex_digit letter d = if ltb d 10 then 48 + d else letter + (d - 10)

-- `f"{n:04X}"` for `n` below 2 ^ 16.
abbrev hex4 : ℕ → Text
hex4 n =
    hex_digit b'A' (n / 4096 % 16)
    ∷ hex_digit b'A' (n / 256 % 16)
    ∷ hex_digit b'A' (n / 16 % 16)
    ∷ hex_digit b'A' (n % 16)
    ∷ []

-- `bytes.hex()`.
unfoldable pub hex : List ℕ → Text
hex [] = []
hex (b ∷ bs) = hex_digit b'a' (b / 16) ∷ hex_digit b'a' (b % 16) ∷ hex bs

unfoldable pub base_lines : WfdCapabilities → ℕ → List Text
unfolding decimal
base_lines cap sink_rtp_port =
    let native = if cap.allow_1080p60 then codes "40" else codes "38" in
    let video_fmt_mask = if cap.allow_1080p60 then codes "0001FFFF" else codes "00019CFF" in
    (codes "wfd_client_rtp_ports: RTP/AVP/UDP;unicast "
      ++ (decimal sink_rtp_port ++ codes " 0 mode=play"))
    ∷ (codes "wfd_audio_codecs: "
        ++ elim cap.audio_codec [ lpcm ↦ codes "LPCM 00000002 00" | aac ↦ codes "AAC 00000001 00" ])
    ∷ (codes "wfd_video_formats: "
        ++ (native
            ++ (codes " 00 02 10 "
                ++ (video_fmt_mask ++ codes " 00000000 00000000 00 0000 0000 00 none none"))))
    ∷ codes "wfd_3d_video_formats: none"
    ∷ codes "wfd_coupled_sink: none"
    ∷ codes "wfd_connector_type: 05"
    ∷ (codes
          "wfd_uibc_capability: input_category_list=GENERIC, HIDC;generic_cap_list=Keyboard, Mouse;"
        ++ (codes "hidc_cap_list=Keyboard/USB, Mouse/USB;port="
            ++ (if not cap.enable_uibc then codes "none" else codes "7336")))
    ∷ codes "wfd_standby_resume_capability: none"
    ∷ codes "wfd_content_protection: none"
    ∷ []

abbrev pub edid_line : Option (List ℕ) → List Text
edid_line none = []
edid_line (some []) = []
edid_line (some (b ∷ bs)) =
    (codes "wfd_display_edid: "
      ++ (hex4 (length (b ∷ bs) / 256 + 1) ++ (codes " " ++ hex (b ∷ bs))))
    ∷ []

-- The lines for what the request asks about, in the order of the tests.
unfoldable pub asked_lines : WfdCapabilities → Text → List Text
unfolding hex contains
asked_lines cap request =
    let asked = λ (name : Text) (lines : List Text). if contains name request then lines else [] in
    asked (codes "wfd_display_edid") (edid_line cap.edid)
    ++ (asked (codes "intel_friendly_name")
          ((codes "intel_friendly_name: " ++ cap.device_name) ∷ [])
        ++ (asked (codes "intel_sink_manufacturer_name")
              ((codes "intel_sink_manufacturer_name: " ++ cap.device_name) ∷ [])
            ++ (asked (codes "intel_sink_model_name")
                  ((codes "intel_sink_model_name: " ++ cap.sink_model) ∷ [])
                ++ (asked (codes "intel_sink_version")
                      ((codes "intel_sink_version: " ++ cap.sink_version) ∷ [])
                    ++ (asked (codes "intel_sink_device_URL")
                          (codes "intel_sink_device_URL: none" ∷ [])
                        ++ asked (codes "wfd_idr_request_capability")
                            (codes "wfd_idr_request_capability: 1" ∷ []))))))

unfoldable pub build_capability_body : Negotiator → Text → Text
unfolding base_lines asked_lines join
build_capability_body n m3_request =
    join crlf
      (base_lines n.capabilities n.session.sink_rtp_port ++ asked_lines n.capabilities m3_request)
    ++ crlf

unfoldable pub handle_m3_get_parameter : Negotiator → Text → Step Text
handle_m3_get_parameter n request = do
  expect wait_m3 n
  cseq ← extract_cseq request
  let body = build_capability_body n request
  ok (
    ok_response cseq (
        codes "Content-Type: text/parameters\r\nContent-Length: "
        ++ (decimal (length body) ++ (blank_line ++ body))),
    record n { state = wait_m4 },
  )

abbrev with_port : Session → Option Text → Session
with_port s none = s
with_port s (some port) =
    if text_eq port (codes "none") then s else record s { uibc_port = some port; use_hidc = true }

unfoldable pub parse_uibc_entry : Session → Text → Session
unfolding contains text_eq
parse_uibc_entry s entry =
    if contains (codes "wfd_uibc_capability:") entry then with_port s (find_uibc_port entry) else s

-- The loop of `_parse_uibc_port` over the parts of the request.
unfoldable pub parse_uibc_ports : Session → List Text → Session
parse_uibc_ports s [] = s
parse_uibc_ports s (entry ∷ rest) = parse_uibc_ports (parse_uibc_entry s entry) rest

unfoldable pub handle_m4_set_parameter : Negotiator → Text → Step Text
handle_m4_set_parameter n request = do
  expect wait_m4 n
  cseq ← extract_cseq request
  let session = parse_uibc_ports n.session (split blank_line request)
  ok (ok_response cseq crlf, record n { session = session; state = wait_m5 })

unfoldable pub handle_m5_generic : Negotiator → Text → Step Text
handle_m5_generic n request = do
  expect wait_m5 n
  cseq ← extract_cseq request
  ok (ok_response cseq crlf, record n { state = wait_m6_response })

unfoldable pub build_m6_setup_request : Negotiator → Text → Text × Negotiator
build_m6_setup_request n source_ip =
    let cseq = n.own_cseq + 1 in
    (
      codes "SETUP rtsp://"
          ++ (source_ip
              ++ (codes "/wfd1.0/streamid=0 RTSP/1.0\r\nCSeq: "
                  ++ (decimal cseq
                      ++ (codes "\r\nTransport: RTP/AVP/UDP;unicast;client_port="
                          ++ (decimal n.session.sink_rtp_port ++ blank_line))))),
      record n { own_cseq = cseq },
    )

abbrev int_or_raise : Option ℕ → Result Raised ℕ
int_or_raise none = err value_error
int_or_raise (some v) = ok v

unfoldable pub parse_m6_response : (ℕ → Bool) → Negotiator → Text → Result Raised Negotiator
parse_m6_response is_word n response = do
  expect wait_m6_response n
  port ← found no_server_port (find_server_port response)
  session_id ← found no_session_id (find_session is_word response)
  server_port ← int_or_raise (int_of_digits port)
  let session = record n.session { server_port = some server_port; session_id = some session_id }
  ok (record n { session = session; state = wait_m7_response })

abbrev some_session : Option Text → Result Raised Text
some_session none = err (negotiation no_session_yet)
some_session (some t) = ok t

unfoldable pub build_m7_play_request : Negotiator → Text → Step Text
build_m7_play_request n source_ip = do
  session_id ← some_session n.session.session_id
  let cseq = n.own_cseq + 1
  ok (
    codes "PLAY rtsp://"
        ++ (source_ip
            ++ (codes "/wfd1.0/streamid=0 RTSP/1.0\r\nCSeq: "
                ++ (decimal cseq ++ (codes "\r\nSession: " ++ (session_id ++ blank_line))))),
    record n { own_cseq = cseq },
  )

unfoldable pub confirm_streaming : Negotiator → Text → Result Raised Negotiator
confirm_streaming n response = do
  expect wait_m7_response n
  if not (contains (codes "200 OK") response)
      then err (negotiation not_acknowledged)
      else ok (record n { state = streaming })

abbrev is_empty : Text → Bool
is_empty [] = true
is_empty (c ∷ cs) = false

unfoldable pub is_teardown : Text → Bool
unfolding contains
is_teardown message = is_empty message || contains (codes "wfd_trigger_method: TEARDOWN") message

-- The entries that are acknowledged.
unfoldable pub wants_ack : Text → Bool
unfolding contains
wants_ack entry = contains (codes "GET_PARAMETER") entry || contains (codes "SET_PARAMETER") entry

unfoldable pub ack_entries : List Text → Result Raised (List Text)
unfolding wants_ack
ack_entries [] = ok []
ack_entries (entry ∷ rest) =
    let acks = ack_entries rest in
    if wants_ack entry
    then (do cseq ← extract_cseq entry; later ← acks; ok (ok_response cseq crlf ∷ later))
    else acks

unfoldable pub build_steady_state_ack : Negotiator → Text → Result Raised (List Text)
build_steady_state_ack n message = do expect streaming n; ack_entries (split blank_line message)

unfoldable pub mark_torn_down : Negotiator → Negotiator
mark_torn_down n = record n { state = torn_down }
