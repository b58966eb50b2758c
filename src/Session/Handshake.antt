-- ===== src/Session/Handshake.antt =====
-- `negotiate` of castd/wfdsink/session.py with a source that keeps to the protocol.
use miracast_device.Base.{
  ℕ, ◌+◌, ◌≡◌, refl, Bool, true, List, [], ◌∷◌, ◌++◌, some, Text, ok, All, codes, split, contains,
}
use miracast_device.Base.Utf8
use miracast_device.Header.{find_cseq, find_server_port, find_session, int_of_digits}
use miracast_device.Rtsp.{
  WfdCapabilities, Negotiator, new, State, wait_m1, wait_m3, wait_m4, wait_m5, wait_m6_response,
  wait_m7_response, streaming, ok_response, crlf, blank_line, handle_m1_options,
  handle_m3_get_parameter, handle_m4_set_parameter, handle_m5_generic, parse_m6_response,
  build_m2_options_request, build_m6_setup_request, build_m7_play_request, confirm_streaming,
  extract_cseq, parse_uibc_ports,
}
use miracast_device.Rtsp.Encodable.{IsPlain, IsWordClass, find_cseq-IsPlain, find_session-IsPlain}
use miracast_device.Rtsp.Texts.{
  IsPlainSetup, ok_response-IsPlain, described, described-IsPlain, options-IsPlain, setup-IsPlain,
  play, play-IsPlain,
}
use miracast_device.Session.{Recv, Channel, negotiate, next_message, send, lift, ◌>>=◌, ◌>>◌}
use miracast_device.Session.Chunks.{IsMessage}
use miracast_device.Session.Turns.{
  At, Gives, just, chain, reads, says, answers, appended, appended_lem,
}

-- The seven messages of a source, as bytes.
pub record Source : Type 0 where
  pub m1 : Text
  pub m2_response : Text
  pub m3 : Text
  pub m4 : Text
  pub m5 : Text
  pub m6_response : Text
  pub m7_response : Text

-- What the sink takes from them.
pub record Answers : Type 0 where
  pub cseq1 : Text
  pub cseq3 : Text
  pub cseq4 : Text
  pub cseq5 : Text
  pub port_digits : Text
  pub session_id : Text
  pub server_port : ℕ

-- The messages in their order, and what comes after them.
abbrev pub bytes_of : Source → Text → Text
bytes_of s tail =
    s.m1
    ++ (s.m2_response ++ (s.m3 ++ (s.m4 ++ (s.m5 ++ (s.m6_response ++ (s.m7_response ++ tail))))))

-- Seven whole messages: the four requests are numbered, the answer to SETUP has a port and a
-- session, and the answer to PLAY agrees.
pub record IsConforming (is_word : ℕ → Bool) (s : Source) (a : Answers) : Type 0 where
  pub framed :
      All IsMessage (s.m1 ∷ s.m2_response ∷ s.m3 ∷ s.m4 ∷ s.m5 ∷ s.m6_response ∷ s.m7_response ∷ [])
  pub numbered1 : find_cseq (Utf8.decode s.m1) ≡ some a.cseq1
  pub numbered3 : find_cseq (Utf8.decode s.m3) ≡ some a.cseq3
  pub numbered4 : find_cseq (Utf8.decode s.m4) ≡ some a.cseq4
  pub numbered5 : find_cseq (Utf8.decode s.m5) ≡ some a.cseq5
  pub has_port : find_server_port (Utf8.decode s.m6_response) ≡ some a.port_digits
  pub is_number : int_of_digits a.port_digits ≡ some a.server_port
  pub has_session : find_session is_word (Utf8.decode s.m6_response) ≡ some a.session_id
  pub agrees : contains (codes "200 OK") (Utf8.decode s.m7_response) ≡ true

abbrev in_state : State → Negotiator → Negotiator
in_state st n = record n { state = st }

-- The session of a negotiator after M4.
abbrev with_uibc : Negotiator → Text → Negotiator
with_uibc n m4 = record n { session = parse_uibc_ports n.session (split blank_line m4) }

abbrev with_session : Negotiator → Answers → Negotiator
with_session n a = record n {
  session = record n.session { server_port = some a.server_port; session_id = some a.session_id };
}

m1_answered :
    (n : Negotiator) (t cseq : Text)
    → n.state ≡ wait_m1
    → find_cseq t ≡ some cseq
    → handle_m1_options n t
      ≡ ok (
        ok_response cseq (codes "Public: org.wfa.wfd1.0, SET_PARAMETER, GET_PARAMETER\r\n\r\n"),
        in_state wait_m3 n,
      )
unfolding handle_m1_options extract_cseq
m1_answered n t cseq h e = rw (h, e) refl

m3_answered :
    (n : Negotiator) (t cseq : Text)
    → n.state ≡ wait_m3
    → find_cseq t ≡ some cseq
    → handle_m3_get_parameter n t ≡ ok (described n cseq t, in_state wait_m4 n)
unfolding handle_m3_get_parameter extract_cseq
m3_answered n t cseq h e = rw (h, e) refl

m4_answered :
    (n : Negotiator) (t cseq : Text)
    → n.state ≡ wait_m4
    → find_cseq t ≡ some cseq
    → handle_m4_set_parameter n t ≡ ok (ok_response cseq crlf, in_state wait_m5 (with_uibc n t))
unfolding handle_m4_set_parameter extract_cseq
m4_answered n t cseq h e = rw (h, e) refl

m5_answered :
    (n : Negotiator) (t cseq : Text)
    → n.state ≡ wait_m5
    → find_cseq t ≡ some cseq
    → handle_m5_generic n t ≡ ok (ok_response cseq crlf, in_state wait_m6_response n)
unfolding handle_m5_generic extract_cseq
m5_answered n t cseq h e = rw (h, e) refl

m6_parsed :
    (is_word : ℕ → Bool) (n : Negotiator) (t : Text) (a : Answers)
    → n.state ≡ wait_m6_response
    → find_server_port t ≡ some a.port_digits
    → int_of_digits a.port_digits ≡ some a.server_port
    → find_session is_word t ≡ some a.session_id
    → parse_m6_response is_word n t ≡ ok (in_state wait_m7_response (with_session n a))
unfolding parse_m6_response
m6_parsed is_word n t a h e k l = rw (h, e, l, k) refl

m7_built :
    (n : Negotiator) (ip session_id : Text)
    → n.session.session_id ≡ some session_id
    → build_m7_play_request n ip
      ≡ ok (play ip (n.own_cseq + 1) session_id, record n { own_cseq = n.own_cseq + 1 })
unfolding build_m7_play_request
m7_built n ip session_id e = rw e refl

m7_confirmed :
    (n : Negotiator) (t : Text)
    → n.state ≡ wait_m7_response
    → contains (codes "200 OK") t ≡ true
    → confirm_streaming n t ≡ ok (in_state streaming n)
unfolding confirm_streaming
m7_confirmed n t h e = rw (h, e) refl

-- The negotiator when the source's M5 has been answered, and at the end.
abbrev asked : WfdCapabilities → ℕ → Negotiator
asked caps port = in_state wait_m3 (record (new caps port) { own_cseq = 1 })

abbrev told : WfdCapabilities → ℕ → Source → Negotiator
told caps port s = in_state wait_m6_response (with_uibc (asked caps port) (Utf8.decode s.m4))

abbrev pub agreed_with : WfdCapabilities → ℕ → Source → Answers → Negotiator
agreed_with caps port s a = record (in_state streaming (with_session (told caps port s) a)) {
  own_cseq = 3;
}

-- What answers M1.
abbrev public : Text
public = codes "Public: org.wfa.wfd1.0, SET_PARAMETER, GET_PARAMETER\r\n\r\n"

-- What the sink sends: three requests of its own, and the answers.
abbrev pub replies : WfdCapabilities → ℕ → Text → Source → Answers → List Text
replies caps port ip s a =
    ok_response a.cseq1 public
    ∷ (build_m2_options_request (new caps port)).0
    ∷ described (asked caps port) a.cseq3 (Utf8.decode s.m3)
    ∷ ok_response a.cseq4 crlf
    ∷ ok_response a.cseq5 crlf
    ∷ (build_m6_setup_request (told caps port s) ip).0
    ∷ play ip 3 a.session_id
    ∷ []

module _ (is_word : ℕ → Bool) (words : IsWordClass is_word) (caps : WfdCapabilities) (port : ℕ)
    (ip : Text) (s : Source) (a : Answers) (rs : List Recv) (tail : Text) where
  in_turn :
      (sent : List Text) (c : Channel)
      → IsPlainSetup caps
      → IsPlain ip
      → IsConforming is_word s a
      → At rs (bytes_of s tail) sent c
      → Gives rs
          (negotiate is_word ip (new caps port))
          (agreed_with caps port s a)
          tail
          (appended sent (replies caps port ip s a))
          c
  unfolding negotiate new build_m2_options_request build_m6_setup_request build_m7_play_request
  in_turn sent c plain plain_ip k at =
      let m3 = Utf8.decode s.m3 in
      let m4 = Utf8.decode s.m4 in
      let m5 = Utf8.decode s.m5 in
      let m7_response = Utf8.decode s.m7_response in
      let cseq1 = find_cseq-IsPlain (Utf8.decode s.m1) a.cseq1 k.numbered1 in
      let cseq3 = find_cseq-IsPlain m3 a.cseq3 k.numbered3 in
      let cseq4 = find_cseq-IsPlain m4 a.cseq4 k.numbered4 in
      let cseq5 = find_cseq-IsPlain m5 a.cseq5 k.numbered5 in
      let id =
        find_session-IsPlain is_word words (Utf8.decode s.m6_response) a.session_id k.has_session in
      let n = asked caps port in
      let n5 = told caps port s in
      let n6 = in_state wait_m7_response (with_session n5 a) in
      let n7 = record n6 { own_cseq = 3 } in
      let framed = k.framed.1 in
      let requests = k.framed.1.1.1 in
      let responses = requests.1.1 in
      answers rs _ _ s.m1 _ _ k.framed.0 (m1_answered (new caps port) _ a.cseq1 refl k.numbered1)
        (ok_response-IsPlain a.cseq1 public cseq1 refl) at
        λ c h.
          chain rs _ _ (says rs _ c (options-IsPlain (in_state wait_m3 (new caps port))) h) λ c h.
            chain rs _ _ (reads rs s.m2_response c framed.0 h) λ c h.
              answers rs _ _ s.m3 _ _ framed.1.0 (m3_answered n m3 a.cseq3 refl k.numbered3)
                (described-IsPlain n a.cseq3 m3 plain cseq3) h
                λ c h.
                  answers rs _ _ s.m4 _ _ requests.0
                    (m4_answered (in_state wait_m4 n) m4 a.cseq4 refl k.numbered4)
                    (ok_response-IsPlain a.cseq4 crlf cseq4 refl) h
                    λ c h.
                      answers rs _ _ s.m5 _ _ requests.1.0
                        (m5_answered (in_state wait_m5 n5) m5 a.cseq5 refl k.numbered5)
                        (ok_response-IsPlain a.cseq5 crlf cseq5 refl) h
                        λ c h. chain rs _ _ (says rs _ c (setup-IsPlain n5 ip plain_ip) h) λ c h.
                          chain rs _ _ (reads rs s.m6_response c responses.0 h) λ c h.
                            chain rs _ _
                              (just rs _ _ c
                                (m6_parsed is_word (record n5 { own_cseq = 2 }) _ a refl k.has_port
                                  k.is_number k.has_session)
                                h)
                              λ c h.
                                chain rs _
                                  (λ r.
                                    send r.0
                                    >> (next_message >>= λ t. lift (confirm_streaming r.1 t)))
                                  (just rs _ _ c
                                    (m7_built (record n6 { own_cseq = 2 }) ip a.session_id refl) h)
                                  λ c h.
                                    chain rs _
                                      (λ _. next_message >>= λ t. lift (confirm_streaming n7 t))
                                      (says rs _ c (play-IsPlain ip 3 a.session_id plain_ip id) h)
                                      λ c h.
                                        chain rs _ (λ t. lift (confirm_streaming n7 t))
                                          (reads rs s.m7_response c responses.1.0 h)
                                          λ c h.
                                            just rs _ _ c
                                              (m7_confirmed n7 m7_response refl k.agrees) h

  -- A source that keeps to the protocol, however its bytes are cut into `recv` results, and no send
  -- that fails: `negotiate` returns, the negotiator streams with the port and the session that the
  -- source has given and the UIBC port of its M4, the source has been sent exactly the answers and
  -- requests that it is to get, in their order, as bytes that decode to them, and what it has sent
  -- after the handshake is still to be read.
  pub negotiate_agrees :
      (sent : List Text) (c : Channel)
      → IsPlainSetup caps
      → IsPlain ip
      → IsConforming is_word s a
      → At rs (bytes_of s tail) sent c
      → Gives rs
          (negotiate is_word ip (new caps port))
          (agreed_with caps port s a)
          tail
          (sent ++ replies caps port ip s a)
          c
  negotiate_agrees sent c plain plain_ip k at =
      rw (← appended_lem sent (replies caps port ip s a)) (in_turn sent c plain plain_ip k at)
