-- ===== src/Rtsp/Order.antt =====
-- The handshake of castd/wfdsink/rtsp.py as a state machine, whatever is called in whatever order.
use mathlib.Core.List.{append_assoc}
use miracast_device.Base.{
  ℕ, ◌≤◌, ◌≡◌, ◌≢◌, ◌⊎◌, inl, inr, refl, sym, ◌∙◌, ap, Bool, List, [], ◌∷◌, ◌++◌, none, Text, ok,
  err, drop, arith, Result, Result-cases, split,
}
use miracast_device.Rtsp.{
  Negotiator, Raised, State, wait_m1, wait_m3, wait_m4, wait_m5, wait_m6_response, wait_m7_response,
  streaming, torn_down, WfdCapabilities, new, handle_m1_options, build_m2_options_request,
  handle_m3_get_parameter, handle_m4_set_parameter, handle_m5_generic, build_m6_setup_request,
  parse_m6_response, build_m7_play_request, confirm_streaming, build_steady_state_ack,
  parse_uibc_ports, parse_uibc_entry, Session, blank_line, mark_torn_down,
}

-- The six messages that move the handshake on, in the order of the specification.
pub data Message : Type 0 where
  m1 m3 m4 m5 m6_response m7_response : Message

abbrev pub handshake : List Message
handshake = m1 ∷ m3 ∷ m4 ∷ m5 ∷ m6_response ∷ m7_response ∷ []

-- The calls of the negotiator's methods.
pub data Call : Type 0 where
  receive : Message → Text → Call
  m2_request : Call
  m6_request m7_request : (source_ip : Text) → Call
  steady_state : (message : Text) → Call
  tear_down : Call

abbrev pub dropped : Result Raised (Text × Negotiator) → Result Raised Negotiator
dropped (ok (t, n)) = ok n
dropped (err e) = err e

abbrev pub kept : Negotiator → Result Raised (List Text) → Result Raised Negotiator
kept n (ok acks) = ok n
kept n (err e) = err e

unfoldable pub call : (ℕ → Bool) → Negotiator → Call → Result Raised Negotiator
call is_word n (receive m1 t) = dropped (handle_m1_options n t)
call is_word n (receive m3 t) = dropped (handle_m3_get_parameter n t)
call is_word n (receive m4 t) = dropped (handle_m4_set_parameter n t)
call is_word n (receive m5 t) = dropped (handle_m5_generic n t)
call is_word n (receive m6_response t) = parse_m6_response is_word n t
call is_word n (receive m7_response t) = confirm_streaming n t
call is_word n m2_request = ok (build_m2_options_request n).1
call is_word n (m6_request ip) = ok (build_m6_setup_request n ip).1
call is_word n (m7_request ip) = dropped (build_m7_play_request n ip)
call is_word n (steady_state t) = kept n (build_steady_state_ack n t)
call is_word n tear_down = ok (mark_torn_down n)

-- Any sequence of calls; a call that raises leaves the negotiator as it was. The messages that
-- were accepted are collected.
abbrev pub accepted : Call → List Message
accepted (receive m t) = m ∷ []
accepted _ = []

abbrev or_same : Negotiator → Result Raised Negotiator → Negotiator
or_same n (ok n') = n'
or_same n (err e) = n

abbrev noted : Call → Result Raised Negotiator → List Message
noted c (ok n') = accepted c
noted c (err e) = []

unfoldable pub calls : (ℕ → Bool) → Negotiator → List Call → Negotiator × List Message
calls is_word n [] = (n, [])
calls is_word n (c ∷ cs) =
    let r = call is_word n c in
    let (n', ms) = calls is_word (or_same n r) cs in (n', noted c r ++ ms)

-- How many messages of the handshake a state has behind it.
abbrev pub progress : State → ℕ
progress wait_m1 = 0
progress wait_m3 = 1
progress wait_m4 = 2
progress wait_m5 = 3
progress wait_m6_response = 4
progress wait_m7_response = 5
progress streaming = 6
progress torn_down = 7

-- Messages that leave a negotiator torn down.
abbrev TornDown : Negotiator → List Message → Type 0
TornDown n ms = (n.state ≡ torn_down) × (ms ≡ [])

-- One accepted call: the messages still expected lose exactly the one that was accepted, unless the
-- call tears the session down.
call_in_order :
    (is_word : ℕ → Bool) (n n' : Negotiator) (c : Call)
    → call is_word n c ≡ ok n'
    → (drop (progress n.state) handshake ≡ accepted c ++ drop (progress n'.state) handshake)
      ⊎ TornDown n' (accepted c)
unfolding call mark_torn_down handle_m1_options handle_m3_get_parameter handle_m4_set_parameter
    handle_m5_generic parse_m6_response confirm_streaming build_m2_options_request
    build_m6_setup_request build_m7_play_request build_steady_state_ack
call_in_order is_word n n' (receive m1 t) h = inl (ground arith)
call_in_order is_word n n' tear_down h = inr (ground arith, refl)
call_in_order is_word n n' _ h = inl (ground arith)

-- Only a parsed M6 response changes the session's port and identifier, and it gives both.
pub record HasSession (n : Negotiator) : Type 0 where
  pub identified :
      5 ≤ progress n.state
      → n.state ≢ torn_down
      → (n.session.session_id ≢ none) × (n.session.server_port ≢ none)

parse_uibc_entry_keeps :
    (s : Session) (t : Text)
    → ((parse_uibc_entry s t).session_id ≡ s.session_id)
      × ((parse_uibc_entry s t).server_port ≡ s.server_port)
unfolding parse_uibc_entry
parse_uibc_entry_keeps s t = ground arith

parse_uibc_ports_keeps :
    (s : Session) (ts : List Text)
    → ((parse_uibc_ports s ts).session_id ≡ s.session_id)
      × ((parse_uibc_ports s ts).server_port ≡ s.server_port)
unfolding parse_uibc_ports
parse_uibc_ports_keeps s [] = (refl, refl)
parse_uibc_ports_keeps s (t ∷ ts) =
    ground (arith, parse_uibc_entry_keeps s t, parse_uibc_ports_keeps (parse_uibc_entry s t) ts)

call-HasSession :
    (is_word : ℕ → Bool) (n n' : Negotiator) (c : Call)
    → HasSession n
    → call is_word n c ≡ ok n'
    → HasSession n'
unfolding call mark_torn_down handle_m1_options handle_m3_get_parameter handle_m4_set_parameter
    handle_m5_generic parse_m6_response confirm_streaming build_m2_options_request
    build_m6_setup_request build_m7_play_request build_steady_state_ack
call-HasSession is_word n n' (receive m1 t) i h = ground (arith, i.identified)
call-HasSession is_word n n' (receive m4 t) i h =
    ground (arith, i.identified, parse_uibc_ports_keeps n.session (split blank_line t))
call-HasSession is_word n n' (receive m6_response t) i h = ground arith
call-HasSession is_word n n' _ i h = ground (arith, i.identified)

-- One call, whether it raises or not.
step_in_order :
    (is_word : ℕ → Bool) (n : Negotiator) (c : Call)
    → let r = call is_word n c in
      (drop (progress n.state) handshake
        ≡ noted c r ++ drop (progress (or_same n r).state) handshake)
      ⊎ TornDown (or_same n r) (noted c r)
step_in_order is_word n c = elim (Result-cases (call is_word n c)) [
  | inl (n', e) ↦ rw e (call_in_order is_word n n' c e)
  | inr (x, e) ↦ rw e (inl refl)
]

step-HasSession :
    (is_word : ℕ → Bool) (n : Negotiator) (c : Call)
    → HasSession n
    → HasSession (or_same n (call is_word n c))
step-HasSession is_word n c h = elim (Result-cases (call is_word n c)) [
  | inl (n', e) ↦ rw e (call-HasSession is_word n n' c h e)
  | inr (x, e) ↦ rw e h
]

-- Nothing is accepted once the session is torn down.
step_torn_down :
    (is_word : ℕ → Bool) (n : Negotiator) (c : Call)
    → n.state ≡ torn_down
    → TornDown (or_same n (call is_word n c)) (noted c (call is_word n c))
unfolding call mark_torn_down handle_m1_options handle_m3_get_parameter handle_m4_set_parameter
    handle_m5_generic parse_m6_response confirm_streaming build_m2_options_request
    build_m6_setup_request build_m7_play_request build_steady_state_ack
step_torn_down is_word n (receive m1 t) h = ground (arith, h)
step_torn_down is_word n c h = ground (arith, h)

torn_down_stays :
    (is_word : ℕ → Bool) (n : Negotiator) (cs : List Call)
    → n.state ≡ torn_down
    → TornDown (calls is_word n cs).0 (calls is_word n cs).1
unfolding calls
torn_down_stays is_word n [] h = (h, refl)
torn_down_stays is_word n (c ∷ cs) h =
    let (torn, none_now) = step_torn_down is_word n c h in
    let (stays, none_later) = torn_down_stays is_word (or_same n (call is_word n c)) cs torn in
    (stays, rw (none_now, none_later) refl)

-- What the messages that have been accepted leave of those expected before.
abbrev pub Left : List Message → List Message → Negotiator → List Message → Type 0
Left before ms n rest =
    (before ≡ ms ++ rest) × (n.state ≢ torn_down → rest ≡ drop (progress n.state) handshake)

calls_in_order :
    (is_word : ℕ → Bool) (n : Negotiator) (cs : List Call)
    → let (n', ms) = calls is_word n cs in
      (rest : List Message) × Left (drop (progress n.state) handshake) ms n' rest
unfolding calls
calls_in_order is_word n [] = (drop (progress n.state) handshake, (refl, λ h. refl))
calls_in_order is_word n (c ∷ cs) =
    let r = call is_word n c in
    elim (step_in_order is_word n c) [
      | inl e ↦
          let (rest, (whole, left)) = calls_in_order is_word (or_same n r) cs in
          (
            rest,
            (e ∙ ap (λ ms. noted c r ++ ms) whole ∙ sym (append_assoc (noted c r) _ rest), left),
          )
      | inr (torn, none_now) ↦
          let (stays, none_later) = torn_down_stays is_word (or_same n r) cs torn in
          (
            drop (progress n.state) handshake,
            (rw (none_now, none_later) refl, λ h. absurd (h stays)),
          )
    ]

calls-HasSession :
    (is_word : ℕ → Bool) (n : Negotiator) (cs : List Call)
    → HasSession n
    → HasSession (calls is_word n cs).0
unfolding calls
calls-HasSession is_word n [] h = h
calls-HasSession is_word n (c ∷ cs) h =
    calls-HasSession is_word (or_same n (call is_word n c)) cs (step-HasSession is_word n c h)

-- However the methods are called, on whatever texts and with a tear-down at whatever point, the
-- messages that the negotiator has accepted are an initial part of M1, M3, M4, M5, the M6 response
-- and the M7 response in this order, and as long as it is not torn down, those that are left are the
-- ones that its state still has to come.
pub handshake_in_order :
    (is_word : ℕ → Bool) (cap : WfdCapabilities) (port : ℕ) (cs : List Call)
    → let (n, accepted) = calls is_word (new cap port) cs in
      (rest : List Message) × (handshake ≡ accepted ++ rest)
      × (n.state ≢ torn_down → rest ≡ drop (progress n.state) handshake)
unfolding new
handshake_in_order is_word cap port cs =
    let (rest, (whole, left)) = calls_in_order is_word (new cap port) cs in (rest, whole, left)

play-ne-err :
    (n : Negotiator) (source_ip : Text) (x : Raised)
    → n.session.session_id ≢ none
    → build_m7_play_request n source_ip ≢ err x
unfolding build_m7_play_request
play-ne-err n source_ip x h = ground arith

play_ok :
    (n : Negotiator) (source_ip : Text)
    → n.session.session_id ≢ none
    → (t : Text) × (n' : Negotiator) × (build_m7_play_request n source_ip ≡ ok (t, n'))
play_ok n source_ip h = elim (Result-cases (build_m7_play_request n source_ip)) [
  | inl ((t, n'), e) ↦ (t, n', e)
  | inr (x, e) ↦ absurd (play-ne-err n source_ip x h e)
]

-- Once the M6 response has been accepted and before a tear-down, the session has a server port,
-- however the methods were called, and building the PLAY request does not raise.
pub play_after_setup :
    (is_word : ℕ → Bool) (cap : WfdCapabilities) (port : ℕ) (cs : List Call) (source_ip : Text)
    → 5 ≤ progress (calls is_word (new cap port) cs).0.state
    → (calls is_word (new cap port) cs).0.state ≢ torn_down
    → let n = (calls is_word (new cap port) cs).0 in
      (n.session.server_port ≢ none)
      × ((t : Text) × (n' : Negotiator) × (build_m7_play_request n source_ip ≡ ok (t, n')))
play_after_setup is_word cap port cs source_ip h up =
    let i =
      calls-HasSession is_word (new cap port) cs
        (unfold new in record { identified = λ k live. absurd (omega arith) }) in
    let (id, at_port) = i.identified h up in (at_port, play_ok _ source_ip id)
