-- ===== src/Session/Agreed.antt =====
-- The handshake of castd/wfdsink/session.py ends in the streaming state.
use miracast_device.Base.{ℕ, ◌≡◌, ◌≢◌, ◌∙◌, Bool, none, Text, ok, Result-cases, inl, inr, arith}
use miracast_device.Rtsp
use miracast_device.Rtsp.{
  Negotiator, Raised, streaming, parse_m6_response, build_m7_play_request, confirm_streaming,
}
use miracast_device.Session.{Channel, Io, negotiate, next_message, send, ◌>>=◌, lift}

-- Code that returns has run its first part, and then the rest.
after :
    {A B P : Type 0} (m : Io A) (f : A → Io B) (c : Channel) (b : B)
    → ((a : A) (d : Channel) → (m c).0 ≡ ok a → (f a d).0 ≡ ok b → P)
    → ((m >>= f) c).0 ≡ ok b
    → P
after m f c b h k = elim (Result-cases (m c).0) [
  | inl (a, e) ↦ h a (m c).1 e (rw e at k)
  | inr (y, e) ↦ cc (rw e at k)
]

-- A negotiator that streams, with the parameters of its session.
pub record IsAgreed (n : Negotiator) : Type 0 where
  pub streams : n.state ≡ streaming
  pub identified : n.session.session_id ≢ none
  pub has_port : n.session.server_port ≢ none

parsed :
    (is_word : ℕ → Bool) (n n' : Negotiator) (t : Text)
    → parse_m6_response is_word n t ≡ ok n'
    → (n'.session.session_id ≢ none) × (n'.session.server_port ≢ none)
unfolding parse_m6_response
parsed is_word n n' t h = ground arith

played :
    (n n' : Negotiator) (ip t : Text)
    → build_m7_play_request n ip ≡ ok (t, n')
    → n'.session ≡ n.session
unfolding build_m7_play_request
played n n' ip t h = ground arith

confirmed :
    (n n' : Negotiator) (t : Text)
    → confirm_streaming n t ≡ ok n'
    → (n'.state ≡ streaming) × (n'.session ≡ n.session)
unfolding confirm_streaming
confirmed n n' t h = ground arith

last_three :
    (is_word : ℕ → Bool) (n5 n6 n7 n : Negotiator) (m6 m7 m7_response ip : Text)
    → parse_m6_response is_word n5 m6 ≡ ok n6
    → build_m7_play_request n6 ip ≡ ok (m7, n7)
    → confirm_streaming n7 m7_response ≡ ok n
    → IsAgreed n
last_three is_word n5 n6 n7 n m6 m7 m7_response ip h k l =
    let p = parsed is_word n5 n6 m6 h in
    let c = confirmed n7 n m7_response l in
    let same : n.session ≡ n6.session = c.1 ∙ played n6 n7 ip m7 k in
    record { streams = c.0; identified = rw same (p.0); has_port = rw same (p.1) }

-- When the handshake returns, whatever the source has sent: the negotiator is streaming, and its
-- session has an identifier and a server port.
pub negotiate-IsAgreed :
    (is_word : ℕ → Bool) (source_ip : Text) (n0 n : Negotiator) (c : Channel)
    → (negotiate is_word source_ip n0 c).0 ≡ ok n
    → IsAgreed n
unfolding negotiate
negotiate-IsAgreed is_word ip n0 n c = after next_message _ c n λ m1 c _.
    after (lift (Rtsp.handle_m1_options n0 m1)) _ c n λ r1 c _. after (send r1.0) _ c n λ _ c _.
      after (send (Rtsp.build_m2_options_request r1.1).0) _ c n λ _ c _.
        after next_message _ c n λ _ c _. after next_message _ c n λ m3 c _.
          after (lift (Rtsp.handle_m3_get_parameter (Rtsp.build_m2_options_request r1.1).1 m3)) _ c
            n
            λ r3 c _. after (send r3.0) _ c n λ _ c _. after next_message _ c n λ m4 c _.
              after (lift (Rtsp.handle_m4_set_parameter r3.1 m4)) _ c n λ r4 c _.
                after (send r4.0) _ c n λ _ c _. after next_message _ c n λ m5 c _.
                  after (lift (Rtsp.handle_m5_generic r4.1 m5)) _ c n λ r5 c _.
                    after (send r5.0) _ c n λ _ c _.
                      after (send (Rtsp.build_m6_setup_request r5.1 ip).0) _ c n λ _ c _.
                        after next_message _ c n λ m6 c _.
                          after
                            (lift (
                              parse_m6_response is_word (Rtsp.build_m6_setup_request r5.1 ip).1 m6))
                            _ c n
                            λ n6 c h. after (lift (build_m7_play_request n6 ip)) _ c n λ r7 c k.
                              after (send r7.0) _ c n λ _ c _.
                                after next_message _ c n
                                  λ m7 c _ l. last_three is_word _ n6 r7.1 n m6 r7.0 m7 ip h k l
