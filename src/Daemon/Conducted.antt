-- ===== src/Daemon/Conducted.antt =====
-- A whole Miracast session of castd/main.py and castd/wfdsink with a source that keeps to the
-- protocol.
use mathlib.Core.List.{append_assoc}
use miracast_device.Base.{ℕ, ◌≡◌, ◌<◌, refl, Bool, true, List, ◌++◌, some, Text, ok, length, arith}
use miracast_device.Base.Utf8
use miracast_device.Arbiter.{idle}
use miracast_device.Rtsp
use miracast_device.Rtsp.{WfdCapabilities, is_teardown}
use miracast_device.Rtsp.Encodable.{IsPlain, IsWordClass}
use miracast_device.Rtsp.Texts.{IsPlainSetup}
use miracast_device.Session
use miracast_device.Session.{Recv, Channel, returned}
use miracast_device.Session.Turns.{At}
use miracast_device.Session.Handshake.{
  Source, Answers, IsConforming, bytes_of, agreed_with, replies, negotiate_agrees,
}
use miracast_device.Session.KeepAlive.{
  Rounds, messages, acknowledged, AreRequests, IsAnswered, run_steady_state_answers,
}
use miracast_device.Daemon.{
  Daemon, handle_miracast_connected, after_steady_state, run_source_session, ◌>>=◌, pump_if,
}
use miracast_device.Daemon.Consistent.{IsConsistent, bind-ok}
use miracast_device.Daemon.Sessions.{IsStreaming, IsFree, session_starts, session_ends}

-- What a session is to the source and to the room.
pub record Conducted (is_word : ℕ → Bool) (caps : WfdCapabilities) (fuel : ℕ) (ip : Text)
    (n : Rtsp.Negotiator) (unread : Text) (sent : List Text) (rs : List Recv) (c : Channel)
    (d : Daemon) : Type 0 where
  pub agreed : Channel
  pub negotiates : Session.negotiate is_word ip (Rtsp.new caps 1028) c ≡ (ok n, agreed)
  pub streams : IsStreaming (handle_miracast_connected (ok n) (record d { control_sock = true })).1
  pub after : Channel
  pub steady : Session.run_steady_state fuel n agreed ≡ (ok returned, Rtsp.mark_torn_down n, after)
  pub is_at : At rs unread sent after
  pub returns : (run_source_session is_word caps fuel ip c d).0 ≡ ok tt
  pub free : IsFree (run_source_session is_word caps fuel ip c d).1

ends_well : (d : Daemon) → IsStreaming d → (after_steady_state (ok returned) d).0 ≡ ok tt
unfolding after_steady_state
ends_well d h = ground (arith, h)

-- The end of the session on the daemon, once the handshake and the steady state have returned.
room_after :
    (fuel : ℕ) (n n' : Rtsp.Negotiator) (c after : Channel) (d : Daemon)
    → Session.run_steady_state fuel n c ≡ (ok returned, n', after)
    → ((handle_miracast_connected (ok n) d).0 ≡ ok (some n))
      × IsStreaming (handle_miracast_connected (ok n) d).1
    → (((handle_miracast_connected (ok n) >>= pump_if fuel c) d).0 ≡ ok tt)
      × IsFree ((handle_miracast_connected (ok n) >>= pump_if fuel c) d).1
room_after fuel n n' c after d e h =
    let streaming = (handle_miracast_connected (ok n) d).1 in
    rw (bind-ok (handle_miracast_connected (ok n)) (pump_if fuel c) d (some n) h.0, e)
      (ends_well streaming h.1, session_ends (ok returned) streaming h.1 (λ p. cc p))

-- A whole Miracast session, on a consistent daemon that nobody presents on: the source goes through
-- the handshake, sends requests and then a TEARDOWN, its bytes are cut into `recv` results in any
-- way, no send fails, and the fuel is more than the number of requests. `negotiate` returns with
-- the port and session that the source has given, the render pipeline then runs and the arbiter is
-- in the Miracast state; the steady state returns; the source has been sent exactly the answers and
-- requests of the handshake and then the acknowledgements, in their order, as bytes that decode to
-- them; and `_run_source_session` returns with the room free again.
pub run_source_session-Conducted :
    (is_word : ℕ → Bool) (caps : WfdCapabilities) (fuel : ℕ) (ip : Text) (s : Source) (a : Answers)
    (rounds : Rounds) (m : Text) (acks : List Text) (tail : Text) (sent : List Text)
    (rs : List Recv) (c : Channel) (d : Daemon)
    → IsConsistent d
    → d.arbiter ≡ idle
    → IsWordClass is_word
    → IsPlainSetup caps
    → IsPlain ip
    → IsConforming is_word s a
    → AreRequests rounds
    → IsAnswered m acks
    → is_teardown (Utf8.decode m) ≡ true
    → length rounds < fuel
    → At rs (bytes_of s (messages rounds ++ (m ++ tail))) sent c
    → Conducted is_word caps fuel ip
        (agreed_with caps 1028 s a)
        tail
        (sent ++ (replies caps 1028 ip s a ++ (acknowledged rounds ++ acks)))
        rs
        c
        d
unfolding run_source_session
run_source_session-Conducted is_word caps fuel ip s a rounds m acks tail sent rs c d h i words plain
      plain_ip k q e t f l =
    let n = agreed_with caps 1028 s a in
    let g =
      negotiate_agrees is_word words caps 1028 ip s a rs (messages rounds ++ (m ++ tail)) sent c
        plain plain_ip k l in
    let p =
      run_steady_state_answers n rs rounds m acks fuel tail (sent ++ replies caps 1028 ip s a)
        g.after refl q e t f g.is_at in
    let dialled = record d { control_sock = true } in
    let consistent : IsConsistent dialled = ground (arith, h) in
    let started = session_starts n dialled consistent i in
    let room = room_after fuel n _ g.after p.after dialled p.returns started in
    record {
      agreed = g.after;
      negotiates = g.returns;
      streams = started.1;
      after = p.after;
      steady = p.returns;
      is_at = rw append_assoc at p.is_at;
      returns = rw g.returns room.0;
      free = rw g.returns (ground (arith, room.1));
    }
