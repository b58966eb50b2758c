-- ===== src/Session.antt =====
-- castd/wfdsink/session.py: the message reader, the handshake over a socket, the steady state and
-- the dialling of the source. A socket is the list of what its `recv` calls will give.
pub mod Framing
mod Rounds
pub mod Chunks
pub mod Steady
pub mod Dial
pub mod Agreed
pub mod Turns
pub mod Handshake
pub mod KeepAlive
mod Headers
mod Requests
pub mod Responses
pub mod Standard
pub mod Upkeep
pub use miracast_device.Base.Steps.{◌>>=◌, ◌>>◌}
use miracast_device.Base.{
  ℕ, zero, suc, ◌+◌, Bool, true, false, ◌≡◌, refl, List, [], ◌∷◌, ◌++◌, Option, none, some, Text,
  Result, ok, err, length, take, drop, leb, if◌then◌else◌, codes, find?, map,
}
use miracast_device.Base.Utf8
use miracast_device.Header.{find_content_length, int_of_digits}
use miracast_device.Rtsp
use miracast_device.Rtsp.{Negotiator, Raised, value_error, os_error, timeout_error, blank_line}

-- One result of `recv`: bytes (none of them when the peer has closed), a timeout, or an error.
pub data Recv : Type 0 where
  chunk : Text → Recv
  timed_out failed : Recv

unfoldable pub content_length : Text → Result Raised ℕ
unfolding int_of_digits
content_length header = elim (find_content_length header) [
  | none ↦ ok 0
  | some t ↦ elim (int_of_digits t) [ none ↦ err value_error | some n ↦ ok n ]
]

-- The first `total` bytes of the buffer and what follows them, if they are there.
unfoldable pub cut_at : Text → ℕ → Result Raised (Option (Text × Text))
cut_at buf total =
    if leb total (length buf) then ok (some (take total buf, drop total buf)) else ok none

unfoldable pub cut_by : Text → ℕ → Result Raised ℕ → Result Raised (Option (Text × Text))
unfolding cut_at
cut_by buf head_end (err e) = err e
cut_by buf head_end (ok n) = cut_at buf (head_end + 4 + n)

-- The first message in the buffer and what follows it, once the end of the header is known.
unfoldable pub cut : Text → ℕ → Result Raised (Option (Text × Text))
unfolding cut_by
cut buf head_end = cut_by buf head_end (content_length (take (head_end + 4) buf))

unfoldable pub frame : Text → Result Raised (Option (Text × Text))
unfolding cut content_length
frame buf = elim (find? blank_line buf) [ none ↦ ok none | some head_end ↦ cut buf head_end ]

-- What `next_message` leaves: the message or what was raised, the buffer, and the socket.
pub record Read : Type 0 where
  pub result : Result Raised Text
  pub buf : Text
  pub inbound : List Recv

abbrev pub reading : Result Raised Text → Text → List Recv → Read
reading r b rs = record { result = r; buf = b; inbound = rs }

-- The loop of `next_message`, without the decoding. A list that has run out is a closed peer.
unfoldable pub next_bytes : Text → List Recv → Read
unfolding frame
next_bytes buf [] = elim (frame buf) [
  | err e ↦ reading (err e) buf []
  | ok (some (message, rest)) ↦ reading (ok message) rest []
  | ok none ↦ reading (ok buf) [] []
]
next_bytes buf (r ∷ rs) = elim (frame buf) [
  | err e ↦ reading (err e) buf (r ∷ rs)
  | ok (some (message, rest)) ↦ reading (ok message) rest (r ∷ rs)
  | ok none ↦ elim r [
    | timed_out ↦ reading (err timeout_error) buf rs
    | failed ↦ reading (err os_error) buf rs
    | chunk [] ↦ reading (ok buf) [] rs
    | chunk (c ∷ cs) ↦ next_bytes (buf ++ c ∷ cs) rs
  ]
]

-- A connected socket with its reader: `send_fails k` says that the send after `k` others raises.
pub record Channel : Type 0 where
  pub inbound : List Recv
  pub buf : Text
  pub sent : List Text
  pub send_fails : ℕ → Bool

-- Code that uses the channel and may raise.
abbrev pub Io {ℓ} : Type ℓ → Type ℓ
Io A = Channel → Result Raised A × Channel

abbrev pub lift {ℓ} : {A : Type ℓ} → Result Raised A → Io A
lift r c = (r, c)

abbrev decoded : Result Raised Text → Result Raised Text
decoded (ok bs) = ok (Utf8.decode bs)
decoded (err e) = err e

unfoldable pub next_message : Io Text
unfolding next_bytes
next_message c =
    let r = next_bytes c.buf c.inbound in
    (decoded r.result, record c { buf = r.buf; inbound = r.inbound })

-- `sock.sendall(text.encode())`; what cannot be encoded raises a `ValueError`.
abbrev send_bytes : Option Text → Io (Unit {0})
send_bytes none c = (err value_error, c)
send_bytes (some bs) c =
    if c.send_fails (length c.sent)
    then (err os_error, c)
    else (ok tt, record c { sent = c.sent ++ bs ∷ [] })

unfoldable pub send : Text → Io (Unit {0})
send t = send_bytes (Utf8.encode t)

-- `negotiate`: the negotiator after M7.
unfoldable pub negotiate : (ℕ → Bool) → Text → Negotiator → Io Negotiator
negotiate is_word source_ip n0 = do
  m1 ← next_message
  (response, n1) ← lift (Rtsp.handle_m1_options n0 m1)
  send response
  let m2 = Rtsp.build_m2_options_request n1
  send m2.0
  m2_response ← next_message
  m3 ← next_message
  (response, n3) ← lift (Rtsp.handle_m3_get_parameter m2.1 m3)
  send response
  m4 ← next_message
  (response, n4) ← lift (Rtsp.handle_m4_set_parameter n3 m4)
  send response
  m5 ← next_message
  (response, n5) ← lift (Rtsp.handle_m5_generic n4 m5)
  send response
  let m6 = Rtsp.build_m6_setup_request n5 source_ip
  send m6.0
  m6_response ← next_message
  n6 ← lift (Rtsp.parse_m6_response is_word m6.1 m6_response)
  (m7, n7) ← lift (Rtsp.build_m7_play_request n6 source_ip)
  send m7
  m7_response ← next_message
  lift (Rtsp.confirm_streaming n7 m7_response)

unfoldable pub send_all : List Text → Io (Unit {0})
send_all [] = lift (ok tt)
send_all (t ∷ ts) = do send t; send_all ts

-- `if message: for ack in ...: sock.sendall(...)`.
unfoldable pub acknowledge : Negotiator → Text → Io (Unit {0})
acknowledge n [] = lift (ok tt)
acknowledge n (c ∷ cs) = do acks ← lift (Rtsp.build_steady_state_ack n (c ∷ cs)); send_all acks

-- How the loop ends: by its own `return`, or, in the model alone, out of fuel.
pub data Ended : Type 0 where
  returned out_of_fuel : Ended

-- The end of a round, after the acknowledgements; `again` is the next round.
unfoldable pub on_sent :
    (Channel → Result Raised Ended × Channel)
    → Text
    → Result Raised (Unit {0})
    → Channel
    → Result Raised Ended × Channel
on_sent again message (err e) c = (err e, c)
on_sent again message (ok _) c = if Rtsp.is_teardown message then (ok returned, c) else again c

-- A round after its `next_message`. A timeout or an error of `recv` ends the loop, all else is
-- raised.
unfoldable pub on_read :
    (Channel → Result Raised Ended × Channel)
    → Negotiator
    → Result Raised Text
    → Channel
    → Result Raised Ended × Channel
unfolding on_sent
on_read again n (err timeout_error) c = (ok returned, c)
on_read again n (err os_error) c = (ok returned, c)
on_read again n (err e) c = (err e, c)
on_read again n (ok message) c =
    let (sent, c') = acknowledge n message c in on_sent again message sent c'

-- The loop of `run_steady_state`.
unfoldable pub pump : ℕ → Negotiator → Io Ended
unfolding on_read
pump zero n c = (ok out_of_fuel, c)
pump (suc fuel) n c = let (r, c') = next_message c in on_read (pump fuel n) n r c'

-- `finally: negotiator.mark_torn_down()`.
unfoldable pub run_steady_state :
    ℕ → Negotiator → Channel → Result Raised Ended × Negotiator × Channel
run_steady_state fuel n c = let (r, c') = pump fuel n c in (r, Rtsp.mark_torn_down n, c')

-- The loop of `open_control_connection`: `connects k` says whether attempt `k` succeeds. The
-- result is the attempt whose socket is returned, or the last `OSError`.
unfoldable pub dial : ℕ → (ℕ → Bool) → ℕ → Result Raised ℕ
dial zero connects k = err os_error
dial (suc attempts) connects k = elim (connects k) [
  | true ↦ ok k
  | false ↦ dial attempts connects (k + 1)
]

unfoldable pub open_control_connection : ℕ → (ℕ → Bool) → Result Raised ℕ
unfolding dial
open_control_connection attempts connects = dial attempts connects 0

-- A listening socket, with the option that its address can be used again at once.
pub record Listener : Type 0 where
  pub bind_ip : Text
  pub port : ℕ
  pub backlog : ℕ
  pub reuse_address : Bool

abbrev pub listener : Text → ℕ → ℕ → Listener
listener bind_ip port backlog = record {
  bind_ip = bind_ip;
  port = port;
  backlog = backlog;
  reuse_address = true;
}

-- `listen_for_sources`: `binds` says whether `bind` and `listen` succeed.
unfoldable pub listen_for_sources :
    (Listener → Bool) → (bind_ip : Text) → (port : ℕ) → (backlog : ℕ) → Result Raised Listener
listen_for_sources binds bind_ip port backlog =
    let sock = listener bind_ip port backlog in if binds sock then ok sock else err os_error
