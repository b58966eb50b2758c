-- ===== src/Session/Steady.antt =====
-- The steady state of castd/wfdsink/session.py ends: every round of the loop uses up input.
use miracast_device.Base.{
  ℕ, zero, suc, ◌+◌, ◌≤◌, ◌<◌, ◌≡◌, ◌≢◌, refl, sym, ◌∙◌, ap, List, [], ◌∷◌, ◌++◌, none, some, Text,
  Result, ok, err, length, arith, Result-cases, Option-cases, inl, inr, ◌⊎◌, Bool-cases, leb, true,
  false, drop, length-drop, length-append, find?, leb→le,
}
use miracast_device.Base.Utf8
use miracast_device.Rtsp
use miracast_device.Rtsp.{
  Raised, Negotiator, torn_down, timeout_error, os_error, value_error, blank_line,
}
use miracast_device.Session.Rounds.{
  next_bytes-some, next_bytes-err, next_bytes-more, next_bytes-end, next_bytes-closed,
  next_bytes-timed_out, next_bytes-failed,
}
use miracast_device.Session.Framing.{frame-none, frame-append_lem}
use miracast_device.Session.{
  Recv, chunk, timed_out, failed, frame, cut, cut_by, cut_at, next_bytes, reading, Read, Channel,
  next_message, Ended, out_of_fuel, pump, run_steady_state, acknowledge, on_sent, on_read, send,
  send_all, decoded,
}

-- The bytes and the `recv` results still to come.
abbrev pub pending : List Recv → ℕ
pending [] = 0
pending (chunk d ∷ rs) = 1 + length d + pending rs
pending (timed_out ∷ rs) = 1 + pending rs
pending (failed ∷ rs) = 1 + pending rs

-- Input that is left, in the buffer and in the socket.
abbrev pub left_over : Channel → ℕ
left_over c = length c.buf + pending c.inbound

cut_at-shorter :
    (b : Text) (t : ℕ) {m r : Text} → 0 < t → cut_at b t ≡ ok (some (m, r)) → length r < length b
cut_at-shorter b t {m} {r} p h = elim (Bool-cases (leb t (length b))) [
  | inl fits ↦
      let same : drop t b ≡ r = unfold cut_at in ground (arith, fits) in
      omega (arith, ap length same, length-drop t b, leb→le _ _ fits)
  | inr short ↦ unfold cut_at in ground (arith, short)
]

cut_by-shorter :
    (b : Text) (i : ℕ) (l : Result Raised ℕ) {m r : Text}
    → cut_by b i l ≡ ok (some (m, r))
    → length r < length b
unfolding cut_by
cut_by-shorter b i (ok n) h = cut_at-shorter b (i + 4 + n) (omega arith) h
cut_by-shorter b i (err y) h = cc

frame-shorter : (b : Text) {m r : Text} → frame b ≡ ok (some (m, r)) → length r < length b
unfolding frame cut
frame-shorter b h = elim (Option-cases (find? blank_line b)) [
  | inl e ↦ cc (frame-none b e)
  | inr (i, e) ↦ cut_by-shorter b i _ (sym (frame-append_lem b [] i e).0 ∙ h)
]

-- A round of reading gives an empty message or uses up input.
abbrev Progress : Read → ℕ → Type 0
Progress r before =
    (m : Text) → r.result ≡ ok m → (m ≡ []) ⊎ (length r.buf + pending r.inbound < before)

-- A peer that closes leaves what was in the buffer.
Progress-closed :
    (b : Text) (k : ℕ) (rs : List Recv)
    → pending rs ≤ k
    → Progress (reading (ok b) [] rs) (length b + k)
Progress-closed [] k rs h m e = inl cc
Progress-closed (c ∷ cs) k rs h m e = inr (omega arith)

-- A round whose buffer holds a complete message, or a length that raises.
round-Progress :
    (b : Text) (rs : List Recv)
    → (frame b ≡ ok none → Progress (next_bytes b rs) (length b + pending rs))
    → Progress (next_bytes b rs) (length b + pending rs)
round-Progress b rs by_socket = elim (Result-cases (frame b)) [
  | inl (some (m, r), f) ↦
      rw (next_bytes-some b rs f) (λ n e. inr (omega (arith, frame-shorter b f)))
  | inl (none, f) ↦ by_socket f
  | inr (y, f) ↦ rw (next_bytes-err b rs f) (λ n e. cc)
]

next_bytes-Progress :
    (b : Text) (rs : List Recv) → Progress (next_bytes b rs) (length b + pending rs)
next_bytes-Progress b [] =
    round-Progress b [] λ f. rw (next_bytes-end b [] f) (Progress-closed b 0 [] (omega arith))
next_bytes-Progress b (timed_out ∷ rs) =
    round-Progress b _ λ f. rw (next_bytes-timed_out b rs f) (λ n e. cc)
next_bytes-Progress b (failed ∷ rs) =
    round-Progress b _ λ f. rw (next_bytes-failed b rs f) (λ n e. cc)
next_bytes-Progress b (chunk [] ∷ rs) =
    round-Progress b _
      λ f. rw (next_bytes-closed b rs f) (Progress-closed b (1 + 0 + pending rs) rs (omega arith))
next_bytes-Progress b (chunk (c ∷ cs) ∷ rs) =
    let later = next_bytes-Progress (b ++ c ∷ cs) rs in
    round-Progress b _ λ f. rw (next_bytes-more b (c ∷ cs) rs (λ e. cc) f) λ m e. elim (later m e) [
      | inl z ↦ inl z
      | inr lt ↦ inr (omega (arith, lt, length-append b (c ∷ cs)))
    ]

-- Sending leaves the inbound side alone.
abbrev SameInbound : Channel → Channel → Type 0
SameInbound c d = (d.buf ≡ c.buf) × (d.inbound ≡ c.inbound)

send-SameInbound : (t : Text) (c : Channel) → SameInbound c (send t c).1
unfolding send
send-SameInbound t c = ground arith

send_all-SameInbound : (ts : List Text) (c : Channel) → SameInbound c (send_all ts c).1
unfolding send_all
send_all-SameInbound [] c = (refl, refl)
send_all-SameInbound (t ∷ ts) c =
    ground (arith, send-SameInbound t c, send_all-SameInbound ts (send t c).1)

acknowledge-SameInbound :
    (n : Negotiator) (m : Text) (c : Channel) → SameInbound c (acknowledge n m c).1
unfolding acknowledge
acknowledge-SameInbound n [] c = (refl, refl)
acknowledge-SameInbound n (x ∷ xs) c =
    elim (Result-cases (Rtsp.build_steady_state_ack n (x ∷ xs))) [
      | inl (acks, e) ↦ rw e (send_all-SameInbound acks c)
      | inr (y, e) ↦ rw e (refl, refl)
    ]

empty_is_teardown : Rtsp.is_teardown (Utf8.decode []) ≡ true
unfolding Rtsp.is_teardown Utf8.decode
empty_is_teardown = refl

-- Reading a message that is no teardown uses up input.
next_message-shrinks :
    (c : Channel) (t : Text)
    → (next_message c).0 ≡ ok t
    → Rtsp.is_teardown t ≡ false
    → left_over (next_message c).1 < left_over c
unfolding next_message
next_message-shrinks c t h k = elim (Result-cases (next_bytes c.buf c.inbound).result) [
  | inl (m, e) ↦
      let same : ok (Utf8.decode m) ≡ ok t = sym (ap decoded e) ∙ h in
      let or_empty = next_bytes-Progress c.buf c.inbound m e in not_empty m same or_empty
  | inr (y, e) ↦ cc (sym (ap decoded e) ∙ h)
]
  where
    not_empty :
        (m : Text)
        → ◌≡◌ {A = Result Raised Text} (ok (Utf8.decode m)) (ok t)
        → (m ≡ []) ⊎ (left_over (next_message c).1 < left_over c)
        → left_over (next_message c).1 < left_over c
    not_empty m same (inl z) = cc (empty_is_teardown, ap Utf8.decode z)
    not_empty m same (inr lt) = lt

on_sent_ends :
    (again : Channel → Result Raised Ended × Channel) (message : Text)
    (sent : Result Raised (Unit {0})) (c : Channel)
    → (Rtsp.is_teardown message ≡ false → (again c).0 ≢ ok out_of_fuel)
    → (on_sent again message sent c).0 ≢ ok out_of_fuel
unfolding on_sent
on_sent_ends again message (err e) c h k = cc
on_sent_ends again message (ok u) c h k = elim (Bool-cases (Rtsp.is_teardown message)) [
  | inl e ↦ ground (arith, e)
  | inr e ↦ h e (rw e at k)
]

on_read_ends :
    (again : Channel → Result Raised Ended × Channel) (n : Negotiator) (r : Result Raised Text)
    (c : Channel)
    → ((t : Text) (d : Channel)
        → r ≡ ok t
        → Rtsp.is_teardown t ≡ false
        → SameInbound c d
        → (again d).0 ≢ ok out_of_fuel)
    → (on_read again n r c).0 ≢ ok out_of_fuel
unfolding on_read
on_read_ends again n (err timeout_error) c h k = cc
on_read_ends again n (err _) c h k = cc
on_read_ends again n (ok t) c h k =
    on_sent_ends again t _ _ (λ e. h t _ refl e (acknowledge-SameInbound n t c)) k

-- With more fuel than there are bytes and `recv` results to come, the loop ends by itself.
pump_ends :
    (fuel : ℕ) (n : Negotiator) (c : Channel)
    → left_over c < fuel
    → (pump fuel n c).0 ≢ ok out_of_fuel
unfolding pump
pump_ends zero n c h = absurd (omega arith)
pump_ends (suc fuel) n c h =
    on_read_ends (pump fuel n) n _ _
      λ (t : Text) (d : Channel) e k (same : SameInbound (next_message c).1 d).
        pump_ends fuel n d
          (omega (arith, next_message-shrinks c t e k, ap length same.0, ap pending same.1))

-- The steady state always comes to an end: with more fuel than there is input, `run_steady_state`
-- returns or raises, and it leaves the negotiator torn down in either case.
pub run_steady_state_ends :
    (fuel : ℕ) (n : Negotiator) (c : Channel)
    → left_over c < fuel
    → ((run_steady_state fuel n c).0 ≢ ok out_of_fuel)
      × ((run_steady_state fuel n c).1.state ≡ torn_down)
unfolding run_steady_state Rtsp.mark_torn_down
run_steady_state_ends fuel n c h = (pump_ends fuel n c h, refl)
