-- ===== src/Session/KeepAlive.antt =====
-- The steady state of castd/wfdsink/session.py with a source that keeps to the protocol.
use mathlib.Core.List.{append_assoc}
use miracast_device.Base.{
  ℕ, zero, suc, Bool, ◌||◌, some, codes, ◌<◌, ◌≡◌, refl, true, false, List, [], ◌∷◌, ◌++◌, Text,
  Result, ok, err, All, ◌>>=◌, length, split, contains, arith, Option-cases, inl, inr, Bool-cases,
}
use miracast_device.Base.Utf8
use miracast_device.Header.{find_cseq}
use miracast_device.Rtsp
use miracast_device.Rtsp.{
  Negotiator, Raised, streaming, ok_response, crlf, blank_line, ack_entries, wants_ack,
  build_steady_state_ack, is_teardown, extract_cseq,
}
use miracast_device.Rtsp.Encodable.{IsPlain, find_cseq-IsPlain}
use miracast_device.Rtsp.Texts.{ok_response-IsPlain}
use miracast_device.Session.{
  Recv, Channel, acknowledge, send_all, pump, on_read, on_sent, run_steady_state, returned, lift,
}
use miracast_device.Session.Chunks.{IsMessage}
use miracast_device.Session.Turns.{At, Gives, just, chain, reads, says_all, appended, appended_lem}

extract_cseq-IsPlain : (e cseq : Text) → extract_cseq e ≡ ok cseq → IsPlain cseq
unfolding extract_cseq
extract_cseq-IsPlain e cseq h = elim (Option-cases (find_cseq e)) [
  | inl n ↦ cc (rw n at h)
  | inr (c, f) ↦ find_cseq-IsPlain e cseq (ground (arith, f, h))
]

-- One more entry, once its number is looked up and the others are acknowledged.
one_more :
    (number : Result Raised Text) (others : Result Raised (List Text)) (acks : List Text)
    → ((cseq : Text) → number ≡ ok cseq → IsPlain cseq)
    → ((later : List Text) → others ≡ ok later → All IsPlain later)
    → (do cseq ← number; later ← others; ok (ok_response cseq crlf ∷ later)) ≡ ok acks
    → All IsPlain acks
one_more (err y) others acks h k p = cc
one_more (ok cseq) (err y) acks h k p = cc
one_more (ok cseq) (ok later) acks h k p =
    let same : ok_response cseq crlf ∷ later ≡ acks = cc p in
    rw (← same) (ok_response-IsPlain cseq crlf (h cseq refl) refl, k later refl)

ack_entries-All : (es : List Text) (acks : List Text) → ack_entries es ≡ ok acks → All IsPlain acks
unfolding ack_entries
ack_entries-All [] [] h = tt
ack_entries-All [] (a ∷ acks) h = cc
ack_entries-All (e ∷ es) acks h = elim (Bool-cases (wants_ack e)) [
  | inl w ↦
      one_more (extract_cseq e) (ack_entries es) acks (extract_cseq-IsPlain e)
        (λ later. ack_entries-All es later) (rw w at h)
  | inr w ↦ ack_entries-All es acks (rw w at h)
]

abbrev pub names_get : Text → Bool
names_get = contains (codes "GET_PARAMETER")

abbrev pub names_set : Text → Bool
names_set = contains (codes "SET_PARAMETER")

pub or_true : (b : Bool) → (b || true) ≡ true
or_true true = refl
or_true false = refl

-- The entries of a message and their acknowledgements: one for each entry that names GET_PARAMETER
-- or SET_PARAMETER, with the number of that entry, and none for the others.
pub data Acks : List Text → List Text → Type 0 where
  done : Acks [] []
  other :
      {e : Text} {es acks : List Text}
      → names_get e ≡ false
      → names_set e ≡ false
      → Acks es acks
      → Acks (e ∷ es) acks
  get_request :
      {e cseq : Text} {es acks : List Text}
      → names_get e ≡ true
      → find_cseq e ≡ some cseq
      → Acks es acks
      → Acks (e ∷ es) (ok_response cseq crlf ∷ acks)
  set_request :
      {e cseq : Text} {es acks : List Text}
      → names_set e ≡ true
      → find_cseq e ≡ some cseq
      → Acks es acks
      → Acks (e ∷ es) (ok_response cseq crlf ∷ acks)

Acks-ack_entries : (es acks : List Text) → Acks es acks → ack_entries es ≡ ok acks
unfolding ack_entries wants_ack extract_cseq
Acks-ack_entries [] [] done = refl
Acks-ack_entries [] (_ ∷ acks) a = elim a [ ]
Acks-ack_entries (e ∷ es) acks (other g s a) = rw (g, s, Acks-ack_entries es acks a) refl
Acks-ack_entries (e ∷ es) (_ ∷ acks) (get_request g f a) =
    rw (g, f, Acks-ack_entries es acks a) refl
Acks-ack_entries (e ∷ es) (_ ∷ acks) (set_request s f a) =
    rw (s, or_true (names_get e), f, Acks-ack_entries es acks a) refl

-- A whole message, and what acknowledges the requests in it.
pub record IsAnswered (m : Text) (acks : List Text) : Type 0 where
  pub framed : IsMessage m
  pub numbered : Acks (split blank_line (Utf8.decode m)) acks

no_entries : ack_entries (split blank_line []) ≡ ok []
unfolding ack_entries wants_ack split contains
no_entries = refl

module _ (n : Negotiator) (i : n.state ≡ streaming) (rs : List Recv) where
  acknowledges :
      (t : Text) (acks : List Text) {u : Text} {s : List Text} (c : Channel)
      → ack_entries (split blank_line t) ≡ ok acks
      → At rs u s c
      → Gives rs (acknowledge n t) tt u (appended s acks) c
  unfolding acknowledge build_steady_state_ack
  acknowledges [] acks c e h =
      let none_left : [] ≡ acks = cc (no_entries, e) in
      rw (← none_left) (just rs (ok tt) tt c refl h)
  acknowledges (x ∷ xs) acks c e h =
      chain rs (lift (build_steady_state_ack n (x ∷ xs))) send_all
        (just rs (build_steady_state_ack n (x ∷ xs)) acks c (rw (i, e) refl) h)
        λ d h. says_all rs acks d (ack_entries-All (split blank_line (x ∷ xs)) acks e) h

  -- A round of the loop that goes on, and the one that ends it.
  pump_again :
      (fuel : ℕ) (m : Text) (acks : List Text) {u u' : Text} {s s' : List Text} (c : Channel)
      → IsAnswered m acks
      → is_teardown (Utf8.decode m) ≡ false
      → At rs (m ++ u) s c
      → ((d : Channel) → At rs u (appended s acks) d → Gives rs (pump fuel n) returned u' s' d)
      → Gives rs (pump (suc fuel) n) returned u' s' c
  unfolding pump on_read on_sent
  pump_again fuel m acks c a e h k =
      let r = reads rs m c a.framed h in
      let sent =
        acknowledges (Utf8.decode m) acks r.after (Acks-ack_entries _ acks a.numbered) r.is_at in
      let later = k sent.after sent.is_at in
      record {
        after = later.after;
        returns = rw (r.returns, sent.returns, e) later.returns;
        is_at = later.is_at;
      }

  pump_last :
      (fuel : ℕ) (m : Text) (acks : List Text) {u : Text} {s : List Text} (c : Channel)
      → IsAnswered m acks
      → is_teardown (Utf8.decode m) ≡ true
      → At rs (m ++ u) s c
      → Gives rs (pump (suc fuel) n) returned u (appended s acks) c
  unfolding pump on_read on_sent
  pump_last fuel m acks c a e h =
      let r = reads rs m c a.framed h in
      let sent =
        acknowledges (Utf8.decode m) acks r.after (Acks-ack_entries _ acks a.numbered) r.is_at in
      record {
        after = sent.after;
        returns = rw (r.returns, sent.returns, e) refl;
        is_at = sent.is_at;
      }

-- Messages with what acknowledges them.
abbrev pub Rounds : Type 0
Rounds = List (Text × List Text)

abbrev pub messages : Rounds → Text
messages [] = []
messages ((m, acks) ∷ rest) = m ++ messages rest

abbrev pub acknowledged : Rounds → List Text
acknowledged [] = []
acknowledged ((m, acks) ∷ rest) = acks ++ acknowledged rest

-- Whole messages that do not end the session.
abbrev pub AreRequests : Rounds → Type 0
AreRequests rounds = All (λ r. IsAnswered r.0 r.1 × (is_teardown (Utf8.decode r.0) ≡ false)) rounds

pump_rounds :
    (n : Negotiator) (rs : List Recv) (rounds : Rounds) (m : Text) (acks : List Text) (fuel : ℕ)
    {u : Text} (s : List Text) (c : Channel)
    → n.state ≡ streaming
    → AreRequests rounds
    → IsAnswered m acks
    → is_teardown (Utf8.decode m) ≡ true
    → length rounds < fuel
    → At rs (messages rounds ++ (m ++ u)) s c
    → Gives rs (pump fuel n) returned u (s ++ (acknowledged rounds ++ acks)) c
pump_rounds n rs rounds m acks zero s c i h a e f k = absurd (omega (arith, f))
pump_rounds n rs [] m acks (suc fuel) s c i h a e f k =
    rw (← appended_lem s acks) (pump_last n i rs fuel m acks c a e k)
pump_rounds n rs ((q, qs) ∷ rounds) m acks (suc fuel) {u} s c i h a e f k =
    pump_again n i rs fuel q qs c h.0.0 h.0.1 (rw append_assoc at k) λ d l.
      rw (append_assoc, ← append_assoc s)
        (pump_rounds n rs rounds m acks fuel (s ++ qs) d i h.1 a e (omega (arith, f))
          (rw appended_lem at l))

-- How the steady state ends.
pub record Finished (rs : List Recv) (fuel : ℕ) (n : Negotiator) (unread : Text) (sent : List Text)
    (c : Channel) : Type 0 where
  pub after : Channel
  pub returns : run_steady_state fuel n c ≡ (ok returned, Rtsp.mark_torn_down n, after)
  pub is_at : At rs unread sent after

-- A streaming source that sends requests and then a TEARDOWN, however its bytes are cut into `recv`
-- results, and no send that fails: with more fuel than there are requests, `run_steady_state`
-- returns by itself with the negotiator torn down, the source has been sent one acknowledgement for
-- each entry of these messages that names GET_PARAMETER or SET_PARAMETER, in their order and with the
-- number of the entry, and what comes after the TEARDOWN has not been read.
pub run_steady_state_answers :
    (n : Negotiator) (rs : List Recv) (rounds : Rounds) (m : Text) (acks : List Text) (fuel : ℕ)
    (u : Text) (s : List Text) (c : Channel)
    → n.state ≡ streaming
    → AreRequests rounds
    → IsAnswered m acks
    → is_teardown (Utf8.decode m) ≡ true
    → length rounds < fuel
    → At rs (messages rounds ++ (m ++ u)) s c
    → Finished rs fuel n u (s ++ (acknowledged rounds ++ acks)) c
unfolding run_steady_state
run_steady_state_answers n rs rounds m acks fuel u s c i h a e f k =
    let g = pump_rounds n rs rounds m acks fuel s c i h a e f k in
    record { after = g.after; returns = rw g.returns refl; is_at = g.is_at }
