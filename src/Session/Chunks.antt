-- ===== src/Session/Chunks.antt =====
-- TCP may cut the byte stream anywhere: the messages that `RtspReader` of castd/wfdsink/session.py
-- returns do not depend on it.
use mathlib.Core.List.{append-nil, append_assoc}
use miracast_device.Base.{
  ℕ, zero, suc, ◌≡◌, ◌≢◌, refl, ◌∙◌, List, [], ◌∷◌, ◌++◌, none, some, Text, ok, length, map, All,
  flatten, Result-cases, inl, inr,
}
use miracast_device.Base.Utf8
use miracast_device.Session.{
  Recv, chunk, frame, next_bytes, reading, Channel, next_message, Io, ◌>>=◌, lift,
}
use miracast_device.Session.Framing.{frame-append, frame-raises}
use miracast_device.Session.Rounds.{next_bytes-some, next_bytes-more}

-- A complete message: the bytes of a header and of a body as long as the header says.
abbrev pub IsMessage : Text → Type 0
IsMessage m = frame m ≡ ok (some (m, []))

-- What `recv` gives while the peer is sending.
abbrev pub arriving : List Text → List Recv → List Recv
arriving [] rs = rs
arriving (d ∷ ds) rs = chunk d ∷ arriving ds rs

abbrev pub AreChunks : List Text → Type 0
AreChunks ds = All (λ d. d ≢ []) ds

-- What is left over after one message.
pub record Rest (b : Text) (ds : List Text) (rs : List Recv) (m r : Text) : Type 0 where
  pub buf : Text
  pub chunks : List Text
  pub are_chunks : AreChunks chunks
  pub reads : next_bytes b (arriving ds rs) ≡ reading (ok m) buf (arriving chunks rs)
  pub left : buf ++ flatten chunks ≡ r

pub next_bytes-chunks :
    (ds : List Text) (b : Text) (rs : List Recv) {m r : Text}
    → AreChunks ds
    → frame (b ++ flatten ds) ≡ ok (some (m, r))
    → Rest b ds rs m r
next_bytes-chunks [] b rs {m} {r} h e = record {
  buf = r;
  chunks = [];
  are_chunks = tt;
  reads = next_bytes-some b rs (rw append-nil at e);
  left = append-nil r;
}
next_bytes-chunks (d ∷ ds) b rs {m} {r} h e = elim (Result-cases (frame b)) [
  | inl (none, f) ↦
      let later = next_bytes-chunks ds (b ++ d) rs h.1 (rw append_assoc e) in
      record {
        buf = later.buf;
        chunks = later.chunks;
        are_chunks = later.are_chunks;
        reads = next_bytes-more b d (arriving ds rs) h.0 f ∙ later.reads;
        left = later.left;
      }
  | inl (some (m', r'), f) ↦
      let g = frame-append b (flatten (d ∷ ds)) f in
      let same : m' ≡ m = cc g in
      record {
        buf = r';
        chunks = d ∷ ds;
        are_chunks = h;
        reads = next_bytes-some b _ (rw same at f);
        left = cc g;
      }
  | inr (y, f) ↦ cc (frame-raises b (flatten (d ∷ ds)) y f)
]

-- `next_message`, called `k` times.
abbrev pub receive : ℕ → Io (List Text)
receive zero = lift (ok [])
receive (suc k) = do m ← next_message; ms ← receive k; lift (ok (m ∷ ms))

abbrev pub holding : Channel → Text → List Recv → Channel
holding c b rs = record c { buf = b; inbound = rs }

pub next_message-reads :
    (c : Channel) (b : Text) (rs : List Recv) {m b' : Text} {rs' : List Recv}
    → next_bytes b rs ≡ reading (ok m) b' rs'
    → next_message (holding c b rs) ≡ (ok (Utf8.decode m), holding c b' rs')
next_message-reads c b rs e = unfold next_message in rw e

pub record Received (c : Channel) (ms : List Text) (b : Text) (ds : List Text) (tail : Text)
    (rs : List Recv) : Type 0 where
  pub buf : Text
  pub chunks : List Text
  pub receives :
      receive (length ms) (holding c b (arriving ds rs))
      ≡ (ok (map Utf8.decode ms), holding c buf (arriving chunks rs))
  pub left : buf ++ flatten chunks ≡ tail

-- Whatever is already in the buffer and however the peer's bytes are cut into `recv` results: if
-- together they are some complete messages and a tail, then as many calls of `next_message` return
-- exactly these messages, decoded and in order, and the tail is what remains unread.
pub receive_messages :
    (c : Channel) (ms : List Text) (b : Text) (ds : List Text) (tail : Text) (rs : List Recv)
    → All IsMessage ms
    → AreChunks ds
    → b ++ flatten ds ≡ flatten ms ++ tail
    → Received c ms b ds tail rs
receive_messages c [] b ds tail rs h k e = record {
  buf = b;
  chunks = ds;
  receives = refl;
  left = e;
}
receive_messages c (m ∷ ms) b ds tail rs h k e =
    let whole : frame (b ++ flatten ds) ≡ ok (some (m, flatten ms ++ tail)) =
      rw (e, append_assoc) (frame-append m (flatten ms ++ tail) h.0) in
    let one = next_bytes-chunks ds b rs k whole in
    let more = receive_messages c ms one.buf one.chunks tail rs h.1 one.are_chunks one.left in
    record {
      buf = more.buf;
      chunks = more.chunks;
      receives = rw (next_message-reads c b _ one.reads) (rw more.receives);
      left = more.left;
    }
