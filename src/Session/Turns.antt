-- ===== src/Session/Turns.antt =====
-- One turn of the handshake of castd/wfdsink/session.py at a time: what a read and a send do while
-- the source's bytes are arriving and no send fails.
use mathlib.Core.List.{append-nil, append_assoc}
use miracast_device.Base.{
  ◌≡◌, refl, sym, ap, ◌∙◌, false, List, [], ◌∷◌, ◌++◌, Text, Result, ok, map, flatten, All,
}
use miracast_device.Base.Utf8
use miracast_device.Rtsp.{Raised, Negotiator}
use miracast_device.Rtsp.Encodable.{IsPlain, encode-IsPlain}
use miracast_device.Session.{Recv, Channel, Io, next_message, send, send_all, ◌>>=◌, lift}
use miracast_device.Session.Framing.{frame-append}
use miracast_device.Session.Chunks.{
  IsMessage, AreChunks, arriving, holding, next_bytes-chunks, next_message-reads,
}

-- The source still sends `unread`, it has been sent the texts `sent`, and no send fails. What comes
-- after the source's bytes does not matter.
pub record At (rs : List Recv) (unread : Text) (sent : List Text) (c : Channel) : Type 0 where
  pub chunks : List Text
  pub are_chunks : AreChunks chunks
  pub inbound : c.inbound ≡ arriving chunks rs
  pub bytes : c.buf ++ flatten chunks ≡ unread
  pub told : map Utf8.decode c.sent ≡ sent
  pub works : c.send_fails ≡ λ _. false

-- The code returns `a`, and the channel is then as said.
pub record Gives {A : Type 0} (rs : List Recv) (m : Io A) (a : A) (unread : Text) (sent : List Text)
    (c : Channel) : Type 0 where
  pub after : Channel
  pub returns : m c ≡ (ok a, after)
  pub is_at : At rs unread sent after

module _ {A : Type 0} (rs : List Recv) where
  pub just :
      (r : Result Raised A) (a : A) {u : Text} {s : List Text} (c : Channel)
      → r ≡ ok a
      → At rs u s c
      → Gives rs (lift r) a u s c
  just r a c e h = record { after = c; returns = ap (λ x. (x, c)) e; is_at = h }

module _ {A B : Type 0} (rs : List Recv) where
  pub chain :
      (m : Io A) (f : A → Io B) {a : A} {b : B} {u u' : Text} {s s' : List Text} {c : Channel}
      → Gives rs m a u s c
      → ((d : Channel) → At rs u s d → Gives rs (f a) b u' s' d)
      → Gives rs (m >>= f) b u' s' c
  chain m f h k =
      let later = k h.after h.is_at in
      record { after = later.after; returns = rw h.returns later.returns; is_at = later.is_at }

-- A read of a complete message.
pub reads :
    (rs : List Recv) (m : Text) {rest : Text} {s : List Text} (c : Channel)
    → IsMessage m
    → At rs (m ++ rest) s c
    → Gives rs next_message (Utf8.decode m) rest s c
reads rs m {rest} {s} c w h =
    let r =
      next_bytes-chunks h.chunks c.buf rs {m = m} {r = rest} h.are_chunks
        (rw h.bytes (frame-append m rest w)) in
    record {
      after = holding c r.buf (arriving r.chunks rs);
      returns = next_message-reads c c.buf c.inbound (rw h.inbound r.reads);
      is_at = record {
        chunks = r.chunks;
        are_chunks = r.are_chunks;
        inbound = refl;
        bytes = r.left;
        told = h.told;
        works = h.works;
      };
    }

map-snoc :
    (ts : List Text) (t : Text)
    → map Utf8.decode (ts ++ t ∷ []) ≡ map Utf8.decode ts ++ Utf8.decode t ∷ []
map-snoc [] t = refl
map-snoc (u ∷ ts) t = ap (λ r. Utf8.decode u ∷ r) (map-snoc ts t)

-- A send of a text that has an encoding.
pub says :
    (rs : List Recv) (t : Text) {u : Text} {s : List Text} (c : Channel)
    → IsPlain t
    → At rs u s c
    → Gives rs (send t) tt u (s ++ t ∷ []) c
unfolding send
says rs t {u} {s} c p h =
    let (bs, e, d) = encode-IsPlain t p in
    record {
      after = record c { sent = c.sent ++ bs ∷ [] };
      returns = rw (e, h.works) refl;
      is_at = record {
        chunks = h.chunks;
        are_chunks = h.are_chunks;
        inbound = h.inbound;
        bytes = h.bytes;
        told = map-snoc c.sent bs ∙ rw (h.told, d) refl;
        works = h.works;
      };
    }

-- One text after another.
abbrev pub appended : List Text → List Text → List Text
appended sent [] = sent
appended sent (t ∷ ts) = appended (sent ++ t ∷ []) ts

pub appended_lem : (sent ts : List Text) → appended sent ts ≡ sent ++ ts
appended_lem sent [] = sym (append-nil sent)
appended_lem sent (t ∷ ts) = appended_lem (sent ++ t ∷ []) ts ∙ append_assoc sent (t ∷ []) ts

-- A read, what the program makes of the message, and a send of that.
module _ {B : Type 0} (rs : List Recv) where
  pub answers :
      (handle : Text → Result Raised (Text × Negotiator)) (rest : Text × Negotiator → Io B)
      (m text : Text) (n : Negotiator) {b : B} {u u' : Text} {s s' : List Text} {c : Channel}
      → IsMessage m
      → handle (Utf8.decode m) ≡ ok (text, n)
      → IsPlain text
      → At rs (m ++ u) s c
      → ((d : Channel) → At rs u (s ++ text ∷ []) d → Gives rs (rest (text, n)) b u' s' d)
      → Gives rs (next_message >>= λ t. lift (handle t) >>= λ r. send r.0 >>= λ _. rest r) b u' s' c
  answers handle rest m text n {c = c} w e p h k = chain rs _ _ (reads rs m c w h) λ d h.
      chain rs _ _ (just rs (handle (Utf8.decode m)) (text, n) d e h)
        λ d h. chain rs _ _ (says rs text d p h) k

-- Several texts, one after another.
pub says_all :
    (rs : List Recv) (ts : List Text) {u : Text} {s : List Text} (c : Channel)
    → All IsPlain ts
    → At rs u s c
    → Gives rs (send_all ts) tt u (appended s ts) c
unfolding send_all
says_all rs [] c p h = just rs (ok tt) tt c refl h
says_all rs (t ∷ ts) c p h =
    chain rs (send t) (λ _. send_all ts) (says rs t c p.0 h) λ d h. says_all rs ts d p.1 h
