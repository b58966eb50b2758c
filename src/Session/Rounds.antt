-- ===== src/Session/Rounds.antt =====
-- One round of the loop in `next_message` of castd/wfdsink/session.py, case by case.
use miracast_device.Base.{◌≡◌, ◌≢◌, refl, List, [], ◌∷◌, ◌++◌, none, some, Text, ok, err}
use miracast_device.Rtsp.{Raised, timeout_error, os_error}
use miracast_device.Session.{Recv, chunk, timed_out, failed, frame, next_bytes, reading}

pub next_bytes-some :
    (b : Text) (rs : List Recv) {m r : Text}
    → frame b ≡ ok (some (m, r))
    → next_bytes b rs ≡ reading (ok m) r rs
next_bytes-some b [] e = unfold next_bytes in rw (e, next_bytes)
next_bytes-some b (r ∷ rs) e = unfold next_bytes in rw (e, next_bytes)

pub next_bytes-err :
    (b : Text) (rs : List Recv) {e : Raised}
    → frame b ≡ err e
    → next_bytes b rs ≡ reading (err e) b rs
next_bytes-err b [] e = unfold next_bytes in rw (e, next_bytes)
next_bytes-err b (r ∷ rs) e = unfold next_bytes in rw (e, next_bytes)

pub next_bytes-more :
    (b d : Text) (rs : List Recv)
    → d ≢ []
    → frame b ≡ ok none
    → next_bytes b (chunk d ∷ rs) ≡ next_bytes (b ++ d) rs
next_bytes-more b [] rs h e = absurd (h refl)
next_bytes-more b (c ∷ cs) rs h e = unfold next_bytes in rw (e, next_bytes)

module _ (b : Text) (rs : List Recv) (e : frame b ≡ ok none) where
  pub next_bytes-end : next_bytes b [] ≡ reading (ok b) [] []
  next_bytes-end = unfold next_bytes in rw (e, next_bytes)

  pub next_bytes-closed : next_bytes b (chunk [] ∷ rs) ≡ reading (ok b) [] rs
  next_bytes-closed = unfold next_bytes in rw (e, next_bytes)

  pub next_bytes-timed_out : next_bytes b (timed_out ∷ rs) ≡ reading (err timeout_error) b rs
  next_bytes-timed_out = unfold next_bytes in rw (e, next_bytes)

  pub next_bytes-failed : next_bytes b (failed ∷ rs) ≡ reading (err os_error) b rs
  next_bytes-failed = unfold next_bytes in rw (e, next_bytes)
