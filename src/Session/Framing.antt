-- ===== src/Session/Framing.antt =====
-- How `RtspReader` of castd/wfdsink/session.py cuts the byte stream into messages.
use miracast_device.Base.{
  ℕ, suc, ◌+◌, ◌≤◌, ◌≡◌, refl, sym, ◌∙◌, ap, true, false, [], ◌∷◌, ◌++◌, Option, none, some, Text,
  Result, ok, err, length, take, drop, leb, find?, starts_with, arith, ◌≢◌, length-append,
  take-append_le, drop-append_le, leb→le, le→leb, next_place, Bool-cases, Option-cases, ◌⊎◌, inl,
  inr,
}
use miracast_device.Rtsp.{Raised, blank_line}
use miracast_device.Session.{content_length, cut, cut_at, cut_by, frame}

pub starts_with-append :
    (p t x : Text) → length p ≤ length t → starts_with p (t ++ x) ≡ starts_with p t
unfolding starts_with
starts_with-append [] t x h = refl
starts_with-append (a ∷ p) [] x h = absurd (omega arith)
starts_with-append (a ∷ p) (c ∷ t) x h = rw (starts_with-append p t x (omega arith))

pub starts_with-length : (p t : Text) → starts_with p t ≡ true → length p ≤ length t
unfolding starts_with
starts_with-length [] t h = omega arith
starts_with-length (a ∷ p) [] h = cc
starts_with-length (a ∷ p) (c ∷ t) h = ground (arith, starts_with-length p t)

next_place-eq-some :
    (o : Option ℕ) (i : ℕ) → next_place o ≡ some i → (j : ℕ) × (o ≡ some j) × (i ≡ suc j)
next_place-eq-some none i h = cc
next_place-eq-some (some j) i h = (j, refl, cc)

-- The two ways to find a pattern in a text that begins with `c`.
pub find?-cons :
    (p : Text) (c : ℕ) (t : Text) (i : ℕ)
    → find? p (c ∷ t) ≡ some i
    → ((starts_with p (c ∷ t) ≡ true) × (i ≡ 0))
      ⊎ ((starts_with p (c ∷ t) ≡ false) × ((j : ℕ) × (find? p t ≡ some j) × (i ≡ suc j)))
unfolding find?
find?-cons p c t i h = elim (Bool-cases (starts_with p (c ∷ t))) [
  | inl e ↦ inl (e, ground (arith, e))
  | inr e ↦ inr (e, next_place-eq-some (find? p t) i (ground (arith, e)))
]

pub find?-length : (p t : Text) (i : ℕ) → find? p t ≡ some i → i + length p ≤ length t
find?-length p [] i h = unfold find? in ground (arith, starts_with-length p [])
find?-length p (c ∷ t) i h = elim (find?-cons p c t i h) [
  | inl (e, z) ↦ omega (arith, starts_with-length p (c ∷ t) e)
  | inr (e, (j, g, s)) ↦ omega (arith, find?-length p t j g)
]

find?-nil : (t : Text) → find? [] t ≡ some 0
unfolding find?
find?-nil [] = refl
find?-nil (c ∷ t) = refl

find?-here : (p : Text) (c : ℕ) (t : Text) → starts_with p (c ∷ t) ≡ true → find? p (c ∷ t) ≡ some 0
find?-here p c t h = unfold find? in ground (arith, h)

pub find?-there :
    (p : Text) (c : ℕ) (t : Text) (j : ℕ)
    → starts_with p (c ∷ t) ≡ false
    → find? p t ≡ some j
    → find? p (c ∷ t) ≡ some (suc j)
find?-there p c t j h e = unfold find? in ground (arith, h, e)

-- The first occurrence stays the first when more text comes in.
find?-append : (p t x : Text) (i : ℕ) → find? p t ≡ some i → find? p (t ++ x) ≡ some i
find?-append [] [] x i h = find?-nil x ∙ (sym (find?-nil []) ∙ h)
find?-append (a ∷ p) [] x i h = unfold find? in cc
find?-append p (c ∷ t) x i h = elim (find?-cons p c t i h) [
  | inl (e, z) ↦
      find?-here p c (t ++ x) (starts_with-append p (c ∷ t) x (starts_with-length p (c ∷ t) e) ∙ e)
      ∙ ap some (sym z)
  | inr (e, (j, g, s)) ↦
      let fits : length p ≤ length (c ∷ t) = omega (arith, find?-length p t j g) in
      find?-there p c (t ++ x) j (starts_with-append p (c ∷ t) x fits ∙ e) (find?-append p t x j g)
      ∙ ap some (sym s)
]

-- How cutting depends on what comes in behind a buffer.
cut_at-append :
    (b x : Text) (t : ℕ) {m r : Text}
    → cut_at b t ≡ ok (some (m, r))
    → cut_at (b ++ x) t ≡ ok (some (m, r ++ x))
cut_at-append b x t {m} {r} e = elim (Bool-cases (leb t (length b))) [
  | inl fits ↦
      let fits' : leb t (length (b ++ x)) ≡ true =
        le→leb _ _ (omega (arith, leb→le _ _ fits, length-append b x)) in
      let parts : (take t b ≡ m) × (drop t b ≡ r) = unfold cut_at in ground (arith, fits) in
      unfold cut_at in
      rw (
        fits',
        take-append_le t b x (leb→le _ _ fits),
        drop-append_le t b x (leb→le _ _ fits),
        parts.0,
        parts.1,
      )
  | inr short ↦ unfold cut_at in ground (arith, short)
]

cut_at-ne-err : (b : Text) (t : ℕ) (e : Raised) → cut_at b t ≢ err e
unfolding cut_at
cut_at-ne-err b t e = ground arith

cut_by-append :
    (b x : Text) (i : ℕ) (l : Result Raised ℕ) {m r : Text}
    → cut_by b i l ≡ ok (some (m, r))
    → cut_by (b ++ x) i l ≡ ok (some (m, r ++ x))
unfolding cut_by
cut_by-append b x i (ok n) h = cut_at-append b x (i + 4 + n) h
cut_by-append b x i (err y) h = cc

cut_by-raises :
    (b x : Text) (i : ℕ) (l : Result Raised ℕ) (e : Raised)
    → cut_by b i l ≡ err e
    → cut_by (b ++ x) i l ≡ err e
unfolding cut_by
cut_by-raises b x i (ok n) e h = absurd (cut_at-ne-err b (i + 4 + n) e h)
cut_by-raises b x i (err y) e h = h

-- The header is complete, so the same length is read from it.
cut-append_lem :
    (b x : Text) (i : ℕ)
    → i + 4 ≤ length b
    → cut (b ++ x) i ≡ cut_by (b ++ x) i (content_length (take (i + 4) b))
unfolding cut
cut-append_lem b x i h = rw (take-append_le (i + 4) b x h)

frame-found : (b : Text) (i : ℕ) → find? blank_line b ≡ some i → frame b ≡ cut b i
frame-found b i h = unfold frame in rw (h, frame)

pub frame-none : (b : Text) → find? blank_line b ≡ none → frame b ≡ ok none
frame-none b h = unfold frame in rw (h, frame)

pub frame-append_lem :
    (b x : Text) (i : ℕ)
    → find? blank_line b ≡ some i
    → (frame b ≡ cut_by b i (content_length (take (i + 4) b)))
      × (frame (b ++ x) ≡ cut_by (b ++ x) i (content_length (take (i + 4) b)))
frame-append_lem b x i h = (
  frame-found b i h ∙ unfold cut in refl,
  frame-found (b ++ x) i (find?-append blank_line b x i h)
      ∙ cut-append_lem b x i (find?-length blank_line b i h),
)

-- A message that is complete in the buffer stays the first message when more bytes come in.
pub frame-append :
    (b x : Text) {m r : Text} → frame b ≡ ok (some (m, r)) → frame (b ++ x) ≡ ok (some (m, r ++ x))
frame-append b x h = elim (Option-cases (find? blank_line b)) [
  | inl e ↦ cc (frame-none b e)
  | inr (i, e) ↦ let (p, q) = frame-append_lem b x i e in q ∙ cut_by-append b x i _ (sym p ∙ h)
]

-- A length that cannot be read is not mended by more bytes.
pub frame-raises : (b x : Text) (e : Raised) → frame b ≡ err e → frame (b ++ x) ≡ err e
frame-raises b x y h = elim (Option-cases (find? blank_line b)) [
  | inl e ↦ cc (frame-none b e)
  | inr (i, e) ↦ let (p, q) = frame-append_lem b x i e in q ∙ cut_by-raises b x i _ y (sym p ∙ h)
]
