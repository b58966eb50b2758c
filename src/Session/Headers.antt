-- ===== src/Session/Headers.antt =====
-- Messages that are written line by line, as the reader of castd/wfdsink/session.py frames them.
use mathlib.Core.List.{append_assoc}
use miracast_device.Base.{
  ℕ, suc, ◌+◌, ◌≡◌, refl, ap, ◌∙◌, Bool, true, false, not, List, [], ◌∷◌, ◌++◌, some, Text, ok, all,
  length, length-append, take, drop, leb, arith, find?, starts_with, join, ◌==◌,
}
use miracast_device.Rtsp.{crlf, blank_line}
use miracast_device.Rtsp.Lines.{no_cr}
use miracast_device.Session.{cut_by, cut_at, content_length}
use miracast_device.Session.Framing.{find?-there, frame-append_lem}
use miracast_device.Session.Chunks.{IsMessage}

-- A header line: some characters without "\r".
abbrev pub is_line : Text → Bool
is_line [] = false
is_line (c ∷ cs) = no_cr (c ∷ cs)

-- The lines of a header, the blank line and the body.
abbrev pub message : List Text → Text → Text
message lines body = (join crlf lines ++ blank_line) ++ body

starts_with-blank_line :
    (c : ℕ) (t : Text) → not (c == 13) ≡ true → starts_with blank_line (c ∷ t) ≡ false
unfolding starts_with
starts_with-blank_line c t h = ground (arith, h)

find?-skip :
    (t rest : Text) (i : ℕ)
    → no_cr t ≡ true
    → find? blank_line rest ≡ some i
    → find? blank_line (t ++ rest) ≡ some (length t + i)
find?-skip [] rest i h e = e ∙ ap some (omega arith)
find?-skip (c ∷ t) rest i h e =
    find?-there blank_line c (t ++ rest) (length t + i)
      (starts_with-blank_line c (t ++ rest) (ground (arith, h)))
      (find?-skip t rest i (ground (arith, h)) e)
    ∙ ap some (omega arith)

-- A line end between two lines.
find?-crlf :
    (c : ℕ) (t : Text) (i : ℕ)
    → not (c == 13) ≡ true
    → find? blank_line (c ∷ t) ≡ some i
    → find? blank_line (crlf ++ c ∷ t) ≡ some (suc (suc i))
find?-crlf c t i h e =
    find?-there blank_line 13 (10 ∷ c ∷ t) (suc i) (unfold starts_with in ground (arith, h))
      (find?-there blank_line 10 (c ∷ t) i (unfold starts_with in refl) e)

find?-line_end :
    (u : Text) (us : List Text) (i : ℕ)
    → is_line u ≡ true
    → find? blank_line (join crlf (u ∷ us) ++ blank_line) ≡ some i
    → find? blank_line (crlf ++ (join crlf (u ∷ us) ++ blank_line)) ≡ some (suc (suc i))
unfolding join
find?-line_end [] us i h e = ground (arith, h)
find?-line_end (c ∷ cs) [] i h e = find?-crlf c (cs ++ blank_line) i (ground (arith, h)) e
find?-line_end (c ∷ cs) (v ∷ vs) i h e = find?-crlf c _ i (ground (arith, h)) e

no_cr-IsLine : (l : Text) → is_line l ≡ true → no_cr l ≡ true
no_cr-IsLine [] h = refl
no_cr-IsLine (c ∷ cs) h = h

-- The header ends at its blank line.
pub header_end :
    (l : Text) (ls : List Text)
    → all is_line (l ∷ ls) ≡ true
    → find? blank_line (join crlf (l ∷ ls) ++ blank_line) ≡ some (length (join crlf (l ∷ ls)))
unfolding join
header_end l [] h =
    find?-skip l blank_line 0 (no_cr-IsLine l (ground (arith, h)))
      (unfold find? in unfold starts_with in refl)
    ∙ ap some (omega arith)
header_end l (u ∷ us) h =
    let rest = join crlf (u ∷ us) in
    let ok_u : is_line u ≡ true = ground (arith, h) in
    let later = find?-line_end u us (length rest) ok_u (header_end u us (ground (arith, h))) in
    rw (append_assoc l (crlf ++ rest) blank_line) (
      find?-skip l (crlf ++ (rest ++ blank_line)) (suc (suc (length rest)))
        (no_cr-IsLine l (ground (arith, h))) later
      ∙ ap some (omega (arith, length-append l (crlf ++ rest))))

take_all : (t : Text) → take (length t) t ≡ t
take_all [] = refl
take_all (c ∷ t) = ap (λ r. c ∷ r) (take_all t)

drop_all : (t : Text) → drop (length t) t ≡ []
drop_all [] = refl
drop_all (c ∷ t) = drop_all t

whole_cut : (b : Text) (n : ℕ) → n ≡ length b → cut_at b n ≡ ok (some (b, []))
unfolding cut_at
whole_cut b n h =
    let fits : leb (length b) (length b) ≡ true = ground arith in
    rw (h, fits, take_all b, drop_all b) refl

-- A whole message, whose header gives the length of its body.
pub message-IsMessage :
    (l : Text) (ls : List Text) (body : Text)
    → all is_line (l ∷ ls) ≡ true
    → content_length (join crlf (l ∷ ls) ++ blank_line) ≡ ok (length body)
    → IsMessage (message (l ∷ ls) body)
unfolding cut_by
message-IsMessage l ls body h n =
    let h0 = join crlf (l ∷ ls) in
    let header = h0 ++ blank_line in
    let four : length header ≡ length h0 + 4 = length-append h0 blank_line in
    let framed = (frame-append_lem header body (length h0) (header_end l ls h)).1 in
    let total : length h0 + 4 + length body ≡ length (header ++ body) =
      omega (arith, length-append header body, four) in
    framed ∙ rw (← four, take_all header, n) (whole_cut (header ++ body) _ total)
