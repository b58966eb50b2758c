-- ===== src/Rtsp/Lines.antt =====
-- The body of the M3 response of castd/wfdsink/rtsp.py as its reader takes it apart: the lines that
-- stand between the "\r\n"s, and the value of a parameter.
use mathlib.Core.List.{append_assoc, append-nil, reverse, reverse-cons}
use miracast_device.Base.{
  ℕ, ◌≡◌, refl, ap, ◌∙◌, Bool, true, false, not, List, [], ◌∷◌, ◌++◌, Option, none, some, Text, all,
  ◌==◌, if◌then◌else◌, codes, arith, split, split_from, starts_with, join, after_prefix, same_char,
}
use miracast_device.Rtsp.{crlf}

abbrev pub no_cr : Text → Bool
no_cr t = all (λ c. not (c == 13)) t

starts_with-crlf : (c : ℕ) (t : Text) → not (c == 13) ≡ true → starts_with crlf (c ∷ t) ≡ false
unfolding starts_with
starts_with-crlf c t h = ground (arith, h)

split_from-part :
    (c : ℕ) (t part : Text)
    → not (c == 13) ≡ true
    → split_from crlf 0 part (c ∷ t) ≡ split_from crlf 0 (c ∷ part) t
unfolding split_from
split_from-part c t part h = rw (starts_with-crlf c t h, split_from) refl

split_from-line :
    (t rest part : Text)
    → no_cr t ≡ true
    → split_from crlf 0 part (t ++ (crlf ++ rest)) ≡ (reverse part ++ t) ∷ split_from crlf 0 [] rest
split_from-line [] rest part h =
    unfold split_from in unfold starts_with in rw (append-nil (reverse part)) refl
split_from-line (c ∷ t) rest part h =
    let ok_c : not (c == 13) ≡ true = ground (arith, h) in
    let ok_t : no_cr t ≡ true = ground (arith, h) in
    split_from-part c (t ++ (crlf ++ rest)) part ok_c
    ∙ split_from-line t rest (c ∷ part) ok_t
    ∙ rw (reverse-cons c part, append_assoc (reverse part) (c ∷ []) t) refl

split_from-join :
    (t : Text) (ts : List Text)
    → all no_cr (t ∷ ts) ≡ true
    → split_from crlf 0 [] (join crlf (t ∷ ts) ++ crlf) ≡ t ∷ (ts ++ [] ∷ [])
unfolding join split_from
split_from-join t [] h = split_from-line t [] [] (ground (arith, h))
split_from-join t (u ∷ ts) h =
    let rest = join crlf (u ∷ ts) in
    rw (append_assoc t (crlf ++ rest) crlf) (
      split_from-line t (rest ++ crlf) [] (ground (arith, h))
      ∙ ap (λ ls. t ∷ ls) (split_from-join u ts (ground (arith, h))))

abbrev pub is_some_line : List Text → Bool
is_some_line [] = false
is_some_line (t ∷ ts) = true

-- The parts of a body whose lines have no "\r": these lines, and the empty rest.
pub split-join :
    (ts : List Text)
    → is_some_line ts ≡ true
    → all no_cr ts ≡ true
    → split crlf (join crlf ts ++ crlf) ≡ ts ++ [] ∷ []
unfolding split
split-join [] e h = ground (arith, e)
split-join (t ∷ ts) e h = split_from-join t ts h

abbrev pub or_else : Option Text → Option Text → Option Text
or_else none y = y
or_else (some v) y = some v

-- The value of a parameter: what stands after its name and a colon in the first line that has it.
unfoldable pub value_of : Text → List Text → Option Text
value_of name [] = none
value_of name (l ∷ ls) = or_else (after_prefix same_char (name ++ codes ": ") l) (value_of name ls)

or_else_assoc : (x y z : Option Text) → or_else x (or_else y z) ≡ or_else (or_else x y) z
or_else_assoc none y z = refl
or_else_assoc (some v) y z = refl

pub value_of-append :
    (name : Text) (xs ys : List Text)
    → value_of name (xs ++ ys) ≡ or_else (value_of name xs) (value_of name ys)
unfolding value_of
value_of-append name [] ys = refl
value_of-append name (x ∷ xs) ys =
    ap (or_else (after_prefix same_char (name ++ codes ": ") x)) (value_of-append name xs ys)
    ∙ or_else_assoc (after_prefix same_char (name ++ codes ": ") x) (value_of name xs)
        (value_of name ys)

pub value_of-if :
    (b : Bool) (name : Text) (ls : List Text)
    → value_of name (if b then ls else []) ≡ (if b then value_of name ls else none)
unfolding value_of
value_of-if true name ls = refl
value_of-if false name ls = refl
