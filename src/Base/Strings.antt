-- ===== src/Base/Strings.antt =====
-- Text as a list of code points, with the operations of Python's `str` and `re` that castd uses.
use Prim.Native.Nat.{ℕ, zero, suc, ◌+◌, ◌-◌, ◌*◌, ◌/◌, ◌%◌, ◌<◌}
use Prim.Native.Char.{code}
use Prim.Native.String.{String}
use mathlib.Core.Path.{◌≡◌, refl}
use mathlib.Core.Logic.{◌↔◌}
use mathlib.Core.Bool.{Bool, true, false, ◌&&◌, ◌||◌}
use mathlib.Core.Option.{Option, none, some}
use mathlib.Core.List.{List, [], ◌∷◌, ◌++◌, reverse}
use native.Mathlib.Omega.{arith}
use miracast_device.Base.Tests.{ltb, leb, ◌==◌, if◌then◌else◌}
use miracast_device.Base.Lists.{length, any, all}

-- A `str` is its code points, `bytes` its bytes.
abbrev pub Text : Type 0
Text = List ℕ

abbrev pub codes : String → Text
codes String.[] = []
codes (String.◌∷◌ c s) = code c ∷ codes s

unfoldable pub text_eq : Text → Text → Bool
text_eq [] [] = true
text_eq (x ∷ a) (y ∷ b) = x == y && text_eq a b
text_eq _ _ = false

pub text_eq_iff : (a b : Text) → (text_eq a b ≡ true) ↔ (a ≡ b)
unfolding text_eq
text_eq_iff (x ∷ a) (y ∷ b) = ground (arith, text_eq_iff a b)
text_eq_iff _ _ = ground arith

pub text_eq_refl : (a : Text) → text_eq a a ≡ true
text_eq_refl a = (text_eq_iff a a).1 refl

-- `text.startswith(prefix)`.
unfoldable pub starts_with : Text → Text → Bool
starts_with [] t = true
starts_with (p ∷ ps) [] = false
starts_with (p ∷ ps) (c ∷ cs) = p == c && starts_with ps cs

-- `pattern in text`.
unfoldable pub contains : Text → Text → Bool
unfolding starts_with
contains p [] = starts_with p []
contains p (c ∷ cs) = starts_with p (c ∷ cs) || contains p cs

-- `text.find(pattern)`, with none for -1.
abbrev pub next_place : Option ℕ → Option ℕ
next_place none = none
next_place (some i) = some (suc i)

unfoldable pub find? : Text → Text → Option ℕ
unfolding starts_with
find? p [] = if starts_with p [] then some 0 else none
find? p (c ∷ cs) =
    let rest = next_place (find? p cs) in if starts_with p (c ∷ cs) then some 0 else rest

-- `text.split(sep)` for a separator that is not empty. `skip` counts the code points of a
-- separator still to be passed over, and `part` is the current part, reversed.
unfoldable pub split_from : Text → ℕ → Text → Text → List Text
unfolding starts_with
split_from sep skip part [] = reverse part ∷ []
split_from sep (suc k) part (c ∷ cs) = split_from sep k part cs
split_from sep zero part (c ∷ cs) = elim (starts_with sep (c ∷ cs)) [
  | true ↦ reverse part ∷ split_from sep (length sep - 1) [] cs
  | false ↦ split_from sep 0 (c ∷ part) cs
]

unfoldable pub split : Text → Text → List Text
unfolding split_from
split sep t = split_from sep 0 [] t

-- `sep.join(parts)`.
unfoldable pub join : Text → List Text → Text
join sep [] = []
join sep (t ∷ []) = t
join sep (t ∷ u ∷ ts) = t ++ (sep ++ join sep (u ∷ ts))

abbrev one_of : List ℕ → ℕ → Bool
one_of cs c = any (λ d. d == c) cs

-- `\s` and `str.isspace`, over all of Unicode.
unfoldable pub is_space : ℕ → Bool
is_space c =
    (leb 9 c && leb c 13)
    || (leb 28 c && leb c 32)
    || (leb 8192 c && leb c 8202)
    || one_of (133 ∷ 160 ∷ 5760 ∷ 8232 ∷ 8233 ∷ 8239 ∷ 8287 ∷ 12288 ∷ []) c

-- What ends a line for `str.splitlines`.
unfoldable pub is_line_end : ℕ → Bool
is_line_end c =
    (leb 10 c && leb c 13) || (leb 28 c && leb c 30) || one_of (133 ∷ 8232 ∷ 8233 ∷ []) c

-- The zeros of the decimal digits of Unicode 15.
abbrev pub digit_zeros : List ℕ
digit_zeros =
    48 ∷ 1632 ∷ 1776 ∷ 1984 ∷ 2406 ∷ 2534 ∷ 2662 ∷ 2790 ∷ 2918 ∷ 3046 ∷ 3174 ∷ 3302 ∷ 3430 ∷ 3558
    ∷ 3664 ∷ 3792 ∷ 3872 ∷ 4160 ∷ 4240 ∷ 6112 ∷ 6160 ∷ 6470 ∷ 6608 ∷ 6784 ∷ 6800 ∷ 6992 ∷ 7088
    ∷ 7232 ∷ 7248 ∷ 42528 ∷ 43216 ∷ 43264 ∷ 43472 ∷ 43504 ∷ 43600 ∷ 44016 ∷ 65296 ∷ 66720 ∷ 68912
    ∷ 69734 ∷ 69872 ∷ 69942 ∷ 70096 ∷ 70384 ∷ 70736 ∷ 70864 ∷ 71248 ∷ 71360 ∷ 71472 ∷ 71904 ∷ 72016
    ∷ 72784 ∷ 73040 ∷ 73120 ∷ 73552 ∷ 92768 ∷ 92864 ∷ 93008 ∷ 120782 ∷ 120792 ∷ 120802 ∷ 120812
    ∷ 120822 ∷ 123200 ∷ 123632 ∷ 124144 ∷ 125264 ∷ 130032 ∷ []

unfoldable pub digit_in : List ℕ → ℕ → Option ℕ
digit_in [] c = none
digit_in (z ∷ zs) c = if leb z c && ltb c (z + 10) then some (c - z) else digit_in zs c

-- The value of a character that `\d` matches.
unfoldable pub digit_value : ℕ → Option ℕ
unfolding digit_in
digit_value c = digit_in digit_zeros c

pub digit_in_lt : (zs : List ℕ) (c : ℕ) {v : ℕ} → digit_in zs c ≡ some v → v < 10
unfolding digit_in
digit_in_lt [] c h = cc
digit_in_lt (z ∷ zs) c {v} h = ground (arith, digit_in_lt zs c {v = v})

pub digit_value_lt : (c : ℕ) {v : ℕ} → digit_value c ≡ some v → v < 10
unfolding digit_value
digit_value_lt c h = digit_in_lt digit_zeros c h

-- Below the surrogates, or above them and a code point.
abbrev beside_surrogates : ℕ → ℕ → Bool
beside_surrogates lo hi = ltb hi 0xd800 || (ltb 0xdfff lo && ltb hi 0x110000)

digit_in_scalar :
    (zs : List ℕ) (c : ℕ) {v : ℕ}
    → all (λ z. beside_surrogates z (z + 9)) zs ≡ true
    → digit_in zs c ≡ some v
    → beside_surrogates c c ≡ true
unfolding digit_in
digit_in_scalar [] c h k = cc
digit_in_scalar (z ∷ zs) c {v} h k = ground (arith, digit_in_scalar zs c {v = v})

-- A digit is a scalar value.
pub digit_value_scalar : (c : ℕ) {v : ℕ} → digit_value c ≡ some v → beside_surrogates c c ≡ true
unfolding digit_value
digit_value_scalar c h = digit_in_scalar digit_zeros c refl h

-- The longest run of digits at the front, as values, and what follows it.
unfoldable pub span_digits : Text → List ℕ × Text
unfolding digit_value
span_digits [] = ([], [])
span_digits (c ∷ cs) =
    let (ds, rest) = span_digits cs in
    elim (digit_value c) [ none ↦ ([], c ∷ cs) | some d ↦ (d ∷ ds, rest) ]

-- `int` of a run of digits.
unfoldable pub number_from : ℕ → List ℕ → ℕ
number_from n [] = n
number_from n (d ∷ ds) = number_from (n * 10 + d) ds

unfoldable pub number : List ℕ → ℕ
unfolding number_from
number ds = number_from 0 ds

unfoldable pub drop_while : (ℕ → Bool) → Text → Text
drop_while p [] = []
drop_while p (c ∷ cs) = if p c then drop_while p cs else c ∷ cs

unfoldable pub take_while : (ℕ → Bool) → Text → Text
take_while p [] = []
take_while p (c ∷ cs) = if p c then c ∷ take_while p cs else []

unfoldable pub lstrip : Text → Text
unfolding drop_while is_space
lstrip t = drop_while is_space t

unfoldable pub rstrip : Text → Text
unfolding lstrip
rstrip t = reverse (lstrip (reverse t))

unfoldable pub strip : Text → Text
unfolding rstrip
strip t = rstrip (lstrip t)

-- `str.splitlines`: a line end closes a line, and no empty line stands last. `cr` says that the
-- last character was "\r", so that "\r\n" counts once; `part` is the current line, reversed.
unfoldable pub lines_from : Text → Bool → Text → List Text
unfolding is_line_end
lines_from part cr [] = elim part [ [] ↦ [] | c ∷ cs ↦ reverse (c ∷ cs) ∷ [] ]
lines_from part cr (c ∷ cs) = elim (cr && c == 10) [
  | true ↦ lines_from part false cs
  | false ↦ elim (is_line_end c) [
    | true ↦ reverse part ∷ lines_from [] (c == 13) cs
    | false ↦ lines_from (c ∷ part) false cs
  ]
]

unfoldable pub splitlines : Text → List Text
unfolding lines_from
splitlines t = lines_from [] false t

-- `re.search`: the first place where a matcher of a pattern succeeds.
unfoldable pub search_for {ℓ} : {A : Type ℓ} → (Text → Option A) → Text → Option A
search_for m [] = m []
search_for m (c ∷ cs) = elim (m (c ∷ cs)) [ none ↦ search_for m cs | some a ↦ some a ]

-- What follows a prefix, if the text begins with it; `same` compares two characters.
unfoldable pub after_prefix : (ℕ → ℕ → Bool) → Text → Text → Option Text
after_prefix same [] t = some t
after_prefix same (p ∷ ps) [] = none
after_prefix same (p ∷ ps) (c ∷ cs) = if same p c then after_prefix same ps cs else none

abbrev pub same_char : ℕ → ℕ → Bool
same_char p c = p == c

-- The lower case of an ASCII letter.
abbrev pub lower_ascii : ℕ → ℕ
lower_ascii c = if leb b'A' c && leb c b'Z' then c + 32 else c

-- `re.IGNORECASE` on `str`: the characters that match an ASCII letter, the dotted and the dotless
-- i, the long s and the Kelvin sign among them.
abbrev pub fold_char : ℕ → ℕ
fold_char c =
    if c == 304
    then b'i'
    else if c == 305
    then b'i'
    else if c == 383
    then b's'
    else if c == 8490
    then b'k'
    else lower_ascii c

abbrev pub same_folded : ℕ → ℕ → Bool
same_folded p c = fold_char p == fold_char c

abbrev pub same_folded_ascii : ℕ → ℕ → Bool
same_folded_ascii p c = lower_ascii p == lower_ascii c

-- `str(n)` for a natural number; the fuel is enough, since `n` has fewer than n + 1 digits.
unfoldable pub decimal_from : ℕ → ℕ → Text
decimal_from zero n = []
decimal_from (suc fuel) n = elim (ltb n 10) [
  | true ↦ (48 + n) ∷ []
  | false ↦ decimal_from fuel (n / 10) ++ (48 + n % 10) ∷ []
]

unfoldable pub decimal : ℕ → Text
unfolding decimal_from
decimal n = decimal_from (suc n) n

-- `text.split()`: the word that the text begins with, and the words after it.
abbrev pub and_words : Text → List Text → List Text
and_words [] ws = ws
and_words (c ∷ cs) ws = (c ∷ cs) ∷ ws

unfoldable pub split_words : Text → Text × List Text
unfolding is_space
split_words [] = ([], [])
split_words (c ∷ cs) =
    let (w, ws) = split_words cs in if is_space c then ([], and_words w ws) else (c ∷ w, ws)

unfoldable pub words : Text → List Text
words t = let (w, ws) = split_words t in and_words w ws
