-- ===== src/Header/Numbers.antt =====
-- The patterns of castd/wfdsink/rtsp.py read back the numbers that a header gives.
use mathlib.Core.List.{map-append}
use miracast_device.Base.{
  ℕ, zero, suc, ◌+◌, ◌-◌, ◌*◌, ◌/◌, ◌%◌, ◌≤◌, ◌<◌, ◌≡◌, refl, sym, ap, ◌∙◌, Bool, true, false, List,
  [], ◌∷◌, ◌++◌, Option, none, some, Text, all, map, length, length-append, ltb, leb, arith,
  decimal, decimal_from, span_digits, number, number_from, digit_value, digit_in, digit_zeros, drop,
  ◌&&◌, take_while, drop_while, is_space, search_for, Bool-cases, inl, inr,
}
use miracast_device.Base.Decimal.{all-decimal}
use miracast_device.Header.{int_of_digits, is_ascii_digit, non_empty, is_digit}

pub decimal-ascii : (n : ℕ) → all is_ascii_digit (decimal n) ≡ true
decimal-ascii n = all-decimal is_ascii_digit (λ d h. ground (arith, h)) n

digit_in-here :
    (z : ℕ) (zs : List ℕ) (c : ℕ)
    → (leb z c && ltb c (z + 10)) ≡ true
    → digit_in (z ∷ zs) c ≡ some (c - z)
unfolding digit_in
digit_in-here z zs c h = rw h refl

digit_value-ascii : (c : ℕ) → is_ascii_digit c ≡ true → digit_value c ≡ some (c - 48)
unfolding digit_value
digit_value-ascii c h = digit_in-here 48 (drop 1 digit_zeros) c (ground (arith, h))

abbrev values : Text → List ℕ
values t = map (λ c. c - 48) t

span_digits-ascii : (t : Text) → all is_ascii_digit t ≡ true → span_digits t ≡ (values t, [])
unfolding span_digits
span_digits-ascii [] h = refl
span_digits-ascii (c ∷ t) h =
    rw
      (
        digit_value-ascii c (ground (arith, h)),
        span_digits,
        span_digits-ascii t (ground (arith, h)),
      )
      refl

number_from-append :
    (n : ℕ) (ds : List ℕ) (d : ℕ) → number_from n (ds ++ d ∷ []) ≡ number_from n ds * 10 + d
unfolding number_from
number_from-append n [] d = refl
number_from-append n (e ∷ ds) d = number_from-append (n * 10 + e) ds d

number-decimal_from : (fuel n : ℕ) → n < fuel → number_from 0 (values (decimal_from fuel n)) ≡ n
unfolding decimal_from number_from
number-decimal_from zero n h = elim h [ ]
number-decimal_from (suc fuel) n h = elim (Bool-cases (ltb n 10)) [
  | inl e ↦ rw (e, decimal_from) (omega arith)
  | inr e ↦
      let big : 10 ≤ n = ground (arith, e) in
      let earlier = number-decimal_from fuel (n / 10) (omega arith) in
      let shown =
        map-append (λ (c : ℕ). c - 48) (decimal_from fuel (n / 10)) ((48 + n % 10) ∷ []) in
      rw (e, decimal_from, shown)
        (number_from-append 0 (values (decimal_from fuel (n / 10))) (48 + n % 10 - 48)
          ∙ rw earlier (omega arith))
]

-- One more digit for a bound ten times as high.
longer :
    (bound k : ℕ)
    → ((fuel n : ℕ) → n < bound → length (decimal_from fuel n) ≤ k)
    → (fuel n : ℕ) → n < bound * 10
    → length (decimal_from fuel n) ≤ k + 1
unfolding decimal_from
longer bound k h zero n b = omega arith
longer bound k h (suc fuel) n b = elim (Bool-cases (ltb n 10)) [
  | inl e ↦ rw (e, decimal_from) (omega arith)
  | inr e ↦
      rw (e, decimal_from, length-append (decimal_from fuel (n / 10)) ((48 + n % 10) ∷ []))
        (omega (arith, h fuel (n / 10) (omega (arith, b))))
]

no_digits : (fuel n : ℕ) → n < 1 → length (decimal_from fuel n) ≤ 1
unfolding decimal_from
no_digits zero n h = omega arith
no_digits (suc fuel) n h =
    let small : ltb n 10 ≡ true = ground (arith, h) in rw (small, decimal_from) (omega arith)

length-decimal : (n : ℕ) → n < 100000 → length (decimal n) ≤ 6
unfolding decimal
length-decimal n h =
    longer 10000 5 (longer 1000 4 (longer 100 3 (longer 10 2 (longer 1 1 no_digits)))) (suc n) n h

-- A number of five digits at most is read back.
pub int_of_digits-decimal : (n : ℕ) → n < 100000 → int_of_digits (decimal n) ≡ some n
unfolding int_of_digits number decimal
int_of_digits-decimal n h =
    rw
      (span_digits-ascii (decimal n) (decimal-ascii n), number-decimal_from (suc n) n (omega arith))
      (ground (arith, length-decimal n h))

-- A search that succeeds at once.
pub search_for-here :
    {A : Type 0} (m : Text → Option A) (c : ℕ) (t : Text) (a : A)
    → m (c ∷ t) ≡ some a
    → search_for m (c ∷ t) ≡ some a
unfolding search_for
search_for-here m c t a h = rw (h, search_for) refl

-- What stands in front of a place where a search may succeed.
pub search_for-skip :
    {A : Type 0} (m : Text → Option A) (p : ℕ → Bool) (t rest : Text)
    → ((c : ℕ) (r : Text) → p c ≡ true → m (c ∷ r) ≡ none)
    → all p t ≡ true
    → search_for m (t ++ rest) ≡ search_for m rest
unfolding search_for
search_for-skip m p [] rest fails h = refl
search_for-skip m p (c ∷ t) rest fails h =
    rw (fails c (t ++ rest) (ground (arith, h)))
      (search_for-skip m p t rest fails (ground (arith, h)))

-- A run that something ends.
pub take_while-run :
    (p : ℕ → Bool) (t : Text) (c : ℕ) (rest : Text)
    → all p t ≡ true
    → p c ≡ false
    → take_while p (t ++ c ∷ rest) ≡ t
unfolding take_while
take_while-run p [] c rest h k = rw k refl
take_while-run p (x ∷ t) c rest h k =
    ground (arith, take_while-run p t c rest (ground (arith, h)) k, h)

snoc-cons : (t : Text) (d : ℕ) → (c : ℕ) × (r : Text) × (t ++ d ∷ [] ≡ c ∷ r)
snoc-cons [] d = (d, [], refl)
snoc-cons (c ∷ t) d = (c, t ++ d ∷ [], refl)

decimal-cons : (n : ℕ) → (c : ℕ) × (r : Text) × (decimal n ≡ c ∷ r)
unfolding decimal decimal_from
decimal-cons n = elim (Bool-cases (ltb n 10)) [
  | inl e ↦ (48 + n, [], rw (e, decimal_from) refl)
  | inr e ↦
      let (c, r, h) = snoc-cons (decimal_from n (n / 10)) (48 + n % 10) in
      (c, r, rw (e, decimal_from) h)
]

-- A number with something behind it that ends the run.
pub number_here :
    (p : ℕ → Bool) (n c : ℕ) (rest : Text)
    → ((d : ℕ) → is_ascii_digit d ≡ true → p d ≡ true)
    → p c ≡ false
    → non_empty (take_while p (decimal n ++ c ∷ rest)) ≡ some (decimal n)
number_here p n c rest digits ends =
    let (d, r, shape) = decimal-cons n in
    rw
      (
        take_while-run p (decimal n) c rest
            (all-decimal p (λ e k. digits (48 + e) (ground (arith, k))) n) ends,
        shape,
      )
      refl

-- A number behind spaces.
pub number_read :
    (p space : ℕ → Bool) (n c : ℕ) (rest : Text)
    → ((d : ℕ) → is_ascii_digit d ≡ true → p d ≡ true)
    → ((d : ℕ) → is_ascii_digit d ≡ true → space d ≡ false)
    → p c ≡ false
    → non_empty (take_while p (drop_while space (decimal n ++ c ∷ rest))) ≡ some (decimal n)
unfolding drop_while
number_read p space n c rest digits spaces ends =
    let (d, r, shape) = decimal-cons n in
    let ascii : all is_ascii_digit (d ∷ r) ≡ true =
      ap (all is_ascii_digit) (sym shape) ∙ decimal-ascii n in
    let kept : drop_while space (decimal n ++ c ∷ rest) ≡ decimal n ++ c ∷ rest =
      rw (shape, spaces d (ground (arith, ascii))) refl in
    rw kept (number_here p n c rest digits ends)

pub is_digit-ascii : (c : ℕ) → is_ascii_digit c ≡ true → is_digit c ≡ true
is_digit-ascii c h = rw (is_digit, digit_value-ascii c h) refl

pub ascii-not-space : (c : ℕ) → is_ascii_digit c ≡ true → is_space c ≡ false
unfolding is_space
ascii-not-space c h = ground (arith, h)
