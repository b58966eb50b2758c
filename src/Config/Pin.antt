-- ===== src/Config/Pin.antt =====
-- The WPS PIN check of castd/config.py against the checksum rule of Wi-Fi Simple Config.
use miracast_device.Base.{
  ℕ, zero, suc, ◌+◌, ◌-◌, ◌*◌, ◌%◌, ◌<◌, ◌≡◌, ◌≢◌, ◌↔◌, ◌⊎◌, inl, inr, refl, true, false, List, [],
  ◌∷◌, ◌++◌, map, some, Text, All, length, arith, digit_value, span_digits, number, Bool-cases,
  length-append,
}
use miracast_device.Config.{wps_pin_checksum, pin_digits, checksum_matches, is_valid_wps_pin}

-- The decimal text of a list of digits.
abbrev pub digit_text : List ℕ → Text
digit_text ds = map (λ d. 48 + d) ds

abbrev pub AreDigits : List ℕ → Type 0
AreDigits ds = All (λ d. d < 10) ds

digit_value_ascii : (d : ℕ) → d < 10 → digit_value (48 + d) ≡ some d
unfolding digit_value
digit_value_ascii d h = ground arith

span_digits-digit_text : (ds : List ℕ) → AreDigits ds → span_digits (digit_text ds) ≡ (ds, [])
unfolding span_digits
span_digits-digit_text [] h = refl
span_digits-digit_text (d ∷ ds) h =
    ground (arith, digit_value_ascii d h.0, span_digits-digit_text ds h.1)

pin_digits-digit_text :
    (ds : List ℕ) → AreDigits ds → length ds ≡ 8 → pin_digits (digit_text ds) ≡ some ds
unfolding pin_digits
pin_digits-digit_text ds h k = ground (arith, span_digits-digit_text ds h)

-- The weights 3, 1, 3, 1, ... from the left; `w` is the first of them.
abbrev pub weighted : ℕ → List ℕ → ℕ
weighted w [] = 0
weighted w (d ∷ ds) = w * d + weighted (4 - w) ds

-- The number of seven digits, and the checksum over its digits.
checksum_digits :
    (a b c d e f g : ℕ)
    → AreDigits (a ∷ b ∷ c ∷ d ∷ e ∷ f ∷ g ∷ [])
    → wps_pin_checksum (number (a ∷ b ∷ c ∷ d ∷ e ∷ f ∷ g ∷ []))
      ≡ (10 - weighted 3 (a ∷ b ∷ c ∷ d ∷ e ∷ f ∷ g ∷ []) % 10) % 10
unfolding wps_pin_checksum number
checksum_digits a b c d e f g h = omega arith

checksum_matches_iff :
    (ds : List ℕ)
    → AreDigits ds
    → length ds ≡ 8
    → (checksum_matches ds ≡ true) ↔ (weighted 3 ds % 10 ≡ 0)
unfolding checksum_matches number
checksum_matches_iff (a ∷ b ∷ c ∷ d ∷ e ∷ f ∷ g ∷ x ∷ []) h k =
    ground (arith, checksum_digits a b c d e f g (omega arith))
checksum_matches_iff _ h k = absurd (omega arith)

is_valid-digit_text :
    (ds : List ℕ)
    → AreDigits ds
    → length ds ≡ 8
    → is_valid_wps_pin (digit_text ds) ≡ checksum_matches ds
unfolding is_valid_wps_pin
is_valid-digit_text ds h k = ground (arith, pin_digits-digit_text ds h k)

-- Eight digits are a valid WPS PIN exactly when their sum with the weights 3, 1, 3, 1, ... is a
-- multiple of ten.
pub is_valid_wps_pin_iff :
    (ds : List ℕ)
    → AreDigits ds
    → length ds ≡ 8
    → (is_valid_wps_pin (digit_text ds) ≡ true) ↔ (weighted 3 ds % 10 ≡ 0)
is_valid_wps_pin_iff ds h k = rw (is_valid-digit_text ds h k) (checksum_matches_iff ds h k)

-- The weight of a place, and what the other places add.
abbrev weight_at : ℕ → ℕ → ℕ
weight_at w zero = w
weight_at w (suc n) = weight_at (4 - w) n

weighted_place :
    (w : ℕ) (xs : List ℕ) (a b : ℕ) (ys : List ℕ)
    → weighted w (xs ++ a ∷ ys) + weight_at w (length xs) * b
      ≡ weighted w (xs ++ b ∷ ys) + weight_at w (length xs) * a
weighted_place w [] a b ys = omega arith
weighted_place w (x ∷ xs) a b ys = omega (arith, weighted_place (4 - w) xs a b ys)

weight_at_odd :
    (n : ℕ)
    → ((weight_at 3 n ≡ 3) ⊎ (weight_at 3 n ≡ 1)) × ((weight_at 1 n ≡ 3) ⊎ (weight_at 1 n ≡ 1))
weight_at_odd zero = (inl refl, inr refl)
weight_at_odd (suc n) = let (p, q) = weight_at_odd n in (q, p)

AreDigits-replace :
    (xs : List ℕ) (a b : ℕ) (ys : List ℕ)
    → AreDigits (xs ++ a ∷ ys)
    → b < 10
    → (a < 10) × AreDigits (xs ++ b ∷ ys)
AreDigits-replace [] a b ys h k = (h.0, (k, h.1))
AreDigits-replace (x ∷ xs) a b ys h k =
    let (p, q) = AreDigits-replace xs a b ys h.1 k in (p, (h.0, q))

weighted_differs :
    (w a b s t : ℕ)
    → (w ≡ 3) ⊎ (w ≡ 1)
    → a < 10
    → b < 10
    → a ≢ b
    → s + w * b ≡ t + w * a
    → s % 10 ≡ 0
    → t % 10 ≢ 0
weighted_differs w a b s t (inl e) ha hb ne eq h k = ne (omega (arith, rw e at eq))
weighted_differs w a b s t (inr e) ha hb ne eq h k = ne (omega (arith, rw e at eq))

-- A valid PIN with any one digit changed is not valid.
pub pin_single_error :
    (xs : List ℕ) (a b : ℕ) (ys : List ℕ)
    → AreDigits (xs ++ a ∷ ys)
    → length (xs ++ a ∷ ys) ≡ 8
    → b < 10
    → a ≢ b
    → is_valid_wps_pin (digit_text (xs ++ a ∷ ys)) ≡ true
    → is_valid_wps_pin (digit_text (xs ++ b ∷ ys)) ≡ false
pin_single_error xs a b ys h k hb ne v =
    let (ha, h') = AreDigits-replace xs a b ys h hb in
    let k' : length (xs ++ b ∷ ys) ≡ 8 =
      omega (arith, length-append xs (a ∷ ys), length-append xs (b ∷ ys)) in
    let differs =
      weighted_differs (weight_at 3 (length xs)) a b _ _ (weight_at_odd (length xs)).0 ha hb ne
        (weighted_place 3 xs a b ys) ((is_valid_wps_pin_iff _ h k).0 v) in
    elim (Bool-cases (is_valid_wps_pin (digit_text (xs ++ b ∷ ys)))) [
      | inl valid ↦ absurd (differs ((is_valid_wps_pin_iff _ h' k').0 valid))
      | inr invalid ↦ invalid
    ]

-- Every seven digits have a checksum digit that completes them to a valid PIN: the one that
-- `wps_pin_checksum` computes, and no other.
pub wps_pin_checksum_completes :
    (ds : List ℕ) (x : ℕ)
    → AreDigits ds
    → length ds ≡ 7
    → x < 10
    → (is_valid_wps_pin (digit_text (ds ++ x ∷ [])) ≡ true) ↔ (x ≡ wps_pin_checksum (number ds))
unfolding number
wps_pin_checksum_completes (a ∷ b ∷ c ∷ d ∷ e ∷ f ∷ g ∷ []) x h k hx =
    rw (is_valid-digit_text (a ∷ b ∷ c ∷ d ∷ e ∷ f ∷ g ∷ x ∷ []) (omega arith) refl)
      (unfold checksum_matches in ground arith)
wps_pin_checksum_completes _ x h k hx = absurd (omega arith)
