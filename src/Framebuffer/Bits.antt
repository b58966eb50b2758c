-- ===== src/Framebuffer/Bits.antt =====
-- The binary digits of a pixel in castd/render/framebuffer.py, as arithmetic.
use Prim.Native.Nat.{bit_or, bit_and, digits, max, bit_or-bitwise, bit_and-bitwise, min}
use native.Mathlib.Nat.{pow-suc, one-le-pow}
use miracast_device.Base.{
  ℕ, zero, suc, ◌+◌, ◌-◌, ◌*◌, ◌/◌, ◌%◌, ◌^◌, ◌≤◌, ◌<◌, ◌≡◌, refl, ap, Bool, true, ◌&&◌, ◌==◌,
  ==_iff, arith,
}
use miracast_device.Framebuffer.{rgb565}

-- With fuel for the first number, `|` of a multiple of 2 ^ k and a number below it is their sum.
or_zero : (n a : ℕ) → a ≤ n → digits (λ y. y) max n a 0 ≡ a
or_zero zero a h = omega arith
or_zero (suc n) zero h = refl
or_zero (suc n) (suc a) h = omega (arith, or_zero n (suc a / 2) (omega arith))

half_of : (k q a : ℕ) → a ≡ q * 2 ^ suc k → (a / 2 ≡ q * 2 ^ k) × (a % 2 ≡ 0)
half_of k q a h =
    let e : q * 2 ^ suc k ≡ q * (2 * 2 ^ k) = ap (λ (t : ℕ). q * t) (omega (arith, pow-suc 2 k)) in
    let f : q * (2 * 2 ^ k) ≡ 2 * (q * 2 ^ k) = omega arith in
    (omega (arith, h, e, f), omega (arith, h, e, f))

or_below : (k n q a r : ℕ) → a ≡ q * 2 ^ k → r < 2 ^ k → a ≤ n → digits (λ y. y) max n a r ≡ a + r
or_below zero n q a r e h f = ground (arith, or_zero n a f)
or_below (suc k) zero q zero r e h f = omega arith
or_below (suc k) zero q (suc a) r e h f = absurd (omega arith)
or_below (suc k) (suc n) q zero r e h f = omega arith
or_below (suc k) (suc n) q (suc a) r e h f =
    let (half, even) = half_of k q (suc a) e in
    omega (
      arith,
      even,
      or_below k n q (suc a / 2) (r / 2) half (omega (arith, h, pow-suc 2 k)) (omega arith),
    )

bit_or_below : (k q r : ℕ) → r < 2 ^ k → bit_or (q * 2 ^ k) r ≡ q * 2 ^ k + r
bit_or_below k q r h =
    simp bit_or-bitwise (or_below k (q * 2 ^ k) q (q * 2 ^ k) r refl h (omega arith))

-- The masks, by a table of all bytes.
unfoldable below : ℕ → (ℕ → Bool) → Bool
below zero p = true
below (suc n) p = p n && below n p

below_lem : (n : ℕ) (p : ℕ → Bool) (x : ℕ) → below n p ≡ true → x < n → p x ≡ true
unfolding below
below_lem zero p x h lt = absurd (omega arith)
below_lem (suc n) p x h lt = ground (arith, below_lem n p x)

masks : below 256 (λ x. (bit_and x 0xf8 == x / 8 * 8) && (bit_and x 0xfc == x / 4 * 4)) ≡ true
unfolding below
masks = refl

-- The value of a pixel: the five, six and five highest bits of the three bytes.
pub rgb565_lem :
    (r g b : ℕ) → r < 256 → g < 256 → b < 256 → rgb565 r g b ≡ r / 8 * 2048 + g / 4 * 32 + b / 8
unfolding rgb565
rgb565_lem r g b hr hg hb =
    let (mr, _) = masked r hr in
    let (_, mg) = masked g hg in
    let red : bit_and r 0xf8 * 256 ≡ r / 8 * 2048 = omega (arith, mr) in
    let green : bit_and g 0xfc * 8 ≡ g / 4 * 32 = omega (arith, mg) in
    let both : r / 8 * 2048 + g / 4 * 32 ≡ (r / 8 * 64 + g / 4) * 32 = omega arith in
    rw (red, green, bit_or_below 11 (r / 8) (g / 4 * 32) (omega arith), both)
      (bit_or_below 5 (r / 8 * 64 + g / 4) (b / 8) (omega arith))
  where
    masked : (x : ℕ) → x < 256 → (bit_and x 0xf8 ≡ x / 8 * 8) × (bit_and x 0xfc ≡ x / 4 * 4)
    masked x h = ground (
      arith,
      below_lem 256 _ x masks h,
      ==_iff (bit_and x 0xf8) (x / 8 * 8),
      ==_iff (bit_and x 0xfc) (x / 4 * 4),
    )

-- `& 0xff` is the remainder by 256.
and_low :
    (k n q a r : ℕ)
    → a ≡ q * 2 ^ k + r
    → r < 2 ^ k
    → a ≤ n
    → digits (λ y. 0) min n a (2 ^ k - 1) ≡ r
and_low k zero q a r e h f = omega (arith, e, f)
and_low k (suc n) q zero r e h f = omega (arith, e)
and_low zero (suc n) q (suc a) r e h f =
    omega
      (arith, h, and_low zero n (suc a / 2) (suc a / 2) 0 (omega arith) (omega arith) (omega arith))
and_low (suc k) (suc n) q (suc a) r e h f =
    let whole : 1 ≤ 2 ^ k = one-le-pow k 2 (omega arith) in
    let half : (2 ^ suc k - 1) / 2 ≡ 2 ^ k - 1 = omega (arith, pow-suc 2 k, whole) in
    let odd : (2 ^ suc k - 1) % 2 ≡ 1 = omega (arith, pow-suc 2 k, whole) in
    let (high, even) = half_of k q (q * 2 ^ suc k) refl in
    let rest =
      and_low k n q (suc a / 2) (r / 2) (omega (arith, e, high, even))
        (omega (arith, h, pow-suc 2 k)) (omega (arith, f)) in
    rw (half, odd) (omega (arith, rest, e, even))

pub low_byte : (a : ℕ) → bit_and a 0xff ≡ a % 256
low_byte a =
    simp bit_and-bitwise
      (and_low 8 a (a / 256) a (a % 256) (omega arith) (omega arith) (omega arith))
