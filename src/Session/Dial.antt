-- ===== src/Session/Dial.antt =====
-- Dialling the source, castd/wfdsink/session.py.
use miracast_device.Base.{
  ℕ, zero, suc, ◌+◌, ◌≤◌, ◌<◌, ◌≡◌, inl, inr, refl, Bool, true, false, Result, ok, err, arith,
  Bool-cases,
}
use native.Mathlib.Decide.{dec_lt}
use miracast_device.Rtsp.{Raised, os_error}
use miracast_device.Session.{dial, open_control_connection}

-- The first success from `k` on, among the attempts that are left.
abbrev pub FirstFrom : ℕ → ℕ → (ℕ → Bool) → Result Raised ℕ → Type 0
FirstFrom k n connects (ok j) =
    (k ≤ j) × (j < k + n) × (connects j ≡ true) × ((i : ℕ) → k ≤ i → i < j → connects i ≡ false)
FirstFrom k n connects (err e) = (e ≡ os_error) × ((i : ℕ) → k ≤ i → i < k + n → connects i ≡ false)

dial-here : (n k : ℕ) (connects : ℕ → Bool) → connects k ≡ true → dial (suc n) connects k ≡ ok k
dial-here n k connects e = unfold dial in rw (e, dial)

dial-there :
    (n k : ℕ) (connects : ℕ → Bool)
    → connects k ≡ false
    → dial (suc n) connects k ≡ dial n connects (k + 1)
dial-there n k connects e = unfold dial in rw (e, dial)

-- A failure at `k`, put in front of failures behind it.
also_at :
    (k i : ℕ) (connects : ℕ → Bool)
    → connects k ≡ false
    → (k + 1 ≤ i → connects i ≡ false)
    → k ≤ i
    → connects i ≡ false
also_at k i connects e later h = elim (dec_lt k i) [
  | yes lt ↦ later (omega arith)
  | no ge ↦ let same : i ≡ k = omega arith in rw same e
]

FirstFrom-cons :
    (k n : ℕ) (connects : ℕ → Bool) (r : Result Raised ℕ)
    → connects k ≡ false
    → FirstFrom (k + 1) n connects r
    → FirstFrom k (suc n) connects r
FirstFrom-cons k n connects (ok j) e h =
    (omega arith, omega arith, h.2, λ i a b. also_at k i connects e (λ c. h.3 i c b) a)
FirstFrom-cons k n connects (err y) e h =
    (h.0, λ i a b. also_at k i connects e (λ c. h.1 i c (omega arith)) a)

dial_first : (n k : ℕ) (connects : ℕ → Bool) → FirstFrom k n connects (dial n connects k)
dial_first zero k connects = unfold dial in (refl, λ i a b. absurd (omega arith))
dial_first (suc n) k connects = elim (Bool-cases (connects k)) [
  | inl e ↦
      rw (dial-here n k connects e) (omega arith, omega arith, e, λ i a b. absurd (omega arith))
  | inr e ↦
      rw (dial-there n k connects e)
        (FirstFrom-cons k n connects _ e (dial_first n (k + 1) connects))
]

-- The socket returned is that of the first attempt that succeeds. If an `OSError` is raised, every
-- one of the attempts has failed, and nothing else is ever raised.
pub open_control_connection_first :
    (attempts : ℕ) (connects : ℕ → Bool)
    → FirstFrom 0 attempts connects (open_control_connection attempts connects)
unfolding open_control_connection
open_control_connection_first attempts connects = dial_first attempts 0 connects
