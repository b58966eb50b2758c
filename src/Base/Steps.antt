-- ===== src/Base/Steps.antt =====
-- Code that changes a state and may raise: what it has written stays written when it raises.
use miracast_device.Base.Errors.{Result, ok, err}

module _ {S E : Type 0} where
  abbrev pub continue {ℓ κ} :
      {A : Type ℓ} {B : Type κ} → Result E A → (A → S → Result E B × S) → S → Result E B × S
  continue (ok a) f s = f a s
  continue (err e) f s = (err e, s)

  infixl 5 ◌>>=◌ ◌>>◌
  abbrev pub ◌>>=◌ {ℓ κ} :
      {A : Type ℓ} {B : Type κ}
      → (S → Result E A × S)
      → (A → S → Result E B × S)
      → S
      → Result E B × S
  ◌>>=◌ m f s = let (r, s') = m s in continue r f s'

  abbrev pub ◌>>◌ {ℓ} :
      {B : Type ℓ} → (S → Result E (Unit {0}) × S) → (S → Result E B × S) → S → Result E B × S
  m >> k = m >>= λ _. k
