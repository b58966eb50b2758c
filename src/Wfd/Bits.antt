-- ===== src/Wfd/Bits.antt =====
-- The fields of the device information bitmap of castd/p2p/wfd_ie.py.
use Prim.Native.Nat.{bit_or}
use miracast_device.Base.{
  ℕ, zero, suc, ◌+◌, ◌%◌, ◌<◌, ◌≡◌, refl, Bool, true, false, if◌then◌else◌, arith,
}
use miracast_device.Wfd.{device_bitmap, wfd_available_for_session}

bit_or_available : (n : ℕ) → n < 4 → bit_or n wfd_available_for_session ≡ n + 16
bit_or_available zero h = refl
bit_or_available (suc zero) h = refl
bit_or_available (suc (suc zero)) h = refl
bit_or_available (suc (suc (suc zero))) h = refl
bit_or_available (suc (suc (suc (suc n)))) h = absurd (omega arith)

-- The bitmap is the device type in bits 1:0 and the availability 0b00 or 0b01 in bits 5:4.
pub device_bitmap_lem :
    (device_type : ℕ) (available : Bool)
    → device_bitmap device_type available ≡ device_type % 4 + (if available then 16 else 0)
unfolding device_bitmap
device_bitmap_lem device_type true = bit_or_available (device_type % 4) (omega arith)
device_bitmap_lem device_type false = omega arith
