-- ===== src/Framebuffer/Pixels.antt =====
-- The 16-bit pixels of castd/render/framebuffer.py, read back as a display reads them.
use miracast_device.Base.{
  ℕ, ◌+◌, ◌*◌, ◌/◌, ◌%◌, ◌<◌, ◌≡◌, refl, List, [], ◌∷◌, ok, All, map, length, arith,
}
use Prim.Native.Nat.{bit_and}
use miracast_device.Framebuffer.{pack, rgb565}
use miracast_device.Framebuffer.Bits.{rgb565_lem, low_byte}

pub record Pixel : Type 0 where
  pub red : ℕ
  pub green : ℕ
  pub blue : ℕ

pub record IsBytes (p : Pixel) : Type 0 where
  pub red_byte : p.red < 256
  pub green_byte : p.green < 256
  pub blue_byte : p.blue < 256

abbrev pub flat : List Pixel → List ℕ
flat [] = []
flat (p ∷ ps) = p.red ∷ p.green ∷ p.blue ∷ flat ps

-- Five, six and five bits, little-endian: the reading of RGB565.
abbrev pub shade : ℕ → Pixel
shade v = record { red = v / 2048; green = v / 32 % 64; blue = v % 32 }

abbrev pub shades : List ℕ → List Pixel
shades (lo ∷ hi ∷ rest) = shade (lo + 256 * hi) ∷ shades rest
shades _ = []

-- The bits that are kept of a pixel.
abbrev pub coarse : Pixel → Pixel
coarse p = record { red = p.red / 8; green = p.green / 4; blue = p.blue / 8 }

abbrev pub IsByte : ℕ → Type 0
IsByte b = b < 256

shade_of :
    (p : Pixel)
    → IsBytes p
    → let v = rgb565 p.red p.green p.blue in
      (v < 65536) × (shade (bit_and v 0xff + 256 * (v / 256)) ≡ coarse p) × (bit_and v 0xff < 256)
shade_of p h =
    let e = rgb565_lem p.red p.green p.blue h.red_byte h.green_byte h.blue_byte in
    let l = low_byte (rgb565 p.red p.green p.blue) in
    let whole : bit_and (rgb565 p.red p.green p.blue) 0xff
          + 256 * (rgb565 p.red p.green p.blue / 256)
        ≡ p.red / 8 * 2048 + p.green / 4 * 32 + p.blue / 8 =
      omega (arith, e, l) in
    let r₁ : (p.red / 8 * 2048 + p.green / 4 * 32 + p.blue / 8) / 2048 ≡ p.red / 8 =
      omega (arith, h.green_byte, h.blue_byte) in
    let r₂ : (p.red / 8 * 2048 + p.green / 4 * 32 + p.blue / 8) / 32 % 64 ≡ p.green / 4 =
      omega (arith, h.green_byte, h.blue_byte) in
    let r₃ : (p.red / 8 * 2048 + p.green / 4 * 32 + p.blue / 8) % 32 ≡ p.blue / 8 =
      omega (arith, h.blue_byte) in
    (
      omega (arith, e, h.red_byte, h.green_byte, h.blue_byte),
      rw (whole, r₁, r₂, r₃) refl,
      omega (arith, l),
    )

-- The packed bytes of some pixels.
pub record IsPacked (ps : List Pixel) (bytes : List ℕ) : Type 0 where
  pub two_each : length bytes ≡ 2 * length ps
  pub in_range : All IsByte bytes
  pub read_back : shades bytes ≡ map coarse ps

-- A picture of whole pixels is packed without an error into two bytes for each pixel, and a display
-- that reads the bytes as RGB565 finds the five, six and five highest bits of each pixel, in order.
pub pack_read :
    (ps : List Pixel)
    → All IsBytes ps
    → (bytes : List ℕ) × (pack (flat ps) ≡ ok bytes) × IsPacked ps bytes
unfolding pack
pack_read [] h = ([], refl, record { two_each = omega arith; in_range = tt; read_back = refl })
pack_read (p ∷ ps) h =
    let (bytes, packed, fits) = pack_read ps h.1 in
    let v = rgb565 p.red p.green p.blue in
    let (small, read, low) = shade_of p h.0 in
    (
      bit_and v 0xff ∷ v / 256 ∷ bytes,
      rw packed (ground (arith, small)),
      record {
        two_each = omega (arith, fits.two_each);
        in_range = (low, (omega (arith, small), fits.in_range));
        read_back = rw (read, fits.read_back) refl;
      },
    )
