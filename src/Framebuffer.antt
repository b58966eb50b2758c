-- ===== src/Framebuffer.antt =====
-- castd/render/framebuffer.py: `paint_framebuffer`. The picture library is a parameter: the bytes
-- of the image converted to RGB and resized, in the two raw modes that are asked for.
pub mod Bits
pub mod Pixels
pub mod Scanlines
pub mod Geometry
use Prim.Native.Nat.{bit_or, bit_and}
use miracast_device.Base.{
  ℕ, zero, suc, ◌+◌, ◌-◌, ◌*◌, ◌/◌, ◌^◌, Bool, true, false, List, [], ◌∷◌, ◌++◌, Result, ok, err,
  if◌then◌else◌, ltb, ◌==◌, take, drop, replicate,
}

pub record FbGeometry : Type 0 where
  pub width : ℕ
  pub height : ℕ
  pub bits_per_pixel : ℕ
  pub stride : ℕ

-- `img.tobytes()` and `img.tobytes("raw", "BGRX")`.
pub record Image : Type 0 where
  pub rgb : List ℕ
  pub bgrx : List ℕ

pub data PaintError : Type 0 where
  index_error value_error : PaintError

-- The 16 bits of a pixel.
unfoldable pub rgb565 : ℕ → ℕ → ℕ → ℕ
rgb565 r g b = bit_or (bit_or (bit_and r 0xf8 * 2 ^ 8) (bit_and g 0xfc * 2 ^ 3)) (b / 2 ^ 3)

abbrev pub then_pixels : ℕ → Result PaintError (List ℕ) → Result PaintError (List ℕ)
then_pixels value (err e) = err e
then_pixels value (ok bytes) =
    if ltb (value / 2 ^ 8) 256
    then ok (bit_and value 0xff ∷ value / 2 ^ 8 ∷ bytes)
    else err value_error

-- The loop over the bytes of the picture, three at a time: a byte array refuses a value above 255,
-- and a pixel that is not whole is out of range.
unfoldable pub pack : List ℕ → Result PaintError (List ℕ)
unfolding rgb565
pack [] = ok []
pack (r ∷ g ∷ b ∷ rest) = then_pixels (rgb565 r g b) (pack rest)
pack _ = err index_error

-- `data[first : last]`.
abbrev pub slice : ℕ → ℕ → List ℕ → List ℕ
slice first last bytes = take (last - first) (drop first bytes)

-- The rows from `row` on, each with its padding.
unfoldable pub pad_rows : List ℕ → ℕ → List ℕ → ℕ → ℕ → List ℕ
pad_rows bytes row_bytes padding row zero = []
pad_rows bytes row_bytes padding row (suc rows) =
    (slice (row * row_bytes) ((row + 1) * row_bytes) bytes ++ padding)
    ++ pad_rows bytes row_bytes padding (suc row) rows

unfoldable pub pad : FbGeometry → ℕ → List ℕ → List ℕ
unfolding pad_rows
pad geometry row_bytes bytes =
    if ltb row_bytes geometry.stride
    then pad_rows bytes row_bytes (replicate (geometry.stride - row_bytes) 0) 0 geometry.height
    else bytes

abbrev padded : FbGeometry → ℕ → Result PaintError (List ℕ) → Result PaintError (List ℕ)
padded geometry row_bytes (err e) = err e
padded geometry row_bytes (ok bytes) = ok (pad geometry row_bytes bytes)

-- The bytes that are written to the framebuffer.
unfoldable pub paint_framebuffer : (ℕ → ℕ → Image) → FbGeometry → Result PaintError (List ℕ)
unfolding pack pad
paint_framebuffer resized geometry =
    let img = resized geometry.width geometry.height in
    if geometry.bits_per_pixel == 32
    then padded geometry (geometry.width * 4) (ok img.bgrx)
    else if geometry.bits_per_pixel == 16
    then padded geometry (geometry.width * 2) (pack img.rgb)
    else err value_error
