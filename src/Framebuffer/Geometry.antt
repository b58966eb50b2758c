-- ===== src/Framebuffer/Geometry.antt =====
-- castd/render/framebuffer.py: `read_fb_geometry`. The numbers of sysfs are parsed as integers.
use miracast_device.Base.{
  ℕ, zero, suc, ◌+◌, ◌*◌, ◌/◌, ◌≡◌, ◌⊎◌, inl, inr, refl, ap, List, [], ◌∷◌, Option, none, some,
  Text, Result, ok, err, ◌>>=◌, codes, split, strip, arith,
}
use miracast_device.Config.{ℤ, pos, negsuc, int_of}
use miracast_device.Framebuffer.{FbGeometry, Image, paint_framebuffer}
use miracast_device.Framebuffer.Pixels.{Pixel}
use miracast_device.Framebuffer.Scanlines.{
  IsImage, IsPainted, deep, high, paint_framebuffer_scanlines,
}

-- The three files; none is an `OSError`.
pub record Sysfs : Type 0 where
  pub virtual_size : Option Text
  pub bits_per_pixel : Option Text
  pub stride : Option Text

pub data ReadError : Type 0 where
  os_error value_error : ReadError

pub record IntGeometry : Type 0 where
  pub width : ℤ
  pub height : ℤ
  pub bits_per_pixel : ℤ
  pub stride : ℤ

-- Minus a number.
abbrev minus : ℕ → ℤ
minus zero = pos 0
minus (suc n) = negsuc n

abbrev pub times : ℤ → ℤ → ℤ
times (pos a) (pos b) = pos (a * b)
times (pos a) (negsuc b) = minus (a * (b + 1))
times (negsuc a) (pos b) = minus ((a + 1) * b)
times (negsuc a) (negsuc b) = pos ((a + 1) * (b + 1))

-- `// 8`, which rounds down.
abbrev pub eighth : ℤ → ℤ
eighth (pos a) = pos (a / 8)
eighth (negsuc a) = negsuc (a / 8)

abbrev read_text : Option Text → Result ReadError Text
read_text none = err os_error
read_text (some t) = ok (strip t)

abbrev int_or_raise : Option ℤ → Result ReadError ℤ
int_or_raise none = err value_error
int_or_raise (some v) = ok v

-- `a, b = parts`.
abbrev two_parts : List Text → Result ReadError (Text × Text)
two_parts (a ∷ b ∷ []) = ok (a, b)
two_parts _ = err value_error

-- The stride, or the width in bytes where the file is missing.
unfoldable pub stride_of : Option Text → Text → ℤ → Result ReadError ℤ
unfolding int_of
stride_of (some t) width_s bpp = int_or_raise (int_of (strip t))
stride_of none width_s bpp = do width ← int_or_raise (int_of width_s); ok (eighth (times width bpp))

unfoldable pub read_fb_geometry : Sysfs → Result ReadError IntGeometry
unfolding stride_of int_of
read_fb_geometry files = do
  size ← read_text files.virtual_size
  (width_s, height_s) ← two_parts (split (codes ",") size)
  depth ← read_text files.bits_per_pixel
  bpp ← int_or_raise (int_of depth)
  stride ← stride_of files.stride width_s bpp
  width ← int_or_raise (int_of width_s)
  height ← int_or_raise (int_of height_s)
  ok (record { width = width; height = height; bits_per_pixel = bpp; stride = stride })

-- A geometry in which no number is negative.
pub record IsNatural (g : IntGeometry) (f : FbGeometry) : Type 0 where
  pub width : g.width ≡ pos f.width
  pub height : g.height ≡ pos f.height
  pub bits_per_pixel : g.bits_per_pixel ≡ pos f.bits_per_pixel
  pub stride : g.stride ≡ pos f.stride

-- Code that gives a result has run its first part, and then the rest.
after :
    {A B P : Type 0} (m : Result ReadError A) (f : A → Result ReadError B) (b : B)
    → ((a : A) → f a ≡ ok b → P)
    → (m >>= f) ≡ ok b
    → P
after (ok a) f b h k = h a k
after (err e) f b h k = cc k

stride_of_width :
    (width height : Result ReadError ℤ) (bpp : ℤ) (g : IntGeometry)
    → (do
      stride ← (do w ← width; ok (eighth (times w bpp)))
      w ← width
      h ← height
      ok (record { width = w; height = h; bits_per_pixel = bpp; stride = stride }))
      ≡ ok g
    → g.stride ≡ eighth (times g.width g.bits_per_pixel)
stride_of_width (ok w) (ok h) bpp g e =
    let same : record { width = w; height = h; bits_per_pixel = bpp; stride = eighth (times w bpp) }
        ≡ g =
      cc e in
    rw (← same) refl
stride_of_width (ok w) (err y) bpp g e = cc e
stride_of_width (err y) height bpp g e = cc e

stride_falls_back :
    (files : Sysfs) (g : IntGeometry)
    → files.stride ≡ none
    → read_fb_geometry files ≡ ok g
    → g.stride ≡ eighth (times g.width g.bits_per_pixel)
unfolding read_fb_geometry stride_of
stride_falls_back files g h = after (read_text files.virtual_size) _ g λ size.
    after (two_parts (split (codes ",") size)) _ g λ parts.
      after (read_text files.bits_per_pixel) _ g λ depth.
        after (int_or_raise (int_of depth)) _ g λ bpp e.
          stride_of_width (int_or_raise (int_of parts.0)) (int_or_raise (int_of parts.1)) bpp g
            (rw h at e)

abbrev magnitude : ℤ → ℕ
magnitude (pos n) = n
magnitude (negsuc n) = n

packed_stride :
    (files : Sysfs) (g : IntGeometry) (f : FbGeometry)
    → files.stride ≡ none
    → read_fb_geometry files ≡ ok g
    → IsNatural g f
    → f.stride ≡ f.width * f.bits_per_pixel / 8
packed_stride files g f h e n =
    let read = stride_falls_back files g h e in
    ap magnitude (rw (n.stride, n.width, n.bits_per_pixel) at read)

-- A framebuffer whose driver has no stride file, whose geometry is read and has no negative number:
-- the scanlines of the geometry are exactly the width in bytes, for a depth of 32 or 16 bits, and
-- the painting raises nothing and writes the rows of the picture, each as a scanline, in BGRX with
-- 32 bits and in RGB565 with 16, when the picture library gives a picture of the size that is asked
-- for.
pub read_fb_geometry_packed :
    (files : Sysfs) (g : IntGeometry) (f : FbGeometry) (resized : ℕ → ℕ → Image) (ps : List Pixel)
    → files.stride ≡ none
    → read_fb_geometry files ≡ ok g
    → IsNatural g f
    → (f.bits_per_pixel ≡ 32) ⊎ (f.bits_per_pixel ≡ 16)
    → IsImage ps f.width f.height (resized f.width f.height)
    → (f.stride ≡ f.width * (f.bits_per_pixel / 8))
      × ((written : List ℕ) × (paint_framebuffer resized f ≡ ok written)
          × IsPainted f ps (resized f.width f.height) written)
read_fb_geometry_packed files g f resized ps h e n depth image =
    let stride = packed_stride files g f h e n in
    elim depth [
      | inl d ↦
          let four = rw d at stride in
          (
            rw d (omega (arith, four)),
            paint_framebuffer_scanlines resized f ps image (deep d (omega (arith, four))),
          )
      | inr d ↦
          let two = rw d at stride in
          (
            rw d (omega (arith, two)),
            paint_framebuffer_scanlines resized f ps image (high d (omega (arith, two))),
          )
    ]
