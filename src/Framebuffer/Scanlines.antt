-- ===== src/Framebuffer/Scanlines.antt =====
-- The scanlines that castd/render/framebuffer.py writes.
use mathlib.Core.List.{append-nil}
use miracast_device.Base.{
  ℕ, zero, suc, ◌+◌, ◌-◌, ◌*◌, ◌≤◌, ◌<◌, ◌≡◌, refl, sym, ap, ◌∙◌, ◌⊎◌, inl, inr, false, List, [],
  ◌∷◌, ◌++◌, ok, All, take, drop, replicate, lt→ltb, length, length-append, length-take,
  length-drop, length-replicate, arith, ltb,
}
use miracast_device.Framebuffer.{FbGeometry, Image, slice, pad_rows, pad, paint_framebuffer}
use miracast_device.Framebuffer.Pixels.{Pixel, IsBytes, flat, IsPacked, pack_read}

length-slice :
    (k row_bytes : ℕ) (bytes : List ℕ)
    → (k + 1) * row_bytes ≤ length bytes
    → length (slice (k * row_bytes) ((k + 1) * row_bytes) bytes) ≡ row_bytes
length-slice k row_bytes bytes h =
    length-take ((k + 1) * row_bytes - k * row_bytes) (drop (k * row_bytes) bytes)
    ∙ omega (arith, h, length-drop (k * row_bytes) bytes)

-- The front of a list is taken as a whole, and what is beyond it is dropped from the rest.
take-front : (n : ℕ) (xs ys : List ℕ) → length xs ≡ n → take n (xs ++ ys) ≡ xs
take-front zero [] ys h = refl
take-front zero (x ∷ xs) ys h = absurd (omega (arith, h))
take-front (suc n) [] ys h = absurd (omega (arith, h))
take-front (suc n) (x ∷ xs) ys h = ap (λ r. x ∷ r) (take-front n xs ys (omega (arith, h)))

drop-front :
    (n m k : ℕ) (xs ys : List ℕ) → length xs ≡ n → k ≡ n + m → drop k (xs ++ ys) ≡ drop m ys
drop-front zero m k [] ys h e = ap (λ j. drop j ys) (omega (arith, e))
drop-front zero m k (x ∷ xs) ys h e = absurd (omega (arith, h))
drop-front (suc n) m k [] ys h e = absurd (omega (arith, h))
drop-front (suc n) m zero (x ∷ xs) ys h e = absurd (omega (arith, e))
drop-front (suc n) m (suc k) (x ∷ xs) ys h e =
    drop-front n m k xs ys (omega (arith, h)) (omega (arith, e))

zero-mul : (n : ℕ) → 0 * n ≡ 0
zero-mul n = omega arith

abbrev row_of : ℕ → List ℕ → ℕ → List ℕ
row_of row_bytes bytes k = slice (k * row_bytes) ((k + 1) * row_bytes) bytes

module _ (bytes : List ℕ) (row_bytes stride : ℕ) (padding : List ℕ)
    (wide : row_bytes + length padding ≡ stride) where
  length-row :
      (row rows : ℕ)
      → (row + suc rows) * row_bytes ≤ length bytes
      → length (row_of row_bytes bytes row ++ padding) ≡ stride
  length-row row rows h =
      length-append (row_of row_bytes bytes row) padding
      ∙ omega (arith, wide, length-slice row row_bytes bytes (omega (arith, h)))

  length-pad_rows :
      (row rows : ℕ)
      → (row + rows) * row_bytes ≤ length bytes
      → length (pad_rows bytes row_bytes padding row rows) ≡ rows * stride
  unfolding pad_rows
  length-pad_rows row zero h = omega arith
  length-pad_rows row (suc rows) h =
      length-append (row_of row_bytes bytes row ++ padding)
        (pad_rows bytes row_bytes padding (suc row) rows)
      ∙ omega (arith, length-row row rows h, length-pad_rows (suc row) rows (omega (arith, h)))

  pad_rows_row :
      (row rows k : ℕ)
      → k < rows
      → (row + rows) * row_bytes ≤ length bytes
      → take stride (drop (k * stride) (pad_rows bytes row_bytes padding row rows))
        ≡ row_of row_bytes bytes (row + k) ++ padding
  unfolding pad_rows
  pad_rows_row row zero k small h = absurd (omega arith)
  pad_rows_row row (suc rows) zero small h =
      ap (λ j. take stride (drop j (pad_rows bytes row_bytes padding row (suc rows))))
        (zero-mul stride)
      ∙ take-front stride _ _ (length-row row rows h)
      ∙ ap (λ j. row_of row_bytes bytes j ++ padding) (omega arith)
  pad_rows_row row (suc rows) (suc k) small h =
      ap (take stride)
        (drop-front stride (k * stride) (suc k * stride) _ _ (length-row row rows h) (omega arith))
      ∙ pad_rows_row (suc row) rows k (omega (arith, small)) (omega (arith, h))
      ∙ ap (λ j. row_of row_bytes bytes j ++ padding) (omega arith)

-- A slice of a list that has no padding.
bare_row :
    (k stride : ℕ) (bytes : List ℕ)
    → take stride (drop (k * stride) bytes) ≡ row_of stride bytes k ++ []
bare_row k stride bytes =
    ap (λ j. take j (drop (k * stride) bytes)) (omega arith) ∙ sym (append-nil _)

-- The frame of a geometry: the scanlines of a converted picture, one stride each.
pub record IsFrame (g : FbGeometry) (row_bytes : ℕ) (picture written : List ℕ) : Type 0 where
  pub whole : length written ≡ g.height * g.stride
  pub scanline :
      (k : ℕ)
      → k < g.height
      → take g.stride (drop (k * g.stride) written)
        ≡ take row_bytes (drop (k * row_bytes) picture) ++ replicate (g.stride - row_bytes) 0

-- A slice of one row.
slice_row :
    (k row_bytes : ℕ) (picture : List ℕ)
    → row_of row_bytes picture k ≡ take row_bytes (drop (k * row_bytes) picture)
slice_row k row_bytes picture = ap (λ j. take j (drop (k * row_bytes) picture)) (omega arith)

le_cases : (a b : ℕ) → a ≤ b → (a < b) ⊎ (a ≡ b)
le_cases a b h = ground arith

not_ltb : (a b : ℕ) → a ≡ b → ltb a b ≡ false
not_ltb a b h = ground (arith, h)

no_rest : {a b : ℕ} → a ≡ b → 0 ≡ b - a
no_rest h = omega (arith, h)

pad-IsFrame :
    (g : FbGeometry) (row_bytes : ℕ) (picture : List ℕ)
    → length picture ≡ g.height * row_bytes
    → row_bytes ≤ g.stride
    → IsFrame g row_bytes picture (pad g row_bytes picture)
unfolding pad
pad-IsFrame g row_bytes picture h wide = elim (le_cases row_bytes g.stride wide) [
  | inl lt ↦
      let padding : List ℕ = replicate (g.stride - row_bytes) 0 in
      let w : row_bytes + length padding ≡ g.stride =
        omega (arith, lt, length-replicate {A = ℕ} (g.stride - row_bytes) 0) in
      rw (lt→ltb row_bytes g.stride lt) (record {
        whole = length-pad_rows picture row_bytes g.stride padding w 0 g.height (omega (arith, h));
        scanline = λ k small.
            pad_rows_row picture row_bytes g.stride padding w 0 g.height k small (omega (arith, h))
            ∙ ap (λ j. row_of row_bytes picture j ++ padding) (omega arith)
            ∙ ap (λ xs. xs ++ padding) (slice_row k row_bytes picture);
      })
  | inr e ↦ rw (not_ltb row_bytes g.stride e) (record {
    whole = h ∙ ap (λ j. g.height * j) e;
    scanline = λ k small.
        sym (append-nil _)
        ∙ ap (λ j. take j (drop (k * j) picture) ++ []) (sym e)
        ∙ ap (λ j. take row_bytes (drop (k * row_bytes) picture) ++ replicate j 0) (no_rest e);
  })
]

-- What the picture library promises: whole pixels of bytes, in both modes.
pub record IsImage (ps : List Pixel) (width height : ℕ) (img : Image) : Type 0 where
  pub as_rgb : img.rgb ≡ flat ps
  pub bytes : All IsBytes ps
  pub count : length ps ≡ height * width
  pub as_bgrx : length img.bgrx ≡ height * (width * 4)

-- A geometry whose scanlines have room for their pixels.
pub data Fits (g : FbGeometry) : Type 0 where
  deep : g.bits_per_pixel ≡ 32 → g.width * 4 ≤ g.stride → Fits g
  high : g.bits_per_pixel ≡ 16 → g.width * 2 ≤ g.stride → Fits g

-- What is written at each depth: the pixels as they are with 32 bits, and in RGB565 with 16.
pub data IsPainted (g : FbGeometry) (ps : List Pixel) (img : Image) (written : List ℕ)
    : Type 0 where
  bgrx :
      g.bits_per_pixel ≡ 32 → IsFrame g (g.width * 4) img.bgrx written → IsPainted g ps img written
  packed :
      (bytes : List ℕ)
      → g.bits_per_pixel ≡ 16
      → IsPacked ps bytes
      → IsFrame g (g.width * 2) bytes written
      → IsPainted g ps img written

-- For a depth of 32 or 16 bits and scanlines that have room for the pixels, the painting raises
-- nothing and writes exactly height times stride bytes: scanline k begins at k times the stride
-- with row k of the picture, and the rest of it is zero. With 32 bits the row is that of the BGRX
-- picture, four bytes for each pixel; with 16 bits it is in RGB565, two bytes for each pixel.
pub paint_framebuffer_scanlines :
    (resized : ℕ → ℕ → Image) (g : FbGeometry) (ps : List Pixel)
    → IsImage ps g.width g.height (resized g.width g.height)
    → Fits g
    → (written : List ℕ) × (paint_framebuffer resized g ≡ ok written)
      × IsPainted g ps (resized g.width g.height) written
unfolding paint_framebuffer
paint_framebuffer_scanlines resized g ps h (deep e wide) =
    let img = resized g.width g.height in
    (
      pad g (g.width * 4) img.bgrx,
      rw e refl,
      bgrx e (pad-IsFrame g (g.width * 4) img.bgrx h.as_bgrx wide),
    )
paint_framebuffer_scanlines resized g ps h (high e wide) =
    let (bytes, done, good) = pack_read ps h.bytes in
    let sized : length bytes ≡ g.height * (g.width * 2) = omega (arith, good.two_each, h.count) in
    (
      pad g (g.width * 2) bytes,
      rw (e, h.as_rgb, done) refl,
      packed bytes e good (pad-IsFrame g (g.width * 2) bytes sized wide),
    )
