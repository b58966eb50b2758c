-- ===== src/Base/Utf8.antt =====
-- `str.encode("utf-8")` and `bytes.decode(errors="replace")`.
use miracast_device.Base.Tests.{ltb, leb, if◌then◌else◌}
use miracast_device.Base.Strings.{Text}
use miracast_device.Base.Lists.{All, all}
use Prim.Native.Nat.{ℕ, ◌+◌, ◌-◌, ◌*◌, ◌/◌, ◌%◌, ◌≤◌, ◌<◌}
use mathlib.Core.Path.{◌≡◌, refl, ap, ◌∙◌}
use mathlib.Core.Bool.{Bool, true, false, ◌&&◌}
use mathlib.Core.Option.{Option, none, some}
use mathlib.Core.List.{List, [], ◌∷◌, ◌++◌, append-nil, append_assoc}
use native.Mathlib.Omega.{arith}

abbrev pub is_surrogate : ℕ → Bool
is_surrogate c = leb 0xd800 c && leb c 0xdfff

-- A code point that UTF-8 can carry.
abbrev pub IsScalar : ℕ → Type 0
IsScalar c = (c < 0x110000) × (is_surrogate c ≡ false)

abbrev cont : ℕ → ℕ
cont n = 128 + n % 64

-- The bytes of one code point that is no surrogate.
unfoldable pub encode_char : ℕ → List ℕ
encode_char c =
    if ltb c 0x80
    then c ∷ []
    else if ltb c 0x800
    then (192 + c / 64) ∷ cont c ∷ []
    else if ltb c 0x10000
    then (224 + c / 4096) ∷ cont (c / 64) ∷ cont c ∷ []
    else (240 + c / 262144) ∷ cont (c / 4096) ∷ cont (c / 64) ∷ cont c ∷ []

-- none is `UnicodeEncodeError`, which a lone surrogate raises.
unfoldable pub encode : Text → Option (List ℕ)
unfolding encode_char
encode [] = some []
encode (c ∷ cs) =
    if is_surrogate c
    then none
    else elim (encode cs) [ none ↦ none | some bs ↦ some (encode_char c ++ bs) ]

-- The decoder between two bytes: at a character's start, or with `more` continuation bytes still
-- to come, the next of them from `lo` to `hi`.
pub data Pending : Type 0 where
  start : Pending
  want : (more value lo hi : ℕ) → Pending

abbrev replacement : ℕ
replacement = 0xfffd

-- A byte at a character's start: what it emits, and the new state.
unfoldable pub first_byte : ℕ → Text × Pending
first_byte b =
    if ltb b 0x80
    then (b ∷ [], start)
    else if ltb b 0xc2
    then (replacement ∷ [], start)
    else if ltb b 0xe0
    then ([], want 1 (b - 192) 0x80 0xbf)
    else if ltb b 0xf0
    then (
      [],
      want 2 (b - 224) (if leb b 0xe0 then 0xa0 else 0x80)
          (if leb b 0xed && leb 0xed b then 0x9f else 0xbf),
    )
    else if ltb b 0xf5
    then (
      [],
      want 3 (b - 240) (if leb b 0xf0 then 0x90 else 0x80) (if leb 0xf4 b then 0x8f else 0xbf),
    )
    else (replacement ∷ [], start)

abbrev prepend : Text → Text × Pending → Text × Pending
prepend t (u, p) = (t ++ u, p)

-- A byte that does not continue ends the character with U+FFFD, and is read again as a start.
unfoldable pub next_byte : Pending → ℕ → Text × Pending
next_byte start b = first_byte b
next_byte (want more value lo hi) b =
    if leb lo b && leb b hi
    then (if leb more 1
        then ((value * 64 + (b - 128)) ∷ [], start)
        else ([], want (more - 1) (value * 64 + (b - 128)) 0x80 0xbf))
    else prepend (replacement ∷ []) (first_byte b)

unfoldable pub decode_from : Pending → List ℕ → Text
unfolding next_byte
decode_from start [] = []
decode_from (want more value lo hi) [] = replacement ∷ []
decode_from p (b ∷ bs) = let (t, q) = next_byte p b in t ++ decode_from q bs

unfoldable pub decode : List ℕ → Text
unfolding decode_from
decode bs = decode_from start bs

first_byte_two : (b : ℕ) → 0xc2 ≤ b → b < 0xe0 → first_byte b ≡ ([], want 1 (b - 192) 0x80 0xbf)
unfolding first_byte
first_byte_two b h k = ground arith

abbrev three_lo : ℕ → ℕ
three_lo b = if leb b 0xe0 then 0xa0 else 0x80

abbrev three_hi : ℕ → ℕ
three_hi b = if leb b 0xed && leb 0xed b then 0x9f else 0xbf

first_byte_three :
    (b : ℕ) → 0xe0 ≤ b → b < 0xf0 → first_byte b ≡ ([], want 2 (b - 224) (three_lo b) (three_hi b))
unfolding first_byte
first_byte_three b h k = ground arith

abbrev four_lo : ℕ → ℕ
four_lo b = if leb b 0xf0 then 0x90 else 0x80

abbrev four_hi : ℕ → ℕ
four_hi b = if leb 0xf4 b then 0x8f else 0xbf

first_byte_four :
    (b : ℕ) → 0xf0 ≤ b → b < 0xf5 → first_byte b ≡ ([], want 3 (b - 240) (four_lo b) (four_hi b))
unfolding first_byte
first_byte_four b h k = ground arith

-- One continuation byte in range.
next_byte_more :
    (more value lo hi b : ℕ)
    → lo ≤ b
    → b ≤ hi
    → 1 < more
    → next_byte (want more value lo hi) b ≡ ([], want (more - 1) (value * 64 + (b - 128)) 0x80 0xbf)
unfolding next_byte
next_byte_more more value lo hi b h k m = ground arith

next_byte_last :
    (value lo hi b : ℕ)
    → lo ≤ b
    → b ≤ hi
    → next_byte (want 1 value lo hi) b ≡ ((value * 64 + (b - 128)) ∷ [], start)
unfolding next_byte
next_byte_last value lo hi b h k = ground arith

decode_two :
    (c : ℕ) (bs : List ℕ)
    → 0x80 ≤ c
    → c < 0x800
    → decode_from start ((192 + c / 64) ∷ cont c ∷ bs) ≡ c ∷ decode_from start bs
unfolding decode_from
decode_two c bs h k =
    rw (first_byte_two (192 + c / 64) (omega arith) (omega arith), next_byte)
      (rw (next_byte_last (192 + c / 64 - 192) 0x80 0xbf (cont c) (omega arith) (omega arith))
        (ap (λ x. x ∷ decode_from start bs) (omega arith)))

three_range :
    (c : ℕ)
    → 0x800 ≤ c
    → c < 0x10000
    → is_surrogate c ≡ false
    → (three_lo (224 + c / 4096) ≤ cont (c / 64)) × (cont (c / 64) ≤ three_hi (224 + c / 4096))
three_range c h k s = ground arith

decode_three :
    (c : ℕ) (bs : List ℕ)
    → 0x800 ≤ c
    → c < 0x10000
    → is_surrogate c ≡ false
    → decode_from start ((224 + c / 4096) ∷ cont (c / 64) ∷ cont c ∷ bs) ≡ c ∷ decode_from start bs
unfolding decode_from
decode_three c bs h k s =
    let r = three_range c h k s in
    rw (first_byte_three (224 + c / 4096) (omega arith) (omega arith), next_byte)
      (rw (next_byte_more 2 (224 + c / 4096 - 224) _ _ (cont (c / 64)) r.0 r.1 (omega arith)) (
        rw
          (next_byte_last ((224 + c / 4096 - 224) * 64 + (cont (c / 64) - 128)) 0x80 0xbf (cont c)
            (omega arith) (omega arith))
          (ap (λ x. x ∷ decode_from start bs) (omega arith))))

four_range :
    (c : ℕ)
    → 0x10000 ≤ c
    → c < 0x110000
    → (four_lo (240 + c / 262144) ≤ cont (c / 4096))
      × (cont (c / 4096) ≤ four_hi (240 + c / 262144))
four_range c h k = ground arith

decode_four :
    (c : ℕ) (bs : List ℕ)
    → 0x10000 ≤ c
    → c < 0x110000
    → decode_from start ((240 + c / 262144) ∷ cont (c / 4096) ∷ cont (c / 64) ∷ cont c ∷ bs)
      ≡ c ∷ decode_from start bs
unfolding decode_from
decode_four c bs h k =
    let r = four_range c h k in
    let v : ℕ = 240 + c / 262144 - 240 in
    let w : ℕ = v * 64 + (cont (c / 4096) - 128) in
    rw (first_byte_four (240 + c / 262144) (omega arith) (omega arith), next_byte)
      (rw (next_byte_more 3 v _ _ (cont (c / 4096)) r.0 r.1 (omega arith)) (
        rw (next_byte_more 2 w 0x80 0xbf (cont (c / 64)) (omega arith) (omega arith) (omega arith))
          (rw
            (next_byte_last (w * 64 + (cont (c / 64) - 128)) 0x80 0xbf (cont c) (omega arith)
              (omega arith))
            (ap (λ x. x ∷ decode_from start bs) (omega arith)))))

decode_one :
    (c : ℕ) (bs : List ℕ) → c < 0x80 → decode_from start (c ∷ bs) ≡ c ∷ decode_from start bs
unfolding decode_from first_byte
decode_one c bs h = ground arith

decode-encode_char :
    (c : ℕ) (bs : List ℕ)
    → IsScalar c
    → decode_from start (encode_char c ++ bs) ≡ c ∷ decode_from start bs
unfolding encode_char
decode-encode_char c bs h =
    ground (arith, decode_one c bs, decode_two c bs, decode_three c bs, decode_four c bs)

-- Text of scalar values can be encoded, and decoding gives it back, whatever bytes follow.
pub decode-encode :
    (t : Text) (rest : List ℕ)
    → All IsScalar t
    → (bs : List ℕ) × (encode t ≡ some bs) × (decode (bs ++ rest) ≡ t ++ decode rest)
unfolding encode decode
decode-encode [] rest h = ([], refl, refl)
decode-encode (c ∷ cs) rest h =
    let (bs, e, d) = decode-encode cs rest h.1 in
    (
      encode_char c ++ bs,
      rw (h.0.1, e),
      rw append_assoc (decode-encode_char c (bs ++ rest) h.0 ∙ ap (λ r. c ∷ r) d),
    )

-- Such text has an encoding, which decodes to it.
pub encode_total :
    (t : Text) → All IsScalar t → (bs : List ℕ) × (encode t ≡ some bs) × (decode bs ≡ t)
unfolding decode
encode_total t h =
    let (bs, e, d) = decode-encode t [] h in (bs, e, rw (append-nil bs, append-nil t) at d)

-- ASCII bytes are their own text.
pub decode-ascii : (t : Text) → all (λ c. ltb c 0x80) t ≡ true → decode t ≡ t
unfolding decode decode_from
decode-ascii [] h = refl
decode-ascii (c ∷ cs) h =
    decode_one c cs (ground (arith, h)) ∙ ap (λ r. c ∷ r) (decode-ascii cs (ground (arith, h)))
