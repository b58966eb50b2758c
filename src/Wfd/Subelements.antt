-- ===== src/Wfd/Subelements.antt =====
-- What a reader of the information element of castd/p2p/wfd_ie.py finds in it.
use miracast_device.Base.{
  ◌⊎◌, ℕ, suc, ◌+◌, ◌*◌, ◌/◌, ◌%◌, ◌<◌, ◌≤◌, ◌≡◌, refl, Bool, true, false, List, [], ◌∷◌, ◌++◌,
  Option, none, some, length, take, drop, leb, if◌then◌else◌, arith, ok, err, le→leb, All,
  replicate, length-append, Text,
}
use miracast_device.Base.Utf8
use miracast_device.Wfd.{
  Bytes, be16, control_port_out_of_range, max_throughput_out_of_range,
  build_mice_hostname_subelement, subelement, device_bitmap, build_device_info_subelement,
  build_coupled_sink_subelement, build_wfd_ies,
}
use miracast_device.Wfd.Bits.{device_bitmap_lem}

unfoldable pub add_record : ℕ × Bytes → Option (List (ℕ × Bytes)) → Option (List (ℕ × Bytes))
add_record r none = none
add_record r (some rs) = some (r ∷ rs)

-- A reader of identifier-length-payload records, as the specification frames them; none for a
-- record that is cut short. The fuel bounds the number of records.
unfoldable pub read_subelements : ℕ → Bytes → Option (List (ℕ × Bytes))
read_subelements fuel [] = some []
read_subelements (suc fuel) (id ∷ hi ∷ lo ∷ rest) =
    let n = hi * 256 + lo in
    let more = add_record (id, take n rest) (read_subelements fuel (drop n rest)) in
    if leb n (length rest) then more else none
read_subelements fuel bytes = none

-- The fields of the payload of subelement 0, as the specification numbers the bits.
pub record DeviceInfo : Type 0 where
  pub device_type : ℕ
  pub coupled_sink_bits : ℕ
  pub availability : ℕ
  pub capability_bits : ℕ
  pub control_port : ℕ
  pub throughput : ℕ

unfoldable pub read_device_info : Bytes → Option DeviceInfo
read_device_info (b ∷ a ∷ p ∷ q ∷ m ∷ n ∷ []) =
    let bitmap = b * 256 + a in
    some (record {
      device_type = bitmap % 4;
      coupled_sink_bits = bitmap / 4 % 4;
      availability = bitmap / 16 % 4;
      capability_bits = bitmap / 64;
      control_port = p * 256 + q;
      throughput = m * 256 + n;
    })
read_device_info _ = none

take-append_self {ℓ} : {A : Type ℓ} (xs ys : List A) → take (length xs) (xs ++ ys) ≡ xs
take-append_self [] ys = refl
take-append_self (x ∷ xs) ys = rw (take-append_self xs ys)

drop-append_self {ℓ} : {A : Type ℓ} (xs ys : List A) → drop (length xs) (xs ++ ys) ≡ ys
drop-append_self [] ys = refl
drop-append_self (x ∷ xs) ys = drop-append_self xs ys

framed : (n : ℕ) → n < 65536 → n / 256 * 256 + n % 256 ≡ n
framed n h = omega arith

-- A subelement that is written is read back, whatever follows it.
pub read-subelement :
    (fuel id : ℕ) (payload rest : Bytes) {es : List (ℕ × Bytes)}
    → length payload < 65536
    → read_subelements fuel rest ≡ some es
    → read_subelements (suc fuel) (subelement id payload ++ rest) ≡ some ((id, payload) ∷ es)
unfolding read_subelements add_record
read-subelement fuel id payload rest {es} h k = rw (
  framed (length payload) h,
  take-append_self payload rest,
  drop-append_self payload rest,
  k,
  le→leb (length payload) (length (payload ++ rest)) (omega (arith, length-append payload rest)),
)

abbrev device_payload : ℕ → ℕ → ℕ → Bool → Bytes
device_payload device_type port mbps available =
    be16 (device_bitmap device_type available) ++ (be16 port ++ be16 mbps)

build_device_info_lem :
    (device_type port mbps : ℕ) (available : Bool)
    → port < 65536
    → mbps < 65536
    → build_device_info_subelement device_type port mbps available
      ≡ ok (subelement 0 (device_payload device_type port mbps available))
unfolding build_device_info_subelement
build_device_info_lem device_type port mbps available h k =
    rw (le→leb port 0xffff (omega arith), le→leb mbps 0xffff (omega arith))

bitmap_fields :
    (d : ℕ) (available : Bool)
    → let b : ℕ = d % 4 + (if available then 16 else 0) in
      let w : ℕ = b / 256 * 256 + b % 256 in
      (w % 4 ≡ d % 4) × (w / 4 % 4 ≡ 0) × (w / 16 % 4 ≡ (if available then 1 else 0)) × (w / 64 ≡ 0)
bitmap_fields d true = omega arith
bitmap_fields d false = omega arith

read_device_payload :
    (device_type port mbps : ℕ) (available : Bool)
    → port < 65536
    → mbps < 65536
    → read_device_info (device_payload device_type port mbps available)
      ≡ some (record {
        device_type = device_type % 4;
        coupled_sink_bits = 0;
        availability = if available then 1 else 0;
        capability_bits = 0;
        control_port = port;
        throughput = mbps;
      })
unfolding read_device_info
read_device_payload d port mbps available h k =
    let f = bitmap_fields d available in
    rw (device_bitmap_lem d available) (rw (f.0, f.1, f.2, f.3, framed port h, framed mbps k))

-- The information element holds exactly two subelements. Subelement 0 says: primary sink, no
-- coupled-sink or further capability bits, session availability 0b01 when available and 0b00 when
-- not (never the reserved 0b10 and 0b11), the port and the throughput that were given, for values
-- below 2 ^ 16. Subelement 6 is seven zero bytes.
pub build_wfd_ies_read :
    (control_port throughput : ℕ) (available : Bool)
    → control_port < 65536
    → throughput < 65536
    → (bytes payload : Bytes) × (build_wfd_ies control_port throughput available ≡ ok bytes)
      × (read_subelements 2 bytes ≡ some ((0, payload) ∷ (6, replicate 7 0) ∷ []))
      × (read_device_info payload
          ≡ some (record {
            device_type = 1;
            coupled_sink_bits = 0;
            availability = if available then 1 else 0;
            capability_bits = 0;
            control_port = control_port;
            throughput = throughput;
          }))
unfolding build_wfd_ies
build_wfd_ies_read port mbps available h k =
    let payload = device_payload 1 port mbps available in
    (
      subelement 0 payload ++ build_coupled_sink_subelement,
      payload,
      rw (build_device_info_lem 1 port mbps available h k),
      read-subelement 1 0 payload build_coupled_sink_subelement (omega arith)
          (unfold read_subelements add_record in refl),
      read_device_payload 1 port mbps available h k,
    )

-- A port or a throughput that does not fit in 16 bits is refused, and the port is named first.
pub build_wfd_ies_refuses :
    (control_port throughput : ℕ) (available : Bool)
    → (65536 ≤ control_port) ⊎ (65536 ≤ throughput)
    → build_wfd_ies control_port throughput available
      ≡ err (
          if leb 65536 control_port then control_port_out_of_range else max_throughput_out_of_range)
unfolding build_wfd_ies build_device_info_subelement
build_wfd_ies_refuses port mbps available h = ground arith

-- A hostname that is accepted is read back from the vendor subelement 0x2002: the two-byte
-- identifier, the length, and the hostname in UTF-8.
pub build_mice_hostname_read :
    (hostname : Text) (bytes : Bytes)
    → All Utf8.IsScalar hostname
    → build_mice_hostname_subelement hostname ≡ ok bytes
    → (hi lo : ℕ) × (payload : Bytes) × (bytes ≡ 0x20 ∷ 0x02 ∷ hi ∷ lo ∷ payload)
      × (hi * 256 + lo ≡ length payload)
      × (Utf8.decode payload ≡ hostname)
unfolding build_mice_hostname_subelement
build_mice_hostname_read hostname bytes h k =
    let (bs, e, d) = Utf8.encode_total hostname h in
    (length bs / 256, length bs % 256, bs, ground (arith, e), omega arith, d)
