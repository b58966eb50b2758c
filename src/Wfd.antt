-- ===== src/Wfd.antt =====
-- castd/p2p/wfd_ie.py: the Wi-Fi Display information element. `bytes` are lists of numbers below
-- 256; Python's arguments are taken as natural numbers.
pub mod Subelements
pub mod Bits
use Prim.Native.Nat.{bit_or}
use miracast_device.Base.{
  ℕ, ◌+◌, ◌*◌, ◌/◌, ◌%◌, ◌^◌, ◌≡◌, refl, Bool, true, false, List, [], ◌∷◌, ◌++◌, Option, none, some,
  Text, length, leb, ltb, ◌==◌, not, if◌then◌else◌, Result, ok, err, ◌>>=◌, replicate,
}
use miracast_device.Base.Utf8

abbrev pub Bytes : Type 0
Bytes = List ℕ

-- What the builders raise.
pub data BuildError : Type 0 where
  control_port_out_of_range max_throughput_out_of_range bad_bssid_length : BuildError
  name_too_long unencodable : BuildError

-- `n.to_bytes(2, "big")` for `n` below 2 ^ 16.
abbrev pub be16 : ℕ → Bytes
be16 n = n / 256 ∷ n % 256 ∷ []

abbrev pub wfd_primary_sink : ℕ
wfd_primary_sink = 1

abbrev pub wfd_available_for_session : ℕ
wfd_available_for_session = 2 ^ 4

-- `device_type & 0b11` is the remainder by 4.
unfoldable pub device_bitmap : ℕ → Bool → ℕ
device_bitmap device_type available =
    let bitmap = device_type % 4 in
    if available then bit_or bitmap wfd_available_for_session else bitmap

-- `bytes([subelem_id]) + length.to_bytes(2, "big") + payload`.
abbrev pub subelement : ℕ → Bytes → Bytes
subelement id payload = id ∷ (be16 (length payload) ++ payload)

unfoldable pub build_device_info_subelement : ℕ → ℕ → ℕ → Bool → Result BuildError Bytes
unfolding device_bitmap
build_device_info_subelement device_type control_port max_throughput_mbps available =
    if not (leb control_port 0xffff)
    then err control_port_out_of_range
    else if not (leb max_throughput_mbps 0xffff)
    then err max_throughput_out_of_range
    else ok (
        subelement 0 (
          be16 (device_bitmap device_type available)
          ++ (be16 control_port ++ be16 max_throughput_mbps)))

unfoldable pub build_associated_bssid_subelement : Bytes → Result BuildError Bytes
build_associated_bssid_subelement bssid =
    if not (length bssid == 6) then err bad_bssid_length else ok (subelement 1 bssid)

unfoldable pub build_coupled_sink_subelement : Bytes
build_coupled_sink_subelement = subelement 6 (0 ∷ replicate 6 0)

unfoldable pub build_wfd_ies : ℕ → ℕ → Bool → Result BuildError Bytes
unfolding build_device_info_subelement build_coupled_sink_subelement
build_wfd_ies control_port max_throughput_mbps available = do
  info ← build_device_info_subelement wfd_primary_sink control_port max_throughput_mbps available
  ok (info ++ build_coupled_sink_subelement)

-- The MS-MICE subelements have a two-byte identifier, 0x20 and `low`.
abbrev mice_subelement : ℕ → Option Bytes → Result BuildError Bytes
mice_subelement low none = err unencodable
mice_subelement low (some bs) =
    if ltb 0xffff (length bs) then err name_too_long else ok (0x20 ∷ low ∷ (be16 (length bs) ++ bs))

unfoldable pub build_mice_hostname_subelement : Text → Result BuildError Bytes
build_mice_hostname_subelement hostname = mice_subelement 0x02 (Utf8.encode hostname)

unfoldable pub build_mice_ip_subelement : Text → Result BuildError Bytes
build_mice_ip_subelement ip_address = mice_subelement 0x05 (Utf8.encode ip_address)

-- `list(data)`: both sides are lists of numbers here.
unfoldable pub to_dbus_byte_array : Bytes → List ℕ
to_dbus_byte_array bytes = bytes
