-- ===== src/Qr.antt =====
-- castd/airplay/qrcode_wifi.py: the payload of the Wi-Fi QR code.
pub mod Scan
use miracast_device.Base.{
  ℕ, Bool, true, false, not, ◌&&◌, ◌||◌, List, [], ◌∷◌, ◌++◌, Text, Result, ok, err, length, leb,
  ◌==◌, if◌then◌else◌, codes,
}

-- The two `ValueError`s.
pub data QrError : Type 0 where
  empty_ssid bad_passphrase : QrError

-- `out.replace(ch, "\\" + ch)`.
unfoldable pub replace : ℕ → Text → Text
replace ch [] = []
replace ch (c ∷ cs) = let rest = replace ch cs in if c == ch then b'\\' ∷ c ∷ rest else c ∷ rest

unfoldable pub escape_with : List ℕ → Text → Text
unfolding replace
escape_with [] out = out
escape_with (ch ∷ chs) out = escape_with chs (replace ch out)

abbrev pub escape_chars : List ℕ
escape_chars = b'\\' ∷ b';' ∷ b',' ∷ b'"' ∷ b':' ∷ []

-- `_escape`.
unfoldable pub escape : Text → Text
unfolding escape_with
escape value = escape_with escape_chars value

abbrev hidden_part : Bool → Text
hidden_part true = codes "H:true;"
hidden_part false = []

-- The parts, joined.
abbrev pub payload : Text → Text → Bool → Text
payload ssid passphrase hidden =
    codes "WIFI:"
    ++ (codes "T:WPA;"
        ++ (codes "S:"
            ++ (escape ssid
                ++ (codes ";"
                    ++ (codes "P:"
                        ++ (escape passphrase
                            ++ (codes ";" ++ (hidden_part hidden ++ codes ";"))))))))

unfoldable pub build_wifi_qr_payload : Text → Text → Bool → Result QrError Text
build_wifi_qr_payload ssid passphrase hidden =
    if length ssid == 0
    then err empty_ssid
    else if not (leb 8 (length passphrase) && leb (length passphrase) 63)
    then err bad_passphrase
    else ok (payload ssid passphrase hidden)
