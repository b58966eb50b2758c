-- ===== src/Tests/Logs.antt =====
-- A concrete QR payload, and a concrete log of uxplay.
use miracast_device.Base.{◌≡◌, refl, true, some, Text, codes}
use miracast_device.Qr.{escape, escape_with, replace, build_wifi_qr_payload}
use miracast_device.Qr.Scan.{read_payload, build_wifi_qr_payload_read}

abbrev hall : Text
hall = codes "WIFI:T:WPA;S:Hall\\; \\\"A\\\";P:12345\\\\78;H:true;;"

build_wifi_qr_payload_read_example :
    read_payload hall ≡ some (codes "Hall; \"A\"", codes "12345\\78", true)
unfolding build_wifi_qr_payload escape escape_with replace
build_wifi_qr_payload_read_example =
    build_wifi_qr_payload_read (codes "Hall; \"A\"") (codes "12345\\78") hall true refl
