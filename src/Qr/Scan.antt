-- ===== src/Qr/Scan.antt =====
-- A scanner of the payload of castd/airplay/qrcode_wifi.py reads back what went in.
use mathlib.Core.List.{append_assoc}
use miracast_device.Base.{
  text_eq, ℕ, ◌≡◌, ap, ◌∙◌, refl, Bool, true, false, ◌||◌, List, [], ◌∷◌, ◌++◌, Option, none, some,
  Text, ok, ◌==◌, if◌then◌else◌, codes, arith, same_char, after_prefix, Bool-cases, inl, inr,
}
use miracast_device.Qr.{replace, escape_with, escape_chars, escape, payload, build_wifi_qr_payload}

abbrev prepend : ℕ → Option (Text × Text) → Option (Text × Text)
prepend c none = none
prepend c (some (t, r)) = some (c ∷ t, r)

-- The characters that a field has to quote, beside the backslash and the semicolon.
abbrev is_reserved : ℕ → Bool
is_reserved c = c == b',' || c == b'"' || c == b':'

-- What a strict scanner does with the text of a field: a backslash quotes the next character, an
-- unquoted semicolon ends the field, and any other special character that is not quoted makes the
-- payload malformed. The flag says that a backslash came before.
unfoldable pub read_field : Bool → Text → Option (Text × Text)
read_field quoted [] = none
read_field true (c ∷ cs) = prepend c (read_field false cs)
read_field false (c ∷ cs) =
    let quoted = read_field true cs in
    let plain = prepend c (read_field false cs) in
    if c == b'\\'
    then quoted
    else if c == b';'
    then some ([], cs)
    else if is_reserved c
    then none
    else plain

replace-append : (ch : ℕ) (xs ys : Text) → replace ch (xs ++ ys) ≡ replace ch xs ++ replace ch ys
unfolding replace
replace-append ch [] ys = refl
replace-append ch (x ∷ xs) ys = elim (Bool-cases (x == ch)) [
  | inl e ↦ rw (e, replace-append ch xs ys)
  | inr e ↦ rw (e, replace-append ch xs ys)
]

escape_with-append :
    (chs : List ℕ) (xs ys : Text)
    → escape_with chs (xs ++ ys) ≡ escape_with chs xs ++ escape_with chs ys
unfolding escape_with
escape_with-append [] xs ys = refl
escape_with-append (ch ∷ chs) xs ys =
    rw (replace-append ch xs ys, escape_with-append chs (replace ch xs) (replace ch ys))

-- One pass over the characters.
abbrev pub escape_char : ℕ → Text
escape_char c =
    if c == b'\\' || c == b';' || c == b',' || c == b'"' || c == b':'
    then b'\\' ∷ c ∷ []
    else c ∷ []

escape_single : (c : ℕ) → escape (c ∷ []) ≡ escape_char c
unfolding escape escape_with replace
escape_single c = ground arith

escape-cons : (c : ℕ) (cs : Text) → escape (c ∷ cs) ≡ escape_char c ++ escape cs
unfolding escape
escape-cons c cs = rw (escape_with-append escape_chars (c ∷ []) cs, ← escape_single c)

read_field-char :
    (c : ℕ) (rest : Text)
    → read_field false (escape_char c ++ rest) ≡ prepend c (read_field false rest)
unfolding read_field
read_field-char c rest = ground arith

-- A field is read back, whatever characters it has and whatever follows its semicolon.
pub read_field-escape :
    (value rest : Text) → read_field false (escape value ++ b';' ∷ rest) ≡ some (value, rest)
read_field-escape [] rest = unfold escape escape_with replace read_field in refl
read_field-escape (c ∷ cs) rest =
    rw (escape-cons c cs, append_assoc, read_field-char c _, read_field-escape cs rest)

abbrev expect_prefix :
    Text → (Text → Option (Text × Text × Bool)) → Text → Option (Text × Text × Bool)
expect_prefix p f t = elim (after_prefix same_char p t) [ none ↦ none | some rest ↦ f rest ]

abbrev read_hidden : Text → Text → Text → Option (Text × Text × Bool)
read_hidden ssid pass t =
    if text_eq t (codes ";")
    then some (ssid, pass, false)
    else if text_eq t (codes "H:true;;")
    then some (ssid, pass, true)
    else none

abbrev read_pass : Text → Option (Text × Text) → Option (Text × Text × Bool)
read_pass ssid none = none
read_pass ssid (some (pass, rest)) = read_hidden ssid pass rest

abbrev read_ssid : Option (Text × Text) → Option (Text × Text × Bool)
read_ssid none = none
read_ssid (some (ssid, rest)) =
    expect_prefix (codes "P:") (λ t. read_pass ssid (read_field false t)) rest

-- A scanner of the whole payload: the network's name, its passphrase, and whether it is hidden.
unfoldable pub read_payload : Text → Option (Text × Text × Bool)
unfolding after_prefix text_eq
read_payload t = expect_prefix (codes "WIFI:T:WPA;S:") (λ u. read_ssid (read_field false u)) t

read_parts :
    (ssid passphrase tail : Text)
    → read_payload (
        codes "WIFI:T:WPA;S:"
        ++ (escape ssid ++ (codes ";P:" ++ (escape passphrase ++ (codes ";" ++ tail)))))
      ≡ read_hidden ssid passphrase tail
unfolding read_payload
read_parts ssid passphrase tail =
    ap read_ssid (read_field-escape ssid (codes "P:" ++ (escape passphrase ++ (codes ";" ++ tail))))
    ∙ ap (read_pass ssid) (read_field-escape passphrase tail)

read_payload-payload :
    (ssid passphrase : Text) (hidden : Bool)
    → read_payload (payload ssid passphrase hidden) ≡ some (ssid, passphrase, hidden)
unfolding read_payload
read_payload-payload ssid passphrase true = read_parts ssid passphrase (codes "H:true;;")
read_payload-payload ssid passphrase false = read_parts ssid passphrase (codes ";")

is_payload :
    (ssid passphrase t : Text) (hidden : Bool)
    → build_wifi_qr_payload ssid passphrase hidden ≡ ok t
    → t ≡ payload ssid passphrase hidden
unfolding build_wifi_qr_payload
is_payload ssid passphrase t hidden h = ground arith

-- A payload that is built is read back by a scanner that refuses every unquoted special character
-- (comma, quote and colon among them): the same name and passphrase, whatever characters they have,
-- and the same flag.
pub build_wifi_qr_payload_read :
    (ssid passphrase t : Text) (hidden : Bool)
    → build_wifi_qr_payload ssid passphrase hidden ≡ ok t
    → read_payload t ≡ some (ssid, passphrase, hidden)
build_wifi_qr_payload_read ssid passphrase t hidden h =
    rw (is_payload ssid passphrase t hidden h) (read_payload-payload ssid passphrase hidden)
