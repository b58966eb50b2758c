-- ===== src/Config.antt =====
-- castd/config.py: the WPS PIN checksum and the parser of receiver.conf.
pub mod Pin
pub mod Parser
pub mod Lines
pub mod Printer
use miracast_device.Base.{
  ℕ, zero, suc, ◌+◌, ◌-◌, ◌*◌, ◌/◌, ◌%◌, ◌^◌, Bool, true, false, not, ◌&&◌, ◌||◌, List, [], ◌∷◌,
  ◌++◌, map, Option, none, some, Text, length, take, drop, any, leb, ltb, ◌==◌, if◌then◌else◌,
  Result, ok, err, ◌>>=◌, ◌>>◌, codes, text_eq, starts_with, digit_value, span_digits, number,
  is_space, drop_while, take_while, lstrip, rstrip, strip, splitlines,
}

-- `ALLOWED_CHANNELS`, as the frequency of a channel.
unfoldable pub allowed_channel : ℕ → Option ℕ
allowed_channel c =
    if c == 36
    then some 5180
    else if c == 40
    then some 5200
    else if c == 44
    then some 5220
    else if c == 48
    then some 5240
    else none

unfoldable pub wps_pin_checksum : ℕ → ℕ
wps_pin_checksum n =
    let accum =
      0
      + 3 * (n / 1000000 % 10)
      + 1 * (n / 100000 % 10)
      + 3 * (n / 10000 % 10)
      + 1 * (n / 1000 % 10)
      + 3 * (n / 100 % 10)
      + 1 * (n / 10 % 10)
      + 3 * (n % 10) in
    (10 - accum % 10) % 10

-- What `$` allows behind the match: nothing, or one final line feed.
abbrev at_end : Text → Bool
at_end [] = true
at_end (c ∷ []) = c == 10
at_end _ = false

-- `_PIN_RE.match(pin)`, with the digits that it matched.
unfoldable pub pin_digits : Text → Option (List ℕ)
unfolding span_digits
pin_digits pin =
    let (ds, rest) = span_digits pin in if length ds == 8 && at_end rest then some ds else none

unfoldable pub checksum_matches : List ℕ → Bool
unfolding wps_pin_checksum number
checksum_matches ds = wps_pin_checksum (number (take 7 ds)) == number (drop 7 ds)

unfoldable pub is_valid_wps_pin : Text → Bool
unfolding pin_digits checksum_matches
is_valid_wps_pin pin = elim (pin_digits pin) [ none ↦ false | some ds ↦ checksum_matches ds ]

pub record RoomConfig : Type 0 where
  pub room_name : Text
  pub wps_pin : Text
  pub passphrase : Text
  pub channel : ℕ

-- The property `freq_mhz`; none is a `KeyError`.
unfoldable pub freq_mhz : RoomConfig → Option ℕ
unfolding allowed_channel
freq_mhz c = allowed_channel c.channel

-- The `ConfigError`s, with what their messages name.
pub data ConfigError : Type 0 where
  cannot_parse : (lineno : ℕ) (raw_line : Text) → ConfigError
  missing_keys : List Text → ConfigError
  bad_room_name bad_passphrase channel_not_allowed : ConfigError
  pin_not_digits : (pin : Text) → ConfigError
  pin_bad_checksum : (pin : Text) (correct_checksum : ℕ) → ConfigError
  channel_not_integer : (raw : Text) → ConfigError

-- Integers as `int` returns them; `negsuc n` is -(n + 1).
pub data ℤ : Type 0 where
  pos : ℕ → ℤ
  negsuc : ℕ → ℤ

-- The digits of an `int` literal: single underscores may stand between digits. `need` says that a
-- digit has to come next.
unfoldable pub int_digits : Bool → Text → Option (List ℕ)
unfolding digit_value
int_digits need [] = if need then none else some []
int_digits need (c ∷ cs) = elim (c == b'_') [
  | true ↦ elim need [ true ↦ none | false ↦ int_digits true cs ]
  | false ↦ elim (digit_value c) [
    | none ↦ none
    | some d ↦ elim (int_digits false cs) [ none ↦ none | some ds ↦ some (d ∷ ds) ]
  ]
]

-- `int` refuses more than 4300 digits.
abbrev int_magnitude : Option (List ℕ) → Option ℕ
int_magnitude none = none
int_magnitude (some ds) = if leb (length ds) 4300 then some (number ds) else none

abbrev negated : Option ℕ → Option ℤ
negated none = none
negated (some zero) = some (pos 0)
negated (some (suc n)) = some (negsuc n)

abbrev positive : Option ℕ → Option ℤ
positive none = none
positive (some n) = some (pos n)

abbrev signed_int : Text → Option ℤ
signed_int [] = none
signed_int (c ∷ cs) =
    if c == b'-'
    then negated (int_magnitude (int_digits true cs))
    else if c == b'+'
    then positive (int_magnitude (int_digits true cs))
    else positive (int_magnitude (int_digits true (c ∷ cs)))

-- `int(text)`; none is a `ValueError`.
unfoldable pub int_of : Text → Option ℤ
unfolding int_digits strip number
int_of t = signed_int (strip t)

abbrev is_key_start : ℕ → Bool
is_key_start c = (leb b'A' c && leb c b'Z') || (leb b'a' c && leb c b'z') || c == b'_'

abbrev is_key_char : ℕ → Bool
is_key_char c = is_key_start c || (leb b'0' c && leb c b'9')

abbrev after_key : Text → Text → Option (Text × Text)
after_key key [] = none
after_key key (e ∷ value) = if e == b'=' then some (key, rstrip (lstrip value)) else none

abbrev from_key : Text → Option (Text × Text)
from_key [] = none
from_key (c ∷ cs) =
    if is_key_start c
    then after_key (c ∷ take_while is_key_char cs) (lstrip (drop_while is_key_char cs))
    else none

-- The two groups of `_KEY_VALUE_RE`, on a line with no line feed in it.
unfoldable pub key_value : Text → Option (Text × Text)
unfolding lstrip rstrip take_while drop_while
key_value line = from_key (lstrip line)

-- The dictionary of the values; a later line overwrites an earlier one.
abbrev pub Values : Type 0
Values = List (Text × Text)

unfoldable pub get : Text → Values → Option Text
unfolding text_eq
get k [] = none
get k ((j, v) ∷ m) = if text_eq j k then some v else get k m

unfoldable pub put : Text → Text → Values → Values
unfolding text_eq
put k v [] = (k, v) ∷ []
put k v ((j, w) ∷ m) = if text_eq j k then (j, v) ∷ m else (j, w) ∷ put k v m

abbrev is_skipped : Text → Bool
is_skipped line = text_eq line [] || starts_with (codes "#") line

-- One line: none if it cannot be parsed, `some none` for a blank line or a comment.
unfoldable pub read_line : Text → Option (Option (Text × Text))
unfolding key_value strip starts_with text_eq
read_line raw_line =
    let line = strip raw_line in
    if is_skipped line
    then some none
    else elim (key_value line) [ none ↦ none | some kv ↦ some (some kv) ]

-- The loop over the lines, from line number `lineno`.
unfoldable pub read_lines : ℕ → Values → List Text → Result ConfigError Values
read_lines lineno values [] = ok values
read_lines lineno values (raw_line ∷ rest) = elim (read_line raw_line) [
  | none ↦ err (cannot_parse lineno raw_line)
  | some none ↦ read_lines (lineno + 1) values rest
  | some (some (k, v)) ↦ read_lines (lineno + 1) (put k v values) rest
]

abbrev pub required : List Text
required = codes "room_name" ∷ codes "wps_pin" ∷ codes "passphrase" ∷ codes "channel" ∷ []

unfoldable pub missing_from : Values → List Text → List Text
unfolding get
missing_from values [] = []
missing_from values (k ∷ ks) =
    let rest = missing_from values ks in elim (get k values) [ none ↦ k ∷ rest | some v ↦ rest ]

-- `values[key]`, where `key` has been found.
abbrev value_of : Text → Values → Text
value_of k values = elim (get k values) [ none ↦ [] | some v ↦ v ]

unfoldable pub check_room_name : Text → Result ConfigError (Unit {0})
check_room_name name = if length name == 0 || ltb 32 (length name) then err bad_room_name else ok tt

abbrev pin_checked : Text → Option (List ℕ) → Result ConfigError (Unit {0})
pin_checked pin none = err (pin_not_digits pin)
pin_checked pin (some ds) =
    if checksum_matches ds
    then ok tt
    else err (pin_bad_checksum pin (wps_pin_checksum (number (take 7 ds))))

unfoldable pub check_wps_pin : Text → Result ConfigError (Unit {0})
unfolding pin_digits
check_wps_pin pin = pin_checked pin (pin_digits pin)

unfoldable pub check_passphrase : Text → Result ConfigError (Unit {0})
check_passphrase p =
    if not (leb 8 (length p) && leb (length p) 63) then err bad_passphrase else ok tt

abbrev channel_checked : Text → Option ℤ → Result ConfigError ℕ
channel_checked raw none = err (channel_not_integer raw)
channel_checked raw (some (negsuc n)) = err channel_not_allowed
channel_checked raw (some (pos n)) = elim (allowed_channel n) [
  | none ↦ err channel_not_allowed
  | some f ↦ ok n
]

unfoldable pub check_channel : Text → Result ConfigError ℕ
check_channel raw = channel_checked raw (int_of raw)

abbrev check_missing : List Text → Result ConfigError (Unit {0})
check_missing [] = ok tt
check_missing (k ∷ ks) = err (missing_keys (k ∷ ks))

-- The checks of the four values, in their order.
unfoldable pub check_found : Text → Text → Text → Text → Result ConfigError RoomConfig
check_found room_name wps_pin passphrase raw_channel = do
  check_room_name room_name
  check_wps_pin wps_pin
  check_passphrase passphrase
  channel ← check_channel raw_channel
  ok (record {
    room_name = room_name;
    wps_pin = wps_pin;
    passphrase = passphrase;
    channel = channel;
  })

-- What follows the loop over the lines.
unfoldable pub check_values : Values → Result ConfigError RoomConfig
check_values values = do
  check_missing (missing_from values required)
  check_found (value_of (codes "room_name") values) (value_of (codes "wps_pin") values)
      (value_of (codes "passphrase") values) (value_of (codes "channel") values)

unfoldable pub parse_room_config : Text → Result ConfigError RoomConfig
parse_room_config text = do values ← read_lines 1 [] (splitlines text); check_values values
