-- ===== src/Config/Printer.antt =====
-- A receiver.conf that is written line by line, and what castd/config.py reads in it.
use mathlib.Core.List.{
  append_assoc, append-nil, reverse, reverse-cons, reverse-append, reverse-reverse,
}
use miracast_device.Base.{
  ℕ, ◌≤◌, ◌≡◌, ◌⊎◌, inl, inr, refl, sym, ap, ◌∙◌, true, false, not, List, [], ◌∷◌, ◌++◌, some, Text,
  all, length, ok, codes, decimal, arith, splitlines, lines_from, is_line_end, is_space, strip,
  lstrip, rstrip, digit_value, drop_while, take_while, text_eq, starts_with,
}
use miracast_device.Config.{
  RoomConfig, Values, read_line, read_lines, key_value, check_room_name, check_wps_pin,
  check_passphrase, check_channel, check_values, check_found, is_skipped, channel_checked,
  is_valid_wps_pin, freq_mhz, allowed_channel, int_of, pos, parse_room_config, missing_from, put,
  get,
}
use miracast_device.Config.Parser.{IsValid}
use miracast_device.Config.Lines.{read_lines-step}

-- A value that fits on a line: no line end, and no white space at its ends.
pub record IsField (v : Text) : Type 0 where
  pub one_line : all (λ c. not (is_line_end c)) v ≡ true
  pub front : lstrip v ≡ v
  pub init : Text
  pub last : ℕ
  pub ends : v ≡ init ++ last ∷ []
  pub solid : is_space last ≡ false

abbrev pub print : RoomConfig → Text
print c =
    codes "room_name="
    ++ (c.room_name
        ++ (codes "\nwps_pin="
            ++ (c.wps_pin
                ++ (codes "\npassphrase="
                    ++ (c.passphrase
                        ++ (codes "\nchannel=" ++ (decimal c.channel ++ codes "\n")))))))

lines_from-part :
    (c : ℕ) (part t : Text)
    → not (is_line_end c) ≡ true
    → lines_from part false (c ∷ t) ≡ lines_from (c ∷ part) false t
unfolding lines_from
lines_from-part c part t h =
    let inside : is_line_end c ≡ false = ground (arith, h) in rw (inside, lines_from) refl

lines_from-line :
    (t rest part : Text)
    → all (λ c. not (is_line_end c)) t ≡ true
    → lines_from part false (t ++ 10 ∷ rest) ≡ (reverse part ++ t) ∷ lines_from [] false rest
lines_from-line [] rest part h =
    unfold lines_from in unfold is_line_end in rw (append-nil (reverse part)) refl
lines_from-line (c ∷ t) rest part h =
    lines_from-part c part (t ++ 10 ∷ rest) (ground (arith, h))
    ∙ lines_from-line t rest (c ∷ part) (ground (arith, h))
    ∙ rw (reverse-cons c part, append_assoc (reverse part) (c ∷ []) t) refl

-- Nothing is cut off a text that ends in something else than white space.
rstrip-solid : (t : Text) (z : ℕ) → is_space z ≡ false → rstrip (t ++ z ∷ []) ≡ t ++ z ∷ []
unfolding rstrip lstrip drop_while
rstrip-solid t z h =
    rw (reverse-append t (z ∷ []), h, reverse-cons z (reverse t), reverse-reverse t) refl

module _ (v : Text) (field : IsField v) where
  rstrip-field : rstrip v ≡ v
  rstrip-field = rw field.ends (rstrip-solid field.init field.last field.solid)

  rstrip-behind : (t : Text) → rstrip (t ++ v) ≡ t ++ v
  rstrip-behind t =
      ap (λ w. rstrip (t ++ w)) field.ends
      ∙ ap rstrip (sym (append_assoc t field.init (field.last ∷ [])))
      ∙ rstrip-solid (t ++ field.init) field.last field.solid
      ∙ append_assoc t field.init (field.last ∷ [])
      ∙ ap (λ w. t ++ w) (sym field.ends)

  -- A line that begins with a key and an equals sign.
  line_read :
      (front key : Text)
      → ((t : Text) → lstrip (front ++ t) ≡ front ++ t)
      → ((t : Text) → is_skipped (front ++ t) ≡ false)
      → ((t : Text) → key_value (front ++ t) ≡ some (key, rstrip (lstrip t)))
      → read_line (front ++ v) ≡ some (some (key, v))
  unfolding read_line strip
  line_read front key whole plain split =
      let value : key_value (front ++ v) ≡ some (key, v) =
        split v
        ∙ ap (λ t. some (key, rstrip t)) field.front
        ∙ ap (λ t. some (key, t)) rstrip-field in
      rw (whole v, rstrip-behind front, plain v, value) refl

  room_name_read : read_line (codes "room_name=" ++ v) ≡ some (some (codes "room_name", v))
  unfolding lstrip drop_while is_space key_value take_while starts_with text_eq
  room_name_read =
      line_read (codes "room_name=") (codes "room_name") (λ t. refl) (λ t. refl) (λ t. refl)

  wps_pin_read : read_line (codes "wps_pin=" ++ v) ≡ some (some (codes "wps_pin", v))
  unfolding lstrip drop_while is_space key_value take_while starts_with text_eq
  wps_pin_read = line_read (codes "wps_pin=") (codes "wps_pin") (λ t. refl) (λ t. refl) (λ t. refl)

  passphrase_read : read_line (codes "passphrase=" ++ v) ≡ some (some (codes "passphrase", v))
  unfolding lstrip drop_while is_space key_value take_while starts_with text_eq
  passphrase_read =
      line_read (codes "passphrase=") (codes "passphrase") (λ t. refl) (λ t. refl) (λ t. refl)

  channel_read : read_line (codes "channel=" ++ v) ≡ some (some (codes "channel", v))
  unfolding lstrip drop_while is_space key_value take_while starts_with text_eq
  channel_read = line_read (codes "channel=") (codes "channel") (λ t. refl) (λ t. refl) (λ t. refl)

allowed_cases :
    (c f : ℕ) → allowed_channel c ≡ some f → (c ≡ 36) ⊎ ((c ≡ 40) ⊎ ((c ≡ 44) ⊎ (c ≡ 48)))
unfolding allowed_channel
allowed_cases c f h = ground arith

-- A number of two digits is a field, and read back.
abbrev Written : ℕ → Type 0
Written c = IsField (decimal c) × (int_of (decimal c) ≡ some (pos c))

two_digits-Written :
    (c a b : ℕ)
    → decimal c ≡ a ∷ b ∷ []
    → all (λ d. not (is_line_end d)) (a ∷ b ∷ []) ≡ true
    → is_space a ≡ false
    → is_space b ≡ false
    → int_of (a ∷ b ∷ []) ≡ some (pos c)
    → Written c
unfolding lstrip drop_while
two_digits-Written c a b shape one_line front solid int = rw shape (
  record {
    one_line = one_line;
    front = rw front refl;
    init = a ∷ [];
    last = b;
    ends = refl;
    solid = solid;
  },
  int,
)

channel-Written : (c f : ℕ) → allowed_channel c ≡ some f → Written c
unfolding decimal int_of is_line_end is_space lstrip digit_value
channel-Written c f h = elim (allowed_cases c f h) [
  | inl e ↦ rw e (two_digits-Written 36 b'3' b'6' refl refl refl refl refl)
  | inr (inl e) ↦ rw e (two_digits-Written 40 b'4' b'0' refl refl refl refl refl)
  | inr (inr (inl e)) ↦ rw e (two_digits-Written 44 b'4' b'4' refl refl refl refl refl)
  | inr (inr (inr e)) ↦ rw e (two_digits-Written 48 b'4' b'8' refl refl refl refl refl)
]

-- The lines of a printed file.
abbrev lines_of : RoomConfig → List Text
lines_of c =
    (codes "room_name=" ++ c.room_name)
    ∷ (codes "wps_pin=" ++ c.wps_pin)
    ∷ (codes "passphrase=" ++ c.passphrase)
    ∷ (codes "channel=" ++ decimal c.channel)
    ∷ []

-- Texts that can stand in a file.
pub record IsPrintable (c : RoomConfig) : Type 0 where
  pub room_name : IsField c.room_name
  pub wps_pin : IsField c.wps_pin
  pub passphrase : IsField c.passphrase

splitlines-print :
    (c : RoomConfig)
    → IsPrintable c
    → IsField (decimal c.channel)
    → splitlines (print c) ≡ lines_of c
unfolding splitlines is_line_end
splitlines-print c h k =
    lines_from-line (codes "room_name=" ++ c.room_name) _ [] h.room_name.one_line
    ∙ ap (λ ls. (codes "room_name=" ++ c.room_name) ∷ ls)
        (lines_from-line (codes "wps_pin=" ++ c.wps_pin) _ [] h.wps_pin.one_line
          ∙ ap (λ ls. (codes "wps_pin=" ++ c.wps_pin) ∷ ls)
              (lines_from-line (codes "passphrase=" ++ c.passphrase) _ [] h.passphrase.one_line
                ∙ ap (λ ls. (codes "passphrase=" ++ c.passphrase) ∷ ls)
                    (lines_from-line (codes "channel=" ++ decimal c.channel) [] [] k.one_line
                      ∙ unfold lines_from in refl)))

-- What the loop over these lines leaves.
abbrev values_of : RoomConfig → Values
values_of c =
    (codes "room_name", c.room_name)
    ∷ (codes "wps_pin", c.wps_pin)
    ∷ (codes "passphrase", c.passphrase)
    ∷ (codes "channel", decimal c.channel)
    ∷ []

read_lines-print :
    (c : RoomConfig)
    → IsPrintable c
    → IsField (decimal c.channel)
    → read_lines 1 [] (lines_of c) ≡ ok (values_of c)
unfolding put text_eq
read_lines-print c h k =
    read_lines-step 1 [] _ _ (some (codes "room_name", c.room_name))
      (room_name_read c.room_name h.room_name)
    ∙ read_lines-step 2 _ _ _ (some (codes "wps_pin", c.wps_pin)) (wps_pin_read c.wps_pin h.wps_pin)
    ∙ read_lines-step 3 _ _ _ (some (codes "passphrase", c.passphrase))
        (passphrase_read c.passphrase h.passphrase)
    ∙ read_lines-step 4 _ _ _ (some (codes "channel", decimal c.channel))
        (channel_read (decimal c.channel) k)
    ∙ unfold read_lines in refl

room_name_passes : (name : Text) → 1 ≤ length name → length name ≤ 32 → check_room_name name ≡ ok tt
unfolding check_room_name
room_name_passes name h k = ground (arith, h, k)

wps_pin_passes : (pin : Text) → is_valid_wps_pin pin ≡ true → check_wps_pin pin ≡ ok tt
unfolding check_wps_pin is_valid_wps_pin
wps_pin_passes pin h = ground (arith, h)

passphrase_passes : (p : Text) → 8 ≤ length p → length p ≤ 63 → check_passphrase p ≡ ok tt
unfolding check_passphrase
passphrase_passes p h k = ground (arith, h, k)

channel_passes :
    (c f : ℕ) (raw : Text)
    → allowed_channel c ≡ some f
    → int_of raw ≡ some (pos c)
    → check_channel raw ≡ ok c
unfolding check_channel
channel_passes c f raw a i = rw (i, check_channel, channel_checked, a) refl

check_values-print :
    (c : RoomConfig) (f : ℕ)
    → IsValid c
    → allowed_channel c.channel ≡ some f
    → int_of (decimal c.channel) ≡ some (pos c.channel)
    → check_values (values_of c) ≡ ok c
unfolding check_values missing_from get text_eq check_found
check_values-print c f v a i =
    rw
      (
        room_name_passes c.room_name v.named v.name_fits,
        wps_pin_passes c.wps_pin v.pin_valid,
        passphrase_passes c.passphrase v.pass_long v.pass_fits,
        channel_passes c.channel f (decimal c.channel) a i,
      )
      refl

-- A valid configuration whose texts can stand on a line is read back from the file that is printed
-- from it.
pub parse_room_config-print :
    (c : RoomConfig) → IsValid c → IsPrintable c → parse_room_config (print c) ≡ ok c
unfolding parse_room_config freq_mhz
parse_room_config-print c v h =
    let (f, a, _, _) = v.has_freq in
    let (field, int) = channel-Written c.channel f a in
    rw (splitlines-print c h field, read_lines-print c h field) (check_values-print c f v a int)
