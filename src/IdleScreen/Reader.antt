-- ===== src/IdleScreen/Reader.antt =====
-- A person who reads the screen of castd/render/idle_screen.py, and the screen after a PIN request
-- in castd/main.py.
use miracast_device.Base.{
  ℕ, ◌≡◌, refl, ap, List, [], ◌∷◌, ◌++◌, Option, none, some, Text, codes, arith, ◌∙◌, ◌==◌,
  if◌then◌else◌, drop,
}
use miracast_device.IdleScreen.{Drawn, spaced, pin_lines, footer_lines, render_idle_screen}
use miracast_device.P2p.{Bus, P2PGroupOwner, handle_display_pin_request}
use miracast_device.Daemon.{Daemon, on_screen, on_display_pin_needed, show_idle}

-- The text at a height of the screen.
abbrev pub line_at : ℕ → List Drawn → Option Text
line_at y [] = none
line_at y (d ∷ ds) = if d.y == y then some d.text else line_at y ds

-- Every other character: a spaced text without its spaces.
abbrev pub unspaced : Text → Text
unspaced [] = []
unspaced (c ∷ []) = c ∷ []
unspaced (c ∷ s ∷ cs) = c ∷ unspaced cs

unspaced-spaced : (pin : Text) → unspaced (spaced pin) ≡ pin
unfolding spaced
unspaced-spaced [] = refl
unspaced-spaced (c ∷ []) = refl
unspaced-spaced (c ∷ d ∷ cs) = ap (λ r. c ∷ r) (unspaced-spaced (d ∷ cs))

abbrev pub mapped : (Text → Text) → Option Text → Option Text
mapped f none = none
mapped f (some t) = some (f t)

-- The large line of the screen, where the title above it announces a PIN.
abbrev pub read_pin : List Drawn → Option Text
read_pin ds = elim (line_at 42 ds) [ none ↦ none | some title ↦ mapped unspaced (line_at 56 ds) ]

-- The network in the footer, after the words that introduce it.
abbrev pub read_footer : List Drawn → Option Text
read_footer ds = mapped (drop 7) (line_at 88 ds)

-- `if pin` and `if wifi_ssid and wifi_password`.
abbrev pub if_given : Option Text → Option Text
if_given (some (c ∷ cs)) = some (c ∷ cs)
if_given _ = none

abbrev pub joined : Option Text → Option Text → Option Text
joined (some (s ∷ ssid)) (some (p ∷ password)) =
    some ((s ∷ ssid) ++ (codes "    Password: " ++ p ∷ password))
joined _ _ = none

-- What a reader finds on a screen.
pub record Shows (room_name : Text) (pin ssid password : Option Text) (ds : List Drawn)
    : Type 0 where
  pub room : line_at 20 ds ≡ some room_name
  pub shown_pin : read_pin ds ≡ if_given pin
  pub network : read_footer ds ≡ joined ssid password

footer_apart :
    (ssid password : Option Text)
    → (line_at 42 (footer_lines ssid password) ≡ none)
      × (read_footer (footer_lines ssid password) ≡ joined ssid password)
unfolding footer_lines
footer_apart ssid password = ground arith

pin_in_front :
    (pin : Option Text) (rest : List Drawn)
    → line_at 42 rest ≡ none
    → (read_pin (pin_lines pin ++ rest) ≡ if_given pin)
      × (read_footer (pin_lines pin ++ rest) ≡ read_footer rest)
unfolding pin_lines
pin_in_front none rest h = (ground (arith, h), refl)
pin_in_front (some []) rest h = (ground (arith, h), refl)
pin_in_front (some (c ∷ cs)) rest h = (ap some (unspaced-spaced (c ∷ cs)), refl)

render_idle_screen-Shows :
    (room_name : Text) (pin ssid password : Option Text)
    → Shows room_name pin ssid password (render_idle_screen room_name pin ssid password)
unfolding render_idle_screen
render_idle_screen-Shows room_name pin ssid password =
    let (apart, network) = footer_apart ssid password in
    let (in_front, behind) = pin_in_front pin (footer_lines ssid password) apart in
    record { room = refl; shown_pin = in_front; network = behind ∙ network }

abbrev first_of : Option (Text × Text) → Option Text
first_of none = none
first_of (some c) = some c.0

abbrev second_of : Option (Text × Text) → Option Text
second_of none = none
second_of (some c) = some c.1

-- `_show_idle_screen`: the lines of the screen that a daemon has last painted.
abbrev pub screen_of : Text → Daemon → List Drawn
screen_of room_name d =
    render_idle_screen room_name d.painted (first_of d.footer) (second_of d.footer)

-- When wpa_supplicant asks for a PIN to be displayed and the painting succeeds, whatever else the bus
-- answers, a reader of the screen that is then painted finds the name of the room, exactly the PIN (none, if it is
-- empty), and the network of the group where both its name and its passphrase are known.
pub pin_request_shown :
    (bus : Bus) (o : P2PGroupOwner) (d : Daemon) (room_name pin : Text)
    → d.screen ≡ on_screen
    → let (shown, o') = handle_display_pin_request bus pin o in
      let d' = (on_display_pin_needed shown d).1 in
      Shows room_name
        (some pin)
        (first_of d.credentials)
        (second_of d.credentials)
        (screen_of room_name d')
unfolding handle_display_pin_request on_display_pin_needed show_idle
pin_request_shown bus o d room_name pin works = rw works (
    render_idle_screen-Shows room_name (some pin) (first_of d.credentials)
      (second_of d.credentials))
