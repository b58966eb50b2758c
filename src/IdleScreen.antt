-- ===== src/IdleScreen.antt =====
-- castd/render/idle_screen.py: what `render_idle_screen` draws. The fonts' files and the pixels of
-- the letters are the picture library's.
pub mod Reader
pub mod Saved
use miracast_device.Base.{ℕ, ◌-◌, ◌*◌, ◌/◌, List, [], ◌∷◌, ◌++◌, Option, none, some, Text, codes}

pub data Colour : Type 0 where
  foreground accent : Colour

-- A centered line: its text, the size of its font, its height on the screen in percent, its colour.
pub record Drawn : Type 0 where
  pub text : Text
  pub size : ℕ
  pub y : ℕ
  pub fill : Colour

abbrev pub drawn : Text → ℕ → ℕ → Colour → Drawn
drawn text size y fill = record { text = text; size = size; y = y; fill = fill }

-- `" ".join(pin)`.
unfoldable pub spaced : Text → Text
spaced [] = []
spaced (c ∷ []) = c ∷ []
spaced (c ∷ d ∷ cs) = c ∷ b' ' ∷ spaced (d ∷ cs)

abbrev hint : Drawn
hint = drawn (codes "Press Win+K on your PC to connect") 56 52 accent

unfoldable pub pin_lines : Option Text → List Drawn
unfolding spaced
pin_lines none = hint ∷ []
pin_lines (some []) = hint ∷ []
pin_lines (some (c ∷ cs)) =
    drawn (codes "Enter this PIN on your PC") 64 42 accent
    ∷ drawn (spaced (c ∷ cs)) 200 56 foreground
    ∷ []

abbrev network_lines : Text → Text → List Drawn
network_lines (s ∷ ssid) (p ∷ password) =
    drawn (codes "iPhone / Mac: join this Wi-Fi, then AirPlay to this room") 48 80 accent
    ∷ drawn (codes "Wi-Fi: " ++ ((s ∷ ssid) ++ (codes "    Password: " ++ p ∷ password))) 48 88
        foreground
    ∷ []
network_lines _ _ = []

unfoldable pub footer_lines : Option Text → Option Text → List Drawn
footer_lines (some ssid) (some password) = network_lines ssid password
footer_lines _ _ = []

-- The lines in the order in which they are drawn.
unfoldable pub render_idle_screen : Text → Option Text → Option Text → Option Text → List Drawn
unfolding pin_lines footer_lines
render_idle_screen room_name pin wifi_ssid wifi_password =
    drawn room_name 140 20 foreground ∷ (pin_lines pin ++ footer_lines wifi_ssid wifi_password)
