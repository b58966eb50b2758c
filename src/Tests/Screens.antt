-- ===== src/Tests/Screens.antt =====
-- Concrete pictures of castd/render/idle_screen.py and castd/render/framebuffer.py, and a concrete
-- command line of castd/render/gstreamer.py.
use miracast_device.Base.{
  ℕ, ◌*◌, ◌/◌, inr, strip, split, number, ◌≡◌, ◌≢◌, ◌++◌, Text, flatten, text_eq, if◌then◌else◌,
  refl, true, false, List, [], ◌∷◌, none, some, ok, codes, arith, All, is_space,
}
use miracast_device.Arbiter.{idle}
use miracast_device.Process.{absent, alive}
use miracast_device.Process.Pipeline.{RenderTarget, build_wfd_pipeline_description, render_argv}
use miracast_device.Process.Arguments.{elements, render_argv-elements}
use miracast_device.Framebuffer.{FbGeometry, Image, paint_framebuffer}
use miracast_device.Config.{pos, int_of}
use miracast_device.Framebuffer.Geometry.{
  Sysfs, IntGeometry, read_fb_geometry, stride_of, read_fb_geometry_packed,
}
use miracast_device.Framebuffer.Pixels.{Pixel}
use miracast_device.Framebuffer.Scanlines.{IsImage, IsPainted, high, paint_framebuffer_scanlines}
use miracast_device.P2p.{Bus, P2PGroupOwner, handle_display_pin_request}
use miracast_device.Daemon.{Daemon, on_screen, on_display_pin_needed}
use miracast_device.IdleScreen.{Drawn, render_idle_screen}
use miracast_device.IdleScreen.Saved.{Files, Show, save_idle_screen, save_idle_screen_atomic}
use miracast_device.IdleScreen.Reader.{Shows, screen_of, pin_request_shown}

abbrev geometry : FbGeometry
geometry = record { width = 1; height = 2; bits_per_pixel = 16; stride = 5 }

abbrev pixels : List Pixel
pixels =
    record { red = 255; green = 128; blue = 7 } ∷ record { red = 8; green = 4; blue = 200 } ∷ []

abbrev resized : ℕ → ℕ → Image
resized width height = record {
  rgb = 255 ∷ 128 ∷ 7 ∷ 8 ∷ 4 ∷ 200 ∷ [];
  bgrx = 7 ∷ 128 ∷ 255 ∷ 0 ∷ 200 ∷ 4 ∷ 8 ∷ 0 ∷ [];
}

resized-IsImage : IsImage pixels 1 2 (resized 1 2)
resized-IsImage = record {
  as_rgb = refl;
  bytes = (
    record { red_byte = omega arith; green_byte = omega arith; blue_byte = omega arith },
    (record { red_byte = omega arith; green_byte = omega arith; blue_byte = omega arith }, tt),
  );
  count = refl;
  as_bgrx = refl;
}

paint_framebuffer_scanlines_example :
    (written : List ℕ) × (paint_framebuffer resized geometry ≡ ok written)
    × IsPainted geometry pixels (resized 1 2) written
paint_framebuffer_scanlines_example =
    paint_framebuffer_scanlines resized geometry pixels resized-IsImage (high refl (omega arith))

abbrev bus : Bus
bus = record {
  get_interface = λ name. none;
  create_interface = λ name conf. none;
  set_device_name = λ name. false;
  set_primary_device_type = λ bytes. false;
  set_wfd_ies = λ bytes. false;
  group_add = λ freq. false;
  has_object = λ path. false;
  wps_start = λ path pin. false;
  group_of = λ path. none;
  ssid = λ path. none;
  passphrase = λ path. none;
  net_names = none;
}

abbrev owner : P2PGroupOwner
owner = record {
  interface_name = codes "wlan1";
  device_name = codes "Lab";
  freq_mhz = 5180;
  iface_path = codes "/if/1";
  group_iface_path = none;
  group_credentials = none;
  wfd_ies = none;
  armed = none;
}

abbrev room : Daemon
room = record {
  arbiter = idle;
  render = record { child = absent; first_frame_seen = false };
  uxplay = some (record { child = alive; expect_exit = false });
  health = idle;
  published = true;
  painted = none;
  footer = none;
  credentials = some (codes "DIRECT-xy", codes "s3cret12");
  control_sock = false;
  render_pipeline_expected = false;
  screen = on_screen;
  takes_ies = true;
}

pin_request_shown_example :
    let (shown, o') = handle_display_pin_request bus (codes "12345670") owner in
    let d' = (on_display_pin_needed shown room).1 in
    Shows
      (codes "Lab")
      (some (codes "12345670"))
      (some (codes "DIRECT-xy"))
      (some (codes "s3cret12"))
      (screen_of (codes "Lab") d')
pin_request_shown_example = pin_request_shown bus owner room (codes "Lab") (codes "12345670") refl

abbrev target : RenderTarget
target = record { driver_name = codes "vc4"; connector_id = some 33 }

vc4_solid : All (λ c. is_space c ≡ false) (codes "vc4")
unfolding is_space
vc4_solid = (refl, (refl, (refl, tt)))

render_argv-elements_example :
    render_argv (build_wfd_pipeline_description 1028 target)
    ≡ codes "stdbuf"
      ∷ codes "-oL"
      ∷ codes "-eL"
      ∷ codes "gst-launch-1.0"
      ∷ codes "-e"
      ∷ codes "-v"
      ∷ elements 1028 target
render_argv-elements_example = render_argv-elements 1028 target vc4_solid

-- A picture in two pieces, and a screen that is there already.
abbrev two_pieces : List Drawn → List (List ℕ)
two_pieces lines = (0x89 ∷ 0x50 ∷ []) ∷ (0x4e ∷ []) ∷ []

abbrev as_tmp : Text → Text
as_tmp path = path ++ codes ".tmp"

abbrev old_screen : Files
old_screen path = if text_eq path (codes "/opt/idle") then some (1 ∷ []) else none

save_idle_screen_atomic_example :
    let lines = render_idle_screen (codes "Lab") none none none in
    let (states, last) = save_idle_screen two_pieces as_tmp (codes "/opt/idle") lines old_screen in
    Show (codes "/opt/idle") (old_screen (codes "/opt/idle")) states
    × (last (codes "/opt/idle") ≡ some (flatten (two_pieces lines)))
    × (last (codes "/opt/idle.tmp") ≡ none)
    × ((p : Text)
        → p ≢ codes "/opt/idle.tmp"
        → p ≢ codes "/opt/idle"
        → Show p (old_screen p) states × (last p ≡ old_screen p))
save_idle_screen_atomic_example =
    save_idle_screen_atomic two_pieces as_tmp (codes "/opt/idle")
      (render_idle_screen (codes "Lab") none none none) old_screen (λ e. cc e)

-- A framebuffer of one pixel and two lines, without a stride file.
abbrev sysfs : Sysfs
sysfs = record {
  virtual_size = some (codes "1,2\n");
  bits_per_pixel = some (codes "16\n");
  stride = none;
}

abbrev packed_geometry : FbGeometry
packed_geometry = record { width = 1; height = 2; bits_per_pixel = 16; stride = 2 }

abbrev read_numbers : IntGeometry
read_numbers = record { width = pos 1; height = pos 2; bits_per_pixel = pos 16; stride = pos 2 }

sysfs-read : read_fb_geometry sysfs ≡ ok read_numbers
unfolding read_fb_geometry stride_of int_of strip split number
sysfs-read = refl

read_fb_geometry_packed_example :
    (2 ≡ 1 * (16 / 8))
    × ((written : List ℕ) × (paint_framebuffer resized packed_geometry ≡ ok written)
        × IsPainted packed_geometry pixels (resized 1 2) written)
read_fb_geometry_packed_example =
    read_fb_geometry_packed sysfs read_numbers packed_geometry resized pixels refl sysfs-read
      (record { width = refl; height = refl; bits_per_pixel = refl; stride = refl }) (inr refl)
      resized-IsImage
