-- ===== src/Process/Arguments.antt =====
-- The arguments of the render process of castd/render/gstreamer.py, one by one.
use miracast_device.Base.{
  ℕ, ◌+◌, ◌≤◌, ◌≡◌, refl, ap, ◌∙◌, Bool, true, false, not, ◌&&◌, ◌||◌, List, [], ◌∷◌, ◌++◌, Option,
  none, some, Text, codes, decimal, words, contains, All, all, any, join, is_space, arith,
  if◌then◌else◌,
}
use miracast_device.Base.Decimal.{all-decimal}
use miracast_device.Base.Words.{words-join, all_fields, is_field}
use miracast_device.Process.Pipeline.{
  RenderTarget, build_wfd_pipeline_description, render_argv, drain_output, first_frame_markers,
}

-- The arguments that are the same for all targets.
abbrev pub before_port : List Text
before_port = codes "udpsrc" ∷ []

abbrev pub before_driver : List Text
before_driver =
    codes "!"
    ∷ codes "application/x-rtp,media=video,encoding-name=MP2T,payload=33,clock-rate=90000"
    ∷ codes "!"
    ∷ codes "rtpjitterbuffer"
    ∷ codes "latency=100"
    ∷ codes "!"
    ∷ codes "rtpmp2tdepay"
    ∷ codes "!"
    ∷ codes "tsdemux"
    ∷ codes "name=demux"
    ∷ codes "latency=50"
    ∷ codes "demux."
    ∷ codes "!"
    ∷ codes "queue"
    ∷ codes "!"
    ∷ codes "h264parse"
    ∷ codes "!"
    ∷ codes "capssetter"
    ∷ codes "join=true"
    ∷ codes "replace=false"
    ∷ codes "caps=video/x-h264,profile=(string)high"
    ∷ codes "!"
    ∷ codes "v4l2h264dec"
    ∷ codes "!"
    ∷ codes "queue"
    ∷ codes "leaky=downstream"
    ∷ codes "max-size-buffers=2"
    ∷ codes "max-size-bytes=0"
    ∷ codes "max-size-time=0"
    ∷ codes "!"
    ∷ codes "kmssink"
    ∷ []

abbrev pub after_connector : List Text
after_connector =
    codes "sync=false"
    ∷ codes "demux."
    ∷ codes "!"
    ∷ codes "queue"
    ∷ codes "leaky=downstream"
    ∷ codes "!"
    ∷ codes "aacparse"
    ∷ codes "!"
    ∷ codes "avdec_aac"
    ∷ codes "!"
    ∷ codes "audioconvert"
    ∷ codes "!"
    ∷ codes "audioresample"
    ∷ codes "!"
    ∷ codes "alsasink"
    ∷ codes "sync=false"
    ∷ []

abbrev pub connector_words : Option ℕ → List Text
connector_words none = []
connector_words (some id) = (codes "connector-id=" ++ decimal id) ∷ []

-- The words of the pipeline.
abbrev pub elements : ℕ → RenderTarget → List Text
elements udp_port target =
    before_port
    ++ (codes "port=" ++ decimal udp_port)
      ∷ (before_driver
          ++ (codes "driver-name=" ++ target.driver_name)
            ∷ (connector_words target.connector_id ++ after_connector))

description-join :
    (udp_port : ℕ) (target : RenderTarget)
    → build_wfd_pipeline_description udp_port target ≡ join (codes " ") (elements udp_port target)
unfolding build_wfd_pipeline_description join
description-join udp_port target = by_connector target.driver_name target.connector_id
  where
    by_connector :
        (name : Text) (id : Option ℕ)
        → build_wfd_pipeline_description udp_port (record { driver_name = name; connector_id = id })
          ≡ join (codes " ") (elements udp_port (record { driver_name = name; connector_id = id }))
    by_connector name none = refl
    by_connector name (some id) = refl

-- Digits are no white space.
digit_solid : (d : ℕ) → d ≤ 9 → not (is_space (48 + d)) ≡ true
unfolding is_space
digit_solid d h = ground arith

solid_of : (w : Text) → All (λ c. is_space c ≡ false) w → all (λ c. not (is_space c)) w ≡ true
solid_of [] h = refl
solid_of (c ∷ w) h = ground (arith, h.0, solid_of w h.1)

both : (a b : Bool) → a ≡ true → b ≡ true → (a && b) ≡ true
both a b h k = ground (arith, h, k)

elements_fields :
    (port : Text) (name : Text) (id : Option ℕ)
    → all (λ c. not (is_space c)) port ≡ true
    → all (λ c. not (is_space c)) name ≡ true
    → all is_field (
        before_port
        ++ (codes "port=" ++ port)
          ∷ (before_driver
              ++ (codes "driver-name=" ++ name) ∷ (connector_words id ++ after_connector)))
      ≡ true
unfolding is_space decimal
elements_fields port name none h k = both _ _ h (both _ _ k refl)
elements_fields port name (some id) h k =
    both _ _ h (both _ _ k (both _ _ (all-decimal (λ c. not (is_space c)) digit_solid id) refl))

-- The child of the render process gets each element of the pipeline, each link mark and each
-- property as an argument of its own: the port and the driver that were given, the connector
-- exactly if one is given, and otherwise the same arguments for all targets, when the name of the
-- driver has no white space.
pub render_argv-elements :
    (udp_port : ℕ) (target : RenderTarget)
    → All (λ c. is_space c ≡ false) target.driver_name
    → render_argv (build_wfd_pipeline_description udp_port target)
      ≡ codes "stdbuf"
        ∷ codes "-oL"
        ∷ codes "-eL"
        ∷ codes "gst-launch-1.0"
        ∷ codes "-e"
        ∷ codes "-v"
        ∷ elements udp_port target
unfolding render_argv decimal
render_argv-elements udp_port target h =
    let fields =
      elements_fields (decimal udp_port) target.driver_name target.connector_id
        (all-decimal (λ c. not (is_space c)) digit_solid udp_port)
        (solid_of target.driver_name h) in
    ap
      (λ ws.
        codes "stdbuf"
        ∷ codes "-oL"
        ∷ codes "-eL"
        ∷ codes "gst-launch-1.0"
        ∷ codes "-e"
        ∷ codes "-v"
        ∷ ws)
      (ap words (description-join udp_port target)
        ∙ words-join (elements udp_port target) (all_fields (elements udp_port target) fields))

-- The first frame has been seen exactly if it was seen before or one line has every marker.
pub drain_output-any :
    (lines : List Text) (seen : Bool)
    → drain_output lines seen
      ≡ (seen || any (λ line. all (λ m. contains m line) first_frame_markers) lines)
unfolding drain_output
drain_output-any [] seen = ground arith
drain_output-any (line ∷ lines) true = drain_output-any lines true
drain_output-any (line ∷ lines) false =
    elim (all (λ m. contains m line) first_frame_markers)
      as (λ b.
        (if b then drain_output lines true else drain_output lines false)
        ≡ (b || any (λ line. all (λ m. contains m line) first_frame_markers) lines)) [
          | true ↦ drain_output-any lines true
          | false ↦ drain_output-any lines false
        ]
