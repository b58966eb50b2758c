-- ===== src/Process/Pipeline.antt =====
-- The command lines of the child processes: castd/render/gstreamer.py with the text of its
-- pipeline and what it watches for in the child's output, and castd/airplay/uxplay.py.
use miracast_device.Base.{
  ℕ, Bool, true, not, ◌&&◌, List, [], ◌∷◌, ◌++◌, Option, none, some, Text, codes, decimal, words,
  contains, all, if◌then◌else◌,
}

pub record RenderTarget : Type 0 where
  pub driver_name : Text
  pub connector_id : Option ℕ

abbrev connector : Option ℕ → Text
connector none = []
connector (some id) = codes " connector-id=" ++ decimal id

unfoldable pub build_wfd_pipeline_description : ℕ → RenderTarget → Text
unfolding decimal
build_wfd_pipeline_description udp_port target =
    codes "udpsrc port="
    ++ (decimal udp_port
        ++ (codes " "
            ++ (codes
                  "! application/x-rtp,media=video,encoding-name=MP2T,payload=33,clock-rate=90000 "
                ++ (codes "! rtpjitterbuffer latency=100 "
                    ++ (codes "! rtpmp2tdepay "
                        ++ (codes "! tsdemux name=demux latency=50 "
                            ++ (codes "demux. ! queue ! h264parse "
                                ++ (codes
                                      "! capssetter join=true replace=false caps=video/x-h264,profile=(string)high "
                                    ++ (codes "! v4l2h264dec "
                                        ++ (codes
                                              "! queue leaky=downstream max-size-buffers=2 max-size-bytes=0 max-size-time=0 "
                                            ++ (codes "! kmssink driver-name="
                                                ++ (target.driver_name
                                                    ++ (connector target.connector_id
                                                        ++ (codes " sync=false "
                                                            ++ (codes
                                                            "demux. ! queue leaky=downstream ! aacparse ! avdec_aac ! audioconvert ! audioresample "
                                                            ++ codes
                                                            "! alsasink sync=false")))))))))))))))

-- `argv` of `RenderProcess.start`.
unfoldable pub render_argv : Text → List Text
unfolding words
render_argv pipeline_description =
    codes "stdbuf"
    ∷ codes "-oL"
    ∷ codes "-eL"
    ∷ codes "gst-launch-1.0"
    ∷ codes "-e"
    ∷ codes "-v"
    ∷ words pipeline_description

abbrev pub first_frame_markers : List Text
first_frame_markers = codes "kmssink" ∷ codes "GstPad:sink:" ∷ codes "caps = video/x-raw" ∷ []

-- `_drain_output`: whether the first frame has been seen, after the lines of the child.
unfoldable pub drain_output : List Text → Bool → Bool
unfolding contains
drain_output [] seen = seen
drain_output (line ∷ lines) seen =
    if not seen && all (λ m. contains m line) first_frame_markers
    then drain_output lines true
    else drain_output lines seen

unfoldable pub build_uxplay_argv : Text → List Text
build_uxplay_argv device_name =
    codes "stdbuf"
    ∷ codes "-oL"
    ∷ codes "-eL"
    ∷ codes "uxplay"
    ∷ codes "-n"
    ∷ device_name
    ∷ codes "-nh"
    ∷ codes "-p"
    ∷ codes "-vs"
    ∷ codes "kmssink driver-name=vc4"
    ∷ codes "-as"
    ∷ codes "alsasink"
    ∷ codes "-vc"
    ∷ codes "videoconvert"
    ∷ []
