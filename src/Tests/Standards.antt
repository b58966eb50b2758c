-- ===== src/Tests/Standards.antt =====
-- A standard source in a room of castd/main.py.
use mathlib.Core.List.{append-nil}
use miracast_device.Base.{
  ℕ, ◌≡◌, refl, true, false, Bool, List, [], ◌∷◌, ◌++◌, none, some, arith, codes, Text, leb, ◌||◌,
  ◌&&◌, ◌==◌, ◌≢◌, ap, ◌∙◌, map, take, drop, take-append-drop, join,
}
use miracast_device.Arbiter.{idle}
use miracast_device.Process.{absent, alive}
use miracast_device.Header.{is_ascii_digit}
use miracast_device.Rtsp.{WfdCapabilities, aac}
use miracast_device.Rtsp.Encodable.{IsWordClass}
use miracast_device.Rtsp.Texts.{IsPlainSetup}
use miracast_device.Session.{Channel, timed_out}
use miracast_device.Session.Chunks.{arriving}
use miracast_device.Session.Turns.{At}
use miracast_device.Session.Handshake.{bytes_of, agreed_with, replies}
use miracast_device.Session.KeepAlive.{messages}
use miracast_device.Session.Standard.{Script, IsScript, standard, given}
use miracast_device.Session.Responses.{KnowsDigits}
use miracast_device.Session.Upkeep.{keep_alives, teardown}
use miracast_device.Daemon.{Daemon, on_screen}
use miracast_device.Daemon.Conducted.{Conducted}
use miracast_device.Daemon.Standard.{run_source_session_standard, acknowledgement}

abbrev caps : WfdCapabilities
caps = record {
  audio_codec = aac;
  allow_1080p60 = false;
  device_name = codes "Lab";
  sink_model = codes "castd";
  sink_version = codes "1";
  enable_uibc = false;
  edid = none;
}

caps-IsPlainSetup : IsPlainSetup caps
caps-IsPlainSetup = record {
  device_name = record { plain = refl };
  sink_model = record { plain = refl };
  sink_version = record { plain = refl };
  no_edid = refl;
}

-- The word characters of ASCII.
abbrev is_word : ℕ → Bool
is_word c = is_ascii_digit c || (leb 65 c && leb c 90) || (leb 97 c && leb c 122) || c == 95

is_word-IsWordClass : IsWordClass is_word
is_word-IsWordClass c h = ground (arith, h)

is_word-KnowsDigits : KnowsDigits is_word
is_word-KnowsDigits = record { digits = λ c h. ground (arith, h); no_semicolon = refl }

abbrev script : Script
script = record {
  k1 = 1;
  k2 = 1;
  k3 = 2;
  k4 = 3;
  k5 = 4;
  k6 = 2;
  k7 = 3;
  asks = codes "wfd_video_formats\r\nintel_friendly_name\r\n";
  chosen = codes "wfd_audio_codecs: AAC 00000001 00\r\n";
  port = 19020;
  id = 1804289383;
}

script-IsScript : IsScript script
script-IsScript = record {
  asks_ascii = refl;
  chosen_ascii = refl;
  asks_short = omega arith;
  chosen_short = omega arith;
  is_port = omega arith;
}

abbrev written : Text
written = bytes_of (standard script) (messages (keep_alives (5 ∷ 6 ∷ [])) ++ (teardown 7 ++ []))

abbrev pieces : List Text
pieces = take 10 written ∷ drop 10 written ∷ []

abbrev line_up : Channel
line_up = record {
  inbound = arriving pieces (timed_out ∷ []);
  buf = [];
  sent = [];
  send_fails = λ k. false;
}

abbrev free : Daemon
free = record {
  arbiter = idle;
  render = record { child = absent; first_frame_seen = false };
  uxplay = some (record { child = alive; expect_exit = false });
  health = idle;
  published = true;
  painted = none;
  footer = none;
  credentials = none;
  control_sock = false;
  render_pipeline_expected = false;
  screen = on_screen;
  takes_ies = true;
}

is_cons : Text → Bool
is_cons [] = false
is_cons (c ∷ cs) = true

ne_nil : (t : Text) → is_cons t ≡ true → t ≢ []
unfolding is_cons
ne_nil [] h p = ground (arith, h)
ne_nil (c ∷ cs) h p = cc p

line_up-At : At (timed_out ∷ []) written [] line_up
unfolding is_cons join
line_up-At = record {
  chunks = pieces;
  are_chunks = (ne_nil (take 10 written) refl, (ne_nil (drop 10 written) refl, tt));
  inbound = refl;
  bytes =
      ap (λ r. take 10 written ++ r) (append-nil (drop 10 written)) ∙ take-append-drop 10 written;
  told = refl;
  works = refl;
}

run_source_session_standard_example :
    Conducted is_word caps 3
      (codes "10.0.0.2")
      (agreed_with caps 1028 (standard script) (given script))
      []
      ([]
        ++ (replies caps 1028 (codes "10.0.0.2") (standard script) (given script)
            ++ map acknowledgement (5 ∷ 6 ∷ 7 ∷ [])))
      (timed_out ∷ [])
      line_up
      free
run_source_session_standard_example =
    run_source_session_standard is_word caps 3 (codes "10.0.0.2") script (5 ∷ 6 ∷ []) 7 [] []
      (timed_out ∷ []) line_up free
      (record {
        airplay_open = refl;
        discovery = refl;
        reported = refl;
        screen_works = refl;
        bus_takes = refl;
      })
      refl is_word-IsWordClass is_word-KnowsDigits caps-IsPlainSetup (record { plain = refl })
      script-IsScript (omega arith) line_up-At
