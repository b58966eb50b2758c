-- ===== src/Rtsp/Capabilities.antt =====
-- What a source reads in the M3 response of castd/wfdsink/rtsp.py.
use miracast_device.Base.{
  ℕ, ◌+◌, ◌/◌, ◌%◌, ◌≤◌, ◌<◌, ◌≡◌, refl, Bool, true, false, not, List, [], ◌∷◌, ◌++◌, Option, none,
  some, Text, all, all_append, all-append, codes, length, arith, contains, decimal, if◌then◌else◌,
  ◌==◌, split, after_prefix, same_char,
}
use miracast_device.Base.Decimal.{all-decimal}
use miracast_device.Rtsp.{
  WfdCapabilities, Negotiator, Codec, lpcm, aac, base_lines, asked_lines, build_capability_body,
  edid_line, crlf, hex, hex_digit,
}
use miracast_device.Rtsp.Lines.{no_cr, split-join, or_else, value_of, value_of-append, value_of-if}

-- The texts of the configuration have no "\r".
pub record IsOneLine (c : WfdCapabilities) : Type 0 where
  pub device_name : no_cr c.device_name ≡ true
  pub sink_model : no_cr c.sink_model ≡ true
  pub sink_version : no_cr c.sink_version ≡ true

digit-no_cr : (d : ℕ) → d ≤ 9 → not ((48 + d) == 13) ≡ true
digit-no_cr d h = ground (arith, h)

pub no_cr-decimal : (n : ℕ) → no_cr (decimal n) ≡ true
no_cr-decimal n = all-decimal (λ c. not (c == 13)) digit-no_cr n

hex_digit-no_cr : (letter d : ℕ) → 13 < letter → not (hex_digit letter d == 13) ≡ true
hex_digit-no_cr letter d h = ground (arith, h)

no_cr-hex : (bs : List ℕ) → no_cr (hex bs) ≡ true
unfolding hex
no_cr-hex [] = refl
no_cr-hex (b ∷ bs) = ground (arith, no_cr-hex bs)

no_cr-if :
    (b : Bool) (s t : Text) → no_cr s ≡ true → no_cr t ≡ true → no_cr (if b then s else t) ≡ true
no_cr-if b s t h k = ground (arith, h, k)

no_cr-codec :
    (codec : Codec)
    → no_cr (elim codec [ lpcm ↦ codes "LPCM 00000002 00" | aac ↦ codes "AAC 00000001 00" ]) ≡ true
no_cr-codec lpcm = refl
no_cr-codec aac = refl

no_cr-base_lines : (c : WfdCapabilities) (port : ℕ) → all no_cr (base_lines c port) ≡ true
unfolding base_lines
no_cr-base_lines c port = simp (
  all_append,
  no_cr-decimal port,
  no_cr-codec c.audio_codec,
  no_cr-if c.allow_1080p60 (codes "40") (codes "38") refl refl,
  no_cr-if c.allow_1080p60 (codes "0001FFFF") (codes "00019CFF") refl refl,
  no_cr-if (not c.enable_uibc) (codes "none") (codes "7336") refl refl,
)

no_cr-edid_line : (edid : Option (List ℕ)) → all no_cr (edid_line edid) ≡ true
no_cr-edid_line none = refl
no_cr-edid_line (some []) = refl
no_cr-edid_line (some (b ∷ bs)) =
    let n = length (b ∷ bs) / 256 + 1 in
    ground (
      arith,
      no_cr-hex (b ∷ bs),
      hex_digit-no_cr b'A' (n / 4096 % 16) (omega arith),
      hex_digit-no_cr b'A' (n / 256 % 16) (omega arith),
      hex_digit-no_cr b'A' (n / 16 % 16) (omega arith),
      hex_digit-no_cr b'A' (n % 16) (omega arith),
    )

no_cr-asked :
    (b : Bool) (ts : List Text) → all no_cr ts ≡ true → all no_cr (if b then ts else []) ≡ true
no_cr-asked true ts h = h
no_cr-asked false ts h = refl

no_cr-named :
    (b : Bool) (s t : Text)
    → no_cr s ≡ true
    → no_cr t ≡ true
    → all no_cr (if b then (s ++ t) ∷ [] else []) ≡ true
no_cr-named b s t h k = no_cr-asked b ((s ++ t) ∷ []) (rw (all_append, h, k) refl)

no_cr-asked_lines :
    (c : WfdCapabilities) (request : Text) → IsOneLine c → all no_cr (asked_lines c request) ≡ true
unfolding asked_lines
no_cr-asked_lines c request h =
    let asked = λ (name : Text). contains name request in
    simp (
      all_append,
      no_cr-asked (asked (codes "wfd_display_edid")) (edid_line c.edid) (no_cr-edid_line c.edid),
      no_cr-named (asked (codes "intel_friendly_name")) (codes "intel_friendly_name: ")
          c.device_name refl h.device_name,
      no_cr-named (asked (codes "intel_sink_manufacturer_name"))
          (codes "intel_sink_manufacturer_name: ") c.device_name refl h.device_name,
      no_cr-named (asked (codes "intel_sink_model_name")) (codes "intel_sink_model_name: ")
          c.sink_model refl h.sink_model,
      no_cr-named (asked (codes "intel_sink_version")) (codes "intel_sink_version: ") c.sink_version
          refl h.sink_version,
      no_cr-asked (asked (codes "intel_sink_device_URL")) (codes "intel_sink_device_URL: none" ∷ [])
          refl,
      no_cr-asked (asked (codes "wfd_idr_request_capability"))
          (codes "wfd_idr_request_capability: 1" ∷ []) refl,
    )

body-lines :
    (n : Negotiator) (request : Text)
    → IsOneLine n.capabilities
    → split crlf (build_capability_body n request)
      ≡ (base_lines n.capabilities n.session.sink_rtp_port ++ asked_lines n.capabilities request)
        ++ [] ∷ []
unfolding build_capability_body base_lines
body-lines n request h =
    split-join
      (base_lines n.capabilities n.session.sink_rtp_port ++ asked_lines n.capabilities request) refl
      (all-append no_cr (base_lines n.capabilities n.session.sink_rtp_port)
        (asked_lines n.capabilities request)
        (no_cr-base_lines n.capabilities n.session.sink_rtp_port)
        (no_cr-asked_lines n.capabilities request h))

-- The value, if the request names the parameter.
abbrev pub if_asked : Text → Text → Text → Option Text
if_asked name request value = if contains name request then some value else none

abbrev pub codec_value : Codec → Text
codec_value lpcm = codes "LPCM 00000002 00"
codec_value aac = codes "AAC 00000001 00"

-- What a source finds in the lines of a body.
pub record Declares (n : Negotiator) (request : Text) (lines : List Text) : Type 0 where
  pub rtp_ports :
      value_of (codes "wfd_client_rtp_ports") lines
      ≡ some (
          codes "RTP/AVP/UDP;unicast " ++ (decimal n.session.sink_rtp_port ++ codes " 0 mode=play"))
  pub audio :
      value_of (codes "wfd_audio_codecs") lines ≡ some (codec_value n.capabilities.audio_codec)
  pub content_protection : value_of (codes "wfd_content_protection") lines ≡ some (codes "none")
  pub friendly_name :
      value_of (codes "intel_friendly_name") lines
      ≡ if_asked (codes "intel_friendly_name") request n.capabilities.device_name
  pub manufacturer :
      value_of (codes "intel_sink_manufacturer_name") lines
      ≡ if_asked (codes "intel_sink_manufacturer_name") request n.capabilities.device_name
  pub model :
      value_of (codes "intel_sink_model_name") lines
      ≡ if_asked (codes "intel_sink_model_name") request n.capabilities.sink_model
  pub version :
      value_of (codes "intel_sink_version") lines
      ≡ if_asked (codes "intel_sink_version") request n.capabilities.sink_version
  pub idr_request :
      value_of (codes "wfd_idr_request_capability") lines
      ≡ if_asked (codes "wfd_idr_request_capability") request (codes "1")

same_none : (b : Bool) → if◌then◌else◌ {A = Option Text} b none none ≡ none
same_none true = refl
same_none false = refl

or_none : (x : Option Text) → or_else x none ≡ x
or_none none = refl
or_none (some v) = refl

ruleset reading = (value_of-append, value_of-if, same_none, or_none)

-- The line of the EDID has none of the other parameters.
edid-other :
    (name : Text) (edid : Option (List ℕ))
    → ((x : Text)
        → after_prefix same_char (name ++ codes ": ") (codes "wfd_display_edid: " ++ x) ≡ none)
    → value_of name (edid_line edid) ≡ none
unfolding value_of
edid-other name none h = refl
edid-other name (some []) h = refl
edid-other name (some (b ∷ bs)) h = rw h refl

codec_read :
    (codec : Codec)
    → some (elim codec [ lpcm ↦ codes "LPCM 00000002 00" | aac ↦ codes "AAC 00000001 00" ])
      ≡ some (codec_value codec)
codec_read lpcm = refl
codec_read aac = refl

-- A source that reads the body of the response to M3 line by line, in which the texts of the
-- configuration have no "\r", finds the RTP port of the session, the audio codec, and exactly those of
-- the name, the manufacturer, the model, the version and the IDR capability that its request has
-- asked for, each with the text of the configuration.
pub build_capability_body-Declares :
    (n : Negotiator) (request : Text)
    → IsOneLine n.capabilities
    → Declares n request (split crlf (build_capability_body n request))
unfolding base_lines asked_lines value_of after_prefix
build_capability_body-Declares n request h = rw (body-lines n request h) (record {
  rtp_ports = refl;
  audio = codec_read n.capabilities.audio_codec;
  content_protection = refl;
  friendly_name =
      simp (reading, edid-other (codes "intel_friendly_name") n.capabilities.edid (λ x. refl));
  manufacturer =
      simp (
        reading,
        edid-other (codes "intel_sink_manufacturer_name") n.capabilities.edid (λ x. refl),
      );
  model =
      simp (reading, edid-other (codes "intel_sink_model_name") n.capabilities.edid (λ x. refl));
  version = simp (reading, edid-other (codes "intel_sink_version") n.capabilities.edid (λ x. refl));
  idr_request =
      simp
        (reading, edid-other (codes "wfd_idr_request_capability") n.capabilities.edid (λ x. refl));
})
