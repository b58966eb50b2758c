-- ===== src/Rtsp/Texts.antt =====
-- The texts that castd/wfdsink/rtsp.py builds are plain, so that none of them makes `encode` raise.
use miracast_device.Base.{
  ℕ, ◌+◌, ◌≡◌, refl, Bool, true, false, not, List, [], ◌∷◌, ◌++◌, Option, none, Text, all,
  all-append, all_append, codes, join, length, arith, contains, decimal, if◌then◌else◌,
}
use miracast_device.Rtsp.{
  WfdCapabilities, Negotiator, Codec, lpcm, aac, base_lines, asked_lines, build_capability_body,
  edid_line, ok_response, crlf, blank_line, build_m2_options_request, build_m6_setup_request,
}
use miracast_device.Rtsp.Encodable.{is_plain, is_scalar, IsPlain, plain_decimal}

-- The texts of the configuration are plain, and there is no EDID, as in the program.
pub record IsPlainSetup (c : WfdCapabilities) : Type 0 where
  pub device_name : IsPlain c.device_name
  pub sink_model : IsPlain c.sink_model
  pub sink_version : IsPlain c.sink_version
  pub no_edid : c.edid ≡ none

plain_join : (ts : List Text) → all is_plain ts ≡ true → is_plain (join crlf ts) ≡ true
unfolding join
plain_join [] h = refl
plain_join (t ∷ []) h = ground (arith, h)
plain_join (t ∷ u ∷ ts) h =
    all-append is_scalar t (crlf ++ join crlf (u ∷ ts)) (ground (arith, h))
      (plain_join (u ∷ ts) (ground (arith, h)))

plain_if :
    (b : Bool) (s t : Text)
    → is_plain s ≡ true
    → is_plain t ≡ true
    → is_plain (if b then s else t) ≡ true
plain_if b s t h k = ground (arith, h, k)

plain_codec :
    (codec : Codec)
    → is_plain (elim codec [ lpcm ↦ codes "LPCM 00000002 00" | aac ↦ codes "AAC 00000001 00" ])
      ≡ true
plain_codec lpcm = refl
plain_codec aac = refl

plain_base_lines : (c : WfdCapabilities) (port : ℕ) → all is_plain (base_lines c port) ≡ true
unfolding base_lines
plain_base_lines c port = simp (
  all_append,
  plain_decimal port,
  plain_codec c.audio_codec,
  plain_if c.allow_1080p60 (codes "40") (codes "38") refl refl,
  plain_if c.allow_1080p60 (codes "0001FFFF") (codes "00019CFF") refl refl,
  plain_if (not c.enable_uibc) (codes "none") (codes "7336") refl refl,
)

-- The lines for one question.
plain_asked :
    (b : Bool) (ts : List Text)
    → all is_plain ts ≡ true
    → all is_plain (if b then ts else []) ≡ true
plain_asked true ts h = h
plain_asked false ts h = refl

plain_named :
    (b : Bool) (s t : Text)
    → is_plain s ≡ true
    → is_plain t ≡ true
    → all is_plain (if b then (s ++ t) ∷ [] else []) ≡ true
plain_named b s t h k = plain_asked b ((s ++ t) ∷ []) (rw (all_append, h, k) refl)

plain_no_edid :
    (b : Bool) (edid : Option (List ℕ))
    → edid ≡ none
    → all is_plain (if b then edid_line edid else []) ≡ true
plain_no_edid b edid e = plain_asked b (edid_line edid) (rw e refl)

plain_asked_lines :
    (c : WfdCapabilities) (request : Text)
    → IsPlainSetup c
    → all is_plain (asked_lines c request) ≡ true
unfolding asked_lines
plain_asked_lines c request h =
    let asked = λ (name : Text). contains name request in
    rw
      (
        all_append is_plain,
        all_append is_plain,
        all_append is_plain,
        all_append is_plain,
        all_append is_plain,
        all_append is_plain,
        plain_no_edid (asked (codes "wfd_display_edid")) c.edid h.no_edid,
        plain_named (asked (codes "intel_friendly_name")) (codes "intel_friendly_name: ")
            c.device_name refl h.device_name.plain,
        plain_named (asked (codes "intel_sink_manufacturer_name"))
            (codes "intel_sink_manufacturer_name: ") c.device_name refl h.device_name.plain,
        plain_named (asked (codes "intel_sink_model_name")) (codes "intel_sink_model_name: ")
            c.sink_model refl h.sink_model.plain,
        plain_named (asked (codes "intel_sink_version")) (codes "intel_sink_version: ")
            c.sink_version refl h.sink_version.plain,
        plain_asked (asked (codes "intel_sink_device_URL"))
            (codes "intel_sink_device_URL: none" ∷ []) refl,
        plain_asked (asked (codes "wfd_idr_request_capability"))
            (codes "wfd_idr_request_capability: 1" ∷ []) refl,
      )
      refl

pub body_plain :
    (n : Negotiator) (request : Text)
    → IsPlainSetup n.capabilities
    → is_plain (build_capability_body n request) ≡ true
unfolding build_capability_body
body_plain n request h =
    let lines =
      base_lines n.capabilities n.session.sink_rtp_port ++ asked_lines n.capabilities request in
    all-append is_scalar (join crlf lines) crlf
      (plain_join lines (
        rw
          (
            all_append is_plain,
            plain_base_lines n.capabilities n.session.sink_rtp_port,
            plain_asked_lines n.capabilities request h,
          )
          refl))
      refl

pub ok_response-IsPlain :
    (cseq rest : Text) → IsPlain cseq → is_plain rest ≡ true → IsPlain (ok_response cseq rest)
ok_response-IsPlain cseq rest h k = record { plain = simp (all_append, h.plain, k) }

-- What answers M3.
abbrev pub described : Negotiator → Text → Text → Text
described n cseq request =
    let body = build_capability_body n request in
    ok_response cseq (
      codes "Content-Type: text/parameters\r\nContent-Length: "
      ++ (decimal (length body) ++ (blank_line ++ body)))

pub described-IsPlain :
    (n : Negotiator) (cseq request : Text)
    → IsPlainSetup n.capabilities
    → IsPlain cseq
    → IsPlain (described n cseq request)
described-IsPlain n cseq request h k = ok_response-IsPlain cseq _ k (
    simp (
      all_append,
      plain_decimal (length (build_capability_body n request)),
      body_plain n request h,
    ))

pub options-IsPlain : (n : Negotiator) → IsPlain (build_m2_options_request n).0
unfolding build_m2_options_request
options-IsPlain n = record { plain = simp (all_append, plain_decimal (n.own_cseq + 1)) }

pub setup-IsPlain :
    (n : Negotiator) (ip : Text) → IsPlain ip → IsPlain (build_m6_setup_request n ip).0
unfolding build_m6_setup_request
setup-IsPlain n ip h = record {
  plain =
      simp (
        all_append,
        h.plain,
        plain_decimal (n.own_cseq + 1),
        plain_decimal n.session.sink_rtp_port,
      );
}

-- The request that M7 sends.
abbrev pub play : Text → ℕ → Text → Text
play ip cseq session_id =
    codes "PLAY rtsp://"
    ++ (ip
        ++ (codes "/wfd1.0/streamid=0 RTSP/1.0\r\nCSeq: "
            ++ (decimal cseq ++ (codes "\r\nSession: " ++ (session_id ++ blank_line)))))

pub play-IsPlain :
    (ip : Text) (cseq : ℕ) (session_id : Text)
    → IsPlain ip
    → IsPlain session_id
    → IsPlain (play ip cseq session_id)
play-IsPlain ip cseq session_id h k = record {
  plain = simp (all_append, h.plain, k.plain, plain_decimal cseq);
}
