-- ===== src/Rtsp/BodyLength.antt =====
-- The Content-Length of the M3 response of castd/wfdsink/rtsp.py and the bytes of its body.
use miracast_device.Base.{
  ℕ, ◌<◌, ◌≡◌, ◌⊎◌, inl, inr, refl, Bool, true, false, [], ◌∷◌, ◌++◌, some, Text, all, ok, length,
  length-append, ltb, arith, Result-cases, Option-cases,
}
use miracast_device.Base.Utf8
use miracast_device.Base.Utf8.{encode_char}
use miracast_device.Rtsp.{Negotiator, handle_m3_get_parameter, build_capability_body, extract_cseq}
use miracast_device.Rtsp.Encodable.{encode-IsPlain}
use miracast_device.Rtsp.Texts.{IsPlainSetup, described, body_plain}

abbrev pub is_ascii : Text → Bool
is_ascii t = all (λ c. ltb c 128) t

-- As many bytes as characters, or more of them.
abbrev pub Measured : Text → Text → Type 0
Measured t bs =
    ((is_ascii t ≡ true) × (length bs ≡ length t)) ⊎ ((is_ascii t ≡ false) × (length t < length bs))

encode_char-Measured :
    (c : ℕ)
    → ((ltb c 128 ≡ true) × (length (encode_char c) ≡ 1))
      ⊎ ((ltb c 128 ≡ false) × (1 < length (encode_char c)))
unfolding encode_char
encode_char-Measured c = ground arith

Measured-cons : (c : ℕ) (cs ds : Text) → Measured cs ds → Measured (c ∷ cs) (encode_char c ++ ds)
Measured-cons c cs ds h =
    ground (arith, h, encode_char-Measured c, length-append (encode_char c) ds)

encode-Measured : (t bs : Text) → Utf8.encode t ≡ some bs → Measured t bs
unfolding Utf8.encode
encode-Measured [] bs h = inl (refl, ground (arith, h))
encode-Measured (c ∷ cs) bs h = elim (Option-cases (Utf8.encode cs)) [
  | inl e ↦ ground (arith, h, e)
  | inr (ds, e) ↦
      let same : encode_char c ++ ds ≡ bs = ground (arith, h, e) in
      rw (← same) (Measured-cons c cs ds (encode-Measured cs ds e))
]

m3_described :
    (n n' : Negotiator) (request r : Text)
    → handle_m3_get_parameter n request ≡ ok (r, n')
    → (cseq : Text) × (r ≡ described n cseq request)
unfolding handle_m3_get_parameter
m3_described n n' request r h = elim (Result-cases (extract_cseq request)) [
  | inl (cseq, e) ↦ (cseq, ground (arith, h, e))
  | inr (x, e) ↦ ground (arith, h, e)
]

-- The response to M3 announces as many bytes as its body has characters. The body that is sent has
-- that many bytes exactly if all its characters are ASCII, and more of them otherwise, when the
-- texts of the configuration can be encoded.
pub handle_m3_get_parameter_length :
    (n n' : Negotiator) (request r : Text)
    → IsPlainSetup n.capabilities
    → handle_m3_get_parameter n request ≡ ok (r, n')
    → let body = build_capability_body n request in
      ((cseq : Text) × (r ≡ described n cseq request))
      × ((bs : Text) × (Utf8.encode body ≡ some bs) × Measured body bs)
handle_m3_get_parameter_length n n' request r p h =
    let body = build_capability_body n request in
    let e = encode-IsPlain body (record { plain = body_plain n request p }) in
    (m3_described n n' request r h, (e.0, e.1, encode-Measured body e.0 e.1))
