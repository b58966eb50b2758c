-- ===== src/Session/Responses.antt =====
-- Messages without a body and the answer to SETUP, as wfdsink/session.py of castd frames them and
-- wfdsink/rtsp.py reads them.
use mathlib.Core.List.{append_assoc, append-nil}
use miracast_device.Base.{
  ℕ, ◌≡◌, refl, ap, ◌∙◌, Bool, true, false, ◌||◌, ◌==◌, List, [], ◌∷◌, ◌++◌, none, some, Text,
  all_append, codes, arith, decimal, join, is_space, search_for, lstrip, after_prefix, digit_value,
}
use miracast_device.Header.{
  find_cseq, cseq_here, find_server_port, server_port_here, find_session, session_here,
  find_content_length, content_length_here, is_digit, is_ascii_digit,
}
use miracast_device.Header.Numbers.{
  search_for-skip, search_for-here, number_read, number_here, decimal-ascii, is_digit-ascii,
  ascii-not-space,
}
use miracast_device.Rtsp.{crlf, blank_line}
use miracast_device.Rtsp.Capabilities.{no_cr-decimal}
use miracast_device.Session.Chunks.{IsMessage}
use miracast_device.Session.Headers.{message, is_line, message-IsMessage}
use miracast_device.Session.Requests.{
  IsPassed, is_ascii, is_ascii-decimal, numbered, after_number, past_number, content_length-none,
  digit_no_session,
}

-- A message without a body: its first line, its number, and one line more.
abbrev pub short_lines : Text → ℕ → Text → List Text
short_lines first k last = first ∷ (codes "CSeq: " ++ decimal k) ∷ last ∷ []

abbrev pub short : Text → ℕ → Text → Text
short first k last = message (short_lines first k last) []

module _ (first last : Text) (passed : IsPassed first) (k : ℕ) where
  pub short_header :
      join crlf (short_lines first k last) ++ blank_line
      ≡ first ++ (crlf ++ (codes "CSeq: " ++ (decimal k ++ (crlf ++ (last ++ blank_line)))))
  unfolding join
  short_header = simp append_assoc

  pub short-IsMessage :
      is_line last ≡ true
      → find_content_length (crlf ++ (last ++ blank_line)) ≡ none
      → IsMessage (short first k last)
  short-IsMessage h e =
      message-IsMessage first _ [] (rw (passed.whole, h) (simp (no_cr-decimal k))) (
        content_length-none _ (
          ap find_content_length short_header
          ∙ passed.unmeasured (codes "CSeq: " ++ (decimal k ++ (crlf ++ (last ++ blank_line))))
          ∙ after_number k (crlf ++ (last ++ blank_line))
          ∙ e))

  pub short-cseq : find_cseq (short first k last) ≡ some (decimal k)
  unfolding digit_value
  short-cseq =
      ap find_cseq (append-nil _ ∙ short_header)
      ∙ passed.unnumbered (codes "CSeq: " ++ (decimal k ++ (crlf ++ (last ++ blank_line))))
      ∙ numbered k 13 (10 ∷ (last ++ blank_line)) refl

  pub short-ascii : is_ascii last ≡ true → is_ascii (short first k last) ≡ true
  short-ascii h =
      ap is_ascii (append-nil _ ∙ short_header)
      ∙ rw (all_append) (simp (all_append, passed.ascii, is_ascii-decimal k, h))

-- The request lines and the status line.
abbrev pub options : Text
options = codes "OPTIONS * RTSP/1.0"

abbrev pub get_parameter : Text
get_parameter = codes "GET_PARAMETER rtsp://localhost/wfd1.0 RTSP/1.0"

abbrev pub set_parameter : Text
set_parameter = codes "SET_PARAMETER rtsp://localhost/wfd1.0 RTSP/1.0"

abbrev pub ok_line : Text
ok_line = codes "RTSP/1.0 200 OK"

pub options-IsPassed : IsPassed options
unfolding find_cseq search_for cseq_here find_content_length content_length_here after_prefix
options-IsPassed = record {
  whole = refl;
  ascii = refl;
  unnumbered = λ r. refl;
  unmeasured = λ r. refl;
}

pub get_parameter-IsPassed : IsPassed get_parameter
unfolding find_cseq search_for cseq_here find_content_length content_length_here after_prefix
get_parameter-IsPassed = record {
  whole = refl;
  ascii = refl;
  unnumbered = λ r. refl;
  unmeasured = λ r. refl;
}

pub set_parameter-IsPassed : IsPassed set_parameter
unfolding find_cseq search_for cseq_here find_content_length content_length_here after_prefix
set_parameter-IsPassed = record {
  whole = refl;
  ascii = refl;
  unnumbered = λ r. refl;
  unmeasured = λ r. refl;
}

pub ok_line-IsPassed : IsPassed ok_line
unfolding find_cseq search_for cseq_here find_content_length content_length_here after_prefix
ok_line-IsPassed = record {
  whole = refl;
  ascii = refl;
  unnumbered = λ r. refl;
  unmeasured = λ r. refl;
}

-- The answer to SETUP.
abbrev transport : ℕ → Text
transport port =
    codes "Transport: RTP/AVP/UDP;unicast;client_port=1028;server_port=" ++ decimal port

abbrev session_line : ℕ → Text
session_line id = codes "Session: " ++ (decimal id ++ codes ";timeout=30")

abbrev setup_lines : ℕ → ℕ → ℕ → List Text
setup_lines k port id =
    ok_line ∷ (codes "CSeq: " ++ decimal k) ∷ transport port ∷ session_line id ∷ []

abbrev pub setup_response : ℕ → ℕ → ℕ → Text
setup_response k port id = message (setup_lines k port id) []

-- `\w` matches the digits of ASCII, and no semicolon.
pub record KnowsDigits (is_word : ℕ → Bool) : Type 0 where
  pub digits : (c : ℕ) → is_ascii_digit c ≡ true → is_word c ≡ true
  pub no_semicolon : is_word b';' ≡ false

digit_no_port : (c : ℕ) (r : Text) → is_ascii_digit c ≡ true → server_port_here (c ∷ r) ≡ none
unfolding server_port_here after_prefix
digit_no_port c r h = ground (arith, h)

module _ (k port id : ℕ) where
  abbrev behind_port : Text
  behind_port = crlf ++ (codes "Session: " ++ (decimal id ++ (codes ";timeout=30" ++ blank_line)))

  abbrev behind_number : Text
  behind_number =
      codes "\r\nTransport: RTP/AVP/UDP;unicast;client_port=1028;server_port="
      ++ (decimal port ++ behind_port)

  setup_header :
      join crlf (setup_lines k port id) ++ blank_line
      ≡ ok_line ++ (crlf ++ (codes "CSeq: " ++ (decimal k ++ behind_number)))
  unfolding join
  setup_header = simp append_assoc

  setup_text :
      setup_response k port id
      ≡ ok_line ++ (crlf ++ (codes "CSeq: " ++ (decimal k ++ behind_number)))
  setup_text = append-nil _ ∙ setup_header

  pub port_found : find_server_port (setup_response k port id) ≡ some (decimal port)
  unfolding find_server_port server_port_here search_for after_prefix digit_value
  port_found =
      ap find_server_port setup_text
      ∙ search_for-skip server_port_here is_ascii_digit (decimal k) behind_number digit_no_port
          (decimal-ascii k)
      ∙ search_for-here server_port_here b's' (codes "erver_port=" ++ (decimal port ++ behind_port))
          (decimal port) (number_here is_digit port 13 _ is_digit-ascii refl)

  pub session_found :
      (is_word : ℕ → Bool)
      → KnowsDigits is_word
      → find_session is_word (setup_response k port id) ≡ some (decimal id)
  unfolding find_session session_here search_for after_prefix lstrip is_space
  session_found is_word knows =
      ap (find_session is_word) setup_text
      ∙ search_for-skip (session_here is_word) is_ascii_digit (decimal k) behind_number
          (digit_no_session is_word) (decimal-ascii k)
      ∙ search_for-skip (session_here is_word) is_ascii_digit (decimal port) behind_port
          (digit_no_session is_word) (decimal-ascii port)
      ∙ search_for-here (session_here is_word) b'S'
          (codes "ession: " ++ (decimal id ++ (codes ";timeout=30" ++ blank_line))) (decimal id)
          (number_read (λ c. is_word c || c == b'.') is_space id b';' _
            (λ d h. rw (knows.digits d h) refl) ascii-not-space (rw knows.no_semicolon refl))

  pub setup-IsMessage : IsMessage (setup_response k port id)
  unfolding find_content_length search_for content_length_here after_prefix
  setup-IsMessage =
      message-IsMessage ok_line _ []
        (simp (all_append, no_cr-decimal k, no_cr-decimal port, no_cr-decimal id))
        (content_length-none _ (
          ap find_content_length setup_header
          ∙ after_number k behind_number
          ∙ past_number port behind_port
          ∙ past_number id (codes ";timeout=30" ++ blank_line)))

  pub setup-ascii : is_ascii (setup_response k port id) ≡ true
  setup-ascii =
      ap is_ascii setup_text
      ∙ simp (all_append, is_ascii-decimal k, is_ascii-decimal port, is_ascii-decimal id)
