-- ===== src/Header.antt =====
-- The header patterns of castd/wfdsink/rtsp.py and castd/wfdsink/session.py, and `int`.
pub mod Numbers
use miracast_device.Base.{
  ℕ, Bool, true, false, ◌&&◌, ◌||◌, [], ◌∷◌, Option, none, some, Text, length, codes, leb, ◌==◌,
  if◌then◌else◌, is_space, digit_value, span_digits, number, drop_while, take_while, lstrip,
  after_prefix, same_char, same_folded, same_folded_ascii, search_for,
}

-- `int(digits)` for a run that `\d+` matched; none is the `ValueError` for more than 4300 digits.
unfoldable pub int_of_digits : Text → Option ℕ
unfolding span_digits number
int_of_digits t = if leb (length t) 4300 then some (number (span_digits t).0) else none

abbrev pub is_digit : ℕ → Bool
is_digit c = elim (digit_value c) [ none ↦ false | some d ↦ true ]

abbrev pub non_empty : Text → Option Text
non_empty [] = none
non_empty (c ∷ cs) = some (c ∷ cs)

abbrev pub after_spaces : (Text → Option Text) → Option Text → Option Text
after_spaces f none = none
after_spaces f (some rest) = f rest

-- `(\d+)` and `\s*(\d+)` at one place.
abbrev pub digits_here : Text → Option Text
digits_here t = non_empty (take_while is_digit t)

-- `CSeq:\s*(\d+)`, ignoring case.
unfoldable pub cseq_here : Text → Option Text
unfolding after_prefix lstrip take_while digit_value
cseq_here t =
    after_spaces (λ rest. digits_here (lstrip rest)) (after_prefix same_folded (codes "CSeq:") t)

unfoldable pub find_cseq : Text → Option Text
find_cseq t = search_for cseq_here t

-- `server_port=(\d+)`; what the pattern goes on with is optional and is not read.
unfoldable pub server_port_here : Text → Option Text
unfolding after_prefix take_while digit_value
server_port_here t = after_spaces digits_here (after_prefix same_char (codes "server_port=") t)

unfoldable pub find_server_port : Text → Option Text
find_server_port t = search_for server_port_here t

-- `Session:\s*([\w.]+)`. Which characters `\w` matches is Unicode's table, a parameter.
unfoldable pub session_here : (ℕ → Bool) → Text → Option Text
unfolding after_prefix lstrip take_while
session_here is_word t =
    after_spaces (λ rest. non_empty (take_while (λ c. is_word c || c == b'.') (lstrip rest)))
      (after_prefix same_char (codes "Session:") t)

unfoldable pub find_session : (ℕ → Bool) → Text → Option Text
find_session is_word t = search_for (session_here is_word) t

abbrev ends_port : ℕ → Bool
ends_port c = c == b';' || c == b'\r' || c == b'\n'

-- `(\S+?)(?:;|\r|\n|$)` from its second character on: the shortest run that something ends.
unfoldable pub port_rest : Text → Option Text
port_rest [] = some []
port_rest (c ∷ cs) = elim (ends_port c) [
  | true ↦ some []
  | false ↦ elim (is_space c) [
    | true ↦ none
    | false ↦ elim (port_rest cs) [ none ↦ none | some t ↦ some (c ∷ t) ]
  ]
]

abbrev port_first : Text → Option Text
port_first [] = none
port_first (c ∷ cs) =
    if is_space c then none else elim (port_rest cs) [ none ↦ none | some t ↦ some (c ∷ t) ]

-- `port=(\S+?)(?:;|\r|\n|$)`.
unfoldable pub uibc_port_here : Text → Option Text
unfolding after_prefix port_rest is_space
uibc_port_here t = after_spaces port_first (after_prefix same_char (codes "port=") t)

unfoldable pub find_uibc_port : Text → Option Text
find_uibc_port t = search_for uibc_port_here t

-- `\s` and `\d` on `bytes`.
abbrev pub is_ascii_space : ℕ → Bool
is_ascii_space c = (leb 9 c && leb c 13) || c == 32

abbrev pub is_ascii_digit : ℕ → Bool
is_ascii_digit c = leb 48 c && leb c 57

-- `Content-Length:\s*(\d+)` on `bytes`, ignoring case.
unfoldable pub content_length_here : Text → Option Text
unfolding after_prefix take_while drop_while
content_length_here t =
    after_spaces (λ rest. non_empty (take_while is_ascii_digit (drop_while is_ascii_space rest)))
      (after_prefix same_folded_ascii (codes "Content-Length:") t)

unfoldable pub find_content_length : Text → Option Text
find_content_length t = search_for content_length_here t
