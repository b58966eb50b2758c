-- ===== src/Session/Upkeep.antt =====
-- The keep-alives of a source that writes its messages the way the standard does, and its TEARDOWN,
-- against wfdsink/session.py and wfdsink/rtsp.py of castd.
use mathlib.Core.List.{append_assoc, append-nil, reverse, reverse-cons}
use miracast_device.Base.{
  ℕ, ◌≤◌, ◌≡◌, refl, sym, ap, ◌∙◌, true, false, not, ◌==◌, List, [], ◌∷◌, ◌++◌, some, Text, all,
  length, length-append, codes, arith, decimal, join, contains, starts_with, split, split_from,
  find?, digit_value, search_for, after_prefix, inl, inr,
}
use miracast_device.Base.Utf8
use miracast_device.Base.Decimal.{all-decimal}
use miracast_device.Rtsp.Capabilities.{no_cr-decimal}
use miracast_device.Base.Utf8.{decode-ascii}
use miracast_device.Header.{find_cseq, find_content_length, content_length_here}
use miracast_device.Rtsp.{crlf, blank_line, ok_response, is_teardown}
use miracast_device.Session.Framing.{starts_with-append, find?-cons}
use miracast_device.Session.KeepAlive.{
  Rounds, AreRequests, IsAnswered, Acks, done, other, get_request, set_request, names_get,
  names_set,
}
use miracast_device.Session.Requests.{
  is_ascii, numbered, request, request_lines, request-IsMessage, request-ascii, request-is_line,
  request_header,
}
use miracast_device.Session.Responses.{
  get_parameter, set_parameter, get_parameter-IsPassed, set_parameter-IsPassed, short, short_lines,
  short-IsMessage, short-ascii, short_header,
}
use miracast_device.Session.Headers.{message, is_line, header_end}

-- Splitting at a place that is the first.
split_from-first :
    (h rest part : Text)
    → find? blank_line (h ++ blank_line) ≡ some (length h)
    → split_from blank_line 0 part (h ++ (blank_line ++ rest))
      ≡ (reverse part ++ h) ∷ split_from blank_line 0 [] rest
unfolding split_from
split_from-first [] rest part e = unfold starts_with in rw (append-nil (reverse part)) refl
split_from-first (c ∷ h) rest part e =
    elim (find?-cons blank_line c (h ++ blank_line) (length (c ∷ h)) e) [
      | inl (s, z) ↦ absurd (omega (arith, z))
      | inr (s, (j, f, z)) ↦
          let same : j ≡ length h = omega (arith, z) in
          let fits : length blank_line ≤ length (c ∷ (h ++ blank_line)) =
            omega (arith, length-append h blank_line) in
          let apart : starts_with blank_line (c ∷ (h ++ (blank_line ++ rest))) ≡ false =
            ap (λ t. starts_with blank_line (c ∷ t)) (sym (append_assoc h blank_line rest))
            ∙ starts_with-append blank_line (c ∷ (h ++ blank_line)) rest fits
            ∙ s in
          rw (apart, split_from)
            (split_from-first h rest (c ∷ part) (f ∙ ap some same)
              ∙ rw (reverse-cons c part, append_assoc (reverse part) (c ∷ []) h) refl)
    ]

pub split-message :
    (l : Text) (ls : List Text) (body : Text)
    → all is_line (l ∷ ls) ≡ true
    → split blank_line (message (l ∷ ls) body) ≡ join crlf (l ∷ ls) ∷ split blank_line body
unfolding split
split-message l ls body h =
    ap (split_from blank_line 0 []) (append_assoc (join crlf (l ∷ ls)) blank_line body)
    ∙ split_from-first (join crlf (l ∷ ls)) body [] (header_end l ls h)

-- What stands behind the header names neither request.
nothing_more : Acks (split blank_line []) []
unfolding split contains
nothing_more = other refl refl done

no_request : Acks (split blank_line (codes "wfd_trigger_method: TEARDOWN\r\n")) []
unfolding split contains
no_request = other refl refl done

contains-skip :
    (p : ℕ) (ps t rest : Text)
    → all (λ c. not (p == c)) t ≡ true
    → contains (p ∷ ps) (t ++ rest) ≡ contains (p ∷ ps) rest
unfolding contains starts_with
contains-skip p ps [] rest h = refl
contains-skip p ps (c ∷ t) rest h = ground (arith, h, contains-skip p ps t rest (ground (arith, h)))

abbrev agent : Text
agent = codes "User-Agent: source"

abbrev pub keep_alive : ℕ → Text
keep_alive k = short get_parameter k agent

abbrev pub farewell : Text
farewell = codes "wfd_trigger_method: TEARDOWN\r\n"

abbrev pub teardown : ℕ → Text
teardown k = request set_parameter k farewell

-- What stands behind the number of a TEARDOWN in its header.
abbrev measure : Text
measure = codes "\r\nContent-Type: text/parameters\r\nContent-Length: " ++ decimal (length farewell)

not_w : (k : ℕ) → all (λ c. not (b'w' == c)) (decimal k) ≡ true
not_w k = all-decimal (λ c. not (b'w' == c)) (λ d h. ground (arith, h)) k

module _ (k : ℕ) where
  keep_alive-is_line : all is_line (short_lines get_parameter k agent) ≡ true
  keep_alive-is_line = simp (no_cr-decimal k)

  keep_alive-cseq : find_cseq (join crlf (short_lines get_parameter k agent)) ≡ some (decimal k)
  unfolding join digit_value
  keep_alive-cseq =
      ap find_cseq (simp append_assoc)
      ∙ get_parameter-IsPassed.unnumbered (codes "CSeq: " ++ (decimal k ++ (crlf ++ agent)))
      ∙ numbered k 13 (10 ∷ agent) refl

  keep_alive-names_get : names_get (join crlf (short_lines get_parameter k agent)) ≡ true
  unfolding contains starts_with join
  keep_alive-names_get = refl

  keep_alive-ascii : is_ascii (keep_alive k) ≡ true
  keep_alive-ascii = short-ascii get_parameter agent get_parameter-IsPassed k refl

  keep_alive-IsAnswered : IsAnswered (keep_alive k) (ok_response (decimal k) crlf ∷ [])
  unfolding find_content_length search_for content_length_here after_prefix
  keep_alive-IsAnswered = record {
    framed = short-IsMessage get_parameter agent get_parameter-IsPassed k refl refl;
    numbered =
        rw (decode-ascii _ keep_alive-ascii, split-message get_parameter _ [] keep_alive-is_line)
          (get_request keep_alive-names_get keep_alive-cseq nothing_more);
  }

  keep_alive-goes_on : is_teardown (Utf8.decode (keep_alive k)) ≡ false
  unfolding is_teardown contains starts_with join
  keep_alive-goes_on =
      ap is_teardown (
        decode-ascii _ keep_alive-ascii
        ∙ append-nil _
        ∙ short_header get_parameter agent get_parameter-IsPassed k)
      ∙ contains-skip b'w' (codes "fd_trigger_method: TEARDOWN") (decimal k)
          (crlf ++ (agent ++ blank_line)) (not_w k)

  teardown-cseq : find_cseq (join crlf (request_lines set_parameter k farewell)) ≡ some (decimal k)
  unfolding join digit_value
  teardown-cseq =
      ap find_cseq (simp append_assoc)
      ∙ set_parameter-IsPassed.unnumbered (codes "CSeq: " ++ (decimal k ++ measure))
      ∙ numbered k 13 _ refl

  teardown-names_set : names_set (join crlf (request_lines set_parameter k farewell)) ≡ true
  unfolding contains starts_with join
  teardown-names_set = refl

  teardown-ascii : is_ascii (teardown k) ≡ true
  teardown-ascii = request-ascii set_parameter set_parameter-IsPassed k farewell refl

  pub teardown-IsAnswered : IsAnswered (teardown k) (ok_response (decimal k) crlf ∷ [])
  teardown-IsAnswered = record {
    framed = request-IsMessage set_parameter set_parameter-IsPassed k farewell (omega arith);
    numbered =
        rw
          (
            decode-ascii _ teardown-ascii,
            split-message set_parameter _ farewell
                (request-is_line set_parameter set_parameter-IsPassed k farewell),
          )
          (set_request teardown-names_set teardown-cseq no_request);
  }

  teardown_text :
      teardown k
      ≡ set_parameter
        ++ (crlf ++ (codes "CSeq: " ++ (decimal k ++ (measure ++ (blank_line ++ farewell)))))
  teardown_text =
      ap (λ h. h ++ farewell) (request_header set_parameter set_parameter-IsPassed k farewell)
      ∙ simp append_assoc

  pub is_teardown-teardown : is_teardown (Utf8.decode (teardown k)) ≡ true
  unfolding is_teardown contains starts_with
  is_teardown-teardown =
      ap is_teardown (decode-ascii _ teardown-ascii ∙ teardown_text)
      ∙ contains-skip b'w' (codes "fd_trigger_method: TEARDOWN") (decimal k)
          (measure ++ (blank_line ++ farewell)) (not_w k)
      ∙ contains-skip b'w' (codes "fd_trigger_method: TEARDOWN") (decimal (length farewell))
          (blank_line ++ farewell) (not_w (length farewell))

-- The keep-alives with their answers.
abbrev pub keep_alives : List ℕ → Rounds
keep_alives [] = []
keep_alives (k ∷ ks) = (keep_alive k, ok_response (decimal k) crlf ∷ []) ∷ keep_alives ks

pub keep_alives-AreRequests : (ks : List ℕ) → AreRequests (keep_alives ks)
keep_alives-AreRequests [] = tt
keep_alives-AreRequests (k ∷ ks) =
    ((keep_alive-IsAnswered k, keep_alive-goes_on k), keep_alives-AreRequests ks)
