-- ===== src/Session/Requests.antt =====
-- Requests with a body, as wfdsink/session.py of castd frames them and wfdsink/rtsp.py finds their
-- number.
use mathlib.Core.List.{append_assoc}
use miracast_device.Base.{
  ℕ, ◌<◌, ◌≡◌, refl, ap, ◌∙◌, Bool, true, false, List, [], ◌∷◌, ◌++◌, none, some, Text, ok, all,
  all_append, length, codes, ltb, arith, decimal, join, is_space, search_for, lstrip, after_prefix,
  digit_value,
}
use miracast_device.Base.Decimal.{all-decimal}
use miracast_device.Header.{
  find_cseq, cseq_here, session_here, find_content_length, content_length_here, int_of_digits,
  is_digit, is_ascii_digit, is_ascii_space,
}
use miracast_device.Header.Numbers.{
  search_for-skip, search_for-here, number_read, int_of_digits-decimal, decimal-ascii,
  is_digit-ascii, ascii-not-space,
}
use miracast_device.Rtsp.{crlf, blank_line}
use miracast_device.Rtsp.Capabilities.{no_cr-decimal}
use miracast_device.Session.{content_length}
use miracast_device.Session.Chunks.{IsMessage}
use miracast_device.Session.Headers.{message, is_line, message-IsMessage}

-- A request with a body: its line, its number, and the length of the body.
abbrev pub request_lines : Text → ℕ → Text → List Text
request_lines line k body =
    line
    ∷ (codes "CSeq: " ++ decimal k)
    ∷ codes "Content-Type: text/parameters"
    ∷ (codes "Content-Length: " ++ decimal (length body))
    ∷ []

-- The search passes over the request line.
abbrev Unremarkable : Text → Type 0
Unremarkable line =
    (r : Text)
    → (find_cseq (line ++ (crlf ++ r)) ≡ find_cseq r)
      × (find_content_length (line ++ (crlf ++ r)) ≡ find_content_length r)

pub numbered :
    (k c : ℕ) (r : Text)
    → is_digit c ≡ false
    → find_cseq (codes "CSeq: " ++ (decimal k ++ c ∷ r)) ≡ some (decimal k)
unfolding find_cseq cseq_here is_space lstrip after_prefix
numbered k c r h =
    search_for-here cseq_here b'C' (codes "Seq: " ++ (decimal k ++ c ∷ r)) (decimal k)
      (number_read is_digit is_space k c r is_digit-ascii ascii-not-space h)

measured :
    (n c : ℕ) (r : Text)
    → is_ascii_digit c ≡ false
    → find_content_length (codes "Content-Length: " ++ (decimal n ++ c ∷ r)) ≡ some (decimal n)
unfolding find_content_length content_length_here after_prefix
measured n c r h =
    search_for-here content_length_here b'C' (codes "ontent-Length: " ++ (decimal n ++ c ∷ r))
      (decimal n)
      (number_read is_ascii_digit is_ascii_space n c r (λ d k. k) (λ d k. ground (arith, k)) h)

-- No header begins with a digit.
digit_unmeasured : (c : ℕ) (r : Text) → is_ascii_digit c ≡ true → content_length_here (c ∷ r) ≡ none
unfolding content_length_here after_prefix
digit_unmeasured c r h = ground (arith, h)

pub digit_no_session :
    (is_word : ℕ → Bool) (c : ℕ) (r : Text)
    → is_ascii_digit c ≡ true
    → session_here is_word (c ∷ r) ≡ none
unfolding session_here after_prefix
digit_no_session is_word c r h = ground (arith, h)

pub past_number : (k : ℕ) (r : Text) → find_content_length (decimal k ++ r) ≡ find_content_length r
unfolding find_content_length
past_number k r =
    search_for-skip content_length_here is_ascii_digit (decimal k) r digit_unmeasured
      (decimal-ascii k)

pub after_number :
    (k : ℕ) (r : Text)
    → find_content_length (codes "CSeq: " ++ (decimal k ++ r)) ≡ find_content_length r
unfolding find_content_length search_for content_length_here after_prefix
after_number k r = past_number k r

after_type :
    (r : Text)
    → find_content_length (codes "\r\nContent-Type: text/parameters\r\n" ++ r)
      ≡ find_content_length r
unfolding find_content_length search_for content_length_here after_prefix
after_type r = refl

content_length-some :
    (h t : Text) (n : ℕ)
    → find_content_length h ≡ some t
    → int_of_digits t ≡ some n
    → content_length h ≡ ok n
unfolding content_length
content_length-some h t n e f = rw (e, content_length, f) refl

pub content_length-none : (h : Text) → find_content_length h ≡ none → content_length h ≡ ok 0
unfolding content_length
content_length-none h e = rw (e, content_length) refl

abbrev pub is_ascii : Text → Bool
is_ascii t = all (λ c. ltb c 0x80) t

pub is_ascii-decimal : (n : ℕ) → is_ascii (decimal n) ≡ true
is_ascii-decimal n = all-decimal (λ c. ltb c 0x80) (λ d h. ground (arith, h)) n

-- A line that the searches pass over.
pub record IsPassed (line : Text) : Type 0 where
  pub whole : is_line line ≡ true
  pub ascii : is_ascii line ≡ true
  pub unnumbered : (r : Text) → find_cseq (line ++ (crlf ++ r)) ≡ find_cseq r
  pub unmeasured : (r : Text) → find_content_length (line ++ (crlf ++ r)) ≡ find_content_length r

abbrev pub request : Text → ℕ → Text → Text
request line k body = message (request_lines line k body) body

module _ (line : Text) (passed : IsPassed line) (k : ℕ) (body : Text) where
  abbrev behind_number : Text
  behind_number =
      codes "\r\nContent-Type: text/parameters\r\nContent-Length: "
      ++ (decimal (length body) ++ blank_line)

  pub request_header :
      join crlf (request_lines line k body) ++ blank_line
      ≡ line ++ (crlf ++ (codes "CSeq: " ++ (decimal k ++ behind_number)))
  unfolding join
  request_header = simp append_assoc

  pub request-is_line : all is_line (request_lines line k body) ≡ true
  request-is_line =
      rw (passed.whole) (simp (all_append, no_cr-decimal k, no_cr-decimal (length body)))

  request-content_length :
      length body < 100000
      → content_length (join crlf (request_lines line k body) ++ blank_line) ≡ ok (length body)
  request-content_length small =
      let found : find_content_length (join crlf (request_lines line k body) ++ blank_line)
          ≡ some (decimal (length body)) =
        ap find_content_length request_header
        ∙ passed.unmeasured (codes "CSeq: " ++ (decimal k ++ behind_number))
        ∙ after_number k behind_number
        ∙ after_type (codes "Content-Length: " ++ (decimal (length body) ++ blank_line))
        ∙ measured (length body) 13 (codes "\n\r\n") refl in
      content_length-some _ _ _ found (int_of_digits-decimal (length body) small)

  pub request-IsMessage : length body < 100000 → IsMessage (request line k body)
  request-IsMessage small =
      message-IsMessage line _ body request-is_line (request-content_length small)

  pub request-cseq : find_cseq (request line k body) ≡ some (decimal k)
  unfolding digit_value
  request-cseq =
      ap (λ h. find_cseq (h ++ body)) request_header
      ∙ ap find_cseq (simp append_assoc)
      ∙ passed.unnumbered (codes "CSeq: " ++ (decimal k ++ (behind_number ++ body)))
      ∙ numbered k 13 _ refl

  pub request-ascii : is_ascii body ≡ true → is_ascii (request line k body) ≡ true
  request-ascii h =
      ap (λ h. is_ascii (h ++ body)) request_header
      ∙ rw (all_append)
          (simp (all_append, passed.ascii, is_ascii-decimal k, is_ascii-decimal (length body), h))
