-- ===== src/Rtsp/Encodable.antt =====
-- What castd/wfdsink/rtsp.py sends has a UTF-8 encoding.
use miracast_device.Base.{
  ℕ, ◌≡◌, refl, Bool, true, not, ◌&&◌, ◌||◌, [], ◌∷◌, Option, some, Text, all, All, codes, ltb,
  arith, search_for, take_while, digit_value_scalar, lstrip, after_prefix, same_char, same_folded,
  ◌==◌, digit_value, decimal, Option-cases, inl, inr,
}
use miracast_device.Base.Utf8
use miracast_device.Base.Utf8.{is_surrogate, IsScalar}
use miracast_device.Base.Decimal.{all-decimal}
use miracast_device.Header.{find_cseq, cseq_here, find_session, session_here, is_digit, non_empty}

abbrev pub is_scalar : ℕ → Bool
is_scalar c = ltb c 0x110000 && not (is_surrogate c)

-- Text of scalar values.
abbrev pub is_plain : Text → Bool
is_plain t = all is_scalar t

IsScalar_lem : (c : ℕ) → is_scalar c ≡ true → IsScalar c
IsScalar_lem c h = (ground (arith, h), ground (arith, h))

All-IsScalar : (t : Text) → is_plain t ≡ true → All IsScalar t
All-IsScalar [] h = tt
All-IsScalar (c ∷ cs) h = (IsScalar_lem c (ground (arith, h)), All-IsScalar cs (ground (arith, h)))

-- Plain text is sent as bytes that decode to it.
pub record IsPlain (t : Text) : Type 0 where
  pub plain : is_plain t ≡ true

pub encode-IsPlain :
    (t : Text) → IsPlain t → (bs : Text) × (Utf8.encode t ≡ some bs) × (Utf8.decode bs ≡ t)
encode-IsPlain t h = Utf8.encode_total t (All-IsScalar t h.plain)

pub plain_decimal : (n : ℕ) → is_plain (decimal n) ≡ true
plain_decimal n = all-decimal is_scalar (λ d h. ground (arith, h)) n

-- What each place gives, a search gives.
search_plain :
    (here : Text → Option Text)
    → ((t r : Text) → here t ≡ some r → is_plain r ≡ true)
    → (t r : Text) → search_for here t ≡ some r
    → is_plain r ≡ true
unfolding search_for
search_plain here h [] r e = h [] r e
search_plain here h (c ∷ cs) r e = ground (arith, h (c ∷ cs) r, search_plain here h cs r, e)

plain_run :
    (p : ℕ → Bool)
    → ((c : ℕ) → p c ≡ true → is_scalar c ≡ true)
    → (t : Text) → is_plain (take_while p t) ≡ true
unfolding take_while
plain_run p h [] = refl
plain_run p h (c ∷ cs) = ground (arith, h c, plain_run p h cs)

digit_plain : (c : ℕ) → is_digit c ≡ true → is_scalar c ≡ true
digit_plain c h = elim (Option-cases (digit_value c)) [
  | inl e ↦ cc (rw (is_digit, e) at h)
  | inr (v, e) ↦ ground (arith, digit_value_scalar c e)
]

non_empty_plain : (t r : Text) → is_plain t ≡ true → non_empty t ≡ some r → is_plain r ≡ true
non_empty_plain [] r h e = cc
non_empty_plain (c ∷ cs) r h e = ground (arith, h, e)

cseq_here_plain : (t r : Text) → cseq_here t ≡ some r → is_plain r ≡ true
unfolding cseq_here
cseq_here_plain t r e = elim (Option-cases (after_prefix same_folded (codes "CSeq:") t)) [
  | inl h ↦ cc (rw h at e)
  | inr (u, h) ↦ non_empty_plain _ r (plain_run is_digit digit_plain (lstrip u)) (rw h at e)
]

pub find_cseq-IsPlain : (t r : Text) → find_cseq t ≡ some r → IsPlain r
unfolding find_cseq
find_cseq-IsPlain t r e = record { plain = search_plain cseq_here cseq_here_plain t r e }

-- `\w` matches no surrogate.
abbrev pub IsWordClass : (ℕ → Bool) → Type 0
IsWordClass is_word = (c : ℕ) → is_word c ≡ true → is_scalar c ≡ true

module _ (is_word : ℕ → Bool) (words : IsWordClass is_word) where
  word_plain : (c : ℕ) → (is_word c || c == b'.') ≡ true → is_scalar c ≡ true
  word_plain c h = ground (arith, words c)

  session_here_plain : (t r : Text) → session_here is_word t ≡ some r → is_plain r ≡ true
  unfolding session_here
  session_here_plain t r e = elim (Option-cases (after_prefix same_char (codes "Session:") t)) [
    | inl h ↦ cc (rw h at e)
    | inr (u, h) ↦
        non_empty_plain _ r (plain_run (λ c. is_word c || c == b'.') word_plain (lstrip u))
          (rw h at e)
  ]

  pub find_session-IsPlain : (t r : Text) → find_session is_word t ≡ some r → IsPlain r
  unfolding find_session
  find_session-IsPlain t r e = record {
    plain = search_plain (session_here is_word) session_here_plain t r e;
  }
