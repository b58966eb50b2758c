-- ===== src/Base/Words.antt =====
-- `text.split()`: the words of a text.
use miracast_device.Base.{
  ◌≡◌, ◌≢◌, refl, ap, ◌∙◌, Bool, true, false, not, List, [], ◌∷◌, ◌++◌, Text, All, all, is_space,
  split_words, words, and_words, join, codes, arith,
}

-- One character or more, none of them white space.
pub record IsField (w : Text) : Type 0 where
  pub non_empty : w ≢ []
  pub solid : All (λ c. is_space c ≡ false) w

split_words-field :
    (w rest : Text)
    → All (λ c. is_space c ≡ false) w
    → split_words (w ++ b' ' ∷ rest) ≡ (w, words rest)
unfolding split_words words
split_words-field [] rest h = unfold is_space in refl
split_words-field (c ∷ w) rest h = rw (split_words-field w rest h.1, h.0) refl

pub words-field : (w rest : Text) → IsField w → words (w ++ b' ' ∷ rest) ≡ w ∷ words rest
unfolding words split_words
words-field [] rest f = absurd (f.non_empty refl)
words-field (c ∷ w) rest f = ap (λ p. and_words p.0 p.1) (split_words-field (c ∷ w) rest f.solid)

words-last : (w : Text) → IsField w → words w ≡ w ∷ []
unfolding words split_words
words-last [] f = absurd (f.non_empty refl)
words-last (c ∷ w) f = ap (λ p. and_words p.0 p.1) (whole (c ∷ w) f.solid)
  where
    whole : (w : Text) → All (λ c. is_space c ≡ false) w → split_words w ≡ (w, [])
    whole [] h = refl
    whole (c ∷ w) h = rw (whole w h.1, h.0) refl

-- Words joined with single spaces are read back.
pub words-join : (ws : List Text) → All IsField ws → words (join (codes " ") ws) ≡ ws
unfolding join
words-join [] h = unfold words split_words in refl
words-join (w ∷ []) h = words-last w h.0
words-join (w ∷ v ∷ ws) h =
    words-field w (join (codes " ") (v ∷ ws)) h.0 ∙ ap (λ vs. w ∷ vs) (words-join (v ∷ ws) h.1)

-- A test for words.
abbrev pub is_field : Text → Bool
is_field [] = false
is_field (c ∷ cs) = all (λ c. not (is_space c)) (c ∷ cs)

solid_lem : (w : Text) → all (λ c. not (is_space c)) w ≡ true → All (λ c. is_space c ≡ false) w
solid_lem [] h = tt
solid_lem (c ∷ w) h = (ground (arith, h), solid_lem w (ground (arith, h)))

pub is_field-IsField : (w : Text) → is_field w ≡ true → IsField w
is_field-IsField [] h = cc
is_field-IsField (c ∷ w) h = record { non_empty = cc; solid = solid_lem (c ∷ w) h }

pub all_fields : (ws : List Text) → all is_field ws ≡ true → All IsField ws
all_fields [] h = tt
all_fields (w ∷ ws) h = (is_field-IsField w (ground (arith, h)), all_fields ws (ground (arith, h)))
