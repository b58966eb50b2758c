-- ===== src/IdleScreen/Saved.antt =====
-- castd/render/idle_screen.py: the file of the idle screen and those who read it while it is
-- written. Files are known by their path; a directory that is made changes none of them.
use mathlib.Core.List.{append-nil, append_assoc}
use miracast_device.Base.{
  ◌≡◌, ◌≢◌, inl, inr, refl, sym, ap, ◌∙◌, false, List, [], ◌∷◌, ◌++◌, Option, none, some, Text, ℕ,
  All, flatten, text_eq, text_eq_iff, text_eq_refl, if◌then◌else◌, Bool-cases,
}
use miracast_device.IdleScreen.{Drawn}

-- What each path holds.
abbrev pub Files : Type 0
Files = Text → Option (List ℕ)

abbrev pub put : Files → Text → Option (List ℕ) → Files
put files path content p = if text_eq p path then content else files p

-- `img.save(tmp)`: what the disk holds after each piece, and at the end.
unfoldable pub save : Text → List ℕ → List (List ℕ) → Files → List Files × Files
unfolding text_eq
save tmp written [] files = ([], files)
save tmp written (piece ∷ pieces) files =
    let now = put files tmp (some (written ++ piece)) in
    let (states, last) = save tmp (written ++ piece) pieces now in (now ∷ states, last)

-- `tmp.replace(out)`.
abbrev replace_file : Text → Text → Files → Files
replace_file tmp out files = put (put files tmp none) out (files tmp)

-- The end of `render_idle_screen`: all that the disk holds in the meantime, and in the end. `png` is
-- the file of the picture library, in the pieces that it writes, and `with_suffix` names the
-- temporary file.
unfoldable pub save_idle_screen :
    (List Drawn → List (List ℕ)) → (Text → Text) → Text → List Drawn → Files → List Files × Files
unfolding save text_eq
save_idle_screen png with_suffix output_path lines files =
    let tmp = with_suffix output_path in
    let opened = put files tmp (some []) in
    let (states, last) = save tmp [] (png lines) opened in
    (opened ∷ states, replace_file tmp output_path last)

-- A path that is not the temporary file keeps what it held.
put_elsewhere :
    (files : Files) (path p : Text) (content : Option (List ℕ))
    → text_eq p path ≡ false
    → put files path content p ≡ files p
put_elsewhere files path p content h = rw h refl

put_there :
    (files : Files) (path : Text) (content : Option (List ℕ))
    → put files path content path ≡ content
put_there files path content = rw (text_eq_refl path) refl

-- The states show at `p` what the disk held.
abbrev pub Show : Text → Option (List ℕ) → List Files → Type 0
Show p content states = All (λ files. files p ≡ content) states

save-Show :
    (tmp p : Text) (written : List ℕ) (pieces : List (List ℕ)) (files : Files)
    → text_eq p tmp ≡ false
    → Show p (files p) (save tmp written pieces files).0
      × ((save tmp written pieces files).1 p ≡ files p)
unfolding save
save-Show tmp p written [] files h = (tt, refl)
save-Show tmp p written (piece ∷ pieces) files h =
    let now = put files tmp (some (written ++ piece)) in
    let kept = put_elsewhere files tmp p (some (written ++ piece)) h in
    let later = save-Show tmp p (written ++ piece) pieces now h in
    ((kept, rw kept at later.0), later.1 ∙ kept)

saved :
    (tmp : Text) (written : List ℕ) (pieces : List (List ℕ)) (files : Files)
    → files tmp ≡ some written
    → (save tmp written pieces files).1 tmp ≡ some (written ++ flatten pieces)
unfolding save
saved tmp written [] files h = h ∙ ap some (sym (append-nil written))
saved tmp written (piece ∷ pieces) files h =
    saved tmp (written ++ piece) pieces (put files tmp (some (written ++ piece)))
      (put_there files tmp (some (written ++ piece)))
    ∙ ap some (append_assoc written piece (flatten pieces))

differ : (p q : Text) → p ≢ q → text_eq p q ≡ false
differ p q h = elim (Bool-cases (text_eq p q)) [
  | inl e ↦ absurd (h ((text_eq_iff p q).0 e))
  | inr e ↦ e
]

-- While the temporary file is written, from its opening on.
meanwhile :
    (png : List Drawn → List (List ℕ)) (tmp : Text) (lines : List Drawn) (files : Files) (p : Text)
    → text_eq p tmp ≡ false
    → let opened = put files tmp (some []) in
      let (states, last) = save tmp [] (png lines) opened in
      Show p (files p) (opened ∷ states) × (last p ≡ files p)
meanwhile png tmp lines files p h =
    let kept = put_elsewhere files tmp p (some []) h in
    let s = save-Show tmp p [] (png lines) (put files tmp (some [])) h in
    ((kept, rw kept at s.0), s.1 ∙ kept)

-- Whoever reads the idle screen while it is drawn anew finds the old picture, whole, until the last
-- step, and from then on the new one, whole; the temporary file is then gone, and no other file has
-- changed, at the end or in the meantime; provided that the temporary file has another path than the
-- screen.
pub save_idle_screen_atomic :
    (png : List Drawn → List (List ℕ)) (with_suffix : Text → Text) (output_path : Text)
    (lines : List Drawn) (files : Files)
    → with_suffix output_path ≢ output_path
    → let tmp = with_suffix output_path in
      let (states, last) = save_idle_screen png with_suffix output_path lines files in
      Show output_path (files output_path) states
      × (last output_path ≡ some (flatten (png lines)))
      × (last tmp ≡ none)
      × ((p : Text) → p ≢ tmp → p ≢ output_path → Show p (files p) states × (last p ≡ files p))
unfolding save_idle_screen
save_idle_screen_atomic png with_suffix out lines files h =
    let tmp = with_suffix out in
    let opened = put files tmp (some []) in
    let last = (save tmp [] (png lines) opened).1 in
    let apart = differ tmp out h in
    let whole = saved tmp [] (png lines) opened (put_there files tmp (some [])) in
    (
      (meanwhile png tmp lines files out (differ out tmp (λ e. h (sym e)))).0,
      put_there (put last tmp none) out (last tmp) ∙ whole,
      put_elsewhere (put last tmp none) out tmp (last tmp) apart ∙ put_there last tmp none,
      λ p a b.
          let m = meanwhile png tmp lines files p (differ p tmp a) in
          (
            m.0,
            put_elsewhere (put last tmp none) out p (last tmp) (differ p out b)
                ∙ put_elsewhere last tmp p none (differ p tmp a)
                ∙ m.1,
          ),
    )
