-- ===== src/Config/Lines.antt =====
-- The loop over the lines of receiver.conf in castd/config.py.
use miracast_device.Base.{
  ℕ, ◌+◌, ◌≡◌, inl, inr, refl, sym, ◌∙◌, List, [], ◌∷◌, ◌++◌, Option, none, some, Text, All, length,
  if◌then◌else◌, ok, err, bind-eq-ok, splitlines, arith, Option-cases, text_eq, text_eq_iff, ap,
  codes,
}
use miracast_device.Config.{
  RoomConfig, cannot_parse, Values, get, put, read_line, read_lines, check_values,
  parse_room_config, int_of, pos,
}
use miracast_device.Config.Parser.{IsValid, check_values_ok}

-- What one line assigns to a key.
abbrev pub assigned : Text → Option (Option (Text × Text)) → Option Text
assigned k none = none
assigned k (some none) = none
assigned k (some (some (j, v))) = if text_eq j k then some v else none

abbrev or_else : Option Text → Option Text → Option Text
or_else none o = o
or_else (some v) o = some v

-- The last assignment to a key among the lines.
pub last_assigned : Text → List Text → Option Text
last_assigned k [] = none
last_assigned k (l ∷ ls) = or_else (last_assigned k ls) (assigned k (read_line l))

-- A line that the loop accepts.
abbrev pub IsReadable : Text → Type 0
IsReadable line = (kv : Option (Text × Text)) × (read_line line ≡ some kv)

get-put :
    (k j v : Text) (m : Values) → get j (put k v m) ≡ (if text_eq k j then some v else get j m)
unfolding get put
get-put k j v [] = refl
get-put k j v ((i, w) ∷ m) =
    ground (arith, text_eq_iff k j, text_eq_iff i k, text_eq_iff i j, get-put k j v m)

-- A line that can be read, and the dictionary after it.
abbrev step : Option (Text × Text) → Values → Values
step none m = m
step (some (k, v)) m = put k v m

pub read_lines-step :
    (n : ℕ) (m : Values) (l : Text) (ls : List Text) (kv : Option (Text × Text))
    → read_line l ≡ some kv
    → read_lines n m (l ∷ ls) ≡ read_lines (n + 1) (step kv m) ls
read_lines-step n m l ls none e = unfold read_lines in rw (e, read_lines)
read_lines-step n m l ls (some (k, v)) e = unfold read_lines in rw (e, read_lines)

read_lines-fail :
    (n : ℕ) (m : Values) (l : Text) (ls : List Text)
    → read_line l ≡ none
    → read_lines n m (l ∷ ls) ≡ err (cannot_parse n l)
read_lines-fail n m l ls e = unfold read_lines in rw (e, read_lines)

get-step :
    (k : Text) (kv : Option (Text × Text)) (m : Values)
    → get k (step kv m) ≡ or_else (assigned k (some kv)) (get k m)
get-step k none m = refl
get-step k (some (j, v)) m = ground (arith, get-put j k v m)

or_else_assoc : (a b c : Option Text) → or_else a (or_else b c) ≡ or_else (or_else a b) c
or_else_assoc none b c = refl
or_else_assoc (some v) b c = refl

-- After the loop each key has the value of the last line that assigns it, or the one it had.
pub get-read_lines :
    (k : Text) (n : ℕ) (m r : Values) (ls : List Text)
    → read_lines n m ls ≡ ok r
    → get k r ≡ or_else (last_assigned k ls) (get k m)
unfolding last_assigned
get-read_lines k n m r [] h = unfold read_lines in cc
get-read_lines k n m r (l ∷ ls) h = elim (Option-cases (read_line l)) [
  | inl e ↦ cc (read_lines-fail n m l ls e)
  | inr (kv, e) ↦ rw (
    get-read_lines k (n + 1) (step kv m) r ls (rw (read_lines-step n m l ls kv e) at h),
    get-step k kv m,
    e,
    or_else_assoc (last_assigned k ls) (assigned k (some kv)) (get k m),
  )
]

read_lines-IsReadable :
    (n : ℕ) (m r : Values) (ls : List Text) → read_lines n m ls ≡ ok r → All IsReadable ls
read_lines-IsReadable n m r [] h = tt
read_lines-IsReadable n m r (l ∷ ls) h = elim (Option-cases (read_line l)) [
  | inl e ↦ cc (read_lines-fail n m l ls e)
  | inr (kv, e) ↦
      let later = rw (read_lines-step n m l ls kv e) at h in
      ((kv, e), read_lines-IsReadable (n + 1) (step kv m) r ls later)
]

-- What an accepted file says, line by line.
pub record Says (text : Text) (c : RoomConfig) : Type 0 where
  pub readable : All IsReadable (splitlines text)
  pub room_name : last_assigned (codes "room_name") (splitlines text) ≡ some c.room_name
  pub wps_pin : last_assigned (codes "wps_pin") (splitlines text) ≡ some c.wps_pin
  pub passphrase : last_assigned (codes "passphrase") (splitlines text) ≡ some c.passphrase
  pub channel :
      (raw : Text) × (last_assigned (codes "channel") (splitlines text) ≡ some raw)
      × (int_of raw ≡ some (pos c.channel))

or_else-none : (o : Option Text) → or_else o none ≡ o
or_else-none none = refl
or_else-none (some v) = refl

last_of :
    (k v : Text) (r : Values) (ls : List Text)
    → read_lines 1 [] ls ≡ ok r
    → get k r ≡ some v
    → last_assigned k ls ≡ some v
unfolding get
last_of k v r ls h g =
    let e : get k r ≡ or_else (last_assigned k ls) none = get-read_lines k 1 [] r ls h in
    sym (or_else-none (last_assigned k ls)) ∙ sym e ∙ g

pub parse_room_config_ok :
    (text : Text) (c : RoomConfig) → parse_room_config text ≡ ok c → IsValid c × Says text c
unfolding parse_room_config
parse_room_config_ok text c h =
    let (r, e, h) = bind-eq-ok (read_lines 1 [] (splitlines text)) check_values h in
    let (given, valid) = check_values_ok r c h in
    let (raw, found, int) = given.channel in
    (
      valid,
      record {
        readable = read_lines-IsReadable 1 [] r _ e;
        room_name = last_of _ _ r _ e given.room_name;
        wps_pin = last_of _ _ r _ e given.wps_pin;
        passphrase = last_of _ _ r _ e given.passphrase;
        channel = (raw, last_of _ _ r _ e found, int);
      },
    )

read_lines-first_error :
    (n : ℕ) (m : Values) (before : List Text) (l : Text) (after : List Text)
    → All IsReadable before
    → read_line l ≡ none
    → read_lines n m (before ++ l ∷ after) ≡ err (cannot_parse (n + length before) l)
read_lines-first_error n m [] l after h e =
    rw (read_lines-fail n m l after e) (ap (λ k. err (cannot_parse k l)) (omega arith))
read_lines-first_error n m (b ∷ bs) l after h e =
    let (kv, r) = h.0 in
    rw (read_lines-step n m b (bs ++ l ∷ after) kv r) (
      read_lines-first_error (n + 1) (step kv m) bs l after h.1 e
      ∙ ap (λ k. err (cannot_parse k l)) (omega arith))

-- The first line that is neither blank, a comment nor an assignment is reported, with its number
-- counted from 1, whatever stands behind it.
pub parse_room_config_first_error :
    (text : Text) (before : List Text) (line : Text) (after : List Text)
    → splitlines text ≡ before ++ line ∷ after
    → All IsReadable before
    → read_line line ≡ none
    → parse_room_config text ≡ err (cannot_parse (1 + length before) line)
unfolding parse_room_config
parse_room_config_first_error text before line after s h e =
    rw (s, read_lines-first_error 1 [] before line after h e)
