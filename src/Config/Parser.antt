-- ===== src/Config/Parser.antt =====
-- What the parser of castd/config.py accepts, and what its errors name.
use miracast_device.Base.{
  ℕ, ◌≤◌, ◌≡◌, inl, inr, refl, true, List, [], ◌∷◌, Option, none, some, Text, length, ok,
  bind-eq-ok, ok-injective, codes, arith, Option-cases, ap,
}
use miracast_device.Config.{
  RoomConfig, Values, get, required, missing_from, check_room_name, check_wps_pin, check_passphrase,
  check_channel, check_values, is_valid_wps_pin, freq_mhz, allowed_channel, int_of, pos,
  check_found, check_missing, value_of, ℤ, negsuc, channel_checked,
}

-- What the rest of the daemon relies on.
pub record IsValid (c : RoomConfig) : Type 0 where
  pub named : 1 ≤ length c.room_name
  pub name_fits : length c.room_name ≤ 32
  pub pin_valid : is_valid_wps_pin c.wps_pin ≡ true
  pub pass_long : 8 ≤ length c.passphrase
  pub pass_fits : length c.passphrase ≤ 63
  pub has_freq : (f : ℕ) × (freq_mhz c ≡ some f) × (5180 ≤ f) × (f ≤ 5240)

check_room_name_ok :
    (name : Text) → check_room_name name ≡ ok tt → (1 ≤ length name) × (length name ≤ 32)
unfolding check_room_name
check_room_name_ok name h = ground arith

check_passphrase_ok : (p : Text) → check_passphrase p ≡ ok tt → (8 ≤ length p) × (length p ≤ 63)
unfolding check_passphrase
check_passphrase_ok p h = ground arith

check_wps_pin_ok : (pin : Text) → check_wps_pin pin ≡ ok tt → is_valid_wps_pin pin ≡ true
unfolding check_wps_pin is_valid_wps_pin
check_wps_pin_ok pin h = ground arith

allowed_channel_range : (c : ℕ) {f : ℕ} → allowed_channel c ≡ some f → (5180 ≤ f) × (f ≤ 5240)
unfolding allowed_channel
allowed_channel_range c h = ground arith

channel_checked_ok :
    (raw : Text) (i : Option ℤ) (c : ℕ)
    → channel_checked raw i ≡ ok c
    → (i ≡ some (pos c)) × ((f : ℕ) × (allowed_channel c ≡ some f))
channel_checked_ok raw none c h = cc
channel_checked_ok raw (some (negsuc n)) c h = cc
channel_checked_ok raw (some (pos n)) c h = elim (Option-cases (allowed_channel n)) [
  | inl e ↦ ground (arith, e)
  | inr (f, e) ↦
      let same : n ≡ c = ground (arith, e) in (ap (λ k. some (pos k)) same, (f, rw same at e))
]

check_channel_ok :
    (raw : Text) (c : ℕ)
    → check_channel raw ≡ ok c
    → (int_of raw ≡ some (pos c)) × ((f : ℕ) × (allowed_channel c ≡ some f))
unfolding check_channel
check_channel_ok raw c h = channel_checked_ok raw (int_of raw) c h

-- The four values that a configuration is read from.
pub record Given (values : Values) (c : RoomConfig) : Type 0 where
  pub room_name : get (codes "room_name") values ≡ some c.room_name
  pub wps_pin : get (codes "wps_pin") values ≡ some c.wps_pin
  pub passphrase : get (codes "passphrase") values ≡ some c.passphrase
  pub channel :
      (raw : Text) × (get (codes "channel") values ≡ some raw) × (int_of raw ≡ some (pos c.channel))

record IsChecked (room_name wps_pin passphrase raw : Text) (c : RoomConfig) : Type 0 where
  same_name : c.room_name ≡ room_name
  same_pin : c.wps_pin ≡ wps_pin
  same_pass : c.passphrase ≡ passphrase
  same_channel : int_of raw ≡ some (pos c.channel)
  valid : IsValid c

check_found_ok :
    (name pin pass raw : Text) (c : RoomConfig)
    → check_found name pin pass raw ≡ ok c
    → IsChecked name pin pass raw c
unfolding check_found freq_mhz
check_found_ok name pin pass raw c h =
    let (t, n, h) = bind-eq-ok (check_room_name name) _ h in
    let (u, p, h) = bind-eq-ok (check_wps_pin pin) _ h in
    let (v, q, h) = bind-eq-ok (check_passphrase pass) _ h in
    let (k, e, h) = bind-eq-ok (check_channel raw) _ h in
    let named = check_room_name_ok name n in
    let passed = check_passphrase_ok pass q in
    let (i, (f, g)) = check_channel_ok raw k e in
    let range = allowed_channel_range k g in
    rw (← ok-injective h) (record {
      same_name = refl;
      same_pin = refl;
      same_pass = refl;
      same_channel = i;
      valid = record {
        named = named.0;
        name_fits = named.1;
        pin_valid = check_wps_pin_ok pin p;
        pass_long = passed.0;
        pass_fits = passed.1;
        has_freq = (f, g, range.0, range.1);
      };
    })

not_missing :
    (values : Values) (k : Text) (ks : List Text)
    → missing_from values (k ∷ ks) ≡ []
    → (get k values ≡ some (value_of k values)) × (missing_from values ks ≡ [])
unfolding missing_from
not_missing values k ks h = ground arith

check_missing_ok : (ks : List Text) → check_missing ks ≡ ok tt → ks ≡ []
check_missing_ok [] h = refl
check_missing_ok (k ∷ ks) h = cc

pub check_values_ok :
    (values : Values) (c : RoomConfig) → check_values values ≡ ok c → Given values c × IsValid c
unfolding check_values
check_values_ok values c h =
    let (t, m, h) = bind-eq-ok (check_missing (missing_from values required)) _ h in
    let (name, m) = not_missing values _ _ (check_missing_ok _ m) in
    let (pin, m) = not_missing values _ _ m in
    let (pass, m) = not_missing values _ _ m in
    let (channel, m) = not_missing values _ _ m in
    let checked = check_found_ok _ _ _ _ c h in
    (
      record {
        room_name = rw checked.same_name name;
        wps_pin = rw checked.same_pin pin;
        passphrase = rw checked.same_pass pass;
        channel = (_, channel, checked.same_channel);
      },
      checked.valid,
    )
