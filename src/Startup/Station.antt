-- ===== src/Startup/Station.antt =====
-- A station that joins the group of castd/main.py: either a session, or nothing.
use miracast_device.Base.{
  ℕ, ◌<◌, ◌≡◌, ◌≢◌, refl, ap, Bool, true, false, List, [], ◌∷◌, ◌++◌, Option, none, some, Text, ok,
  err, All, arith, Result,
}
use miracast_device.Arbiter.{State, miracast}
use miracast_device.Rtsp.{WfdCapabilities, Raised}
use miracast_device.Session.{Channel}
use miracast_device.Session.Dial.{FirstFrom, open_control_connection_first}
use miracast_device.Daemon.{Daemon, run_source_session, is_miracast}
use miracast_device.Startup.{connect_to_authorized_source, first_lease}

abbrev pub NoAddress : Option Text → Type 0
NoAddress none = Unit {0}
NoAddress (some []) = Unit {0}
NoAddress (some (c ∷ cs)) = ⊥

first_lease-some :
    (before : List (Option Text)) (c : ℕ) (ip : Text) (after : List (Option Text))
    → All NoAddress before
    → first_lease (before ++ some (c ∷ ip) ∷ after) ≡ some (c ∷ ip)
unfolding first_lease
first_lease-some [] c ip after h = refl
first_lease-some (none ∷ ps) c ip after h = first_lease-some ps c ip after h.1
first_lease-some (some [] ∷ ps) c ip after h = first_lease-some ps c ip after h.1
first_lease-some (some (x ∷ xs) ∷ ps) c ip after h = absurd h.0

first_lease-none : (polls : List (Option Text)) → All NoAddress polls → first_lease polls ≡ none
unfolding first_lease
first_lease-none [] h = refl
first_lease-none (none ∷ ps) h = first_lease-none ps h.1
first_lease-none (some [] ∷ ps) h = first_lease-none ps h.1
first_lease-none (some (x ∷ xs) ∷ ps) h = absurd h.0

bool_ne : (b : Bool) → b ≡ true → b ≡ false → ⊥
bool_ne b h k = ground arith

is_miracast-false : (s : State) → s ≢ miracast → is_miracast s ≡ false
is_miracast-false s h = ground arith

-- The first attempt that succeeds is the one that is returned.
first_is :
    (k : ℕ) (connects : ℕ → Bool) (r : Result Raised ℕ)
    → k < 10
    → connects k ≡ true
    → ((i : ℕ) → i < k → connects i ≡ false)
    → FirstFrom 0 10 connects r
    → r ≡ ok k
first_is k connects (ok j) small hit earlier (_, inside, found, before) = ap ok (
    omega (
      arith,
      λ (p : j < k). bool_ne (connects j) found (earlier j p),
      λ (p : k < j). bool_ne (connects k) hit (before k (omega arith) p),
    ))
first_is k connects (err e) small hit earlier (_, none_of) =
    absurd (bool_ne (connects k) hit (none_of k (omega arith) small))

none_connects :
    (connects : ℕ → Bool) (r : Result Raised ℕ)
    → ((i : ℕ) → i < 10 → connects i ≡ false)
    → FirstFrom 0 10 connects r
    → (e : Raised) × (r ≡ err e)
none_connects connects (ok j) all_fail (_, inside, found, before) =
    absurd (bool_ne (connects j) found (all_fail j inside))
none_connects connects (err e) all_fail f = (e, refl)

-- A station that has leased an address before the deadline, and that answers one of the ten
-- attempts to dial it, gets a session over the socket of the first attempt that succeeds, unless a
-- Miracast session is on.
pub station_gets_session :
    (is_word : ℕ → Bool) (caps : WfdCapabilities) (fuel c : ℕ) (ip : Text)
    (before after : List (Option Text)) (connects : ℕ → Bool) (k : ℕ) (channels : ℕ → Channel)
    (d : Daemon)
    → d.arbiter ≢ miracast
    → All NoAddress before
    → k < 10
    → connects k ≡ true
    → ((i : ℕ) → i < k → connects i ≡ false)
    → connect_to_authorized_source is_word caps fuel
        (before ++ some (c ∷ ip) ∷ after)
        connects
        channels
        d
      ≡ run_source_session is_word caps fuel (c ∷ ip) (channels k) d
unfolding connect_to_authorized_source
station_gets_session is_word caps fuel c ip before after connects k channels d free none_yet small
      hit earlier =
    rw (
      is_miracast-false d.arbiter free,
      first_lease-some before c ip after none_yet,
      first_is k connects _ small hit earlier (open_control_connection_first 10 connects),
    )

-- Why a station gets no session: a Miracast session is on, no address before the deadline, or
-- every attempt to dial it fails.
pub data IsPassedOver (polls : List (Option Text)) (connects : ℕ → Bool) (d : Daemon) : Type 0 where
  busy : d.arbiter ≡ miracast → IsPassedOver polls connects d
  no_lease : All NoAddress polls → IsPassedOver polls connects d
  no_server : ((i : ℕ) → i < 10 → connects i ≡ false) → IsPassedOver polls connects d

-- A station is passed over without a trace, nothing is raised and the daemon is what it was, if a
-- Miracast session is on, if it leases no address before the deadline, or if it answers none of the
-- ten attempts to dial it.
pub station_passed_over :
    (is_word : ℕ → Bool) (caps : WfdCapabilities) (fuel : ℕ) (polls : List (Option Text))
    (connects : ℕ → Bool) (channels : ℕ → Channel) (d : Daemon)
    → IsPassedOver polls connects d
    → connect_to_authorized_source is_word caps fuel polls connects channels d ≡ (ok tt, d)
unfolding connect_to_authorized_source
station_passed_over is_word caps fuel polls connects channels d (busy h) = rw h
station_passed_over is_word caps fuel polls connects channels d (no_lease h) =
    ground (arith, first_lease-none polls h)
station_passed_over is_word caps fuel polls connects channels d (no_server h) =
    let (e, raised) = none_connects connects _ h (open_control_connection_first 10 connects) in
    ground (arith, raised)
