-- ===== src/Startup/Arrivals.antt =====
-- The sessions of castd/main.py one after another: the stations that `_on_station_authorized` is told
-- of, which the sink dials, and the sources that dial the sink.
use miracast_device.Base.{
  ℕ, ◌≡◌, refl, Bool, List, [], ◌∷◌, Option, Text, Option-cases, Result-cases, inl, inr, All,
}
use miracast_device.Rtsp.{WfdCapabilities}
use miracast_device.Session
use miracast_device.Session.{Channel}
use miracast_device.Daemon.{Daemon, Act, run_source_session}
use miracast_device.Daemon.Sessions.{IsFree, run_source_session_frees}
use miracast_device.Daemon.Accepting.{IsServed, Accepted, accepted, closed, accept_sources_loop}
use miracast_device.Startup.{connect_to_authorized_source, first_lease}

-- What a thread is started for. A station comes with the polls of the lease file until the deadline,
-- the attempts to dial it that succeed, and the socket of each.
pub data Arrival : Type 0 where
  station : List (Option Text) → (ℕ → Bool) → (ℕ → Channel) → Arrival
  source : (ip : Text) → Channel → Arrival

-- `_on_station_authorized` and the thread of `_accept_sources_loop`.
unfoldable pub arrive : (ℕ → Bool) → WfdCapabilities → ℕ → Arrival → Act (Unit {0})
unfolding connect_to_authorized_source run_source_session
arrive is_word caps fuel (station polls connects channels) =
    connect_to_authorized_source is_word caps fuel polls connects channels
arrive is_word caps fuel (source ip c) = run_source_session is_word caps fuel ip c

-- Each thread is through before the next is started; what it raises ends it.
unfoldable pub arrive_all : (ℕ → Bool) → WfdCapabilities → ℕ → List Arrival → Daemon → Daemon
unfolding arrive
arrive_all is_word caps fuel [] d = d
arrive_all is_word caps fuel (a ∷ later) d =
    arrive_all is_word caps fuel later (arrive is_word caps fuel a d).1

-- The fuel is enough, and the handshake does not raise `ValueError`, on each socket that may be used.
abbrev pub IsBearable : (ℕ → Bool) → WfdCapabilities → ℕ → Arrival → Type 0
IsBearable is_word caps fuel (source ip c) = IsServed is_word caps fuel ip c
IsBearable is_word caps fuel (station polls connects channels) =
    (ip : Text) (k : ℕ) → IsServed is_word caps fuel ip (channels k)

connect-IsFree :
    (is_word : ℕ → Bool) (caps : WfdCapabilities) (fuel : ℕ) (polls : List (Option Text))
    (connects : ℕ → Bool) (channels : ℕ → Channel) (d : Daemon)
    → IsFree d
    → ((ip : Text) (k : ℕ) → IsServed is_word caps fuel ip (channels k))
    → IsFree (connect_to_authorized_source is_word caps fuel polls connects channels d).1
unfolding connect_to_authorized_source
connect-IsFree is_word caps fuel polls connects channels d h s =
    elim (Option-cases (first_lease polls)) [
      | inl e ↦ rw (h.unheld, e) h
      | inr (ip, e) ↦ elim (Result-cases (Session.open_control_connection 10 connects)) [
        | inl (k, f) ↦
            rw (h.unheld, e, f)
              (run_source_session_frees is_word caps fuel ip (channels k) d h.consistent h.unheld
                (s ip k).0 (s ip k).1).0
        | inr (x, f) ↦ rw (h.unheld, e, f) h
      ]
    ]

arrive-IsFree :
    (is_word : ℕ → Bool) (caps : WfdCapabilities) (fuel : ℕ) (a : Arrival) (d : Daemon)
    → IsFree d
    → IsBearable is_word caps fuel a
    → IsFree (arrive is_word caps fuel a d).1
unfolding arrive
arrive-IsFree is_word caps fuel (source ip c) d h s =
    (run_source_session_frees is_word caps fuel ip c d h.consistent h.unheld s.0 s.1).0
arrive-IsFree is_word caps fuel (station polls connects channels) d h s =
    connect-IsFree is_word caps fuel polls connects channels d h s

-- A free room is free again after any sequence of sessions: whatever stations join and sources dial
-- in, one after another, and whatever they send, as long as the fuel is enough and no handshake raises
-- `ValueError`, the arbiter is idle on a consistent daemon, no render pipeline runs, and the screen
-- shows no PIN.
pub arrive_all-IsFree :
    (is_word : ℕ → Bool) (caps : WfdCapabilities) (fuel : ℕ) (arrivals : List Arrival) (d : Daemon)
    → IsFree d
    → All (IsBearable is_word caps fuel) arrivals
    → IsFree (arrive_all is_word caps fuel arrivals d)
unfolding arrive_all
arrive_all-IsFree is_word caps fuel [] d h s = h
arrive_all-IsFree is_word caps fuel (a ∷ later) d h s =
    arrive_all-IsFree is_word caps fuel later _ (arrive-IsFree is_word caps fuel a d h s.0) s.1

-- The sources that the accept loop serves: those before the listener is closed.
abbrev pub served : List Accepted → List Arrival
served [] = []
served (closed ∷ later) = []
served (accepted ip c ∷ later) = source ip c ∷ served later

-- The accept loop on its own: the sources that dial in before the listener is closed.
pub accept_sources_loop-arrive_all :
    (is_word : ℕ → Bool) (caps : WfdCapabilities) (fuel : ℕ) (sources : List Accepted) (d : Daemon)
    → accept_sources_loop is_word caps fuel sources d
      ≡ arrive_all is_word caps fuel (served sources) d
unfolding accept_sources_loop arrive_all arrive
accept_sources_loop-arrive_all is_word caps fuel [] d = refl
accept_sources_loop-arrive_all is_word caps fuel (closed ∷ later) d = refl
accept_sources_loop-arrive_all is_word caps fuel (accepted ip c ∷ later) d =
    accept_sources_loop-arrive_all is_word caps fuel later _
