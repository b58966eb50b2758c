-- ===== src/Daemon/WatchLoop.antt =====
-- `_stream_watch_loop` of castd/main.py: pass after pass over a session.
use miracast_device.Base.{
  ℕ, suc, ◌+◌, ◌<◌, ◌≤◌, ◌≡◌, refl, ap, Bool, true, false, List, [], ◌∷◌, ◌++◌, Option, some, All,
  arith, ltb, take, length, replicate,
}
use miracast_device.Arbiter.{miracast}
use miracast_device.Process.{alive}
use miracast_device.StreamWatchdog
use miracast_device.StreamWatchdog.{StreamWatchdog, observe}
use miracast_device.Daemon.{Daemon, stream_watch_tick, after_steady_state}
use miracast_device.Daemon.Consistent.{IsConsistent}
use miracast_device.Daemon.Sessions.{IsStreaming, IsFree, session_ends}
use miracast_device.Rtsp.{Negotiator}
use miracast_device.Session.{Recv, failed, Channel, run_steady_state}
use miracast_device.Session.Steady.{left_over, run_steady_state_ends}

-- A pass: what the other threads do during the sleep before it, the counter it reads, and the time.
pub record Pass : Type 0 where
  pub meanwhile : Daemon → Daemon
  pub rx_bytes : Option ℕ
  pub now : ℕ

-- Which passes close the control socket, and the daemon after them.
unfoldable pub watch_from : StreamWatchdog → List Pass → Daemon → List Bool × Daemon
unfolding stream_watch_tick
watch_from w [] d = ([], d)
watch_from w (p ∷ ps) d =
    let t = stream_watch_tick w p.rx_bytes p.now (p.meanwhile d) in
    let (trips, later) = watch_from t.watchdog ps t.daemon in (t.tripped ∷ trips, later)

-- `_stream_watch_loop`, with the window and the threshold of its detector.
unfoldable pub stream_watch_loop : ℕ → ℕ → List Pass → Daemon → List Bool × Daemon
unfolding watch_from StreamWatchdog.new
stream_watch_loop window min_bytes ps d = watch_from (StreamWatchdog.new window min_bytes) ps d

-- A session with its control socket, its pipeline and the display.
pub record IsLive (d : Daemon) : Type 0 where
  pub held : d.arbiter ≡ miracast
  pub connected : d.control_sock ≡ true
  pub expected : d.render_pipeline_expected ≡ true
  pub rendering : d.render.child ≡ alive
  pub consistent : IsConsistent d

-- The other threads do not end the session.
abbrev pub KeepsLive : Pass → Type 0
KeepsLive p = (d : Daemon) → IsLive d → IsLive (p.meanwhile d)

-- Every counter is less than `m` above the one before it.
abbrev pub IsFrozen : ℕ → ℕ → List Pass → Type 0
IsFrozen m last [] = Unit {0}
IsFrozen m last (p ∷ ps) = (rx : ℕ) × (p.rx_bytes ≡ some rx) × (rx < last + m) × IsFrozen m rx ps

-- The passes that are not later than `limit`.
abbrev pub InTime : ℕ → List Pass → Type 0
InTime limit ps = All (λ p. p.now ≤ limit) ps

-- What the other threads have made of the daemon.
abbrev pub through : List Pass → Daemon → Daemon
through [] d = d
through (p ∷ ps) d = through ps (p.meanwhile d)

-- What closing the control socket leaves of the channel: the `recv` that is already waiting gives its
-- result, and the next one fails.
abbrev pub closed : Recv → Channel → Channel
closed waiting c = record c { inbound = waiting ∷ failed ∷ [] }

abbrev watching : ℕ → ℕ → ℕ → ℕ → StreamWatchdog
watching window m last progress = record {
  stall_window = window;
  min_bytes = m;
  last_rx = some last;
  last_progress = some progress;
}

-- A pass over a live session whose counter is frozen.
frozen_pass :
    (window m last t rx now : ℕ) (d : Daemon)
    → IsLive d
    → rx < last + m
    → let r = stream_watch_tick (watching window m last t) (some rx) now d in
      (r.tripped ≡ ltb (t + window) now)
      × (r.daemon ≡ d)
      × (ltb (t + window) now ≡ false → r.watchdog ≡ watching window m rx t)
unfolding stream_watch_tick observe
frozen_pass window m last t rx now d h f = ground (arith, h)

first_pass :
    (window m rx now : ℕ) (d : Daemon)
    → IsLive d
    → let r = stream_watch_tick (StreamWatchdog.new window m) (some rx) now d in
      (r.tripped ≡ false) × (r.daemon ≡ d) × (r.watchdog ≡ watching window m rx now)
unfolding stream_watch_tick observe StreamWatchdog.new
first_pass window m rx now d h = ground (arith, h)

through-IsLive : (ps : List Pass) (d : Daemon) → IsLive d → All KeepsLive ps → IsLive (through ps d)
through-IsLive [] d h k = h
through-IsLive (p ∷ ps) d h k = through-IsLive ps (p.meanwhile d) (k.0 d h) k.1

-- The passes over the frozen counter: none trips in time, and the late one does.
trips_when_late :
    (window m last t : ℕ) (before : List Pass) (q : Pass) (later : List Pass) (d : Daemon)
    → IsLive d
    → All KeepsLive (before ++ (q ∷ []))
    → IsFrozen m last (before ++ (q ∷ []))
    → InTime (t + window) before
    → t + window < q.now
    → take (suc (length before)) (watch_from (watching window m last t) (before ++ (q ∷ later)) d).0
      ≡ replicate (length before) false ++ (true ∷ [])
unfolding watch_from
trips_when_late window m last t [] q later d h k f e l =
    let live = k.0 d h in
    let r = frozen_pass window m last t f.0 q.now (q.meanwhile d) live f.2 in
    let late : ltb (t + window) q.now ≡ true = ground (arith, l) in rw (f.1, r.0, late) refl
trips_when_late window m last t (p ∷ before) q later d h k f e l =
    let live = k.0 d h in
    let r = frozen_pass window m last t f.0 p.now (p.meanwhile d) live f.2 in
    let early : ltb (t + window) p.now ≡ false = ground (arith, e.0) in
    rw (f.1, r.0, early, r.2 early, r.1)
      (ap (λ trips. false ∷ trips)
        (trips_when_late window m f.0 t before q later (p.meanwhile d) live k.1 f.3 e.1 l))

is_streaming : (d : Daemon) → IsLive d → IsStreaming d
is_streaming d h = record {
  consistent = h.consistent;
  held = h.held;
  rendering = h.rendering;
  expected = h.expected;
}

-- The stream of a live session dies: a first pass reads the counter of the interface, all later ones
-- up to a pass `q` find it less than the threshold above the pass before, the other threads leave
-- the session as it is until then, and `q` is the first pass later than the first by more than the
-- window. Of these passes `q` and no other closes the control socket, whatever passes come after it.
-- On the channel that closing leaves (the `recv` that is waiting gives its result, the next fails)
-- and with fuel for its input, the end of the steady state then leaves the room free.
pub stream_watch_loop_trips :
    (window min_bytes rx : ℕ) (p : Pass) (before : List Pass) (q : Pass) (later : List Pass)
    (d : Daemon) (fuel : ℕ) (n : Negotiator) (waiting : Recv) (c : Channel)
    → IsLive d
    → All KeepsLive (p ∷ (before ++ (q ∷ [])))
    → p.rx_bytes ≡ some rx
    → IsFrozen min_bytes rx (before ++ (q ∷ []))
    → InTime (p.now + window) before
    → p.now + window < q.now
    → left_over (closed waiting c) < fuel
    → (take
          (suc (suc (length before)))
          (stream_watch_loop window min_bytes (p ∷ (before ++ (q ∷ later))) d).0
        ≡ replicate (suc (length before)) false ++ (true ∷ []))
      × IsFree
          (after_steady_state
            (run_steady_state fuel n (closed waiting c)).0
            (through (p ∷ (before ++ (q ∷ []))) d)).1
unfolding stream_watch_loop watch_from
stream_watch_loop_trips window m rx p before q later d fuel n waiting c h k e f i l k' =
    let live = k.0 d h in
    let r = first_pass window m rx p.now (p.meanwhile d) live in
    let at_end = through-IsLive (before ++ (q ∷ [])) (p.meanwhile d) live k.1 in
    (
      rw (e, r.0, r.2, r.1)
          (ap (λ trips. false ∷ trips)
            (trips_when_late window m rx p.now before q later (p.meanwhile d) live k.1 f i l)),
      session_ends _ _ (is_streaming _ at_end)
          (run_steady_state_ends fuel n (closed waiting c) k').0,
    )
