-- ===== src/Daemon/Threads.antt =====
-- The handlers of castd/main.py on several threads: `arbiter.handle` runs under the lock, and each
-- action of `_apply_actions` after it, outside the lock.
use mathlib.Core.List.{append-nil}
use mathlib.Core.Path.{subst}
use miracast_device.Base.{
  Bool, ◌≡◌, refl, ◌∙◌, ap, sym, true, List, [], ◌∷◌, ◌++◌, some, ok, err, arith,
}
use miracast_device.Arbiter.{
  State, miracast, Event, miracast_connected, miracast_disconnected, Action,
  pause_airplay_advertising, pause_miracast_discovery, stop_render_pipeline,
  resume_airplay_advertising, resume_miracast_discovery, show_idle_screen, handle, run,
}
use miracast_device.Process.{absent, alive}
use miracast_device.Daemon.{Daemon, Fault, apply_action, on_screen}
use miracast_device.Daemon.Consistent.{uxplay_child}

-- The daemon, and for each thread the actions that it has still to apply.
pub record Threads : Type 0 where
  pub daemon : Daemon
  pub pending : List (List Action)

abbrev pub alone : Daemon → Threads
alone d = record { daemon = d; pending = [] }

-- One step of one thread, with the event if it delivers one.
pub data Step (s : Threads) : List Event → Threads → Type 0 where
  deliver :
      (e : Event)
      → Step s (e ∷ []) (record {
        daemon = record s.daemon { arbiter = (handle s.daemon.arbiter e).next_state };
        pending = (handle s.daemon.arbiter e).actions ∷ s.pending;
      })
  apply :
      (before : List (List Action)) (a : Action) (rest : List Action) (after : List (List Action))
      (d : Daemon)
      → s.pending ≡ before ++ (a ∷ rest) ∷ after
      → apply_action a s.daemon ≡ (ok tt, d)
      → Step s [] (record { daemon = d; pending = before ++ rest ∷ after })
  raise :
      (before : List (List Action)) (a : Action) (rest : List Action) (after : List (List Action))
      (e : Fault) (d : Daemon)
      → s.pending ≡ before ++ (a ∷ rest) ∷ after
      → apply_action a s.daemon ≡ (err e, d)
      → Step s [] (record { daemon = d; pending = before ++ after })
  finish :
      (before after : List (List Action))
      → s.pending ≡ before ++ [] ∷ after
      → Step s [] (record {
        daemon = record s.daemon { health = s.daemon.arbiter };
        pending = before ++ after;
      })

-- The steps of all threads in some order, with the events in the order in which they took the lock.
pub data Reach (s : Threads) : List Event → Threads → Type 0 where
  here : Reach s [] s
  next : {es e : List Event} {t u : Threads} → Reach s es t → Step t e u → Reach s (es ++ e) u

apply_action_arbiter : (a : Action) (d : Daemon) → (apply_action a d).1.arbiter ≡ d.arbiter
unfolding apply_action
apply_action_arbiter a d = ground arith

run-append : (s : State) (xs ys : List Event) → run s (xs ++ ys) ≡ run (run s xs) ys
unfolding run
run-append s [] ys = refl
run-append s (x ∷ xs) ys = run-append (handle s x).next_state xs ys

Step-arbiter :
    {s t : Threads} {es : List Event} → Step s es t → t.daemon.arbiter ≡ run s.daemon.arbiter es
unfolding run
Step-arbiter (deliver e) = refl
Step-arbiter {s} (apply before a rest after d p h) =
    sym (ap (λ r. r.1.arbiter) h) ∙ apply_action_arbiter a s.daemon
Step-arbiter {s} (raise before a rest after e d p h) =
    sym (ap (λ r. r.1.arbiter) h) ∙ apply_action_arbiter a s.daemon
Step-arbiter (finish before after p) = refl

-- However the threads are interleaved, the arbiter is where the bare arbiter is after the events in
-- the order in which they took the lock: no action of any thread moves it.
pub Reach-arbiter :
    {s t : Threads} {es : List Event} → Reach s es t → t.daemon.arbiter ≡ run s.daemon.arbiter es
Reach-arbiter here = unfold run in refl
Reach-arbiter {s} (next {es} {e} {t} r st) =
    Step-arbiter st ∙ ap (λ x. run x e) (Reach-arbiter r) ∙ sym (run-append s.daemon.arbiter es e)

-- Steps of the thread that has started last.
apply_next :
    {s t : Threads} {es : List Event} (a : Action) (rest : List Action)
    (others : List (List Action))
    → Reach s es t
    → t.pending ≡ (a ∷ rest) ∷ others
    → (apply_action a t.daemon).0 ≡ ok tt
    → Reach s es (record { daemon = (apply_action a t.daemon).1; pending = rest ∷ others })
apply_next {s} {t} {es} a rest others r p h =
    subst
      (λ x. Reach s x (record { daemon = (apply_action a t.daemon).1; pending = rest ∷ others }))
      (append-nil es)
      (next r (
        apply [] a rest others (apply_action a t.daemon).1 p
          (λ i. (h i, (apply_action a t.daemon).1))))

finish_next :
    {s t : Threads} {es : List Event} (others : List (List Action))
    → Reach s es t
    → t.pending ≡ [] ∷ others
    → Reach s es
        (record { daemon = record t.daemon { health = t.daemon.arbiter }; pending = others })
finish_next {s} {t} {es} others r p =
    subst
      (λ x.
        Reach s x
          (record { daemon = record t.daemon { health = t.daemon.arbiter }; pending = others }))
      (append-nil es) (next r (finish [] others p))

-- A daemon in a Miracast session, whose screen and bus work: uxplay is stopped.
abbrev pub in_session : Daemon → Bool → Daemon
in_session d x = record d {
  arbiter = miracast;
  uxplay = some (record { child = absent; expect_exit = x });
  screen = on_screen;
  takes_ies = true;
}

-- What the interleaving below ends with.
pub record IsMixed (t : Threads) : Type 0 where
  pub quiet : t.pending ≡ []
  pub held : t.daemon.arbiter ≡ miracast
  pub uxplay_runs : uxplay_child t.daemon.uxplay ≡ some alive
  pub announced_free : t.daemon.published ≡ true

-- A source leaves and another connects, while the screen and the bus work. Both events are delivered
-- before the first thread applies an action, and the second thread is through before the first
-- begins: the arbiter says that Miracast holds the display, and yet uxplay runs and the sink is
-- announced as free.
pub actions_race :
    (d : Daemon) (x : Bool)
    → (t : Threads) × Reach
        (alone (in_session d x))
        (miracast_disconnected ∷ miracast_connected ∷ [])
        t
      × IsMixed t
unfolding handle apply_action
actions_race d x =
    let r₀ : Reach (alone (in_session d x)) [] (alone (in_session d x)) = here in
    let r₂ = next (next r₀ (deliver miracast_disconnected)) (deliver miracast_connected) in
    let r₃ = apply_next pause_airplay_advertising _ _ r₂ refl refl in
    let r₄ = apply_next pause_miracast_discovery _ _ r₃ refl refl in
    let r₅ = finish_next _ r₄ refl in
    let r₆ = apply_next stop_render_pipeline _ _ r₅ refl refl in
    let r₇ = apply_next resume_airplay_advertising _ _ r₆ refl refl in
    let r₈ = apply_next resume_miracast_discovery _ _ r₇ refl refl in
    let r₉ = apply_next show_idle_screen _ _ r₈ refl refl in
    let r = finish_next _ r₉ refl in
    (_, r, record { quiet = refl; held = refl; uxplay_runs = refl; announced_free = refl })
