-- ===== src/Clients.antt =====
-- castd/airplay/uxplay.py: the clients that uxplay's log shows, and its output pump.
pub mod Edges
use miracast_device.Base.{
  ℕ, zero, suc, ◌+◌, ◌-◌, Bool, true, false, ◌&&◌, ◌||◌, List, [], ◌∷◌, ◌++◌, Option, none, some,
  Text, ltb, ◌==◌, if◌then◌else◌, codes, after_prefix, same_folded, rstrip,
}

pub data Report : Type 0 where
  connected disconnected : Report

-- `re.search` for a fixed text, ignoring case.
unfoldable pub has_folded : Text → Text → Bool
unfolding after_prefix
has_folded p [] = elim (after_prefix same_folded p []) [ none ↦ false | some rest ↦ true ]
has_folded p (c ∷ cs) =
    let later = has_folded p cs in
    elim (after_prefix same_folded p (c ∷ cs)) [ none ↦ later | some rest ↦ true ]

-- `.*` and a fixed text: `.` matches all but the line feed.
unfoldable pub has_on_line : Text → Text → Bool
unfolding after_prefix
has_on_line p [] = elim (after_prefix same_folded p []) [ none ↦ false | some rest ↦ true ]
has_on_line p (c ∷ cs) =
    let later = has_on_line p cs in
    elim (after_prefix same_folded p (c ∷ cs)) [
      | none ↦ if c == b'\n' then false else later
      | some rest ↦ true
    ]

-- `_ACCEPT_RE`.
unfoldable pub is_accept : Text → Bool
unfolding has_on_line after_prefix
is_accept [] = false
is_accept (c ∷ cs) =
    let later = is_accept cs in
    elim (after_prefix same_folded (codes "Accepted ") (c ∷ cs)) [
      | none ↦ later
      | some rest ↦ has_on_line (codes "client on socket") rest || later
    ]

-- `_CLOSE_RE`.
unfoldable pub is_close : Text → Bool
unfolding has_folded
is_close line =
    has_folded (codes "Connection closed") line
    || has_folded (codes "raop_rtp_mirror stopping") line

-- `_SERVER_STOP_RE`.
unfoldable pub is_server_stop : Text → Bool
unfolding has_folded
is_server_stop line = has_folded (codes "Stopping RAOP Server") line

-- `feed`: the new count of open connections, and the report.
unfoldable pub feed : ℕ → Text → ℕ × Option Report
feed clients line =
    if is_server_stop line
    then (0, if ltb 0 clients then some disconnected else none)
    else if is_accept line
    then (clients + 1, if clients + 1 == 1 then some connected else none)
    else if is_close line && ltb 0 clients
    then (clients - 1, if clients - 1 == 0 then some disconnected else none)
    else (clients, none)

-- The callbacks of `_pump_output`.
pub data Callback : Type 0 where
  on_client_connected on_client_disconnected on_process_ended : Callback

abbrev pub reported : Option Report → List Callback
reported none = []
reported (some connected) = on_client_connected ∷ []
reported (some disconnected) = on_client_disconnected ∷ []

-- `_pump_output` with all callbacks set: the lines of the process, and whether its exit was expected
-- when its output ended.
unfoldable pub pump_output : ℕ → List Text → Bool → List Callback
unfolding rstrip
pump_output clients [] expect_exit = if expect_exit then [] else on_process_ended ∷ []
pump_output clients (raw_line ∷ lines) expect_exit =
    let (left, report) = feed clients (rstrip raw_line) in
    reported report ++ pump_output left lines expect_exit
