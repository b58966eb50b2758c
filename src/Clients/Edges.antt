-- ===== src/Clients/Edges.antt =====
-- The callbacks of castd/airplay/uxplay.py come in alternation.
use miracast_device.Base.{
  ℕ, ◌≡◌, ◌∙◌, not, Bool, true, false, List, [], ◌∷◌, ◌++◌, Option, none, some, Text, ltb, arith,
  rstrip,
}
use miracast_device.Clients.{
  feed, pump_output, Callback, on_client_connected, on_client_disconnected, on_process_ended,
  reported,
}

-- The connections that are open after the lines.
pub open_after : ℕ → List Text → ℕ
open_after clients [] = clients
open_after clients (l ∷ ls) = open_after (feed clients (rstrip l)).0 ls

-- Callbacks in which a connection is reported only to an idle receiver and a disconnection only to
-- a busy one; the result says whether the receiver is busy at the end of the clients, and whether
-- the end of the process is reported, which nothing follows.
unfoldable pub follow : Bool → List Callback → Option (Bool × Bool)
follow busy [] = some (busy, false)
follow false (on_client_connected ∷ cs) = follow true cs
follow true (on_client_disconnected ∷ cs) = follow false cs
follow busy (on_process_ended ∷ []) = some (busy, true)
follow _ _ = none

feed_reports :
    (clients : ℕ) (line : Text) (cs : List Callback)
    → follow (ltb 0 clients) (reported (feed clients line).1 ++ cs)
      ≡ follow (ltb 0 (feed clients line).0) cs
unfolding follow feed
feed_reports clients line cs = ground arith

pump_output-follow :
    (clients : ℕ) (lines : List Text) (expect_exit : Bool)
    → follow (ltb 0 clients) (pump_output clients lines expect_exit)
      ≡ some (ltb 0 (open_after clients lines), not expect_exit)
unfolding pump_output open_after
pump_output-follow clients [] expect_exit = unfold follow in ground arith
pump_output-follow clients (l ∷ ls) expect_exit =
    feed_reports clients (rstrip l) (pump_output (feed clients (rstrip l)).0 ls expect_exit)
    ∙ pump_output-follow (feed clients (rstrip l)).0 ls expect_exit

-- Whatever uxplay prints, connections and disconnections are reported in alternation, the first of
-- them a connection, and at the end the receiver counts as busy exactly when connections are open.
-- The end of the process is reported last, exactly when it was not expected.
pub pump_output_alternates :
    (lines : List Text) (expect_exit : Bool)
    → follow false (pump_output 0 lines expect_exit)
      ≡ some (ltb 0 (open_after 0 lines), not expect_exit)
pump_output_alternates lines expect_exit = pump_output-follow 0 lines expect_exit
