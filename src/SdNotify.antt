-- ===== src/SdNotify.antt =====
-- castd/sdnotify.py: the messages to systemd.
use miracast_device.Base.{
  Bool, true, false, List, [], ◌∷◌, ◌++◌, Option, none, some, Text, Result, ok, err, if◌then◌else◌,
  codes, join, ◌==◌, ℕ,
}
use miracast_device.Base.Utf8

-- `ValueError`: nothing to report, or a text that has no UTF-8; and `OSError` of the socket.
pub data NotifyError : Type 0 where
  nothing_to_report unencodable os_error : NotifyError

abbrev status_lines : Option Text → List Text
status_lines none = []
status_lines (some []) = []
status_lines (some (c ∷ cs)) = (codes "STATUS=" ++ c ∷ cs) ∷ []

unfoldable pub notify_lines : Bool → Bool → Option Text → List Text
notify_lines ready watchdog status =
    (if ready then codes "READY=1" ∷ [] else [])
    ++ ((if watchdog then codes "WATCHDOG=1" ∷ [] else []) ++ status_lines status)

abbrev encoded : Option (List ℕ) → Result NotifyError (List ℕ)
encoded none = err unencodable
encoded (some bytes) = ok bytes

abbrev message_of : List Text → Result NotifyError (List ℕ)
message_of [] = err nothing_to_report
message_of (l ∷ ls) = encoded (Utf8.encode (join (codes "\n") (l ∷ ls)))

unfoldable pub build_notify_message : Bool → Bool → Option Text → Result NotifyError (List ℕ)
unfolding notify_lines join
build_notify_message ready watchdog status = message_of (notify_lines ready watchdog status)

-- The address of the socket: `@` stands for the abstract name space.
unfoldable pub socket_address : Text → Text
socket_address [] = []
socket_address (c ∷ cs) = if c == b'@' then 0 ∷ cs else c ∷ cs

abbrev sent_to :
    Bool → Text → Result NotifyError (List ℕ) → Result NotifyError (Option (Text × List ℕ))
sent_to delivered path (err e) = err e
sent_to false path (ok message) = err os_error
sent_to true path (ok message) = ok (some (socket_address path, message))

-- `notify`, given NOTIFY_SOCKET and whether the socket is made, `connect` and `send` succeed: the
-- datagram that it sends and where to, if it sends one.
unfoldable pub notify :
    Bool → Option Text → Bool → Bool → Option Text → Result NotifyError (Option (Text × List ℕ))
unfolding build_notify_message socket_address
notify delivered none ready watchdog status = ok none
notify delivered (some []) ready watchdog status = ok none
notify delivered (some (c ∷ cs)) ready watchdog status =
    sent_to delivered (c ∷ cs) (build_notify_message ready watchdog status)
