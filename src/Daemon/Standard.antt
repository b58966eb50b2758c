-- ===== src/Daemon/Standard.antt =====
-- A whole Miracast session of castd/main.py with a source that writes its messages the way the WFD
-- standard does.
use miracast_device.Base.{
  ℕ, ◌<◌, ◌≡◌, refl, ap, Bool, List, [], ◌∷◌, ◌++◌, Text, length, map, decimal, arith,
}
use miracast_device.Arbiter.{idle}
use miracast_device.Rtsp.{WfdCapabilities, ok_response, crlf}
use miracast_device.Rtsp.Encodable.{IsPlain, IsWordClass}
use miracast_device.Rtsp.Texts.{IsPlainSetup}
use miracast_device.Session.{Recv, Channel}
use miracast_device.Session.Turns.{At}
use miracast_device.Session.Handshake.{bytes_of, agreed_with, replies}
use miracast_device.Session.KeepAlive.{messages, acknowledged}
use miracast_device.Session.Standard.{Script, IsScript, standard, given, standard-IsConforming}
use miracast_device.Session.Responses.{KnowsDigits}
use miracast_device.Session.Upkeep.{
  keep_alives, keep_alives-AreRequests, teardown, teardown-IsAnswered, is_teardown-teardown,
}
use miracast_device.Daemon.{Daemon}
use miracast_device.Daemon.Consistent.{IsConsistent}
use miracast_device.Daemon.Conducted.{Conducted, run_source_session-Conducted}

-- What acknowledges the request of a number.
abbrev pub acknowledgement : ℕ → Text
acknowledgement k = ok_response (decimal k) crlf

acknowledged-keep_alives :
    (ks : List ℕ) (k : ℕ)
    → acknowledged (keep_alives ks) ++ acknowledgement k ∷ [] ≡ map acknowledgement (ks ++ k ∷ [])
acknowledged-keep_alives [] k = refl
acknowledged-keep_alives (j ∷ ks) k =
    ap (λ r. acknowledgement j ∷ r) (acknowledged-keep_alives ks k)

length-keep_alives : (ks : List ℕ) → length (keep_alives ks) ≡ length ks
length-keep_alives [] = refl
length-keep_alives (k ∷ ks) = omega (arith, length-keep_alives ks)

-- A session with a source that writes standard messages, on a consistent daemon that nobody presents
-- on: whatever the numbers of its messages, its port below 65536, its session, the parameters of its
-- M3 and M4 (in ASCII and below 100,000 characters), the keep-alives before its TEARDOWN, and the
-- pieces in which its bytes arrive, if no send fails and the fuel is more than the number of
-- keep-alives. The handshake returns with this port and this session, the pipeline runs and the
-- arbiter is in the Miracast state, the source is sent exactly its answers and one acknowledgement
-- for each keep-alive and the TEARDOWN, with their numbers and in their order, nothing behind the
-- TEARDOWN is read, and the session returns with the room free again.
pub run_source_session_standard :
    (is_word : ℕ → Bool) (caps : WfdCapabilities) (fuel : ℕ) (ip : Text) (s : Script) (ks : List ℕ)
    (k : ℕ) (tail : Text) (sent : List Text) (rs : List Recv) (c : Channel) (d : Daemon)
    → IsConsistent d
    → d.arbiter ≡ idle
    → IsWordClass is_word
    → KnowsDigits is_word
    → IsPlainSetup caps
    → IsPlain ip
    → IsScript s
    → length ks < fuel
    → At rs (bytes_of (standard s) (messages (keep_alives ks) ++ (teardown k ++ tail))) sent c
    → Conducted is_word caps fuel ip
        (agreed_with caps 1028 (standard s) (given s))
        tail
        (sent
          ++ (replies caps 1028 ip (standard s) (given s) ++ map acknowledgement (ks ++ k ∷ [])))
        rs
        c
        d
run_source_session_standard is_word caps fuel ip s ks k tail sent rs c d h i words knows plain
      plain_ip script enough at =
    rw (← acknowledged-keep_alives ks k) (
      run_source_session-Conducted is_word caps fuel ip (standard s) (given s) (keep_alives ks)
        (teardown k) (acknowledgement k ∷ []) tail sent rs c d h i words plain plain_ip
        (standard-IsConforming is_word s knows script) (keep_alives-AreRequests ks)
        (teardown-IsAnswered k) (is_teardown-teardown k)
        (omega (arith, length-keep_alives ks, enough)) at)
