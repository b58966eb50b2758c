-- ===== src/P2p/Availability.antt =====
-- What sources see of castd/p2p/dbus_go.py and castd/p2p/wfd_ie.py together.
use miracast_device.Base.{◌≡◌, Bool, [], ◌∷◌, some, ok, arith, replicate, if◌then◌else◌}
use miracast_device.Wfd.{Bytes, build_wfd_ies, to_dbus_byte_array}
use miracast_device.Wfd.Subelements.{read_subelements, read_device_info, build_wfd_ies_read}
use miracast_device.P2p.{Bus, P2PGroupOwner, set_session_available, publish_wfd_ies}

-- A source that reads the element finds a primary sink at port 7236, with the session available or
-- not.
pub record Announces (bytes : Bytes) (available : Bool) : Type 0 where
  pub payload : Bytes
  pub framed : read_subelements 2 bytes ≡ some ((0, payload) ∷ (6, replicate 7 0) ∷ [])
  pub info :
      read_device_info payload
      ≡ some (record {
        device_type = 1;
        coupled_sink_bits = 0;
        availability = if available then 1 else 0;
        capability_bits = 0;
        control_port = 7236;
        throughput = 50;
      })

-- Announcing the sink as free or busy never raises: where wpa_supplicant takes the property, its
-- WFD element reads as a primary sink at port 7236 with that availability; where it does not, the
-- element stays as it was.
pub set_session_available-Announces :
    (bus : Bus) (available : Bool) (o : P2PGroupOwner)
    → (bytes : Bytes) × Announces bytes available
      × (set_session_available bus available o
          ≡ (ok tt, if bus.set_wfd_ies bytes then record o { wfd_ies = some bytes } else o))
set_session_available-Announces bus available o =
    let (bytes, payload, built, framed, info) =
      build_wfd_ies_read 7236 50 available (omega arith) (omega arith) in
    (bytes, record { payload = payload; framed = framed; info = info }, set_with built)
  where
    set_with :
        {bytes : Bytes}
        → build_wfd_ies 7236 50 available ≡ ok bytes
        → set_session_available bus available o
          ≡ (ok tt, if bus.set_wfd_ies bytes then record o { wfd_ies = some bytes } else o)
    set_with built =
        unfold set_session_available publish_wfd_ies to_dbus_byte_array in ground (arith, built)
