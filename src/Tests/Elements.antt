-- ===== src/Tests/Elements.antt =====
-- Concrete information elements of castd/p2p/wfd_ie.py.
use miracast_device.Base.{◌≡◌, true, [], ◌∷◌, some, ok, replicate, arith}
use miracast_device.Wfd.{Bytes, build_wfd_ies}
use miracast_device.Wfd.Subelements.{read_subelements, read_device_info, build_wfd_ies_read}

build_wfd_ies_read_example :
    (bytes payload : Bytes) × (build_wfd_ies 7236 50 true ≡ ok bytes)
    × (read_subelements 2 bytes ≡ some ((0, payload) ∷ (6, replicate 7 0) ∷ []))
    × (read_device_info payload
        ≡ some (record {
          device_type = 1;
          coupled_sink_bits = 0;
          availability = 1;
          capability_bits = 0;
          control_port = 7236;
          throughput = 50;
        }))
build_wfd_ies_read_example = build_wfd_ies_read 7236 50 true (omega arith) (omega arith)
