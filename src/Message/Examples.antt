-- ===== src/Message/Examples.antt =====
-- node.cpp, peer_send_message: a test on a concrete route.
use bfc_tunnel.Base.{
  ℕ, ◌≡◌, inr, refl, true, some, List, arith, All, IsByte, replicate, replicate-All,
}
use bfc_tunnel.Frame.{frame_at, set_payload_type, validate_frame}
use bfc_tunnel.Frame.Algorithms.{integrity_mac_size}
use bfc_tunnel.Frame.Readings.{Reads}
use bfc_tunnel.Message.{Route, peer_message_frame}
use bfc_tunnel.Message.Header.{
  IsSendable, sent_header, peer_message_frame-Reads, peer_message_frame-valid,
}

abbrev test_route : Route
test_route = record { sec_ctx = 3; integrity_algorithm = 2; src = 0xA001; dst = 0xB002; tx_sn = 77 }

test_route-IsSendable : IsSendable test_route
test_route-IsSendable = record {
  sec_ctx_small = omega arith;
  sec_ctx_used = omega arith;
  src_small = omega arith;
  dst_small = omega arith;
  sn_small = omega arith;
  algorithm = inr refl;
}

abbrev test_buffer : List ℕ
test_buffer = replicate 100 255

test_buffer-IsByte : All IsByte test_buffer
test_buffer-IsByte = replicate-All IsByte 100 255 (omega arith)

peer_message_frame-Reads_example :
    Reads
      (frame_at
        (some (set_payload_type (peer_message_frame test_buffer 1700000000 test_route) 5).base)
        60)
      (record (sent_header 1700000000 test_route) { payload_type = some 5 })
peer_message_frame-Reads_example =
    peer_message_frame-Reads test_buffer 1700000000 test_route 5 60 test_buffer-IsByte (omega arith)
      test_route-IsSendable (omega arith) (omega arith)

peer_message_frame-valid_example :
    validate_frame (
      frame_at
        (some (set_payload_type (peer_message_frame test_buffer 1700000000 test_route) 5).base)
        60)
    ≡ true
peer_message_frame-valid_example =
    peer_message_frame-valid test_buffer 1700000000 test_route 5 60 test_buffer-IsByte (omega arith)
      test_route-IsSendable (omega arith) (unfold integrity_mac_size in (omega arith))
