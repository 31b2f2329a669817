-- ===== src/Receive.antt =====
-- WTP.c, `CWReceiveMessage`: datagrams are parsed until one completes a message.
pub mod AnyOrder
pub mod RoundTrip
pub mod Whole
use sicapwap.Prelude.{
  ℕ, zero, suc, ◌+◌, ◌-◌, Bool, List, [], ◌∷◌, ◌++◌, length, replicate, ltb, if◌then◌else◌,
}
use sicapwap.Exec.{
  ErrorCode, success, out_of_memory, wrong_arg, interrupted, need_resource, comunicating, creating,
  general, operation_aborted, sending, receiving, invalid_format, time_expired, none_pending,
}
use sicapwap.Message.{Message}
use sicapwap.Reassembly.{Reply, complete, failed, broken, Fragment, parse_fragment}

abbrev pub buffer_size : ℕ
buffer_size = 65536

-- The packet at the head of `gPacketReceiveList`, and how many allocations succeed while it is
-- parsed.
pub record Datagram : Type 0 where
  pub packet : List ℕ
  pub grants : ℕ

-- The result of `CWReceiveMessage`, with the packets that are left. `waiting`: no packet is there,
-- and the fragments are kept for the next. `stuck`: an access outside a buffer, or a loop that does not
-- end.
pub data Received : Type 0 where
  received : Bool → Message → List Datagram → Received
  not_received : ErrorCode → List Datagram → Received
  waiting : List Fragment → Received
  stuck : Received

-- `CW_ZERO_MEMORY` and `CW_COPY_MEMORY`.
unfoldable pub filled_buffer : List ℕ → List ℕ
filled_buffer packet = packet ++ replicate (buffer_size - length packet) 0

-- What one round does with the reply; `again` are the rounds that follow, with the fragments that
-- are kept.
unfoldable pub after_reply : Reply × List Fragment → List Datagram → Received → Received
after_reply (complete flag m, fs) ds again = received flag m ds
after_reply (failed need_resource, fs) ds again = again
after_reply (failed success, fs) ds again = not_received success ds
after_reply (failed out_of_memory, fs) ds again = not_received out_of_memory ds
after_reply (failed wrong_arg, fs) ds again = not_received wrong_arg ds
after_reply (failed interrupted, fs) ds again = not_received interrupted ds
after_reply (failed comunicating, fs) ds again = not_received comunicating ds
after_reply (failed creating, fs) ds again = not_received creating ds
after_reply (failed general, fs) ds again = not_received general ds
after_reply (failed operation_aborted, fs) ds again = not_received operation_aborted ds
after_reply (failed sending, fs) ds again = not_received sending ds
after_reply (failed receiving, fs) ds again = not_received receiving ds
after_reply (failed invalid_format, fs) ds again = not_received invalid_format ds
after_reply (failed time_expired, fs) ds again = not_received time_expired ds
after_reply (failed none_pending, fs) ds again = not_received none_pending ds
after_reply (broken, fs) ds again = stuck

-- `CW_REPEAT_FOREVER`, by the packets that arrive. A packet that is longer than the buffer is copied
-- behind its end.
unfoldable pub receive_message : List Datagram → List Fragment → Received
receive_message [] fs = waiting fs
receive_message (d ∷ ds) fs =
    let reply = parse_fragment (filled_buffer d.packet) (length d.packet) fs d.grants in
    let again = receive_message ds reply.1 in
    if ltb buffer_size (length d.packet) then stuck else after_reply reply ds again
