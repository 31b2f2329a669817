-- ===== src/JoinSession/Ignored.antt =====
-- Messages of other types, in the join state and in the data check of the access controller.
use sicapwap.Prelude.{
  ℕ, suc, ◌+◌, ◌<◌, ◌≡◌, ◌≢◌, true, Bool, List, [], length, ne→==, none, false, arith,
}
use sicapwap.Exec.{raised, invalid_format}
use sicapwap.Message.Written.{written}
use sicapwap.Fragment.Control.{message_bytes, joined}
use sicapwap.Receive.RoundTrip.{received-control}
use sicapwap.ElementLoop.{parse_control_message, parse_control_message_twice}
use sicapwap.Join.{JoinRequestValues, join_request, parse_join_request}
use sicapwap.JoinResponse.{Ac}
use sicapwap.ChangeState.{change_state_event_request, parse_change_state_event_request}
use sicapwap.AcSession.{Outside, Session, handled, after_handler, manage_data_check}
use sicapwap.AcSession.DataCheck.{manage_data_check-ignored}
use sicapwap.JoinSession.{JoinSession, manage_join}

module _ (seq_num msg_type : ℕ) (bs : List (List ℕ × ℕ)) (small_seq : seq_num < 256)
    (small_type : msg_type < 4294967296) (small_len : length (joined bs) + 3 < 65536) where
  abbrev bytes : List ℕ
  bytes = message_bytes seq_num msg_type bs []

  no_change_state_event :
      (old k : ℕ)
      → msg_type ≢ change_state_event_request
      → parse_change_state_event_request (written none bytes 0).msg (length bytes) old k
        ≡ raised invalid_format
  unfolding parse_change_state_event_request parse_control_message_twice
  no_change_state_event old k other = rw (
    received-control seq_num msg_type k bs [] small_seq small_type (omega arith),
    ne→== msg_type change_state_event_request other,
  )

  no_join_request :
      (old : JoinRequestValues) (k : ℕ)
      → msg_type ≢ join_request
      → parse_join_request (written none bytes 0).msg (length bytes) old k ≡ raised invalid_format
  unfolding parse_join_request parse_control_message
  no_join_request old k other = rw (
    received-control seq_num msg_type k bs [] small_seq small_type (omega arith),
    ne→== msg_type join_request other,
  )

  -- A control message that is neither a Change State Event nor a Join Request is ignored by a
  -- session of the access controller in both states; in the data check the session has then lost
  -- its timer, which is cancelled before the message is parsed, while in the join state nothing
  -- changes. The timer can be cancelled, and the number, the type and the length fit their fields.
  pub manage-another_type :
      (o : Outside) (id pmtu is_crypted old k j : ℕ) (a : Ac) (got : Bool)
      (values : JoinRequestValues) (s : Session) (t : JoinSession)
      → o.cancelled ≡ true
      → msg_type ≢ change_state_event_request
      → msg_type ≢ join_request
      → (manage_data_check o id pmtu is_crypted old (written none bytes 0) (suc k) s
          ≡ (handled, record s { timer = false }))
        × (manage_join o id pmtu is_crypted a got values (written none bytes 0) j t ≡ (handled, t))
  unfolding manage_join after_handler
  manage-another_type o id pmtu is_crypted old k j a got values s t cancelled no_event no_join = (
    manage_data_check-ignored o id pmtu is_crypted old k (written none bytes 0) s cancelled
        (no_change_state_event old k no_event),
    rw (no_join_request values j no_join),
  )
