-- ===== src/Messaging/Encoding.antt =====
-- communication/message_passing.py: a message is read back from its dictionary.
use tugas3_sinkronisasi_dist.Common.{ℕ, some, string_eq, nat_eq, ◌≡◌, ◌≢◌, refl, beq_ne}
use tugas3_sinkronisasi_dist.Messaging.{
  MessageType, type_value, find_type, parse_type, Message, to_dict, from_dict,
}

pub parse_type-type_value : (t : MessageType) → parse_type (type_value t) ≡ some t
unfolding parse_type find_type
parse_type-type_value MessageType.vote_request = refl
parse_type-type_value MessageType.vote_response = refl
parse_type-type_value MessageType.append_entries = refl
parse_type-type_value MessageType.append_entries_response = refl
parse_type-type_value MessageType.heartbeat = refl
parse_type-type_value MessageType.lock_request = refl
parse_type-type_value MessageType.lock_release = refl
parse_type-type_value MessageType.lock_response = refl
parse_type-type_value MessageType.queue_enqueue = refl
parse_type-type_value MessageType.queue_dequeue = refl
parse_type-type_value MessageType.queue_ack = refl
parse_type-type_value MessageType.queue_response = refl
parse_type-type_value MessageType.cache_invalidate = refl
parse_type-type_value MessageType.cache_update = refl
parse_type-type_value MessageType.cache_read = refl
parse_type-type_value MessageType.cache_read_response = refl
parse_type-type_value MessageType.geo_replicate = refl
parse_type-type_value MessageType.geo_replicate_ack = refl
parse_type-type_value MessageType.ping = refl
parse_type-type_value MessageType.pong = refl

-- A message with a timestamp is read back from its dictionary as it was.
pub message_read_back :
    {V : Type 0} (now : ℕ) (m : Message V) → m.timestamp ≢ 0 → from_dict now (to_dict m) ≡ some m
unfolding from_dict to_dict
message_read_back now m timed =
    rw (parse_type-type_value m.msg_type, beq_ne m.timestamp 0 timed) refl
