-- ===== src/Messaging.antt =====
-- communication/message_passing.py: `Message` and `MessagePassing`. A message carries a dictionary of
-- values of any type `V`. What the network does with the attempts of one `send` is the argument
-- `outcome`, by the number of the attempt; delays are counted in tenths of a second.
pub mod Sending
pub mod Encoding
pub mod Tests
use Prim.Native.Nat.{◌^◌}
use tugas3_sinkronisasi_dist.Common.{
  ℕ, zero, suc, ◌+◌, ◌-◌, String, Bool, true, false, Option, none, some, List, [], ◌∷◌,
  if◌then◌else◌, string_eq, ◌==◌, nat_eq, ltb, or_else, Dict, insert, ◌>>=◌,
}

pub data MessageType : Type 0 where
  vote_request vote_response append_entries append_entries_response heartbeat : MessageType
  lock_request lock_release lock_response : MessageType
  queue_enqueue queue_dequeue queue_ack queue_response : MessageType
  cache_invalidate cache_update cache_read cache_read_response : MessageType
  geo_replicate geo_replicate_ack ping pong : MessageType

abbrev pub type_value : MessageType → String
type_value vote_request = "vote_request"
type_value vote_response = "vote_response"
type_value append_entries = "append_entries"
type_value append_entries_response = "append_entries_response"
type_value heartbeat = "heartbeat"
type_value lock_request = "lock_request"
type_value lock_release = "lock_release"
type_value lock_response = "lock_response"
type_value queue_enqueue = "queue_enqueue"
type_value queue_dequeue = "queue_dequeue"
type_value queue_ack = "queue_ack"
type_value queue_response = "queue_response"
type_value cache_invalidate = "cache_invalidate"
type_value cache_update = "cache_update"
type_value cache_read = "cache_read"
type_value cache_read_response = "cache_read_response"
type_value geo_replicate = "geo_replicate"
type_value geo_replicate_ack = "geo_replicate_ack"
type_value ping = "ping"
type_value pong = "pong"

abbrev pub message_types : List MessageType
message_types =
    vote_request ∷ vote_response ∷ append_entries ∷ append_entries_response ∷ heartbeat
    ∷ lock_request ∷ lock_release ∷ lock_response ∷ queue_enqueue ∷ queue_dequeue ∷ queue_ack
    ∷ queue_response ∷ cache_invalidate ∷ cache_update ∷ cache_read ∷ cache_read_response
    ∷ geo_replicate ∷ geo_replicate_ack ∷ ping ∷ pong ∷ []

unfoldable pub find_type : String → List MessageType → Option MessageType
find_type text [] = none
find_type text (t ∷ ts) = if type_value t == text then some t else find_type text ts

-- `MessageType(text)`, with `none` for the ValueError
unfoldable pub parse_type : String → Option MessageType
parse_type text = find_type text message_types

pub record Message (V : Type 0) : Type 0 where
  pub msg_type : MessageType
  pub sender_id : String
  pub content : Dict String V
  pub term : ℕ
  pub timestamp : ℕ

-- A message as a dictionary, with `none` for a key that is missing.
pub record MessageData (V : Type 0) : Type 0 where
  pub msg_type : Option String
  pub sender_id : Option String
  pub content : Option (Dict String V)
  pub term : Option ℕ
  pub timestamp : Option ℕ

-- `timestamp or time.time()`
abbrev pub stamp : (now timestamp : ℕ) → ℕ
stamp now timestamp = if timestamp == 0 then now else timestamp

module _ {V : Type 0} where
  -- `Message.__init__`, where a timestamp of 0 stands for none
  abbrev pub new_message :
      (now : ℕ) (msg_type : MessageType) (sender_id : String) (content : Dict String V)
      (term timestamp : ℕ)
      → Message V
  new_message now msg_type sender_id content term timestamp = record {
    msg_type = msg_type;
    sender_id = sender_id;
    content = content;
    term = term;
    timestamp = stamp now timestamp;
  }

  unfoldable pub to_dict : Message V → MessageData V
  to_dict m = record {
    msg_type = some (type_value m.msg_type);
    sender_id = some m.sender_id;
    content = some m.content;
    term = some m.term;
    timestamp = some m.timestamp;
  }

  unfoldable pub from_dict : (now : ℕ) → MessageData V → Option (Message V)
  from_dict now d = do
    text ← d.msg_type
    msg_type ← parse_type text
    sender_id ← d.sender_id
    some (
        new_message now msg_type sender_id (or_else d.content []) (or_else d.term 0)
          (or_else d.timestamp now))

-- What one attempt meets: status 200 with a reply, another status, a timeout, an error of the client,
-- or any other exception.
pub data Outcome (R : Type 0) : Type 0 where
  replied : R → Outcome R
  bad_status : ℕ → Outcome R
  timed_out client_error unexpected : Outcome R

-- What `send` returns, with the attempts it made and the delays it slept.
pub record Sent (R : Type 0) : Type 0 where
  pub reply : Option R
  pub attempts : ℕ
  pub delays : List ℕ

abbrev pub max_attempts : (max_retries : ℕ) (retry : Bool) → ℕ
max_attempts max_retries retry = if retry then max_retries else 1

module _ {R : Type 0} where
  -- An attempt that failed with `delay` slept before the rest.
  abbrev pub slept : (wait : Bool) (delay : ℕ) → Sent R → Sent R
  slept wait delay s = if wait then record s { delays = delay ∷ s.delays } else s

  -- the loop, from an attempt on, with `left` attempts left
  unfoldable pub send_from : (limit : ℕ) (outcome : ℕ → Outcome R) (left attempt : ℕ) → Sent R
  send_from limit outcome zero attempt = record { reply = none; attempts = attempt; delays = [] }
  send_from limit outcome (suc left) attempt =
      let again =
        slept (ltb attempt (limit - 1)) (2 ^ attempt)
          (send_from limit outcome left (attempt + 1)) in
      elim (outcome attempt) [
        | replied r ↦ record { reply = some r; attempts = attempt + 1; delays = [] }
        | unexpected ↦ record { reply = none; attempts = attempt + 1; delays = [] }
        | bad_status status ↦ again
        | timed_out ↦ again
        | client_error ↦ again
      ]

  unfoldable pub send : (max_retries : ℕ) (retry : Bool) (outcome : ℕ → Outcome R) → Sent R
  send max_retries retry outcome =
      let attempts = max_attempts max_retries retry in send_from attempts outcome attempts 0

pub record Peer : Type 0 where
  pub node_id : String
  pub host : String
  pub port : ℕ

-- The replies of the peers, where `reply` is what `send` to a peer returns.
unfoldable pub replies :
    {R : Type 0}
    → (reply : Peer → Option R) → List Peer
    → Dict String (Option R)
    → Dict String (Option R)
replies reply [] results = results
replies reply (peer ∷ peers) results =
    replies reply peers (insert peer.node_id (reply peer) results)

unfoldable pub broadcast :
    {R : Type 0} → (reply : Peer → Option R) → List Peer → Dict String (Option R)
broadcast reply peers = replies reply peers []
