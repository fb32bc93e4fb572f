-- ===== src/Messaging/Tests.antt =====
-- communication/message_passing.py: a send that meets two failures, a message, and the theorems at them.
use tugas3_sinkronisasi_dist.Common.{
  ℕ, zero, suc, String, true, false, Option, none, some, List, [], ◌∷◌, string_eq, insert, lookup,
  ◌≡◌, refl, arith,
}
use tugas3_sinkronisasi_dist.Messaging.{
  vote_request, find_type, parse_type, Message, to_dict, from_dict, Outcome, replied, bad_status,
  timed_out, send_from, max_attempts, send, Peer, replies, broadcast,
}
use tugas3_sinkronisasi_dist.Messaging.Sending.{IsSent, send_lem}

program : Unit {0}
unfolding find_type parse_type to_dict from_dict send_from send replies broadcast insert lookup
program = tt

abbrev outcome : ℕ → Outcome String
outcome zero = timed_out
outcome (suc zero) = bad_status 500
outcome (suc (suc n)) = replied "ok"

sends :
    (send 3 true outcome ≡ record { reply = some "ok"; attempts = 3; delays = 1 ∷ 2 ∷ [] })
    × (send 2 true outcome ≡ record { reply = none; attempts = 2; delays = 1 ∷ [] })
    × (send 3 false outcome ≡ record { reply = none; attempts = 1; delays = [] })
unfolding program
sends = (refl, refl, refl)

send_lem_example : IsSent outcome 0 (max_attempts 3 true) (send 3 true outcome)
send_lem_example = send_lem 3 true outcome (omega arith)

abbrev message : Message ℕ
message = record {
  msg_type = vote_request;
  sender_id = "a";
  content = ("term", 3) ∷ [];
  term = 3;
  timestamp = 7;
}

abbrev peers : List Peer
peers =
    record { node_id = "a"; host = "a"; port = 1 }
    ∷ record { node_id = "b"; host = "b"; port = 2 }
    ∷ record { node_id = "a"; host = "c"; port = 3 }
    ∷ []

abbrev reply : Peer → Option ℕ
reply p = some p.port

replied_by : broadcast reply peers ≡ ("a", some 3) ∷ ("b", some 2) ∷ []
unfolding program
replied_by = refl
