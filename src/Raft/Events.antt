-- ===== src/Raft/Events.antt =====
-- consensus/raft.py: everything that changes a `RaftConsensus`, as events. Between two awaits that can
-- suspend a method runs alone, so a life of the node is a list of events, in any order.
use tugas3_sinkronisasi_dist.Common.{ℕ, String, Bool, Option, none, some, List, [], ◌∷◌, Dict}
use tugas3_sinkronisasi_dist.Raft.{LogEntry, Message, Reply, Raft}
use tugas3_sinkronisasi_dist.Raft.Handlers.{
  handle_message, begin_election, finish_election, process_ae_resp, propose, propose_timeout,
}

pub data Event (C : Type 0) : Type 0 where
  message : (now : ℕ) (m : Message C) → Event C
  election_timeout : Event C
  votes : (responses : Dict String (Option Reply)) → Event C
  ae_response :
      (pid : String) (pli : ℕ) (entries : List (LogEntry C)) (term : Option ℕ) (success : Bool)
      → Event C
  proposal : (ticket : ℕ) (command : C) → Event C
  expiry : (ticket index : ℕ) → Event C

module _ {C : Type 0} where
  abbrev pub proposed {ℓ} : {A : Type ℓ} → Option (Raft C × A) → Raft C → Raft C
  proposed none r = r
  proposed (some (r', out)) r = r'

  unfoldable pub step : Event C → Raft C → Raft C
  step (message now m) r = (handle_message now m r).0
  step election_timeout r = (begin_election r).0
  step (votes responses) r = finish_election responses r
  step (ae_response pid pli entries term success) r = process_ae_resp pid pli entries term success r
  step (proposal ticket command) r = proposed (propose ticket command r) r
  step (expiry ticket index) r = propose_timeout ticket index r

  unfoldable pub run : List (Event C) → Raft C → Raft C
  run [] r = r
  run (e ∷ es) r = run es (step e r)
