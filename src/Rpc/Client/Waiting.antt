-- ===== src/Rpc/Client/Waiting.antt =====
-- What a caller of `RpcClient` waits for (rpc/rpc_client.h, rpc/rpc_client.cpp): its request goes out
-- through `handleSend`, and its answer comes in through `handleRecv` and its own channel.
use xzmjx_rpc.Prelude.{
  ℕ, suc, ◌%◌, ◌^◌, ◌≡◌, refl, ap, ◌∙◌, List, [], ◌∷◌, ◌++◌, Option, none, some, Bool-cases, inl,
  inr, true, false, not, ◌||◌, ◌==◌, ==_self,
}
use xzmjx_rpc.Rpc.Protocol.Defs.{Protocol, create_plain}
use xzmjx_rpc.Rpc.Protocol.MessageType
use xzmjx_rpc.Rpc.Client.Defs.{
  Client, Call, insert_call, find_call, put_call, begin_call, handle_send, handle_recv,
  handle_method_response,
}

-- `recv_chan >> rsp`, of a channel that is in the table.
unfoldable pub take_answer : Option (List Protocol) → Option Protocol
take_answer none = none
take_answer (some []) = none
take_answer (some (rsp ∷ more)) = some rsp

-- What a call finds in its channel, once a message has been received; none is a timeout.
unfoldable pub awaited : ℕ → Client → Option Protocol → Option Protocol
unfolding take_answer find_call handle_recv
awaited id c none = none
awaited id c (some rsp) = take_answer (find_call id (handle_recv (some rsp) c).outstanding_call)

find_call-insert_call :
    (id : ℕ) (m : List Call) → find_call id m ≡ none → find_call id (insert_call id m) ≡ some []
unfolding find_call insert_call
find_call-insert_call id [] h = rw (==_self id) refl
find_call-insert_call id ((i, q) ∷ m) h = elim (Bool-cases (i == id)) [
  | inl e ↦ cc (rw e at h)
  | inr e ↦ rw (e, e) (find_call-insert_call id m (rw e at h))
]

find_call-put_call :
    (id : ℕ) (msg : Protocol) (m : List Call) (q : List Protocol)
    → find_call id m ≡ some q
    → find_call id (put_call id msg m) ≡ some (q ++ (msg ∷ []))
unfolding find_call put_call
find_call-put_call id msg [] q h = cc
find_call-put_call id msg ((i, r) ∷ m) q h = elim (Bool-cases (i == id)) [
  | inl e ↦ rw (e, e) (ap (λ (o : Option (List Protocol)). o) (grown r q (rw e at h)))
  | inr e ↦ rw (e, e) (find_call-put_call id msg m q (rw e at h))
]
  where
    grown :
        (r q : List Protocol)
        → ◌≡◌ {A = Option (List Protocol)} (some r) (some q)
        → ◌≡◌ {A = Option (List Protocol)} (some (r ++ (msg ∷ []))) (some (q ++ (msg ∷ [])))
    grown r q h = ap (λ o. elim o [ none ↦ none | some l ↦ some (l ++ (msg ∷ [])) ]) h

received :
    (c : Client) (rsp : Protocol)
    → rsp.type ≡ MessageType.rpc_method_response
    → find_call rsp.seq c.outstanding_call ≡ some []
    → handle_recv (some rsp) c
      ≡ record c { outstanding_call = put_call rsp.seq rsp c.outstanding_call }
unfolding handle_recv handle_method_response
received c rsp t found =
    let heartbeat : (rsp.type == MessageType.rpc_heartbeat) ≡ false =
      ap (λ n. n == MessageType.rpc_heartbeat) t in
    let response : (rsp.type == MessageType.rpc_method_response) ≡ true =
      ap (λ n. n == MessageType.rpc_method_response) t in
    rw (heartbeat, response, found, handle_method_response) refl

-- The answer to a call that waits is what it finds in its channel.
pub awaited_lem :
    (id : ℕ) (c : Client) (rsp : Protocol)
    → rsp.type ≡ MessageType.rpc_method_response
    → rsp.seq ≡ id
    → find_call id c.outstanding_call ≡ some []
    → awaited id c (some rsp) ≡ some rsp
unfolding awaited
awaited_lem id c rsp t s h =
    let found = ap (λ i. find_call i c.outstanding_call) s ∙ h in
    ap take_answer (
      ap (λ (d : Client). find_call id d.outstanding_call) (received c rsp t found)
      ∙ ap (λ i. find_call id (put_call i rsp c.outstanding_call)) s
      ∙ find_call-put_call id rsp c.outstanding_call [] h)

-- A client with a connection, whose channel is empty and whose next number is free.
pub record IsIdle (c : Client) : Type 0 where
  pub connected : c.has_session ≡ true
  pub is_open : c.is_closed ≡ false
  pub nothing_queued : c.chan ≡ []
  pub free : find_call c.seq_id c.outstanding_call ≡ none

-- The client once its request has been taken out of its channel.
abbrev pub waiting : Client → Client
waiting c = record c {
  seq_id = suc c.seq_id % 2 ^ 64;
  outstanding_call = insert_call c.seq_id c.outstanding_call;
  chan = [];
}

pub begin_call-send :
    (content : List ℕ) (c : Client)
    → IsIdle c
    → ((begin_call content c).0 ≡ some c.seq_id)
      × (handle_send (begin_call content c).1
          ≡ (some (create_plain MessageType.rpc_method_request content c.seq_id), waiting c))
unfolding begin_call handle_send
begin_call-send content c idle =
    let ready : (not c.has_session || c.is_closed) ≡ false =
      rw (idle.connected, idle.is_open) refl in
    (rw ready refl, rw (ready, idle.nothing_queued) refl)

pub waiting-free :
    (c : Client) → IsIdle c → find_call c.seq_id (waiting c).outstanding_call ≡ some []
waiting-free c idle = find_call-insert_call c.seq_id c.outstanding_call idle.free
