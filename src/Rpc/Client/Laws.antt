-- ===== src/Rpc/Client/Laws.antt =====
-- The table of outstanding calls of `RpcClient` (rpc/rpc_client.h, rpc/rpc_client.cpp) under every
-- interleaving of its coroutines, and what a call returns.
use xzmjx_rpc.Prelude.{
  ℕ, suc, ◌%◌, ◌^◌, ◌≤◌, ◌<◌, ◌≡◌, refl, ap, sym, ◌∙◌, List, [], ◌∷◌, ◌++◌, Option, none, some,
  Bool, true, false, if◌then◌else◌, ◌==◌, not, ◌||◌, All, Bool-cases, Option-cases, inl, inr, arith,
  ==→eq, ne→==, length, Outcome, ok, threw, crashed, stuck, ◌>>=◌,
}
use xzmjx_rpc.ByteArray.Defs.{ByteArray, Endian}
use xzmjx_rpc.Serializer.Defs.{Ty, Value, of_string, deserialize}
use xzmjx_rpc.Serializer.RoundTrip.{Fits, format}
use xzmjx_rpc.Serializer.Transfer.{transfer}
use xzmjx_rpc.Rpc.Protocol.Defs.{Protocol, Context}
use xzmjx_rpc.Rpc.Protocol.ErrCode
use xzmjx_rpc.Rpc.Protocol.MessageType
use xzmjx_rpc.Rpc.Registry.Defs.{caught}
use xzmjx_rpc.Rpc.Client.Defs.{
  Call, Client, new_client, connect, close, insert_call, erase_call, find_call, put_call,
  begin_call, end_call, handle_method_response, on_heartbeat_timer, handle_recv, handle_send,
  call_result, parsed_result, value_or,
}

-- Every call of the table has a number below `n`, and the answers in its channel are its own.
abbrev Good : ℕ → List Call → Type 0
Good n [] = Unit {0}
Good n ((i, q) ∷ m) = (i < n) × All (λ (p : Protocol). p.seq ≡ i) q × Good n m

Good-mono : (a b : ℕ) (m : List Call) → a ≤ b → Good a m → Good b m
Good-mono a b [] h g = tt
Good-mono a b ((i, q) ∷ m) h g = (omega arith, g.1, Good-mono a b m h g.2)

insert_call-Good : (n id : ℕ) (m : List Call) → id < n → Good n m → Good n (insert_call id m)
unfolding insert_call
insert_call-Good n id [] h g = (h, tt, tt)
insert_call-Good n id ((i, q) ∷ m) h g = elim (Bool-cases (i == id)) [
  | inl e ↦ rw e g
  | inr e ↦ rw e (g.0, g.1, insert_call-Good n id m h g.2)
]

erase_call-Good : (n id : ℕ) (m : List Call) → Good n m → Good n (erase_call id m)
unfolding erase_call
erase_call-Good n id [] g = tt
erase_call-Good n id ((i, q) ∷ m) g = elim (Bool-cases (i == id)) [
  | inl e ↦ rw e (erase_call-Good n id m g.2)
  | inr e ↦ rw e (g.0, g.1, erase_call-Good n id m g.2)
]

All-snoc :
    (i : ℕ) (p : Protocol) (q : List Protocol)
    → All (λ (p : Protocol). p.seq ≡ i) q
    → p.seq ≡ i
    → All (λ (p : Protocol). p.seq ≡ i) (q ++ (p ∷ []))
All-snoc i p [] h e = (e, tt)
All-snoc i p (x ∷ q) h e = (h.0, All-snoc i p q h.1 e)

put_call-Good :
    (n : ℕ) (msg : Protocol) (m : List Call) → Good n m → Good n (put_call msg.seq msg m)
unfolding put_call
put_call-Good n msg [] g = tt
put_call-Good n msg ((i, q) ∷ m) g = elim (Bool-cases (i == msg.seq)) [
  | inl e ↦ rw e (g.0, All-snoc i msg q g.1 (sym (==→eq i msg.seq e)), g.2)
  | inr e ↦ rw e (g.0, g.1, put_call-Good n msg m g.2)
]

-- One step of a coroutine: a call that begins or ends, a message or the end of the connection, a
-- message that is sent, the heartbeat's timer, `connect` and `close`. Sequence numbers have not run out.
pub data Step (c : Client) : Client → Type 0 where
  call : (content : List ℕ) → suc c.seq_id < 2 ^ 64 → Step c (begin_call content c).1
  finish : (id : ℕ) → Step c (end_call id c)
  receive : (msg : Option Protocol) → Step c (handle_recv msg c)
  send : Step c (handle_send c).1
  timer : Step c (on_heartbeat_timer c)
  connects : (connected : Bool) → Step c (connect connected c).1
  shut : Step c (close c)

pub data Reach (c : Client) : Client → Type 0 where
  here : Reach c c
  next : {d e : Client} → Reach c d → Step d e → Reach c e

abbrev IsGood : Client → Type 0
IsGood c = Good c.seq_id c.outstanding_call

close-IsGood : (c : Client) → IsGood c → IsGood (close c)
unfolding close
close-IsGood c g = elim (Bool-cases c.is_closed) [ inl e ↦ rw e g | inr e ↦ rw e g ]

begin_call-IsGood :
    (content : List ℕ) (c : Client)
    → suc c.seq_id < 2 ^ 64
    → IsGood c
    → IsGood (begin_call content c).1
unfolding begin_call
begin_call-IsGood content c h g = elim (Bool-cases (not c.has_session || c.is_closed)) [
  | inl e ↦ rw e g
  | inr e ↦
      let n : suc c.seq_id % 2 ^ 64 ≡ suc c.seq_id = omega arith in
      rw (e, n)
        (insert_call-Good (suc c.seq_id) c.seq_id c.outstanding_call (omega arith)
          (Good-mono c.seq_id (suc c.seq_id) c.outstanding_call (omega arith) g))
]

handle_method_response-IsGood :
    (msg : Protocol) (c : Client) → IsGood c → IsGood (handle_method_response msg c)
unfolding handle_method_response
handle_method_response-IsGood msg c g = elim (Option-cases (find_call msg.seq c.outstanding_call)) [
  | inl e ↦ rw (e, handle_method_response) g
  | inr (q, e) ↦ rw (e, handle_method_response) (put_call-Good c.seq_id msg c.outstanding_call g)
]

handle_recv-IsGood : (msg : Option Protocol) (c : Client) → IsGood c → IsGood (handle_recv msg c)
unfolding handle_recv
handle_recv-IsGood none c g = close-IsGood c g
handle_recv-IsGood (some msg) c g = elim (Bool-cases (msg.type == MessageType.rpc_heartbeat)) [
  | inl e ↦ rw e g
  | inr e ↦ elim (Bool-cases (msg.type == MessageType.rpc_method_response)) [
    | inl r ↦ rw (e, r) (handle_method_response-IsGood msg c g)
    | inr r ↦ rw (e, r) g
  ]
]

handle_send-IsGood : (c : Client) → IsGood c → IsGood (handle_send c).1
unfolding handle_send
handle_send-IsGood c g = go c.chan
  where
    go :
        (l : List Protocol)
        → let r : Option Protocol × Client = elim l [
          | [] ↦ (none, c)
          | msg ∷ msgs ↦ (some msg, record c { chan = msgs })
        ] in
          IsGood r.1
    go [] = g
    go (msg ∷ msgs) = g

if-IsGood : (b : Bool) (c d : Client) → IsGood c → IsGood d → IsGood (if b then c else d)
if-IsGood true c d g h = g
if-IsGood false c d g h = h

Step-IsGood : {c d : Client} → Step c d → IsGood c → IsGood d
unfolding end_call connect on_heartbeat_timer
Step-IsGood {c} (call content h) g = begin_call-IsGood content c h g
Step-IsGood {c} (finish id) g = erase_call-Good c.seq_id id c.outstanding_call g
Step-IsGood {c} (receive msg) g = handle_recv-IsGood msg c g
Step-IsGood {c} send g = handle_send-IsGood c g
Step-IsGood {c} timer g = if-IsGood c.heartbeat_response _ (close c) g (close-IsGood c g)
Step-IsGood (connects true) g = g
Step-IsGood (connects false) g = g
Step-IsGood {c} shut g = close-IsGood c g

Reach-IsGood : {c d : Client} → Reach c d → IsGood c → IsGood d
Reach-IsGood here g = g
Reach-IsGood (next r st) g = Step-IsGood st (Reach-IsGood r g)

find_call-Good :
    (n id : ℕ) (m : List Call) (q : List Protocol)
    → Good n m
    → find_call id m ≡ some q
    → (id < n) × All (λ (p : Protocol). p.seq ≡ id) q
unfolding find_call
find_call-Good n id [] q g e = cc
find_call-Good n id ((i, r) ∷ m) q g e = elim (Bool-cases (i == id)) [
  | inl h ↦
      let same_id = ==→eq i id h in
      let same_q : r ≡ q = cc (rw h at e) in rw (← same_id, ← same_q) (g.0, g.1)
  | inr h ↦ find_call-Good n id m q g.2 (rw h at e)
]

fresh : (n : ℕ) (m : List Call) → Good n m → find_call n m ≡ none
unfolding find_call
fresh n [] g = refl
fresh n ((i, q) ∷ m) g = rw (ne→== i n (omega arith)) (fresh n m g.2)

-- However the coroutines of a client interleave, and whatever messages arrive: in every state that a
-- new client reaches, the answers that wait in the channel of a call carry the call's sequence
-- number, which has been given out; and the next number is not in use. So no call gets the answer of
-- another, and no two calls share a channel.
pub outstanding_call-IsSafe :
    (c : Client) (id : ℕ) (q : List Protocol)
    → Reach new_client c
    → find_call id c.outstanding_call ≡ some q
    → (id < c.seq_id)
      × All (λ (p : Protocol). p.seq ≡ id) q
      × (find_call c.seq_id c.outstanding_call ≡ none)
unfolding new_client
outstanding_call-IsSafe c id q r e =
    let g : IsGood c = Reach-IsGood r tt in
    let (lt, own) = find_call-Good c.seq_id id c.outstanding_call q g e in
    (lt, own, fresh c.seq_id c.outstanding_call g)

pub parsed_lem :
    (native : Endian) (memory : ℕ → ℕ) (t : Ty) (v : Value t) (what : List ℕ) (context : Context)
    (payload : List ℕ) (s : ByteArray)
    → (of_string memory payload >>= deserialize native t) ≡ ok (v, s)
    → parsed_result native memory t what context payload ≡ ok (some v, context)
unfolding parsed_result caught value_or
parsed_lem native memory t v what context payload s e = go (of_string memory payload) e
  where
    go :
        (o : Outcome ByteArray)
        → (o >>= deserialize native t) ≡ ok (v, s)
        → (o >>= λ s'. caught (deserialize native t s') >>= λ r. ok (value_or t what context r))
          ≡ ok (some v, context)
    go (ok s') e = ap (λ d. caught d >>= λ r. ok (value_or t what context r)) e
    go (threw x) e = cc
    go crashed e = cc
    go stuck e = cc

pub success_lem :
    (native : Endian) (memory : ℕ → ℕ) (t : Ty) (name what : List ℕ) (rsp : Protocol)
    → rsp.err_code ≡ ErrCode.rpc_success
    → call_result native memory t name what (some rsp)
      ≡ parsed_result native memory t what
          (record { code = rsp.err_code; msg = rsp.err_msg })
          rsp.payload
unfolding call_result
success_lem native memory t name what rsp e = simp e

-- A call whose answer says `kRpcSuccess` and carries the value's format, of fewer than 4096 bytes,
-- returns the value and the answer's code and text, for every type of value but `void`, an empty tuple included, whatever the
-- byte order of the host that wrote it.
pub call_result_lem :
    (native : Endian) (memory : ℕ → ℕ) (t : Ty) (v : Value t) (name what : List ℕ) (rsp : Protocol)
    → Fits t v
    → length (format t v) < 4096
    → rsp.err_code ≡ ErrCode.rpc_success
    → rsp.payload ≡ format t v
    → call_result native memory t name what (some rsp)
      ≡ ok (some v, record { code = rsp.err_code; msg = rsp.err_msg })
unfolding call_result parsed_result
call_result_lem native memory t v name what rsp fits small good e =
    let context : Context = record { code = rsp.err_code; msg = rsp.err_msg } in
    let (_, back) = transfer native native memory memory t v fits small in
    success_lem native memory t name what rsp good
    ∙ ap (parsed_result native memory t what context) e
    ∙ parsed_lem native memory t v what context (format t v) _ back
