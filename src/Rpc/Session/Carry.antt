-- ===== src/Rpc/Session/Carry.antt =====
-- A message from one `RpcSession` to another (rpc/rpc_session.cpp): `sendProtocol` on one host,
-- `recvProtocol` on the other, over the system's connection between them.
use xzmjx_rpc.Prelude.{
  ℕ, ◌+◌, ◌^◌, ◌≤◌, ◌<◌, ◌≡◌, refl, ap, sym, ◌∙◌, arith, List, [], ◌∷◌, ◌++◌, append-nil, Bool,
  length, length-append, take, drop, Option, some, true, Outcome, ok, threw, bad_alloc, ◌>>=◌,
}
use xzmjx_rpc.ByteArray.Defs.{Endian}
use xzmjx_rpc.Net.Stream.Defs.{Count, Received, bytes, Socket}
use xzmjx_rpc.Net.Stream.Laws.{Sends}
use xzmjx_rpc.Rpc.Protocol.Defs.{Protocol, create_plain, encode, header_len}
use xzmjx_rpc.Rpc.Protocol.Header.{header_bytes, length-header_bytes}
use xzmjx_rpc.Rpc.Session.Defs.{send_protocol, recv_protocol}
use xzmjx_rpc.Rpc.Session.Laws.{send_protocol_lem, recv_protocol_lem}

-- A connection: the states of its two ends, the system's calls on them, and what the receiving end
-- is once the sending end has come to a state.
pub record Link : Type 1 where
  pub Sender : Type 0
  pub Receiver : Type 0
  pub sendmsg : List ℕ → Sender → Count × Sender
  pub recvmsg : ℕ → Receiver → Received × Receiver
  pub arrive : Sender → Receiver

-- What is relied on of a connection that starts in `x`: what is sent arrives, once and in order, and
-- a receive of no more than has arrived is given all that it asks for.
pub record IsReliable (l : Link) (x : l.Sender) : Type 0 where
  pub delivered : l.Sender → List ℕ
  pub pending : l.Receiver → List ℕ
  pub after : ℕ → l.Receiver → l.Receiver
  pub sends : Sends l.sendmsg delivered
  pub unused : delivered x ≡ []
  pub arrives : (y : l.Sender) → pending (l.arrive y) ≡ delivered y
  pub gives :
      (n : ℕ) (r : l.Receiver)
      → 0 < n
      → n ≤ length (pending r)
      → l.recvmsg n r ≡ (bytes (take n (pending r)), after n r)
  pub leaves : (n : ℕ) (r : l.Receiver) → pending (after n r) ≡ drop n (pending r)

-- What the other host receives of a message; none is a null pointer.
unfoldable pub carry :
    (l : Link)
    → Endian
    → Endian
    → (ℕ → ℕ)
    → (ℕ → ℕ)
    → l.Sender
    → Protocol
    → Outcome (Option Protocol)
unfolding send_protocol recv_protocol
carry l here there memory memory' x msg =
    send_protocol here l.sendmsg memory msg (record { is_connect = true; peer = x }) >>= λ r.
    recv_protocol there l.recvmsg memory' (record { is_connect = true; peer = l.arrive r.1.peer })
    >>= λ q. ok q.0

pub carry_throws :
    (l : Link) (here there : Endian) (memory memory' : ℕ → ℕ) (x : l.Sender) (msg : Protocol)
    → encode here memory msg ≡ threw bad_alloc
    → carry l here there memory memory' x msg ≡ threw bad_alloc
unfolding carry
carry_throws l here there memory memory' x msg e = rw e refl

take-front : (xs ys : List ℕ) → take (length xs) (xs ++ ys) ≡ xs
take-front [] ys = refl
take-front (x ∷ xs) ys = ap (λ l. x ∷ l) (take-front xs ys)

drop-front : (xs ys : List ℕ) → drop (length xs) (xs ++ ys) ≡ ys
drop-front [] ys = refl
drop-front (x ∷ xs) ys = drop-front xs ys

module _ (l : Link) (x : l.Sender) (law : IsReliable l x) where
  -- A receive of the bytes at the front of what has arrived.
  receive :
      (xs ys : List ℕ) (n : ℕ) (r : l.Receiver)
      → n ≡ length xs
      → 0 < n
      → law.pending r ≡ xs ++ ys
      → (l.recvmsg n r ≡ (bytes xs, law.after n r)) × (law.pending (law.after n r) ≡ ys)
  receive xs ys n r e pos p =
      let long : n ≤ length (law.pending r) = omega (arith, e, ap length p, length-append xs ys) in
      (
        law.gives n r pos long
            ∙ ap (λ b. (bytes b, law.after n r))
                (ap (take n) p ∙ ap (λ k. take k (xs ++ ys)) e ∙ take-front xs ys),
        law.leaves n r ∙ ap (drop n) p ∙ ap (λ k. drop k (xs ++ ys)) e ∙ drop-front xs ys,
      )

  -- A plain message, with content that is not empty, is received as it was sent.
  pub carry_lem :
      (here there : Endian) (memory memory' : ℕ → ℕ) (type id : ℕ) (content : List ℕ)
      → type < 256
      → id < 2 ^ 64
      → length content + 20 < 4096
      → 0 < length content
      → carry l here there memory memory' x (create_plain type content id)
        ≡ ok (some (create_plain type content id))
  unfolding carry
  carry_lem here there memory memory' type id content ht hi small pos =
      let msg = create_plain type content id in
      let hb = header_bytes msg in
      let (y, sent, all) =
        send_protocol_lem here memory type id content ht hi small l.sendmsg law.delivered law.sends
          x in
      let frame : law.pending (l.arrive y) ≡ hb ++ content =
        law.arrives y ∙ all ∙ ap (λ d. d ++ (hb ++ content)) law.unused in
      let (first, rest) =
        receive hb content header_len (l.arrive y) (sym (length-header_bytes msg)) (omega arith)
          frame in
      let (second, end) =
        receive content [] (length content) (law.after header_len (l.arrive y)) refl pos
          (rest ∙ sym (append-nil content)) in
      ap
        (λ (o : Outcome (Bool × Socket l.Sender)). o >>= λ r.
          recv_protocol there l.recvmsg memory'
            (record { is_connect = true; peer = l.arrive r.1.peer })
          >>= λ q. ok q.0)
        sent
      ∙ ap (λ (o : Outcome (Option Protocol × Socket l.Receiver)). o >>= λ q. ok q.0)
          (recv_protocol_lem there memory' type id content ht hi small l.recvmsg (l.arrive y)
            (law.after header_len (l.arrive y)) _ pos first second)
