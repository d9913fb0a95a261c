-- ===== src/Net/TcpServer.antt =====
-- `TcpServer` (net/tcp_server.cpp): its listening sockets, by their addresses, and its state. Whether a
-- socket binds and listens is a parameter, since the system decides it; what `start` accepts, the
-- schedulers and the log are left out.
use xzmjx_rpc.Prelude.{
  ◌≡◌, ap, sym, ◌∙◌, List, [], ◌∷◌, ◌++◌, append-nil, append_assoc, Bool, true, false, ◌&&◌,
  if◌then◌else◌, ◌==◌, length, Bool-cases, inl, inr,
}

pub record TcpServer (A : Type 0) : Type 0 where
  pub listen_socks : List A
  pub is_stop : Bool

module _ {A : Type 0} where
  -- `TcpServer::TcpServer`
  unfoldable pub new_server : TcpServer A
  new_server = record { listen_socks = []; is_stop = true }

  -- `start`: true also where it runs already; the addresses that are accepted on from now.
  unfoldable pub start : TcpServer A → List A × TcpServer A
  start s = if s.is_stop then (s.listen_socks, record s { is_stop = false }) else ([], s)

  -- `stop`, its coroutine included.
  unfoldable pub stop : TcpServer A → TcpServer A
  stop s = record { listen_socks = []; is_stop = true }

module _ {A : Type 0} (bound listens : A → Bool) where
  -- The loop of `bind`: the addresses that failed, and the sockets that listen.
  unfoldable pub bind_loop : List A → List A → List A → List A × List A
  bind_loop [] fails socks = (fails, socks)
  bind_loop (addr ∷ addrs) fails socks =
      let failed = bind_loop addrs (fails ++ (addr ∷ [])) socks in
      let listening = bind_loop addrs fails (socks ++ (addr ∷ [])) in
      if bound addr then (if listens addr then listening else failed) else failed

  -- `bind(addrs, fails)`: whether it succeeds, the failed addresses, and the server.
  unfoldable pub bind : List A → List A → TcpServer A → Bool × List A × TcpServer A
  unfolding bind_loop
  bind addrs fails s =
      let r = bind_loop addrs fails s.listen_socks in
      if length r.0 == 0
      then (true, r.0, record s { listen_socks = r.1 })
      else (false, r.0, record s { listen_socks = [] })

  -- The addresses whose sockets do not bind and listen, and those whose sockets do.
  abbrev pub usable : List A → List A
  usable [] = []
  usable (addr ∷ addrs) = if bound addr && listens addr then addr ∷ usable addrs else usable addrs

  abbrev pub unusable : List A → List A
  unusable [] = []
  unusable (addr ∷ addrs) =
      if bound addr && listens addr then unusable addrs else addr ∷ unusable addrs

  bind_loop_lem :
      (addrs fails socks : List A)
      → bind_loop addrs fails socks ≡ (fails ++ unusable addrs, socks ++ usable addrs)
  unfolding bind_loop
  bind_loop_lem [] fails socks = λ i. (sym (append-nil fails) i, sym (append-nil socks) i)
  bind_loop_lem (addr ∷ addrs) fails socks = elim (Bool-cases (bound addr)) [
    | inl b ↦ elim (Bool-cases (listens addr)) [
      | inl l ↦
          rw (b, l)
            (bind_loop_lem addrs fails (socks ++ (addr ∷ []))
              ∙ ap (λ x. (fails ++ unusable addrs, x))
                  (append_assoc socks (addr ∷ []) (usable addrs)))
      | inr l ↦
          rw (b, l)
            (bind_loop_lem addrs (fails ++ (addr ∷ [])) socks
              ∙ ap (λ x. (x, socks ++ usable addrs))
                  (append_assoc fails (addr ∷ []) (unusable addrs)))
    ]
    | inr b ↦ rw b (
        bind_loop_lem addrs (fails ++ (addr ∷ [])) socks
        ∙ ap (λ x. (x, socks ++ usable addrs)) (append_assoc fails (addr ∷ []) (unusable addrs)))
  ]

  -- `bind` is all or nothing, and more: it reports the addresses that do not bind and listen behind
  -- those that `fails` held, and adds all others in their order if there are none; if there is one,
  -- the server listens nowhere, on the addresses of an earlier `bind` neither.
  pub bind_lem :
      (addrs fails : List A) (s : TcpServer A)
      → bind addrs fails s ≡ (
          if length (fails ++ unusable addrs) == 0
          then (
            true,
            fails ++ unusable addrs,
            record s { listen_socks = s.listen_socks ++ usable addrs },
          )
          else (false, fails ++ unusable addrs, record s { listen_socks = [] }))
  unfolding bind
  bind_lem addrs fails s =
      ap
        (λ (r : List A × List A).
          if length r.0 == 0
          then (true, r.0, record s { listen_socks = r.1 })
          else (false, r.0, record s { listen_socks = [] }))
        (bind_loop_lem addrs fails s.listen_socks)
