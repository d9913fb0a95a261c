-- ===== src/Net/Socket/Safety.antt =====
-- The life of a `Socket` (net/socket.cpp): any sequence of its operations, from its creation or from
-- `accept`, with the system calls on its descriptor.
use xzmjx_rpc.Prelude.{
  ℕ, ◌≡◌, refl, subst, sym, ap, arith, ◌∙◌, List, [], ◌∷◌, ◌++◌, Option, none, some, Bool, true,
  false, not, ◌&&◌, if◌then◌else◌, Bool-cases, inl, inr, ok,
}
use xzmjx_rpc.ByteArray.Defs.{Endian}
use xzmjx_rpc.Net.Address.Defs.{Address}
use xzmjx_rpc.Net.Socket.Defs.{
  Socket, SysCall, opened, used, Step, Answers, new_socket, is_valid, is_descriptor, get_opt,
  set_opt, get_local_address, get_peer_address, close, close_fd, listen, bind, connect, reconnect,
  init, init_sock, new_sock, accept, send, send_to, recv, recv_from,
}
use xzmjx_rpc.Net.Socket.Laws.{
  run, run-append, IsSound, Leads, Leads-append, use_once, stays, init_sock-Leads, close-Leads,
  get_local_address-Leads, get_peer_address-Leads, bind-Leads, LeadsTo, connect-LeadsTo,
  reconnect-LeadsTo,
}

module _ (native : Endian) where
  -- One operation on a socket, where it returns: the socket after it and its system calls. The
  -- public `newSock` and `init` are called while the socket holds no descriptor, as the class itself
  -- calls them, unless `init` refuses. What `accept` opens is the client's, in the client's life.
  pub data Move : Socket → Socket → List SysCall → Type 0 where
    binding : {s : Socket} (r : Answers) → Move s (bind native r s).1 (bind native r s).2
    listening : {s : Socket} (done : Bool) → Move s (listen done s).1 (listen done s).2
    accepting :
        {s : Socket} (known : Bool) (r : Answers) (client : Option ℕ)
        → Move s s (accept native known r client s).2
    connecting :
        {s : Socket} (timed : Bool) (r : Answers) (addr : Option Address) (q : Step Bool)
        → connect native timed r addr s ≡ ok q
        → Move s q.1 q.2
    reconnecting :
        {s : Socket} (timed : Bool) (r : Answers) (q : Step Bool)
        → reconnect native timed r s ≡ ok q
        → Move s q.1 q.2
    closing : {s : Socket} → Move s (close s).1 (close s).2
    sending : {s : Socket} (result : Option ℕ) → Move s (send result s).1 (send result s).2
    sending_to : {s : Socket} (result : Option ℕ) → Move s (send_to result s).1 (send_to result s).2
    receiving : {s : Socket} (result : Option ℕ) → Move s (recv result s).1 (recv result s).2
    receiving_from :
        {s : Socket} (result : Option ℕ) → Move s (recv_from result s).1 (recv_from result s).2
    getting : {s : Socket} (done : Bool) → Move s (get_opt done s).1 (get_opt done s).2
    setting : {s : Socket} (done : Bool) → Move s (set_opt done s).1 (set_opt done s).2
    preparing : {s : Socket} → Move s s (init_sock s)
    renewing :
        {s : Socket} (fresh : Option ℕ)
        → s.sock_fd ≡ none
        → Move s (new_sock fresh s).0 (new_sock fresh s).1
    adopting :
        {s : Socket} (r : Answers) (fd : ℕ)
        → s.sock_fd ≡ none
        → Move s (init native true r fd s).1 (opened fd ∷ (init native true r fd s).2)
    refusing :
        {s : Socket} (r : Answers) (fd : ℕ)
        → Move s (init native false r fd s).1 (init native false r fd s).2
    naming_local :
        {s : Socket} (name : Option (List ℕ))
        → Move s (get_local_address native name s).1 (get_local_address native name s).2
    naming_peer :
        {s : Socket} (name : Option (List ℕ))
        → Move s (get_peer_address native name s).1 (get_peer_address native name s).2

  -- The sockets that the operations lead to, each with all the system calls made on its descriptor.
  pub data History : Socket → List SysCall → Type 0 where
    created : (family type protocol : ℕ) → History (new_socket family type protocol) []
    accepted :
        (known : Bool) (r : Answers) (fd : ℕ) (server client : Socket)
        → (accept native known r (some fd) server).0 ≡ some client
        → History client (accept native known r (some fd) server).1
    moved :
        {s t : Socket} {log calls : List SysCall}
        → History s log
        → Move s t calls
        → History t (log ++ calls)

  -- The calls that are made only while the socket is connected.
  guarded-Leads :
      (s : Socket) (b : Bool) (result : Option ℕ)
      → IsSound s
      → let q : Step (Option ℕ) = if b then (result, s, used s.sock_fd ∷ []) else (none, s, []) in
        Leads s q.1 q.2
  guarded-Leads s true result h = use_once s h
  guarded-Leads s false result h = stays s h

  accept-Leads :
      (known : Bool) (r : Answers) (client : Option ℕ) (s : Socket)
      → IsSound s
      → Leads s s (accept native known r client s).2
  unfolding accept
  accept-Leads known r none s h = use_once s h
  accept-Leads known r (some fd) s h = use_once s h

  init-Leads :
      (known : Bool) (r : Answers) (fd : ℕ) (s : Socket)
      → s.sock_fd ≡ none
      → (init native known r fd s).0 ≡ true
      → Leads s (init native known r fd s).1 (opened fd ∷ (init native known r fd s).2)
  unfolding init run is_valid
  init-Leads true r fd s e d =
      let t : Socket = record s { sock_fd = some fd; is_connect = true } in
      let opens : Leads s t (opened fd ∷ []) = record {
        descriptor = ap (λ h. run h (opened fd ∷ [])) e;
        sound = refl;
      } in
      let local = get_local_address-Leads native r.local_name t refl in
      let peer = get_peer_address-Leads native r.peer_name _ local.sound in
      Leads-append opens (Leads-append (init_sock-Leads t refl) (Leads-append local peer))
  init-Leads false r fd s e d = cc

  adopted : (r : Answers) (fd : ℕ) (s : Socket) → (init native true r fd s).0 ≡ true
  unfolding init
  adopted r fd s = refl

  new_sock-Leads :
      (s : Socket) (fresh : Option ℕ)
      → s.sock_fd ≡ none
      → IsSound s
      → Leads s (new_sock fresh s).0 (new_sock fresh s).1
  unfolding new_sock run is_valid is_descriptor
  new_sock-Leads s none e h = record {
    descriptor = ap some e;
    sound = ap (λ o. s.is_connect && not (is_descriptor o)) (sym e) ∙ h;
  }
  new_sock-Leads s (some fd) e h =
      let t : Socket = record s { sock_fd = some fd } in
      let sound : IsSound t = ground arith in
      let opens : Leads s t (opened fd ∷ []) = record {
        descriptor = ap (λ h. run h (opened fd ∷ [])) e;
        sound = sound;
      } in
      Leads-append opens (init_sock-Leads t sound)

  Move-Leads : {s t : Socket} {calls : List SysCall} → IsSound s → Move s t calls → Leads s t calls
  unfolding listen send send_to recv recv_from get_opt set_opt init
  Move-Leads {s} h (binding r) = bind-Leads native r s h
  Move-Leads {s} h (listening done) = use_once s h
  Move-Leads {s} h (accepting known r client) = accept-Leads known r client s h
  Move-Leads {s} h (connecting timed r addr q e) =
      subst (LeadsTo native s) e (connect-LeadsTo native timed r addr s h)
  Move-Leads {s} h (reconnecting timed r q e) =
      subst (LeadsTo native s) e (reconnect-LeadsTo native timed r s h)
  Move-Leads {s} h closing = close-Leads s
  Move-Leads {s} h (sending result) = guarded-Leads s s.is_connect result h
  Move-Leads {s} h (sending_to result) = guarded-Leads s s.is_connect result h
  Move-Leads {s} h (receiving result) = guarded-Leads s s.is_connect result h
  Move-Leads {s} h (receiving_from result) = guarded-Leads s s.is_connect result h
  Move-Leads {s} h (getting done) = use_once s h
  Move-Leads {s} h (setting done) = use_once s h
  Move-Leads {s} h preparing = init_sock-Leads s h
  Move-Leads {s} h (renewing fresh e) = new_sock-Leads s fresh e h
  Move-Leads {s} h (adopting r fd e) = init-Leads true r fd s e (adopted r fd s)
  Move-Leads {s} h (refusing r fd) = stays s h
  Move-Leads {s} h (naming_local name) = get_local_address-Leads native name s h
  Move-Leads {s} h (naming_peer name) = get_peer_address-Leads native name s h

  accepted-Leads :
      (known : Bool) (r : Answers) (fd : ℕ) (server client : Socket)
      → (accept native known r (some fd) server).0 ≡ some client
      → Leads
          (new_socket server.family server.type server.protocol)
          client
          (accept native known r (some fd) server).1
  unfolding accept new_socket
  accepted-Leads known r fd server client e =
      let s = new_socket server.family server.type server.protocol in
      elim (Bool-cases (init native known r fd s).0) [
        | inl d ↦
            let same : (init native known r fd s).1 ≡ client = cc (rw d at e) in
            subst (λ t. Leads s t (opened fd ∷ (init native known r fd s).2)) same
              (init-Leads known r fd s refl d)
        | inr d ↦ cc (rw d at e)
      ]

  History-Leads : (s : Socket) (log : List SysCall) → History s log → Leads (new_socket 0 0 0) s log
  unfolding run new_socket is_valid
  History-Leads s log (created family type protocol) = record { descriptor = refl; sound = refl }
  History-Leads s log (accepted known r fd server client e) =
      let l = accepted-Leads known r fd server client e in
      record { descriptor = l.descriptor; sound = l.sound }
  History-Leads s log (moved {s = t} {log = before} {calls} past move) =
      let l = History-Leads t before past in Leads-append l (Move-Leads l.sound move)

  -- The calls of `newSock` with a new descriptor, by the one that is held.
  renewed :
      (s : Socket) (fd : ℕ) (h : Option ℕ)
      → run h (new_sock (some fd) s).1 ≡ (if is_descriptor h then none else some (some fd))
  unfolding new_sock run is_descriptor is_valid
  renewed s fd none =
      let t : Socket = record s { sock_fd = some fd } in
      let sound : IsSound t = ground arith in (init_sock-Leads t sound).descriptor
  renewed s fd (some g) = refl

  -- After any life of a socket, in which `newSock` and an `init` that is not refused come while it
  -- holds no descriptor: its system calls were all on the descriptor that it held, it opened none
  -- while it held one, and what is left open is the descriptor that it holds; a socket that is
  -- connected holds one. Two ways out of this are open: a `newSock` that comes while it holds one,
  -- and gets a new one, loses the old one; and an `accept` whose `init` refuses the descriptor
  -- returns null, with the descriptor open.
  pub History-run :
      (s : Socket) (log : List SysCall) (fd : ℕ) (r : Answers)
      → History s log
      → (run none log ≡ some s.sock_fd)
        × ((s.is_connect && not (is_valid s)) ≡ false)
        × (run none (log ++ (new_sock (some fd) s).1)
            ≡ (if is_valid s then none else some (some fd)))
        × ((accept native false r (some fd) s).0 ≡ none)
        × (run none (accept native false r (some fd) s).1 ≡ some (some fd))
  unfolding new_socket is_valid accept init run
  History-run s log fd r h =
      let l = History-Leads s log h in
      (
        l.descriptor,
        l.sound,
        run-append none s.sock_fd log (new_sock (some fd) s).1 l.descriptor
            ∙ renewed s fd s.sock_fd,
        refl,
        refl,
      )

  IsClosed : Socket → Type 0
  IsClosed t = (t.sock_fd ≡ none) × (t.is_connect ≡ false)

  close_fd-IsClosed : (s : Socket) (o : Option ℕ) → s.sock_fd ≡ o → IsClosed (close_fd o s).1
  unfolding close_fd IsClosed
  close_fd-IsClosed s none e = (e, refl)
  close_fd-IsClosed s (some fd) e = (refl, refl)

  -- After any life of a socket, in which `newSock` and an `init` that is not refused come while it
  -- holds no descriptor: closing it, as its destructor does, leaves none of the descriptors that
  -- it opened or took over open, and a socket that is neither connected nor valid, on which a send
  -- or a receive makes no system call.
  pub History-close :
      (s : Socket) (log : List SysCall) (result : Option ℕ)
      → History s log
      → let t = (close s).1 in
        (run none (log ++ (close s).2) ≡ some none)
        × (is_valid t ≡ false)
        × (send result t ≡ (none, t, []))
        × (recv result t ≡ (none, t, []))
  unfolding close is_valid send recv IsClosed is_descriptor new_socket
  History-close s log result h =
      let ends = (Leads-append (History-Leads s log h) (close-Leads s)).descriptor in
      let (gone, apart) = close_fd-IsClosed s s.sock_fd refl in
      let t = (close s).1 in
      let idle = ap (λ b. if b then (result, t, used t.sock_fd ∷ []) else (none, t, [])) apart in
      (ends ∙ ap some gone, ap is_descriptor gone, idle, idle)
