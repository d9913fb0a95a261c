-- ===== src/Net/Socket/Laws.antt =====
-- The descriptor of a `Socket` (net/socket.cpp) over its whole life.
use xzmjx_rpc.Prelude.{
  ℕ, ◌≡◌, refl, ap, subst, sym, ◌∙◌, List, [], ◌∷◌, ◌++◌, Option, none, some, Bool, true, false,
  not, ◌&&◌, if◌then◌else◌, ◌==◌, ==_self, Bool-cases, inl, inr, Outcome, ok, crashed, threw, stuck,
}
use xzmjx_rpc.ByteArray.Defs.{Endian}
use xzmjx_rpc.Net.Address.Defs.{Address}
use xzmjx_rpc.Net.Socket.Defs.{
  Socket, SysCall, opened, used, closed, Step, Answers, is_valid, is_descriptor, init_sock,
  new_sock, tcp, local_from, get_local_address, peer_from, get_peer_address, close_fd, close,
  ensure_valid, bind, connected, give_up, connect, connect_to, reconnect,
}

-- The descriptor that is open behind some system calls, starting from the one that is open before
-- them; none for calls that use or close another descriptor than the open one, or open a second.
-- The descriptor -1 may be used, as the system refuses it.
unfoldable pub run : Option ℕ → List SysCall → Option (Option ℕ)
run h [] = some h
run none (opened fd ∷ calls) = run (some fd) calls
run (some f) (opened fd ∷ calls) = none
run none (used none ∷ calls) = run none calls
run (some f) (used none ∷ calls) = run (some f) calls
run none (used (some g) ∷ calls) = none
run (some f) (used (some g) ∷ calls) =
    let rest = run (some f) calls in if f == g then rest else none
run none (closed g ∷ calls) = none
run (some f) (closed g ∷ calls) = let rest = run none calls in if f == g then rest else none

inject : (h h' : Option ℕ) → some h ≡ some h' → h ≡ h'
inject h h' e = cc

pub run-append :
    (h h' : Option ℕ) (xs ys : List SysCall) → run h xs ≡ some h' → run h (xs ++ ys) ≡ run h' ys
unfolding run
run-append h h' [] ys e = ap (λ o. run o ys) (inject h h' e)
run-append none h' (opened fd ∷ xs) ys e = run-append (some fd) h' xs ys e
run-append (some f) h' (opened fd ∷ xs) ys e = cc
run-append none h' (used none ∷ xs) ys e = run-append none h' xs ys e
run-append (some f) h' (used none ∷ xs) ys e = run-append (some f) h' xs ys e
run-append none h' (used (some g) ∷ xs) ys e = cc
run-append (some f) h' (used (some g) ∷ xs) ys e = elim (Bool-cases (f == g)) [
  | inl q ↦ rw q (run-append (some f) h' xs ys (rw q at e))
  | inr q ↦ cc (rw q at e)
]
run-append none h' (closed g ∷ xs) ys e = cc
run-append (some f) h' (closed g ∷ xs) ys e = elim (Bool-cases (f == g)) [
  | inl q ↦ rw q (run-append none h' xs ys (rw q at e))
  | inr q ↦ cc (rw q at e)
]

-- A socket that is connected has a descriptor.
abbrev pub IsSound : Socket → Type 0
IsSound s = (s.is_connect && not (is_valid s)) ≡ false

-- Calls that lead from the descriptor of one socket to that of another, which is sound.
pub record Leads (s t : Socket) (calls : List SysCall) : Type 0 where
  pub descriptor : run s.sock_fd calls ≡ some t.sock_fd
  pub sound : IsSound t

pub Leads-append :
    {s t u : Socket} {xs ys : List SysCall} → Leads s t xs → Leads t u ys → Leads s u (xs ++ ys)
Leads-append {s} {t} {u} {xs} {ys} a b = record {
  descriptor = run-append s.sock_fd t.sock_fd xs ys a.descriptor ∙ b.descriptor;
  sound = b.sound;
}

uses : (h : Option ℕ) (calls : List SysCall) → run h (used h ∷ calls) ≡ run h calls
unfolding run
uses none calls = refl
uses (some f) calls = rw (==_self f) refl

pub stays : (s : Socket) → IsSound s → Leads s s []
unfolding run
stays s h = record { descriptor = refl; sound = h }

pub use_once : (s : Socket) → IsSound s → Leads s s (used s.sock_fd ∷ [])
unfolding run
use_once s h = record { descriptor = uses s.sock_fd []; sound = h }

pub init_sock-Leads : (s : Socket) → IsSound s → Leads s s (init_sock s)
unfolding init_sock
init_sock-Leads s h = elim (Bool-cases (s.type == tcp)) [
  | inl e ↦ rw e (Leads-append (use_once s h) (use_once s h))
  | inr e ↦ rw e (use_once s h)
]

close_fd-Leads :
    (o : Option ℕ) (s : Socket) → o ≡ s.sock_fd → Leads s (close_fd o s).1 (close_fd o s).2
unfolding close_fd run
close_fd-Leads none s e = record { descriptor = refl; sound = refl }
close_fd-Leads (some fd) s e = record {
  descriptor = ap (λ h. run h (closed fd ∷ [])) (sym e) ∙ rw (==_self fd) refl;
  sound = refl;
}

pub close-Leads : (s : Socket) → Leads s (close s).1 (close s).2
unfolding close
close-Leads s = close_fd-Leads s.sock_fd s refl

module _ (native : Endian) where
  local_from-Leads :
      (name : Option (List ℕ)) (s : Socket) (o : Option Address)
      → IsSound s
      → Leads s (local_from native name s o).1 (local_from native name s o).2
  unfolding local_from is_valid run
  local_from-Leads name s (some a) h = stays s h
  local_from-Leads name s none h = record { descriptor = uses s.sock_fd []; sound = h }

  pub get_local_address-Leads :
      (name : Option (List ℕ)) (s : Socket)
      → IsSound s
      → Leads s (get_local_address native name s).1 (get_local_address native name s).2
  unfolding get_local_address
  get_local_address-Leads name s h = local_from-Leads name s s.local_address h

  peer_from-Leads :
      (name : Option (List ℕ)) (s : Socket) (o : Option Address)
      → IsSound s
      → Leads s (peer_from native name s o).1 (peer_from native name s o).2
  unfolding peer_from is_valid run
  peer_from-Leads name s (some a) h = stays s h
  peer_from-Leads name s none h = record { descriptor = uses s.sock_fd []; sound = h }

  pub get_peer_address-Leads :
      (name : Option (List ℕ)) (s : Socket)
      → IsSound s
      → Leads s (get_peer_address native name s).1 (get_peer_address native name s).2
  unfolding get_peer_address
  get_peer_address-Leads name s h = peer_from-Leads name s s.peer_address h

and_false : (b : Bool) → (b && false) ≡ false
and_false true = refl
and_false false = refl

-- A new descriptor, where there is none.
new_sock-Leads :
    (fresh : Option ℕ) (s : Socket)
    → s.sock_fd ≡ none
    → IsSound s
    → Leads s (new_sock fresh s).0 (new_sock fresh s).1
unfolding new_sock run is_valid
new_sock-Leads none s e h = record {
  descriptor = ap some e;
  sound = subst (λ o. (s.is_connect && not (is_descriptor o)) ≡ false) e h;
}
new_sock-Leads (some fd) s e h =
    let t : Socket = record s { sock_fd = some fd } in
    let g : IsSound t = and_false s.is_connect in
    record {
      descriptor = ap (λ o. run o (opened fd ∷ init_sock t)) e ∙ (init_sock-Leads t g).descriptor;
      sound = g;
    }

ensure_valid-Leads :
    (fresh : Option ℕ) (s : Socket)
    → IsSound s
    → Leads s (ensure_valid fresh s).0 (ensure_valid fresh s).1
unfolding ensure_valid
ensure_valid-Leads fresh s h = elim (Bool-cases (is_valid s)) [
  | inl e ↦ rw e (stays s h)
  | inr e ↦ rw e (new_sock-Leads fresh s (no_descriptor s.sock_fd e) h)
]
  where
    no_descriptor : (o : Option ℕ) → is_descriptor o ≡ false → o ≡ none
    no_descriptor none e = refl
    no_descriptor (some fd) e = cc

module _ (native : Endian) where
  valid-IsSound : (s : Socket) (b : Bool) → is_valid s ≡ true → (b && not (is_valid s)) ≡ false
  valid-IsSound s b e = rw e (and_false b)

  pub bind-Leads :
      (r : Answers) (s : Socket) → IsSound s → Leads s (bind native r s).1 (bind native r s).2
  unfolding bind
  bind-Leads r s h =
      let p = ensure_valid r.fresh s in
      let first = ensure_valid-Leads r.fresh s h in
      let named = get_local_address-Leads native r.local_name p.0 first.sound in
      elim (Bool-cases (is_valid p.0)) [
        | inl v ↦ elim (Bool-cases r.succeeds) [
          | inl e ↦ rw (v, e) (Leads-append first (Leads-append (use_once p.0 first.sound) named))
          | inr e ↦ rw (v, e) (Leads-append first (use_once p.0 first.sound))
        ]
        | inr v ↦ rw v first
      ]

  connected-Leads :
      (r : Answers) (s : Socket)
      → is_valid s ≡ true
      → Leads s (connected native r s).1 (connected native r s).2
  unfolding connected run is_valid
  connected-Leads r s v =
      let t : Socket = record s { is_connect = true } in
      let entered : Leads s t [] = record { descriptor = refl; sound = valid-IsSound s true v } in
      let first = get_peer_address-Leads native r.peer_name t entered.sound in
      Leads-append entered
        (Leads-append first (get_local_address-Leads native r.local_name _ first.sound))

  give_up-Leads : (s : Socket) → Leads s (give_up native s).1 (give_up native s).2
  unfolding give_up
  give_up-Leads s = close-Leads s

  -- What a call that returns leads to.
  abbrev pub LeadsTo : Socket → Outcome (Step Bool) → Type 0
  LeadsTo s (ok q) = Leads s q.1 q.2
  LeadsTo s (threw e) = Unit
  LeadsTo s crashed = Unit
  LeadsTo s stuck = Unit

  tried-Leads :
      (timed : Bool) (s : Socket)
      → IsSound s
      → Leads s s (if timed then used s.sock_fd ∷ [] else [])
  tried-Leads true s h = use_once s h
  tried-Leads false s h = stays s h

  connect_to-LeadsTo :
      (timed : Bool) (r : Answers) (addr : Option Address) (s t : Socket) (calls : List SysCall)
      → Leads s t calls
      → is_valid t ≡ true
      → LeadsTo s (connect_to native timed r t calls addr)
  unfolding connect_to
  connect_to-LeadsTo timed r none s t calls first v = tt
  connect_to-LeadsTo timed r (some addr) s t calls first v =
      let tried = Leads-append first (tried-Leads timed t first.sound) in
      elim (Bool-cases (timed && not r.timeout_set)) [
        | inl e ↦ rw e (Leads-append tried (give_up-Leads t))
        | inr e ↦ elim (Bool-cases r.succeeds) [
          | inl d ↦
              rw (e, d)
                (Leads-append (Leads-append tried (use_once t first.sound)) (connected-Leads r t v))
          | inr d ↦
              rw (e, d)
                (Leads-append (Leads-append tried (use_once t first.sound)) (give_up-Leads t))
        ]
      ]

  pub connect-LeadsTo :
      (timed : Bool) (r : Answers) (addr : Option Address) (s : Socket)
      → IsSound s
      → LeadsTo s (connect native timed r addr s)
  unfolding connect is_valid
  connect-LeadsTo timed r addr s h =
      let s0 : Socket = record s { peer_address = addr } in
      let p = ensure_valid r.fresh s0 in
      let first = ensure_valid-Leads r.fresh s0 h in
      elim (Bool-cases (is_valid p.0)) [
        | inl v ↦ rw v (
            connect_to-LeadsTo timed r addr s p.0 p.1
              (record { descriptor = first.descriptor; sound = first.sound }) v)
        | inr v ↦ rw v (record { descriptor = first.descriptor; sound = first.sound })
      ]

  -- What leads from a socket leads from one with the same descriptor.
  LeadsTo-same :
      (s t : Socket) (o : Outcome (Step Bool)) → t.sock_fd ≡ s.sock_fd → LeadsTo t o → LeadsTo s o
  LeadsTo-same s t (ok q) e l = record {
    descriptor = subst (λ h. run h q.2 ≡ some q.1.sock_fd) e l.descriptor;
    sound = l.sound;
  }
  LeadsTo-same s t (threw x) e l = tt
  LeadsTo-same s t crashed e l = tt
  LeadsTo-same s t stuck e l = tt

  pub reconnect-LeadsTo :
      (timed : Bool) (r : Answers) (s : Socket) → IsSound s → LeadsTo s (reconnect native timed r s)
  unfolding reconnect is_valid
  reconnect-LeadsTo timed r s h =
      let t : Socket = record s { local_address = none } in
      LeadsTo-same s t (connect native timed r s.peer_address t) refl
        (connect-LeadsTo timed r s.peer_address t h)
