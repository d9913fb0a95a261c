-- ===== src/Rpc/Registry/Laws.antt =====
-- The state of `RpcServiceRegistry` under registering, looking up and a connection's end.
use xzmjx_rpc.Prelude.{
  ℕ, suc, ◌+◌, ◌≡◌, refl, ap, ap₂, ◌∙◌, List, [], ◌∷◌, ◌++◌, append-nil, append_assoc, length,
  arith, Option, none, some, false, if◌then◌else◌, ◌==◌, Bool-cases, inl, inr, Outcome, ok, crashed,
  threw, stuck, ◌>>=◌, All, ◌≢◌,
}
use xzmjx_rpc.ByteArray.Defs.{Endian}
use xzmjx_rpc.Rpc.Protocol.Defs.{Protocol, heartbeat_protocol}
use xzmjx_rpc.Rpc.Protocol.MessageType
use xzmjx_rpc.Rpc.Registry.Defs.{
  Registry, Entry, equal_range, register, unregister_service, iterators, to_delete, erase,
  erase_all, present, remaining, erase_key, Connection, Turn, handle_request, handle_client,
  handle_service_discover, handle_register_service, leave, again,
}
use xzmjx_rpc.Rpc.Text.{same, same_self}

equal_range-append :
    (key k v : List ℕ) (m : List Entry)
    → equal_range key (m ++ ((k, v) ∷ []))
      ≡ equal_range key m ++ (if same k key then v ∷ [] else [])
unfolding equal_range
equal_range-append key k v [] = refl
equal_range-append key k v ((k', v') ∷ m) = elim (Bool-cases (same k' key)) [
  | inl e ↦ rw e (ap (λ l. v' ∷ l) (equal_range-append key k v m))
  | inr e ↦ rw e (equal_range-append key k v m)
]

-- Registering a service for an address adds that address behind the providers of that service,
-- and that service behind the services of that address; no other lookup of either map changes.
pub equal_range-register :
    (service addr key : List ℕ) (r : Registry)
    → (equal_range key (register service addr r).services_provider
        ≡ equal_range key r.services_provider ++ (if same service key then addr ∷ [] else []))
      × (equal_range key (register service addr r).address_to_service
          ≡ equal_range key r.address_to_service ++ (if same addr key then service ∷ [] else []))
unfolding register
equal_range-register service addr key r = (
  equal_range-append key service addr r.services_provider,
  equal_range-append key addr service r.address_to_service,
)

-- Neither map has an entry of this address.
abbrev pub IsNew : List ℕ → Registry → Type 0
IsNew addr r =
    All (λ (e : Entry). same e.1 addr ≡ false) r.services_provider
    × All (λ (e : Entry). same e.0 addr ≡ false) r.address_to_service

module _ (service addr : List ℕ) where
  -- The iterators start behind the entries of other addresses.
  iterators-append :
      (i : ℕ) (m t : List Entry)
      → All (λ (e : Entry). same e.1 addr ≡ false) m
      → iterators service addr i (m ++ t) ≡ iterators service addr (length m + i) t
  unfolding iterators
  iterators-append i [] t h =
      let e : i ≡ 0 + i = omega arith in ap (λ n. iterators service addr n t) e
  iterators-append i ((k, v) ∷ m) t h =
      let n : length m + suc i ≡ suc (length m) + i = omega arith in
      let skip = iterators-append (suc i) m t h.1 ∙ ap (λ x. iterators service addr x t) n in
      elim (Bool-cases (same k service)) [ inl e ↦ rw (e, h.0) skip | inr e ↦ rw e skip ]

  erase_key-append :
      (m : List Entry)
      → All (λ (e : Entry). same e.0 addr ≡ false) m
      → erase_key addr (m ++ ((addr, service) ∷ [])) ≡ m
  unfolding erase_key
  erase_key-append [] h = rw (same_self addr) refl
  erase_key-append ((k, v) ∷ m) h = rw (h.0) (ap (λ l. (k, v) ∷ l) (erase_key-append m h.1))

  equal_range-none :
      (m : List Entry) → All (λ (e : Entry). same e.0 addr ≡ false) m → equal_range addr m ≡ []
  unfolding equal_range
  equal_range-none [] h = refl
  equal_range-none ((k, v) ∷ m) h = rw (h.0) (equal_range-none m h.1)

present-append : (m t : List Entry) → present (m ++ t) ≡ present m ++ present t
unfolding present
present-append [] t = refl
present-append (e ∷ m) t = ap (λ l. some e ∷ l) (present-append m t)

remaining-present :
    (m : List Entry) (t : List (Option Entry)) → remaining (present m ++ t) ≡ m ++ remaining t
unfolding present remaining
remaining-present [] t = refl
remaining-present (e ∷ m) t = ap (λ l. e ∷ l) (remaining-present m t)

bind_cons :
    (e : Entry) (m : List (Option Entry)) (o : Outcome (List (Option Entry)))
    → ((o >>= λ t. ok (m ++ t)) >>= λ t. ok (some e ∷ t)) ≡ (o >>= λ t. ok (some e ∷ (m ++ t)))
bind_cons e m (ok t) = refl
bind_cons e m (threw x) = refl
bind_cons e m crashed = refl
bind_cons e m stuck = refl

-- Erasing behind the entries of a map.
erase-behind :
    (m : List Entry) (j n : ℕ) (t : List (Option Entry))
    → n ≡ length m + j
    → erase n (present m ++ t) ≡ (erase j t >>= λ t'. ok (present m ++ t'))
unfolding erase present
erase-behind [] j n t e =
    let q : n ≡ j = omega (arith, e) in ap (λ i. erase i t) q ∙ kept (erase j t)
  where
    kept : (o : Outcome (List (Option Entry))) → o ≡ (o >>= λ t'. ok t')
    kept (ok t) = refl
    kept (threw x) = refl
    kept crashed = refl
    kept stuck = refl
erase-behind (x ∷ m) j n t e =
    let q : n ≡ suc (length m + j) = omega (arith, e) in
    ap (λ i. erase i (some x ∷ (present m ++ t))) q
    ∙ ap (λ o. o >>= λ m'. ok (some x ∷ m')) (erase-behind m j (length m + j) t refl)
    ∙ bind_cons x (present m) (erase j t)

module _ (service addr : List ℕ) (r : Registry) (new : IsNew addr r) where
  abbrev entry : Entry
  entry = (service, addr)

  once_found : equal_range addr (register service addr r).address_to_service ≡ service ∷ []
  once_found =
      (equal_range-register service addr addr r).1
      ∙ rw (same_self addr, equal_range-none service addr r.address_to_service new.1) refl

  once_deleted :
      to_delete (service ∷ []) addr (register service addr r).services_provider
      ≡ (length r.services_provider + 0) ∷ []
  unfolding to_delete register iterators
  once_deleted =
      rw
        (
          iterators-append service addr 0 r.services_provider (entry ∷ []) new.0,
          same_self service,
          same_self addr,
        )
        refl

  once_erased :
      erase_all
        ((length r.services_provider + 0) ∷ [])
        (present (register service addr r).services_provider)
      ≡ ok (present r.services_provider ++ (none ∷ []))
  unfolding erase_all register present erase
  once_erased =
      rw
        (
          present-append r.services_provider (entry ∷ []),
          erase-behind r.services_provider 0 (length r.services_provider + 0) (some entry ∷ [])
              refl,
        )
        refl

  undone : unregister_service addr (register service addr r) ≡ ok r
  unfolding unregister_service remaining
  undone =
      rw (once_found, once_deleted, once_erased)
        (ap₂ (λ m a. ok (record { services_provider = m; address_to_service = a }))
          (remaining-present r.services_provider (none ∷ []) ∙ append-nil r.services_provider)
          (erased))
    where
      erased : erase_key addr (register service addr r).address_to_service ≡ r.address_to_service
      erased = unfold register in erase_key-append service addr r.address_to_service new.1

  abbrev twice : Registry
  twice = register service addr (register service addr r)

  twice_found : equal_range addr twice.address_to_service ≡ service ∷ service ∷ []
  twice_found =
      (equal_range-register service addr addr (register service addr r)).1
      ∙ rw (same_self addr, once_found) refl

  twice_provider : twice.services_provider ≡ r.services_provider ++ (entry ∷ entry ∷ [])
  unfolding register
  twice_provider = append_assoc r.services_provider (entry ∷ []) (entry ∷ [])

  twice_deleted :
      to_delete (service ∷ service ∷ []) addr (r.services_provider ++ (entry ∷ entry ∷ []))
      ≡ (length r.services_provider + 0)
        ∷ suc (length r.services_provider + 0)
        ∷ (length r.services_provider + 0)
        ∷ suc (length r.services_provider + 0)
        ∷ []
  unfolding to_delete iterators
  twice_deleted =
      rw
        (
          iterators-append service addr 0 r.services_provider (entry ∷ entry ∷ []) new.0,
          same_self service,
          same_self addr,
        )
        refl

  twice_erased :
      (rest : List ℕ)
      → erase_all
          ((length r.services_provider + 0)
            ∷ suc (length r.services_provider + 0)
            ∷ (length r.services_provider + 0)
            ∷ rest)
          (present (r.services_provider ++ (entry ∷ entry ∷ [])))
        ≡ crashed
  unfolding erase_all present erase
  twice_erased rest =
      let m = r.services_provider in
      let n = length m + 0 in
      rw
        (
          present-append m (entry ∷ entry ∷ []),
          erase-behind m 0 n (some entry ∷ some entry ∷ []) refl,
          erase-behind m 1 (suc n) (none ∷ some entry ∷ []) (omega arith),
          erase-behind m 0 n (none ∷ none ∷ []) refl,
        )
        refl

  -- A provider whose address no map of the registry holds, and that registers one service and goes,
  -- leaves the registry as it was, the entries of all others in their order; one that registers the
  -- same service twice makes `unregisterService` erase an erased iterator when it goes.
  pub unregister_service-register :
      (unregister_service addr (register service addr r) ≡ ok r)
      × (unregister_service addr (register service addr (register service addr r)) ≡ crashed)
  unfolding unregister_service
  unregister_service-register = (
    undone,
    rw (twice_found, twice_provider, twice_deleted)
        (ap
          (λ (o : Outcome (List (Option Entry))). o >>= λ m. ok (record {
            services_provider = remaining m;
            address_to_service = erase_key addr twice.address_to_service;
          }))
          (twice_erased (suc (length r.services_provider + 0) ∷ []))),
  )

-- A turn on a request that is no `kRpcServiceProvider` keeps the connection as it is.
record Kept (c : Connection) (t : Turn × Registry) : Type 0 where
  reply : Option Protocol
  same_connection : t.0 ≡ again reply c

-- A result, if it is a value, satisfies `P`.
abbrev Every : {A : Type 0} → (A → Type 0) → Outcome A → Type 0
Every P (ok a) = P a
Every P (threw e) = Unit
Every P crashed = Unit
Every P stuck = Unit

Every-bind :
    {A B : Type 0} (P : B → Type 0) (o : Outcome A) (f : A → Outcome B)
    → ((a : A) → Every P (f a))
    → Every P (o >>= f)
Every-bind P (ok a) f h = h a
Every-bind P (threw e) f h = tt
Every-bind P crashed f h = tt
Every-bind P stuck f h = tt

module _ (native : Endian) (memory : ℕ → ℕ) (address_of_port : Option (ℕ → List ℕ)) where
  keeps :
      (req : Protocol) (c : Connection) (r : Registry)
      → (req.type == MessageType.rpc_service_provider) ≡ false
      → Every (Kept c) (handle_request native memory address_of_port (some req) c r)
  unfolding handle_request
  keeps req c r e = elim (Bool-cases (req.type == MessageType.rpc_heartbeat)) [
    | inl a ↦ rw a (record { reply = some heartbeat_protocol; same_connection = refl })
    | inr a ↦ elim (Bool-cases (req.type == MessageType.rpc_service_discover_request)) [
      | inl b ↦
          rw (a, b)
            (Every-bind (Kept c) (handle_service_discover native memory req r) _
              (λ rsp. record { reply = some rsp; same_connection = refl }))
      | inr b ↦ elim (Bool-cases (req.type == MessageType.rpc_service_register_request)) [
        | inl d ↦
            rw (a, b, e, d)
              (Every-bind (Kept c) (handle_register_service native memory c.provider_addr req r) _
                (λ q. record { reply = some q.0; same_connection = refl }))
        | inr d ↦ rw (a, b, e, d) (record { reply = none; same_connection = refl })
      ]
    ]
  ]

  ends :
      (c : Connection) (r r' : Registry)
      → c.is_service_provider ≡ false
      → handle_client native memory address_of_port [] c r ≢ ok r'
  unfolding handle_client handle_request
  ends c r r' e p = cc (rw e at p)

  -- The loop of `handleClient` on a connection that never announces a provider does not come to an
  -- end, whatever it requests and whatever the registry holds: there is no sequence of requests
  -- without `kRpcServiceProvider` after which the closed connection is left in good order.
  pub handle_client-ne-ok :
      (reqs : List Protocol) (c : Connection) (r r' : Registry)
      → c.is_service_provider ≡ false
      → All (λ (req : Protocol). (req.type == MessageType.rpc_service_provider) ≡ false) reqs
      → handle_client native memory address_of_port reqs c r ≢ ok r'
  unfolding handle_client handle_request
  handle_client-ne-ok [] c r r' e h = ends c r r' e
  handle_client-ne-ok (req ∷ reqs) c r r' e h =
      go (handle_request native memory address_of_port (some req) c r) (keeps req c r h.0)
        (λ (r'' : Registry). handle_client-ne-ok reqs c r'' r' e h.1)
    where
      go :
          (o : Outcome (Turn × Registry))
          → Every (Kept c) o
          → ((r'' : Registry) → handle_client native memory address_of_port reqs c r'' ≢ ok r')
          → (o >>= λ q. elim q.0 [
            | leave ↦ ok q.1
            | again rsp c' ↦ handle_client native memory address_of_port reqs c' q.1
          ])
            ≢ ok r'
      go (ok q) k ih p = ih q.1 (rw k.same_connection at p)
      go (threw x) k ih p = cc
      go crashed k ih p = cc
      go stuck k ih p = cc
