-- ===== src/Net/Address/Lookup.antt =====
-- `Address::Lookup` and what it is used for (net/address.cpp). The system's `getaddrinfo` is a
-- parameter: the structures found, or none for an error.
use xzmjx_rpc.Prelude.{
  ℕ, ◌≡◌, refl, ap, sym, subst, ◌≤◌, ◌/◌, ◌%◌, ◌^◌, ◌∙◌, arith, List, [], ◌∷◌, ◌++◌, Option, none,
  some, Bool, true, false, not, if◌then◌else◌, ◌==◌, All, ◌≢◌, ==_self, ne→==, Outcome, ok, crashed,
}
use xzmjx_rpc.ByteArray.Defs.{Endian, big}
use xzmjx_rpc.Net.Address.Defs.{
  Address, Ipv4, ipv4, ipv6, unix, unknown, set_ipv4_port, set_ipv6_port,
}
use xzmjx_rpc.Net.Address.Any.{create}
use xzmjx_rpc.Codec.Endian.{endian_cast}
use xzmjx_rpc.Net.Address.Print.{decimal, decimal-All, decimal_cons, ipv4_text, IsDigit}

abbrev pub is_empty : {A : Type 0} → List A → Bool
is_empty [] = true
is_empty (x ∷ xs) = false

-- `memchr`: what stands before the first `c` and behind it.
unfoldable pub memchr : ℕ → List ℕ → Option (List ℕ × List ℕ)
memchr c [] = none
memchr c (x ∷ xs) =
    let rest = elim (memchr c xs) as (λ o. Option (List ℕ × List ℕ)) [
      | none ↦ none
      | some r ↦ some (x ∷ r.0, r.1)
    ] in
    if x == c then some ([], xs) else rest

-- The service behind a closing bracket.
unfoldable pub bracket_service : List ℕ → Option (List ℕ)
bracket_service [] = none
bracket_service (x ∷ xs) = if x == b':' then some xs else none

-- `[node]:service`; an empty node is none.
unfoldable pub bracketed : List ℕ → List ℕ × Option (List ℕ)
unfolding memchr bracket_service
bracketed [] = ([], none)
bracketed (x ∷ xs) =
    if x == b'['
    then elim (memchr b']' xs) [ none ↦ ([], none) | some r ↦ (r.0, bracket_service r.1) ]
    else ([], none)

-- Where the rest holds a colon too, the node stays empty and the service at the first colon.
unfoldable pub before_colon : List ℕ → List ℕ → Option (List ℕ × List ℕ) → List ℕ × Option (List ℕ)
before_colon node rest none = (node, some rest)
before_colon node rest (some q) = ([], some (b':' ∷ rest))

unfoldable pub at_colon : Option (List ℕ × List ℕ) → List ℕ × Option (List ℕ)
unfolding memchr before_colon
at_colon none = ([], none)
at_colon (some (node, rest)) = before_colon node rest (memchr b':' rest)

-- `node:service`
unfoldable pub colon_separated : List ℕ → List ℕ × Option (List ℕ)
unfolding memchr at_colon
colon_separated host = at_colon (memchr b':' host)

-- The node and the service that `Lookup` asks for.
unfoldable pub node_and_service : List ℕ → List ℕ × Option (List ℕ)
unfolding bracketed colon_separated
node_and_service host =
    let first = bracketed host in
    let second = if is_empty first.0 then colon_separated host else first in
    if is_empty second.0 then (host, second.1) else second

unfoldable pub create_all : Endian → List (Option (List ℕ)) → List (Option Address)
create_all native [] = []
create_all native (b ∷ bs) = create native b ∷ create_all native bs

abbrev pub GetAddrInfo : Type 0
GetAddrInfo = List ℕ → Option (List ℕ) → ℕ → ℕ → ℕ → Option (List (Option (List ℕ)))

module _ (native : Endian) (getaddrinfo : GetAddrInfo) where
  -- `Lookup`: whether it succeeds, and `result` behind it.
  unfoldable pub lookup : List (Option Address) → List ℕ → ℕ → ℕ → ℕ → Bool × List (Option Address)
  unfolding node_and_service create_all
  lookup result host family type protocol =
      let (node, service) = node_and_service host in
      elim (getaddrinfo node service family type protocol) [
        | none ↦ (false, result)
        | some results ↦ let all = result ++ create_all native results in (not (is_empty all), all)
      ]

  unfoldable pub first_of : Bool × List (Option Address) → Option Address
  first_of (false, result) = none
  first_of (true, []) = none
  first_of (true, a ∷ result) = a

  unfoldable pub lookup_any : List ℕ → ℕ → ℕ → ℕ → Option Address
  unfolding lookup first_of
  lookup_any host family type protocol = first_of (lookup [] host family type protocol)

  -- The first that `dynamic_pointer_cast<IPAddress>` accepts.
  unfoldable pub first_ip : List (Option Address) → Option Address
  first_ip [] = none
  first_ip (some (ipv4 a) ∷ result) = some (ipv4 a)
  first_ip (some (ipv6 a) ∷ result) = some (ipv6 a)
  first_ip (some (unix a) ∷ result) = first_ip result
  first_ip (some (unknown a) ∷ result) = first_ip result
  first_ip (none ∷ result) = first_ip result

  unfoldable pub lookup_any_ip : List ℕ → ℕ → ℕ → ℕ → Option Address
  unfolding lookup first_ip
  lookup_any_ip host family type protocol =
      let r = lookup [] host family type protocol in if r.0 then first_ip r.1 else none

-- `IPAddress::Create`, by what `getaddrinfo` finds for a numeric host; after an error the pointer
-- to the results, which was not set, is followed.
unfoldable pub ip_create : Endian → Option (Option (List ℕ)) → ℕ → Outcome (Option Address)
ip_create native none port = crashed
ip_create native (some found) port = elim (create native found) [
  | none ↦ ok none
  | some (ipv4 a) ↦ ok (some (ipv4 (set_ipv4_port native port a)))
  | some (ipv6 a) ↦ ok (some (ipv6 (set_ipv6_port native port a)))
  | some (unix a) ↦ ok none
  | some (unknown a) ↦ ok none
]

-- A text without a byte.
abbrev pub Without : ℕ → List ℕ → Type 0
Without c = All (λ b. b ≢ c)

memchr_found : (c : ℕ) (xs ys : List ℕ) → Without c xs → memchr c (xs ++ (c ∷ ys)) ≡ some (xs, ys)
unfolding memchr
memchr_found c [] ys h = rw (==_self c) refl
memchr_found c (x ∷ xs) ys h = rw (ne→== x c h.0, memchr_found c xs ys h.1) refl

memchr_absent : (c : ℕ) (xs : List ℕ) → Without c xs → memchr c xs ≡ none
unfolding memchr
memchr_absent c [] h = refl
memchr_absent c (x ∷ xs) h = rw (ne→== x c h.0, memchr_absent c xs h.1) refl

module _ (x : ℕ) (xs : List ℕ) (plain : x ≢ b'[') (h : Without b':' (x ∷ xs)) where
  unbracketed : (rest : List ℕ) → bracketed (x ∷ (xs ++ rest)) ≡ ([], none)
  unfolding bracketed
  unbracketed rest = rw (ne→== x b'[' plain) refl

  one_colon :
      (service : List ℕ)
      → Without b':' service
      → colon_separated (x ∷ (xs ++ (b':' ∷ service))) ≡ (x ∷ xs, some service)
  unfolding colon_separated
  one_colon service k =
      ap at_colon (memchr_found b':' (x ∷ xs) service h)
      ∙ ap (before_colon (x ∷ xs) service) (memchr_absent b':' service k)

  two_colons :
      (service rest : List ℕ)
      → Without b':' service
      → colon_separated (x ∷ (xs ++ (b':' ∷ (service ++ (b':' ∷ rest)))))
        ≡ ([], some (b':' ∷ (service ++ (b':' ∷ rest))))
  unfolding colon_separated
  two_colons service rest k =
      let more = service ++ (b':' ∷ rest) in
      ap at_colon (memchr_found b':' (x ∷ xs) more h)
      ∙ ap (before_colon (x ∷ xs) more) (memchr_found b':' service rest k)

  -- A name that has no colon and does not begin with a bracket: with one colon and a service
  -- behind it, `Lookup` asks for the name and the service; with several colons it asks for the
  -- whole text, and for a service that begins with the first colon.
  pub colons_lem :
      (service rest : List ℕ)
      → Without b':' service
      → (node_and_service (x ∷ (xs ++ (b':' ∷ service))) ≡ (x ∷ xs, some service))
        × (node_and_service (x ∷ (xs ++ (b':' ∷ (service ++ (b':' ∷ rest))))) ≡ (
          x ∷ (xs ++ (b':' ∷ (service ++ (b':' ∷ rest)))),
          some (b':' ∷ (service ++ (b':' ∷ rest))),
        ))
  unfolding node_and_service
  colons_lem service rest k = (
    rw (unbracketed (b':' ∷ service), one_colon service k) refl,
    rw (unbracketed (b':' ∷ (service ++ (b':' ∷ rest))), two_colons service rest k) refl,
  )

-- Names in brackets, whatever colons they have, with a service and without.
pub brackets_lem :
    (x : ℕ) (xs service : List ℕ)
    → Without b']' (x ∷ xs)
    → (node_and_service (b'[' ∷ ((x ∷ xs) ++ (b']' ∷ b':' ∷ service))) ≡ (x ∷ xs, some service))
      × (node_and_service (b'[' ∷ ((x ∷ xs) ++ (b']' ∷ []))) ≡ (x ∷ xs, none))
unfolding node_and_service bracketed bracket_service
brackets_lem x xs service h = (
  rw (memchr_found b']' (x ∷ xs) (b':' ∷ service) h) refl,
  rw (memchr_found b']' (x ∷ xs) [] h) refl,
)

Digits-Without : (c : ℕ) (xs : List ℕ) → 58 ≤ c → All IsDigit xs → Without c xs
Digits-Without c [] l h = tt
Digits-Without c (x ∷ xs) l h = ((λ e. omega arith), Digits-Without c xs l h.1)

-- Digits, a colon, digits and a colon are not split.
digits_unsplit :
    (first second rest : List ℕ) (y : ℕ) (ys : List ℕ)
    → first ≡ y ∷ ys
    → All IsDigit first
    → All IsDigit second
    → node_and_service (first ++ (b':' ∷ (second ++ (b':' ∷ rest))))
      ≡ (first ++ (b':' ∷ (second ++ (b':' ∷ rest))), some (b':' ∷ (second ++ (b':' ∷ rest))))
digits_unsplit first second rest y ys e d d' =
    let digits = subst (All IsDigit) e d in
    let whole = λ (t : List ℕ). t ++ (b':' ∷ (second ++ (b':' ∷ rest))) in
    let found =
      colons_lem y ys (λ q. omega (arith, q, digits.0))
        (Digits-Without b':' (y ∷ ys) (omega arith) digits) second rest
        (Digits-Without b':' second (omega arith) d') in
    subst (λ t. node_and_service (whole t) ≡ (whole t, some (b':' ∷ (second ++ (b':' ∷ rest)))))
      (sym e) found.1

-- What an IPv4 address prints cannot be looked up: `Lookup` asks for the whole text as a name, and
-- for a service that begins with a colon.
pub printed_lem :
    (native : Endian) (a : Ipv4)
    → (rest : List ℕ) × (node_and_service (ipv4_text native a)
        ≡ (ipv4_text native a, some (b':' ∷ rest)))
unfolding ipv4_text
printed_lem native a =
    let addr = endian_cast native 4 a.s_addr big in
    let first = addr / 2 ^ 24 % 256 in
    let second = addr / 2 ^ 16 % 256 in
    let rest =
      decimal (addr / 2 ^ 8 % 256)
      ++ (b':'
          ∷ (decimal (addr % 256) ++ (b':' ∷ decimal (endian_cast native 2 a.sin_port big)))) in
    let (y, ys, e) = decimal_cons first in
    (
      decimal second ++ (b':' ∷ rest),
      digits_unsplit (decimal first) (decimal second) rest y ys e (decimal-All first)
          (decimal-All second),
    )
