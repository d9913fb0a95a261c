-- ===== src/Net/Address/Print.antt =====
-- The texts of addresses (`insert` and `toString` in net/address.cpp), as lists of bytes.
use xzmjx_rpc.Prelude.{
  ℕ, zero, suc, ◌+◌, ◌-◌, ◌/◌, ◌%◌, ◌^◌, ◌<◌, ◌≤◌, ◌≡◌, refl, arith, List, [], ◌∷◌, ◌++◌, Bool,
  true, false, not, ◌&&◌, if◌then◌else◌, ◌==◌, ltb, ltb→lt, Bool-cases, inl, inr, All,
}
use xzmjx_rpc.ByteArray.Defs.{Endian, big}
use xzmjx_rpc.Codec.Endian.{endian_cast, object_value}
use xzmjx_rpc.Rpc.Text.{text}
use xzmjx_rpc.Net.Address.Defs.{Ipv4, Ipv6, Unknown}

unfoldable pub digit : ℕ → ℕ
digit d = if ltb d 10 then b'0' + d else b'a' + (d - 10)

-- An unsigned number in a base; `n` rounds are more than enough for `n`.
unfoldable pub print_digits : ℕ → ℕ → ℕ → List ℕ
print_digits zero base n = []
print_digits (suc fuel) base n =
    let more = print_digits fuel base (n / base) ++ (digit (n % base) ∷ []) in
    if ltb n base then digit n ∷ [] else more

unfoldable pub decimal : ℕ → List ℕ
unfolding print_digits digit
decimal n = print_digits (suc n) 10 n

unfoldable pub hex : ℕ → List ℕ
unfolding print_digits digit
hex n = print_digits (suc n) 16 n

-- `IPv4Address::insert`
unfoldable pub ipv4_text : Endian → Ipv4 → List ℕ
unfolding endian_cast
ipv4_text native a =
    let addr = endian_cast native 4 a.s_addr big in
    decimal (addr / 2 ^ 24 % 256)
    ++ (b':'
        ∷ (decimal (addr / 2 ^ 16 % 256)
            ++ (b':'
                ∷ (decimal (addr / 2 ^ 8 % 256)
                    ++ (b':'
                        ∷ (decimal (addr % 256)
                            ++ (b':' ∷ decimal (endian_cast native 2 a.sin_port big))))))))

-- The groups of two bytes as numbers of the host.
unfoldable pub groups_of : Endian → List ℕ → List ℕ
groups_of native [] = []
groups_of native (x ∷ []) = []
groups_of native (x ∷ y ∷ rest) = object_value native (x ∷ y ∷ []) ∷ groups_of native rest

-- The loop of `IPv6Address::insert` on the groups from `i` on: the group before, `used_zero`, and
-- what stands behind the loop, with the last group.
unfoldable pub print_groups : Endian → ℕ → ℕ → Bool → List ℕ → List ℕ
unfolding hex endian_cast
print_groups native i before used_zero [] =
    if not used_zero && before == 0 then b':' ∷ b':' ∷ [] else []
print_groups native i before used_zero (g ∷ gs) =
    let skipped = print_groups native (suc i) g used_zero gs in
    let zeros = not (i == 0) && (before == 0 && not used_zero) in
    let printed =
      (if zeros then b':' ∷ [] else [])
      ++ ((if i == 0 then [] else b':' ∷ [])
          ++ (hex (endian_cast native 2 g big)
              ++ print_groups native (suc i) g (if zeros then true else used_zero) gs)) in
    if g == 0 && not used_zero then skipped else printed

-- `IPv6Address::insert`
unfoldable pub ipv6_text : Endian → Ipv6 → List ℕ
unfolding groups_of print_groups decimal
ipv6_text native a =
    b'['
    ∷ (print_groups native 0 0 false (groups_of native a.s6_addr)
        ++ (b']' ∷ b':' ∷ decimal (endian_cast native 2 a.sin6_port big)))

-- `UnknownAddress::insert`
unfoldable pub unknown_text : Unknown → List ℕ
unfolding decimal
unknown_text a = text "UnknownAddress family = " ++ (decimal a.sa_family ++ (b']' ∷ []))

-- The bytes '0' to '9'.
abbrev pub IsDigit : ℕ → Type 0
IsDigit b = (48 ≤ b) × (b < 58)

All-snoc : (xs : List ℕ) (x : ℕ) → All IsDigit xs → IsDigit x → All IsDigit (xs ++ (x ∷ []))
All-snoc [] x h k = (k, tt)
All-snoc (y ∷ xs) x h k = (h.0, All-snoc xs x h.1 k)

digit-IsDigit : (d : ℕ) → d < 10 → IsDigit (digit d)
unfolding digit
digit-IsDigit d h = ground arith

print_digits-All : (fuel n : ℕ) → All IsDigit (print_digits fuel 10 n)
unfolding print_digits
print_digits-All zero n = tt
print_digits-All (suc fuel) n = elim (Bool-cases (ltb n 10)) [
  | inl e ↦ rw e (digit-IsDigit n (ltb→lt n 10 e), tt)
  | inr e ↦ rw e (
      All-snoc (print_digits fuel 10 (n / 10)) (digit (n % 10)) (print_digits-All fuel (n / 10))
        (digit-IsDigit (n % 10) (omega arith)))
]

pub decimal-All : (n : ℕ) → All IsDigit (decimal n)
unfolding decimal
decimal-All n = print_digits-All (suc n) n

snoc_cons : (xs : List ℕ) (x : ℕ) → (y : ℕ) × (ys : List ℕ) × (xs ++ (x ∷ []) ≡ y ∷ ys)
snoc_cons [] x = (x, [], refl)
snoc_cons (y ∷ xs) x = (y, xs ++ (x ∷ []), refl)

pub decimal_cons : (n : ℕ) → (y : ℕ) × (ys : List ℕ) × (decimal n ≡ y ∷ ys)
unfolding decimal print_digits
decimal_cons n = elim (Bool-cases (ltb n 10)) [
  | inl e ↦ (digit n, [], rw e refl)
  | inr e ↦
      let (y, ys, q) = snoc_cons (print_digits n 10 (n / 10)) (digit (n % 10)) in (y, ys, rw e q)
]
