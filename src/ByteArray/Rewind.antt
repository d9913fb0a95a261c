-- ===== src/ByteArray/Rewind.antt =====
-- `setPosition(0)` and `toString` of utils/byte_array.cpp while the data lies in the first node.
use xzmjx_rpc.Prelude.{
  ℕ, zero, suc, ◌+◌, ◌-◌, ◌*◌, ◌/◌, ◌%◌, ◌^◌, ◌≤◌, ◌≡◌, refl, ap, sym, ◌∙◌, List, some, arith,
  ge→ltb, le→leb, ne→==, length, ok,
}
use xzmjx_rpc.ByteArray.Defs.{ByteArray, grow, copy_out, copy_in, get_read_size, create}
use xzmjx_rpc.ByteArray.Access.{set_position, seek_loop, to_string, read_at, read_at_loop, walk}
use xzmjx_rpc.ByteArray.Memory.{copy_out-copy_in}
use xzmjx_rpc.ByteArray.Tape.{IsSmall, unread, appended}
use native.Mathlib.Nat.{mod-eq_of_lt, div-eq_of_lt}

abbrev pub rewound : ByteArray → ByteArray
rewound s = record s { position = 0 }

pub set_position-rewound : (s : ByteArray) → IsSmall s → set_position 0 s ≡ ok (rewound s)
unfolding set_position seek_loop grow
set_position-rewound s sm =
    rw
      (
        ge→ltb s.capacity 0 (omega arith),
        ge→ltb s.base_size 0 (omega arith),
        ne→== 0 s.base_size (omega (arith, sm)),
        ge→ltb s.size 0 (omega arith),
      )
      (ap (λ c. ok (record s { position = 0; cur = c })) (sym sm.at_root))

pub rewound-IsSmall : (s : ByteArray) → IsSmall s → IsSmall (rewound s)
rewound-IsSmall s sm = record {
  valid = omega (arith, sm.valid);
  at_root = sm.at_root;
  size_lt = sm.size_lt;
  network_order = sm.network_order;
}

read_at_loop_small :
    (n : ℕ) (s : ByteArray)
    → IsSmall s
    → s.position + n ≤ s.size
    → read_at_loop (suc n) (some 0) s.position n s ≡ ok (copy_out s.cells s.position n)
unfolding read_at_loop copy_out
read_at_loop_small zero s sm h = refl
read_at_loop_small (suc m) s sm h =
    let zero_at : 0 * s.base_size + s.position ≡ s.position = omega arith in
    rw
      (
        ne→== (suc m) 0 (omega arith),
        le→leb (suc m) (s.base_size - s.position) (omega (arith, sm)),
        zero_at,
      )
      refl

-- `toString` gives the bytes from the position on.
pub to_string-unread : (s : ByteArray) → IsSmall s → to_string s ≡ ok (unread s)
unfolding to_string get_read_size read_at walk
to_string-unread s sm =
    let n : (s.size + 2 ^ 64 - s.position) % 2 ^ 64 ≡ s.size - s.position =
      omega (arith, sm.valid) in
    let npos : s.position % s.base_size ≡ s.position = mod-eq_of_lt (omega (arith, sm, sm.valid)) in
    let root : s.position / s.base_size ≡ 0 = div-eq_of_lt (omega (arith, sm, sm.valid)) in
    rw (n, ge→ltb (s.size - s.position) (s.size - s.position) (omega arith), root, npos)
      (read_at_loop_small (s.size - s.position) s sm (omega (arith, sm.valid)))

-- What was appended to a new array stands there when it is rewound.
pub unread-rewound :
    (memory : ℕ → ℕ) (base : ℕ) (bytes : List ℕ)
    → unread (rewound (appended (create memory base) bytes)) ≡ bytes
unfolding create
unread-rewound memory base bytes =
    ap (copy_out (copy_in memory 0 bytes) 0)
      (let e : 0 + length bytes - 0 ≡ length bytes = omega arith in e)
    ∙ copy_out-copy_in memory 0 bytes
