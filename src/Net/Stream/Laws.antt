-- ===== src/Net/Stream/Laws.antt =====
-- What the loops of net/stream.cpp read and write, over a socket, while the array's data lies in its
-- first node.
use xzmjx_rpc.Prelude.{
  ℕ, zero, suc, ◌+◌, ◌-◌, ◌%◌, ◌^◌, ◌≤◌, ◌<◌, ◌≡◌, refl, ap, ap₂, sym, ◌∙◌, List, [], ◌∷◌, ◌++◌,
  append-nil, append_assoc, arith, lt→ltb, ne→==, length, take, drop, take-append-drop, ok, ◌>>=◌,
  true,
}
use xzmjx_rpc.ByteArray.Defs.{ByteArray, copy_in, copy_out}
use xzmjx_rpc.ByteArray.Memory.{length-copy_out, drop-copy_out}
use xzmjx_rpc.ByteArray.Tape.{IsSmall, appended, appended-IsSmall, appended-appended, unread}
use xzmjx_rpc.Net.Stream.Defs.{
  Count, got, to_int, Received, bytes, Socket, gather, capacity_of, recv, read, read_loop,
  read_from, write_from, sent, read_fixed_size, send, write, write_loop, write_fixed_size,
}
use xzmjx_rpc.Net.Stream.Small.{
  set_position_on, set_position_back, get_read_buffers_small, get_write_buffers_small,
}

take_most : {A : Type 0} (n : ℕ) (xs : List A) → length xs ≤ n → take n xs ≡ xs
take_most zero [] h = refl
take_most zero (x ∷ xs) h = absurd (omega arith)
take_most (suc n) [] h = refl
take_most (suc n) (x ∷ xs) h = ap (λ l. x ∷ l) (take_most n xs (omega arith))

to_int-small : (n : ℕ) → n < 2 ^ 31 → to_int n ≡ got n
unfolding to_int
to_int-small n h = let e : n % 2 ^ 32 ≡ n = omega arith in rw (e, lt→ltb n (2 ^ 31) h) refl

module _ {S : Type 0} (recvmsg : ℕ → S → Received × S) where
  -- One receive of `b` into the end of an array.
  read-appended :
      (n : ℕ) (b : List ℕ) (s : ByteArray) (x y : S)
      → IsSmall s
      → s.position ≡ s.size
      → s.position + n < s.base_size
      → 0 < length b
      → length b ≤ n
      → recvmsg n x ≡ (bytes b, y)
      → read recvmsg n s (record { is_connect = true; peer = x })
        ≡ ok (got (length b), appended s b, record { is_connect = true; peer = y })
  unfolding read capacity_of recv
  read-appended n b s x y sm e h pos len r =
      let n' : n + 0 ≡ n = omega arith in
      let t = record s { cells = copy_in s.cells s.position b } in
      let small : IsSmall t = record {
        valid = omega (arith, sm.valid);
        at_root = sm.at_root;
        size_lt = sm.size_lt;
        network_order = sm.network_order;
      } in
      let taken : recv recvmsg (n + 0) (record { is_connect = true; peer = x })
          ≡ (bytes b, record { is_connect = true; peer = y }) =
        ap (λ k. recv recvmsg k (record { is_connect = true; peer = x })) n'
        ∙ ap (λ (q : Received × S). (q.0, record { is_connect = true; peer = q.1 })) r in
      rw
        (
          get_write_buffers_small n s sm (omega arith) h,
          taken,
          take_most n b len,
          ne→== (length b) 0 (omega arith),
          set_position_on (s.position + length b) t small (omega (arith, sm)) (omega arith),
        )
        refl

  read_done :
      (fuel size left : ℕ) (s : ByteArray) (k : Socket S)
      → left ≡ 0
      → size < 2 ^ 31
      → read_loop recvmsg (suc fuel) size left s k ≡ ok (got size, s, k)
  unfolding read_loop
  read_done fuel size left s k e h = rw (e, to_int-small size h) refl

  read_step :
      (fuel size left n : ℕ) (s t : ByteArray) (j k : Socket S)
      → 0 < left
      → 0 < n
      → read recvmsg size s j ≡ ok (got n, t, k)
      → read_loop recvmsg (suc fuel) size left s j ≡ read_loop recvmsg fuel size (left - n) t k
  unfolding read_loop
  read_step fuel size left n s t j k hl hn r =
      rw (ne→== left 0 (omega arith), r, ne→== n 0 (omega arith)) refl

  -- All of what is asked for arrives at once: it stands behind the array's data.
  pub read_fixed_size-whole :
      (b : List ℕ) (s : ByteArray) (x y : S)
      → IsSmall s
      → s.position ≡ s.size
      → s.position + length b < s.base_size
      → 0 < length b
      → length b < 2 ^ 31
      → recvmsg (length b) x ≡ (bytes b, y)
      → read_fixed_size recvmsg (length b) s (record { is_connect = true; peer = x })
        ≡ ok (got (length b), appended s b, record { is_connect = true; peer = y })
  unfolding read_fixed_size
  read_fixed_size-whole [] s x y sm e h pos lt r = absurd (omega arith)
  read_fixed_size-whole (c ∷ b) s x y sm e h pos lt r =
      let n = length (c ∷ b) in
      ap (λ i. read_from recvmsg i n s (record { is_connect = true; peer = x })) (to_int-small n lt)
      ∙ (read_step n n n n s (appended s (c ∷ b)) _ _ (omega arith) (omega arith)
            (read-appended n (c ∷ b) s x y sm e h pos (omega arith) r)
          ∙ read_done (length b) n (n - n) _ _ (omega arith) lt)

  -- The defect of `readFixedSize` on byte arrays: each round asks for all of `length` again. Where
  -- the first receive comes short of it and the second brings as many bytes as it is asked for, the
  -- function returns `length` and has taken more than `length` bytes from the stream: both pieces.
  pub read_fixed_size_overreads :
      (b c : List ℕ) (s : ByteArray) (x y z : S)
      → IsSmall s
      → s.position ≡ s.size
      → s.position + length b + length c < s.base_size
      → 0 < length b
      → length b < length c
      → length c < 2 ^ 31
      → recvmsg (length c) x ≡ (bytes b, y)
      → recvmsg (length c) y ≡ (bytes c, z)
      → read_fixed_size recvmsg (length c) s (record { is_connect = true; peer = x })
        ≡ ok (got (length c), appended s (b ++ c), record { is_connect = true; peer = z })
  unfolding read_fixed_size
  read_fixed_size_overreads b [] s x y z sm e h pos short lt r r' = absurd (omega arith)
  read_fixed_size_overreads b (d ∷ c) s x y z sm e h pos short lt r r' =
      let n = length (d ∷ c) in
      let t = appended s b in
      let small = appended-IsSmall s b sm e (omega arith) in
      ap (λ i. read_from recvmsg i n s (record { is_connect = true; peer = x })) (to_int-small n lt)
      ∙ (read_step n n n (length b) s t _ _ (omega arith) pos
            (read-appended n b s x y sm e (omega arith) pos (omega arith) r)
          ∙ read_step (length c) n (n - length b) n t (appended t (d ∷ c)) _ _ (omega arith)
              (omega arith)
              (read-appended n (d ∷ c) t y z small refl (omega arith) (omega arith) (omega arith)
                r')
          ∙ fuel_left c n (n - length b - n) _ _ (omega arith) (omega arith) lt
          ∙ ap (λ u. ok (got n, u, record { is_connect = true; peer = z }))
              (appended-appended s b (d ∷ c)))
    where
      fuel_left :
          (c : List ℕ) (size left : ℕ) (s : ByteArray) (k : Socket S)
          → 0 < length c
          → left ≡ 0
          → size < 2 ^ 31
          → read_loop recvmsg (length c) size left s k ≡ ok (got size, s, k)
      fuel_left [] size left s k pos e h = absurd (omega arith)
      fuel_left (a ∷ c) size left s k pos e h = read_done (length c) size left s k e h

-- What a `sendmsg` is relied on for: of a text that is not empty it takes a part that is not empty,
-- from its beginning, and sends it behind what was sent.
pub record Sends {S : Type 0} (sendmsg : List ℕ → S → Count × S) (delivered : S → List ℕ)
    : Type 0 where
  pub part : List ℕ → S → ℕ
  pub after : List ℕ → S → S
  pub part_pos : (b : List ℕ) (x : S) → 0 < length b → 0 < part b x
  pub part_le : (b : List ℕ) (x : S) → part b x ≤ length b
  pub returns : (b : List ℕ) (x : S) → 0 < length b → sendmsg b x ≡ (got (part b x), after b x)
  pub delivers : (b : List ℕ) (x : S) → delivered (after b x) ≡ delivered x ++ take (part b x) b

module _ {S : Type 0} (sendmsg : List ℕ → S → Count × S) (delivered : S → List ℕ)
    (law : Sends sendmsg delivered) where
  write_part :
      (n : ℕ) (s : ByteArray) (x : S)
      → IsSmall s
      → s.position < s.size
      → s.size - s.position ≤ n
      → write sendmsg n s (record { is_connect = true; peer = x })
        ≡ ok (
          got (law.part (unread s) x),
          record s { position = s.position + law.part (unread s) x },
          record { is_connect = true; peer = law.after (unread s) x },
        )
  unfolding write gather send
  write_part n s x sm h k =
      let u = unread s in
      let len : length u ≡ s.size - s.position =
        length-copy_out s.cells s.position (s.size - s.position) in
      let out : send sendmsg (u ++ []) (record { is_connect = true; peer = x })
          ≡ (got (law.part u x), record { is_connect = true; peer = law.after u x }) =
        ap (λ d. send sendmsg d (record { is_connect = true; peer = x })) (append-nil u)
        ∙ ap (λ (q : Count × S). (q.0, record { is_connect = true; peer = q.1 }))
            (law.returns u x (omega arith)) in
      ap
        (λ o. o >>= λ w.
          sent s (send sendmsg (gather w.1 s.cells) (record { is_connect = true; peer = x })))
        (get_read_buffers_small n s sm h k)
      ∙ ap (sent s) out
      ∙ rw
          (
            ne→== (law.part u x) 0 (omega (arith, law.part_pos u x)),
            set_position_back (s.position + law.part u x) s sm (omega (arith, law.part_le u x)),
          )
          refl

  -- The part of what is unread that is left behind a part of it.
  unread_rest :
      (s : ByteArray) (p : ℕ) → unread (record s { position = s.position + p }) ≡ drop p (unread s)
  unread_rest s p =
      ap (copy_out s.cells (s.position + p))
        (let e : s.size - (s.position + p) ≡ s.size - s.position - p = omega arith in e)
      ∙ sym (drop-copy_out s.cells s.position p (s.size - s.position))

  moved :
      (s : ByteArray) (p : ℕ)
      → IsSmall s
      → s.position + p ≤ s.size
      → IsSmall (record s { position = s.position + p })
  moved s p sm h = record {
    valid = omega (arith, sm.valid);
    at_root = sm.at_root;
    size_lt = sm.size_lt;
    network_order = sm.network_order;
  }

  -- The socket behind a write of what is unread, and what it was sent.
  abbrev Delivered : ℕ → ℕ → ℕ → ByteArray → S → Type 0
  Delivered fuel size left s x =
      (y : S) × (write_loop sendmsg fuel size left s (record { is_connect = true; peer = x })
        ≡ ok (got size, record s { position = s.size }, record { is_connect = true; peer = y }))
      × (delivered y ≡ delivered x ++ unread s)

  write_loop_lem :
      (fuel size left : ℕ) (s : ByteArray) (x : S)
      → IsSmall s
      → s.position + left ≡ s.size
      → left < fuel
      → left ≤ size
      → size < 2 ^ 31
      → Delivered fuel size left s x
  unfolding write_loop copy_out
  write_loop_lem zero size left s x sm e lt le small = absurd (omega arith)
  write_loop_lem (suc fuel) size zero s x sm e lt le small =
      let at : s.position ≡ s.size = omega (arith, e) in
      let none_left : s.size - s.position ≡ 0 = omega (arith, e) in
      (
        x,
        ap₂ (λ i p. ok (i, record s { position = p }, record { is_connect = true; peer = x }))
            (to_int-small size small) at,
        sym (append-nil (delivered x))
            ∙ ap (λ n. delivered x ++ copy_out s.cells s.position n) (sym none_left),
      )
  write_loop_lem (suc fuel) size (suc left) s x sm e lt le small =
      let u = unread s in
      let p = law.part u x in
      let len : length u ≡ suc left =
        length-copy_out s.cells s.position (s.size - s.position)
        ∙ (let q : s.size - s.position ≡ suc left = omega (arith, e) in q) in
      let pos : 0 < p = law.part_pos u x (omega arith) in
      let le' : p ≤ suc left = omega (arith, law.part_le u x) in
      let t = record s { position = s.position + p } in
      let (y, done, all) =
        write_loop_lem fuel size (suc left - p) t (law.after u x) (moved s p sm (omega (arith, e)))
          (omega (arith, e)) (omega arith) (omega arith) small in
      (
        y,
        rw
            (
              ne→== (suc left) 0 (omega arith),
              write_part size s x sm (omega (arith, e)) (omega (arith, e)),
              ne→== p 0 (omega arith),
            )
            done,
        all
            ∙ ap₂ ◌++◌ (law.delivers u x) (unread_rest s p)
            ∙ append_assoc (delivered x) (take p u) (drop p u)
            ∙ ap (λ l. delivered x ++ l) (take-append-drop p u),
      )

  -- Over a connection that takes a part of each text it is given, however small, `writeFixedSize`
  -- of all that is unread, of an array whose data ends inside its first node, where its cursor is,
  -- returns and sends all of that, once and in order, behind what was sent before; it returns the
  -- length, and the array stands at its end.
  pub write_fixed_size_sends :
      (s : ByteArray) (x : S)
      → IsSmall s
      → s.size - s.position < 2 ^ 31
      → (y : S) × (write_fixed_size sendmsg
            (s.size - s.position)
            s
            (record { is_connect = true; peer = x })
          ≡ ok (
            got (s.size - s.position),
            record s { position = s.size },
            record { is_connect = true; peer = y },
          ))
        × (delivered y ≡ delivered x ++ unread s)
  unfolding write_fixed_size
  write_fixed_size_sends s x sm small =
      let n = s.size - s.position in
      let (y, done, all) =
        write_loop_lem (suc n) n n s x sm (omega (arith, sm.valid)) (omega arith) (omega arith)
          small in
      (
        y,
        ap (λ i. write_from sendmsg i n s (record { is_connect = true; peer = x }))
              (to_int-small n small)
            ∙ done,
        all,
      )
