-- ===== src/Codec/Scalar.antt =====
-- The integers of fixed length, the floating-point numbers and the strings of
-- utils/byte_array.cpp. An integer is its bit pattern, a `float` or `double` the integer that
-- `memcpy` makes of it, a string the list of its bytes. `native` is the byte order of the host.
use xzmjx_rpc.Prelude.{
  ℕ, ◌+◌, ◌-◌, ◌%◌, ◌^◌, ◌<◌, ◌≡◌, ap, sym, subst, ◌∙◌, List, ◌++◌, length, Outcome, ok, ◌>>=◌,
  if◌then◌else◌, leb,
}
use xzmjx_rpc.ByteArray.Defs.{ByteArray, Endian, big, write, read}
use xzmjx_rpc.ByteArray.Tape.{
  Writes, Reads, Writes-then, Reads-then, Reads-map, write_append, read-Reads, advanced,
}
use xzmjx_rpc.Codec.Endian.{
  object_bytes, object_value, endian_cast, wire, endian_cast-wire, length-wire,
}
use xzmjx_rpc.Codec.Varint.{
  write_uint32, read_uint32, write_uint64, read_uint64, encoding, write_uint64-Writes,
  read_uint64-Reads, write_uint32-Writes, read_uint32-Reads,
}
use xzmjx_rpc.Codec.Zigzag.{
  encode_zigzag32, decode_zigzag32, encode_zigzag64, decode_zigzag64, IsCoded32, IsCoded64,
  zigzag32, zigzag64, zigzag32-Codes, zigzag64-Codes,
}

-- `uint64_t len = readFint16();`, which extends the sign.
unfoldable pub sign_extend16 : ℕ → ℕ
sign_extend16 v = if leb (2 ^ 15) v then v + 2 ^ 64 - 2 ^ 16 else v

module _ (native : Endian) where
  -- `T v = EndianCastByType(value, m_endian); write(&v, sizeof(v));`
  unfoldable pub write_fixed : ℕ → ℕ → ByteArray → Outcome ByteArray
  unfolding object_bytes endian_cast
  write_fixed k v s = write (object_bytes native k (endian_cast native k v s.endian)) s

  -- `T ans; read(&ans, sizeof(ans)); return EndianCastByType(ans, m_endian);`
  unfoldable pub read_fixed : ℕ → ByteArray → Outcome (ℕ × ByteArray)
  unfolding object_value endian_cast
  read_fixed k s =
      read k s >>= λ r. ok (endian_cast native k (object_value native r.0) r.1.endian, r.1)

  -- `writeFint8` and `writeFuint8` cast nothing.
  unfoldable pub write_fint8 : ℕ → ByteArray → Outcome ByteArray
  unfolding object_bytes
  write_fint8 v s = write (object_bytes native 1 v) s

  unfoldable pub write_fint16 : ℕ → ByteArray → Outcome ByteArray
  unfolding write_fixed
  write_fint16 v s = write_fixed 2 v s

  unfoldable pub write_fint32 : ℕ → ByteArray → Outcome ByteArray
  unfolding write_fixed
  write_fint32 v s = write_fixed 4 v s

  unfoldable pub write_fint64 : ℕ → ByteArray → Outcome ByteArray
  unfolding write_fixed
  write_fint64 v s = write_fixed 8 v s

  unfoldable pub read_fint16 : ByteArray → Outcome (ℕ × ByteArray)
  unfolding read_fixed
  read_fint16 s = read_fixed 2 s

  unfoldable pub read_fint32 : ByteArray → Outcome (ℕ × ByteArray)
  unfolding read_fixed
  read_fint32 s = read_fixed 4 s

  unfoldable pub read_fint64 : ByteArray → Outcome (ℕ × ByteArray)
  unfolding read_fixed
  read_fint64 s = read_fixed 8 s

  pub write_fixed-Writes : (k v : ℕ) → v < 256 ^ k → Writes (write_fixed k v) (wire big k v)
  unfolding write_fixed
  write_fixed-Writes k v h s sm e fits =
      let (same, _) = endian_cast-wire native big k v h in
      ap (λ x. write (object_bytes native k (endian_cast native k v x)) s) sm.network_order
      ∙ ap (λ b. write b s) same
      ∙ write_append (wire big k v) s sm e fits

  pub read_fixed-Reads : (k v : ℕ) → v < 256 ^ k → Reads (read_fixed k) (wire big k v) v
  unfolding read_fixed
  read_fixed-Reads k v h s more sm e =
      let bytes = wire big k v in
      let n : length bytes ≡ k = length-wire big k v in
      let (_, same) = endian_cast-wire native big k v h in
      let t = advanced s (length bytes) in
      ap
        (λ j. read j s >>= λ r. ok (endian_cast native k (object_value native r.0) r.1.endian, r.1))
        (sym n)
      ∙ ap (λ o. o >>= λ r. ok (endian_cast native k (object_value native r.0) r.1.endian, r.1))
          (read-Reads bytes s more sm e)
      ∙ ap (λ x. ok (endian_cast native k (object_value native bytes) x, t)) sm.network_order
      ∙ ap (λ x. ok (x, t)) same

  -- `length(fixed)+data`; the length is cut to the width of its integer.
  unfoldable pub write_string_f16 : List ℕ → ByteArray → Outcome ByteArray
  unfolding write_fint16
  write_string_f16 str s = write_fint16 (length str % 2 ^ 16) s >>= write str

  unfoldable pub write_string_f32 : List ℕ → ByteArray → Outcome ByteArray
  unfolding write_fint32
  write_string_f32 str s = write_fint32 (length str % 2 ^ 32) s >>= write str

  unfoldable pub write_string_f64 : List ℕ → ByteArray → Outcome ByteArray
  unfolding write_fint64
  write_string_f64 str s = write_fint64 (length str % 2 ^ 64) s >>= write str

  unfoldable pub read_string_f16 : ByteArray → Outcome (List ℕ × ByteArray)
  unfolding read_fint16
  read_string_f16 s = read_fint16 s >>= λ r. read r.0 r.1

  unfoldable pub read_string_f32 : ByteArray → Outcome (List ℕ × ByteArray)
  unfolding read_fint32
  read_string_f32 s = read_fint32 s >>= λ r. read r.0 r.1

  unfoldable pub read_string_f64 : ByteArray → Outcome (List ℕ × ByteArray)
  unfolding read_fint16 sign_extend16
  read_string_f64 s = read_fint16 s >>= λ r. read (sign_extend16 r.0) r.1

unfoldable pub write_int32 : ℕ → ByteArray → Outcome ByteArray
unfolding write_uint32 encode_zigzag32
write_int32 v s = encode_zigzag32 v >>= λ u. write_uint32 u s

unfoldable pub write_int64 : ℕ → ByteArray → Outcome ByteArray
unfolding write_uint64 encode_zigzag64
write_int64 v s = encode_zigzag64 v >>= λ u. write_uint64 u s

unfoldable pub read_int32 : ByteArray → Outcome (ℕ × ByteArray)
unfolding read_uint32 decode_zigzag32
read_int32 s = read_uint32 s >>= λ r. ok (decode_zigzag32 r.0, r.1)

unfoldable pub read_int64 : ByteArray → Outcome (ℕ × ByteArray)
unfolding read_uint64 decode_zigzag64
read_int64 s = read_uint64 s >>= λ r. ok (decode_zigzag64 r.0, r.1)

unfoldable pub write_string_vint : List ℕ → ByteArray → Outcome ByteArray
unfolding write_uint64
write_string_vint str s = write_uint64 (length str) s >>= write str

unfoldable pub read_string_vint : ByteArray → Outcome (List ℕ × ByteArray)
unfolding read_uint64
read_string_vint s = read_uint64 s >>= λ r. read r.0 r.1

abbrev pub string_bytes : List ℕ → List ℕ
string_bytes str = encoding 9 (length str) ++ str

pub write_string_vint-Writes :
    (str : List ℕ) → length str < 2 ^ 64 → Writes (write_string_vint str) (string_bytes str)
unfolding write_string_vint
write_string_vint-Writes str h =
    Writes-then (write_uint64 (length str)) (write str) (encoding 9 (length str)) str
      (write_uint64-Writes (length str) h) (write_append str)

pub read_string_vint-Reads :
    (str : List ℕ) → length str < 2 ^ 64 → Reads read_string_vint (string_bytes str) str
unfolding read_string_vint
read_string_vint-Reads str h =
    Reads-then read_uint64 read (encoding 9 (length str)) str (read_uint64-Reads (length str) h)
      (read-Reads str)

pub write_int32-Writes : (v : ℕ) → IsCoded32 v → Writes (write_int32 v) (encoding 4 (zigzag32 v))
unfolding write_int32
write_int32-Writes v h s sm e fits =
    let c = zigzag32-Codes v h in
    ap (λ o. o >>= λ u. write_uint32 u s) c.coded
    ∙ write_uint32-Writes (zigzag32 v) c.word_lt s sm e fits

pub read_int32-Reads : (v : ℕ) → IsCoded32 v → Reads read_int32 (encoding 4 (zigzag32 v)) v
unfolding read_int32
read_int32-Reads v h =
    let c = zigzag32-Codes v h in
    let u = zigzag32 v in
    subst (λ x. Reads (λ s. read_uint32 s >>= λ r. ok (decode_zigzag32 r.0, r.1)) (encoding 4 u) x)
      c.decoded
      (Reads-map read_uint32 decode_zigzag32 (encoding 4 u) (read_uint32-Reads u c.word_lt))

pub write_int64-Writes : (v : ℕ) → IsCoded64 v → Writes (write_int64 v) (encoding 9 (zigzag64 v))
unfolding write_int64
write_int64-Writes v h s sm e fits =
    let c = zigzag64-Codes v h in
    ap (λ o. o >>= λ u. write_uint64 u s) c.coded
    ∙ write_uint64-Writes (zigzag64 v) c.word_lt s sm e fits

pub read_int64-Reads : (v : ℕ) → IsCoded64 v → Reads read_int64 (encoding 9 (zigzag64 v)) v
unfolding read_int64
read_int64-Reads v h =
    let c = zigzag64-Codes v h in
    let u = zigzag64 v in
    subst (λ x. Reads (λ s. read_uint64 s >>= λ r. ok (decode_zigzag64 r.0, r.1)) (encoding 9 u) x)
      c.decoded
      (Reads-map read_uint64 decode_zigzag64 (encoding 9 u) (read_uint64-Reads u c.word_lt))
