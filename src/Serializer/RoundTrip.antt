-- ===== src/Serializer/RoundTrip.antt =====
-- What `Serializer` (rpc/serializer.h) writes it reads back.
use xzmjx_rpc.Prelude.{
  ℕ, ◌+◌, ◌%◌, ◌^◌, ◌<◌, ◌≡◌, ap, ◌∙◌, List, [], ◌∷◌, ◌++◌, arith, length, All, Outcome, ok, ◌>>=◌,
  true, false, if◌then◌else◌, ◌==◌,
}
use xzmjx_rpc.ByteArray.Defs.{ByteArray, Endian, big, write, copy_in}
use xzmjx_rpc.ByteArray.Tape.{Writes, Reads, Writes-then, Reads-then, Reads-map, write_append}
use xzmjx_rpc.Codec.Endian.{wire, object_bytes, le_bytes}
use xzmjx_rpc.Codec.Varint.{
  encoding, write_uint32-Writes, write_uint64-Writes, read_uint32-Reads, read_uint64-Reads,
  write_uint64, read_uint64, read_byte, read_byte-Reads,
}
use xzmjx_rpc.Codec.Zigzag.{IsCoded32, IsCoded64, zigzag32, zigzag64}
use xzmjx_rpc.Codec.Scalar.{
  write_fixed-Writes, read_fixed-Reads, write_int32-Writes, write_int64-Writes, read_int32-Reads,
  read_int64-Reads, write_string_vint-Writes, read_string_vint-Reads, string_bytes, write_fint8,
}
use xzmjx_rpc.Serializer.Defs.{
  Ty, Value, bool, float, double, uint8, int8, uint16, int16, uint32, int32, uint64, int64, string,
  unit, vector, list, tuple, bit, serialize, deserialize, write_each, read_each,
}

-- The numbers fit their types, those of `int32_t` and `int64_t` can be coded, and no string or
-- container is longer than a `size_t`.
abbrev pub Fits : (t : Ty) → Value t → Type 0
Fits bool v = Unit {0}
Fits float v = v < 2 ^ 32
Fits double v = v < 2 ^ 64
Fits uint8 v = v < 2 ^ 8
Fits int8 v = v < 2 ^ 8
Fits uint16 v = v < 2 ^ 16
Fits int16 v = v < 2 ^ 16
Fits uint32 v = v < 2 ^ 32
Fits int32 v = IsCoded32 v
Fits uint64 v = v < 2 ^ 64
Fits int64 v = IsCoded64 v
Fits string v = length v < 2 ^ 64
Fits unit v = Unit {0}
Fits (vector t) v = (length v < 2 ^ 64) × All (Fits t) v
Fits (list t) v = (length v < 2 ^ 64) × All (Fits t) v
Fits (tuple t u) v = Fits t v.0 × Fits u v.1

abbrev pub each : {A : Type 0} → (A → List ℕ) → List A → List ℕ
each f [] = []
each f (x ∷ xs) = f x ++ each f xs

-- The format: integers of 8 and 16 bits and floating-point numbers have a fixed length and stand
-- in network order; the others, and the lengths, have groups of seven bits.
unfoldable pub format : (t : Ty) → Value t → List ℕ
format bool v = bit v ∷ []
format float v = wire big 4 v
format double v = wire big 8 v
format uint8 v = v ∷ []
format int8 v = v ∷ []
format uint16 v = wire big 2 v
format int16 v = wire big 2 v
format uint32 v = encoding 4 v
format int32 v = encoding 4 (zigzag32 v)
format uint64 v = encoding 9 v
format int64 v = encoding 9 (zigzag64 v)
format string v = string_bytes v
format unit v = []
format (vector t) v = encoding 9 (length v) ++ each (format t) v
format (list t) v = encoding 9 (length v) ++ each (format t) v
format (tuple t u) v = format t v.0 ++ format u v.1

pub nothing-Writes : Writes ok []
unfolding copy_in
nothing-Writes s sm e h =
    let p : s.position ≡ s.position + 0 = omega arith in
    let q : s.size ≡ s.position + 0 = omega arith in
    λ i. ok (record s { position = p i; size = q i })

pub nothing-Reads : {A : Type 0} (a : A) → Reads (λ (s : ByteArray). ok (a, s)) [] a
nothing-Reads a s more sm e =
    let p : s.position ≡ s.position + 0 = omega arith in
    ap (λ x. ok (a, record s { position = x })) p

byte-object : (native : Endian) (v : ℕ) → v < 256 → object_bytes native 1 v ≡ v ∷ []
unfolding object_bytes le_bytes
byte-object Endian.little v h = let e : v % 256 ≡ v = omega arith in ap (λ x. x ∷ []) e
byte-object Endian.big v h = let e : v % 256 ≡ v = omega arith in ap (λ x. x ∷ []) e

pub write_fint8-Writes :
    (native : Endian) (v : ℕ) → v < 256 → Writes (write_fint8 native v) (v ∷ [])
unfolding write_fint8
write_fint8-Writes native v h s sm e fits =
    ap (λ b. write b s) (byte-object native v h) ∙ write_append (v ∷ []) s sm e fits

module _ {A : Type 0} (Good : A → Type 0) (bytes : A → List ℕ) where
  write_each-Writes :
      (f : A → ByteArray → Outcome ByteArray)
      → ((a : A) → Good a → Writes (f a) (bytes a))
      → (xs : List A) → All Good xs
      → Writes (write_each f xs) (each bytes xs)
  unfolding write_each
  write_each-Writes f h [] good = nothing-Writes
  write_each-Writes f h (x ∷ xs) good =
      Writes-then (f x) (write_each f xs) (bytes x) (each bytes xs) (h x good.0)
        (write_each-Writes f h xs good.1)

  read_each-Reads :
      (f : ByteArray → Outcome (A × ByteArray))
      → ((a : A) → Good a → Reads f (bytes a) a)
      → (xs : List A) → All Good xs
      → Reads (read_each f (length xs)) (each bytes xs) xs
  unfolding read_each
  read_each-Reads f h [] good = nothing-Reads []
  read_each-Reads f h (x ∷ xs) good =
      Reads-then f (λ a s. read_each f (length xs) s >>= λ q. ok (a ∷ q.0, q.1)) (bytes x)
        (each bytes xs) (h x good.0)
        (Reads-map (read_each f (length xs)) (λ l. x ∷ l) (each bytes xs)
          (read_each-Reads f h xs good.1))

module _ (native : Endian) where
  -- Every value that fits its type is appended in the format.
  pub serialize-Writes :
      (t : Ty) (v : Value t) → Fits t v → Writes (serialize native t v) (format t v)
  unfolding serialize format
  serialize-Writes bool true h = write_fint8-Writes native 1 (omega arith)
  serialize-Writes bool false h = write_fint8-Writes native 0 (omega arith)
  serialize-Writes float v h = write_fixed-Writes native 4 v h
  serialize-Writes double v h = write_fixed-Writes native 8 v h
  serialize-Writes uint8 v h = write_fint8-Writes native v h
  serialize-Writes int8 v h = write_fint8-Writes native v h
  serialize-Writes uint16 v h = write_fixed-Writes native 2 v h
  serialize-Writes int16 v h = write_fixed-Writes native 2 v h
  serialize-Writes uint32 v h = write_uint32-Writes v h
  serialize-Writes int32 v h = write_int32-Writes v h
  serialize-Writes uint64 v h = write_uint64-Writes v h
  serialize-Writes int64 v h = write_int64-Writes v h
  serialize-Writes string v h = write_string_vint-Writes v h
  serialize-Writes unit v h = nothing-Writes
  serialize-Writes (vector t) v h =
      Writes-then (write_uint64 (length v)) (write_each (serialize native t) v)
        (encoding 9 (length v)) (each (format t) v) (write_uint64-Writes (length v) h.0)
        (write_each-Writes (Fits t) (format t) (serialize native t) (serialize-Writes t) v h.1)
  serialize-Writes (list t) v h =
      Writes-then (write_uint64 (length v)) (write_each (serialize native t) v)
        (encoding 9 (length v)) (each (format t) v) (write_uint64-Writes (length v) h.0)
        (write_each-Writes (Fits t) (format t) (serialize native t) (serialize-Writes t) v h.1)
  serialize-Writes (tuple t u) v h =
      Writes-then (serialize native t v.0) (serialize native u v.1) (format t v.0) (format u v.1)
        (serialize-Writes t v.0 h.0) (serialize-Writes u v.1 h.1)

  pub deserialize-Reads :
      (t : Ty) (v : Value t) → Fits t v → Reads (deserialize native t) (format t v) v
  unfolding deserialize format
  deserialize-Reads bool true h =
      Reads-map read_byte (λ b. if b == 0 then false else true) (1 ∷ []) (read_byte-Reads 1)
  deserialize-Reads bool false h =
      Reads-map read_byte (λ b. if b == 0 then false else true) (0 ∷ []) (read_byte-Reads 0)
  deserialize-Reads float v h = read_fixed-Reads native 4 v h
  deserialize-Reads double v h = read_fixed-Reads native 8 v h
  deserialize-Reads uint8 v h = read_byte-Reads v
  deserialize-Reads int8 v h = read_byte-Reads v
  deserialize-Reads uint16 v h = read_fixed-Reads native 2 v h
  deserialize-Reads int16 v h = read_fixed-Reads native 2 v h
  deserialize-Reads uint32 v h = read_uint32-Reads v h
  deserialize-Reads int32 v h = read_int32-Reads v h
  deserialize-Reads uint64 v h = read_uint64-Reads v h
  deserialize-Reads int64 v h = read_int64-Reads v h
  deserialize-Reads string v h = read_string_vint-Reads v h
  deserialize-Reads unit v h = nothing-Reads v
  deserialize-Reads (vector t) v h =
      Reads-then read_uint64 (read_each (deserialize native t)) (encoding 9 (length v))
        (each (format t) v) (read_uint64-Reads (length v) h.0)
        (read_each-Reads (Fits t) (format t) (deserialize native t) (deserialize-Reads t) v h.1)
  deserialize-Reads (list t) v h =
      Reads-then read_uint64 (read_each (deserialize native t)) (encoding 9 (length v))
        (each (format t) v) (read_uint64-Reads (length v) h.0)
        (read_each-Reads (Fits t) (format t) (deserialize native t) (deserialize-Reads t) v h.1)
  deserialize-Reads (tuple t u) v h =
      Reads-then (deserialize native t) (λ a s. deserialize native u s >>= λ q. ok ((a, q.0), q.1))
        (format t v.0) (format u v.1) (deserialize-Reads t v.0 h.0)
        (Reads-map (deserialize native u) (λ b. (v.0, b)) (format u v.1)
          (deserialize-Reads u v.1 h.1))
