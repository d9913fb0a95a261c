-- ===== src/Serializer/Defs.antt =====
-- `Serializer` (rpc/serializer.h): the operators << and >> for the types that both of them
-- support. A serializer is its byte array. A `std::tuple` is built up from `unit` and `tuple`.
use xzmjx_rpc.Prelude.{
  ℕ, zero, suc, ◌+◌, List, [], ◌∷◌, length, Outcome, ok, ◌>>=◌, Bool, true, false, if◌then◌else◌,
  ◌==◌,
}
use xzmjx_rpc.ByteArray.Defs.{ByteArray, Endian, create, write}
use xzmjx_rpc.ByteArray.Access.{set_position}
use xzmjx_rpc.Codec.Varint.{write_uint32, write_uint64, read_uint32, read_uint64, read_byte}
use xzmjx_rpc.Codec.Scalar.{
  write_fint8, write_fixed, read_fixed, write_int32, write_int64, read_int32, read_int64,
  write_string_vint, read_string_vint,
}

-- The types that the operators take. `char*` and `const char*` are written as strings.
pub data Ty : Type 0 where
  bool float double uint8 int8 uint16 int16 uint32 int32 uint64 int64 string unit : Ty
  vector list : Ty → Ty
  tuple : Ty → Ty → Ty

-- A number is its bit pattern, a string its bytes, a container the list of its elements.
abbrev pub Value : Ty → Type 0
Value bool = Bool
Value string = List ℕ
Value unit = Unit {0}
Value (vector t) = List (Value t)
Value (list t) = List (Value t)
Value (tuple t u) = Value t × Value u
Value float = ℕ
Value double = ℕ
Value uint8 = ℕ
Value int8 = ℕ
Value uint16 = ℕ
Value int16 = ℕ
Value uint32 = ℕ
Value int32 = ℕ
Value uint64 = ℕ
Value int64 = ℕ

-- The element loop of the operators for containers.
unfoldable pub write_each :
    {A : Type 0} → (A → ByteArray → Outcome ByteArray) → List A → ByteArray → Outcome ByteArray
write_each f [] s = ok s
write_each f (x ∷ xs) s = f x s >>= write_each f xs

-- `for (size_t i = 0; i < n; i++) { T v{}; (*this) >> v; data.push_back(v); }`
unfoldable pub read_each :
    {A : Type 0}
    → (ByteArray → Outcome (A × ByteArray))
    → ℕ
    → ByteArray
    → Outcome (List A × ByteArray)
read_each f zero s = ok ([], s)
read_each f (suc n) s = f s >>= λ r. read_each f n r.1 >>= λ q. ok (r.0 ∷ q.0, q.1)

abbrev pub bit : Bool → ℕ
bit true = 1
bit false = 0

module _ (native : Endian) where
  -- `serialize` and `operator<<`.
  unfoldable pub serialize : (t : Ty) → Value t → ByteArray → Outcome ByteArray
  unfolding write_each
  serialize bool v s = write_fint8 native (bit v) s
  serialize float v s = write_fixed native 4 v s
  serialize double v s = write_fixed native 8 v s
  serialize uint8 v s = write_fint8 native v s
  serialize int8 v s = write_fint8 native v s
  serialize uint16 v s = write_fixed native 2 v s
  serialize int16 v s = write_fixed native 2 v s
  serialize uint32 v s = write_uint32 v s
  serialize int32 v s = write_int32 v s
  serialize uint64 v s = write_uint64 v s
  serialize int64 v s = write_int64 v s
  serialize string v s = write_string_vint v s
  serialize unit v s = ok s
  serialize (vector t) v s = write_uint64 (length v) s >>= write_each (serialize t) v
  serialize (list t) v s = write_uint64 (length v) s >>= write_each (serialize t) v
  serialize (tuple t u) v s = serialize t v.0 s >>= serialize u v.1

  -- `deserialize` and `operator>>`.
  unfoldable pub deserialize : (t : Ty) → ByteArray → Outcome (Value t × ByteArray)
  unfolding read_each
  deserialize bool s = read_byte s >>= λ r. ok (if r.0 == 0 then false else true, r.1)
  deserialize float s = read_fixed native 4 s
  deserialize double s = read_fixed native 8 s
  deserialize uint8 s = read_byte s
  deserialize int8 s = read_byte s
  deserialize uint16 s = read_fixed native 2 s
  deserialize int16 s = read_fixed native 2 s
  deserialize uint32 s = read_uint32 s
  deserialize int32 s = read_int32 s
  deserialize uint64 s = read_uint64 s
  deserialize int64 s = read_int64 s
  deserialize string s = read_string_vint s
  deserialize unit s = ok (tt, s)
  deserialize (vector t) s = read_uint64 s >>= λ n. read_each (deserialize t) n.0 n.1
  deserialize (list t) s = read_uint64 s >>= λ n. read_each (deserialize t) n.0 n.1
  deserialize (tuple t u) s =
      deserialize t s >>= λ r. deserialize u r.1 >>= λ q. ok ((r.0, q.0), q.1)

-- `Serializer()`, whose array has the default node size, and `Serializer(data)`.
unfoldable pub empty : (ℕ → ℕ) → ByteArray
unfolding create
empty memory = create memory 4096

unfoldable pub of_string : (ℕ → ℕ) → List ℕ → Outcome ByteArray
unfolding empty write set_position
of_string memory bytes = write bytes (empty memory) >>= set_position 0

-- `skip`, `reset`; `clear` and `toString` are those of the array.
unfoldable pub skip : ℕ → ByteArray → Outcome ByteArray
unfolding set_position
skip cnt s = set_position (s.position + cnt) s

unfoldable pub reset : ByteArray → Outcome ByteArray
unfolding set_position
reset s = set_position 0 s
