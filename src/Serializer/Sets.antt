-- ===== src/Serializer/Sets.antt =====
-- Sets in `Serializer` (rpc/serializer.h). `less` is `operator<` of the elements.
use xzmjx_rpc.Prelude.{
  ℕ, ◌<◌, ◌≡◌, refl, ap, ◌∙◌, List, [], Bool, length, Outcome, ok, threw, crashed, stuck, ◌>>=◌,
}
use xzmjx_rpc.ByteArray.Defs.{ByteArray, Endian}
use xzmjx_rpc.ByteArray.Access.{to_string}
use xzmjx_rpc.ByteArray.Tape.{advanced}
use xzmjx_rpc.ByteArray.Rewind.{rewound}
use xzmjx_rpc.Codec.Varint.{write_uint64, read_uint64}
use xzmjx_rpc.Serializer.Defs.{
  Ty, Value, vector, write_each, read_each, serialize, deserialize, empty, of_string, reset,
}
use xzmjx_rpc.Serializer.RoundTrip.{Fits, format}
use xzmjx_rpc.Serializer.Transfer.{filled, transfer}
use xzmjx_rpc.Utils.Config.Cast.{insert_all}
use xzmjx_rpc.Utils.Config.Cast.Order.{IsAscending, insert_all-IsAscending}

module _ (t : Ty) where
  -- `insert` for each element that is read.
  abbrev pub insert_read :
      (Value t → Value t → Bool)
      → List (Value t)
      → List (Value t) × ByteArray
      → Outcome (List (Value t) × ByteArray)
  insert_read less set r = ok (insert_all less set r.0, r.1)

  module _ (native : Endian) where
    -- `operator<<` of a `std::set`: the elements in its order.
    unfoldable pub write_set : List (Value t) → ByteArray → Outcome ByteArray
    write_set set s = write_uint64 (length set) s >>= write_each (serialize native t) set

    -- `operator>>` of a `std::set`: the elements are inserted into the set that is there.
    unfoldable pub read_set :
        (Value t → Value t → Bool)
        → List (Value t)
        → ByteArray
        → Outcome (List (Value t) × ByteArray)
    read_set less set s =
        read_uint64 s >>= (λ n. read_each (deserialize native t) n.0 n.1 >>= insert_read less set)

    write_set-vector : (set : List (Value t)) → write_set set ≡ serialize native (vector t) set
    unfolding write_set serialize
    write_set-vector set = refl

    -- A set is read as a vector is, and then inserted.
    read_set-vector :
        (less : Value t → Value t → Bool) (set : List (Value t)) (s : ByteArray)
        → read_set less set s ≡ (deserialize native (vector t) s >>= insert_read less set)
    unfolding read_set deserialize
    read_set-vector less set s = through (read_uint64 s)
      where
        through :
            (o : Outcome (ℕ × ByteArray))
            → (o >>= (λ n. read_each (deserialize native t) n.0 n.1 >>= insert_read less set))
              ≡ ((o >>= (λ n. read_each (deserialize native t) n.0 n.1)) >>= insert_read less set)
        through (ok n) = refl
        through (threw e) = refl
        through crashed = refl
        through stuck = refl

-- A set whose elements are in the order of `less` and fit their type, and whose format, that of a
-- vector, has fewer than 4096 bytes: the host that serializes it gets the format, and the host that
-- makes a serializer of that string, of either byte order, reads the set into an empty one.
pub transfer_set :
    (here there : Endian) (memory memory' : ℕ → ℕ) (t : Ty) (less : Value t → Value t → Bool)
    (elements : List (Value t))
    → IsAscending less [] elements
    → Fits (vector t) elements
    → length (format (vector t) elements) < 4096
    → ((write_set t here elements (empty memory) >>= λ s. reset s >>= to_string)
        ≡ ok (format (vector t) elements))
      × ((of_string memory' (format (vector t) elements) >>= read_set t there less [])
          ≡ ok (
            elements,
            advanced
                (rewound (filled memory' (format (vector t) elements)))
                (length (format (vector t) elements)),
          ))
transfer_set here there memory memory' t less elements order fits small =
    let (sent, got) = transfer here there memory memory' (vector t) elements fits small in
    let rest =
      advanced (rewound (filled memory' (format (vector t) elements)))
        (length (format (vector t) elements)) in
    (
      ap (λ f. f (empty memory) >>= λ s. reset s >>= to_string) (write_set-vector t here elements)
          ∙ sent,
      read_after (of_string memory' (format (vector t) elements))
          ∙ ap (λ o. o >>= insert_read t less []) got
          ∙ ap (λ l. ok (l, rest)) (insert_all-IsAscending less [] elements order),
    )
  where
    read_after :
        (o : Outcome ByteArray)
        → (o >>= read_set t there less [])
          ≡ ((o >>= deserialize there (vector t)) >>= insert_read t less [])
    read_after (ok s) = read_set-vector t there less [] s
    read_after (threw e) = refl
    read_after crashed = refl
    read_after stuck = refl
