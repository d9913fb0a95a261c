-- ===== src/Examples/Sets.antt =====
-- A concrete set through the serializer.
use xzmjx_rpc.Prelude.{ℕ, ◌<◌, ◌≡◌, refl, arith, List, [], ◌∷◌, ltb, length, ok, ◌>>=◌}
use xzmjx_rpc.ByteArray.Defs.{little, big}
use xzmjx_rpc.ByteArray.Access.{to_string}
use xzmjx_rpc.ByteArray.Tape.{advanced}
use xzmjx_rpc.ByteArray.Rewind.{rewound}
use xzmjx_rpc.Codec.Varint.{encoding}
use xzmjx_rpc.Serializer.Defs.{Value, int8, vector, empty, of_string, reset}
use xzmjx_rpc.Serializer.RoundTrip.{format}
use xzmjx_rpc.Serializer.Transfer.{filled}
use xzmjx_rpc.Serializer.Sets.{write_set, read_set, transfer_set}

abbrev fresh : ℕ → ℕ
fresh x = 0

abbrev bytes_set : List (Value int8)
bytes_set = 3 ∷ 5 ∷ []

bytes_set_small : length (format (vector int8) bytes_set) < 4096
unfolding format encoding
bytes_set_small = omega arith

transfer_set_example :
    ((write_set int8 little bytes_set (empty fresh) >>= λ s. reset s >>= to_string)
      ≡ ok (format (vector int8) bytes_set))
    × ((of_string fresh (format (vector int8) bytes_set) >>= read_set int8 big ltb [])
        ≡ ok (
          bytes_set,
          advanced
              (rewound (filled fresh (format (vector int8) bytes_set)))
              (length (format (vector int8) bytes_set)),
        ))
transfer_set_example =
    transfer_set little big fresh fresh int8 ltb bytes_set (tt, (((refl, refl), tt), tt))
      (omega arith, (omega arith, (omega arith, tt))) bytes_set_small
