-- ===== src/Serializer/Transfer.antt =====
-- A value carried from one host to another through `Serializer` (rpc/serializer.h).
use xzmjx_rpc.Prelude.{
  ℕ, ◌<◌, ◌≡◌, refl, ap, sym, ◌∙◌, List, append-nil, arith, length, Outcome, ok, ◌>>=◌,
}
use xzmjx_rpc.ByteArray.Defs.{ByteArray, Endian, create, write}
use xzmjx_rpc.ByteArray.Access.{set_position, to_string}
use xzmjx_rpc.ByteArray.Tape.{
  IsSmall, appended, advanced, unread, appended-IsSmall, create-IsSmall, write_append, Writes,
}
use xzmjx_rpc.ByteArray.Rewind.{
  rewound, set_position-rewound, rewound-IsSmall, to_string-unread, unread-rewound,
}
use xzmjx_rpc.Serializer.Defs.{Ty, Value, serialize, deserialize, empty, of_string, reset}
use xzmjx_rpc.Serializer.RoundTrip.{Fits, format, serialize-Writes, deserialize-Reads}

-- A node of the default size, with `bytes` appended.
unfoldable pub filled : (ℕ → ℕ) → List ℕ → ByteArray
unfolding empty create
filled memory bytes = appended (empty memory) bytes

pub empty-IsSmall : (memory : ℕ → ℕ) → IsSmall (empty memory)
unfolding empty
empty-IsSmall memory = create-IsSmall memory 4096 (omega arith) (omega arith)

pub filled-IsSmall :
    (memory : ℕ → ℕ) (bytes : List ℕ) → length bytes < 4096 → IsSmall (filled memory bytes)
unfolding filled empty create
filled-IsSmall memory bytes h =
    appended-IsSmall (empty memory) bytes (empty-IsSmall memory) refl (omega arith)

-- A writer on a new array, in the terms of `filled`.
pub write_filled :
    (memory : ℕ → ℕ) (f : ByteArray → Outcome ByteArray) (bytes : List ℕ)
    → Writes f bytes
    → length bytes < 4096
    → f (empty memory) ≡ ok (filled memory bytes)
unfolding filled empty create
write_filled memory f bytes w h = w (empty memory) (empty-IsSmall memory) refl (omega arith)

pub unread-filled :
    (memory : ℕ → ℕ) (bytes : List ℕ) → unread (rewound (filled memory bytes)) ≡ bytes
unfolding filled empty
unread-filled memory bytes = unread-rewound memory 4096 bytes

pub to_string-filled :
    (memory : ℕ → ℕ) (bytes : List ℕ)
    → length bytes < 4096
    → (reset (filled memory bytes) >>= to_string) ≡ ok bytes
unfolding reset
to_string-filled memory bytes h =
    let sm = filled-IsSmall memory bytes h in
    ap (λ o. o >>= to_string) (set_position-rewound (filled memory bytes) sm)
    ∙ to_string-unread (rewound (filled memory bytes)) (rewound-IsSmall _ sm)
    ∙ ap ok (unread-filled memory bytes)

pub of_string-filled :
    (memory : ℕ → ℕ) (bytes : List ℕ)
    → length bytes < 4096
    → of_string memory bytes ≡ ok (rewound (filled memory bytes))
unfolding of_string
of_string-filled memory bytes h =
    ap (λ o. o >>= set_position 0) (write_filled memory (write bytes) bytes (write_append bytes) h)
    ∙ set_position-rewound (filled memory bytes) (filled-IsSmall memory bytes h)

-- A value that fits its type, of any of the types and of any nesting of them, an integer of 32 or
-- 64 bits being one that has a zigzag code, whose format has fewer than 4096 bytes: the host that
-- serializes it into a new array, resets the array and takes its string gets the format, and the
-- host that makes a serializer of that string, of either byte order, deserializes the value.
pub transfer :
    (here there : Endian) (memory memory' : ℕ → ℕ) (t : Ty) (v : Value t)
    → Fits t v
    → length (format t v) < 4096
    → ((serialize here t v (empty memory) >>= λ s. reset s >>= to_string) ≡ ok (format t v))
      × ((of_string memory' (format t v) >>= deserialize there t)
          ≡ ok (v, advanced (rewound (filled memory' (format t v))) (length (format t v))))
transfer here there memory memory' t v fits small =
    let bytes = format t v in
    (
      ap (λ o. o >>= λ s. reset s >>= to_string)
            (write_filled memory (serialize here t v) bytes (serialize-Writes here t v fits) small)
          ∙ to_string-filled memory bytes small,
      ap (λ o. o >>= deserialize there t) (of_string-filled memory' bytes small)
          ∙ deserialize-Reads there t v fits (rewound (filled memory' bytes)) List.[]
              (rewound-IsSmall _ (filled-IsSmall memory' bytes small))
              (unread-filled memory' bytes ∙ sym (append-nil bytes)),
    )
