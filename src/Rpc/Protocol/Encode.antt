-- ===== src/Rpc/Protocol/Encode.antt =====
-- `Protocol::encode` (rpc/protocol.cpp): messages without an error text, and with one.
use xzmjx_rpc.Prelude.{
  ℕ, ◌+◌, ◌-◌, ◌%◌, ◌^◌, ◌≤◌, ◌<◌, ◌≡◌, refl, ap, ap₂, sym, subst, ◌∙◌, List, [], ◌∷◌, ◌++◌, length,
  length-append, take, false, Outcome, ok, crashed, threw, stuck, bad_alloc, ◌>>=◌, ◌==◌, le→leb,
  gt→leb, ne→==, arith, Bool-cases, inl, inr, ==→eq,
}
use xzmjx_rpc.ByteArray.Defs.{ByteArray, Endian}
use xzmjx_rpc.ByteArray.Access.{set_position}
use xzmjx_rpc.ByteArray.Tape.{Writes, Writes-then, write_append, appended, advanced}
use xzmjx_rpc.ByteArray.Rewind.{rewound, rewound-IsSmall, set_position-rewound}
use xzmjx_rpc.Codec.Scalar.{write_string_vint, write_string_vint-Writes, string_bytes}
use xzmjx_rpc.Codec.Varint.{length-encoding, encoding}
use xzmjx_rpc.Serializer.Defs.{empty}
use xzmjx_rpc.Serializer.RoundTrip.{nothing-Writes}
use xzmjx_rpc.Serializer.Transfer.{filled, write_filled, filled-IsSmall, unread-filled}
use xzmjx_rpc.Rpc.Protocol.Defs.{
  Protocol, create_with, create_plain, get_payload_length, c_str_bytes, encode, encode_body,
  encode_msg, encode_payload, encode_header, decode_header,
}
use xzmjx_rpc.Rpc.Protocol.Header.{
  HeaderFits, header_bytes, length-header_bytes, encode_header-Writes, decode_header-Reads, decoded,
}

take_all : (xs : List ℕ) → take (length xs) xs ≡ xs
take_all [] = refl
take_all (x ∷ xs) = ap (λ l. x ∷ l) (take_all xs)

nil_of_length : (xs : List ℕ) → length xs ≡ 0 → xs ≡ []
nil_of_length [] h = refl
nil_of_length (x ∷ xs) h = absurd (omega arith)

module _ (native : Endian) (memory : ℕ → ℕ) (type id : ℕ) (content : List ℕ)
    (type_fits : type < 256) (id_fits : id < 2 ^ 64) (small : length content + 20 < 4096) where
  abbrev pub message : Protocol
  message = create_plain type content id

  pub plain-HeaderFits : HeaderFits message
  unfolding create_plain
  plain-HeaderFits = omega arith

  payload-Writes : Writes (encode_payload native message) content
  unfolding encode_payload create_plain get_payload_length c_str_bytes
  payload-Writes s sm e fits =
      let n : ((0 + length content) % 2 ^ 64 + 2 ^ 64 - 0) % 2 ^ 64 ≡ length content =
        omega arith in
      elim (Bool-cases (length content == 0)) [
        | inl none_left ↦
            rw (n, none_left)
              (subst (λ l. ok s ≡ ok (appended s l))
                (sym (nil_of_length content (==→eq _ _ none_left)))
                (nothing-Writes s sm e (omega arith)))
        | inr some_left ↦
            rw
              (
                n,
                some_left,
                gt→leb (2 ^ 63) (length content) (omega arith),
                le→leb (length content) (length content) (omega arith),
                take_all content,
              )
              (write_append content s sm e fits)
      ]

  no_text : (s : ByteArray) → encode_msg native message s ≡ ok s
  unfolding encode_msg create_plain
  no_text s = refl

  body-Writes : Writes (encode_body native message) (header_bytes message ++ content)
  unfolding encode_body
  body-Writes =
      Writes-then (encode_header native message)
        (λ s1. encode_msg native message s1 >>= encode_payload native message)
        (header_bytes message) content (encode_header-Writes native message plain-HeaderFits)
        (λ s sm e fits.
          ap (λ o. o >>= encode_payload native message) (no_text s) ∙ payload-Writes s sm e fits)

  pub header_fields :
      (q : Protocol)
      → decoded native message plain-HeaderFits q ≡ record q {
        carry_msg = false;
        magic = 0xfc;
        version = 0x10;
        type = type;
        err_code = 1;
        seq = id;
        payload_len = length content;
      }
  unfolding create_plain
  header_fields q =
      let e : (0 + length content) % 2 ^ 64 ≡ length content = omega arith in
      ap
        (λ n. record q {
          carry_msg = false;
          magic = 0xfc;
          version = 0x10;
          type = type;
          err_code = 1;
          seq = id;
          payload_len = n;
        })
        e

  -- A message made by `Create(type, content, id)`, of at most 4075 bytes of content, is encoded as
  -- its twenty-byte header and the content, in an array that stands at its beginning; and
  -- `decodeHeader` on that array, into any message `q`, sets the seven header fields to those of
  -- the encoded message, `carry_msg` and the error code among them, keeps the rest of `q`, and
  -- leaves the array in front of the content.
  pub encode-decode_header :
      (q : Protocol)
      → (encode native memory message
          ≡ ok (rewound (filled memory (header_bytes message ++ content))))
        × (decode_header native q (rewound (filled memory (header_bytes message ++ content)))
            ≡ ok (
              record q {
                carry_msg = false;
                magic = 0xfc;
                version = 0x10;
                type = type;
                err_code = 1;
                seq = id;
                payload_len = length content;
              },
              advanced (rewound (filled memory (header_bytes message ++ content))) 20,
            ))
  unfolding encode
  encode-decode_header q =
      let bytes = header_bytes message ++ content in
      let n : length bytes < 4096 =
        omega (arith, length-append (header_bytes message) content, length-header_bytes message) in
      let sm = filled-IsSmall memory bytes n in
      let t = rewound (filled memory bytes) in
      (
        ap (λ o. o >>= set_position 0)
              (write_filled memory (encode_body native message) bytes body-Writes n)
            ∙ set_position-rewound (filled memory bytes) sm,
        decode_header-Reads native message plain-HeaderFits q t content (rewound-IsSmall _ sm)
              (unread-filled memory bytes)
            ∙ ap₂ (λ x y. ok (x, advanced t y)) (header_fields q) (length-header_bytes message),
      )

error-HeaderFits :
    (type code id : ℕ) (msg content : List ℕ)
    → type < 256
    → code < 128
    → id < 2 ^ 64
    → 0 < length msg
    → HeaderFits (create_with type (record { code = code; msg = msg }) content id)
unfolding create_with
error-HeaderFits type code id msg content ht hc hi h =
    rw (ne→== (length msg) 0 (omega arith)) (omega arith)

error-msg :
    (native : Endian) (type code id : ℕ) (msg content : List ℕ)
    → 0 < length msg
    → (s : ByteArray)
    → encode_msg native (create_with type (record { code = code; msg = msg }) content id) s
      ≡ write_string_vint msg s
unfolding encode_msg create_with
error-msg native type code id msg content h s = rw (ne→== (length msg) 0 (omega arith)) refl

error-payload :
    (native : Endian) (type code id : ℕ) (msg content : List ℕ)
    → length content < length msg
    → length msg < 4096
    → (s : ByteArray)
    → encode_payload native (create_with type (record { code = code; msg = msg }) content id) s
      ≡ threw bad_alloc
unfolding encode_payload create_with get_payload_length
error-payload native type code id msg content short small s =
    let n = ((0 + length content) % 2 ^ 64 + 2 ^ 64 - length msg) % 2 ^ 64 in
    let big : 2 ^ 63 ≤ n = omega arith in
    rw (ne→== (length msg) 0 (omega arith), ne→== n 0 (omega arith), le→leb (2 ^ 63) n big) refl

bind_assoc :
    (o : Outcome ByteArray) (f g h : ByteArray → Outcome ByteArray)
    → (o >>= λ s. f s >>= g) >>= h ≡ (o >>= f) >>= g >>= h
bind_assoc (ok s) f g h = refl
bind_assoc (threw e) f g h = refl
bind_assoc crashed f g h = refl
bind_assoc stuck f g h = refl

body_assoc :
    (native : Endian) (p : Protocol) (memory : ℕ → ℕ)
    → encode native memory p
      ≡ (encode_header native p (empty memory) >>= encode_msg native p)
        >>= encode_payload native p
        >>= set_position 0
unfolding encode encode_body
body_assoc native p memory =
    bind_assoc (encode_header native p (empty memory)) (encode_msg native p)
      (encode_payload native p) (set_position 0)

-- The defect of the messages that carry an error text: the text is not counted in the payload
-- length, from which its size is then taken away. Where the content is shorter than the text the
-- difference wraps round, and `encode` asks for that much room and throws `bad_alloc`: no such message
-- is made.
pub encode_error_throws :
    (native : Endian) (memory : ℕ → ℕ) (type code id : ℕ) (msg content : List ℕ)
    → type < 256
    → code < 128
    → id < 2 ^ 64
    → length content < length msg
    → length msg + 30 < 4096
    → encode native memory (create_with type (record { code = code; msg = msg }) content id)
      ≡ threw bad_alloc
encode_error_throws native memory type code id msg content ht hc hi short small =
    let p = create_with type (record { code = code; msg = msg }) content id in
    let fits : HeaderFits p = error-HeaderFits type code id msg content ht hc hi (omega arith) in
    let len : length (header_bytes p ++ string_bytes msg) < 4096 = omega (
      arith,
      length-append (header_bytes p) (string_bytes msg),
      length-header_bytes p,
      length-append (encoding 9 (length msg)) msg,
      length-encoding 9 (length msg),
    ) in
    let written : Writes (λ s. encode_header native p s >>= encode_msg native p)
        (header_bytes p ++ string_bytes msg) =
      Writes-then (encode_header native p) (encode_msg native p) (header_bytes p) (string_bytes msg)
        (encode_header-Writes native p fits)
        (λ s sm e h.
          error-msg native type code id msg content (omega arith) s
          ∙ write_string_vint-Writes msg (omega arith) s sm e h) in
    body_assoc native p memory
    ∙ ap (λ o. o >>= encode_payload native p >>= set_position 0)
        (write_filled memory (λ s. encode_header native p s >>= encode_msg native p)
          (header_bytes p ++ string_bytes msg) written len)
    ∙ ap (λ o. o >>= set_position 0)
        (error-payload native type code id msg content short (omega arith)
          (filled memory (header_bytes p ++ string_bytes msg)))
