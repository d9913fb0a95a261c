-- ===== src/Rpc/Protocol/Header.antt =====
-- The header of a message (rpc/protocol.cpp): its bytes, and that they are read back.
use xzmjx_rpc.Prelude.{
  ℕ, ◌+◌, ◌*◌, ◌/◌, ◌%◌, ◌^◌, ◌<◌, ◌≡◌, ap, subst, ◌∙◌, List, [], ◌∷◌, ◌++◌, length, length-append,
  bit_and, bit_or, Bool, true, false, not, ◌==◌, arith,
}
use xzmjx_rpc.Prelude.Bits.{bit_or_flag, bit_and_one}
use xzmjx_rpc.ByteArray.Defs.{Endian, big}
use xzmjx_rpc.ByteArray.Tape.{Writes, Reads, Writes-then, Reads-then, Reads-map}
use xzmjx_rpc.Codec.Endian.{wire, length-wire}
use xzmjx_rpc.Codec.Varint.{read_byte, read_byte-Reads}
use xzmjx_rpc.Codec.Scalar.{
  write_fint8, write_fint64, read_fint64, write_fixed-Writes, read_fixed-Reads,
}
use xzmjx_rpc.Serializer.RoundTrip.{write_fint8-Writes}
use xzmjx_rpc.Rpc.Protocol.Defs.{Protocol, encode_header, decode_header, flag}

-- The fields fit the integers that carry them; an error code has seven bits.
pub record HeaderFits (p : Protocol) : Type 0 where
  pub magic_fits : p.magic < 256
  pub version_fits : p.version < 256
  pub type_fits : p.type < 256
  pub code_fits : p.err_code < 128
  pub seq_fits : p.seq < 2 ^ 64
  pub len_fits : p.payload_len < 2 ^ 64

-- The twenty bytes of a header.
unfoldable pub header_bytes : Protocol → List ℕ
header_bytes p =
    (p.magic ∷ [])
    ++ ((p.version ∷ [])
        ++ ((p.type ∷ [])
            ++ (((p.err_code * 2 + flag p.carry_msg) ∷ [])
                ++ (wire big 8 p.seq ++ wire big 8 p.payload_len))))

pub length-header_bytes : (p : Protocol) → length (header_bytes p) ≡ 20
unfolding header_bytes
length-header_bytes p = omega (
  arith,
  length-append (wire big 8 p.seq) (wire big 8 p.payload_len),
  length-wire big 8 p.seq,
  length-wire big 8 p.payload_len,
)

flag-lt : (b : Bool) → flag b < 2
flag-lt true = omega arith
flag-lt false = omega arith

flag_back : (c : ℕ) (b : Bool) → not (bit_and (c * 2 + flag b) 1 == 0) ≡ b
flag_back c true =
    ap (λ x. not (x == 0))
      (bit_and_one (c * 2 + 1) ∙ (let e : (c * 2 + 1) % 2 ≡ 1 = omega arith in e))
flag_back c false =
    ap (λ x. not (x == 0))
      (bit_and_one (c * 2 + 0) ∙ (let e : (c * 2 + 0) % 2 ≡ 0 = omega arith in e))

module _ (native : Endian) (p : Protocol) (fits : HeaderFits p) where
  status_byte : bit_or (p.err_code * 2) (flag p.carry_msg) % 256 ≡ p.err_code * 2 + flag p.carry_msg
  status_byte = omega (
    arith,
    bit_or_flag p.err_code (flag p.carry_msg) (flag-lt p.carry_msg),
    flag-lt p.carry_msg,
    fits.code_fits,
  )

  fint64-Writes : (v : ℕ) → v < 2 ^ 64 → Writes (write_fint64 native v) (wire big 8 v)
  unfolding write_fint64
  fint64-Writes v h = write_fixed-Writes native 8 v h

  fint64-Reads : (v : ℕ) → v < 2 ^ 64 → Reads (read_fint64 native) (wire big 8 v) v
  unfolding read_fint64
  fint64-Reads v h = read_fixed-Reads native 8 v h

  pub encode_header-Writes : Writes (encode_header native p) (header_bytes p)
  unfolding encode_header header_bytes
  encode_header-Writes =
      let w = λ (v : ℕ) (h : v < 256). write_fint8-Writes native v h in
      let status = bit_or (p.err_code * 2) (flag p.carry_msg) % 256 in
      let seq = write_fint64 native p.seq in
      let len = write_fint64 native p.payload_len in
      let status-Writes : Writes (write_fint8 native status)
          ((p.err_code * 2 + flag p.carry_msg) ∷ []) =
        subst (λ b. Writes (write_fint8 native status) (b ∷ [])) status_byte
          (w status (omega arith)) in
      let numbers = wire big 8 p.seq ++ wire big 8 p.payload_len in
      let from_status = (p.err_code * 2 + flag p.carry_msg) ∷ numbers in
      let from_type = p.type ∷ from_status in
      Writes-then (write_fint8 native p.magic) _ (p.magic ∷ []) (p.version ∷ from_type)
        (w p.magic fits.magic_fits)
        (Writes-then (write_fint8 native p.version) _ (p.version ∷ []) from_type
          (w p.version fits.version_fits)
          (Writes-then (write_fint8 native p.type) _ (p.type ∷ []) from_status
            (w p.type fits.type_fits)
            (Writes-then (write_fint8 native status) _ ((p.err_code * 2 + flag p.carry_msg) ∷ [])
              numbers status-Writes
              (Writes-then seq len (wire big 8 p.seq) (wire big 8 p.payload_len)
                (fint64-Writes p.seq fits.seq_fits) (fint64-Writes p.payload_len fits.len_fits)))))

  abbrev pub decoded : Protocol → Protocol
  decoded q = record q {
    magic = p.magic;
    version = p.version;
    type = p.type;
    err_code = p.err_code;
    carry_msg = p.carry_msg;
    seq = p.seq;
    payload_len = p.payload_len;
  }

  code_back : (p.err_code * 2 + flag p.carry_msg) / 2 ≡ p.err_code
  code_back = omega (arith, flag-lt p.carry_msg)

  pub decode_header-Reads :
      (q : Protocol) → Reads (decode_header native q) (header_bytes p) (decoded q)
  unfolding decode_header header_bytes
  decode_header-Reads q =
      let temp = p.err_code * 2 + flag p.carry_msg in
      let numbers = wire big 8 p.seq ++ wire big 8 p.payload_len in
      let from_type = p.type ∷ temp ∷ numbers in
      subst
        (λ c. Reads (decode_header native q) (header_bytes p) (record (decoded q) { err_code = c }))
        code_back
        (subst
          (λ b.
            Reads (decode_header native q) (header_bytes p)
              (record (decoded q) { err_code = temp / 2; carry_msg = b }))
          (flag_back p.err_code p.carry_msg)
          (Reads-then read_byte _ (p.magic ∷ []) (p.version ∷ from_type) (read_byte-Reads p.magic) (
            Reads-then read_byte _ (p.version ∷ []) from_type (read_byte-Reads p.version) (
              Reads-then read_byte _ (p.type ∷ []) (temp ∷ numbers) (read_byte-Reads p.type) (
                Reads-then read_byte _ (temp ∷ []) numbers (read_byte-Reads temp) (
                  Reads-then (read_fint64 native) _ (wire big 8 p.seq) (wire big 8 p.payload_len)
                    (fint64-Reads p.seq fits.seq_fits)
                    (Reads-map (read_fint64 native)
                      (λ (len : ℕ). record q {
                        magic = p.magic;
                        version = p.version;
                        type = p.type;
                        err_code = temp / 2;
                        carry_msg = not (bit_and temp 1 == 0);
                        seq = p.seq;
                        payload_len = len;
                      })
                      (wire big 8 p.payload_len) (fint64-Reads p.payload_len fits.len_fits))))))))
