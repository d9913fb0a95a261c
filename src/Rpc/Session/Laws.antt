-- ===== src/Rpc/Session/Laws.antt =====
-- Messages sent and received by `RpcSession` (rpc/rpc_session.cpp).
use xzmjx_rpc.Prelude.{
  ℕ, ◌+◌, ◌-◌, ◌%◌, ◌^◌, ◌<◌, ◌≡◌, refl, ap, sym, ◌∙◌, List, [], ◌++◌, append-nil, arith, length,
  length-append, ne→==, lt→ltb, Outcome, ok, ◌>>=◌, Option, some, true, false, threw, crashed,
  stuck, subst,
}
use xzmjx_rpc.ByteArray.Defs.{ByteArray, Endian, create, clear}
use xzmjx_rpc.ByteArray.Access.{set_position, to_string}
use xzmjx_rpc.ByteArray.Tape.{IsSmall, advanced}
use xzmjx_rpc.ByteArray.Rewind.{rewound, set_position-rewound, rewound-IsSmall}
use xzmjx_rpc.Serializer.Defs.{empty, reset}
use xzmjx_rpc.Serializer.Transfer.{
  filled, filled-IsSmall, empty-IsSmall, unread-filled, to_string-filled,
}
use xzmjx_rpc.Net.Stream.Defs.{
  Count, got, Received, bytes, Socket, read_fixed_size, write_fixed_size,
}
use xzmjx_rpc.Net.Stream.Laws.{read_fixed_size-whole, write_fixed_size_sends, Sends}
use xzmjx_rpc.Rpc.Protocol.Defs.{
  Protocol, new_protocol, create_plain, get_payload_length, decode_header, magic_number,
  default_version, header_len,
}
use xzmjx_rpc.Rpc.Protocol.Header.{header_bytes, length-header_bytes, decode_header-Reads}
use xzmjx_rpc.Rpc.Protocol.Encode.{encode-decode_header, plain-HeaderFits, header_fields}
use xzmjx_rpc.Rpc.Session.Defs.{
  recv_header, recv_payload, recv_content, recv_msg, recv_protocol, send_protocol, positive,
}

some_sent : (n : ℕ) → 0 < n → positive (got n) ≡ true
unfolding positive
some_sent n h = lt→ltb 0 n h

module _ (native : Endian) (memory : ℕ → ℕ) (type id : ℕ) (content : List ℕ)
    (type_fits : type < 256) (id_fits : id < 2 ^ 64) (small : length content + 20 < 4096) where
  abbrev message : Protocol
  message = create_plain type content id

  abbrev frame : List ℕ
  frame = header_bytes message ++ content

  frame-length : length frame ≡ 20 + length content
  frame-length =
      omega (arith, length-append (header_bytes message) content, length-header_bytes message)

  -- `sendProtocol` of a plain message of at most 4075 bytes of content, over a connection that takes
  -- a part of each text it is given: it returns true, and what the peer is sent is the header and
  -- the content, once and in order.
  pub send_protocol_lem :
      {S : Type 0} (sendmsg : List ℕ → S → Count × S) (delivered : S → List ℕ)
      → Sends sendmsg delivered
      → (x : S)
      → (y : S) × (send_protocol native sendmsg memory message
            (record { is_connect = true; peer = x })
          ≡ ok (true, record { is_connect = true; peer = y }))
        × (delivered y ≡ delivered x ++ frame)
  unfolding send_protocol filled empty create
  send_protocol_lem {S} sendmsg delivered law x =
      let t = rewound (filled memory frame) in
      let made =
        (encode-decode_header native memory type id content type_fits id_fits small
          new_protocol).0 in
      let sm : IsSmall t =
        rewound-IsSmall _ (filled-IsSmall memory frame (omega (arith, frame-length))) in
      let (y, done, all) =
        write_fixed_size_sends sendmsg delivered law t x sm (omega (arith, frame-length)) in
      let n : t.size - 0 ≡ t.size = omega arith in
      let sock : Socket S = record { is_connect = true; peer = x } in
      (
        y,
        ap
              (λ o. o >>= λ bt.
                write_fixed_size sendmsg bt.size bt sock >>= λ r. ok (positive r.0, r.2))
              made
            ∙ ap (λ k. write_fixed_size sendmsg k t sock >>= λ r. ok (positive r.0, r.2)) (sym n)
            ∙ ap (λ o. o >>= λ r. ok (positive r.0, r.2)) done
            ∙ ap (λ b. ok (b, record { is_connect = true; peer = y }))
                (some_sent (t.size - 0) (omega (arith, frame-length))),
        all ∙ ap (λ l. delivered x ++ l) (unread-filled memory frame),
      )

  module _ {S : Type 0} (recvmsg : ℕ → S → Received × S) (x y z : S) where
    abbrev sock : S → Socket S
    sock p = record { is_connect = true; peer = p }

    -- The message that the header gives, before its content has come.
    abbrev headed : Protocol
    headed = record new_protocol {
      carry_msg = false;
      magic = magic_number;
      version = default_version;
      type = type;
      err_code = 1;
      seq = id;
      payload_len = length content;
    }

    hb_length : length (header_bytes message) ≡ 20
    hb_length = length-header_bytes message

    header_read :
        recvmsg header_len x ≡ (bytes (header_bytes message), y)
        → read_fixed_size recvmsg header_len (empty memory) (sock x)
          ≡ ok (got header_len, filled memory (header_bytes message), sock y)
    unfolding filled empty create
    header_read r =
        subst
          (λ n.
            recvmsg n x ≡ (bytes (header_bytes message), y)
            → read_fixed_size recvmsg n (empty memory) (sock x)
              ≡ ok (got n, filled memory (header_bytes message), sock y))
          hb_length
          (read_fixed_size-whole recvmsg (header_bytes message) (empty memory) x y
            (empty-IsSmall memory) refl (omega (arith, hb_length)) (omega (arith, hb_length))
            (omega (arith, hb_length)))
          r

    content_read :
        (cells : ℕ → ℕ)
        → 0 < length content
        → recvmsg (length content) y ≡ (bytes content, z)
        → read_fixed_size recvmsg (length content) (empty cells) (sock y)
          ≡ ok (got (length content), filled cells content, sock z)
    unfolding filled empty create
    content_read cells pos r =
        read_fixed_size-whole recvmsg content (empty cells) y z (empty-IsSmall cells) refl
          (omega arith) pos (omega arith) r

    with_content : List ℕ → Outcome (Option Protocol × Socket S)
    with_content c = ok (some (record headed { payload = c }), sock z)

    content_kept :
        (cells : ℕ → ℕ)
        → 0 < length content
        → recv_content headed (got (length content), filled cells content, sock z)
          ≡ ok (some (record headed { payload = content }), sock z)
    unfolding recv_content recv_msg reset with_content
    content_kept cells pos =
        let back = to_string-filled cells content (omega arith) in
        rw (some_sent (length content) pos)
          (string_kept (set_position 0 (filled cells content)) back)
      where
        string_kept :
            (o : Outcome ByteArray)
            → (o >>= to_string) ≡ ok content
            → (o >>= λ bt. to_string bt >>= with_content)
              ≡ ok (some (record headed { payload = content }), sock z)
        string_kept (ok bt) e = ap (λ (o : Outcome (List ℕ)). o >>= with_content) e
        string_kept (threw e') e = cc
        string_kept crashed e = cc
        string_kept stuck e = cc

    payload_kept :
        (bt : ByteArray) (cells : ℕ → ℕ)
        → clear bt ≡ empty cells
        → 0 < length content
        → recvmsg (length content) y ≡ (bytes content, z)
        → recv_payload native recvmsg headed bt (sock y)
          ≡ ok (some (record headed { payload = content }), sock z)
    unfolding recv_payload get_payload_length new_protocol
    payload_kept bt cells e pos r =
        let n : (length content + 2 ^ 64 - 0) % 2 ^ 64 ≡ length content = omega arith in
        rw (n, ne→== (length content) 0 (omega arith), e, content_read cells pos r)
          (content_kept cells pos)

    cleared :
        let t = rewound (filled memory (header_bytes message)) in
        clear (advanced t (length (header_bytes message))) ≡ empty t.cells
    unfolding clear filled empty create
    cleared = refl

    whole :
        ◌≡◌ {A = Outcome (Option Protocol × Socket S)}
          (ok (some (record headed { payload = content }), sock z))
          (ok (some message, sock z))
    unfolding create_plain new_protocol
    whole =
        let e : (0 + length content) % 2 ^ 64 ≡ length content = omega arith in
        ap (λ n. ok (some (record headed { payload = content; payload_len = n }), sock z)) (sym e)

    -- `recvProtocol` on a connection that gives the header of such a message whole, and then its
    -- content, which is not empty, whole: it returns that message, and takes no more.
    pub recv_protocol_lem :
        0 < length content
        → recvmsg header_len x ≡ (bytes (header_bytes message), y)
        → recvmsg (length content) y ≡ (bytes content, z)
        → recv_protocol native recvmsg memory (sock x) ≡ ok (some message, sock z)
    unfolding recv_protocol recv_header
    recv_protocol_lem pos r r' =
        let t = rewound (filled memory (header_bytes message)) in
        let sm = filled-IsSmall memory (header_bytes message) (omega (arith, hb_length)) in
        let read-back =
          decode_header-Reads native message
            (plain-HeaderFits native memory type id content type_fits id_fits small) new_protocol t
            [] (rewound-IsSmall _ sm)
            (unread-filled memory (header_bytes message)
              ∙ sym (append-nil (header_bytes message))) in
        ap (λ o. o >>= recv_header native recvmsg) (header_read r)
        ∙ ap
            (λ o. o >>= λ bt. decode_header native new_protocol bt >>= λ m.
              recv_payload native recvmsg m.0 m.1 (sock y))
            (set_position-rewound (filled memory (header_bytes message)) sm)
        ∙ ap (λ o. o >>= λ m. recv_payload native recvmsg m.0 m.1 (sock y)) read-back
        ∙ ap
            (λ p.
              recv_payload native recvmsg p (advanced t (length (header_bytes message))) (sock y))
            (header_fields native memory type id content type_fits id_fits small new_protocol)
        ∙ payload_kept (advanced t (length (header_bytes message))) t.cells cleared pos r'
        ∙ whole
