-- ===== src/Examples/Sockets.antt =====
-- Concrete runs of sockets.
use xzmjx_rpc.Prelude.{
  ◌≡◌, refl, List, [], ◌∷◌, ◌++◌, none, some, true, false, not, ◌&&◌, if◌then◌else◌,
}
use xzmjx_rpc.ByteArray.Defs.{little}
use xzmjx_rpc.Net.Address.Defs.{unknown}
use xzmjx_rpc.Net.Socket.Defs.{
  Socket, SysCall, opened, used, Answers, new_socket, is_valid, close, connect, ensure_valid,
  new_sock, init_sock, accept, connect_to, connected, get_local_address, get_peer_address,
  local_from, peer_from, name_of, send, recv, is_descriptor,
}
use xzmjx_rpc.Net.Socket.Laws.{run}
use xzmjx_rpc.Net.Socket.Safety.{
  History, created, moved, connecting, sending, History-run, History-close,
}

-- A new descriptor 7, on which everything succeeds but the names.
abbrev answers : Answers
answers = record {
  fresh = some 7;
  timeout_set = true;
  succeeds = true;
  local_name = none;
  peer_name = none;
}

abbrev client : Socket
client = record {
  sock_fd = some 7;
  family = 2;
  type = 1;
  protocol = 0;
  is_connect = true;
  local_address = none;
  peer_address = some (unknown (record { sa_family = 2; sa_data = [] }));
}

-- Two options, the timeout, the connection, the local name, and a send.
abbrev client_log : List SysCall
client_log =
    opened 7
    ∷ used (some 7)
    ∷ used (some 7)
    ∷ used (some 7)
    ∷ used (some 7)
    ∷ used (some 7)
    ∷ used (some 7)
    ∷ []

client-History : History little client client_log
unfolding connect ensure_valid new_sock init_sock connect_to connected get_local_address
    get_peer_address local_from peer_from name_of send is_valid is_descriptor new_socket
client-History =
    moved
      (moved (created 2 1 0)
        (connecting true answers (some (unknown (record { sa_family = 2; sa_data = [] }))) _ refl))
      (sending (some 12))

History-run_example :
    (run none client_log ≡ some (some 7))
    × ((client.is_connect && not (is_valid client)) ≡ false)
    × (run none (client_log ++ (new_sock (some 8) client).1)
        ≡ (if is_valid client then none else some (some 8)))
    × ((accept little false answers (some 8) client).0 ≡ none)
    × (run none (accept little false answers (some 8) client).1 ≡ some (some 8))
History-run_example = History-run little client client_log 8 answers client-History

History-close_example :
    (run none (client_log ++ (close client).2) ≡ some none)
    × (is_valid (close client).1 ≡ false)
    × (send (some 12) (close client).1 ≡ (none, (close client).1, []))
    × (recv (some 12) (close client).1 ≡ (none, (close client).1, []))
History-close_example = History-close little client client_log (some 12) client-History
