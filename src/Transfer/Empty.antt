-- ===== src/Transfer/Empty.antt =====
-- A message without text ends the connection of its receiver.
use otpchat.Base.{
  ℕ, ◌-◌, ◌<◌, ◌≡◌, refl, sym, ap, ◌∙◌, false, some, none, [], ◌∷◌, ◌++◌, List, Bytes, ◌>>=◌, arith,
  ◌==◌, length, append-nil, length-append, overwrite, ◌+◌,
}
use otpchat.Block.{null_block}
use otpchat.Key.Pad.{concat}
use otpchat.KeyStore.{set_key}
use otpchat.Node.Life.{node_recv_nothing}
use otpchat.Node.{Received}
use otpchat.State.{ChatState, World}
use otpchat.Transfer.Pieces.{Receives, recv_header, header_full}
use otpchat.Transfer.Frame.{length-header}
use otpchat.Transfer.Receive.{length-added}
use otpchat.Transfer.Stream.{recv_all, AllNonEmpty, filling, go_on}
use otpchat.Transfer.{header, added, begin_receiving, chat_handle_recv}

-- With the buffer full at the start of a call, nothing is asked for.
pub recv_full :
    (received : Received) (w : World) (st : ChatState) (xs : Bytes) (at fd : ℕ)
    → st.remote.node.socket ≡ some fd
    → 0 < at
    → length xs ≡ at
    → (st' : ChatState) × (chat_handle_recv received w (filling st xs at) ≡ some (1, st'))
      × (st'.remote.node.socket ≡ none)
      × (st'.history ≡ st.history)
unfolding chat_handle_recv begin_receiving
recv_full received w st xs at fd connected h full =
    let some_bytes : (length xs == 0) ≡ false = ground arith in
    let nothing : length xs - at ≡ 0 = omega arith in
    (
      record st {
        remote = record st.remote { node = record st.remote.node { socket = none } };
        receiving = record { bytes = some (overwrite at [] xs); size = length xs };
        received_size = at + 0;
      },
      simp (some_bytes, nothing, node_recv_nothing received st.remote.node fd connected),
      refl,
      refl,
    )

-- With the peer's key on its connection (`Receives`), with no message under way, a header arrives, in
-- any pieces that are not empty, that announces a text of no bytes. Whatever the socket has next, the next call
-- reports the end of the connection, closes the socket, and shows no message.
pub chat_handle_recv-empty :
    (w : World) (st : ChatState) (key_data : Bytes) (head : ℕ)
    → Receives w st key_data head []
    → st.receiving ≡ null_block
    → (p : Bytes) (ps : List Bytes) → 0 < length p
    → AllNonEmpty ps
    → concat (p ∷ ps) ≡ header 0 head
    → (received : Received)
    → (st' st'' : ChatState) × (recv_all w st (p ∷ ps) ≡ some (0, st'))
      × (chat_handle_recv received w st' ≡ some (1, st''))
      × (st''.remote.node.socket ≡ none)
      × (st''.history ≡ st.history)
chat_handle_recv-empty w st key_data head r idle p ps hp all_p is_header received =
    let (k, header_is, k_at, at_head) = header_full w st key_data head [] r in
    let moved : ChatState = record st { keys = set_key st.keys r.has_key.ref k } in
    let full : length (header 0 head ++ added w.fresh 0) ≡ 12 = omega (
      arith,
      length-append (header 0 head) (added w.fresh 0),
      length-header 0 head,
      length-added w.fresh 0,
    ) in
    let (st'', ends, closed, unshown) =
      recv_full received w moved (header 0 head ++ added w.fresh 0) 12 r.fd r.connected
        (omega arith) full in
    (
      filling moved (header 0 head ++ added w.fresh 0) 12,
      st'',
      ap (recv_all w st) (sym (append-nil (p ∷ ps)))
          ∙ recv_header w st key_data head [] r p ps [] idle hp all_p is_header
          ∙ ap (λ o. o >>= go_on w []) header_is,
      ends,
      closed,
      unshown,
    )
