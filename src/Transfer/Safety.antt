-- ===== src/Transfer/Safety.antt =====
-- Receiving, on the states that the loop comes to.
use otpchat.Base.{
  ℕ, ◌+◌, ◌-◌, ◌≤◌, ◌≡◌, ◌≢◌, refl, ap, inl, inr, false, Option, none, some, Bytes, ◌==◌, arith,
  not, length, replicate, overwrite, length-overwrite, Bool-cases,
}
use otpchat.Block.{Block, block_of, block_create}
use otpchat.Node.Keeps.{node_recv-Keeps, node_recv_closed}
use otpchat.Node.Life.{node_recv-le}
use otpchat.Node.{Received, node_recv}
use otpchat.State.Inv.{InvOf, Safe, Safe-if}
use otpchat.Chat.{message_header_size}
use otpchat.User.{connected}
use otpchat.State.Net.{kept_socket, kept_node}
use otpchat.State.{ChatState, World}
use otpchat.Transfer.{header, chat_handle_recv}
use otpchat.Transfer.Handlers.{After, HasKey, HasKey-of, handle_header-Safe, handle_text-Safe}

-- A buffer that is filled up to `count`.
abbrev Buffer : ChatState → Type 0
Buffer st =
    (xs : Bytes) × (st.receiving ≡ block_of xs) × (12 ≤ length xs) × (st.received_size ≤ length xs)

module _ (Sockets : Option ℕ → Option ℕ → Type 0)
    (gives_up : (local remote : Option ℕ) → Sockets local remote → Sockets local none) where
  -- With a buffer that has been begun.
  recv_filled-Safe :
      (received : Received) (w : World) (st : ChatState)
      → 2 ≤ w.terminal.width
      → InvOf Sockets st
      → (st.remote.node.socket ≢ none → st.remote.state ≡ connected)
      → (st.receiving.size == 0) ≡ false
      → Buffer st
      → Safe (After Sockets gives_up) (chat_handle_recv received w st)
  unfolding chat_handle_recv
  recv_filled-Safe received w st wide h on filled (xs, e, header, count) =
      let got = node_recv received st.remote.node (st.receiving.size - st.received_size) in
      let ys = overwrite st.received_size got.1 xs in
      let size : st.receiving.size ≡ length xs = ap (λ (b : Block). b.size) e in
      let fits : st.received_size + length got.1 ≤ length xs = omega (
        arith,
        size,
        count,
        node_recv-le received st.remote.node (st.receiving.size - st.received_size),
      ) in
      let whole : length ys ≡ length xs = length-overwrite st.received_size got.1 xs fits in
      let kept = node_recv-Keeps received st.remote.node (st.receiving.size - st.received_size) in
      let st' : ChatState = record st {
        remote = record st.remote { node = got.0 };
        receiving = record st.receiving { bytes = some ys };
        received_size = st.received_size + length got.1;
      } in
      let is_block : st'.receiving ≡ block_of ys =
        ap (λ (n : ℕ). let b : Block = record { bytes = some ys; size = n } in b)
          (let same : st.receiving.size ≡ length ys = omega (arith, size, whole) in same) in
      let h' : InvOf Sockets st' = record {
        box = h.box;
        net = kept_node st.keys st.local st.remote got.0 kept h.net;
        receiving = inr (ys, is_block, omega (arith, whole), omega (arith, whole));
        sending = h.sending;
        input = h.input;
        sockets =
            kept_socket (Sockets st.local.node.socket) st.remote.node.socket got.0.socket
              kept.socket_is (gives_up st.local.node.socket st.remote.node.socket h.sockets)
              h.sockets;
      } in
      simp (filled, ap (λ (b : Block). b.bytes) e)
        (Safe-if (After Sockets gives_up) (length got.1 == 0) _ _ (λ _. h')
          (λ some_bytes.
            let is_open : st.remote.node.socket ≢ none = λ closed.
              let nothing =
                node_recv_closed received st.remote.node (st.receiving.size - st.received_size)
                  closed in
              let no_bytes : length got.1 ≡ 0 = ap length nothing in ground arith in
            let has_key : HasKey Sockets gives_up st' =
              HasKey-of Sockets gives_up st' st.remote.key refl (h.net.has_key (on is_open))
                h.net.held in
            Safe-if (After Sockets gives_up) (not (st'.received_size == st'.receiving.size)) _ _
              (λ _. h')
              (λ _.
                Safe-if (After Sockets gives_up) (st'.receiving.size == 12) _ _
                  (λ _.
                    handle_header-Safe Sockets gives_up w st' ys h' has_key is_block
                      (omega (arith, whole)) (omega (arith, whole)))
                  (λ _.
                    handle_text-Safe Sockets gives_up w st' ys wide h' has_key is_block
                      (omega (arith, whole)) (omega (arith, whole))))))

  -- Between two rounds bytes are read only where the peer is connected.
  pub chat_handle_recv-Safe :
      (received : Received) (w : World) (st : ChatState)
      → 2 ≤ w.terminal.width
      → InvOf Sockets st
      → (st.remote.node.socket ≢ none → st.remote.state ≡ connected)
      → Safe (After Sockets gives_up) (chat_handle_recv received w st)
  unfolding chat_handle_recv block_create
  chat_handle_recv-Safe received w st wide h on = elim (Bool-cases (st.receiving.size == 0)) [
    | inl empty ↦
        let begun : ChatState = record st {
          receiving = block_create message_header_size;
          received_size = 0;
        } in
        let same : chat_handle_recv received w st ≡ chat_handle_recv received w begun =
          rw empty refl in
        rw same (
          recv_filled-Safe received w begun wide
            (record {
              box = h.box;
              net = h.net;
              receiving = inr (replicate 12 0, refl, omega arith, omega arith);
              sending = h.sending;
              input = h.input;
              sockets = h.sockets;
            })
            on refl (replicate 12 0, refl, omega arith, omega arith))
    | inr filled ↦ recv_filled-Safe received w st wide h on filled (elim h.receiving [
      | inl e ↦
          absurd
            (let none_there : st.receiving.size ≡ 0 = ap (λ (b : Block). b.size) e in ground arith)
      | inr buffer ↦ buffer
    ])
  ]
