-- ===== src/Transfer/SendSafety.antt =====
-- Sending, on the states that the loop comes to.
use otpchat.Base.{
  ℕ, ◌+◌, ◌-◌, ◌%◌, ◌^◌, ◌≤◌, ◌≡◌, ap, inl, inr, Option, none, some, [], ◌++◌, Bytes, ◌==◌, arith,
  not, length, take, drop, length-append, length-take, length-drop,
}
use otpchat.Block.{Block, free_block, content}
use otpchat.Key.Total.{encrypt_total}
use otpchat.Transfer.Frame.{length-header}
use otpchat.KeyStore.{local_key, set_key}
use otpchat.Node.Keeps.{node_send-Keeps}
use otpchat.Node.Life.{node_send_lem}
use otpchat.Node.{Sent, node_send}
use otpchat.State.Inv.{InvOf, if_case, Safe, Safe-bind, Safe-if}
use otpchat.Chat.{text}
use otpchat.State.Net.{kept_socket, kept_node, key_moved}
use otpchat.State.View.{chat_push_status-Safe}
use otpchat.State.{ChatState, World}
use otpchat.Transfer.{header, chat_begin_send, chat_handle_send}
use otpchat.Transfer.Buffers.{freed_block}

module _ (Sockets : Option ℕ → Option ℕ → Type 0)
    (gives_up : (local remote : Option ℕ) → Sockets local remote → Sockets local none) where
  abbrev After : ℕ × ChatState → Type 0
  After r = InvOf Sockets r.1

  -- The line that is sent lies in its buffer.
  pub chat_begin_send-Safe :
      (w : World) (st : ChatState) (b : Block) (xs : Bytes)
      → 2 ≤ w.terminal.width
      → InvOf Sockets st
      → b.bytes ≡ some xs
      → b.size ≤ length xs
      → Safe After (chat_begin_send w st b)
  unfolding chat_begin_send
  chat_begin_send-Safe w st b xs wide h e fits =
      let k = st.keys.local in
      let is_content : content b ≡ xs =
        ap (λ (m : Option Bytes). elim m as (λ _. Bytes) [ none ↦ [] | some ys ↦ ys ]) e in
      let ms : Bytes = take b.size (content b) in
      let long : b.size + 12 - 12 ≤ length ms =
        omega (arith, length-take b.size (content b), ap length is_content) in
      let (status, k', out, enc, o, same) =
        encrypt_total w.disk k ms (b.size + 12 - 12) h.net.store.local_open long in
      let words = header ((b.size + 12 - 12) % 2 ^ 32) k.head in
      let frame : Bytes = words ++ out in
      let h' : InvOf Sockets (record st {
        keys = set_key st.keys local_key k';
        sending = record { bytes = some frame; size = b.size + 12 };
        sent_size = 0;
      }) =
        record {
          box = h.box;
          net = key_moved st.keys st.local st.remote local_key k' o h.net;
          receiving = h.receiving;
          sending = inr (
            frame,
            ap (λ (n : ℕ). let c : Block = record { bytes = some frame; size = n } in c)
                (let whole : b.size + 12 ≡ length frame = omega (
                  arith,
                  same,
                  ap length is_content,
                  length-take b.size (content b),
                  length-append words out,
                  length-header ((b.size + 12 - 12) % 2 ^ 32) k.head,
                ) in
                  whole),
            omega arith,
          );
          input = h.input;
          sockets = h.sockets;
        } in
      simp (h.net.local_is, enc)
        (Safe-if After (not (status == 0)) _ _
          (λ _.
            Safe-bind (InvOf Sockets) After _ _
              (chat_push_status-Safe Sockets w _ (text "Out of local key data!") wide h')
              (λ st' k. k))
          (λ _. h'))

  pub chat_handle_send-Inv :
      (sent : Sent) (st : ChatState) → InvOf Sockets st → InvOf Sockets (chat_handle_send sent st)
  unfolding chat_handle_send free_block
  chat_handle_send-Inv sent st h =
      if_case (InvOf Sockets) (st.sending.size == 0) _ _ (λ _. h)
        (λ filled. elim h.sending [
          | inl e ↦
              absurd
                (let zero_size : st.sending.size ≡ 0 = ap (λ (b : Block). b.size) e in ground arith)
          | inr (xs, e, count) ↦
              let left = drop st.sent_size (content st.sending) in
              let kept = node_send-Keeps sent st.remote.node left in
              let given = node_send_lem sent st.remote.node left in
              let n' = node_send sent st.remote.node left in
              let fits : st.sent_size + n'.1 ≤ length xs = omega (
                arith,
                count,
                given.0,
                length-drop st.sent_size (content st.sending),
                ap (λ (b : Block). length (content b)) e,
              ) in
              let net = kept_node st.keys st.local st.remote n'.0 kept h.net in
              let sockets =
                kept_socket (Sockets st.local.node.socket) st.remote.node.socket n'.0.socket
                  kept.socket_is (gives_up st.local.node.socket st.remote.node.socket h.sockets)
                  h.sockets in
              if_case (InvOf Sockets) (st.sent_size + n'.1 == st.sending.size) _ _
                (λ _. record {
                  box = h.box;
                  net = net;
                  receiving = h.receiving;
                  sending = inl (freed_block st.sending xs e);
                  input = h.input;
                  sockets = sockets;
                })
                (λ _. record {
                  box = h.box;
                  net = net;
                  receiving = h.receiving;
                  sending = inr (xs, e, fits);
                  input = h.input;
                  sockets = sockets;
                })
        ])
