-- ===== src/Chat/Safety.antt =====
-- Connecting, listening and disconnecting, on the states that the loop comes to.
use otpchat.Address.{Address}
use otpchat.Base.{ℕ, ◌≤◌, ◌≡◌, ◌≢◌, sym, ◌∙◌, inl, inr, ◌&&◌, some, ◌>>=◌, ◌==◌}
use otpchat.Chat.{
  text, is_connected_or_connecting, chat_push_status, chat_begin_connect, chat_begin_listen,
  chat_disconnect, chat_end_listen,
}
use otpchat.Node.Life.{node_close_lem, Connects, node_connect_socket, node_listen_socket}
use otpchat.Node.{unset_node, ConnectCalls, node_close, node_connect, ListenCalls, node_listen}
use otpchat.State.Inv.{InvOf, if_case, NetInv, Any, Safe, Safe-bind, Safe-if, Safe-elim}
use otpchat.State.Net.{kept_socket, replaced, disconnected, disconnected-Net}
use otpchat.State.View.{chat_push_status-Safe}
use otpchat.State.{ChatState, World}
use otpchat.User.Safety.{user_disconnect_lem}
use otpchat.User.{
  User, ConnectionState, connected, not_connected, connecting, id_remote, user_begin_connect,
}

module _ (w : World) (wide : 2 ≤ w.terminal.width) where
  abbrev After : ℕ × ChatState → Type 0
  After r = InvOf Any r.1

  pub with_remote :
      (st : ChatState) (u : User)
      → InvOf Any st
      → NetInv st.keys st.local u
      → InvOf Any (record st { remote = u })
  with_remote st u h net = record {
    box = h.box;
    net = net;
    receiving = h.receiving;
    sending = h.sending;
    input = h.input;
    sockets = tt;
  }

  -- A new socket is 0 or that of the listening one only where the system gives such a number.
  pub chat_begin_connect-Safe :
      (calls : ConnectCalls) (st : ChatState) (addr : Address)
      → Connects calls
      → calls.socket ≢ some 0
      → ((fd : ℕ) → st.local.node.socket ≡ some fd → calls.socket ≢ some fd)
      → InvOf Any st
      → Safe After (chat_begin_connect calls w st addr)
  unfolding chat_begin_connect user_begin_connect
  chat_begin_connect-Safe calls st addr c not_stdin apart h =
      let tried = node_connect calls addr in
      let (closable, socket) = node_connect_socket calls addr c in
      let lost = disconnected-Net st.keys st.local st.remote st.remote h.net.held h.net in
      let begun = λ (state : ConnectionState) (idle : state ≢ connected).
        with_remote st (record (disconnected st.remote) { node = tried.1; state = state }) h
          (replaced st.keys st.local (disconnected st.remote)
            (record (disconnected st.remote) { node = tried.1; state = state }) closable
            (kept_socket (λ s. s ≢ some 0) calls.socket tried.1.socket socket (λ e. cc) not_stdin)
            (λ fd e.
              kept_socket (λ s. s ≢ some fd) calls.socket tried.1.socket socket (λ e'. cc)
                (apart fd e))
            h.net.held (λ e. absurd (idle e)) lost) in
      let h' =
        if_case (λ (r : ℕ × User). InvOf Any (record st { remote = r.1 })) (tried.0 == 0)
          (0, record (disconnected st.remote) { node = tried.1; state = connecting })
          (1, record (disconnected st.remote) { node = tried.1 }) (λ _. begun connecting (λ e. cc))
          (λ _. begun not_connected (λ e. cc)) in
      rw (user_disconnect_lem st.remote h.net.remote_node)
        (Safe-bind (InvOf Any) After _ _ (chat_push_status-Safe Any w _ _ wide h') (λ st' k. k))

  pub chat_begin_listen-Safe :
      (calls : ListenCalls) (st : ChatState) (port : ℕ)
      → ((fd : ℕ) → calls.socket ≡ some fd → st.remote.node.socket ≢ some fd)
      → InvOf Any st
      → Safe After (chat_begin_listen calls w st port)
  unfolding chat_begin_listen
  chat_begin_listen-Safe calls st port apart h =
      let (closable, socket) = node_listen_socket calls port in
      let n = (node_listen calls port).1 in
      let h' : InvOf Any (record st { local = record st.local { node = n } }) = record {
        box = h.box;
        net = record {
          store = h.net.store;
          local_is = h.net.local_is;
          local_node = closable;
          remote_node = h.net.remote_node;
          not_stdin = h.net.not_stdin;
          apart = λ fd e. elim socket [ inl gone ↦ cc | inr same ↦ apart fd (sym same ∙ e) ];
          held = h.net.held;
          has_key = h.net.has_key;
        };
        receiving = h.receiving;
        sending = h.sending;
        input = h.input;
        sockets = tt;
      } in
      rw (node_close_lem st.local.node h.net.local_node)
        (Safe-bind (InvOf Any) After _ _ (chat_push_status-Safe Any w _ _ wide h') (λ st' k. k))

  pub chat_disconnect-Safe :
      (st : ChatState) (id : ℕ) → InvOf Any st → Safe (InvOf Any) (chat_disconnect w st id)
  unfolding chat_disconnect
  chat_disconnect-Safe st id h =
      Safe-if (InvOf Any) (id == id_remote && is_connected_or_connecting st.remote.state) _ _
        (λ _. rw (user_disconnect_lem st.remote h.net.remote_node) (
          chat_push_status-Safe Any w _ (text "Disconnected") wide (
            with_remote st (disconnected st.remote) h
              (disconnected-Net st.keys st.local st.remote st.remote h.net.held h.net))))
        (λ _. h)

  pub chat_end_listen-Safe :
      (st : ChatState) → InvOf Any st → Safe (InvOf Any) (chat_end_listen w st)
  unfolding chat_end_listen
  chat_end_listen-Safe st h =
      let h' : InvOf Any (record st { local = record st.local { node = unset_node } }) = record {
        box = h.box;
        net = record {
          store = h.net.store;
          local_is = h.net.local_is;
          local_node = λ e. cc;
          remote_node = h.net.remote_node;
          not_stdin = h.net.not_stdin;
          apart = λ fd e. cc;
          held = h.net.held;
          has_key = h.net.has_key;
        };
        receiving = h.receiving;
        sending = h.sending;
        input = h.input;
        sockets = tt;
      } in
      Safe-elim (InvOf Any) st.local.node.socket (some st)
        (node_close st.local.node >>= λ n.
          chat_push_status w (record st { local = record st.local { node = n } })
            (text "Stopped listening for connections"))
        h
        (rw (node_close_lem st.local.node h.net.local_node)
          (chat_push_status-Safe Any w _ (text "Stopped listening for connections") wide h'))
