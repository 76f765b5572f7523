-- ===== src/Loop/Round.antt =====
-- A round of the loop, on the states that the loop comes to.
use otpchat.Base.{
  arith, ℕ, ◌≤◌, ◌≡◌, ◌≢◌, refl, ◌⊎◌, Bool, true, false, ◌&&◌, Option, none, some, Bytes, ◌>>=◌,
  ◌==◌, not, ◌∙◌, ap,
}
use otpchat.Chat.{text}
use otpchat.Input.Safety.{ui_handle_input-Safe}
use otpchat.Loop.{
  Ready, Selected, interrupted, select_failed, ready, Event, is_state, reads, writes, is_set,
  on_recv, drop_remote, finish_connect, on_write, on_accept, on_input, on_error, handle_ready,
  after_select, chat_round, sets_stray,
}
use otpchat.Node.{node_error}
use otpchat.State.Inv.{InvOf, Inv, Safe-result, NetInv, forget, Any, Safe, Safe-bind, Safe-if}
use otpchat.State.Net.{kept_socket, disconnected, disconnected-Net}
use otpchat.State.View.{chat_push_status-Safe, update_history_box-Safe}
use otpchat.State.{ChatState, World}
use otpchat.Transfer.Safety.{chat_handle_recv-Safe}
use otpchat.Transfer.SendSafety.{chat_handle_send-Inv}
use otpchat.User.Safety.{user_disconnect_lem, user_finish_connect-Safe, user_accept-Safe}
use otpchat.User.{User, connecting, connected}
use otpchat.Loop.Allowed.{HasStray, Allowed, Fresh, still_Fresh, gives_up}
use otpchat.Loop.Asked.{reads_connected, is_set_total}

-- The peer is replaced, on a socket of which as much is known.
with_peer :
    (Sockets : Option ℕ → Option ℕ → Type 0) (st : ChatState) (u : User)
    → InvOf Sockets st
    → NetInv st.keys st.local u
    → Sockets st.local.node.socket u.node.socket
    → InvOf Sockets (record st { remote = u })
with_peer Sockets st u h net sockets = record {
  box = h.box;
  net = net;
  receiving = h.receiving;
  sending = h.sending;
  input = h.input;
  sockets = sockets;
}

drop_remote-Safe :
    (Sockets : Option ℕ → Option ℕ → Type 0) (w : World) (why : Bytes) (st : ChatState)
    → 2 ≤ w.terminal.width
    → Sockets st.local.node.socket none
    → InvOf Sockets st
    → Safe (InvOf Sockets) (drop_remote w why st)
unfolding drop_remote
drop_remote-Safe Sockets w why st wide sockets h =
    let keyless = record st.remote { key = none } in
    let net = h.net in
    rw (user_disconnect_lem st.remote net.remote_node) (
      chat_push_status-Safe Sockets w _ why wide (
        with_peer Sockets st (disconnected keyless) h
          (disconnected-Net st.keys st.local st.remote keyless tt net) sockets))

module _ (e : Event) (allowed : Allowed e) where
  abbrev Mid : ChatState → Type 0
  Mid st = InvOf (Fresh e) st

  on_recv-Safe :
      (b : Bool) (st : ChatState)
      → (b ≡ true → st.remote.node.socket ≢ none → st.remote.state ≡ connected)
      → Mid st
      → Safe Mid (on_recv e b st)
  unfolding on_recv
  on_recv-Safe false st on h = h
  on_recv-Safe true st on h =
      Safe-bind (λ (r : ℕ × ChatState). Mid r.1) Mid _ _
        (chat_handle_recv-Safe (Fresh e) (gives_up e) e.received e.world st allowed.screen h
          (on refl))
        (λ r k. k)

  finish_connect-Safe : (st : ChatState) → Mid st → Safe Mid (finish_connect e st)
  unfolding finish_connect
  finish_connect-Safe st h =
      Safe-bind
        (λ (r : ℕ × User).
          NetInv st.keys st.local r.1
          × ((r.1.node.socket ≡ none) ⊎ (r.1.node.socket ≡ st.remote.node.socket)))
        Mid _ _
        (user_finish_connect-Safe e.connect_rounds allowed.connect_ends st.keys st.local
          e.connect_error st.remote h.net)
        (λ r left.
          let lost = gives_up e st.local.node.socket st.remote.node.socket h.sockets in
          let h' = with_peer (Fresh e) st r.1 h left.0 (
            kept_socket (Fresh e st.local.node.socket) st.remote.node.socket r.1.node.socket left.1
              lost h.sockets) in
          Safe-if Mid (r.0 == 0) _ _
            (λ _. chat_push_status-Safe (Fresh e) e.world _ (text "Connected!") allowed.screen h')
            (λ _. drop_remote-Safe (Fresh e) e.world _ _ allowed.screen lost h'))

  on_write-Safe : (b : Bool) (st : ChatState) → Mid st → Safe Mid (on_write e b st)
  unfolding on_write
  on_write-Safe false st h = h
  on_write-Safe true st h =
      Safe-if Mid (is_state st.remote.state connecting) _ _ (λ _. finish_connect-Safe st h)
        (λ _. chat_handle_send-Inv (Fresh e) (gives_up e) e.sent st h)

  on_accept-Safe : (b : Bool) (st : ChatState) → Mid st → Safe Mid (on_accept e b st)
  unfolding on_accept
  on_accept-Safe false st h = h
  on_accept-Safe true st h =
      let s = h.sockets in
      Safe-bind
        (λ (r : ℕ × User).
          NetInv st.keys st.local r.1 × ((r.1.node.socket ≡ none) ⊎ (r.1.node.socket ≡ e.accepted)))
        Mid _ _
        (user_accept-Safe e.accept_rounds allowed.accept_ends st.keys st.local e.accepted
          e.accept_error st.remote s.accept_not_stdin s.accept_apart h.net)
        (λ r left. chat_push_status-Safe (Fresh e) e.world _ _ allowed.screen (
          with_peer (Fresh e) st r.1 h left.0 (
            kept_socket (Fresh e st.local.node.socket) e.accepted r.1.node.socket left.1
              (gives_up e st.local.node.socket st.remote.node.socket s)
              (still_Fresh e st.local.node.socket st.remote.node.socket e.accepted s.listen_accept
                s))))

  on_input-Safe : (b : Bool) (st : ChatState) → Mid st → Safe (InvOf Any) (on_input e b st)
  unfolding on_input
  on_input-Safe false st h = forget (Fresh e) st h
  on_input-Safe true st h =
      let s = h.sockets in
      Safe-bind (λ (r : ℕ × ChatState). InvOf Any r.1) (InvOf Any) _ _
        (ui_handle_input-Safe e.calls e.world allowed.screen allowed.connects allowed.bounded e.key
          st
          (record {
            box = h.box;
            net = h.net;
            receiving = h.receiving;
            sending = h.sending;
            input = h.input;
            sockets = s.calls;
          }))
        (λ r k. k)

  on_error-Safe : (st : ChatState) → InvOf Any st → Safe (InvOf Any) (on_error e st)
  unfolding on_error
  on_error-Safe st h =
      Safe-if (InvOf Any)
        (is_state st.remote.state connected
          && (elim (node_error e.error st.remote.node) as (λ _. Bool) [
            | none ↦ false
            | some _ ↦ true
          ]))
        _ _ (λ _. drop_remote-Safe Any e.world (text "Remote disconnected") st allowed.screen tt h)
        (λ _. h)

  handle_ready-Safe :
      (wait : Bool) (r w : Ready) (st : ChatState)
      → Mid st
      → r.stray ≢ none
      → w.stray ≢ none
      → Safe (InvOf Any) (handle_ready e (reads wait st) (writes st) r w st)
  unfolding handle_ready
  handle_ready-Safe wait r w st h stray stray' =
      let read = is_set (reads wait st) r in
      let input = λ (s₃ : ChatState). read (some 0) >>= λ b. on_input e b s₃ >>= on_error e in
      let accept =
        λ (s₂ : ChatState). read s₂.local.node.socket >>= λ b. on_accept e b s₂ >>= input in
      let write = λ (s₁ : ChatState).
        is_set (writes st) w s₁.remote.node.socket >>= λ b. on_write e b s₁ >>= accept in
      let (readable, is_readable) = is_set_total (reads wait st) r st.remote.node.socket stray in
      rw is_readable (
        Safe-bind Mid (InvOf Any) (on_recv e readable st) write
          (on_recv-Safe readable st
            (λ set. reads_connected wait r st h.net (is_readable ∙ ap (λ (b : Bool). some b) set))
            h)
          (λ s₁ h₁.
            let (writable, is_writable) = is_set_total (writes st) w s₁.remote.node.socket stray' in
            rw is_writable (
              Safe-bind Mid (InvOf Any) (on_write e writable s₁) accept
                (on_write-Safe writable s₁ h₁)
                (λ s₂ h₂.
                  let (acceptable, is_acceptable) =
                    is_set_total (reads wait st) r s₂.local.node.socket stray in
                  rw is_acceptable (
                    Safe-bind Mid (InvOf Any) (on_accept e acceptable s₂) input
                      (on_accept-Safe acceptable s₂ h₂)
                      (λ s₃ h₃.
                        let pressed = reads wait st 0 && r.fds 0 in
                        Safe-bind (InvOf Any) (InvOf Any) (on_input e pressed s₃) (on_error e)
                          (on_input-Safe pressed s₃ h₃) on_error-Safe))))))

  after_select-Safe :
      (wait : Bool) (s : Selected) (st : ChatState)
      → Mid st
      → HasStray s
      → Safe (λ (r : Bool × ChatState). InvOf Any r.1) (after_select wait e s st)
  unfolding after_select
  after_select-Safe wait interrupted st h stray =
      Safe-bind (InvOf Any) (λ (r : Bool × ChatState). InvOf Any r.1) _ _
        (update_history_box-Safe Any e.world.terminal st allowed.screen (forget (Fresh e) st h))
        (λ drawn k. k)
  after_select-Safe wait select_failed st h stray = forget (Fresh e) st h
  after_select-Safe wait (ready r w) st h (stray, stray') =
      Safe-bind (InvOf Any) (λ (p : Bool × ChatState). InvOf Any p.1) _ _
        (handle_ready-Safe wait r w st h stray stray') (λ st' k. k)

-- Whatever a round meets that is allowed, with descriptors that are fresh, on a state for which the
-- invariant holds its calls are defined, apart from what is drawn, and the invariant holds of the state that it leaves.
pub chat_round-Safe :
    (wait : Bool) (e : Event) (st : ChatState)
    → Allowed e
    → Fresh e st.local.node.socket st.remote.node.socket
    → Inv st
    → (go : Bool) × (st' : ChatState) × (chat_round wait e st ≡ some (go, st')) × Inv st'
unfolding chat_round
chat_round-Safe wait e st allowed fresh h =
    let goes : (sets_stray wait st && not e.set_stray) ≡ false =
      (let sets = allowed.sets in ground arith) in
    let (r, e', h') =
      Safe-result (λ (r : Bool × ChatState). Inv r.1) (after_select wait e e.select st)
        (after_select-Safe e allowed wait e.select st
          (record {
            box = h.box;
            net = h.net;
            receiving = h.receiving;
            sending = h.sending;
            input = h.input;
            sockets = fresh;
          })
          allowed.has_stray) in
    (r.0, r.1, rw goes e', h')
