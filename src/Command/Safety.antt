-- ===== src/Command/Safety.antt =====
-- The commands, on the states that the loop comes to.
use otpchat.Address.{Address, parse_address}
use otpchat.Base.{
  ℕ, ◌≤◌, ◌≡◌, ◌≢◌, Bool, true, false, Option, none, some, List, [], ◌∷◌, ◌++◌, Bytes, ◌>>=◌,
  if◌then◌else◌, ◌==◌, equal_bytes,
}
use otpchat.Chat.Safety.{
  chat_begin_connect-Safe, chat_begin_listen-Safe, chat_disconnect-Safe, chat_end_listen-Safe,
}
use otpchat.Chat.{text, chat_push_status}
use otpchat.Command.{
  Calls, connect_to, command_connect, command_disconnect, listen_port, listen_on, command_listen,
  command_endlisten, command_quit, command_table, report, handle, str_to_argv, command_handle,
}
use otpchat.Node.Life.{Connects}
use otpchat.State.Inv.{InvOf, forget, Any, Safe, Safe-bind, Safe-if}
use otpchat.State.View.{chat_push_status-Safe}
use otpchat.State.{ChatState, World}
use otpchat.User.{id_remote}

-- The descriptors that the system gives are not in use.
pub record FreshCalls (calls : Calls) (local remote : Option ℕ) : Type 0 where
  pub connect_not_stdin : calls.connect.socket ≢ some 0
  pub connect_apart : (fd : ℕ) → local ≡ some fd → calls.connect.socket ≢ some fd
  pub listen_apart : (fd : ℕ) → calls.listen.socket ≡ some fd → remote ≢ some fd

module _ (calls : Calls) (w : World) (wide : 2 ≤ w.terminal.width)
    (connects : Connects calls.connect) where
  abbrev After : ℕ × ChatState → Type 0
  After r = InvOf Any r.1

  command_connect-Safe :
      (st : ChatState) (argv : List Bytes)
      → InvOf (FreshCalls calls) st
      → Safe After (command_connect calls w st argv)
  unfolding command_connect
  command_connect-Safe st [] h = forget (FreshCalls calls) st h
  command_connect-Safe st (a ∷ b ∷ argv) h = forget (FreshCalls calls) st h
  command_connect-Safe st (a ∷ []) h = by_address (parse_address a)
    where
      by_address : (addr : Option Address) → Safe After (connect_to calls w st addr)
      by_address none = forget (FreshCalls calls) st h
      by_address (some addr) =
          let s = h.sockets in
          chat_begin_connect-Safe w wide calls.connect st addr connects s.connect_not_stdin
            s.connect_apart (forget (FreshCalls calls) st h)

  command_disconnect-Safe :
      (st : ChatState) (argv : List Bytes)
      → InvOf Any st
      → Safe After (command_disconnect w st argv)
  unfolding command_disconnect
  command_disconnect-Safe st [] h =
      Safe-bind (InvOf Any) After _ _ (chat_disconnect-Safe w wide st id_remote h) (λ st' k. k)
  command_disconnect-Safe st (a ∷ argv) h = h

  command_listen-Safe :
      (st : ChatState) (argv : List Bytes)
      → InvOf (FreshCalls calls) st
      → Safe After (command_listen calls w st argv)
  unfolding command_listen
  command_listen-Safe st argv h = by_port (listen_port argv)
    where
      by_port : (port : Option ℕ) → Safe After (listen_on calls w st port)
      by_port none = forget (FreshCalls calls) st h
      by_port (some port) =
          let s = h.sockets in
          chat_begin_listen-Safe w wide calls.listen st port s.listen_apart
            (forget (FreshCalls calls) st h)

  command_endlisten-Safe :
      (st : ChatState) (argv : List Bytes) → InvOf Any st → Safe After (command_endlisten w st argv)
  unfolding command_endlisten
  command_endlisten-Safe st [] h =
      Safe-bind (InvOf Any) After _ _ (chat_end_listen-Safe w wide st h) (λ st' k. k)
  command_endlisten-Safe st (a ∷ argv) h = h

  command_quit-Inv :
      (st : ChatState) (argv : List Bytes) → InvOf Any st → After (command_quit st argv)
  unfolding command_quit
  command_quit-Inv st [] h = record {
    box = h.box;
    net = h.net;
    receiving = h.receiving;
    sending = h.sending;
    input = h.input;
    sockets = tt;
  }
  command_quit-Inv st (a ∷ argv) h = h

  -- No command, or one that is defined.
  abbrev Known : Option (Option (ℕ × ChatState)) → Type 0
  Known none = Unit
  Known (some r) = Safe After r

  Known-if :
      (b : Bool) (x : Option (ℕ × ChatState)) (y : Option (Option (ℕ × ChatState)))
      → Safe After x
      → Known y
      → Known (if b then some x else y)
  Known-if true x y h k = h
  Known-if false x y h k = k

  command_table-Known :
      (st : ChatState) (name : Bytes) (argv : List Bytes)
      → InvOf (FreshCalls calls) st
      → Known (command_table calls w st name argv)
  unfolding command_table
  command_table-Known st name argv h =
      let h' = forget (FreshCalls calls) st h in
      Known-if (equal_bytes name (text "connect")) _ _ (command_connect-Safe st argv h) (
        Known-if (equal_bytes name (text "disconnect")) _ _ (command_disconnect-Safe st argv h') (
          Known-if (equal_bytes name (text "listen")) _ _ (command_listen-Safe st argv h) (
            Known-if (equal_bytes name (text "endlisten")) _ _ (command_endlisten-Safe st argv h')
              (Known-if (equal_bytes name (text "quit")) _ _ (command_quit-Inv st argv h') tt))))

  report-Safe : (str : Bytes) (r : ℕ × ChatState) → After r → Safe After (report w str r)
  unfolding report
  report-Safe str r h =
      Safe-if After (r.0 == 2) _ _
        (λ _.
          Safe-bind (InvOf Any) After _ _ (chat_push_status-Safe Any w r.1 _ wide h) (λ st' k. k))
        (λ _. h)

  handle-Safe :
      (st : ChatState) (str : Bytes) (argv : List Bytes)
      → InvOf (FreshCalls calls) st
      → Safe After (handle calls w st str argv)
  unfolding handle
  handle-Safe st str [] h = forget (FreshCalls calls) st h
  handle-Safe st str (name ∷ argv) h =
      by_result (command_table calls w st name argv) (command_table-Known st name argv h)
    where
      by_result :
          (o : Option (Option (ℕ × ChatState)))
          → Known o
          → Safe After (elim o as (λ _. Option (ℕ × ChatState)) [
            | some result ↦ result >>= report w str
            | none ↦
                chat_push_status w st (text "Unrecognized command \"" ++ (name ++ text "\""))
                >>= λ state'. some (1, state')
          ])
      by_result none k =
          Safe-bind (InvOf Any) After _ _
            (chat_push_status-Safe Any w st _ wide (forget (FreshCalls calls) st h)) (λ st' k'. k')
      by_result (some result) k = Safe-bind After After _ _ k (report-Safe str)

  pub command_handle-Safe :
      (st : ChatState) (str : Bytes)
      → InvOf (FreshCalls calls) st
      → Safe After (command_handle calls w st str)
  unfolding command_handle
  command_handle-Safe st str h = handle-Safe st str (str_to_argv str) h
