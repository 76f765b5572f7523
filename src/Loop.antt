-- ===== src/Loop.antt =====
-- chat.c: the loop over `select`. `Start` is what stands around it.
pub mod Start
pub mod Allowed
pub mod Asked
pub mod Round
use otpchat.Args.{ChatArgs}
use otpchat.Base.Int.{ℤ, pos}
use otpchat.Base.{
  ℕ, zero, suc, Bool, true, false, ◌&&◌, ◌||◌, not, Option, none, some, List, [], ◌∷◌, ◌>>=◌,
  if◌then◌else◌, ◌==◌, replicate, Bytes,
}
use otpchat.Block.{Block, null_block, free_block}
use otpchat.Chat.{text, chat_push_status, chat_begin_connect, chat_begin_listen}
use otpchat.Command.{Calls}
use otpchat.Disk.{Disk, null}
use otpchat.Input.{Pressed, ui_handle_input}
use otpchat.Key.{Key}
use otpchat.KeyStore.{
  KeyStore, local_key, key_store_init, key_store_open_local, key_store_open_remote, key_store_close,
}
use otpchat.Node.{SockOpt, node_error, Received, Sent}
use otpchat.State.{ChatState, World}
use otpchat.Transfer.{chat_handle_recv, chat_handle_send}
use otpchat.Ui.{update_history_box}
use otpchat.User.{
  ConnectionState, not_connected, connecting, connected, User, Rounds, user_init, user_set_name,
  user_disconnect, user_finish_connect, user_accept, user_close, id_local, id_remote,
}

-- The descriptors that `select` found ready. `stray` is what FD_ISSET gives for -1, which C leaves
-- undefined: `none`, unless the C library of the system has a bit for it.
pub record Ready : Type 0 where
  pub fds : ℕ → Bool
  pub stray : Option Bool

-- `interrupted` is EINTR.
pub data Selected : Type 0 where
  interrupted select_failed : Selected
  ready : Ready → Ready → Selected

-- What one round meets: the results of the system calls that its handlers may make. `set_stray` says
-- whether FD_SET of -1, which C leaves undefined, is one that sets no bit that `select` looks at.
pub record Event : Type 0 where
  pub set_stray : Bool
  pub world : World
  pub select : Selected
  pub received : Received
  pub sent : Sent
  pub connect_error : SockOpt
  pub connect_rounds : Rounds
  pub accepted : Option ℕ
  pub accept_error : SockOpt
  pub accept_rounds : Rounds
  pub key : Pressed
  pub calls : Calls
  pub error : SockOpt

abbrev pub is_state : ConnectionState → ConnectionState → Bool
is_state not_connected not_connected = true
is_state connecting connecting = true
is_state connected connected = true
is_state _ _ = false

abbrev is_closed : Option ℕ → Bool
is_closed none = true
is_closed (some fd) = false

abbrev pub is_fd : Option ℕ → ℕ → Bool
is_fd none fd = false
is_fd (some n) fd = n == fd

-- The sets that a round asks for, where FD_SET of -1 does nothing.
abbrev pub reads : Bool → ChatState → ℕ → Bool
reads wait_for_remote state fd =
    (fd == 0 || is_state state.remote.state connected && is_fd state.remote.node.socket fd)
    || ((wait_for_remote && is_state state.remote.state not_connected)
        && is_fd state.local.node.socket fd)

abbrev pub has_unsent : ChatState → Bool
has_unsent state = not (state.sending.size == state.sent_size) && not (state.sending.size == 0)

abbrev pub writes : ChatState → ℕ → Bool
writes state fd =
    (is_state state.remote.state connecting
      || (is_state state.remote.state connected && has_unsent state))
    && is_fd state.remote.node.socket fd

-- Whether a round calls FD_SET with -1.
abbrev pub sets_stray : Bool → ChatState → Bool
sets_stray wait_for_remote state =
    ((is_state state.remote.state connected || is_state state.remote.state connecting)
      && is_closed state.remote.node.socket)
    || ((wait_for_remote && is_state state.remote.state not_connected)
        && is_closed state.local.node.socket)

-- FD_ISSET, of a set that was asked for.
abbrev pub is_set : (ℕ → Bool) → Ready → Option ℕ → Option Bool
is_set asked r none = r.stray
is_set asked r (some fd) = some (asked fd && r.fds fd)

on_recv : Event → Bool → ChatState → Option ChatState
on_recv e false state = some state
on_recv e true state = chat_handle_recv e.received e.world state >>= λ r. some r.1

-- The remote is lost: its node is closed and its key forgotten.
pub drop_remote : World → Bytes → ChatState → Option ChatState
drop_remote w why state = do
  u ← user_disconnect state.remote
  chat_push_status w (record state { remote = record u { key = none } }) why

finish_connect : Event → ChatState → Option ChatState
finish_connect e state = do
  (status, u) ← user_finish_connect e.connect_error e.connect_rounds state.remote state.keys
  let state' = record state { remote = u }
  if status == 0
      then chat_push_status e.world state' (text "Connected!")
      else drop_remote e.world (text "Connection failed") state'

on_write : Event → Bool → ChatState → Option ChatState
on_write e false state = some state
on_write e true state =
    if is_state state.remote.state connecting
    then finish_connect e state
    else some (chat_handle_send e.sent state)

on_accept : Event → Bool → ChatState → Option ChatState
on_accept e false state = some state
on_accept e true state = do
  (status, u) ← user_accept e.accepted e.accept_error e.accept_rounds state.remote state.keys
  chat_push_status e.world (record state { remote = u })
      (if status == 0 then text "Connected!" else text "Incoming connection failed")

on_input : Event → Bool → ChatState → Option ChatState
on_input e false state = some state
on_input e true state = ui_handle_input e.calls e.key e.world state >>= λ r. some r.1

on_error : Event → ChatState → Option ChatState
on_error e state =
    if is_state state.remote.state connected
      && (elim (node_error e.error state.remote.node) [ none ↦ false | some _ ↦ true ])
    then drop_remote e.world (text "Remote disconnected") state
    else some state

-- The handlers, in their order; each looks at the state that the ones before it leave.
unfoldable pub handle_ready :
    Event → (ℕ → Bool) → (ℕ → Bool) → Ready → Ready → ChatState → Option ChatState
unfolding on_recv on_write finish_connect drop_remote on_accept on_input on_error
handle_ready e asked_read asked_write r w state = do
  readable ← is_set asked_read r state.remote.node.socket
  s₁ ← on_recv e readable state
  writable ← is_set asked_write w s₁.remote.node.socket
  s₂ ← on_write e writable s₁
  acceptable ← is_set asked_read r s₂.local.node.socket
  s₃ ← on_accept e acceptable s₂
  pressed ← is_set asked_read r (some 0)
  s₄ ← on_input e pressed s₃
  on_error e s₄

-- One round: `false` where the loop breaks.
after_select : Bool → Event → Selected → ChatState → Option (Bool × ChatState)
after_select wait e interrupted state =
    update_history_box e.world.terminal state >>= λ drawn. some (true, drawn)
after_select wait e select_failed state = some (false, state)
after_select wait e (ready r w) state =
    handle_ready e (reads wait state) (writes state) r w state >>= λ state'. some (true, state')

unfoldable pub chat_round : Bool → Event → ChatState → Option (Bool × ChatState)
unfolding after_select
chat_round wait e state =
    if sets_stray wait state && not e.set_stray then none else after_select wait e e.select state

-- The loop over the rounds that come: `true` where it has ended.
unfoldable pub chat_loop : Bool → List Event → ChatState → Option (Bool × ChatState)
chat_loop wait [] state = some (not state.running, state)
chat_loop wait (e ∷ es) state = elim state.running [
  | false ↦ some (true, state)
  | true ↦ chat_round wait e state >>= λ r. elim r.0 [
    | false ↦ some (true, r.1)
    | true ↦ chat_loop wait es r.1
  ]
]
