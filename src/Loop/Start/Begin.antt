-- ===== src/Loop/Start/Begin.antt =====
-- `chat_init` of chat.c on two key files that can be opened.
use otpchat.Args.{ChatArgs}
use otpchat.Base.Int.{ℤ}
use otpchat.Base.{ℕ, ◌≤◌, ◌<◌, ◌≡◌, ◌≢◌, refl, inl, some, [], ◌∷◌, ◌>>=◌}
use otpchat.Chat.Safety.{chat_begin_connect-Safe, chat_begin_listen-Safe}
use otpchat.Chat.{chat_begin_connect, chat_begin_listen}
use otpchat.Command.{Calls}
use otpchat.Disk.{FilePath, null}
use otpchat.Key.Stale.{key_close_null}
use otpchat.Key.Total.{key_open-IsOpen}
use otpchat.Key.{Key, key_open}
use otpchat.KeyStore.{KeyStore, key_store_init, key_store_open_local, key_store_open_remote}
use otpchat.Loop.Start.{initial, init_remote, begin_network, chat_init}
use otpchat.Node.Life.{Connects}
use otpchat.State.Inv.{Inv, StoreInv, Safe, Safe-bind, Safe-if, Safe-result}
use otpchat.State.{ChatState, World}
use otpchat.Ui.Total.{update_history_box_total}
use otpchat.User.{user_init, user_set_name}

-- Both key files are accepted, the screen can be drawn, and a connection that is tried is not
-- refused at once.
pub record Begins (w : World) (calls : Calls) (a : ChatArgs) (memory : ChatState) (remote : Key)
    : Type 0 where
  pub local_path : FilePath
  pub remote_path : FilePath
  pub local_is : a.local_key_path ≡ some local_path
  pub remote_is : a.remote_key_path ≡ some remote_path
  pub local_opens : (key_open w.disk local_path (record memory.keys.local { stream = null })).0 ≡ 0
  pub remote_opens : (key_open w.disk remote_path remote).0 ≡ 0
  pub screen : 2 ≤ w.terminal.width
  pub connects : Connects calls.connect
  pub not_stdin : calls.connect.socket ≢ some 0

initial-Inv :
    (memory : ChatState) (keys : KeyStore) (width : ℕ) (height : ℤ)
    → StoreInv keys
    → 0 < width
    → Inv (record (initial memory keys) { history_width = width; history_height = height })
unfolding user_init user_set_name
initial-Inv memory keys width height h box = record {
  box = box;
  net = record {
    store = h;
    local_is = refl;
    local_node = λ e. cc;
    remote_node = λ e. cc;
    not_stdin = λ e. cc;
    apart = λ fd e. cc;
    held = tt;
    has_key = λ e. cc;
  };
  receiving = inl refl;
  sending = inl refl;
  input = inl (refl, refl);
  sockets = tt;
}

begin_network-Safe :
    (w : World) (calls : Calls) (a : ChatArgs) (memory : ChatState) (keys : KeyStore)
    → 2 ≤ w.terminal.width
    → Connects calls.connect
    → calls.connect.socket ≢ some 0
    → StoreInv keys
    → Safe Inv (begin_network w calls a (initial memory keys))
unfolding begin_network user_init user_set_name
begin_network-Safe w calls a memory keys wide connects not_stdin h =
    let (width, height, draws, box) =
      update_history_box_total w.terminal (initial memory keys) wide in
    let st : ChatState = record (initial memory keys) {
      history_width = width;
      history_height = height;
    } in
    let h' = initial-Inv memory keys width height h box in
    rw draws (
      Safe-if Inv a.wait_for_remote
        (chat_begin_listen calls.listen w st a.addr.port >>= λ r. some r.1)
        (chat_begin_connect calls.connect w st a.addr >>= λ r. some r.1)
        (λ _.
          Safe-bind (λ (r : ℕ × ChatState). Inv r.1) Inv _ _
            (chat_begin_listen-Safe w wide calls.listen st a.addr.port (λ fd e e'. cc) h')
            (λ r k. k))
        (λ _.
          Safe-bind (λ (r : ℕ × ChatState). Inv r.1) Inv _ _
            (chat_begin_connect-Safe w wide calls.connect st a.addr connects not_stdin
              (λ fd e e'. cc) h')
            (λ r k. k)))

-- Where both key files are accepted, `chat_init` returns 0, whatever the memory held before, and
-- leaves a state for which the invariant holds.
pub chat_init_lem :
    (w : World) (calls : Calls) (a : ChatArgs) (memory : ChatState) (remote : Key)
    → Begins w calls a memory remote
    → (st : ChatState) × (chat_init w calls a memory remote ≡ some (w.disk, 0, st)) × Inv st
unfolding chat_init init_remote key_store_init key_store_open_local key_store_open_remote
chat_init_lem w calls a memory remote b =
    let k₀ = record memory.keys.local { stream = null } in
    let local = key_open w.disk b.local_path k₀ in
    let opened_remote = key_open w.disk b.remote_path remote in
    let keys : KeyStore = record {
      local = local.1;
      remotes = opened_remote.1 ∷ [];
      remotes_size = 1;
    } in
    let store : StoreInv keys = record {
      counted = refl;
      local_open = key_open-IsOpen w.disk b.local_path k₀ b.local_opens;
      remotes_open = (key_open-IsOpen w.disk b.remote_path remote b.remote_opens, tt);
    } in
    let (st, begins, h) =
      Safe-result Inv (begin_network w calls a (initial memory keys))
        (begin_network-Safe w calls a memory keys b.screen b.connects b.not_stdin store) in
    (
      st,
      simp (
        b.local_is,
        b.remote_is,
        key_close_null w.disk k₀ refl,
        b.local_opens,
        b.remote_opens,
        begins,
      ),
      h,
    )
