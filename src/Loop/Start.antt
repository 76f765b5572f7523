-- ===== src/Loop/Start.antt =====
-- chat.c: the start of a chat, and its end. main.c: the program.
pub mod Begin
pub mod Reach
pub mod Run
pub mod Generate
use otpchat.Args.{ChatArgs, GenerateArgs, Args, invalid, chat, generate, parse_args}
use otpchat.Base.{
  ℕ, Bool, true, false, not, Option, none, some, List, [], Bytes, ◌>>=◌, if◌then◌else◌, ◌==◌, map,
}
use otpchat.Block.{null_block, free_block}
use otpchat.Chat.{text, chat_begin_connect, chat_begin_listen}
use otpchat.Command.{Calls}
use otpchat.Disk.{Disk}
use otpchat.Key.{Key, Round, key_create, key_close}
use otpchat.KeyStore.{
  KeyStore, local_key, key_store_init, key_store_open_local, key_store_open_remote, key_store_close,
}
use otpchat.Loop.{Event, chat_loop}
use otpchat.State.{ChatState, World}
use otpchat.Ui.{update_history_box}
use otpchat.User.{user_init, user_set_name, user_close, id_local, id_remote}

-- What `chat_init` writes. `local.key` points at the store's own key; the size of the history is
-- what the memory held.
abbrev pub initial : ChatState → KeyStore → ChatState
initial memory keys = record {
  keys = keys;
  local = record (user_set_name (user_init id_local) (text "Local")) { key = some local_key };
  remote = user_set_name (user_init id_remote) (text "Remote");
  history = [];
  history_line = 0;
  history_width = memory.history_width;
  history_height = memory.history_height;
  input = null_block;
  cursor_index = 0;
  receiving = null_block;
  received_size = 0;
  sending = null_block;
  sent_size = 0;
  running = true;
}

-- The label `fail`.
init_failed : Disk → ChatState → KeyStore → Option (Disk × ℕ × ChatState)
init_failed d memory keys = do
  (d', keys') ← key_store_close d keys
  some (d', 1, record memory { keys = keys' })

-- The screen is drawn, and the first connection is tried; what comes of it is passed over.
begin_network : World → Calls → ChatArgs → ChatState → Option ChatState
begin_network w calls a state = do
  drawn ← update_history_box w.terminal state
  if a.wait_for_remote
      then (chat_begin_listen calls.listen w drawn a.addr.port >>= λ r. some r.1)
      else (chat_begin_connect calls.connect w drawn a.addr >>= λ r. some r.1)

init_remote : World → Calls → ChatArgs → ChatState → Key → KeyStore → Option (Disk × ℕ × ChatState)
unfolding init_failed begin_network
init_remote w calls a memory remote keys = do
  remote_path ← a.remote_key_path
  let tried = key_store_open_remote w.disk keys remote remote_path
  if not (tried.0 == 0)
      then init_failed w.disk memory tried.1
      else (begin_network w calls a (initial memory tried.1) >>= λ state. some (w.disk, 0, state))

-- The disk, the status and `*state`, over the memory in which it and the key of
-- `key_store_open_remote` come to lie.
unfoldable pub chat_init :
    World → Calls → ChatArgs → ChatState → Key → Option (Disk × ℕ × ChatState)
unfolding init_remote
chat_init w calls a memory remote = do
  local_path ← a.local_key_path
  (d, status, keys) ← key_store_open_local w.disk (key_store_init memory.keys) local_path
  if not (status == 0)
      then init_failed d memory keys
      else init_remote (record w { disk = d }) calls a memory remote keys

-- What is left behind is not looked at again.
unfoldable pub chat_end : Disk → ChatState → Option (Disk × ChatState)
chat_end d state = do
  local' ← user_close state.local
  remote' ← user_close state.remote
  (d', keys') ← key_store_close d state.keys
  some (
    d',
    record state {
      local = local';
      remote = remote';
      keys = keys';
      receiving = free_block state.receiving;
      sending = free_block state.sending;
      input = free_block state.input;
      history = [];
    },
  )

-- The files that the handlers see are those that the start left.
abbrev pub on_disk : Disk → Event → Event
on_disk d e = record e { world = record e.world { disk = d } }

-- After the loop: `none` inside is a chat that goes on.
after_loop : Disk → Bool × ChatState → Option (Option Disk)
after_loop d (false, state) = some none
after_loop d (true, state) = chat_end d state >>= λ r. some (some r.0)

-- The files at the end of a chat.
unfoldable pub run_chat :
    World → Calls → ChatState → Key → List Event → ChatArgs → Option (Option Disk)
unfolding after_loop
run_chat w calls memory remote events a = do
  (d, status, state) ← chat_init w calls a memory remote
  if not (status == 0)
      then some (some d)
      else (chat_loop a.wait_for_remote (map (on_disk d) events) state >>= after_loop d)

-- What the system does while a key is made.
pub record Making : Type 0 where
  pub openable : Bool
  pub id_random : Bytes
  pub rounds : List Round

-- The status of `key_create` is passed over.
unfoldable pub generate_key : Disk → Making → Key → GenerateArgs → Option Disk
generate_key d m new_key a = do
  path ← a.key_path
  (d', _, made) ← key_create d path m.openable m.id_random m.rounds a.key_size new_key
  (d'', _) ← key_close d' made
  some d''

abbrev exit : ℕ → Option Disk → Option (ℕ × Disk)
exit status none = none
exit status (some d) = some (status, d)

run_mode : World → Calls → ChatState → Key → List Event → Making → Args → Option (Option (ℕ × Disk))
run_mode w calls memory key events m invalid = some (some (0, w.disk))
run_mode w calls memory key events m (chat a) =
    run_chat w calls memory key events a >>= λ d. some (exit 0 d)
run_mode w calls memory key events m (generate a) =
    generate_key w.disk m key a >>= λ d. some (some (0, d))

-- The exit status and the files at the end. `free_args` at the end leaves nothing to be read.
unfoldable pub main :
    World → Calls → ChatState → Key → List Event → Making → List Bytes → Option (Option (ℕ × Disk))
unfolding run_mode
main w calls memory key events m argv = elim (parse_args argv) [
  | none ↦ some (some (1, w.disk))
  | some args ↦ run_mode w calls memory key events m args
]
