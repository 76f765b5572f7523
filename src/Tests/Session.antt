-- ===== src/Tests/Session.antt =====
-- A chat from its start, and the making of a key.
use otpchat.Args.{ChatArgs, generate_flag}
use otpchat.Base.Int.{pos}
use otpchat.Base.{
  ℕ, ◌≡◌, refl, inl, inr, true, false, Option, some, none, [], ◌∷◌, Bytes, replicate, ◌==◌, arith,
  length, equal_bytes, overwrite,
}
use otpchat.Base.Endian.{to_le, from_le}
use otpchat.Block.{null_block, block_of}
use otpchat.Disk.{Disk}
use otpchat.Exchange.Total.{node_exchange_total}
use otpchat.Exchange.{Exchanged, Round, select_failed, interrupted, node_exchange}
use otpchat.Input.Bounds.{Bounded}
use otpchat.Input.{byte, insert_byte, ui_handle_input}
use otpchat.Key.Files.{KeyFile}
use otpchat.Key.{key_open, key_close}
use otpchat.KeyStore.{local_key, key_store_init, key_store_open_local, key_store_open_remote}
use otpchat.User.{
  not_connected, connecting, user_init, user_set_name, user_begin_connect, user_disconnect,
}
use otpchat.Ui.{ui_history_lines, ui_message_lines, count_chars, string_lines, update_history_box}
use otpchat.Chat.{text, chat_begin_connect, chat_push_status, chat_push_message}
use otpchat.Loop.Allowed.{Allowed, Fresh}
use otpchat.Loop.Start.Begin.{Begins}
use otpchat.Loop.Start.Generate.{main_generate}
use otpchat.Loop.Start.Reach.{Reachable, begun, went, Reachable-Inv}
use otpchat.Loop.Start.{Making, chat_init, main}
use otpchat.Loop.{Event, ready, handle_ready, chat_round}
use otpchat.Node.Keeps.{Keeps}
use otpchat.Node.{recv_error, accepted, so_error, unset_node, live, node_close, node_connect}
use otpchat.State.Inv.{Inv}
use otpchat.State.{ChatState, World}
use otpchat.Tests.Keyboard.{calls}
use otpchat.Tests.Keys.{path, key_at, disk, fresh_key, one_block, block_IsFull}
use otpchat.Tests.Messages.{world, talking}
use otpchat.Tests.Network.{node}
use otpchat.Transfer.{added}
use otpchat.Text.{decimal}

-- Two rounds without news, and then no time is left.
abbrev silent : Round
silent = record {
  select = interrupted;
  elapsed = pos 10;
  received = recv_error;
  sent = accepted 0;
  stray = false;
}

abbrev timed_out : Round
timed_out = record silent { select = select_failed }

node_exchange_total_example :
    (x : Exchanged) × (node_exchange (silent ∷ timed_out ∷ []) node (1 ∷ []) 4 (some 20) ≡ some x)
    × Keeps node x.node
node_exchange_total_example =
    node_exchange_total (silent ∷ timed_out ∷ []) node (1 ∷ []) 4 (some 20) (inr (inl refl))

abbrev chat_args : ChatArgs
chat_args = record {
  local_key_path = some path;
  remote_key_path = some path;
  wait_for_remote = false;
  addr = record { node = some (b'a' ∷ []); port = 80 };
}

one_byte : Bytes → Option ℕ
one_byte [] = none
one_byte (_ ∷ _) = some 1

abbrev at_home : World
at_home = record world { terminal = record { mblen = one_byte; width = 80; height = 24 } }

one_byte_Bounded : Bounded at_home.terminal
unfolding one_byte
one_byte_Bounded [] n e = cc
one_byte_Bounded (b ∷ bs) n e = ground arith

begins : Begins at_home calls chat_args talking fresh_key
unfolding key_open equal_bytes to_le from_le overwrite
begins = record {
  local_path = path;
  remote_path = path;
  local_is = refl;
  remote_is = refl;
  local_opens = refl;
  remote_opens = refl;
  screen = omega arith;
  connects = record { opened = λ e. cc; goes_on = inl refl };
  not_stdin = λ e. ground arith;
}

-- The chat has begun, and is connecting.
abbrev started : ChatState
started = record {
  keys = record { local = key_at 1; remotes = key_at 1 ∷ []; remotes_size = 1 };
  local = record {
    key = some local_key;
    node = unset_node;
    name = some (text "Local");
    state = not_connected;
    id = 1;
  };
  remote = record {
    key = none;
    node = record { info = live; socket = some 5 };
    name = some (text "Remote");
    state = connecting;
    id = 2;
  };
  history = record { id = 0; timestamp = 99; text = block_of (text "Connecting to a:80") } ∷ [];
  history_line = 0;
  history_width = 80;
  history_height = pos 21;
  input = null_block;
  cursor_index = 0;
  receiving = null_block;
  received_size = 0;
  sending = null_block;
  sent_size = 0;
  running = true;
}

starts : chat_init at_home calls chat_args talking fresh_key ≡ some (disk, 0, started)
unfolding chat_init key_store_init key_store_open_local key_store_open_remote key_open key_close
    equal_bytes to_le from_le overwrite user_init user_set_name update_history_box
    chat_begin_connect user_begin_connect user_disconnect node_close node_connect chat_push_status
    chat_push_message string_lines count_chars one_byte ui_history_lines ui_message_lines decimal
starts = refl

-- A key is there to be read, and nothing else.
abbrev key_pressed : Event
key_pressed = record {
  set_stray = true;
  world = at_home;
  select =
      ready (record { fds = λ fd. fd == 0; stray = some false })
        (record { fds = λ fd. false; stray = some false });
  received = recv_error;
  sent = accepted 0;
  connect_error = so_error none;
  connect_rounds = record { ids = timed_out ∷ []; accepts = timed_out ∷ [] };
  accepted = none;
  accept_error = so_error none;
  accept_rounds = record { ids = timed_out ∷ []; accepts = timed_out ∷ [] };
  key = byte 104;
  calls = calls;
  error = so_error none;
}

pressed-Allowed : Allowed key_pressed
pressed-Allowed = record {
  sets = refl;
  has_stray = ((λ e. cc), (λ e. cc));
  screen = omega arith;
  bounded = one_byte_Bounded;
  connects = record { opened = λ e. cc; goes_on = inl refl };
  connect_ends = record { ids = inl refl; accepts = inl refl };
  accept_ends = record { ids = inl refl; accepts = inl refl };
}

pressed-Fresh : Fresh key_pressed none (some 5)
pressed-Fresh = record {
  calls = record {
    connect_not_stdin = λ e. ground arith;
    connect_apart = λ fd e. cc;
    listen_apart = λ fd e e'. ground arith;
  };
  accept_not_stdin = λ e. cc;
  accept_apart = λ fd e e'. cc;
  listen_accept = λ fd e e'. cc;
}

abbrev typed : ChatState
typed = record started { input = block_of (104 ∷ []); cursor_index = 1 }

types : chat_round false key_pressed started ≡ some (true, typed)
unfolding chat_round handle_ready ui_handle_input insert_byte overwrite update_history_box
    string_lines count_chars one_byte ui_history_lines ui_message_lines added
types = refl

can_type : Reachable at_home calls chat_args talking fresh_key typed
can_type = went key_pressed true pressed-Allowed pressed-Fresh types (begun starts)

Reachable-Inv_example : Inv typed
Reachable-Inv_example = Reachable-Inv at_home calls chat_args talking fresh_key begins can_type

abbrev making : Making
making = record { openable = true; id_random = replicate 16 3; rounds = one_block ∷ [] }

main_generate_example :
    (d : Disk) × (id key_data : Bytes) × (main at_home calls talking fresh_key [] making
        ((b'o' ∷ []) ∷ generate_flag ∷ decimal 5 ∷ path ∷ [])
      ≡ some (some (0, d)))
    × KeyFile d path 0 id key_data
    × (length key_data ≡ 5)
main_generate_example =
    main_generate at_home calls talking fresh_key [] making (b'o' ∷ []) path 5 (omega arith)
      (omega arith) refl refl (block_IsFull, tt) (omega arith)
