-- ===== src/Transfer/Apart.antt =====
-- What `chat_handle_recv` does, whatever is to be sent: it neither reads nor changes it, and keeps
-- the connection over which something came.
use otpchat.Base.{
  ℕ, ◌+◌, ◌≡◌, refl, sym, ap, ◌∙◌, Bool, true, false, Option, some, none, [], ◌∷◌, ◌++◌, Bytes,
  ◌>>=◌, if◌then◌else◌, ◌==◌, not, arith, take, drop, length, overwrite, ◌-◌,
}
use otpchat.Base.Int.{sub_ℕ}
use otpchat.Block.{Block, content}
use otpchat.Chat.{chat_push_message, chat_push_status, scrolled, copy_text, text}
use otpchat.KeyStore.{get_key, set_key}
use otpchat.Key.{decrypt}
use otpchat.Message.{Message}
use otpchat.Node.{Received, node_recv}
use otpchat.State.{ChatState, Terminal, World}
use otpchat.Transfer.{
  begin_receiving, handle_header, handle_text, chat_handle_message, chat_handle_recv,
}
use otpchat.Ui.{update_history_box, make_room, ui_history_lines, string_lines}

-- The state with something else to be sent.
abbrev pub put : Block → ℕ → ChatState → ChatState
put b n st = record st { sending = b; sent_size = n }

abbrev pub on_state : (ChatState → ChatState) → ℕ × ChatState → ℕ × ChatState
on_state f (status, st) = (status, f st)

abbrev pub map_some : {A B : Type 0} → (A → B) → Option A → Option B
map_some f none = none
map_some f (some a) = some (f a)

bind_apart :
    {A B : Type 0} (h : B → B) (o : Option A) (f g : A → Option B)
    → ((a : A) → g a ≡ map_some h (f a))
    → (o >>= g) ≡ map_some h (o >>= f)
bind_apart h none f g e = refl
bind_apart h (some a) f g e = e a

-- Where the part in front is computed apart too.
pub then_apart :
    {A B : Type 0} (k : A → A) (h : B → B) (o o' : Option A) (f g : A → Option B)
    → o' ≡ map_some k o
    → ((a : A) → g (k a) ≡ map_some h (f a))
    → (o' >>= g) ≡ map_some h (o >>= f)
then_apart k h none o' f g e e' = rw e refl
then_apart k h (some a) o' f g e e' = rw e (e' a)

pub if_apart :
    {B : Type 0} (h : B → B) (b : Bool) (x y x' y' : Option B)
    → x' ≡ map_some h x
    → y' ≡ map_some h y
    → (if b then x' else y') ≡ map_some h (if b then x else y)
if_apart h true x y x' y' e e' = e
if_apart h false x y x' y' e e' = e'

-- What comes after the bytes of a call are in the buffer `xs`.
abbrev pub on_received : World → ChatState → Bytes → Bytes → Option (ℕ × ChatState)
on_received w state got xs =
    if length got == 0
    then some (1, state)
    else if not (state.received_size == state.receiving.size)
    then some (0, state)
    else if state.receiving.size == 12
    then handle_header w state xs
    else handle_text w state xs

-- The rest of a call, once the buffer is there.
abbrev pub received_into : Received → World → ChatState → Option (ℕ × ChatState)
received_into r w state = do
  buffer ← state.receiving.bytes
  let received = node_recv r state.remote.node (state.receiving.size - state.received_size)
  let xs = overwrite state.received_size received.1 buffer
  on_received w
      (record state {
        remote = record state.remote { node = received.0 };
        receiving = record state.receiving { bytes = some xs };
        received_size = state.received_size + length received.1;
      })
      received.1 xs

pub into_lem :
    (r : Received) (w : World) (st : ChatState)
    → chat_handle_recv r w st ≡ received_into r w (begin_receiving st)
unfolding chat_handle_recv
into_lem r w st = refl

module _ (b : Block) (n : ℕ) where
  make_room_apart :
      (t : Terminal) (st : ChatState) (lines : ℕ)
      → make_room t (put b n st) lines ≡ map_some (put b n) (make_room t st lines)
  unfolding make_room ui_history_lines
  make_room_apart t st lines = ground arith

  update_history_box_apart :
      (t : Terminal) (st : ChatState)
      → update_history_box t (put b n st) ≡ map_some (put b n) (update_history_box t st)
  unfolding update_history_box ui_history_lines
  update_history_box_apart t st =
      bind_apart (put b n) (string_lines t (take st.input.size (content st.input)) t.width) _ _
        (λ input_lines.
          let lines = if input_lines == 0 then 1 else input_lines in
          let sized = record st {
            history_width = t.width;
            history_height = sub_ℕ t.height (lines + 2);
          } in
          bind_apart (put b n) (ui_history_lines t sized) _ _ (make_room_apart t sized))

  push_message_apart :
      (w : World) (st : ChatState) (msg : Message)
      → chat_push_message w (put b n st) msg ≡ map_some (put b n) (chat_push_message w st msg)
  unfolding chat_push_message scrolled
  push_message_apart w st msg = bind_apart (put b n) (copy_text msg.text) _ _ (λ copied.
      let new_msg = record msg { text = copied } in
      bind_apart (put b n) (scrolled w st new_msg) _ _ (λ line.
        update_history_box_apart w.terminal
          (record st { history = st.history ++ new_msg ∷ []; history_line = line })))

  push_status_apart :
      (w : World) (st : ChatState) (printed : Bytes)
      → chat_push_status w (put b n st) printed ≡ map_some (put b n) (chat_push_status w st printed)
  unfolding chat_push_status
  push_status_apart w st printed = push_message_apart w st _

  handle_message_apart :
      (w : World) (st : ChatState)
      → chat_handle_message w (put b n st)
        ≡ map_some (on_state (put b n)) (chat_handle_message w st)
  unfolding chat_handle_message
  handle_message_apart w st = bind_apart (on_state (put b n)) st.receiving.bytes _ _ (λ xs.
      then_apart (put b n) (on_state (put b n)) _ _ _ _ (push_message_apart w st _) (λ s. refl))

  handle_header_apart :
      (w : World) (st : ChatState) (xs : Bytes)
      → handle_header w (put b n st) xs ≡ map_some (on_state (put b n)) (handle_header w st xs)
  unfolding handle_header
  handle_header_apart w st xs = ground arith

  handle_text_apart :
      (w : World) (st : ChatState) (xs : Bytes)
      → handle_text w (put b n st) xs ≡ map_some (on_state (put b n)) (handle_text w st xs)
  unfolding handle_text
  handle_text_apart w st xs = bind_apart (on_state (put b n)) st.remote.key _ _ (λ ref.
      bind_apart (on_state (put b n)) (get_key st.keys ref) _ _ (λ k.
        let cipher : Block = record { bytes = some (drop 12 xs); size = st.receiving.size - 12 } in
        bind_apart (on_state (put b n)) (decrypt w.disk k cipher) _ _ (λ d.
          let state' = record st {
            keys = set_key st.keys ref d.1;
            receiving = record st.receiving { bytes = some (take 12 xs ++ content d.2) };
          } in
          if_apart (on_state (put b n)) (not (d.0 == 0)) _ _ _ _
            (then_apart (put b n) (on_state (put b n)) _ _ _ _
              (push_status_apart w state' (text "Out of remote key data!")) (λ s. refl))
            (handle_message_apart w state'))))

  on_received_apart :
      (w : World) (st : ChatState) (got xs : Bytes)
      → on_received w (put b n st) got xs ≡ map_some (on_state (put b n)) (on_received w st got xs)
  on_received_apart w st got xs = if_apart (on_state (put b n)) (length got == 0) _ _ _ _ refl (
      if_apart (on_state (put b n)) (not (st.received_size == st.receiving.size)) _ _ _ _ refl (
        if_apart (on_state (put b n)) (st.receiving.size == 12) _ _ _ _
          (handle_header_apart w st xs) (handle_text_apart w st xs)))

  begin_receiving_apart :
      (st : ChatState) → begin_receiving (put b n st) ≡ put b n (begin_receiving st)
  unfolding begin_receiving
  begin_receiving_apart st = ground arith

  into_apart :
      (r : Received) (w : World) (st : ChatState)
      → received_into r w (put b n st) ≡ map_some (on_state (put b n)) (received_into r w st)
  into_apart r w st = bind_apart (on_state (put b n)) st.receiving.bytes _ _ (λ buffer.
      let received = node_recv r st.remote.node (st.receiving.size - st.received_size) in
      let xs = overwrite st.received_size received.1 buffer in
      on_received_apart w
        (record st {
          remote = record st.remote { node = received.0 };
          receiving = record st.receiving { bytes = some xs };
          received_size = st.received_size + length received.1;
        })
        received.1 xs)

  pub chat_handle_recv_apart :
      (r : Received) (w : World) (st : ChatState)
      → chat_handle_recv r w (put b n st) ≡ map_some (on_state (put b n)) (chat_handle_recv r w st)
  chat_handle_recv_apart r w st =
      into_lem r w (put b n st)
      ∙ ap (received_into r w) (begin_receiving_apart st)
      ∙ into_apart r w (begin_receiving st)
      ∙ ap (map_some (on_state (put b n))) (sym (into_lem r w st))
