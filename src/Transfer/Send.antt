-- ===== src/Transfer/Send.antt =====
-- The sending side: what `chat_begin_send` prepares, and that `chat_handle_send` gives it to the
-- socket once and in order.
use otpchat.Base.{
  ℕ, ◌+◌, ◌-◌, ◌%◌, ◌^◌, ◌≤◌, ◌<◌, ◌≡◌, refl, sym, ap, ap₂, ◌∙◌, Bool, false, some, List, [], ◌∷◌,
  ◌++◌, Bytes, ◌>>=◌, arith, if◌then◌else◌, ◌==◌, not, length, take, drop, length-append,
  append-nil, length-drop, take_all, drop_all, append_assoc, take-append-drop, drop-drop,
  Bool-cases, inl, inr,
}
use otpchat.Block.{Block, block_of, null_block, content, free_block}
use otpchat.Chat.Push.{CanDraw, chat_push_status_lem}
use otpchat.Chat.{chat_push_status, text}
use otpchat.Key.Pad.{Pad, advance, encrypt_lem, encrypt_short}
use otpchat.Key.Xor.{xor_with, length-xor_with}
use otpchat.Key.{Key, encrypt}
use otpchat.KeyStore.{KeyRef, get_key, set_key}
use otpchat.Node.Life.{node_send_lem}
use otpchat.Node.{Node, Sent, node_send}
use otpchat.State.{ChatState, World}
use otpchat.Transfer.Frame.{length-header, frame, length-frame}
use otpchat.Transfer.{header, chat_begin_send, chat_handle_send}

-- The local key, with what its stream has still to give.
pub record HasLocalKey (w : World) (st : ChatState) (k : Key) (rest : Bytes) : Type 0 where
  pub ref : KeyRef
  pub key_is : st.local.key ≡ some ref
  pub held : get_key st.keys ref ≡ some k
  pub pad : Pad w.disk k rest

begin_send_steps :
    (w : World) (st : ChatState) (ms out : Bytes) (ref : KeyRef) (k k' : Key) (status : ℕ)
    → st.local.key ≡ some ref
    → get_key st.keys ref ≡ some k
    → length ms % 2 ^ 32 ≡ length ms
    → length ms + 12 - 12 ≡ length ms
    → take (length ms) ms ≡ ms
    → encrypt w.disk k (block_of ms) ≡ some (status, k', block_of out)
    → length (header (length ms) k.head ++ out) ≡ length ms + 12
    → chat_begin_send w st (block_of ms) ≡ (
        if not (status == 0)
        then (chat_push_status w
              (record st {
                keys = set_key st.keys ref k';
                sending = block_of (header (length ms) k.head ++ out);
                sent_size = 0;
              })
              (text "Out of local key data!")
            >>= λ st'. some (1, st'))
        else some (
          0,
          record st {
            keys = set_key st.keys ref k';
            sending = block_of (header (length ms) k.head ++ out);
            sent_size = 0;
          },
        ))
unfolding chat_begin_send
begin_send_steps w st ms out ref k k' status key_is held word whole all encrypts size =
    simp (key_is, held, word, whole, all, encrypts, size)

-- With enough key, the ciphertext is to be sent, behind a header with its size and the head that
-- the key had.
pub chat_begin_send_lem :
    (w : World) (st : ChatState) (ms rest : Bytes) (k : Key) (h : HasLocalKey w st k rest)
    → length ms < 2 ^ 32
    → length ms ≤ length rest
    → chat_begin_send w st (block_of ms)
      ≡ some (
        0,
        record st {
          keys = set_key st.keys h.ref (advance k (length ms));
          sending = block_of (frame k.head (xor_with rest ms));
          sent_size = 0;
        },
      )
chat_begin_send_lem w st ms rest k h small fits =
    begin_send_steps w st ms (xor_with rest ms) h.ref k (advance k (length ms)) 0 h.key_is h.held
      (omega arith) (omega arith) (take_all (length ms) ms (omega arith))
      (encrypt_lem ms h.pad fits)
      (omega (
        arith,
        length-append (header (length ms) k.head) (xor_with rest ms),
        length-header (length ms) k.head,
        length-xor_with rest ms,
      ))
    ∙ ap
        (λ (n : ℕ). some (
          0,
          record st {
            keys = set_key st.keys h.ref (advance k (length ms));
            sending = block_of (header n k.head ++ xor_with rest ms);
            sent_size = 0;
          },
        ))
        (sym (length-xor_with rest ms))

-- With too little key left, the error is reported, and what is to be sent is the message itself.
pub chat_begin_send_short :
    (w : World) (st : ChatState) (ms rest : Bytes) (k : Key) (h : HasLocalKey w st k rest)
    → CanDraw w st
    → length ms < 2 ^ 32
    → length rest < length ms
    → (st' : ChatState) × (chat_begin_send w st (block_of ms) ≡ some (1, st'))
      × (st'.sending ≡ block_of (frame k.head ms))
      × (st'.sent_size ≡ 0)
chat_begin_send_short w st ms rest k h c small short =
    let (st', pushes, p) =
      chat_push_status_lem w
        (record st {
          keys = set_key st.keys h.ref (advance k (length rest));
          sending = block_of (frame k.head ms);
          sent_size = 0;
        })
        (text "Out of local key data!") (record { screen = c.screen; box = c.box }) in
    (
      st',
      begin_send_steps w st ms ms h.ref k (advance k (length rest)) 1 h.key_is h.held (omega arith)
            (omega arith) (take_all (length ms) ms (omega arith)) (encrypt_short ms h.pad short)
            (omega (arith, length-frame k.head ms))
          ∙ ap (λ o. o >>= λ (s : ChatState). some (1, s)) pushes,
      ap (λ (s : ChatState). s.sending) p.is_state,
      ap (λ (s : ChatState). s.sent_size) p.is_state,
    )

-- What one call gives to the socket.
abbrev pub given : Sent → ChatState → Bytes
given s st =
    let left = drop st.sent_size (content st.sending) in
    take (node_send s st.remote.node left).1 left

-- What is still to be sent.
abbrev pub remaining : ChatState → Bytes
remaining st = drop st.sent_size (content st.sending)

abbrev pub send_all : List Sent → ChatState → Bytes × ChatState
send_all [] st = ([], st)
send_all (s ∷ ss) st =
    let rest = send_all ss (chat_handle_send s st) in (given s st ++ rest.0, rest.1)

-- The state with `at` bytes of `ys` sent.
abbrev pub offering : ChatState → Bytes → ℕ → ChatState
offering st ys at = record st { sending = block_of ys; sent_size = at }

send_idle : (s : Sent) (st : ChatState) → st.sending ≡ null_block → chat_handle_send s st ≡ st
unfolding chat_handle_send
send_idle s st e = simp e

given_idle : (s : Sent) (st : ChatState) → st.sending ≡ null_block → given s st ≡ []
given_idle s st e =
    ap
      (λ (b : Block).
        take (node_send s st.remote.node (drop st.sent_size (content b))).1
          (drop st.sent_size (content b)))
      e
    ∙ ap (λ (xs : Bytes). take (node_send s st.remote.node xs).1 xs)
        (drop_all st.sent_size [] (omega arith))
    ∙ take_all (node_send s st.remote.node []).1 [] (omega arith)

pub send_all_idle :
    (ss : List Sent) (st : ChatState) → st.sending ≡ null_block → send_all ss st ≡ ([], st)
send_all_idle [] st e = refl
send_all_idle (s ∷ ss) st e = rw (send_idle s st e, given_idle s st e, send_all_idle ss st e)

-- A call hands over `n` bytes, and the buffer goes when these were the last.
send_step :
    (s : Sent) (st : ChatState) (ys : Bytes) (at : ℕ)
    → at < length ys
    → (n : ℕ) × (node : Node) × (n ≤ length (drop at ys))
      × (given s (offering st ys at) ≡ take n (drop at ys))
      × (chat_handle_send s (offering st ys at) ≡ (
          if at + n == length ys
          then record st {
            remote = record st.remote { node = node };
            sending = null_block;
            sent_size = 0;
          }
          else offering (record st { remote = record st.remote { node = node } }) ys (at + n)))
unfolding chat_handle_send free_block
send_step s st ys at h =
    let sent = node_send s st.remote.node (drop at ys) in
    let some_bytes : (length ys == 0) ≡ false = ground arith in
    (sent.1, sent.0, (node_send_lem s st.remote.node (drop at ys)).0, refl, rw some_bytes)

abbrev outcome : List Sent → ChatState → Bytes
outcome ss st = (send_all ss st).0 ++ remaining (send_all ss st).1

-- From any point before the end of a buffer, and however the socket takes them, the bytes go out once and in order: what was given to it, and then
-- what is still to be sent, are what there was to be sent.
pub send_all_lem :
    (ss : List Sent) (st : ChatState) (ys : Bytes) (at : ℕ)
    → at < length ys
    → (send_all ss (offering st ys at)).0 ++ remaining (send_all ss (offering st ys at)).1
      ≡ drop at ys
send_all_lem [] st ys at h = refl
send_all_lem (s ∷ ss) st ys at h =
    let (n, node, n_le, given_is, step) = send_step s st ys at h in
    let sent_on : ChatState = record st { remote = record st.remote { node = node } } in
    let done : ChatState = record sent_on { sending = null_block; sent_size = 0 } in
    let next : Bool → ChatState = λ b. if b then done else offering sent_on ys (at + n) in
    append_assoc (given s (offering st ys at))
      (send_all ss (chat_handle_send s (offering st ys at))).0
      (remaining (send_all ss (chat_handle_send s (offering st ys at))).1)
    ∙ ap₂ (λ (xs zs : Bytes). xs ++ zs) given_is (ap (outcome ss) step)
    ∙ elim (Bool-cases (at + n == length ys)) [
      | inl e ↦
          let all : length (drop at ys) ≤ n = ground (arith, length-drop at ys) in
          ap (λ b. take n (drop at ys) ++ outcome ss (next b)) e
          ∙ ap (λ (r : Bytes × ChatState). take n (drop at ys) ++ (r.0 ++ remaining r.1))
              (send_all_idle ss done refl)
          ∙ append-nil (take n (drop at ys))
          ∙ take_all n (drop at ys) all
      | inr e ↦
          let more : at + n < length ys = ground (arith, length-drop at ys) in
          ap (λ b. take n (drop at ys) ++ outcome ss (next b)) e
          ∙ ap (◌++◌ (take n (drop at ys)))
              (send_all_lem ss sent_on ys (at + n) more ∙ sym (drop-drop n at ys))
          ∙ take-append-drop n (drop at ys)
    ]
