-- ===== src/Transfer/Handlers.antt =====
-- What the handlers of `chat_handle_recv` leave, on the states that the loop comes to.
use otpchat.Base.{
  ℕ, ◌+◌, ◌-◌, ◌≤◌, ◌≡◌, ◌≢◌, refl, ap, inl, inr, Option, none, some, ◌++◌, Bytes, ◌==◌, arith, not,
  length, take, drop, length-append, length-take, length-drop,
}
use otpchat.Block.{Block, block_of, free_block}
use otpchat.Key.Total.{key_seek_total, encrypt_total}
use otpchat.Base.Endian.{from_be}
use otpchat.Transfer.Receive.{length-added}
use otpchat.Key.{Key, decrypt}
use otpchat.KeyStore.{KeyRef, get_key, set_key}
use otpchat.State.Inv.{InvOf, Safe, Safe-bind, Safe-if, NullOrHeld, get_key-IsOpen}
use otpchat.Chat.{text}
use otpchat.State.Net.{key_moved}
use otpchat.State.View.{chat_push_message-Safe, chat_push_status-Safe}
use otpchat.State.{ChatState, World}
use otpchat.Transfer.{added, header, handle_header, handle_text, chat_handle_message}
use otpchat.Transfer.Buffers.{freed_is_null}

module _ (Sockets : Option ℕ → Option ℕ → Type 0)
    (gives_up : (local remote : Option ℕ) → Sockets local remote → Sockets local none) where
  abbrev pub After : ℕ × ChatState → Type 0
  After r = InvOf Sockets r.1

  -- What the handlers behind the `recv` need: bytes have come, so the peer has its key.
  abbrev pub HasKey : ChatState → Type 0
  HasKey st =
      (ref : KeyRef) × (k : Key) × (st.remote.key ≡ some ref) × (get_key st.keys ref ≡ some k)

  pub handle_header-Safe :
      (w : World) (st : ChatState) (xs : Bytes)
      → InvOf Sockets st
      → HasKey st
      → st.receiving ≡ block_of xs
      → 12 ≤ length xs
      → st.received_size ≤ length xs
      → Safe After (handle_header w st xs)
  unfolding handle_header
  handle_header-Safe w st xs h (ref, k, key_is, held) e header count =
      let size = from_be (take 4 xs) in
      let (k', seeks, o) =
        key_seek_total k (from_be (take 8 (drop 4 xs)))
          (get_key-IsOpen st.keys ref k h.net.store held) in
      let ys : Bytes = xs ++ added w.fresh size in
      let grown : length ys ≡ length xs + size =
        omega (arith, length-append xs (added w.fresh size), length-added w.fresh size) in
      let room : st.receiving.size + size ≡ length ys =
        omega (arith, grown, ap (λ (b : Block). b.size) e) in
      simp (key_is, held, seeks)
        (record {
          box = h.box;
          net = key_moved st.keys st.local st.remote ref k' o h.net;
          receiving = inr (
            ys,
            ap (λ (n : ℕ). let b : Block = record { bytes = some ys; size = n } in b) room,
            omega (arith, grown),
            omega (arith, grown),
          );
          sending = h.sending;
          input = h.input;
          sockets = h.sockets;
        })

  chat_handle_message-Safe :
      (w : World) (st : ChatState) (xs : Bytes)
      → 2 ≤ w.terminal.width
      → InvOf Sockets st
      → st.receiving.bytes ≡ some xs
      → Safe After (chat_handle_message w st)
  unfolding chat_handle_message free_block
  chat_handle_message-Safe w st xs wide h e = simp e (
      Safe-bind (InvOf Sockets) After _ _
        (chat_push_message-Safe Sockets w st _ (drop 12 xs) wide refl h)
        (λ st' h'. record {
          box = h'.box;
          net = h'.net;
          receiving = inl (freed_is_null st'.receiving st'.received_size h'.receiving);
          sending = h'.sending;
          input = h'.input;
          sockets = h'.sockets;
        }))

  pub handle_text-Safe :
      (w : World) (st : ChatState) (xs : Bytes)
      → 2 ≤ w.terminal.width
      → InvOf Sockets st
      → HasKey st
      → st.receiving ≡ block_of xs
      → 12 ≤ length xs
      → st.received_size ≤ length xs
      → Safe After (handle_text w st xs)
  unfolding handle_text decrypt
  handle_text-Safe w st xs wide h (ref, k, key_is, held) e header count =
      let size : st.receiving.size ≡ length xs = ap (λ (b : Block). b.size) e in
      let (status, k', out, enc, o, same) =
        encrypt_total w.disk k (drop 12 xs) (st.receiving.size - 12)
          (get_key-IsOpen st.keys ref k h.net.store held)
          (omega (arith, size, length-drop 12 xs)) in
      let ys : Bytes = take 12 xs ++ out in
      let whole : length ys ≡ length xs =
        omega (arith, length-append (take 12 xs) out, length-take 12 xs, length-drop 12 xs, same) in
      let h' : InvOf Sockets (record st {
        keys = set_key st.keys ref k';
        receiving = record st.receiving { bytes = some ys };
      }) =
        record {
          box = h.box;
          net = key_moved st.keys st.local st.remote ref k' o h.net;
          receiving = inr (
            ys,
            ap (λ (n : ℕ). let b : Block = record { bytes = some ys; size = n } in b)
                (let fits : st.receiving.size ≡ length ys = omega (arith, size, whole) in fits),
            omega (arith, whole),
            omega (arith, whole),
          );
          sending = h.sending;
          input = h.input;
          sockets = h.sockets;
        } in
      simp (key_is, held, enc)
        (Safe-if After (not (status == 0)) _ _
          (λ _.
            Safe-bind (InvOf Sockets) After _ _
              (chat_push_status-Safe Sockets w _ (text "Out of remote key data!") wide h')
              (λ st' k. k))
          (λ _. chat_handle_message-Safe w _ ys wide h' refl))

  pub HasKey-of :
      (st : ChatState) (key : Option KeyRef)
      → st.remote.key ≡ key
      → st.remote.key ≢ none
      → NullOrHeld st.keys key
      → HasKey st
  HasKey-of st none e ne h = absurd (ne e)
  HasKey-of st (some ref) e ne (k, held) = (ref, k, e, held)
