-- ===== src/Transfer/Stuck.antt =====
-- The remote key runs out: the message is not freed, and no later one is read.
use otpchat.Base.{
  ℕ, ◌+◌, ◌-◌, ◌<◌, ◌≡◌, refl, ap, ap₂, ◌∙◌, some, none, [], ◌∷◌, ◌++◌, List, Bytes, ◌>>=◌, arith,
  length, drop, take, length-append, length-drop,
}
use otpchat.Block.{Block, block_of, null_block}
use otpchat.Chat.Push.{status_message, chat_push_status_lem}
use otpchat.Chat.{chat_push_status, text}
use otpchat.Disk.{Disk}
use otpchat.Key.Pad.{KeyAt-Pad, Pad, advance, concat, encrypt_short}
use otpchat.Key.{Key, decrypt}
use otpchat.KeyStore.{KeyRef, get_key, set_key}
use otpchat.Node.{Received}
use otpchat.State.{ChatState, World}
use otpchat.Transfer.Empty.{recv_full}
use otpchat.Transfer.Frame.{frame, length-frame, take-frame, drop-frame, get-set_key}
use otpchat.Transfer.Pieces.{Receives, header_full, text_branch, recv_header, recv_text}
use otpchat.Transfer.Stream.{recv_all, AllNonEmpty, filling, on_full, go_on}
use otpchat.Transfer.{header, handle_text, chat_handle_recv}
use otpchat.User.{User}

decrypt_short :
    {d : Disk} {k : Key} {rest : Bytes} (cs : Bytes)
    → Pad d k rest
    → length rest < length cs
    → decrypt d k (block_of cs) ≡ some (1, advance k (length rest), block_of cs)
unfolding decrypt
decrypt_short cs p h = encrypt_short cs p h

text_short :
    (w : World) (state : ChatState) (xs cs front : Bytes) (ref : KeyRef) (k k' : Key)
    → state.remote.key ≡ some ref
    → get_key state.keys ref ≡ some k
    → drop 12 xs ≡ cs
    → take 12 xs ≡ front
    → state.receiving ≡ block_of xs
    → length xs ≡ 12 + length cs
    → decrypt w.disk k (block_of cs) ≡ some (1, k', block_of cs)
    → handle_text w state xs ≡ (
        chat_push_status w
          (record state {
            keys = set_key state.keys ref k';
            receiving = record { bytes = some (front ++ cs); size = length xs };
          })
          (text "Out of remote key data!")
        >>= λ state'. some (1, state'))
unfolding handle_text
text_short w state xs cs front ref k k' key_is held cs_is front_is block_is size deciphers =
    let rest : length xs - 12 ≡ length cs = omega (arith, size) in
    simp (key_is, held, cs_is, front_is, block_is, rest, deciphers)

-- With the peer's key on its connection (`Receives`), no message under way, and too little key for
-- the message that arrives, in whatever pieces: `chat_handle_recv` reports it in the history, shows
-- no message, and leaves the buffer as it is. The first call over a later connection, whatever has
-- arrived there, closes that connection and shows nothing.
pub chat_handle_recv-out_of_key :
    (w : World) (st : ChatState) (key_data : Bytes) (head : ℕ) (cs : Bytes)
    → Receives w st key_data head cs
    → length key_data < head + length cs
    → st.receiving ≡ null_block
    → (p q : Bytes) (ps qs : List Bytes) → 0 < length p
    → AllNonEmpty ps
    → concat (p ∷ ps) ≡ header (length cs) head
    → 0 < length q
    → AllNonEmpty qs
    → concat (q ∷ qs) ≡ cs
    → (w' : World) (received : Received) (remote : User) (fd : ℕ) → remote.node.socket ≡ some fd
    → (st' st'' : ChatState) × (recv_all w st ((p ∷ ps) ++ (q ∷ qs)) ≡ some (1, st'))
      × (st'.history ≡ st.history ++ status_message w (text "Out of remote key data!") ∷ [])
      × (chat_handle_recv received w' (record st' { remote = remote }) ≡ some (1, st''))
      × (st''.remote.node.socket ≡ none)
      × (st''.history ≡ st'.history)
chat_handle_recv-out_of_key w st key_data head cs r short idle p q ps qs hp all_p is_header hq all_q
      is_cs w' received remote fd connected =
    let ref = r.has_key.ref in
    let some_text : 0 < length cs = omega (arith, ap length is_cs, length-append q (concat qs)) in
    let (k, header_is, k_at, at_head) = header_full w st key_data head cs r in
    let moved : ChatState = record st { keys = set_key st.keys ref k } in
    let whole = frame head cs in
    let pad = drop k.head key_data in
    let k' = advance k (length pad) in
    let full : ChatState = filling moved whole (length whole) in
    let stopped : ChatState = record full { keys = set_key moved.keys ref k' } in
    let (st', pushes, pushed) =
      chat_push_status_lem w stopped (text "Out of remote key data!")
        (record { screen = r.draws.screen; box = r.draws.box }) in
    let handles : handle_text w full whole
        ≡ (chat_push_status w stopped (text "Out of remote key data!") >>= λ s. some (1, s)) =
      text_short w full whole cs (header (length cs) head) ref k k' r.has_key.key_is
        (get-set_key st.keys ref k r.has_key.held) (drop-frame head cs) (take-frame head cs) refl
        (length-frame head cs)
        (decrypt_short cs (KeyAt-Pad k_at) (omega (arith, at_head, length-drop k.head key_data))) in
    let full_is : on_full w moved whole ≡ some (1, st') =
      text_branch w moved whole (length cs) some_text (length-frame head cs)
      ∙ handles
      ∙ ap (λ o. o >>= λ (s : ChatState). some (1, s)) pushes in
    let later : ChatState = record st' { remote = remote } in
    let kept : later ≡ filling later whole (length whole) =
      ap₂ (λ (b : Block) (n : ℕ). record later { receiving = b; received_size = n })
        (ap (λ (s : ChatState). s.receiving) pushed.is_state)
        (ap (λ (s : ChatState). s.received_size) pushed.is_state) in
    let (st'', ends, closed, unshown) =
      recv_full received w' later whole (length whole) fd connected
        (omega (arith, length-frame head cs)) refl in
    (
      st',
      st'',
      recv_header w st key_data head cs r p ps (q ∷ qs) idle hp all_p is_header
          ∙ ap (λ o. o >>= go_on w (q ∷ qs)) header_is
          ∙ recv_text w st key_data head cs r k q qs hq all_q is_cs
          ∙ ap (λ o. o >>= go_on w []) full_is,
      ap (λ (s : ChatState). s.history) pushed.is_state,
      ap (chat_handle_recv received w') kept ∙ ends,
      closed,
      unshown,
    )
