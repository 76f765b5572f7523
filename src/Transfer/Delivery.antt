-- ===== src/Transfer/Delivery.antt =====
-- A message arrives: `chat_handle_recv` over any pieces that the frame of a message comes in.
use otpchat.Base.{
  ℕ, ◌+◌, ◌≤◌, ◌<◌, ◌≡◌, refl, sym, ap, ap₂, ◌∙◌, some, List, [], ◌∷◌, ◌++◌, Bytes, ◌>>=◌, arith,
  length, drop, length-append, length-drop, append_assoc,
}
use otpchat.Block.{null_block, block_of}
use otpchat.Chat.Push.{Pushed}
use otpchat.Key.Pad.{KeyAt, KeyAt-advance, advance, concat}
use otpchat.Key.Xor.{xor_with, length-xor_with, xor_with_twice}
use otpchat.Key.{Key}
use otpchat.KeyStore.{get_key, set_key}
use otpchat.State.{ChatState, World}
use otpchat.Transfer.Frame.{frame, length-frame, get-set_key}
use otpchat.Transfer.Pieces.{Receives, header_full, text_branch, recv_header, recv_text}
use otpchat.Transfer.Receive.{handle_text_lem, shown}
use otpchat.Transfer.Send.{HasLocalKey, chat_begin_send_lem}
use otpchat.Transfer.Stream.{recv_all, AllNonEmpty, filling, on_full, go_on}
use otpchat.Transfer.{header, chat_begin_send}

module _ (w : World) (st : ChatState) (key_data : Bytes) (head : ℕ) (cs : Bytes)
    (r : Receives w st key_data head cs) (enough : head + length cs ≤ length key_data) where
  -- With the text there, it is shown.
  pub text_full :
      (k : Key)
      → KeyAt w.disk k key_data
      → k.head ≡ head
      → 0 < length cs
      → (st' : ChatState) × (on_full w
            (record st { keys = set_key st.keys r.has_key.ref k })
            (frame head cs)
          ≡ some (0, record st' { receiving = null_block }))
        × Pushed
            (record st {
              keys =
                  set_key (set_key st.keys r.has_key.ref k) r.has_key.ref (advance k (length cs));
              receiving = block_of (header (length cs) head ++ xor_with (drop k.head key_data) cs);
              received_size = length (frame head cs);
            })
            (shown w key_data head cs r.head_fits r.size_fits k)
            st'
  text_full k k_at at_head h =
      let moved : ChatState = record st { keys = set_key st.keys r.has_key.ref k } in
      let (st', handles, pushed) =
        handle_text_lem w key_data head cs r.head_fits r.size_fits
          (filling moved (frame head cs) (length (frame head cs))) k
          (record {
            ref = r.has_key.ref;
            key_is = r.has_key.key_is;
            held = get-set_key st.keys r.has_key.ref k r.has_key.held;
            data_at = k_at;
          })
          (record { screen = r.draws.screen; box = r.draws.box }) (length-frame head cs)
          (omega arith) in
      (
        st',
        text_branch w moved (frame head cs) (length cs) h (length-frame head cs) ∙ handles,
        pushed,
      )

  -- With the peer's key on its connection (`Receives`), bytes of it to the end of the message, and
  -- no other message under way: whatever
  -- pieces that are not empty the header and then the text come in, `chat_handle_recv` over them
  -- succeeds, shows the text decrypted from the header's head on, frees the buffer, and leaves the
  -- key behind the bytes used.
  pub receive_all_lem :
      (p q : Bytes) (ps qs : List Bytes)
      → st.receiving ≡ null_block
      → 0 < length p
      → AllNonEmpty ps
      → concat (p ∷ ps) ≡ header (length cs) head
      → 0 < length q
      → AllNonEmpty qs
      → concat (q ∷ qs) ≡ cs
      → (st' : ChatState) × (k : Key) × (recv_all w st ((p ∷ ps) ++ (q ∷ qs)) ≡ some (0, st'))
        × (st'.history
            ≡ st.history
              ++ record {
                id = 2;
                timestamp = w.now;
                text = block_of (xor_with (drop head key_data) cs);
              }
                ∷ [])
        × (st'.receiving ≡ null_block)
        × (get_key st'.keys r.has_key.ref ≡ some k)
        × KeyAt w.disk k key_data
        × (k.head ≡ head + length cs)
  receive_all_lem p q ps qs idle hp all_p is_header hq all_q is_cs =
      let ref = r.has_key.ref in
      let (k, header_is, k_at, at_head) = header_full w st key_data head cs r in
      let some_text : 0 < length cs = omega (arith, ap length is_cs, length-append q (concat qs)) in
      let (st', text_is, pushed) = text_full k k_at at_head some_text in
      let key_end = KeyAt-advance (length cs) k_at (omega arith) in
      (
        record st' { receiving = null_block },
        advance k (length cs),
        recv_header w st key_data head cs r p ps (q ∷ qs) idle hp all_p is_header
            ∙ ap (λ o. o >>= go_on w (q ∷ qs)) header_is
            ∙ recv_text w st key_data head cs r k q qs hq all_q is_cs
            ∙ ap (λ o. o >>= go_on w []) text_is,
        ap (λ (s : ChatState). s.history) pushed.is_state
            ∙ ap
                (λ (t : ℕ).
                  st.history
                  ++ record {
                    id = 2;
                    timestamp = w.now;
                    text = block_of (xor_with (drop t key_data) cs);
                  }
                    ∷ [])
                at_head,
        refl,
        ap (λ (s : ChatState). get_key s.keys ref) pushed.is_state
            ∙ get-set_key (set_key st.keys ref k) ref (advance k (length cs))
                (get-set_key st.keys ref k r.has_key.held),
        key_end.0,
        key_end.1 ∙ ap (λ (t : ℕ). t + length cs) at_head,
      )

concat-append : (ps qs : List Bytes) → concat (ps ++ qs) ≡ concat ps ++ concat qs
concat-append [] qs = refl
concat-append (p ∷ ps) qs =
    ap (◌++◌ p) (concat-append ps qs) ∙ sym (append_assoc p (concat ps) (concat qs))

-- From peer to peer: what `chat_begin_send` makes of a message is cut into pieces, header and text,
-- in any way, and `chat_handle_recv` over the pieces shows the message in the peer's history. It
-- is so for a text that is not empty, where both have the same key bytes, enough of them, the
-- peer's key stands anywhere and the peer has no other message under way.
pub receive_all-chat_begin_send :
    (w₁ w₂ : World) (st₁ st₂ : ChatState) (key_data ms : Bytes) (k : Key)
    → HasLocalKey w₁ st₁ k (drop k.head key_data)
    → Receives w₂ st₂ key_data k.head (xor_with (drop k.head key_data) ms)
    → k.head + length ms ≤ length key_data
    → st₂.receiving ≡ null_block
    → (p q : Bytes) (ps qs : List Bytes) → 0 < length p
    → AllNonEmpty ps
    → concat (p ∷ ps) ≡ header (length ms) k.head
    → 0 < length q
    → AllNonEmpty qs
    → concat (q ∷ qs) ≡ xor_with (drop k.head key_data) ms
    → (st₁' st₂' : ChatState) × (chat_begin_send w₁ st₁ (block_of ms) ≡ some (0, st₁'))
      × (st₁'.sending ≡ block_of (concat ((p ∷ ps) ++ (q ∷ qs))))
      × (recv_all w₂ st₂ ((p ∷ ps) ++ (q ∷ qs)) ≡ some (0, st₂'))
      × (st₂'.history
          ≡ st₂.history ++ record { id = 2; timestamp = w₂.now; text = block_of ms } ∷ [])
      × (st₂'.receiving ≡ null_block)
receive_all-chat_begin_send w₁ w₂ st₁ st₂ key_data ms k h r enough idle p q ps qs hp all_p is_header
      hq all_q is_cs =
    let pad = drop k.head key_data in
    let cs = xor_with pad ms in
    let same : length cs ≡ length ms = length-xor_with pad ms in
    let header_is : concat (p ∷ ps) ≡ header (length cs) k.head =
      is_header ∙ ap (λ (n : ℕ). header n k.head) (sym same) in
    let got =
      receive_all_lem w₂ st₂ key_data k.head cs r (omega (arith, same)) p q ps qs idle hp all_p
        header_is hq all_q is_cs in
    (
      record st₁ {
        keys = set_key st₁.keys h.ref (advance k (length ms));
        sending = block_of (frame k.head cs);
        sent_size = 0;
      },
      got.0,
      chat_begin_send_lem w₁ st₁ ms pad k h (let e = r.size_fits in omega (arith, same))
          (omega (arith, same, length-drop k.head key_data)),
      ap block_of (sym (concat-append (p ∷ ps) (q ∷ qs) ∙ ap₂ ◌++◌ header_is is_cs)),
      got.2,
      got.3
          ∙ ap
              (λ (t : Bytes).
                st₂.history ++ record { id = 2; timestamp = w₂.now; text = block_of t } ∷ [])
              (xor_with_twice pad ms),
      got.4,
    )
