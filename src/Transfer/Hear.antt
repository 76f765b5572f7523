-- ===== src/Transfer/Hear.antt =====
-- `chat_handle_recv` over the bytes of one message after another, as the connection gives them.
use otpchat.Base.{
  ℕ, ◌+◌, ◌*◌, ◌^◌, ◌≤◌, ◌<◌, ◌≡◌, refl, sym, ap, ◌∙◌, some, List, [], ◌∷◌, ◌++◌, Bytes, ◌>>=◌,
  arith, length, drop, length-append, append_assoc, append-nil, replicate, map, take-append,
}
use otpchat.Block.{null_block, block_of}
use otpchat.Chat.Push.{CanDraw}
use otpchat.Key.Pad.{KeyAt-advance, advance, concat}
use otpchat.Key.Xor.{xor_with, length-xor_with, xor_with_twice}
use otpchat.Key.{Key}
use otpchat.KeyStore.{get_key, set_key}
use otpchat.Message.{Message}
use otpchat.State.{ChatState, World}
use otpchat.Transfer.Delivery.{text_full}
use otpchat.Transfer.Pieces.{Receives, header_full}
use otpchat.Transfer.Frame.{length-header, frame, length-frame, take-frame, drop-frame, get-set_key}
use otpchat.Transfer.Receive.{HasRemoteKey, length-added}
use otpchat.Transfer.Stream.{filling, on_full}
use otpchat.Transfer.Wire.{recv_wire, go_on_wire, wire-idle, wire-fill}
use otpchat.Transfer.{header, added}

-- A connection between two messages, with the peer's key bytes and a screen.
pub record Hears (w : World) (st : ChatState) (key_data : Bytes) : Type 0 where
  pub fd : ℕ
  pub connected : st.remote.node.socket ≡ some fd
  pub key : Key
  pub has_key : HasRemoteKey w st key_data key
  pub draws : CanDraw w st
  pub idle : st.receiving ≡ null_block

abbrev pub message_from : World → Bytes → Message
message_from w m = record { id = 2; timestamp = w.now; text = block_of m }

-- What was heard in a run: the message, and the counts that are left.
pub record Heard (w : World) (st : ChatState) (key_data m : Bytes) (counts : List ℕ)
    (wire rest : Bytes) : Type 0 where
  pub state : ChatState
  pub counts' : List ℕ
  pub goes : recv_wire w st counts wire ≡ recv_wire w state counts' rest
  pub hears : Hears w state key_data
  pub history : state.history ≡ st.history ++ message_from w m ∷ []
  pub used : length counts ≤ 12 + length m + length counts'

module _ (w : World) (st : ChatState) (key_data : Bytes) (head : ℕ) (cs : Bytes)
    (c : Receives w st key_data head cs) (idle : st.receiving ≡ null_block)
    (some_text : 0 < length cs) where
  -- The calls that take the header.
  hear_header :
      (counts : List ℕ) (rest : Bytes)
      → 12 ≤ length counts
      → (counts' : List ℕ) × (recv_wire w st counts (header (length cs) head ++ rest)
          ≡ (on_full w st (header (length cs) head) >>= go_on_wire w counts' rest))
        × (length counts ≤ 12 + length counts')
  hear_header counts rest enough =
      let hd = header (length cs) head in
      let hd_size = length-header (length cs) head in
      let (counts', goes, used) =
        wire-fill w st (replicate 12 0) hd counts rest 0 c.fd c.connected (omega arith) hd_size refl
          (omega arith) in
      (
        counts',
        wire-idle w st counts (hd ++ rest) idle (omega arith)
              (omega (arith, hd_size, length-append hd rest))
            ∙ goes,
        omega (arith, used),
      )

  -- The calls that take the text.
  hear_text :
      (k : Key) (counts : List ℕ) (rest : Bytes)
      → length cs ≤ length counts
      → (counts' : List ℕ) × (recv_wire w
            (filling
              (record st { keys = set_key st.keys c.has_key.ref k })
              (header (length cs) head ++ added w.fresh (length cs))
              12)
            counts
            (cs ++ rest)
          ≡ (on_full w (record st { keys = set_key st.keys c.has_key.ref k }) (frame head cs)
              >>= go_on_wire w counts' rest))
        × (length counts ≤ length cs + length counts')
  hear_text k counts rest enough =
      let moved : ChatState = record st { keys = set_key st.keys c.has_key.ref k } in
      let hd = header (length cs) head in
      let xs = hd ++ added w.fresh (length cs) in
      let xs_size : length xs ≡ 12 + length cs = omega (
        arith,
        length-append hd (added w.fresh (length cs)),
        length-added w.fresh (length cs),
        length-header (length cs) head,
      ) in
      let (counts', goes, used) =
        wire-fill w moved xs (frame head cs) counts rest 12 c.fd c.connected
          (omega (arith, xs_size)) (length-frame head cs ∙ sym xs_size)
          (take-append 12 hd (added w.fresh (length cs)) (sym (length-header (length cs) head))
            ∙ sym (take-frame head cs))
          (omega (arith, xs_size)) in
      (
        counts',
        ap (λ (r : Bytes). recv_wire w (filling moved xs 12) counts (r ++ rest))
              (sym (drop-frame head cs))
            ∙ goes,
        omega (arith, used, xs_size),
      )

-- A message whose key bytes are there is heard as it was, and the connection is ready for the next.
pub hear_message :
    (w : World) (st : ChatState) (key_data : Bytes) (head : ℕ) (m : Bytes) (counts : List ℕ)
    (rest : Bytes)
    → Hears w st key_data
    → 0 < length m
    → length m < 2 ^ 32
    → head + length m ≤ length key_data
    → 12 + length m ≤ length counts
    → Heard w st key_data m counts (frame head (xor_with (drop head key_data) m) ++ rest) rest
hear_message w st key_data head m counts rest r some_text short fits enough =
    let pad = drop head key_data in
    let cs = xor_with pad m in
    let same : length cs ≡ length m = length-xor_with pad m in
    let ref = r.has_key.ref in
    let c : Receives w st key_data head cs = record {
      fd = r.fd;
      connected = r.connected;
      key = r.key;
      has_key = r.has_key;
      head_fits = let f = r.has_key.data_at.data_fits in omega arith;
      size_fits = omega (arith, same);
      draws = r.draws;
    } in
    let (k, header_is, k_at, at_head) = header_full w st key_data head cs c in
    let (st', text_is, pushed) =
      text_full w st key_data head cs c (omega (arith, same)) k k_at at_head
        (omega (arith, same)) in
    let (counts₁, goes₁, used₁) =
      hear_header w st key_data head cs c r.idle (omega (arith, same)) counts (cs ++ rest)
        (omega arith) in
    let (counts₂, goes₂, used₂) =
      hear_text w st key_data head cs c r.idle (omega (arith, same)) k counts₁ rest
        (omega (arith, used₁, same)) in
    record {
      state = record st' { receiving = null_block };
      counts' = counts₂;
      goes =
          ap (recv_wire w st counts) (append_assoc (header (length cs) head) cs rest)
          ∙ goes₁
          ∙ ap (λ o. o >>= go_on_wire w counts₁ (cs ++ rest)) header_is
          ∙ goes₂
          ∙ ap (λ o. o >>= go_on_wire w counts₂ rest) text_is;
      hears = record {
        fd = r.fd;
        connected = ap (λ (s : ChatState). s.remote.node.socket) pushed.is_state ∙ r.connected;
        key = advance k (length cs);
        has_key = record {
          ref = ref;
          key_is = ap (λ (s : ChatState). s.remote.key) pushed.is_state ∙ r.has_key.key_is;
          held =
              ap (λ (s : ChatState). get_key s.keys ref) pushed.is_state
              ∙ get-set_key (set_key st.keys ref k) ref (advance k (length cs))
                  (get-set_key st.keys ref k r.has_key.held);
          data_at = (KeyAt-advance (length cs) k_at (omega (arith, at_head, same))).0;
        };
        draws = record {
          screen = r.draws.screen;
          box =
              let e : st'.history_width ≡ pushed.width =
                ap (λ (s : ChatState). s.history_width) pushed.is_state in
              let positive = pushed.box in omega arith;
        };
        idle = refl;
      };
      history =
          ap (λ (s : ChatState). s.history) pushed.is_state
          ∙ ap (λ (t : Bytes). st.history ++ message_from w t ∷ [])
              (ap (λ (n : ℕ). xor_with (drop n key_data) cs) at_head ∙ xor_with_twice pad m);
      used = omega (arith, used₁, used₂, same);
    }

-- Messages on the wire, one after another through one key.
abbrev pub frames : Bytes → ℕ → List Bytes → Bytes
frames key_data head [] = []
frames key_data head (m ∷ ms) =
    frame head (xor_with (drop head key_data) m) ++ frames key_data (head + length m) ms

-- Messages that can be sent at all: not empty, and with a size of 32 bits.
abbrev pub AllSendable : List Bytes → Type 0
AllSendable [] = Unit
AllSendable (m ∷ ms) = (0 < length m) × (length m < 2 ^ 32) × AllSendable ms

-- As many calls as there are bytes, and all messages are heard.
pub hear_all :
    (w : World) (st : ChatState) (key_data : Bytes) (head : ℕ) (ms : List Bytes) (counts : List ℕ)
    → Hears w st key_data
    → AllSendable ms
    → head + length (concat ms) ≤ length key_data
    → 12 * length ms + length (concat ms) ≤ length counts
    → (st' : ChatState) × (recv_wire w st counts (frames key_data head ms) ≡ some (0, st', []))
      × Hears w st' key_data
      × (st'.history ≡ st.history ++ map (message_from w) ms)
hear_all w st key_data head [] [] r s fits enough = (st, refl, r, sym (append-nil st.history))
hear_all w st key_data head [] (c ∷ counts) r s fits enough =
    (st, refl, r, sym (append-nil st.history))
hear_all w st key_data head (m ∷ ms) counts r (some_text, short, s) fits enough =
    let sum = length-append m (concat ms) in
    let h =
      hear_message w st key_data head m counts (frames key_data (head + length m) ms) r some_text
        short (omega (arith, sum)) (omega (arith, sum)) in
    let used = h.used in
    let (st', goes, hears, shown) =
      hear_all w h.state key_data (head + length m) ms h.counts' h.hears s (omega (arith, sum))
        (omega (arith, sum, used)) in
    (
      st',
      h.goes ∙ goes,
      hears,
      shown
          ∙ ap (◌++ map (message_from w) ms) h.history
          ∙ append_assoc st.history (message_from w m ∷ []) (map (message_from w) ms),
    )
