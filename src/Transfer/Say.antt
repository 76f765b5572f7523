-- ===== src/Transfer/Say.antt =====
-- Message after message through `chat_begin_send` and `chat_handle_send`, each sent to the end
-- before the next.
use otpchat.Base.{
  ℕ, ◌+◌, ◌*◌, ◌≤◌, ◌≡◌, refl, ap, ◌∙◌, Option, some, List, [], ◌∷◌, ◌++◌, Bytes, ◌>>=◌, arith,
  length, drop, map, length-append, length-drop,
}
use otpchat.Block.{block_of, null_block}
use otpchat.Key.Pad.{KeyAt, KeyAt-Pad, KeyAt-advance, advance, concat}
use otpchat.Key.Xor.{xor_with, length-xor_with}
use otpchat.Key.{Key}
use otpchat.KeyStore.{KeyRef, get_key, set_key}
use otpchat.State.{ChatState, World}
use otpchat.Transfer.Frame.{frame, length-frame, get-set_key}
use otpchat.Transfer.Hear.{frames, AllSendable, Hears, hear_all, message_from}
use otpchat.Transfer.Progress.{takes, send_all_left}
use otpchat.Transfer.Send.{HasLocalKey, chat_begin_send_lem, send_all}
use otpchat.Transfer.Wire.{recv_wire}
use otpchat.Transfer.{chat_begin_send}

-- A connection with the local key, over its key bytes.
pub record Speaks (w : World) (st : ChatState) (key_data : Bytes) (k : Key) : Type 0 where
  pub fd : ℕ
  pub connected : st.remote.node.socket ≡ some fd
  pub ref : KeyRef
  pub key_is : st.local.key ≡ some ref
  pub held : get_key st.keys ref ≡ some k
  pub data_at : KeyAt w.disk k key_data

-- What is said, with what the calls of `send` take of it.
pub record Saying : Type 0 where
  pub words : Bytes
  pub counts : List ℕ

-- What the socket was given in all, and the state.
abbrev pub say_all : World → ChatState → List Saying → Option (Bytes × ChatState)
say_all w st [] = some ([], st)
say_all w st (s ∷ ss) = do
  (_, st') ← chat_begin_send w st (block_of s.words)
  let sent = send_all (takes s.counts) st'
  (wire, st'') ← say_all w sent.1 ss
  some (sent.0 ++ wire, st'')

-- Each message has a call of `send` for each of its bytes.
abbrev pub AllTaken : List Saying → Type 0
AllTaken [] = Unit
AllTaken (s ∷ ss) = (12 + length s.words ≤ length s.counts) × AllTaken ss

abbrev pub all_words : List Saying → List Bytes
all_words [] = []
all_words (s ∷ ss) = s.words ∷ all_words ss

pub say_all_lem :
    (w : World) (st : ChatState) (key_data : Bytes) (k : Key) (ss : List Saying)
    → Speaks w st key_data k
    → AllSendable (all_words ss)
    → AllTaken ss
    → k.head + length (concat (all_words ss)) ≤ length key_data
    → (st' : ChatState) × (k' : Key) × (say_all w st ss
        ≡ some (frames key_data k.head (all_words ss), st'))
      × Speaks w st' key_data k'
      × (k'.head ≡ k.head + length (concat (all_words ss)))
say_all_lem w st key_data k [] r s t fits = (st, k, refl, r, omega arith)
say_all_lem w st key_data k (s ∷ ss) r (some_text, short, sendable) (taken, all_taken) fits =
    let pad = drop k.head key_data in
    let cs = xor_with pad s.words in
    let n = length s.words in
    let same : length cs ≡ n = length-xor_with pad s.words in
    let sum = length-append s.words (concat (all_words ss)) in
    let h : HasLocalKey w st k pad = record {
      ref = r.ref;
      key_is = r.key_is;
      held = r.held;
      pad = KeyAt-Pad r.data_at;
    } in
    let ready : ChatState = record st { keys = set_key st.keys r.ref (advance k n) } in
    let begins =
      chat_begin_send_lem w st s.words pad k h short
        (omega (arith, sum, length-drop k.head key_data)) in
    let sends =
      send_all_left s.counts r.fd ready (frame k.head cs) 0 r.connected
        (omega (arith, length-frame k.head cs)) (omega (arith, length-frame k.head cs, same)) in
    let done : ChatState = record ready { sending = null_block; sent_size = 0 } in
    let (key_at, at_head) = KeyAt-advance n r.data_at (omega (arith, sum)) in
    let next : Speaks w done key_data (advance k n) = record {
      fd = r.fd;
      connected = r.connected;
      ref = r.ref;
      key_is = r.key_is;
      held = get-set_key st.keys r.ref (advance k n) r.held;
      data_at = key_at;
    } in
    let (st', k', goes, speaks, head_is) =
      say_all_lem w done key_data (advance k n) ss next sendable all_taken
        (omega (arith, sum, at_head)) in
    (
      st',
      k',
      ap
            (λ (o : Option (ℕ × ChatState)). o >>= λ (a : ℕ × ChatState).
              say_all w (send_all (takes s.counts) a.1).1 ss >>= λ (r : Bytes × ChatState).
              some ((send_all (takes s.counts) a.1).0 ++ r.0, r.1))
            begins
          ∙ ap
              (λ (sent : Bytes × ChatState).
                say_all w sent.1 ss >>= λ (r : Bytes × ChatState). some (sent.0 ++ r.0, r.1))
              sends
          ∙ ap (λ o. o >>= λ (r : Bytes × ChatState). some (frame k.head cs ++ r.0, r.1)) goes
          ∙ ap (λ (at : ℕ). some (frame k.head cs ++ frames key_data at (all_words ss), st'))
              at_head,
      speaks,
      head_is ∙ omega (arith, sum, at_head),
    )

-- From peer to peer, over one connection: messages said one after another are heard as they were, in
-- their order, whatever a single call of `send` takes and one of `recv` returns. It is so for
-- messages that are not empty, where both have the same key bytes and enough of them, each message
-- has been given to the socket whole before the next is begun, and each byte that is sent has a call
-- of `recv`.
pub hear_all-say_all :
    (w₁ w₂ : World) (st₁ st₂ : ChatState) (key_data : Bytes) (k : Key) (ss : List Saying)
    (counts : List ℕ)
    → Speaks w₁ st₁ key_data k
    → Hears w₂ st₂ key_data
    → AllSendable (all_words ss)
    → AllTaken ss
    → k.head + length (concat (all_words ss)) ≤ length key_data
    → 12 * length (all_words ss) + length (concat (all_words ss)) ≤ length counts
    → (wire : Bytes) × (st₁' st₂' : ChatState) × (say_all w₁ st₁ ss ≡ some (wire, st₁'))
      × (recv_wire w₂ st₂ counts wire ≡ some (0, st₂', []))
      × (st₂'.history ≡ st₂.history ++ map (message_from w₂) (all_words ss))
hear_all-say_all w₁ w₂ st₁ st₂ key_data k ss counts speaks hears sendable taken fits enough =
    let (st₁', k', says, _, _) = say_all_lem w₁ st₁ key_data k ss speaks sendable taken fits in
    let (st₂', goes, _, shown) =
      hear_all w₂ st₂ key_data k.head (all_words ss) counts hears sendable fits enough in
    (frames key_data k.head (all_words ss), st₁', st₂', says, goes, shown)
