-- ===== src/Transfer/Session.antt =====
-- Two peers from the handshake of user.c on: the keys that it chooses carry the messages.
use otpchat.Base.{
  ℕ, zero, suc, ◌+◌, ◌*◌, ◌≤◌, ◌≡◌, refl, ap, ◌∙◌, some, none, Option, List, [], ◌∷◌, ◌++◌, Bytes,
  length, map, get_elem?,
}
use otpchat.Block.{null_block}
use otpchat.Chat.Push.{CanDraw}
use otpchat.Exchange.Served.{Turn}
use otpchat.Key.Pad.{KeyAt, concat}
use otpchat.Key.{Key}
use otpchat.KeyStore.Find.{IsStore, Finds, FirstAt, NoneHas, key_store_find_lem}
use otpchat.KeyStore.{KeyRef, local_key, remote_key, key_store_find}
use otpchat.State.{ChatState, World}
use otpchat.Transfer.Hear.{Hears, AllSendable, message_from}
use otpchat.Transfer.Say.{Speaks, Saying, say_all, AllTaken, all_words, hear_all-say_all}
use otpchat.Transfer.Wire.{recv_wire}
use otpchat.User.Meeting.{meeting, verdict_both, handshake_meets}
use otpchat.User.{protocol_id, accept_byte, handshake}

-- A connected socket, an id of 16 bytes, a store whose counter fits, and rounds for a handshake.
pub record Side (st : ChatState) : Type 0 where
  pub fd : ℕ
  pub connected : st.remote.node.socket ≡ some fd
  pub id_size : length st.keys.local.id ≡ 16
  pub counted : IsStore st.keys
  pub ids : List Turn
  pub enough_ids : 24 ≤ length ids
  pub accepts : List Turn
  pub enough_accepts : 1 ≤ length accepts

-- The speaker's local key, and the hearer's key of the same id, over the same bytes.
pub record Share (w₁ w₂ : World) (st₁ st₂ : ChatState) (key_data : Bytes) : Type 0 where
  pub is_local : st₁.local.key ≡ some local_key
  pub local_at : KeyAt w₁.disk st₁.keys.local key_data
  pub index : ℕ
  pub first : FirstAt st₁.keys.local.id st₂.keys.remotes index
  pub key : Key
  pub held : get_elem? st₂.keys.remotes index ≡ some key
  pub remote_at : KeyAt w₂.disk key key_data

first_same : (id : Bytes) (ks : List Key) (i j : ℕ) → FirstAt id ks i → FirstAt id ks j → i ≡ j
first_same id [] i j h h' = absurd h
first_same id (k ∷ ks) zero zero h h' = refl
first_same id (k ∷ ks) zero (suc j) h (other, h') = absurd (other h)
first_same id (k ∷ ks) (suc i) zero (other, h) h' = absurd (other h')
first_same id (k ∷ ks) (suc i) (suc j) (_, h) (_, h') = ap suc (first_same id ks i j h h')

none_first : (id : Bytes) (ks : List Key) (i : ℕ) → FirstAt id ks i → NoneHas id ks → ⊥
none_first id [] i h n = h
none_first id (k ∷ ks) zero h (other, n) = other h
none_first id (k ∷ ks) (suc i) (_, h) (_, n) = none_first id ks i h n

found_first :
    (id : Bytes) (ks : List Key) (i : ℕ) (r : Option KeyRef)
    → FirstAt id ks i
    → Finds id ks r
    → r ≡ some (remote_key i)
found_first id ks i none h f = absurd (none_first id ks i h f)
found_first id ks i (some local_key) h f = absurd f
found_first id ks i (some (remote_key j)) h f =
    ap (λ (n : ℕ). some (remote_key n)) (first_same id ks j i f h)

finds_first :
    (st : ChatState) (id : Bytes) (i : ℕ)
    → IsStore st.keys
    → FirstAt id st.keys.remotes i
    → key_store_find st.keys id ≡ some (some (remote_key i))
finds_first st id i counted first =
    let (r, finds, found) = key_store_find_lem st.keys id counted in
    finds ∙ ap some (found_first id st.keys.remotes i r first found)

handshake_done :
    (st peer : ChatState) (s : Side st) (i : ℕ) (peer_key : KeyRef) (timeout : ℕ)
    → Side peer
    → FirstAt peer.keys.local.id st.keys.remotes i
    → handshake
        (meeting s.ids s.accepts (protocol_id ++ peer.keys.local.id) (accept_byte (some peer_key)))
        st.remote
        st.keys
        timeout
      ≡ some (
        0,
        record st.remote { key = some (remote_key i) },
        protocol_id ++ st.keys.local.id,
        1 ∷ [],
      )
handshake_done st peer s i peer_key timeout p first =
    handshake_meets s.ids s.accepts st.remote s.fd st.keys peer.keys.local.id (some (remote_key i))
      (some peer_key) timeout s.connected s.id_size p.id_size s.enough_ids s.enough_accepts
      (finds_first st peer.keys.local.id i s.counted first)
    ∙ ap
        (λ (n : ℕ). some (
          n,
          record st.remote { key = some (remote_key i) },
          protocol_id ++ st.keys.local.id,
          1 ∷ [],
        ))
        (verdict_both (remote_key i) peer_key)

-- The state with the key that the handshake chose.
abbrev pub met : ChatState → ℕ → ChatState
met st i = record st { remote = record st.remote { key = some (remote_key i) } }

-- From the handshake to the messages: two connected peers, each with a key that has the other's id,
-- where the hearer's has the same key bytes as the speaker's, and enough rounds for the handshakes.
-- Where each handshake receives what the other gives to its socket, both return 0 and choose these
-- keys. With them, messages that are not empty, for which the key bytes are enough, and each of which
-- has been given to the socket whole before the next is begun, are heard as they were, in their
-- order, whatever a single call of `send` takes and one of `recv` returns.
pub say_all-user_handshake :
    (w₁ w₂ : World) (st₁ st₂ : ChatState) (key_data : Bytes) (s₁ : Side st₁) (s₂ : Side st₂)
    (i timeout₁ timeout₂ : ℕ) (share : Share w₁ w₂ st₁ st₂ key_data) (ss : List Saying)
    (counts : List ℕ)
    → FirstAt st₂.keys.local.id st₁.keys.remotes i
    → CanDraw w₂ st₂
    → st₂.receiving ≡ null_block
    → AllSendable (all_words ss)
    → AllTaken ss
    → st₁.keys.local.head + length (concat (all_words ss)) ≤ length key_data
    → 12 * length (all_words ss) + length (concat (all_words ss)) ≤ length counts
    → (greeting₁ answer₁ greeting₂ answer₂ : Bytes) × (handshake
          (meeting s₁.ids s₁.accepts greeting₂ answer₂)
          st₁.remote
          st₁.keys
          timeout₁
        ≡ some (0, (met st₁ i).remote, greeting₁, answer₁))
      × (handshake (meeting s₂.ids s₂.accepts greeting₁ answer₁) st₂.remote st₂.keys timeout₂
          ≡ some (0, (met st₂ share.index).remote, greeting₂, answer₂))
      × ((wire : Bytes) × (st₁' st₂' : ChatState) × (say_all w₁ (met st₁ i) ss ≡ some (wire, st₁'))
          × (recv_wire w₂ (met st₂ share.index) counts wire ≡ some (0, st₂', []))
          × (st₂'.history ≡ st₂.history ++ map (message_from w₂) (all_words ss)))
say_all-user_handshake w₁ w₂ st₁ st₂ key_data s₁ s₂ i timeout₁ timeout₂ share ss counts first draws
      idle sendable taken fits enough =
    let speaks : Speaks w₁ (met st₁ i) key_data st₁.keys.local = record {
      fd = s₁.fd;
      connected = s₁.connected;
      ref = local_key;
      key_is = share.is_local;
      held = refl;
      data_at = share.local_at;
    } in
    let hears : Hears w₂ (met st₂ share.index) key_data = record {
      fd = s₂.fd;
      connected = s₂.connected;
      key = share.key;
      has_key = record {
        ref = remote_key share.index;
        key_is = refl;
        held = share.held;
        data_at = share.remote_at;
      };
      draws = record { screen = draws.screen; box = draws.box };
      idle = idle;
    } in
    (
      protocol_id ++ st₁.keys.local.id,
      1 ∷ [],
      protocol_id ++ st₂.keys.local.id,
      1 ∷ [],
      handshake_done st₁ st₂ s₁ i (remote_key share.index) timeout₁ s₂ first,
      handshake_done st₂ st₁ s₂ share.index (remote_key i) timeout₂ s₁ share.first,
      hear_all-say_all w₁ w₂ (met st₁ i) (met st₂ share.index) key_data st₁.keys.local ss counts
          speaks hears sendable taken fits enough,
    )
