-- ===== src/User/Meeting.antt =====
-- Two handshakes of user.c with each other: what one gives to its socket comes in at the other.
use otpchat.Base.{
  ℕ, ◌≤◌, ◌≡◌, ◌≢◌, ◌↔◌, refl, ap, ◌>>=◌, Option, none, some, List, ◌++◌, Bytes, arith, equal_bytes,
  length,
}
use otpchat.Exchange.Served.{Turn, serving, node_exchange_served}
use otpchat.KeyStore.Find.{IsStore, Finds, key_store_find_lem}
use otpchat.KeyStore.{KeyStore, KeyRef, key_store_find}
use otpchat.User.{protocol_id, User, Rounds, accept_byte, verdict, handshake_accept, handshake}

-- The rounds of a handshake with a peer that sends these bytes in its two exchanges.
abbrev pub meeting : List Turn → List Turn → Bytes → Bytes → Rounds
meeting ts ts' greeting answer = record { ids = serving ts greeting; accepts = serving ts' answer }

length-accept_byte : (key : Option KeyRef) → length (accept_byte key) ≡ 1
length-accept_byte none = refl
length-accept_byte (some r) = refl

accept_lem :
    (ts : List Turn) (u : User) (fd : ℕ) (peer_key : Option KeyRef) (time_left : Option ℕ)
    → u.node.socket ≡ some fd
    → 1 ≤ length ts
    → handshake_accept (serving ts (accept_byte peer_key)) u time_left
      ≡ some (verdict u.key (accept_byte peer_key), u, accept_byte u.key)
unfolding handshake_accept
accept_lem ts u fd peer_key time_left connected enough =
    let (left, exchanged) = rw (length-accept_byte peer_key) at (
      node_exchange_served ts u.node fd (accept_byte u.key) (accept_byte peer_key) time_left
        connected (omega (arith, length-accept_byte u.key))
        (omega (arith, length-accept_byte peer_key))) in
    rw exchanged refl

pub handshake_meets :
    (ts ts' : List Turn) (u : User) (fd : ℕ) (keys : KeyStore) (peer_id : Bytes)
    (key peer_key : Option KeyRef) (timeout : ℕ)
    → u.node.socket ≡ some fd
    → length keys.local.id ≡ 16
    → length peer_id ≡ 16
    → 24 ≤ length ts
    → 1 ≤ length ts'
    → key_store_find keys peer_id ≡ some key
    → handshake (meeting ts ts' (protocol_id ++ peer_id) (accept_byte peer_key)) u keys timeout
      ≡ some (
        verdict key (accept_byte peer_key),
        record u { key = key },
        protocol_id ++ keys.local.id,
        accept_byte key,
      )
unfolding handshake equal_bytes
handshake_meets ts ts' u fd keys peer_id key peer_key timeout connected own peer enough enough'
      found =
    let ids : length (protocol_id ++ peer_id) ≡ 24 = omega arith in
    let (left, exchanged) = rw ids at (
      node_exchange_served ts u.node fd (protocol_id ++ keys.local.id) (protocol_id ++ peer_id)
        (some timeout) connected (omega arith) (omega arith)) in
    simp (exchanged, found)
      (ap
        (λ (o : Option (ℕ × User × Bytes)).
          o >>= λ (a : ℕ × User × Bytes). some (a.0, a.1, protocol_id ++ keys.local.id, a.2))
        (accept_lem ts' (record u { key = key }) fd peer_key left connected enough'))

pub verdict_both : (key peer_key : KeyRef) → verdict (some key) (accept_byte (some peer_key)) ≡ 0
unfolding verdict
verdict_both key peer_key = refl

verdict_zero_iff :
    (key peer_key : Option KeyRef)
    → (verdict key (accept_byte peer_key) ≡ 0) ↔ ((key ≢ none) × (peer_key ≢ none))
unfolding verdict
verdict_zero_iff none none = ground arith
verdict_zero_iff none (some r) = ground arith
verdict_zero_iff (some r) none = ground arith
verdict_zero_iff (some r) (some r') = ground arith

-- Two connected peers with ids of 16 bytes, stores whose counters fit, and enough rounds: both
-- handshakes return, where each receives what the other gives to its socket, each with the first key
-- of its store that has the other's id, or NULL, and each returns 0 exactly when both found a key.
pub user_handshake_agrees :
    (ts₁ ts₁' ts₂ ts₂' : List Turn) (u₁ u₂ : User) (fd₁ fd₂ : ℕ) (keys₁ keys₂ : KeyStore)
    (timeout₁ timeout₂ : ℕ)
    → u₁.node.socket ≡ some fd₁
    → u₂.node.socket ≡ some fd₂
    → length keys₁.local.id ≡ 16
    → length keys₂.local.id ≡ 16
    → IsStore keys₁
    → IsStore keys₂
    → 24 ≤ length ts₁
    → 1 ≤ length ts₁'
    → 24 ≤ length ts₂
    → 1 ≤ length ts₂'
    → (greeting₁ answer₁ greeting₂ answer₂ : Bytes) × (key₁ key₂ : Option KeyRef) × (s₁ s₂ : ℕ)
      × (handshake (meeting ts₁ ts₁' greeting₂ answer₂) u₁ keys₁ timeout₁
          ≡ some (s₁, record u₁ { key = key₁ }, greeting₁, answer₁))
      × (handshake (meeting ts₂ ts₂' greeting₁ answer₁) u₂ keys₂ timeout₂
          ≡ some (s₂, record u₂ { key = key₂ }, greeting₂, answer₂))
      × Finds keys₂.local.id keys₁.remotes key₁
      × Finds keys₁.local.id keys₂.remotes key₂
      × ((s₁ ≡ 0) ↔ ((key₁ ≢ none) × (key₂ ≢ none)))
      × ((s₂ ≡ 0) ↔ ((key₂ ≢ none) × (key₁ ≢ none)))
user_handshake_agrees ts₁ ts₁' ts₂ ts₂' u₁ u₂ fd₁ fd₂ keys₁ keys₂ timeout₁ timeout₂ c₁ c₂ id₁ id₂
      store₁ store₂ n₁ n₁' n₂ n₂' =
    let (key₁, found₁, is₁) = key_store_find_lem keys₁ keys₂.local.id store₁ in
    let (key₂, found₂, is₂) = key_store_find_lem keys₂ keys₁.local.id store₂ in
    (
      protocol_id ++ keys₁.local.id,
      accept_byte key₁,
      protocol_id ++ keys₂.local.id,
      accept_byte key₂,
      key₁,
      key₂,
      verdict key₁ (accept_byte key₂),
      verdict key₂ (accept_byte key₁),
      handshake_meets ts₁ ts₁' u₁ fd₁ keys₁ keys₂.local.id key₁ key₂ timeout₁ c₁ id₁ id₂ n₁ n₁'
          found₁,
      handshake_meets ts₂ ts₂' u₂ fd₂ keys₂ keys₁.local.id key₂ key₁ timeout₂ c₂ id₂ id₁ n₂ n₂'
          found₂,
      is₁,
      is₂,
      verdict_zero_iff key₁ key₂,
      verdict_zero_iff key₂ key₁,
    )
