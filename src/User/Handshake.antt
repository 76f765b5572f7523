-- ===== src/User/Handshake.antt =====
-- What a handshake of user.c has checked when it returns 0.
use otpchat.Base.{
  ℕ, zero, suc, ◌≡◌, ◌≢◌, refl, sym, ap, ◌∙◌, Option, none, some, [], ◌∷◌, ◌++◌, Bytes, ◌>>=◌,
  if◌then◌else◌, ◌==◌, arith, not, equal_bytes, equal_bytes_iff, take, drop, Bool-cases, inl, inr,
}
use otpchat.Base.Every.{Every, Every-then}
use otpchat.Exchange.{Exchanged, node_exchange}
use otpchat.KeyStore.Find.{IsStore, Finds, FirstAt, key_store_find_lem}
use otpchat.KeyStore.{KeyStore, KeyRef, local_key, remote_key}
use otpchat.User.{
  protocol_id, User, Rounds, accept_byte, verdict, handshake_accept, handshake, user_handshake,
}

-- The other side sent `recv_data`: it speaks the protocol, and the user's key is the first one with
-- the id that it named.
pub record Agreed (keys : KeyStore) (recv_data : Bytes) (u : User) : Type 0 where
  pub index : ℕ
  pub speaks : take 8 recv_data ≡ protocol_id
  pub key_is : u.key ≡ some (remote_key index)
  pub found : FirstAt (drop 8 recv_data) keys.remotes index

pub verdict_zero : (key : Option KeyRef) (xs : Bytes) → verdict key xs ≡ 0 → key ≢ none
unfolding verdict
verdict_zero none [] h = ground arith
verdict_zero none (zero ∷ xs) h = ground arith
verdict_zero none (suc x ∷ xs) h = ground arith
verdict_zero (some r) xs h = ground arith

module _ (rounds : Rounds) (node_user : User) (keys : KeyStore) (timeout : ℕ) where
  -- Status 0 only after an exchange whose data were agreed on.
  abbrev Fine : ℕ × User → Type 0
  Fine (zero, u) =
      (x : Exchanged) × (node_exchange rounds.ids node_user.node (protocol_id ++ keys.local.id) 24
          (some timeout)
        ≡ some x)
      × (x.status ≡ 0)
      × Agreed keys x.recv_data u
  Fine (suc _, u) = Unit

  abbrev FineAccept : ℕ × User × Bytes → Type 0
  FineAccept r = Fine (r.0, r.1)

  abbrev FineSent : ℕ × User × Bytes × Bytes → Type 0
  FineSent r = Fine (r.0, r.1)

  status_Fine : (status : ℕ) (u : User) → (status ≡ 0 → Fine (0, u)) → Fine (status, u)
  status_Fine zero u h = h refl
  status_Fine (suc s) u h = tt

  bind_Fine :
      {A B : Type 0} (P : B → Type 0) (o : Option A) (f : A → Option B)
      → ((a : A) → o ≡ some a → Every P (f a))
      → Every P (o >>= f)
  bind_Fine P none f h = tt
  bind_Fine P (some a) f h = h a refl

  agreed :
      (recv_data : Bytes) (u : User) (key : Option KeyRef)
      → take 8 recv_data ≡ protocol_id
      → Finds (drop 8 recv_data) keys.remotes key
      → u.key ≡ key
      → key ≢ none
      → Agreed keys recv_data u
  agreed recv_data u none speaks found is_key h = absurd (h refl)
  agreed recv_data u (some local_key) speaks found is_key h = absurd found
  agreed recv_data u (some (remote_key i)) speaks found is_key h = record {
    index = i;
    speaks = speaks;
    key_is = is_key;
    found = found;
  }

  accept_Fine :
      (x : Exchanged) (u : User) (key : Option KeyRef) (time_left : Option ℕ)
      → node_exchange rounds.ids node_user.node (protocol_id ++ keys.local.id) 24 (some timeout)
        ≡ some x
      → x.status ≡ 0
      → take 8 x.recv_data ≡ protocol_id
      → Finds (drop 8 x.recv_data) keys.remotes key
      → Every FineAccept (handshake_accept rounds.accepts (record u { key = key }) time_left)
  unfolding handshake_accept
  accept_Fine x u key time_left exchanged done speaks found =
      bind_Fine FineAccept (node_exchange rounds.accepts u.node (accept_byte key) 1 time_left) _
        (λ y e.
          status_Fine _ (record u { node = y.node; key = key })
            (λ zero_status. (
              x,
              exchanged,
              done,
              agreed x.recv_data (record u { node = y.node; key = key }) key speaks found refl
                  (elim (Bool-cases (y.status == 0)) [
                    | inl ok ↦ verdict_zero key y.recv_data (
                        sym (ap (λ b. if not b then 4 else verdict key y.recv_data) ok)
                        ∙ zero_status)
                    | inr bad ↦ absurd (
                        let wrong : 4 ≡ 0 =
                          sym (ap (λ b. if not b then 4 else verdict key y.recv_data) bad)
                          ∙ zero_status in
                        omega arith)
                  ]),
            )))

  handshake_Fine : IsStore keys → Every FineSent (handshake rounds node_user keys timeout)
  unfolding handshake
  handshake_Fine h =
      bind_Fine FineSent
        (node_exchange rounds.ids node_user.node (protocol_id ++ keys.local.id) 24 (some timeout)) _
        (λ x e. elim (Bool-cases (x.status == 0)) [
          | inl ok ↦ elim (Bool-cases (equal_bytes (take 8 x.recv_data) protocol_id)) [
            | inl same ↦
                let (key, finds, found) = key_store_find_lem keys (drop 8 x.recv_data) h in
                rw (ok, same, finds)
                  (Every-then FineAccept FineSent _ _
                    (accept_Fine x (record node_user { node = x.node }) key x.timeout_ms e
                      (ground arith) ((equal_bytes_iff (take 8 x.recv_data) protocol_id).0 same)
                      found)
                    (λ a fine. fine))
            | inr other ↦ rw (ok, other) tt
          ]
          | inr bad ↦ rw bad tt
        ])

user_handshake-Fine :
    (rounds : Rounds) (u : User) (keys : KeyStore) (timeout : ℕ)
    → IsStore keys
    → Every (Fine rounds u keys timeout) (user_handshake rounds u keys timeout)
unfolding user_handshake
user_handshake-Fine rounds u keys timeout h =
    Every-then (FineSent rounds u keys timeout) (Fine rounds u keys timeout) _ _
      (handshake_Fine rounds u keys timeout h) (λ r fine. fine)

-- On a store whose counter fits its array, a handshake that returns 0 has exchanged the ids: the other side named the protocol and a key
-- id, and the user's key is the first of the store with this id.
pub user_handshake_lem :
    (rounds : Rounds) (u u' : User) (keys : KeyStore) (timeout : ℕ)
    → IsStore keys
    → user_handshake rounds u keys timeout ≡ some (0, u')
    → (x : Exchanged) × (node_exchange rounds.ids u.node
          (protocol_id ++ keys.local.id)
          24
          (some timeout)
        ≡ some x)
      × (x.status ≡ 0)
      × Agreed keys x.recv_data u'
user_handshake_lem rounds u u' keys timeout h e =
    rw e at (user_handshake-Fine rounds u keys timeout h)
