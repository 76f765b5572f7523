-- ===== src/User/Safety.antt =====
-- Connecting, accepting and the handshake of user.c, and what they leave of the peer.
use otpchat.Base.{
  ℕ, zero, suc, ◌≡◌, ◌≢◌, refl, ◌⊎◌, inl, inr, sym, ap, ◌∙◌, Option, none, some, List, [], ◌∷◌,
  ◌++◌, Bytes, ◌>>=◌, if◌then◌else◌, ◌==◌, arith, not, equal_bytes, take, drop, get_elem?,
  Bool-cases,
}
use otpchat.Exchange.Total.{EndsAtSelect, node_exchange_total}
use otpchat.Key.{Key}
use otpchat.KeyStore.Find.{FirstAt, Finds, key_store_find_lem}
use otpchat.KeyStore.{KeyStore, KeyRef, local_key, remote_key}
use otpchat.Node.Keeps.{Keeps, Keeps-trans}
use otpchat.Node.Life.{node_close_lem}
use otpchat.Node.{Node, live, freed, unset_node, SockOpt, node_error, node_accept}
use otpchat.State.Net.{renewed, replaced, disconnected, disconnected-Net, kept_node}
use otpchat.State.Inv.{NullOrHeld, NetInv, Safe, Safe-bind, Safe-if, Safe-elim}
use otpchat.User.Handshake.{verdict_zero}
use otpchat.User.{
  User, Rounds, connected, timeout_ms, protocol_id, user_disconnect, accept_byte, verdict,
  handshake_accept, handshake, user_handshake, finish_handshake, user_finish_connect, user_accept,
}

pub record Ends (rounds : Rounds) : Type 0 where
  pub ids : EndsAtSelect rounds.ids
  pub accepts : EndsAtSelect rounds.accepts

pub user_disconnect_lem :
    (u : User) → u.node.info ≢ freed → user_disconnect u ≡ some (disconnected u)
unfolding user_disconnect
user_disconnect_lem u h = rw (node_close_lem u.node h) refl

first_Held :
    (id : Bytes) (ks : List Key) (i : ℕ) → FirstAt id ks i → (k : Key) × (get_elem? ks i ≡ some k)
first_Held id [] i h = absurd h
first_Held id (k ∷ ks) zero h = (k, refl)
first_Held id (k ∷ ks) (suc i) (ne, h) = first_Held id ks i h

found_Held :
    (keys : KeyStore) (id : Bytes) (key : Option KeyRef)
    → Finds id keys.remotes key
    → NullOrHeld keys key
found_Held keys id none h = tt
found_Held keys id (some local_key) h = absurd h
found_Held keys id (some (remote_key i)) h = first_Held id keys.remotes i h

-- After a handshake of `u`: its node is kept, and its key is one of the store, and set on success.
record Shaken (keys : KeyStore) (u : User) (r : ℕ × User) : Type 0 where
  kept : Keeps u.node r.1.node
  held : NullOrHeld keys r.1.key
  agreed : r.0 ≡ 0 → r.1.key ≢ none

abbrev ShakenAccept : KeyStore → User → ℕ × User × Bytes → Type 0
ShakenAccept keys u r = Shaken keys u (r.0, r.1)

abbrev ShakenSent : KeyStore → User → ℕ × User × Bytes × Bytes → Type 0
ShakenSent keys u r = Shaken keys u (r.0, r.1)

module _ (rounds : Rounds) (ends : Ends rounds) (keys : KeyStore) (local : User) where
  accept-Shaken :
      (u w : User) (time_left : Option ℕ)
      → Keeps u.node w.node
      → NullOrHeld keys w.key
      → Safe (ShakenAccept keys u) (handshake_accept rounds.accepts w time_left)
  unfolding handshake_accept
  accept-Shaken u w time_left k held =
      let (x, exchanges, k') =
        node_exchange_total rounds.accepts w.node (accept_byte w.key) 1 time_left ends.accepts in
      rw exchanges (record {
        kept = Keeps-trans u.node w.node x.node k k';
        held = held;
        agreed = λ e. elim (Bool-cases (x.status == 0)) [
          | inl ok ↦
              verdict_zero w.key x.recv_data
                (sym (ap (λ b. if not b then 4 else verdict w.key x.recv_data) ok) ∙ e)
          | inr bad ↦ absurd (
              let wrong : 4 ≡ 0 =
                sym (ap (λ b. if not b then 4 else verdict w.key x.recv_data) bad) ∙ e in
              omega arith)
        ];
      })

  handshake-Shaken :
      (u : User) (timeout : ℕ)
      → NetInv keys local u
      → Safe (ShakenSent keys u) (handshake rounds u keys timeout)
  unfolding handshake
  handshake-Shaken u timeout h =
      let (x, exchanges, k) =
        node_exchange_total rounds.ids u.node (protocol_id ++ keys.local.id) 24 (some timeout)
          ends.ids in
      let (key, finds, found) = key_store_find_lem keys (drop 8 x.recv_data) h.store.counted in
      rw exchanges (
        Safe-if (ShakenSent keys u) (not (x.status == 0)) _ _
          (λ _. record { kept = k; held = h.held; agreed = λ e. absurd (omega arith) })
          (λ _.
            Safe-if (ShakenSent keys u) (not (equal_bytes (take 8 x.recv_data) protocol_id)) _ _
              (λ _. record { kept = k; held = h.held; agreed = λ e. absurd (omega arith) })
              (λ _. rw finds (
                Safe-bind (ShakenAccept keys u) (ShakenSent keys u) _ _
                  (accept-Shaken u (record u { node = x.node; key = key }) x.timeout_ms k
                    (found_Held keys (drop 8 x.recv_data) key found))
                  (λ a shaken. record {
                    kept = shaken.kept;
                    held = shaken.held;
                    agreed = shaken.agreed;
                  })))))

  user_handshake-Shaken :
      (u : User) (timeout : ℕ)
      → NetInv keys local u
      → Safe (Shaken keys u) (user_handshake rounds u keys timeout)
  unfolding user_handshake
  user_handshake-Shaken u timeout h =
      Safe-bind (ShakenSent keys u) (Shaken keys u) _ _ (handshake-Shaken u timeout h)
        (λ a shaken. record { kept = shaken.kept; held = shaken.held; agreed = shaken.agreed })

  -- The invariant for the peer that is left, whose socket is the same or given up.
  abbrev Left : User → ℕ × User → Type 0
  Left u r = NetInv keys local r.1 × ((r.1.node.socket ≡ none) ⊎ (r.1.node.socket ≡ u.node.socket))

  finish-Left :
      (u u' : User) (status : ℕ)
      → NetInv keys local u
      → Shaken keys u (status, u')
      → Safe (Left u) (finish_handshake (status, u'))
  unfolding finish_handshake
  finish-Left u u' zero h s = (
    renewed keys local u (record u' { state = connected }) s.kept s.held (λ _. s.agreed refl) h,
    s.kept.socket_is,
  )
  finish-Left u u' (suc status) h s =
      let live = (kept_node keys local u u'.node s.kept h).remote_node in
      rw (user_disconnect_lem u' live) (disconnected-Net keys local u u' s.held h, inl refl)

  pub user_finish_connect-Safe :
      (opt : SockOpt) (u : User)
      → NetInv keys local u
      → Safe (Left u) (user_finish_connect opt rounds u keys)
  unfolding user_finish_connect
  user_finish_connect-Safe opt u h =
      Safe-elim (Left u) (node_error opt u.node)
        (user_handshake rounds u keys timeout_ms >>= finish_handshake) (some (1, u))
        (Safe-bind (Shaken keys u) (Left u) _ _ (user_handshake-Shaken u timeout_ms h)
          (λ r s. finish-Left u r.1 r.0 h s))
        (h, inr refl)

  -- A descriptor that is new, or none.
  pub user_accept-Safe :
      (fd : Option ℕ) (opt : SockOpt) (u : User)
      → fd ≢ some 0
      → ((n : ℕ) → local.node.socket ≡ some n → fd ≢ some n)
      → NetInv keys local u
      → Safe
          (λ (r : ℕ × User).
            NetInv keys local r.1 × ((r.1.node.socket ≡ none) ⊎ (r.1.node.socket ≡ fd)))
          (user_accept fd opt rounds u keys)
  unfolding user_accept node_accept
  user_accept-Safe none opt u not_stdin apart h = (
    replaced keys local u (record u { node = unset_node }) (λ e. cc) (λ e. cc) (λ fd e e'. cc)
        h.held h.has_key h,
    inl refl,
  )
  user_accept-Safe (some fd) opt u not_stdin apart h =
      let n : Node = record { info = live; socket = some fd } in
      user_finish_connect-Safe opt (record u { node = n })
        (replaced keys local u (record u { node = n }) (λ e. cc) not_stdin apart h.held h.has_key h)
