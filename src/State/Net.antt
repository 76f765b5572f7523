-- ===== src/State/Net.antt =====
-- What a change of the peer's node, or of a key of the store, leaves of the invariant.
use otpchat.Base.{ℕ, ◌≡◌, ◌≢◌, sym, ◌∙◌, ◌⊎◌, inl, inr, Option, none, some}
use otpchat.Key.{Key}
use otpchat.KeyStore.{KeyStore, KeyRef, set_key}
use otpchat.Node.Keeps.{Keeps}
use otpchat.Node.{Node, freed, unset_node}
use otpchat.Key.Total.{IsOpen}
use otpchat.State.Inv.{NetInv, NullOrHeld, set_key-StoreInv, set_key-NullOrHeld}
use otpchat.User.{User, connected, not_connected}

pub kept_socket :
    (P : Option ℕ → Type 0) (s s' : Option ℕ) → (s' ≡ none) ⊎ (s' ≡ s) → P none → P s → P s'
kept_socket P s s' (inl gone) h k = rw gone h
kept_socket P s s' (inr same) h k = rw same k

pub kept_node :
    (keys : KeyStore) (local remote : User) (n : Node)
    → Keeps remote.node n
    → NetInv keys local remote
    → NetInv keys local (record remote { node = n })
kept_node keys local remote n k h = record {
  store = h.store;
  local_is = h.local_is;
  local_node = h.local_node;
  remote_node = λ e. h.remote_node (sym k.info_is ∙ e);
  not_stdin =
      kept_socket (λ s. s ≢ some 0) remote.node.socket n.socket k.socket_is (λ e. cc) h.not_stdin;
  apart = λ fd e.
      kept_socket (λ s. s ≢ some fd) remote.node.socket n.socket k.socket_is (λ e'. cc)
        (h.apart fd e);
  held = h.held;
  has_key = h.has_key;
}

pub key_moved :
    (keys : KeyStore) (local remote : User) (ref : KeyRef) (k : Key)
    → IsOpen k
    → NetInv keys local remote
    → NetInv (set_key keys ref k) local remote
key_moved keys local remote ref k o h = record {
  store = set_key-StoreInv keys ref k h.store o;
  local_is = h.local_is;
  local_node = h.local_node;
  remote_node = h.remote_node;
  not_stdin = h.not_stdin;
  apart = h.apart;
  held = set_key-NullOrHeld keys ref k remote.key h.held;
  has_key = h.has_key;
}

-- A peer on the same node, with a key of the store.
pub renewed :
    (keys : KeyStore) (local remote u : User)
    → Keeps remote.node u.node
    → NullOrHeld keys u.key
    → (u.state ≡ connected → u.key ≢ none)
    → NetInv keys local remote
    → NetInv keys local u
renewed keys local remote u k held has_key h =
    let n = kept_node keys local remote u.node k h in
    record {
      store = h.store;
      local_is = h.local_is;
      local_node = h.local_node;
      remote_node = n.remote_node;
      not_stdin = n.not_stdin;
      apart = n.apart;
      held = held;
      has_key = has_key;
    }

-- A peer that is left alone: on a new node, and not connected.
pub replaced :
    (keys : KeyStore) (local remote u : User)
    → u.node.info ≢ freed
    → u.node.socket ≢ some 0
    → ((fd : ℕ) → local.node.socket ≡ some fd → u.node.socket ≢ some fd)
    → NullOrHeld keys u.key
    → (u.state ≡ connected → u.key ≢ none)
    → NetInv keys local remote
    → NetInv keys local u
replaced keys local remote u live not_stdin apart held has_key h = record {
  store = h.store;
  local_is = h.local_is;
  local_node = h.local_node;
  remote_node = live;
  not_stdin = not_stdin;
  apart = apart;
  held = held;
  has_key = has_key;
}

abbrev pub disconnected : User → User
disconnected u = record u { node = unset_node; state = not_connected }

pub disconnected-Net :
    (keys : KeyStore) (local remote u : User)
    → NullOrHeld keys u.key
    → NetInv keys local remote
    → NetInv keys local (disconnected u)
disconnected-Net keys local remote u held h =
    replaced keys local remote (disconnected u) (λ e. cc) (λ e. cc) (λ fd e e'. cc) held (λ e. cc) h
