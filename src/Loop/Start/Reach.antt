-- ===== src/Loop/Start/Reach.antt =====
-- The states that the loop of a chat comes to, and what holds of them.
use otpchat.Args.{ChatArgs}
use otpchat.Base.{ℕ, ◌≡◌, ◌≢◌, refl, Bool, none, some, List, [], ◌∷◌}
use otpchat.Block.{null_block, free_block}
use otpchat.Command.{Calls}
use otpchat.Disk.{Disk, null, closed}
use otpchat.Input.Safety.{freed_line}
use otpchat.Key.Total.{IsOpen}
use otpchat.Key.{Key}
use otpchat.KeyStore.Close.{AllLive, saved, key_store_close_total}
use otpchat.Loop.Allowed.{Allowed, Fresh}
use otpchat.Loop.Round.{chat_round-Safe}
use otpchat.Loop.Start.Begin.{Begins, chat_init_lem}
use otpchat.Loop.Start.{chat_init, chat_end}
use otpchat.Loop.{Event, chat_round}
use otpchat.Node.{freed, unset_node}
use otpchat.State.Inv.{Inv, AllOpen, Safe-some}
use otpchat.State.Net.{disconnected}
use otpchat.State.{ChatState, World}
use otpchat.Transfer.Buffers.{freed_is_null, freed_send}
use otpchat.User.Safety.{user_disconnect_lem}
use otpchat.User.{User, user_close}

-- The state after `chat_init`, and after any rounds that the system lets happen.
pub data Reachable (w : World) (calls : Calls) (a : ChatArgs) (memory : ChatState) (remote : Key)
    : ChatState → Type 0 where
  begun :
      {st : ChatState}
      → chat_init w calls a memory remote ≡ some (w.disk, 0, st)
      → Reachable w calls a memory remote st
  went :
      {st st' : ChatState} (e : Event) (go : Bool)
      → Allowed e
      → Fresh e st.local.node.socket st.remote.node.socket
      → chat_round a.wait_for_remote e st ≡ some (go, st')
      → Reachable w calls a memory remote st
      → Reachable w calls a memory remote st'

closes :
    (u : User)
    → u.node.info ≢ freed
    → user_close u ≡ some (record (disconnected u) { name = none; key = none })
unfolding user_close
closes u h = rw (user_disconnect_lem u h) refl

open_is_live : (k : Key) → IsOpen k → k.stream ≢ closed
open_is_live k (path, pos, e) c = cc

all_live : (ks : List Key) → AllOpen ks → AllLive ks
all_live [] h = tt
all_live (k ∷ ks) (o, h) = (open_is_live k o, all_live ks h)

-- What `chat_end` leaves of a state.
abbrev pub Ended : ChatState → Type 0
Ended st =
    (st.local.node ≡ unset_node)
    × (st.remote.node ≡ unset_node)
    × (st.keys.local.stream ≡ null)
    × (st.keys.remotes ≡ [])
    × (st.receiving ≡ null_block)
    × (st.sending ≡ null_block)
    × (st.input ≡ null_block)

-- Ending a state for which the invariant holds.
pub chat_end-Inv :
    (st : ChatState) (d : Disk)
    → Inv st
    → (st' : ChatState) × (chat_end d st ≡ some (saved d (st.keys.local ∷ st.keys.remotes), st'))
      × Ended st'
unfolding chat_end
chat_end-Inv st d h =
    let net = h.net in
    let store = net.store in
    let closed_store =
      key_store_close_total d st.keys store.counted (open_is_live st.keys.local store.local_open)
        (all_live st.keys.remotes store.remotes_open) in
    (
      record st {
        local = record (disconnected st.local) { name = none; key = none };
        remote = record (disconnected st.remote) { name = none; key = none };
        keys = record st.keys { local = record st.keys.local { stream = null }; remotes = [] };
        receiving = free_block st.receiving;
        sending = free_block st.sending;
        input = free_block st.input;
        history = [];
      },
      rw (closes st.local net.local_node)
          (rw (closes st.remote net.remote_node) (rw closed_store refl)),
      (
        refl,
        refl,
        refl,
        refl,
        freed_is_null st.receiving st.received_size h.receiving,
        freed_send st.sending st.sent_size h.sending,
        freed_line st.input st.cursor_index h.input,
      ),
    )

module _ (w : World) (calls : Calls) (a : ChatArgs) (memory : ChatState) (remote : Key)
    (begins : Begins w calls a memory remote) where
  -- Both key files are accepted at the start: in every state that the chat comes to where neither in
  -- its start nor in a round a connection is refused at once or lacks a socket, and the rounds are
  -- otherwise as `Allowed` and `Fresh` say, the descriptors are apart, no address is freed, all keys are open, a peer that is connected has its key in the
  -- store, and the three buffers hold what their counters say.
  pub Reachable-Inv : {st : ChatState} → Reachable w calls a memory remote st → Inv st
  Reachable-Inv (begun {st} e) =
      let P = λ (r : Disk × ℕ × ChatState). Inv r.2 in
      let (st₀, begins_at, h) = chat_init_lem w calls a memory remote begins in
      rw e at (Safe-some P (chat_init w calls a memory remote) (w.disk, 0, st₀) begins_at h)
  Reachable-Inv (went {st} {st'} e go allowed fresh goes r) =
      let P = λ (p : Bool × ChatState). Inv p.1 in
      let (go', st'', goes', h) =
        chat_round-Safe a.wait_for_remote e st allowed fresh (Reachable-Inv r) in
      rw goes at (Safe-some P (chat_round a.wait_for_remote e st) (go', st'') goes' h)
