-- ===== src/Exchange.antt =====
-- `node_exchange` of node.c: one round of its loop, and the loop. What the system does in a round
-- is a `Round`. `wire` is what `send` took, and is not in the program.
pub mod Done
pub mod Total
pub mod Served
use otpchat.Base.Int.{ℤ, pos, ◌-ℤ◌, floor_div, to_unsigned}
use otpchat.Base.{
  ℕ, zero, suc, ◌-◌, ◌*◌, Bool, true, false, ◌&&◌, ◌||◌, not, Option, none, some, List, [], ◌∷◌,
  ◌++◌, Bytes, if◌then◌else◌, ltb, length, take, drop, ◌>>=◌,
}
use otpchat.Node.{Node, Sent, node_send, Received, node_recv}

-- `interrupted` is EINTR. `ready` says for which of the two sets the socket is ready.
pub data Selected : Type 0 where
  interrupted select_failed : Selected
  ready : Bool → Bool → Selected

-- `elapsed` is the time between the two calls of `gettimeofday`, in microseconds. `stray` is the
-- bit that FD_ISSET reads for descriptor -1, once `node_recv` has closed the socket; C leaves that
-- undefined, and any bit stands for it here.
pub record Round : Type 0 where
  pub select : Selected
  pub elapsed : ℤ
  pub received : Received
  pub sent : Sent
  pub stray : Bool

-- The variables of the loop. `timeout` is `timeout_tv`, in microseconds.
pub record Exchange : Type 0 where
  pub node : Node
  pub send_data : Bytes
  pub recv_data : Bytes
  pub recv_size : ℕ
  pub timeout : ℤ
  pub wire : Bytes

-- `send_size>0||recv_size>0`
abbrev pub is_pending : Exchange → Bool
is_pending x = ltb 0 (length x.send_data) || ltb 0 x.recv_size

abbrev pub is_open : Node → Bool
is_open n = elim n.socket [ none ↦ false | some _ ↦ true ]

-- `if(FD_ISSET(remote->socket, &readfds))`
receive_if : Bool → Received → Exchange → Exchange
receive_if false received x = x
receive_if true received x =
    let (node', got) = node_recv received x.node x.recv_size in
    record x { node = node'; recv_data = x.recv_data ++ got; recv_size = x.recv_size - length got }

-- `if(FD_ISSET(remote->socket, &writefds))`
send_if : Bool → Sent → Exchange → Exchange
send_if false sent x = x
send_if true sent x =
    let (node', count) = node_send sent x.node x.send_data in
    record x {
      node = node';
      send_data = drop count x.send_data;
      wire = x.wire ++ take count x.send_data;
    }

-- The socket is in a set only if there is something left to do with it.
pub exchange_round : Round → Bool → Bool → Exchange → Exchange
unfolding receive_if send_if
exchange_round r readable writable x =
    let timed = record x { timeout = x.timeout -ℤ r.elapsed } in
    let received = receive_if (ltb 0 x.recv_size && readable) r.received timed in
    let may_write = ltb 0 (length x.send_data) && writable in
    send_if (if is_open received.node then may_write else r.stray) r.sent received

abbrev finish : Exchange → ℕ × Exchange
finish x = (if is_pending x then 1 else 0, x)

-- After `select`: `continue`, `return 1`, or the rest of the round; `again` is the loop.
on_select : Selected → (Exchange → Option (ℕ × Exchange)) → Round → Exchange → Option (ℕ × Exchange)
on_select interrupted again r x = again x
on_select select_failed again r x = some (1, x)
on_select (ready readable writable) again r x = again (exchange_round r readable writable x)

-- The status and the variables at the return; `none` while the loop waits for more rounds.
pub exchange_loop : List Round → Exchange → Option (ℕ × Exchange)
unfolding on_select
exchange_loop [] x = if is_pending x && is_open x.node then none else some (finish x)
exchange_loop (r ∷ rs) x =
    let rest = on_select r.select (λ y. exchange_loop rs y) r x in
    if is_pending x && is_open x.node then rest else some (finish x)

-- `timeout_ms` is NULL or points to a number of milliseconds.
abbrev pub start : Node → Bytes → ℕ → Option ℕ → Exchange
start n send_data recv_size timeout_ms = record {
  node = n;
  send_data = send_data;
  recv_data = [];
  recv_size = recv_size;
  timeout = elim timeout_ms [ none ↦ pos 0 | some ms ↦ pos (ms * 1000) ];
  wire = [];
}

pub record Exchanged : Type 0 where
  pub status : ℕ
  pub node : Node
  pub recv_data : Bytes
  pub timeout_ms : Option ℕ
  pub wire : Bytes

-- The time left is written back only on success, as an `unsigned`.
time_left : Option ℕ → ℕ → ℤ → Option ℕ
time_left none status timeout = none
time_left (some ms) zero timeout = some (to_unsigned 32 (floor_div timeout 1000))
time_left (some ms) (suc _) timeout = some ms

pub exchanged : Option ℕ → Option (ℕ × Exchange) → Option Exchanged
unfolding time_left
exchanged timeout_ms none = none
exchanged timeout_ms (some (status, x)) = some (record {
  status = status;
  node = x.node;
  recv_data = x.recv_data;
  timeout_ms = time_left timeout_ms status x.timeout;
  wire = x.wire;
})

unfoldable pub node_exchange : List Round → Node → Bytes → ℕ → Option ℕ → Option Exchanged
unfolding exchanged exchange_loop exchange_round
node_exchange rounds n send_data recv_size timeout_ms =
    exchanged timeout_ms (exchange_loop rounds (start n send_data recv_size timeout_ms))
