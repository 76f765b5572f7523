-- ===== src/Exchange/Total.antt =====
-- When `node_exchange` of node.c comes back, and what it leaves of the node.
use otpchat.Base.{
  ℕ, ◌≡◌, refl, ◌⊎◌, inl, inr, Bool, true, false, ◌&&◌, Option, none, some, List, [], ◌∷◌, Bytes,
  if◌then◌else◌, ltb, length, Bool-cases,
}
use otpchat.Base.Int.{◌-ℤ◌}
use otpchat.Exchange.{
  exchanged, Round, Selected, ready, interrupted, select_failed, Exchange, is_pending, is_open,
  receive_if, send_if, on_select, exchange_round, exchange_loop, start, Exchanged, node_exchange,
}
use otpchat.Node.Keeps.{Keeps, Keeps-refl, Keeps-trans, node_recv-Keeps, node_send-Keeps}
use otpchat.Node.{Node, Sent, Received}

receive_if-Keeps :
    (now : Bool) (r : Received) (x : Exchange) → Keeps x.node (receive_if now r x).node
unfolding receive_if
receive_if-Keeps false r x = Keeps-refl x.node
receive_if-Keeps true r x = node_recv-Keeps r x.node x.recv_size

send_if-Keeps : (now : Bool) (s : Sent) (x : Exchange) → Keeps x.node (send_if now s x).node
unfolding send_if
send_if-Keeps false s x = Keeps-refl x.node
send_if-Keeps true s x = node_send-Keeps s x.node x.send_data

exchange_round-Keeps :
    (r : Round) (readable writable : Bool) (x : Exchange)
    → Keeps x.node (exchange_round r readable writable x).node
unfolding exchange_round
exchange_round-Keeps r readable writable x =
    let timed = record x { timeout = x.timeout -ℤ r.elapsed } in
    let received = receive_if (ltb 0 x.recv_size && readable) r.received timed in
    let may_write = ltb 0 (length x.send_data) && writable in
    let now = if is_open received.node then may_write else r.stray in
    Keeps-trans x.node received.node (send_if now r.sent received).node
      (receive_if-Keeps (ltb 0 x.recv_size && readable) r.received timed)
      (send_if-Keeps now r.sent received)

-- In one of the rounds `select` fails, as it does once the time left is negative.
abbrev pub EndsAtSelect : List Round → Type 0
EndsAtSelect [] = ⊥
EndsAtSelect (r ∷ rs) = (r.select ≡ select_failed) ⊎ EndsAtSelect rs

-- A result, whose node is the one that the loop started with.
abbrev Returns : Node → Option (ℕ × Exchange) → Type 0
Returns n none = ⊥
Returns n (some (status, x)) = Keeps n x.node

on_select-Returns :
    (n : Node) (s : Selected) (again : Exchange → Option (ℕ × Exchange)) (r : Round) (x : Exchange)
    → Keeps n x.node
    → (s ≡ select_failed) ⊎ ((y : Exchange) → Keeps n y.node → Returns n (again y))
    → Returns n (on_select s again r x)
unfolding on_select
on_select-Returns n interrupted again r x h (inl e) = cc
on_select-Returns n interrupted again r x h (inr later) = later x h
on_select-Returns n select_failed again r x h later = h
on_select-Returns n (ready readable writable) again r x h (inl e) = cc
on_select-Returns n (ready readable writable) again r x h (inr later) = later _ (
    Keeps-trans n x.node (exchange_round r readable writable x).node h
      (exchange_round-Keeps r readable writable x))

exchange_loop-Returns :
    (n : Node) (rounds : List Round) (x : Exchange)
    → EndsAtSelect rounds
    → Keeps n x.node
    → Returns n (exchange_loop rounds x)
unfolding exchange_loop
exchange_loop-Returns n [] x ends h = absurd ends
exchange_loop-Returns n (r ∷ rs) x ends h = elim (Bool-cases (is_pending x && is_open x.node)) [
  | inl goes ↦ rw goes (
      on_select-Returns n r.select _ r x h (elim ends [
        | inl now ↦ inl now
        | inr later ↦ inr (λ y k. exchange_loop-Returns n rs y later k)
      ]))
  | inr stops ↦ rw stops h
]

exchanged-Returns :
    (n : Node) (timeout_ms : Option ℕ) (r : Option (ℕ × Exchange))
    → Returns n r
    → (x : Exchanged) × (exchanged timeout_ms r ≡ some x) × Keeps n x.node
unfolding exchanged
exchanged-Returns n timeout_ms none h = absurd h
exchanged-Returns n timeout_ms (some (status, x)) h = (_, refl, h)

-- Whatever else happens in its rounds, `node_exchange` returns by the round in which `select`
-- fails. The node keeps its address, and its socket unless that was given up.
pub node_exchange_total :
    (rounds : List Round) (n : Node) (send_data : Bytes) (recv_size : ℕ) (timeout_ms : Option ℕ)
    → EndsAtSelect rounds
    → (x : Exchanged) × (node_exchange rounds n send_data recv_size timeout_ms ≡ some x)
      × Keeps n x.node
unfolding node_exchange
node_exchange_total rounds n send_data recv_size timeout_ms ends =
    let begin = start n send_data recv_size timeout_ms in
    exchanged-Returns n timeout_ms (exchange_loop rounds begin)
      (exchange_loop-Returns n rounds begin ends (Keeps-refl n))
