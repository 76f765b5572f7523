-- ===== src/Exchange/Done.antt =====
-- What `node_exchange` has done when it returns 0, and when it does.
use otpchat.Base.{
  ℕ, zero, suc, ◌+◌, ◌≡◌, refl, sym, ap, ◌∙◌, Bool, true, false, ◌&&◌, Option, none, some, List, [],
  ◌∷◌, ◌++◌, Bytes, arith, if◌then◌else◌, ltb, length, take, drop, length-append, nil_of_length,
  take-append-drop, append_assoc, append-nil, Bool-cases, inl, inr,
}
use otpchat.Node.{Node, Sent, node_send, Received, node_recv}
use otpchat.Node.Life.{node_recv-le}
use otpchat.Base.Int.{◌-ℤ◌}
use otpchat.Exchange.{
  exchanged, Round, Selected, ready, interrupted, select_failed, Exchange, is_pending, is_open,
  receive_if, send_if, finish, on_select, exchange_round, exchange_loop, start, Exchanged,
  node_exchange,
}

-- What was sent and what is left make up the data, and what was received fills its part of the
-- buffer.
pub record Inv (send_data : Bytes) (recv_size : ℕ) (x : Exchange) : Type 0 where
  pub split : x.wire ++ x.send_data ≡ send_data
  pub counted : length x.recv_data + x.recv_size ≡ recv_size

module _ (bytes : Bytes) (size : ℕ) where
  receive_if-Inv :
      (now : Bool) (r : Received) (x : Exchange)
      → Inv bytes size x
      → Inv bytes size (receive_if now r x)
  unfolding receive_if
  receive_if-Inv false r x h = h
  receive_if-Inv true r x h = record {
    split = h.split;
    counted =
        let got = (node_recv r x.node x.recv_size).1 in
        omega (arith, h.counted, node_recv-le r x.node x.recv_size, length-append x.recv_data got);
  }

  send_if-Inv :
      (now : Bool) (s : Sent) (x : Exchange) → Inv bytes size x → Inv bytes size (send_if now s x)
  unfolding send_if
  send_if-Inv false s x h = h
  send_if-Inv true s x h = record {
    split =
        let count = (node_send s x.node x.send_data).1 in
        append_assoc x.wire (take count x.send_data) (drop count x.send_data)
        ∙ ap (◌++◌ x.wire) (take-append-drop count x.send_data)
        ∙ h.split;
    counted = h.counted;
  }

  exchange_round-Inv :
      (r : Round) (readable writable : Bool) (x : Exchange)
      → Inv bytes size x
      → Inv bytes size (exchange_round r readable writable x)
  unfolding exchange_round
  exchange_round-Inv r readable writable x h =
      let timed = record x { timeout = x.timeout -ℤ r.elapsed } in
      let may_read = ltb 0 x.recv_size && readable in
      let received = receive_if may_read r.received timed in
      let may_write = ltb 0 (length x.send_data) && writable in
      send_if-Inv (if is_open received.node then may_write else r.stray) r.sent received
        (receive_if-Inv may_read r.received timed (record { split = h.split; counted = h.counted }))

  -- What holds of the loop's result: everything is done if the status is 0.
  abbrev Ends : Option (ℕ × Exchange) → Type 0
  Ends none = Unit
  Ends (some (zero, x)) = Inv bytes size x × (is_pending x ≡ false)
  Ends (some (suc _, x)) = Inv bytes size x

  finish-Ends : (x : Exchange) → Inv bytes size x → Ends (some (finish x))
  finish-Ends x h = elim (Bool-cases (is_pending x)) [
    | inl more ↦ rw more h
    | inr all ↦ rw all (h, all)
  ]

  on_select-Ends :
      (s : Selected) (again : Exchange → Option (ℕ × Exchange)) (r : Round) (x : Exchange)
      → ((y : Exchange) → Inv bytes size y → Ends (again y))
      → Inv bytes size x
      → Ends (on_select s again r x)
  unfolding on_select
  on_select-Ends interrupted again r x later h = later x h
  on_select-Ends select_failed again r x later h = h
  on_select-Ends (ready readable writable) again r x later h =
      later _ (exchange_round-Inv r readable writable x h)

  exchange_loop-Ends :
      (rounds : List Round) (x : Exchange) → Inv bytes size x → Ends (exchange_loop rounds x)
  unfolding exchange_loop
  exchange_loop-Ends [] x h = elim (Bool-cases (is_pending x && is_open x.node)) [
    | inl goes ↦ rw goes tt
    | inr stops ↦ rw stops (finish-Ends x h)
  ]
  exchange_loop-Ends (r ∷ rs) x h = elim (Bool-cases (is_pending x && is_open x.node)) [
    | inl goes ↦ rw goes (on_select-Ends r.select _ r x (λ y hy. exchange_loop-Ends rs y hy) h)
    | inr stops ↦ rw stops (finish-Ends x h)
  ]

exchange_done :
    (send_data : Bytes) (recv_size : ℕ) (timeout_ms : Option ℕ) (r : Option (ℕ × Exchange))
    (x : Exchanged)
    → Ends send_data recv_size r
    → exchanged timeout_ms r ≡ some x
    → x.status ≡ 0
    → (x.wire ≡ send_data) × (length x.recv_data ≡ recv_size)
unfolding exchanged
exchange_done send_data recv_size timeout_ms none x h e z = cc
exchange_done send_data recv_size timeout_ms (some (suc n, y)) x h e z = ground arith
exchange_done send_data recv_size timeout_ms (some (zero, y)) x (h, all) e z =
    let none_left : y.send_data ≡ [] = nil_of_length y.send_data (ground arith) in
    let wired : y.wire ≡ send_data =
      sym (append-nil y.wire) ∙ ap (◌++◌ y.wire) (sym none_left) ∙ h.split in
    let filled : length y.recv_data ≡ recv_size = ground (arith, h.counted) in
    ground (arith, wired, filled)

-- When `node_exchange` returns 0, it has handed exactly the data to `send`, in order, and has
-- filled the whole receive buffer.
pub node_exchange_done :
    (rounds : List Round) (n : Node) (send_data : Bytes) (recv_size : ℕ) (timeout_ms : Option ℕ)
    (x : Exchanged)
    → node_exchange rounds n send_data recv_size timeout_ms ≡ some x
    → x.status ≡ 0
    → (x.wire ≡ send_data) × (length x.recv_data ≡ recv_size)
unfolding node_exchange
node_exchange_done rounds n send_data recv_size timeout_ms x =
    exchange_done send_data recv_size timeout_ms
      (exchange_loop rounds (start n send_data recv_size timeout_ms)) x
      (exchange_loop-Ends send_data recv_size rounds (start n send_data recv_size timeout_ms)
        (record { split = refl; counted = omega arith }))
