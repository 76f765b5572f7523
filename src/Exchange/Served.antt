-- ===== src/Exchange/Served.antt =====
-- `node_exchange` with a peer that takes and gives something in every round.
use otpchat.Base.{
  ℕ, suc, ◌≤◌, ◌≡◌, sym, ap, ap₂, ◌∙◌, true, false, ◌&&◌, ◌||◌, ◌⊎◌, Option, none, some, List, [],
  ◌∷◌, ◌++◌, Bytes, arith, ltb, length, take, drop, length-take, length-drop, append_assoc,
  append-nil, take-append-drop, min, lt→ltb, Bool-cases, inl, inr, take_all, drop_all,
}
use otpchat.Base.Int.{ℤ, ◌-ℤ◌}
use otpchat.Exchange.{
  Round, ready, Exchange, is_open, receive_if, send_if, exchange_round, exchange_loop, start,
  node_exchange, exchanged, on_select, time_left,
}
use otpchat.Node.{Node, accepted, arrived}
use otpchat.Node.Life.{node_recv-arrived, node_send-accepted}

-- A round gives `got` bytes and one more, and takes `took` and one more.
pub record Turn : Type 0 where
  pub got : ℕ
  pub took : ℕ
  pub elapsed : ℤ

-- The rounds in which the peer's bytes `xs` come in.
abbrev pub serving : List Turn → Bytes → List Round
serving [] xs = []
serving (t ∷ ts) xs =
    record {
      select = ready true true;
      elapsed = t.elapsed;
      received = arrived (take (suc t.got) xs);
      sent = accepted (suc t.took);
      stray = false;
    }
    ∷ serving ts (drop (suc t.got) xs)

-- The variables of the loop.
abbrev state : Node → Bytes → Bytes → ℕ → ℤ → Bytes → Exchange
state n send_data recv_data recv_size timeout wire = record {
  node = n;
  send_data = send_data;
  recv_data = recv_data;
  recv_size = recv_size;
  timeout = timeout;
  wire = wire;
}

least :
    (k : ℕ) (xs : Bytes)
    → (min k (length xs) ≡ k) ⊎ ((min k (length xs) ≡ length xs) × (length xs ≤ k))
least k xs = elim (Bool-cases (ltb k (length xs))) [
  | inl e ↦ inl (ground arith)
  | inr e ↦ inr (ground arith)
]

take_least : (k : ℕ) (xs : Bytes) → take (min k (length xs)) xs ≡ take k xs
take_least k xs = elim (least k xs) [
  | inl e ↦ rw e
  | inr (e, all) ↦ rw (e, take_all k xs all, take_all (length xs) xs (omega arith))
]

drop_least : (k : ℕ) (xs : Bytes) → drop (min k (length xs)) xs ≡ drop k xs
drop_least k xs = elim (least k xs) [
  | inl e ↦ rw e
  | inr (e, all) ↦ rw (e, drop_all k xs all, drop_all (length xs) xs (omega arith))
]

module _ (n : Node) (fd : ℕ) (connected : n.socket ≡ some fd) where
  receive_lem :
      (out got xs wire : Bytes) (t : ℤ) (c : ℕ)
      → receive_if
          (ltb 0 (length xs) && true)
          (arrived (take (suc c) xs))
          (state n out got (length xs) t wire)
        ≡ state n out (got ++ take (suc c) xs) (length (drop (suc c) xs)) t wire
  unfolding receive_if
  receive_lem out got [] wire t c =
      ap (λ (g : Bytes). state n out g 0 t wire) (sym (append-nil got))
  receive_lem out got (b ∷ bs) wire t c =
      let some_there = lt→ltb 0 (length (b ∷ bs)) (omega arith) in
      rw
        (
          some_there,
          node_recv-arrived (take (suc c) (b ∷ bs)) n (length (b ∷ bs)) fd connected (omega arith)
              (omega (arith, length-take c bs)),
        )
        (ap (λ (m : ℕ). state n out (got ++ take (suc c) (b ∷ bs)) m t wire)
          (omega (arith, length-take c bs, length-drop c bs)))

  send_lem :
      (out got wire : Bytes) (t : ℤ) (m d : ℕ)
      → send_if (ltb 0 (length out) && true) (accepted (suc d)) (state n out got m t wire)
        ≡ state n (drop (suc d) out) got m t (wire ++ take (suc d) out)
  unfolding send_if
  send_lem [] got wire t m d = ap (state n [] got m t) (sym (append-nil wire))
  send_lem (b ∷ bs) got wire t m d =
      let some_there = lt→ltb 0 (length (b ∷ bs)) (omega arith) in
      rw (
        some_there,
        node_send-accepted (suc d) n (b ∷ bs) fd connected,
        take_least (suc d) (b ∷ bs),
        drop_least (suc d) (b ∷ bs),
      )

  round_lem :
      (turn : Turn) (out got xs wire : Bytes) (t : ℤ)
      → exchange_round
          (record {
            select = ready true true;
            elapsed = turn.elapsed;
            received = arrived (take (suc turn.got) xs);
            sent = accepted (suc turn.took);
            stray = false;
          })
          true
          true
          (state n out got (length xs) t wire)
        ≡ state n
            (drop (suc turn.took) out)
            (got ++ take (suc turn.got) xs)
            (length (drop (suc turn.got) xs))
            (t -ℤ turn.elapsed)
            (wire ++ take (suc turn.took) out)
  unfolding exchange_round
  round_lem turn out got xs wire t =
      let still_open : is_open n ≡ true =
        ap (λ (s : Option ℕ). elim s [ none ↦ false | some _ ↦ true ]) connected in
      rw (receive_lem out got xs wire (t -ℤ turn.elapsed) turn.got, still_open)
        (send_lem out (got ++ take (suc turn.got) xs) wire (t -ℤ turn.elapsed)
          (length (drop (suc turn.got) xs)) turn.took)

  abbrev Result : List Turn → Bytes → Bytes → Bytes → Bytes → ℤ → Type 0
  Result ts out got xs wire t =
      (t' : ℤ) × (exchange_loop (serving ts xs) (state n out got (length xs) t wire)
        ≡ some (0, state n [] (got ++ xs) 0 t' (wire ++ out)))

  loop_done :
      (rounds : List Round) (got wire : Bytes) (t : ℤ)
      → exchange_loop rounds (state n [] got 0 t wire)
        ≡ some (0, state n [] (got ++ []) 0 t (wire ++ []))
  unfolding exchange_loop
  loop_done [] got wire t = rw (append-nil got, append-nil wire)
  loop_done (r ∷ rs) got wire t = rw (append-nil got, append-nil wire)

  loop_turn :
      (turn : Turn) (ts : List Turn) (out got xs wire : Bytes) (t : ℤ)
      → (ltb 0 (length out) || ltb 0 (length xs)) ≡ true
      → Result ts
          (drop (suc turn.took) out)
          (got ++ take (suc turn.got) xs)
          (drop (suc turn.got) xs)
          (wire ++ take (suc turn.took) out)
          (t -ℤ turn.elapsed)
      → Result (turn ∷ ts) out got xs wire t
  unfolding exchange_loop on_select
  loop_turn turn ts out got xs wire t pending (t', goes) =
      let still_open : is_open n ≡ true =
        ap (λ (s : Option ℕ). elim s [ none ↦ false | some _ ↦ true ]) connected in
      (
        t',
        rw (pending, still_open)
            (ap (exchange_loop (serving ts (drop (suc turn.got) xs)))
                (round_lem turn out got xs wire t)
              ∙ goes
              ∙ ap₂ (λ (g v : Bytes). some (0, state n [] g 0 t' v))
                  (append_assoc got (take (suc turn.got) xs) (drop (suc turn.got) xs)
                    ∙ ap (got ++◌) (take-append-drop (suc turn.got) xs))
                  (append_assoc wire (take (suc turn.took) out) (drop (suc turn.took) out)
                    ∙ ap (wire ++◌) (take-append-drop (suc turn.took) out))),
      )

  loop_served :
      (ts : List Turn) (out got xs wire : Bytes) (t : ℤ)
      → length out ≤ length ts
      → length xs ≤ length ts
      → Result ts out got xs wire t
  loop_served [] [] got [] wire t h k = (t, loop_done [] got wire t)
  loop_served [] (b ∷ bs) got xs wire t h k = absurd (omega arith)
  loop_served [] [] got (b ∷ bs) wire t h k = absurd (omega arith)
  loop_served (turn ∷ ts) [] got [] wire t h k = (t, loop_done (serving (turn ∷ ts) []) got wire t)
  loop_served (turn ∷ ts) [] got (b ∷ bs) wire t h k =
      loop_turn turn ts [] got (b ∷ bs) wire t (ground arith) (
        loop_served ts [] (got ++ take (suc turn.got) (b ∷ bs)) (drop (suc turn.got) (b ∷ bs))
          (wire ++ []) (t -ℤ turn.elapsed) (omega arith) (omega (arith, length-drop turn.got bs)))
  loop_served (turn ∷ ts) (b ∷ bs) got xs wire t h k =
      loop_turn turn ts (b ∷ bs) got xs wire t (ground arith) (
        loop_served ts (drop (suc turn.took) (b ∷ bs)) (got ++ take (suc turn.got) xs)
          (drop (suc turn.got) xs) (wire ++ take (suc turn.took) (b ∷ bs)) (t -ℤ turn.elapsed)
          (omega (arith, length-drop turn.took bs)) (omega (arith, length-drop (suc turn.got) xs)))

-- On a connected socket, with a peer that gives and takes something in every round, and as many
-- rounds as either side has bytes, `node_exchange` returns 0: it has given all its data, and has
-- the peer's bytes, which are as many as it wants.
pub node_exchange_served :
    (ts : List Turn) (n : Node) (fd : ℕ) (out xs : Bytes) (timeout_ms : Option ℕ)
    → n.socket ≡ some fd
    → length out ≤ length ts
    → length xs ≤ length ts
    → (left : Option ℕ) × (node_exchange (serving ts xs) n out (length xs) timeout_ms
        ≡ some (record { status = 0; node = n; recv_data = xs; timeout_ms = left; wire = out }))
unfolding node_exchange exchanged
node_exchange_served ts n fd out xs timeout_ms connected h k =
    let begun = start n out (length xs) timeout_ms in
    let (t', goes) = loop_served n fd connected ts out [] xs [] begun.timeout h k in
    (time_left timeout_ms 0 t', ap (exchanged timeout_ms) goes)
