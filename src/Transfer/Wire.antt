-- ===== src/Transfer/Wire.antt =====
-- `chat_handle_recv` over the bytes that the connection holds. Each call of `recv` is asked for what
-- the buffer lacks and returns some of the first bytes; it is made while there are bytes.
use otpchat.Base.{
  ℕ, suc, ◌+◌, ◌-◌, ◌≤◌, ◌<◌, ◌≡◌, refl, sym, ap, ap₂, ◌∙◌, false, Option, some, List, [], ◌∷◌,
  ◌++◌, Bytes, ◌>>=◌, arith, if◌then◌else◌, ◌==◌, length, take, drop, length-append, drop-drop,
  length-take, length-drop, drop_all, replicate, take-append_le, drop-append_le, take-append-drop,
  length-overwrite, overwrite, min, Bool-cases, inl, inr,
}
use otpchat.Block.{null_block}
use otpchat.Node.{arrived}
use otpchat.State.{ChatState, World}
use otpchat.Transfer.Stream.{
  filling, on_full, recv_part, recv_last, filled, filled_whole, recv-idle,
}
use otpchat.Transfer.{chat_handle_recv}

-- How many bytes `chat_handle_recv` asks for.
abbrev pub wanted : ChatState → ℕ
wanted st = if st.receiving.size == 0 then 12 else st.receiving.size - st.received_size

-- The status, the state, and the bytes that are left; a call returns as many bytes as `counts` says
-- and one more, as far as they are asked for and there.
abbrev pub recv_wire : World → ChatState → List ℕ → Bytes → Option (ℕ × ChatState × Bytes)
recv_wire w st [] wire = some (0, st, wire)
recv_wire w st (c ∷ counts) [] = some (0, st, [])
recv_wire w st (c ∷ counts) (b ∷ bs) = do
  let n = min (suc c) (wanted st)
  (status, st') ← chat_handle_recv (arrived (take n (b ∷ bs))) w st
  let rest = recv_wire w st' counts (drop n (b ∷ bs))
  if status == 0 then rest else some (status, st', drop n (b ∷ bs))

abbrev pub go_on_wire : World → List ℕ → Bytes → ℕ × ChatState → Option (ℕ × ChatState × Bytes)
go_on_wire w counts wire (status, st) =
    if status == 0 then recv_wire w st counts wire else some (status, st, wire)

wire_step :
    (w : World) (st : ChatState) (c : ℕ) (counts : List ℕ) (wire : Bytes)
    → 0 < length wire
    → recv_wire w st (c ∷ counts) wire ≡ (
        chat_handle_recv (arrived (take (min (suc c) (wanted st)) wire)) w st
        >>= go_on_wire w counts (drop (min (suc c) (wanted st)) wire))
wire_step w st c counts [] h = absurd (omega arith)
wire_step w st c counts (b ∷ bs) h = refl

-- The first call of a message is asked for a header.
pub wire-idle :
    (w : World) (st : ChatState) (counts : List ℕ) (wire : Bytes)
    → st.receiving ≡ null_block
    → 0 < length counts
    → 0 < length wire
    → recv_wire w st counts wire ≡ recv_wire w (filling st (replicate 12 0) 0) counts wire
wire-idle w st [] wire idle h there = absurd (omega arith)
wire-idle w st (c ∷ counts) wire idle h there =
    let n = min (suc c) 12 in
    let twelve : wanted st ≡ 12 = simp idle in
    wire_step w st c counts wire there
    ∙ ap
        (λ (m : ℕ).
          chat_handle_recv (arrived (take (min (suc c) m) wire)) w st
          >>= go_on_wire w counts (drop (min (suc c) m) wire))
        twelve
    ∙ ap (λ o. o >>= go_on_wire w counts (drop n wire)) (recv-idle w st (take n wire) idle)
    ∙ sym (wire_step w (filling st (replicate 12 0) 0) c counts wire there)

-- Calls until the buffer is full. `counts'` are those that are left.
pub wire-fill :
    (w : World) (st : ChatState) (xs whole : Bytes) (counts : List ℕ) (rest : Bytes) (at fd : ℕ)
    → st.remote.node.socket ≡ some fd
    → at < length xs
    → length whole ≡ length xs
    → take at xs ≡ take at whole
    → length xs ≤ at + length counts
    → (counts' : List ℕ) × (recv_wire w (filling st xs at) counts (drop at whole ++ rest)
        ≡ (on_full w st whole >>= go_on_wire w counts' rest))
      × (at + length counts ≤ length xs + length counts')
wire-fill w st xs whole [] rest at fd connected more len front enough = absurd (omega arith)
wire-fill w st xs whole (c ∷ counts) rest at fd connected more len front enough =
    let left = drop at whole in
    let n = min (suc c) (length xs - at) in
    let p = take n left in
    let left_size : length left ≡ length xs - at = omega (arith, length-drop at whole) in
    let p_size : length p ≡ n = omega (arith, length-take n left, left_size) in
    let there : 0 < length (left ++ rest) = omega (arith, length-append left rest, left_size) in
    let asked : wanted (filling st xs at) ≡ length xs - at =
      (let e : (length xs == 0) ≡ false = ground arith in rw e) in
    let rest_is : p ++ drop n left ≡ left = take-append-drop n left in
    let step : recv_wire w (filling st xs at) (c ∷ counts) (left ++ rest) ≡ (
        chat_handle_recv (arrived p) w (filling st xs at)
        >>= go_on_wire w counts (drop n left ++ rest)) =
      wire_step w (filling st xs at) c counts (left ++ rest) there
      ∙ ap
          (λ (m : ℕ).
            chat_handle_recv (arrived (take (min (suc c) m) (left ++ rest))) w (filling st xs at)
            >>= go_on_wire w counts (drop (min (suc c) m) (left ++ rest)))
          asked
      ∙ ap₂
          (λ (q r : Bytes).
            chat_handle_recv (arrived q) w (filling st xs at) >>= go_on_wire w counts r)
          (take-append_le n left rest (omega (arith, left_size)))
          (drop-append_le n left rest (omega (arith, left_size))) in
    elim (Bool-cases (at + n == length xs)) [
      | inl e ↦
          let all : at + length p ≡ length xs = ground (arith, p_size) in
          let no_rest : drop n left ≡ [] = drop_all n left (ground (arith, left_size)) in
          (
            counts,
            step
                ∙ ap (λ o. o >>= go_on_wire w counts (drop n left ++ rest))
                    (recv_last w st xs p whole at fd connected (omega (arith, p_size)) all len (
                      filled_whole at xs whole p len front all
                        (ap (p ++◌) (sym no_rest) ∙ rest_is)))
                ∙ ap (λ (r : Bytes). on_full w st whole >>= go_on_wire w counts (r ++ rest))
                    no_rest,
            omega arith,
          )
      | inr e ↦
          let few : at + length p < length xs = ground (arith, p_size) in
          let ys = overwrite at p xs in
          let ys_size : length ys ≡ length xs = length-overwrite at p xs (omega (arith, few)) in
          let later : drop n left ≡ drop (at + length p) whole =
            drop-drop n at whole
            ∙ ap (λ (m : ℕ). drop m whole)
                (let f : at + n ≡ at + length p = omega (arith, p_size) in f) in
          let (counts', goes, used) =
            wire-fill w st ys whole counts rest (at + length p) fd connected
              (omega (arith, few, ys_size)) (len ∙ sym ys_size)
              (filled at xs whole p (drop n left) front (omega (arith, few)) rest_is)
              (omega (arith, p_size, ys_size)) in
          (
            counts',
            step
                ∙ ap (λ o. o >>= go_on_wire w counts (drop n left ++ rest))
                    (recv_part w st xs p at fd connected (omega (arith, p_size)) few)
                ∙ ap (λ (r : Bytes). recv_wire w (filling st ys (at + length p)) counts (r ++ rest))
                    later
                ∙ goes,
            omega (arith, used, ys_size, p_size),
          )
    ]
