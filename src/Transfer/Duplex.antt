-- ===== src/Transfer/Duplex.antt =====
-- Calls of `chat_handle_send` and `chat_handle_recv` in any order, as the rounds of the loop make
-- them: a connection carries what goes out and what comes in independently.
use otpchat.Base.{
  ℕ, zero, suc, true, false, ◌≡◌, refl, sym, ap, ap₂, ◌∙◌, Option, some, none, List, [], ◌∷◌, ◌++◌,
  Bytes, ◌>>=◌, arith, if◌then◌else◌, ◌==◌, take, drop, min,
}
use otpchat.Block.{Block}
use otpchat.Node.{accepted, arrived, Received}
use otpchat.State.{ChatState, World}
use mathlib.Core.Option.{some-injective}
use otpchat.Transfer.Apart.{put, on_state, map_some, then_apart, if_apart, chat_handle_recv_apart}
use otpchat.Transfer.Kept.{chat_handle_recv_kept}
use otpchat.Transfer.Progress.{takes}
use otpchat.Transfer.Send.{given, send_all}
use otpchat.Transfer.SendFrom.{sent_on, sent_bytes, send_lem, given_lem, send_from, send_from_lem}
use otpchat.Transfer.Wire.{recv_wire, wanted}
use otpchat.Transfer.{chat_handle_send, chat_handle_recv}

-- One turn of the connection: a call of `send` that takes so many bytes and one more, or a call of
-- `recv` that returns so many and one more.
pub data Move : Type 0 where
  send : ℕ → Move
  recv : ℕ → Move

-- The status, the state, what is left of what came in, and what went out.
abbrev pub Outcome : Type 0
Outcome = ℕ × ChatState × Bytes × Bytes

abbrev with_sent : Bytes → Outcome → Outcome
with_sent xs (status, st, wire, out) = (status, st, wire, xs ++ out)

-- The calls in their order. No `recv` is made without bytes, and none is left after a failure.
abbrev pub duplex : World → ChatState → List Move → Bytes → Option Outcome
duplex w st [] wire = some (0, st, wire, [])
duplex w st (send c ∷ moves) wire =
    map_some (with_sent (given (accepted (suc c)) st))
      (duplex w (chat_handle_send (accepted (suc c)) st) moves wire)
duplex w st (recv c ∷ moves) [] = duplex w st moves []
duplex w st (recv c ∷ moves) (b ∷ bs) = do
  let n = min (suc c) (wanted st)
  (status, st') ← chat_handle_recv (arrived (take n (b ∷ bs))) w st
  let rest = duplex w st' moves (drop n (b ∷ bs))
  if status == 0 then rest else some (status, st', drop n (b ∷ bs), [])

abbrev pub sends : List Move → List ℕ
sends [] = []
sends (send c ∷ moves) = c ∷ sends moves
sends (recv c ∷ moves) = sends moves

abbrev pub recvs : List Move → List ℕ
recvs [] = []
recvs (send c ∷ moves) = recvs moves
recvs (recv c ∷ moves) = c ∷ recvs moves

-- Nothing that is received depends on what is to be sent.
recv_wire_apart :
    (b : Block) (n : ℕ) (w : World) (st : ChatState) (counts : List ℕ) (wire : Bytes)
    → recv_wire w (put b n st) counts wire
      ≡ map_some
          (λ (r : ℕ × ChatState × Bytes). (r.0, put b n r.1, r.2))
          (recv_wire w st counts wire)
recv_wire_apart b n w st [] wire = refl
recv_wire_apart b n w st (c ∷ counts) [] = refl
recv_wire_apart b n w st (c ∷ counts) (x ∷ xs) =
    let m = min (suc c) (wanted st) in
    let f : ℕ × ChatState × Bytes → ℕ × ChatState × Bytes = λ r. (r.0, put b n r.1, r.2) in
    let go : ℕ × ChatState → Option (ℕ × ChatState × Bytes) = λ r.
      (let rest = recv_wire w r.1 counts (drop m (x ∷ xs)) in
        if r.0 == 0 then rest else some (r.0, r.1, drop m (x ∷ xs))) in
    then_apart (on_state (put b n)) f _ _ go go
      (chat_handle_recv_apart b n (arrived (take m (x ∷ xs))) w st)
      (λ r. if_apart f (r.0 == 0) _ _ _ _ (recv_wire_apart b n w r.1 counts (drop m (x ∷ xs))) refl)

-- Receiving leaves what is to be sent.
recv_apart :
    (r : Received) (w : World) (st : ChatState) (s : ℕ × ChatState)
    → chat_handle_recv r w st ≡ some s
    → s.1 ≡ put st.sending st.sent_size s.1
recv_apart r w st s e =
    ap (λ (t : ℕ × ChatState). t.1)
      (some-injective s (on_state (put st.sending st.sent_size) s) (
        sym e
        ∙ chat_handle_recv_apart st.sending st.sent_size r w st
        ∙ ap (map_some (on_state (put st.sending st.sent_size))) e))

recv_wire_none :
    (w : World) (st : ChatState) (counts : List ℕ) → recv_wire w st counts [] ≡ some (0, st, [])
recv_wire_none w st [] = refl
recv_wire_none w st (c ∷ counts) = refl

bind_some :
    {A B : Type 0} (o : Option A) (f : A → Option B) (b : B)
    → (o >>= f) ≡ some b
    → (a : A) × (o ≡ some a) × (f a ≡ some b)
bind_some none f b e = absurd (cc)
bind_some (some a) f b e = (a, refl, e)

went_on :
    (n : ℕ) (o : Option (ℕ × ChatState × Bytes)) (st : ChatState) (xs : Bytes)
    (r : ℕ × ChatState × Bytes)
    → (if n == 0 then o else some (n, st, xs)) ≡ some r
    → r.0 ≡ 0
    → n ≡ 0
went_on zero o st xs r e ok = refl
went_on (suc n) o st xs r e ok =
    let b : (suc n == 0) ≡ false = ground arith in
    ap (λ (a : ℕ × ChatState × Bytes). a.0) (some-injective (suc n, st, xs) r (sym (rw b refl) ∙ e))
    ∙ ok

-- The outcome, where what is received alone gives `r`.
abbrev outcome_of : ℕ × ChatState × Bytes → Bytes × Block × ℕ → Outcome
outcome_of r sent = (r.0, put sent.1 sent.2 r.1, r.2, sent.0)

duplex_from :
    (w : World) (st : ChatState) (fd : ℕ) (moves : List Move) (wire : Bytes)
    (r : ℕ × ChatState × Bytes)
    → st.remote.node.socket ≡ some fd
    → recv_wire w st (recvs moves) wire ≡ some r
    → r.0 ≡ 0
    → duplex w st moves wire ≡ some (outcome_of r (send_from (sends moves) st.sending st.sent_size))
duplex_from w st fd [] wire r connected e ok =
    ap (λ (a : ℕ × ChatState × Bytes). some (outcome_of a ([], st.sending, st.sent_size)))
      (some-injective (0, st, wire) r e)
duplex_from w st fd (send c ∷ moves) wire r connected e ok =
    let next = sent_on (suc c) st.sending st.sent_size in
    let f : ℕ × ChatState × Bytes → ℕ × ChatState × Bytes =
      λ a. (a.0, put next.0 next.1 a.1, a.2) in
    ap₂ (λ (xs : Bytes) (s : ChatState). map_some (with_sent xs) (duplex w s moves wire))
      (given_lem (suc c) fd st connected) (send_lem (suc c) fd st connected)
    ∙ ap (map_some (with_sent (sent_bytes (suc c) st.sending st.sent_size))) (
        duplex_from w (put next.0 next.1 st) fd moves wire (f r) connected
          (recv_wire_apart next.0 next.1 w st (recvs moves) wire ∙ ap (map_some f) e) ok)
duplex_from w st fd (recv c ∷ moves) [] r connected e ok =
    duplex_from w st fd moves [] r connected (recv_wire_none w st (recvs moves) ∙ e) ok
duplex_from w st fd (recv c ∷ moves) (x ∷ xs) r connected e ok =
    let m = min (suc c) (wanted st) in
    let rest = drop m (x ∷ xs) in
    let received = arrived (take m (x ∷ xs)) in
    let go : ℕ × ChatState → Option Outcome = λ s.
      (let later = duplex w s.1 moves rest in
        if s.0 == 0 then later else some (s.0, s.1, rest, [])) in
    let (s, now, later) = bind_some (chat_handle_recv received w st) _ r e in
    let zero_is = went_on s.0 _ s.1 rest r later ok in
    let b : (s.0 == 0) ≡ true = ground (arith, zero_is) in
    let same = recv_apart received w st s now in
    let kept =
      chat_handle_recv_kept received w st s.1 fd connected
        (now ∙ ap (λ (n : ℕ). some (n, s.1)) zero_is) in
    ap (λ o. o >>= go) now
    ∙ rw b (
        duplex_from w s.1 fd moves rest r kept (sym (rw b refl) ∙ later) ok
        ∙ ap₂ (λ (b : Block) (n : ℕ). some (outcome_of r (send_from (sends moves) b n)))
            (ap (λ (t : ChatState). t.sending) same) (ap (λ (t : ChatState). t.sent_size) same))

-- A connection with something to be sent in one direction and something that has come in the other.
-- In whatever order `chat_handle_send` and `chat_handle_recv` are called, where the receiving calls
-- alone do not fail, what is received, the history with it, and what is left of the bytes that came
-- are as without the sending calls, and what is given to the socket and is still to be sent is as
-- without the receiving calls.
pub duplex_lem :
    (w : World) (st st' : ChatState) (fd : ℕ) (moves : List Move) (wire rest : Bytes)
    → st.remote.node.socket ≡ some fd
    → recv_wire w st (recvs moves) wire ≡ some (0, st', rest)
    → duplex w st moves wire ≡ (
        let sent = send_all (takes (sends moves)) st in
        some (0, put sent.1.sending sent.1.sent_size st', rest, sent.0))
duplex_lem w st st' fd moves wire rest connected e =
    duplex_from w st fd moves wire (0, st', rest) connected e refl
    ∙ ap
        (λ (sent : Bytes × ChatState).
          some (outcome_of (0, st', rest) (sent.0, sent.1.sending, sent.1.sent_size)))
        (sym (send_from_lem (sends moves) fd st connected))
