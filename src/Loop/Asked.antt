-- ===== src/Loop/Asked.antt =====
-- Which descriptors a round looks at.
use otpchat.Base.{
  ℕ, ◌≡◌, ◌≢◌, refl, sym, ◌∙◌, ap, inl, inr, Bool, true, false, ◌&&◌, ◌||◌, Option, none, some,
  ◌==◌, arith, Bool-cases, Option-cases, ==_iff,
}
use mathlib.Core.Option.{some-injective}
use otpchat.Loop.{Ready, is_state, is_fd, reads, is_set}
use otpchat.State.Inv.{NetInv}
use otpchat.State.{ChatState}
use otpchat.User.{ConnectionState, not_connected, connecting, connected}

is_state_connected : (s : ConnectionState) → is_state s connected ≡ true → s ≡ connected
is_state_connected connected e = refl
is_state_connected connecting e = cc
is_state_connected not_connected e = cc

is_fd_apart : (o : Option ℕ) (fd : ℕ) → o ≢ some fd → is_fd o fd ≡ false
is_fd_apart none fd h = refl
is_fd_apart (some n) fd h = elim (Bool-cases (n == fd)) [
  | inl e ↦ absurd (h (ap (λ (m : ℕ). some m) ((==_iff n fd).0 e)))
  | inr e ↦ e
]

is_nonzero_fd : (fd : ℕ) → fd ≢ 0 → (fd == 0) ≡ false
is_nonzero_fd fd h = ground arith

asked :
    (stdin on fd waits listens arrived : Bool)
    → ((stdin || on && fd) || (waits && listens)) && arrived ≡ true
    → stdin ≡ false
    → listens ≡ false
    → on ≡ true
asked false true fd waits listens arrived h s l = refl
asked false false fd waits listens arrived h s l = ground arith
asked true on fd waits listens arrived h s l = cc

-- A read from the peer is looked for only where it is connected.
pub reads_connected :
    (wait : Bool) (r : Ready) (st : ChatState)
    → NetInv st.keys st.local st.remote
    → is_set (reads wait st) r st.remote.node.socket ≡ some true
    → st.remote.node.socket ≢ none
    → st.remote.state ≡ connected
reads_connected wait r st h set is_open = elim (Option-cases st.remote.node.socket) [
  | inl e ↦ absurd (is_open e)
  | inr (fd, e) ↦
      let set' : (reads wait st fd && r.fds fd) ≡ true =
        some-injective (reads wait st fd && r.fds fd) true
          (sym (ap (is_set (reads wait st) r) e) ∙ set) in
      is_state_connected st.remote.state (
        asked (fd == 0) (is_state st.remote.state connected) (is_fd st.remote.node.socket fd)
          (wait && is_state st.remote.state not_connected) (is_fd st.local.node.socket fd)
          (r.fds fd) set' (is_nonzero_fd fd (λ z. h.not_stdin (e ∙ ap (λ (m : ℕ). some m) z)))
          (is_fd_apart st.local.node.socket fd (λ l. h.apart fd l e)))
]

-- Where FD_ISSET of -1 gives a bit, every FD_ISSET does.
pub is_set_total :
    (asked_for : ℕ → Bool) (r : Ready) (socket : Option ℕ)
    → r.stray ≢ none
    → (b : Bool) × (is_set asked_for r socket ≡ some b)
is_set_total asked_for r none h = elim (Option-cases r.stray) [
  | inl e ↦ absurd (h e)
  | inr (b, e) ↦ (b, e)
]
is_set_total asked_for r (some fd) h = (asked_for fd && r.fds fd, refl)
