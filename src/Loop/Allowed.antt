-- ===== src/Loop/Allowed.antt =====
-- What a round of the loop may meet, for the theorems about all its states.
use otpchat.Base.{ℕ, ◌≤◌, ◌≡◌, ◌≢◌, true, Option, none, some}
use otpchat.Command.Safety.{FreshCalls}
use otpchat.Input.Bounds.{Bounded}
use otpchat.Loop.{Event, Selected, interrupted, select_failed, ready}
use otpchat.Node.Life.{Connects}
use otpchat.User.Safety.{Ends}

-- FD_ISSET of -1 gives a bit.
abbrev pub HasStray : Selected → Type 0
HasStray (ready r w) = (r.stray ≢ none) × (w.stray ≢ none)
HasStray interrupted = Unit
HasStray select_failed = Unit

-- FD_SET and FD_ISSET of -1 do no harm, the screen has two columns, `mblen` reads within its array, an exchange ends at the latest when
-- `select` fails, and a connection that is tried is not refused at once.
pub record Allowed (e : Event) : Type 0 where
  pub sets : e.set_stray ≡ true
  pub has_stray : HasStray e.select
  pub screen : 2 ≤ e.world.terminal.width
  pub bounded : Bounded e.world.terminal
  pub connects : Connects e.calls.connect
  pub connect_ends : Ends e.connect_rounds
  pub accept_ends : Ends e.accept_rounds

-- The descriptors that the system gives are not in use.
pub record Fresh (e : Event) (local remote : Option ℕ) : Type 0 where
  pub calls : FreshCalls e.calls local remote
  pub accept_not_stdin : e.accepted ≢ some 0
  pub accept_apart : (fd : ℕ) → local ≡ some fd → e.accepted ≢ some fd
  pub listen_accept : (fd : ℕ) → e.calls.listen.socket ≡ some fd → e.accepted ≢ some fd

-- The peer's socket may be given up, or be the one that is accepted.
pub still_Fresh :
    (e : Event) (local remote remote' : Option ℕ)
    → ((fd : ℕ) → e.calls.listen.socket ≡ some fd → remote' ≢ some fd)
    → Fresh e local remote
    → Fresh e local remote'
still_Fresh e local remote remote' apart h =
    let c = h.calls in
    record {
      calls = record {
        connect_not_stdin = c.connect_not_stdin;
        connect_apart = c.connect_apart;
        listen_apart = apart;
      };
      accept_not_stdin = h.accept_not_stdin;
      accept_apart = h.accept_apart;
      listen_accept = h.listen_accept;
    }

pub gives_up : (e : Event) (local remote : Option ℕ) → Fresh e local remote → Fresh e local none
gives_up e local remote h = still_Fresh e local remote none (λ fd l e'. cc) h
