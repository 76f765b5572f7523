-- ===== src/Loop/Start/Run.antt =====
-- A whole chat, from its start over the rounds that come to its end.
use otpchat.Base.{Bool, true, false, Option, none, some, List, [], ◌∷◌}
use otpchat.Disk.{Disk}
use otpchat.Key.{Key}
use otpchat.Loop.Allowed.{Allowed, Fresh}
use otpchat.KeyStore.Close.{saved}
use otpchat.Loop.{Event, chat_round}
use otpchat.State.Inv.{Inv}
use otpchat.State.{ChatState}

-- What each round meets is allowed, and its descriptors are not in use when it begins.
abbrev pub AllAllowed : Bool → List Event → ChatState → Type 0
AllAllowed wait [] st = Unit
AllAllowed wait (e ∷ es) st =
    Allowed e
    × Fresh e st.local.node.socket st.remote.node.socket
    × (elim (chat_round wait e st) as (λ _. Type 0) [
      | none ↦ Unit
      | some r ↦ AllAllowed wait es r.1
    ])

abbrev Kept : Bool × ChatState → Type 0
Kept r = Inv r.1

-- What is on the disk after a loop that has ended; the others still run.
abbrev pub left_on : Disk → Bool × ChatState → Option Disk
left_on d (false, st) = none
left_on d (true, st) = some (saved d (st.keys.local ∷ st.keys.remotes))
