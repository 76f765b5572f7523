-- ===== src/State/Inv.antt =====
-- What holds of the chat between two rounds of the loop.
use otpchat.Base.{
  Bool, true, false, if◌then◌else◌, ◌>>=◌, ℕ, zero, suc, ◌≤◌, ◌<◌, ◌≡◌, ◌≢◌, ◌⊎◌, refl, sym, ap,
  ◌∙◌, Option, none, some, List, [], ◌∷◌, Bytes, arith, length, get_elem?, set,
}
use otpchat.Block.{Block, null_block, block_of}
use otpchat.Disk.{Stream, null}
use otpchat.Key.Total.{IsOpen}
use otpchat.Key.{Key}
use otpchat.KeyStore.Find.{IsStore}
use otpchat.KeyStore.{KeyStore, KeyRef, local_key, remote_key, get_key, set_key}
use otpchat.Node.{freed}
use otpchat.State.{ChatState}
use otpchat.User.{User, connected}

abbrev pub AllOpen : List Key → Type 0
AllOpen [] = Unit
AllOpen (k ∷ ks) = IsOpen k × AllOpen ks

-- The array has as many keys as are counted, and every key of the store is open.
pub record StoreInv (store : KeyStore) : Type 0 where
  pub counted : IsStore store
  pub local_open : IsOpen store.local
  pub remotes_open : AllOpen store.remotes

abbrev pub Held : KeyStore → KeyRef → Type 0
Held store ref = (k : Key) × (get_key store ref ≡ some k)

-- NULL, or a key of the store.
abbrev pub NullOrHeld : KeyStore → Option KeyRef → Type 0
NullOrHeld store none = Unit
NullOrHeld store (some ref) = Held store ref

-- The descriptors are apart, and no address is freed. A peer that is connected has its key in the
-- store.
pub record NetInv (keys : KeyStore) (local remote : User) : Type 0 where
  pub store : StoreInv keys
  pub local_is : local.key ≡ some local_key
  pub local_node : local.node.info ≢ freed
  pub remote_node : remote.node.info ≢ freed
  pub not_stdin : remote.node.socket ≢ some 0
  pub apart : (fd : ℕ) → local.node.socket ≡ some fd → remote.node.socket ≢ some fd
  pub held : NullOrHeld keys remote.key
  pub has_key : remote.state ≡ connected → remote.key ≢ none

-- A buffer has room for a header, and is filled up to `count`.
abbrev pub ReceiveInv : Block → ℕ → Type 0
ReceiveInv b count =
    (b ≡ null_block) ⊎ ((xs : Bytes) × (b ≡ block_of xs) × (12 ≤ length xs) × (count ≤ length xs))

abbrev pub SendInv : Block → ℕ → Type 0
SendInv b count = (b ≡ null_block) ⊎ ((xs : Bytes) × (b ≡ block_of xs) × (count ≤ length xs))

-- The cursor stands in the line, and the line in its array.
abbrev pub LineInv : Block → ℕ → Type 0
LineInv b cursor =
    ((b ≡ null_block) × (cursor ≡ 0))
    ⊎ ((xs : Bytes) × (b.bytes ≡ some xs) × (b.size ≤ length xs) × (cursor ≤ b.size))

-- `Sockets` is what else is known of the two descriptors.
pub record InvOf (Sockets : Option ℕ → Option ℕ → Type 0) (st : ChatState) : Type 0 where
  pub box : 0 < st.history_width
  pub net : NetInv st.keys st.local st.remote
  pub receiving : ReceiveInv st.receiving st.received_size
  pub sending : SendInv st.sending st.sent_size
  pub input : LineInv st.input st.cursor_index
  pub sockets : Sockets st.local.node.socket st.remote.node.socket

abbrev pub Any : Option ℕ → Option ℕ → Type 0
Any local remote = Unit

abbrev pub Inv : ChatState → Type 0
Inv st = InvOf Any st

pub forget : (Sockets : Option ℕ → Option ℕ → Type 0) (st : ChatState) → InvOf Sockets st → Inv st
forget Sockets st h = record {
  box = h.box;
  net = h.net;
  receiving = h.receiving;
  sending = h.sending;
  input = h.input;
  sockets = tt;
}

-- Defined, with a result for which `P` holds.
abbrev pub Safe : {A : Type 0} → (A → Type 0) → Option A → Type 0
Safe P none = ⊥
Safe P (some a) = P a

pub Safe-some : {A : Type 0} (P : A → Type 0) (o : Option A) (a : A) → o ≡ some a → P a → Safe P o
Safe-some P o a e h = rw e h

pub Safe-result :
    {A : Type 0} (P : A → Type 0) (o : Option A) → Safe P o → (a : A) × (o ≡ some a) × P a
Safe-result P none h = absurd h
Safe-result P (some a) h = (a, refl, h)

pub Safe-bind :
    {A B : Type 0} (P : A → Type 0) (Q : B → Type 0) (o : Option A) (f : A → Option B)
    → Safe P o
    → ((a : A) → P a → Safe Q (f a))
    → Safe Q (o >>= f)
Safe-bind P Q none f h k = absurd h
Safe-bind P Q (some a) f h k = k a h

pub Safe-map :
    {A : Type 0} (P Q : A → Type 0) (o : Option A) → Safe P o → ((a : A) → P a → Q a) → Safe Q o
Safe-map P Q none h k = absurd h
Safe-map P Q (some a) h k = k a h

pub if_case :
    {A : Type 0} (P : A → Type 0) (b : Bool) (x y : A)
    → (b ≡ true → P x)
    → (b ≡ false → P y)
    → P (if b then x else y)
if_case P true x y h k = h refl
if_case P false x y h k = k refl

pub Safe-elim :
    {A B : Type 0} (P : A → Type 0) (o : Option B) (x y : Option A)
    → Safe P x
    → Safe P y
    → Safe P (elim o as (λ _. Option A) [ none ↦ x | some _ ↦ y ])
Safe-elim P none x y h k = h
Safe-elim P (some b) x y h k = k

pub Safe-if :
    {A : Type 0} (P : A → Type 0) (b : Bool) (x y : Option A)
    → (b ≡ true → Safe P x)
    → (b ≡ false → Safe P y)
    → Safe P (if b then x else y)
Safe-if P true x y h k = h refl
Safe-if P false x y h k = k refl

same_IsOpen : (x k : Key) → some x ≡ some k → IsOpen x → IsOpen k
same_IsOpen x k e (path, pos, o) = (
  path,
  pos,
  sym (ap (λ (m : Option Key). elim m as (λ _. Stream) [ none ↦ null | some y ↦ y.stream ]) e) ∙ o,
)

IsOpen-at : (ks : List Key) (i : ℕ) (k : Key) → AllOpen ks → get_elem? ks i ≡ some k → IsOpen k
IsOpen-at [] i k h e = ground arith
IsOpen-at (x ∷ xs) zero k (here, later) e = same_IsOpen x k e here
IsOpen-at (x ∷ xs) (suc i) k (here, later) e = IsOpen-at xs i k later e

set_open : (ks : List Key) (i : ℕ) (k : Key) → AllOpen ks → IsOpen k → AllOpen (set ks i k)
set_open [] i k h o = tt
set_open (x ∷ xs) zero k (here, later) o = (o, later)
set_open (x ∷ xs) (suc i) k (here, later) o = (here, set_open xs i k later o)

length-set_key : (ks : List Key) (i : ℕ) (k : Key) → length (set ks i k) ≡ length ks
length-set_key [] i k = refl
length-set_key (x ∷ xs) zero k = refl
length-set_key (x ∷ xs) (suc i) k = ap suc (length-set_key xs i k)

get-set :
    (ks : List Key) (i j : ℕ) (k k' : Key)
    → get_elem? ks j ≡ some k'
    → (k'' : Key) × (get_elem? (set ks i k) j ≡ some k'')
get-set [] i j k k' e = (k', e)
get-set (x ∷ xs) zero zero k k' e = (k, refl)
get-set (x ∷ xs) zero (suc j) k k' e = (k', e)
get-set (x ∷ xs) (suc i) zero k k' e = (k', e)
get-set (x ∷ xs) (suc i) (suc j) k k' e = get-set xs i j k k' e

pub get_key-IsOpen :
    (store : KeyStore) (ref : KeyRef) (k : Key)
    → StoreInv store
    → get_key store ref ≡ some k
    → IsOpen k
get_key-IsOpen store local_key k h e = same_IsOpen store.local k e h.local_open
get_key-IsOpen store (remote_key i) k h e = IsOpen-at store.remotes i k h.remotes_open e

pub set_key-StoreInv :
    (store : KeyStore) (ref : KeyRef) (k : Key)
    → StoreInv store
    → IsOpen k
    → StoreInv (set_key store ref k)
set_key-StoreInv store local_key k h o = record {
  counted = h.counted;
  local_open = o;
  remotes_open = h.remotes_open;
}
set_key-StoreInv store (remote_key i) k h o = record {
  counted = omega (arith, h.counted, length-set_key store.remotes i k);
  local_open = h.local_open;
  remotes_open = set_open store.remotes i k h.remotes_open o;
}

set_key-Held :
    (store : KeyStore) (ref ref' : KeyRef) (k : Key)
    → Held store ref'
    → Held (set_key store ref k) ref'
set_key-Held store local_key local_key k h = (k, refl)
set_key-Held store local_key (remote_key j) k h = h
set_key-Held store (remote_key i) local_key k h = h
set_key-Held store (remote_key i) (remote_key j) k (k', e) = get-set store.remotes i j k k' e

pub set_key-NullOrHeld :
    (store : KeyStore) (ref : KeyRef) (k : Key) (o : Option KeyRef)
    → NullOrHeld store o
    → NullOrHeld (set_key store ref k) o
set_key-NullOrHeld store ref k none h = tt
set_key-NullOrHeld store ref k (some ref') h = set_key-Held store ref ref' k h
