-- ===== src/KeyStore/Find.antt =====
-- What `key_store_find` finds.
use otpchat.Base.{
  ℕ, zero, suc, ◌+◌, ◌≡◌, ◌≢◌, refl, Option, none, some, List, [], ◌∷◌, Bytes, ◌>>=◌, arith,
  equal_bytes, equal_bytes_iff, length, Bool-cases, inl, inr,
}
use otpchat.Key.{Key}
use otpchat.KeyStore.{KeyStore, KeyRef, local_key, remote_key, find_loop, key_store_find}

abbrev pub IsStore : KeyStore → Type 0
IsStore store = length store.remotes ≡ store.remotes_size

abbrev pub NoneHas : Bytes → List Key → Type 0
NoneHas id [] = Unit
NoneHas id (k ∷ ks) = (k.id ≢ id) × NoneHas id ks

-- The key at index `i` has the id, and none in front of it has.
abbrev pub FirstAt : Bytes → List Key → ℕ → Type 0
FirstAt id [] i = ⊥
FirstAt id (k ∷ ks) zero = k.id ≡ id
FirstAt id (k ∷ ks) (suc i) = (k.id ≢ id) × FirstAt id ks i

abbrev pub Finds : Bytes → List Key → Option KeyRef → Type 0
Finds id ks none = NoneHas id ks
Finds id ks (some local_key) = ⊥
Finds id ks (some (remote_key i)) = FirstAt id ks i

abbrev FindsIndex : Bytes → List Key → ℕ → Option ℕ → Type 0
FindsIndex id ks from none = NoneHas id ks
FindsIndex id ks from (some i) = (j : ℕ) × (i ≡ from + j) × FirstAt id ks j

later :
    (id : Bytes) (k : Key) (ks : List Key) (from : ℕ) (r : Option ℕ)
    → k.id ≢ id
    → FindsIndex id ks (from + 1) r
    → FindsIndex id (k ∷ ks) from r
later id k ks from none ne f = (ne, f)
later id k ks from (some i) ne (j, e, f) = (suc j, omega arith, (ne, f))

find_loop_lem :
    (n from : ℕ) (ks : List Key) (id : Bytes)
    → length ks ≡ n
    → (r : Option ℕ) × (find_loop n from ks id ≡ some r) × FindsIndex id ks from r
unfolding find_loop
find_loop_lem zero from [] id e = (none, refl, tt)
find_loop_lem zero from (k ∷ ks) id e = absurd (omega arith)
find_loop_lem (suc n) from [] id e = absurd (omega arith)
find_loop_lem (suc n) from (k ∷ ks) id e = elim (Bool-cases (equal_bytes k.id id)) [
  | inl same ↦ (some from, rw same, (0, omega arith, (equal_bytes_iff k.id id).0 same))
  | inr other ↦
      let rest = find_loop_lem n (from + 1) ks id (omega arith) in
      (
        rest.0,
        rw other rest.1,
        later id k ks from rest.0 (λ same. ground (arith, equal_bytes_iff k.id id)) rest.2,
      )
]

as_ref :
    (id : Bytes) (ks : List Key) (r : Option ℕ)
    → FindsIndex id ks 0 r
    → Finds id ks (r >>= λ i. some (remote_key i))
as_ref id ks none f = f
as_ref id ks (some i) (j, e, f) = let same : i ≡ j = omega arith in rw same f

-- On a store whose counter fits its array the search returns: the first key with the id, or NULL,
-- and then no key has it.
pub key_store_find_lem :
    (store : KeyStore) (id : Bytes)
    → IsStore store
    → (r : Option KeyRef) × (key_store_find store id ≡ some r) × Finds id store.remotes r
unfolding key_store_find
key_store_find_lem store id h =
    let found = find_loop_lem store.remotes_size 0 store.remotes id h in
    (found.0 >>= λ i. some (remote_key i), rw found.1, as_ref id store.remotes found.0 found.2)
