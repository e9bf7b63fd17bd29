-- ===== src/Resources/Table.antt =====
-- core/io/resource_table.rs: what the table promises.
use native.Mathlib.Decide.{ℕ_discrete}
use deno_core.Common.{
  ℕ, suc, ◌+◌, ◌^◌, ◌<◌, ◌≡◌, ◌≢◌, ◌↔◌, true, false, none, some, arith, inl, inr, Option-cases,
  lookup, insert, Distinct, lookup-insert, lookup-remove, insert-Distinct, remove-Distinct,
  length-insert, length-remove, if◌then◌else◌, ◌==◌,
}
use deno_core.Resources.{
  Resource, ResourceTable, RawFd, ResourceHandle, bad_resource_id, ok, err, new_table, len, u32,
  add_rc_dyn, has, get, get_any, take, get_fd, get_socket, get_handle,
}

-- Every id in use is below the next one, and none stands twice.
pub record Inv (t : ResourceTable) : Type 0 where
  pub fresh : (rid : ℕ) (r : Resource) → lookup ℕ_discrete rid t.index ≡ some r → rid < t.next_rid
  pub distinct : Distinct ℕ_discrete t.index

pub new_table-Inv : Inv new_table
unfolding new_table
new_table-Inv = record { fresh = λ rid r e. ground arith; distinct = tt }

-- On a table whose ids are all below next_rid and distinct, and while next_rid has not reached
-- its last value, adding a resource never panics: it returns next_rid, an id that was free,
-- keeps the table so, counts one resource more, and changes the look-up of that id only.
pub add_rc_dyn_lem :
    (t : ResourceTable) (r : Resource)
    → Inv t
    → t.next_rid + 1 < 2 ^ 32
    → (t' : ResourceTable) × (add_rc_dyn t r ≡ some (t', t.next_rid))
      × Inv t'
      × (has t t.next_rid ≡ false)
      × (len t' ≡ len t + 1)
      × (t'.next_rid ≡ t.next_rid + 1)
      × ((rid : ℕ) → get_any t' rid ≡ (if rid == t.next_rid then ok r else get_any t rid))
unfolding add_rc_dyn has len get_any
add_rc_dyn_lem t r v below = elim (Option-cases (lookup ℕ_discrete t.next_rid t.index)) [
  | inr (x, e) ↦ absurd (omega (arith, v.fresh t.next_rid x e))
  | inl e ↦
      let index = insert ℕ_discrete t.next_rid r t.index in
      (
        record { index = index; next_rid = u32 (t.next_rid + 1) },
        ground arith,
        record {
          fresh = λ rid x found.
              ground (arith, lookup-insert ℕ_discrete t.next_rid rid r t.index, v.fresh rid x);
          distinct = insert-Distinct ℕ_discrete t.next_rid r t.index v.distinct;
        },
        ground arith,
        ground (arith, length-insert ℕ_discrete t.next_rid r t.index),
        omega arith,
        λ rid. ground (arith, lookup-insert ℕ_discrete t.next_rid rid r t.index),
      )
]

-- Adding panics exactly when the next id is in use, which only a counter that wrapped can bring
-- about.
pub add_rc_dyn_panics :
    (t : ResourceTable) (r : Resource) → (add_rc_dyn t r ≡ none) ↔ (has t t.next_rid ≡ true)
unfolding add_rc_dyn has
add_rc_dyn_panics t r = (λ e. ground arith, λ e. ground arith)

-- Where take succeeds on such a table, it returns what get finds, of the type that was asked
-- for; the id is free afterwards and is not given out again, every other id finds what it found,
-- and there is one resource less.
pub take_lem :
    (t t' : ResourceTable) (ty rid : ℕ) (r : Resource)
    → Inv t
    → take t ty rid ≡ ok (t', r)
    → (get t ty rid ≡ ok r)
      × (r.type_id ≡ ty)
      × Inv t'
      × (t'.next_rid ≡ t.next_rid)
      × (suc (len t') ≡ len t)
      × ((rid' : ℕ)
          → get_any t' rid' ≡ (if rid' == rid then err bad_resource_id else get_any t rid'))
unfolding take get get_any len
take_lem t t' ty rid r v e = elim (Option-cases (lookup ℕ_discrete rid t.index)) [
  | inl missing ↦ absurd (ground arith)
  | inr (x, found) ↦ (
    ground arith,
    ground arith,
    record {
      fresh = λ k y there. ground (arith, lookup-remove ℕ_discrete rid k t.index, v.fresh k y);
      distinct = ground (arith, remove-Distinct ℕ_discrete rid t.index v.distinct);
    },
    ground arith,
    ground (arith, length-remove ℕ_discrete rid x t.index v.distinct),
    λ rid'. ground (arith, lookup-remove ℕ_discrete rid rid' t.index),
  )
]

-- Taking by a type that the resource does not have, or by an id that is not in use, fails with
-- `BadResourceId`, and so does `get`.
pub take_refused :
    (t : ResourceTable) (ty rid : ℕ)
    → ((r : Resource) → get_any t rid ≡ ok r → r.type_id ≢ ty)
    → (take t ty rid ≡ err bad_resource_id) × (get t ty rid ≡ err bad_resource_id)
unfolding take get get_any
take_refused t ty rid h = elim (Option-cases (lookup ℕ_discrete rid t.index)) [
  | inl missing ↦ ground arith
  | inr (x, found) ↦ ground (arith, h x)
]

-- The three look-ups of a handle agree: `get_fd` gives a descriptor exactly where `get_handle` gives
-- it as a file-like handle, and `get_socket` exactly where `get_handle` gives it as a socket.
pub get_handle_lem :
    (t : ResourceTable) (rid : ℕ) (f : RawFd)
    → ((get_fd t rid ≡ ok f) ↔ (get_handle t rid ≡ ok (ResourceHandle.fd_like f)))
      × ((get_socket t rid ≡ ok f) ↔ (get_handle t rid ≡ ok (ResourceHandle.socket_like f)))
unfolding get_fd get_socket get_handle
get_handle_lem t rid f =
    ((λ e. ground arith, λ e. ground arith), (λ e. ground arith, λ e. ground arith))
