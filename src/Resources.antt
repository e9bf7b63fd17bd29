-- ===== src/Resources.antt =====
-- core/io/resource_table.rs and core/io/resource_handle.rs: the table of resources. A resource is
-- what the table sees of it: its type, its name and its backing handle. `next_rid` is a `u32` that
-- wraps, as in a release build; a debug build panics there.
pub mod Table
mod Tests
use Prim.Native.String.{String}
use native.Mathlib.Decide.{ℕ_discrete}
use deno_core.Common.{
  ℕ, ◌+◌, ◌%◌, ◌^◌, Bool, true, false, List, [], ◌∷◌, Option, none, some, length, lookup, insert,
  remove, ◌==◌, if◌then◌else◌, map,
}

-- A raw descriptor: `fd n`, or a negative number.
pub data RawFd : Type 0 where
  fd : ℕ → RawFd
  negative : ℕ → RawFd

pub data ResourceHandle : Type 0 where
  fd_like : RawFd → ResourceHandle
  socket_like : RawFd → ResourceHandle

pub data ResourceError : Type 0 where
  reference bad_resource_id unavailable : ResourceError
  other : String → ResourceError

pub data Result (A : Type 0) : Type 0 where
  ok : A → Result A
  err : ResourceError → Result A

infixl 5 ◌>>=◌ ◌>>◌
abbrev pub ◌>>=◌ : {A B : Type 0} → Result A → (A → Result B) → Result B
ok a >>= f = f a
err e >>= f = err e

abbrev pub ◌>>◌ : {B : Type 0} → Result (Unit {0}) → Result B → Result B
m >> k = m >>= λ _. k

abbrev pub ok_or : {A : Type 0} → Option A → ResourceError → Result A
ok_or none e = err e
ok_or (some a) e = ok a

abbrev pub check : Bool → ResourceError → Result (Unit {0})
check true e = ok tt
check false e = err e

-- On unix.
unfoldable pub is_valid : ResourceHandle → Bool
is_valid (ResourceHandle.fd_like (RawFd.fd n)) = true
is_valid (ResourceHandle.fd_like (RawFd.negative n)) = false
is_valid (ResourceHandle.socket_like (RawFd.fd n)) = true
is_valid (ResourceHandle.socket_like (RawFd.negative n)) = false

unfoldable pub as_fd_like : ResourceHandle → Option RawFd
as_fd_like (ResourceHandle.fd_like f) = some f
as_fd_like (ResourceHandle.socket_like _) = none

unfoldable pub as_socket_like : ResourceHandle → Option RawFd
as_socket_like (ResourceHandle.fd_like _) = none
as_socket_like (ResourceHandle.socket_like s) = some s

pub record Resource : Type 0 where
  pub type_id : ℕ
  pub name : String
  pub backing_handle : Option ResourceHandle

pub record ResourceTable : Type 0 where
  pub index : List (ℕ × Resource)
  pub next_rid : ℕ

-- `Default::default`
unfoldable pub new_table : ResourceTable
new_table = record { index = []; next_rid = 0 }

unfoldable pub len : ResourceTable → ℕ
len t = length t.index

abbrev pub u32 : ℕ → ℕ
u32 n = n % 2 ^ 32

abbrev pub assert_none : {A B : Type 0} → Option A → B → Option B
assert_none none b = some b
assert_none (some _) b = none

-- `none` is the panic of the assertion that the id was free.
unfoldable pub add_rc_dyn : ResourceTable → Resource → Option (ResourceTable × ℕ)
add_rc_dyn t resource =
    let rid = t.next_rid in
    assert_none (lookup ℕ_discrete rid t.index)
      (record { index = insert ℕ_discrete rid resource t.index; next_rid = u32 (rid + 1) }, rid)

abbrev pub is_some : Option Resource → Bool
is_some none = false
is_some (some _) = true

unfoldable pub has : ResourceTable → ℕ → Bool
has t rid = is_some (lookup ℕ_discrete rid t.index)

-- `downcast_rc` to the type `ty`
abbrev pub downcast : ℕ → Option Resource → Option Resource
downcast ty none = none
downcast ty (some r) = if r.type_id == ty then some r else none

unfoldable pub get : ResourceTable → ℕ → ℕ → Result Resource
get t ty rid = ok_or (downcast ty (lookup ℕ_discrete rid t.index)) bad_resource_id

unfoldable pub get_any : ResourceTable → ℕ → Result Resource
get_any t rid = ok_or (lookup ℕ_discrete rid t.index) bad_resource_id

abbrev pub assert_some : {A B : Type 0} → Option A → B → Option B
assert_some none b = none
assert_some (some _) b = some b

-- `none` is the panic of the assertion that the id was in use.
unfoldable pub replace : ResourceTable → ℕ → Resource → Option ResourceTable
replace t rid resource =
    assert_some (lookup ℕ_discrete rid t.index)
      (record t { index = insert ℕ_discrete rid resource t.index })

unfoldable pub take : ResourceTable → ℕ → ℕ → Result (ResourceTable × Resource)
unfolding get
take t ty rid = do
  resource ← get t ty rid
  ok (record t { index = remove ℕ_discrete rid t.index }, resource)

unfoldable pub take_any : ResourceTable → ℕ → Result (ResourceTable × Resource)
take_any t rid = do
  resource ← ok_or (lookup ℕ_discrete rid t.index) bad_resource_id
  ok (record t { index = remove ℕ_discrete rid t.index }, resource)

-- The second part is the resource whose `close` is called.
unfoldable pub close : ResourceTable → ℕ → Result (ResourceTable × Resource)
unfolding take_any
close t rid = take_any t rid

unfoldable pub get_fd : ResourceTable → ℕ → Result RawFd
unfolding get_any as_fd_like is_valid
get_fd t rid = do
  resource ← get_any t rid
  handle ← ok_or resource.backing_handle bad_resource_id
  f ← ok_or (as_fd_like handle) bad_resource_id
  check (is_valid handle) reference
  ok f

unfoldable pub get_socket : ResourceTable → ℕ → Result RawFd
unfolding get_any as_socket_like is_valid
get_socket t rid = do
  resource ← get_any t rid
  handle ← ok_or resource.backing_handle bad_resource_id
  socket ← ok_or (as_socket_like handle) bad_resource_id
  check (is_valid handle) reference
  ok socket

unfoldable pub get_handle : ResourceTable → ℕ → Result ResourceHandle
unfolding get_any is_valid
get_handle t rid = do
  resource ← get_any t rid
  handle ← ok_or resource.backing_handle bad_resource_id
  check (is_valid handle) reference
  ok handle
