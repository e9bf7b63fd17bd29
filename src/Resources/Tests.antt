-- ===== src/Resources/Tests.antt =====
-- Runs of core/io/resource_table.rs, and the theorems at concrete inputs.
use native.Mathlib.Decide.{ℕ_discrete}
use deno_core.Common.{
  ℕ, ◌+◌, ◌≡◌, ◌≢◌, ◌↔◌, refl, true, false, [], ◌∷◌, none, some, arith, ◌==◌, if◌then◌else◌,
}
use deno_core.Resources.{
  Resource, ResourceTable, RawFd, ResourceHandle, bad_resource_id, ok, err, len, add_rc_dyn, has,
  get, get_any, take, get_fd, get_socket, get_handle,
}
use deno_core.Resources.Table.{Inv, add_rc_dyn_lem, add_rc_dyn_panics, take_refused, get_handle_lem}

abbrev file : Resource
file = record {
  type_id = 5;
  name = "file";
  backing_handle = some (ResourceHandle.fd_like (RawFd.fd 3));
}

abbrev one_file : ResourceTable
one_file = record { index = (0, file) ∷ []; next_rid = 1 }

one_file-Inv : Inv one_file
one_file-Inv = record { fresh = λ rid r e. ground arith; distinct = (refl, tt) }

-- A table whose counter has wrapped around to an id in use.
abbrev wrapped : ResourceTable
wrapped = record { index = (0, file) ∷ []; next_rid = 0 }

add_rc_dyn_lem_example :
    (t' : ResourceTable) × (add_rc_dyn one_file file ≡ some (t', 1))
    × Inv t'
    × (has one_file 1 ≡ false)
    × (len t' ≡ len one_file + 1)
    × (t'.next_rid ≡ 1 + 1)
    × ((rid : ℕ) → get_any t' rid ≡ (if rid == 1 then ok file else get_any one_file rid))
add_rc_dyn_lem_example = add_rc_dyn_lem one_file file one_file-Inv (omega arith)

add_rc_dyn_panics_example : (add_rc_dyn wrapped file ≡ none) ↔ (has wrapped 0 ≡ true)
add_rc_dyn_panics_example = add_rc_dyn_panics wrapped file

not_six : (r : Resource) → get_any one_file 0 ≡ ok r → r.type_id ≢ 6
unfolding get_any ℕ_discrete
not_six r e = ground arith

take_refused_example :
    (take one_file 6 0 ≡ err bad_resource_id) × (get one_file 6 0 ≡ err bad_resource_id)
take_refused_example = take_refused one_file 6 0 not_six

get_handle_lem_example :
    ((get_fd one_file 0 ≡ ok (RawFd.fd 3))
      ↔ (get_handle one_file 0 ≡ ok (ResourceHandle.fd_like (RawFd.fd 3))))
    × ((get_socket one_file 0 ≡ ok (RawFd.fd 3))
        ↔ (get_handle one_file 0 ≡ ok (ResourceHandle.socket_like (RawFd.fd 3))))
get_handle_lem_example = get_handle_lem one_file 0 (RawFd.fd 3)
