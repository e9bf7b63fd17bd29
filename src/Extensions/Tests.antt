-- ===== src/Extensions/Tests.antt =====
-- Two extensions, the second of which needs the first and is disabled.
use Prim.Native.String.{String}
use deno_core.Common.{
  ℕ, ◌≡◌, refl, ◌⊎◌, inl, inr, Bool, true, false, List, [], ◌∷◌, ◌++◌, map, Option, none, some,
  drop, String-discrete,
}
use deno_core.Ops.{OpDecl, no_accessor}
use deno_core.Extensions.{Extension, ExtensionFileSource, init_ops, check_no_duplicate_op_names}
use deno_core.Extensions.Names.{check_names_lem}
use deno_core.Extensions.Ops.{
  AllMet, UniqueNames, declared, through, under_own_name, all_objects, init_ops_lem,
  init_ops_returns,
}
use deno_core.Extensions.Sources.{load, into_sources}
use deno_core.Extensions.Sources.Laws.{
  all_js, all_esm, all_lazy, all_entry_points, Agree, Mismatch, into_sources_lem,
}

abbrev decl_named : String → OpDecl
decl_named name = record {
  name = name;
  name_fast = name;
  is_async = false;
  accessor_type = no_accessor;
  slow_fn = 1;
  slow_fn_with_metrics = 2;
  fast_fn = some 3;
  fast_fn_with_metrics = none;
}

abbrev file_named : String → ExtensionFileSource
file_named name = record { specifier = name; code = 1 }

abbrev extension_named : String → List String → List OpDecl → Bool → Extension Unit
extension_named name deps ops enabled = record {
  name = name;
  deps = deps;
  js_files = [];
  esm_files = file_named "ext:a.js" ∷ [];
  lazy_loaded_esm_files = file_named "ext:lazy.js" ∷ [];
  esm_entry_point = some "ext:a.js";
  ops = ops;
  objects = [];
  op_state_fn = none;
  needs_lazy_init = false;
  middleware_fn = some (λ d. record d { name = "renamed" });
  enabled = enabled;
}

abbrev two_extensions : List (Extension Unit)
two_extensions =
    extension_named "web" [] (decl_named "op_now" ∷ []) true
    ∷ extension_named "net" ("web" ∷ []) (decl_named "op_read" ∷ []) false
    ∷ []

abbrev two_core : List OpDecl
two_core = decl_named "op_core" ∷ []

two_extensions-AllMet : AllMet [] two_extensions
unfolding String-discrete
two_extensions-AllMet = (tt, ((refl, refl, tt), tt))

no_duplicates : check_no_duplicate_op_names (two_core ++ declared two_extensions) ≡ some tt
unfolding check_no_duplicate_op_names String-discrete
no_duplicates = refl

two_extensions-UniqueNames : UniqueNames two_core two_extensions
two_extensions-UniqueNames = (check_names_lem (two_core ++ declared two_extensions)).0 no_duplicates

init_ops_lem_example :
    init_ops two_core two_extensions
    ≡ some (
      map (under_own_name (through two_extensions)) (two_core ++ declared two_extensions),
      all_objects two_extensions,
      map (λ (ext : Extension Unit). record ext { middleware_fn = none }) two_extensions,
    )
init_ops_lem_example =
    init_ops_lem two_core two_extensions two_extensions-AllMet two_extensions-UniqueNames

init_ops_returns_example : AllMet [] two_extensions × UniqueNames two_core two_extensions
init_ops_returns_example =
    init_ops_returns two_core two_extensions
      (
        map (under_own_name (through two_extensions)) (two_core ++ declared two_extensions),
        all_objects two_extensions,
        map (λ (ext : Extension Unit). record ext { middleware_fn = none }) two_extensions,
      )
      init_ops_lem_example

abbrev read_code : ExtensionFileSource → String ⊎ ℕ
read_code file = inr file.code

abbrev content : ExtensionFileSource → ℕ × Option String
content file = (file.code, none)

loads : (file : ExtensionFileSource) → load read_code none file ≡ inr (content file)
unfolding load
loads file = refl

web_agrees : Agree two_extensions ("web" ∷ [])
unfolding String-discrete
web_agrees = (refl, tt)

io_differs : Mismatch two_extensions ("web" ∷ "io" ∷ []) "io" "net"
unfolding String-discrete
io_differs = inr (refl, inl (refl, refl, refl))

into_sources_lem_example :
    into_sources read_code none two_extensions (some ("web" ∷ []))
    ≡ inr (record {
      js_sources = all_js content (drop 1 two_extensions);
      esm_sources = all_esm content (drop 1 two_extensions);
      lazy_esm_sources = all_lazy content two_extensions;
      esm_entry_points = all_entry_points (drop 1 two_extensions);
    })
into_sources_lem_example =
    into_sources_lem read_code none content loads two_extensions (some ("web" ∷ [])) web_agrees
