-- ===== src/Extensions/Sources.antt =====
-- core/extension_set.rs: `into_sources_and_source_maps`. Reading a file and the transpiler are not
-- part of the code; neither is the callback, which only observes the files that are loaded.
pub mod Laws
use Prim.Native.String.{String}
use deno_core.Common.{
  ◌≡◌, ◌⊎◌, inl, inr, Bool, true, false, not, List, [], ◌∷◌, ◌++◌, Option, none, some,
  if◌then◌else◌,
}
use deno_core.Extensions.{Extension, ExtensionFileSource, same_name}

pub data ExtensionSourceType : Type 0 where
  lazy_esm js esm : ExtensionSourceType

pub data SourceError (E : Type 0) : Type 0 where
  load_failed transpiler_failed : E → SourceError E
  snapshot_mismatch : String → String → SourceError E

pub record LoadedSource (Code SourceMap : Type 0) : Type 0 where
  pub source_type : ExtensionSourceType
  pub specifier : String
  pub code : Code
  pub maybe_source_map : Option SourceMap

pub record LoadedSources (Code SourceMap : Type 0) : Type 0 where
  pub js_sources : List (LoadedSource Code SourceMap)
  pub esm_sources : List (LoadedSource Code SourceMap)
  pub lazy_esm_sources : List (LoadedSource Code SourceMap)
  pub esm_entry_points : List String

-- The operator `?`.
abbrev pub and_then :
    {E A B : Type 0} → SourceError E ⊎ A → (A → SourceError E ⊎ B) → SourceError E ⊎ B
and_then (inl e) f = inl e
and_then (inr a) f = f a

abbrev pub map_err : {E A : Type 0} → (E → SourceError E) → E ⊎ A → SourceError E ⊎ A
map_err f (inl e) = inl (f e)
map_err f (inr a) = inr a

abbrev pub no_sources : {Code SourceMap : Type 0} → LoadedSources Code SourceMap
no_sources = record {
  js_sources = [];
  esm_sources = [];
  lazy_esm_sources = [];
  esm_entry_points = [];
}

abbrev pub entry_points : Option String → List String
entry_points none = []
entry_points (some e) = e ∷ []

abbrev pub or_empty : Option (List String) → List String
or_empty none = []
or_empty (some names) = names

abbrev pub transpile :
    {E Code SourceMap : Type 0}
    → Option (String → Code → E ⊎ (Code × Option SourceMap))
    → String
    → Code
    → SourceError E ⊎ (Code × Option SourceMap)
transpile none specifier code = inr (code, none)
transpile (some t) specifier code = map_err transpiler_failed (t specifier code)

module _ {E Code SourceMap : Type 0} (read : ExtensionFileSource → E ⊎ Code)
    (transpiler : Option (String → Code → E ⊎ (Code × Option SourceMap))) where
  unfoldable pub load : ExtensionFileSource → SourceError E ⊎ (Code × Option SourceMap)
  load source = and_then (map_err load_failed (read source)) (transpile transpiler source.specifier)

  -- The loop over the files of one kind.
  abbrev pub load_files :
      ExtensionSourceType
      → List ExtensionFileSource
      → SourceError E ⊎ List (LoadedSource Code SourceMap)
  load_files kind [] = inr []
  load_files kind (file ∷ files) = and_then (load file) (λ (code, source_map).
      and_then (load_files kind files) (λ rest. inr (
        record {
          source_type = kind;
          specifier = file.specifier;
          code = code;
          maybe_source_map = source_map;
        }
        ∷ rest)))

  -- The sources of an extension that is not in the snapshot.
  abbrev pub load_sources :
      {State : Type 0}
      → Extension State
      → LoadedSources Code SourceMap
      → SourceError E ⊎ LoadedSources Code SourceMap
  load_sources ext sources = and_then (load_files js ext.js_files) (λ js_files.
      and_then (load_files esm ext.esm_files) (λ esm_files. inr (record sources {
        js_sources = sources.js_sources ++ js_files;
        esm_sources = sources.esm_sources ++ esm_files;
        esm_entry_points = sources.esm_entry_points ++ entry_points ext.esm_entry_point;
      })))

  abbrev pub load_rest :
      {State : Type 0}
      → Extension State
      → Option String
      → LoadedSources Code SourceMap
      → SourceError E ⊎ LoadedSources Code SourceMap
  load_rest ext none sources = load_sources ext sources
  load_rest ext (some name) sources =
      if not (same_name ext.name name) then inl (snapshot_mismatch name ext.name) else inr sources

  abbrev pub load_extension :
      {State : Type 0}
      → Extension State
      → Option String
      → LoadedSources Code SourceMap
      → SourceError E ⊎ LoadedSources Code SourceMap
  load_extension ext in_snapshot sources =
      and_then (load_files lazy_esm ext.lazy_loaded_esm_files) (λ files.
        load_rest ext in_snapshot
          (record sources { lazy_esm_sources = sources.lazy_esm_sources ++ files }))

  -- The loop over the extensions with the names in the snapshot.
  abbrev pub load_all :
      {State : Type 0}
      → List (Extension State)
      → List String
      → LoadedSources Code SourceMap
      → SourceError E ⊎ LoadedSources Code SourceMap
  load_all [] names sources = inr sources
  load_all (ext ∷ exts) [] sources = and_then (load_extension ext none sources) (load_all exts [])
  load_all (ext ∷ exts) (name ∷ names) sources =
      and_then (load_extension ext (some name) sources) (load_all exts names)

  unfoldable pub into_sources :
      {State : Type 0}
      → List (Extension State)
      → Option (List String)
      → SourceError E ⊎ LoadedSources Code SourceMap
  into_sources extensions extensions_in_snapshot =
      load_all extensions (or_empty extensions_in_snapshot) no_sources
