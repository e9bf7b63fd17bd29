-- ===== src/Extensions/Sources/Laws.antt =====
-- core/extension_set.rs: which sources are loaded, in which order.
use Prim.Native.String.{String}
use mathlib.Core.List.{append_assoc, append-nil}
use deno_core.Common.{
  ◌≡◌, refl, ap, ap₂, ◌∙◌, ◌⊎◌, inl, inr, true, false, List, [], ◌∷◌, ◌++◌, map, Option, none, some,
  length, drop, drop_nil,
}
use deno_core.Extensions.{Extension, ExtensionFileSource, same_name}
use deno_core.Extensions.Sources.{
  ExtensionSourceType, lazy_esm, js, esm, snapshot_mismatch, LoadedSource, LoadedSources, and_then,
  no_sources, entry_points, load, load_files, load_extension, load_all, or_empty, into_sources,
}

abbrev pub all_entry_points : {State : Type 0} → List (Extension State) → List String
all_entry_points [] = []
all_entry_points (ext ∷ exts) = entry_points ext.esm_entry_point ++ all_entry_points exts

-- The extensions that the snapshot has are the first ones, by name.
abbrev pub Agree : {State : Type 0} → List (Extension State) → List String → Type 0
Agree [] names = Unit
Agree (ext ∷ exts) [] = Unit
Agree (ext ∷ exts) (name ∷ names) = (same_name ext.name name ≡ true) × Agree exts names

-- The first name that differs, and the name of the extension in its place.
abbrev pub Mismatch :
    {State : Type 0} → List (Extension State) → List String → String → String → Type 0
Mismatch [] names expected actual = ⊥
Mismatch (ext ∷ exts) [] expected actual = ⊥
Mismatch (ext ∷ exts) (name ∷ names) expected actual =
    ((same_name ext.name name ≡ false) × (name ≡ expected) × (ext.name ≡ actual))
    ⊎ ((same_name ext.name name ≡ true) × Mismatch exts names expected actual)

module _ {Code SourceMap : Type 0} (content : ExtensionFileSource → Code × Option SourceMap) where
  abbrev pub source_of : ExtensionSourceType → ExtensionFileSource → LoadedSource Code SourceMap
  source_of kind file = record {
    source_type = kind;
    specifier = file.specifier;
    code = (content file).0;
    maybe_source_map = (content file).1;
  }

  -- The files of all extensions, in their order.
  abbrev pub all_lazy :
      {State : Type 0} → List (Extension State) → List (LoadedSource Code SourceMap)
  all_lazy [] = []
  all_lazy (ext ∷ exts) = map (source_of lazy_esm) ext.lazy_loaded_esm_files ++ all_lazy exts

  abbrev pub all_js : {State : Type 0} → List (Extension State) → List (LoadedSource Code SourceMap)
  all_js [] = []
  all_js (ext ∷ exts) = map (source_of js) ext.js_files ++ all_js exts

  abbrev pub all_esm :
      {State : Type 0} → List (Extension State) → List (LoadedSource Code SourceMap)
  all_esm [] = []
  all_esm (ext ∷ exts) = map (source_of esm) ext.esm_files ++ all_esm exts

module _ {E Code SourceMap : Type 0} (read : ExtensionFileSource → E ⊎ Code)
    (transpiler : Option (String → Code → E ⊎ (Code × Option SourceMap)))
    (content : ExtensionFileSource → Code × Option SourceMap)
    (loads : (file : ExtensionFileSource) → load read transpiler file ≡ inr (content file)) where
  load_files_lem :
      (kind : ExtensionSourceType) (files : List ExtensionFileSource)
      → load_files read transpiler kind files ≡ inr (map (source_of content kind) files)
  load_files_lem kind [] = refl
  load_files_lem kind (file ∷ files) =
      ap
        (λ r. and_then r (λ (code, source_map).
          and_then (load_files read transpiler kind files) (λ rest. inr (
            record {
              source_type = kind;
              specifier = file.specifier;
              code = code;
              maybe_source_map = source_map;
            }
            ∷ rest))))
        (loads file)
      ∙ ap (λ r. and_then r (λ rest. inr (source_of content kind file ∷ rest)))
          (load_files_lem kind files)

  module _ {State : Type 0} where
    -- The sources with those of one extension after them.
    abbrev with_lazy : Extension State → LoadedSources Code SourceMap → LoadedSources Code SourceMap
    with_lazy ext sources = record sources {
      lazy_esm_sources =
          sources.lazy_esm_sources ++ map (source_of content lazy_esm) ext.lazy_loaded_esm_files;
    }

    abbrev with_others :
        Extension State → LoadedSources Code SourceMap → LoadedSources Code SourceMap
    with_others ext sources = record sources {
      js_sources = sources.js_sources ++ map (source_of content js) ext.js_files;
      esm_sources = sources.esm_sources ++ map (source_of content esm) ext.esm_files;
      esm_entry_points = sources.esm_entry_points ++ entry_points ext.esm_entry_point;
    }

    load_extension_new :
        (ext : Extension State) (sources : LoadedSources Code SourceMap)
        → load_extension read transpiler ext none sources
          ≡ inr (with_others ext (with_lazy ext sources))
    load_extension_new ext sources = simp (
      load_files_lem lazy_esm ext.lazy_loaded_esm_files,
      load_files_lem js ext.js_files,
      load_files_lem esm ext.esm_files,
    )

    load_extension_old :
        (ext : Extension State) (name : String) (sources : LoadedSources Code SourceMap)
        → same_name ext.name name ≡ true
        → load_extension read transpiler ext (some name) sources ≡ inr (with_lazy ext sources)
    load_extension_old ext name sources same =
        simp (load_files_lem lazy_esm ext.lazy_loaded_esm_files, same)

    load_extension_wrong :
        (ext : Extension State) (name : String) (sources : LoadedSources Code SourceMap)
        → same_name ext.name name ≡ false
        → load_extension read transpiler ext (some name) sources
          ≡ inl (snapshot_mismatch name ext.name)
    load_extension_wrong ext name sources differs =
        simp (load_files_lem lazy_esm ext.lazy_loaded_esm_files, differs)

    -- What is loaded: the lazy files of all extensions, the rest of those that the snapshot lacks.
    abbrev pub loaded_after :
        LoadedSources Code SourceMap
        → List (Extension State)
        → List (Extension State)
        → LoadedSources Code SourceMap
    loaded_after sources exts fresh = record {
      js_sources = sources.js_sources ++ all_js content fresh;
      esm_sources = sources.esm_sources ++ all_esm content fresh;
      lazy_esm_sources = sources.lazy_esm_sources ++ all_lazy content exts;
      esm_entry_points = sources.esm_entry_points ++ all_entry_points fresh;
    }

    load_all_lem :
        (exts : List (Extension State)) (names : List String)
        (sources : LoadedSources Code SourceMap)
        → Agree exts names
        → load_all read transpiler exts names sources
          ≡ inr (loaded_after sources exts (drop (length names) exts))
    load_all_lem [] names sources agree = simp (
      drop_nil (length names) (the_nil) refl,
      append-nil sources.js_sources,
      append-nil sources.esm_sources,
      append-nil sources.lazy_esm_sources,
      append-nil sources.esm_entry_points,
    )
      where
        the_nil : List (Extension State)
        the_nil = []
    load_all_lem (ext ∷ exts) [] sources agree =
        ap (λ r. and_then r (load_all read transpiler exts [])) (load_extension_new ext sources)
        ∙ load_all_lem exts [] (with_others ext (with_lazy ext sources)) agree_rest
        ∙ simp (append_assoc)
      where
        agree_rest : Agree exts []
        agree_rest = elim exts as (λ es. Agree es []) [ [] ↦ tt | (e ∷ es) ↦ tt ]
    load_all_lem (ext ∷ exts) (name ∷ names) sources (same, agree) =
        ap (λ r. and_then r (load_all read transpiler exts names))
          (load_extension_old ext name sources same)
        ∙ load_all_lem exts names (with_lazy ext sources) agree
        ∙ simp (append_assoc)

    -- When all files load and the names in the snapshot are those of the first extensions, the
    -- sources are the lazy files of all extensions, and the scripts, modules and entry points of
    -- the extensions after those of the snapshot, each in the order of the extensions and of
    -- their files.
    pub into_sources_lem :
        (exts : List (Extension State)) (in_snapshot : Option (List String))
        → Agree exts (or_empty in_snapshot)
        → into_sources read transpiler exts in_snapshot
          ≡ inr (record {
            js_sources = all_js content (drop (length (or_empty in_snapshot)) exts);
            esm_sources = all_esm content (drop (length (or_empty in_snapshot)) exts);
            lazy_esm_sources = all_lazy content exts;
            esm_entry_points = all_entry_points (drop (length (or_empty in_snapshot)) exts);
          })
    unfolding into_sources
    into_sources_lem exts in_snapshot agree =
        load_all_lem exts (or_empty in_snapshot) no_sources agree

    load_all-Mismatch :
        (exts : List (Extension State)) (names : List String)
        (sources : LoadedSources Code SourceMap) (expected actual : String)
        → Mismatch exts names expected actual
        → load_all read transpiler exts names sources ≡ inl (snapshot_mismatch expected actual)
    load_all-Mismatch [] names sources expected actual m = absurd m
    load_all-Mismatch (ext ∷ exts) [] sources expected actual m = absurd m
    load_all-Mismatch (ext ∷ exts) (name ∷ names) sources expected actual (inl (differs, e1, e2)) =
        ap (λ r. and_then r (load_all read transpiler exts names))
          (load_extension_wrong ext name sources differs)
        ∙ ap₂ (λ n a. inl (snapshot_mismatch n a)) e1 e2
    load_all-Mismatch (ext ∷ exts) (name ∷ names) sources expected actual (inr (same, m)) =
        ap (λ r. and_then r (load_all read transpiler exts names))
          (load_extension_old ext name sources same)
        ∙ load_all-Mismatch exts names (with_lazy ext sources) expected actual m

    -- When all files load and some name in the snapshot differs from that of the extension in
    -- its place, the result is the mismatch error with the first such name and the name of the
    -- extension.
    pub into_sources-Mismatch :
        (exts : List (Extension State)) (names : List String) (expected actual : String)
        → Mismatch exts names expected actual
        → into_sources read transpiler exts (some names) ≡ inl (snapshot_mismatch expected actual)
    unfolding into_sources
    into_sources-Mismatch exts names expected actual m =
        load_all-Mismatch exts names no_sources expected actual m
