-- ===== src/Modules/RecursiveLoad/Referrer.antt =====
-- core/modules/recursive_load.rs: the position of an import in the source of the module that has it,
-- counted from 1. Code is its bytes; source maps and the parser of specifiers are arguments.
pub mod Position
use Prim.Native.String.{String}
use deno_core.Common.{
  ℕ, zero, suc, ◌+◌, ◌-◌, ◌%◌, ◌^◌, ◌≡◌, Bool, true, false, List, [], ◌∷◌, Option, none, some, ◌==◌,
  leb, if◌then◌else◌, ◌>>=◌, length, take,
}

pub data SourceMapApplication : Type 0 where
  unchanged : SourceMapApplication
  line_and_column : ℕ → ℕ → SourceMapApplication
  line_and_column_and_file_name : ℕ → ℕ → String → SourceMapApplication

pub record ModuleLoadReferrer : Type 0 where
  pub specifier : String
  pub line_number : ℕ
  pub column_number : ℕ

-- The indices of the newlines, from an index on.
abbrev pub newline_positions : ℕ → List ℕ → List ℕ
newline_positions i [] = []
newline_positions i (c ∷ code) =
    let rest = newline_positions (i + 1) code in if c == 10 then i ∷ rest else rest

-- `enumerate().last()`, numbering from a number on.
abbrev pub last_numbered : ℕ → List ℕ → Option (ℕ × ℕ)
last_numbered n [] = none
last_numbered n (i ∷ []) = some (n, i)
last_numbered n (i ∷ j ∷ is) = last_numbered (n + 1) (j ∷ is)

-- `as u32` and the sums of `u32`.
abbrev pub as_u32 : ℕ → ℕ
as_u32 n = n % 2 ^ 32

-- A newline that is found is before the offset, so the difference is not negative.
abbrev pub line_and_column_of : ℕ → Option (ℕ × ℕ) → ℕ × ℕ
line_and_column_of source_offset none = (1, as_u32 (as_u32 source_offset + 1))
line_and_column_of source_offset (some (n, i)) =
    (as_u32 (as_u32 n + 2), as_u32 source_offset - as_u32 i)

abbrev pub mapped :
    (String → Option String) → String → ℕ × ℕ → SourceMapApplication → Option ModuleLoadReferrer
mapped parse referrer (line, column) unchanged =
    some (record { specifier = referrer; line_number = line; column_number = column })
mapped parse referrer position (line_and_column line column) =
    some (record { specifier = referrer; line_number = line; column_number = column })
mapped parse referrer position (line_and_column_and_file_name line column file_name) =
    parse file_name >>= λ specifier.
    some (record { specifier = specifier; line_number = line; column_number = column })

unfoldable pub source_mapped_module_load_referrer :
    (String → ℕ → ℕ → SourceMapApplication)
    → (String → Option String)
    → String
    → List ℕ
    → ℕ
    → Option ModuleLoadReferrer
source_mapped_module_load_referrer apply_source_map parse referrer code source_offset =
    let position =
      line_and_column_of source_offset
        (last_numbered 0 (newline_positions 0 (take source_offset code))) in
    if leb source_offset (length code)
    then mapped parse referrer position (apply_source_map referrer position.0 position.1)
    else none
