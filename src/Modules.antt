-- ===== src/Modules.antt =====
-- core/modules/mod.rs: the kinds of modules, and what a load asks for and brings. Texts are native
-- strings, which the code only compares; specifiers are texts too.
pub mod NameTypeMap
pub mod MapData
pub mod RecursiveLoad
use Prim.Native.String.{String}
use mathlib.Core.Option.{Option}
use mathlib.Core.List.{List}
use deno_core.Common.{ℕ, String-discrete, Bool}

pub data ModuleType : Type 0 where
  java_script wasm json text bytes : ModuleType
  other : String → ModuleType

pub data RequestedModuleType : Type 0 where
  none json text bytes : RequestedModuleType
  other : String → RequestedModuleType

unfoldable pub RequestedModuleType-discrete : Discrete RequestedModuleType
RequestedModuleType-discrete = hlevel String-discrete

-- `RequestedModuleType::from`
unfoldable pub requested_from : ModuleType → RequestedModuleType
requested_from ModuleType.java_script = RequestedModuleType.none
requested_from ModuleType.wasm = RequestedModuleType.none
requested_from ModuleType.json = RequestedModuleType.json
requested_from ModuleType.text = RequestedModuleType.text
requested_from ModuleType.bytes = RequestedModuleType.bytes
requested_from (ModuleType.other ty) = RequestedModuleType.other ty

pub record ModuleReference : Type 0 where
  pub specifier : String
  pub requested_module_type : RequestedModuleType

pub data ModuleImportPhase : Type 0 where
  evaluation source defer : ModuleImportPhase

pub record ModuleRequest : Type 0 where
  pub reference : ModuleReference
  pub specifier_key : Option String
  pub referrer_source_offset : Option ℕ
  pub phase : ModuleImportPhase

pub record ModuleInfo : Type 0 where
  pub id : ℕ
  pub main : Bool
  pub name : String
  pub requests : List ModuleRequest
  pub module_type : ModuleType
