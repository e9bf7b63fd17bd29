-- ===== src/Modules/RecursiveLoad/FirstPoll.antt =====
-- core/modules/recursive_load.rs: the first poll of a load, which starts it and polls it again.
use Prim.Native.String.{String}
use deno_core.Common.{List, Option}
use deno_core.Modules.{ModuleRequest}
use deno_core.Modules.RecursiveLoad.{LoadState, done, RecursiveModuleLoad}
use deno_core.Modules.RecursiveLoad.Poll.{end, with_alias, Polled, waits, ready}

abbrev pub first_answer : LoadState → Polled
first_answer done = ready end
first_answer state = waits

-- The load when a future has returned the source of a request, and what is pending after it.
abbrev pub after_source :
    RecursiveModuleLoad → List ModuleRequest → Option String → RecursiveModuleLoad
after_source load rest url = with_alias url (record load { pending = rest })
