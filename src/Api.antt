-- ===== src/Api.antt =====
-- irida-api/include/irida/irida.h: the structures of the C interface. A `const char*` is the text
-- that it points to, and `none` where it may be null.
pub mod Dispatch
pub mod Calls
pub mod Views
pub mod Static
pub mod Core
mod Tests
use irida.Common.{Bool, List, Option, Text, [], length, ℕ, ◌∷◌}
use irida.Base.{Bytes}

pub record Register : Type 0 where
  pub name : Text
  pub value : ℕ
  pub hint : Option Text

pub record Module : Type 0 where
  pub name : Text
  pub base : ℕ
  pub size : ℕ

pub record MemMap : Type 0 where
  pub start : ℕ
  pub end : ℕ
  pub perms : ℕ
  pub name : Text

pub record Thread : Type 0 where
  pub tid : ℕ
  pub pc : ℕ
  pub current : ℕ

pub record InsnRow : Type 0 where
  pub address : ℕ
  pub text : Text
  pub annotation : Option Text
  pub bytes : Text

pub record Frame : Type 0 where
  pub pc : ℕ
  pub frame_ptr : ℕ

pub record Section : Type 0 where
  pub name : Text
  pub vaddr : ℕ
  pub vsize : ℕ
  pub perms : ℕ

pub record Import : Type 0 where
  pub name : Text
  pub library : Text
  pub addr : ℕ

pub record Export : Type 0 where
  pub name : Text
  pub addr : ℕ
  pub ordinal : ℕ

pub record Symbol : Type 0 where
  pub name : Text
  pub addr : ℕ
  pub kind : Text

pub record String : Type 0 where
  pub addr : ℕ
  pub text : Text

pub record Function : Type 0 where
  pub addr : ℕ
  pub size : ℕ
  pub name : Text
  pub block_count : ℕ

pub record BasicBlock : Type 0 where
  pub addr : ℕ
  pub size : ℕ
  pub jump : ℕ
  pub fail : ℕ

pub record Xref : Type 0 where
  pub from : ℕ
  pub to : ℕ
  pub kind : ℕ

pub data RunState : Type 0 where
  stopped running : RunState

pub data BpType : Type 0 where
  software hardware : BpType

pub record Breakpoint : Type 0 where
  pub address : ℕ
  pub enabled : ℕ
  pub type : BpType

-- What a call leaves in `*out`: nothing, a null pointer, or a pointer to an array of rows.
pub data Out (R : Type 0) : Type 0 where
  untouched null : Out R
  points_to : List R → Out R

-- The count that a call returns, and its `*out`.
abbrev pub Listing : Type 0 → Type 0
Listing R = ℕ × Out R

-- `*out = rows.empty() ? nullptr : rows.data(); return rows.size();`
unfoldable pub listing : {R : Type 0} → List R → Listing R
listing [] = (0, null)
listing (r ∷ rows) = (length (r ∷ rows), points_to (r ∷ rows))

abbrev pub no_rows : {R : Type 0} → Listing R
no_rows = (0, null)

-- The vtable over the type behind `ctx`; a member that is null is `none`. An analysis that does not
-- end has no result.
pub record BackendVTable (C : Type 0) : Type 0 where
  pub registers : Option (C → Listing Register × C)
  pub modules : Option (C → Listing Module × C)
  pub maps : Option (C → Listing MemMap × C)
  pub threads : Option (C → Listing Thread × C)
  pub disasm : Option (ℕ → ℕ → C → Listing InsnRow × C)
  pub run_state : Option (C → RunState)
  pub pc : Option (C → ℕ)
  pub state_epoch : Option (C → ℕ)
  pub step_into : Option (C → C)
  pub step_over : Option (C → C)
  pub step_out : Option (C → C)
  pub cont : Option (C → C)
  pub brk : Option (C → C)
  pub restart : Option (C → C)
  pub stop : Option (C → C)
  pub read_memory : Option (ℕ → ℕ → C → Bytes × C)
  pub breakpoints : Option (C → Listing Breakpoint × C)
  pub bp_toggle : Option (ℕ → C → C)
  pub bp_set_enabled : Option (ℕ → Bool → C → C)
  pub backtrace : Option (C → Listing Frame × C)
  pub sections : Option (C → Listing Section × C)
  pub imports : Option (C → Listing Import × C)
  pub get_exports : Option (C → Listing Export × C)
  pub symbols : Option (C → Listing Symbol × C)
  pub strings : Option (C → Listing String × C)
  pub analyze : Option (C → Option C)
  pub functions : Option (C → Listing Function × C)
  pub function_blocks : Option (ℕ → C → Listing BasicBlock × C)
  pub xrefs_to : Option (ℕ → C → Listing Xref × C)

pub record Session (C : Type 0) : Type 0 where
  pub vt : BackendVTable C
  pub ctx : C
