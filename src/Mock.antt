-- ===== src/Mock.antt =====
-- irida-ui/mock/src/mock_backend.cpp: a scripted stand-in behind the C interface. The state is the
-- static object that every session of the mock shares.
pub mod Listings
pub mod Breakpoints
pub mod Vtable
mod Tests
use irida.Common.{
  Bool, List, Option, Text, [], codes, drop, false, get_elem?, get_or, if◌then◌else◌, ltb, map,
  none, not, set, some, suc, take, true, zero, ℕ, ◌%◌, ◌&&◌, ◌*◌, ◌++◌, ◌+◌, ◌-◌, ◌==◌, ◌^◌, ◌∷◌,
}
use irida.Common as Common
use irida.Base.{Bytes}
use irida.Api.{Breakpoint, RunState, stopped, software}

pub record Insn : Type 0 where
  pub address : ℕ
  pub length : ℕ
  pub bytes : Text
  pub text : Text
  pub annotation : Option Text
  pub is_call : Bool

abbrev pub row : ℕ → ℕ → Text → Text → Option Text → Bool → Insn
row address length bytes text annotation is_call = record {
  address = address;
  length = length;
  bytes = bytes;
  text = text;
  annotation = annotation;
  is_call = is_call;
}

-- `kStream`
abbrev pub stream : List Insn
stream =
    row 0x7FF751FA2440 4 (codes "48 8B 48 08") (codes "mov rcx, [rax+8]")
      (some (codes "\"C:\\Windows\\System32\\ntdll.dll\"")) false
    ∷ row 0x7FF751FA2444 7 (codes "48 8D 15 1C 2F 00 00") (codes "lea rdx, [rip+0x2f1c]")
        (some (codes "kernel32.dll+0x1a20 (CreateFileW)")) false
    ∷ row 0x7FF751FA244B 2 (codes "31 C0") (codes "xor eax, eax") none false
    ∷ row 0x7FF751FA244D 2 (codes "FF D2") (codes "call rdx") none true
    ∷ row 0x7FF751FA244F 5 (codes "E8 AC 00 00 00") (codes "call 0x7ff751fa2500") none true
    ∷ row 0x7FF751FA2454 3 (codes "48 83 C4 28") (codes "add rsp, 0x28") none false
    ∷ row 0x7FF751FA2457 2 (codes "75 07") (codes "jne 0x7ff751fa2460") none false
    ∷ row 0x7FF751FA2459 1 (codes "C3") (codes "ret") none false
    ∷ []

abbrev pub stream_len : ℕ
stream_len = 8

abbrev pub first_address : ℕ
first_address = 0x7FF751FA2440

-- The address of an instruction of the stream; past its end the first stands in.
abbrev pub stream_address : ℕ → ℕ
stream_address i = elim (get_elem? stream i) [ none ↦ first_address | some insn ↦ insn.address ]

abbrev pub stream_is_call : ℕ → Bool
stream_is_call i = elim (get_elem? stream i) [ none ↦ false | some insn ↦ insn.is_call ]

-- The registers in the order of `Reg`.
abbrev pub reg_names : List Text
reg_names =
    map codes
      ("rax" ∷ "rbx" ∷ "rcx" ∷ "rdx" ∷ "rsp" ∷ "rbp" ∷ "rsi" ∷ "rdi" ∷ "r8" ∷ "r9" ∷ "r15" ∷ [])

abbrev pub rax : ℕ
rax = 0

abbrev pub rcx : ℕ
rcx = 2

abbrev pub rbp : ℕ
rbp = 5

-- `reset_regs`
abbrev pub reset_regs : List ℕ
reset_regs = 0x7ff6abcd0000 ∷ 0 ∷ 0x10 ∷ 0 ∷ 0x14fe00 ∷ 0x14ff00 ∷ 0 ∷ 0 ∷ 0 ∷ 0 ∷ 0 ∷ []

pub record MockState : Type 0 where
  pub pc : ℕ
  pub epoch : ℕ
  pub run_state : RunState
  pub ip_index : ℕ
  pub regs : List ℕ
  pub bps : List Breakpoint
  pub mem : Bytes

-- The loop that fills the memory, from the position `i` on.
unfoldable pub fill : ℕ → ℕ → Bytes
fill i zero = []
fill i (suc left) = (i * 7 + 0x41) % 256 ∷ fill (i + 1) left

abbrev pub mem_size : ℕ
mem_size = 0x400

-- The text that is planted over it.
unfoldable pub initial_mem : Bytes
initial_mem =
    take 0x20 (fill 0 mem_size) ++ (codes "ntdll.dll" ++ drop (0x20 + 9) (fill 0 mem_size))

-- `MockState()`
unfoldable pub initial_state : MockState
initial_state = record {
  pc = first_address;
  epoch = 1;
  run_state = stopped;
  ip_index = 0;
  regs = reset_regs;
  bps = [];
  mem = initial_mem;
}

-- The index of the first instruction at the address.
unfoldable pub index_of : ℕ → ℕ → List Insn → Option ℕ
index_of addr i [] = none
index_of addr i (insn ∷ insns) =
    let rest = index_of addr (i + 1) insns in if insn.address == addr then some i else rest

-- An address that is not in the stream leaves the index as it was.
unfoldable pub find_index : MockState → MockState
find_index s = elim (index_of s.pc 0 stream) [ none ↦ s | some i ↦ record s { ip_index = i } ]

abbrev pub next_epoch : MockState → MockState
next_epoch s = record s { epoch = (s.epoch + 1) % 2 ^ 64 }

abbrev pub add_to : ℕ → ℕ → MockState → MockState
add_to reg n s = record s { regs = set s.regs reg ((get_or s.regs reg 0 + n) % 2 ^ 64) }

-- To the instruction behind the current one, if there is one.
abbrev pub move_on : MockState → MockState
move_on s =
    if ltb (s.ip_index + 1) stream_len then record s { pc = stream_address (s.ip_index + 1) } else s

unfoldable pub advance_one : MockState → MockState
advance_one s = next_epoch (move_on (add_to rcx 1 (add_to rax 0x10 (find_index s))))

unfoldable pub mock_step_into : MockState → MockState
mock_step_into s = advance_one s

unfoldable pub mock_step_over : MockState → MockState
mock_step_over s =
    let found : MockState = find_index s in
    if stream_is_call found.ip_index && ltb (found.ip_index + 1) stream_len
    then next_epoch (add_to rax 0x10 (record found { pc = stream_address (found.ip_index + 1) }))
    else advance_one found

abbrev pub last_address : ℕ
last_address = 0x7FF751FA2459

unfoldable pub mock_step_out : MockState → MockState
mock_step_out s = next_epoch (record s { pc = last_address })

abbrev pub uint64_max : ℕ
uint64_max = 2 ^ 64 - 1

-- The least enabled breakpoint above `pc`, as the loop finds it.
unfoldable pub best_from : ℕ → ℕ → List Breakpoint → ℕ
best_from pc best [] = best
best_from pc best (b ∷ bps) =
    best_from pc
      (if not (b.enabled == 0) && ltb pc b.address && ltb b.address best then b.address else best)
      bps

unfoldable pub mock_cont : MockState → MockState
mock_cont s =
    let best : ℕ = best_from s.pc uint64_max s.bps in
    next_epoch (record s { pc = if best == uint64_max then last_address else best })

unfoldable pub mock_brk : MockState → MockState
mock_brk s = next_epoch (record s { run_state = stopped })

unfoldable pub mock_restart : MockState → MockState
mock_restart s =
    next_epoch (record s { pc = first_address; regs = reset_regs; run_state = stopped })

unfoldable pub mock_stop : MockState → MockState
mock_stop s = next_epoch (record s { pc = first_address; regs = reset_regs; run_state = stopped })

-- The loop that fills the buffer.
unfoldable pub mock_bytes : Bytes → ℕ → ℕ → Bytes
mock_bytes mem addr zero = []
mock_bytes mem addr (suc left) =
    get_or mem (addr % 2 ^ 64 % Common.length mem) 0 ∷ mock_bytes mem (addr + 1) left

unfoldable pub mock_read_memory : ℕ → ℕ → MockState → Bytes × MockState
mock_read_memory addr len s = (mock_bytes s.mem addr len, s)

abbrev pub has_breakpoint : ℕ → List Breakpoint → Bool
has_breakpoint addr [] = false
has_breakpoint addr (b ∷ bps) = if b.address == addr then true else has_breakpoint addr bps

-- The first breakpoint at the address is erased.
unfoldable pub erase_breakpoint : ℕ → List Breakpoint → List Breakpoint
erase_breakpoint addr [] = []
erase_breakpoint addr (b ∷ bps) =
    let rest = erase_breakpoint addr bps in if b.address == addr then bps else b ∷ rest

unfoldable pub mock_bp_toggle : ℕ → MockState → MockState
mock_bp_toggle addr s =
    if has_breakpoint addr s.bps
    then record s { bps = erase_breakpoint addr s.bps }
    else record s { bps = s.bps ++ (record { address = addr; enabled = 1; type = software } ∷ []) }

unfoldable pub enable_at : ℕ → Bool → List Breakpoint → List Breakpoint
enable_at addr enabled [] = []
enable_at addr enabled (b ∷ bps) =
    (if b.address == addr then record b { enabled = if enabled then 1 else 0 } else b)
    ∷ enable_at addr enabled bps

unfoldable pub mock_bp_set_enabled : ℕ → Bool → MockState → MockState
mock_bp_set_enabled addr enabled s = record s { bps = enable_at addr enabled s.bps }
