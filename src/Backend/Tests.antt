-- ===== src/Backend/Tests.antt =====
-- The gdb backend on a stop reply, and the native backend over a debuggee that is a memory of bytes.
use irida.Common.{
  Assoc, List, Text, [], arith, codes, if◌then◌else◌, lookup, min, pos, refl, suc, true, zero, ℕ,
  ◌++◌, ◌+◌, ◌==◌, ◌↔◌, ◌∷◌, ◌≡◌,
}
use irida.Base.{Bytes, ok, has_value}
use irida.Backend.{hardware_exec, StopKind, breakpoint}
use irida.Proto.Hex.{hex_byte}
use irida.Proto.Packets.StopReply.{render, parse_stop_reply}
use irida.Backend.Gdb.{translate_stop}
use irida.Backend.Gdb.Stops.{Marked, translate_stop-Marked}
use irida.Backend.Native.Host
use irida.Backend.Native.Host.{Debuggee, DbgEvent}
use irida.Backend.Native.{reply_of, rearm, translate_stop_and_rearm}
use irida.Backend.Native.Breakpoints.{ByteMemory, Rearmed, attached, translate_stop_and_rearm-armed}
use irida.Backend.Native.Slots.{Call, set_call, remove_call, run, hardware_sets, run-next_hw_slot}

abbrev ByteMap : Type 0
ByteMap = ℕ → ℕ

abbrev bytes_at : ByteMap → ℕ → ℕ → Bytes
bytes_at d addr zero = []
bytes_at d addr (suc len) = d addr ∷ bytes_at d (addr + 1) len

abbrev put : ℕ → Bytes → ByteMap → ByteMap
put addr [] d = d
put addr (v ∷ bytes) d = put (addr + 1) bytes (λ x. if addr == x then v else d x)

abbrev at_entry : DbgEvent
at_entry = record { kind = Host.breakpoint; thread_id = 1; address = 4096; code = 0 }

abbrev machine : Debuggee
machine = record {
  State = ByteMap;
  attach = λ pid. ok (λ x. 144);
  detach = λ d. (ok tt, d);
  wait_event = λ timeout d. (ok at_entry, d);
  resume = λ d. (ok tt, d);
  resume_single_step = λ d. (ok tt, d);
  request_stop = λ d. (ok tt, d);
  read_registers = λ thread d. (ok [], d);
  write_registers = λ thread block d. (ok tt, d);
  read_memory = λ addr len d. (ok (bytes_at d addr len), d);
  write_memory = λ addr bytes d. (ok tt, put addr bytes d);
  maps = λ d. (ok [], d);
  modules = λ d. (ok [], d);
  threads = λ d. (ok [], d);
  set_hw_exec_bp = λ slot addr d. (ok tt, d);
  clear_hw_bp = λ slot d. (ok tt, d);
  primary_thread = λ d. 1;
}

abbrev machine_memory : ByteMemory machine
machine_memory = record {
  peek = λ d. d;
  Accessible = λ d addr. Unit {0};
  reads = λ d addr acc. (refl, tt, λ x. refl);
  writes = λ d addr v acc. (refl, tt);
  written = λ d addr v e x. refl;
}

abbrev nops : ByteMap
nops x = 144

abbrev planted_table : Assoc ℕ
planted_table = (4096, 144) ∷ []

stop_is_reported :
    has_value
      (translate_stop_and_rearm machine
        (codes "cont")
        at_entry
        (attached machine nops planted_table 0 [])).0
    ≡ true
unfolding translate_stop_and_rearm rearm lookup
stop_is_reported = refl

translate_stop_and_rearm-armed_example :
    (after : ByteMap) × (translate_stop_and_rearm machine
        (codes "cont")
        at_entry
        (attached machine nops planted_table 0 [])
      ≡ (ok (reply_of at_entry), attached machine after planted_table 0 []))
    × Rearmed machine machine_memory planted_table 0 [] 4096 144 nops after
    × ((reply_of at_entry).kind ≡ StopKind.breakpoint)
    × ((reply_of at_entry).pc ≡ 4096)
translate_stop_and_rearm-armed_example =
    translate_stop_and_rearm-armed machine machine_memory planted_table 0 [] 4096 (codes "cont")
      at_entry 144 nops refl refl (unfold lookup in refl) stop_is_reported

abbrev some_calls : List (Call machine)
some_calls = set_call hardware_exec 4096 (pos 1) ∷ remove_call hardware_exec 4096 (pos 1) ∷ []

run-next_hw_slot_example :
    (run machine some_calls (attached machine nops [] 0 [])).next_hw_slot
    ≡ min 4 (0 + hardware_sets machine some_calls)
run-next_hw_slot_example =
    run-next_hw_slot machine 0 some_calls (attached machine nops [] 0 []) (omega arith)
      (record { next = refl; state = nops; held = refl })

abbrev marker : List (Text × Text)
marker = (codes "a", codes "1") ∷ []

translate_stop-Marked_example :
    ((translate_stop (parse_stop_reply (b'T' ∷ (hex_byte 5 ++ render marker)))).signal ≡ pos 5)
    × (((translate_stop (parse_stop_reply (b'T' ∷ (hex_byte 5 ++ render marker)))).kind
          ≡ breakpoint)
        ↔ Marked marker)
translate_stop-Marked_example = translate_stop-Marked 5 marker (omega arith) (
  (
    ((λ h. absurd (omega arith)), tt),
    ((λ h. absurd (omega arith)), tt),
    ((λ h. absurd (omega arith)), tt),
  ),
  tt,
)
