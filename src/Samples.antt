-- ===== src/Samples.antt =====
-- The disassembler and the debug session on concrete inputs.
use Prim.Native.String.{String}
use z80_python.Base.{
  ◌&&◌, ◌+◌, ◌-◌, ◌<◌, ◌==◌, ◌||◌, ◌∷◌, ◌≡◌, Bool, List, Option, [], and_not, arith, false,
  get_elem?, if-keeps, if◌then◌else◌, leb, lookup, ltb, map, none, not, refl, some, true, ℕ,
}
use z80_python.Core.{set_view_bit, signed8}
use z80_python.Cpu.{Cpu, new}
use z80_python.Debug.{Access, BoundaryKind, next_boundary, read, wrap_bus}
use z80_python.Debug.Points.{
  Session, StepRecord, WatchKind, add_breakpoint, add_watchpoint, both, new_session, reads,
  remove_breakpoint, remove_watchpoint, valid_record, watch_hits, watches, writes,
}
use z80_python.Debug.Points.Laws.{Guarded, breakpoints-contains, watchpoints-lookup}
use z80_python.Debug.Running.{
  RunResult, StopReason, breakpoint, conclude, halted, session_run, settle, step_limit, stop_after,
  stop_before, t_state_limit, valid_result, watchpoint,
}
use z80_python.Debug.Stepping.{DebugTarget, World, capture, count_step, session_step}
use z80_python.Debug.Stepping.Core.{Ensures, Same}
use z80_python.Debug.Stepping.History.{latest, remember_all, remember_all-latest}
use z80_python.Debug.Stepping.Recorded.{Recorded, session_step-Recorded}
use z80_python.Debug.Stepping.Refused.{Refused}
use z80_python.Disasm.{
  Instruction, hex16, hex8, in_parentheses, indexed_operand, instruction_at, register,
  relative_target, text, word,
}
use z80_python.Disasm.Agreement.{Agrees, index_page-index_ignored}
use z80_python.Disasm.Entry.{
  Reader, decode, decode_first, disassemble, disassemble_bytes, encoded_reader,
}
use z80_python.Disasm.Entry.Again.{disassemble_bytes-disassemble}
use z80_python.Disasm.Entry.Encoding.{Disassembled, GivesBytes, disassemble-Disassembled}
use z80_python.Disasm.Entry.Fuel.{disassemble_enough}
use z80_python.Disasm.Main.{
  decode_ed, decode_ed_opcode, decode_ed_table, decode_exchange, decode_main, decode_main_high,
  decode_main_low, decode_relative, ed_blocks, ed_modes, ed_simple,
}
use z80_python.Disasm.Prefixed.{
  decode_halves, decode_index, decode_index_cb, decode_index_memory, decode_index_opcode,
  decode_index_words, index_ignored,
}
use z80_python.Dispatch.Execute.{is_prefix}
use z80_python.Dispatch.Page.{contains}
use z80_python.Dispatch.Pages.{index_page}
use z80_python.Flags.{flag_bit, flag_c, flag_z, make_flags, set_flag_bit, set_xy}
use z80_python.Flags.Bits.{flag_bit-set_flag_bit, taken}
use z80_python.Host.{Memory, Outcome, done, flat, no_fuel, raised, run}
use z80_python.Prog.{ok}
use z80_python.State.{snapshot}
use z80_python.Step.{step}

-- JP 0x0000.
abbrev pub jump : List ℕ
jump = 0xC3 ∷ 0x00 ∷ 0x00 ∷ []

abbrev pub shown_jump : Instruction
shown_jump = record { address = 0x8000; bytes = jump; mnemonic = "JP"; operands = "0x0000" ∷ [] }

abbrev text_of : Outcome Instruction → String
text_of (done i) = text i
text_of (raised e) = "ValueError"
text_of no_fuel = "no fuel"

-- What `disassemble_bytes` shows at 0x8000, with fuel for one further prefix.
abbrev texts : List (List ℕ) → List String
texts = map (λ bytes. text_of (disassemble_bytes 1 bytes 0x8000))

shown_texts :
    texts (
      jump
      ∷ (0x10 ∷ 0xFE ∷ [])
      ∷ (0xDD ∷ 0x7E ∷ 0xFE ∷ [])
      ∷ (0xDD ∷ 0xCB ∷ 0x05 ∷ 0x46 ∷ [])
      ∷ (0xED ∷ 0xB0 ∷ [])
      ∷ (0xDD ∷ 0xFD ∷ 0x21 ∷ 0x34 ∷ 0x12 ∷ [])
      ∷ (0xC3 ∷ 0x00 ∷ [])
      ∷ [])
    ≡ "JP 0x0000" ∷ "DJNZ 0x8000" ∷ "LD A, (IX-0x02)" ∷ "BIT 0, (IX+0x05)" ∷ "LDIR"
      ∷ "LD IY, 0x1234" ∷ "ValueError" ∷ []
unfolding disassemble_bytes disassemble decode encoded_reader decode_first decode_main decode_index
    decode_ed decode_main_high decode_main_low decode_index_opcode decode_ed_opcode decode_exchange
    decode_relative index_ignored decode_index_cb decode_ed_table word relative_target decode_halves
    indexed_operand ed_simple instruction_at decode_index_words ed_modes text decode_index_memory
    ed_blocks hex16 register in_parentheses signed8 hex8
shown_texts = refl

zero_reader : Reader
zero_reader address = ok 0

zero_reader-GivesBytes : GivesBytes zero_reader
unfolding zero_reader
zero_reader-GivesBytes address = (0, refl, omega arith)

disassemble-Disassembled_example :
    Disassembled (Unit {0}) zero_reader 0xFFFF (disassemble 0 zero_reader 0xFFFF)
disassemble-Disassembled_example =
    disassemble-Disassembled 0 zero_reader 0xFFFF zero_reader-GivesBytes (omega arith)

-- DD DD, then NOPs.
prefixed_reader : Reader
prefixed_reader address = ok (if ltb address 2 then 0xDD else 0x00)

prefixed_reader-GivesBytes : GivesBytes prefixed_reader
unfolding prefixed_reader
prefixed_reader-GivesBytes address = (
  if ltb address 2 then 0xDD else 0x00,
  refl,
  if-keeps (λ v. v < 256) (ltb address 2) (omega arith) (omega arith),
)

prefixed_reader-last : prefixed_reader 2 ≡ ok 0
unfolding prefixed_reader
prefixed_reader-last = refl

disassemble_enough_example : Disassembled ⊥ prefixed_reader 0 (disassemble 1 prefixed_reader 0)
disassemble_enough_example =
    disassemble_enough 1 1 prefixed_reader 0 0 prefixed_reader-GivesBytes (omega arith)
      (omega arith) prefixed_reader-last refl

shown_jump-done : disassemble 0 (encoded_reader jump 0x8000) 0x8000 ≡ done shown_jump
unfolding disassemble decode encoded_reader decode_first decode_main decode_main_high
    decode_exchange word instruction_at hex16
shown_jump-done = refl

disassemble_bytes-disassemble_example : disassemble_bytes 0 jump 0x8000 ≡ done shown_jump
disassemble_bytes-disassemble_example =
    disassemble_bytes-disassemble 0 (encoded_reader jump 0x8000) 0x8000 shown_jump shown_jump-done
      (omega arith)

index_page-index_ignored_example :
    Agrees (is_prefix 0x00 || 0x00 == 0xED) (get_elem? index_page 0x00) (index_ignored 0x00)
index_page-index_ignored_example = index_page-index_ignored 0x00 (omega arith)

-- The CPU on flat memory with a log; after an exception it keeps the registers it had.
after_step :
    Cpu → Outcome (ℕ × Cpu) × (Memory × List Access) → Outcome ℕ × (Cpu × (Memory × List Access))
after_step s (done (t, s'), m) = (done t, (s', m))
after_step s (raised e, m) = (raised e, (s, m))
after_step s (no_fuel, m) = (no_fuel, (s, m))

abbrev machine : DebugTarget (Cpu × (Memory × List Access))
machine = record {
  step = λ c. after_step c.0 (run (wrap_bus flat) (step 0 c.0) c.1);
  capture_state = λ c. done (snapshot c.0);
  accesses = λ c. c.1.1;
  clear_accesses = λ c. (c.0, (c.1.0, []));
}

-- NOP, NOP, HALT, with a breakpoint behind the NOPs.
abbrev program : Memory
program a = if a == 2 then 0x76 else 0x00

abbrev world : World (Cpu × (Memory × List Access))
world = record { session = new_session 1 true; target = (new, (program, [])) }

session_step-Recorded_example :
    Ensures
      (Recorded machine (some zero_reader) 0 world)
      (λ v. Same world v × Refused machine (some zero_reader) 0 world)
      (session_step machine (some zero_reader) 0 world)
session_step-Recorded_example = session_step-Recorded machine (some zero_reader) 0 world

abbrev reason_and_steps : Outcome RunResult × World ℕ → Option (StopReason × (ℕ × ℕ))
reason_and_steps (done result, w) = some (result.reason, (result.steps, w.session.total_t_states))
reason_and_steps (raised e, w) = none
reason_and_steps (no_fuel, w) = none

-- A target that counts: its PC goes up by 1 in 4 T-states, and it reads where it was; at 6 it
-- halts.
abbrev counter : DebugTarget ℕ
unfolding snapshot new
counter = record {
  step = λ n. (done 4, n + 1);
  capture_state = λ n. done (record (snapshot new) { pc = n; halted = n == 6 });
  accesses = λ n. record { kind = read; address = n - 1; value = 0 } ∷ [];
  clear_accesses = λ n. n;
}

abbrev from_zero : Session → World ℕ
from_zero session = record { session = session; target = 0 }

abbrev session_run_in : Session → ℕ → Option ℕ → Bool → Option (StopReason × (ℕ × ℕ))
session_run_in session max_steps max_t_states stop_on_halt =
    reason_and_steps
      (session_run counter none 0 max_steps max_t_states stop_on_halt (from_zero session))

abbrev watched : Session
unfolding new_session
watched = record (new_session 2 true) {
  watchpoints = (4, reads) ∷ (1, writes) ∷ [];
  breakpoints = 6 ∷ [];
}

runs_of_counter :
    (session_run_in (new_session 2 true) 9 none true ≡ some (halted, (6, 24)))
    × (session_run_in (new_session 2 true) 9 (some 7) true ≡ some (t_state_limit, (2, 8)))
    × (session_run_in (new_session 2 true) 9 none false ≡ some (step_limit, (9, 36)))
    × (session_run_in watched 9 none true ≡ some (watchpoint, (5, 20)))
    × (session_run_in (record watched { breakpoints = 3 ∷ [] }) 9 none true
        ≡ some (breakpoint, (3, 12)))
    × (session_run_in watched 0 none true ≡ none)
unfolding session_run capture stop_before next_boundary snapshot new new_session session_step
    valid_record stop_after watch_hits count_step watches settle conclude valid_result
runs_of_counter = (refl, refl, refl, refl, refl, refl)

breakpoints-contains_example :
    Guarded
      (leb 6 0xFFFF)
      (λ s. contains 3 s.breakpoints ≡ (3 == 6 || contains 3 watched.breakpoints))
      (add_breakpoint 6 watched)
    × Guarded
        (leb 6 0xFFFF)
        (λ s. contains 3 s.breakpoints ≡ (contains 3 watched.breakpoints && not (3 == 6)))
        (remove_breakpoint 6 watched)
breakpoints-contains_example = breakpoints-contains 6 3 watched

watchpoints-lookup_example :
    Guarded
      (watched.tracking && leb 4 0xFFFF)
      (λ s.
        lookup {V = WatchKind} 1 s.watchpoints
        ≡ (if 1 == 4 then some both else lookup {V = WatchKind} 1 watched.watchpoints))
      (add_watchpoint 4 both watched)
    × Guarded
        (leb 4 0xFFFF)
        (λ s.
          lookup {V = WatchKind} 1 s.watchpoints
          ≡ (if 1 == 4 then none else lookup {V = WatchKind} 1 watched.watchpoints))
        (remove_watchpoint 4 watched)
watchpoints-lookup_example = watchpoints-lookup 4 1 both watched

unfoldable pub a_record : StepRecord
unfolding snapshot new
a_record = record {
  sequence = 0;
  kind = BoundaryKind.instruction;
  before = snapshot new;
  after = snapshot new;
  t_states = 4;
  shown = none;
  accesses = none;
}

remember_all-latest_example :
    remember_all 1 (a_record ∷ record a_record { sequence = 1 } ∷ []) []
    ≡ latest {A = StepRecord} 1 (a_record ∷ record a_record { sequence = 1 } ∷ [])
remember_all-latest_example =
    remember_all-latest 1 (a_record ∷ record a_record { sequence = 1 } ∷ [])

flag_bit-set_flag_bit_example :
    (flag_bit flag_c (set_flag_bit flag_z 3 0x41)
      ≡ (if flag_c == flag_z then taken 3 else flag_bit flag_c 0x41))
    × (set_flag_bit flag_z 3 0x41 < 256)
flag_bit-set_flag_bit_example =
    flag_bit-set_flag_bit 1 7 flag_z flag_c 3 0x41 refl refl (omega arith)

flags_of_a_byte :
    (set_xy 0xFF 0x41 ≡ 0x69) × (set_flag_bit flag_z 2 0x41 ≡ 0x01) × (make_flags 0x141 ≡ 0x41)
unfolding set_xy set_flag_bit make_flags and_not
flags_of_a_byte = (refl, refl, refl)

flag_of_a_cpu : (set_view_bit flag_c 1 new).f ≡ 0x01
unfolding set_view_bit set_flag_bit new
flag_of_a_cpu = refl
