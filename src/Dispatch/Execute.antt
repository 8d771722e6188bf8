-- ===== src/Dispatch/Execute.antt =====
-- Fetch, decode and execute (src/z80_python/_dispatch.py and src/z80_python/_index_dispatch.py).
use z80_python.Base.{
  ◌+◌, ◌==◌, ◌||◌, Bool, Option, false, if◌then◌else◌, none, some, suc, true, zero, ℕ,
}
use z80_python.Core.{fetch_byte, read_operand_byte}
use z80_python.Cpu.{Cpu}
use z80_python.Dispatch.Method.{Method}
use z80_python.Dispatch.Method.Calls.{call_index_cb, call_plain, call_unary}
use z80_python.Dispatch.Method.IndexCalls.{call_index_plain, call_index_unary}
use z80_python.Dispatch.Pages.{cb_page, ed_page, entry_at, index_cb_page, index_page, main_page}
use z80_python.Prog.{◌>>=◌, Prog, out_of_fuel, raise, ret, type_error}

-- `_execute_index_cb`: displacement and opcode are read as operands.
unfoldable pub call_with_prefix : Method → ℕ → ℕ → ℕ → Cpu → Prog (ℕ × Cpu)
call_with_prefix (Method.index_cb m) prefix displacement op s =
    call_index_cb m prefix displacement op s
call_with_prefix _ prefix displacement op s = raise type_error

unfoldable pub execute_index_cb : ℕ → Cpu → Prog (ℕ × Cpu)
execute_index_cb prefix s = do
  (displacement, s) ← read_operand_byte s
  (cb_opcode, s) ← read_operand_byte s
  entry ← entry_at index_cb_page cb_opcode
  call_with_prefix entry.method prefix displacement cb_opcode s

-- `handler(self)` or `handler(self, argument)` of an entry of the CB, ED and index pages, none of
-- which names an executor.
unfoldable pub call : Method → Option ℕ → Cpu → Prog (ℕ × Cpu)
call (Method.plain m) none s = call_plain m s
call (Method.unary m) (some argument) s = call_unary m argument s
call _ _ s = raise type_error

-- `handler(self, prefix)` or `handler(self, prefix, argument)`.
unfoldable pub call_prefixed : Method → Option ℕ → ℕ → Cpu → Prog (ℕ × Cpu)
call_prefixed (Method.index_plain m) none prefix s = call_index_plain execute_index_cb m prefix s
call_prefixed (Method.index_unary m) (some argument) prefix s = call_index_unary m prefix argument s
call_prefixed _ _ prefix s = raise type_error

unfoldable pub execute_cb : Cpu → Prog (ℕ × Cpu)
execute_cb s = do
  (op, s) ← fetch_byte s
  entry ← entry_at cb_page op
  call entry.method entry.argument s

unfoldable pub execute_ed : Cpu → Prog (ℕ × Cpu)
execute_ed s = do
  (op, s) ← fetch_byte s
  entry ← entry_at ed_page op
  call entry.method entry.argument s

abbrev pub is_prefix : ℕ → Bool
is_prefix op = op == 0xDD || op == 0xFD

-- The `while` loop of `_execute_index`: the last prefix, the opcode after it, and 4 T-states for
-- each prefix that another one follows. The loop has no bound in the source; `fuel` is one.
unfoldable pub prefix_run : ℕ → ℕ → ℕ → ℕ → Cpu → Prog (ℕ × ℕ × ℕ × Cpu)
prefix_run zero prefix sub_opcode stray s =
    if is_prefix sub_opcode then out_of_fuel else ret (prefix, sub_opcode, stray, s)
prefix_run (suc fuel) prefix sub_opcode stray s = elim (is_prefix sub_opcode) [
  | true ↦ fetch_byte s >>= λ r. prefix_run fuel sub_opcode r.0 (stray + 4) r.1
  | false ↦ ret (prefix, sub_opcode, stray, s)
]

-- `return extra + handler(...)`.
abbrev pub plus_t_states : ℕ → Prog (ℕ × Cpu) → Prog (ℕ × Cpu)
plus_t_states extra p = do (t_states, s) ← p; ret (extra + t_states, s)

-- An opcode under its last prefix.
unfoldable pub execute_prefixed : ℕ → ℕ → ℕ → Cpu → Prog (ℕ × Cpu)
execute_prefixed prefix sub_opcode stray s =
    if sub_opcode == 0xED then plus_t_states (stray + 4) (execute_ed s) else (do
      let s = record s { q = 0 }
      entry ← entry_at index_page sub_opcode
      if entry.columns
          then plus_t_states stray (call_prefixed entry.method entry.argument prefix s)
          else plus_t_states (stray + 4) (call entry.method entry.argument s))

unfoldable pub execute_index : ℕ → ℕ → Cpu → Prog (ℕ × Cpu)
execute_index fuel prefix s = do
  (sub_opcode, s) ← fetch_byte s
  (prefix, sub_opcode, stray, s) ← prefix_run fuel prefix sub_opcode 0 s
  execute_prefixed prefix sub_opcode stray s

-- An entry of the main page.
unfoldable pub call_main : ℕ → Method → Option ℕ → Cpu → Prog (ℕ × Cpu)
call_main fuel Method.execute_cb none s = execute_cb s
call_main fuel Method.execute_ed none s = execute_ed s
call_main fuel Method.execute_index (some prefix) s = execute_index fuel prefix s
call_main fuel method argument s = call method argument s

unfoldable pub decode_and_execute : ℕ → Cpu → Prog (ℕ × Cpu)
decode_and_execute fuel s = do
  (op, s) ← fetch_byte s
  entry ← entry_at main_page op
  call_main fuel entry.method entry.argument s
