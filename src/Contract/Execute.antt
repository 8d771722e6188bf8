-- ===== src/Contract/Execute.antt =====
-- The executors of the CB, ED and index pages keep the contract.
use z80_python.Base.{◌+◌, ◌<◌, ◌≡◌, ◌≤◌, Option, arith, none, some, true, ℕ}
use z80_python.Contract.{IsWf, Stepped, Total}
use z80_python.Contract.Calls.{
  call-Total, call_index_cb-Total, call_index_plain-Total, call_index_unary-Total, fits_prefixed,
}
use z80_python.Contract.Pages.{cb_page-Total, ed_page-Total, index_cb_page-Total, is_index_cb}
use z80_python.Contract.Parts.{
  Safe-mono, Total-bind, With, fetch_byte-Total, read_operand_byte-Total,
}
use z80_python.Core.{fetch_byte, read_operand_byte}
use z80_python.Cpu.{Cpu}
use z80_python.Dispatch.Execute.{
  call_prefixed, call_with_prefix, execute_cb, execute_ed, execute_index_cb, plus_t_states,
}
use z80_python.Dispatch.Method.{Method}
use z80_python.Dispatch.Pages.{cb_page, ed_page, entry_at, index_cb_page}
use z80_python.Prog.{Prog}

-- A positive count of T-states below `bound`, and registers within their widths.
abbrev pub Within : ℕ → ℕ × Cpu → Type 0
Within bound r = (0 < r.0) × (r.0 ≤ bound) × IsWf r.1

pub Stepped-Within :
    (bound : ℕ) → 23 ≤ bound → (p : Prog (ℕ × Cpu)) → Total Stepped p → Total (Within bound) p
Stepped-Within bound h p =
    Safe-mono ⊥ ⊥ (λ e. ⊥) (λ e. ⊥) Stepped (Within bound) (λ x. x) (λ e x. x) (λ a x. omega arith)
      p

pub plus_t_states-Within :
    (extra bound : ℕ) (p : Prog (ℕ × Cpu))
    → extra + 23 ≤ bound
    → Total Stepped p
    → Total (Within bound) (plus_t_states extra p)
plus_t_states-Within extra bound p le h =
    Total-bind Stepped (Within bound) p _ h (λ r k. omega arith)

module _ (s : Cpu) (w : IsWf s) where
  pub execute_cb-Total : Total Stepped (execute_cb s)
  unfolding execute_cb
  execute_cb-Total = Total-bind (With 256) Stepped (fetch_byte s) _ (fetch_byte-Total s w) (λ r h.
      Total-bind _ Stepped (entry_at cb_page r.0) _ (cb_page-Total r.0 h.0)
        (λ e k. call-Total r.1 h.1 e.method e.argument k))

  pub execute_ed-Total : Total Stepped (execute_ed s)
  unfolding execute_ed
  execute_ed-Total = Total-bind (With 256) Stepped (fetch_byte s) _ (fetch_byte-Total s w) (λ r h.
      Total-bind _ Stepped (entry_at ed_page r.0) _ (ed_page-Total r.0 h.0)
        (λ e k. call-Total r.1 h.1 e.method e.argument k))

  call_with_prefix-Total :
      (m : Method) (prefix d op : ℕ)
      → is_index_cb m ≡ true
      → Total Stepped (call_with_prefix m prefix d op s)
  unfolding call_with_prefix
  call_with_prefix-Total (Method.index_cb m) prefix d op h = call_index_cb-Total prefix s w m d op
  call_with_prefix-Total (Method.plain m) prefix d op h = cc
  call_with_prefix-Total (Method.unary m) prefix d op h = cc
  call_with_prefix-Total (Method.index_plain m) prefix d op h = cc
  call_with_prefix-Total (Method.index_unary m) prefix d op h = cc
  call_with_prefix-Total Method.execute_cb prefix d op h = cc
  call_with_prefix-Total Method.execute_ed prefix d op h = cc
  call_with_prefix-Total Method.execute_index prefix d op h = cc

module _ (prefix : ℕ) (s : Cpu) (w : IsWf s) where
  execute_index_cb-Total : Total Stepped (execute_index_cb prefix s)
  unfolding execute_index_cb
  execute_index_cb-Total =
      Total-bind (With 256) Stepped (read_operand_byte s) _ (read_operand_byte-Total s w) (λ d h.
        Total-bind (With 256) Stepped (read_operand_byte d.1) _ (read_operand_byte-Total d.1 h.1)
          (λ r k.
            Total-bind _ Stepped (entry_at index_cb_page r.0) _ (index_cb_page-Total r.0 k.0)
              (λ e fit. call_with_prefix-Total r.1 k.1 e.method prefix d.0 r.0 fit)))

  pub call_prefixed-Total :
      (m : Method) (a : Option ℕ)
      → fits_prefixed m a ≡ true
      → Total Stepped (call_prefixed m a prefix s)
  unfolding call_prefixed
  call_prefixed-Total (Method.index_plain m) none h =
      call_index_plain-Total prefix s w execute_index_cb execute_index_cb-Total m
  call_prefixed-Total (Method.index_plain m) (some v) h = cc
  call_prefixed-Total (Method.index_unary m) none h = cc
  call_prefixed-Total (Method.index_unary m) (some v) h = call_index_unary-Total prefix s w m v h
  call_prefixed-Total (Method.plain m) a h = cc
  call_prefixed-Total (Method.unary m) a h = cc
  call_prefixed-Total (Method.index_cb m) a h = cc
  call_prefixed-Total Method.execute_cb a h = cc
  call_prefixed-Total Method.execute_ed a h = cc
  call_prefixed-Total Method.execute_index a h = cc
