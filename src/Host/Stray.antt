-- ===== src/Host/Stray.antt =====
-- The T-states of stray prefixes (`extra` of `_execute_index`, src/z80_python/_index_dispatch.py).
use mathlib.Core.Path.{fun_ext}
use z80_python.Base.{◌+◌, ◌==◌, ◌∙◌, ◌≡◌, Bool, ap, arith, false, if◌then◌else◌, refl, true, ℕ}
use z80_python.Cpu.{Cpu}
use z80_python.Dispatch.Execute.{call, call_prefixed, execute_ed, execute_prefixed, plus_t_states}
use z80_python.Dispatch.Page.{Entry}
use z80_python.Dispatch.Pages.{entry_at, index_page}
use z80_python.Host.{Memory, Outcome, done, flat, no_fuel, raised, run}
use z80_python.Prog.{
  ◌>>=◌, Prog, out_of_fuel, raise, read_byte, read_port, ret, write_byte, write_port,
}

-- T-states that are added to a program's.
plus-plus :
    (a b : ℕ) (p : Prog (ℕ × Cpu)) → plus_t_states a (plus_t_states b p) ≡ plus_t_states (a + b) p
plus-plus a b (ret (t, s)) = ap (λ k. ret (k, s)) (omega arith)
plus-plus a b (raise e) = refl
plus-plus a b out_of_fuel = refl
plus-plus a b (read_byte x k) = ap (read_byte x) (fun_ext (λ v. plus-plus a b (k v)))
plus-plus a b (write_byte x v p) = ap (write_byte x v) (plus-plus a b p)
plus-plus a b (read_port x k) = ap (read_port x) (fun_ext (λ v. plus-plus a b (k v)))
plus-plus a b (write_port x v p) = ap (write_port x v) (plus-plus a b p)

abbrev pub plus_outcome : ℕ → Outcome (ℕ × Cpu) × Memory → Outcome (ℕ × Cpu) × Memory
plus_outcome a (done (t, s), m) = (done (a + t, s), m)
plus_outcome a (raised e, m) = (raised e, m)
plus_outcome a (no_fuel, m) = (no_fuel, m)

pub run-plus :
    (a : ℕ) (p : Prog (ℕ × Cpu)) (m : Memory)
    → run flat (plus_t_states a p) m ≡ plus_outcome a (run flat p m)
unfolding run
run-plus a (ret (t, s)) m = refl
run-plus a (raise e) m = refl
run-plus a out_of_fuel m = refl
run-plus a (read_byte x k) m =
    let answer = flat.on_read_byte x m in run-plus a (k answer.0) answer.1
run-plus a (write_byte x v p) m = run-plus a p (flat.on_write_byte x v m)
run-plus a (read_port x k) m =
    let answer = flat.on_read_port x m in run-plus a (k answer.0) answer.1
run-plus a (write_port x v p) m = run-plus a p (flat.on_write_port x v m)

plus-bind :
    {A : Type 0} (a : ℕ) (p : Prog A) (f g : A → Prog (ℕ × Cpu))
    → ((x : A) → plus_t_states a (f x) ≡ g x)
    → plus_t_states a (p >>= f) ≡ (p >>= g)
plus-bind a (ret x) f g h = h x
plus-bind a (raise e) f g h = refl
plus-bind a out_of_fuel f g h = refl
plus-bind a (read_byte x k) f g h = ap (read_byte x) (fun_ext (λ v. plus-bind a (k v) f g h))
plus-bind a (write_byte x v p) f g h = ap (write_byte x v) (plus-bind a p f g h)
plus-bind a (read_port x k) f g h = ap (read_port x) (fun_ext (λ v. plus-bind a (k v) f g h))
plus-bind a (write_port x v p) f g h = ap (write_port x v) (plus-bind a p f g h)

-- The T-states of the stray prefixes are added to those of the last.
pub execute_prefixed-stray :
    (prefix op stray : ℕ) (s : Cpu)
    → plus_t_states stray (execute_prefixed prefix op 0 s) ≡ execute_prefixed prefix op stray s
unfolding execute_prefixed
execute_prefixed-stray prefix op stray s = go (op == 0xED)
  where
    t : Cpu
    t = record s { q = 0 }

    chosen :
        (c : Bool) (p q : Prog (ℕ × Cpu))
        → plus_t_states stray (if c then plus_t_states 0 p else plus_t_states (0 + 4) q)
          ≡ (if c then plus_t_states stray p else plus_t_states (stray + 4) q)
    chosen true p q = plus-plus stray 0 p ∙ ap (λ k. plus_t_states k p) (omega arith)
    chosen false p q = plus-plus stray 4 q

    by_entry : ℕ → Entry Bool → Prog (ℕ × Cpu)
    by_entry stray entry =
        if entry.columns
        then plus_t_states stray (call_prefixed entry.method entry.argument prefix t)
        else plus_t_states (stray + 4) (call entry.method entry.argument t)

    entries : (entry : Entry Bool) → plus_t_states stray (by_entry 0 entry) ≡ by_entry stray entry
    entries entry =
        chosen entry.columns (call_prefixed entry.method entry.argument prefix t)
          (call entry.method entry.argument t)

    go :
        (ed : Bool)
        → plus_t_states stray (
            if ed
            then plus_t_states (0 + 4) (execute_ed s)
            else (entry_at index_page op >>= by_entry 0))
          ≡ (if ed
              then plus_t_states (stray + 4) (execute_ed s)
              else (entry_at index_page op >>= by_entry stray))
    go true = plus-plus stray 4 (execute_ed s)
    go false = plus-bind stray (entry_at index_page op) (by_entry 0) (by_entry stray) entries
