-- ===== src/Contract/Step.antt =====
-- `step` keeps the contract: prefixes, decoding, interrupts.
use z80_python.Base.{
  ◌*◌, ◌+◌, ◌<◌, ◌==◌, ◌≡◌, ◌≢◌, ◌≤◌, Bool, Option, arith, bit_and, false, if-cases, if◌then◌else◌,
  none, refl, some, suc, true, zero, ℕ,
}
use z80_python.Contract.{IsWf, Safe, Stepped, Total, vector_value}
use z80_python.Contract.Calls.{call-Total}
use z80_python.Contract.Execute.{
  Stepped-Within, Within, call_prefixed-Total, execute_cb-Total, execute_ed-Total,
  plus_t_states-Within,
}
use z80_python.Contract.Pages.{
  fits_column, fits_main, index_page-Total, main_page-Total, skip_prefixes,
}
use z80_python.Contract.Parts.{Safe-bind, Safe-mono, Total-bind, With, fetch_byte-Total}
use z80_python.Core.{fetch_byte}
use z80_python.Cpu.{Cpu}
use z80_python.Dispatch.Execute.{
  call, call_main, call_prefixed, decode_and_execute, execute_index, execute_prefixed, is_prefix,
  plus_t_states, prefix_run,
}
use z80_python.Dispatch.Method.{Method}
use z80_python.Dispatch.Page.{Entry}
use z80_python.Dispatch.Pages.{entry_at, index_page, main_page}
use z80_python.Prog.{
  ◌>>=◌, Error, Prog, index_error, not_implemented, ret, runtime_error, type_error, value_error,
}

-- What a run of prefixes leaves: a prefix, an opcode that is none, and 4 T-states for each stray.
abbrev pub RunEnd : ℕ → ℕ × ℕ × ℕ × Cpu → Type 0
RunEnd bound r = (is_prefix r.1 ≡ false) × (r.1 < 256) × (r.2 ≤ bound) × IsWf r.3

-- The contract of code that may run out of fuel.
abbrev pub Fueled : {A : Type 0} → (A → Type 0) → Prog A → Type 0
Fueled P p = Safe (Unit {0}) (λ e. ⊥) P p

Total-Fueled : {A : Type 0} (P : A → Type 0) (p : Prog A) → Total P p → Fueled P p
Total-Fueled P p = Safe-mono ⊥ (Unit {0}) (λ e. ⊥) (λ e. ⊥) P P (λ x. tt) (λ e x. x) (λ a x. x) p

Fueled-bind :
    {A B : Type 0} (P : A → Type 0) (Q : B → Type 0) (p : Prog A) (f : A → Prog B)
    → Fueled P p
    → ((a : A) → P a → Fueled Q (f a))
    → Fueled Q (p >>= f)
Fueled-bind P Q p f h k = Safe-bind (Unit {0}) (λ e. ⊥) P Q p f h k

prefix_run-Fueled :
    (fuel prefix op stray : ℕ) (s : Cpu)
    → IsWf s
    → op < 256
    → Fueled (RunEnd (stray + 4 * fuel)) (prefix_run fuel prefix op stray s)
unfolding prefix_run
prefix_run-Fueled zero prefix op stray s w h =
    if-cases (Fueled (RunEnd (stray + 4 * 0))) (is_prefix op) (λ e. tt)
      (λ e. (e, h, omega arith, w))
prefix_run-Fueled (suc fuel) prefix op stray s w h =
    go (is_prefix op) refl (λ r u. prefix_run-Fueled fuel op r.0 (stray + 4) r.1 u.1 u.0)
  where
    longer :
        (r : ℕ × ℕ × ℕ × Cpu) → RunEnd (stray + 4 + 4 * fuel) r → RunEnd (stray + 4 * suc fuel) r
    longer r (e, k, le, u) = (e, k, omega arith, u)

    go :
        (t : Bool)
        → is_prefix op ≡ t
        → ((r : ℕ × Cpu)
            → With 256 r
            → Fueled (RunEnd (stray + 4 + 4 * fuel)) (prefix_run fuel op r.0 (stray + 4) r.1))
        → Fueled (RunEnd (stray + 4 * suc fuel)) (elim t [
          | true ↦ fetch_byte s >>= λ r. prefix_run fuel op r.0 (stray + 4) r.1
          | false ↦ ret (prefix, op, stray, s)
        ])
    go true e rest =
        Fueled-bind (With 256) (RunEnd (stray + 4 * suc fuel)) (fetch_byte s)
          (λ r. prefix_run fuel op r.0 (stray + 4) r.1)
          (Total-Fueled (With 256) (fetch_byte s) (fetch_byte-Total s w))
          (λ r u.
            Safe-mono (Unit {0}) (Unit {0}) (λ e. ⊥) (λ e. ⊥) (RunEnd (stray + 4 + 4 * fuel))
              (RunEnd (stray + 4 * suc fuel)) (λ x. x) (λ e x. x) longer
              (prefix_run fuel op r.0 (stray + 4) r.1) (rest r u))
    go false e rest = (e, h, omega arith, w)

no_skip : (op : ℕ) → is_prefix op ≡ false → (op == 0xED) ≡ false → skip_prefixes op ≡ false
no_skip op n e = ground arith

execute_prefixed-Total :
    (prefix op stray : ℕ) (s : Cpu)
    → IsWf s
    → op < 256
    → is_prefix op ≡ false
    → Total (Within (stray + 27)) (execute_prefixed prefix op stray s)
unfolding execute_prefixed
execute_prefixed-Total prefix op stray s w h n =
    let t = record s { q = 0 } in
    let u : IsWf t = omega arith in
    if-cases (Total (Within (stray + 27))) (op == 0xED)
      (λ e. plus_t_states-Within (stray + 4) _ _ (omega arith) (execute_ed-Total s w))
      (λ e.
        Total-bind _ (Within (stray + 27)) (entry_at index_page op) _
          (index_page-Total op h (no_skip op n e)) (λ entry fit. by_column t u entry fit))
  where
    by_column :
        (t : Cpu)
        → IsWf t
        → (entry : Entry Bool) → fits_column entry ≡ true
        → Total (Within (stray + 27)) (
            if entry.columns
            then plus_t_states stray (call_prefixed entry.method entry.argument prefix t)
            else plus_t_states (stray + 4) (call entry.method entry.argument t))
    by_column t u entry fit =
        if-cases (Total (Within (stray + 27))) entry.columns
          (λ e.
            plus_t_states-Within stray _ _ (omega arith)
              (call_prefixed-Total prefix t u entry.method entry.argument (rw e at fit)))
          (λ e.
            plus_t_states-Within (stray + 4) _ _ (omega arith)
              (call-Total t u entry.method entry.argument (rw e at fit)))

module _ (fuel : ℕ) (s : Cpu) (w : IsWf s) where
  execute_index-Fueled :
      (prefix : ℕ) → Fueled (Within (27 + 4 * fuel)) (execute_index fuel prefix s)
  unfolding execute_index
  execute_index-Fueled prefix =
      Fueled-bind (With 256) _ (fetch_byte s) _
        (Total-Fueled _ (fetch_byte s) (fetch_byte-Total s w))
        (λ r h.
          Fueled-bind (RunEnd (0 + 4 * fuel)) _ (prefix_run fuel prefix r.0 0 r.1) _
            (prefix_run-Fueled fuel prefix r.0 0 r.1 h.1 h.0)
            (λ r' k.
              Safe-mono ⊥ (Unit {0}) (λ e. ⊥) (λ e. ⊥) (Within (r'.2 + 27)) _ (λ x. tt) (λ e x. x)
                (λ a x. let le = k.2 in omega arith) _
                (execute_prefixed-Total r'.0 r'.1 r'.2 r'.3 k.3 k.1 k.0)))

  base-Fueled : (p : Prog (ℕ × Cpu)) → Total Stepped p → Fueled (Within (27 + 4 * fuel)) p
  base-Fueled p h = Total-Fueled _ p (Stepped-Within (27 + 4 * fuel) (omega arith) p h)

  call_main-Fueled :
      (m : Method) (a : Option ℕ)
      → fits_main m a ≡ true
      → Fueled (Within (27 + 4 * fuel)) (call_main fuel m a s)
  unfolding call_main
  call_main-Fueled Method.execute_cb none h = base-Fueled _ (execute_cb-Total s w)
  call_main-Fueled Method.execute_cb (some v) h = cc
  call_main-Fueled Method.execute_ed none h = base-Fueled _ (execute_ed-Total s w)
  call_main-Fueled Method.execute_ed (some v) h = cc
  call_main-Fueled Method.execute_index none h = cc
  call_main-Fueled Method.execute_index (some prefix) h = execute_index-Fueled prefix
  call_main-Fueled (Method.plain m) none h = base-Fueled _ (call-Total s w (Method.plain m) none h)
  call_main-Fueled (Method.plain m) (some v) h = cc
  call_main-Fueled (Method.unary m) none h = cc
  call_main-Fueled (Method.unary m) (some v) h =
      base-Fueled _ (call-Total s w (Method.unary m) (some v) h)
  call_main-Fueled (Method.index_plain m) none h = cc
  call_main-Fueled (Method.index_plain m) (some v) h = cc
  call_main-Fueled (Method.index_unary m) none h = cc
  call_main-Fueled (Method.index_unary m) (some v) h = cc
  call_main-Fueled (Method.index_cb m) none h = cc
  call_main-Fueled (Method.index_cb m) (some v) h = cc

-- From registers within their widths, `decode_and_execute` passes 16-bit addresses and 8-bit
-- values only; whatever bytes the host answers it raises nothing, and unless it runs out of fuel
-- it takes from 1 to 27 + 4 * fuel T-states and leaves registers within their widths.
pub decode_and_execute-Fueled :
    (fuel : ℕ) (s : Cpu) → IsWf s → Fueled (Within (27 + 4 * fuel)) (decode_and_execute fuel s)
unfolding decode_and_execute
decode_and_execute-Fueled fuel s w =
    Fueled-bind (With 256) _ (fetch_byte s) _ (Total-Fueled _ (fetch_byte s) (fetch_byte-Total s w))
      (λ r h.
        Fueled-bind (λ e. fits_main e.method e.argument ≡ true) _ (entry_at main_page r.0) _
          (Total-Fueled _ (entry_at main_page r.0) (main_page-Total r.0 h.0))
          (λ e k. call_main-Fueled fuel r.1 h.1 e.method e.argument k))

-- The exception that `step` may raise: IM 0 with a vector that is no RST opcode.
abbrev pub Unsupported : Cpu → Error → Type 0
Unsupported s not_implemented =
    (s.im ≡ 0) × (bit_and (vector_value s.pending_maskable_interrupt) 0xC7 ≢ 0xC7)
Unsupported s runtime_error = ⊥
Unsupported s value_error = ⊥
Unsupported s type_error = ⊥
Unsupported s index_error = ⊥
