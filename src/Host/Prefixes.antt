-- ===== src/Host/Prefixes.antt =====
-- Runs of DD and FD prefixes on flat memory: the last one counts, each of the others costs 4
-- T-states, and a memory of nothing else is never left.
use z80_python.Base.{
  ◌*◌, ◌+◌, ◌<◌, ◌==◌, ◌∙◌, ◌≡◌, ◌≤◌, Bool, Bool-cases, ap, arith, false, inc16, inl, inr, refl,
  suc, sym, true, u16, zero, ℕ,
}
use z80_python.Core.{fetch_byte, inc_r}
use z80_python.Cpu.{Cpu}
use z80_python.Dispatch.Execute.{
  call_main, decode_and_execute, execute_index, execute_prefixed, is_prefix, plus_t_states,
  prefix_run,
}
use z80_python.Dispatch.Pages.{entry_at, main_page}
use z80_python.Host.{Memory, flat, no_fuel, run}
use z80_python.Host.Stray.{execute_prefixed-stray, plus_outcome, run-plus}
use z80_python.Prog.{◌>>=◌, Prog, ret}
use z80_python.Timing.{at}

-- The state after `n` opcode fetches.
unfoldable pub fetched : ℕ → Cpu → Cpu
fetched zero s = s
fetched (suc n) s = fetched n (inc_r (record s { pc = inc16 s.pc }))

abbrev pub prefix_at : Memory → ℕ → Bool
prefix_at m at = is_prefix (m (u16 at))

main_page-prefix :
    (fuel op : ℕ) (s : Cpu)
    → is_prefix op ≡ true
    → (entry_at main_page op >>= λ entry. call_main fuel entry.method entry.argument s)
      ≡ execute_index fuel op s
unfolding entry_at main_page call_main
main_page-prefix fuel op s h = elim (Bool-cases (op == 0xDD)) [
  | inl e ↦ let here : op ≡ 0xDD = ground arith in rw here refl
  | inr e ↦ let here : op ≡ 0xFD = ground arith in rw here refl
]

prefix_run-stop :
    (fuel prefix op stray : ℕ) (s : Cpu)
    → is_prefix op ≡ false
    → prefix_run fuel prefix op stray s ≡ ret (prefix, op, stray, s)
unfolding prefix_run
prefix_run-stop zero prefix op stray s h = rw (prefix_run, h) refl
prefix_run-stop (suc fuel) prefix op stray s h = rw (prefix_run, h) refl

prefix_run-next :
    (fuel prefix op stray : ℕ) (s : Cpu)
    → is_prefix op ≡ true
    → prefix_run (suc fuel) prefix op stray s
      ≡ (fetch_byte s >>= λ r. prefix_run fuel op r.0 (stray + 4) r.1)
unfolding prefix_run
prefix_run-next fuel prefix op stray s h = rw (prefix_run, h) refl

inc_r-pc : (s : Cpu) → (inc_r s).pc ≡ s.pc
unfolding inc_r
inc_r-pc s = refl

fetched-pc : (n : ℕ) (s : Cpu) → s.pc < 65536 → (fetched n s).pc ≡ u16 (s.pc + n)
unfolding fetched
fetched-pc zero s lt = omega arith
fetched-pc (suc n) s lt =
    let t = inc_r (record s { pc = inc16 s.pc }) in
    let one : t.pc ≡ inc16 s.pc = inc_r-pc (record s { pc = inc16 s.pc }) in
    let ih = fetched-pc n t (rw one (omega arith)) in ih ∙ rw one (omega arith)

fetched-fetched : (n : ℕ) (s : Cpu) → fetched 2 (fetched n s) ≡ fetched (suc (suc n)) s
unfolding fetched
fetched-fetched zero s = refl
fetched-fetched (suc n) s = fetched-fetched n (inc_r (record s { pc = inc16 s.pc }))

module _ (m : Memory) where
  -- Where the run stands: `prefix` and `op` from `at` on, `s.pc` behind them.
  prefix_run-flat :
      (n fuel at stray : ℕ) (s : Cpu) (f : ℕ × ℕ × ℕ × Cpu → Prog (ℕ × Cpu))
      → n ≤ fuel
      → s.pc ≡ u16 (at + 2)
      → ((i : ℕ) → i < n → prefix_at m (at + 1 + i) ≡ true)
      → prefix_at m (at + 1 + n) ≡ false
      → run flat (prefix_run fuel (m (u16 at)) (m (u16 (at + 1))) stray s >>= f) m
        ≡ run flat (f (m (u16 (at + n)), m (u16 (at + 1 + n)), stray + 4 * n, fetched n s)) m
  unfolding fetched run flat fetch_byte
  prefix_run-flat zero fuel at stray s f h k all last =
      let e : at + 1 + 0 ≡ at + 1 = omega arith in
      let e' : at + 0 ≡ at = omega arith in
      let e'' : stray + 4 * 0 ≡ stray = omega arith in
      let stop = ap (prefix_at m) (sym e) ∙ last in
      rw (e, e', e'', prefix_run-stop fuel (m (u16 at)) (m (u16 (at + 1))) stray s stop) refl
  prefix_run-flat (suc n) zero at stray s f h k all last = absurd (omega arith)
  prefix_run-flat (suc n) (suc fuel) at stray s f h k all last =
      let e : at + 1 + 0 ≡ at + 1 = omega arith in
      let e1 : at + 1 + 1 ≡ at + 2 = omega arith in
      let e2 : at + suc n ≡ at + 1 + n = omega arith in
      let e3 : at + 1 + suc n ≡ at + 1 + 1 + n = omega arith in
      let e4 : stray + 4 * suc n ≡ stray + 4 + 4 * n = omega arith in
      let here = ap (prefix_at m) (sym e) ∙ all 0 (omega arith) in
      let t = inc_r (record s { pc = inc16 s.pc }) in
      let behind : t.pc ≡ u16 (at + 1 + 2) =
        inc_r-pc (record s { pc = inc16 s.pc }) ∙ rw k (omega arith) in
      let further : (i : ℕ) → i < n → prefix_at m (at + 1 + 1 + i) ≡ true = λ i lt.
        let e5 : at + 1 + 1 + i ≡ at + 1 + suc i = omega arith in
        ap (prefix_at m) e5 ∙ all (suc i) (omega arith) in
      let rest =
        prefix_run-flat n fuel (at + 1) (stray + 4) t f (omega arith) behind further
          (ap (prefix_at m) (sym e3) ∙ last) in
      rw
        (
          prefix_run-next fuel (m (u16 at)) (m (u16 (at + 1))) stray s here,
          e2,
          e3,
          e4,
          ← rest,
          k,
          e1,
        )
        refl

  decode_and_execute-run :
      (n fuel : ℕ) (s : Cpu)
      → n ≤ fuel
      → s.pc < 65536
      → ((i : ℕ) → i ≤ n → prefix_at m (s.pc + i) ≡ true)
      → prefix_at m (s.pc + 1 + n) ≡ false
      → run flat (decode_and_execute fuel s) m
        ≡ run flat
            (execute_prefixed
              (m (u16 (s.pc + n)))
              (m (u16 (s.pc + 1 + n)))
              (4 * n)
              (fetched (suc (suc n)) s))
            m
  unfolding decode_and_execute execute_index run flat fetch_byte fetched
  decode_and_execute-run n fuel s h lt all last =
      let t = inc_r (record s { pc = inc16 s.pc }) in
      let t' = inc_r (record t { pc = inc16 t.pc }) in
      let same : u16 s.pc ≡ s.pc = omega arith in
      let same' : u16 (s.pc + 0) ≡ s.pc = omega arith in
      let here : is_prefix (m s.pc) ≡ true =
        ap (λ x. is_prefix (m x)) (sym same') ∙ all 0 (omega arith) in
      let further : (i : ℕ) → i < n → prefix_at m (s.pc + 1 + i) ≡ true = λ i lt.
        let e : s.pc + 1 + i ≡ s.pc + suc i = omega arith in
        ap (prefix_at m) e ∙ all (suc i) (omega arith) in
      let one : t.pc ≡ inc16 s.pc = inc_r-pc (record s { pc = inc16 s.pc }) in
      let two : t'.pc ≡ u16 (s.pc + 2) =
        inc_r-pc (record t { pc = inc16 t.pc }) ∙ rw one (omega arith) in
      let rest : ℕ × ℕ × ℕ × Cpu → Prog (ℕ × Cpu) = λ r. execute_prefixed r.0 r.1 r.2 r.3 in
      let plain : 0 + 4 * n ≡ 4 * n = omega arith in
      let loop = prefix_run-flat n fuel s.pc 0 t' rest h two further last in
      ap (λ p. run flat p m) (main_page-prefix fuel (m s.pc) t here)
      ∙ ap (λ x. run flat (prefix_run fuel (m s.pc) (m x) 0 t' >>= rest) m) one
      ∙ ap (λ x. run flat (prefix_run fuel (m x) (m (inc16 s.pc)) 0 t' >>= rest) m) (sym same)
      ∙ loop
      ∙ ap
          (λ k.
            run flat
              (execute_prefixed (m (u16 (s.pc + n))) (m (u16 (s.pc + 1 + n))) k (fetched n t')) m)
          plain

  -- On flat memory with `n + 1` prefixes from a 16-bit PC on, another byte after them, and fuel
  -- for at least `n`, `decode_and_execute` does what it does from the last of the prefixes on once
  -- the others have been fetched, for which no fuel is needed, with 4 T-states more for each of the
  -- others.
  pub decode_and_execute-prefixes :
      (n fuel : ℕ) (s : Cpu)
      → n ≤ fuel
      → s.pc < 65536
      → ((i : ℕ) → i ≤ n → prefix_at m (s.pc + i) ≡ true)
      → prefix_at m (s.pc + 1 + n) ≡ false
      → run flat (decode_and_execute fuel s) m
        ≡ run flat (plus_t_states (4 * n) (decode_and_execute 0 (fetched n s))) m
  decode_and_execute-prefixes n fuel s h lt all last =
      let t = fetched n s in
      let at : t.pc ≡ u16 (s.pc + n) = fetched-pc n s lt in
      let place : u16 (t.pc + 0) ≡ u16 (s.pc + n) = rw at (omega arith) in
      let next : u16 (t.pc + 1 + 0) ≡ u16 (s.pc + 1 + n) = rw at (omega arith) in
      let here : (i : ℕ) → i ≤ 0 → prefix_at m (t.pc + i) ≡ true = λ i le.
        let same : u16 (t.pc + i) ≡ u16 (s.pc + n) = rw at (omega arith) in
        ap (λ x. is_prefix (m x)) same ∙ all n (omega arith) in
      let behind : prefix_at m (t.pc + 1 + 0) ≡ false = ap (λ x. is_prefix (m x)) next ∙ last in
      let one = decode_and_execute-run 0 0 t (omega arith) (rw at (omega arith)) here behind in
      let none : 4 * 0 ≡ 0 = omega arith in
      let exec : ℕ → ℕ → ℕ → Cpu → Prog (ℕ × Cpu) = λ x y k u. execute_prefixed (m x) (m y) k u in
      decode_and_execute-run n fuel s h lt all last
      ∙ ap (λ u. run flat (exec (u16 (s.pc + n)) (u16 (s.pc + 1 + n)) (4 * n) u) m)
          (sym (fetched-fetched n s))
      ∙ ap (λ p. run flat p m) (sym (execute_prefixed-stray _ _ (4 * n) (fetched 2 t)))
      ∙ run-plus (4 * n) (exec (u16 (s.pc + n)) (u16 (s.pc + 1 + n)) 0 (fetched 2 t)) m
      ∙ ap (λ x. plus_outcome (4 * n) (run flat (exec x (u16 (s.pc + 1 + n)) 0 (fetched 2 t)) m))
          (sym place)
      ∙ ap (λ y. plus_outcome (4 * n) (run flat (exec (u16 (t.pc + 0)) y 0 (fetched 2 t)) m))
          (sym next)
      ∙ ap
          (λ k.
            plus_outcome (4 * n)
              (run flat (exec (u16 (t.pc + 0)) (u16 (t.pc + 1 + 0)) k (fetched 2 t)) m))
          (sym none)
      ∙ ap (plus_outcome (4 * n)) (sym one)
      ∙ sym (run-plus (4 * n) (decode_and_execute 0 t) m)

  prefix_run-endless :
      (fuel prefix op stray : ℕ) (s : Cpu) (f : ℕ × ℕ × ℕ × Cpu → Prog (ℕ × Cpu))
      → is_prefix op ≡ true
      → ((a : ℕ) → is_prefix (m a) ≡ true)
      → run flat (prefix_run fuel prefix op stray s >>= f) m ≡ (no_fuel, m)
  unfolding run flat fetch_byte prefix_run
  prefix_run-endless zero prefix op stray s f h all = rw h refl
  prefix_run-endless (suc fuel) prefix op stray s f h all =
      ap (λ p. run flat (p >>= f) m) (prefix_run-next fuel prefix op stray s h)
      ∙ (prefix_run-endless fuel op (m s.pc) (stray + 4) (inc_r (record s { pc = inc16 s.pc })) f
          (all s.pc) all)

  -- On flat memory that holds nothing but prefixes, `decode_and_execute` runs out of any fuel and
  -- leaves memory as it was.
  pub decode_and_execute-endless :
      (fuel : ℕ) (s : Cpu)
      → ((a : ℕ) → is_prefix (m a) ≡ true)
      → run flat (decode_and_execute fuel s) m ≡ (no_fuel, m)
  unfolding decode_and_execute execute_index run flat fetch_byte
  decode_and_execute-endless fuel s all =
      let t = inc_r (record s { pc = inc16 s.pc }) in
      let t' = inc_r (record t { pc = inc16 t.pc }) in
      ap (λ p. run flat p m) (main_page-prefix fuel (m s.pc) t (all s.pc))
      ∙ (prefix_run-endless fuel (m s.pc) (m t.pc) 0 t' (λ r. execute_prefixed r.0 r.1 r.2 r.3)
          (all t.pc) all)
