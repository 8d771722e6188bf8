-- ===== src/Host/Copy.antt =====
-- LDIR on flat memory, round after round.
use z80_python.Base.{
  ◌*◌, ◌+◌, ◌-◌, ◌<◌, ◌==◌, ◌∙◌, ◌≡◌, Bool, ap, arith, dec16, false, if◌then◌else◌, inc16, not,
  refl, suc, true, u16, zero, ℕ,
}
use z80_python.Base.Bits.Words.{join}
use z80_python.Blocks.{block_ld, block_ld_flags, block_repeat, op_ldir, put_bc, put_de, put_hl}
use z80_python.Core.{bc, de, hl}
use z80_python.Cpu.{Cpu}
use z80_python.Host.{Memory, done, flat, poke, run}
use z80_python.Prog.{◌>>=◌, Prog, ret}

-- The copy loop that LDIR stands for: byte by byte upwards, so an overlap is copied again.
abbrev pub copy_up : ℕ → ℕ → ℕ → Memory → Memory
copy_up zero src dst m = m
copy_up (suc n) src dst m = copy_up n (inc16 src) (inc16 dst) (poke dst (m src) m)

-- `n` rounds of LDIR, each with PC behind the two bytes that are fetched for it; the T-states add
-- up.
abbrev pub rounds : ℕ → ℕ → Cpu → Prog (ℕ × Cpu)
rounds zero t_states s = ret (t_states, s)
rounds (suc n) t_states s =
    op_ldir (record s { pc = u16 (s.pc + 2) }) >>= λ r. rounds n (t_states + r.0) r.1

-- A round that moves the byte `v`: the state, and then the rewind.
abbrev moved : ℕ → Cpu → Cpu
moved v s =
    let count = dec16 (bc s) in
    let s = put_bc count (put_de (inc16 (de s)) (put_hl (inc16 (hl s)) s)) in
    record s { f = block_ld_flags s.f (s.a + v) count }

abbrev rewound : Bool → ℕ → Cpu → Cpu
rewound again v s =
    let t = if again then block_repeat (moved v s) else moved v s in record t { q = t.f }

op_ldir-flat :
    (s : Cpu) (m : Memory) (f : ℕ × Cpu → Prog (ℕ × Cpu))
    → run flat (op_ldir s >>= f) m
      ≡ run flat
          (f (
            if not (dec16 (bc s) == 0) then 21 else 16,
            rewound (not (dec16 (bc s) == 0)) (m (hl s)) s,
          ))
          (poke (de s) (m (hl s)) m)
unfolding run flat op_ldir block_ld bc
op_ldir-flat s m f = refl

-- The pairs and PC after a round.
record IsNext (again : Bool) (s t : Cpu) : Type 0 where
  pub hl-next : hl t ≡ inc16 (hl s)
  pub de-next : de t ≡ inc16 (de s)
  pub bc-next : bc t ≡ dec16 (bc s)
  pub pc-next : t.pc ≡ (if again then u16 (s.pc + 0x10000 - 2) else s.pc)

moved-pairs :
    (v : ℕ) (s : Cpu)
    → (hl (moved v s) ≡ inc16 (hl s))
      × (de (moved v s) ≡ inc16 (de s))
      × (bc (moved v s) ≡ dec16 (bc s))
unfolding hl de bc
moved-pairs v s = (
  join (inc16 (hl s)) (omega arith),
  join (inc16 (de s)) (omega arith),
  join (dec16 (bc s)) (omega arith),
)

rewound-IsNext : (again : Bool) (v : ℕ) (s : Cpu) → IsNext again s (rewound again v s)
unfolding block_repeat hl de bc
rewound-IsNext true v s =
    let p = moved-pairs v s in
    record { hl-next = p.0; de-next = p.1; bc-next = p.2; pc-next = refl }
rewound-IsNext false v s =
    let p = moved-pairs v s in
    record { hl-next = p.0; de-next = p.1; bc-next = p.2; pc-next = refl }

-- A round behind its fetch.
abbrev after : Bool → Cpu → Memory → Cpu
after again s m = rewound again (m (hl s)) (record s { pc = u16 (s.pc + 2) })

round-flat :
    (again : Bool) (s : Cpu) (m : Memory) (f : ℕ × Cpu → Prog (ℕ × Cpu))
    → not (dec16 (bc s) == 0) ≡ again
    → run flat (op_ldir (record s { pc = u16 (s.pc + 2) }) >>= f) m
      ≡ run flat (f (if again then 21 else 16, after again s m)) (poke (de s) (m (hl s)) m)
unfolding hl de bc
round-flat again s m f h =
    let t = record s { pc = u16 (s.pc + 2) } in
    op_ldir-flat t m f
    ∙ ap (λ b. run flat (f (if b then 21 else 16, after b s m)) (poke (de s) (m (hl s)) m)) h

after-IsNext :
    (again : Bool) (s : Cpu) (m : Memory)
    → (hl (after again s m) ≡ inc16 (hl s))
      × (de (after again s m) ≡ inc16 (de s))
      × (bc (after again s m) ≡ dec16 (bc s))
      × ((after again s m).pc
          ≡ (if again then u16 (u16 (s.pc + 2) + 0x10000 - 2) else u16 (s.pc + 2)))
unfolding hl de bc
after-IsNext again s m =
    let next = rewound-IsNext again (m (hl s)) (record s { pc = u16 (s.pc + 2) }) in
    (next.hl-next, next.de-next, next.bc-next, next.pc-next)

-- `n + 1` rounds of `op_ldir` on flat memory, with n below 65536, a 16-bit PC and BC = n + 1
-- modulo 65536, return; they add 21 T-states for each round but 16 for the last, leave memory as
-- the copy loop does, HL and DE advanced by n + 1, BC at 0 and PC behind the instruction.
pub rounds-copy_up :
    (n t_states : ℕ) (s : Cpu) (m : Memory)
    → n < 65536
    → s.pc < 65536
    → bc s ≡ u16 (n + 1)
    → (t : Cpu) × (run flat (rounds (suc n) t_states s) m
        ≡ (done (t_states + 21 * n + 16, t), copy_up (suc n) (hl s) (de s) m))
      × (hl t ≡ u16 (hl s + n + 1))
      × (de t ≡ u16 (de s + n + 1))
      × (bc t ≡ 0)
      × (t.pc ≡ u16 (s.pc + 2))
unfolding run
rounds-copy_up zero t_states s m h pc count =
    let last : not (dec16 (bc s) == 0) ≡ false = ground arith in
    let next = after-IsNext false s m in
    let time : t_states + 21 * 0 + 16 ≡ t_states + 16 = omega arith in
    (
      after false s m,
      rw time (round-flat false s m (λ r. ret (t_states + r.0, r.1)) last),
      rw next.0 (omega arith),
      rw next.1 (omega arith),
      rw (next.2, count) (omega arith),
      next.3,
    )
rounds-copy_up (suc n) t_states s m h pc count =
    let again : not (dec16 (bc s) == 0) ≡ true = ground arith in
    let next = after-IsNext true s m in
    let t = after true s m in
    let m' = poke (de s) (m (hl s)) m in
    let place : t.pc ≡ s.pc = next.3 ∙ omega arith in
    let place-lt : t.pc < 65536 = rw place pc in
    let left : bc t ≡ u16 (n + 1) = next.2 ∙ rw count (omega arith) in
    let rest = rounds-copy_up n (t_states + 21) t m' (omega arith) place-lt left in
    let time : t_states + 21 + 21 * n + 16 ≡ t_states + 21 * suc n + 16 = omega arith in
    let copied : copy_up (suc n) (hl t) (de t) m'
        ≡ copy_up (suc n) (inc16 (hl s)) (inc16 (de s)) m' =
      rw (next.0, next.1) refl in
    (
      rest.0,
      round-flat true s m (λ r. rounds (suc n) (t_states + r.0) r.1) again
          ∙ rest.1
          ∙ ap (λ k. (done (k, rest.0), copy_up (suc n) (hl t) (de t) m')) time
          ∙ ap (λ c. (done (t_states + 21 * suc n + 16, rest.0), c)) copied,
      rest.2 ∙ rw next.0 (omega arith),
      rest.3 ∙ rw next.1 (omega arith),
      rest.4,
      rest.5 ∙ rw place refl,
    )
