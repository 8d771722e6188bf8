-- ===== src/Examples.antt =====
-- Runs on concrete inputs, and the theorems at inputs where their hypotheses hold.
use z80_python.Base.{
  ◌%◌, ◌*◌, ◌+◌, ◌<◌, ◌∷◌, ◌≡◌, ◌≤◌, Bool, [], arith, bit_and, false, get_elem?, if◌then◌else◌, ltb,
  none, refl, some, suc, true, u16, zero, ℕ,
}
use z80_python.Alu.{add, cp, set_a, sub}
use z80_python.Alu.Decimal.{op_daa-add, op_daa-sub}
use z80_python.Alu.Ops.{op_daa}
use z80_python.Alu.Sums.{add-expected, cp-expected, sub-expected}
use z80_python.Contract.{IsWf, Safe}
use z80_python.Contract.Execute.{Within}
use z80_python.Contract.Interrupt.{step-Safe}
use z80_python.Contract.Step.{Fueled, Unsupported, decode_and_execute-Fueled}
use z80_python.Control.{op_call, op_ret, op_retn}
use z80_python.Control.Exchange.{exchanged, op_exx-op_exx}
use z80_python.Control.Misc.{op_exx}
use z80_python.Core.{bc, de, hl, inc_r, pop_word, push_word}
use z80_python.Core.Lifecycle.{accept_non_maskable_interrupt}
use z80_python.Cpu.{Cpu, new}
use z80_python.Debug.{next_boundary, wrap_bus}
use z80_python.Debug.Boundary.{carry_out, step-next_boundary}
use z80_python.Debug.Tracked.{accesses, run-wrap_bus}
use z80_python.Dispatch.Execute.{decode_and_execute, plus_t_states}
use z80_python.Dispatch.Method.{Method, Unary}
use z80_python.Dispatch.Page.{Argument, Entry, Rule, build_page, entry_for}
use z80_python.Dispatch.Page.Claims.{build_page-claims}
use z80_python.Dispatch.Page.Complete.{build_page_complete}
use z80_python.Dispatch.Pages.{cb_page, index_page}
use z80_python.Dispatch.Rules.{range, rule}
use z80_python.Dispatch.Rules.Index.{index_rules}
use z80_python.Dispatch.Rules.Main.{cb_rules}
use z80_python.Flags.{flag_c}
use z80_python.Host.{Memory, done, flat, no_fuel, run}
use z80_python.Host.Calls.{op_ret-op_call, op_retn-accept_non_maskable_interrupt}
use z80_python.Host.Copy.{copy_up, rounds, rounds-copy_up}
use z80_python.Host.Prefixes.{
  decode_and_execute-endless, decode_and_execute-prefixes, fetched, prefix_at,
}
use z80_python.Host.Stack.{pop_word-push_word, pushed}
use z80_python.Prog.{◌>>=◌, ok, ret}
use z80_python.Rotate.{rl, rlc, rr, rrc}
use z80_python.Rotate.Inverse.{rr-rl, rrc-rlc}
use z80_python.State.{CpuState, capture_state, is_valid, restore_state, snapshot}
use z80_python.State.Laws.{capture-restore, restore-capture}
use z80_python.Step.{step}

new-IsWf : IsWf new
unfolding new
new-IsWf = omega arith

-- A CPU in the middle of a program, its stack below 0x8000.
abbrev running : Cpu
unfolding new
running = record new { pc = 0x1234; sp = 0x8000; iff1 = true; iff2 = false }

running-IsWf : IsWf running
unfolding new
running-IsWf = omega arith

abbrev interrupted : Cpu
interrupted = record running { non_maskable_interrupt_pending = true; halted = true }

interrupted-IsWf : IsWf interrupted
unfolding running
interrupted-IsWf = omega arith

-- Three prefixes, then NOP everywhere.
abbrev three_prefixes : Memory
three_prefixes a = if ltb a 3 then 0xDD else 0x00

abbrev all_prefixes : Memory
all_prefixes a = 0xDD

abbrev zeros : Memory
zeros a = 0

step-Safe_example : Safe (Unit {0}) (Unsupported new) (Within 35) (step 2 new)
step-Safe_example = step-Safe 2 new new-IsWf

step-next_boundary_example :
    step 2 interrupted ≡ carry_out 2 (next_boundary (snapshot interrupted)) interrupted
step-next_boundary_example = step-next_boundary 2 interrupted

decode_and_execute-Fueled_example : Fueled (Within 35) (decode_and_execute 2 running)
decode_and_execute-Fueled_example = decode_and_execute-Fueled 2 running running-IsWf

three_prefixes_there : (i : ℕ) → i ≤ 2 → prefix_at three_prefixes (new.pc + i) ≡ true
unfolding new
three_prefixes_there zero h = refl
three_prefixes_there (suc zero) h = refl
three_prefixes_there (suc (suc zero)) h = refl
three_prefixes_there (suc (suc (suc i))) h = absurd (omega arith)

new_pc-lt : new.pc < 65536
unfolding new
new_pc-lt = omega arith

no_fourth : prefix_at three_prefixes (new.pc + 1 + 2) ≡ false
unfolding new
no_fourth = refl

decode_and_execute-prefixes_example :
    run flat (decode_and_execute 5 new) three_prefixes
    ≡ run flat (plus_t_states (4 * 2) (decode_and_execute 0 (fetched 2 new))) three_prefixes
decode_and_execute-prefixes_example =
    decode_and_execute-prefixes three_prefixes 2 5 new (omega arith) new_pc-lt three_prefixes_there
      no_fourth

decode_and_execute-endless_example :
    run flat (decode_and_execute 9 new) all_prefixes ≡ (no_fuel, all_prefixes)
decode_and_execute-endless_example = decode_and_execute-endless all_prefixes 9 new (λ a. refl)

op_ret-op_call_example :
    run flat (op_call 0xCD running >>= λ r. op_ret r.1) zeros
    ≡ (done (10, record running { pc = 0x1236; wz = 0x1236; q = 0 }), pushed 0x1236 0x8000 zeros)
unfolding running
op_ret-op_call_example = op_ret-op_call running zeros running-IsWf

op_retn-accept_non_maskable_interrupt_example :
    run flat (accept_non_maskable_interrupt interrupted >>= λ r. op_retn r.1) zeros ≡ (
      done (
        14,
        record (inc_r interrupted) {
          iff2 = true;
          wz = 0x1234;
          q = 0;
          halted = false;
          non_maskable_interrupt_pending = false;
        },
      ),
      pushed 0x1234 0x8000 zeros,
    )
unfolding new
op_retn-accept_non_maskable_interrupt_example =
    op_retn-accept_non_maskable_interrupt interrupted zeros interrupted-IsWf refl refl

pop_word-push_word_example :
    run flat (push_word 0xBEEF running >>= pop_word) zeros
    ≡ (done (0xBEEF, running), pushed 0xBEEF 0x8000 zeros)
unfolding running
pop_word-push_word_example = pop_word-push_word 0xBEEF running zeros (omega arith) (omega arith)

run-wrap_bus_example : run (wrap_bus flat) (push_word 0xBEEF running) (zeros, []) ≡ (
  (run flat (push_word 0xBEEF running) zeros).0,
  ((run flat (push_word 0xBEEF running) zeros).1, accesses flat (push_word 0xBEEF running) zeros),
)
run-wrap_bus_example = run-wrap_bus flat (push_word 0xBEEF running) zeros []

-- 0x7F + 0x01: the signed sum overflows into the sign.
add-expected_example : add 0x7F 0x01 0 new ≡ (0x80, record new { f = 0x94 })
add-expected_example = add-expected 0x7F 0x01 0 new (omega arith) (omega arith) (omega arith)

sub-expected_example : sub 0x10 0x20 1 new ≡ (0xEF, record new { f = 0xBB })
sub-expected_example = sub-expected 0x10 0x20 1 new (omega arith) (omega arith) (omega arith)

cp-expected_example : cp 0x10 0x28 new ≡ record new { f = 0xBB }
cp-expected_example = cp-expected 0x10 0x28 new (omega arith) (omega arith)

op_daa-add_example :
    (t : Cpu) × (op_daa (set_a (add 0x47 0x85 0 new)) ≡ ret (4, t))
    × (t.a ≡ 0x32)
    × (bit_and t.f flag_c ≡ 1)
op_daa-add_example = op_daa-add 47 85 0 new (omega arith) (omega arith) (omega arith)

op_daa-sub_example :
    (t : Cpu) × (op_daa (set_a (sub 0x20 0x35 0 new)) ≡ ret (4, t))
    × (t.a ≡ 0x85)
    × (bit_and t.f flag_c ≡ 1)
op_daa-sub_example = op_daa-sub 20 35 0 new (omega arith) (omega arith) (omega arith)

restore-capture_example :
    (t : CpuState) × (capture_state running ≡ some t) × (restore_state t running ≡ running)
restore-capture_example = restore-capture running running-IsWf

running-is_valid : is_valid (snapshot running) ≡ true
unfolding is_valid snapshot new
running-is_valid = refl

capture-restore_example :
    capture_state (restore_state (snapshot running) new) ≡ some (snapshot running)
capture-restore_example = capture-restore (snapshot running) new running-is_valid

abbrev copying : Cpu
unfolding new
copying = record new { pc = 0x0100; b = 0x00; c = 0x02; d = 0x50; e = 0x00; h = 0x40; l = 0xFF }

copying_pc-lt : copying.pc < 65536
unfolding copying new
copying_pc-lt = omega arith

copying_count : bc copying ≡ u16 (1 + 1)
unfolding copying bc
copying_count = refl

abbrev squares : Memory
squares a = a * a % 256

rounds-copy_up_example :
    (t : Cpu) × (run flat (rounds 2 0 copying) squares
      ≡ (done (37, t), copy_up 2 (hl copying) (de copying) squares))
    × (hl t ≡ u16 (hl copying + 1 + 1))
    × (de t ≡ u16 (de copying + 1 + 1))
    × (bc t ≡ 0)
    × (t.pc ≡ u16 (copying.pc + 2))
rounds-copy_up_example =
    rounds-copy_up 1 0 copying squares (omega arith) copying_pc-lt copying_count

rrc-rlc_example :
    ((rrc (rlc 0x81 new).0 (rlc 0x81 new).1).0 ≡ 0x81) × (bit_and (rlc 0x81 new).1.f flag_c ≡ 1)
rrc-rlc_example = rrc-rlc 0x81 new (omega arith)

rr-rl_example :
    ((rr (rl 0x81 new).0 (rl 0x81 new).1).0 ≡ 0x81)
    × (bit_and (rr (rl 0x81 new).0 (rl 0x81 new).1).1.f flag_c ≡ bit_and new.f flag_c)
rr-rl_example = rr-rl 0x81 new (omega arith)

op_exx-op_exx_example :
    (op_exx running ≡ ret (4, exchanged running))
    × ((do r ← op_exx running; plus_t_states r.0 (op_exx r.1)) ≡ ret (8, record running { q = 0 }))
op_exx-op_exx_example = op_exx-op_exx running running-IsWf

bit_rule : Rule (Unit {0})
bit_rule = rule (range 0x40 0x80) (Method.unary Unary.bit) Argument.opcode tt

cb_page_built : build_page cb_rules none [] ≡ ok cb_page
unfolding build_page cb_page cb_rules
cb_page_built = refl

bit_rule_there : get_elem? cb_rules 1 ≡ some bit_rule
unfolding cb_rules bit_rule
bit_rule_there = refl

bit_rule_claims : get_elem? bit_rule.opcodes 0x3F ≡ some 0x7F
unfolding bit_rule
bit_rule_claims = refl

build_page-claims_example : get_elem? cb_page 0x7F ≡ some (some (entry_for bit_rule 0x7F))
build_page-claims_example =
    build_page-claims cb_rules none [] cb_page cb_page_built 1 bit_rule bit_rule_there 0x3F 0x7F
      bit_rule_claims

index_page_built : build_page index_rules none (0xDD ∷ 0xED ∷ 0xFD ∷ []) ≡ ok index_page
unfolding build_page index_page index_rules
index_page_built = refl

build_page_complete_example : (e : Entry Bool) × (get_elem? index_page 0x21 ≡ some (some e))
build_page_complete_example =
    build_page_complete index_rules none (0xDD ∷ 0xED ∷ 0xFD ∷ []) index_page index_page_built 0x21
      (omega arith) refl
