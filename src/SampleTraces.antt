-- ===== src/SampleTraces.antt =====
-- Traces on concrete inputs.
use z80_python.Base.{◌↔◌, ◌∷◌, ◌≡◌, List, [], arith, none, refl, some, true, ℕ}
use z80_python.Cpu.{new}
use z80_python.Debug.{read}
use z80_python.Debug.Points.{StepRecord, valid_record}
use z80_python.Disasm.{hex16, instruction_at, word}
use z80_python.Disasm.Entry.{decode, decode_first, disassemble, disassemble_bytes, encoded_reader}
use z80_python.Disasm.Main.{decode_exchange, decode_main, decode_main_high}
use z80_python.Host.{done}
use z80_python.Samples.{a_record, shown_jump}
use z80_python.State.{is_valid, snapshot}
use z80_python.Timing.{at, timed}
use z80_python.Timing.Fits.{found_and_timed}
use z80_python.Timing.IndexCbLow.{index_cb_low}
use z80_python.Timing.Lookup.{index_cb_entry, instruction_timing}
use z80_python.Timing.Total.{instruction_timing_found}
use z80_python.Trace.{empty_object, hex_digit, hex_value, is_space, member, number, object, string}
use z80_python.Trace.Compare.{
  access_line, compare_accesses, compare_instruction, compare_state, compare_step_records,
  first_trace_divergence, int_value, iter_trace_divergences, state_values, tuple_value,
}
use z80_python.Trace.Compare.Aligned.{
  AlikeTraces, Ascending, Every, Located, iter_trace_divergences-AlikeTraces,
  iter_trace_divergences-Located,
}
use z80_python.Trace.Compare.Alike.{Alike, compare_step_records-Alike}
use z80_python.Trace.Decode.{
  derive_instruction, instruction_from_dict, instruction_from_members, keys_match,
  valid_instruction,
}
use z80_python.Trace.Encode.{access_text, boundary_text, step_record_to_dict}
use z80_python.Trace.Record.{step_record_from_dict}
use z80_python.Trace.RoundTrip.{step_record_from_dict-step_record_to_dict, valid_shown}

-- A record with an instruction and an access.
abbrev traced : StepRecord
unfolding a_record
traced = record a_record {
  shown = some shown_jump;
  accesses = some (record { kind = read; address = 0x8000; value = 0xC3 } ∷ []);
}

traced_valid : valid_record traced ≡ true
unfolding valid_record a_record
traced_valid = refl

state_valid : is_valid traced.before ≡ true
unfolding is_valid snapshot new traced
state_valid = refl

shown_valid : valid_shown traced.shown ≡ true
unfolding valid_instruction traced
shown_valid = refl

step_record_from_dict-step_record_to_dict_example :
    step_record_from_dict 0 (step_record_to_dict traced) ≡ done traced
unfolding a_record traced
step_record_from_dict-step_record_to_dict_example =
    step_record_from_dict-step_record_to_dict 0 traced traced_valid state_valid state_valid
      shown_valid

-- Without its text, an instruction is shown by the disassembler.
derived_text :
    instruction_from_dict 0
      (object (member "address" (number 0x8000) (member "data" (string "C3 0000") empty_object)))
    ≡ done (some shown_jump)
unfolding instruction_from_dict instruction_from_members derive_instruction keys_match is_space
    hex_value disassemble_bytes disassemble decode encoded_reader decode_first decode_main
    decode_main_high decode_exchange word instruction_at hex16
derived_text = refl

abbrev later_pc : StepRecord
unfolding a_record traced
later_pc = record traced { sequence = 7; t_states = 5 }

traces_diverge :
    first_trace_divergence (traced ∷ traced ∷ []) (record traced { sequence = 9 } ∷ later_pc ∷ [])
    ≡ some (record {
      position = 1;
      left = some traced;
      right = some later_pc;
      differences = record { path = "t_states"; left = int_value 4; right = int_value 5 } ∷ [];
    })
unfolding first_trace_divergence compare_step_records compare_instruction compare_state state_values
    compare_accesses access_line access_text boundary_text hex_digit traced later_pc a_record
    snapshot new
traces_diverge = refl

abbrev no_access : StepRecord
unfolding a_record traced
no_access = record traced { accesses = some [] }

-- Two traces that differ only in recorded accesses.
accesses_diverge :
    first_trace_divergence (traced ∷ []) (no_access ∷ [])
    ≡ some (record {
      position = 0;
      left = some traced;
      right = some no_access;
      differences =
          record {
            path = "accesses";
            left = tuple_value ("r 8000=C3" ∷ []);
            right = tuple_value [];
          }
          ∷ [];
    })
unfolding first_trace_divergence compare_step_records compare_instruction compare_state state_values
    compare_accesses access_line access_text boundary_text hex_digit traced no_access a_record
    snapshot new
accesses_diverge = refl

-- The same traces, where the accesses of the second one are not recorded.
absent_accesses :
    first_trace_divergence (traced ∷ []) (record traced { accesses = none } ∷ []) ≡ none
unfolding first_trace_divergence compare_step_records compare_instruction compare_state state_values
    compare_accesses access_line access_text boundary_text hex_digit traced a_record snapshot new
absent_accesses = refl

compare_step_records-Alike_example : (compare_step_records traced traced ≡ []) ↔ Alike traced traced
compare_step_records-Alike_example =
    compare_step_records-Alike traced traced shown_valid shown_valid

iter_trace_divergences-AlikeTraces_example :
    (iter_trace_divergences (traced ∷ []) (traced ∷ []) ≡ [])
    ↔ AlikeTraces (traced ∷ []) (traced ∷ [])
iter_trace_divergences-AlikeTraces_example =
    iter_trace_divergences-AlikeTraces (traced ∷ []) (traced ∷ []) (shown_valid, tt)
      (shown_valid, tt)

iter_trace_divergences-Located_example :
    Every
      (Located 0 (traced ∷ []) (traced ∷ later_pc ∷ []))
      (iter_trace_divergences (traced ∷ []) (traced ∷ later_pc ∷ []))
    × Ascending 0 (iter_trace_divergences (traced ∷ []) (traced ∷ later_pc ∷ []))
iter_trace_divergences-Located_example =
    iter_trace_divergences-Located (traced ∷ []) (traced ∷ later_pc ∷ [])

-- DD CB 05 46 behind a stray DD, then a NOP.
abbrev prefixed_bit : List ℕ
prefixed_bit = 0xDD ∷ 0xDD ∷ 0xCB ∷ 0x05 ∷ 0x46 ∷ 0x00 ∷ []

prefixed_bit_timing :
    instruction_timing prefixed_bit
    ≡ some (
        timed
          (at read 1 ∷ at read 5 ∷ at read 9 ∷ at read 13 ∷ at read 16 ∷ at read 21 ∷ [])
          ((24, 6) ∷ []))
unfolding instruction_timing index_cb_entry index_cb_low
prefixed_bit_timing = refl

instruction_timing_found_example : found_and_timed (instruction_timing prefixed_bit) ≡ true
instruction_timing_found_example =
    instruction_timing_found prefixed_bit 2 0xCB refl refl refl (omega arith)
