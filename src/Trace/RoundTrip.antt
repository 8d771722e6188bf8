-- ===== src/Trace/RoundTrip.antt =====
-- What `step_record_to_dict` gives is read again by `step_record_from_dict`.
use Prim.Native.String.{String}
use z80_python.Base.{
  ◌∷◌, ◌≡◌, Bool, List, Option, [], and_left, and_right, leb, ltb, none, refl, some, true, ℕ,
}
use z80_python.Debug.{
  Access, AccessKind, BoundaryKind, halt_idle, input, maskable_interrupt, non_maskable_interrupt,
  output, read, reset, write,
}
use z80_python.Debug.Points.{StepRecord, valid_record}
use z80_python.Disasm.{Instruction}
use z80_python.Disasm.Entry.{all_bytes}
use z80_python.Host.{done}
use z80_python.State.{CpuState, is_valid}
use z80_python.Trace.{hex, string}
use z80_python.Trace.Decode.{
  as_data, as_texts, as_vector, given_instruction, has_bytes, instruction_from_dict,
  instruction_from_members, keys_match, make_state, state_from_dict, valid_instruction,
}
use z80_python.Trace.Encode.{
  access_entries, access_entry, access_text, accesses_member, boundary_text, instruction_to_dict,
  state_to_dict, step_record_to_dict, texts, vector_json,
}
use z80_python.Trace.Hex.{fromhex-hex}
use z80_python.Trace.Record.{
  accesses_at, as_access, as_access_kind, as_accesses, as_boundary, make_record,
  step_record_from_dict,
}

as_vector-vector_json : (o : Option ℕ) → as_vector (vector_json o) ≡ done o
as_vector-vector_json none = refl
as_vector-vector_json (some v) = refl

state_from_dict-state_to_dict :
    (t : CpuState) → is_valid t ≡ true → state_from_dict (state_to_dict t) ≡ done t
unfolding state_from_dict state_to_dict make_state keys_match
state_from_dict-state_to_dict t h = rw (as_vector-vector_json t.maskable_interrupt_vector, h) refl

as_texts-texts : (ts : List String) → as_texts (texts ts) ≡ done ts
as_texts-texts [] = refl
as_texts-texts (t ∷ ts) = rw (as_texts-texts ts) refl

as_data-hex : (vs : List ℕ) → all_bytes vs ≡ true → as_data (string (hex vs)) ≡ done vs
as_data-hex vs h = rw (fromhex-hex vs h, as_data) refl

pub valid_instruction-bytes :
    (i : Instruction) → valid_instruction i ≡ true → all_bytes i.bytes ≡ true
unfolding valid_instruction
valid_instruction-bytes i h =
    and_left _ _ (and_right (has_bytes i.bytes) _ (and_right (leb i.address 0xFFFF) _ h))

abbrev pub valid_shown : Option Instruction → Bool
valid_shown none = true
valid_shown (some i) = valid_instruction i

instruction_from_dict-instruction_to_dict :
    (fuel : ℕ) (o : Option Instruction)
    → valid_shown o ≡ true
    → instruction_from_dict fuel (instruction_to_dict o) ≡ done o
unfolding instruction_from_dict instruction_to_dict instruction_from_members given_instruction
    keys_match
instruction_from_dict-instruction_to_dict fuel none h = refl
instruction_from_dict-instruction_to_dict fuel (some i) h =
    rw (as_data-hex i.bytes (valid_instruction-bytes i h), as_texts-texts i.operands, h) refl

as_access_kind-access_text :
    (kind : AccessKind) → as_access_kind (string (access_text kind)) ≡ done kind
unfolding as_access_kind access_text
as_access_kind-access_text read = refl
as_access_kind-access_text write = refl
as_access_kind-access_text input = refl
as_access_kind-access_text output = refl

as_access-access_entry : (x : Access) → as_access (access_entry x) ≡ done x
unfolding as_access
as_access-access_entry x = rw (as_access_kind-access_text x.kind) refl

as_accesses-access_entries : (log : List Access) → as_accesses (access_entries log) ≡ done log
as_accesses-access_entries [] = refl
as_accesses-access_entries (x ∷ log) =
    rw (as_access-access_entry x, as_accesses-access_entries log) refl

pub as_boundary-boundary_text :
    (kind : BoundaryKind) → as_boundary (string (boundary_text kind)) ≡ done kind
unfolding as_boundary boundary_text
as_boundary-boundary_text BoundaryKind.instruction = refl
as_boundary-boundary_text halt_idle = refl
as_boundary-boundary_text reset = refl
as_boundary-boundary_text non_maskable_interrupt = refl
as_boundary-boundary_text maskable_interrupt = refl

accesses_at-accesses_member : (o : Option (List Access)) → accesses_at (accesses_member o) ≡ done o
accesses_at-accesses_member none = refl
accesses_at-accesses_member (some log) = rw (as_accesses-access_entries log) refl

valid_record-t_states : (r : StepRecord) → valid_record r ≡ true → ltb 0 r.t_states ≡ true
unfolding valid_record
valid_record-t_states r h = and_left _ _ h

-- A record that passes the checks of `StepRecord`, of its two `CPUState`s and of its `Instruction`,
-- written as a dictionary and read again, is the same record, with any fuel for the disassembler.
pub step_record_from_dict-step_record_to_dict :
    (fuel : ℕ) (r : StepRecord)
    → valid_record r ≡ true
    → is_valid r.before ≡ true
    → is_valid r.after ≡ true
    → valid_shown r.shown ≡ true
    → step_record_from_dict fuel (step_record_to_dict r) ≡ done r
unfolding step_record_from_dict step_record_to_dict make_record keys_match
step_record_from_dict-step_record_to_dict fuel r h before after shown = go r.accesses h
  where
    go :
        (o : Option (List Access))
        → valid_record (record r { accesses = o }) ≡ true
        → step_record_from_dict fuel (step_record_to_dict (record r { accesses = o }))
          ≡ done (record r { accesses = o })
    go none k =
        rw
          (
            valid_record-t_states (record r { accesses = none }) k,
            as_boundary-boundary_text r.kind,
            state_from_dict-state_to_dict r.before before,
            state_from_dict-state_to_dict r.after after,
            instruction_from_dict-instruction_to_dict fuel r.shown shown,
            k,
          )
          refl
    go (some log) k =
        rw
          (
            valid_record-t_states (record r { accesses = some log }) k,
            as_boundary-boundary_text r.kind,
            state_from_dict-state_to_dict r.before before,
            state_from_dict-state_to_dict r.after after,
            instruction_from_dict-instruction_to_dict fuel r.shown shown,
            as_accesses-access_entries log,
            k,
          )
          refl
