-- ===== src/Trace/Encode.antt =====
-- Records as JSON-compatible values: `step_record_to_dict` (src/z80_python/trace.py).
use Prim.Native.String.{String}
use z80_python.Base.{◌∷◌, List, Option, [], none, some, ℕ}
use z80_python.Debug.{
  Access, AccessKind, BoundaryKind, halt_idle, input, maskable_interrupt, non_maskable_interrupt,
  output, read, reset, write,
}
use z80_python.Debug.Points.{StepRecord}
use z80_python.Disasm.{Instruction}
use z80_python.State.{CpuState}
use z80_python.Trace.{
  Items, Json, Members, array, boolean, empty_array, empty_object, hex, item, member, null, number,
  object, string,
}

abbrev pub vector_json : Option ℕ → Json
vector_json none = null
vector_json (some v) = number v

-- `_state_to_dict`, in the order of the fields of `CPUState`.
unfoldable pub state_to_dict : CpuState → Json
state_to_dict t = object (
    member "a" (number t.a) (
      member "f" (number t.f) (
        member "b" (number t.b) (
          member "c" (number t.c) (
            member "d" (number t.d) (
              member "e" (number t.e) (
                member "h" (number t.h) (
                  member "l" (number t.l) (
                    member "ix" (number t.ix) (
                      member "iy" (number t.iy) (
                        member "sp" (number t.sp) (
                          member "pc" (number t.pc) (
                            member "wz" (number t.wz) (
                              member "i" (number t.i) (
                                member "r" (number t.r) (
                                  member "iff1" (boolean t.iff1) (
                                    member "iff2" (boolean t.iff2) (
                                      member "im" (number t.im) (
                                        member "af_alt" (number t.af_alt) (
                                          member "bc_alt" (number t.bc_alt) (
                                            member "de_alt" (number t.de_alt) (
                                              member "hl_alt" (number t.hl_alt) (
                                                member "q" (number t.q) (
                                                  member "halted" (boolean t.halted) (
                                                    member "ei_delay" (number t.ei_delay) (
                                                      member "reset_pending"
                                                        (boolean t.reset_pending)
                                                        (member "maskable_interrupt_vector"
                                                          (vector_json t.maskable_interrupt_vector)
                                                          (member "non_maskable_interrupt_pending"
                                                            (boolean
                                                            t.non_maskable_interrupt_pending)
                                                            (empty_object)))))))))))))))))))))))))))))

abbrev pub texts : List String → Items
texts [] = empty_array
texts (t ∷ ts) = item (string t) (texts ts)

unfoldable pub instruction_to_dict : Option Instruction → Json
instruction_to_dict none = null
instruction_to_dict (some i) = object (
    member "address" (number i.address) (
      member "data" (string (hex i.bytes)) (
        member "mnemonic" (string i.mnemonic)
          (member "operands" (array (texts i.operands)) empty_object))))

-- `BoundaryKind.value` and the kinds of accesses.
unfoldable pub boundary_text : BoundaryKind → String
boundary_text BoundaryKind.instruction = "instruction"
boundary_text halt_idle = "halt_idle"
boundary_text reset = "reset"
boundary_text non_maskable_interrupt = "non_maskable_interrupt"
boundary_text maskable_interrupt = "maskable_interrupt"

unfoldable pub access_text : AccessKind → String
access_text read = "r"
access_text write = "w"
access_text input = "in"
access_text output = "out"

abbrev pub access_entry : Access → Json
access_entry x = array (
    item (string (access_text x.kind))
      (item (number x.address) (item (number x.value) empty_array)))

abbrev pub access_entries : List Access → Items
access_entries [] = empty_array
access_entries (x ∷ log) = item (access_entry x) (access_entries log)

abbrev pub accesses_member : Option (List Access) → Members
accesses_member none = empty_object
accesses_member (some log) = member "accesses" (array (access_entries log)) empty_object

unfoldable pub step_record_to_dict : StepRecord → Json
step_record_to_dict step_record = object (
    member "version" (number 1) (
      member "sequence" (number step_record.sequence) (
        member "kind" (string (boundary_text step_record.kind)) (
          member "t_states" (number step_record.t_states) (
            member "instruction" (instruction_to_dict step_record.shown) (
              member "before" (state_to_dict step_record.before) (
                member "after" (state_to_dict step_record.after)
                  (accesses_member step_record.accesses))))))))
