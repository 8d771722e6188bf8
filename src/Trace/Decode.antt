-- ===== src/Trace/Decode.antt =====
-- Records from JSON-compatible values: `step_record_from_dict` (src/z80_python/trace.py).
use Prim.Native.String.{String}
use package.text.Mathlib.Text
use z80_python.Base.{
  ◌&&◌, ◌==◌, ◌||◌, ◌∷◌, Bool, List, Option, [], false, if◌then◌else◌, leb, none, not, some, true,
  ℕ,
}
use z80_python.Disasm.{Instruction}
use z80_python.Disasm.Entry.{all_bytes, disassemble_bytes}
use z80_python.Host.{Outcome, done, no_fuel, raised}
use z80_python.Prog.{value_error}
use z80_python.State.{CpuState, is_valid}
use z80_python.Trace.{
  Items, Json, Members, array, boolean, empty_array, empty_object, fromhex, item, member, null,
  number, object, string,
}

infixl 5 ◌>>=◌
abbrev pub ◌>>=◌ : {A B : Type 0} → Outcome A → (A → Outcome B) → Outcome B
done a >>= f = f a
raised e >>= f = raised e
no_fuel >>= f = no_fuel

-- A test that raises `ValueError` where it fails.
abbrev pub require : Bool → Outcome (Unit {0})
require true = done tt
require false = raised value_error

abbrev pub is_named : List String → String → Bool
is_named [] key = false
is_named (t ∷ ts) key = Text.◌==◌ t key || is_named ts key

abbrev pub has_key : Members → String → Bool
has_key empty_object key = false
has_key (member t v members) key = Text.◌==◌ t key || has_key members key

abbrev has_keys : Members → List String → Bool
has_keys members [] = true
has_keys members (t ∷ ts) = has_key members t && has_keys members ts

abbrev only_keys : List String → Members → Bool
only_keys expected empty_object = true
only_keys expected (member t v members) = is_named expected t && only_keys expected members

-- `_require_object` and `_require_keys`. An object of JSON has text keys, each of them once.
abbrev pub require_object : Json → Outcome Members
require_object (object members) = done members
require_object value = raised value_error

unfoldable pub keys_match : List String → Members → Bool
keys_match expected members = has_keys members expected && only_keys expected members

-- `value[key]`; a missing key has been refused before.
abbrev pub field : String → Members → Outcome Json
field key empty_object = raised value_error
field key (member t v members) = if Text.◌==◌ t key then done v else field key members

-- The types that a field may have.
abbrev pub as_number : Json → Outcome ℕ
as_number (number n) = done n
as_number value = raised value_error

abbrev pub as_boolean : Json → Outcome Bool
as_boolean (boolean b) = done b
as_boolean value = raised value_error

abbrev pub as_text : Json → Outcome String
as_text (string t) = done t
as_text value = raised value_error

abbrev pub as_vector : Json → Outcome (Option ℕ)
as_vector null = done none
as_vector (number n) = done (some n)
as_vector value = raised value_error

abbrev pub as_texts : Items → Outcome (List String)
as_texts empty_array = done []
as_texts (item v items) = do t ← as_text v; ts ← as_texts items; done (t ∷ ts)

abbrev pub number_at : String → Members → Outcome ℕ
number_at key members = field key members >>= as_number

abbrev pub boolean_at : String → Members → Outcome Bool
boolean_at key members = field key members >>= as_boolean

-- `_STATE_FIELDS`.
abbrev pub state_fields : List String
state_fields =
    "a" ∷ "f" ∷ "b" ∷ "c" ∷ "d" ∷ "e" ∷ "h" ∷ "l" ∷ "ix" ∷ "iy" ∷ "sp" ∷ "pc" ∷ "wz" ∷ "i" ∷ "r"
    ∷ "iff1" ∷ "iff2" ∷ "im" ∷ "af_alt" ∷ "bc_alt" ∷ "de_alt" ∷ "hl_alt" ∷ "q" ∷ "halted"
    ∷ "ei_delay" ∷ "reset_pending" ∷ "maskable_interrupt_vector" ∷ "non_maskable_interrupt_pending"
    ∷ []

-- `CPUState(**encoded)`.
unfoldable pub make_state : Members → Outcome CpuState
make_state members = do
  a ← number_at "a" members
  f ← number_at "f" members
  b ← number_at "b" members
  c ← number_at "c" members
  d ← number_at "d" members
  e ← number_at "e" members
  h ← number_at "h" members
  l ← number_at "l" members
  ix ← number_at "ix" members
  iy ← number_at "iy" members
  sp ← number_at "sp" members
  pc ← number_at "pc" members
  wz ← number_at "wz" members
  i ← number_at "i" members
  r ← number_at "r" members
  iff1 ← boolean_at "iff1" members
  iff2 ← boolean_at "iff2" members
  im ← number_at "im" members
  af_alt ← number_at "af_alt" members
  bc_alt ← number_at "bc_alt" members
  de_alt ← number_at "de_alt" members
  hl_alt ← number_at "hl_alt" members
  q ← number_at "q" members
  is_halted ← boolean_at "halted" members
  ei_delay ← number_at "ei_delay" members
  reset_pending ← boolean_at "reset_pending" members
  maskable_interrupt_vector ← field "maskable_interrupt_vector" members >>= as_vector
  non_maskable_interrupt_pending ← boolean_at "non_maskable_interrupt_pending" members
  let t : CpuState = record {
    a = a;
    f = f;
    b = b;
    c = c;
    d = d;
    e = e;
    h = h;
    l = l;
    ix = ix;
    iy = iy;
    sp = sp;
    pc = pc;
    wz = wz;
    i = i;
    r = r;
    iff1 = iff1;
    iff2 = iff2;
    im = im;
    af_alt = af_alt;
    bc_alt = bc_alt;
    de_alt = de_alt;
    hl_alt = hl_alt;
    q = q;
    halted = is_halted;
    ei_delay = ei_delay;
    reset_pending = reset_pending;
    maskable_interrupt_vector = maskable_interrupt_vector;
    non_maskable_interrupt_pending = non_maskable_interrupt_pending;
  }
  _ ← require (is_valid t)
  done t

-- `_state_from_dict`.
unfoldable pub state_from_dict : Json → Outcome CpuState
state_from_dict value = do
  members ← require_object value
  _ ← require (keys_match state_fields members)
  make_state members

-- `Instruction.__post_init__`: `false` is its `ValueError`.
abbrev is_empty : String → Bool
is_empty String.[] = true
is_empty (String.◌∷◌ c s) = false

abbrev pub has_bytes : List ℕ → Bool
has_bytes [] = false
has_bytes (v ∷ vs) = true

unfoldable pub valid_instruction : Instruction → Bool
valid_instruction i =
    leb i.address 0xFFFF && (has_bytes i.bytes && (all_bytes i.bytes && not (is_empty i.mnemonic)))

abbrev pub as_data : Json → Outcome (List ℕ)
as_data (string t) = elim (fromhex t) [ some vs ↦ done vs | none ↦ raised value_error ]
as_data value = raised value_error

abbrev pub as_operands : Json → Outcome (List String)
as_operands (array items) = as_texts items
as_operands value = raised value_error

abbrev same_bytes : List ℕ → List ℕ → Bool
same_bytes [] [] = true
same_bytes (v ∷ vs) (w ∷ ws) = v == w && same_bytes vs ws
same_bytes vs ws = false

-- Every exception of the disassembler is raised again as a `ValueError`.
abbrev derived : Outcome Instruction → List ℕ → Outcome (Option Instruction)
derived (done i) bytes = do _ ← require (same_bytes i.bytes bytes); done (some i)
derived (raised e) bytes = raised value_error
derived no_fuel bytes = no_fuel

abbrev short_keys : List String
short_keys = "address" ∷ "data" ∷ []

abbrev long_keys : List String
long_keys = "address" ∷ "data" ∷ "mnemonic" ∷ "operands" ∷ []

-- The two ways on, without and with a text of the instruction.
unfoldable pub derive_instruction : ℕ → Members → List ℕ → Outcome (Option Instruction)
derive_instruction fuel members bytes = do
  address ← number_at "address" members
  _ ← require (leb address 0xFFFF)
  derived (disassemble_bytes fuel bytes address) bytes

unfoldable pub given_instruction : Members → List ℕ → Outcome (Option Instruction)
given_instruction members bytes = do
  operands ← field "operands" members >>= as_operands
  address ← number_at "address" members
  mnemonic ← field "mnemonic" members >>= as_text
  let i : Instruction = record {
    address = address;
    bytes = bytes;
    mnemonic = mnemonic;
    operands = operands;
  }
  _ ← require (valid_instruction i)
  done (some i)

unfoldable pub instruction_from_members : ℕ → Members → Outcome (Option Instruction)
instruction_from_members fuel members = do
  _ ← require (keys_match short_keys members || keys_match long_keys members)
  bytes ← field "data" members >>= as_data
  if has_key members "mnemonic"
      then given_instruction members bytes
      else derive_instruction fuel members bytes

unfoldable pub instruction_from_dict : ℕ → Json → Outcome (Option Instruction)
instruction_from_dict fuel null = done none
instruction_from_dict fuel value = require_object value >>= instruction_from_members fuel
