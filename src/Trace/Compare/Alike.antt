-- ===== src/Trace/Compare/Alike.antt =====
-- No differences are found exactly where two records show the same.
use mathlib.Core.Path.{fun_ext}
use Prim.Native.String.{String}
use z80_python.Base.{
  ◌++◌, ◌↔◌, ◌∙◌, ◌∷◌, ◌≡◌, Bool-cases, List, Option, [], and_intro, and_left, and_right, ap, arith,
  if◌then◌else◌, inl, inr, length, map, none, refl, some, suc, sym, true, zero, ℕ,
}
use z80_python.Debug.{Access, BoundaryKind}
use z80_python.Debug.Points.{StepRecord}
use z80_python.Disasm.{Instruction}
use z80_python.Disasm.Entry.{all_bytes}
use z80_python.Host.{done}
use z80_python.State.{CpuState}
use z80_python.Trace.{fromhex, hex, string}
use z80_python.Trace.Compare.{
  TraceValue, access_line, compare_accesses, compare_fields, compare_instruction, compare_state,
  compare_step_records, compared, int_value, same_value, same_values, state_values, str_value,
  tuple_value,
}
use z80_python.Trace.Compare.Equal.{
  append-nil_left, append-nil_right, compared_equal, same_value_equal, same_value_self, state_of,
  state_of-state_values, value_at,
}
use z80_python.Trace.Encode.{boundary_text}
use z80_python.Trace.Hex.{fromhex-hex}
use z80_python.Trace.Record.{as_boundary}
use z80_python.Trace.RoundTrip.{as_boundary-boundary_text, valid_instruction-bytes, valid_shown}

same_values-value_at :
    (vs ws : List (String × TraceValue)) (k : ℕ)
    → same_values vs ws ≡ true
    → value_at vs k ≡ value_at ws k
same_values-value_at [] [] k h = refl
same_values-value_at [] (w ∷ ws) k h = cc
same_values-value_at (v ∷ vs) [] k h = cc
same_values-value_at ((n, v) ∷ vs) ((m, w) ∷ ws) zero h = same_value_equal v w (and_left _ _ h)
same_values-value_at ((n, v) ∷ vs) ((m, w) ∷ ws) (suc k) h =
    same_values-value_at vs ws k (and_right (same_value v w) _ h)

compare_fields-value_at :
    (prefix : String) (vs ws : List (String × TraceValue)) (k : ℕ)
    → length vs ≡ length ws
    → compare_fields prefix vs ws ≡ []
    → value_at vs k ≡ value_at ws k
compare_fields-value_at prefix [] [] k e h = refl
compare_fields-value_at prefix [] (w ∷ ws) k e h = absurd (omega arith)
compare_fields-value_at prefix (v ∷ vs) [] k e h = absurd (omega arith)
compare_fields-value_at prefix ((n, v) ∷ vs) ((m, w) ∷ ws) zero e h =
    compared_equal _ v w (append-nil_left _ _ h)
compare_fields-value_at prefix ((n, v) ∷ vs) ((m, w) ∷ ws) (suc k) e h =
    compare_fields-value_at prefix vs ws k (omega arith) (append-nil_right _ _ h)

as_long : (s t : CpuState) → length (state_values s) ≡ length (state_values t)
unfolding state_values
as_long s t = refl

states_equal :
    (s t : CpuState) → ((k : ℕ) → value_at (state_values s) k ≡ value_at (state_values t) k) → s ≡ t
states_equal s t h =
    sym (state_of-state_values s) ∙ (ap state_of (fun_ext h) ∙ state_of-state_values t)

compare_state_equal : (prefix : String) (s t : CpuState) → compare_state prefix s t ≡ [] → s ≡ t
unfolding compare_state
compare_state_equal prefix s t h =
    states_equal s t (elim (Bool-cases (same_values (state_values s) (state_values t))) [
      | inl e ↦ λ k. same_values-value_at (state_values s) (state_values t) k e
      | inr e ↦ λ k.
          compare_fields-value_at prefix (state_values s) (state_values t) k (as_long s t)
            (rw e at h)
    ])

same_instruction :
    (i j : Instruction)
    → i.address ≡ j.address
    → i.bytes ≡ j.bytes
    → i.mnemonic ≡ j.mnemonic
    → i.operands ≡ j.operands
    → i ≡ j
same_instruction i j p q r s k = record {
  address = p k;
  bytes = q k;
  mnemonic = r k;
  operands = s k;
}

hex_equal : (vs ws : List ℕ) → all_bytes vs ≡ true → all_bytes ws ≡ true → hex vs ≡ hex ws → vs ≡ ws
hex_equal vs ws a b h =
    let same : some vs ≡ some ws = sym (fromhex-hex vs a) ∙ (ap fromhex h ∙ fromhex-hex ws b) in cc

compare_instruction_equal :
    (o p : Option Instruction)
    → valid_shown o ≡ true
    → valid_shown p ≡ true
    → compare_instruction o p ≡ []
    → o ≡ p
unfolding compare_instruction
compare_instruction_equal none none a b h = refl
compare_instruction_equal none (some j) a b h = cc
compare_instruction_equal (some i) none a b h = cc
compare_instruction_equal (some i) (some j) a b h =
    let address : int_value i.address ≡ int_value j.address =
      compared_equal _ _ _ (append-nil_left _ _ h) in
    let h1 = append-nil_right _ _ h in
    let shown_bytes : str_value (hex i.bytes) ≡ str_value (hex j.bytes) =
      compared_equal _ _ _ (append-nil_left _ _ h1) in
    let h2 = append-nil_right _ _ h1 in
    let mnemonic : str_value i.mnemonic ≡ str_value j.mnemonic =
      compared_equal _ _ _ (append-nil_left _ _ h2) in
    let operands : tuple_value i.operands ≡ tuple_value j.operands =
      compared_equal _ _ _ (append-nil_right _ _ h2) in
    let same_address : i.address ≡ j.address = cc in
    let same_hex : hex i.bytes ≡ hex j.bytes = cc in
    let same_mnemonic : i.mnemonic ≡ j.mnemonic = cc in
    let same_operands : i.operands ≡ j.operands = cc in
    let same_bytes =
      hex_equal i.bytes j.bytes (valid_instruction-bytes i a) (valid_instruction-bytes j b)
        same_hex in
    ap some (same_instruction i j same_address same_bytes same_mnemonic same_operands)

boundary_text_equal : (k l : BoundaryKind) → boundary_text k ≡ boundary_text l → k ≡ l
boundary_text_equal k l h =
    let same : done k ≡ done l =
      sym (as_boundary-boundary_text k)
      ∙ (ap (λ t. as_boundary (string t)) h ∙ as_boundary-boundary_text l) in
    cc

-- Nothing to choose between two lists of accesses, or one of them was not recorded.
abbrev pub AlikeAccesses : Option (List Access) → Option (List Access) → Type 0
AlikeAccesses (some left) (some right) = map access_line left ≡ map access_line right
AlikeAccesses left right = Unit

compare_accesses_alike :
    (o p : Option (List Access)) → compare_accesses o p ≡ [] → AlikeAccesses o p
unfolding compare_accesses
compare_accesses_alike none none h = tt
compare_accesses_alike none (some right) h = tt
compare_accesses_alike (some left) none h = tt
compare_accesses_alike (some left) (some right) h =
    let same : tuple_value (map access_line left) ≡ tuple_value (map access_line right) =
      compared_equal _ _ _ h in
    cc

-- The records show the same, whatever their numbers in their sessions.
pub record Alike (left right : StepRecord) : Type 0 where
  pub kind : left.kind ≡ right.kind
  pub shown : left.shown ≡ right.shown
  pub t_states : left.t_states ≡ right.t_states
  pub before : left.before ≡ right.before
  pub after : left.after ≡ right.after
  pub accesses : AlikeAccesses left.accesses right.accesses

compared_same : (path : String) {v w : TraceValue} → v ≡ w → compared path v w ≡ []
compared_same path {v} e =
    ap (compared path v) (sym e)
    ∙ ap (λ t. if t then [] else record { path = path; left = v; right = v } ∷ [])
        (same_value_self v)

both_nil : {A : Type 0} {xs ys : List A} → xs ≡ [] → ys ≡ [] → xs ++ ys ≡ []
both_nil p q = cc

compare_instruction_self : (o : Option Instruction) → compare_instruction o o ≡ []
unfolding compare_instruction
compare_instruction_self none = refl
compare_instruction_self (some i) =
    both_nil (compared_same "instruction.address" {v = int_value i.address} refl) (
      both_nil (compared_same "instruction.data" {v = str_value (hex i.bytes)} refl) (
        both_nil (compared_same "instruction.mnemonic" {v = str_value i.mnemonic} refl)
          (compared_same "instruction.operands" {v = tuple_value i.operands} refl)))

same_values_self : (vs : List (String × TraceValue)) → same_values vs vs ≡ true
same_values_self [] = refl
same_values_self ((n, v) ∷ vs) = and_intro _ _ (same_value_self v) (same_values_self vs)

compare_state_same : (prefix : String) {s t : CpuState} → s ≡ t → compare_state prefix s t ≡ []
unfolding compare_state
compare_state_same prefix {s} e =
    ap (compare_state prefix s) (sym e) ∙ (rw (same_values_self (state_values s)) refl)

compare_accesses_same : (o p : Option (List Access)) → AlikeAccesses o p → compare_accesses o p ≡ []
unfolding compare_accesses
compare_accesses_same none none h = refl
compare_accesses_same none (some right) h = refl
compare_accesses_same (some left) none h = refl
compare_accesses_same (some left) (some right) h = compared_same "accesses" (ap tuple_value h)

differences-Alike :
    (left right : StepRecord)
    → valid_shown left.shown ≡ true
    → valid_shown right.shown ≡ true
    → compare_step_records left right ≡ []
    → Alike left right
unfolding compare_step_records
differences-Alike left right a b h =
    let h1 = append-nil_right _ _ h in
    let h2 = append-nil_right _ _ h1 in
    let h3 = append-nil_right _ _ h2 in
    let h4 = append-nil_right _ _ h3 in
    let kinds : str_value (boundary_text left.kind) ≡ str_value (boundary_text right.kind) =
      compared_equal "kind" (str_value (boundary_text left.kind))
        (str_value (boundary_text right.kind)) (append-nil_left _ _ h) in
    let counts : int_value left.t_states ≡ int_value right.t_states =
      compared_equal "t_states" (int_value left.t_states) (int_value right.t_states)
        (append-nil_left _ _ h2) in
    record {
      kind = boundary_text_equal left.kind right.kind cc;
      shown = compare_instruction_equal left.shown right.shown a b (append-nil_left _ _ h1);
      t_states = cc;
      before = compare_state_equal "before" left.before right.before (append-nil_left _ _ h3);
      after = compare_state_equal "after" left.after right.after (append-nil_left _ _ h4);
      accesses = compare_accesses_alike left.accesses right.accesses (append-nil_right _ _ h4);
    }

Alike-differences :
    (left right : StepRecord) → Alike left right → compare_step_records left right ≡ []
unfolding compare_step_records
Alike-differences left right h =
    both_nil (compared_same "kind" (ap (λ k. str_value (boundary_text k)) h.kind)) (
      both_nil
        (ap (compare_instruction left.shown) (sym h.shown) ∙ compare_instruction_self left.shown)
        (both_nil (compared_same "t_states" (ap int_value h.t_states)) (
          both_nil (compare_state_same "before" h.before) (
            both_nil (compare_state_same "after" h.after)
              (compare_accesses_same left.accesses right.accesses h.accesses)))))

-- Two records whose instructions pass the checks of `Instruction` differ in nothing that
-- `compare_step_records` reports exactly when they have the same kind, instruction, T-states and
-- states before and after, and, if both have recorded their accesses, the same lines of accesses.
pub compare_step_records-Alike :
    (left right : StepRecord)
    → valid_shown left.shown ≡ true
    → valid_shown right.shown ≡ true
    → (compare_step_records left right ≡ []) ↔ Alike left right
compare_step_records-Alike left right a b =
    (differences-Alike left right a b, Alike-differences left right)
