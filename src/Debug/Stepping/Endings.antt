-- ===== src/Debug/Stepping/Endings.antt =====
-- What it means that an action of a step of a session ends in a value.
use z80_python.Base.{
  ◌≡◌, ◌⊎◌, Bool, Option, ap, false, if◌then◌else◌, inl, inr, none, refl, some, true, ℕ,
}
use z80_python.Debug.{BoundaryKind}
use z80_python.Debug.Points.{StepRecord, starts_instruction, valid_record}
use z80_python.Debug.Stepping.{
  ◌>>=◌, Action, DebugTarget, World, after_outcome, clear_log, count_step, keep_record, preview,
}
use z80_python.Disasm.{Instruction}
use z80_python.Disasm.Entry.{Reader, disassemble}
use z80_python.Host.{Outcome, done, no_fuel, raised}
use z80_python.Prog.{value_error}
use z80_python.State.{CpuState}

-- The instruction that a reader shows, if there is one and an instruction is next.
abbrev pub Previewed : Bool → Option Reader → ℕ → ℕ → Option Instruction → Type 0
Previewed true (some reader) fuel pc shown =
    (i : Instruction) × (disassemble fuel reader pc ≡ done i) × (shown ≡ some i)
Previewed starts peek_byte fuel pc shown = shown ≡ none

-- The target when its `step` is called.
abbrev pub cleared : {S : Type 0} → DebugTarget S → World S → S
cleared machine w = if w.session.tracking then machine.clear_accesses w.target else w.target

-- The outcome is not a value.
abbrev pub Failed : {A : Type 0} → Outcome A → Type 0
Failed (done a) = ⊥
Failed (raised e) = Unit {0}
Failed no_fuel = Unit {0}

pub bind-done :
    {S A B : Type 0} (m : Action S A) (f : A → Action S B) (w v : World S) (b : B)
    → (m >>= f) w ≡ (done b, v)
    → (a : A) × (u : World S) × (m w ≡ (done a, u)) × (f a u ≡ (done b, v))
bind-done {S} {A} m f w v b h = go (m w) h
  where
    go :
        (o : Outcome A × World S)
        → after_outcome o f ≡ (done b, v)
        → (a : A) × (u : World S) × (o ≡ (done a, u)) × (f a u ≡ (done b, v))
    go (done a, u) k = (a, u, refl, k)
    go (raised e, u) k = cc
    go (no_fuel, u) k = cc

pub keep_record-done :
    {S : Type 0} (s r : StepRecord) (w v : World S)
    → keep_record s w ≡ (done r, v)
    → (s ≡ r) × (record w { session = count_step s w.session } ≡ v) × (valid_record s ≡ true)
unfolding keep_record
keep_record-done {S} s r w v = go (valid_record s)
  where
    go :
        (t : Bool)
        → ◌≡◌ {A = Outcome StepRecord × World S}
            (if t
              then (done s, record w { session = count_step s w.session })
              else (raised value_error, w))
            (done r, v)
        → (s ≡ r) × (record w { session = count_step s w.session } ≡ v) × (t ≡ true)
    go true k = (cc, ap (λ p. p.1) k, refl)
    go false k = cc

pub preview-done :
    {S : Type 0} (peek_byte : Option Reader) (fuel : ℕ) (kind : BoundaryKind) (before : CpuState)
    (shown : Option Instruction) (w u : World S)
    → preview peek_byte fuel kind before w ≡ (done shown, u)
    → Previewed (starts_instruction kind) peek_byte fuel before.pc shown × (w ≡ u)
unfolding preview
preview-done {S} peek_byte fuel kind before shown w u = go (starts_instruction kind) peek_byte
  where
    seen :
        (reader : Reader) (o : Outcome Instruction)
        → disassemble fuel reader before.pc ≡ o
        → (elim o as (λ _. Outcome (Option Instruction) × World S) [
          | done i ↦ (done (some i), w)
          | raised e ↦ (raised e, w)
          | no_fuel ↦ (no_fuel, w)
        ])
          ≡ (done shown, u)
        → Previewed true (some reader) fuel before.pc shown × (w ≡ u)
    seen reader (done i) e k = ((i, e, cc), ap (λ p. p.1) k)
    seen reader (raised x) e k = cc
    seen reader no_fuel e k = cc

    go :
        (t : Bool) (o : Option Reader)
        → (if t
            then elim o as (λ _. Outcome (Option Instruction) × World S) [
              | none ↦ (done none, w)
              | some reader ↦ elim (disassemble fuel reader before.pc) [
                | done i ↦ (done (some i), w)
                | raised e ↦ (raised e, w)
                | no_fuel ↦ (no_fuel, w)
              ]
            ]
            else (done none, w))
          ≡ (done shown, u)
        → Previewed t o fuel before.pc shown × (w ≡ u)
    go true none k = (cc, ap (λ p. p.1) k)
    go true (some reader) k = seen reader (disassemble fuel reader before.pc) refl k
    go false none k = (cc, ap (λ p. p.1) k)
    go false (some reader) k = (cc, ap (λ p. p.1) k)

module _ {S : Type 0} (machine : DebugTarget S) where
  pub clear_log-cleared :
      (w : World S) → clear_log machine w ≡ (done tt, record w { target = cleared machine w })
  unfolding clear_log
  clear_log-cleared w = go w.session.tracking
    where
      go :
          (t : Bool)
          → ◌≡◌ {A = Outcome (Unit {0}) × World S}
              (done tt, if t then record w { target = machine.clear_accesses w.target } else w)
              (
                done tt,
                record w { target = if t then machine.clear_accesses w.target else w.target },
              )
      go true = refl
      go false = refl

pub bind-Failed :
    {S A B : Type 0} (m : Action S A) (f : A → Action S B) (w : World S)
    → Failed ((m >>= f) w).0
    → Failed (m w).0 ⊎ ((a : A) × (u : World S) × (m w ≡ (done a, u)) × Failed (f a u).0)
bind-Failed {S} {A} m f w h = go (m w) h
  where
    go :
        (o : Outcome A × World S)
        → Failed (after_outcome o f).0
        → Failed o.0 ⊎ ((a : A) × (u : World S) × (o ≡ (done a, u)) × Failed (f a u).0)
    go (done a, u) k = inr (a, u, refl, k)
    go (raised e, u) k = inl tt
    go (no_fuel, u) k = inl tt
