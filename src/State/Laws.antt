-- ===== src/State/Laws.antt =====
-- What a captured state is good for.
use z80_python.Base.{
  ◌<◌, ◌∷◌, ◌≡◌, ◌≤◌, List, Option, [], and_intro, arith, le→leb, none, refl, some, true, ℕ,
}
use z80_python.Contract.{IsWf, vector_value}
use z80_python.Cpu.{Cpu}
use z80_python.State.{
  CpuState, all_at_most, capture_state, is_valid, restore_state, snapshot, vector_at_most,
}

abbrev AtMost : ℕ → List ℕ → Type 0
AtMost maximum [] = Unit
AtMost maximum (v ∷ vs) = (v ≤ maximum) × AtMost maximum vs

all_at_most_intro : (maximum : ℕ) (vs : List ℕ) → AtMost maximum vs → all_at_most maximum vs ≡ true
all_at_most_intro maximum [] h = refl
all_at_most_intro maximum (v ∷ vs) h =
    and_intro _ _ (le→leb v maximum h.0) (all_at_most_intro maximum vs h.1)

vector_at_most_intro : (o : Option ℕ) → vector_value o < 256 → vector_at_most o 0xFF ≡ true
vector_at_most_intro none h = refl
vector_at_most_intro (some v) h = le→leb v 0xFF (omega arith)

IsWf-is_valid : (s : Cpu) → IsWf s → is_valid (snapshot s) ≡ true
unfolding is_valid snapshot
IsWf-is_valid s w =
    and_intro _ _
      (all_at_most_intro 0xFF (s.a ∷ s.f ∷ s.b ∷ s.c ∷ s.d ∷ s.e ∷ s.h ∷ s.l ∷ s.i ∷ s.r ∷ s.q ∷ [])
        (omega arith))
      (and_intro _ _
        (all_at_most_intro 0xFFFF
          (s.ix ∷ s.iy ∷ s.sp ∷ s.pc ∷ s.wz ∷ s.af_alt ∷ s.bc_alt ∷ s.de_alt ∷ s.hl_alt ∷ [])
          (omega arith))
        (and_intro _ _ (le→leb s.im 2 (omega arith)) (
          and_intro _ _ (le→leb s.ei_delay 1 (omega arith))
            (vector_at_most_intro s.pending_maskable_interrupt w.vector-lt))))

-- With registers within their widths `capture_state` returns a state, and restoring that state
-- changes nothing of the CPU that it was taken from.
pub restore-capture :
    (s : Cpu) → IsWf s → (t : CpuState) × (capture_state s ≡ some t) × (restore_state t s ≡ s)
unfolding capture_state snapshot restore_state
restore-capture s w = (snapshot s, rw (IsWf-is_valid s w), refl)

-- After a valid state is restored, `capture_state` returns it, whatever the CPU held before.
pub capture-restore :
    (t : CpuState) (s : Cpu) → is_valid t ≡ true → capture_state (restore_state t s) ≡ some t
unfolding capture_state snapshot restore_state
capture-restore t s h = rw h
