-- ===== src/Timing/Fits.antt =====
-- Every instruction has a timing, and its accesses fall within its T-states.
use mathlib.Core.Path.{subst}
use z80_python.Base.{
  ◌&&◌, ◌+◌, ◌==◌, ◌||◌, ◌∷◌, ◌≡◌, ◌≤◌, Bool, List, Option, [], and_intro, and_left, and_right,
  arith, false, leb, ltb, none, refl, some, suc, true, zero, ℕ,
}
use z80_python.Base.Table.{all_below}
use z80_python.Debug.{read}
use z80_python.Debug.Tracked.{accesses}
use z80_python.Dispatch.Execute.{is_prefix}
use z80_python.Timing.{AccessTiming, InstructionTiming, at}
use z80_python.Timing.CbHigh.{cb_high}
use z80_python.Timing.CbLow.{cb_low}
use z80_python.Timing.Ed.{ed_entries}
use z80_python.Timing.IndexCbHigh.{index_cb_high}
use z80_python.Timing.IndexCbLow.{index_cb_low}
use z80_python.Timing.IndexHigh.{index_high}
use z80_python.Timing.IndexLow.{index_low}
use z80_python.Timing.Lookup.{
  behind_prefix, cb_entry, delayed, ed_entry, ed_nop, index_cb_entry, index_entry, longer,
  main_entry,
}
use z80_python.Timing.MainHigh.{main_high}
use z80_python.Timing.MainLow.{main_low}

-- The first `made` accesses are there and fall before `t_states`.
abbrev fits : ℕ → ℕ → List AccessTiming → Bool
fits zero t_states accesses = true
fits (suc made) t_states [] = false
fits (suc made) t_states (a ∷ accesses) = ltb a.t t_states && fits made t_states accesses

abbrev all_fit : List AccessTiming → List (ℕ × ℕ) → Bool
all_fit accesses [] = true
all_fit accesses ((t_states, made) ∷ shapes) =
    fits made t_states accesses && all_fit accesses shapes

-- Each access falls after the one before it, the first one at `least` or later.
abbrev ascending : ℕ → List AccessTiming → Bool
ascending least [] = true
ascending least (a ∷ accesses) = leb least a.t && ascending (a.t + 1) accesses

abbrev starts_at_one : List AccessTiming → Bool
starts_at_one [] = false
starts_at_one (a ∷ accesses) = a.t == 1

-- Accesses that begin at 1 and ascend, of which each shape makes as many as there are and within
-- its T-states.
unfoldable pub is_timed : InstructionTiming → Bool
is_timed timing =
    starts_at_one timing.accesses
    && (ascending 1 timing.accesses && all_fit timing.accesses timing.shapes)

abbrev pub found_and_timed : Option InstructionTiming → Bool
found_and_timed none = false
found_and_timed (some timing) = is_timed timing

pub main_timed :
    all_below 256
      (λ op. op == 0xCB || (op == 0xED || (is_prefix op || found_and_timed (main_entry op))))
    ≡ true
unfolding all_below main_entry main_low main_high is_timed
main_timed = refl

pub cb_timed : all_below 256 (λ op. found_and_timed (cb_entry op)) ≡ true
unfolding all_below cb_entry cb_low cb_high is_timed
cb_timed = refl

pub ed_timed : all_below 256 (λ op. is_timed (ed_entry op)) ≡ true
unfolding all_below ed_entry ed_entries ed_nop is_timed
ed_timed = refl

pub index_timed :
    all_below 256
      (λ op. op == 0xCB || (op == 0xED || (is_prefix op || found_and_timed (index_entry op))))
    ≡ true
unfolding all_below index_entry index_low index_high is_timed
index_timed = refl

pub index_cb_timed : all_below 256 (λ op. found_and_timed (index_cb_entry op)) ≡ true
unfolding all_below index_cb_entry index_cb_low index_cb_high is_timed
index_cb_timed = refl

fits-delayed :
    (made t_states : ℕ) (accesses : List AccessTiming)
    → fits made t_states accesses ≡ true
    → fits made (t_states + 4) (delayed accesses) ≡ true
fits-delayed zero t_states accesses h = refl
fits-delayed (suc made) t_states [] h = h
fits-delayed (suc made) t_states (a ∷ accesses) h =
    let ih = fits-delayed made t_states accesses (and_right (ltb a.t t_states) _ h) in
    let first = and_left (ltb a.t t_states) (fits made t_states accesses) h in
    and_intro (ltb (a.t + 4) (t_states + 4)) (fits made (t_states + 4) (delayed accesses))
      (ground arith) ih

ascending-delayed :
    (least : ℕ) (accesses : List AccessTiming)
    → ascending least accesses ≡ true
    → ascending (least + 4) (delayed accesses) ≡ true
ascending-delayed least [] h = refl
ascending-delayed least (a ∷ accesses) h =
    let ih = ascending-delayed (a.t + 1) accesses (and_right (leb least a.t) _ h) in
    let first = and_left (leb least a.t) (ascending (a.t + 1) accesses) h in
    and_intro (leb (least + 4) (a.t + 4)) (ascending (a.t + 4 + 1) (delayed accesses))
      (ground arith) (subst (λ n. ascending n (delayed accesses) ≡ true) (moved a.t) ih)
  where
    moved : (n : ℕ) → n + 1 + 4 ≡ n + 4 + 1
    moved n = omega arith

ascending_less :
    (least bound : ℕ) (accesses : List AccessTiming)
    → least ≤ bound
    → ascending bound accesses ≡ true
    → ascending least accesses ≡ true
ascending_less least bound [] le h = refl
ascending_less least bound (a ∷ accesses) le h =
    let first = and_left (leb bound a.t) _ h in
    and_intro (leb least a.t) (ascending (a.t + 1) accesses) (ground arith)
      (and_right (leb bound a.t) _ h)

all_fit-longer :
    (accesses : List AccessTiming) (shapes : List (ℕ × ℕ))
    → all_fit accesses shapes ≡ true
    → all_fit (at read 1 ∷ delayed accesses) (longer shapes) ≡ true
all_fit-longer accesses [] h = refl
all_fit-longer accesses ((t_states, made) ∷ shapes) h =
    let first = and_left (fits made t_states accesses) (all_fit accesses shapes) h in
    and_intro (fits (suc made) (t_states + 4) (at read 1 ∷ delayed accesses)) _
      (and_intro (ltb 1 (t_states + 4)) (fits made (t_states + 4) (delayed accesses)) (ground arith)
        (fits-delayed made t_states accesses first))
      (all_fit-longer accesses shapes (and_right (fits made t_states accesses) _ h))

pub found_and_timed-behind_prefix :
    (o : Option InstructionTiming)
    → found_and_timed o ≡ true
    → found_and_timed (behind_prefix o) ≡ true
unfolding is_timed
found_and_timed-behind_prefix none h = h
found_and_timed-behind_prefix (some timing) h =
    let h1 = and_right (starts_at_one timing.accesses) _ h in
    and_intro (ascending 2 (delayed timing.accesses)) _
      (ascending_less 2 5 (delayed timing.accesses) (omega arith)
        (ascending-delayed 1 timing.accesses (and_left _ _ h1)))
      (all_fit-longer timing.accesses timing.shapes (and_right (ascending 1 timing.accesses) _ h1))
