-- ===== src/Trace/Compare/Aligned.antt =====
-- What the divergences of two traces say.
use z80_python.Base.{
  ◌+◌, ◌↔◌, ◌∙◌, ◌∷◌, ◌≡◌, ◌≢◌, ◌≤◌, List, [], arith, get_elem?, refl, some, suc, sym, true, ℕ,
}
use z80_python.Debug.Points.{StepRecord}
use z80_python.Trace.Compare.{
  TraceDifference, TraceDivergence, compare_step_records, divergence, divergences_from,
  iter_trace_divergences,
}
use z80_python.Trace.Compare.Alike.{Alike, compare_step_records-Alike}
use z80_python.Trace.RoundTrip.{valid_shown}

abbrev pub ValidTrace : List StepRecord → Type 0
ValidTrace [] = Unit
ValidTrace (r ∷ trace) = (valid_shown r.shown ≡ true) × ValidTrace trace

-- As long as each other, and alike record by record.
abbrev pub AlikeTraces : List StepRecord → List StepRecord → Type 0
AlikeTraces [] [] = Unit
AlikeTraces (l ∷ left) (r ∷ right) = Alike l r × AlikeTraces left right
AlikeTraces left right = ⊥

-- A divergence tells what two traces have at its position, which is `n` or later, and something
-- differs there.
abbrev pub Located : ℕ → List StepRecord → List StepRecord → TraceDivergence → Type 0
Located n left right d =
    (d.differences ≢ [])
    × (k : ℕ) × (d.position ≡ n + k)
    × (get_elem? left k ≡ d.left)
    × (get_elem? right k ≡ d.right)

abbrev pub Every : (TraceDivergence → Type 0) → List TraceDivergence → Type 0
Every P [] = Unit
Every P (d ∷ ds) = P d × Every P ds

-- Positions go up.
abbrev pub Ascending : ℕ → List TraceDivergence → Type 0
Ascending n [] = Unit
Ascending n (d ∷ ds) = (n ≤ d.position) × Ascending (d.position + 1) ds

divergence-Alike :
    (n : ℕ) (l r : StepRecord) (rest : List TraceDivergence)
    → valid_shown l.shown ≡ true
    → valid_shown r.shown ≡ true
    → (divergence n l r rest ≡ []) ↔ (Alike l r × (rest ≡ []))
divergence-Alike n l r rest a b = go (compare_step_records l r) refl
  where
    go :
        (ds : List TraceDifference)
        → ds ≡ compare_step_records l r
        → ((elim ds as (λ _. List TraceDivergence) [
          | [] ↦ rest
          | x ∷ xs ↦
              record { position = n; left = some l; right = some r; differences = x ∷ xs } ∷ rest
        ])
            ≡ [])
          ↔ (Alike l r × (rest ≡ []))
    go [] e = (λ h. ((compare_step_records-Alike l r a b).0 (sym e), h), λ h. h.1)
    go (x ∷ xs) e =
        ((λ h. cc), λ h. let none_found = (compare_step_records-Alike l r a b).1 h.0 in cc)

divergences_from-Alike :
    (n : ℕ) (left right : List StepRecord)
    → ValidTrace left
    → ValidTrace right
    → (divergences_from n left right ≡ []) ↔ AlikeTraces left right
unfolding divergences_from
divergences_from-Alike n [] [] a b = (λ h. tt, λ h. refl)
divergences_from-Alike n [] (r ∷ right) a b = (λ h. cc, λ h. absurd h)
divergences_from-Alike n (l ∷ left) [] a b = (λ h. cc, λ h. absurd h)
divergences_from-Alike n (l ∷ left) (r ∷ right) a b =
    let rest = divergences_from (n + 1) left right in
    let here = divergence-Alike n l r rest a.0 b.0 in
    let later = divergences_from-Alike (n + 1) left right a.1 b.1 in
    ((λ h. let both = here.0 h in (both.0, later.0 both.1)), λ h. here.1 (h.0, later.1 h.1))

-- Two traces whose instructions pass the checks of `Instruction` have no divergence exactly when
-- they are of the same length and alike record by record, whatever the sequence numbers.
pub iter_trace_divergences-AlikeTraces :
    (left right : List StepRecord)
    → ValidTrace left
    → ValidTrace right
    → (iter_trace_divergences left right ≡ []) ↔ AlikeTraces left right
unfolding iter_trace_divergences
iter_trace_divergences-AlikeTraces left right a b = divergences_from-Alike 0 left right a b

Located-later :
    (n : ℕ) (l r : List StepRecord) (left right : List StepRecord) (ds : List TraceDivergence)
    → ((k : ℕ) → get_elem? l (suc k) ≡ get_elem? left k)
    → ((k : ℕ) → get_elem? r (suc k) ≡ get_elem? right k)
    → Every (Located (n + 1) left right) ds
    → Every (Located n l r) ds
Located-later n l r left right [] f g h = tt
Located-later n l r left right (d ∷ ds) f g h =
    let at = h.0 in
    (
      (at.0, suc at.1, omega arith, f at.1 ∙ at.3, g at.1 ∙ at.4),
      Located-later n l r left right ds f g h.1,
    )

divergence-Located :
    (n : ℕ) (l r : StepRecord) (left right : List StepRecord) (rest : List TraceDivergence)
    → Every (Located n (l ∷ left) (r ∷ right)) rest
    → Every (Located n (l ∷ left) (r ∷ right)) (divergence n l r rest)
divergence-Located n l r left right rest h = go (compare_step_records l r)
  where
    go :
        (ds : List TraceDifference)
        → Every (Located n (l ∷ left) (r ∷ right)) (elim ds as (λ _. List TraceDivergence) [
          | [] ↦ rest
          | x ∷ xs ↦
              record { position = n; left = some l; right = some r; differences = x ∷ xs } ∷ rest
        ])
    go [] = h
    go (x ∷ xs) = ((λ e. cc, 0, omega arith, refl, refl), h)

divergences_from-Located :
    (n : ℕ) (left right : List StepRecord)
    → Every (Located n left right) (divergences_from n left right)
unfolding divergences_from
divergences_from-Located n [] [] = tt
divergences_from-Located n [] (r ∷ right) = (
  (λ h. cc, 0, omega arith, refl, refl),
  Located-later n [] (r ∷ right) [] right _ (λ k. refl) (λ k. refl)
      (divergences_from-Located (n + 1) [] right),
)
divergences_from-Located n (l ∷ left) [] = (
  (λ h. cc, 0, omega arith, refl, refl),
  Located-later n (l ∷ left) [] left [] _ (λ k. refl) (λ k. refl)
      (divergences_from-Located (n + 1) left []),
)
divergences_from-Located n (l ∷ left) (r ∷ right) = divergence-Located n l r left right _ (
    Located-later n (l ∷ left) (r ∷ right) left right _ (λ k. refl) (λ k. refl)
      (divergences_from-Located (n + 1) left right))

Ascending-later : (n : ℕ) (ds : List TraceDivergence) → Ascending (n + 1) ds → Ascending n ds
Ascending-later n [] h = tt
Ascending-later n (d ∷ ds) h = (omega arith, h.1)

divergence-Ascending :
    (n : ℕ) (l r : StepRecord) (rest : List TraceDivergence)
    → Ascending (n + 1) rest
    → Ascending n (divergence n l r rest)
divergence-Ascending n l r rest h = go (compare_step_records l r)
  where
    go :
        (ds : List TraceDifference)
        → Ascending n (elim ds as (λ _. List TraceDivergence) [
          | [] ↦ rest
          | x ∷ xs ↦
              record { position = n; left = some l; right = some r; differences = x ∷ xs } ∷ rest
        ])
    go [] = Ascending-later n rest h
    go (x ∷ xs) = (omega arith, h)

divergences_from-Ascending :
    (n : ℕ) (left right : List StepRecord) → Ascending n (divergences_from n left right)
unfolding divergences_from
divergences_from-Ascending n [] [] = tt
divergences_from-Ascending n [] (r ∷ right) =
    (omega arith, divergences_from-Ascending (n + 1) [] right)
divergences_from-Ascending n (l ∷ left) [] =
    (omega arith, divergences_from-Ascending (n + 1) left [])
divergences_from-Ascending n (l ∷ left) (r ∷ right) =
    divergence-Ascending n l r _ (divergences_from-Ascending (n + 1) left right)

-- Every divergence of two traces has at least one difference and tells what each of the two
-- has at its position, nothing where a trace has ended; and the positions go up.
pub iter_trace_divergences-Located :
    (left right : List StepRecord)
    → Every (Located 0 left right) (iter_trace_divergences left right)
      × Ascending 0 (iter_trace_divergences left right)
unfolding iter_trace_divergences
iter_trace_divergences-Located left right =
    (divergences_from-Located 0 left right, divergences_from-Ascending 0 left right)
