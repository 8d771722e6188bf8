-- ===== src/Debug/Points/Laws.antt =====
-- What breakpoints and watchpoints answer after an operation.
use z80_python.Base.{
  ◌&&◌, ◌==◌, ◌||◌, ◌∙◌, ◌∷◌, ◌≡◌, Bool, List, Option, [], ap, arith, false, if-cases,
  if◌then◌else◌, leb, lookup, none, not, refl, some, true, ℕ,
}
use z80_python.Debug.Points.{
  Session, WatchKind, add_breakpoint, add_watchpoint, discard, remove_breakpoint, remove_watchpoint,
  removed,
}
use z80_python.Dispatch.Page.{contains}
use z80_python.Prog.{Result, err, ok, value_error}

discard-contains :
    (x y : ℕ) (xs : List ℕ) → contains y (discard x xs) ≡ (contains y xs && not (y == x))
discard-contains x y [] = refl
discard-contains x y (z ∷ xs) = let ih = discard-contains x y xs in ground arith

removed-lookup :
    (x y : ℕ) (points : List (ℕ × WatchKind))
    → lookup {V = WatchKind} y (removed x points)
      ≡ (if y == x then none else lookup {V = WatchKind} y points)
removed-lookup x y [] = ground arith
removed-lookup x y ((z, kind) ∷ points) = let ih = removed-lookup x y points in ground arith

-- The operation succeeds exactly where `allowed` holds, with `P`; else it raises `ValueError`.
abbrev pub Guarded : Bool → (Session → Type 0) → Result Session → Type 0
Guarded allowed P (ok s) = (allowed ≡ true) × P s
Guarded allowed P (err e) = (allowed ≡ false) × (e ≡ value_error)

-- A guard, as the code writes it.
guard :
    (t : Bool) (P : Session → Type 0) (s : Session)
    → P s
    → Guarded t P (if t then ok s else err value_error)
guard true P s h = (refl, h)
guard false P s h = (refl, refl)

tracked_guard :
    (tracking t : Bool) (P : Session → Type 0) (s : Session)
    → P s
    → Guarded
        (tracking && t)
        P
        (if not tracking then err value_error else if t then ok s else err value_error)
tracked_guard true t P s h = guard t P s h
tracked_guard false t P s h = (refl, refl)

equal : (x y : ℕ) → (x == y) ≡ true → x ≡ y
equal x y h = ground arith

kept : (t b : Bool) → (t ≡ true → b ≡ true) → b ≡ (t || b)
kept true b h = h refl
kept false b h = refl

-- For an address of 16 bits, adding a breakpoint makes a breakpoint of that address and removing
-- one takes it off, every other address being a breakpoint afterwards exactly when it was one
-- before; for a larger number both raise `ValueError`.
pub breakpoints-contains :
    (address y : ℕ) (session : Session)
    → Guarded
        (leb address 0xFFFF)
        (λ s. contains y s.breakpoints ≡ (y == address || contains y session.breakpoints))
        (add_breakpoint address session)
      × Guarded
          (leb address 0xFFFF)
          (λ s. contains y s.breakpoints ≡ (contains y session.breakpoints && not (y == address)))
          (remove_breakpoint address session)
unfolding add_breakpoint remove_breakpoint
breakpoints-contains address y session = (
  guard (leb address 0xFFFF)
      (λ s. contains y s.breakpoints ≡ (y == address || contains y session.breakpoints)) _
      (if-cases (λ xs. contains y xs ≡ (y == address || contains y session.breakpoints))
        (contains address session.breakpoints) present (λ _. refl)),
  guard (leb address 0xFFFF)
      (λ s. contains y s.breakpoints ≡ (contains y session.breakpoints && not (y == address))) _
      (discard-contains address y session.breakpoints),
)
  where
    present :
        contains address session.breakpoints ≡ true
        → contains y session.breakpoints ≡ (y == address || contains y session.breakpoints)
    present h =
        kept (y == address) (contains y session.breakpoints)
          (λ e. ap (λ x. contains x session.breakpoints) (equal y address e) ∙ h)

-- With tracking, adding a watchpoint to an address of 16 bits gives the address that kind, whatever
-- it was before, and raises `ValueError` without tracking or for a larger number; removing one
-- takes the address off, and raises for a larger number; the kinds of other addresses stay.
pub watchpoints-lookup :
    (address y : ℕ) (kind : WatchKind) (session : Session)
    → Guarded
        (session.tracking && leb address 0xFFFF)
        (λ s.
          lookup {V = WatchKind} y s.watchpoints
          ≡ (if y == address then some kind else lookup {V = WatchKind} y session.watchpoints))
        (add_watchpoint address kind session)
      × Guarded
          (leb address 0xFFFF)
          (λ s.
            lookup {V = WatchKind} y s.watchpoints
            ≡ (if y == address then none else lookup {V = WatchKind} y session.watchpoints))
          (remove_watchpoint address session)
unfolding add_watchpoint remove_watchpoint
watchpoints-lookup address y kind session = (
  tracked_guard session.tracking (leb address 0xFFFF)
      (λ s.
        lookup {V = WatchKind} y s.watchpoints
        ≡ (if y == address then some kind else lookup {V = WatchKind} y session.watchpoints))
      _ (added (y == address) _ _ (removed-lookup address y session.watchpoints)),
  guard (leb address 0xFFFF)
      (λ s.
        lookup {V = WatchKind} y s.watchpoints
        ≡ (if y == address then none else lookup {V = WatchKind} y session.watchpoints))
      _ (removed-lookup address y session.watchpoints),
)
  where
    added :
        (t : Bool) (rest now : Option WatchKind)
        → rest ≡ (if t then none else now)
        → (if t then some kind else rest) ≡ (if t then some kind else now)
    added true rest now h = refl
    added false rest now h = h
