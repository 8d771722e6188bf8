-- ===== src/Debug/Stepping/History.antt =====
-- The bounded history of a session against all the records that it was given.
use z80_python.Base.{
  ◌++◌, ◌+◌, ◌-◌, ◌==◌, ◌∙◌, ◌∷◌, ◌≡◌, ◌≤◌, List, [], ap, arith, false, if-cases, length, ltb, refl,
  suc, sym, true, zero, ℕ,
}
use z80_python.Debug.Points.{StepRecord}
use z80_python.Debug.Stepping.{appended, remember, tail}

abbrev drop : {A : Type 0} → ℕ → List A → List A
drop zero xs = xs
drop (suc n) [] = []
drop (suc n) (x ∷ xs) = drop n xs

-- The last `limit` of a list.
abbrev pub latest : {A : Type 0} → ℕ → List A → List A
latest limit xs = drop (length xs - limit) xs

-- All the records of a list, one after another.
abbrev pub remember_all : ℕ → List StepRecord → List StepRecord → List StepRecord
remember_all limit [] history = history
remember_all limit (step_record ∷ later) history =
    remember_all limit later (remember limit step_record history)

module _ {A : Type 0} where
  length-appended : (xs : List A) (x : A) → length (appended xs x) ≡ length xs + 1
  length-appended [] x = refl
  length-appended (y ∷ ys) x = let ih = length-appended ys x in omega arith

  length-drop : (n : ℕ) (xs : List A) → length (drop n xs) ≡ length xs - n
  length-drop zero xs = omega arith
  length-drop (suc n) [] = omega arith
  length-drop (suc n) (x ∷ xs) = let ih = length-drop n xs in omega arith

  drop-appended :
      (n : ℕ) (xs : List A) (x : A)
      → n ≤ length xs
      → drop n (appended xs x) ≡ appended (drop n xs) x
  drop-appended zero xs x h = refl
  drop-appended (suc n) [] x h = absurd (omega arith)
  drop-appended (suc n) (y ∷ ys) x h = drop-appended n ys x (omega arith)

  tail-drop : (n : ℕ) (xs : List A) → tail (drop n xs) ≡ drop (suc n) xs
  tail-drop zero [] = refl
  tail-drop zero (x ∷ xs) = refl
  tail-drop (suc n) [] = refl
  tail-drop (suc n) (x ∷ xs) = tail-drop n xs

  drop-all : (xs : List A) → drop (length xs) xs ≡ []
  drop-all [] = refl
  drop-all (x ∷ xs) = drop-all xs

  appended-append : (xs ys : List A) (y : A) → appended xs y ++ ys ≡ xs ++ (y ∷ ys)
  appended-append [] ys y = refl
  appended-append (x ∷ xs) ys y = ap (λ l. x ∷ l) (appended-append xs ys y)

-- One more record keeps the last `limit` of them.
remember-latest :
    (limit : ℕ) (step_record : StepRecord) (seen : List StepRecord)
    → remember limit step_record (latest limit seen) ≡ latest limit (appended seen step_record)
unfolding remember
remember-latest limit r seen =
    if-cases (λ h. h ≡ latest limit (appended seen r)) (limit == 0)
      (λ e. nothing seen e ∙ sym (nothing (appended seen r) e))
      (λ _.
        if-cases (λ h. h ≡ latest limit (appended seen r)) (ltb (length (latest limit seen)) limit)
          (λ e. sym kept ∙ ap (λ n. drop n (appended seen r)) (room e))
          (λ e.
            ap tail (sym kept)
            ∙ (tail-drop (length seen - limit) (appended seen r)
                ∙ ap (λ n. drop n (appended seen r)) (full e))))
  where
    nothing : (xs : List StepRecord) → limit == 0 ≡ true → latest limit xs ≡ []
    nothing xs e = ap (λ n. drop n xs) (ground arith) ∙ drop-all xs

    kept : drop (length seen - limit) (appended seen r) ≡ appended (latest limit seen) r
    kept = drop-appended (length seen - limit) seen r (omega arith)

    room :
        ltb (length (latest limit seen)) limit ≡ true
        → length seen - limit ≡ length (appended seen r) - limit
    room e =
        let k = length-drop (length seen - limit) seen in
        let l = length-appended seen r in ground arith

    full :
        ltb (length (latest limit seen)) limit ≡ false
        → suc (length seen - limit) ≡ length (appended seen r) - limit
    full e =
        let k = length-drop (length seen - limit) seen in
        let l = length-appended seen r in ground arith

append-nil : {A : Type 0} (xs : List A) → xs ++ [] ≡ xs
append-nil [] = refl
append-nil (x ∷ xs) = ap (λ l. x ∷ l) (append-nil xs)

remember_all-seen :
    (limit : ℕ) (records seen : List StepRecord)
    → remember_all limit records (latest limit seen) ≡ latest limit (seen ++ records)
remember_all-seen limit [] seen = sym (ap (latest limit) (append-nil seen))
remember_all-seen limit (r ∷ later) seen =
    ap (remember_all limit later) (remember-latest limit r seen)
    ∙ (remember_all-seen limit later (appended seen r)
        ∙ ap (latest limit) (appended-append seen later r))

-- A history that was empty, once any list of records has been added to it one after another, is
-- the last `limit` of them, in their order; with a limit of 0 it stays empty.
pub remember_all-latest :
    (limit : ℕ) (records : List StepRecord) → remember_all limit records [] ≡ latest limit records
remember_all-latest limit records =
    ap (remember_all limit records) (sym none_yet) ∙ remember_all-seen limit records []
  where
    empty : 0 - limit ≡ 0
    empty = omega arith

    none_yet : latest {A = StepRecord} limit [] ≡ []
    none_yet = ap (λ n. drop {A = StepRecord} n []) empty
