-- ===== src/Dispatch/Page/Complete.antt =====
-- A page that `build_page` builds has an entry for every opcode that it wants one for.
use z80_python.Base.{
  ◌+◌, ◌<◌, ◌∙◌, ◌∷◌, ◌≡◌, Bool-cases, List, Option, [], ap, arith, false, get_elem?, if◌then◌else◌,
  inl, inr, length, none, refl, replicate, set, some, suc, sym, true, zero, ℕ,
}
use z80_python.Dispatch.Page.{
  Entry, Rule, build_page, contains, entry_for, fill, missing, put_entry, put_rule, put_rules,
}
use z80_python.Dispatch.Page.Claims.{bind-ok, ok-injective, put_entry-ok}
use z80_python.Prog.{err, ok, value_error}

module _ {A : Type 0} where
  length-set : (xs : List A) (i : ℕ) (x : A) → length (set xs i x) ≡ length xs
  length-set [] i x = refl
  length-set (y ∷ ys) zero x = refl
  length-set (y ∷ ys) (suc i) x = ap suc (length-set ys i x)

module _ {C : Type 0} where
  length-put_rule :
      (rule : Rule C) (ops : List ℕ) (page page' : List (Option (Entry C)))
      → put_rule rule ops page ≡ ok page'
      → length page' ≡ length page
  unfolding put_rule
  length-put_rule rule [] page page' h = ap length (sym (ok-injective _ _ h))
  length-put_rule rule (op ∷ ops) page page' h =
      let parts = bind-ok (put_entry rule op page) (put_rule rule ops) page' h in
      let done = put_entry-ok rule op page parts.0 parts.1 in
      length-put_rule rule ops parts.0 page' parts.2
      ∙ ap length done.1
      ∙ length-set page op (some (entry_for rule op))

  length-put_rules :
      (rules : List (Rule C)) (page page' : List (Option (Entry C)))
      → put_rules rules page ≡ ok page'
      → length page' ≡ length page
  unfolding put_rules
  length-put_rules [] page page' h = ap length (sym (ok-injective _ _ h))
  length-put_rules (rule ∷ rules) page page' h =
      let parts = bind-ok (put_rule rule rule.opcodes page) (put_rules rules) page' h in
      length-put_rules rules parts.0 page' parts.2
      ∙ length-put_rule rule rule.opcodes page parts.0 parts.1

  length-fill :
      (default : Option (Entry C)) (unassigned : List ℕ) (number : ℕ)
      (page : List (Option (Entry C)))
      → length (fill default unassigned number page) ≡ length page
  unfolding fill
  length-fill default unassigned number [] = refl
  length-fill default unassigned number (some x ∷ page) =
      ap suc (length-fill default unassigned (number + 1) page)
  length-fill default unassigned number (none ∷ page) =
      ap suc (length-fill default unassigned (number + 1) page)

  missing-tail :
      (unassigned : List ℕ) (number : ℕ) (page : List (Option (Entry C)))
      → missing unassigned number (none ∷ page) ≡ []
      → (contains number unassigned ≡ true) × (missing unassigned (number + 1) page ≡ [])
  unfolding missing
  missing-tail unassigned number page h = elim (Bool-cases (contains number unassigned)) [
    | inl e ↦ (
      e,
      sym (
            ap
              (λ b.
                if b
                then missing unassigned (number + 1) page
                else number ∷ missing unassigned (number + 1) page)
              e)
          ∙ h,
    )
    | inr e ↦ absurd (
        nothing (
          sym (
            ap
              (λ b.
                if b
                then missing unassigned (number + 1) page
                else number ∷ missing unassigned (number + 1) page)
              e)
          ∙ h))
  ]
    where
      nothing : {x : ℕ} {xs : List ℕ} → x ∷ xs ≡ [] → ⊥
      nothing e = cc

  missing-none :
      (unassigned : List ℕ) (number : ℕ) (page : List (Option (Entry C)))
      → missing unassigned number page ≡ []
      → (k : ℕ) → k < length page
      → contains (number + k) unassigned ≡ false
      → (e : Entry C) × (get_elem? page k ≡ some (some e))
  unfolding missing
  missing-none unassigned number [] h k lt wanted = absurd (omega arith)
  missing-none unassigned number (some x ∷ page) h zero lt wanted = (x, refl)
  missing-none unassigned number (some x ∷ page) h (suc k) lt wanted =
      let next : number + suc k ≡ number + 1 + k = omega arith in
      missing-none unassigned (number + 1) page h k (omega arith)
        (ap (λ n. contains n unassigned) (sym next) ∙ wanted)
  missing-none unassigned number (none ∷ page) h zero lt wanted =
      let here : number + 0 ≡ number = omega arith in
      let taken = (missing-tail unassigned number page h).0 in
      absurd (clash (sym taken ∙ ap (λ n. contains n unassigned) (sym here) ∙ wanted))
    where
      clash : true ≡ false → ⊥
      clash e = cc
  missing-none unassigned number (none ∷ page) h (suc k) lt wanted =
      let next : number + suc k ≡ number + 1 + k = omega arith in
      missing-none unassigned (number + 1) page (missing-tail unassigned number page h).1 k
        (omega arith) (ap (λ n. contains n unassigned) (sym next) ∙ wanted)

  -- When `build_page` returns a page, it has an entry, not `None`, for each opcode below 256 that
  -- is not in `unassigned`.
  pub build_page_complete :
      (rules : List (Rule C)) (default : Option (Entry C)) (unassigned : List ℕ)
      (page : List (Option (Entry C)))
      → build_page rules default unassigned ≡ ok page
      → (op : ℕ) → op < 256
      → contains op unassigned ≡ false
      → (e : Entry C) × (get_elem? page op ≡ some (some e))
  unfolding build_page
  build_page_complete rules default unassigned page h op lt wanted =
      let parts = bind-ok (put_rules rules (replicate 256 none)) _ page h in
      let filled = fill default unassigned 0 parts.0 in
      let long : length filled ≡ 256 =
        length-fill default unassigned 0 parts.0
        ∙ length-put_rules rules (replicate 256 none) parts.0 parts.1 in
      let found = whole filled (missing unassigned 0 filled) parts.2 in
      let first : 0 + op ≡ op = omega arith in
      let entry =
        missing-none unassigned 0 filled found.0 op (rw long lt)
          (ap (λ n. contains n unassigned) first ∙ wanted) in
      (entry.0, rw (← found.1) entry.1)
    where
      whole :
          (filled : List (Option (Entry C))) (free : List ℕ)
          → (elim free [ [] ↦ ok filled | op ∷ ops ↦ err value_error ]) ≡ ok page
          → (free ≡ []) × (filled ≡ page)
      whole filled [] h = (refl, ok-injective _ _ h)
      whole filled (op ∷ ops) h = cc
