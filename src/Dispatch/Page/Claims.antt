-- ===== src/Dispatch/Page/Claims.antt =====
-- What a page that `build_page` builds holds.
use z80_python.Base.{
  ◌∷◌, ◌≡◌, List, Option, [], ap, get_elem?, none, refl, set, some, suc, sym, zero, ◌∙◌, ℕ, ◌≢◌,
  replicate, ◌+◌,
}
use z80_python.Dispatch.Page.{
  Entry, Rule, build_page, entry_for, fill, put_entry, put_rule, put_rules, ◌>>=◌, missing,
}
use z80_python.Prog.{Result, err, index_error, ok, value_error}

pub bind-ok :
    {A B : Type 0} (r : Result A) (f : A → Result B) (b : B)
    → (r >>= f) ≡ ok b
    → (a : A) × (r ≡ ok a) × (f a ≡ ok b)
bind-ok (ok a) f b h = (a, refl, h)
bind-ok (err e) f b h = cc

pub ok-injective : {A : Type 0} (a b : A) → ok a ≡ ok b → a ≡ b
ok-injective a b h = cc

module _ {A : Type 0} where
  get-set_same :
      (xs : List A) (i : ℕ) (x y : A) → get_elem? xs i ≡ some y → get_elem? (set xs i x) i ≡ some x
  get-set_same [] i x y h = cc
  get-set_same (z ∷ zs) zero x y h = refl
  get-set_same (z ∷ zs) (suc i) x y h = get-set_same zs i x y h

  get-set_other :
      (xs : List A) (i j : ℕ) (x : A) → j ≢ i → get_elem? (set xs i x) j ≡ get_elem? xs j
  get-set_other [] i j x h = refl
  get-set_other (z ∷ zs) zero zero x h = absurd (h refl)
  get-set_other (z ∷ zs) zero (suc j) x h = refl
  get-set_other (z ∷ zs) (suc i) zero x h = refl
  get-set_other (z ∷ zs) (suc i) (suc j) x h = get-set_other zs i j x (λ e. h (ap suc e))

-- An entry that is there.
abbrev Holds : {C : Type 0} → List (Option (Entry C)) → ℕ → Entry C → Type 0
Holds page op e = get_elem? page op ≡ some (some e)

module _ {C : Type 0} (rule : Rule C) where
  pub put_entry-ok :
      (op : ℕ) (page page' : List (Option (Entry C)))
      → put_entry rule op page ≡ ok page'
      → (get_elem? page op ≡ some none) × (page' ≡ set page op (some (entry_for rule op)))
  unfolding put_entry
  put_entry-ok op page page' h = go (get_elem? page op) refl h
    where
      go :
          (g : Option (Option (Entry C)))
          → get_elem? page op ≡ g
          → (elim g [
            | none ↦ err index_error
            | some (some e) ↦ err value_error
            | some none ↦ ok (set page op (some (entry_for rule op)))
          ])
            ≡ ok page'
          → (get_elem? page op ≡ some none) × (page' ≡ set page op (some (entry_for rule op)))
      go none e h = cc
      go (some (some x)) e h = cc
      go (some none) e h = (e, sym (ok-injective _ _ h))

  put_entry-Holds :
      (op : ℕ) (page page' : List (Option (Entry C)))
      → put_entry rule op page ≡ ok page'
      → Holds page' op (entry_for rule op)
  put_entry-Holds op page page' h =
      let done = put_entry-ok op page page' h in
      rw done.1 (get-set_same page op (some (entry_for rule op)) none done.0)

  put_entry-keeps :
      (op : ℕ) (page page' : List (Option (Entry C)))
      → put_entry rule op page ≡ ok page'
      → (op' : ℕ) (e : Entry C) → Holds page op' e
      → Holds page' op' e
  put_entry-keeps op page page' h op' e there =
      let done = put_entry-ok op page page' h in
      let apart : op' ≢ op = λ same. some-apart (sym there ∙ ap (get_elem? page) same ∙ done.0) in
      rw done.1 (get-set_other page op op' (some (entry_for rule op)) apart ∙ there)
    where
      some-apart : {e : Entry C} → some (some e) ≢ some none
      some-apart h = cc

  put_rule-keeps :
      (ops : List ℕ) (page page' : List (Option (Entry C)))
      → put_rule rule ops page ≡ ok page'
      → (op' : ℕ) (e : Entry C) → Holds page op' e
      → Holds page' op' e
  unfolding put_rule
  put_rule-keeps [] page page' h op' e there = rw (← ok-injective _ _ h) there
  put_rule-keeps (op ∷ ops) page page' h op' e there =
      let parts = bind-ok (put_entry rule op page) (put_rule rule ops) page' h in
      put_rule-keeps ops parts.0 page' parts.2 op' e
        (put_entry-keeps op page parts.0 parts.1 op' e there)

  put_rule-Holds :
      (ops : List ℕ) (page page' : List (Option (Entry C)))
      → put_rule rule ops page ≡ ok page'
      → (k op : ℕ) → get_elem? ops k ≡ some op
      → Holds page' op (entry_for rule op)
  unfolding put_rule
  put_rule-Holds [] page page' h k op here = cc
  put_rule-Holds (op' ∷ ops) page page' h zero op here =
      let parts = bind-ok (put_entry rule op' page) (put_rule rule ops) page' h in
      let same : op' ≡ op = cc in
      rw (← same) (
        put_rule-keeps ops parts.0 page' parts.2 op' (entry_for rule op')
          (put_entry-Holds op' page parts.0 parts.1))
  put_rule-Holds (op' ∷ ops) page page' h (suc k) op here =
      let parts = bind-ok (put_entry rule op' page) (put_rule rule ops) page' h in
      put_rule-Holds ops parts.0 page' parts.2 k op here

module _ {C : Type 0} where
  put_rules-keeps :
      (rules : List (Rule C)) (page page' : List (Option (Entry C)))
      → put_rules rules page ≡ ok page'
      → (op : ℕ) (e : Entry C) → Holds page op e
      → Holds page' op e
  unfolding put_rules
  put_rules-keeps [] page page' h op e there = rw (← ok-injective _ _ h) there
  put_rules-keeps (rule ∷ rules) page page' h op e there =
      let parts = bind-ok (put_rule rule rule.opcodes page) (put_rules rules) page' h in
      put_rules-keeps rules parts.0 page' parts.2 op e
        (put_rule-keeps rule rule.opcodes page parts.0 parts.1 op e there)

  put_rules-Holds :
      (rules : List (Rule C)) (page page' : List (Option (Entry C)))
      → put_rules rules page ≡ ok page'
      → (n : ℕ) (rule : Rule C) → get_elem? rules n ≡ some rule
      → (k op : ℕ) → get_elem? rule.opcodes k ≡ some op
      → Holds page' op (entry_for rule op)
  unfolding put_rules
  put_rules-Holds [] page page' h n rule there k op here = cc
  put_rules-Holds (rule' ∷ rules) page page' h zero rule there k op here =
      let parts = bind-ok (put_rule rule' rule'.opcodes page) (put_rules rules) page' h in
      let same : rule' ≡ rule = cc in
      let here' : get_elem? rule'.opcodes k ≡ some op = rw same here in
      rw (← same) (
        put_rules-keeps rules parts.0 page' parts.2 op (entry_for rule' op)
          (put_rule-Holds rule' rule'.opcodes page parts.0 parts.1 k op here'))
  put_rules-Holds (rule' ∷ rules) page page' h (suc n) rule there k op here =
      let parts = bind-ok (put_rule rule' rule'.opcodes page) (put_rules rules) page' h in
      put_rules-Holds rules parts.0 page' parts.2 n rule there k op here

  fill-keeps :
      (default : Option (Entry C)) (unassigned : List ℕ) (number : ℕ)
      (page : List (Option (Entry C))) (op : ℕ) (e : Entry C)
      → Holds page op e
      → Holds (fill default unassigned number page) op e
  unfolding fill
  fill-keeps default unassigned number [] op e there = cc
  fill-keeps default unassigned number (some x ∷ page) zero e there = there
  fill-keeps default unassigned number (some x ∷ page) (suc op) e there =
      fill-keeps default unassigned (number + 1) page op e there
  fill-keeps default unassigned number (none ∷ page) zero e there = cc
  fill-keeps default unassigned number (none ∷ page) (suc op) e there =
      fill-keeps default unassigned (number + 1) page op e there

  -- When `build_page` returns a page, then at each opcode of each of its rules the entry is the
  -- one that the rule makes for that opcode.
  pub build_page-claims :
      (rules : List (Rule C)) (default : Option (Entry C)) (unassigned : List ℕ)
      (page : List (Option (Entry C)))
      → build_page rules default unassigned ≡ ok page
      → (n : ℕ) (rule : Rule C) → get_elem? rules n ≡ some rule
      → (k op : ℕ) → get_elem? rule.opcodes k ≡ some op
      → get_elem? page op ≡ some (some (entry_for rule op))
  unfolding build_page
  build_page-claims rules default unassigned page h n rule there k op here =
      let parts = bind-ok (put_rules rules (replicate 256 none)) _ page h in
      let filled = fill default unassigned 0 parts.0 in
      let claimed =
        put_rules-Holds rules (replicate 256 none) parts.0 parts.1 n rule there k op here in
      rw (← whole filled (missing unassigned 0 filled) parts.2)
        (fill-keeps default unassigned 0 parts.0 op (entry_for rule op) claimed)
    where
      whole :
          (filled : List (Option (Entry C))) (open_ : List ℕ)
          → (elim open_ [ [] ↦ ok filled | op ∷ ops ↦ err value_error ]) ≡ ok page
          → filled ≡ page
      whole filled [] h = ok-injective _ _ h
      whole filled (op ∷ ops) h = cc
