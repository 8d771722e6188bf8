-- ===== src/Dispatch/Page.antt =====
-- `build_page` (src/z80_python/_dispatch.py): the 256 entries of a page from its rules.
pub mod Claims
pub mod Complete
use z80_python.Base.{
  ◌+◌, ◌==◌, ◌||◌, ◌∷◌, Bool, List, Option, [], false, get_elem?, if◌then◌else◌, none, replicate,
  set, some, ℕ,
}
use z80_python.Dispatch.Method.{Method}
use z80_python.Prog.{Error, Result, err, index_error, ok, value_error}

infixl 5 ◌>>=◌
abbrev ◌>>=◌ : {A B : Type 0} → Result A → (A → Result B) → Result B
ok a >>= f = f a
err e >>= f = err e

-- `OPCODE`, `None`, or a value that is passed as it is.
pub data Argument : Type 0 where
  opcode absent : Argument
  given : ℕ → Argument

-- `columns` is what a rule carries further: nothing, or whether the handler takes the prefix.
pub record Rule (C : Type 0) : Type 0 where
  pub opcodes : List ℕ
  pub method : Method
  pub argument : Argument
  pub columns : C

pub record Entry (C : Type 0) : Type 0 where
  pub method : Method
  pub argument : Option ℕ
  pub columns : C

resolve : Argument → ℕ → Option ℕ
resolve Argument.opcode op = some op
resolve Argument.absent op = none
resolve (Argument.given v) op = some v

abbrev pub contains : ℕ → List ℕ → Bool
contains x [] = false
contains x (y ∷ ys) = x == y || contains x ys

module _ {C : Type 0} where
  pub entry_for : Rule C → ℕ → Entry C
  unfolding resolve
  entry_for rule op = record {
    method = rule.method;
    argument = resolve rule.argument op;
    columns = rule.columns;
  }

  -- `page[opcode] = …`, refused where the entry is taken.
  pub put_entry : Rule C → ℕ → List (Option (Entry C)) → Result (List (Option (Entry C)))
  unfolding entry_for
  put_entry rule op page = elim (get_elem? page op) [
    | none ↦ err index_error
    | some (some e) ↦ err value_error
    | some none ↦ ok (set page op (some (entry_for rule op)))
  ]

  put_rule : Rule C → List ℕ → List (Option (Entry C)) → Result (List (Option (Entry C)))
  unfolding put_entry
  put_rule rule [] page = ok page
  put_rule rule (op ∷ ops) page = do page ← put_entry rule op page; put_rule rule ops page

  put_rules : List (Rule C) → List (Option (Entry C)) → Result (List (Option (Entry C)))
  unfolding put_rule
  put_rules [] page = ok page
  put_rules (rule ∷ rules) page = do page ← put_rule rule rule.opcodes page; put_rules rules page

  -- The default, in every entry that is free and not `unassigned`; `op` is the entry's number.
  fill : Option (Entry C) → List ℕ → ℕ → List (Option (Entry C)) → List (Option (Entry C))
  fill default unassigned op [] = []
  fill default unassigned op (some e ∷ page) = some e ∷ fill default unassigned (op + 1) page
  fill default unassigned op (none ∷ page) =
      (if contains op unassigned then none else default) ∷ fill default unassigned (op + 1) page

  -- `missing`: the free entries that are not `unassigned`.
  missing : List ℕ → ℕ → List (Option (Entry C)) → List ℕ
  missing unassigned op [] = []
  missing unassigned op (some e ∷ page) = missing unassigned (op + 1) page
  missing unassigned op (none ∷ page) =
      let rest = missing unassigned (op + 1) page in
      if contains op unassigned then rest else op ∷ rest

  unfoldable pub build_page :
      List (Rule C) → Option (Entry C) → List ℕ → Result (List (Option (Entry C)))
  unfolding put_rules fill missing
  build_page rules default unassigned = do
    page ← put_rules rules (replicate 256 none)
    let page = fill default unassigned 0 page
    elim (missing unassigned 0 page) [ [] ↦ ok page | op ∷ ops ↦ err value_error ]
