-- ===== src/Dispatch/Pages.antt =====
-- The five pages that `Z80CPU.__init__` builds (src/z80_python/cpu.py).
use z80_python.Base.{◌∷◌, Bool, List, Option, [], get_elem?, none, some, ℕ}
use z80_python.Dispatch.Page.{Entry, build_page}
use z80_python.Dispatch.Rules.Ed.{ed_default, ed_rules}
use z80_python.Dispatch.Rules.Index.{index_cb_rules, index_rules}
use z80_python.Dispatch.Rules.Main.{cb_rules, main_rules}
use z80_python.Prog.{Prog, Result, err, index_error, ok, raise, ret, type_error}

-- A build that raises would leave the class without pages.
abbrev pub built : {C : Type 0} → Result (List (Option (Entry C))) → List (Option (Entry C))
built (ok page) = page
built (err e) = []

unfoldable pub main_page : List (Option (Entry (Unit {0})))
unfolding build_page main_rules
main_page = built (build_page main_rules none [])

unfoldable pub cb_page : List (Option (Entry (Unit {0})))
unfolding build_page cb_rules
cb_page = built (build_page cb_rules none [])

unfoldable pub ed_page : List (Option (Entry (Unit {0})))
unfolding build_page ed_rules ed_default
ed_page = built (build_page ed_rules (some ed_default) [])

unfoldable pub index_page : List (Option (Entry Bool))
unfolding build_page index_rules
index_page = built (build_page index_rules none (0xDD ∷ 0xED ∷ 0xFD ∷ []))

unfoldable pub index_cb_page : List (Option (Entry (Unit {0})))
unfolding build_page index_cb_rules
index_cb_page = built (build_page index_cb_rules none [])

-- `page[opcode]`, taken apart: an entry that is `None` cannot be.
unfoldable pub entry_at : {C : Type 0} → List (Option (Entry C)) → ℕ → Prog (Entry C)
entry_at page op = elim (get_elem? page op) [
  | none ↦ raise index_error
  | some none ↦ raise type_error
  | some (some e) ↦ ret e
]
