-- ===== src/Disasm/Agreement.antt =====
-- The disassembler and the core agree on what a prefix changes.
use z80_python.Base.{
  ◌<◌, ◌==◌, ◌||◌, ◌≡◌, Bool, Option, arith, false, get_elem?, if◌then◌else◌, none, not, refl, some,
  true, ℕ,
}
use z80_python.Base.Table.{all_below, all_below_sound}
use z80_python.Disasm.Prefixed.{index_ignored}
use z80_python.Dispatch.Execute.{is_prefix}
use z80_python.Dispatch.Page.{Entry}
use z80_python.Dispatch.Pages.{index_page}

-- What the page and the disassembler have for an opcode behind a DD or FD; `apart` says whether it is
-- one that neither of them looks up: a further prefix, or ED.
abbrev pub Agrees : Bool → Option (Option (Entry Bool)) → Bool → Type 0
Agrees true found ignored = found ≡ some none
Agrees false found ignored = (e : Entry Bool) × (found ≡ some (some e)) × (e.columns ≡ not ignored)

agrees : Bool → Option (Option (Entry Bool)) → Bool → Bool
agrees true (some none) ignored = true
agrees true found ignored = false
agrees false (some (some e)) ignored = if e.columns then not ignored else ignored
agrees false found ignored = false

agreement :
    all_below 256
      (λ op. agrees (is_prefix op || op == 0xED) (get_elem? index_page op) (index_ignored op))
    ≡ true
unfolding all_below index_page index_ignored agrees
agreement = refl

agrees-Agrees :
    (apart : Bool) (found : Option (Option (Entry Bool))) (ignored : Bool)
    → agrees apart found ignored ≡ true
    → Agrees apart found ignored
unfolding agrees
agrees-Agrees true (some none) ignored h = refl
agrees-Agrees true (some (some e)) ignored h = cc
agrees-Agrees true none ignored h = cc
agrees-Agrees false (some (some e)) ignored h = (e, refl, same e.columns ignored h)
  where
    same : (a b : Bool) → (if a then not b else b) ≡ true → a ≡ not b
    same a b h = ground arith
agrees-Agrees false (some none) ignored h = cc
agrees-Agrees false none ignored h = cc

-- For each opcode below 256 behind a DD or FD: DD, FD and ED have no entry in the core's page; for
-- every other opcode the page has one, whose handler takes the prefix exactly where the
-- disassembler does not ignore it.
pub index_page-index_ignored :
    (op : ℕ)
    → op < 256
    → Agrees (is_prefix op || op == 0xED) (get_elem? index_page op) (index_ignored op)
index_page-index_ignored op lt =
    agrees-Agrees (is_prefix op || op == 0xED) (get_elem? index_page op) (index_ignored op) (
      all_below_sound 256
        (λ op. agrees (is_prefix op || op == 0xED) (get_elem? index_page op) (index_ignored op)) op
        agreement lt)
