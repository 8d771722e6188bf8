-- ===== src/Contract/Pages.antt =====
-- Every entry of the five pages is a call that fits its handler, so decoding cannot fail.
use native.Mathlib.Nat.{add-zero}
use mathlib.Core.Bool.{false≢true}
use z80_python.Base.{
  ◌&&◌, ◌+◌, ◌<◌, ◌∙◌, ◌∷◌, ◌≡◌, Bool, List, Option, [], and_left, and_right, ap, arith, false,
  get_elem?, if◌then◌else◌, length, none, refl, some, suc, sym, true, zero, ℕ,
}
use z80_python.Contract.{Total}
use z80_python.Contract.Calls.{fits, fits_prefixed}
use z80_python.Dispatch.Method.{Method}
use z80_python.Dispatch.Page.{Entry, contains}
use z80_python.Dispatch.Pages.{cb_page, ed_page, entry_at, index_cb_page, index_page, main_page}

module _ {C : Type 0} (ok : Entry C → Bool) (skip : ℕ → Bool) where
  -- Each entry from number `n` on passes `ok`, or is one of those that `skip` names.
  entry_fits : ℕ → Option (Entry C) → Bool
  entry_fits n none = skip n
  entry_fits n (some e) = ok e

  unfoldable pub page_fits : ℕ → List (Option (Entry C)) → Bool
  unfolding entry_fits
  page_fits n [] = true
  page_fits n (o ∷ page) = entry_fits n o && page_fits (n + 1) page

  get_elem?-page_fits :
      (page : List (Option (Entry C))) (n op : ℕ)
      → page_fits n page ≡ true
      → op < length page
      → (o : Option (Entry C)) × (get_elem? page op ≡ some o) × (entry_fits (n + op) o ≡ true)
  unfolding page_fits
  get_elem?-page_fits [] n op h lt = absurd (omega arith)
  get_elem?-page_fits (o ∷ page) n zero h lt = (o, refl, rw (add-zero n) (and_left _ _ h))
  get_elem?-page_fits (o ∷ page) n (suc op) h lt =
      let (o', found, fit) =
        get_elem?-page_fits page (n + 1) op (and_right (entry_fits n o) (page_fits (n + 1) page) h)
          (omega arith) in
      let e : n + 1 + op ≡ n + suc op = omega arith in (o', found, rw e at fit)

  pub entry_at-Total :
      (page : List (Option (Entry C))) (op : ℕ)
      → page_fits 0 page ≡ true
      → op < length page
      → skip op ≡ false
      → Total (λ e. ok e ≡ true) (entry_at page op)
  unfolding entry_at
  entry_at-Total page op h lt no_skip = found (get_elem?-page_fits page 0 op h lt)
    where
      found :
          (o : Option (Entry C)) × (get_elem? page op ≡ some o) × (entry_fits (0 + op) o ≡ true)
          → Total (λ e. ok e ≡ true) (entry_at page op)
      found (none, e, fit) =
          unfold entry_fits in absurd (false≢true (sym no_skip ∙ ap skip (omega arith) ∙ fit))
      found (some x, e, fit) = unfold entry_fits in rw (e, entry_at) fit

abbrev skip_none : ℕ → Bool
skip_none op = false

abbrev pub skip_prefixes : ℕ → Bool
skip_prefixes op = contains op (0xDD ∷ 0xED ∷ 0xFD ∷ [])

abbrev pub fits_base : {C : Type 0} → Entry C → Bool
fits_base e = fits e.method e.argument

-- The main page also names the three executors.
abbrev pub fits_main : Method → Option ℕ → Bool
fits_main Method.execute_cb none = true
fits_main Method.execute_ed none = true
fits_main Method.execute_index (some prefix) = true
fits_main m a = fits m a

abbrev pub fits_column : Entry Bool → Bool
fits_column e = if e.columns then fits_prefixed e.method e.argument else fits e.method e.argument

abbrev pub is_index_cb : Method → Bool
is_index_cb (Method.index_cb m) = true
is_index_cb _ = false

module _ (op : ℕ) (byte : op < 256) where
  pub main_page-Total : Total (λ e. fits_main e.method e.argument ≡ true) (entry_at main_page op)
  unfolding main_page page_fits
  main_page-Total =
      entry_at-Total (λ e. fits_main e.method e.argument) skip_none main_page op refl byte refl

  pub cb_page-Total : Total (λ e. fits_base e ≡ true) (entry_at cb_page op)
  unfolding cb_page page_fits
  cb_page-Total = entry_at-Total fits_base skip_none cb_page op refl byte refl

  pub ed_page-Total : Total (λ e. fits_base e ≡ true) (entry_at ed_page op)
  unfolding ed_page page_fits
  ed_page-Total = entry_at-Total fits_base skip_none ed_page op refl byte refl

  pub index_page-Total :
      skip_prefixes op ≡ false → Total (λ e. fits_column e ≡ true) (entry_at index_page op)
  unfolding index_page page_fits
  index_page-Total n = entry_at-Total fits_column skip_prefixes index_page op refl byte n

  pub index_cb_page-Total : Total (λ e. is_index_cb e.method ≡ true) (entry_at index_cb_page op)
  unfolding index_cb_page page_fits
  index_cb_page-Total =
      entry_at-Total (λ e. is_index_cb e.method) skip_none index_cb_page op refl byte refl
