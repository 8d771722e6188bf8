-- ===== src/Timing/Total.antt =====
-- `instruction_timing` has a timing for every instruction.
use z80_python.Base.{
  ◌+◌, ◌<◌, ◌==◌, ◌||◌, ◌∷◌, ◌≡◌, ◌≤◌, Bool, List, Option, [], and_left, and_right, arith, false,
  get_elem?, if-cases, if◌then◌else◌, leb, length, some, suc, true, zero, ℕ,
}
use z80_python.Base.Table.{all_below, all_below_sound}
use z80_python.Disasm.Entry.{all_bytes}
use z80_python.Dispatch.Execute.{is_prefix}
use z80_python.Timing.{InstructionTiming}
use z80_python.Timing.Fits.{
  cb_timed, ed_timed, found_and_timed, found_and_timed-behind_prefix, index_cb_timed, index_timed,
  is_timed, main_timed,
}
use z80_python.Timing.Lookup.{
  behind_prefix, cb_entry, ed_entry, index_cb_at, index_cb_entry, index_entry, instruction_timing,
  main_entry,
}

or_else : (a b : Bool) → (a || b) ≡ true → a ≡ false → b ≡ true
or_else true b h k = cc
or_else false b h k = h

byte : (x : ℕ) → leb x 0xFF ≡ true → x < 256
byte x h = ground arith

index_cb_at_found :
    (more : List ℕ)
    → all_bytes more ≡ true
    → 2 ≤ length more
    → found_and_timed (index_cb_at (get_elem? more 1)) ≡ true
index_cb_at_found [] h le = absurd (omega arith)
index_cb_at_found (x ∷ []) h le = absurd (omega arith)
index_cb_at_found (x ∷ (y ∷ more)) h le =
    all_below_sound 256 (λ op. found_and_timed (index_cb_entry op)) y index_cb_timed
      (byte y (and_left _ _ (and_right (leb x 0xFF) _ h)))

branches_found :
    (first second : ℕ) (more : List ℕ) (rest : Option InstructionTiming)
    → first < 256
    → second < 256
    → (is_prefix first ≡ true → found_and_timed rest ≡ true)
    → (is_prefix first ≡ true → found_and_timed (index_cb_at (get_elem? more 1)) ≡ true)
    → found_and_timed (
        if first == 0xCB
        then cb_entry second
        else if first == 0xED
        then some (ed_entry second)
        else if is_prefix first
        then if is_prefix second || second == 0xED
          then behind_prefix rest
          else if second == 0xCB
          then index_cb_at (get_elem? more 1)
          else index_entry second
        else main_entry first)
      ≡ true
branches_found first second more rest lt lt' found found_cb =
    if-cases Found (first == 0xCB)
      (λ _. all_below_sound 256 (λ op. found_and_timed (cb_entry op)) second cb_timed lt')
      (λ p.
        if-cases Found (first == 0xED)
          (λ _. all_below_sound 256 (λ op. is_timed (ed_entry op)) second ed_timed lt')
          (λ q.
            if-cases Found (is_prefix first)
              (λ r.
                if-cases Found (is_prefix second || second == 0xED)
                  (λ _. found_and_timed-behind_prefix rest (found r))
                  (λ u.
                    if-cases Found (second == 0xCB) (λ _. found_cb r)
                      (λ w.
                        plain (λ op. found_and_timed (index_entry op)) second index_timed lt' w
                          (no_ed u) (no_prefix u))))
              (λ r. plain (λ op. found_and_timed (main_entry op)) first main_timed lt p q r)))
  where
    Found : Option InstructionTiming → Type 0
    Found o = found_and_timed o ≡ true

    plain :
        (test : ℕ → Bool) (op : ℕ)
        → all_below 256 (λ op. op == 0xCB || (op == 0xED || (is_prefix op || test op))) ≡ true
        → op < 256
        → (op == 0xCB) ≡ false
        → (op == 0xED) ≡ false
        → is_prefix op ≡ false
        → test op ≡ true
    plain test op table lt a b c =
        or_else (is_prefix op) (test op)
          (or_else (op == 0xED) _
            (or_else (op == 0xCB) _
              (all_below_sound 256 (λ op. op == 0xCB || (op == 0xED || (is_prefix op || test op)))
                op table lt)
              a)
            b)
          c

    no_ed : (is_prefix second || second == 0xED) ≡ false → (second == 0xED) ≡ false
    no_ed u = ground arith

    no_prefix : (is_prefix second || second == 0xED) ≡ false → is_prefix second ≡ false
    no_prefix u = ground arith

-- For a list of bytes, one of which, at `n`, is no DD or FD and has three more behind it,
-- `instruction_timing` gives a timing. Its accesses begin at offset 1 and ascend, and each of its
-- shapes makes no more accesses than there are, all of them within its T-states.
pub instruction_timing_found :
    (encoded : List ℕ) (n v : ℕ)
    → all_bytes encoded ≡ true
    → get_elem? encoded n ≡ some v
    → is_prefix v ≡ false
    → n + 4 ≤ length encoded
    → found_and_timed (instruction_timing encoded) ≡ true
unfolding instruction_timing
instruction_timing_found [] n v bytes here last long = absurd (omega arith)
instruction_timing_found (first ∷ []) n v bytes here last long = absurd (omega arith)
instruction_timing_found (first ∷ (second ∷ more)) zero v bytes here last long =
    let h1 = and_right (leb first 0xFF) _ bytes in
    branches_found first second more (instruction_timing (second ∷ more))
      (byte first (and_left _ _ bytes)) (byte second (and_left _ _ h1))
      (λ p. absurd (no_prefix here p)) (λ p. absurd (no_prefix here p))
  where
    no_prefix : some first ≡ some v → is_prefix first ≡ true → ⊥
    no_prefix e p = cc
instruction_timing_found (first ∷ (second ∷ more)) (suc n) v bytes here last long =
    let h1 = and_right (leb first 0xFF) _ bytes in
    let rest = instruction_timing_found (second ∷ more) n v h1 here last (omega arith) in
    branches_found first second more (instruction_timing (second ∷ more))
      (byte first (and_left _ _ bytes)) (byte second (and_left _ _ h1)) (λ p. rest)
      (λ p. index_cb_at_found more (and_right (leb second 0xFF) _ h1) (omega arith))
