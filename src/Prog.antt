-- ===== src/Prog.antt =====
-- What the core does to its host (src/z80_python/cpu.py): the host passes in `read_byte`,
-- `write_byte`, `read_port` and `write_port`, and an instruction is a program over these calls.
-- A program says which call comes next and how it goes on from the answer; nothing is assumed
-- of the host, which may map devices into memory or keep a log.
use z80_python.Base.{ℕ}

-- The exceptions that the core raises, and those of a call that does not fit its handler.
pub data Error : Type 0 where
  runtime_error not_implemented value_error type_error index_error : Error

-- What a function that may raise gives.
pub data Result (A : Type 0) : Type 0 where
  ok : A → Result A
  err : Error → Result A

-- `out_of_fuel` stands for a run of prefixes that is longer than the fuel given.
pub data Prog (A : Type 0) : Type 0 where
  ret : A → Prog A
  raise : Error → Prog A
  out_of_fuel : Prog A
  read_byte : ℕ → (ℕ → Prog A) → Prog A
  write_byte : ℕ → ℕ → Prog A → Prog A
  read_port : ℕ → (ℕ → Prog A) → Prog A
  write_port : ℕ → ℕ → Prog A → Prog A

infixl 5 ◌>>=◌
abbrev pub ◌>>=◌ : {A B : Type 0} → Prog A → (A → Prog B) → Prog B
ret a >>= f = f a
raise e >>= f = raise e
out_of_fuel >>= f = out_of_fuel
read_byte a k >>= f = read_byte a (λ v. k v >>= f)
write_byte a v p >>= f = write_byte a v (p >>= f)
read_port a k >>= f = read_port a (λ v. k v >>= f)
write_port a v p >>= f = write_port a v (p >>= f)
