-- ===== src/Host.antt =====
-- The host's side of the bus (src/z80_python/cpu.py): four callables over a state of its own, and
-- what a program of the core does to it.
pub mod Stack
pub mod Copy
pub mod Stray
pub mod Prefixes
pub mod Calls
use z80_python.Base.{◌==◌, if◌then◌else◌, ℕ}
use z80_python.Prog.{
  Error, Prog, out_of_fuel, raise, read_byte, read_port, ret, write_byte, write_port,
}

-- The four callables that `Z80CPU.__init__` is given; `State` is what the host owns.
pub record Bus (State : Type 0) : Type 0 where
  pub on_read_byte : ℕ → State → ℕ × State
  pub on_write_byte : ℕ → ℕ → State → State
  pub on_read_port : ℕ → State → ℕ × State
  pub on_write_port : ℕ → ℕ → State → State

-- What a call comes to, with the host's state after it.
pub data Outcome (A : Type 0) : Type 0 where
  done : A → Outcome A
  raised : Error → Outcome A
  no_fuel : Outcome A

unfoldable pub run : {A State : Type 0} → Bus State → Prog A → State → Outcome A × State
run bus (ret a) m = (done a, m)
run bus (raise e) m = (raised e, m)
run bus out_of_fuel m = (no_fuel, m)
run bus (read_byte a k) m = let answer = bus.on_read_byte a m in run bus (k answer.0) answer.1
run bus (write_byte a v p) m = run bus p (bus.on_write_byte a v m)
run bus (read_port a k) m = let answer = bus.on_read_port a m in run bus (k answer.0) answer.1
run bus (write_port a v p) m = run bus p (bus.on_write_port a v m)

-- 64 KiB of memory as a function, with the default ports: reads give 0xFF, writes go nowhere.
abbrev pub Memory : Type 0
Memory = ℕ → ℕ

unfoldable pub poke : ℕ → ℕ → Memory → Memory
poke a v m = λ x. if x == a then v else m x

unfoldable pub undriven_port : ℕ → ℕ
undriven_port port = 0xFF

unfoldable pub flat : Bus Memory
flat = record {
  on_read_byte = λ a m. (m a, m);
  on_write_byte = poke;
  on_read_port = λ port m. (undriven_port port, m);
  on_write_port = λ port v m. m;
}
