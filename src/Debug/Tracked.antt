-- ===== src/Debug/Tracked.antt =====
-- A tracked bus changes nothing for the core and logs what happens on it.
use z80_python.Base.{◌∷◌, ◌≡◌, List, [], ap, refl}
use z80_python.Debug.{Access, append, input, output, read, wrap_bus, write}
use z80_python.Host.{Bus, run}
use z80_python.Prog.{Prog, out_of_fuel, raise, read_byte, read_port, ret, write_byte, write_port}

infixr 5 ◌++◌
abbrev ◌++◌ : List Access → List Access → List Access
[] ++ log' = log'
(x ∷ log) ++ log' = x ∷ (log ++ log')

-- The accesses of a program on a bus, first to last.
unfoldable pub accesses : {A State : Type 0} → Bus State → Prog A → State → List Access
accesses bus (ret a) m = []
accesses bus (raise e) m = []
accesses bus out_of_fuel m = []
accesses bus (read_byte a k) m =
    let answer = bus.on_read_byte a m in
    record { kind = read; address = a; value = answer.0 } ∷ accesses bus (k answer.0) answer.1
accesses bus (write_byte a v p) m =
    record { kind = write; address = a; value = v } ∷ accesses bus p (bus.on_write_byte a v m)
accesses bus (read_port a k) m =
    let answer = bus.on_read_port a m in
    record { kind = input; address = a; value = answer.0 } ∷ accesses bus (k answer.0) answer.1
accesses bus (write_port a v p) m =
    record { kind = output; address = a; value = v } ∷ accesses bus p (bus.on_write_port a v m)

append-++ :
    (log : List Access) (x : Access) (log' : List Access) → append log x ++ log' ≡ log ++ (x ∷ log')
append-++ [] x log' = refl
append-++ (y ∷ log) x log' = ap (λ z. y ∷ z) (append-++ log x log')

append_nil : (log : List Access) → log ++ [] ≡ log
append_nil [] = refl
append_nil (x ∷ log) = ap (λ z. x ∷ z) (append_nil log)

module _ {A State : Type 0} (bus : Bus State) where
  -- On a tracked bus a program has the outcome that it has on the bus itself, leaves the host in
  -- the same state, and adds to the log the accesses it makes there, in their order.
  pub run-wrap_bus :
      (p : Prog A) (m : State) (log : List Access)
      → run (wrap_bus bus) p (m, log)
        ≡ ((run bus p m).0, ((run bus p m).1, log ++ accesses bus p m))
  unfolding run wrap_bus accesses
  run-wrap_bus (ret a) m log = rw (append_nil log) refl
  run-wrap_bus (raise e) m log = rw (append_nil log) refl
  run-wrap_bus out_of_fuel m log = rw (append_nil log) refl
  run-wrap_bus (read_byte a k) m log =
      let answer = bus.on_read_byte a m in
      let x : Access = record { kind = read; address = a; value = answer.0 } in
      rw (run-wrap_bus (k answer.0) answer.1 (append log x), append-++ log x) refl
  run-wrap_bus (write_byte a v p) m log =
      let x : Access = record { kind = write; address = a; value = v } in
      rw (run-wrap_bus p (bus.on_write_byte a v m) (append log x), append-++ log x) refl
  run-wrap_bus (read_port a k) m log =
      let answer = bus.on_read_port a m in
      let x : Access = record { kind = input; address = a; value = answer.0 } in
      rw (run-wrap_bus (k answer.0) answer.1 (append log x), append-++ log x) refl
  run-wrap_bus (write_port a v p) m log =
      let x : Access = record { kind = output; address = a; value = v } in
      rw (run-wrap_bus p (bus.on_write_port a v m) (append log x), append-++ log x) refl
