-- ===== src/Lib.antt =====
-- The Z80 instruction core of z80-python.
--
-- The program. `Z80CPU` (src/z80_python/cpu.py) is a class of mixins over one processor state. The
-- host gives it four callables (read_byte, write_byte, read_port, write_port). `step` serves RESET,
-- NMI or an accepted maskable interrupt, idles when halted, or fetches an opcode and calls the
-- handler that a table names. Handlers change the state, call the host, and return T-states.
--
-- The files, and the code that each translates (paths below src/z80_python/):
--   Prog       what a handler does to its host: a program of bus calls with results (cpu.py)
--   Flags      masks, SZXY and PARITY tables as functions, the bits of a Flags value (_flags.py)
--   Cpu, Core  the state, fetch, stack, register selection, inc_r (_core.py);
--              Core.Lifecycle: RESET, NMI, maskable interrupt acceptance (_core.py)
--   Alu        8-bit arithmetic (_alu.py); Alu.Ops and Alu.Ops16: its handlers
--   Rotate     rotates, shifts, BIT, RES, SET, RRD, RLD (_rotate.py)
--   Loads      8-bit loads; Loads.Words: 16-bit loads, PUSH and POP (_loads.py)
--   Blocks     LDI … CPDR (_blocks.py)
--   Io         IN and OUT; Io.Block: INI … OTDR (_io.py)
--   Control    jumps, calls, returns; Control.Misc: exchanges, HALT, EI, DI, IM (_control.py)
--   Index      IX and IY; Index.Byte: their halves; Index.Memory: (IX+d) (_index.py)
--   Dispatch   Page: build_page; Rules: the five rule tables; Pages: the pages built from them;
--              Method: the handlers' names and what each name calls; Execute: the executors of the
--              pages (_dispatch.py, _index_dispatch.py, cpu.py)
--   Step       step and the request lines (cpu.py)
--   State      CPUState, capture_state, restore_state (state.py, cpu.py)
--   Host       the four callables over the host's state, and 64 KiB of flat memory (cpu.py)
--   Debug      next_boundary and the access log of _wrap_bus; Debug.Points: records, breakpoints,
--              watchpoints; Debug.Stepping: DebugSession.step; Debug.Running: its run (debug.py)
--   Disasm     instructions, the cursor, operands; Disasm.Main: the CB, ED and plain pages;
--              Disasm.Prefixed: the DD and FD pages; Disasm.Entry: disassemble (disasm.py)
--   Trace      JSON-compatible values and hexadecimal data; Trace.Encode: step_record_to_dict;
--              Trace.Decode and Trace.Record: step_record_from_dict; Trace.Compare: the
--              differences of two records and the divergences of two traces (trace.py)
--   Timing     timings of accesses; Timing.Values and the pages beside it: the table by opcode page
--              (_access_timing.py); Timing.Lookup: instruction_timing (timing.py)
-- The proofs stand in Alu.Sums, Alu.Decimal, Rotate.Inverse, Control.Exchange,
-- Dispatch.Page.Claims, Dispatch.Page.Complete, Contract and its children, Debug.Boundary,
-- Debug.Tracked, Debug.Points.Laws, the children of Debug.Stepping and of Debug.Running, Flags.Bits,
-- Disasm.Agreement, the children of Disasm.Entry, Trace.Hex, Trace.RoundTrip, the children of
-- Trace.Compare, Timing.Fits, Timing.Total, Host.Stack, Host.Calls, Host.Copy, Host.Stray,
-- Host.Prefixes and State.Laws. Examples, Samples and SampleTraces have runs
-- on concrete inputs. Base has the shared tests, lists, tables and the bits of `&`, `|` and `^`.
--
-- How code becomes definitions. A method `_op_x` is `op_x : … → Cpu → Prog (ℕ × Cpu)`, which takes
-- the state and gives T-states and the new state. A helper without a bus call is a function. `Prog`
-- has a constructor for each bus call with its continuation, so the order of accesses is kept and
-- nothing is assumed of the host; `raise` is an exception. A handler that is looked up by name in a
-- class (`getattr`) is a constructor of `Method`. Numbers are natural; each mask of the source is
-- written out, and where Python's difference may be negative a multiple of the mask's modulus is
-- added first. The tables SZXY, PARITY and SZXYP are functions of the index.
--
-- A decoder of the disassembler is a `Decoder`: a program whose only call is the cursor's read,
-- which `decode` runs on a reader that may raise. A debug session is a state beside that of its
-- target, and an operation is a function of both that ends in a value or an exception and keeps
-- what it has changed by then. The target is a parameter: a record of its `step` and
-- `capture_state`, and of the log of the wrapped bus.
--
-- Fuel. In the core only `_execute_index` loops: a run of DD and FD prefixes is one instruction of
-- any length. `prefix_run` takes fuel for the prefixes after the first and ends in `out_of_fuel`
-- when it is spent, as a program that goes on in the source; a run of `n` further prefixes wants
-- fuel `n`. The repeating block instructions do not loop: each rewinds PC and returns.
-- `decode_index` of the disassembler takes fuel in the same way. `run` of a session counts down its
-- own step budget.
--
-- Not modelled: the type checks of Python objects, the class checks of `__init_subclass__`,
-- subclasses that override a handler, the mixin structure, the JSON text of trace files and the
-- lockstep of two live sessions (trace.py), the conformance tool and the command line
-- (conformance.py, console.py, __main__.py), and everything outside src/z80_python.
pub mod Base
pub mod Prog
pub mod Flags
pub mod Cpu
pub mod Core
pub mod Alu
pub mod Rotate
pub mod Loads
pub mod Blocks
pub mod Io
pub mod Control
pub mod Index
pub mod Dispatch
pub mod Step
pub mod State
pub mod Host
pub mod Contract
pub mod Debug
pub mod Disasm
pub mod Trace
pub mod Timing
pub mod Examples
pub mod Samples
pub mod SampleTraces
