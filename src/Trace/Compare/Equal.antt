-- ===== src/Trace/Compare/Equal.antt =====
-- Equal values of a trace, and a state from its values.
use Prim.Native.String.{String}
use package.text.Mathlib.Text
use package.text.Mathlib.TextEquality.{eq_iff}
use package.text.Mathlib.TextPositions.{eq_refl}
use z80_python.Base.{
  ◌++◌, ◌==◌, ◌∷◌, ◌≡◌, Bool, List, Option, [], and_intro, and_left, and_right, ap, arith, false,
  if◌then◌else◌, none, refl, some, suc, true, zero, ℕ,
}
use z80_python.State.{CpuState}
use z80_python.Trace.Compare.{
  TraceValue, bool_value, compared, int_value, none_value, same_tuples, same_value, state_values,
  str_value, tuple_value, vector_seen,
}

same_tuple : (ts us : List String) → same_tuples ts us ≡ true → ts ≡ us
same_tuple [] [] h = refl
same_tuple [] (u ∷ us) h = cc
same_tuple (t ∷ ts) [] h = cc
same_tuple (t ∷ ts) (u ∷ us) h =
    let one = (eq_iff t u).0 (and_left _ _ h) in
    let rest = same_tuple ts us (and_right (Text.◌==◌ t u) _ h) in cc

number_equal : (n m : ℕ) → (n == m) ≡ true → n ≡ m
number_equal n m h = ground arith

pub same_value_equal : (v w : TraceValue) → same_value v w ≡ true → v ≡ w
same_value_equal none_value none_value h = refl
same_value_equal none_value (int_value m) h = cc
same_value_equal none_value (bool_value b) h = cc
same_value_equal none_value (str_value u) h = cc
same_value_equal none_value (tuple_value us) h = cc
same_value_equal (int_value n) none_value h = cc
same_value_equal (int_value n) (int_value m) h = ap int_value (number_equal n m h)
same_value_equal (int_value n) (bool_value b) h = cc
same_value_equal (int_value n) (str_value u) h = cc
same_value_equal (int_value n) (tuple_value us) h = cc
same_value_equal (bool_value a) none_value h = cc
same_value_equal (bool_value a) (int_value m) h = cc
same_value_equal (bool_value true) (bool_value true) h = refl
same_value_equal (bool_value true) (bool_value false) h = cc
same_value_equal (bool_value false) (bool_value true) h = cc
same_value_equal (bool_value false) (bool_value false) h = refl
same_value_equal (bool_value a) (str_value u) h = cc
same_value_equal (bool_value a) (tuple_value us) h = cc
same_value_equal (str_value t) none_value h = cc
same_value_equal (str_value t) (int_value m) h = cc
same_value_equal (str_value t) (bool_value b) h = cc
same_value_equal (str_value t) (str_value u) h = ap str_value ((eq_iff t u).0 h)
same_value_equal (str_value t) (tuple_value us) h = cc
same_value_equal (tuple_value ts) none_value h = cc
same_value_equal (tuple_value ts) (int_value m) h = cc
same_value_equal (tuple_value ts) (bool_value b) h = cc
same_value_equal (tuple_value ts) (str_value u) h = cc
same_value_equal (tuple_value ts) (tuple_value us) h = ap tuple_value (same_tuple ts us h)

same_tuples_self : (ts : List String) → same_tuples ts ts ≡ true
same_tuples_self [] = refl
same_tuples_self (t ∷ ts) = and_intro _ _ (eq_refl t) (same_tuples_self ts)

pub same_value_self : (v : TraceValue) → same_value v v ≡ true
same_value_self none_value = refl
same_value_self (int_value n) = ground arith
same_value_self (bool_value true) = refl
same_value_self (bool_value false) = refl
same_value_self (str_value t) = eq_refl t
same_value_self (tuple_value ts) = same_tuples_self ts

empty_then :
    {A : Type 0} (t : Bool) (d : List A) (ds : A) → (if t then [] else ds ∷ d) ≡ [] → t ≡ true
empty_then true d ds k = refl
empty_then false d ds k = cc

pub compared_equal : (path : String) (v w : TraceValue) → compared path v w ≡ [] → v ≡ w
compared_equal path v w h = same_value_equal v w (empty_then (same_value v w) [] _ h)

module _ {A : Type 0} where
  pub append-nil_left : (xs ys : List A) → xs ++ ys ≡ [] → xs ≡ []
  append-nil_left [] ys h = refl
  append-nil_left (x ∷ xs) ys h = cc

  pub append-nil_right : (xs ys : List A) → xs ++ ys ≡ [] → ys ≡ []
  append-nil_right [] ys h = h
  append-nil_right (x ∷ xs) ys h = cc

-- Names and values, and the state back from its values.
abbrev number_of : TraceValue → ℕ
number_of (int_value n) = n
number_of v = 0

abbrev flag_of : TraceValue → Bool
flag_of (bool_value b) = b
flag_of v = false

abbrev vector_of : TraceValue → Option ℕ
vector_of (int_value n) = some n
vector_of v = none

abbrev pub value_at : List (String × TraceValue) → ℕ → TraceValue
value_at [] k = none_value
value_at ((name, v) ∷ vs) zero = v
value_at ((name, v) ∷ vs) (suc k) = value_at vs k

abbrev pub state_of : (ℕ → TraceValue) → CpuState
state_of values = record {
  a = number_of (values 0);
  f = number_of (values 1);
  b = number_of (values 2);
  c = number_of (values 3);
  d = number_of (values 4);
  e = number_of (values 5);
  h = number_of (values 6);
  l = number_of (values 7);
  ix = number_of (values 8);
  iy = number_of (values 9);
  sp = number_of (values 10);
  pc = number_of (values 11);
  wz = number_of (values 12);
  i = number_of (values 13);
  r = number_of (values 14);
  iff1 = flag_of (values 15);
  iff2 = flag_of (values 16);
  im = number_of (values 17);
  af_alt = number_of (values 18);
  bc_alt = number_of (values 19);
  de_alt = number_of (values 20);
  hl_alt = number_of (values 21);
  q = number_of (values 22);
  halted = flag_of (values 23);
  ei_delay = number_of (values 24);
  reset_pending = flag_of (values 25);
  maskable_interrupt_vector = vector_of (values 26);
  non_maskable_interrupt_pending = flag_of (values 27);
}

vector_of-vector_seen : (o : Option ℕ) → vector_of (vector_seen o) ≡ o
vector_of-vector_seen none = refl
vector_of-vector_seen (some v) = refl

pub state_of-state_values : (t : CpuState) → state_of (value_at (state_values t)) ≡ t
unfolding state_values
state_of-state_values t =
    ap (λ o. record t { maskable_interrupt_vector = o })
      (vector_of-vector_seen t.maskable_interrupt_vector)
