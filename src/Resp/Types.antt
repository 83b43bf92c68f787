-- ===== src/Resp/Types.antt =====
-- nimbis-resp/src/types.rs and error.rs: the values of the protocol and the parser's errors.
use nimbis.Prelude.{
  ℕ, suc, ◌%◌, ◌^◌, Bool, true, false, not, ◌&&◌, ◌||◌, Option, none, some, [], ◌∷◌, Bytes, ltb,
  ◌==◌, if◌then◌else◌,
}
use nimbis.Prelude.Int.{ℤ, eqb_ℤ}

-- An `f64` by its 64 bits.
abbrev pub F64 : Type 0
F64 = ℕ

-- `RespValues` is a `Vec` or the elements of a `HashSet` in the order of iteration, `RespEntries` the
-- entries of a `HashMap` in the order of iteration.
mutual
  pub data RespValue : Type 0 where
    simple_string : Bytes → RespValue
    error : Bytes → RespValue
    integer : ℤ → RespValue
    bulk_string : Bytes → RespValue
    array : RespValues → RespValue
    null : RespValue
    boolean : Bool → RespValue
    double : F64 → RespValue
    big_number : Bytes → RespValue
    bulk_error : Bytes → RespValue
    verbatim_string : Bytes → Bytes → RespValue
    map : RespEntries → RespValue
    set : RespValues → RespValue
    push : RespValues → RespValue

  pub data RespValues : Type 0 where
    no_values : RespValues
    value : RespValue → RespValues → RespValues

  pub data RespEntries : Type 0 where
    no_entries : RespEntries
    entry : RespValue → RespValue → RespEntries → RespEntries

-- Error texts are left out; the number that an error shows is kept.
-- The last is no error of the program: it stands for the panic of `with_capacity` in the parser.
pub data ParseError : Type 0 where
  unexpected_eof invalid_format invalid_integer utf8_error invalid_double : ParseError
  invalid_type_marker : ℕ → ParseError
  invalid_bulk_string_length : ℤ → ParseError
  invalid_array_length : ℤ → ParseError
  capacity_overflow : ParseError

-- `Vec::push`, and what `HashSet::insert` does to the order of a value that is not there.
unfoldable pub append_value : RespValues → RespValue → RespValues
append_value no_values v = value v no_values
append_value (value x xs) v = value x (append_value xs v)

unfoldable pub count_values : RespValues → ℕ
count_values no_values = 0
count_values (value x xs) = suc (count_values xs)

unfoldable pub count_entries : RespEntries → ℕ
count_entries no_entries = 0
count_entries (entry k v es) = suc (count_entries es)

abbrev pub any_value : (RespValue → Bool) → RespValues → Bool
any_value p no_values = false
any_value p (value x xs) = p x || any_value p xs

abbrev pub any_entry : (RespValue → Bool) → (RespValue → Bool) → RespEntries → Bool
any_entry p q no_entries = false
any_entry p q (entry k v es) = p k && q v || any_entry p q es

-- `==` of `f64`: NaN differs from itself, and the two zeros are equal.
abbrev pub is_nan : F64 → Bool
is_nan d = ltb 0x7ff0_0000_0000_0000 (d % 2 ^ 63)

abbrev pub eq_f64 : F64 → F64 → Bool
eq_f64 a b = not (is_nan a) && (a == b || a % 2 ^ 63 == 0 && b % 2 ^ 63 == 0)

abbrev pub eq_bool : Bool → Bool → Bool
eq_bool true b = b
eq_bool false b = not b

unfoldable pub eq_bytes : Bytes → Bytes → Bool
eq_bytes [] [] = true
eq_bytes (c ∷ s) (d ∷ t) = c == d && eq_bytes s t
eq_bytes _ _ = false

-- The derived `PartialEq`: vectors are equal element by element, maps and sets regardless of order.
unfoldable mutual
  unfolding eq_bytes count_values count_entries

  pub eq_value : RespValue → RespValue → Bool
  eq_value (simple_string a) (simple_string b) = eq_bytes a b
  eq_value (error a) (error b) = eq_bytes a b
  eq_value (integer a) (integer b) = eqb_ℤ a b
  eq_value (bulk_string a) (bulk_string b) = eq_bytes a b
  eq_value (array a) (array b) = eq_values a b
  eq_value null null = true
  eq_value (boolean a) (boolean b) = eq_bool a b
  eq_value (double a) (double b) = eq_f64 a b
  eq_value (big_number a) (big_number b) = eq_bytes a b
  eq_value (bulk_error a) (bulk_error b) = eq_bytes a b
  eq_value (verbatim_string f a) (verbatim_string g b) = eq_bytes f g && eq_bytes a b
  eq_value (map a) (map b) = count_entries a == count_entries b && entries_in a b
  eq_value (set a) (set b) = count_values a == count_values b && values_in a b
  eq_value (push a) (push b) = eq_values a b
  eq_value _ _ = false

  pub eq_values : RespValues → RespValues → Bool
  eq_values no_values no_values = true
  eq_values (value x xs) (value y ys) = eq_value x y && eq_values xs ys
  eq_values _ _ = false

  pub values_in : RespValues → RespValues → Bool
  values_in no_values ys = true
  values_in (value x xs) ys = any_value (eq_value x) ys && values_in xs ys

  pub entries_in : RespEntries → RespEntries → Bool
  entries_in no_entries fs = true
  entries_in (entry k v es) fs = any_entry (eq_value k) (eq_value v) fs && entries_in es fs

-- `HashSet::insert`: an equal value that is there stays.
unfoldable pub insert_value : RespValues → RespValue → RespValues
insert_value xs v = if any_value (eq_value v) xs then xs else append_value xs v

-- `HashMap::insert`: an equal key that is there stays, and its value is replaced.
unfoldable pub insert_entry : RespEntries → RespValue → RespValue → RespEntries
insert_entry no_entries k v = entry k v no_entries
insert_entry (entry j w es) k v =
    if eq_value k j then entry j v es else entry j w (insert_entry es k v)

-- types.rs: the accessors and conversions of `RespValue`.
unfoldable pub is_error : RespValue → Bool
is_error (error e) = true
is_error (bulk_error e) = true
is_error _ = false

unfoldable pub is_null : RespValue → Bool
is_null null = true
is_null _ = false

unfoldable pub as_bytes : RespValue → Option Bytes
as_bytes (simple_string b) = some b
as_bytes (bulk_string b) = some b
as_bytes _ = none

unfoldable pub as_integer : RespValue → Option ℤ
as_integer (integer i) = some i
as_integer _ = none

unfoldable pub as_array : RespValue → Option RespValues
as_array (array a) = some a
as_array _ = none

unfoldable pub as_bool : RespValue → Option Bool
as_bool (boolean b) = some b
as_bool _ = none

unfoldable pub as_double : RespValue → Option F64
as_double (double d) = some d
as_double _ = none

unfoldable pub as_map : RespValue → Option RespEntries
as_map (map m) = some m
as_map _ = none

unfoldable pub into_vec : RespValue → Option RespValues
into_vec (array a) = some a
into_vec (push a) = some a
into_vec _ = none
