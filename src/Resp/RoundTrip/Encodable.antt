-- ===== src/Resp/RoundTrip/Encodable.antt =====
-- The values that stand for themselves on the wire.
use nimbis.Prelude.{◌+◌, ◌^◌, ◌<◌, ◌≡◌, ◌⊎◌, Bool, true, false, length}
use nimbis.Prelude.Int.{IsI64}
use nimbis.Resp.Types.{
  RespValue, RespValues, RespEntries, simple_string, error, integer, bulk_string, array, null,
  boolean, double, big_number, bulk_error, verbatim_string, map, set, push, no_values, value,
  no_entries, entry, count_values, count_entries, append_value, eq_value, any_value, any_entry,
}
use nimbis.Resp.External.{
  External, is_infinite, IsFinite, values_capacity, set_capacity, map_capacity,
}
use nimbis.Resp.Utils.Line.{IsLine}

-- A key with its value behind the entries that are there.
abbrev pub append_entry : RespEntries → RespValue → RespValue → RespEntries
append_entry no_entries k v = entry k v no_entries
append_entry (entry j w es) k v = entry j w (append_entry es k v)

-- No value equals an earlier one, or one of `seen`.
abbrev pub AreNew : RespValues → RespValues → Type 0
AreNew seen no_values = Unit
AreNew seen (value v xs) = (any_value (eq_value v) seen ≡ false) × AreNew (append_value seen v) xs

abbrev pub has_key : RespEntries → RespValue → Bool
has_key es k = any_entry (eq_value k) (λ _. true) es

abbrev pub AreNewKeys : RespEntries → RespEntries → Type 0
AreNewKeys seen no_entries = Unit
AreNewKeys seen (entry k v es) = (has_key seen k ≡ false) × AreNewKeys (append_entry seen k v) es

module _ ⦃x : External⦄ where
  -- Texts of one line hold no CRLF, lengths and integers fit `i64`, floats are not NaN, a format has
  -- three bytes, a set has no value and a map no key twice, and there is room for the elements of collections.
  abbrev mutual
    pub IsEncodable : RespValue → Type 0
    IsEncodable (simple_string s) = IsLine s
    IsEncodable (error e) = IsLine e
    IsEncodable (integer i) = IsI64 i
    IsEncodable (bulk_string s) = length s < 2 ^ 63
    IsEncodable (array xs) =
        (count_values xs < 2 ^ 63)
        × AreEncodable xs
        × (x.has_room values_capacity (count_values xs) ≡ true)
    IsEncodable null = Unit
    IsEncodable (boolean b) = Unit
    IsEncodable (double d) = (is_infinite d ≡ true) ⊎ IsFinite d
    IsEncodable (big_number n) = IsLine n
    IsEncodable (bulk_error e) = length e < 2 ^ 63
    IsEncodable (verbatim_string format s) = (length format ≡ 3) × (4 + length s < 2 ^ 63)
    IsEncodable (map es) =
        (count_entries es < 2 ^ 63)
        × AreEncodableEntries es
        × AreNewKeys no_entries es
        × (x.has_room map_capacity (count_entries es) ≡ true)
    IsEncodable (set xs) =
        (count_values xs < 2 ^ 63)
        × AreEncodable xs
        × AreNew no_values xs
        × (x.has_room set_capacity (count_values xs) ≡ true)
    IsEncodable (push xs) =
        (count_values xs < 2 ^ 63)
        × AreEncodable xs
        × (x.has_room values_capacity (count_values xs) ≡ true)

    pub AreEncodable : RespValues → Type 0
    AreEncodable no_values = Unit
    AreEncodable (value v xs) = IsEncodable v × AreEncodable xs

    pub AreEncodableEntries : RespEntries → Type 0
    AreEncodableEntries no_entries = Unit
    AreEncodableEntries (entry k v es) = IsEncodable k × IsEncodable v × AreEncodableEntries es
