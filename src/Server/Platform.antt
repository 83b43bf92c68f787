-- ===== src/Server/Platform.antt =====
-- What nimbis/src takes from Rust's texts and from the messages of other crates, and the texts of errors in
-- nimbis-storage/src/error.rs.
use nimbis.Prelude.{
  ℕ, ◌+◌, ◌-◌, ◌<◌, ◌≡◌, Bool, true, ◌&&◌, Bytes, [], ◌∷◌, ◌++◌, leb, codes, if◌then◌else◌, Option,
  none, some, All, Result, ok, err,
}
use nimbis.Prelude.Int.{ℤ}
use nimbis.Resp.Types.{ParseError}
use nimbis.Resp.Utils.{is_utf8, same_bytes}
use nimbis.Resp.Utils.Integer.{integer_value}
use nimbis.Prelude.Decimal.{digits_value}
use nimbis.Storage.DataType.{DataType, DecoderError, empty, invalid_type, invalid_length}
use nimbis.Storage.Engine.{
  StorageError, database_error, wrong_type, decode_error, data_inconsistency,
}

abbrev pub ascii_upper : ℕ → ℕ
ascii_upper c = if leb b'a' c && leb c b'z' then c - 32 else c

abbrev pub ascii_lower : ℕ → ℕ
ascii_lower c = if leb b'A' c && leb c b'Z' then c + 32 else c

abbrev pub map_bytes : (ℕ → ℕ) → Bytes → Bytes
map_bytes f [] = []
map_bytes f (c ∷ s) = f c ∷ map_bytes f s

abbrev pub IsAscii : ℕ → Type 0
IsAscii c = c < 128

-- `str::to_uppercase` and `str::to_lowercase`; `String::from_utf8_lossy`, which changes no valid UTF-8; the
-- texts of errors of the parser, and the message of an inconsistency; the version of the package.
pub record Texts : Type 0 where
  pub to_uppercase : Bytes → Bytes
  pub to_lowercase : Bytes → Bytes
  pub upper-ascii : (s : Bytes) → All IsAscii s → to_uppercase s ≡ map_bytes ascii_upper s
  pub lower-ascii : (s : Bytes) → All IsAscii s → to_lowercase s ≡ map_bytes ascii_lower s
  pub from_utf8_lossy : Bytes → Bytes
  pub lossy-utf8 : (s : Bytes) → is_utf8 s ≡ true → from_utf8_lossy s ≡ s
  pub show_parse_error : ParseError → Bytes
  pub inconsistency : Bytes
  pub package_version : Bytes

-- The texts of errors of SlateDB.
pub record DatabaseTexts (E : Type 0) : Type 0 where
  pub show_database_error : E → Bytes

-- The derived `Debug` of `DataType`, alone and in an `Option`.
abbrev pub debug_data_type : DataType → Bytes
debug_data_type DataType.string = codes "String"
debug_data_type DataType.hash = codes "Hash"
debug_data_type DataType.set = codes "Set"
debug_data_type DataType.list = codes "List"
debug_data_type DataType.zset = codes "ZSet"

abbrev pub debug_option : Option DataType → Bytes
debug_option none = codes "None"
debug_option (some t) = codes "Some(" ++ (debug_data_type t ++ codes ")")

abbrev pub show_decoder_error : DecoderError → Bytes
show_decoder_error empty = codes "Empty key, cannot decode"
show_decoder_error invalid_type = codes "Invalid type code"
show_decoder_error invalid_length = codes "Invalid data length"

-- `to_string()` of a `StorageError`.
unfoldable pub show_storage_error :
    {E : Type 0} ⦃p : Texts⦄ ⦃d : DatabaseTexts E⦄ → StorageError E → Bytes
show_storage_error ⦃p⦄ ⦃d⦄ (database_error e) =
    codes "Database operation failed: " ++ d.show_database_error e
show_storage_error (wrong_type expected actual) =
    codes "WRONGTYPE Operation against a key holding the wrong kind of value (expected: "
    ++ (debug_option expected ++ (codes ", actual: " ++ (debug_data_type actual ++ codes ")")))
show_storage_error (decode_error e) = codes "Failed to decode data: " ++ show_decoder_error e
show_storage_error ⦃p⦄ data_inconsistency = codes "Data inconsistency detected: " ++ p.inconsistency

-- `str::parse` of an unsigned number of at most `bound`: a sign `+` may stand in front of the digits.
abbrev pub unsigned_digits : ℕ → Bytes → Option ℕ
unsigned_digits bound [] = none
unsigned_digits bound (c ∷ s) = elim (digits_value 0 (c ∷ s)) [
  | none ↦ none
  | some n ↦ if leb n bound then some n else none
]

unfoldable pub parse_unsigned : ℕ → Bytes → Option ℕ
unfolding digits_value
parse_unsigned bound [] = none
parse_unsigned bound (c ∷ s) =
    if leb c b'+' && leb b'+' c then unsigned_digits bound s else unsigned_digits bound (c ∷ s)

-- `str::parse` of an `i64`.
abbrev pub ok_of : Result ParseError ℤ → Option ℤ
ok_of (ok z) = some z
ok_of (err e) = none

unfoldable pub parse_signed : Bytes → Option ℤ
unfolding integer_value
parse_signed s = ok_of (integer_value s)

-- Equality with a literal.
abbrev pub is_text : Bytes → Bytes → Bool
is_text s t = same_bytes s t
