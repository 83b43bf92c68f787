-- ===== src/Storage/Strings.antt =====
-- nimbis-storage/src/storage_string.rs: the operations on strings, and those on keys of any type.
pub mod Stored
use nimbis.Prelude.{
  ℕ, suc, ◌+◌, ◌-◌, Bool, true, false, ◌&&◌, Bytes, List, [], ◌∷◌, ◌++◌, leb, ltb, length,
  if◌then◌else◌, Result, ok, err, Option, none, some,
}
use nimbis.Prelude.Int.{ℤ, pos, negsuc, checked_add, checked_sub, ◌+ℤ◌, ◌-ℤ◌}
use nimbis.Prelude.Decimal.{print_ℤ}
use nimbis.Resp.Types.{ParseError}
use nimbis.Resp.Utils.{is_utf8}
use nimbis.Resp.Utils.Integer.{integer_value}
use nimbis.Storage.DataType.{DataType, invalid_length}
use nimbis.Storage.Keys.{encode_string_key}
use nimbis.Storage.Meta.{AnyValue, encode_string_value, data_type}
use nimbis.Storage.Database.{Db, KeyValue, Ttl, default_ttl, no_expiry, expire_after}
use nimbis.Storage.Engine.{
  Action, pure, raise, ◌>>=◌, ◌>>◌, wrong_type, decode_error, data_inconsistency, read_entry,
  put_entry, delete_entry, read_clock, is_expired, get_meta, any_meta,
}

abbrev pub string_key : Bytes → Bytes
string_key key = encode_string_key (record { user_key = key })

abbrev pub appended : Option Bytes → Bytes → Bytes
appended none s = s
appended (some t) s = t ++ s

abbrev pub is_some : {A : Type 0} → Option A → Bool
is_some none = false
is_some (some a) = true

module _ {D E : Type 0} {db : Db D E} where
  -- A string, no value, or a value of another type.
  unfoldable pub string_of : Option AnyValue → Action db (Option Bytes)
  unfolding data_type
  string_of none = pure none
  string_of (some (AnyValue.string v)) = pure (some v.value)
  string_of (some v) = raise (wrong_type (some DataType.string) (data_type v))

  unfoldable pub get : Bytes → Action db (Option Bytes)
  get key = get_meta any_meta key >>= string_of

  unfoldable pub set : Bytes → Bytes → Action db (Unit {0})
  set key value = do
    put_entry DataType.string (string_key key) (encode_string_value (record { value = value }))
        default_ttl
    pure tt

  -- A key that is not there is passed over.
  unfoldable pub del_from : List Bytes → ℕ → Action db ℕ
  del_from [] deleted = pure deleted
  del_from (key ∷ keys) deleted = do
    found ← read_entry DataType.string (string_key key)
    elim found [
      | none ↦ del_from keys deleted
      | some kv ↦ delete_entry DataType.string (string_key key) >> del_from keys (suc deleted)
    ]

  unfoldable pub del : List Bytes → Action db ℕ
  unfolding del_from
  del keys = del_from keys 0

  -- A time that has passed deletes the key, and 0 takes its expiry away.
  abbrev pub put_expiry : Bytes → Bytes → ℕ → ℕ → Action db Bool
  put_expiry skey value expire_time now =
      if ltb 0 expire_time && leb expire_time now
      then (do delete_entry DataType.string skey; pure true)
      else (do
        put_entry DataType.string skey value
            (if ltb 0 expire_time then expire_after (expire_time - now) else no_expiry)
        pure true)

  abbrev pub expire_found : Bytes → ℕ → Option KeyValue → Action db Bool
  expire_found skey expire_time none = pure false
  expire_found skey expire_time (some kv) = do
    now ← read_clock
    put_expiry skey kv.value expire_time now

  unfoldable pub expire : Bytes → ℕ → Action db Bool
  expire key expire_time = do
    meta ← get_meta any_meta key
    elim meta [
      | none ↦ pure false
      | some v ↦
          read_entry DataType.string (string_key key) >>= expire_found (string_key key) expire_time
    ]

  -- -1 without a time of expiry.
  abbrev pub time_left : Option ℕ → Action db (Option ℤ)
  time_left none = pure (some (negsuc 0))
  time_left (some ts) = do now ← read_clock; pure (some (pos (ts - now)))

  unfoldable pub ttl : Bytes → Action db (Option ℤ)
  ttl key = do
    found ← read_entry DataType.string (string_key key)
    elim found [
      | none ↦ pure none
      | some kv ↦ do
        expired ← is_expired kv.expire_ts
        if expired
            then (do delete_entry DataType.string (string_key key); pure none)
            else time_left kv.expire_ts
    ]

  unfoldable pub exists : Bytes → Action db Bool
  exists key = do found ← get_meta any_meta key; pure (is_some found)

  unfoldable pub count_existing : List Bytes → ℕ → Action db ℕ
  unfolding exists
  count_existing [] count = pure count
  count_existing (key ∷ keys) count = do
    found ← exists key
    count_existing keys (if found then suc count else count)

  unfoldable pub exists_many : List Bytes → Action db ℕ
  unfolding count_existing
  exists_many keys = count_existing keys 0

  -- `str::parse::<i64>` reads a sign and digits within the range of `i64`.
  abbrev pub number_read : Result ParseError ℤ → Action db ℤ
  number_read (ok z) = pure z
  number_read (err e) = raise data_inconsistency

  abbrev pub as_number : Option Bytes → Action db ℤ
  as_number none = pure (pos 0)
  as_number (some s) =
      if is_utf8 s then number_read (integer_value s) else raise (decode_error invalid_length)

  abbrev pub or_overflow : Option ℤ → Action db ℤ
  or_overflow none = raise data_inconsistency
  or_overflow (some z) = pure z

  -- The text of the number is put, and the number returned.
  unfoldable pub put_number : Bytes → ℤ → Action db ℤ
  unfolding set
  put_number key z = do set key (print_ℤ z); pure z

  unfoldable pub incr : Bytes → Action db ℤ
  unfolding ◌+ℤ◌
  incr key = do
    current ← get key
    z ← as_number current
    z' ← or_overflow (checked_add z (pos 1))
    put_number key z'

  unfoldable pub decr : Bytes → Action db ℤ
  unfolding ◌-ℤ◌
  decr key = do
    current ← get key
    z ← as_number current
    z' ← or_overflow (checked_sub z (pos 1))
    put_number key z'

  unfoldable pub append : Bytes → Bytes → Action db ℕ
  unfolding set
  append key append_val = do
    current ← get key
    let new_val = appended current append_val
    set key new_val
    pure (length new_val)
