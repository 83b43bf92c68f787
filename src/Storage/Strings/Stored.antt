-- ===== src/Storage/Strings/Stored.antt =====
-- What the operations of nimbis-storage/src/storage_string.rs store.
use nimbis.Prelude.{
  suc, arith, Bool, Option, ◌∷◌, sym, ◌≡◌, ◌∙◌, inl, refl, true, false, Bytes, ok, none, some,
}
use nimbis.Prelude.Int.{ℤ, pos, negsuc, checked, IsI64, ◌+ℤ◌, ◌-ℤ◌}
use nimbis.Prelude.Decimal.{print_ℤ, print_ℕ, IsDigit, print_ℕ-IsDigit}
use nimbis.Resp.External.{IsDecimal}
use nimbis.Resp.Utils.{is_utf8}
use nimbis.Resp.Utils.Integer.{parse_integer-value, parse_integer-print_ℤ}
use nimbis.Resp.RoundTrip.Items.{All-map, decimal-is_utf8}
use nimbis.Storage.DataType.{DataType, type_code, from_u8}
use nimbis.Storage.Keys.{encode_string_key, encode_meta_key}
use nimbis.Storage.Meta.{
  AnyValue, encode_string_value, decode_string_value, decode_any, set_expire_time,
}
use nimbis.Storage.Database.{Db, KeyValue, default_ttl}
use nimbis.Storage.Engine.{World, Action, ◌>>=◌, pure, get_meta, any_meta, put_entry}
use nimbis.Storage.Engine.Rules.{
  Ensures, Ensures-mono, Ensures-pure, Ensures-bind, bind_ok, ensures_ok,
}
use nimbis.Storage.Engine.Entries.{entry, put_entry_lem}
use nimbis.Storage.Engine.Lookup.{get_meta_live}
use nimbis.Storage.Strings.{
  get, set, incr, decr, put_number, string_of, as_number, or_overflow, string_key,
}

abbrev pub stepped : Bool → ℤ → ℤ
stepped true y = y +ℤ pos 1
stepped false y = y -ℤ pos 1

print_ℤ-is_utf8 : (z : ℤ) → is_utf8 (print_ℤ z) ≡ true
unfolding print_ℤ
print_ℤ-is_utf8 (pos n) =
    decimal-is_utf8 (print_ℕ n)
      (All-map IsDigit IsDecimal (print_ℕ n) (λ c h. omega arith) (print_ℕ-IsDigit n))
print_ℤ-is_utf8 (negsuc n) = decimal-is_utf8 (b'-' ∷ print_ℕ (suc n)) (
  inl refl,
  All-map IsDigit IsDecimal (print_ℕ (suc n)) (λ c h. omega arith) (print_ℕ-IsDigit (suc n)),
)

checked_fits : (z : ℤ) → IsI64 z → checked z ≡ some z
checked_fits (pos n) h = ground arith
checked_fits (negsuc n) h = ground arith

module _ {D E : Type 0} {db : Db D E} where
  -- The entry of the key is a string without a time of expiry.
  abbrev Holds : Bytes → Bytes → World db → Type 0
  Holds key v w =
      (kv : KeyValue) × (entry DataType.string w (string_key key) ≡ some kv)
      × (kv.expire_ts ≡ none)
      × (kv.value ≡ encode_string_value (record { value = v }))

  set-Holds : (key v : Bytes) (w : World db) → Ensures true (λ _ w'. Holds key v w') (set key v w)
  unfolding set
  set-Holds key v w =
      Ensures-bind (put_entry DataType.string (string_key key) _ default_ttl) (λ _. pure tt) w
        (put_entry_lem DataType.string (string_key key) _ default_ttl w)
        λ n w' put. Ensures-pure (_, put.change.there, put.expiry, refl)

  found_string :
      (key v : Bytes) (w : World db)
      → Holds key v w
      → Ensures true (λ found w'. (found ≡ some v) × (w' ≡ w)) (get key w)
  unfolding get encode_string_key encode_meta_key string_of encode_string_value decode_string_value
      decode_any type_code from_u8 set_expire_time
  found_string key v w (kv, there, n, value) =
      Ensures-bind (get_meta any_meta key) string_of w
        (get_meta_live any_meta
          {P = λ found w'. (found ≡ some (AnyValue.string (record { value = v }))) × (w' ≡ w)} key
          kv w there n (rw value (Ensures-pure (refl, refl))))
        λ found w' (e, same). rw e (Ensures-pure (refl, same))

  -- What set stores is what get returns next, and get changes nothing; the only errors are those of the
  -- database.
  pub get-set :
      (w w' : World db) (key v : Bytes)
      → set key v w ≡ (ok tt, w')
      → Ensures true (λ found w''. (found ≡ some v) × (w'' ≡ w')) (get key w')
  get-set w w' key v h = found_string key v w' (ensures_ok (set-Holds key v w) h)

  put_number-Holds :
      (key : Bytes) (z : ℤ) (w : World db)
      → Ensures true (λ z' w'. (z' ≡ z) × Holds key (print_ℤ z') w') (put_number key z w)
  unfolding put_number
  put_number-Holds key z w =
      Ensures-bind (set key (print_ℤ z)) (λ _. pure z) w (set-Holds key (print_ℤ z) w)
        λ _ w' h. Ensures-pure (refl, h)

  -- What incr and decr do with a number that is there.
  as_number-print_ℤ : (z : ℤ) (w : World db) → IsI64 z → as_number (some (print_ℤ z)) w ≡ (ok z, w)
  as_number-print_ℤ z w h =
      let read = sym (parse_integer-value (print_ℤ z)) ∙ parse_integer-print_ℤ z h in
      rw (print_ℤ-is_utf8 z, read) refl

  -- incr or decr.
  abbrev pub count : Bool → Bytes → Action db ℤ
  count true key = incr key
  count false key = decr key

  abbrev rest_of_count : Bool → Bytes → Option Bytes → Action db ℤ
  rest_of_count up key current = do
    z ← as_number current
    z' ← or_overflow (checked (stepped up z))
    put_number key z'

  count_rest :
      (up : Bool) (key : Bytes) (w : World db)
      → count up key w ≡ (get key >>= rest_of_count up key) w
  unfolding incr decr
  count_rest true key w = refl
  count_rest false key w = refl

  -- On a number that was set, incr and decr return the next greater and the next smaller number, as long as
  -- both fit i64, and get then returns its decimal text and changes nothing; the only errors are those of
  -- the database.
  pub count-set :
      (up : Bool) (key : Bytes) (y : ℤ) (w w1 : World db)
      → IsI64 y
      → IsI64 (stepped up y)
      → set key (print_ℤ y) w ≡ (ok tt, w1)
      → Ensures true
          (λ z w2.
            (z ≡ stepped up y)
            × Ensures true (λ found w3. (found ≡ some (print_ℤ z)) × (w3 ≡ w2)) (get key w2))
          (count up key w1)
  count-set up key y w w1 h k e = rw (count_rest up key w1) (
      Ensures-bind (get key) (rest_of_count up key) w1
        (found_string key (print_ℤ y) w1 (ensures_ok (set-Holds key (print_ℤ y) w) e))
        λ found w2 (f, same).
          rw
            (
              f,
              same,
              bind_ok (as_number (some (print_ℤ y))) _ w1 w1 y (as_number-print_ℤ y w1 h),
              checked_fits (stepped up y) k,
            )
            (Ensures-mono (put_number-Holds key (stepped up y) w1)
              λ z w3 (t, holds). (t, found_string key (print_ℤ z) w3 holds)))
