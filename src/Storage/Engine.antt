-- ===== src/Storage/Engine.antt =====
-- nimbis-storage/src/storage.rs and error.rs: the state of a storage, actions on it, and the lookup of
-- the metadata of a user key.
pub mod Rules
pub mod Entries
pub mod Flush
pub mod Lookup
pub mod Known
use nimbis.Prelude.{
  ℕ, suc, ◌+◌, ◌≡◌, Bool, true, false, not, Bytes, List, [], ◌∷◌, leb, if◌then◌else◌, Result, ok,
  err, Option, none, some,
}
use nimbis.Storage.DataType.{DataType, DecoderError, from_u8, type_code}
use nimbis.Storage.Keys.{encode_meta_key}
use nimbis.Storage.Meta.{
  StringValue, HashMetaValue, ListMetaValue, SetMetaValue, ZsetMetaValue, AnyValue,
  encode_string_value,
}
use nimbis.Storage.Meta
use nimbis.Prelude.{◌==◌}
use nimbis.Storage.Database.{Db, KeyValue, Ttl, no_expiry, expire_after, BatchOp}

-- The other errors of `StorageError` come from outside the operations.
pub data StorageError (E : Type 0) : Type 0 where
  database_error : E → StorageError E
  wrong_type : Option DataType → DataType → StorageError E
  decode_error : DecoderError → StorageError E
  data_inconsistency : StorageError E

-- The databases of `Storage`, and the clock: `clock n` is its reading after `ticks` has counted to n.
pub record World {D E : Type 0} (db : Db D E) : Type 0 where
  pub string_db : D
  pub hash_db : D
  pub list_db : D
  pub set_db : D
  pub zset_db : D
  pub clock : ℕ → ℕ
  pub ticks : ℕ

-- The state comes back after an error too, since what was written stays written.
abbrev pub Action : {D E : Type 0} → Db D E → Type 0 → Type 0
Action {E = E} db A = World db → Result (StorageError E) A × World db

module _ {D E : Type 0} {db : Db D E} where
  abbrev pub pure : {A : Type 0} → A → Action db A
  pure a w = (ok a, w)

  abbrev pub raise : {A : Type 0} → StorageError E → Action db A
  raise e w = (err e, w)

  infixl 5 ◌>>=◌ ◌>>◌
  abbrev pub ◌>>=◌ : {A B : Type 0} → Action db A → (A → Action db B) → Action db B
  ◌>>=◌ m f w = let (r, w') = m w in elim r [ ok a ↦ f a w' | err e ↦ (err e, w') ]

  abbrev pub ◌>>◌ : {A B : Type 0} → Action db A → Action db B → Action db B
  m >> k = m >>= λ _. k

  -- The database of the elements of a type; strings and metadata are in that of strings.
  abbrev pub db_of : DataType → World db → D
  db_of DataType.string w = w.string_db
  db_of DataType.hash w = w.hash_db
  db_of DataType.list w = w.list_db
  db_of DataType.set w = w.set_db
  db_of DataType.zset w = w.zset_db

  abbrev pub with_db : DataType → D → World db → World db
  with_db DataType.string d w = record w { string_db = d }
  with_db DataType.hash d w = record w { hash_db = d }
  with_db DataType.list d w = record w { list_db = d }
  with_db DataType.set d w = record w { set_db = d }
  with_db DataType.zset d w = record w { zset_db = d }

  abbrev pub returned : {A : Type 0} → World db → Result E A → Result (StorageError E) A × World db
  returned w (ok a) = (ok a, w)
  returned w (err e) = (err (database_error e), w)

  abbrev pub stored_as :
      {A : Type 0} → DataType → World db → Result E (D × A) → Result (StorageError E) A × World db
  stored_as t w (ok (d, a)) = (ok a, with_db t d w)
  stored_as t w (err e) = (err (database_error e), w)

  abbrev pub changed :
      DataType → World db → Result E D → Result (StorageError E) (Unit {0}) × World db
  changed t w (ok d) = (ok tt, with_db t d w)
  changed t w (err e) = (err (database_error e), w)

  unfoldable pub read_entry : DataType → Bytes → Action db (Option KeyValue)
  read_entry t k w = returned w (db.get_key_value (db_of t w) k)

  unfoldable pub put_entry : DataType → Bytes → Bytes → Ttl → Action db ℕ
  put_entry t k v ttl w = stored_as t w (db.put_with_options (db_of t w) k v ttl)

  unfoldable pub delete_entry : DataType → Bytes → Action db (Unit {0})
  delete_entry t k w = changed t w (db.delete_with_options (db_of t w) k)

  unfoldable pub write_batch : DataType → List BatchOp → Action db (Unit {0})
  write_batch t ops w = changed t w (db.write_with_options (db_of t w) ops)

  unfoldable pub scan_from : DataType → Bytes → Action db (List (Bytes × KeyValue))
  scan_from t start w = returned w (db.scan (db_of t w) start)

  -- `Utc::now().timestamp_millis()`
  unfoldable pub read_clock : Action db ℕ
  read_clock w = (ok (w.clock w.ticks), record w { ticks = suc w.ticks })

  -- `is_expired` of utils.rs: the clock is read only for an entry with a time of expiry.
  unfoldable pub is_expired : Option ℕ → Action db Bool
  is_expired none = pure false
  is_expired (some ts) = do now ← read_clock; pure (leb ts now)

-- `MetaValue`: how the metadata of a type is coded; `kind` is `data_type()`, and `is_type_match` is the
-- test for its code, or holds of every code if there is none.
pub record MetaValue (T : Type 0) : Type 0 where
  pub decode : Bytes → Result DecoderError T
  pub encode : T → Bytes
  pub kind : Option DataType
  pub expire_time : T → ℕ
  pub set_expire_time : T → ℕ → T

abbrev pub any_meta : MetaValue AnyValue
any_meta = record {
  decode = Meta.decode_any;
  encode = Meta.encode_any;
  kind = none;
  expire_time = Meta.expire_time_of;
  set_expire_time = Meta.set_expire_time;
}

abbrev pub hash_meta : MetaValue HashMetaValue
hash_meta = record {
  decode = Meta.decode_hash_meta;
  encode = Meta.encode_hash_meta;
  kind = some DataType.hash;
  expire_time = λ v. v.expire_time;
  set_expire_time = λ v t. record v { expire_time = t };
}

abbrev pub list_meta : MetaValue ListMetaValue
list_meta = record {
  decode = Meta.decode_list_meta;
  encode = Meta.encode_list_meta;
  kind = some DataType.list;
  expire_time = λ v. v.expire_time;
  set_expire_time = λ v t. record v { expire_time = t };
}

abbrev pub set_meta : MetaValue SetMetaValue
set_meta = record {
  decode = Meta.decode_set_meta;
  encode = Meta.encode_set_meta;
  kind = some DataType.set;
  expire_time = λ v. v.expire_time;
  set_expire_time = λ v t. record v { expire_time = t };
}

abbrev pub zset_meta : MetaValue ZsetMetaValue
zset_meta = record {
  decode = Meta.decode_zset_meta;
  encode = Meta.encode_zset_meta;
  kind = some DataType.zset;
  expire_time = λ v. v.expire_time;
  set_expire_time = λ v t. record v { expire_time = t };
}

abbrev pub meta_key : Bytes → Bytes
meta_key key = encode_meta_key (record { user_key = key })

abbrev pub or_string : Option DataType → DataType
or_string none = DataType.string
or_string (some t) = t

abbrev pub is_type_match : Option DataType → ℕ → Bool
is_type_match none code = true
is_type_match (some t) code = code == type_code t

abbrev pub with_expiry : {T : Type 0} → MetaValue T → Option ℕ → T → T
with_expiry meta none v = v
with_expiry meta (some ts) v = meta.set_expire_time v ts

abbrev pub to_ttl : Option ℕ → Ttl
to_ttl none = no_expiry
to_ttl (some ms) = expire_after ms

module _ {D E : Type 0} {db : Db D E} {T : Type 0} (meta : MetaValue T) where
  abbrev pub decoded : Option ℕ → Result DecoderError T → Action db (Option T)
  decoded ts (ok v) = pure (some (with_expiry meta ts v))
  decoded ts (err e) = raise (decode_error e)

  -- From the test for an empty value on.
  abbrev pub decode_entry : Option ℕ → Bytes → Action db (Option T)
  decode_entry ts [] = pure none
  decode_entry ts (code ∷ s) =
      if is_type_match meta.kind code
      then decoded ts (meta.decode (code ∷ s))
      else raise (wrong_type meta.kind (or_string (from_u8 code)))

  abbrev pub judge_entry : Bytes → Option KeyValue → Action db (Option T)
  judge_entry key none = pure none
  judge_entry key (some kv) = do
    expired ← is_expired kv.expire_ts
    if expired
        then (do delete_entry DataType.string (meta_key key); pure none)
        else decode_entry kv.expire_ts kv.value

  -- An expired entry is deleted, and counts as missing.
  unfoldable pub get_meta : Bytes → Action db (Option T)
  get_meta key = do kv ← read_entry DataType.string (meta_key key); judge_entry key kv

  -- The clock is read only for metadata with a time of expiry.
  unfoldable pub meta_put_opts : T → Action db Ttl
  meta_put_opts v =
      if meta.expire_time v == 0
      then pure no_expiry
      else (do now ← read_clock; pure (to_ttl (Meta.remaining_ttl (meta.expire_time v) (some now))))

  -- The metadata is put back with the time to live that is left.
  unfoldable pub put_meta : Bytes → T → Action db ℕ
  unfolding meta_put_opts
  put_meta key v = do
    ttl ← meta_put_opts v
    put_entry DataType.string (meta_key key) (meta.encode v) ttl

module _ {D E : Type 0} {db : Db D E} where
  unfoldable pub delete_all : DataType → List (Bytes × KeyValue) → Action db (Unit {0})
  delete_all t [] = pure tt
  delete_all t ((k, kv) ∷ es) = delete_entry t k >> delete_all t es

  unfoldable pub clear_db : DataType → Action db (Unit {0})
  clear_db t = scan_from t [] >>= delete_all t

  unfoldable pub flush_all : Action db (Unit {0})
  unfolding clear_db
  flush_all = do
    clear_db DataType.string
    clear_db DataType.hash
    clear_db DataType.list
    clear_db DataType.set
    clear_db DataType.zset
