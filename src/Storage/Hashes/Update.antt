-- ===== src/Storage/Hashes/Update.antt =====
-- What the two branches of `hset` of nimbis-storage/src/storage_hash.rs leave.
use nimbis.Prelude.{
  ℕ, suc, ◌+◌, ◌<◌, ◌%◌, ◌^◌, ◌≡◌, ◌∙◌, refl, ap, Bool, true, false, Bytes, List, [], ◌∷◌, arith,
  if◌then◌else◌, length, ok, Option, none, some, inl, inr, Bool-cases,
}
use nimbis.Resp.Utils.{same_bytes}
use nimbis.Storage.DataType.{DataType}
use nimbis.Storage.Compaction.{same_type}
use nimbis.Storage.Meta.{HashMetaValue, hash_meta_with_ttl, encode_hash_meta, decode_hash_meta}
use nimbis.Storage.Database.{Db, KeyValue, default_ttl}
use nimbis.Storage.Elements.{is_current, current_value}
use nimbis.Storage.Elements.Counted.{IsValid, Counted, Only-Change}
use nimbis.Storage.Elements.Validity.{
  IsValid-Only, Known, Known-changed, Known-IsCounted, Stored-IsValid,
}
use nimbis.Storage.Elements.Writes.{
  Ensures-read, Put-lasting, Put-first, Put-new, Put-again, older, Put-value, Put-value_first,
}
use nimbis.Storage.Engine.{World, pure, put_entry, put_meta, hash_meta, meta_key}
use nimbis.Storage.Engine.Rules.{Ensures, Ensures-pure, Ensures-bind}
use nimbis.Storage.Engine.Entries.{entry, Put, put_entry_lem}
use nimbis.Storage.Engine.Lookup.{Stored, put_meta_lem, Put-Stored}
use nimbis.Storage.Hashes.{hash_key, longer, count_field, write_field, create_hash, update_hash}
use nimbis.Storage.Hashes.Keys.{hashes}

abbrev pub put_in : Bytes → Bytes → (Bytes → Option Bytes) → Bytes → Option Bytes
put_in field value values f = if same_bytes f field then some value else values f

-- How many fields a put adds.
abbrev pub added : Bool → ℕ
added there = if there then 0 else 1

module _ {D E : Type 0} {db : Db D E} where
  -- Every hash counts its fields.
  abbrev pub HashesValid : World db → Type 0
  HashesValid w = IsValid hashes w

  -- The metadata of a key is that of a hash with these values.
  pub record Holds (key : Bytes) (values : Bytes → Option Bytes) (w : World db) : Type 0 where
    pub kv : KeyValue
    pub meta : HashMetaValue
    pub there : entry DataType.string w (meta_key key) ≡ some kv
    pub decodes : decode_hash_meta kv.value ≡ ok meta
    pub fields :
        (f : Bytes) → current_value meta.version (entry DataType.hash w (hash_key key f)) ≡ values f

  -- The fields of a hash before: those of the metadata that a lookup found.
  abbrev pub fields_of : Bytes → Option HashMetaValue → World db → Bytes → Option Bytes
  fields_of key none w f = none
  fields_of key (some m) w f = current_value m.version (entry DataType.hash w (hash_key key f))

  Stored-Holds :
      (key : Bytes) (m : HashMetaValue) (w w' : World db) (values : Bytes → Option Bytes)
      → Stored hash_meta key (encode_hash_meta m) w w'
      → m.version < 2 ^ 64
      → m.len < 2 ^ 64
      → ((f : Bytes) → current_value m.version (entry DataType.hash w (hash_key key f)) ≡ values f)
      → Holds key values w'
  unfolding same_type
  Stored-Holds key m w w' values st h k values_are =
      let (m', d, version, len) = hashes.decode-encode m h k in
      let (kv, there, value) = st.there in
      record {
        kv = kv;
        meta = m';
        there = there;
        decodes = rw value d;
        fields = λ f. rw version (
            ap (λ x. current_value m.version (db.view x (hash_key key f)))
              (st.elsewhere DataType.hash refl)
            ∙ values_are f);
      }

  abbrev pub Done : Bytes → (Bytes → Option Bytes) → World db → Type 0
  Done key values w = HashesValid w × Holds key values w

  pub create_hash_lem :
      (key field value : Bytes) (w : World db)
      → length key < 2 ^ 16
      → length field < 2 ^ 32
      → HashesValid w
      → Ensures true
          (λ n w'. (n ≡ 1) × Done key (put_in field value (λ _. none)) w')
          (create_hash key field value w)
  create_hash_lem key field value w short short_field valid =
      Ensures-bind (put_entry DataType.hash (hash_key key field) value default_ttl) _ w
        (put_entry_lem DataType.hash (hash_key key field) value default_ttl w)
        λ n w1 put.
          let m = hash_meta_with_ttl n 1 0 in
          Ensures-bind (put_entry DataType.string (meta_key key) (encode_hash_meta m) default_ttl) _
            w1 (put_entry_lem DataType.string (meta_key key) (encode_hash_meta m) default_ttl w1)
            λ seq w2 put2.
              let st = Put-Stored hash_meta key (encode_hash_meta m) default_ttl seq w1 w2 put2 in
              Ensures-pure (
                refl,
                (
                  Stored-IsValid hashes key m w w1 w2 (field ∷ []) short valid
                      (Only-Change hashes key field w w1 _ short put.change)
                      (Put-lasting hashes key field value n w w1 put (valid key short).0)
                      (Put-first hashes key field value n w w1 m short_field put refl refl) st,
                  Stored-Holds key m w1 w2 _ st put.bound (omega arith)
                      (Put-value_first hashes key field value n w w1 put),
                ),
              )

  -- The fields after a put into the generation of `m`.
  Put-fields :
      (key field value : Bytes) (n : ℕ) (m : HashMetaValue) (ms : List Bytes) (w w' : World db)
      → Put DataType.hash (hash_key key field) value default_ttl n w w'
      → Counted hashes w key m ms
      → (f : Bytes)
      → current_value m.version (entry DataType.hash w' (hash_key key f))
        ≡ put_in field value (fields_of key (some m) w) f
  Put-fields key field value n m ms w w' put k =
      Put-value hashes key field value n m.version w w' put (older hashes key n w m ms k put.newer)

  Known-Holds :
      (key : Bytes) (m : HashMetaValue) (values : Bytes → Option Bytes) (w : World db)
      → Known hashes key m w
      → ((f : Bytes) → current_value m.version (entry DataType.hash w (hash_key key f)) ≡ values f)
      → Holds key values w
  Known-Holds key m values w (kv, m0, there, d, version, len) fields = record {
    kv = kv;
    meta = m0;
    there = there;
    decodes = d;
    fields = λ f. rw version (fields f);
  }

  again :
      (key field value : Bytes) (n : ℕ) (m : HashMetaValue) (ms : List Bytes) (w w' : World db)
      → length key < 2 ^ 16
      → length field < 2 ^ 32
      → HashesValid w
      → Counted hashes w key m ms
      → Known hashes key m w
      → Put DataType.hash (hash_key key field) value default_ttl n w w'
      → is_current m.version (entry DataType.hash w (hash_key key field)) ≡ true
      → Done key (put_in field value (fields_of key (some m) w)) w'
  again key field value n m ms w w' short short_field valid k known put there =
      let known' = Known-changed hashes key field m w w' _ put.change known in
      let k' = Put-again hashes key field value n w w' m ms short_field put k there in
      (
        IsValid-Only hashes key w w' valid (Only-Change hashes key field w w' _ short put.change) (
          Put-lasting hashes key field value n w w' put (valid key short).0,
          Known-IsCounted hashes key m w' ms known' k',
        ),
        Known-Holds key m _ w' known' (Put-fields key field value n m ms w w' put k),
      )

  new :
      (key field value : Bytes) (n : ℕ) (m : HashMetaValue) (ms : List Bytes) (w w1 w' : World db)
      → length key < 2 ^ 16
      → length field < 2 ^ 32
      → suc m.len < 2 ^ 64
      → HashesValid w
      → Counted hashes w key m ms
      → Put DataType.hash (hash_key key field) value default_ttl n w w1
      → is_current m.version (entry DataType.hash w (hash_key key field)) ≡ false
      → Stored hash_meta key (encode_hash_meta (longer m)) w1 w'
      → Done key (put_in field value (fields_of key (some m) w)) w'
  new key field value n m ms w w1 w' short short_field room valid k put there st =
      let len : (m.len + 1) % 2 ^ 64 ≡ suc m.len = omega arith in
      let k' =
        Put-new hashes key field value n w w1 m (longer m) ms short_field put k there refl len
          room in
      (
        Stored-IsValid hashes key (longer m) w w1 w' (field ∷ ms) short valid
            (Only-Change hashes key field w w1 _ short put.change)
            (Put-lasting hashes key field value n w w1 put (valid key short).0) k' st,
        Stored-Holds key (longer m) w1 w' _ st k.bound (omega arith)
            (Put-fields key field value n m ms w w1 put k),
      )

  pub update_hash_lem :
      (key field value : Bytes) (m : HashMetaValue) (ms : List Bytes) (w : World db)
      → length key < 2 ^ 16
      → length field < 2 ^ 32
      → suc m.len < 2 ^ 64
      → HashesValid w
      → Counted hashes w key m ms
      → Known hashes key m w
      → Ensures true
          (λ n w'.
            (n ≡ added (is_current m.version (entry DataType.hash w (hash_key key field))))
            × Done key (put_in field value (fields_of key (some m) w)) w')
          (update_hash key field value m w)
  update_hash_lem key field value m ms w short short_field room valid k known =
      Ensures-read DataType.hash (hash_key key field) (write_field key field value m) w
        ((valid key short).0 field)
        (Ensures-bind (put_entry DataType.hash (hash_key key field) value default_ttl)
          (λ _. count_field key m (entry DataType.hash w (hash_key key field))) w
          (put_entry_lem DataType.hash (hash_key key field) value default_ttl w)
          λ n w1 put.
            elim (Bool-cases (is_current m.version (entry DataType.hash w (hash_key key field)))) [
              | inl there ↦ rw there (
                  Ensures-pure (
                    refl,
                    again key field value n m ms w w1 short short_field valid k known put there,
                  ))
              | inr there ↦ rw there (
                  Ensures-bind (put_meta hash_meta key (longer m)) (λ _. pure 1) w1
                    (put_meta_lem hash_meta key (longer m) w1)
                    λ _ w2 st. Ensures-pure (
                      refl,
                      new key field value n m ms w w1 w2 short short_field room valid k put there
                          st,
                    ))
            ])
