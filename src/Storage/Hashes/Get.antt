-- ===== src/Storage/Hashes/Get.antt =====
-- What the reading operations of nimbis-storage/src/storage_hash.rs return.
use nimbis.Prelude.{
  ℕ, ◌<◌, ◌^◌, ◌≡◌, ◌≢◌, ◌⊎◌, ◌∙◌, refl, sym, ap, subst, true, Bytes, List, [], ◌∷◌, length, ltb,
  ◌==◌, ok, Option, none, some, inl, inr, Bool-cases,
}
use nimbis.Storage.DataType.{DataType, type_code}
use nimbis.Storage.Compaction.{same_type}
use nimbis.Storage.Meta.{HashMetaValue, decode_hash_meta}
use nimbis.Storage.Database.{Db, KeyValue}
use nimbis.Storage.Elements.{current_value, HasMembers}
use nimbis.Storage.Elements.Counted.{AreLasting, elements, version-with_expiry}
use nimbis.Storage.Elements.Writes.{Ensures-read}
use nimbis.Storage.Engine.{World, Action, ◌>>=◌, pure, get_meta, hash_meta, with_expiry, meta_key}
use nimbis.Storage.Engine.Rules.{Ensures, Ensures-pure, Ensures-bind, ensures_ok, Ensures-mono}
use nimbis.Storage.Engine.Entries.{entry}
use nimbis.Storage.Engine.Known.{IsTyped, get_meta_known, Elsewhere, FoundOrExpired}
use nimbis.Storage.Hashes.{hash_key, hset, hget, hlen, hmget, read_field, read_fields, no_values}
use nimbis.Storage.Hashes.Keys.{hashes}
use nimbis.Storage.Hashes.Set.{HasRoom, hset-Holds, hset-HashesValid}
use nimbis.Storage.Hashes.Update.{HashesValid, Holds, put_in, fields_of}

hash_typed :
    (c : ℕ) (s : Bytes) (m : HashMetaValue)
    → decode_hash_meta (c ∷ s) ≡ ok m
    → (c == type_code DataType.hash) ≡ true
unfolding decode_hash_meta
hash_typed c s m h = elim (Bool-cases (ltb (length (c ∷ s)) 25)) [
  | inl e ↦ cc (rw e at h)
  | inr e ↦ elim (Bool-cases (c == type_code DataType.hash)) [
    | inl t ↦ t
    | inr t ↦ cc (rw (e, t) at h)
  ]
]

hash_nonempty : (m : HashMetaValue) → decode_hash_meta [] ≢ ok m
unfolding decode_hash_meta
hash_nonempty m = cc

pub hash_typing : IsTyped hash_meta
hash_typing = record { typed = hash_typed; nonempty = hash_nonempty }

abbrev pub map_values : (Bytes → Option Bytes) → List Bytes → List (Option Bytes)
map_values values [] = []
map_values values (f ∷ fs) = values f ∷ map_values values fs

module _ {D E : Type 0} {db : Db D E} where
  entry_of_hash :
      (w w' : World db) (k : Bytes)
      → Elsewhere hash_meta hash_typing w w'
      → entry DataType.hash w' k ≡ entry DataType.hash w k
  unfolding same_type
  entry_of_hash w w' k l = ap (λ d. db.view d k) (l DataType.hash refl)

  -- The elements of the hash, seen after a lookup.
  abbrev Seen : Bytes → (Bytes → Option Bytes) → ℕ → World db → Type 0
  Seen key values version w =
      AreLasting hashes w key
      × ((f : Bytes) → current_value version (entry DataType.hash w (hash_key key f)) ≡ values f)

  Seen-after :
      (key : Bytes) (values : Bytes → Option Bytes) (w w' : World db) (h : Holds key values w)
      → AreLasting hashes w key
      → Elsewhere hash_meta hash_typing w w'
      → Seen key values (with_expiry hash_meta h.kv.expire_ts h.meta).version w'
  Seen-after key values w w' h lasting l =
      let (version, _) = version-with_expiry hashes h.kv.expire_ts h.meta in
      (
        λ x kv e. lasting x kv (sym (entry_of_hash w w' (hash_key key x) l) ∙ e),
        λ f. rw (entry_of_hash w w' (hash_key key f) l, version) (h.fields f),
      )

  read_field_lem :
      (key f : Bytes) (values : Bytes → Option Bytes) (version : ℕ) (w : World db)
      → Seen key values version w
      → Ensures true (λ r w'. (r ≡ values f) × (w' ≡ w)) (read_field key version f w)
  read_field_lem key f values version w (lasting, fields) =
      Ensures-read DataType.hash (hash_key key f) (λ kv. pure (current_value version kv)) w
        (lasting f) (Ensures-pure (fields f, refl))

  read_fields_lem :
      (key : Bytes) (fs : List Bytes) (values : Bytes → Option Bytes) (version : ℕ) (w : World db)
      → Seen key values version w
      → Ensures true (λ r w'. (r ≡ map_values values fs) × (w' ≡ w)) (read_fields key version fs w)
  unfolding read_fields
  read_fields_lem key [] values version w s = Ensures-pure (refl, refl)
  read_fields_lem key (f ∷ fs) values version w s =
      Ensures-bind (read_field key version f)
        (λ v. do vs ← read_fields key version fs; pure (v ∷ vs)) w
        (read_field_lem key f values version w s)
        λ v w1 (e, same).
          rw (same, e)
            (Ensures-bind (read_fields key version fs) (λ vs. pure (values f ∷ vs)) w
              (read_fields_lem key fs values version w s)
              λ vs w2 (e2, same2). Ensures-pure (rw e2 refl, same2))

  -- Reading what a hash holds: an answer, or the one for a hash that is not there, if its metadata has a
  -- time of expiry.
  abbrev pub Answer : {A : Type 0} → A → A → Option ℕ → A → World db → Type 0
  Answer held missing ts r w' = (r ≡ held) ⊎ ((r ≡ missing) × (ts ≢ none))

  reading :
      {A : Type 0} (key : Bytes) (held missing : A) (values : Bytes → Option Bytes) (w : World db)
      (h : Holds key values w) (m : Action db A) (f : Option HashMetaValue → Action db A)
      → m w ≡ (get_meta hash_meta key >>= f) w
      → ((w' : World db) → f none w' ≡ (ok missing, w'))
      → ((w' : World db)
          → Elsewhere hash_meta hash_typing w w'
          → Ensures true
              (λ r _. r ≡ held)
              (f (some (with_expiry hash_meta h.kv.expire_ts h.meta)) w'))
      → Ensures true (Answer held missing h.kv.expire_ts) (m w)
  reading {A} key held missing values w h m f start gone found = rw start (
      Ensures-bind (get_meta hash_meta key) f w
        (get_meta_known hash_meta hash_typing key h.kv h.meta w h.there h.decodes)
        λ r w' looked. answer r w' looked)
    where
      answer :
          (r : Option HashMetaValue) (w' : World db)
          → FoundOrExpired hash_meta hash_typing h.kv.expire_ts h.meta w r w'
          → Ensures true (Answer held missing h.kv.expire_ts) (f r w')
      answer r w' (l, inl e) = rw e (Ensures-mono (found w' l) λ r2 w2 e2. inl e2)
      answer r w' (l, inr (e, expiring)) = rw (e, gone w') (Ensures-pure (inr (refl, expiring)))

  -- hget returns what the hash holds under the field; nothing if its metadata has expired.
  pub hget-Holds :
      (key f : Bytes) (values : Bytes → Option Bytes) (w : World db) (h : Holds key values w)
      → AreLasting hashes w key
      → Ensures true (Answer (values f) none h.kv.expire_ts) (hget key f w)
  unfolding hget
  hget-Holds key f values w h lasting =
      reading key (values f) none values w h (hget key f)
        (λ found. elim found [ none ↦ pure none | some m ↦ read_field key m.version f ]) refl
        (λ w'. refl)
        λ w' l.
          Ensures-mono (read_field_lem key f values _ w' (Seen-after key values w w' h lasting l))
            λ r w2 (e, _). e

  -- hmget returns what the hash holds under each of the fields, in their order; nothing for each if its
  -- metadata has expired.
  pub hmget-Holds :
      (key : Bytes) (fs : List Bytes) (values : Bytes → Option Bytes) (w : World db)
      (h : Holds key values w)
      → AreLasting hashes w key
      → Ensures true (Answer (map_values values fs) (no_values fs) h.kv.expire_ts) (hmget key fs w)
  unfolding hmget
  hmget-Holds key fs values w h lasting =
      reading key (map_values values fs) (no_values fs) values w h (hmget key fs)
        (λ found. elim found [ none ↦ pure (no_values fs) | some m ↦ read_fields key m.version fs ])
        refl (λ w'. refl)
        λ w' l.
          Ensures-mono (read_fields_lem key fs values _ w' (Seen-after key values w w' h lasting l))
            λ r w2 (e, _). e

  -- hlen returns the length in the metadata, or 0 if it has expired.
  hlen-Holds :
      (key : Bytes) (values : Bytes → Option Bytes) (w : World db) (h : Holds key values w)
      → Ensures true (Answer h.meta.len 0 h.kv.expire_ts) (hlen key w)
  unfolding hlen
  hlen-Holds key values w h =
      reading key h.meta.len 0 values w h (hlen key)
        (λ found. elim found [ none ↦ pure 0 | some m ↦ pure m.len ]) refl (λ w'. refl)
        λ w' l. let (_, len) = version-with_expiry hashes h.kv.expire_ts h.meta in Ensures-pure len

  -- If the metadata of a key is that of a hash, hlen returns the number of the fields of its generation,
  -- or 0 if the metadata has expired. The metadata of every hash counts its fields before, and the user
  -- key has at most 65535 bytes.
  pub hlen-HashesValid :
      (key : Bytes) (kv : KeyValue) (m : HashMetaValue) (w : World db)
      → length key < 2 ^ 16
      → HashesValid w
      → entry DataType.string w (meta_key key) ≡ some kv
      → decode_hash_meta kv.value ≡ ok m
      → (fs : List Bytes) × HasMembers m.version (elements hashes w key) fs
        × Ensures true (Answer (length fs) 0 kv.expire_ts) (hlen key w)
  hlen-HashesValid key kv m w short valid there d =
      let (fs, counted) = (valid key short).1 kv m there d in
      (
        fs,
        counted.members,
        subst (λ n. Ensures true (Answer n 0 kv.expire_ts) (hlen key w)) counted.len
            (hlen-Holds key (λ f. current_value m.version (entry DataType.hash w (hash_key key f)))
              w (record { kv = kv; meta = m; there = there; decodes = d; fields = λ f. refl })),
      )

  -- After hset, hget of any field and hmget of any fields return the value that was put under the field,
  -- and under the other fields what the generation held that the lookup of hset found; or nothing, if the
  -- metadata has a time of expiry. The only errors are those of a database. The user key has at most
  -- 65535 bytes, the field fewer than 2 ^ 32, the length of the hash is not at the end of the range of
  -- u64, and the metadata of every hash counts its fields before.
  pub hget-hset :
      (key field value : Bytes) (found : Option HashMetaValue) (n : ℕ) (w w1 w' : World db)
      → length key < 2 ^ 16
      → length field < 2 ^ 32
      → HasRoom key w
      → HashesValid w
      → get_meta hash_meta key w ≡ (ok found, w1)
      → hset key field value w ≡ (ok n, w')
      → (kv : KeyValue) × (entry DataType.string w' (meta_key key) ≡ some kv)
        × ((f : Bytes)
            → Ensures true
                (Answer (put_in field value (fields_of key found w1) f) none kv.expire_ts)
                (hget key f w'))
        × ((fs : List Bytes)
            → Ensures true
                (Answer
                  (map_values (put_in field value (fields_of key found w1)) fs)
                  (no_values fs)
                  kv.expire_ts)
                (hmget key fs w'))
  hget-hset key field value found n w w1 w' short short_field room valid e done =
      let (_, h) =
        ensures_ok (hset-Holds key field value found w w1 short short_field room valid e) done in
      let valid' =
        ensures_ok (hset-HashesValid key field value w short short_field room valid) done in
      (
        h.kv,
        h.there,
        λ f. hget-Holds key f _ w' h (valid' key short).0,
        λ fs. hmget-Holds key fs _ w' h (valid' key short).0,
      )
