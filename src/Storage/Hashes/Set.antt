-- ===== src/Storage/Hashes/Set.antt =====
-- What `hset` of nimbis-storage/src/storage_hash.rs leaves.
use nimbis.Prelude.{
  ℕ, suc, ◌<◌, ◌^◌, ◌≡◌, ◌∙◌, sym, ap, subst, true, false, Bytes, length, ok, Option, none, some,
}
use nimbis.Storage.DataType.{DataType}
use nimbis.Storage.Meta.{HashMetaValue, decode_hash_meta}
use nimbis.Storage.Database.{Db, KeyValue}
use nimbis.Storage.Elements.{is_current}
use nimbis.Storage.Elements.Validity.{found_Counted, found_Known, Looked-IsValid}
use nimbis.Storage.Engine.{World, Action, get_meta, hash_meta, meta_key}
use nimbis.Storage.Engine.Rules.{
  Ensures, Ensures-bind, ensures_ok, Ensures-mono, Ensures-weaken, bind_ok,
}
use nimbis.Storage.Engine.Entries.{entry}
use nimbis.Storage.Engine.Lookup.{Looked, get_meta_lem}
use nimbis.Storage.Hashes.{hash_key, create_hash, update_hash, hset}
use nimbis.Storage.Hashes.Keys.{hashes}
use nimbis.Storage.Hashes.Update.{
  put_in, added, HashesValid, Holds, fields_of, Done, create_hash_lem, update_hash_lem,
}

module _ {D E : Type 0} {db : Db D E} where
  -- The length of the hash is not at the end of the range of `u64`.
  abbrev pub HasRoom : Bytes → World db → Type 0
  HasRoom key w =
      (kv : KeyValue) (m : HashMetaValue)
      → entry DataType.string w (meta_key key) ≡ some kv
      → decode_hash_meta kv.value ≡ ok m
      → suc m.len < 2 ^ 64

  abbrev pub added_to : Bytes → Bytes → Option HashMetaValue → World db → ℕ
  added_to key field none w = 1
  added_to key field (some m) w =
      added (is_current m.version (entry DataType.hash w (hash_key key field)))

  abbrev rest_of_hset : Bytes → Bytes → Bytes → Option HashMetaValue → Action db ℕ
  rest_of_hset key field value found = elim found [
    | none ↦ create_hash key field value
    | some m ↦ update_hash key field value m
  ]

  rest_of_hset_lem :
      (key field value : Bytes) (found : Option HashMetaValue) (w w1 : World db)
      → length key < 2 ^ 16
      → length field < 2 ^ 32
      → HasRoom key w
      → HashesValid w
      → Looked hash_meta key w found w1
      → Ensures true
          (λ n w'.
            (n ≡ added_to key field found w1)
            × Done key (put_in field value (fields_of key found w1)) w')
          (rest_of_hset key field value found w1)
  rest_of_hset_lem key field value none w w1 h k room valid l =
      create_hash_lem key field value w1 h k (Looked-IsValid hashes key w w1 none h valid l)
  rest_of_hset_lem key field value (some m) w w1 h k room valid l =
      let (ms, counted) = found_Counted hashes key w w1 m h valid l in
      let (kv, m0, there, d, version, len) = found_Known hashes key w w1 m l in
      let (same, _) = l.seen in
      let free = room kv m0 (ap (λ x. db.view x (meta_key key)) (sym same) ∙ there) d in
      update_hash_lem key field value m ms w1 h k (subst (λ x. suc x < 2 ^ 64) len free)
        (Looked-IsValid hashes key w w1 (some m) h valid l) counted
        (found_Known hashes key w w1 m l)

  -- A state where the metadata of every hash counts its fields, each once, stays so when hset ends without
  -- an error. The user key has at most 65535 bytes, the field fewer than 2 ^ 32, and the length of the
  -- hash is not at the end of the range of u64.
  pub hset-HashesValid :
      (key field value : Bytes) (w : World db)
      → length key < 2 ^ 16
      → length field < 2 ^ 32
      → HasRoom key w
      → HashesValid w
      → Ensures false (λ n w'. HashesValid w') (hset key field value w)
  unfolding hset
  hset-HashesValid key field value w h k room valid =
      Ensures-bind (get_meta hash_meta key) (rest_of_hset key field value) w
        (get_meta_lem hash_meta key w)
        λ found w1 l. Ensures-weaken (
          Ensures-mono (rest_of_hset_lem key field value found w w1 h k room valid l)
            λ n w' (_, (v, _)). v)

  -- After hset, the fields of the hash are those of the generation that the lookup found, or none if it
  -- found none, with the value put under the field: fields of earlier generations stay hidden. It returns
  -- 1 for a new field and 0 for an old one, and the only errors after the lookup are those of a database.
  -- The user key has at most 65535 bytes, the field fewer than 2 ^ 32, the length of the hash is not at
  -- the end of the range of u64, and the metadata counts the fields before.
  pub hset-Holds :
      (key field value : Bytes) (found : Option HashMetaValue) (w w1 : World db)
      → length key < 2 ^ 16
      → length field < 2 ^ 32
      → HasRoom key w
      → HashesValid w
      → get_meta hash_meta key w ≡ (ok found, w1)
      → Ensures true
          (λ n w'.
            (n ≡ added_to key field found w1)
            × Holds key (put_in field value (fields_of key found w1)) w')
          (hset key field value w)
  unfolding hset
  hset-Holds key field value found w w1 h k room valid e =
      let l = ensures_ok (get_meta_lem hash_meta key w) e in
      rw (bind_ok (get_meta hash_meta key) (rest_of_hset key field value) w w1 found e) (
        Ensures-mono (rest_of_hset_lem key field value found w w1 h k room valid l)
          λ n w' (e, (_, g)). (e, g))
