-- ===== src/Storage/Engine/Known.antt =====
-- The lookup of metadata that is there (nimbis-storage/src/storage.rs, `get_meta`).
use nimbis.Prelude.{
  ℕ, ◌≡◌, ◌≢◌, ◌⊎◌, ◌∙◌, refl, subst, Bool, true, false, Bytes, [], ◌∷◌, if◌then◌else◌, ok, Option,
  none, some, inl, inr,
}
use nimbis.Storage.DataType.{DataType}
use nimbis.Storage.Compaction.{same_type}
use nimbis.Storage.Database.{Db, KeyValue, Reads}
use nimbis.Storage.Engine.{
  World, pure, ◌>>=◌, db_of, MetaValue, with_expiry, meta_key, is_type_match, decode_entry,
  judge_entry, get_meta, is_expired, delete_entry, read_entry,
}
use nimbis.Storage.Engine.Rules.{Ensures, Ensures-pure, Ensures-bind}
use nimbis.Storage.Engine.Entries.{is_expired_lem, entry, read_entry_lem, delete_entry_lem}
use nimbis.Storage.Engine.Lookup.{db_of_later}

-- What decodes begins with the code of its type.
pub record IsTyped {T : Type 0} (meta : MetaValue T) : Type 0 where
  pub typed :
      (c : ℕ) (s : Bytes) (m : T) → meta.decode (c ∷ s) ≡ ok m → is_type_match meta.kind c ≡ true
  pub nonempty : (m : T) → meta.decode [] ≢ ok m

module _ {D E : Type 0} {db : Db D E} {T : Type 0} (meta : MetaValue T)
    (typing : IsTyped meta) where
  -- The databases other than that of strings stay.
  abbrev pub Elsewhere : World db → World db → Type 0
  Elsewhere w w' = (s : DataType) → same_type s DataType.string ≡ false → db_of s w' ≡ db_of s w

  -- The metadata is found, or has expired.
  abbrev pub FoundOrExpired : Option ℕ → T → World db → Option T → World db → Type 0
  FoundOrExpired ts m w found w' =
      Elsewhere w w' × ((found ≡ some (with_expiry meta ts m)) ⊎ ((found ≡ none) × (ts ≢ none)))

  decode_known :
      (ts : Option ℕ) (bytes : Bytes) (m : T) (w w' : World db)
      → meta.decode bytes ≡ ok m
      → Elsewhere w w'
      → Ensures true (FoundOrExpired ts m w) (decode_entry meta ts bytes w')
  decode_known ts [] m w w' d l = absurd (typing.nonempty m d)
  decode_known ts (c ∷ s) m w w' d l = rw (typing.typed c s m d, d) (Ensures-pure (l, inl refl))

  judge_known :
      (key bytes : Bytes) (seq : ℕ) (ts : Option ℕ) (m : T) (w : World db)
      → meta.decode bytes ≡ ok m
      → Ensures true
          (FoundOrExpired ts m w)
          (judge_entry meta key (some (record { value = bytes; seq = seq; expire_ts = ts })) w)
  unfolding is_expired
  judge_known key bytes seq none m w d = decode_known none bytes m w w d λ s h. refl
  judge_known key bytes seq (some t) m w d =
      Ensures-bind (is_expired (some t))
        (λ b.
          if b
          then delete_entry DataType.string (meta_key key) >>= (λ _. pure none)
          else decode_entry meta (some t) bytes)
        w (is_expired_lem (some t) w) λ b w' (n, same). expired_or_not b n w' same
    where
      expired_or_not :
          (b : Bool) (n : ℕ) (w' : World db)
          → w' ≡ record w { ticks = n }
          → Ensures true (FoundOrExpired (some t) m w) (
              (if b
                  then delete_entry DataType.string (meta_key key) >>= (λ _. pure none)
                  else decode_entry meta (some t) bytes)
                w')
      expired_or_not true n w' same = rw same (
          Ensures-bind (delete_entry DataType.string (meta_key key)) (λ _. pure none)
            (record w { ticks = n })
            (delete_entry_lem DataType.string (meta_key key) (record w { ticks = n }))
            λ _ w2 ch.
              Ensures-pure ((λ s h. ch.elsewhere s h ∙ db_of_later meta s w n), inr (refl, cc)))
      expired_or_not false n w' same =
          rw same (
            decode_known (some t) bytes m w (record w { ticks = n }) d
              λ s h. db_of_later meta s w n)

  read_known :
      (key : Bytes) (kv : KeyValue) (r : Option KeyValue) (m : T) (w : World db)
      → Reads (some kv) r
      → meta.decode kv.value ≡ ok m
      → Ensures true (FoundOrExpired kv.expire_ts m w) (judge_entry meta key r w)
  read_known key kv r m w (inl e) d = rw e (judge_known key kv.value kv.seq kv.expire_ts m w d)
  read_known key kv r m w (inr (e, expiring)) d =
      rw e (Ensures-pure ((λ s h. refl), inr (refl, expiring)))

  -- A lookup of metadata that is there finds it, unless it has expired, or ends with an error of the
  -- database.
  pub get_meta_known :
      (key : Bytes) (kv : KeyValue) (m : T) (w : World db)
      → entry DataType.string w (meta_key key) ≡ some kv
      → meta.decode kv.value ≡ ok m
      → Ensures true (FoundOrExpired kv.expire_ts m w) (get_meta meta key w)
  unfolding get_meta
  get_meta_known key kv m w there d =
      Ensures-bind (read_entry DataType.string (meta_key key)) (judge_entry meta key) w
        (read_entry_lem DataType.string (meta_key key) w)
        λ r w' (same, reads).
          rw same (read_known key kv r m w (subst (λ e. Reads e r) there reads) d)
