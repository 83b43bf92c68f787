-- ===== src/Storage/Elements/Shrink.antt =====
-- The metadata after elements were deleted (nimbis-storage/src/storage_hash.rs and storage_set.rs).
use nimbis.Prelude.{
  ℕ, ◌-◌, ◌<◌, ◌^◌, ◌≡◌, ◌≢◌, ◌∙◌, refl, sym, ap, subst, true, Bytes, List, arith, length, none,
  some,
}
use nimbis.Storage.DataType.{DataType}
use nimbis.Storage.Database.{Db}
use nimbis.Storage.Elements.{is_current}
use nimbis.Storage.Elements.Counted.{
  Collection, IsValid, Counted, Only-trans, Only-deleted, entry_elsewhere,
}
use nimbis.Storage.Elements.Validity.{IsValid-Only, Known-IsCounted, Stored-IsValid}
use nimbis.Storage.Elements.Deletes.{Left, Deleted}
use nimbis.Storage.Elements.Writes.{at}
use nimbis.Storage.Elements.Members.{members_same}
use nimbis.Storage.Engine.{World, MetaValue, meta_key, pure, ◌>>◌, delete_entry, put_meta}
use nimbis.Storage.Engine.Rules.{Ensures, Ensures-pure, Ensures-bind}
use nimbis.Storage.Engine.Entries.{entry, Change, delete_entry_lem}
use nimbis.Storage.Engine.Lookup.{Stored, put_meta_lem}

none-ne-some : {A : Type 0} {a : A} → none ≢ some a
none-ne-some = cc

module _ {D E : Type 0} {db : Db D E} {T : Type 0} {meta : MetaValue T} (c : Collection meta)
    (key : Bytes) (m : T) (xs ms : List Bytes) (w : World db) (short : length key < 2 ^ 16)
    (valid : IsValid c w) (counted : Counted c w key m ms) where
  -- Metadata with the version of `m` counts what is left.
  rest_Counted :
      (n : ℕ) (w1 : World db) (m' : T) (l : Left c key m xs ms 0 w n w1)
      → c.version_of m' ≡ c.version_of m
      → c.len_of m' ≡ c.len_of m - n
      → n < c.len_of m
      → Counted c w1 key m' l.rest
  rest_Counted n w1 m' l version len h =
      let total : length l.rest ≡ c.len_of m - n = omega (arith, l.count, counted.len) in
      record {
        nonempty = omega arith;
        len = len ∙ sym total;
        bound = rw version counted.bound;
        len_bound = let b = counted.len_bound in omega (arith, len);
        members = rw version l.members;
      }

  -- No element was there.
  shrunk_same : (w1 : World db) → Left c key m xs ms 0 w 0 w1 → IsValid c w1
  shrunk_same w1 l =
      let some_left : 0 < c.len_of m = rw counted.len counted.nonempty in
      IsValid-Only c key w w1 valid l.only (
        l.lasting,
        Known-IsCounted c key m w1 l.rest l.known
            (rest_Counted 0 w1 m l refl (omega arith) some_left),
      )

  -- The last elements are deleted, and then the metadata.
  shrunk_gone :
      (n : ℕ) (w1 w' : World db)
      → Left c key m xs ms 0 w n w1
      → Change DataType.string (meta_key key) w1 w' none
      → IsValid c w'
  shrunk_gone n w1 w' l ch =
      IsValid-Only c key w w' valid
        (Only-trans c key w w1 w' l.only (Only-deleted c key w1 w' short ch))
        (
          λ x kv e. l.lasting x kv (
              sym (entry_elsewhere c c.type w1 w' (c.sub key x) (ch.elsewhere c.type c.apart)) ∙ e),
          λ kv m' there d. absurd (none-ne-some (sym ch.there ∙ there)),
        )

  -- Some elements are left, and the metadata is put with their number.
  shrunk_put :
      (n : ℕ) (w1 w' : World db) (m' : T)
      → Left c key m xs ms 0 w n w1
      → c.version_of m' ≡ c.version_of m
      → c.len_of m' ≡ c.len_of m - n
      → n < c.len_of m
      → Stored meta key (meta.encode m') w1 w'
      → IsValid c w'
  shrunk_put n w1 w' m' l version len h st =
      Stored-IsValid c key m' w w1 w' l.rest short valid l.only l.lasting
        (rest_Counted n w1 m' l version len h) st

  -- The elements after the metadata was written.
  Left-Deleted :
      (n : ℕ) (w1 w' : World db) (l : Left c key m xs ms 0 w n w1)
      → ((x : Bytes) → at c w' key x ≡ at c w1 key x)
      → (length l.rest ≡ 0 → entry DataType.string w' (meta_key key) ≡ none)
      → Deleted c key m xs w n w'
  Left-Deleted n w1 w' l same empty = record {
    left_members = l.rest;
    are_members =
        members_same (c.version_of m) (at c w1 key) (at c w' key) l.rest (λ x _. same x) l.members;
    total = omega (arith, l.count, counted.len);
    kept = λ x h. same x ∙ l.others x h;
    named = λ x h. ap (is_current (c.version_of m)) (same x) ∙ l.gone x h;
    empty = empty;
  }

  -- A valid state, and what a deletion left.
  abbrev pub Shrunk : ℕ → World db → Type 0
  Shrunk n w' = IsValid c w' × Deleted c key m xs w n w'

  pub keep_metadata :
      (n : ℕ) (w1 : World db)
      → Left c key m xs ms 0 w n w1
      → n ≡ 0
      → Ensures true Shrunk (pure n w1)
  keep_metadata n w1 l zero = Ensures-pure (
    shrunk_same w1 (subst (λ n. Left c key m xs ms 0 w n w1) zero l),
    Left-Deleted n w1 w1 l (λ x. refl) λ h. absurd (omega (arith, l.count, counted.nonempty)),
  )

  pub delete_metadata :
      (n : ℕ) (w1 : World db)
      → Left c key m xs ms 0 w n w1
      → Ensures true Shrunk ((delete_entry DataType.string (meta_key key) >> pure n) w1)
  delete_metadata n w1 l =
      Ensures-bind (delete_entry DataType.string (meta_key key)) (λ _. pure n) w1
        (delete_entry_lem DataType.string (meta_key key) w1)
        λ _ w2 ch. Ensures-pure (
          shrunk_gone n w1 w2 l ch,
          Left-Deleted n w1 w2 l
              (λ x. entry_elsewhere c c.type w1 w2 (c.sub key x) (ch.elsewhere c.type c.apart))
              λ h. ch.there,
        )

  pub put_metadata :
      (n : ℕ) (w1 : World db) (m' : T)
      → Left c key m xs ms 0 w n w1
      → c.version_of m' ≡ c.version_of m
      → c.len_of m' ≡ c.len_of m - n
      → n < c.len_of m
      → Ensures true Shrunk ((put_meta meta key m' >> pure n) w1)
  put_metadata n w1 m' l version len more =
      Ensures-bind (put_meta meta key m') (λ _. pure n) w1 (put_meta_lem meta key m' w1)
        λ _ w2 st. Ensures-pure (
          shrunk_put n w1 w2 m' l version len more st,
          Left-Deleted n w1 w2 l
              (λ x. entry_elsewhere c c.type w1 w2 (c.sub key x) (st.elsewhere c.type c.apart))
              λ h. absurd (omega (arith, l.count, counted.len)),
        )
