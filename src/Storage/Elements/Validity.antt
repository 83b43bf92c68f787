-- ===== src/Storage/Elements/Validity.antt =====
-- Which changes keep the count of a collection valid (nimbis-storage/src: hashes and sets).
use nimbis.Prelude.{
  ◌<◌, ◌^◌, ◌≡◌, subst, ◌∙◌, sym, ap, Bytes, List, length, Option, some, ok, inl, inr, Bool-cases,
}
use nimbis.Resp.Utils.{same_bytes}
use nimbis.Storage.BytesEq.{eq_of_same_bytes}
use nimbis.Storage.DataType.{DataType}
use nimbis.Storage.Database.{Db, KeyValue}
use nimbis.Storage.Engine.{World, MetaValue, meta_key}
use nimbis.Storage.Engine.Entries.{entry, Change}
use nimbis.Storage.Engine.Lookup.{Looked, Stored}
use nimbis.Storage.Elements.Members.{members_same}
use nimbis.Storage.Elements.Counted.{
  Collection, version-with_expiry, none-ne-some, elements, Counted, AreLasting, IsCounted,
  IsValidAt, IsValid, Only, Only-trans, entry_elsewhere, string_elsewhere, Only-Stored, Only-Looked,
}

module _ {D E : Type 0} {db : Db D E} {T : Type 0} {meta : MetaValue T} (c : Collection meta) where
  Counted-same :
      (w w' : World db) (key : Bytes) (m : T) (ms : List Bytes)
      → ((x : Bytes) → length x < 2 ^ 32 → elements c w' key x ≡ elements c w key x)
      → Counted c w key m ms
      → Counted c w' key m ms
  Counted-same w w' key m ms same k = record {
    nonempty = k.nonempty;
    len = k.len;
    bound = k.bound;
    len_bound = k.len_bound;
    members =
        members_same (c.version_of m) (elements c w key) (elements c w' key) ms same k.members;
  }

  IsValidAt-same :
      (w w' : World db) (key : Bytes)
      → entry DataType.string w' (meta_key key) ≡ entry DataType.string w (meta_key key)
      → ((x : Bytes) → elements c w' key x ≡ elements c w key x)
      → IsValidAt c w key
      → IsValidAt c w' key
  IsValidAt-same w w' key e same (lasting, v) = (
    λ x kv h. lasting x kv (sym (same x) ∙ h),
    λ kv m h d.
        let (ms, k) = v kv m (sym e ∙ h) d in (ms, Counted-same w w' key m ms (λ x _. same x) k),
  )

  -- A valid state stays valid if only one key changes and that key is valid after.
  pub IsValid-Only :
      (key : Bytes) (w w' : World db)
      → IsValid c w
      → Only c key w w'
      → IsValidAt c w' key
      → IsValid c w'
  IsValid-Only key w w' v o at_key key' h = elim (Bool-cases (same_bytes key' key)) [
    | inl e ↦ subst (IsValidAt c w') (sym (eq_of_same_bytes key' key e)) at_key
    | inr e ↦ IsValidAt-same w w' key' (o.strings key' h e) (λ x. o.others key' x h e) (v key' h)
  ]

  -- The metadata that a lookup finds counts its elements c.
  pub found_Counted :
      (key : Bytes) (w w' : World db) (m : T)
      → length key < 2 ^ 16
      → IsValid c w
      → Looked meta key w (some m) w'
      → (ms : List Bytes) × Counted c w' key m ms
  found_Counted key w w' m h v l =
      let (same, (kv, m0, there, d, e)) = l.seen in
      let (ms, k) = (v key h).1 kv m0 there d in
      let (version, len) = version-with_expiry c kv.expire_ts m0 in
      (
        ms,
        record {
          nonempty = k.nonempty;
          len = ap c.len_of e ∙ len ∙ k.len;
          bound = rw (e, version) k.bound;
          len_bound = rw (e, len) k.len_bound;
          members =
              rw (e, version)
                (members_same (c.version_of m0) (elements c w key) (elements c w' key) ms
                  (λ x _. entry_elsewhere c c.type w w' (c.sub key x) (l.elsewhere c.type c.apart))
                  k.members);
        },
      )

  -- A lookup leaves a valid state valid.
  pub Looked-IsValid :
      (key : Bytes) (w w' : World db) (found : Option T)
      → length key < 2 ^ 16
      → IsValid c w
      → Looked meta key w found w'
      → IsValid c w'
  Looked-IsValid key w w' found h v l =
      IsValid-Only key w w' v (Only-Looked c key w w' found h l)
        let same_elements : (x : Bytes) → elements c w' key x ≡ elements c w key x =
            λ x. entry_elsewhere c c.type w w' (c.sub key x) (l.elsewhere c.type c.apart) in
          elim l.at_key [
            | inl gone ↦ (
              λ x kv e. (v key h).0 x kv (sym (same_elements x) ∙ e),
              λ kv m there d. absurd (none-ne-some (sym gone ∙ there)),
            )
            | inr same ↦ IsValidAt-same w w' key same same_elements (v key h)
          ]

  Stored-IsCounted :
      (key : Bytes) (m : T) (w w' : World db) (ms : List Bytes)
      → Stored meta key (meta.encode m) w w'
      → Counted c w key m ms
      → IsCounted c w' key
  Stored-IsCounted key m w w' ms st k kv' m'' there d =
      let (m', d', version, len) = c.decode-encode m k.bound k.len_bound in
      let (kv, there', value) = st.there in
      let same_kv : kv ≡ kv' = cc (there, there') in
      let same : m' ≡ m'' = cc (d, d', value, same_kv) in
      (
        ms,
        record {
          nonempty = k.nonempty;
          len = rw (sym same) (len ∙ k.len);
          bound = rw (sym same, version) k.bound;
          len_bound = rw (sym same, len) k.len_bound;
          members =
              rw (sym same, version)
                (members_same (c.version_of m) (elements c w key) (elements c w' key) ms
                  (λ x _. entry_elsewhere c c.type w w' (c.sub key x) (st.elsewhere c.type c.apart))
                  k.members);
        },
      )

  -- Metadata that was put counts the elements c, if what was put does.
  pub Stored-IsValidAt :
      (key : Bytes) (m : T) (w w' : World db) (ms : List Bytes)
      → Stored meta key (meta.encode m) w w'
      → AreLasting c w key
      → Counted c w key m ms
      → IsValidAt c w' key
  Stored-IsValidAt key m w w' ms st lasting k = (
    λ x kv e.
        lasting x kv
          (sym (entry_elsewhere c c.type w w' (c.sub key x) (st.elsewhere c.type c.apart)) ∙ e),
    Stored-IsCounted key m w w' ms st k,
  )

  -- Elements of one key change, and metadata that counts them is put.
  pub Stored-IsValid :
      (key : Bytes) (m : T) (w w1 w' : World db) (ms : List Bytes)
      → length key < 2 ^ 16
      → IsValid c w
      → Only c key w w1
      → AreLasting c w1 key
      → Counted c w1 key m ms
      → Stored meta key (meta.encode m) w1 w'
      → IsValid c w'
  Stored-IsValid key m w w1 w' ms h v o lasting k st =
      IsValid-Only key w w' v
        (Only-trans c key w w1 w' o (Only-Stored c key (meta.encode m) w1 w' h st))
        (Stored-IsValidAt key m w1 w' ms st lasting k)

  -- The metadata of `key` is `m`, but for the time of expiry.
  abbrev pub Known : Bytes → T → World db → Type 0
  Known key m w =
      (kv : KeyValue) × (m0 : T) × (entry DataType.string w (meta_key key) ≡ some kv)
      × (meta.decode kv.value ≡ ok m0)
      × (c.version_of m0 ≡ c.version_of m)
      × (c.len_of m0 ≡ c.len_of m)

  pub found_Known :
      (key : Bytes) (w w' : World db) (m : T) → Looked meta key w (some m) w' → Known key m w'
  found_Known key w w' m l =
      let (same, (kv, m0, there, d, e)) = l.seen in
      let (version, len) = version-with_expiry c kv.expire_ts m0 in
      (
        kv,
        m0,
        ap (λ x. db.view x (meta_key key)) same ∙ there,
        d,
        sym (ap c.version_of e ∙ version),
        sym (ap c.len_of e ∙ len),
      )

  pub Known-changed :
      (key x : Bytes) (m : T) (w w' : World db) (r : Option KeyValue)
      → Change c.type (c.sub key x) w w' r
      → Known key m w
      → Known key m w'
  Known-changed key x m w w' r ch (kv, m0, there, d, version, len) =
      (kv, m0, string_elsewhere c w w' (meta_key key) ch.elsewhere ∙ there, d, version, len)

  pub Known-IsCounted :
      (key : Bytes) (m : T) (w : World db) (ms : List Bytes)
      → Known key m w
      → Counted c w key m ms
      → IsCounted c w key
  Known-IsCounted key m w ms (kv, m0, there, d, version, len) k kv' m' there' d' =
      let same_kv : kv ≡ kv' = cc (there, there') in
      let same : m0 ≡ m' = cc (d, d', same_kv) in
      (
        ms,
        record {
          nonempty = k.nonempty;
          len = rw (sym same) (len ∙ k.len);
          bound = rw (sym same, version) k.bound;
          len_bound = rw (sym same, len) k.len_bound;
          members = rw (sym same, version) k.members;
        },
      )
