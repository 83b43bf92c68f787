-- ===== src/Storage/Engine/Flush.antt =====
-- What `flush_all` of nimbis-storage/src/storage.rs leaves.
use nimbis.Prelude.{
  ◌≡◌, ◌≢◌, ◌⊎◌, ◌∙◌, refl, sym, ap, subst, Bool, true, false, Bytes, List, [], ◌∷◌, if◌then◌else◌,
  Option, none, some, inl, inr, Bool-cases,
}
use nimbis.Resp.Utils.{same_bytes}
use nimbis.Storage.BytesEq.{eq_of_same_bytes}
use nimbis.Storage.BigEndian.{bytes_less}
use nimbis.Storage.DataType.{DataType}
use nimbis.Storage.Compaction.{same_type}
use nimbis.Storage.Database.{Db, KeyValue, Reads, found_in}
use nimbis.Storage.Engine.{
  World, ◌>>◌, db_of, delete_entry, scan_from, delete_all, clear_db, flush_all,
}
use nimbis.Storage.Engine.Rules.{Ensures, Ensures-pure, Ensures-bind, Ensures-mono}
use nimbis.Storage.Engine.Entries.{entry, Change, delete_entry_lem, scan_from_lem}

-- Nothing, or an entry with a time of expiry.
abbrev pub IsCleared : Option KeyValue → Type 0
IsCleared e = (e ≡ none) ⊎ ((kv : KeyValue) × (e ≡ some kv) × (kv.expire_ts ≢ none))

abbrev left_after : Option KeyValue → Option KeyValue → Option KeyValue
left_after none e = e
left_after (some kv) e = none

left_after-none : (found : Option KeyValue) → left_after found none ≡ none
left_after-none none = refl
left_after-none (some kv) = refl

left_IsCleared : (e found : Option KeyValue) → Reads e found → IsCleared (left_after found e)
left_IsCleared none found h = inl (left_after-none found)
left_IsCleared (some kv) found (inl h) = rw h (inl refl)
left_IsCleared (some kv) found (inr (h, expiring)) = rw h (inr (kv, refl, expiring))

left_after_any :
    (b : Bool) (x y : KeyValue) (found e : Option KeyValue)
    → left_after (if b then some x else found) e ≡ left_after (if b then some y else found) e
left_after_any true x y found e = refl
left_after_any false x y found e = refl

abbrev AreOther : DataType → List DataType → Type 0
AreOther t [] = Unit
AreOther t (s ∷ ts) = (same_type s t ≡ false) × AreOther t ts

module _ {D E : Type 0} {db : Db D E} where
  abbrev Elsewhere : DataType → World db → World db → Type 0
  Elsewhere t w w' = (s : DataType) → same_type s t ≡ false → db_of s w' ≡ db_of s w

  delete_step :
      (t : DataType) (k j : Bytes) (found : Option KeyValue) (w w1 : World db)
      → Change t k w w1 none
      → left_after found (entry t w1 j)
        ≡ left_after
            (if same_bytes j k
              then some (record { value = []; seq = 0; expire_ts = none })
              else found)
            (entry t w j)
  delete_step t k j found w w1 ch = elim (Bool-cases (same_bytes j k)) [
    | inl s ↦ rw (s, eq_of_same_bytes j k s, ch.there) (left_after-none found)
    | inr s ↦ rw (s, ch.others j s) refl
  ]

  delete_all_lem :
      (t : DataType) (es : List (Bytes × KeyValue)) (w : World db)
      → Ensures true
          (λ _ w'.
            ((j : Bytes) → entry t w' j ≡ left_after (found_in j es) (entry t w j))
            × Elsewhere t w w')
          (delete_all t es w)
  unfolding delete_all
  delete_all_lem t [] w = Ensures-pure ((λ j. refl), λ s h. refl)
  delete_all_lem t ((k, kv) ∷ es) w =
      Ensures-bind (delete_entry t k) (λ _. delete_all t es) w (delete_entry_lem t k w)
        λ _ w1 ch. Ensures-mono (delete_all_lem t es w1) λ _ w' (left, elsewhere). (
          λ j.
              left j
              ∙ delete_step t k j (found_in j es) w w1 ch
              ∙ left_after_any (same_bytes j k) _ kv (found_in j es) (entry t w j),
          λ s h. elsewhere s h ∙ ch.elsewhere s h,
        )

  -- Every entry of a database is cleared.
  abbrev pub AreCleared : DataType → World db → Type 0
  AreCleared t w = (j : Bytes) → IsCleared (entry t w j)

  clear_db_lem :
      (t : DataType) (w : World db)
      → Ensures true (λ _ w'. AreCleared t w' × Elsewhere t w w') (clear_db t w)
  unfolding clear_db bytes_less
  clear_db_lem t w =
      Ensures-bind (scan_from t []) (delete_all t) w (scan_from_lem t [] w) λ es w1 (same, scanned).
        rw same (
          Ensures-mono (delete_all_lem t es w) λ _ w' (left, elsewhere). (
            λ j. subst IsCleared (sym (left j)) (
                left_IsCleared (entry t w j) (found_in j es)
                  (db.scan-view (db_of t w) [] es scanned j refl)),
            elsewhere,
          ))

  still_cleared :
      (t s : DataType) (w w' : World db)
      → same_type s t ≡ false
      → Elsewhere t w w'
      → AreCleared s w
      → AreCleared s w'
  still_cleared t s w w' h e c j = subst IsCleared (sym (ap (λ d. db.view d j) (e s h))) (c j)

  -- The databases of these types are cleared.
  abbrev Cleared : List DataType → World db → Type 0
  Cleared [] w = Unit
  Cleared (t ∷ ts) w = AreCleared t w × Cleared ts w

  Cleared-more :
      (t : DataType) (ts : List DataType) (w w' : World db)
      → AreOther t ts
      → Elsewhere t w w'
      → Cleared ts w
      → Cleared ts w'
  Cleared-more t [] w w' o e c = tt
  Cleared-more t (s ∷ ts) w w' (h, o) e (c, cs) =
      (still_cleared t s w w' h e c, Cleared-more t ts w w' o e cs)

  clear_next :
      (t : DataType) (ts : List DataType) (w : World db)
      → AreOther t ts
      → Cleared ts w
      → Ensures true (λ _ w'. Cleared (t ∷ ts) w') (clear_db t w)
  clear_next t ts w o c =
      Ensures-mono (clear_db_lem t w) λ _ w' (cleared, e). (cleared, Cleared-more t ts w w' o e c)

  -- After flush_all, no entry is left in any database but entries with a time of expiry; the only errors
  -- are those of a database.
  pub flush_all-AreCleared :
      (w : World db) → Ensures true (λ _ w'. (t : DataType) → AreCleared t w') (flush_all w)
  unfolding flush_all same_type
  flush_all-AreCleared w =
      let string_ = DataType.string in
      let hash_ = DataType.hash in
      let list_ = DataType.list in
      let set_ = DataType.set in
      Ensures-bind (clear_db string_)
        (λ _. clear_db hash_ >> (clear_db list_ >> (clear_db set_ >> clear_db DataType.zset))) w
        (clear_next string_ [] w tt tt)
        λ _ w1 c1.
          Ensures-bind (clear_db hash_)
            (λ _. clear_db list_ >> (clear_db set_ >> clear_db DataType.zset)) w1
            (clear_next hash_ (string_ ∷ []) w1 (refl, tt) c1)
            λ _ w2 c2.
              Ensures-bind (clear_db list_) (λ _. clear_db set_ >> clear_db DataType.zset) w2
                (clear_next list_ (hash_ ∷ string_ ∷ []) w2 (refl, (refl, tt)) c2)
                λ _ w3 c3.
                  Ensures-bind (clear_db set_) (λ _. clear_db DataType.zset) w3
                    (clear_next set_ (list_ ∷ hash_ ∷ string_ ∷ []) w3 (refl, (refl, (refl, tt)))
                      c3)
                    λ _ w4 c4.
                      Ensures-mono
                        (clear_next DataType.zset (set_ ∷ list_ ∷ hash_ ∷ string_ ∷ []) w4
                          (refl, (refl, (refl, (refl, tt)))) c4)
                        λ _ w5 (z, (s, (l, (h, (st, _))))) t. elim t as (λ k. AreCleared k w5) [
                          | DataType.string ↦ st
                          | DataType.hash ↦ h
                          | DataType.list ↦ l
                          | DataType.set ↦ s
                          | DataType.zset ↦ z
                        ]
