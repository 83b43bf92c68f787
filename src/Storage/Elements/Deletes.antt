-- ===== src/Storage/Elements/Deletes.antt =====
-- What the loop of `hdel` and `srem` (nimbis-storage/src/storage_hash.rs and storage_set.rs) leaves.
use nimbis.Prelude.{
  ℕ, suc, ◌+◌, ◌<◌, ◌^◌, ◌≡◌, ◌∙◌, refl, ap, true, false, Bytes, List, [], ◌∷◌, All, arith,
  if◌then◌else◌, length, none, inl, inr, Bool-cases,
}
use nimbis.Resp.Utils.{same_bytes}
use nimbis.Storage.BytesEq.{eq_of_same_bytes}
use nimbis.Storage.DataType.{DataType}
use nimbis.Storage.Database.{Db}
use nimbis.Storage.Elements.{is_current, has, without, HasMembers, delete_current}
use nimbis.Storage.Elements.Members.{members_removed, length-without}
use nimbis.Storage.Elements.Counted.{Collection, AreLasting, Only, Only-Change, Only-trans}
use nimbis.Storage.Elements.Validity.{Known, Known-changed}
use nimbis.Storage.Elements.Writes.{Ensures-read, at, delete_lasting}
use nimbis.Storage.Engine.{World, MetaValue, meta_key, ◌>>◌, delete_entry}
use nimbis.Storage.Engine.Rules.{Ensures, Ensures-pure, Ensures-bind, Ensures-mono}
use nimbis.Storage.Engine.Entries.{entry, Change, delete_entry_lem}

module _ {D E : Type 0} {db : Db D E} {T : Type 0} {meta : MetaValue T} (c : Collection meta) where
  Only-refl : (key : Bytes) (w : World db) → Only c key w w
  Only-refl key w = record { strings = λ k h n. refl; others = λ k x h n. refl }

  -- What is left of the elements `ms` when those of the names `xs` are deleted.
  pub record Left (key : Bytes) (m : T) (xs ms : List Bytes) (n : ℕ) (w : World db) (n' : ℕ)
      (w' : World db) : Type 0 where
    pub rest : List Bytes
    pub members : HasMembers (c.version_of m) (at c w' key) rest
    pub count : length rest + n' ≡ length ms + n
    pub only : Only c key w w'
    pub lasting : AreLasting c w' key
    pub known : Known c key m w'
    pub others : (x : Bytes) → has x xs ≡ false → at c w' key x ≡ at c w key x
    pub gone : (x : Bytes) → has x xs ≡ true → is_current (c.version_of m) (at c w' key x) ≡ false

  -- What a deletion leaves of the elements: `n` are gone, those that were named, and the others stay.
  pub record Deleted (key : Bytes) (m : T) (xs : List Bytes) (w : World db) (n : ℕ) (w' : World db)
      : Type 0 where
    pub left_members : List Bytes
    pub are_members : HasMembers (c.version_of m) (at c w' key) left_members
    pub total : length left_members + n ≡ c.len_of m
    pub kept : (x : Bytes) → has x xs ≡ false → at c w' key x ≡ at c w key x
    pub named : (x : Bytes) → has x xs ≡ true → is_current (c.version_of m) (at c w' key x) ≡ false
    pub empty : length left_members ≡ 0 → entry DataType.string w' (meta_key key) ≡ none

  -- One name that is not there, and then the others.
  Left-absent :
      (key y : Bytes) (m : T) (xs ms : List Bytes) (n n' : ℕ) (w w' : World db)
      → is_current (c.version_of m) (at c w key y) ≡ false
      → Left key m xs ms n w n' w'
      → Left key m (y ∷ xs) ms n w n' w'
  Left-absent key y m xs ms n n' w w' absent l = record {
    rest = l.rest;
    members = l.members;
    count = l.count;
    only = l.only;
    lasting = l.lasting;
    known = l.known;
    others = λ x h. elim (Bool-cases (same_bytes x y)) [
      | inl s ↦ cc (rw s at h)
      | inr s ↦ l.others x (rw s at h)
    ];
    gone = λ x h. elim (Bool-cases (has x xs)) [
      | inl s ↦ l.gone x s
      | inr s ↦ elim (Bool-cases (same_bytes x y)) [
        | inl e ↦
            ap (is_current (c.version_of m)) (l.others x s) ∙ rw (eq_of_same_bytes x y e) absent
        | inr e ↦ cc (rw (e, s) at h)
      ]
    ];
  }

  -- One name that is deleted, and then the others.
  Left-deleted :
      (key y : Bytes) (m : T) (xs ms : List Bytes) (n n' : ℕ) (w w1 w' : World db)
      → length key < 2 ^ 16
      → has y ms ≡ true
      → Change c.type (c.sub key y) w w1 none
      → Left key m xs (without y ms) (suc n) w1 n' w'
      → Left key m (y ∷ xs) ms n w n' w'
  Left-deleted key y m xs ms n n' w w1 w' short there ch l = record {
    rest = l.rest;
    members = l.members;
    count = omega (arith, l.count, length-without y ms there);
    only = Only-trans c key w w1 w' (Only-Change c key y w w1 none short ch) l.only;
    lasting = l.lasting;
    known = l.known;
    others = λ x h. elim (Bool-cases (same_bytes x y)) [
      | inl s ↦ cc (rw s at h)
      | inr s ↦ l.others x (rw s at h) ∙ ch.others (c.sub key x) (c.distinct key x y s)
    ];
    gone = λ x h. elim (Bool-cases (has x xs)) [
      | inl s ↦ l.gone x s
      | inr s ↦ elim (Bool-cases (same_bytes x y)) [
        | inl e ↦
            let none_there : at c w1 key x ≡ none = rw (eq_of_same_bytes x y e) ch.there in
            ap (is_current (c.version_of m)) (l.others x s ∙ none_there)
        | inr e ↦ cc (rw (e, s) at h)
      ]
    ];
  }

  pub delete_current_lem :
      (key : Bytes) (m : T) (xs ms : List Bytes) (n : ℕ) (w : World db)
      → length key < 2 ^ 16
      → All (λ x. length x < 2 ^ 32) xs
      → HasMembers (c.version_of m) (at c w key) ms
      → AreLasting c w key
      → Known c key m w
      → Ensures true
          (Left key m xs ms n w)
          (delete_current c.type (c.sub key) (c.version_of m) xs n w)
  unfolding delete_current
  delete_current_lem key m [] ms n w short shorts members lasting known = Ensures-pure (record {
    rest = ms;
    members = members;
    count = refl;
    only = Only-refl key w;
    lasting = lasting;
    known = known;
    others = λ x h. refl;
    gone = λ x h. cc;
  })
  delete_current_lem key m (y ∷ xs) ms n w short (short_y, shorts) members lasting known =
      Ensures-read c.type (c.sub key y)
        (λ kv.
          if is_current (c.version_of m) kv
          then delete_entry c.type (c.sub key y)
            >> delete_current c.type (c.sub key) (c.version_of m) xs (suc n)
          else delete_current c.type (c.sub key) (c.version_of m) xs n)
        w (lasting y)
        (elim (Bool-cases (is_current (c.version_of m) (at c w key y))) [
          | inl e ↦ rw e (
              let there = members.present y short_y ∙ e in
              Ensures-bind (delete_entry c.type (c.sub key y))
                (λ _. delete_current c.type (c.sub key) (c.version_of m) xs (suc n)) w
                (delete_entry_lem c.type (c.sub key y) w)
                λ _ w1 ch.
                  Ensures-mono
                    (delete_current_lem key m xs (without y ms) (suc n) w1 short shorts
                      (members_removed (c.version_of m) y (at c w key) (at c w1 key) ms members
                        ch.there λ x _ s. ch.others (c.sub key x) (c.distinct key x y s))
                      (delete_lasting c key y w w1 ch lasting)
                      (Known-changed c key y m w w1 none ch known))
                    λ n' w' l. Left-deleted key y m xs ms n n' w w1 w' short there ch l)
          | inr e ↦ rw e (
              Ensures-mono (delete_current_lem key m xs ms n w short shorts members lasting known)
                λ n' w' l. Left-absent key y m xs ms n n' w w' e l)
        ])
