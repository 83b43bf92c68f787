-- ===== src/Storage/Elements/Writes.antt =====
-- What a put and a delete of an element do to the count of a collection (nimbis-storage/src: hashes and
-- sets).
use nimbis.Prelude.{
  ℕ, suc, ◌<◌, ◌≤◌, ◌^◌, ◌≡◌, ◌∙◌, refl, sym, ap, Bool, true, false, Bytes, List, [], ◌∷◌, arith,
  le→leb, if◌then◌else◌, length, Option, none, some, inl, inr, Bool-cases,
}
use nimbis.Resp.Utils.{same_bytes}
use nimbis.Storage.BytesEq.{eq_of_same_bytes}
use nimbis.Storage.DataType.{DataType}
use nimbis.Storage.Database.{Db, KeyValue, default_ttl, Reads}
use nimbis.Storage.Elements.{is_current, current_value, has}
use nimbis.Storage.Elements.Members.{members_first, members_added, members_kept, members_older}
use nimbis.Storage.Elements.Counted.{Collection, elements, Counted, AreLasting}
use nimbis.Storage.Engine.{World, MetaValue, Action, ◌>>=◌, read_entry}
use nimbis.Storage.Engine.Rules.{Ensures, Ensures-bind}
use nimbis.Storage.Engine.Entries.{read_entry_lem, entry, Change, Put}

-- An entry that does not expire is read as it is.
read_lasting :
    (e r : Option KeyValue)
    → ((kv : KeyValue) → e ≡ some kv → kv.expire_ts ≡ none)
    → Reads e r
    → r ≡ e
read_lasting none r h reads = reads
read_lasting (some kv) r h (inl e) = e
read_lasting (some kv) r h (inr (e, expiring)) = absurd (expiring (h kv refl))

pub Ensures-read :
    {D E : Type 0} {db : Db D E} {A : Type 0} {strict : Bool} {P : A → World db → Type 0}
    (t : DataType) (k : Bytes) (f : Option KeyValue → Action db A) (w : World db)
    → ((kv : KeyValue) → entry t w k ≡ some kv → kv.expire_ts ≡ none)
    → Ensures strict P (f (entry t w k) w)
    → Ensures strict P ((read_entry t k >>= f) w)
Ensures-read t k f w lasting h =
    Ensures-bind (read_entry t k) f w (read_entry_lem t k w)
      λ r w' (same, reads). rw (same, read_lasting (entry t w k) r lasting reads) h

newest_value :
    (version n : ℕ) (v : Bytes) (ts : Option ℕ)
    → version ≤ n
    → current_value version (some (record { value = v; seq = n; expire_ts = ts })) ≡ some v
newest_value version n v ts h = rw (le→leb version n h) refl

old_no_value :
    (n : ℕ) (r : Option KeyValue)
    → ((kv : KeyValue) → r ≡ some kv → kv.seq < n)
    → current_value n r ≡ none
old_no_value n none h = refl
old_no_value n (some kv) h = let old = h kv refl in ground arith

module _ {D E : Type 0} {db : Db D E} {T : Type 0} {meta : MetaValue T} (c : Collection meta) where
  abbrev pub at : World db → Bytes → Bytes → Option KeyValue
  at w key x = elements c w key x

  -- The other elements of a key do not change.
  abbrev pub Others : Bytes → Bytes → World db → World db → Type 0
  Others key x w w' = (y : Bytes) → same_bytes y x ≡ false → at w' key y ≡ at w key y

  pub Put-Others :
      (key x bytes : Bytes) (n : ℕ) (w w' : World db)
      → Put c.type (c.sub key x) bytes default_ttl n w w'
      → Others key x w w'
  Put-Others key x bytes n w w' put y h = put.change.others (c.sub key y) (c.distinct key y x h)

  pub Put-lasting :
      (key x bytes : Bytes) (n : ℕ) (w w' : World db)
      → Put c.type (c.sub key x) bytes default_ttl n w w'
      → AreLasting c w key
      → AreLasting c w' key
  Put-lasting key x bytes n w w' put lasting y kv e = elim (Bool-cases (same_bytes y x)) [
    | inl s ↦
        let there = rw (eq_of_same_bytes y x s) at e in
        let same : record { value = bytes; seq = n; expire_ts = put.expires } ≡ kv =
          cc (put.change.there, there) in
        ap (λ kv. kv.expire_ts) (sym same) ∙ put.expiry
    | inr s ↦ lasting y kv (sym (Put-Others key x bytes n w w' put y s) ∙ e)
  ]

  pub delete_lasting :
      (key x : Bytes) (w w' : World db)
      → Change c.type (c.sub key x) w w' none
      → AreLasting c w key
      → AreLasting c w' key
  delete_lasting key x w w' ch lasting y kv e = elim (Bool-cases (same_bytes y x)) [
    | inl s ↦ let there = rw (eq_of_same_bytes y x s) at e in absurd (cc (ch.there, there))
    | inr s ↦ lasting y kv (sym (ch.others (c.sub key y) (c.distinct key y x s)) ∙ e)
  ]

  -- The first element of a new generation.
  pub Put-first :
      (key x bytes : Bytes) (n : ℕ) (w w' : World db) (m : T)
      → length x < 2 ^ 32
      → Put c.type (c.sub key x) bytes default_ttl n w w'
      → c.version_of m ≡ n
      → c.len_of m ≡ 1
      → Counted c w' key m (x ∷ [])
  Put-first key x bytes n w w' m short put version len = record {
    nonempty = omega arith;
    len = len;
    bound = rw version put.bound;
    len_bound = rw len (omega arith);
    members = rw version (
        members_first n x _ (at w key) (at w' key) short refl (λ y. put.newer (c.sub key y))
          put.change.there λ y _. Put-Others key x bytes n w w' put y);
  }

  pub older :
      (key : Bytes) (n : ℕ) (w : World db) (m : T) (ms : List Bytes)
      → Counted c w key m ms
      → ((j : Bytes) (kv : KeyValue) → entry c.type w j ≡ some kv → kv.seq < n)
      → c.version_of m < n
  older key n w m ms k newer =
      members_older (c.version_of m) n (at w key) ms k.members k.nonempty λ y. newer (c.sub key y)

  -- A new element of a generation.
  pub Put-new :
      (key x bytes : Bytes) (n : ℕ) (w w' : World db) (m m' : T) (ms : List Bytes)
      → length x < 2 ^ 32
      → Put c.type (c.sub key x) bytes default_ttl n w w'
      → Counted c w key m ms
      → is_current (c.version_of m) (at w key x) ≡ false
      → c.version_of m' ≡ c.version_of m
      → c.len_of m' ≡ suc (c.len_of m)
      → suc (c.len_of m) < 2 ^ 64
      → Counted c w' key m' (x ∷ ms)
  Put-new key x bytes n w w' m m' ms short put k new version len room =
      let absent : has x ms ≡ false = k.members.present x short ∙ new in
      record {
        nonempty = omega arith;
        len = len ∙ ap suc k.len;
        bound = rw version k.bound;
        len_bound = rw len room;
        members = rw version (
            members_added (c.version_of m) n x _ (at w key) (at w' key) ms k.members absent short
              refl (older key n w m ms k put.newer) put.change.there
              λ y _. Put-Others key x bytes n w w' put y);
      }

  -- An element that is written again.
  pub Put-again :
      (key x bytes : Bytes) (n : ℕ) (w w' : World db) (m : T) (ms : List Bytes)
      → length x < 2 ^ 32
      → Put c.type (c.sub key x) bytes default_ttl n w w'
      → Counted c w key m ms
      → is_current (c.version_of m) (at w key x) ≡ true
      → Counted c w' key m ms
  Put-again key x bytes n w w' m ms short put k old =
      let present : has x ms ≡ true = k.members.present x short ∙ old in
      record {
        nonempty = k.nonempty;
        len = k.len;
        bound = k.bound;
        len_bound = k.len_bound;
        members =
            members_kept (c.version_of m) n x _ (at w key) (at w' key) ms k.members present refl
              (older key n w m ms k put.newer) put.change.there
              λ y _. Put-Others key x bytes n w w' put y;
      }

  -- The values of a generation after a put into it.
  pub Put-value :
      (key x bytes : Bytes) (n version : ℕ) (w w' : World db)
      → Put c.type (c.sub key x) bytes default_ttl n w w'
      → version < n
      → (y : Bytes)
      → current_value version (at w' key y)
        ≡ (if same_bytes y x then some bytes else current_value version (at w key y))
  Put-value key x bytes n version w w' put h y = elim (Bool-cases (same_bytes y x)) [
    | inl s ↦
        rw (s, eq_of_same_bytes y x s, put.change.there)
          (newest_value version n bytes put.expires (omega arith))
    | inr s ↦ rw (s, Put-Others key x bytes n w w' put y s) refl
  ]

  -- The values of a generation that a put begins.
  pub Put-value_first :
      (key x bytes : Bytes) (n : ℕ) (w w' : World db)
      → Put c.type (c.sub key x) bytes default_ttl n w w'
      → (y : Bytes) → current_value n (at w' key y) ≡ (if same_bytes y x then some bytes else none)
  Put-value_first key x bytes n w w' put y = elim (Bool-cases (same_bytes y x)) [
    | inl s ↦
        rw (s, eq_of_same_bytes y x s, put.change.there)
          (newest_value n n bytes put.expires (omega arith))
    | inr s ↦
        rw (s, Put-Others key x bytes n w w' put y s)
          (old_no_value n (at w key y) (put.newer (c.sub key y)))
  ]
