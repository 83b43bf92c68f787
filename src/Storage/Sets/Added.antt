-- ===== src/Storage/Sets/Added.antt =====
-- What `sadd` of nimbis-storage/src/storage_set.rs leaves.
use nimbis.Prelude.{
  ℕ, suc, ◌+◌, ◌<◌, ◌^◌, ◌≡◌, ◌≢◌, ◌∙◌, refl, sym, Bool, true, false, ◌&&◌, ◌||◌, Bytes, List, [],
  ◌∷◌, All, arith, ltb, length, ok, Option, none, some, inl, inr, Bool-cases,
}
use nimbis.Resp.Utils.{same_bytes}
use nimbis.Storage.DataType.{DataType}
use nimbis.Storage.Meta.{SetMetaValue, decode_set_meta}
use nimbis.Storage.Database.{Db, KeyValue}
use nimbis.Storage.Elements.{is_current, has}
use nimbis.Storage.Elements.Counted.{Counted, AreLasting, entry_elsewhere, Only, Only-trans}
use nimbis.Storage.Elements.Validity.{Known, Stored-IsValid, IsValid-Only, Known-IsCounted}
use nimbis.Storage.Engine.{World, pure, put_meta, set_meta, meta_key}
use nimbis.Storage.Engine.Rules.{Ensures, Ensures-pure, Ensures-bind, Ensures-mono}
use nimbis.Storage.Engine.Entries.{entry}
use nimbis.Storage.Engine.Lookup.{put_meta_lem}
use nimbis.Storage.Sets.{
  member_key, unique, with_added, put_added, finish_add, add_to, add_members, new_set,
}
use nimbis.Storage.Sets.Keys.{sets}
use nimbis.Storage.Sets.Remove.{SetsValid}
use nimbis.Storage.Sets.Add.{has-unique, unique-All, length-unique, Grown, add_members_lem, or_true}

has-unique_nil : (x : Bytes) (xs : List Bytes) → has x (unique [] xs) ≡ has x xs
has-unique_nil x xs = has-unique x [] xs

none-ne-some : {A : Type 0} {a : A} → none ≢ some a
none-ne-some = cc

pub or_false : (b : Bool) → (b || false) ≡ b
or_false true = refl
or_false false = refl

module _ {D E : Type 0} {db : Db D E} (key : Bytes) where
  -- The metadata of the key is that of a set; its members are those that `is_member` is true of.
  pub record SetAt (is_member : Bytes → Bool) (w : World db) : Type 0 where
    pub kv : KeyValue
    pub meta : SetMetaValue
    pub there : entry DataType.string w (meta_key key) ≡ some kv
    pub decodes : decode_set_meta kv.value ≡ ok meta
    pub members :
        (x : Bytes)
        → length x < 2 ^ 32
        → is_current meta.version (entry DataType.set w (member_key key x)) ≡ is_member x

  abbrev pub Done : (Bytes → Bool) → World db → Type 0
  Done is_member w = SetsValid w × SetAt is_member w

  -- From the members after the loop to the members after `sadd`.
  put_added_lem :
      (m : SetMetaValue) (n : ℕ) (all : List Bytes) (w w1 : World db) (is_member : Bytes → Bool)
      → length key < 2 ^ 16
      → SetsValid w
      → Only sets key w w1
      → AreLasting sets w1 key
      → Counted sets w1 key (with_added m n) all
      → ((x : Bytes) → length x < 2 ^ 32 → has x all ≡ is_member x)
      → Ensures true (λ r w'. (r ≡ n) × Done is_member w') (put_added key m n w1)
  put_added_lem m n all w w1 is_member short valid only lasting k same =
      Ensures-bind (put_meta set_meta key (with_added m n)) (λ _. pure n) w1
        (put_meta_lem set_meta key (with_added m n) w1)
        λ _ w2 st.
          let (kv, there, value) = st.there in
          let (m', d, version, len) = sets.decode-encode (with_added m n) k.bound k.len_bound in
          Ensures-pure (
            refl,
            (
              Stored-IsValid sets key (with_added m n) w w1 w2 all short valid only lasting k st,
              record {
                kv = kv;
                meta = m';
                there = there;
                decodes = rw value d;
                members = λ x h.
                    rw
                      (
                        version,
                        entry_elsewhere sets DataType.set w1 w2 (member_key key x)
                            (st.elsewhere DataType.set sets.apart),
                      )
                      (sym (k.members.present x h) ∙ same x h);
              },
            ),
          )

  -- The rest of `sadd` on a set that is there.
  finish_old :
      (m : SetMetaValue) (xs ms : List Bytes) (r : ℕ × Option ℕ) (w w1 : World db)
      → length key < 2 ^ 16
      → m.len + length xs < 2 ^ 64
      → SetsValid w
      → Counted sets w key m ms
      → Known sets key m w
      → Grown key m.version m.version none (unique [] xs) ms 0 w r w1
      → Ensures true
          (λ n w'.
            Done
              (λ x. has x xs || is_current m.version (entry DataType.set w (member_key key x)))
              w')
          (finish_add key false m r w1)
  finish_old m xs ms (n, f) w w1 short room valid k (kv, m0, there, d, version, len) g =
      let few = length-unique [] xs in
      let same : (x : Bytes)
          → length x < 2 ^ 32
          → has x g.all
            ≡ (has x xs || is_current m.version (entry DataType.set w (member_key key x))) =
        λ x h. g.added x ∙ rw (has-unique_nil x xs, k.members.present x h) refl in
      elim (Bool-cases (ltb 0 n)) [
        | inl e ↦ rw e (
            Ensures-mono
              (put_added_lem m n g.all w w1 _ short valid g.only g.lasting
                (record {
                  nonempty = omega (arith, g.count, k.nonempty);
                  len = omega (arith, g.count, k.len, g.no_more);
                  bound = k.bound;
                  len_bound = omega (arith, k.len, g.no_more);
                  members = g.members;
                })
                same)
              λ r w' (_, done). done)
        | inr e ↦
            let zero : n ≡ 0 = ground arith in
            let known : Known sets key m w1 =
              (kv, m0, g.strings (meta_key key) ∙ there, d, version, len) in
            rw e (
              Ensures-pure (
                IsValid-Only sets key w w1 valid g.only (
                  g.lasting,
                  Known-IsCounted sets key m w1 g.all known (record {
                    nonempty = omega (arith, g.count, k.nonempty);
                    len = omega (arith, g.count, k.len, zero);
                    bound = k.bound;
                    len_bound = k.len_bound;
                    members = g.members;
                  }),
                ),
                record {
                  kv = kv;
                  meta = m0;
                  there = g.strings (meta_key key) ∙ there;
                  decodes = d;
                  members = λ x h. rw version (sym (g.members.present x h) ∙ same x h);
                },
              ))
      ]

  pub add_to_old :
      (m : SetMetaValue) (xs ms : List Bytes) (w : World db)
      → length key < 2 ^ 16
      → All (λ x. length x < 2 ^ 32) xs
      → m.len + length xs < 2 ^ 64
      → SetsValid w
      → Counted sets w key m ms
      → Known sets key m w
      → Ensures true
          (λ n w'.
            Done
              (λ x. has x xs || is_current m.version (entry DataType.set w (member_key key x)))
              w')
          (add_to key xs false m w)
  add_to_old m xs ms w short shorts room valid k known =
      Ensures-bind (add_members key false m.version (unique [] xs) 0 none) (finish_add key false m)
        w
        (add_members_lem key m.version m.version false none (unique [] xs) ms 0 w short
          (unique-All [] xs shorts) refl k.nonempty (λ seq. refl) k.members (valid key short).0)
        λ r w1 g. finish_old m xs ms r w w1 short room valid k known g

  -- The rest of `sadd` on a key without a set.
  pub finish_new :
      (y : Bytes) (xs : List Bytes) (seq : ℕ) (r : ℕ × Option ℕ) (w w1 w2 : World db)
      → length key < 2 ^ 16
      → suc (length xs) < 2 ^ 64
      → seq < 2 ^ 64
      → SetsValid w
      → Only sets key w w1
      → Grown key 0 seq (some seq) (unique (y ∷ []) xs) (y ∷ []) 1 w1 r w2
      → Ensures true (λ n w'. Done (λ x. has x (y ∷ xs)) w') (finish_add key true new_set r w2)
  finish_new y xs seq (n, none) w w1 w2 short room b valid only g =
      absurd (none-ne-some g.first_same)
  finish_new y xs seq (n, some s) w w1 w2 short room b valid only g =
      let few = length-unique (y ∷ []) xs in
      let same_seq : s ≡ seq = cc g.first_same in
      let positive : ltb 0 n ≡ true = let more = g.no_fewer in ground arith in
      rw (positive, same_seq)
        (Ensures-mono
          (put_added_lem (record new_set { version = seq }) n g.all w w2 _ short valid
            (Only-trans sets key w w1 w2 only g.only) g.lasting
            (record {
              nonempty = omega (arith, g.count);
              len = omega (arith, g.count, g.no_more);
              bound = b;
              len_bound = omega (arith, g.no_more);
              members = g.members;
            })
            λ x h. g.added x ∙ new_members x)
          λ r w' (_, done). done)
    where
      new_members : (x : Bytes) → (has x (unique (y ∷ []) xs) || has x (y ∷ [])) ≡ has x (y ∷ xs)
      new_members x = rw (has-unique x (y ∷ []) xs) (elim (Bool-cases (same_bytes x y)) [
        | inl s ↦ rw s (or_true (false && has x xs))
        | inr s ↦ rw s (or_false (has x xs))
      ])
