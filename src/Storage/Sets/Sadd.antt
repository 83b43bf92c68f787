-- ===== src/Storage/Sets/Sadd.antt =====
-- `sadd` of nimbis-storage/src/storage_set.rs, on a key with a set and on one without.
use nimbis.Prelude.{
  ℕ, suc, ◌+◌, ◌<◌, ◌^◌, ◌≡◌, ◌∙◌, refl, sym, ap, subst, Bool, true, false, ◌||◌, ◌&&◌, not, Bytes,
  List, [], ◌∷◌, All, arith, length, ok, Option, none, some,
}
use nimbis.Storage.DataType.{DataType}
use nimbis.Storage.Meta.{SetMetaValue, decode_set_meta}
use nimbis.Storage.Database.{Db, KeyValue, default_ttl}
use nimbis.Storage.Elements.{is_current, has}
use nimbis.Storage.Elements.Members.{members_first}
use nimbis.Storage.Elements.Counted.{elements, Only, Only-Change}
use nimbis.Storage.Elements.Validity.{found_Counted, found_Known, Looked-IsValid}
use nimbis.Storage.Elements.Writes.{Put-Others, Put-lasting}
use nimbis.Storage.Engine.{World, Action, put_entry, get_meta, set_meta, meta_key}
use nimbis.Storage.Engine.Rules.{
  Ensures, Ensures-bind, Ensures-mono, Ensures-weaken, ensures_ok, bind_ok,
}
use nimbis.Storage.Engine.Entries.{entry, put_entry_lem}
use nimbis.Storage.Engine.Lookup.{Looked, get_meta_lem}
use nimbis.Storage.Sets.{member_key, unique, finish_add, add_to, add_members, new_set, sadd}
use nimbis.Storage.Sets.Keys.{sets}
use nimbis.Storage.Sets.Remove.{SetsValid}
use nimbis.Storage.Sets.Add.{unique-AreDistinct, unique-All, has-unique, Grown, add_members_lem}
use nimbis.Storage.Sets.Added.{or_false, SetAt, Done, add_to_old, finish_new}

and_not : (a b : Bool) → (not a && b) ≡ true → a ≡ false
and_not true b h = cc
and_not false b h = refl

module _ {D E : Type 0} {db : Db D E} (key : Bytes) where
  abbrev First : Bytes → List Bytes → World db → ℕ × Option ℕ → World db → Type 0
  First y xs w r w2 =
      (seq : ℕ) × (w1 : World db) × (seq < 2 ^ 64)
      × Only sets key w w1
      × Grown key 0 seq (some seq) (unique (y ∷ []) xs) (y ∷ []) 1 w1 r w2

  add_to_new :
      (y : Bytes) (xs : List Bytes) (w : World db)
      → length key < 2 ^ 16
      → length y < 2 ^ 32
      → All (λ x. length x < 2 ^ 32) xs
      → suc (length xs) < 2 ^ 64
      → SetsValid w
      → Ensures true
          (λ n w'. Done key (λ x. has x (y ∷ xs)) w')
          (add_to key (y ∷ xs) true new_set w)
  unfolding unique add_members
  add_to_new y xs w short short_y shorts room valid =
      Ensures-bind {Q = First y xs w} (add_members key true 0 (unique [] (y ∷ xs)) 0 none)
        (finish_add key true new_set) w
        (Ensures-bind (put_entry DataType.set (member_key key y) [] default_ttl)
          (λ seq. add_members key true 0 (unique (y ∷ []) xs) 1 (some seq)) w
          (put_entry_lem DataType.set (member_key key y) [] default_ttl w)
          λ seq w1 put.
            Ensures-mono
              (add_members_lem key 0 seq true (some seq) (unique (y ∷ []) xs) (y ∷ []) 1 w1 short
                (unique-All (y ∷ []) xs shorts) (unique-AreDistinct (y ∷ []) xs, λ x h. fresh x h)
                (omega arith) (λ n. refl)
                (members_first seq y _ (elements sets w key) (elements sets w1 key) short_y refl
                  (λ x. put.newer (member_key key x)) put.change.there
                  λ x _. Put-Others sets key y [] seq w w1 put x)
                (Put-lasting sets key y [] seq w w1 put (valid key short).0))
              λ r w2 g. (seq, w1, put.bound, Only-Change sets key y w w1 _ short put.change, g))
        λ r w2 (seq, w1, b, only, g). finish_new key y xs seq r w w1 w2 short room b valid only g
    where
      fresh : (x : Bytes) → has x (unique (y ∷ []) xs) ≡ true → has x (y ∷ []) ≡ false
      fresh x h = and_not (has x (y ∷ [])) (has x xs) (sym (has-unique x (y ∷ []) xs) ∙ h)

  -- The members of the set whose metadata a lookup found.
  abbrev pub members_of : Option SetMetaValue → World db → Bytes → Bool
  members_of none w x = false
  members_of (some m) w x = is_current m.version (entry DataType.set w (member_key key x))

  abbrev pub HasRoomFor : ℕ → World db → Type 0
  HasRoomFor n w =
      (kv : KeyValue) (m : SetMetaValue)
      → entry DataType.string w (meta_key key) ≡ some kv
      → decode_set_meta kv.value ≡ ok m
      → m.len + n < 2 ^ 64

  abbrev rest_of_sadd : List Bytes → Option SetMetaValue → Action db ℕ
  rest_of_sadd xs found = elim found [
    | none ↦ add_to key xs true new_set
    | some m ↦ add_to key xs false m
  ]

  rest_of_sadd_lem :
      (y : Bytes) (xs : List Bytes) (found : Option SetMetaValue) (w w1 : World db)
      → length key < 2 ^ 16
      → All (λ x. length x < 2 ^ 32) (y ∷ xs)
      → suc (length xs) < 2 ^ 64
      → HasRoomFor (suc (length xs)) w
      → SetsValid w
      → Looked set_meta key w found w1
      → Ensures true
          (λ n w'. Done key (λ x. has x (y ∷ xs) || members_of found w1 x) w')
          (rest_of_sadd (y ∷ xs) found w1)
  rest_of_sadd_lem y xs none w w1 short (short_y, shorts) few room valid l =
      Ensures-mono
        (add_to_new y xs w1 short short_y shorts few
          (Looked-IsValid sets key w w1 none short valid l))
        λ n w' (v, s). (
          v,
          record {
            kv = s.kv;
            meta = s.meta;
            there = s.there;
            decodes = s.decodes;
            members = λ x h. s.members x h ∙ sym (or_false (has x (y ∷ xs)));
          },
        )
  rest_of_sadd_lem y xs (some m) w w1 short shorts few room valid l =
      let (ms, k) = found_Counted sets key w w1 m short valid l in
      let (kv, m0, there, d, version, len) = found_Known sets key w w1 m l in
      let (same, _) = l.seen in
      let free = room kv m0 (ap (λ x. db.view x (meta_key key)) (sym same) ∙ there) d in
      add_to_old key m (y ∷ xs) ms w1 short shorts
        (subst (λ n. n + suc (length xs) < 2 ^ 64) len free)
        (Looked-IsValid sets key w w1 (some m) short valid l) k (found_Known sets key w w1 m l)

  -- A state where the metadata of every set counts its members, each once, stays so when sadd of at least
  -- one member ends without an error. The user key has at most 65535 bytes, the members fewer than
  -- 2 ^ 32, and the new length fits u64.
  pub sadd-SetsValid :
      (y : Bytes) (xs : List Bytes) (w : World db)
      → length key < 2 ^ 16
      → All (λ x. length x < 2 ^ 32) (y ∷ xs)
      → suc (length xs) < 2 ^ 64
      → HasRoomFor (suc (length xs)) w
      → SetsValid w
      → Ensures false (λ n w'. SetsValid w') (sadd key (y ∷ xs) w)
  unfolding sadd
  sadd-SetsValid y xs w short shorts few room valid =
      Ensures-bind (get_meta set_meta key) (rest_of_sadd (y ∷ xs)) w (get_meta_lem set_meta key w)
        λ found w1 l. Ensures-weaken (
          Ensures-mono (rest_of_sadd_lem y xs found w w1 short shorts few room valid l)
            λ n w' (v, _). v)

  -- After sadd of at least one member, the members of the set are those that were named and those of the
  -- generation that the lookup found, if it found one: members of earlier generations stay hidden. The
  -- only errors after the lookup are those of a database. The user key has at most 65535 bytes, the
  -- members fewer than 2 ^ 32, the new length fits u64, and the metadata counts the members before.
  pub sadd-SetAt :
      (y : Bytes) (xs : List Bytes) (found : Option SetMetaValue) (w w1 : World db)
      → length key < 2 ^ 16
      → All (λ x. length x < 2 ^ 32) (y ∷ xs)
      → suc (length xs) < 2 ^ 64
      → HasRoomFor (suc (length xs)) w
      → SetsValid w
      → get_meta set_meta key w ≡ (ok found, w1)
      → Ensures true
          (λ n w'. SetAt key (λ x. has x (y ∷ xs) || members_of found w1 x) w')
          (sadd key (y ∷ xs) w)
  unfolding sadd
  sadd-SetAt y xs found w w1 short shorts few room valid e =
      let l = ensures_ok (get_meta_lem set_meta key w) e in
      rw (bind_ok (get_meta set_meta key) (rest_of_sadd (y ∷ xs)) w w1 found e) (
        Ensures-mono (rest_of_sadd_lem y xs found w w1 short shorts few room valid l)
          λ n w' (_, s). s)
