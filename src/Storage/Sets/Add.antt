-- ===== src/Storage/Sets/Add.antt =====
-- The loop of `sadd` of nimbis-storage/src/storage_set.rs.
use nimbis.Prelude.{
  ℕ, suc, ◌+◌, ◌<◌, ◌≤◌, ◌^◌, ◌≡◌, ◌∙◌, refl, sym, Bool, true, false, not, ◌&&◌, ◌||◌, Bytes, List,
  [], ◌∷◌, All, arith, if◌then◌else◌, length, Option, inl, inr, Bool-cases,
}
use nimbis.Resp.Utils.{same_bytes}
use nimbis.Storage.BytesEq.{same_bytes_refl, eq_of_same_bytes}
use nimbis.Storage.DataType.{DataType}
use nimbis.Storage.Database.{Db, default_ttl}
use nimbis.Storage.Elements.{is_current, has, AreDistinct, HasMembers}
use nimbis.Storage.Elements.Members.{members_added, members_older}
use nimbis.Storage.Elements.Counted.{
  elements, AreLasting, Only, Only-trans, Only-Change, string_elsewhere,
}
use nimbis.Storage.Elements.Writes.{Ensures-read, Put-Others, Put-lasting}
use nimbis.Storage.Engine.{World, Action, ◌>>=◌, pure, put_entry}
use nimbis.Storage.Engine.Rules.{Ensures, Ensures-pure, Ensures-bind, Ensures-mono}
use nimbis.Storage.Engine.Entries.{entry, Put, put_entry_lem}
use nimbis.Storage.Sets.{member_key, unique, member_exists, first_seq, add_members}
use nimbis.Storage.Sets.Keys.{sets}

pub has-unique :
    (y : Bytes) (seen xs : List Bytes) → has y (unique seen xs) ≡ (not (has y seen) && has y xs)
unfolding unique
has-unique y seen [] = elim (Bool-cases (has y seen)) [ inl e ↦ rw e refl | inr e ↦ rw e refl ]
has-unique y seen (x ∷ xs) = elim (Bool-cases (has x seen)) [
  | inl e ↦ rw (e, has-unique y seen xs) (old e)
  | inr e ↦ rw e (new e (has-unique y (x ∷ seen) xs))
]
  where
    old :
        has x seen ≡ true
        → (not (has y seen) && has y xs)
          ≡ (not (has y seen) && (if same_bytes y x then true else has y xs))
    old e = elim (Bool-cases (same_bytes y x)) [
      | inl s ↦ rw (s, eq_of_same_bytes y x s, e) refl
      | inr s ↦ rw s refl
    ]

    new :
        has x seen ≡ false
        → has y (unique (x ∷ seen) xs) ≡ (not (has y (x ∷ seen)) && has y xs)
        → (if same_bytes y x then true else has y (unique (x ∷ seen) xs))
          ≡ (not (has y seen) && (if same_bytes y x then true else has y xs))
    new e rec = elim (Bool-cases (same_bytes y x)) [
      | inl s ↦ rw (s, eq_of_same_bytes y x s, e) refl
      | inr s ↦ rw s (rw s at rec)
    ]

pub unique-AreDistinct : (seen xs : List Bytes) → AreDistinct (unique seen xs)
unfolding unique
unique-AreDistinct seen [] = tt
unique-AreDistinct seen (x ∷ xs) = elim (Bool-cases (has x seen)) [
  | inl e ↦ rw e (unique-AreDistinct seen xs)
  | inr e ↦
      rw e
        (rw (has-unique x (x ∷ seen) xs, same_bytes_refl x) refl, unique-AreDistinct (x ∷ seen) xs)
]

pub unique-All :
    (seen xs : List Bytes)
    → All (λ x. length x < 2 ^ 32) xs
    → All (λ x. length x < 2 ^ 32) (unique seen xs)
unfolding unique
unique-All seen [] h = tt
unique-All seen (x ∷ xs) (h, hs) = elim (Bool-cases (has x seen)) [
  | inl e ↦ rw e (unique-All seen xs hs)
  | inr e ↦ rw e (h, unique-All (x ∷ seen) xs hs)
]

pub length-unique : (seen xs : List Bytes) → length (unique seen xs) ≤ length xs
unfolding unique
length-unique seen [] = omega arith
length-unique seen (x ∷ xs) = elim (Bool-cases (has x seen)) [
  | inl e ↦ rw e (omega (arith, length-unique seen xs))
  | inr e ↦ rw e (omega (arith, length-unique (x ∷ seen) xs))
]

-- With missing metadata, the members to add are different from each other and from those added before;
-- otherwise the loop looks for members of the generation.
abbrev pub AreFresh : ℕ → ℕ → Bool → List Bytes → List Bytes → Type 0
AreFresh coded version false xs ms = coded ≡ version
AreFresh coded version true xs ms =
    AreDistinct xs × ((x : Bytes) → has x xs ≡ true → has x ms ≡ false)

fresh_rest :
    (coded version : ℕ) (missing : Bool) (y : Bytes) (xs ms : List Bytes)
    → AreFresh coded version missing (y ∷ xs) ms
    → (AreFresh coded version missing xs ms) × AreFresh coded version missing xs (y ∷ ms)
fresh_rest coded version false y xs ms h = (h, h)
fresh_rest coded version true y xs ms ((new, distinct), h) =
    ((distinct, λ x k. h x (later x k)), (distinct, λ x k. apart x k))
  where
    later : (x : Bytes) → has x xs ≡ true → has x (y ∷ xs) ≡ true
    later x k = elim (Bool-cases (same_bytes x y)) [ inl s ↦ rw s refl | inr s ↦ rw s k ]

    apart : (x : Bytes) → has x xs ≡ true → has x (y ∷ ms) ≡ false
    apart x k = elim (Bool-cases (same_bytes x y)) [
      | inl s ↦ (let k' = rw (eq_of_same_bytes x y s) at k in cc (k', new))
      | inr s ↦ rw s (h x (rw s k))
    ]

pub or_true : (b : Bool) → (b || true) ≡ true
or_true true = refl
or_true false = refl

module _ {D E : Type 0} {db : Db D E} (key : Bytes) (coded version : ℕ) where
  -- The members after the loop.
  pub record Grown (first : Option ℕ) (xs ms : List Bytes) (n : ℕ) (w : World db) (r : ℕ × Option ℕ)
      (w' : World db) : Type 0 where
    pub all : List Bytes
    pub members : HasMembers version (elements sets w' key) all
    pub count : length all + n ≡ length ms + r.0
    pub no_fewer : n ≤ r.0
    pub no_more : r.0 ≤ n + length xs
    pub only : Only sets key w w'
    pub lasting : AreLasting sets w' key
    pub strings : (j : Bytes) → entry DataType.string w' j ≡ entry DataType.string w j
    pub added : (x : Bytes) → has x all ≡ (has x xs || has x ms)
    pub first_same : r.1 ≡ first

  exists_lem :
      (missing : Bool) (y : Bytes) (xs ms : List Bytes) (w : World db)
      → length y < 2 ^ 32
      → AreFresh coded version missing (y ∷ xs) ms
      → HasMembers version (elements sets w key) ms
      → AreLasting sets w key
      → Ensures true (λ r w'. (r ≡ has y ms) × (w' ≡ w)) (member_exists key missing coded y w)
  exists_lem true y xs ms w short (d, fresh) m lasting =
      let here : has y (y ∷ xs) ≡ true = rw (same_bytes_refl y) refl in
      Ensures-pure (sym (fresh y here), refl)
  exists_lem false y xs ms w short fresh m lasting =
      Ensures-read DataType.set (member_key key y) (λ kv. pure (is_current coded kv)) w (lasting y)
        (Ensures-pure (rw fresh (sym (m.present y short)), refl))

  abbrev add_rest : Bool → Option ℕ → Bytes → List Bytes → ℕ → Bool → Action db (ℕ × Option ℕ)
  add_rest missing first y xs n there =
      if there then add_members key missing coded xs n first else (do
        seq ← put_entry DataType.set (member_key key y) [] default_ttl
        add_members key missing coded xs (suc n) (first_seq missing first seq))

  Grown-nothing :
      (first : Option ℕ) (ms : List Bytes) (n : ℕ) (w : World db)
      → HasMembers version (elements sets w key) ms
      → AreLasting sets w key
      → Grown first [] ms n w (n, first) w
  Grown-nothing first ms n w m lasting = record {
    all = ms;
    members = m;
    count = refl;
    no_fewer = omega arith;
    no_more = omega arith;
    only = record { strings = λ k h e. refl; others = λ k x h e. refl };
    lasting = lasting;
    strings = λ j. refl;
    added = λ x. refl;
    first_same = refl;
  }

  Grown-old :
      (first : Option ℕ) (y : Bytes) (xs ms : List Bytes) (n : ℕ) (w : World db) (r : ℕ × Option ℕ)
      (w' : World db)
      → has y ms ≡ true
      → Grown first xs ms n w r w'
      → Grown first (y ∷ xs) ms n w r w'
  Grown-old first y xs ms n w r w' old g = record {
    all = g.all;
    members = g.members;
    count = g.count;
    no_fewer = g.no_fewer;
    no_more = omega (arith, g.no_more);
    only = g.only;
    lasting = g.lasting;
    strings = g.strings;
    added = λ x. elim (Bool-cases (same_bytes x y)) [
      | inl s ↦ g.added x ∙ rw (s, eq_of_same_bytes x y s, old) (or_true (has y xs))
      | inr s ↦ g.added x ∙ rw s refl
    ];
    first_same = g.first_same;
  }

  Grown-new :
      (first : Option ℕ) (y : Bytes) (xs ms : List Bytes) (n seq : ℕ) (w w1 : World db)
      (r : ℕ × Option ℕ) (w' : World db)
      → length key < 2 ^ 16
      → Put DataType.set (member_key key y) [] default_ttl seq w w1
      → Grown first xs (y ∷ ms) (suc n) w1 r w'
      → Grown first (y ∷ xs) ms n w r w'
  Grown-new first y xs ms n seq w w1 r w' short put g = record {
    all = g.all;
    members = g.members;
    count = omega (arith, g.count);
    no_fewer = omega (arith, g.no_fewer);
    no_more = omega (arith, g.no_more);
    only = Only-trans sets key w w1 w' (Only-Change sets key y w w1 _ short put.change) g.only;
    lasting = g.lasting;
    strings = λ j. g.strings j ∙ string_elsewhere sets w w1 j put.change.elsewhere;
    added = λ x. elim (Bool-cases (same_bytes x y)) [
      | inl s ↦ g.added x ∙ rw s (or_true (has x xs))
      | inr s ↦ g.added x ∙ rw s refl
    ];
    first_same = g.first_same;
  }

  pub add_members_lem :
      (missing : Bool) (first : Option ℕ) (xs ms : List Bytes) (n : ℕ) (w : World db)
      → length key < 2 ^ 16
      → All (λ x. length x < 2 ^ 32) xs
      → AreFresh coded version missing xs ms
      → 0 < length ms
      → ((seq : ℕ) → first_seq missing first seq ≡ first)
      → HasMembers version (elements sets w key) ms
      → AreLasting sets w key
      → Ensures true (Grown first xs ms n w) (add_members key missing coded xs n first w)
  unfolding add_members
  add_members_lem missing first [] ms n w short shorts fresh some_ms keeps m lasting =
      Ensures-pure (Grown-nothing first ms n w m lasting)
  add_members_lem missing first (y ∷ xs) ms n w short (short_y, shorts) fresh some_ms keeps m
        lasting =
      let (fresh_old, fresh_new) = fresh_rest coded version missing y xs ms fresh in
      Ensures-bind (member_exists key missing coded y)
        (λ there. add_rest missing first y xs n there) w
        (exists_lem missing y xs ms w short_y fresh m lasting)
        λ there w1 (e, same).
          rw (same, e)
            (elim (Bool-cases (has y ms)) [
              | inl old ↦ rw old (
                  Ensures-mono
                    (add_members_lem missing first xs ms n w short shorts fresh_old some_ms keeps m
                      lasting)
                    λ r w' g. Grown-old first y xs ms n w r w' old g)
              | inr new ↦ rw new (
                  Ensures-bind (put_entry DataType.set (member_key key y) [] default_ttl)
                    (λ seq. add_members key missing coded xs (suc n) (first_seq missing first seq))
                    w (put_entry_lem DataType.set (member_key key y) [] default_ttl w)
                    λ seq w2 put. rw (keeps seq) (
                      Ensures-mono
                        (add_members_lem missing first xs (y ∷ ms) (suc n) w2 short shorts fresh_new
                          (omega arith) keeps
                          (members_added version seq y _ (elements sets w key)
                            (elements sets w2 key) ms m new short_y refl
                            (members_older version seq (elements sets w key) ms m some_ms
                              λ x. put.newer (member_key key x))
                            put.change.there λ x _. Put-Others sets key y [] seq w w2 put x)
                          (Put-lasting sets key y [] seq w w2 put lasting))
                        λ r w' g. Grown-new first y xs ms n seq w w2 r w' short put g))
            ])
