-- ===== src/Storage/Lists/Pushes.antt =====
-- A push of nimbis-storage/src/storage_list.rs as a push on a list of elements.
use nimbis.Prelude.{
  ℕ, suc, ◌<◌, ◌^◌, ◌≡◌, ◌⊎◌, inl, inr, ◌∙◌, refl, sym, ap, subst, Bool, true, false, Bytes, List,
  [], ◌∷◌, arith, length, ok, Option, none, some,
}
use nimbis.Storage.DataType.{DataType}
use nimbis.Storage.Meta.{ListMetaValue, new_list_meta, decode_list_meta}
use nimbis.Storage.Meta.RoundTrip.{decode_list_meta-encode_list_meta}
use nimbis.Storage.Compaction.{same_type}
use nimbis.Storage.Database.{Db, KeyValue, default_ttl}
use nimbis.Storage.Engine.{
  World, Action, pure, put_entry, put_meta, get_meta, list_meta, meta_key, db_of,
}
use nimbis.Storage.Engine.Rules.{Ensures, Ensures-pure, Ensures-bind, bind_ok, Ensures-mono}
use nimbis.Storage.Engine.Entries.{entry, put_entry_lem}
use nimbis.Storage.Engine.Lookup.{put_meta_lem}
use nimbis.Storage.Lists.{
  element_key, place, pushed, first_seq, push_elements, put_list, finish_push, push_to, list_push,
}
use nimbis.Storage.Lists.Span.{push_one, push_all, at, AreLasting, Span, elements_same, Span-older}
use nimbis.Storage.Lists.Push.{Room, push_one_lem}

Room-step :
    (is_left : Bool) (n : ℕ) (m : ListMetaValue)
    → m.head < 2 ^ 64
    → Room is_left (suc n) m
    → (Room is_left 1 m) × Room is_left n (pushed is_left m)
Room-step true n m b r = (omega arith, omega arith)
Room-step false n m b r = (omega arith, omega arith)

pushed_same :
    (is_left : Bool) (m : ListMetaValue)
    → ((pushed is_left m).version ≡ m.version) × ((pushed is_left m).expire_time ≡ m.expire_time)
pushed_same true m = (refl, refl)
pushed_same false m = (refl, refl)

length-push_one :
    (is_left : Bool) (x : Bytes) (es : List Bytes) → 0 < length (push_one is_left x es)
length-push_one true x es = omega arith
length-push_one false x [] = omega arith
length-push_one false x (y ∷ es) = omega arith

push_all_nonempty :
    (is_left : Bool) (xs es : List Bytes) → 0 < length es → 0 < length (push_all is_left xs es)
push_all_nonempty is_left [] es h = h
push_all_nonempty is_left (x ∷ xs) es h =
    push_all_nonempty is_left xs (push_one is_left x es) (length-push_one is_left x es)

abbrev pub or_new : Option ListMetaValue → ListMetaValue
or_new none = new_list_meta 0
or_new (some m) = m

list_apart : same_type DataType.list DataType.string ≡ false
unfolding same_type
list_apart = refl

module _ {D E : Type 0} {db : Db D E} (key : Bytes) where
  abbrev Loop :
      ℕ → Option ℕ → ListMetaValue → List Bytes → ListMetaValue × Option ℕ → World db → Type 0
  Loop version first m es (m', first') w' =
      (first' ≡ first)
      × (m'.version ≡ m.version)
      × (m'.expire_time ≡ m.expire_time)
      × Span w' key version m' es

  push_elements_lem :
      (version : ℕ) (is_left missing : Bool) (xs es : List Bytes) (m : ListMetaValue)
      (first : Option ℕ) (w : World db)
      → 0 < length es
      → ((seq : ℕ) → first_seq missing first seq ≡ first)
      → Room is_left (length xs) m
      → Span w key version m es
      → Ensures true
          (Loop version first m (push_all is_left xs es))
          (push_elements key is_left missing xs m first w)
  unfolding push_elements
  push_elements_lem version is_left missing [] es m first w h keeps room s =
      Ensures-pure (refl, refl, refl, s)
  push_elements_lem version is_left missing (x ∷ xs) es m first w h keeps room s =
      let t = s.tail in
      let b = s.bound in
      let (room1, rooms) = Room-step is_left (length xs) m (omega arith) room in
      let (same_version, same_expiry) = pushed_same is_left m in
      Ensures-bind (put_entry DataType.list (element_key key (place is_left m)) x default_ttl)
        (λ seq.
          push_elements key is_left missing xs (pushed is_left m) (first_seq missing first seq))
        w (put_entry_lem DataType.list (element_key key (place is_left m)) x default_ttl w)
        λ n w1 put. rw (keeps n) (
          Ensures-mono
            (push_elements_lem version is_left missing xs (push_one is_left x es) (pushed is_left m)
              first w1 (length-push_one is_left x es) keeps rooms
              (push_one_lem key version is_left n x m es w w1 s
                (Span-older w key version n m es s h put.newer) room1 put))
            λ (m', f) w' (e, v, ts, s'). (e, v ∙ same_version, ts ∙ same_expiry, s'))

  -- The metadata of the key is that of a list with these elements.
  pub record ListAt (es : List Bytes) (w : World db) : Type 0 where
    pub kv : KeyValue
    pub meta : ListMetaValue
    pub there : entry DataType.string w (meta_key key) ≡ some kv
    pub decodes : decode_list_meta kv.value ≡ ok meta
    pub span : Span w key meta.version meta es

  -- The elements of the list whose metadata a lookup found.
  abbrev pub ListFound : Option ListMetaValue → List Bytes → World db → Type 0
  ListFound none es w = AreLasting w key × (es ≡ [])
  ListFound (some m) es w =
      Span w key m.version m es × (0 < length es) × (m.version < 2 ^ 64) × (m.expire_time < 2 ^ 64)

  Span-elsewhere :
      (version : ℕ) (m : ListMetaValue) (es : List Bytes) (w w' : World db)
      → db_of DataType.list w' ≡ db_of DataType.list w
      → Span w key version m es
      → Span w' key version m es
  Span-elsewhere version m es w w' e s =
      let same : (seq : ℕ) → at w' key seq ≡ at w key seq =
        λ seq. ap (λ d. db.view d (element_key key seq)) e in
      record {
        lasting = λ seq kv h. s.lasting seq kv (sym (same seq) ∙ h);
        len = s.len;
        tail = s.tail;
        bound = s.bound;
        elements = elements_same w w' key version m.head es (λ seq _ _. same seq) s.elements;
      }

  pub put_meta-ListAt :
      (m : ListMetaValue) (es : List Bytes) (w : World db)
      → Span w key m.version m es
      → m.version < 2 ^ 64
      → m.expire_time < 2 ^ 64
      → Ensures true (λ _ w'. ListAt es w') (put_meta list_meta key m w)
  put_meta-ListAt m es w s v ts = Ensures-mono (put_meta_lem list_meta key m w) λ _ w' st.
      let (kv, there, value) = st.there in
      let t = s.tail in
      let b = s.bound in
      record {
        kv = kv;
        meta = m;
        there = there;
        decodes =
            rw value
              (decode_list_meta-encode_list_meta m (v, omega (arith, s.len), omega arith, b, ts));
        span = Span-elsewhere m.version m es w w' (st.elsewhere DataType.list list_apart) s;
      }

  put_list_lem :
      (m : ListMetaValue) (es : List Bytes) (w : World db)
      → Span w key m.version m es
      → m.version < 2 ^ 64
      → m.expire_time < 2 ^ 64
      → Ensures true (λ n w'. (n ≡ length es) × ListAt es w') (put_list key m w)
  put_list_lem m es w s v ts =
      Ensures-bind (put_meta list_meta key m) (λ _. pure m.len) w (put_meta-ListAt m es w s v ts)
        λ _ w' l. Ensures-pure (s.len, l)

  Span-version :
      (version : ℕ) (m : ListMetaValue) (es : List Bytes) (w : World db)
      → Span w key version m es
      → Span w key version (record m { version = version }) es
  Span-version version m es w s = record {
    lasting = s.lasting;
    len = s.len;
    tail = s.tail;
    bound = s.bound;
    elements = s.elements;
  }

  finish_lem :
      (version : ℕ) (missing : Bool) (m : ListMetaValue) (es : List Bytes)
      (r : ListMetaValue × Option ℕ) (w : World db)
      → Loop version (first_seq missing none version) m es r w
      → ((missing ≡ true) × (m.expire_time ≡ 0))
        ⊎ ((missing ≡ false) × (m.version ≡ version) × (m.expire_time < 2 ^ 64))
      → version < 2 ^ 64
      → Ensures true (λ n w'. (n ≡ length es) × ListAt es w') (finish_push key missing r w)
  finish_lem version true m es (m', none) w (e, v, ts, s) h b = cc
  finish_lem version true m es (m', some n) w (e, v, ts, s) (inl (_, h)) b =
      let same : n ≡ version = cc e in
      rw same (
        put_list_lem (record m' { version = version }) es w (Span-version version m' es w s) b
          (omega (arith, h, ts)))
  finish_lem version true m es (m', some n) w (e, v, ts, s) (inr (h, _, _)) b = cc
  finish_lem version false m es (m', f) w (e, v, ts, s) (inl (h, _)) b = cc
  finish_lem version false m es (m', f) w (e, v, ts, s) (inr (_, same, h)) b =
      put_list_lem m' es w (subst (λ n. Span w key n m' es) (sym (v ∙ same)) s) (rw (v, same) b)
        (rw ts h)

  new-Span :
      (version : ℕ) (w : World db) → AreLasting w key → Span w key version (new_list_meta 0) []
  unfolding new_list_meta
  new-Span version w lasting = record {
    lasting = lasting;
    len = refl;
    tail = omega arith;
    bound = omega arith;
    elements = tt;
  }

  -- The first push of a new list: its sequence number is the version.
  push_to_new :
      (is_left : Bool) (x : Bytes) (xs : List Bytes) (w : World db)
      → AreLasting w key
      → Room is_left (suc (length xs)) (new_list_meta 0)
      → Ensures true
          (λ n w'.
            (n ≡ length (push_all is_left (x ∷ xs) [])) × ListAt (push_all is_left (x ∷ xs) []) w')
          (push_to key (x ∷ xs) is_left true (new_list_meta 0) w)
  unfolding push_elements new_list_meta
  push_to_new is_left x xs w lasting room =
      let m = new_list_meta 0 in
      let (room1, rooms) = Room-step is_left (length xs) m (omega arith) room in
      let (same_version, same_expiry) = pushed_same is_left m in
      Ensures-bind
        {Q = λ r w'.
          (n : ℕ) × (n < 2 ^ 64)
          × Loop n (some n) (pushed is_left m) (push_all is_left (x ∷ xs) []) r w'}
        (push_elements key is_left true (x ∷ xs) m none) (finish_push key true) w
        (Ensures-bind (put_entry DataType.list (element_key key (place is_left m)) x default_ttl)
          (λ seq. push_elements key is_left true xs (pushed is_left m) (some seq)) w
          (put_entry_lem DataType.list (element_key key (place is_left m)) x default_ttl w)
          λ n w1 put.
            Ensures-mono
              (push_elements_lem n is_left true xs (push_one is_left x []) (pushed is_left m)
                (some n) w1 (length-push_one is_left x []) (λ seq. refl) rooms
                (push_one_lem key n is_left n x m [] w w1 (new-Span n w lasting) (omega arith) room1
                  put))
              λ r w' l. (n, put.bound, l))
        λ r w2 (n, b, l).
          finish_lem n true (pushed is_left m) (push_all is_left (x ∷ xs) []) r w2 l
            (inl (refl, same_expiry)) b

  push_to_old :
      (is_left : Bool) (xs es : List Bytes) (m : ListMetaValue) (w : World db)
      → ListFound (some m) es w
      → Room is_left (length xs) m
      → Ensures true
          (λ n w'. (n ≡ length (push_all is_left xs es)) × ListAt (push_all is_left xs es) w')
          (push_to key xs is_left false m w)
  push_to_old is_left xs es m w (s, h, v, ts) room =
      Ensures-bind (push_elements key is_left false xs m none) (finish_push key false) w
        (push_elements_lem m.version is_left false xs es m none w h (λ seq. refl) room s)
        λ r w2 l.
          finish_lem m.version false m (push_all is_left xs es) r w2 l (inr (refl, refl, ts)) v

  abbrev rest_of_push : Bool → Bytes → List Bytes → Option ListMetaValue → Action db ℕ
  rest_of_push is_left x xs found = elim found [
    | none ↦ push_to key (x ∷ xs) is_left true (new_list_meta 0)
    | some m ↦ push_to key (x ∷ xs) is_left false m
  ]

  push_to_found :
      (is_left : Bool) (x : Bytes) (xs es : List Bytes) (found : Option ListMetaValue)
      (w : World db)
      → ListFound found es w
      → Room is_left (suc (length xs)) (or_new found)
      → Ensures true
          (λ n w'.
            (n ≡ length (push_all is_left (x ∷ xs) es)) × ListAt (push_all is_left (x ∷ xs) es) w')
          (rest_of_push is_left x xs found w)
  push_to_found is_left x xs es none w (lasting, e) room =
      rw e (push_to_new is_left x xs w lasting room)
  push_to_found is_left x xs es (some m) w f room = push_to_old is_left (x ∷ xs) es m w f room

  -- A push of elements on a list, or on a key without one, leaves the list with the elements pushed one
  -- after the other, at the left or at the right, and returns its length; the only errors after the
  -- lookup are those of a database. The elements before stand at the sequence numbers from head to tail,
  -- there are numbers left on the side of the push, and version and time of expiry fit u64.
  pub list_push-ListAt :
      (is_left : Bool) (x : Bytes) (xs es : List Bytes) (found : Option ListMetaValue)
      (w w1 : World db)
      → get_meta list_meta key w ≡ (ok found, w1)
      → ListFound found es w1
      → Room is_left (suc (length xs)) (or_new found)
      → Ensures true
          (λ n w'.
            (n ≡ length (push_all is_left (x ∷ xs) es)) × ListAt (push_all is_left (x ∷ xs) es) w')
          (list_push key (x ∷ xs) is_left w)
  unfolding list_push
  list_push-ListAt is_left x xs es found w w1 e f room =
      rw (bind_ok (get_meta list_meta key) (rest_of_push is_left x xs) w w1 found e)
        (push_to_found is_left x xs es found w1 f room)
