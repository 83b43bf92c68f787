-- ===== src/Storage/Keys/Prefix.antt =====
-- The user key in front of every key of nimbis-storage/src: a scan by `user_key_prefix` (utils.rs) finds
-- the keys of one user key, and no others.
use nimbis.Prelude.{
  ◌%◌, ◌^◌, ◌<◌, ◌≡◌, ◌↔◌, refl, sym, ◌∙◌, ap, Bool, true, false, Bytes, [], ◌∷◌, ◌++◌,
  append_assoc, append-nil, arith, length, get_or, length-append, drop, take-append, drop-append,
  ◌==◌, ◌&&◌, some, ok, inl, inr, Bool-cases,
}
use nimbis.Storage.BigEndian.{be_bytes, get_be-be_bytes, drop-be_bytes, length-be_bytes}
use nimbis.Storage.Keys.{
  put_u16_len, read_counted, user_key_prefix, zset_score_user_key_prefix, StringKey,
  encode_string_key, decode_string_key, HashFieldKey, encode_hash_field_key, ListElementKey,
  encode_list_element_key, SetMemberKey, encode_set_member_key, MemberKey, encode_member_key,
  ScoreKey, encode_score_key,
}

-- A key of one of the databases of collections.
pub data SubKey : Type 0 where
  field : HashFieldKey → SubKey
  element : ListElementKey → SubKey
  set_member : SetMemberKey → SubKey
  zset_member : MemberKey → SubKey
  zset_score : ScoreKey → SubKey

abbrev pub encode_sub_key : SubKey → Bytes
encode_sub_key (field k) = encode_hash_field_key k
encode_sub_key (element k) = encode_list_element_key k
encode_sub_key (set_member k) = encode_set_member_key k
encode_sub_key (zset_member k) = encode_member_key k
encode_sub_key (zset_score k) = encode_score_key k

abbrev pub user_key_of : SubKey → Bytes
user_key_of (field k) = k.user_key
user_key_of (element k) = k.user_key
user_key_of (set_member k) = k.user_key
user_key_of (zset_member k) = k.user_key
user_key_of (zset_score k) = k.user_key

-- The test of a scan by prefix.
unfoldable pub starts_with : Bytes → Bytes → Bool
starts_with [] s = true
starts_with (c ∷ p) [] = false
starts_with (c ∷ p) (d ∷ s) = c == d && starts_with p s

starts_with-append : (p s : Bytes) → starts_with p (p ++ s) ≡ true
unfolding starts_with
starts_with-append [] s = refl
starts_with-append (c ∷ p) s = ground (arith, starts_with-append p s)

starts_with-drop : (p s : Bytes) → starts_with p s ≡ true → p ++ drop (length p) s ≡ s
unfolding starts_with
starts_with-drop [] s h = refl
starts_with-drop (c ∷ p) [] h = cc
starts_with-drop (c ∷ p) (d ∷ s) h = ground (arith, starts_with-drop p s)

-- The user key is read back from the front of a key.
pub read_counted-put_u16_len :
    (key s : Bytes) → length key < 2 ^ 16 → read_counted (put_u16_len key ++ (key ++ s)) ≡ some key
unfolding read_counted put_u16_len
read_counted-put_u16_len key s h =
    let small : length key % 2 ^ 16 ≡ length key = omega arith in
    rw
      (
        small,
        get_be-be_bytes 2 (length key) (key ++ s) h,
        drop-be_bytes 2 (length key) (key ++ s),
        take-append key s,
        length-append (be_bytes 2 (length key)) (key ++ s),
        length-be_bytes 2 (length key),
        length-append key s,
      )
      (ground arith)

drop-put_u16_len : (key s : Bytes) → drop 2 (put_u16_len key ++ (key ++ s)) ≡ key ++ s
unfolding put_u16_len
drop-put_u16_len key s = drop-be_bytes 2 (length key % 2 ^ 16) (key ++ s)

-- Two user keys with what follows them.
pub counted_inj :
    (a b s t : Bytes)
    → length a < 2 ^ 16
    → length b < 2 ^ 16
    → put_u16_len a ++ (a ++ s) ≡ put_u16_len b ++ (b ++ t)
    → (a ≡ b) × (s ≡ t)
counted_inj a b s t h k e =
    let same : a ≡ b = cc (read_counted-put_u16_len a s h, read_counted-put_u16_len b t k, e) in
    (
      same,
      cc (same, e, drop-put_u16_len a s, drop-put_u16_len b t, drop-append a s, drop-append b t),
    )

-- A key of at most 65535 bytes is decoded from its encoding.
pub decode_string_key-encode_string_key :
    (k : StringKey) → length k.user_key < 2 ^ 16 → decode_string_key (encode_string_key k) ≡ ok k
unfolding decode_string_key encode_string_key
decode_string_key-encode_string_key k h =
    rw (rw append-nil at (read_counted-put_u16_len k.user_key [] h))

-- Every key begins with the prefix of its user key.
pub encode_sub_key-user_key_prefix :
    (k : SubKey)
    → (s : Bytes) × (encode_sub_key k ≡ put_u16_len (user_key_of k) ++ (user_key_of k ++ s))
unfolding encode_hash_field_key encode_list_element_key encode_set_member_key encode_member_key
    encode_score_key
encode_sub_key-user_key_prefix (field k) = (_, refl)
encode_sub_key-user_key_prefix (element k) = (_, refl)
encode_sub_key-user_key_prefix (set_member k) = (_, refl)
encode_sub_key-user_key_prefix (zset_member k) = (_, refl)
encode_sub_key-user_key_prefix (zset_score k) = (_, refl)

-- A scan by the prefix of a user key meets a key of a collection if and only if the collection is that
-- of the user key; both user keys have at most 65535 bytes.
pub starts_with-user_key_prefix :
    (key : Bytes) (k : SubKey)
    → length key < 2 ^ 16
    → length (user_key_of k) < 2 ^ 16
    → (starts_with (user_key_prefix key) (encode_sub_key k) ≡ true) ↔ (key ≡ user_key_of k)
unfolding user_key_prefix
starts_with-user_key_prefix key k h l =
    let (s, e) = encode_sub_key-user_key_prefix k in
    let p = put_u16_len key ++ key in
    (
      λ m.
          let split = starts_with-drop p (encode_sub_key k) m in
          let (same, _) =
            counted_inj key (user_key_of k) (drop (length p) (encode_sub_key k)) s h l
              (sym (append_assoc (put_u16_len key) key _) ∙ split ∙ e) in
          same,
      λ same.
          rw (e, same, sym (append_assoc (put_u16_len (user_key_of k)) (user_key_of k) s))
            (starts_with-append (put_u16_len (user_key_of k) ++ user_key_of k) s),
    )

prefix_split :
    (a x b t : Bytes)
    → length a < 2 ^ 16
    → length b < 2 ^ 16
    → starts_with (put_u16_len a ++ (a ++ x)) (put_u16_len b ++ (b ++ t)) ≡ true
    → (a ≡ b) × ((r : Bytes) × (x ++ r ≡ t))
prefix_split a x b t h k m =
    let p = put_u16_len a ++ (a ++ x) in
    let r = drop (length p) (put_u16_len b ++ (b ++ t)) in
    let split = starts_with-drop p (put_u16_len b ++ (b ++ t)) m in
    let e : put_u16_len a ++ (a ++ (x ++ r)) ≡ put_u16_len b ++ (b ++ t) =
      rw (sym (append_assoc a x r), sym (append_assoc (put_u16_len a) (a ++ x) r)) split in
    let (same, rest) = counted_inj a b (x ++ r) t h k e in (same, (r, rest))

starts_with-score :
    (key t : Bytes)
    → starts_with (put_u16_len key ++ (key ++ b'S' ∷ [])) (put_u16_len key ++ (key ++ (b'S' ∷ t)))
      ≡ true
starts_with-score key t =
    rw (append_assoc (put_u16_len key) (key ++ b'S' ∷ []) t, append_assoc key (b'S' ∷ []) t) at
      (starts_with-append (put_u16_len key ++ (key ++ b'S' ∷ [])) t)

-- The scan of the scores of a sorted set meets the score keys of that set, and no member key of any
-- set; all user keys have at most 65535 bytes.
pub starts_with-zset_score_user_key_prefix :
    (key : Bytes) (m : MemberKey) (s : ScoreKey)
    → length key < 2 ^ 16
    → length m.user_key < 2 ^ 16
    → length s.user_key < 2 ^ 16
    → (starts_with (zset_score_user_key_prefix key) (encode_member_key m) ≡ false)
      × ((starts_with (zset_score_user_key_prefix key) (encode_score_key s) ≡ true)
          ↔ (key ≡ s.user_key))
unfolding zset_score_user_key_prefix encode_member_key encode_score_key
starts_with-zset_score_user_key_prefix key m s h k l = (
  elim (Bool-cases (starts_with (zset_score_user_key_prefix key) (encode_member_key m))) [
    | inl e ↦
        let (_, (r, bad)) = prefix_split key (b'S' ∷ []) m.user_key _ h k e in
        absurd (omega (arith, ap (λ l. get_or l 0 0) bad))
    | inr e ↦ e
  ],
  (
    λ e. let (same, _) = prefix_split key (b'S' ∷ []) s.user_key _ h l e in same,
    λ same. rw same (starts_with-score s.user_key _),
  ),
)
