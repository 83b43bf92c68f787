-- ===== src/Storage/Keys/Order.antt =====
-- The order of the keys of lists and sorted sets (list/element_key.rs, zset/score_key.rs).
use nimbis.Prelude.{
  ℕ, ◌^◌, ◌<◌, ◌≡◌, refl, ◌∙◌, true, false, not, ◌&&◌, ◌||◌, Bytes, [], ◌∷◌, ◌++◌, append-nil,
  arith, ltb, ltb→lt, Bool-cases, inl, inr,
}
use nimbis.Resp.Types.{F64, is_nan}
use nimbis.Storage.BigEndian.{be_bytes, bytes_less, bytes_less-append, bytes_less-be_bytes}
use nimbis.Storage.Score.{encode_score, less_f64, encode_score_order, encode_score_bound}
use nimbis.Storage.Keys.{put_u16_len, encode_list_element_key, encode_score_key}

-- The elements of one list stand in the database in the order of their sequence numbers.
pub bytes_less-encode_list_element_key :
    (key : Bytes) (m n : ℕ)
    → m < n
    → n < 2 ^ 64
    → bytes_less
        (encode_list_element_key (record { user_key = key; seq = m }))
        (encode_list_element_key (record { user_key = key; seq = n }))
      ≡ true
unfolding encode_list_element_key
bytes_less-encode_list_element_key key m n h k =
    bytes_less-append (put_u16_len key) (key ++ be_bytes 8 m) (key ++ be_bytes 8 n)
    ∙ bytes_less-append key (be_bytes 8 m) (be_bytes 8 n)
    ∙ rw (append-nil (be_bytes 8 m), append-nil (be_bytes 8 n)) at
        (bytes_less-be_bytes 8 m n [] [] h k)

bytes_less_asym : (s t : Bytes) → bytes_less s t ≡ true → bytes_less t s ≡ false
unfolding bytes_less
bytes_less_asym [] [] h = refl
bytes_less_asym [] (d ∷ t) h = refl
bytes_less_asym (c ∷ s) [] h = cc
bytes_less_asym (c ∷ s) (d ∷ t) h = ground (arith, bytes_less_asym s t)

scored :
    (a b : ℕ) (s t : Bytes)
    → a < 2 ^ 64
    → b < 2 ^ 64
    → bytes_less (be_bytes 8 a ++ s) (be_bytes 8 b ++ t)
      ≡ (ltb a b || not (ltb b a) && bytes_less s t)
scored a b s t h k = elim (Bool-cases (ltb a b)) [
  | inl e ↦ rw e (bytes_less-be_bytes 8 a b s t (ltb→lt _ _ e) k)
  | inr e ↦ elim (Bool-cases (ltb b a)) [
    | inl g ↦ rw (e, g) (bytes_less_asym _ _ (bytes_less-be_bytes 8 b a t s (ltb→lt _ _ g) h))
    | inr g ↦
        let same : a ≡ b = ground arith in rw (e, g, same) (bytes_less-append (be_bytes 8 b) s t)
  ]
]

-- The members of one sorted set stand in the database in the order of their scores, and members of
-- equal scores in the order of their bytes. No score is a NaN.
pub bytes_less-encode_score_key :
    (key : Bytes) (a b : F64) (m n : Bytes)
    → a < 2 ^ 64
    → b < 2 ^ 64
    → is_nan a ≡ false
    → is_nan b ≡ false
    → bytes_less
        (encode_score_key (record { user_key = key; score = a; member = m }))
        (encode_score_key (record { user_key = key; score = b; member = n }))
      ≡ (less_f64 a b || not (less_f64 b a) && bytes_less m n)
unfolding encode_score_key
bytes_less-encode_score_key key a b m n h k p q =
    let s = be_bytes 8 (encode_score a) ++ m in
    let t = be_bytes 8 (encode_score b) ++ n in
    bytes_less-append (put_u16_len key) (key ++ (b'S' ∷ s)) (key ++ (b'S' ∷ t))
    ∙ bytes_less-append key (b'S' ∷ s) (b'S' ∷ t)
    ∙ bytes_less-append (b'S' ∷ []) s t
    ∙ rw (encode_score_order a b h k p q, encode_score_order b a k h q p) at
        (scored (encode_score a) (encode_score b) m n (encode_score_bound a h)
          (encode_score_bound b k))
