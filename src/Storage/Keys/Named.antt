-- ===== src/Storage/Keys/Named.antt =====
-- What follows the user key in the keys of nimbis-storage/src (hash/field_key.rs, set/member_key.rs,
-- list/element_key.rs).
use nimbis.Prelude.{◌%◌, ◌^◌, ◌≡◌, ap, sym, ◌∙◌, Bytes, drop, drop-append, ◌++◌, length}
use nimbis.Storage.BigEndian.{be_bytes, length-be_bytes, drop_front}
use nimbis.Storage.Keys.{put_u16_len, put_u32_len}

pub named_inj : (x y : Bytes) → put_u32_len x ++ x ≡ put_u32_len y ++ y → x ≡ y
unfolding put_u32_len
named_inj x y e =
    sym (drop_front 4 (be_bytes 4 (length x % 2 ^ 32)) x (length-be_bytes 4 _))
    ∙ ap (drop 4) e
    ∙ drop_front 4 (be_bytes 4 (length y % 2 ^ 32)) y (length-be_bytes 4 _)

pub same_user_key_inj :
    (key s t : Bytes) → put_u16_len key ++ (key ++ s) ≡ put_u16_len key ++ (key ++ t) → s ≡ t
unfolding put_u16_len
same_user_key_inj key s t e =
    let front = drop_front 2 (be_bytes 2 (length key % 2 ^ 16)) in
    let e' : key ++ s ≡ key ++ t =
      sym (front (key ++ s) (length-be_bytes 2 _))
      ∙ ap (drop 2) e
      ∙ front (key ++ t) (length-be_bytes 2 _) in
    sym (drop-append key s) ∙ ap (drop (length key)) e' ∙ drop-append key t
