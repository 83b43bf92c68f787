-- ===== src/Server/Sessions/Laws.antt =====
-- The laws of the map of the sessions (nimbis/src/client.rs), one for each operation.
use nimbis.Prelude.{
  ◌≡◌, refl, sym, true, ◌||◌, Bytes, [], ◌∷◌, arith, if◌then◌else◌, Option, none, some, inl, inr,
  Bool-cases, subst,
}
use nimbis.Prelude.Int.{ℤ, pos, negsuc, eqb_ℤ}
use nimbis.Server.Sessions.{
  ClientSession, Sessions, find_session, register, insert_if_vacant, unregister, rename, get_name,
  is_some,
}

pub eqb_ℤ-eq : (a b : ℤ) → eqb_ℤ a b ≡ true → a ≡ b
eqb_ℤ-eq (pos a) (pos b) h = ground arith
eqb_ℤ-eq (negsuc a) (negsuc b) h = ground arith
eqb_ℤ-eq (pos a) (negsuc b) h = cc
eqb_ℤ-eq (negsuc a) (pos b) h = cc

pub eqb_ℤ_refl : (a : ℤ) → eqb_ℤ a a ≡ true
eqb_ℤ_refl (pos a) = ground arith
eqb_ℤ_refl (negsuc a) = ground arith

pub eqb_ℤ_sym : (a b : ℤ) → eqb_ℤ a b ≡ eqb_ℤ b a
eqb_ℤ_sym (pos a) (pos b) = ground arith
eqb_ℤ_sym (negsuc a) (negsuc b) = ground arith
eqb_ℤ_sym (pos a) (negsuc b) = refl
eqb_ℤ_sym (negsuc a) (pos b) = refl

find-inserted :
    (j id : ℤ) (ss : Sessions) (r : Option ClientSession)
    → find_session id ss ≡ r
    → is_some (find_session j (insert_if_vacant id ss r))
      ≡ eqb_ℤ j id || is_some (find_session j ss)
unfolding find_session
find-inserted j id ss none h = ground arith
find-inserted j id ss (some s) h = elim (Bool-cases (eqb_ℤ j id)) [
  | inl p ↦
      let same = eqb_ℤ-eq j id p in
      subst (λ k. is_some (find_session k ss) ≡ eqb_ℤ k id || is_some (find_session k ss))
        (sym same) (rw (h, eqb_ℤ_refl id) refl)
  | inr p ↦ rw p refl
]

-- A session that is there stays; otherwise there is one more.
pub find-register :
    (j id : ℤ) (ss : Sessions)
    → is_some (find_session j (register id ss)) ≡ eqb_ℤ j id || is_some (find_session j ss)
unfolding register
find-register j id ss = find-inserted j id ss (find_session id ss) refl

pub find-unregister :
    (j id : ℤ) (ss : Sessions)
    → find_session j (unregister id ss) ≡ (if eqb_ℤ j id then none else find_session j ss)
unfolding unregister find_session
find-unregister j id [] = ground arith
find-unregister j id (s ∷ ss) = elim (Bool-cases (eqb_ℤ j id)) [
  | inl p ↦ let same = eqb_ℤ-eq j id p in ground (arith, same, find-unregister j id ss)
  | inr p ↦
      ground (arith, p, find-unregister j id ss, eqb_ℤ-eq id s.id, eqb_ℤ-eq j s.id, eqb_ℤ_refl j)
]

pub get-rename :
    (j id : ℤ) (name : Bytes) (ss : Sessions)
    → is_some (find_session id ss) ≡ true
    → get_name j (rename id name ss) ≡ (if eqb_ℤ j id then some name else get_name j ss)
unfolding rename get_name find_session
get-rename j id name [] h = cc
get-rename j id name (s ∷ ss) h = elim (Bool-cases (eqb_ℤ id s.id)) [
  | inl p ↦ let same = eqb_ℤ-eq id s.id p in ground (arith, p, same)
  | inr p ↦
      ground (arith, p, get-rename j id name ss, eqb_ℤ-eq j id, eqb_ℤ-eq j s.id, eqb_ℤ_refl id)
]

pub find-rename :
    (j id : ℤ) (name : Bytes) (ss : Sessions)
    → is_some (find_session j (rename id name ss)) ≡ is_some (find_session j ss)
unfolding rename find_session
find-rename j id name [] = refl
find-rename j id name (s ∷ ss) = ground (arith, find-rename j id name ss)
