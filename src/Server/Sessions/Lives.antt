-- ===== src/Server/Sessions/Lives.antt =====
-- The lives of the connections: the task that `Server::run` (nimbis/src/server.rs) starts for each, with the
-- numbers and the sessions of nimbis/src/client.rs. The tasks take turns in any order.
use nimbis.Prelude.{
  ℕ, suc, ◌<◌, ◌^◌, ◌≡◌, refl, ◌∙◌, sym, ap, Bool, true, false, ◌||◌, Bytes, List, [], ◌∷◌, arith,
  if◌then◌else◌, Option, none, some, inl, inr, Bool-cases, subst,
}
use nimbis.Prelude.Int.{ℤ, pos, eqb_ℤ, ◌+ℤ◌}
use nimbis.Server.Sessions.{
  ClientSession, name_of, Sessions, next_client_session_id, register, unregister, set_name,
  get_name, find_session, is_some,
}
use nimbis.Server.Sessions.Laws.{
  eqb_ℤ-eq, eqb_ℤ_refl, find-register, find-unregister, get-rename, find-rename,
}

-- `numbered` are the connections that have a number and no session yet, `running` those whose commands run,
-- and `panicked` those whose task ended with a panic in `run`.
pub record Life : Type 0 where
  pub counter : ℤ
  pub numbered : List ℤ
  pub running : List ℤ
  pub panicked : List ℤ
  pub sessions : Sessions

abbrev pub has_id : ℤ → List ℤ → Bool
has_id x [] = false
has_id x (y ∷ ys) = eqb_ℤ x y || has_id x ys

abbrev pub without_id : ℤ → List ℤ → List ℤ
without_id x [] = []
without_id x (y ∷ ys) = if eqb_ℤ x y then ys else y ∷ without_id x ys

-- The counter starts at 1.
abbrev pub at_start : Life
at_start = record { counter = pos 1; numbered = []; running = []; panicked = []; sessions = [] }

unfoldable pub number : Life → Life
unfolding next_client_session_id
number l = record l {
  counter = (next_client_session_id l.counter).1;
  numbered = (next_client_session_id l.counter).0 ∷ l.numbered;
}

unfoldable pub start_running : ℤ → Life → Life
unfolding register
start_running id l = record l {
  numbered = without_id id l.numbered;
  running = id ∷ l.running;
  sessions = register id l.sessions;
}

unfoldable pub stop_running : ℤ → Life → Life
unfolding unregister
stop_running id l = record l {
  running = without_id id l.running;
  sessions = unregister id l.sessions;
}

-- A panic in `run` ends the task in front of the call of `unregister`.
unfoldable pub panic_running : ℤ → Life → Life
panic_running id l = record l { running = without_id id l.running; panicked = id ∷ l.panicked }

-- What is reached with a number of connections so far, by turns of their tasks. Of the commands, CLIENT
-- SETNAME changes the sessions.
pub data Lives : ℕ → Life → Type 0 where
  nobody : Lives 0 at_start
  accepted : {n : ℕ} {l : Life} → Lives n l → Lives (suc n) (number l)
  registered :
      {n : ℕ} {l : Life} (id : ℤ)
      → has_id id l.numbered ≡ true
      → Lives n l
      → Lives n (start_running id l)
  renamed :
      {n : ℕ} {l : Life} (id : ℤ) (name : Bytes)
      → has_id id l.running ≡ true
      → Lives n l
      → Lives n (record l { sessions = (set_name id name l.sessions).1 })
  unregistered :
      {n : ℕ} {l : Life} (id : ℤ)
      → has_id id l.running ≡ true
      → Lives n l
      → Lives n (stop_running id l)
  panics :
      {n : ℕ} {l : Life} (id : ℤ)
      → has_id id l.running ≡ true
      → Lives n l
      → Lives n (panic_running id l)

abbrev pub AreDistinct : List ℤ → Type 0
AreDistinct [] = Unit
AreDistinct (x ∷ xs) = (has_id x xs ≡ false) × AreDistinct xs

-- Numbers from 1 to `n`.
abbrev pub AreUpTo : ℕ → List ℤ → Type 0
AreUpTo n [] = Unit
AreUpTo n (x ∷ xs) = ((m : ℕ) × (x ≡ pos m) × (m < suc n)) × AreUpTo n xs

pub record IsOrderly (n : ℕ) (l : Life) : Type 0 where
  pub counted : l.counter ≡ pos (suc n)
  pub numbered_up_to : AreUpTo n l.numbered
  pub running_up_to : AreUpTo n l.running
  pub numbered_distinct : AreDistinct l.numbered
  pub running_distinct : AreDistinct l.running
  pub panicked_up_to : AreUpTo n l.panicked
  pub panicked_distinct : AreDistinct l.panicked
  pub apart : (x : ℤ) → has_id x l.numbered ≡ true → has_id x l.running ≡ false
  pub numbered_sound : (x : ℤ) → has_id x l.numbered ≡ true → has_id x l.panicked ≡ false
  pub running_sound : (x : ℤ) → has_id x l.running ≡ true → has_id x l.panicked ≡ false
  pub sessions_running :
      (x : ℤ) → is_some (find_session x l.sessions) ≡ (has_id x l.running || has_id x l.panicked)

not_yet : (n : ℕ) (xs : List ℤ) → AreUpTo n xs → has_id (pos (suc n)) xs ≡ false
not_yet n [] h = refl
not_yet n (x ∷ xs) ((m, e, b), h) = rw (e, not_yet n xs h) (ground arith)

AreUpTo-suc : (n : ℕ) (xs : List ℤ) → AreUpTo n xs → AreUpTo (suc n) xs
AreUpTo-suc n [] h = tt
AreUpTo-suc n (x ∷ xs) ((m, e, b), h) = ((m, e, omega arith), AreUpTo-suc n xs h)

AreUpTo-without : (n : ℕ) (x : ℤ) (xs : List ℤ) → AreUpTo n xs → AreUpTo n (without_id x xs)
AreUpTo-without n x [] h = tt
AreUpTo-without n x (y ∷ ys) (b, h) = elim (Bool-cases (eqb_ℤ x y)) [
  | inl p ↦ rw p h
  | inr p ↦ rw p (b, AreUpTo-without n x ys h)
]

has-without :
    (j x : ℤ) (xs : List ℤ)
    → AreDistinct xs
    → has_id j (without_id x xs) ≡ (if eqb_ℤ j x then false else has_id j xs)
has-without j x [] h = ground arith
has-without j x (y ∷ ys) (n, h) =
    ground (arith, n, has-without j x ys h, eqb_ℤ-eq x y, eqb_ℤ-eq j x, eqb_ℤ-eq j y, eqb_ℤ_refl j)

distinct-without : (x : ℤ) (xs : List ℤ) → AreDistinct xs → AreDistinct (without_id x xs)
distinct-without x [] h = tt
distinct-without x (y ∷ ys) (n, h) = elim (Bool-cases (eqb_ℤ x y)) [
  | inl p ↦ rw p h
  | inr p ↦ rw p (ground (arith, n, has-without y x ys h), distinct-without x ys h)
]

has-UpTo :
    (n : ℕ) (x : ℤ) (xs : List ℤ)
    → has_id x xs ≡ true
    → AreUpTo n xs
    → (m : ℕ) × (x ≡ pos m) × (m < suc n)
has-UpTo n x [] h b = cc
has-UpTo n x (y ∷ ys) h ((m, e, b), rest) = elim (Bool-cases (eqb_ℤ x y)) [
  | inl p ↦ (m, eqb_ℤ-eq x y p ∙ e, b)
  | inr p ↦ has-UpTo n x ys (rw p at h) rest
]

number-IsOrderly :
    (n : ℕ) (l : Life) → suc (suc n) < 2 ^ 63 → IsOrderly n l → IsOrderly (suc n) (number l)
unfolding number next_client_session_id ◌+ℤ◌
number-IsOrderly n l room h =
    let fresh = not_yet n l.numbered h.numbered_up_to in
    let quiet = not_yet n l.running h.running_up_to in
    let sound = not_yet n l.panicked h.panicked_up_to in
    record {
      counted = rw (h.counted) (ground arith);
      numbered_up_to = ((suc n, h.counted, omega arith), AreUpTo-suc n _ h.numbered_up_to);
      running_up_to = AreUpTo-suc n _ h.running_up_to;
      numbered_distinct = (rw (h.counted) fresh, h.numbered_distinct);
      running_distinct = h.running_distinct;
      apart = λ x e. elim (Bool-cases (eqb_ℤ x l.counter)) [
        | inl p ↦
            subst (λ y. has_id y l.running ≡ false) (sym (eqb_ℤ-eq x l.counter p ∙ h.counted)) quiet
        | inr p ↦ h.apart x (rw p at e)
      ];
      panicked_up_to = AreUpTo-suc n _ h.panicked_up_to;
      panicked_distinct = h.panicked_distinct;
      numbered_sound = λ x e. elim (Bool-cases (eqb_ℤ x l.counter)) [
        | inl p ↦
            subst (λ y. has_id y l.panicked ≡ false) (sym (eqb_ℤ-eq x l.counter p ∙ h.counted))
              sound
        | inr p ↦ h.numbered_sound x (rw p at e)
      ];
      running_sound = h.running_sound;
      sessions_running = h.sessions_running;
    }

or_assoc : (a b c : Bool) → (a || (b || c)) ≡ ((a || b) || c)
or_assoc true b c = refl
or_assoc false b c = refl

still_in : (b c : Bool) (r : Bool) → r ≡ (if b then false else c) → r ≡ true → c ≡ true
still_in true c r e h = (let bad : true ≡ false = sym h ∙ e in cc bad)
still_in false c r e h = sym e ∙ h

register-IsOrderly :
    (n : ℕ) (l : Life) (id : ℤ)
    → has_id id l.numbered ≡ true
    → IsOrderly n l
    → IsOrderly n (start_running id l)
unfolding start_running
register-IsOrderly n l id e h = record {
  counted = h.counted;
  numbered_up_to = AreUpTo-without n id _ h.numbered_up_to;
  running_up_to = (has-UpTo n id l.numbered e h.numbered_up_to, h.running_up_to);
  numbered_distinct = distinct-without id _ h.numbered_distinct;
  running_distinct = (h.apart id e, h.running_distinct);
  apart = λ x k. ground (arith, has-without x id l.numbered h.numbered_distinct, h.apart x, k);
  panicked_up_to = h.panicked_up_to;
  panicked_distinct = h.panicked_distinct;
  numbered_sound = λ x k. h.numbered_sound x (
      still_in (eqb_ℤ x id) (has_id x l.numbered) _
        (has-without x id l.numbered h.numbered_distinct) k);
  running_sound = λ x k. elim (Bool-cases (eqb_ℤ x id)) [
    | inl p ↦
        subst (λ y. has_id y l.panicked ≡ false) (sym (eqb_ℤ-eq x id p)) (h.numbered_sound id e)
    | inr p ↦ h.running_sound x (rw p at k)
  ];
  sessions_running = λ x.
      find-register x id l.sessions
      ∙ ap (λ b. eqb_ℤ x id || b) (h.sessions_running x)
      ∙ or_assoc (eqb_ℤ x id) (has_id x l.running) (has_id x l.panicked);
}

rename-IsOrderly :
    (n : ℕ) (l : Life) (id : ℤ) (name : Bytes)
    → IsOrderly n l
    → IsOrderly n (record l { sessions = (set_name id name l.sessions).1 })
unfolding set_name
rename-IsOrderly n l id name h = record {
  counted = h.counted;
  numbered_up_to = h.numbered_up_to;
  running_up_to = h.running_up_to;
  numbered_distinct = h.numbered_distinct;
  running_distinct = h.running_distinct;
  apart = h.apart;
  panicked_up_to = h.panicked_up_to;
  panicked_distinct = h.panicked_distinct;
  numbered_sound = h.numbered_sound;
  running_sound = h.running_sound;
  sessions_running = λ x. find-rename x id name l.sessions ∙ h.sessions_running x;
}

unregister-IsOrderly :
    (n : ℕ) (l : Life) (id : ℤ)
    → has_id id l.running ≡ true
    → IsOrderly n l
    → IsOrderly n (stop_running id l)
unfolding stop_running
unregister-IsOrderly n l id e h = record {
  counted = h.counted;
  numbered_up_to = h.numbered_up_to;
  running_up_to = AreUpTo-without n id _ h.running_up_to;
  numbered_distinct = h.numbered_distinct;
  running_distinct = distinct-without id _ h.running_distinct;
  panicked_up_to = h.panicked_up_to;
  panicked_distinct = h.panicked_distinct;
  apart = λ x k. ground (arith, has-without x id l.running h.running_distinct, h.apart x, k);
  numbered_sound = h.numbered_sound;
  running_sound = λ x k. h.running_sound x (
      still_in (eqb_ℤ x id) (has_id x l.running) _ (has-without x id l.running h.running_distinct)
        k);
  sessions_running = λ x. elim (Bool-cases (eqb_ℤ x id)) [
    | inl p ↦
        ap is_some (find-unregister x id l.sessions)
        ∙ rw
            (
              p,
              has-without x id l.running h.running_distinct,
              p,
              eqb_ℤ-eq x id p,
              h.running_sound id e,
            )
            refl
    | inr p ↦
        ap is_some (find-unregister x id l.sessions)
        ∙ rw (p, has-without x id l.running h.running_distinct, p) (h.sessions_running x)
  ];
}

panic-IsOrderly :
    (n : ℕ) (l : Life) (id : ℤ)
    → has_id id l.running ≡ true
    → IsOrderly n l
    → IsOrderly n (panic_running id l)
unfolding panic_running
panic-IsOrderly n l id e h = record {
  counted = h.counted;
  numbered_up_to = h.numbered_up_to;
  running_up_to = AreUpTo-without n id _ h.running_up_to;
  numbered_distinct = h.numbered_distinct;
  running_distinct = distinct-without id _ h.running_distinct;
  panicked_up_to = (has-UpTo n id l.running e h.running_up_to, h.panicked_up_to);
  panicked_distinct = (h.running_sound id e, h.panicked_distinct);
  apart = λ x k. ground (arith, has-without x id l.running h.running_distinct, h.apart x, k);
  numbered_sound = λ x k. elim (Bool-cases (eqb_ℤ x id)) [
    | inl p ↦
        (let same = eqb_ℤ-eq x id p in
          let bad = sym (h.apart x k) ∙ ap (λ y. has_id y l.running) same ∙ e in
          absurd (let b : false ≡ true = bad in cc b))
    | inr p ↦ rw p (h.numbered_sound x k)
  ];
  running_sound = λ x k. elim (Bool-cases (eqb_ℤ x id)) [
    | inl p ↦ absurd (let b = rw (has-without x id l.running h.running_distinct, p) at k in cc b)
    | inr p ↦ rw p (
        h.running_sound x (
          still_in (eqb_ℤ x id) (has_id x l.running) _
            (has-without x id l.running h.running_distinct) k))
  ];
  sessions_running = λ x. elim (Bool-cases (eqb_ℤ x id)) [
    | inl p ↦
        h.sessions_running x
        ∙ rw (has-without x id l.running h.running_distinct, p, eqb_ℤ-eq x id p, e) refl
    | inr p ↦ h.sessions_running x ∙ rw (has-without x id l.running h.running_distinct, p) refl
  ];
}

nameless : (r : Option ClientSession) → is_some r ≡ false → name_of r ≡ none
nameless none h = refl
nameless (some s) h = cc

-- With fewer than 2 ^ 63 - 1 connections so far, whatever the turns of their tasks: no two connections have
-- the same number, and exactly the connections whose commands run, and those whose task panicked, have a
-- session.
pub Lives-IsOrderly : (n : ℕ) (l : Life) → suc n < 2 ^ 63 → Lives n l → IsOrderly n l
unfolding find_session
Lives-IsOrderly n l room nobody = record {
  counted = refl;
  numbered_up_to = tt;
  running_up_to = tt;
  numbered_distinct = tt;
  running_distinct = tt;
  panicked_up_to = tt;
  panicked_distinct = tt;
  apart = λ x e. refl;
  numbered_sound = λ x e. refl;
  running_sound = λ x e. refl;
  sessions_running = λ x. refl;
}
Lives-IsOrderly n l room (accepted {n = m} {l = k} h) =
    number-IsOrderly m k room (Lives-IsOrderly m k (omega arith) h)
Lives-IsOrderly n l room (registered {l = k} id e h) =
    register-IsOrderly n k id e (Lives-IsOrderly n k room h)
Lives-IsOrderly n l room (renamed {l = k} id name e h) =
    rename-IsOrderly n k id name (Lives-IsOrderly n k room h)
Lives-IsOrderly n l room (unregistered {l = k} id e h) =
    unregister-IsOrderly n k id e (Lives-IsOrderly n k room h)
Lives-IsOrderly n l room (panics {l = k} id e h) =
    panic-IsOrderly n k id e (Lives-IsOrderly n k room h)

-- A client whose commands run can give itself a name, again and again: SETNAME finds its session, and
-- GETNAME then has the name, while the names of the other clients stay as they were. A client whose commands
-- do not run and whose task did not panic has no name. There were fewer than 2 ^ 63 - 1 connections so far.
pub get_name-set_name :
    (n : ℕ) (l : Life) (id : ℤ) (name : Bytes)
    → suc n < 2 ^ 63
    → Lives n l
    → has_id id l.running ≡ true
    → ((set_name id name l.sessions).0 ≡ true)
      × ((j : ℤ)
          → get_name j (set_name id name l.sessions).1
            ≡ (if eqb_ℤ j id then some name else get_name j l.sessions))
      × ((j : ℤ)
          → has_id j l.running ≡ false
          → has_id j l.panicked ≡ false
          → get_name j l.sessions ≡ none)
unfolding set_name get_name
get_name-set_name n l id name room h e =
    let orderly = Lives-IsOrderly n l room h in
    let there = orderly.sessions_running id ∙ rw e refl in
    (
      there,
      (λ j. get-rename j id name l.sessions there),
      (λ j k q. nameless (find_session j l.sessions) (orderly.sessions_running j ∙ rw (k, q) refl)),
    )
