-- ===== src/Server/Sessions.antt =====
-- nimbis/src/client.rs, `ClientSessions` and the numbers of the clients, and server.rs, the life of a
-- connection: a session is registered before its commands run, and unregistered behind them.
pub mod Laws
pub mod Lives
use nimbis.Prelude.{
  ℕ, suc, ◌+◌, ◌≡◌, Bool, true, false, Bytes, List, [], ◌∷◌, if◌then◌else◌, Option, none, some,
}
use nimbis.Prelude.Int.{ℤ, pos, eqb_ℤ, ltb_ℤ, ◌+ℤ◌}
use nimbis.Storage.Lists.{to_i64, to_u64}

pub record ClientSession : Type 0 where
  pub id : ℤ
  pub name : Option Bytes

-- `NEXT_CLIENT_SESSION_ID.fetch_add(1)`: the number, and the counter after it with the wrap-around of i64.
unfoldable pub next_client_session_id : ℤ → ℤ × ℤ
unfolding ◌+ℤ◌
next_client_session_id counter = (counter, to_i64 (to_u64 (counter +ℤ pos 1)))

-- The map of the sessions, in the order of iteration.
abbrev pub Sessions : Type 0
Sessions = List ClientSession

unfoldable pub find_session : ℤ → Sessions → Option ClientSession
find_session client_id [] = none
find_session client_id (s ∷ ss) = if eqb_ℤ client_id s.id then some s else find_session client_id ss

abbrev pub insert_if_vacant : ℤ → Sessions → Option ClientSession → Sessions
insert_if_vacant client_id ss none = (record { id = client_id; name = none }) ∷ ss
insert_if_vacant client_id ss (some s) = ss

unfoldable pub register : ℤ → Sessions → Sessions
unfolding find_session
register client_id ss = insert_if_vacant client_id ss (find_session client_id ss)

unfoldable pub unregister : ℤ → Sessions → Sessions
unregister client_id [] = []
unregister client_id (s ∷ ss) =
    let rest = unregister client_id ss in if eqb_ℤ client_id s.id then rest else s ∷ rest

unfoldable pub rename : ℤ → Bytes → Sessions → Sessions
rename client_id name [] = []
rename client_id name (s ∷ ss) =
    let rest = rename client_id name ss in
    if eqb_ℤ client_id s.id then (record s { name = some name }) ∷ ss else s ∷ rest

abbrev pub is_some : {A : Type 0} → Option A → Bool
is_some none = false
is_some (some a) = true

unfoldable pub set_name : ℤ → Bytes → Sessions → Bool × Sessions
unfolding find_session rename
set_name client_id name ss = (is_some (find_session client_id ss), rename client_id name ss)

abbrev pub name_of : Option ClientSession → Option Bytes
name_of none = none
name_of (some s) = s.name

unfoldable pub get_name : ℤ → Sessions → Option Bytes
unfolding find_session
get_name client_id ss = name_of (find_session client_id ss)

-- `sort_by_key`, which keeps the order of equal numbers.
unfoldable pub insert_by_id : ClientSession → Sessions → Sessions
insert_by_id s [] = s ∷ []
insert_by_id s (t ∷ ts) =
    let rest = insert_by_id s ts in if ltb_ℤ t.id s.id then t ∷ rest else s ∷ t ∷ ts

unfoldable pub list : Sessions → Sessions
unfolding insert_by_id
list [] = []
list (s ∷ ss) = insert_by_id s (list ss)
