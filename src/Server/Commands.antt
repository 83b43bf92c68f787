-- ===== src/Server/Commands.antt =====
-- nimbis/src/cmd/mod.rs and cmd/utils.rs: what a command is, the check of the number of its arguments, and
-- how a value of the protocol becomes a command. Below it the commands of the other files.
pub mod Strings
pub mod Keys
pub mod Hashes
pub mod Lists
pub mod Sets
pub mod Zsets
pub mod Client
pub mod Settings
pub mod Hello
pub mod Table
pub mod Bounds
use nimbis.Prelude.{
  ℕ, zero, suc, ◌+◌, ◌≡◌, Bool, true, false, not, ◌&&◌, ◌||◌, Bytes, List, [], ◌∷◌, ◌++◌, ◌==◌, ltb,
  codes, length, if◌then◌else◌, Option, none, some, Result, ok, err,
}
use nimbis.Prelude.Int.{ℤ, pos, negsuc}
use nimbis.Resp.Types.{RespValue, RespValues, no_values, value, as_bytes, as_array}
use nimbis.Resp.Utils.{is_utf8}
use nimbis.Storage.Database.{Db}
use nimbis.Storage.Engine.{World, Action, StorageError}
use nimbis.Storage.Lists.{to_i64}
use nimbis.Server.Platform.{Texts, DatabaseTexts, show_storage_error, is_text}
use nimbis.Server.Config.{ServerConfig}
use nimbis.Server.Sessions.{Sessions}

pub record CmdMeta : Type 0 where
  pub name : Bytes
  pub arity : ℤ

pub record CmdContext : Type 0 where
  pub client_id : ℤ

-- What the commands share: the storage, the sessions of `GCTX` and the configuration of `SERVER_CONF`.
pub record Shared {D E : Type 0} (db : Db D E) : Type 0 where
  pub storage : World db
  pub client_sessions : Sessions
  pub config : ServerConfig

-- A part of a command: what it gives and the state after it, or `none` for a panic: an index or a slice
-- out of range, or a vector that is asked to be too large.
abbrev pub Task : {D E : Type 0} → Db D E → Type 0 → Type 0
Task db A = Shared db → Option (A × Shared db)

pub record Cmd {D E : Type 0} (db : Db D E) : Type 0 where
  pub cmd_meta : CmdMeta
  pub do_cmd : List Bytes → CmdContext → Task db RespValue

abbrev pub wrong_number : ⦃t : Texts⦄ → Bytes → Bytes
wrong_number ⦃t⦄ name =
    codes "ERR wrong number of arguments for '" ++ (t.to_lowercase name ++ codes "' command")

abbrev pub unless_wrong : ⦃t : Texts⦄ → Bytes → Bool → Result Bytes (Unit {0})
unless_wrong name true = err (wrong_number name)
unless_wrong name false = ok tt

-- An exact number if the arity is positive, the least number if it is negative, and any number if it is 0.
unfoldable pub validate_arity : ⦃t : Texts⦄ → CmdMeta → ℕ → Result Bytes (Unit {0})
validate_arity m arg_count = elim m.arity [
  | pos n ↦ unless_wrong m.name (ltb 0 n && not (arg_count == n))
  | negsuc n ↦ unless_wrong m.name (ltb arg_count (suc n))
]

module _ {D E : Type 0} {db : Db D E} where
  abbrev pub give : {A : Type 0} → A → Task db A
  give a s = some (a, s)

  infixl 5 ◌>>=◌ ◌>>◌
  abbrev pub ◌>>=◌ : {A B : Type 0} → Task db A → (A → Task db B) → Task db B
  ◌>>=◌ m f s = elim (m s) [ none ↦ none | some (a, s') ↦ f a s' ]

  abbrev pub ◌>>◌ : {A B : Type 0} → Task db A → Task db B → Task db B
  m >> k = m >>= λ _. k

  -- `args[i]`
  unfoldable pub arg : List Bytes → ℕ → Task db Bytes
  arg [] i s = none
  arg (a ∷ args) zero s = some (a, s)
  arg (a ∷ args) (suc i) s = arg args i s

  -- `args[1..]`
  unfoldable pub args_from_one : List Bytes → Task db (List Bytes)
  args_from_one [] s = none
  args_from_one (a ∷ args) s = some (args, s)

  -- An operation of the storage.
  abbrev pub on_storage : {A : Type 0} → Action db A → Task db (Result (StorageError E) A)
  on_storage m s = let (r, w) = m s.storage in some (r, record s { storage = w })

  abbrev pub read_shared : Task db (Shared db)
  read_shared s = some (s, s)

  abbrev pub write_shared : Shared db → Task db (Unit {0})
  write_shared s' s = some (tt, s')

-- The reply to the result of an operation: an error is its text.
abbrev pub reply_or_error :
    {A E : Type 0} ⦃t : Texts⦄ ⦃d : DatabaseTexts E⦄
    → (A → RespValue)
    → Result (StorageError E) A
    → RespValue
reply_or_error reply (ok a) = reply a
reply_or_error reply (err e) = RespValue.error (show_storage_error e)

-- `as i64` on a length.
abbrev pub reply_len : ℕ → RespValue
reply_len n = RespValue.integer (to_i64 n)

abbrev pub reply_ok : RespValue
reply_ok = RespValue.simple_string (codes "OK")

abbrev pub reply_count : ℕ → RespValue
reply_count n = RespValue.integer (pos n)

abbrev pub reply_bulk : Option Bytes → RespValue
reply_bulk none = RespValue.null
reply_bulk (some v) = RespValue.bulk_string v

abbrev pub bulk_values : List Bytes → RespValues
bulk_values [] = no_values
bulk_values (b ∷ bs) = value (RespValue.bulk_string b) (bulk_values bs)

abbrev pub reply_array : List Bytes → RespValue
reply_array bs = RespValue.array (bulk_values bs)

abbrev pub reply_error : Bytes → RespValue
reply_error e = RespValue.error e

abbrev pub not_an_integer : Bytes
not_an_integer = codes "ERR value is not an integer or out of range"

abbrev pub or_not_an_integer : {A : Type 0} → Option A → Result Bytes A
or_not_an_integer none = err not_an_integer
or_not_an_integer (some a) = ok a

-- `utils::parse_int`, with `str::parse` of the type that is asked for.
unfoldable pub parse_int : {A : Type 0} → (Bytes → Option A) → Bytes → Result Bytes A
unfolding is_utf8
parse_int parse s = if is_utf8 s then or_not_an_integer (parse s) else err not_an_integer

module _ {D E : Type 0} {db : Db D E} where
  abbrev pub run_checked :
      ⦃t : Texts⦄ → Cmd db → List Bytes → CmdContext → Result Bytes (Unit {0}) → Task db RespValue
  run_checked c args ctx (ok _) = c.do_cmd args ctx
  run_checked c args ctx (err e) = give (reply_error e)

  -- `Cmd::execute`
  unfoldable pub execute : ⦃t : Texts⦄ → Cmd db → List Bytes → CmdContext → Task db RespValue
  unfolding validate_arity
  execute c args ctx = run_checked c args ctx (validate_arity c.cmd_meta (length args + 1))

-- The lookup in a `HashMap` from names to commands.
abbrev pub find_cmd : {D E : Type 0} {db : Db D E} → Bytes → List (Bytes × Cmd db) → Option (Cmd db)
find_cmd name [] = none
find_cmd name ((key, c) ∷ cs) = if is_text name key then some c else find_cmd name cs

pub record ParsedCmd : Type 0 where
  pub name : Bytes
  pub args : List Bytes

-- `as_str`: the text of a string that is UTF-8.
unfoldable pub as_str : RespValue → Option Bytes
unfolding as_bytes is_utf8
as_str v = elim (as_bytes v) [ none ↦ none | some s ↦ if is_utf8 s then some s else none ]

-- The arguments, as `as_bytes` gives them.
unfoldable pub collect_args : RespValues → Result Bytes (List Bytes)
unfolding as_bytes
collect_args no_values = ok []
collect_args (value v vs) = elim (as_bytes v) [
  | none ↦ err (codes "Invalid argument")
  | some a ↦ elim (collect_args vs) [ err e ↦ err e | ok more ↦ ok (a ∷ more) ]
]

abbrev pub parsed_with : ⦃t : Texts⦄ → RespValues → Option Bytes → Result Bytes ParsedCmd
parsed_with vs none = err (codes "Invalid command type")
parsed_with ⦃t⦄ vs (some name) = elim (collect_args vs) [
  | err e ↦ err e
  | ok args ↦ ok (record { name = t.to_uppercase name; args = args })
]

abbrev pub from_values : ⦃t : Texts⦄ → Option RespValues → Result Bytes ParsedCmd
from_values none = err (codes "Expected array")
from_values (some no_values) = err (codes "Empty command")
from_values (some (value v vs)) = parsed_with vs (as_str v)

-- `ParsedCmd::try_from`
unfoldable pub try_from : ⦃t : Texts⦄ → RespValue → Result Bytes ParsedCmd
unfolding as_array as_str collect_args
try_from v = from_values (as_array v)
