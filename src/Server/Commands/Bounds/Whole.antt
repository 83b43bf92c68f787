-- ===== src/Server/Commands/Bounds/Whole.antt =====
-- The indices of all commands of nimbis/src/cmd, those with subcommands included, are in range.
use nimbis.Prelude.{
  ℕ, ◌+◌, ◌≡◌, ◌≢◌, refl, Bytes, List, [], ◌∷◌, arith, Option, none, some, Result, ok, err,
}
use nimbis.Resp.External.{External}
use nimbis.Storage.Database.{Db}
use nimbis.Storage.Zsets.{MapOrder}
use nimbis.Storage.Engine.{StorageError}
use nimbis.Resp.Types.{RespValue}
use nimbis.Server.Platform.{Texts, DatabaseTexts}
use nimbis.Server.Config.{Support, ServerConfig}
use nimbis.Server.Commands.{Cmd, CmdContext, Shared, arg, Task, args_from_one, find_cmd}
use nimbis.Server.Commands.Hashes.{cmd_hset, set_pairs, pair_set}
use nimbis.Server.Commands.Hello.{cmd_hello}
use nimbis.Server.Commands.Client.{
  cmd_client, cmd_client_id, cmd_client_setname, cmd_client_getname, cmd_client_list,
  client_sub_cmds, run_client_sub,
}
use nimbis.Server.Commands.Settings.{
  cmd_config, cmd_config_get, cmd_config_set, config_sub_cmds, run_config_sub, store_config,
}
use nimbis.Server.Commands.Table.{cmd_table, get_cmd}
use nimbis.Server.Commands.Bounds.{
  IsSafe, IsSafeIf, AreSafe, NothingAsked, PopHasRoom, all_safe, ◌&◌, ◌&?◌, one_required,
  two_required, find_cmd-IsSafe, execute-IsSafe,
}
use nimbis.Server.Commands.Bounds.Simple
use nimbis.Server.Commands.Bounds.Collections
use nimbis.Server.Commands.Bounds.Scored

module _ {D E : Type 0} {db : Db D E} ⦃t : Texts⦄ ⦃d : DatabaseTexts E⦄ ⦃x : External⦄
    ⦃o : MapOrder⦄ ⦃u : Support⦄ where
  pair_runs :
      (next : ℕ → Task db RespValue) (n : ℕ)
      → ((m : ℕ) (s : Shared db) → next m s ≢ none)
      → (r : Result (StorageError E) ℕ) (s : Shared db) → pair_set next n r s ≢ none
  pair_runs next n h (ok c) s = h (n + c) s
  pair_runs next n h (err e) s = cc

  pairs_run :
      (key : Bytes) (pairs : List Bytes) (n : ℕ) (s : Shared db) → set_pairs key pairs n s ≢ none
  unfolding set_pairs
  pairs_run key [] n s = cc
  pairs_run key (f ∷ []) n s = cc
  pairs_run key (f ∷ v ∷ pairs) n s = pair_runs (set_pairs key pairs) n (pairs_run key pairs) _ _

  hset-IsSafe : IsSafe (cmd_hset {db = db})
  unfolding cmd_hset arg args_from_one
  hset-IsSafe [] ctx s h = absurd (omega arith)
  hset-IsSafe (a ∷ args) ctx s h = ground (arith, pairs_run a args 0 s)

  hello-IsSafe : IsSafe (cmd_hello {db = db})
  unfolding cmd_hello
  hello-IsSafe args ctx s h = cc

  client_sub-AreSafe : AreSafe {db = db} NothingAsked client_sub_cmds
  unfolding client_sub_cmds cmd_client_id cmd_client_setname cmd_client_getname cmd_client_list arg
  client_sub-AreSafe =
      (λ args ctx s h. cc)
      & (one_required cmd_client_setname refl (λ a args ctx s. cc))
      & (λ args ctx s h. cc)
      & (λ args ctx s h. cc)
      & all_safe

  client_sub_runs :
      (name a : Bytes) (args : List Bytes) (ctx : CmdContext) (s : Shared db)
      → (c : Option (Cmd db)) → find_cmd name client_sub_cmds ≡ c
      → run_client_sub name (a ∷ args) ctx c s ≢ none
  unfolding args_from_one
  client_sub_runs name a args ctx s none e = cc
  client_sub_runs name a args ctx s (some c) e =
      execute-IsSafe c (NothingAsked name) args ctx s
        (find_cmd-IsSafe NothingAsked name client_sub_cmds c client_sub-AreSafe e) tt

  client-IsSafe : IsSafe (cmd_client {db = db})
  unfolding cmd_client arg
  client-IsSafe =
      one_required cmd_client refl
        λ a args ctx s. client_sub_runs (t.to_uppercase (t.from_utf8_lossy a)) a args ctx s _ refl

  stored_runs : (r : Result Bytes ServerConfig) (s : Shared db) → store_config r s ≢ none
  stored_runs (ok c) s = cc
  stored_runs (err e) s = cc

  config_sub-AreSafe : AreSafe {db = db} NothingAsked config_sub_cmds
  unfolding config_sub_cmds cmd_config_get cmd_config_set arg
  config_sub-AreSafe =
      (one_required cmd_config_get refl (λ a args ctx s. cc))
      & (two_required cmd_config_set refl (λ a b args ctx s. stored_runs _ s))
      & all_safe

  config_sub_runs :
      (name a : Bytes) (args : List Bytes) (ctx : CmdContext) (s : Shared db)
      → (c : Option (Cmd db)) → find_cmd name config_sub_cmds ≡ c
      → run_config_sub name (a ∷ args) ctx c s ≢ none
  unfolding args_from_one
  config_sub_runs name a args ctx s none e = cc
  config_sub_runs name a args ctx s (some c) e =
      execute-IsSafe c (NothingAsked name) args ctx s
        (find_cmd-IsSafe NothingAsked name config_sub_cmds c config_sub-AreSafe e) tt

  config-IsSafe : IsSafe (cmd_config {db = db})
  unfolding cmd_config
  config-IsSafe [] ctx s h = cc
  config-IsSafe (a ∷ args) ctx s h =
      config_sub_runs (t.to_uppercase (t.from_utf8_lossy a)) a args ctx s _ refl

  table-AreSafe : AreSafe {db = db} PopHasRoom cmd_table
  unfolding cmd_table
  table-AreSafe =
      Simple.ping-IsSafe & hello-IsSafe & Simple.set-IsSafe & Simple.get-IsSafe & Simple.del-IsSafe
      & Simple.exists-IsSafe & Simple.incr-IsSafe & Simple.decr-IsSafe & Simple.append-IsSafe
      & hset-IsSafe & Collections.hdel-IsSafe & Collections.hget-IsSafe & Collections.hlen-IsSafe
      & Collections.hmget-IsSafe & Collections.hgetall-IsSafe & Collections.lpush-IsSafe
      & Collections.rpush-IsSafe & Collections.lpop-IsSafe &? Scored.zadd-IsSafe
      & Scored.zrange-IsSafe & Scored.zscore-IsSafe & Scored.zrem-IsSafe & Scored.zcard-IsSafe
      & Collections.llen-IsSafe & Collections.lrange-IsSafe & Collections.rpop-IsSafe
      &? Simple.sadd-IsSafe & Simple.smembers-IsSafe & Simple.sismember-IsSafe & Simple.srem-IsSafe
      & Simple.scard-IsSafe & Simple.expire-IsSafe & Simple.ttl-IsSafe & config-IsSafe
      & client-IsSafe & Simple.flushdb-IsSafe & all_safe

  -- Every command of the table returns, for arguments of a number that its arity admits, LPOP and RPOP if
  -- there is room for as many elements as they are asked for.
  pub get_cmd-IsSafe :
      (name : Bytes) (c : Cmd db) → get_cmd name ≡ some c → IsSafeIf (PopHasRoom name) c
  unfolding get_cmd
  get_cmd-IsSafe name c e = find_cmd-IsSafe PopHasRoom name cmd_table c table-AreSafe e
