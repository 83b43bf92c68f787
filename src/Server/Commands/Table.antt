-- ===== src/Server/Commands/Table.antt =====
-- nimbis/src/cmd/table.rs: the table of the commands.
use nimbis.Prelude.{Bytes, List, [], ◌∷◌, codes, Option}
use nimbis.Resp.External.{External}
use nimbis.Storage.Database.{Db}
use nimbis.Storage.Zsets.{MapOrder}
use nimbis.Server.Platform.{Texts, DatabaseTexts}
use nimbis.Server.Config.{Support}
use nimbis.Server.Commands.{Cmd, find_cmd}
use nimbis.Server.Commands.Hello.{cmd_hello}
use nimbis.Server.Commands.Strings.{cmd_set, cmd_get, cmd_incr, cmd_decr, cmd_append}
use nimbis.Server.Commands.Keys.{cmd_ping, cmd_del, cmd_exists, cmd_expire, cmd_ttl, cmd_flushdb}
use nimbis.Server.Commands.Hashes.{cmd_hset, cmd_hdel, cmd_hget, cmd_hlen, cmd_hmget, cmd_hgetall}
use nimbis.Server.Commands.Lists.{cmd_lpush, cmd_rpush, cmd_lpop, cmd_rpop, cmd_llen, cmd_lrange}
use nimbis.Server.Commands.Sets.{cmd_sadd, cmd_smembers, cmd_sismember, cmd_srem, cmd_scard}
use nimbis.Server.Commands.Zsets.{cmd_zadd, cmd_zrange, cmd_zscore, cmd_zrem, cmd_zcard}
use nimbis.Server.Commands.Settings.{cmd_config}
use nimbis.Server.Commands.Client.{cmd_client}

module _ {D E : Type 0} {db : Db D E} ⦃t : Texts⦄ ⦃d : DatabaseTexts E⦄ ⦃x : External⦄
    ⦃o : MapOrder⦄ ⦃u : Support⦄ where
  -- `CmdTable::new`; no name comes twice.
  unfoldable pub cmd_table : List (Bytes × Cmd db)
  cmd_table =
      (codes "PING", cmd_ping)
      ∷ (codes "HELLO", cmd_hello)
      ∷ (codes "SET", cmd_set)
      ∷ (codes "GET", cmd_get)
      ∷ (codes "DEL", cmd_del)
      ∷ (codes "EXISTS", cmd_exists)
      ∷ (codes "INCR", cmd_incr)
      ∷ (codes "DECR", cmd_decr)
      ∷ (codes "APPEND", cmd_append)
      ∷ (codes "HSET", cmd_hset)
      ∷ (codes "HDEL", cmd_hdel)
      ∷ (codes "HGET", cmd_hget)
      ∷ (codes "HLEN", cmd_hlen)
      ∷ (codes "HMGET", cmd_hmget)
      ∷ (codes "HGETALL", cmd_hgetall)
      ∷ (codes "LPUSH", cmd_lpush)
      ∷ (codes "RPUSH", cmd_rpush)
      ∷ (codes "LPOP", cmd_lpop)
      ∷ (codes "ZADD", cmd_zadd)
      ∷ (codes "ZRANGE", cmd_zrange)
      ∷ (codes "ZSCORE", cmd_zscore)
      ∷ (codes "ZREM", cmd_zrem)
      ∷ (codes "ZCARD", cmd_zcard)
      ∷ (codes "LLEN", cmd_llen)
      ∷ (codes "LRANGE", cmd_lrange)
      ∷ (codes "RPOP", cmd_rpop)
      ∷ (codes "SADD", cmd_sadd)
      ∷ (codes "SMEMBERS", cmd_smembers)
      ∷ (codes "SISMEMBER", cmd_sismember)
      ∷ (codes "SREM", cmd_srem)
      ∷ (codes "SCARD", cmd_scard)
      ∷ (codes "EXPIRE", cmd_expire)
      ∷ (codes "TTL", cmd_ttl)
      ∷ (codes "CONFIG", cmd_config)
      ∷ (codes "CLIENT", cmd_client)
      ∷ (codes "FLUSHDB", cmd_flushdb)
      ∷ []

  unfoldable pub get_cmd : Bytes → Option (Cmd db)
  unfolding cmd_table
  get_cmd name = find_cmd name cmd_table
