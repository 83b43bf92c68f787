-- ===== src/Server/Commands/Hello.antt =====
-- nimbis/src/cmd/cmd_hello.rs: HELLO, with the versions 2 and 3 of the protocol.
use nimbis.Prelude.{Bytes, List, [], ◌∷◌, ◌==◌, codes, if◌then◌else◌, Result, ok, err}
use nimbis.Prelude.Int.{ℤ, pos, negsuc}
use nimbis.Resp.Types.{RespValue, RespEntries, no_values, no_entries, value}
use nimbis.Storage.Database.{Db}
use nimbis.Server.Platform.{Texts, is_text}
use nimbis.Server.Commands.{Cmd, give, reply_error}
use nimbis.Resp.Types.{insert_entry}

abbrev pub not_supported : Bytes
not_supported = codes "NOPROTO unsupported protocol version. Use 2 or 3"

-- The texts `2` and `3` are UTF-8.
unfoldable pub parse_proto : List Bytes → Result RespValue ℤ
parse_proto [] = ok (pos 2)
parse_proto (a ∷ []) =
    if is_text a (codes "2")
    then ok (pos 2)
    else if is_text a (codes "3")
    then ok (pos 3)
    else err (reply_error not_supported)
parse_proto (a ∷ b ∷ more) =
    err (reply_error (codes "ERR HELLO expects at most one argument (protocol version)"))

abbrev pub bulk : Bytes → RespValue
bulk s = RespValue.bulk_string s

abbrev pub with_field : Bytes → RespValue → RespEntries → RespEntries
with_field name v es = insert_entry es (bulk name) v

module _ ⦃t : Texts⦄ (proto : ℤ) (client_id : ℤ) where
  unfoldable pub resp2_hello : RespValue
  resp2_hello = RespValue.array (
      value (bulk (codes "server")) (
        value (bulk (codes "nimbis")) (
          value (bulk (codes "version")) (
            value (bulk t.package_version) (
              value (bulk (codes "proto")) (
                value (RespValue.integer proto) (
                  value (bulk (codes "id")) (
                    value (RespValue.integer client_id) (
                      value (bulk (codes "mode")) (
                        value (bulk (codes "standalone")) (
                          value (bulk (codes "role")) (
                            value (bulk (codes "master")) (
                              value (bulk (codes "modules"))
                                (value (RespValue.array no_values) no_values))))))))))))))

  unfoldable pub resp3_hello : RespValue
  unfolding insert_entry
  resp3_hello =
      let m1 = with_field (codes "server") (bulk (codes "nimbis")) no_entries in
      let m2 = with_field (codes "version") (bulk t.package_version) m1 in
      let m3 = with_field (codes "proto") (RespValue.integer proto) m2 in
      let m4 = with_field (codes "id") (RespValue.integer client_id) m3 in
      let m5 = with_field (codes "mode") (bulk (codes "standalone")) m4 in
      let m6 = with_field (codes "role") (bulk (codes "master")) m5 in
      RespValue.map (with_field (codes "modules") (RespValue.array no_values) m6)

abbrev pub hello_for : ⦃t : Texts⦄ → ℤ → Result RespValue ℤ → RespValue
hello_for client_id (err e) = e
hello_for client_id (ok (pos n)) =
    if n == 2 then resp2_hello (pos n) client_id else resp3_hello (pos n) client_id
hello_for client_id (ok (negsuc n)) = resp3_hello (negsuc n) client_id

module _ {D E : Type 0} {db : Db D E} ⦃t : Texts⦄ where
  unfoldable pub cmd_hello : Cmd db
  unfolding parse_proto resp2_hello resp3_hello
  cmd_hello = record {
    cmd_meta = record { name = codes "HELLO"; arity = negsuc 0 };
    do_cmd = λ args ctx. give (hello_for ctx.client_id (parse_proto args));
  }
