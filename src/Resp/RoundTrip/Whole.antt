-- ===== src/Resp/RoundTrip/Whole.antt =====
-- Whole values and pipelines of values through `encode` (nimbis-resp/src/encode.rs) and `parse`
-- (nimbis-resp/src/parser.rs).
use nimbis.Prelude.{◌+◌, ◌≡◌, [], ◌++◌, arith, Bytes, length, some}
use nimbis.Resp.Types.{RespValue}
use nimbis.Resp.External.{External}
use nimbis.Resp.Encode.{encode}
use nimbis.Resp.Parser.{parse, complete}
use nimbis.Resp.RoundTrip.Wire.{wire, encode-wire}
use nimbis.Resp.RoundTrip.Encodable.{IsEncodable}
use nimbis.Resp.RoundTrip.Loop.{loop_root, cost-le-length}

module _ ⦃x : External⦄ where
  -- An encodable value, encoded in front of any further input, is parsed to that value by a fresh
  -- parser; the further input is left in the buffer, and the parser is fresh again.
  pub parse-encode :
      (v : RespValue) (rest : Bytes)
      → IsEncodable v
      → parse [] (encode v ++ rest) ≡ some (complete v, [], rest)
  unfolding parse
  parse-encode v rest h =
      rw (encode-wire v rest)
        (loop_root v (length (wire v rest) + 1) rest h (omega (arith, cost-le-length v rest)))

  -- The encoding is injective and prefix-free: if two encodable values, each encoded in front of
  -- further input, give the same bytes, then the values are equal and so is the further input.
  pub encode_prefix_free :
      (v w : RespValue) (r s : Bytes)
      → IsEncodable v
      → IsEncodable w
      → encode v ++ r ≡ encode w ++ s
      → (v ≡ w) × (r ≡ s)
  encode_prefix_free v w r s h k e = ground (arith, parse-encode v r h, parse-encode w s k, e)
