-- ===== src/Auth/Request.antt =====
-- `AuthRequest::parse` of auth.rs. A `Password` is its text: the scrubbing of memory on drop is not
-- modelled.
use ssh_bench.Common.{Bool, not, Bytes, Option, none, some, ◌==◌, bytes_eq, if◌then◌else◌}
use ssh_bench.Msg
use ssh_bench.Error.{Result, ok, err, protocol}
use ssh_bench.Wire.Reader.{Read, pure, fail, ◌>>=◌, u8, boolean, string, utf8}
use ssh_bench.Wire.Reader
use ssh_bench.Auth.Messages.{method_none, method_password, method_publickey}

pub data Method : Type 0 where
  none_method : Method
  password : Bytes → Method
  publickey : (key_algo key_blob : Bytes) → (signature : Option Bytes) → Method
  unknown : Bytes → Method

pub record AuthRequest : Type 0 where
  pub user : Bytes
  pub service : Bytes
  pub method : Method

unfoldable pub read_signature : Bool → Read (Option Bytes)
read_signature has_sig = if has_sig then (do s ← string; pure (some s)) else pure none

unfoldable pub read_password : Read Method
read_password = do _ ← boolean; p ← utf8; pure (password p)

unfoldable pub read_publickey : Read Method
read_publickey = do
  has_sig ← boolean
  key_algo ← utf8
  key_blob ← string
  signature ← read_signature has_sig
  pure (publickey key_algo key_blob signature)

unfoldable pub read_method : Bytes → Read Method
read_method name =
    if bytes_eq name method_none
    then pure none_method
    else if bytes_eq name method_password
    then read_password
    else if bytes_eq name method_publickey
    then read_publickey
    else pure (unknown name)

unfoldable pub read_fields : Read AuthRequest
read_fields = do
  user ← utf8
  service ← utf8
  name ← utf8
  method ← read_method name
  pure (record { user = user; service = service; method = method })

unfoldable pub read_request : Read AuthRequest
unfolding read_fields read_method read_publickey read_password read_signature
read_request = do
  id ← u8
  if not (id == Msg.userauth_request)
      then fail (protocol "expected USERAUTH_REQUEST")
      else read_fields

unfoldable pub parse : Bytes → Result AuthRequest
parse payload = elim (read_request (Reader.new payload)) [ ok (q, r) ↦ ok q | err e ↦ err e ]
