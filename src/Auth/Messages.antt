-- ===== src/Auth/Messages.antt =====
-- The constants and the message builders of auth.rs.
use ssh_bench.Common.{Bool, true, false, List, [], ◌∷◌, Bytes, Option, none, some}
use ssh_bench.Common.Text.{codes}
use ssh_bench.Msg
use ssh_bench.Wire.Writer.{◌▸◌, new, into_bytes, u8, boolean, string, name_list, Writer}

unfoldable pub service_userauth : Bytes
service_userauth = codes "ssh-userauth"

unfoldable pub service_connection : Bytes
service_connection = codes "ssh-connection"

unfoldable pub method_none : Bytes
method_none = codes "none"

unfoldable pub method_password : Bytes
method_password = codes "password"

unfoldable pub method_publickey : Bytes
method_publickey = codes "publickey"

unfoldable pub publickey_signed_data : Bytes → Bytes → Bytes → Bytes → Bytes → Bytes
publickey_signed_data session_id user service key_algo key_blob = into_bytes (
    new
    ▸ string session_id
    ▸ u8 Msg.userauth_request
    ▸ string user
    ▸ string service
    ▸ string method_publickey
    ▸ boolean true
    ▸ string key_algo
    ▸ string key_blob)

unfoldable pub service_request : Bytes → Bytes
service_request service = into_bytes (new ▸ u8 Msg.service_request ▸ string service)

unfoldable pub service_accept : Bytes → Bytes
service_accept service = into_bytes (new ▸ u8 Msg.service_accept ▸ string service)

unfoldable pub userauth_failure : List Bytes → Bool → Bytes
userauth_failure methods partial =
    into_bytes (new ▸ u8 Msg.userauth_failure ▸ name_list methods ▸ boolean partial)

unfoldable pub userauth_success : Bytes
userauth_success = Msg.userauth_success ∷ []

unfoldable pub userauth_banner : Bytes → Bytes
userauth_banner message = into_bytes (new ▸ u8 Msg.userauth_banner ▸ string message ▸ string [])

unfoldable pub userauth_pk_ok : Bytes → Bytes → Bytes
userauth_pk_ok key_algo key_blob =
    into_bytes (new ▸ u8 Msg.userauth_pk_ok ▸ string key_algo ▸ string key_blob)

unfoldable pub password_request : Bytes → Bytes → Bytes → Bytes
password_request user service password = into_bytes (
    new
    ▸ u8 Msg.userauth_request
    ▸ string user
    ▸ string service
    ▸ string method_password
    ▸ boolean false
    ▸ string password)

unfoldable pub none_request : Bytes → Bytes → Bytes
none_request user service =
    into_bytes (new ▸ u8 Msg.userauth_request ▸ string user ▸ string service ▸ string method_none)

abbrev pub is_some {ℓ} : {A : Type ℓ} → Option A → Bool
is_some none = false
is_some (some a) = true

abbrev pub string_if : Option Bytes → Writer → Writer
string_if none w = w
string_if (some s) w = w ▸ string s

unfoldable pub publickey_request : Bytes → Bytes → Bytes → Bytes → Option Bytes → Bytes
publickey_request user service key_algo key_blob signature = into_bytes (
    new
    ▸ u8 Msg.userauth_request
    ▸ string user
    ▸ string service
    ▸ string method_publickey
    ▸ boolean (is_some signature)
    ▸ string key_algo
    ▸ string key_blob
    ▸ string_if signature)
