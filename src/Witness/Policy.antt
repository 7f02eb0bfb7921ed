-- ===== src/Witness/Policy.antt =====
-- auth.rs, hostkey.rs and server.rs at concrete inputs: a key pair of one key, a transport that records what it
-- is told to send and hands out one packet, and a policy that lets everyone in.
use ssh_bench.Common.{
  ◌≡◌, refl, true, false, List, [], ◌∷◌, Bytes, Option, none, some, bytes_eq, take, drop, arith,
}
use ssh_bench.Common.Text.{codes, is_utf8}
use ssh_bench.Error.{ok}
use ssh_bench.Wire.BigEndian.{to_be, from_be_acc}
use ssh_bench.Wire.Reader
use ssh_bench.Wire.Writer
use ssh_bench.Action
use ssh_bench.Server.Pump
use ssh_bench.Auth.Messages.{
  method_none, password_request, publickey_request, none_request, service_connection,
}
use ssh_bench.Auth.Request.{password, publickey, parse, read_request, read_fields, read_method}
use ssh_bench.Auth.Keys.{Ed25519, IsEd25519, UserKeypair, UserPublicKey}
use ssh_bench.Auth.Keys
use ssh_bench.Auth.RoundTrip.{IsText, parse-password_request, parse-publickey_request}
use ssh_bench.Auth.Signing.{verify-sign_blob}
use ssh_bench.Witness.Primitives.{one_key, one_key-IsEd25519}
use ssh_bench.Server.Ports.{TransportPort, AuthPort, Ports, Event, packet}
use ssh_bench.Server.State.{ServerConnection}
use ssh_bench.Server.State
use ssh_bench.Server.Preauth
use ssh_bench.Server.Channels
use ssh_bench.Server.Authentication.{Admitted, handle_preauth_sound}
use ssh_bench.Server.ConnectionFrame.{SameAuth, handle_connection-SameAuth}
use ssh_bench.Server.Isolation.{
  Call, on_input, poll_event, perform_all, Untouched, no_connection_before_auth,
}
use ssh_bench.Connection.Channel
use ssh_bench.Connection.Messages
use ssh_bench.Hostkey
use ssh_bench.Hostkey.Signing.{verify-sign_exchange_hash}
use ssh_bench.Server.Attempts.{IsSteady, Capped, handle_all, exhaustion_reported}

abbrev keypair : UserKeypair one_key
keypair = record { signing = tt }

verify-sign_blob_example :
    (Keys.parse_blob one_key (Keys.blob one_key (Keys.public one_key keypair))
      ≡ ok (Keys.public one_key keypair))
    × (Keys.verify one_key
          (Keys.public one_key keypair)
          (1 ∷ 2 ∷ [])
          (Keys.sign_blob one_key keypair (1 ∷ 2 ∷ []))
        ≡ ok tt)
verify-sign_blob_example = verify-sign_blob one_key one_key-IsEd25519 keypair (1 ∷ 2 ∷ [])

abbrev host : Hostkey.HostKey one_key
host = record { signing = tt }

verify-sign_exchange_hash_example :
    (Hostkey.parse_blob one_key (Hostkey.key_blob one_key host) ≡ ok (Hostkey.public one_key host))
    × (Hostkey.verify one_key
          (Hostkey.public one_key host)
          (3 ∷ 4 ∷ [])
          (Hostkey.sign_exchange_hash one_key host (3 ∷ 4 ∷ []))
        ≡ ok tt)
verify-sign_exchange_hash_example =
    verify-sign_exchange_hash one_key one_key-IsEd25519 host (3 ∷ 4 ∷ [])

abbrev user : Bytes
user = codes "root"

user-IsText : IsText user
unfolding is_utf8
user-IsText = record { size = omega arith; encoded = refl }

service-IsText : IsText service_connection
unfolding is_utf8 service_connection
service-IsText = record { size = omega arith; encoded = refl }

parse-password_request_example :
    parse (password_request user service_connection user)
    ≡ ok (record { user = user; service = service_connection; method = password user })
parse-password_request_example =
    parse-password_request user service_connection user user-IsText service-IsText user-IsText

parse-publickey_request_example :
    parse (publickey_request user service_connection user (1 ∷ []) (some (2 ∷ [])))
    ≡ ok (record {
      user = user;
      service = service_connection;
      method = publickey user (1 ∷ []) (some (2 ∷ []));
    })
parse-publickey_request_example =
    parse-publickey_request user service_connection user (1 ∷ []) (some (2 ∷ [])) user-IsText
      service-IsText user-IsText (omega arith) (omega arith)

-- The packets sent, and the event to hand out.
abbrev recorder : TransportPort one_key
recorder = record {
  Transport = List Bytes × Option (Event one_key);
  receive = λ b t. (ok tt, (t.0, some (packet b)));
  poll_event = λ t. (t.1, (t.0, none));
  send_packet = λ p t. (ok tt, (p ∷ t.0, t.1));
  send_chaff_burst = λ t. (ok tt, t);
  disconnect = λ n d t. t;
  session_id = λ t. some [];
  max_chunk = λ t. none;
}

abbrev welcoming : AuthPort one_key
welcoming = record {
  Handler = Unit {0};
  banner = λ h. (none, h);
  allow_none = λ u h. (true, h);
  verify_password = λ u p h. (false, h);
  is_authorized_key = λ u k h. (true, h);
  methods = λ h. [];
  max_auth_attempts = λ h. 6;
  max_auth_requests = λ h. 50;
}

abbrev ports : Ports
ports = record { ed25519 = one_key; transport = recorder; auth = welcoming }

abbrev fresh : ServerConnection ports
fresh = State.new ports ([], none) tt

abbrev login : Bytes
login = none_request user service_connection

handle_preauth_sound_example : Admitted ports fresh login user
unfolding State.new Preauth.handle_preauth Preauth.handle_userauth Preauth.decide
    Preauth.finish_auth Preauth.ask none_request service_connection Writer.into_bytes Writer.string
    Writer.u32 Writer.u8 Writer.new Action.◌>>=◌ Action.◌>>◌ Action.modify Action.state Action.lift
    parse read_request read_fields read_method method_none Reader.u8 Reader.take Reader.new
    Reader.utf8 Reader.string Reader.u32 to_be from_be_acc take drop bytes_eq is_utf8 State.send
    State.call State.emit
handle_preauth_sound_example = handle_preauth_sound ports fresh login user refl refl

handle_connection-SameAuth_example :
    SameAuth ports fresh (Channels.handle_connection ports (96 ∷ []) fresh).1
handle_connection-SameAuth_example = handle_connection-SameAuth ports fresh (96 ∷ [])

abbrev calls : List Call
calls = on_input 3 (5 ∷ 0 ∷ []) ∷ poll_event ∷ []

no_connection_before_auth_example :
    Untouched ports (perform_all ports calls (State.new ports ([], none) tt))
unfolding State.new perform_all State.poll_event Pump.on_input Pump.pump Action.◌>>◌ Action.◌>>=◌
    State.call Action.state Action.lift Action.done Pump.is_some Preauth.handle_preauth
    Preauth.read_all Preauth.read_service Reader.u8 Reader.take Reader.new Reader.utf8 Reader.string
    Reader.u32 take drop from_be_acc
no_connection_before_auth_example = no_connection_before_auth ports ([], none) tt calls refl

abbrev open_server : ServerConnection ports
open_server = record (State.new ports ([], none) tt) {
  authenticated = some user;
  channel = some (Channel.new 0);
}

ports-IsSteady : IsSteady ports 6 50
ports-IsSteady = record { attempts_fixed = λ h. refl; requests_fixed = λ h. refl }

exhaustion_reported_example :
    Capped ports 6 50 (handle_all ports (login ∷ login ∷ []) (State.new ports ([], none) tt))
exhaustion_reported_example =
    exhaustion_reported ports 6 50 ([], none) tt (login ∷ login ∷ []) ports-IsSteady (omega arith)
