-- ===== src/Tests/Logins.antt =====
-- The vault, logins and refreshes on concrete rings.
use mathlib.Core.Option.{some-injective}
use ripmcp.Base.{ℕ, zero, suc, Bool, true, false, ◌≡◌, refl, Option, none, some, List, [], ◌∷◌}
use ripmcp.Base.Error.{Error, ErrorKind, new, ok, err}
use ripmcp.Base.Text.{Text, codes}
use ripmcp.Auth.Callback.{Callback, Connection, wait}
use ripmcp.Auth.Query.{TextCrates}
use ripmcp.Auth.Callback.Genuine.{IsAnswered, wait-IsAnswered}
use ripmcp.Auth.Model.{Authorization, Credential, Profile, Saved, empty_saved}
use ripmcp.Auth.Provider.{Begins, Logins, Provider, Clears, finish_login}
use ripmcp.Auth.Provider.Login.{IsFinished, finish_login-IsFinished}
use ripmcp.Auth.Request.{Refreshes, refresh}
use ripmcp.Auth.Request.Spent.{IsRotated, refresh-IsRotated, refresh-exchange}
use ripmcp.Auth.Vault.{Call, Reads, Ring, SavedCodec, Writes, read, write}
use ripmcp.Auth.Vault.Epoch.{IsFaithful, IsWritten, read-write, write-IsWritten}
use ripmcp.Storage.Transaction.{Bytes}

abbrev encode : ℕ → Text → Option Credential → Option Text → Bool → Option Bytes
encode version generation none none false = some (version ∷ generation)
encode _ _ _ _ _ = none

abbrev decode : Bytes → Option Saved
decode [] = none
decode (version ∷ generation) = some (record {
  schema_version = version;
  generation = generation;
  credential = none;
  pending_scope = none;
  login_required = false;
})

-- Only records without a credential are written.
abbrev codec : SavedCodec
codec = record {
  to_vec = λ s. encode s.schema_version s.generation s.credential s.pending_scope s.login_required;
  from_bytes = decode;
}

decode-encode :
    (v : ℕ) (g : Text) (c : Option Credential) (p : Option Text) (l : Bool) (bytes : Bytes)
    → encode v g c p l ≡ some bytes
    → decode bytes
      ≡ some (record {
        schema_version = v;
        generation = g;
        credential = c;
        pending_scope = p;
        login_required = l;
      })
decode-encode v g none none false bytes h = rw⁻¹ (some-injective _ _ h) refl
decode-encode v g none none true bytes h = cc
decode-encode v g none (some p) l bytes h = cc
decode-encode v g (some c) p l bytes h = cc

codec-IsFaithful : IsFaithful codec
codec-IsFaithful = λ s bytes h.
    decode-encode s.schema_version s.generation s.credential s.pending_scope s.login_required bytes
      h

abbrev succeeds : Call
succeeds = record { result = ok tt; landed = false }

-- A call that is cancelled and takes effect later.
abbrev cancelled : Call
cancelled = record { result = err (new ErrorKind.cancelled "cancelled"); landed = true }

abbrev writes : Writes
writes = record {
  random = ok (codes "fresh");
  revoke = succeeds;
  store = succeeds;
  read_back = ok tt;
  publish = succeeds;
}

abbrev reads : Reads
reads = record { store = ok tt; epoch = ok tt }

abbrev generation : Text
generation = codes "0123456789012345678901234567890123456789012"

abbrev no_ring : Ring
no_ring = record { secret = none; epoch = none }

abbrev new_ring : Ring
new_ring = record { secret = some (1 ∷ generation); epoch = some generation }

write-IsWritten_example :
    IsWritten codec
      (record writes { store = cancelled })
      (empty_saved generation)
      no_ring
      (write codec (record writes { store = cancelled }) (empty_saved generation) no_ring)
write-IsWritten_example =
    write-IsWritten codec (record writes { store = cancelled }) (empty_saved generation) no_ring

written : write codec writes (empty_saved generation) no_ring ≡ (ok tt, new_ring)
unfolding write
written = refl

read-write_example :
    read codec (codes "https://a") reads new_ring ≡ (ok (some (empty_saved generation)), new_ring)
read-write_example =
    read-write codec (codes "https://a") writes reads (empty_saved generation) no_ring new_ring
      codec-IsFaithful refl refl refl (λ bytes h. rw⁻¹ (some-injective _ _ h) refl) written

abbrev server : Authorization
server = record {
  issuer = codes "https://i";
  authorization_endpoint = codes "https://i/a";
  token_endpoint = codes "https://i/t";
  registration_endpoint = none;
  code_challenge_methods_supported = none;
  response_types_supported = codes "code" ∷ [];
  grant_types_supported = none;
  token_endpoint_auth_methods_supported = none;
  client_id_metadata_document_supported = none;
  authorization_response_iss_parameter_supported = some true;
}

abbrev profile : Profile
profile = record { resource = codes "https://a"; authorization = server; scope = none }

abbrev credential : Credential
credential = record {
  endpoint = codes "https://a";
  resource = codes "https://a";
  issuer = codes "https://i";
  client_id = codes "c";
  token_endpoint = codes "https://i/t";
  access_token = codes "t";
  refresh_token = some (codes "r");
  expires_at = some 10;
  issued_at = 5;
  scope = none;
}

abbrev timeout : Error
timeout = new ErrorKind.timeout "timed out"

-- The exchange times out.
abbrev provider : Provider
provider = record {
  endpoint = codes "https://a";
  registration = none;
  discover = ok profile;
  register = λ p c. ok (codes "c");
  exchange = λ p fields. err timeout;
  codec = codec;
}

abbrev refreshes : Refreshes
refreshes = record {
  clears = record { random = ok generation; writes = writes };
  random = ok generation;
  writes = writes;
}

refresh-IsRotated_example :
    IsRotated provider refreshes credential profile new_ring
      (refresh provider refreshes credential profile new_ring)
refresh-IsRotated_example = refresh-IsRotated provider refreshes credential profile new_ring

-- The invalidation fails, as there are no random bytes.
abbrev no_random : Refreshes
no_random = record refreshes { clears = record { random = err timeout; writes = writes } }

refresh-exchange_example :
    refresh provider no_random credential profile new_ring
    ≡ refresh
        (record provider { exchange = λ p fields. ok credential })
        no_random
        credential
        profile
        new_ring
unfolding ripmcp.Auth.Provider.clear
refresh-exchange_example =
    refresh-exchange provider no_random (λ p fields. ok credential) credential profile new_ring
      timeout refl

abbrev logins : Logins
logins = record {
  begins = record {
    lock = ok tt;
    reads = reads;
    random_empty = ok generation;
    random = ok generation;
    writes = writes;
  };
  authorization_url = λ p client. ok (codes "https://i/a");
  recheck_open = ok tt;
  open_browser = ok tt;
  receive = λ p. ok (codes "code");
  recheck_code = ok tt;
  others = λ r. r;
  lock = ok tt;
  reads = reads;
  verifier = codes "v";
  redirect = codes "http://127.0.0.1:42813/oauth/callback";
  recheck_write = ok tt;
  random = ok generation;
  writes = writes;
}

finish_login-IsFinished_example :
    IsFinished provider logins
      (empty_saved generation)
      profile
      (codes "c")
      (codes "code")
      new_ring
      (finish_login provider logins
        (empty_saved generation)
        profile
        (codes "c")
        (codes "code")
        new_ring)
finish_login-IsFinished_example =
    finish_login-IsFinished provider logins (empty_saved generation) profile (codes "c")
      (codes "code") new_ring

abbrev crates : TextCrates
crates = record {
  decode = λ query.
      (codes "state", codes "s")
      ∷ (codes "iss", codes "https://i")
      ∷ (codes "code", codes "x")
      ∷ [];
  port = λ url. some (codes "42813");
  trim = λ text. elim text [ [] ↦ [] | ◌∷◌ c rest ↦ rest ];
}

abbrev callback : Callback
callback = record {
  redirect = codes "http://127.0.0.1:42813/oauth/callback";
  verifier = codes "v";
  state = codes "s";
}

abbrev connections : List Connection
connections =
    record { accepted = true; is_loopback = true; request = none }
    ∷ record {
      accepted = true;
      is_loopback = true;
      request = some (
          codes
            "GET /oauth/callback?state=s&iss=i&code=x HTTP/1.1\r\nHost: 127.0.0.1:42813\r\n\r\n");
    }
    ∷ []

gives_code : wait crates callback profile connections ≡ some (ok (codes "x"))
unfolding wait ripmcp.Auth.Scopes.split_space ripmcp.Auth.Query.split_colon
    ripmcp.Auth.Query.parameters ripmcp.Base.BTreeMap.get ripmcp.Base.BTreeMap.insert
gives_code = refl

wait-IsAnswered_example : IsAnswered crates callback profile (codes "x") connections
wait-IsAnswered_example = wait-IsAnswered crates callback profile (codes "x") connections gives_code
