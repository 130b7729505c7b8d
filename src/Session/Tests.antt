-- ===== src/Session/Tests.antt =====
-- A session of the default configuration, and one that captures payloads.
use honey_mind.Base.{Bytes, codes, ◌≡◌, refl, false, some, List, [], ◌∷◌, arith}
use honey_mind.Config.Address.{SocketAddr, v4}
use honey_mind.Config.Schema.{
  EndpointConfig, Config, default_config, default_privacy, new_endpoint, full, telnet,
}
use honey_mind.Session.State.{
  SessionState, new_session, finalize, client_closed, telnet_login, ascii_preview,
}
use honey_mind.Session.Capture.{capture_of, record_all, finalize-record_all}
use honey_mind.Session.Privacy.{
  Action, receives, pushes, acts, finalize-AllAlike, cons, nil, payload, credentials,
}

abbrev address : SocketAddr
address = record { ip = v4 0x7f000001; port = 2323 }

abbrev decoy : EndpointConfig
decoy = new_endpoint address telnet

abbrev capturing : Config
capturing = record default_config { privacy = record default_privacy { mode = full } }

abbrev private_session : SessionState
private_session = new_session decoy address address default_config 1 10 20

abbrev full_session : SessionState
full_session = new_session decoy address address capturing 1 10 20

-- The bytes themselves stand for their hexadecimal form.
abbrev identity : Bytes → Bytes
identity bytes = bytes

abbrev one_login : List Action
one_login =
    receives (codes "root") ∷ pushes (telnet_login (codes "root") (some (codes "x")) false) ∷ []

abbrev other_login : List Action
other_login =
    receives (codes "user")
    ∷ pushes (telnet_login (codes "user") (some (codes "secret")) false)
    ∷ []

finalize-AllAlike_example :
    finalize identity (acts private_session one_login) client_closed 30
    ≡ finalize identity (acts private_session other_login) client_closed 30
unfolding new_session
finalize-AllAlike_example =
    finalize-AllAlike identity private_session one_login other_login client_closed 30 refl
      (cons (payload refl) (cons (credentials refl) nil))

finalize-record_all_example :
    capture_of
      (finalize identity (record_all full_session (codes "ab" ∷ codes "c" ∷ [])) client_closed 30)
    ≡ (ascii_preview (codes "abc"), 3, false)
unfolding new_session
finalize-record_all_example =
    finalize-record_all identity full_session (codes "ab" ∷ codes "c" ∷ []) client_closed 30 refl
      refl refl (omega arith)
