-- ===== src/Server/Session/Tests.antt =====
-- A session of the Telnet decoy, from the connection to its record.
use honey_mind.Base.{Bytes, codes, List, [], ◌∷◌, arith, refl}
use honey_mind.Config.Validate.Tests.{two_decoys, two_decoys-validate}
use honey_mind.Metrics.{new_metrics}
use honey_mind.Protocols.Tests.{scripted, no_reason, address, decoy}
use honey_mind.Server.Session.{handle_session}
use honey_mind.Server.Session.Record.{Closes, handle_session-Closes}

abbrev login : List Bytes
login = codes "root\r\n" ∷ codes "1234\r\n" ∷ []

-- The bytes themselves stand for their hexadecimal form.
abbrev identity : Bytes → Bytes
identity bytes = bytes

handle_session-Closes_example : Closes identity two_decoys new_metrics (
    handle_session identity no_reason scripted 65537 decoy address address two_decoys 1 10 20 90
      login new_metrics)
handle_session-Closes_example =
    handle_session-Closes identity refl no_reason scripted 65537 decoy address address two_decoys 1
      10 20 90 login new_metrics two_decoys-validate (omega arith)
