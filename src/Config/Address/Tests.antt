-- ===== src/Config/Address/Tests.antt =====
-- Two binds of one port.
use honey_mind.Base.{◌≡◌, ◌≢◌, ◌↔◌, true}
use honey_mind.Config.Address.{SocketAddr, v4, v6, binds_conflict, canonical_ip}
use honey_mind.Config.Address.Conflict.{binds_conflict-covers, Shared}

abbrev wildcard : SocketAddr
wildcard = record { ip = v6 0; port = 80 }

abbrev loopback : SocketAddr
loopback = record { ip = v4 0x7f000001; port = 80 }

binds_conflict-covers_example : (binds_conflict wildcard loopback ≡ true) ↔ (
    (wildcard.port ≡ loopback.port)
    × (wildcard.port ≢ 0)
    × Shared (canonical_ip wildcard.ip) (canonical_ip loopback.ip))
binds_conflict-covers_example = binds_conflict-covers wildcard loopback
