-- ===== src/Logger/Tests.antt =====
-- Three records for a channel of one place, with a write that fails at the end.
use honey_mind.Base.{
  length, List, [], ◌∷◌, ◌++◌, some, none, true, false, refl, ltb, ℕ, ◌+◌, ◌≤◌, ◌<◌, ◌≡◌, Bool,
  Option, arith,
}
use honey_mind.Config.Address.{SocketAddr, v4}
use honey_mind.Config.Schema.{default_config, new_endpoint, raw}
use honey_mind.Logger.{Channel, Logging, SendResult, sent, full, closed}
use honey_mind.Logger.Events.{Event, logs, writes, run, accounted, waiting, accepted}
use honey_mind.Logger.Account
use honey_mind.Metrics.{new_metrics}
use honey_mind.Session.Bounds.{Unless}
use honey_mind.Session.State.{SessionRecord, finalize, new_session, client_closed}

-- A channel: its records, its capacity, and whether it is closed.
pub record Pipe : Type 0 where
  pub records : List SessionRecord
  pub most : ℕ
  pub shut : Bool

abbrev send : Pipe → SessionRecord → Bool → Bool → SendResult Pipe
send q r true room = closed
send q r false true = sent (record q { records = q.records ++ r ∷ [] })
send q r false false = full

abbrev receive : List SessionRecord → Pipe → Option (SessionRecord × Pipe)
receive [] q = none
receive (r ∷ rs) q = some (r, record q { records = rs })

pub send_sent :
    (q q' : Pipe) (r : SessionRecord)
    → send q r q.shut (ltb (length q.records) q.most) ≡ sent q'
    → (q'.records ≡ q.records ++ r ∷ [])
      × (q'.most ≡ q.most)
      × (length q.records < q.most)
      × (q.shut ≡ false)
      × (q'.shut ≡ false)
send_sent q q' r e = go q.shut (ltb (length q.records) q.most) refl refl e
  where
    go :
        (b room : Bool)
        → q.shut ≡ b
        → ltb (length q.records) q.most ≡ room
        → send q r b room ≡ sent q'
        → (q'.records ≡ q.records ++ r ∷ [])
          × (q'.most ≡ q.most)
          × (length q.records < q.most)
          × (q.shut ≡ false)
          × (q'.shut ≡ false)
    go true room s m k = absurd (ground arith)
    go false false s m k = absurd (ground arith)
    go false true s m k = ground arith

pub recv_some :
    (q q' : Pipe) (r : SessionRecord)
    → receive q.records q ≡ some (r, q')
    → (q.records ≡ r ∷ q'.records) × (q'.most ≡ q.most) × (q'.shut ≡ q.shut)
recv_some q q' r e = go q.records refl e
  where
    go :
        (rs : List SessionRecord)
        → q.records ≡ rs
        → receive rs q ≡ some (r, q')
        → (q.records ≡ r ∷ q'.records) × (q'.most ≡ q.most) × (q'.shut ≡ q.shut)
    go [] s k = absurd (ground arith)
    go (x ∷ rs) s k = ground arith

abbrev pub pipe : Channel Pipe
pipe = record {
  content = λ q. q.records;
  capacity = λ q. q.most;
  is_closed = λ q. q.shut;
  try_send = λ q r. send q r q.shut (ltb (length q.records) q.most);
  recv = λ q. receive q.records q;
  close = λ q. record q { shut = true };
  send_sent = send_sent;
  recv_some = recv_some;
  close_content = λ q. (refl, refl, refl);
}

abbrev address : SocketAddr
address = record { ip = v4 0x7f000001; port = 4000 }

abbrev pub closed_session : SessionRecord
closed_session =
    finalize (λ bytes. bytes)
      (new_session (new_endpoint address raw) address address default_config 1 10 20) client_closed
      30

abbrev pub new_log : Logging Pipe
new_log = record {
  queue = record { records = []; most = 1; shut = false };
  metrics = new_metrics;
  output = [];
  failed = false;
}

abbrev events : List Event
events =
    logs closed_session
    ∷ logs closed_session
    ∷ writes true
    ∷ logs closed_session
    ∷ writes false
    ∷ []

pub new_log-Spawned : Account.Spawned pipe 1 new_log
new_log-Spawned = record {
  running = refl;
  opened = refl;
  empty = refl;
  capacity = refl;
  nothing_written = refl;
  nothing_counted = refl;
}

run-Spawned_example :
    (accounted (run pipe new_log events).metrics + waiting pipe (run pipe new_log events) ≡ 3)
    × (length (run pipe new_log events).queue.records ≤ 1)
    × Unless (run pipe new_log events).failed (
        (run pipe new_log events).output ++ (run pipe new_log events).queue.records
        ≡ accepted pipe new_log events)
run-Spawned_example = Account.run-Spawned pipe 1 new_log events new_log-Spawned
