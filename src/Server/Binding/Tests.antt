-- ===== src/Server/Binding/Tests.antt =====
-- Sockets that are numbered in the order they are bound, on a host where one port is taken.
use honey_mind.Base.{
  ◌==◌, ltb, if◌then◌else◌, ℕ, ◌+◌, ◌≡◌, Bool, false, not, ◌&&◌, ◌||◌, Option, none, some, arith,
  subst, true, codes, ok, refl, [], ◌∷◌,
}
use honey_mind.Config.Address.{SocketAddr, v4}
use honey_mind.Config.Validate.Tests.{two_decoys, sensor_config, sensor_config-validate, any_bind}
use honey_mind.Config.Schema.{EndpointConfig, new_endpoint, ssh, http}
use honey_mind.Server.Binding.{Network, BoundServer, bind, bind_loop}
use honey_mind.Server.Binding.Atomic.{IsAtomic, bind-IsAtomic}

pub record Sockets : Type 0 where
  pub next : ℕ
  pub opened : ℕ → Bool

abbrev pub socket_open : Sockets → ℕ → Bool
socket_open n k = ltb k n.next && n.opened k

abbrev pub one_more : Sockets → Sockets
one_more n = record { next = n.next + 1; opened = λ k. k == n.next || n.opened k }

abbrev pub socket_close : Sockets → ℕ → Sockets
socket_close n l = record n { opened = λ k. not (k == l) && n.opened k }

abbrev pub socket_bind : ℕ → Sockets → SocketAddr → Option (ℕ × Sockets)
socket_bind taken n a = if a.port == taken then none else some (n.next, one_more n)

abbrev pub New : Sockets → ℕ × Sockets → Type 0
New n (l, n') =
    (socket_open n l ≡ false) × ((k : ℕ) → socket_open n' k ≡ (k == l || socket_open n k))

next-New : (n : Sockets) → New n (n.next, one_more n)
next-New n = (ground arith, λ k. ground arith)

abbrev pub NewIfAny : Sockets → Option (ℕ × Sockets) → Type 0
NewIfAny n none = Unit {0}
NewIfAny n (some r) = New n r

taken-New :
    (n : Sockets) (is_taken : Bool)
    → NewIfAny n (if is_taken then none else some (n.next, one_more n))
taken-New n true = tt
taken-New n false = next-New n

pub socket_bind_lem :
    (taken : ℕ) (n n' : Sockets) (a : SocketAddr) (l : ℕ)
    → socket_bind taken n a ≡ some (l, n')
    → New n (l, n')
socket_bind_lem taken n n' a l e = subst (NewIfAny n) e (taken-New n (a.port == taken))

pub socket_close_lem :
    (n : Sockets) (l k : ℕ) → socket_open (socket_close n l) k ≡ (not (k == l) && socket_open n k)
socket_close_lem n l k = ground arith

abbrev pub sockets : ℕ → Network Sockets
sockets taken = record {
  is_open = socket_open;
  bind = socket_bind taken;
  local_addr = λ n l. some (record { ip = v4 0; port = 40000 + l });
  close = socket_close;
  bind_some = socket_bind_lem taken;
  close_lem = socket_close_lem;
}

abbrev pub no_sockets : Sockets
no_sockets = record { next = 3; opened = λ k. k == 1 }

bind-IsAtomic_example :
    IsAtomic (sockets 0) no_sockets two_decoys (bind (sockets 0) two_decoys no_sockets)
bind-IsAtomic_example = bind-IsAtomic (sockets 0) two_decoys no_sockets

abbrev pub bound_at : ℕ → EndpointConfig → ℕ × EndpointConfig
bound_at l ep = (l, record ep { bind = record { ip = v4 0; port = 40000 + l } })

abbrev pub sensor_server : BoundServer
sensor_server = record {
  endpoints =
      bound_at 3 (record (new_endpoint (any_bind 2222) ssh) { banner = some (codes "SSH-2.0-x") })
      ∷ bound_at 4 (record (new_endpoint (any_bind 8080) http) { http_status = some 404 })
      ∷ [];
  management = none;
}

pub sensor_server-bind :
    bind (sockets 0) sensor_config no_sockets ≡ (one_more (one_more no_sockets), ok sensor_server)
unfolding bind bind_loop
sensor_server-bind = rw sensor_config-validate refl
