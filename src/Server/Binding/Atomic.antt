-- ===== src/Server/Binding/Atomic.antt =====
-- Binding is all or nothing.
use honey_mind.Config.Validate.{ConfigError, validate}
use honey_mind.Config.Address.{SocketAddr}
use honey_mind.Config.Schema.{EndpointConfig, Config}
use honey_mind.Base.{
  ℕ, ◌≡◌, refl, Bool, false, ◌&&◌, ◌||◌, Option, none, some, [], ◌∷◌, ◌++◌, arith, Result, ok, err,
  ap, List, map, append-nil, is_some, sym, ◌∙◌, true, append_assoc, if◌then◌else◌,
}
use honey_mind.Server.Binding.{
  Network, Bound, bind, BindError, bind_loop, after_address, after_bind, BoundServer,
  after_management, bind_management, bind_checked,
}
use honey_mind.Server.Binding.Opened.{
  holds, unbound, holds_management, served, served-append, close_all-is_open, Opened, closed_again,
  fresh_before, one_more,
}

module _ {N : Type 0} (net : Network N) where
  -- A loop that fails closes what it opened; one that succeeds has opened all.
  IsAllOrNone : N → List EndpointConfig → N × Result Bound BindError → Type 0
  IsAllOrNone n0 eps (n, err e) = (k : ℕ) → net.is_open n k ≡ net.is_open n0 k
  IsAllOrNone n0 eps (n, ok bound) =
      ((k : ℕ) → Opened net n0 n bound k) × (served bound ≡ map unbound eps)

  -- The loop's rest does so, from where the listeners so far are open.
  abbrev Goes :
      N
      → List EndpointConfig
      → List EndpointConfig
      → (N → Bound → N × Result Bound BindError)
      → Type 0
  Goes n0 every eps go =
      (n : N) (bound : Bound)
      → ((k : ℕ) → Opened net n0 n bound k)
      → served bound ++ map unbound eps ≡ map unbound every
      → IsAllOrNone n0 every (go n bound)

  module _ (n0 n : N) (every eps : List EndpointConfig) (ep : EndpointConfig) (bound : Bound)
      (go : N → Bound → N × Result Bound BindError) (goes : Goes n0 every eps go)
      (o : (k : ℕ) → Opened net n0 n bound k)
      (e : served bound ++ map unbound (ep ∷ eps) ≡ map unbound every) where
    after_address-IsAllOrNone :
        (n' : N) (l : ℕ)
        → net.bind n ep.bind ≡ some (l, n')
        → (r : Option SocketAddr) → IsAllOrNone n0 every (after_address net n' l ep bound go r)
    unfolding IsAllOrNone served
    after_address-IsAllOrNone n' l b none = λ k.
        let (fresh, opens) = net.bind_some n n' ep.bind l b in
        let before = fresh_before net n0 n bound l k fresh (o l) in
        ground (
          arith,
          close_all-is_open net (net.close n' l) bound k,
          net.close_lem n' l k,
          opens k,
          (o k).now_open,
          (o k).was_closed,
          before,
        )
    after_address-IsAllOrNone n' l b (some a) =
        let opened = record ep { bind = a } in
        goes n' (bound ++ (l, opened) ∷ []) (λ k. one_more net n0 n n' bound ep.bind l opened k b o)
          (ap (λ t. t ++ map unbound eps) (served-append bound ((l, opened) ∷ []))
            ∙ append_assoc (served bound) (unbound ep ∷ []) (map unbound eps)
            ∙ e)

    after_bind-IsAllOrNone :
        (r : Option (ℕ × N))
        → net.bind n ep.bind ≡ r
        → IsAllOrNone n0 every (after_bind net n ep bound go r)
    unfolding IsAllOrNone served
    after_bind-IsAllOrNone none b = λ k. closed_again net n0 n bound k (o k)
    after_bind-IsAllOrNone (some (l, n')) b = after_address-IsAllOrNone n' l b (net.local_addr n' l)

  bind_loop-IsAllOrNone :
      (n0 : N) (every eps : List EndpointConfig) → Goes n0 every eps (bind_loop net eps)
  unfolding bind_loop IsAllOrNone
  bind_loop-IsAllOrNone n0 every [] n bound o e = (o, sym (append-nil (served bound)) ∙ e)
  bind_loop-IsAllOrNone n0 every (ep ∷ eps) n bound o e =
      after_bind-IsAllOrNone n0 n every eps ep bound (bind_loop net eps)
        (bind_loop-IsAllOrNone n0 every eps) o e (net.bind n ep.bind) refl

  -- What a caller of `bind` can tell: no listener is left open by a failure, and on success the
  -- listeners of the configuration, and no others, are open.
  abbrev pub IsAtomic : N → Config → N × Result BoundServer BindError → Type 0
  IsAtomic n0 cfg (n, err e) = (k : ℕ) → net.is_open n k ≡ net.is_open n0 k
  IsAtomic n0 cfg (n, ok b) =
      (served b.endpoints ≡ map unbound cfg.endpoints)
      × (is_some b.management ≡ cfg.metrics.enabled)
      × ((k : ℕ)
          → (net.is_open n k
              ≡ (holds k b.endpoints || holds_management k b.management || net.is_open n0 k))
            × (((holds k b.endpoints || holds_management k b.management) && net.is_open n0 k)
                ≡ false))

  managed :
      (cfg : Config) (n0 n : N) (bound : Bound)
      → IsAllOrNone n0 cfg.endpoints (n, ok bound)
      → (r : Option (ℕ × N)) → net.bind n cfg.metrics.bind ≡ r
      → cfg.metrics.enabled ≡ true
      → IsAtomic n0 cfg (after_management net n cfg.metrics.bind bound r)
  unfolding IsAllOrNone
  managed cfg n0 n bound (o, e) none b on = λ k. closed_again net n0 n bound k (o k)
  managed cfg n0 n bound (o, e) (some (l, n')) b on =
      let (fresh, opens) = net.bind_some n n' cfg.metrics.bind l b in
      (
        e,
        sym on,
        λ k.
            let before = fresh_before net n0 n bound l k fresh (o l) in
            (ground (arith, opens k, (o k).now_open), ground (arith, (o k).was_closed, before)),
      )

  managed_if :
      (cfg : Config) (n0 n : N) (bound : Bound)
      → IsAllOrNone n0 cfg.endpoints (n, ok bound)
      → (enabled : Bool) → cfg.metrics.enabled ≡ enabled
      → IsAtomic n0 cfg (
          if enabled
          then after_management net n cfg.metrics.bind bound (net.bind n cfg.metrics.bind)
          else (n, ok (record { endpoints = bound; management = none })))
  unfolding IsAllOrNone
  managed_if cfg n0 n bound a true on =
      managed cfg n0 n bound a (net.bind n cfg.metrics.bind) refl on
  managed_if cfg n0 n bound a false off =
      (a.1, sym off, λ k. (ground (arith, (a.0 k).now_open), ground (arith, (a.0 k).was_closed)))

  managed_next :
      (cfg : Config) (n0 : N) (r : N × Result Bound BindError)
      → IsAllOrNone n0 cfg.endpoints r
      → IsAtomic n0 cfg (bind_management net cfg r)
  unfolding IsAllOrNone
  managed_next cfg n0 (n, err e) a = a
  managed_next cfg n0 (n, ok bound) a = managed_if cfg n0 n bound a cfg.metrics.enabled refl

  validated :
      (cfg : Config) (n n' : N) (b : BoundServer) (r : Result (Unit {0}) ConfigError)
      → bind_checked net cfg n r ≡ (n', ok b)
      → r ≡ ok tt
  validated cfg n n' b (ok u) h = refl
  validated cfg n n' b (err e) h = absurd (ground arith)

  pub bind-validate :
      (cfg : Config) (n n' : N) (b : BoundServer)
      → bind net cfg n ≡ (n', ok b)
      → validate cfg ≡ ok tt
  unfolding bind
  bind-validate cfg n n' b h = validated cfg n n' b (validate cfg) h

  checked :
      (cfg : Config) (n : N) (r : Result (Unit {0}) ConfigError)
      → IsAtomic n cfg (bind_checked net cfg n r)
  unfolding holds served
  checked cfg n (err e) = λ k. refl
  checked cfg n (ok u) = managed_next cfg n (bind_loop net cfg.endpoints n []) (
      bind_loop-IsAllOrNone n cfg.endpoints cfg.endpoints n []
        (λ k. record { now_open = refl; was_closed = refl }) refl)

  -- `bind` is all or nothing, for every configuration: when it fails, whichever listener failed,
  -- exactly the sockets that were open before are open; when it succeeds, it has one listener for
  -- every endpoint of the configuration, in their order and changed in nothing but the bind, a
  -- listener for the management exactly if that is enabled, and these listeners, none of which was
  -- open before, and the sockets that were open before are what is open.
  pub bind-IsAtomic : (cfg : Config) (n : N) → IsAtomic n cfg (bind net cfg n)
  unfolding bind
  bind-IsAtomic cfg n = checked cfg n (validate cfg)
