-- ===== src/Server/Binding/Opened.antt =====
-- The listeners that are open so far, of those that `bind` opens.
use honey_mind.Config.Address.{SocketAddr, v4}
use honey_mind.Config.Schema.{EndpointConfig}
use honey_mind.Base.{
  ◌==◌, ℕ, ◌≡◌, refl, Bool, false, not, ◌&&◌, ◌||◌, Option, none, some, [], ◌∷◌, ◌++◌, arith,
  Bool-cases, inl, inr, ==_iff, ap, List,
}
use honey_mind.Server.Binding.{Network, Bound, close_all}

-- The listeners of the endpoints.
unfoldable pub holds : ℕ → Bound → Bool
holds k [] = false
holds k ((l, ep) ∷ bound) = k == l || holds k bound

-- An endpoint but for its bind.
abbrev pub unbound : EndpointConfig → EndpointConfig
unbound ep = record ep { bind = record { ip = v4 0; port = 0 } }

abbrev pub holds_management : ℕ → Option ℕ → Bool
holds_management k none = false
holds_management k (some l) = k == l

-- The endpoints that have a listener, each but for its bind.
unfoldable pub served : Bound → List EndpointConfig
served [] = []
served ((l, ep) ∷ bound) = unbound ep ∷ served bound

pub served-append : (xs ys : Bound) → served (xs ++ ys) ≡ served xs ++ served ys
unfolding served
served-append [] ys = refl
served-append ((l, ep) ∷ xs) ys = ap (λ t. unbound ep ∷ t) (served-append xs ys)

holds-append : (k : ℕ) (xs ys : Bound) → holds k (xs ++ ys) ≡ (holds k xs || holds k ys)
unfolding holds
holds-append k [] ys = refl
holds-append k ((l, ep) ∷ xs) ys = ground (arith, holds-append k xs ys)

module _ {N : Type 0} (net : Network N) where
  pub close_all-is_open :
      (n : N) (bound : Bound) (k : ℕ)
      → net.is_open (close_all net n bound) k ≡ (not (holds k bound) && net.is_open n k)
  unfolding close_all holds
  close_all-is_open n [] k = refl
  close_all-is_open n ((l, ep) ∷ bound) k =
      ground (arith, close_all-is_open (net.close n l) bound k, net.close_lem n l k)

  -- The listeners so far are open, and were not before.
  pub record Opened (n0 n : N) (bound : Bound) (k : ℕ) : Type 0 where
    pub now_open : net.is_open n k ≡ (holds k bound || net.is_open n0 k)
    pub was_closed : (holds k bound && net.is_open n0 k) ≡ false

  pub closed_again :
      (n0 n : N) (bound : Bound) (k : ℕ)
      → Opened n0 n bound k
      → net.is_open (close_all net n bound) k ≡ net.is_open n0 k
  closed_again n0 n bound k o = ground (arith, close_all-is_open n bound k)

  -- A listener that is new was not open at the start.
  pub fresh_before :
      (n0 n : N) (bound : Bound) (l k : ℕ)
      → net.is_open n l ≡ false
      → Opened n0 n bound l
      → (k == l && net.is_open n0 k) ≡ false
  fresh_before n0 n bound l k fresh o = elim (Bool-cases (k == l)) [
    | inl e ↦ rw ((==_iff k l).0 e) (ground (arith, o.now_open))
    | inr e ↦ ground arith
  ]

  pub one_more :
      (n0 n n' : N) (bound : Bound) (a : SocketAddr) (l : ℕ) (ep : EndpointConfig) (k : ℕ)
      → net.bind n a ≡ some (l, n')
      → ((j : ℕ) → Opened n0 n bound j)
      → Opened n0 n' (bound ++ (l, ep) ∷ []) k
  unfolding holds
  one_more n0 n n' bound a l ep k e o =
      let (fresh, opens) = net.bind_some n n' a l e in
      let at_k = o k in
      let before = fresh_before n0 n bound l k fresh (o l) in
      let more = holds-append k bound ((l, ep) ∷ []) in
      record {
        now_open = ground (arith, opens k, at_k.now_open, more);
        was_closed = ground (arith, at_k.was_closed, before, more);
      }
