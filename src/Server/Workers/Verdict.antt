-- ===== src/Server/Workers/Verdict.antt =====
-- The server's result, by the ends of its workers.
use honey_mind.Base.{
  all, is_some, is_ok, Result, ok, err, ◌≡◌, refl, Bool, true, false, not, ◌&&◌, Option, none, some,
  List, [], ◌∷◌, ◌++◌, ◌∙◌, arith, ap,
}
use honey_mind.Server.Workers.{
  TaskEnd, completed, join_failed, ServerError, Wake, Shared, supervise_workers, join_all,
  failure_of, verdict, worker_error, worker_first, join_error, shutdown_first, first_failure,
}

module _ {E : Type 0} where
  abbrev pub is_fine : TaskEnd E → Bool
  is_fine (completed (ok u)) = true
  is_fine (completed (err e)) = false
  is_fine join_failed = false

  abbrev pub is_shutdown : Wake E → Bool
  is_shutdown shutdown_first = true
  is_shutdown (worker_first r) = false

  abbrev pub error_of : Result (Unit {0}) (ServerError E) → Option (ServerError E)
  error_of (ok u) = none
  error_of (err e) = some e

  -- All the errors there are, in the order in which the server learns of them.
  unfoldable pub faults : List (TaskEnd E) → List (ServerError E)
  faults [] = []
  faults (completed (ok u) ∷ ts) = faults ts
  faults (completed (err e) ∷ ts) = worker_error e ∷ faults ts
  faults (join_failed ∷ ts) = join_error ∷ faults ts

  abbrev pub of_wake : Option (ServerError E) → List (ServerError E)
  of_wake none = []
  of_wake (some e) = e ∷ []

  abbrev pub head : List (ServerError E) → Option (ServerError E)
  head [] = none
  head (e ∷ es) = some e

  join_all-head :
      (failure : Option (ServerError E)) (ts : List (TaskEnd E))
      → join_all failure ts ≡ head (of_wake failure ++ faults ts)
  unfolding join_all faults
  join_all-head none [] = refl
  join_all-head (some e) [] = refl
  join_all-head none (completed (ok u) ∷ ts) = join_all-head none ts
  join_all-head none (completed (err x) ∷ ts) = join_all-head (some (worker_error x)) ts
  join_all-head none (join_failed ∷ ts) = join_all-head (some join_error) ts
  join_all-head (some e) (completed (ok u) ∷ ts) = join_all-head (some e) ts
  join_all-head (some e) (completed (err x) ∷ ts) = join_all-head (some e) ts
  join_all-head (some e) (join_failed ∷ ts) = join_all-head (some e) ts

  faults-is_fine : (ts : List (TaskEnd E)) → is_some (head (faults ts)) ≡ not (all is_fine ts)
  unfolding faults
  faults-is_fine [] = refl
  faults-is_fine (completed (ok u) ∷ ts) = faults-is_fine ts
  faults-is_fine (completed (err x) ∷ ts) = refl
  faults-is_fine (join_failed ∷ ts) = refl

  error_of-verdict : (r : Option (ServerError E)) → error_of (verdict r) ≡ r
  error_of-verdict none = refl
  error_of-verdict (some e) = refl

  is_ok-verdict : (r : Option (ServerError E)) → is_ok (verdict r) ≡ not (is_some r)
  is_ok-verdict none = refl
  is_ok-verdict (some e) = refl

  join_all-is_fine :
      (wake : Wake E) (ts : List (TaskEnd E))
      → not (is_some (join_all (failure_of wake) ts)) ≡ (is_shutdown wake && all is_fine ts)
  join_all-is_fine shutdown_first ts = ground (arith, join_all-head none ts, faults-is_fine ts)
  join_all-is_fine (worker_first r) ts =
      ap (λ t. not (is_some t)) (join_all-head (some (first_failure r)) ts)

  -- Whatever ends the wait of the server, and however its workers end, the server is not ready any
  -- more and its token is cancelled; it returns the first error in the order of the ends, where a
  -- worker that ends before the token is cancelled is an error even if it returned none; and so it
  -- returns no error exactly if the token came first and every worker returned none.
  pub supervise_workers_lem :
      (s : Shared) (wake : Wake E) (rest : List (TaskEnd E))
      → ((supervise_workers s wake rest).0.metrics.ready ≡ 0)
        × ((supervise_workers s wake rest).0.cancelled ≡ true)
        × (error_of (supervise_workers s wake rest).1
            ≡ head (of_wake (failure_of wake) ++ faults rest))
        × (is_ok (supervise_workers s wake rest).1 ≡ (is_shutdown wake && all is_fine rest))
  unfolding supervise_workers
  supervise_workers_lem s wake rest = (
    refl,
    refl,
    error_of-verdict (join_all (failure_of wake) rest) ∙ join_all-head (failure_of wake) rest,
    is_ok-verdict (join_all (failure_of wake) rest) ∙ join_all-is_fine wake rest,
  )
