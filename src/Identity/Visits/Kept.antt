-- ===== src/Identity/Visits/Kept.antt =====
-- What holds before a request and of the state that it reaches holds when its transaction ends.
use printvendo_backend.Prelude.{
  Result, ok, err, Exec, pure, keep_if_ok, continue, Option, none, some,
}
use printvendo_backend.Identity.Models.{User, People}
use printvendo_backend.Identity.Visits.{on_user}

module _ (P : People → Type 0) where
  pub answered-keeps :
      {A : Type 0} (s : People) (r : Result A × People)
      → P s
      → P r.1
      → P (keep_if_ok s (continue r (λ _. pure tt))).1
  answered-keeps s (ok a, s') d d' = d'
  answered-keeps s (err e, s') d d' = d

  pub on_user-keeps :
      (o : Option User) (act : User → Exec People (Unit {0})) (s : People)
      → P s
      → ((user : User) → P (keep_if_ok s (act user s)).1)
      → P (keep_if_ok s (on_user o act s)).1
  on_user-keeps none act s d k = d
  on_user-keeps (some user) act s d k = k user
