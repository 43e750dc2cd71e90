-- ===== src/OpenDal/Delete.antt =====
-- `deleteIfExists`: the outcomes of deleting one object.
use temporaless.Prelude.{
  ◌≡◌, refl, ◌≢◌, Bool, true, false, Option, none, some, Text, is_some, if◌then◌else◌,
}
use temporaless.Action.{Error, Result, ok, err, not_found, attempt, done, ◌>>=◌}
use temporaless.Env.{Env, Lawful, with_object}
use temporaless.Env.Ensures.{
  Objects, Ensures, ensures-reads, ensures-bind, ensures-attempt, ensures-delete, ensures-result,
  Reads-is_exist,
}
use temporaless.OpenDal.Point.{delete_if_exists, delete_settled}

module _ ⦃e : Env⦄ (laws : Lawful e) where
  open e use {Data, objects, delete}

  ensures-settled :
      {o : Objects e} {P : Result Bool → Objects e → Type 0} (x : Error)
      → P (ok false) o
      → P (err x) o
      → Ensures o (delete_settled (err x)) P
  unfolding delete_settled
  ensures-settled not_found gone failed = ensures-result (ok false) gone
  ensures-settled x gone failed = ensures-result (err x) failed

  ensures-settled_other :
      {o : Objects e} {P : Result Bool → Objects e → Type 0} (x : Error)
      → x ≢ not_found
      → P (err x) o
      → Ensures o (delete_settled (err x)) P
  unfolding delete_settled
  ensures-settled_other not_found other failed = absurd (other refl)
  ensures-settled_other x other failed = ensures-result (err x) failed

  -- Without an error the object is gone, and the answer says whether it was there.
  pub ensures-delete_if_exists :
      {o : Objects e} (p : Text) {P : Result Bool → Objects e → Type 0}
      → ((x : Error) → P (err x) o)
      → ((x : Error) → P (err x) (with_object o p none))
      → (o p ≡ none → P (ok false) o)
      → ((b : Bool) → P (ok b) (with_object o p none))
      → Ensures o (delete_if_exists p) P
  unfolding delete_if_exists delete_settled
  ensures-delete_if_exists {o} p {P} failed torn absent gone =
      ensures-reads (Reads-is_exist laws p) failed (λ exists found. branch exists (o p) found refl)
    where
      branch :
          (exists : Bool) (x : Option Data)
          → ◌≡◌ {A = Result Bool} (ok (is_some x)) (ok exists)
          → o p ≡ x
          → Ensures o (if exists then (attempt (delete p) >>= delete_settled) else done false) P
      branch true x found at = ensures-bind {k = delete_settled} (
          ensures-attempt (
            ensures-delete laws p (ensures-result (ok true) (gone true))
              (λ x. ensures-settled x (gone false) (torn x))
              (λ x other. ensures-settled_other x other (failed x))))
      branch false none found at = ensures-result (ok false) (absent at)
      branch false (some d) found at = cc
