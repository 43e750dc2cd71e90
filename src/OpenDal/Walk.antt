-- ===== src/OpenDal/Walk.antt =====
-- `walkOpenDAL`: the files below a directory, breadth first, in sorted order. A round of the loop
-- takes one unit of fuel.
pub mod Files
pub mod Under
use temporaless.Prelude.{
  ◌∙◌, ℕ, zero, suc, Bool, true, false, not, ◌&&◌, Option, none, some, List, [], ◌∷◌, ◌++◌, Text,
  text_eq, text_lt, has_suffix, if◌then◌else◌, sort_by,
}
use temporaless.Action.{
  Error, Result, ok, err, Action, done, fail, attempt, ◌>>=◌, ◌>>◌, not_found, out_of_fuel,
}
use temporaless.Key.{slash, extension}
use temporaless.Env.{Env, Lawful}
use temporaless.Env.Tree.{subdirs}
use temporaless.Env.Ensures.{
  Objects, Ensures, ensures-reads, ensures-bind, ensures-attempt, ensures-result, Reads-ctx_err,
}

-- The entries of a listing of `current` that are record files.
unfoldable pub files_in : Text → List Text → List Text
files_in current [] = []
files_in current (p ∷ ps) =
    if not (text_eq p current) && not (has_suffix (slash ∷ []) p) && has_suffix extension p
    then p ∷ files_in current ps
    else files_in current ps

-- What a listing means to the walk: an absent directory is an empty one.
abbrev pub listing : Result (List Text × Option Error) → Result (List Text)
listing (ok (entries, none)) = ok entries
listing (ok (entries, some x)) = err x
listing (err not_found) = ok []
listing (err x) = err x

module _ ⦃e : Env⦄ where
  open e use {World, ctx_err, list}

  -- The round goes on with the entries, or the walk ends with the error.
  abbrev pub on_listing :
      (List Text → Action World (List Text)) → Result (List Text) → Action World (List Text)
  on_listing again (ok entries) = again entries
  on_listing again (err x) = fail x

  unfoldable pub walk : ℕ → List Text → List Text → Action World (List Text)
  walk fuel [] files = done (sort_by text_lt files)
  walk zero (current ∷ queue) files = fail out_of_fuel
  walk (suc fuel) (current ∷ queue) files = do
    ctx_err
    listed ← attempt (list current)
    on_listing
        (λ entries.
          walk fuel (queue ++ subdirs current entries) (files ++ files_in current entries))
        (listing listed)

  -- `walkOpenDAL`, `dueLedgerPaths`
  abbrev pub walk_open_dal : ℕ → Text → Action World (List Text)
  walk_open_dal fuel root = walk fuel (root ∷ []) []

  module _ (laws : Lawful e) where
    ensures-list :
        {A : Type 0} {o : Objects e} (p : Text) {P : Result A → Objects e → Type 0}
        {k : Result (List Text × Option Error) → Action World A}
        → ((listed : Result (List Text × Option Error)) → Ensures o (k listed) P)
        → Ensures o (attempt (list p) >>= k) P
    ensures-list p {P} {k} next = record {
      at = λ s so. (next (list p s).0).at (list p s).1 (laws.list_quiet p s ∙ so);
    }

    -- A walk changes no object.
    pub ensures-walk :
        (o : Objects e) (P : Result (List Text) → Objects e → Type 0)
        → ((x : Error) → P (err x) o)
        → ((paths : List Text) → P (ok paths) o)
        → (fuel : ℕ) (queue files : List Text) → Ensures o (walk fuel queue files) P
    unfolding walk
    ensures-walk o P failed found zero [] files =
        ensures-result (ok (sort_by text_lt files)) (found (sort_by text_lt files))
    ensures-walk o P failed found (suc fuel) [] files =
        ensures-result (ok (sort_by text_lt files)) (found (sort_by text_lt files))
    ensures-walk o P failed found zero (current ∷ queue) files =
        ensures-result (err out_of_fuel) (failed out_of_fuel)
    ensures-walk o P failed found (suc fuel) (current ∷ queue) files =
        ensures-reads (Reads-ctx_err laws) failed λ _ _. ensures-list current λ listed.
          branch (listing listed) (λ entries.
            ensures-walk o P failed found fuel (queue ++ subdirs current entries)
              (files ++ files_in current entries))
      where
        branch :
            (listed : Result (List Text))
            → ((entries : List Text)
                → Ensures o
                    (walk fuel
                      (queue ++ subdirs current entries)
                      (files ++ files_in current entries))
                    P)
            → Ensures o
                (on_listing
                  (λ entries.
                    walk fuel
                      (queue ++ subdirs current entries)
                      (files ++ files_in current entries))
                  listed)
                P
        branch (ok entries) again = again entries
        branch (err x) again = ensures-result (err x) (failed x)
