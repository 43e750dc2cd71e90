-- ===== src/Env/Tree.antt =====
-- The directories of a bucket, as listings show them: a finite tree.
use temporaless.Prelude.{
  ℕ, ◌+◌, ◌<◌, ◌≡◌, true, not, ◌&&◌, none, some, List, [], ◌∷◌, ◌++◌, ◌⊎◌, In, Option, Text,
  text_eq, has_suffix, if◌then◌else◌,
}
use temporaless.Action.{Error, ok, err, not_found, is_fault}
use temporaless.Key.{slash}
use temporaless.Key.Slash.{NoSlash}
use temporaless.Env.{Env}

-- The entries of a listing of `current` that are directories below it.
unfoldable pub subdirs : Text → List Text → List Text
subdirs current [] = []
subdirs current (p ∷ ps) =
    if not (text_eq p current) && has_suffix (slash ∷ []) p
    then p ∷ subdirs current ps
    else subdirs current ps

abbrev pub total : (Text → ℕ) → List Text → ℕ
total size [] = 0
total size (p ∷ ps) = size p + total size ps

-- What a listing documents: without an error it gives the children of the path, an absent path has
-- none, listing changes no directory, and the tree of the directories is finite.
pub record Tree (e : Env) : Type 0 where
  pub children : e.World → Text → List Text
  pub listed :
      (p : Text) (s : e.World) (entries : List Text)
      → (e.list p s).0 ≡ ok (entries, none)
      → entries ≡ children s p
  pub list_not_found : (p : Text) (s : e.World) → (e.list p s).0 ≡ err not_found → children s p ≡ []
  pub list_stopped :
      (p : Text) (s : e.World) (entries : List Text) (x : Error)
      → (e.list p s).0 ≡ ok (entries, some x)
      → is_fault x ≡ true
  pub list_same : (p : Text) (s : e.World) → children (e.list p s).1 ≡ children s
  pub ctx_err_same : (s : e.World) → children (e.ctx_err s).1 ≡ children s
  pub size : e.World → Text → ℕ
  pub size-children :
      (s : e.World) (p : Text) → total (size s) (subdirs p (children s p)) < size s p
  pub list_size : (p : Text) (s : e.World) → size (e.list p s).1 ≡ size s
  pub ctx_err_size : (s : e.World) → size (e.ctx_err s).1 ≡ size s

-- A listing of a directory gives the directory itself, and entries directly below it: a name, which
-- a `/` follows if it is a directory.
pub record Direct (e : Env) : Type 0 where
  pub list_direct :
      (p : Text) (s : e.World) (entries : List Text) (stopped : Option Error) (d : Text)
      → (e.list p s).0 ≡ ok (entries, stopped)
      → In d entries
      → has_suffix (slash ∷ []) d ≡ true
      → (d ≡ p) ⊎ ((name : Text) × NoSlash name × (d ≡ p ++ (name ++ (slash ∷ []))))
