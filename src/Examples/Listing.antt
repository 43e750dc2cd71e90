-- ===== src/Examples/Listing.antt =====
-- Walks and listings over a bucket in memory that shows its directories.
use temporaless.Prelude.{
  ℕ, ◌<◌, ◌≡◌, ◌≢◌, ◌↔◌, refl, sym, inl, inr, subst, Bool-cases, List, [], ◌∷◌, Text, codes,
  text_eq, text_eq_sound, text_lt, has_suffix, if◌then◌else◌, sort_by, insert_sorted, In, arith,
}
use temporaless.Action.{ok, err, out_of_fuel}
use temporaless.Env.Tree.{Tree, subdirs, total}
use temporaless.Env.Memory.{memory, memory-Lawful, memory_with, memory_with-Lawful}
use temporaless.Env.Ensures.{Ensures}
use temporaless.OpenDal.Walk.{walk, walk_open_dal, files_in}
use temporaless.OpenDal.Walk.Under.{Under}
use temporaless.OpenDal.Walk.Files.{walk_terminates, walk_finds_all}
use temporaless.OpenDal.Listing.{list_activities, list_events}
use temporaless.OpenDal.Listing.Agree.{
  Lists, IsActivityOf, IsEventOf, list_activities-stored, list_events-stored,
}
use temporaless.Examples.{no_objects, run_key, one_run}

abbrev ledger_dir : Text
ledger_dir = codes "d/"

abbrev run_dir : Text
run_dir = codes "d/r/"

-- A directory with a directory of one record file, a marker of its own and a stray file.
unfoldable directory : Text → List Text
unfolding text_eq
directory p =
    if text_eq p ledger_dir
    then ledger_dir ∷ run_dir ∷ codes "d/stray" ∷ []
    else if text_eq p run_dir
    then codes "d/r/nap.binpb" ∷ []
    else []

unfoldable depth : Text → ℕ
depth p = if text_eq p ledger_dir then 2 else 1

depth-directory : (p : Text) → total depth (subdirs p (directory p)) < depth p
unfolding directory depth subdirs text_eq has_suffix
depth-directory p = elim (Bool-cases (text_eq p ledger_dir)) [
  | inl same ↦
      subst (λ q. total depth (subdirs q (directory q)) < depth q)
        (sym (text_eq_sound p ledger_dir same)) (omega arith)
  | inr other ↦ elim (Bool-cases (text_eq p run_dir)) [
    | inl same ↦
        subst (λ q. total depth (subdirs q (directory q)) < depth q)
          (sym (text_eq_sound p run_dir same)) (omega arith)
    | inr other' ↦ rw (other, other') (omega arith)
  ]
]

directory_tree : Tree (memory_with directory)
directory_tree = record {
  children = λ s. directory;
  listed = λ p s entries same. cc;
  list_not_found = λ p s same. cc;
  list_stopped = λ p s entries x same. cc;
  list_same = λ p s. refl;
  ctx_err_same = λ s. refl;
  size = λ s. depth;
  size-children = λ s. depth-directory;
  list_size = λ p s. refl;
  ctx_err_size = λ s. refl;
}

walk_terminates_example :
    (walk_open_dal ⦃e = memory_with directory⦄ 2 ledger_dir no_objects).0 ≢ err out_of_fuel
unfolding depth directory_tree text_eq
walk_terminates_example =
    walk_terminates ⦃e = memory_with directory⦄ (memory_with-Lawful directory) directory_tree 2
      ledger_dir no_objects (omega arith)

walk_of_ledger :
    (walk_open_dal ⦃e = memory_with directory⦄ 2 ledger_dir no_objects).0
    ≡ ok (codes "d/r/nap.binpb" ∷ [])
unfolding walk directory files_in subdirs text_eq has_suffix text_lt sort_by insert_sorted
walk_of_ledger = refl

walk_finds_all_example :
    In (codes "d/r/nap.binpb") (codes "d/r/nap.binpb" ∷ [])
    ↔ Under directory (codes "d/r/nap.binpb") ledger_dir
unfolding directory directory_tree
walk_finds_all_example =
    walk_finds_all ⦃e = memory_with directory⦄ (memory_with-Lawful directory) directory_tree 2
      ledger_dir no_objects walk_of_ledger (codes "d/r/nap.binpb")

list_activities-stored_example :
    Ensures one_run
      (list_activities 2 run_key)
      (Lists (IsActivityOf memory-Lawful one_run run_key) one_run)
list_activities-stored_example = list_activities-stored memory-Lawful one_run 2 run_key

list_events-stored_example :
    Ensures one_run
      (list_events 2 run_key)
      (Lists (IsEventOf memory-Lawful one_run run_key) one_run)
list_events-stored_example = list_events-stored memory-Lawful one_run 2 run_key
