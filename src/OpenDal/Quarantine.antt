-- ===== src/OpenDal/Quarantine.antt =====
-- `quarantineDueEntry`: a ledger entry that cannot be used is copied aside, under the digest of its
-- path, and stays where it is. `readListedProto`: the payload of a listed object.
use temporaless.Prelude.{
  ◌≡◌, ◌≢◌, refl, sym, ap, ◌∙◌, ◌⊎◌, inl, inr, Option, none, some, Text, ◌++◌,
}
use temporaless.Action.{
  Error, Result, ok, err, Action, done, fail, lift, attempt, ◌>>=◌, ◌>>◌, not_found, ends-bind,
}
use temporaless.Key.{extension}
use temporaless.Message.{Message, Body}
use temporaless.Env.{Env, Lawful, Finds, with_object}
use temporaless.Env.Ensures.{
  Objects, Ensures, ensures-reads, ensures-bind, ensures-attempt, ensures-read_last, ensures-result,
  ensures-write, Reads-ctx_err, Reads-read, Reads-create_dir, stored,
}
use temporaless.OpenDal.Point.{or_corrupt}
use temporaless.OpenDal.Due.{parent_dir}
use temporaless.OpenDal.Timers.Frame.{with_object-ne, with_object_self}

module _ ⦃e : Env⦄ where
  open e use {World, Data, objects, read, write, create_dir, ctx_err, digest, unmarshal}

  abbrev pub quarantine_target : Text → Text → Text
  quarantine_target quarantine_root ledger_path =
      quarantine_root ++ (digest ledger_path ++ extension)

  -- An entry that is gone needs no copy.
  unfoldable pub put_aside : Text → Result Data → Action World Unit
  put_aside target (ok d) = do create_dir (parent_dir target); write target d
  put_aside target (err not_found) = done tt
  put_aside target (err x) = fail x

  unfoldable pub quarantine_due_entry : Text → Text → Action World Unit
  quarantine_due_entry quarantine_root ledger_path = do
    ctx_err
    d ← attempt (read ledger_path)
    put_aside (quarantine_target quarantine_root ledger_path) d

  unfoldable pub read_listed_proto : (m : Message) → Text → Action World (Body m)
  read_listed_proto m path = do ctx_err; d ← read path; lift (or_corrupt (unmarshal m d))

  -- The end of a quarantine: a copy at `target`, or nothing.
  pub record Quarantined (target ledger_path : Text) (o o' : Objects e) : Type 0 where
    pub copied : (o' ≡ o) ⊎ (o' target ≡ o ledger_path)
    pub others : (q : Text) → target ≢ q → o' q ≡ o q

  Quarantined-same :
      (target ledger_path : Text) (o : Objects e) → Quarantined target ledger_path o o
  Quarantined-same target ledger_path o = record { copied = inl refl; others = λ q _. refl }

  Quarantined-copied :
      (target ledger_path : Text) (o : Objects e) (d : Data)
      → o ledger_path ≡ some d
      → Quarantined target ledger_path o (with_object o target (some d))
  Quarantined-copied target ledger_path o d there = record {
    copied = inr (rw (with_object_self o target (some d), there));
    others = λ q other. with_object-ne o target q (some d) other;
  }

  module _ (laws : Lawful e) (root ledger_path : Text) (o : Objects e) where
    abbrev Ends : Result (Unit {0}) → Objects e → Type 0
    Ends result o' = Quarantined (quarantine_target root ledger_path) ledger_path o o'

    same : Quarantined (quarantine_target root ledger_path) ledger_path o o
    same = Quarantined-same (quarantine_target root ledger_path) ledger_path o

    ensures-put_aside_error :
        (x : Error) → Ensures o (put_aside (quarantine_target root ledger_path) (err x)) Ends
    unfolding put_aside
    ensures-put_aside_error not_found = ensures-result (ok tt) same
    ensures-put_aside_error x = ensures-result (err x) same

    ensures-put_aside :
        (found : Result Data)
        → stored (o ledger_path) ≡ found
        → Ensures o (put_aside (quarantine_target root ledger_path) found) Ends
    unfolding put_aside
    ensures-put_aside (ok d) there =
        let copy =
          Quarantined-copied (quarantine_target root ledger_path) ledger_path o d
            (found_there (o ledger_path) there) in
        ensures-reads (Reads-create_dir laws (parent_dir (quarantine_target root ledger_path)))
          (λ x. same)
          λ _ _.
            ensures-write laws (quarantine_target root ledger_path) d copy (λ x. same) (λ x. copy)
      where
        found_there : (x : Option Data) {d : Data} → stored x ≡ ok d → x ≡ some d
        found_there none h = cc
        found_there (some d) h = cc
    ensures-put_aside (err x) there = ensures-put_aside_error x

    -- With every outcome of the calls.
    pub quarantine_due_entry-copied : Ensures o (quarantine_due_entry root ledger_path) Ends
    unfolding quarantine_due_entry
    quarantine_due_entry-copied =
        ensures-reads (Reads-ctx_err laws) (λ x. same)
          λ _ _. ensures-bind {k = put_aside (quarantine_target root ledger_path)} (
            ensures-attempt (
              ensures-read_last (Reads-read laws ledger_path)
                (ensures-put_aside (stored (o ledger_path)) refl) ensures-put_aside_error))

    -- The entry is gone, or there is a copy of it.
    abbrev pub IsKept : Objects e → Type 0
    IsKept o' =
        (o ledger_path ≡ none)
        ⊎ ((d : Data) × (o ledger_path ≡ some d)
            × (o' (quarantine_target root ledger_path) ≡ some d))

    abbrev pub Keeps : Result (Unit {0}) → Objects e → Type 0
    Keeps result o' = (u : Unit) → result ≡ ok u → IsKept o'

    ensures-copy :
        (d : Data)
        → o ledger_path ≡ some d
        → Ensures o (put_aside (quarantine_target root ledger_path) (ok d)) Keeps
    unfolding put_aside
    ensures-copy d there =
        let target = quarantine_target root ledger_path in
        ensures-reads (Reads-create_dir laws (parent_dir target)) (λ x u wrong. cc)
          λ _ _.
            ensures-write laws target d
              (λ u same. inr (d, there, rw (with_object_self o target (some d)) refl))
              (λ x u wrong. cc) (λ x u wrong. cc)

    abbrev KeepsAt : Result (Unit {0}) × World → Type 0
    KeepsAt end = Keeps end.0 (objects end.1)

    Keeps-put_aside :
        (finds : Finds e) (s : World)
        → objects s ≡ o
        → (found : Result Data) → (read ledger_path s).0 ≡ found
        → KeepsAt (put_aside (quarantine_target root ledger_path) found (read ledger_path s).1)
    unfolding put_aside
    Keeps-put_aside finds s so (err not_found) gone =
        λ u ended. inl (ap (λ x. x ledger_path) (sym so) ∙ finds.read_not_found ledger_path s gone)
    Keeps-put_aside finds s so (err x) failed = λ u wrong. cc
    Keeps-put_aside finds s so (ok d) got = elim (laws.read_result ledger_path s) [
      | inl (d', there, given) ↦
          let here : d' ≡ d = cc in
          (ensures-copy d (ap (λ x. x ledger_path) (sym so) ∙ (there ∙ ap some here))).at
            (read ledger_path s).1 (laws.read_quiet ledger_path s ∙ so)
      | inr (x, wrong, _) ↦ absurd (let h : err x ≡ ok d = sym wrong ∙ got in cc)
    ]

    Keeps-quarantine :
        (finds : Finds e) (s : World)
        → objects s ≡ o
        → KeepsAt (quarantine_due_entry root ledger_path s)
    unfolding quarantine_due_entry
    Keeps-quarantine finds s so =
        ends-bind (λ end. Keeps end.0 (objects end.1)) _ (ctx_err s) (λ x _ u wrong. cc)
          (λ _ _.
            Keeps-put_aside finds (ctx_err s).1 (laws.ctx_err_quiet s ∙ so)
              (read ledger_path (ctx_err s).1).0 refl)

    -- `quarantineDueEntry` from any objects, with every outcome of its calls: no object has changed
    -- or the object under the quarantine root is what the ledger entry was, and all other objects
    -- stay as they were. Where it succeeds there was no ledger entry, or the object under the
    -- quarantine root is a copy of it. A read gives `NotFound` only where the object is absent.
    pub quarantine_due_entry-kept :
        Finds e
        → Ensures o (quarantine_due_entry root ledger_path) (λ result o'.
          Quarantined (quarantine_target root ledger_path) ledger_path o o' × Keeps result o')
    quarantine_due_entry-kept finds = record {
      at = λ s so. (quarantine_due_entry-copied.at s so, Keeps-quarantine finds s so);
    }
