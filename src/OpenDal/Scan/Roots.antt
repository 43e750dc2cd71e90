-- ===== src/OpenDal/Scan/Roots.antt =====
-- The quarantine of a ledger lies below `_due_invalid` of one namespace.
use temporaless.Prelude.{
  ◌≡◌, ◌≢◌, refl, sym, ap, subst, ◌∙◌, ◌⊎◌, inl, inr, ℕ, true, not, ◌||◌, Bool-cases, Option, none,
  some, List, [], ◌∷◌, ◌++◌, Text, text_eq, text_eq_refl, In, has_suffix, if◌then◌else◌, All,
  All-sort_by, sort_by, codes,
}
use temporaless.Action.{Error, Result, ok, err, Action, done, fail, attempt, ◌>>=◌, not_found}
use temporaless.Key.{TimerKey, slash, due_root, due_invalid_root, validate_workflow_key}
use temporaless.Key.Slash.{NoSlash}
use temporaless.Key.Located.{require-ok, valid_workflow_key-IsValid}
use temporaless.Key.Quarantined.{Located-ne-invalid}
use temporaless.Env.{Env, Lawful}
use temporaless.Env.Tree.{Direct}
use temporaless.Env.Ensures.{
  Objects, Ensures, ensures-reads, ensures-bind, ensures-result, ensures-weaken, Reads-ctx_err,
  Reads-lift, Then,
}
use temporaless.OpenDal.Timers.Frame.{Owns, owner, owner-Located}
use temporaless.OpenDal.Scan.{
  LedgerRoot, root_of, listed_root, root_less, trim_slash, all_namespaces, placeholder_run,
  roots_in, listed_roots, due_roots,
}

-- The ledger of a namespace, and of the one that was asked for if there was one.
pub record IsLedger (asked : Text) (root : LedgerRoot) : Type 0 where
  pub name : Text
  pub name-NoSlash : NoSlash name
  pub root_path : root.path ≡ due_root name
  pub quarantine : root.quarantine_path ≡ due_invalid_root name
  pub wanted : (asked ≡ []) ⊎ (asked ≡ name)

-- No timer has its objects in the quarantine.
pub Owns-ne-quarantine :
    {asked : Text} {root : LedgerRoot} (ledger : IsLedger asked root) (rest : Text) (key : TimerKey)
    {q : Text}
    → Owns key q
    → q ≢ root.quarantine_path ++ rest
Owns-ne-quarantine ledger rest key {q} own same =
    Located-ne-invalid q (owner own) ledger.name rest (owner-Located own) ledger.name-NoSlash
      (same ∙ ap (λ x. x ++ rest) ledger.quarantine)

trim_slash-append : (p : Text) → trim_slash (p ++ (slash ∷ [])) ≡ p
unfolding trim_slash
trim_slash-append [] = refl
trim_slash-append (c ∷ []) = refl
trim_slash-append (c ∷ d ∷ ds) = ap (λ x. c ∷ x) (trim_slash-append (d ∷ ds))

listed_root-IsLedger :
    (name : Text)
    → NoSlash name
    → IsLedger [] (listed_root (all_namespaces ++ (name ++ (slash ∷ []))))
unfolding due_root due_invalid_root
listed_root-IsLedger name h = record {
  name = name;
  name-NoSlash = h;
  root_path = ap (λ x. x ++ codes "/_due/") (trim_slash-append (all_namespaces ++ name));
  quarantine = ap (λ x. x ++ codes "/_due_invalid/") (trim_slash-append (all_namespaces ++ name));
  wanted = inl refl;
}

module _ ⦃e : Env⦄ (laws : Lawful e) (direct : Direct e) (o : Objects e) where
  open e use {World, list}

  -- The end of `dueRoots`.
  abbrev pub Rooted : Text → Result (List LedgerRoot) → Objects e → Type 0
  Rooted asked result o' =
      (o' ≡ o) × ((roots : List LedgerRoot) → result ≡ ok roots → All (IsLedger asked) roots)

  Rooted-err : {asked : Text} (x : Error) → Rooted asked (err x) o
  Rooted-err x = (refl, λ roots wrong. cc)

  rooted :
      {asked : Text} (roots : List LedgerRoot)
      → All (IsLedger asked) roots
      → Rooted asked (ok roots) o
  rooted {asked} roots h = (refl, λ rs same. subst (All (IsLedger asked)) (ok-injective same) h)
    where
      ok-injective :
          {xs ys : List LedgerRoot} → ◌≡◌ {A = Result (List LedgerRoot)} (ok xs) (ok ys) → xs ≡ ys
      ok-injective same = cc

  -- The entries of the listing of all namespaces, one by one.
  abbrev IsNamespaceEntry : Text → Type 0
  IsNamespaceEntry d =
      has_suffix (slash ∷ []) d ≡ true
      → (d ≡ all_namespaces)
        ⊎ ((name : Text) × NoSlash name × (d ≡ all_namespaces ++ (name ++ (slash ∷ []))))

  kept_entry :
      (p : Text) (rest : List LedgerRoot)
      → IsNamespaceEntry p
      → All (IsLedger []) rest
      → All (IsLedger []) (
          if text_eq p all_namespaces || not (has_suffix (slash ∷ []) p)
          then rest
          else listed_root p ∷ rest)
  kept_entry p rest entry h = elim (Bool-cases (text_eq p all_namespaces)) [
    | inl same ↦ rw same h
    | inr other ↦ elim (Bool-cases (has_suffix (slash ∷ []) p)) [
      | inl dir ↦
          rw (other, dir)
            elim (entry dir) [
              | inl same ↦ absurd (
                  let t : text_eq p all_namespaces ≡ true =
                    subst (λ z. text_eq z all_namespaces ≡ true) (sym same)
                      (text_eq_refl all_namespaces) in
                  cc)
              | inr (name, plain_name, at) ↦ (
                subst (λ z. IsLedger [] (listed_root z)) (sym at)
                    (listed_root-IsLedger name plain_name),
                h,
              )
            ]
      | inr file ↦ rw (other, file) h
    ]
  ]

  ensures-roots_in :
      (ps : List Text) → All IsNamespaceEntry ps → Ensures o (roots_in ps) (Rooted [])
  unfolding roots_in
  ensures-roots_in [] h = ensures-result (ok []) (rooted [] tt)
  ensures-roots_in (p ∷ ps) (hp, hs) = ensures-reads (Reads-ctx_err laws) Rooted-err λ _ _.
      ensures-bind
        {k = λ rest. done (
          if text_eq p all_namespaces || not (has_suffix (slash ∷ []) p)
          then rest
          else listed_root p ∷ rest)}
        (ensures-weaken (ensures-roots_in ps hs) settle)
    where
      settle :
          (r : Result (List LedgerRoot)) (o' : Objects e)
          → Rooted [] r o'
          → Then
              (λ rest. done (
                if text_eq p all_namespaces || not (has_suffix (slash ∷ []) p)
                then rest
                else listed_root p ∷ rest))
              (Rooted [])
              r
              o'
      settle (err x) o' (same, _) = subst (λ z. Rooted [] (err x) z) (sym same) (Rooted-err x)
      settle (ok rest) o' (same, all) =
          subst
            (λ z.
              Ensures z
                (done (
                  if text_eq p all_namespaces || not (has_suffix (slash ∷ []) p)
                  then rest
                  else listed_root p ∷ rest))
                (Rooted []))
            (sym same) (ensures-result (ok _) (rooted _ (kept_entry p rest hp (all rest refl))))

  ensures-list :
      {A : Type 0} (p : Text) {P : Result A → Objects e → Type 0}
      (k : Result (List Text × Option Error) → Action World A)
      → ((s : World) → Ensures o (k (list p s).0) P)
      → Ensures o (attempt (list p) >>= k) P
  ensures-list p k next = record {
    at = λ s so. (next s).at (list p s).1 (laws.list_quiet p s ∙ so);
  }

  All-In : {P : Text → Type 0} (ps : List Text) → ((d : Text) → In d ps → P d) → All P ps
  All-In [] h = tt
  All-In (p ∷ ps) h = (h p (inl refl), All-In ps (λ d there. h d (inr there)))

  ensures-listed_roots :
      (listed : Result (List Text × Option Error))
      → ((entries : List Text) (stopped : Option Error)
          → listed ≡ ok (entries, stopped)
          → All IsNamespaceEntry entries)
      → Ensures o (listed_roots listed) (Rooted [])
  unfolding listed_roots
  ensures-listed_roots (ok (entries, stopped)) h =
      ensures-bind
        {k = λ roots. elim stopped [ none ↦ done (sort_by root_less roots) | some x ↦ fail x ]}
        (ensures-weaken (ensures-roots_in entries (h entries stopped refl)) (settle stopped))
    where
      settle :
          (stopped' : Option Error) (r : Result (List LedgerRoot)) (o' : Objects e)
          → Rooted [] r o'
          → Then
              (λ roots. elim stopped' [ none ↦ done (sort_by root_less roots) | some x ↦ fail x ])
              (Rooted [])
              r
              o'
      settle stopped' (err x) o' (same, _) =
          subst (λ z. Rooted [] (err x) z) (sym same) (Rooted-err x)
      settle none (ok roots) o' (same, all) =
          subst (λ z. Ensures z (done (sort_by root_less roots)) (Rooted [])) (sym same)
            (ensures-result (ok _)
              (rooted _ (All-sort_by root_less (IsLedger []) roots (all roots refl))))
      settle (some x) (ok roots) o' (same, all) =
          subst (λ z. Ensures z (fail x) (Rooted [])) (sym same)
            (ensures-result (err x) (Rooted-err x))
  ensures-listed_roots (err not_found) h = ensures-result (ok []) (rooted [] tt)
  ensures-listed_roots (err x) h = ensures-result (err x) (Rooted-err x)

  asked_root-IsLedger :
      (c : ℕ) (cs : Text)
      → validate_workflow_key (placeholder_run (c ∷ cs)) ≡ ok tt
      → IsLedger (c ∷ cs) (root_of (c ∷ cs))
  unfolding validate_workflow_key
  asked_root-IsLedger c cs valid =
      let (plain_name, _, _, _) =
        valid_workflow_key-IsValid (placeholder_run (c ∷ cs)) (require-ok _ valid) in
      record {
        name = c ∷ cs;
        name-NoSlash = plain_name;
        root_path = refl;
        quarantine = refl;
        wanted = inr refl;
      }

  -- `dueRoots` changes no object and gives ledgers, of the namespace asked for if there is one.
  pub ensures-due_roots : (asked : Text) → Ensures o (due_roots asked) (Rooted asked)
  unfolding due_roots
  ensures-due_roots [] = ensures-list all_namespaces listed_roots λ s.
      ensures-listed_roots (list all_namespaces s).0 (λ entries stopped same.
        All-In entries
          (λ d there. direct.list_direct all_namespaces s entries stopped d same there))
  ensures-due_roots (c ∷ cs) =
      ensures-reads (Reads-lift (validate_workflow_key (placeholder_run (c ∷ cs)))) Rooted-err
        λ _ valid. ensures-result (ok _) (rooted _ (asked_root-IsLedger c cs valid, tt))
