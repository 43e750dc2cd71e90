-- ===== src/Env/Ensures.antt =====
-- Reasoning about actions over what the bucket holds. `Ensures o m P`: started on the objects `o`,
-- the action ends with a result and objects of which `P` holds, errors and faults included.
-- `Reads m f`: the action changes no object, and gives what `f` reads off the objects or a fault.
use temporaless.Prelude.{
  ◌≡◌, ◌≢◌, refl, sym, ap, ◌∙◌, subst, subst₂, Bool, true, false, Option, none, some, Text, ◌⊎◌,
  inl, inr, is_some, if◌then◌else◌,
}
use temporaless.Action.{
  Error, Result, ok, err, Action, done, lift, attempt, ◌>>=◌, and_then, not_found, proceed,
}
use temporaless.Env.{Env, Lawful, Faulty, with_object}

abbrev pub Objects : Env → Type 0
Objects e = Text → Option e.Data

module _ ⦃e : Env⦄ where
  open e use {World, Data, objects}

  pub record Ensures {A : Type 0} (o : Objects e) (m : Action World A)
      (P : Result A → Objects e → Type 0) : Type 0 where
    pub at : (s : World) → objects s ≡ o → P (m s).0 (objects (m s).1)

  pub record Reads {A : Type 0} (m : Action World A) (f : Objects e → Result A) : Type 0 where
    pub quiet : (s : World) → objects (m s).1 ≡ objects s
    pub result : (s : World) → ((m s).0 ≡ f (objects s)) ⊎ Faulty (m s).0

  module _ {A B : Type 0} (k : A → Action World B) (P : Result B → Objects e → Type 0) where
    proceed-Ensures :
        (o : Objects e) (expected r : Result A) (s : World)
        → objects s ≡ o
        → (r ≡ expected) ⊎ Faulty r
        → ((x : Error) → P (err x) o)
        → ((a : A) → expected ≡ ok a → Ensures o (k a) P)
        → P (proceed k (r, s)).0 (objects (proceed k (r, s)).1)
    proceed-Ensures o expected (ok a) s so (inl same) failed next = (next a (sym same)).at s so
    proceed-Ensures o expected (ok a) s so (inr (x, wrong, _)) failed next = cc
    proceed-Ensures o expected (err x) s so result failed next =
        subst (P (err x)) (sym so) (failed x)

  -- A call that only reads: an error ends the action with the objects as they were.
  pub ensures-reads :
      {A B : Type 0} {m : Action World A} {k : A → Action World B} {f : Objects e → Result A}
      {o : Objects e} {P : Result B → Objects e → Type 0}
      → Reads m f
      → ((x : Error) → P (err x) o)
      → ((a : A) → f o ≡ ok a → Ensures o (k a) P)
      → Ensures o (m >>= k) P
  ensures-reads {m} {k} {f} {o} {P} reads failed next = record {
    at = λ s so.
        proceed-Ensures k P o (f o) (m s).0 (m s).1 (reads.quiet s ∙ so)
          (subst (λ q. ((m s).0 ≡ f q) ⊎ Faulty (m s).0) so (reads.result s)) failed next;
  }

  pub ensures-result :
      {A : Type 0} {o : Objects e} {P : Result A → Objects e → Type 0} (r : Result A)
      → P r o
      → Ensures o (lift r) P
  ensures-result {o} {P} r h = record { at = λ s so. subst (P r) (sym so) h }

  Reads-proceed :
      {A B : Type 0} (k : A → Action World B) (g : A → Objects e → Result B) (o : Objects e)
      (expected r : Result A) (s : World)
      → objects s ≡ o
      → (r ≡ expected) ⊎ Faulty r
      → ((a : A) → Reads (k a) (g a))
      → (objects (proceed k (r, s)).1 ≡ o)
        × (((proceed k (r, s)).0 ≡ and_then expected (λ a. g a o)) ⊎ Faulty (proceed k (r, s)).0)
  Reads-proceed k g o expected (ok a) s so (inl same) next = (
    (next a).quiet s ∙ so,
    subst (λ x. ((k a s).0 ≡ and_then x (λ b. g b o)) ⊎ Faulty (k a s).0) same
        (subst (λ q. ((k a s).0 ≡ g a q) ⊎ Faulty (k a s).0) so ((next a).result s)),
  )
  Reads-proceed k g o expected (ok a) s so (inr (x, wrong, _)) next = cc
  Reads-proceed k g o expected (err x) s so (inl same) next =
      (so, inl (subst (λ r. err x ≡ and_then r (λ b. g b o)) same refl))
  Reads-proceed k g o expected (err x) s so (inr (y, same, fault)) next = (so, inr (y, cc, fault))

  -- Reads compose.
  pub Reads-bind :
      {A B : Type 0} {m : Action World A} {k : A → Action World B} {f : Objects e → Result A}
      {g : A → Objects e → Result B}
      → Reads m f
      → ((a : A) → Reads (k a) (g a))
      → Reads (m >>= k) (λ o. and_then (f o) (λ a. g a o))
  Reads-bind {m} {k} {f} {g} reads next = record {
    quiet = λ s.
        (Reads-proceed k g (objects s) (f (objects s)) (m s).0 (m s).1 (reads.quiet s)
          (reads.result s) next).0;
    result = λ s.
        (Reads-proceed k g (objects s) (f (objects s)) (m s).0 (m s).1 (reads.quiet s)
          (reads.result s) next).1;
  }

  pub Reads-lift : {A : Type 0} (r : Result A) → Reads (lift r) (λ o. r)
  Reads-lift r = record { quiet = λ s. refl; result = λ s. inl refl }

  pub Reads-done : {A : Type 0} (a : A) → Reads (done a) (λ o. ok a)
  Reads-done a = record { quiet = λ s. refl; result = λ s. inl refl }

  pub Reads-if :
      {A : Type 0} {m n : Action World A} {f g : Objects e → Result A} (b : Bool)
      → Reads m f
      → Reads n g
      → Reads (if b then m else n) (λ o. if b then f o else g o)
  Reads-if true hm hn = hm
  Reads-if false hm hn = hn

  pub Reads-same :
      {A : Type 0} {m : Action World A} {f g : Objects e → Result A}
      → Reads m f
      → ((o : Objects e) → f o ≡ g o)
      → Reads m g
  Reads-same {m} h same = record {
    quiet = h.quiet;
    result = λ s. subst (λ r. ((m s).0 ≡ r) ⊎ Faulty (m s).0) (same (objects s)) (h.result s);
  }

  pub ensures-weaken :
      {A : Type 0} {o : Objects e} {m : Action World A} {P Q : Result A → Objects e → Type 0}
      → Ensures o m P
      → ((r : Result A) (o' : Objects e) → P r o' → Q r o')
      → Ensures o m Q
  ensures-weaken {m} h weaker = record { at = λ s so. weaker (m s).0 (objects (m s).1) (h.at s so) }

  -- What the first part of an action leaves to the rest.
  abbrev pub Then :
      {A B : Type 0}
      → (A → Action World B)
      → (Result B → Objects e → Type 0)
      → Result A
      → Objects e
      → Type 0
  Then k P (ok a) o = Ensures o (k a) P
  Then k P (err x) o = P (err x) o

  proceed-Then :
      {A B : Type 0} (k : A → Action World B) (P : Result B → Objects e → Type 0) (r : Result A)
      (s : World)
      → Then k P r (objects s)
      → P (proceed k (r, s)).0 (objects (proceed k (r, s)).1)
  proceed-Then k P (ok a) s h = h.at s refl
  proceed-Then k P (err x) s h = h

  pub ensures-bind :
      {A B : Type 0} {o : Objects e} {m : Action World A} {k : A → Action World B}
      {P : Result B → Objects e → Type 0}
      → Ensures o m (Then k P)
      → Ensures o (m >>= k) P
  ensures-bind {m} {k} {P} h = record { at = λ s so. proceed-Then k P (m s).0 (m s).1 (h.at s so) }

  -- A call whose error the code looks at.
  pub ensures-attempt :
      {A : Type 0} {o : Objects e} {m : Action World A} {P : Result (Result A) → Objects e → Type 0}
      → Ensures o m (λ r o'. P (ok r) o')
      → Ensures o (attempt m) P
  ensures-attempt h = record { at = h.at }

  -- A read at the end of an action.
  pub ensures-read_last :
      {A : Type 0} {o : Objects e} {m : Action World A} {f : Objects e → Result A}
      {P : Result A → Objects e → Type 0}
      → Reads m f
      → P (f o) o
      → ((x : Error) → P (err x) o)
      → Ensures o m P
  ensures-read_last {o} {m} {f} {P} reads good failed = record {
    at = λ s so.
        settle (m s).0 (objects (m s).1) (reads.quiet s ∙ so)
          (subst (λ q. ((m s).0 ≡ f q) ⊎ Faulty (m s).0) so (reads.result s));
  }
    where
      settle : (r : Result _) (o' : Objects e) → o' ≡ o → (r ≡ f o) ⊎ Faulty r → P r o'
      settle r o' same (inl expected) = subst₂ P (sym expected) (sym same) good
      settle r o' same (inr (x, wrong, _)) = subst₂ P (sym wrong) (sym same) (failed x)

  -- Reading an object that may be absent.
  abbrev pub stored : Option Data → Result Data
  stored none = err not_found
  stored (some d) = ok d

  module _ (laws : Lawful e) where
    open e use {is_exist, read, write, create_dir, delete, ctx_err}

    pub Reads-ctx_err : Reads ctx_err (λ o. ok tt)
    Reads-ctx_err = record { quiet = laws.ctx_err_quiet; result = laws.ctx_err_result }

    pub Reads-create_dir : (p : Text) → Reads (create_dir p) (λ o. ok tt)
    Reads-create_dir p = record {
      quiet = laws.create_dir_quiet p;
      result = laws.create_dir_result p;
    }

    pub Reads-is_exist : (p : Text) → Reads (is_exist p) (λ o. ok (is_some (o p)))
    Reads-is_exist p = record { quiet = laws.is_exist_quiet p; result = laws.is_exist_result p }

    read_result-stored :
        (p : Text) (s : World) → ((read p s).0 ≡ stored (objects s p)) ⊎ Faulty (read p s).0
    read_result-stored p s = elim (laws.read_result p s) [
      | inl (d, there, got) ↦ inl (got ∙ sym (ap stored there))
      | inr faulty ↦ inr faulty
    ]

    pub Reads-read : (p : Text) → Reads (read p) (λ o. stored (o p))
    Reads-read p = record { quiet = laws.read_quiet p; result = read_result-stored p }

    changed :
        {A : Type 0} (P : Result A → Objects e → Type 0) {before o : Objects e} (p : Text)
        (v : Option Data) (r expected : Result A) (after : Objects e)
        → before ≡ o
        → (r ≡ expected) × (after ≡ with_object before p v)
        → P expected (with_object o p v)
        → P r after
    changed P p v r expected after same (result, objects') h =
        subst₂ P (sym result) (sym (objects' ∙ ap (λ q. with_object q p v) same)) h

    torn_by_fault :
        {A : Type 0} (P : Result A → Objects e → Type 0) {before o : Objects e} (p : Text)
        (v : Option Data) (x : Error) (r : Result A) (after : Objects e)
        → before ≡ o
        → r ≡ err x
        → (after ≡ before) ⊎ (after ≡ with_object before p v)
        → P (err x) o
        → P (err x) (with_object o p v)
        → P r after
    torn_by_fault P p v x r after same wrong (inl kept) failed torn =
        subst₂ P (sym wrong) (sym (kept ∙ same)) failed
    torn_by_fault P p v x r after same wrong (inr made) failed torn =
        changed P p v r (err x) after same (wrong, made) torn

    is_not_found-cases : (x : Error) → (x ≡ not_found) ⊎ (x ≢ not_found)
    is_not_found-cases not_found = inl refl
    is_not_found-cases x = inr (λ same. cc)

    -- A write is done, or fails with the object as it was or as it was to be.
    pub ensures-write :
        {o : Objects e} (p : Text) (d : Data) {P : Result Unit → Objects e → Type 0}
        → P (ok tt) (with_object o p (some d))
        → ((x : Error) → P (err x) o)
        → ((x : Error) → P (err x) (with_object o p (some d)))
        → Ensures o (write p d) P
    ensures-write p d {P} written failed torn = record {
      at = λ s so. elim (laws.write_result p d s) [
        | inl w ↦
            changed P p (some d) (write p d s).0 (ok tt) (objects (write p d s).1) so w written
        | inr ((x, wrong, _), t) ↦
            torn_by_fault P p (some d) x (write p d s).0 (objects (write p d s).1) so wrong t
              (failed x) (torn x)
      ];
    }

    -- A delete that fails because the object is gone leaves no object either.
    pub ensures-delete :
        {o : Objects e} (p : Text) {P : Result Unit → Objects e → Type 0}
        → P (ok tt) (with_object o p none)
        → ((x : Error) → P (err x) (with_object o p none))
        → ((x : Error) → x ≢ not_found → P (err x) o)
        → Ensures o (delete p) P
    ensures-delete {o} p {P} deleted torn failed = record {
      at = λ s so. elim (laws.delete_result p s) [
        | inl w ↦ changed P p none (delete p s).0 (ok tt) (objects (delete p s).1) so w deleted
        | inr ((x, wrong, fault), t) ↦ elim (is_not_found-cases x) [
          | inl gone ↦
              changed P p none (delete p s).0 (err x) (objects (delete p s).1) so
                (wrong, laws.delete_not_found p s (wrong ∙ ap err gone)) (torn x)
          | inr other ↦
              torn_by_fault P p none x (delete p s).0 (objects (delete p s).1) so wrong t
                (failed x other) (torn x)
        ]
      ];
    }
