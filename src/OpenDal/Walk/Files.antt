-- ===== src/OpenDal/Walk/Files.antt =====
-- What the walk finds, and that it ends.
use temporaless.Prelude.{
  ℕ, zero, suc, ◌+◌, ◌≤◌, ◌≡◌, ◌≢◌, refl, sym, ap, subst, ◌∙◌, ◌↔◌, ◌⊎◌, inl, inr, true, Option,
  none, some, List, [], ◌∷◌, ◌++◌, Text, text_lt, sort_by, In, In-sort_by, In-append,
  In-append_left, In-append_right, arith,
}
use temporaless.Action.{
  Error, Result, ok, err, Action, bind-ok, bind-ne-err, attempt, ◌>>=◌, ◌>>◌, not_found,
  out_of_fuel, is_fault,
}
use temporaless.Env.{Env, Lawful, Faulty}
use temporaless.Env.Tree.{Tree, subdirs, total}
use temporaless.OpenDal.Walk.Under.{Under, In-files_in, In-subdirs, file, below}
use temporaless.OpenDal.Walk.{walk, walk_open_dal, files_in, listing, on_listing}

total-append :
    (size : Text → ℕ) (xs ys : List Text) → total size (xs ++ ys) ≡ total size xs + total size ys
total-append size [] ys = omega arith
total-append size (x ∷ xs) ys = omega (arith, total-append size xs ys)

Faulty-ne : {A : Type 0} (r : Result A) → Faulty r → r ≡ err out_of_fuel → ⊥
Faulty-ne r (x, wrong, fault) h =
    let same : x ≡ out_of_fuel = cc in let no = subst (λ y. is_fault y ≡ true) same fault in cc

module _ ⦃e : Env⦄ (laws : Lawful e) (tree : Tree e) where
  open e use {World, ctx_err, list}

  -- Every answer that the walk goes on with is the children of the directory.
  listing-children :
      (p : Text) (s : World) (entries : List Text)
      → listing (list p s).0 ≡ ok entries
      → entries ≡ tree.children s p
  listing-children p s entries h = cases (list p s).0 refl h
    where
      cases :
          (l : Result (List Text × Option Error))
          → (list p s).0 ≡ l
          → listing l ≡ ok entries
          → entries ≡ tree.children s p
      cases (ok (es, none)) same h =
          let e : es ≡ entries = cc in tree.listed p s entries (same ∙ ap (λ x. ok (x, none)) e)
      cases (ok (es, some x)) same h = cc
      cases (err not_found) same h =
          let e : [] ≡ entries = cc in sym e ∙ sym (tree.list_not_found p s same)
      cases (err x) same h = cc

  listing-ne : (p : Text) (s : World) → listing (list p s).0 ≡ err out_of_fuel → ⊥
  listing-ne p s h = cases (list p s).0 refl h
    where
      cases :
          (l : Result (List Text × Option Error))
          → (list p s).0 ≡ l
          → listing l ≡ err out_of_fuel
          → ⊥
      cases (ok (es, none)) same h = cc
      cases (ok (es, some x)) same h =
          let e : x ≡ out_of_fuel = cc in
          let no = subst (λ y. is_fault y ≡ true) e (tree.list_stopped p s es x same) in cc
      cases (err out_of_fuel) same h = elim (laws.list_result p s) [
        | inl (entries, good) ↦ cc
        | inr faulty ↦ Faulty-ne (list p s).0 faulty same
      ]
      cases (err x) same h = cc

  ctx_err-ne : (s : World) → (ctx_err s).0 ≡ err out_of_fuel → ⊥
  ctx_err-ne s h = elim (laws.ctx_err_result s) [
    | inl good ↦ cc
    | inr faulty ↦ Faulty-ne (ctx_err s).0 faulty h
  ]

  -- What a round goes on with.
  record Round (s : World) (c : Text) (entries : List Text) (t : World) : Type 0 where
    found : entries ≡ tree.children s c
    same : tree.children t ≡ tree.children s
    size : tree.size t ≡ tree.size s

  Round-list :
      (s : World) (c : Text) (entries : List Text)
      → listing (list c (ctx_err s).1).0 ≡ ok entries
      → Round s c entries (list c (ctx_err s).1).1
  Round-list s c entries h = record {
    found = listing-children c (ctx_err s).1 entries h ∙ ap (λ f. f c) (tree.ctx_err_same s);
    same = tree.list_same c (ctx_err s).1 ∙ tree.ctx_err_same s;
    size = tree.list_size c (ctx_err s).1 ∙ tree.ctx_err_size s;
  }

  module _ (s : World) (c : Text) (again : List Text → Action World (List Text)) where
    abbrev round : Action World (List Text)
    round = do ctx_err; listed ← attempt (list c); on_listing again (listing listed)

    on_listing-ne :
        ((entries : List Text) (t : World)
          → Round s c entries t
          → (again entries t).0 ≡ err out_of_fuel
          → ⊥)
        → (l : Result (List Text)) → listing (list c (ctx_err s).1).0 ≡ l
        → (on_listing again l (list c (ctx_err s).1).1).0 ≡ err out_of_fuel
        → ⊥
    on_listing-ne rest (err x) same wrong = listing-ne c (ctx_err s).1 (same ∙ cc)
    on_listing-ne rest (ok entries) same wrong =
        rest entries (list c (ctx_err s).1).1 (Round-list s c entries same) wrong

    round-ne :
        ((entries : List Text) (t : World)
          → Round s c entries t
          → (again entries t).0 ≡ err out_of_fuel
          → ⊥)
        → (round s).0 ≡ err out_of_fuel
        → ⊥
    round-ne rest wrong =
        bind-ne-err out_of_fuel _ (ctx_err s) (ctx_err-ne s)
          (λ _ _. on_listing-ne rest (listing (list c (ctx_err s).1).0) refl) wrong

    on_listing-ok :
        {files : List Text} (l : Result (List Text))
        → listing (list c (ctx_err s).1).0 ≡ l
        → (on_listing again l (list c (ctx_err s).1).1).0 ≡ ok files
        → (entries : List Text) × ((t : World) × Round s c entries t
            × ((again entries t).0 ≡ ok files))
    on_listing-ok (err x) same h = cc
    on_listing-ok (ok entries) same h =
        (entries, ((list c (ctx_err s).1).1, Round-list s c entries same, h))

    round-ok :
        {files : List Text}
        → (round s).0 ≡ ok files
        → (entries : List Text) × ((t : World) × Round s c entries t
            × ((again entries t).0 ≡ ok files))
    round-ok h =
        let (_, (_, h1)) = bind-ok _ (ctx_err s) h in
        on_listing-ok (listing (list c (ctx_err s).1).0) refl h1

  -- Each round takes a directory off the queue and puts in directories that are smaller in all.
  walk-ne_out_of_fuel :
      (fuel : ℕ) (queue files : List Text) (s : World)
      → total (tree.size s) queue ≤ fuel
      → (walk fuel queue files s).0 ≡ err out_of_fuel
      → ⊥
  unfolding walk
  walk-ne_out_of_fuel zero [] files s h wrong = cc
  walk-ne_out_of_fuel (suc fuel) [] files s h wrong = cc
  walk-ne_out_of_fuel zero (c ∷ queue) files s h wrong =
      absurd (omega (arith, tree.size-children s c))
  walk-ne_out_of_fuel (suc fuel) (c ∷ queue) files s h wrong =
      round-ne s c (λ entries. walk fuel (queue ++ subdirs c entries) (files ++ files_in c entries))
        (λ entries t round.
          walk-ne_out_of_fuel fuel (queue ++ subdirs c entries) (files ++ files_in c entries) t
            (smaller entries t round))
        wrong
    where
      smaller :
          (entries : List Text) (t : World)
          → Round s c entries t
          → total (tree.size t) (queue ++ subdirs c entries) ≤ fuel
      smaller entries t round =
          let first = total-append (tree.size s) queue (subdirs c (tree.children s c)) in
          let less = tree.size-children s c in
          let bound : total (tree.size s) (queue ++ subdirs c (tree.children s c)) ≤ fuel =
            omega arith in
          subst (λ z. total z (queue ++ subdirs c entries) ≤ fuel) (sym round.size)
            (subst (λ z. total (tree.size s) (queue ++ subdirs c z) ≤ fuel) (sym round.found) bound)

  -- A walk with fuel for the size of the tree ends by itself.
  pub walk_terminates :
      (fuel : ℕ) (root : Text) (s : World)
      → tree.size s root ≤ fuel
      → (walk_open_dal fuel root s).0 ≢ err out_of_fuel
  walk_terminates fuel root s h = walk-ne_out_of_fuel fuel (root ∷ []) [] s (omega arith)

  -- Below some directory of the queue.
  abbrev Pending : World → List Text → Text → Type 0
  Pending s queue f = (d : Text) × In d queue × Under (tree.children s) f d

  Under-same :
      (s t : World) {f d : Text}
      → tree.children t ≡ tree.children s
      → Under (tree.children t) f d
      → Under (tree.children s) f d
  Under-same s t {f} {d} same h = subst (λ ch. Under ch f d) same h

  Under-cases :
      (ch : Text → List Text) {f d : Text}
      → Under ch f d
      → In f (files_in d (ch d)) ⊎ ((d' : Text) × In d' (subdirs d (ch d)) × Under ch f d')
  Under-cases ch {f} (file {d} h good) = inl ((In-files_in d f (ch d)).1 (h, good))
  Under-cases ch (below {d} {d'} h good u) = inr (d', (In-subdirs d d' (ch d)).1 (h, good), u)

  module _ (s : World) (c : Text) (queue files : List Text) (f : Text) where
    -- The pending files before a round are the pending and the found ones after it.
    after_round :
        In f (files ++ files_in c (tree.children s c))
          ⊎ Pending s (queue ++ subdirs c (tree.children s c)) f
        → In f files ⊎ Pending s (c ∷ queue) f
    after_round (inl h) = elim (In-append f files (files_in c (tree.children s c)) h) [
      | inl old ↦ inl old
      | inr new ↦
          let (there, good) = (In-files_in c f (tree.children s c)).0 new in
          inr (c, inl refl, file there good)
    ]
    after_round (inr (d, h, u)) = elim (In-append d queue (subdirs c (tree.children s c)) h) [
      | inl old ↦ inr (d, inr old, u)
      | inr new ↦
          let (there, good) = (In-subdirs c d (tree.children s c)).0 new in
          inr (c, inl refl, below there good u)
    ]

    before_round :
        In f files ⊎ Pending s (c ∷ queue) f
        → In f (files ++ files_in c (tree.children s c))
          ⊎ Pending s (queue ++ subdirs c (tree.children s c)) f
    before_round (inl h) = inl (In-append_left f files (files_in c (tree.children s c)) h)
    before_round (inr (d, inr h, u)) =
        inr (d, In-append_left d queue (subdirs c (tree.children s c)) h, u)
    before_round (inr (d, inl same, u)) =
        elim (Under-cases (tree.children s) (subst (λ x. Under (tree.children s) f x) same u)) [
          | inl h ↦ inl (In-append_right f files (files_in c (tree.children s c)) h)
          | inr (d', h, u') ↦
              inr (d', In-append_right d' queue (subdirs c (tree.children s c)) h, u')
        ]

  Pending-same :
      (s t : World) (queue : List Text) (f : Text)
      → tree.children t ≡ tree.children s
      → Pending t queue f ↔ Pending s queue f
  Pending-same s t queue f same =
      (λ (d, h, u). (d, h, Under-same s t same u), λ (d, h, u). (d, h, Under-same t s (sym same) u))

  no-Pending : (s : World) (f : Text) → Pending s [] f → ⊥
  no-Pending s f (d, h, u) = h

  finds :
      (files : List Text) (s : World) (f : Text)
      → In f (sort_by text_lt files) ↔ (In f files ⊎ Pending s [] f)
  finds files s f =
      let (to, from) = In-sort_by text_lt f files in
      (λ h. inl (to h), λ h. elim h [ inl x ↦ from x | inr p ↦ absurd (no-Pending s f p) ])

  walk-files :
      (fuel : ℕ) (queue files : List Text) (s : World) {result : List Text}
      → (walk fuel queue files s).0 ≡ ok result
      → (f : Text) → In f result ↔ (In f files ⊎ Pending s queue f)
  unfolding walk
  walk-files zero [] files s {result} h f =
      let same : sort_by text_lt files ≡ result = cc in
      subst (λ x. In f x ↔ (In f files ⊎ Pending s [] f)) same (finds files s f)
  walk-files (suc fuel) [] files s {result} h f =
      let same : sort_by text_lt files ≡ result = cc in
      subst (λ x. In f x ↔ (In f files ⊎ Pending s [] f)) same (finds files s f)
  walk-files zero (c ∷ queue) files s h f = cc
  walk-files (suc fuel) (c ∷ queue) files s {result} h f =
      let (entries, (t, round, h1)) =
        round-ok s c
          (λ entries. walk fuel (queue ++ subdirs c entries) (files ++ files_in c entries)) h in
      let (to, from) =
        walk-files fuel (queue ++ subdirs c entries) (files ++ files_in c entries) t h1 f in
      conclude entries t round to from
    where
      conclude :
          (entries : List Text) (t : World)
          → Round s c entries t
          → (In f result
              → In f (files ++ files_in c entries) ⊎ Pending t (queue ++ subdirs c entries) f)
          → (In f (files ++ files_in c entries) ⊎ Pending t (queue ++ subdirs c entries) f
              → In f result)
          → In f result ↔ (In f files ⊎ Pending s (c ∷ queue) f)
      conclude entries t round to from =
          let (there, back) =
            Pending-same s t (queue ++ subdirs c (tree.children s c)) f round.same in
          let to' =
            subst
              (λ z. In f result → In f (files ++ files_in c z) ⊎ Pending t (queue ++ subdirs c z) f)
              round.found to in
          let from' =
            subst
              (λ z. In f (files ++ files_in c z) ⊎ Pending t (queue ++ subdirs c z) f → In f result)
              round.found from in
          (
            λ h.
                after_round s c queue files f
                  (elim (to' h) [ inl x ↦ inl x | inr p ↦ inr (there p) ]),
            λ h.
                from' (elim (before_round s c queue files f h) [
                  | inl x ↦ inl x
                  | inr p ↦ inr (back p)
                ]),
          )

  -- A walk that succeeds gives the record files below its root: all the children of its directories
  -- that end in `.binpb` and not in `/`, and nothing else.
  pub walk_finds_all :
      (fuel : ℕ) (root : Text) (s : World) {result : List Text}
      → (walk_open_dal fuel root s).0 ≡ ok result
      → (f : Text) → In f result ↔ Under (tree.children s) f root
  walk_finds_all fuel root s h f =
      let (to, from) = walk-files fuel (root ∷ []) [] s h f in
      (λ x. only (to x), λ u. from (inr (root, inl refl, u)))
    where
      only : ⊥ ⊎ Pending s (root ∷ []) f → Under (tree.children s) f root
      only (inl wrong) = absurd wrong
      only (inr (d, inl same, u)) = subst (λ x. Under (tree.children s) f x) same u
      only (inr (d, inr wrong, u)) = absurd wrong
