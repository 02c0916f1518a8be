-- ===== src/SocketHash/Stacks.antt =====
-- A table of sockets is a stack of sockets for every ID.
use mathlib.Core.Path.{fun_ext}
use swift_srt.Base.{
  ==_refl, ◌<◌, ℕ, ◌%◌, ◌≡◌, ◌≢◌, refl, sym, ap, ◌∙◌, subst, Option, none, some, List, [], ◌∷◌,
  if◌then◌else◌, ◌==◌, set, Bool-cases, inl, inr, ℕ_discrete, eq_of_==, ==_of_ne, get-set_self,
  get-set_ne, if_true, if_false,
}
use swift_srt.SocketHash.{
  Bucket, SocketHash, init, lookup_from, lookup, insert, remove_from, remove,
}

-- The operations that change a table.
pub data Operation (U : Type 0) : Type 0 where
  inserted : ℕ → U → Operation U
  removed : ℕ → Operation U

module _ {U : Type 0} where
  -- A table after operations, of which the last is the first of the list.
  abbrev pub table : ℕ → List (Operation U) → SocketHash U
  table size [] = init U size
  table size (Operation.inserted id u ∷ os) = insert id u (table size os)
  table size (Operation.removed id ∷ os) = remove id (table size os)

  abbrev pub top : List U → Option U
  top [] = none
  top (u ∷ us) = some u

  abbrev pub below : List U → List U
  below [] = []
  below (u ∷ us) = us

  -- The stacks after the same operations.
  abbrev pub stacks : List (Operation U) → ℕ → List U
  stacks [] = λ j. []
  stacks (Operation.inserted id u ∷ os) = set (stacks os) id (u ∷ stacks os id)
  stacks (Operation.removed id ∷ os) = set (stacks os) id (below (stacks os id))

  -- The sockets of an ID in a bucket.
  abbrev pick : ℕ → List (Bucket U) → List U
  pick id [] = []
  pick id (b ∷ bs) = let rest = pick id bs in if id == b.id then b.udt ∷ rest else rest

  lookup_from-pick : (id : ℕ) (bs : List (Bucket U)) → lookup_from id bs ≡ top (pick id bs)
  unfolding lookup_from
  lookup_from-pick id [] = refl
  lookup_from-pick id (b ∷ bs) = elim (Bool-cases (id == b.id)) [
    | inl e ↦ rw e refl
    | inr e ↦ rw e (lookup_from-pick id bs)
  ]

  pick-remove_from :
      (id : ℕ) (bs : List (Bucket U)) → pick id (remove_from id bs) ≡ below (pick id bs)
  unfolding remove_from
  pick-remove_from id [] = refl
  pick-remove_from id (b ∷ bs) = elim (Bool-cases (id == b.id)) [
    | inl e ↦ rw e refl
    | inr e ↦ rw (e, e) (pick-remove_from id bs)
  ]

  pick-remove_other :
      (j id : ℕ) (bs : List (Bucket U)) → j ≢ id → pick j (remove_from id bs) ≡ pick j bs
  unfolding remove_from
  pick-remove_other j id [] h = refl
  pick-remove_other j id (b ∷ bs) h = elim (Bool-cases (id == b.id)) [
    | inl e ↦ rw (e, ==_of_ne j b.id (λ q. h (q ∙ sym (eq_of_== id b.id e)))) refl
    | inr e ↦ rw (e, pick-remove_other j id bs h) refl
  ]

  abbrev values : SocketHash U → ℕ → List U
  values h j = pick j (h.bucket (j % h.hash_size))

  values-insert :
      (id : ℕ) (u : U) (h : SocketHash U) (j : ℕ)
      → values (insert id u h) j ≡ set (values h) id (u ∷ values h id) j
  unfolding insert
  values-insert id u h j = elim (ℕ_discrete id j) [
    | yes q ↦
        subst (λ t. values (insert id u h) t ≡ set (values h) id (u ∷ values h id) t) q
          (ap (pick id) (
              get-set_self h.bucket (id % h.hash_size)
                (record { id = id; udt = u } ∷ h.bucket (id % h.hash_size)))
            ∙ if_true _ _ (==_refl id)
            ∙ sym (get-set_self (values h) id (u ∷ values h id)))
    | no d ↦ elim (ℕ_discrete (id % h.hash_size) (j % h.hash_size)) [
      | yes p ↦
          subst
            (λ t.
              pick j (
                set h.bucket (id % h.hash_size)
                  (record { id = id; udt = u } ∷ h.bucket (id % h.hash_size)) t)
              ≡ pick j (h.bucket t))
            p
            (ap (pick j) (
                get-set_self h.bucket (id % h.hash_size)
                  (record { id = id; udt = u } ∷ h.bucket (id % h.hash_size)))
              ∙ if_false _ _ (==_of_ne j id (λ e. d (sym e))))
          ∙ sym (get-set_ne (values h) id j (u ∷ values h id) d)
      | no p ↦
          ap (pick j) (
            get-set_ne h.bucket (id % h.hash_size) (j % h.hash_size)
              (record { id = id; udt = u } ∷ h.bucket (id % h.hash_size)) p)
          ∙ sym (get-set_ne (values h) id j (u ∷ values h id) d)
    ]
  ]

  values-remove :
      (id : ℕ) (h : SocketHash U) (j : ℕ)
      → values (remove id h) j ≡ set (values h) id (below (values h id)) j
  unfolding remove
  values-remove id h j = elim (ℕ_discrete id j) [
    | yes q ↦
        subst (λ t. values (remove id h) t ≡ set (values h) id (below (values h id)) t) q
          (ap (pick id) (
              get-set_self h.bucket (id % h.hash_size)
                (remove_from id (h.bucket (id % h.hash_size))))
            ∙ pick-remove_from id (h.bucket (id % h.hash_size))
            ∙ sym (get-set_self (values h) id (below (values h id))))
    | no d ↦ elim (ℕ_discrete (id % h.hash_size) (j % h.hash_size)) [
      | yes p ↦
          subst
            (λ t.
              pick j
                (set h.bucket (id % h.hash_size) (remove_from id (h.bucket (id % h.hash_size))) t)
              ≡ pick j (h.bucket t))
            p
            (ap (pick j) (
                get-set_self h.bucket (id % h.hash_size)
                  (remove_from id (h.bucket (id % h.hash_size))))
              ∙ pick-remove_other j id (h.bucket (id % h.hash_size)) (λ e. d (sym e)))
          ∙ sym (get-set_ne (values h) id j (below (values h id)) d)
      | no p ↦
          ap (pick j) (
            get-set_ne h.bucket (id % h.hash_size) (j % h.hash_size)
              (remove_from id (h.bucket (id % h.hash_size))) p)
          ∙ sym (get-set_ne (values h) id j (below (values h id)) d)
    ]
  ]

  values-stacks :
      (size : ℕ) (os : List (Operation U)) (j : ℕ) → values (table size os) j ≡ stacks os j
  unfolding init
  values-stacks size [] j = refl
  values-stacks size (Operation.inserted id u ∷ os) j =
      values-insert id u (table size os) j
      ∙ ap (λ f. set f id (u ∷ f id) j) (fun_ext (values-stacks size os))
  values-stacks size (Operation.removed id ∷ os) j =
      values-remove id (table size os) j
      ∙ ap (λ f. set f id (below (f id)) j) (fun_ext (values-stacks size os))

  -- In a table of any size but 0, lookup after any insertions and removals gives the socket that was
  -- inserted last for the ID and is not removed, where a removal takes away the last one of its ID.
  pub lookup-stacks :
      (size : ℕ) (os : List (Operation U)) (id : ℕ)
      → 0 < size
      → lookup id (table size os) ≡ top (stacks os id)
  unfolding lookup
  lookup-stacks size os id h =
      lookup_from-pick id ((table size os).bucket (id % (table size os).hash_size))
      ∙ ap top (values-stacks size os id)
