-- ===== src/RcvLossList/Append.antt =====
-- The predicates on ranges and on their nodes, over two lists put together.
use swift_srt.Base.{
  ℕ, ◌+◌, ◌≤◌, ◌≡◌, ◌≢◌, ◌↔◌, ◌⊎◌, inl, inr, refl, sym, ap, ◌∙◌, arith, List, [], ◌∷◌, ◌++◌, Option,
  some, ltb, ◌&&◌, ◌==◌, if◌then◌else◌,
}
use swift_srt.RcvLossList.{Node}
use swift_srt.RcvLossList.Ranges.{Range, Ascends, Below, total, push, Lost}
use swift_srt.RcvLossList.Layout.{first, last, Seg, Avoids, node, at}

pub snoc_of_ne :
    (xs : List Range) → xs ≢ [] → (ys : List Range) × (u : ℕ) × (v : ℕ) × (xs ≡ ys ++ ((u, v) ∷ []))
snoc_of_ne [] h = absurd (h refl)
snoc_of_ne ((u, v) ∷ []) h = ([], u, v, refl)
snoc_of_ne ((u, v) ∷ y ∷ xs) h =
    let (ys, a, b, e) = snoc_of_ne (y ∷ xs) (λ q. cc) in ((u, v) ∷ ys, a, b, ap (◌∷◌ (u, v)) e)

pub Ascends-append :
    (b u v : ℕ) (ys zs : List Range)
    → Ascends b (ys ++ ((u, v) ∷ zs))
      ↔ Ascends b ys × Below u ys × (b ≤ u) × (u ≤ v) × Ascends (v + 1) zs
Ascends-append b u v [] zs = (λ h. (tt, tt, h.0, h.1, h.2), λ h. (h.2, h.3, h.4))
Ascends-append b u v ((p, q) ∷ ys) zs =
    let r = Ascends-append (q + 1) u v ys zs in
    (
      λ h. let (x, y, z, w, k) = r.0 h.2 in ((h.0, h.1, x), (omega arith, y), omega arith, w, k),
      λ h. (h.0.0, h.0.1, r.1 (h.0.2, h.1.1, omega arith, h.3, h.4)),
    )

pub Below-append :
    (top : ℕ) (ys zs : List Range) → Below top (ys ++ zs) ↔ Below top ys × Below top zs
Below-append top [] zs = (λ h. (tt, h), λ h. h.1)
Below-append top ((p, q) ∷ ys) zs =
    let r = Below-append top ys zs in
    (λ h. ((h.0, (r.0 h.1).0), (r.0 h.1).1), λ h. (h.0.0, r.1 (h.0.1, h.1)))

pub Lost-append : (t : ℕ) (ys zs : List Range) → Lost (ys ++ zs) t ↔ (Lost ys t ⊎ Lost zs t)
Lost-append t [] zs = (λ h. inr h, λ h. elim h [ inl x ↦ absurd x | inr x ↦ x ])
Lost-append t ((p, q) ∷ ys) zs =
    let r = Lost-append t ys zs in
    (
      λ h. elim h [
        | inl x ↦ inl (inl x)
        | inr x ↦ elim (r.0 x) [ inl y ↦ inl (inr y) | inr y ↦ inr y ]
      ],
      λ h. elim h [
        | inl x ↦ elim x [ inl y ↦ inl y | inr y ↦ inr (r.1 (inl y)) ]
        | inr x ↦ inr (r.1 (inr x))
      ],
    )

pub total-append : (ys zs : List Range) → total (ys ++ zs) ≡ total ys + total zs
total-append [] zs = omega arith
total-append ((p, q) ∷ ys) zs = omega (arith, total-append ys zs)

pub push-snoc :
    (ys : List Range) (u v s t : ℕ)
    → push (ys ++ ((u, v) ∷ [])) s t
      ≡ ys ++ (if ltb u v && v + 1 == s then (u, t) ∷ [] else (u, v) ∷ (s, t) ∷ [])
unfolding push
push-snoc [] u v s t = refl
push-snoc (x ∷ []) u v s t = refl
push-snoc (x ∷ y ∷ ys) u v s t = ap (◌∷◌ x) (push-snoc (y ∷ ys) u v s t)

module _ (c m : ℕ) where
  pub Avoids-append :
      (q : ℕ) (ys zs : List Range) → Avoids c m q (ys ++ zs) ↔ Avoids c m q ys × Avoids c m q zs
  Avoids-append q [] zs = (λ h. (tt, h), λ h. h.1)
  Avoids-append q ((a, b) ∷ ys) zs =
      let r = Avoids-append q ys zs in
      (λ h. ((h.0, (r.0 h.1).0), (r.0 h.1).1), λ h. (h.0.0, r.1 (h.0.1, h.1)))

  pub first-append :
      (ys zs : List Range) (n : Option ℕ) → first c m (ys ++ zs) n ≡ first c m ys (first c m zs n)
  first-append [] zs n = refl
  first-append ((a, b) ∷ ys) zs n = refl

  pub last-append :
      (p : Option ℕ) (ys zs : List Range) → last c m p (ys ++ zs) ≡ last c m (last c m p ys) zs
  last-append p [] zs = refl
  last-append p ((a, b) ∷ ys) zs = last-append (some (at c m a)) ys zs

  pub Seg-append :
      (a : ℕ → Node) (p : Option ℕ) (ys zs : List Range) (n : Option ℕ)
      → Seg c m a p (ys ++ zs) n ↔ Seg c m a p ys (first c m zs n) × Seg c m a (last c m p ys) zs n
  Seg-append a p [] zs n = (λ h. (tt, h), λ h. h.1)
  Seg-append a p ((u, v) ∷ ys) zs n =
      let r = Seg-append a (some (at c m u)) ys zs n in
      let e = first-append ys zs n in
      (
        λ h. ((h.0 ∙ ap (node c m u v p) e, (r.0 h.1).0), (r.0 h.1).1),
        λ h. (h.0.0 ∙ ap (node c m u v p) (sym e), r.1 (h.0.1, h.1)),
      )
