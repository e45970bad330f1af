-- ===== src/Zfs/Dependencies/Total.antt =====
-- Where the recursion of `Dependencies` does not end.
use zsys.Prelude.{
  ℕ, zero, suc, true, false, Option, none, some, List, [], ◌∷◌, ◌++◌, ◌>>=◌, ◌≡◌, refl, sym, ap,
  ◌∙◌, inl, inr, Bool-cases,
}
use mathlib.Core.List.{Memᴰ}
use zsys.Zfs.Dataset.{Dataset}
use zsys.Zfs.Dependencies.{is_dependency, gather, dependencies}

gather-none :
    (below : Dataset → Option (List Dataset)) (d e : Dataset) (es : List Dataset)
    → Memᴰ e es
    → is_dependency d e ≡ true
    → below e ≡ none
    → gather below d es ≡ none
unfolding gather
gather-none below d e [] i y h = elim i [ ]
gather-none below d e (x ∷ es) i y h = elim (Bool-cases (is_dependency d x)) [
  | inr n ↦ elim i [
    | Memᴰ.head same ↦ absurd (differ (sym (ap (is_dependency d) same ∙ n) ∙ y))
    | Memᴰ.tail j ↦ rw (gather, n) (gather-none below d e es j y h)
  ]
  | inl z ↦ elim i [
    | Memᴰ.head same ↦ rw (gather, z, (sym (ap below same) ∙ h)) refl
    | Memᴰ.tail j ↦ rw (gather, z) (stops (below x) (gather-none below d e es j y h))
  ]
]
  where
    differ : false ≡ true → ⊥
    differ q = cc

    stops :
        (o : Option (List Dataset))
        → gather below d es ≡ none
        → (o >>= (λ deps. gather below d es >>= (λ rest. some (deps ++ x ∷ rest)))) ≡ none
    stops none k = refl
    stops (some deps) k = rw k refl

-- Where every dataset of some kind has another of this kind among those that depend on it, the
-- recursion from one of them never ends: no amount of fuel is enough.
pub dependencies_diverge :
    (all : List Dataset) (Looping : Dataset → Type 0)
    → ((d : Dataset)
        → Looping d
        → (e : Dataset) × Memᴰ e all × (is_dependency d e ≡ true) × Looping e)
    → (fuel : ℕ) (d : Dataset) → Looping d
    → dependencies fuel all d ≡ none
unfolding dependencies
dependencies_diverge all Looping next zero d l = refl
dependencies_diverge all Looping next (suc fuel) d l =
    let (e, i, y, again) = next d l in
    rw
      (
        dependencies,
        gather-none (dependencies fuel all) d e all i y
            (dependencies_diverge all Looping next fuel e again),
      )
      refl
