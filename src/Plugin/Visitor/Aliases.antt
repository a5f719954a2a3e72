-- ===== src/Plugin/Visitor/Aliases.antt =====
-- Aliases that are pending, and aliases that are merged.
use reflect_c.Base.{
  ℕ, ◌≡◌, refl, ◌∙◌, subst, inl, inr, true, false, some, List, [], ◌∷◌, ◌++◌, arith, ◌==◌, ==_refl,
  eq-of_==, Bool-cases, Option-cases, ◌===◌, eq-of_===, IsIn, IsIn-append_left, IsIn-append_right,
  first, later,
}
use reflect_c.Format.{Text}
use reflect_c.Plugin.Types.{BaseType}
use reflect_c.Plugin.Visitor.{
  PendingAliases, find_pending, erase_pending, push_pending, contains, merge_aliases,
  merge_pending_aliases_for,
}

pub IsIn-contains : (name : Text) (names : List Text) → contains name names ≡ true → IsIn name names
unfolding contains
IsIn-contains name [] h = cc h
IsIn-contains name (a ∷ names) h = elim (Bool-cases (a === name)) [
  | inl e ↦ subst (λ n. IsIn n (a ∷ names)) (eq-of_=== _ _ e) first
  | inr e ↦ later (IsIn-contains name names (let t = rw (contains, e) at h in t))
]

-- Nothing is lost in a merge.
pub IsIn-merge_aliases_old :
    (a : Text) (new target : List Text) → IsIn a target → IsIn a (merge_aliases new target)
unfolding merge_aliases
IsIn-merge_aliases_old a [] target h = h
IsIn-merge_aliases_old a (b ∷ new) target h = elim (Bool-cases (contains b target)) [
  | inl e ↦ rw (merge_aliases, e) (IsIn-merge_aliases_old a new target h)
  | inr e ↦
      rw (merge_aliases, e) (IsIn-merge_aliases_old a new _ (IsIn-append_left target (b ∷ []) h))
]

pub IsIn-merge_aliases_new :
    (a : Text) (new target : List Text) → IsIn a new → IsIn a (merge_aliases new target)
unfolding merge_aliases
IsIn-merge_aliases_new a [] target h = elim h [ ]
IsIn-merge_aliases_new a (_ ∷ new) target first = elim (Bool-cases (contains a target)) [
  | inl e ↦ rw (merge_aliases, e) (IsIn-merge_aliases_old a new target (IsIn-contains a target e))
  | inr e ↦
      rw (merge_aliases, e)
        (IsIn-merge_aliases_old a new _ (IsIn-append_right target (a ∷ []) first))
]
IsIn-merge_aliases_new a (b ∷ new) target (later h) = IsIn-merge_aliases_new a new _ h

-- The aliases that are pending for a tag.
pub Pending : ℕ → Text → PendingAliases → Type 0
Pending tag name m = (names : List Text) × (find_pending tag m ≡ some names) × IsIn name names

pub Pending-push :
    (tag : ℕ) (name : Text) (m : PendingAliases) → Pending tag name (push_pending tag name m)
unfolding Pending push_pending find_pending
Pending-push tag name [] = (name ∷ [], rw (find_pending, ==_refl tag) refl, first)
Pending-push tag name ((key, names) ∷ m) = elim (Bool-cases (key == tag)) [
  | inl e ↦ (
    names ++ name ∷ [],
    rw (push_pending, e, find_pending, e) refl,
    IsIn-append_right names (name ∷ []) first,
  )
  | inr e ↦
      let (found, at, isin) = Pending-push tag name m in
      (found, rw (push_pending, e, find_pending, e) at, isin)
]

pub Pending-push_kept :
    (tag tag' : ℕ) (name name' : Text) (m : PendingAliases)
    → Pending tag name m
    → Pending tag name (push_pending tag' name' m)
unfolding Pending push_pending find_pending
Pending-push_kept tag tag' name name' [] (names, at, isin) = cc at
Pending-push_kept tag tag' name name' ((key, ns) ∷ m) (names, at, isin) =
    elim (Bool-cases (key == tag)) [
      | inl here ↦
          let e : some ns ≡ some names = rw (find_pending, here) at at in
          let own : IsIn name ns = subst (λ l. IsIn name l) (cc) isin in
          elim (Bool-cases (key == tag')) [
            | inl e' ↦ (
              ns ++ name' ∷ [],
              rw (push_pending, e', find_pending, here) refl,
              IsIn-append_left ns (name' ∷ []) own,
            )
            | inr e' ↦ (ns, rw (push_pending, e', find_pending, here) refl, own)
          ]
      | inr there ↦
          let e : find_pending tag m ≡ some names = rw (find_pending, there) at at in
          elim (Bool-cases (key == tag')) [
            | inl e' ↦ (names, rw (push_pending, e', find_pending, there) e, isin)
            | inr e' ↦
                let (found, at', isin') =
                  Pending-push_kept tag tag' name name' m (names, e, isin) in
                (found, rw (push_pending, e', find_pending, there) at', isin')
          ]
    ]

find_pending-erase_other :
    (tag other : ℕ) (m : PendingAliases)
    → (other == tag) ≡ false
    → find_pending tag (erase_pending other m) ≡ find_pending tag m
unfolding erase_pending find_pending
find_pending-erase_other tag other [] h = refl
find_pending-erase_other tag other ((key, ns) ∷ m) h = elim (Bool-cases (key == other)) [
  | inl e ↦
      let apart : (key == tag) ≡ false = ground arith in
      rw (erase_pending, e, find_pending, apart) refl
  | inr e ↦ elim (Bool-cases (key == tag)) [
    | inl here ↦ rw (erase_pending, e, find_pending, here) refl
    | inr there ↦
        rw (erase_pending, e, find_pending, there) (find_pending-erase_other tag other m h)
  ]
]

-- The aliases of another tag stay, those of this tag go to the target.
pub Pending-merge_other :
    (tag other : ℕ) (name : Text) (m : PendingAliases) (target : BaseType)
    → (other == tag) ≡ false
    → Pending tag name m
    → Pending tag name (merge_pending_aliases_for m other target).1
unfolding Pending merge_pending_aliases_for
Pending-merge_other tag other name m target apart (names, at, isin) =
    elim (Option-cases (find_pending other m)) [
      | inl e ↦ (names, rw (merge_pending_aliases_for, e) at, isin)
      | inr (ns, e) ↦ (
        names,
        rw (merge_pending_aliases_for, e) (find_pending-erase_other tag other m apart ∙ at),
        isin,
      )
    ]

pub Pending-merge_same :
    (tag : ℕ) (name : Text) (m : PendingAliases) (target : BaseType)
    → Pending tag name m
    → IsIn name (merge_pending_aliases_for m tag target).0.aliases
unfolding Pending merge_pending_aliases_for
Pending-merge_same tag name m target (names, at, isin) =
    rw (merge_pending_aliases_for, at) (IsIn-merge_aliases_new name names target.aliases isin)

pub Pending-IsIn :
    (tag : ℕ) (name : Text) (m : PendingAliases)
    → Pending tag name m
    → (names : List Text) × IsIn (tag, names) m × IsIn name names
unfolding Pending find_pending
Pending-IsIn tag name [] (names, at, isin) = cc at
Pending-IsIn tag name ((key, ns) ∷ m) (names, at, isin) = elim (Bool-cases (key == tag)) [
  | inl e ↦
      let same : some ns ≡ some names = rw (find_pending, e) at at in
      (
        ns,
        subst (λ k. IsIn (k, ns) ((key, ns) ∷ m)) (eq-of_== _ _ e) first,
        subst (λ l. IsIn name l) (cc) isin,
      )
  | inr e ↦
      let (found, isin', at') = Pending-IsIn tag name m (names, rw (find_pending, e) at at, isin) in
      (found, later isin', at')
]
