-- ===== src/Hashtable/RoundTrip.antt =====
-- A lookup after an insertion.
use reflect_c.Base.{
  ℕ, ◌≡◌, sym, ◌∙◌, inl, inr, Option, some, List, if◌then◌else◌, Bool-cases, ◌===◌, Returns, ok,
}
use reflect_c.Memory.{Memory, CharPtr}
use reflect_c.Memory.Strings.{name_of}
use reflect_c.Hashtable.{HashT, Hashtable, hashtable_get, hashtable_insert}
use reflect_c.Hashtable.View.{IsValid, hashtable_get-view}
use reflect_c.Hashtable.Insert.{hashtable_insert-update}

-- On a valid hash table, for a value and a key whose names are strings in memory,
-- `hashtable_insert` returns a table in which `hashtable_get` of the key gives the value's id
-- if the two strings are equal, and else what it gave before.
pub hashtable_insert-hashtable_get :
    (mem : Memory) (ht : Hashtable) (value : HashT) (key : Option CharPtr) (s k : List ℕ)
    → IsValid mem ht
    → name_of mem value.name ≡ some s
    → name_of mem key ≡ some k
    → Returns (hashtable_insert mem ht value) (λ ht'.
      hashtable_get mem ht' key ≡ (if s === k then ok value.id else hashtable_get mem ht key))
hashtable_insert-hashtable_get mem ht value key s k valid named key_named =
    let (ht', run, (valid', kept, reads)) = hashtable_insert-update mem value s named ht valid in
    let after = hashtable_get-view mem ht' key k valid' key_named in
    let before = hashtable_get-view mem ht key k valid key_named in
    (
      ht',
      run,
      elim (Bool-cases (s === k)) [
        | inl same ↦ rw same (after ∙ rw (reads k, same))
        | inr other ↦ rw other (after ∙ rw (reads k, other) (sym before))
      ],
    )
