-- ===== src/Hashtable/Fnv.antt =====
-- `hash_fnv1a` on strings in memory, and the slot of a string.
use native.Mathlib.Nat.{mod-le}
use reflect_c.Base.{
  ℕ, ◌%◌, ◌^◌, ◌<◌, ◌≡◌, inl, inr, Option, none, some, List, [], ◌∷◌, arith, Option-cases, ok,
  fault, division_by_zero,
}
use reflect_c.Memory.{Memory, CharPtr}
use reflect_c.Memory.Strings.{c_string, name_of}
use reflect_c.Hashtable.{Hashtable, fnv_step, fnv_loop, hash_fnv1a, hash_key, hashtable_get}

-- FNV-1a over the characters of a string.
unfoldable pub fnv_from : ℕ → List ℕ → ℕ
fnv_from hash [] = hash
fnv_from hash (c ∷ s) = fnv_from (fnv_step hash c) s

abbrev pub fnv : List ℕ → ℕ
fnv = fnv_from 2166136261

fnv_from-lt : (hash : ℕ) (s : List ℕ) → hash < 2 ^ 32 → fnv_from hash s < 2 ^ 32
unfolding fnv_from fnv_step
fnv_from-lt hash [] h = h
fnv_from-lt hash (c ∷ s) h = fnv_from-lt (fnv_step hash c) s (omega arith)

pub fnv-lt : (s : List ℕ) → fnv s < 2 ^ 32
fnv-lt s = fnv_from-lt 2166136261 s (omega arith)

fnv_loop-fnv_from :
    (hash : ℕ) (bs s : List ℕ) → c_string bs ≡ some s → fnv_loop hash bs ≡ ok (fnv_from hash s)
unfolding c_string fnv_loop fnv_from
fnv_loop-fnv_from hash [] s h = cc
fnv_loop-fnv_from hash (c ∷ bs) s h = elim (Option-cases (c_string bs)) [
  | inl e ↦ ground arith
  | inr (s', e) ↦ ground (arith, fnv_loop-fnv_from (fnv_step hash c) bs s')
]

-- `hash_fnv1a` of a string in memory is the fold of its step over the characters, from the
-- offset basis: the hash depends neither on where the string lies nor on what lies behind it.
pub hash_fnv1a-fnv :
    (mem : Memory) (p : Option CharPtr) (s : List ℕ)
    → name_of mem p ≡ some s
    → hash_fnv1a mem p ≡ ok (fnv s)
unfolding hash_fnv1a
hash_fnv1a-fnv mem none s h = cc
hash_fnv1a-fnv mem (some p) s h = fnv_loop-fnv_from 2166136261 _ s h

-- The slot of a string in a table that is not empty. The cast to 32 bits loses nothing.
abbrev pub home : Hashtable → List ℕ → ℕ
home ht s = fnv s % ht.capacity

-- In a table of non-zero capacity the slot of a string in memory is its hash modulo the
-- capacity: the cast of the slot to 32 bits loses nothing, for any capacity of 64 bits.
pub hash_key-home :
    (mem : Memory) (ht : Hashtable) (p : Option CharPtr) (s : List ℕ)
    → 0 < ht.capacity
    → name_of mem p ≡ some s
    → hash_key mem ht p ≡ ok (home ht s)
unfolding hash_key
hash_key-home mem ht p s pos h =
    rw (hash_fnv1a-fnv mem p s h) (ground (arith, fnv-lt s, mod-le (fnv s) ht.capacity))

-- A table without buckets cannot be asked anything: the C code divides by zero.
pub hash_key-no_capacity :
    (mem : Memory) (ht : Hashtable) (p : Option CharPtr) (s : List ℕ)
    → ht.capacity ≡ 0
    → name_of mem p ≡ some s
    → hash_key mem ht p ≡ fault division_by_zero
unfolding hash_key
hash_key-no_capacity mem ht p s none_left h = rw (hash_fnv1a-fnv mem p s h) (ground arith)

pub hashtable_get-no_capacity :
    (mem : Memory) (ht : Hashtable) (p : Option CharPtr) (s : List ℕ)
    → ht.capacity ≡ 0
    → name_of mem p ≡ some s
    → hashtable_get mem ht p ≡ fault division_by_zero
unfolding hashtable_get
hashtable_get-no_capacity mem ht p s none_left h = rw (hash_key-no_capacity mem ht p s none_left h)
