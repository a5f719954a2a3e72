-- ===== src/Tests/Tables.antt =====
-- The reader and the hash table on strings in memory.
use reflect_c.Base.{
  ℕ, ◌≡◌, refl, true, some, List, [], ◌∷◌, ◌++◌, arith, if◌then◌else◌, ◌===◌, Returns, ok,
}
use reflect_c.Memory.{Memory, CharPtr}
use reflect_c.Memory.Strings.{c_string}
use reflect_c.Hashtable.{HashT, hash_key, hashtable_create, hashtable_get, hashtable_insert}
use reflect_c.Hashtable.Fnv.{home, hash_key-home}
use reflect_c.Hashtable.View.{view, found, IsValid, hashtable_get-view, hashtable_create-IsValid}
use reflect_c.Hashtable.RoundTrip.{hashtable_insert-hashtable_get}
use reflect_c.Hashtable.Insert.{update, hashtable_insert-update}
use reflect_c.Reader.{Reader, advance, read_string}
use reflect_c.Reader.Encoding.{little_endian}
use reflect_c.Reader.Cursor.{At}
use reflect_c.Reader.Text.{Reads, read_string-Reads}

-- Two strings in one block, of which the second begins like the first.
abbrev strings : Memory
strings = (65 ∷ 0 ∷ 65 ∷ 66 ∷ 0 ∷ []) ∷ []

abbrev short : CharPtr
short = record { block = 0; offset = 0 }

abbrev long : CharPtr
long = record { block = 0; offset = 2 }

abbrev value : HashT
value = record { name = some short; id = 5 }

table-IsValid : IsValid strings (hashtable_create 4)
table-IsValid = hashtable_create-IsValid strings 4 (omega arith) (omega arith)

hash_key-home_example :
    hash_key strings (hashtable_create 4) (some long)
    ≡ ok (home (hashtable_create 4) (65 ∷ 66 ∷ []))
unfolding c_string hashtable_create
hash_key-home_example =
    hash_key-home strings (hashtable_create 4) (some long) (65 ∷ 66 ∷ []) (omega arith) refl

hashtable_insert-update_example :
    Returns (hashtable_insert strings (hashtable_create 4) value) (λ ht'.
      IsValid strings ht'
      × (ht'.capacity ≡ (hashtable_create 4).capacity)
      × ((q : List ℕ)
          → view strings ht' q ≡ update (view strings (hashtable_create 4)) (65 ∷ []) 5 q))
unfolding c_string
hashtable_insert-update_example =
    hashtable_insert-update strings value (65 ∷ []) refl (hashtable_create 4) table-IsValid

hashtable_get-view_example :
    hashtable_get strings (hashtable_create 4) (some long)
    ≡ ok (found (view strings (hashtable_create 4) (65 ∷ 66 ∷ [])))
unfolding c_string
hashtable_get-view_example =
    hashtable_get-view strings (hashtable_create 4) (some long) (65 ∷ 66 ∷ []) table-IsValid refl

hashtable_insert-hashtable_get_example :
    Returns (hashtable_insert strings (hashtable_create 4) value) (λ ht'.
      hashtable_get strings ht' (some long) ≡ (
        if (65 ∷ []) === (65 ∷ 66 ∷ [])
        then ok 5
        else hashtable_get strings (hashtable_create 4) (some long)))
unfolding c_string
hashtable_insert-hashtable_get_example =
    hashtable_insert-hashtable_get strings (hashtable_create 4) value (some long) (65 ∷ [])
      (65 ∷ 66 ∷ []) table-IsValid refl refl

-- A buffer that begins with the offset of a string in it, and a number.
abbrev buffer : Memory
buffer = (little_endian 8 12 ++ (little_endian 4 70000 ++ 88 ∷ 89 ∷ 0 ∷ [])) ∷ []

abbrev cursor : Reader
cursor = record { source = short; offset = 0; copy = true }

cursor-At : At buffer cursor (little_endian 8 12 ++ (little_endian 4 70000 ++ 88 ∷ 89 ∷ 0 ∷ []))
unfolding little_endian
cursor-At = record { rest = refl; fits = omega arith; inside = omega arith }

number-At : At buffer (advance cursor 8) (little_endian 4 70000 ++ 88 ∷ 89 ∷ 0 ∷ [])
unfolding little_endian
number-At = record { rest = refl; fits = omega arith; inside = omega arith }

read_string-Reads_example :
    Returns
      (read_string buffer cursor)
      (Reads buffer cursor (88 ∷ 89 ∷ []) (little_endian 4 70000 ++ 88 ∷ 89 ∷ 0 ∷ []))
unfolding c_string little_endian
read_string-Reads_example =
    read_string-Reads buffer cursor 12 (88 ∷ 89 ∷ []) (little_endian 4 70000 ++ 88 ∷ 89 ∷ 0 ∷ [])
      (omega arith) cursor-At refl
