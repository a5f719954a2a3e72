-- ===== src/Types/Models.antt =====
-- When the tables in memory are what a list of descriptions says.
use reflect_c.Base.{
  ℕ, ◌<◌, ◌≡◌, refl, ◌∙◌, inl, inr, Option, none, some, arith, ◌==◌, if◌then◌else◌, Bool-cases,
  length, get_or, length-set, get_or-set,
}
use reflect_c.Memory.{Memory}
use reflect_c.Memory.Strings.{Extends}
use reflect_c.Hashtable.{Hashtable}
use reflect_c.Format.{Text, TypeDesc}
use reflect_c.Types.{TypeInfoInternal, State, put_entry}
use reflect_c.Types.Describes.{Describes, Describes-Extends}
use reflect_c.Types.Register.{Names, with_names}

-- A slot of the type table holds the type that belongs there, or nothing.
abbrev pub Holds : Memory → Option TypeInfoInternal → Option TypeDesc → Type 0
Holds mem slot none = slot ≡ none
Holds mem slot (some d) = (e : TypeInfoInternal) × (slot ≡ some e) × Describes mem e d

-- `types` says which type has which id, `names` which id has which name, of `n` slots in all.
pub record Models (st : State) (types : ℕ → Option TypeDesc) (names : Text → Option ℕ) (n : ℕ)
    : Type 0 where
  pub width : length st.type_table ≡ n
  pub names_lem : Names st.memory st.type_hash_table names
  pub entries : (i : ℕ) → Holds st.memory (get_or st.type_table i none) (types i)

Holds-Extends :
    {mem mem' : Memory}
    → Extends mem mem'
    → (slot : Option TypeInfoInternal) (d : Option TypeDesc) → Holds mem slot d
    → Holds mem' slot d
Holds-Extends x slot none h = h
Holds-Extends x slot (some d) (e, is, h) = (e, is, Describes-Extends x h)

abbrev pub add_type : TypeDesc → (ℕ → Option TypeDesc) → ℕ → Option TypeDesc
add_type d types i = if i == d.id then some d else types i

-- A type is added: its slot is written, and the others stay.
pub Models-put_entry :
    {st : State} {types : ℕ → Option TypeDesc} {names : Text → Option ℕ} {n : ℕ}
    (names' : Text → Option ℕ) (mem' : Memory) (ht : Hashtable) (e : TypeInfoInternal)
    (d : TypeDesc)
    → Models st types names n
    → Extends st.memory mem'
    → d.id < n
    → Describes mem' e d
    → Names mem' ht names'
    → Models
        (put_entry (record (with_names st ht) { memory = mem' }) d.id e)
        (add_type d types)
        names'
        n
Models-put_entry {st} {types} {n} names' mem' ht e d m x inside h k = record {
  width = length-set st.type_table d.id (some e) ∙ m.width;
  names_lem = k;
  entries = λ i. elim (Bool-cases (i == d.id)) [
    | inl same ↦ rw (get_or-set st.type_table d.id i (some e) none room, same) (e, refl, h)
    | inr other ↦
        rw (get_or-set st.type_table d.id i (some e) none room, other)
          (Holds-Extends x (get_or st.type_table i none) (types i) (m.entries i))
  ];
}
  where
    room : d.id < length st.type_table
    room = omega (arith, m.width)
