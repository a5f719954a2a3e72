-- ===== src/Merge/Says.antt =====
-- What reflection.dat is to say of a dictionary of types, apart from the code of
-- `write_reflection_dat`.
use reflect_c.Base.{ℕ, suc, ◌≡◌, ◌≢◌, true, false, Option, none, some, List, [], ◌∷◌, IsIn}
use reflect_c.Format.{Text, FieldDesc, Enumerator, fields, enumerators, composite, Body, TypeDesc}
use reflect_c.Format as Format
use reflect_c.Plugin.Int.{ℤ, pos}
use reflect_c.Plugin.Types.{base, struct, union, enum}
use reflect_c.Merge.{FieldData, TypeData, TypeNameMap}
use reflect_c.Merge.Writes.{bits}

-- A key that may be missing is read as this value.
pub data Reads {A : Type 0} : Option A → A → A → Type 0 where
  present : {a default : A} → Reads (some a) default a
  missing : {default : A} → Reads none default default

-- As a number in the file; a missing one is 0.
abbrev pub ReadsNumber : Option ℤ → ℕ → Type 0
ReadsNumber o n = (z : ℤ) × Reads o (pos 0) z × (n ≡ bits z)

-- The keys of a dictionary differ.
pub data IsDictionary : TypeNameMap → Type 0 where
  no_keys : IsDictionary []
  new_key :
      {t : TypeData} {ts : TypeNameMap}
      → ((u : TypeData) → IsIn u ts → u.name ≢ t.name)
      → IsDictionary ts
      → IsDictionary (t ∷ ts)

-- Every entry has its place in the dictionary as its id; the one without a name is left out.
pub data Numbered : ℕ → TypeNameMap → TypeNameMap → Type 0 where
  no_entries : {k : ℕ} → Numbered k [] []
  left_out :
      {k : ℕ} {t : TypeData} {ts us : TypeNameMap}
      → t.name ≡ []
      → Numbered (suc k) ts us
      → Numbered k (t ∷ ts) us
  numbered :
      {k : ℕ} {t : TypeData} {ts us : TypeNameMap}
      → t.name ≢ []
      → Numbered (suc k) ts us
      → Numbered k (t ∷ ts) (record t { id = k } ∷ us)

-- The id of the entry of a name, if there is one.
pub data Finds : TypeNameMap → Text → Option ℕ → Type 0 where
  nowhere : {name : Text} → Finds [] name none
  here :
      {t : TypeData} {ts : TypeNameMap} {name : Text}
      → t.name ≡ name
      → Finds (t ∷ ts) name (some t.id)
  there :
      {t : TypeData} {ts : TypeNameMap} {name : Text} {found : Option ℕ}
      → t.name ≢ name
      → Finds ts name found
      → Finds (t ∷ ts) name found

module _ (us : TypeNameMap) where
  -- The id of the type of a field, or 0 for a type that is not there.
  pub data Refers (name : Text) : ℕ → Type 0 where
    known_type : {id : ℕ} → Finds us name (some id) → Refers name id
    unknown_type : Finds us name none → Refers name 0

  pub record FieldSays (f : FieldData) (d : FieldDesc) : Type 0 where
    pub name : Reads f.name [] d.name
    pub const : Reads f.const false d.is_const
    pub depth : ReadsNumber f.pdepth d.ptr_depth
    pub offset : ReadsNumber f.offset d.offset
    pub size : ReadsNumber f.arrsize d.arr_size
    pub type : Text
    pub type_lem : Reads f.type [] type
    pub refers : Refers type d.type_id

  -- A field whose type is a record that is not there is left out.
  pub data FieldsSay : List FieldData → List FieldDesc → Type 0 where
    no_fields : FieldsSay [] []
    unknown_record :
        {f : FieldData} {fs : List FieldData} {ds : List FieldDesc} {type : Text}
        → Reads f.struct false true
        → Reads f.type [] type
        → Finds us type none
        → FieldsSay fs ds
        → FieldsSay (f ∷ fs) ds
    known_record :
        {f : FieldData} {d : FieldDesc} {fs : List FieldData} {ds : List FieldDesc} {type : Text}
        {id : ℕ}
        → Reads f.type [] type
        → Finds us type (some id)
        → FieldSays f d
        → FieldsSay fs ds
        → FieldsSay (f ∷ fs) (d ∷ ds)
    no_record :
        {f : FieldData} {d : FieldDesc} {fs : List FieldData} {ds : List FieldDesc}
        → Reads f.struct false false
        → FieldSays f d
        → FieldsSay fs ds
        → FieldsSay (f ∷ fs) (d ∷ ds)

  pub data EnumeratorsSay : List FieldData → List Enumerator → Type 0 where
    no_enumerators : EnumeratorsSay [] []
    enumerator :
        {f : FieldData} {e : Enumerator} {fs : List FieldData} {es : List Enumerator}
        → Reads f.name [] e.name
        → ReadsNumber f.value e.value
        → EnumeratorsSay fs es
        → EnumeratorsSay (f ∷ fs) (e ∷ es)

  pub data BodySays (t : TypeData) : Body → Type 0 where
    base_body : t.type ≡ base → BodySays t Format.base
    struct_body :
        {fs : List FieldData} {aliases : List Text} {ds : List FieldDesc}
        → t.type ≡ struct
        → Reads t.fields [] fs
        → Reads t.aliases [] aliases
        → FieldsSay fs ds
        → BodySays t (composite (fields false ds) aliases)
    union_body :
        {fs : List FieldData} {aliases : List Text} {ds : List FieldDesc}
        → t.type ≡ union
        → Reads t.fields [] fs
        → Reads t.aliases [] aliases
        → FieldsSay fs ds
        → BodySays t (composite (fields true ds) aliases)
    enum_body :
        {fs : List FieldData} {aliases : List Text} {es : List Enumerator}
        → t.type ≡ enum
        → Reads t.fields [] fs
        → Reads t.aliases [] aliases
        → EnumeratorsSay fs es
        → BodySays t (composite (enumerators es) aliases)

  pub record TypeSays (t : TypeData) (d : TypeDesc) : Type 0 where
    pub id : d.id ≡ t.id
    pub name : d.name ≡ t.name
    pub size : ReadsNumber t.size d.size
    pub body : BodySays t d.body

  pub data TypesSay : List TypeData → List TypeDesc → Type 0 where
    no_types : TypesSay [] []
    next_type :
        {t : TypeData} {d : TypeDesc} {ts : List TypeData} {ds : List TypeDesc}
        → TypeSays t d
        → TypesSay ts ds
        → TypesSay (t ∷ ts) (d ∷ ds)

-- The types that a file of the dictionary lists, in its order.
pub record Says (dictionary : TypeNameMap) (ds : List TypeDesc) : Type 0 where
  pub entries : TypeNameMap
  pub ids : Numbered 1 dictionary entries
  pub types : TypesSay entries entries ds
