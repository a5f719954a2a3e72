-- ===== src/Load/Composite.antt =====
-- A struct, a union or an enum with its members.
use reflect_c.Base.{
  ℕ, ◌<◌, ◌≡◌, refl, Bool, true, false, Option, some, List, [], arith, length, Returns,
}
use reflect_c.Memory.{Memory, CharPtr}
use reflect_c.Memory.Strings.{text, Extends}
use reflect_c.Reader.{Reader}
use reflect_c.Hashtable.{Hashtable}
use reflect_c.Hashtable.Insert.{update}
use reflect_c.Format.{Text, Content, fields, enumerators, encode_fields, encode_enumerators}
use reflect_c.Types.{
  enum, add_struct_type_info, add_enum_type_info, State, TypeInfoInternal, put_entry,
}
use reflect_c.Types.Describes.{
  HasHeader, HasHeader-SameHeader, HasHeader-Extends, HasContent, content_variant, field_variant,
}
use reflect_c.Types.Register.{
  Names, with_names, add_struct_type_info-Registered, add_enum_type_info-Registered,
}
use reflect_c.Load.{load_members, load_struct_fields, load_enum_fields}
use reflect_c.Load.Monad.{Frame, acting, bind}
use reflect_c.Load.Cursor.{Source, ContentFits, Cursor, frame, with_memory}
use reflect_c.Load.Members.{load_struct_fields-Filled, load_enum_fields-Filled}

-- The branch of `load_members` for a struct and for a union.
load_members_fields :
    (u : Bool) (name : CharPtr) (id size k : ℕ)
    → load_members (some (field_variant u)) name id size k
      ≡ bind (acting (add_struct_type_info name id size (field_variant u) k)) (load_struct_fields k)
unfolding load_members
load_members_fields true name id size k = refl
load_members_fields false name id size k = refl

load_members_enumerators :
    (name : CharPtr) (id size k : ℕ)
    → load_members (some enum) name id size k
      ≡ bind (acting (add_enum_type_info name id size k)) (load_enum_fields k)
unfolding load_members
load_members_enumerators name id size k = refl

abbrev pub content_count : Content → ℕ
content_count (fields u fs) = length fs
content_count (enumerators es) = length es

module _ (src : Source) where
  open src use {place}

  -- The members alone, behind their count.
  abbrev pub encode_members : Content → List ℕ → List ℕ
  encode_members (fields u fs) rest = encode_fields place fs rest
  encode_members (enumerators es) rest = encode_enumerators place es rest

  -- The type is in the table under its id and name, with all its members.
  abbrev pub Composed :
      Memory
      → State
      → (Text → Option ℕ)
      → Text
      → (id size : ℕ) → Content
      → List ℕ
      → Unit {0} × Frame
      → Type 0
  Composed mem st f n id size c rest (_, fr) =
      (r' : Reader) × (mem' : Memory) × (ht : Hashtable) × (e : TypeInfoInternal) × (fr
        ≡ frame r' mem' (put_entry (with_names st ht) id e))
      × Extends mem mem'
      × Cursor src r' mem' rest
      × Names mem ht (update f n id)
      × HasHeader mem' e id n size (content_variant c)
      × HasContent mem' e c 0

  module _ {r : Reader} {mem : Memory} (st : State) (f : Text → Option ℕ) (name : CharPtr)
      (n : Text) (id size : ℕ) (rest : List ℕ) (inside : id < length st.type_table)
      (named : text mem name ≡ some n) (names : Names mem st.type_hash_table f) where
    pub load_members-Composed :
        (c : Content)
        → ContentFits src c
        → Cursor src r mem (encode_members c rest)
        → Returns
            (load_members
              (some (content_variant c))
              name
              id
              size
              (content_count c)
              (frame r mem st))
            (Composed mem st f n id size c rest)
    load_members-Composed (fields u fs) (fits, few) c =
        let ((t, st'), run, (is_id, (ht, e, is, names', header, content))) =
          add_struct_type_info-Registered name n id size (with_memory st mem) f inside named names u
            (length fs) few in
        let (out, run', (r', mem', e', is', x, c', h, same)) =
          load_struct_fields-Filled src (with_names st ht) id inside {r = r} {mem = mem} e u [] fs
            rest fits (omega arith) c content in
        (
          out,
          rw (load_members_fields u name id size (length fs), run, is_id, is) run',
          (
            r',
            mem',
            ht,
            e',
            is',
            x,
            c',
            names',
            HasHeader-SameHeader same (HasHeader-Extends x header),
            h,
          ),
        )
    load_members-Composed (enumerators es) (fits, few) c =
        let ((t, st'), run, (is_id, (ht, e, is, names', header, content))) =
          add_enum_type_info-Registered name n id size (with_memory st mem) f inside named names
            (length es) few in
        let (out, run', (r', mem', e', is', x, c', h, same)) =
          load_enum_fields-Filled src (with_names st ht) id inside {r = r} {mem = mem} e [] es rest
            fits (omega arith) c content in
        (
          out,
          rw (load_members_enumerators name id size (length es), run, is_id, is) run',
          (
            r',
            mem',
            ht,
            e',
            is',
            x,
            c',
            names',
            HasHeader-SameHeader same (HasHeader-Extends x header),
            h,
          ),
        )
