-- ===== src/Types/Describes.antt =====
-- When an entry of the type table in memory is what a description of a type says.
use reflect_c.Base.{
  ℕ, suc, ◌+◌, ◌<◌, ◌≡◌, refl, ap, ◌∙◌, ◌⊎◌, inl, inr, Bool, Option, none, some, List, [], ◌∷◌,
  ◌++◌, map, if◌then◌else◌, length, replicate,
}
use reflect_c.Memory.{Memory}
use reflect_c.Memory.Strings.{text, Extends, text-Extends}
use reflect_c.Hashtable.{Hashtable}
use reflect_c.Hashtable.View
use reflect_c.Hashtable.View.{view, view-Extends, IsValid-Extends}
use reflect_c.Format.{
  Text, FieldDesc, Enumerator, Content, fields, enumerators, Body, base, composite, TypeDesc,
}
use reflect_c.Format.Names.{member_names, last_index}
use reflect_c.Types
use reflect_c.Types.{
  ReflectObjType, struct, union, enum, FieldInfo, EnumFieldInfo, Members, null, struct_fields,
  enum_fields, TypeInfoInternal, State,
}

pub record FieldMatches (mem : Memory) (i : FieldInfo) (f : FieldDesc) : Type 0 where
  pub name : text mem i.name ≡ some f.name
  pub is_const : i.is_const ≡ f.is_const
  pub ptr_depth : i.ptr_depth ≡ f.ptr_depth
  pub offset : i.offset ≡ f.offset
  pub arr_size : i.arr_size ≡ f.arr_size
  pub type_ptr : i.type_ptr ≡ f.type_id

pub record EnumMatches (mem : Memory) (i : EnumFieldInfo) (e : Enumerator) : Type 0 where
  pub name : text mem i.name ≡ some e.name
  pub value : i.value ≡ e.value

-- Two lists of the same length, related place by place.
pub data Matches {A B : Type 0} (R : A → B → Type 0) : List A → List B → Type 0 where
  nil : Matches R [] []
  cons :
      {a : A} {b : B} {xs : List A} {ys : List B}
      → R a b
      → Matches R xs ys
      → Matches R (a ∷ xs) (b ∷ ys)

pub Matches-map :
    {A B : Type 0} {R S : A → B → Type 0} {xs : List A} {ys : List B}
    → ((a : A) (b : B) → R a b → S a b)
    → Matches R xs ys
    → Matches S xs ys
Matches-map f nil = nil
Matches-map f (cons r m) = cons (f _ _ r) (Matches-map f m)

pub Matches-snoc :
    {A B : Type 0} {R : A → B → Type 0} {xs : List A} {ys : List B} {a : A} {b : B}
    → Matches R xs ys
    → R a b
    → Matches R (xs ++ a ∷ []) (ys ++ b ∷ [])
Matches-snoc nil r = cons r nil
Matches-snoc (cons r' m) r = cons r' (Matches-snoc m r)

pub length-Matches :
    {A B : Type 0} {R : A → B → Type 0} {xs : List A} {ys : List B}
    → Matches R xs ys
    → length xs ≡ length ys
length-Matches nil = refl
length-Matches (cons r m) = ap suc (length-Matches m)

-- An array filled from the left with `infos`, and `k` slots left.
abbrev pub filled : {A : Type 0} → List A → ℕ → List (Option A)
filled infos k = map some infos ++ replicate k none

-- A member table with room for `cap` members that finds the names at their last positions.
-- A table without room has no bucket, and cannot be asked.
abbrev pub IsIndex : Memory → Option Hashtable → List Text → ℕ → Type 0
IsIndex mem table names cap =
    (ht : Hashtable) × (table ≡ some ht)
    × ((cap ≡ 0) × (ht.capacity ≡ 0)
        ⊎ (0 < cap) × View.IsValid mem ht × ((q : Text) → view mem ht q ≡ last_index 0 names q))

abbrev pub field_variant : Bool → ReflectObjType
field_variant u = if u then union else struct

abbrev pub content_variant : Content → ReflectObjType
content_variant (fields u fs) = field_variant u
content_variant (enumerators es) = enum

-- The member array holds what the content lists, before `k` empty slots.
abbrev pub IsFilled : Memory → Members → Content → ℕ → Type 0
IsFilled mem members (fields u fs) k =
    (infos : List FieldInfo) × (members ≡ struct_fields (filled infos k))
    × Matches (FieldMatches mem) infos fs
IsFilled mem members (enumerators es) k =
    (infos : List EnumFieldInfo) × (members ≡ enum_fields (filled infos k))
    × Matches (EnumMatches mem) infos es

-- The members of an entry, `k` of them not yet read.
pub record HasContent (mem : Memory) (entry : TypeInfoInternal) (c : Content) (k : ℕ) : Type 0 where
  pub members : IsFilled mem entry.members c k
  pub index : IsIndex mem entry.field_table (member_names c) (length (member_names c) + k)
  pub count : entry.type.field_count ≡ length (member_names c)

pub record HasHeader (mem : Memory) (entry : TypeInfoInternal) (id : ℕ) (name : Text) (size : ℕ)
    (variant : ReflectObjType) : Type 0 where
  pub named : text mem entry.type.name ≡ some name
  pub id_lem : entry.type.id ≡ id
  pub size_lem : entry.type.size ≡ size
  pub variant_lem : entry.type.variant ≡ variant

abbrev pub HasBody : Memory → TypeInfoInternal → Body → Type 0
HasBody mem entry base = (entry.members ≡ null) × (entry.type.field_count ≡ 0)
HasBody mem entry (composite c aliases) = HasContent mem entry c 0

abbrev pub body_variant : Body → ReflectObjType
body_variant base = Types.base
body_variant (composite c aliases) = content_variant c

pub record Describes (mem : Memory) (entry : TypeInfoInternal) (d : TypeDesc) : Type 0 where
  pub header : HasHeader mem entry d.id d.name d.size (body_variant d.body)
  pub body : HasBody mem entry d.body

-- All of this survives as memory grows.
module _ {mem mem' : Memory} (x : Extends mem mem') where
  FieldMatches-Extends :
      {i : FieldInfo} {f : FieldDesc} → FieldMatches mem i f → FieldMatches mem' i f
  FieldMatches-Extends {i} m = record {
    name = text-Extends x i.name m.name;
    is_const = m.is_const;
    ptr_depth = m.ptr_depth;
    offset = m.offset;
    arr_size = m.arr_size;
    type_ptr = m.type_ptr;
  }

  EnumMatches-Extends :
      {i : EnumFieldInfo} {e : Enumerator} → EnumMatches mem i e → EnumMatches mem' i e
  EnumMatches-Extends {i} m = record { name = text-Extends x i.name m.name; value = m.value }

  IsFilled-Extends :
      (members : Members) (c : Content) (k : ℕ)
      → IsFilled mem members c k
      → IsFilled mem' members c k
  IsFilled-Extends members (fields u fs) k (infos, e, m) =
      (infos, e, Matches-map (λ i f. FieldMatches-Extends) m)
  IsFilled-Extends members (enumerators es) k (infos, e, m) =
      (infos, e, Matches-map (λ i f. EnumMatches-Extends) m)

  IsIndex-Extends :
      {table : Option Hashtable} (names : List Text) (cap : ℕ)
      → IsIndex mem table names cap
      → IsIndex mem' table names cap
  IsIndex-Extends names cap (ht, e, inl none_left) = (ht, e, inl none_left)
  IsIndex-Extends names cap (ht, e, inr (pos, valid, reads)) =
      (ht, e, inr (pos, IsValid-Extends x valid, λ q. view-Extends x ht q valid ∙ reads q))

  pub HasContent-Extends :
      {entry : TypeInfoInternal} (c : Content) (k : ℕ)
      → HasContent mem entry c k
      → HasContent mem' entry c k
  HasContent-Extends {entry} c k h = record {
    members = IsFilled-Extends entry.members c k h.members;
    index = IsIndex-Extends (member_names c) _ h.index;
    count = h.count;
  }

  HasBody-Extends :
      (entry : TypeInfoInternal) (b : Body) → HasBody mem entry b → HasBody mem' entry b
  HasBody-Extends entry base h = h
  HasBody-Extends entry (composite c aliases) h = HasContent-Extends c 0 h

  pub HasHeader-Extends :
      {entry : TypeInfoInternal} {id : ℕ} {name : Text} {size : ℕ} {variant : ReflectObjType}
      → HasHeader mem entry id name size variant
      → HasHeader mem' entry id name size variant
  HasHeader-Extends {entry} h = record {
    named = text-Extends x entry.type.name h.named;
    id_lem = h.id_lem;
    size_lem = h.size_lem;
    variant_lem = h.variant_lem;
  }

  pub Describes-Extends :
      {entry : TypeInfoInternal} {d : TypeDesc} → Describes mem entry d → Describes mem' entry d
  Describes-Extends {entry} {d} h = record {
    header = HasHeader-Extends h.header;
    body = HasBody-Extends entry d.body h.body;
  }

-- Two entries whose types differ at most in the number of members.
pub record SameHeader (e e' : TypeInfoInternal) : Type 0 where
  pub name : e'.type.name ≡ e.type.name
  pub id : e'.type.id ≡ e.type.id
  pub size : e'.type.size ≡ e.type.size
  pub variant : e'.type.variant ≡ e.type.variant

pub SameHeader-trans :
    {e₁ e₂ e₃ : TypeInfoInternal} → SameHeader e₁ e₂ → SameHeader e₂ e₃ → SameHeader e₁ e₃
SameHeader-trans s t = record {
  name = t.name ∙ s.name;
  id = t.id ∙ s.id;
  size = t.size ∙ s.size;
  variant = t.variant ∙ s.variant;
}

pub SameHeader-refl : (e : TypeInfoInternal) → SameHeader e e
SameHeader-refl e = record { name = refl; id = refl; size = refl; variant = refl }

pub HasHeader-SameHeader :
    {mem : Memory} {e e' : TypeInfoInternal} {id : ℕ} {name : Text} {size : ℕ}
    {variant : ReflectObjType}
    → SameHeader e e'
    → HasHeader mem e id name size variant
    → HasHeader mem e' id name size variant
HasHeader-SameHeader s h = record {
  named = rw s.name h.named;
  id_lem = s.id ∙ h.id_lem;
  size_lem = s.size ∙ h.size_lem;
  variant_lem = s.variant ∙ h.variant_lem;
}
