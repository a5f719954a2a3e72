-- ===== src/Owned.antt =====
-- Which strings the tables of src/reflect.c point at, and runs that keep a property of that kind.
-- A pointer is owned if its block is not among the first `lo`, those that memory had before.
pub mod Tables
pub mod Types
pub mod Load
pub mod Steps
pub mod Release
pub mod Copy
use reflect_c.Base.{
  ℕ, zero, suc, ◌+◌, ◌-◌, ◌*◌, ◌/◌, ◌%◌, ◌^◌, ◌≤◌, ◌<◌, bit_xor, ◌≡◌, refl, sym, ap, ◌∙◌, fun_ext,
  subst, ◌≢◌, ◌↔◌, ◌⊎◌, inl, inr, Bool, true, false, ◌&&◌, ◌||◌, not, Option, none, some, List, [],
  ◌∷◌, ◌++◌, map, append_assoc, append-nil, arith, ltb, ◌==◌, if◌then◌else◌, ==_refl, eq-of_==,
  Bool-cases, Option-cases, ◌===◌, ===_refl, eq-of_===, ===_iff, lt_cases, lt→ltb, length,
  get_elem?, get_or, set, take, drop, replicate, length-append, length-set, length-replicate,
  length-drop, get_elem?-set, get_elem?-get_or, get_or-set, get_or-replicate, get_or-append,
  drop-nil, drop-drop, drop-append, set-append_length, get_or-append_self, set-set, Fault, Run,
  or_fault, Returns, ◌>>=◌, Terminates, Terminates-ok, Terminates-bind, Terminates-suc,
  Terminates-pred, After, After-bind, After-if, After-any, After-ok, codes, starts_with, decimal,
  ok, fault, out_of_bounds, uninitialised, null_pointer, division_by_zero, wrong_member, trap_value,
  out_of_fuel, reached, stopped,
}
use reflect_c.Memory.{Memory, CharPtr}
use reflect_c.Hashtable.{HashT, HashBucket, Hashtable, empty_bucket}
use reflect_c.Hashtable.View.{chain, bucket_at}
use reflect_c.Types.{
  FieldInfo, EnumFieldInfo, Members, null, struct_fields, enum_fields, TypeInfoInternal, State,
}
use reflect_c.Load.Monad.{Frame}

module _ (lo : ℕ) where
  abbrev pub IsOwned : Option CharPtr → Type 0
  IsOwned none = Unit {0}
  IsOwned (some p) = lo ≤ p.block

  abbrev pub AllOwned : List HashT → Type 0
  AllOwned [] = Unit {0}
  AllOwned (e ∷ es) = IsOwned e.name × AllOwned es

  abbrev pub TableOwned : Hashtable → Type 0
  TableOwned ht = (i : ℕ) → AllOwned (chain (bucket_at ht i))

  abbrev pub FieldOwned : Option FieldInfo → Type 0
  FieldOwned none = Unit {0}
  FieldOwned (some i) = lo ≤ i.name.block

  abbrev pub EnumeratorOwned : Option EnumFieldInfo → Type 0
  EnumeratorOwned none = Unit {0}
  EnumeratorOwned (some i) = lo ≤ i.name.block

  abbrev pub MembersOwned : Members → Type 0
  MembersOwned null = Unit {0}
  MembersOwned (struct_fields slots) = (i : ℕ) → FieldOwned (get_or slots i none)
  MembersOwned (enum_fields slots) = (i : ℕ) → EnumeratorOwned (get_or slots i none)

  abbrev pub IndexOwned : Option Hashtable → Type 0
  IndexOwned none = Unit {0}
  IndexOwned (some ht) = TableOwned ht

  pub record EntryOwned (e : TypeInfoInternal) : Type 0 where
    pub name : lo ≤ e.type.name.block
    pub members : MembersOwned e.members
    pub index : IndexOwned e.field_table

  abbrev pub SlotOwned : Option TypeInfoInternal → Type 0
  SlotOwned none = Unit {0}
  SlotOwned (some e) = EntryOwned e

  pub record StateOwned (st : State) : Type 0 where
    pub entries : (i : ℕ) → SlotOwned (get_or st.type_table i none)
    pub names : TableOwned st.type_hash_table
    pub grown : lo ≤ length st.memory

  pub record FrameOwned (f : Frame) : Type 0 where
    pub state : StateOwned f.state
    pub copy : f.reader.copy ≡ true
