-- ===== src/Owned/Release.antt =====
-- Tables with owned pointers, in two memories that agree behind the first `lo` blocks.
use reflect_c.Base.{
  ℕ, suc, ◌≤◌, ◌≡◌, refl, ◌∙◌, subst, inl, inr, Option, none, some, List, [], ◌∷◌, get_or,
}
use reflect_c.Memory.{Memory, CharPtr}
use reflect_c.Memory.Strings.{text, name_of}
use reflect_c.Hashtable.{HashT, Hashtable}
use reflect_c.Hashtable.View
use reflect_c.Hashtable.View.{lookup, chain, bucket_at, view, Named, IsBucket}
use reflect_c.Hashtable.Fnv.{home}
use reflect_c.Format.{
  Text, FieldDesc, Enumerator, Content, fields, enumerators, Body, base, composite, TypeDesc,
}
use reflect_c.Format.Names.{member_names}
use reflect_c.Types.{FieldInfo, EnumFieldInfo, Members, TypeInfoInternal, State}
use reflect_c.Types.Describes.{
  Matches, nil, cons, FieldMatches, EnumMatches, filled, IsIndex, IsFilled, HasBody, Describes,
}
use reflect_c.Types.Models.{Models, Holds}
use reflect_c.Owned.{
  IsOwned, AllOwned, TableOwned, FieldOwned, EnumeratorOwned, MembersOwned, IndexOwned, EntryOwned,
  SlotOwned, StateOwned,
}

module _ (lo : ℕ) (mem mem' : Memory)
    (agree : (b : ℕ) → lo ≤ b → get_or mem' b [] ≡ get_or mem b []) where
  text-agree : (p : CharPtr) → lo ≤ p.block → text mem' p ≡ text mem p
  text-agree p owned = rw (agree p.block owned)

  name_of-agree : (p : Option CharPtr) → IsOwned lo p → name_of mem' p ≡ name_of mem p
  name_of-agree none owned = refl
  name_of-agree (some p) owned = text-agree p owned

  lookup-agree : (q : Text) (es : List HashT) → AllOwned lo es → lookup mem' q es ≡ lookup mem q es
  unfolding lookup
  lookup-agree q [] owned = refl
  lookup-agree q (e ∷ es) (h, hs) = rw (name_of-agree e.name h, lookup-agree q es hs)

  view-agree : (ht : Hashtable) (q : Text) → TableOwned lo ht → view mem' ht q ≡ view mem ht q
  unfolding view
  view-agree ht q owned = lookup-agree q (chain (bucket_at ht (home ht q))) (owned (home ht q))

  Named-agree : (es : List HashT) → AllOwned lo es → Named mem es → Named mem' es
  Named-agree [] owned named = tt
  Named-agree (e ∷ es) (h, hs) ((s, is, fresh), named) =
      ((s, name_of-agree e.name h ∙ is, lookup-agree s es hs ∙ fresh), Named-agree es hs named)

  IsValid-agree : (ht : Hashtable) → TableOwned lo ht → View.IsValid mem ht → View.IsValid mem' ht
  IsValid-agree ht owned v = record {
    capacity_pos = v.capacity_pos;
    width = v.width;
    named = λ i. elim (v.named i) [
      | inl empty ↦ inl empty
      | inr named ↦ inr (Named-agree (chain (bucket_at ht i)) (owned i) named)
    ];
  }

  fields-agree :
      {infos : List FieldInfo} {fs : List FieldDesc}
      → ((i : ℕ) → FieldOwned lo (get_or (filled infos 0) i none))
      → Matches (FieldMatches mem) infos fs
      → Matches (FieldMatches mem') infos fs
  fields-agree owned nil = nil
  fields-agree owned (cons {a = i} h m) =
      cons
        (record {
          name = text-agree i.name (owned 0) ∙ h.name;
          is_const = h.is_const;
          ptr_depth = h.ptr_depth;
          offset = h.offset;
          arr_size = h.arr_size;
          type_ptr = h.type_ptr;
        })
        (fields-agree (λ j. owned (suc j)) m)

  enumerators-agree :
      {infos : List EnumFieldInfo} {es : List Enumerator}
      → ((i : ℕ) → EnumeratorOwned lo (get_or (filled infos 0) i none))
      → Matches (EnumMatches mem) infos es
      → Matches (EnumMatches mem') infos es
  enumerators-agree owned nil = nil
  enumerators-agree owned (cons {a = i} h m) =
      cons (record { name = text-agree i.name (owned 0) ∙ h.name; value = h.value })
        (enumerators-agree (λ j. owned (suc j)) m)

  IsFilled-agree :
      (members : Members) (c : Content)
      → MembersOwned lo members
      → IsFilled mem members c 0
      → IsFilled mem' members c 0
  IsFilled-agree members (fields u fs) owned (infos, is, m) =
      (infos, is, fields-agree (subst (λ ms. MembersOwned lo ms) is owned) m)
  IsFilled-agree members (enumerators es) owned (infos, is, m) =
      (infos, is, enumerators-agree (subst (λ ms. MembersOwned lo ms) is owned) m)

  IsIndex-agree :
      (table : Option Hashtable) (names : List Text) (cap : ℕ)
      → IndexOwned lo table
      → IsIndex mem table names cap
      → IsIndex mem' table names cap
  IsIndex-agree table names cap owned (ht, is, inl none_left) = (ht, is, inl none_left)
  IsIndex-agree table names cap owned (ht, is, inr (pos, valid, reads)) =
      let owned_ht : TableOwned lo ht = subst (λ t. IndexOwned lo t) is owned in
      (ht, is, inr (pos, IsValid-agree ht owned_ht valid, λ q. view-agree ht q owned_ht ∙ reads q))

  HasBody-agree :
      (e : TypeInfoInternal) (b : Body) → EntryOwned lo e → HasBody mem e b → HasBody mem' e b
  HasBody-agree e base owned h = h
  HasBody-agree e (composite c aliases) owned h = record {
    members = IsFilled-agree e.members c owned.members h.members;
    index = IsIndex-agree e.field_table (member_names c) _ owned.index h.index;
    count = h.count;
  }

  Describes-agree :
      (e : TypeInfoInternal) (d : TypeDesc)
      → EntryOwned lo e
      → Describes mem e d
      → Describes mem' e d
  Describes-agree e d owned h = record {
    header = record {
      named = text-agree e.type.name owned.name ∙ h.header.named;
      id_lem = h.header.id_lem;
      size_lem = h.header.size_lem;
      variant_lem = h.header.variant_lem;
    };
    body = HasBody-agree e d.body owned h.body;
  }

  Holds-agree :
      (slot : Option TypeInfoInternal) (d : Option TypeDesc)
      → SlotOwned lo slot
      → Holds mem slot d
      → Holds mem' slot d
  Holds-agree slot none owned h = h
  Holds-agree slot (some d) owned (e, is, h) =
      (e, is, Describes-agree e d (subst (λ s. SlotOwned lo s) is owned) h)

pub Models-agree :
    {st : State} {types : ℕ → Option TypeDesc} {names : Text → Option ℕ} {n : ℕ} (lo : ℕ)
    (mem' : Memory)
    → ((b : ℕ) → lo ≤ b → get_or mem' b [] ≡ get_or st.memory b [])
    → StateOwned lo st
    → Models st types names n
    → Models (record st { memory = mem' }) types names n
Models-agree {st} {types} lo mem' agree owned m =
    let (valid, reads) = m.names_lem in
    record {
      width = m.width;
      names_lem = (
        IsValid-agree lo st.memory mem' agree st.type_hash_table owned.names valid,
        λ q. view-agree lo st.memory mem' agree st.type_hash_table q owned.names ∙ reads q,
      );
      entries = λ i.
          Holds-agree lo st.memory mem' agree (get_or st.type_table i none) (types i)
            (owned.entries i) (m.entries i);
    }
