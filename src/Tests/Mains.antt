-- ===== src/Tests/Mains.antt =====
-- The example programs on that file, with an allocator that gives the same place each time.
use reflect_c.Base.{
  ℕ, zero, suc, ◌≤◌, ◌≡◌, refl, sym, ap, ◌∙◌, subst, ◌⊎◌, inl, inr, true, false, Option, none, some,
  [], ◌∷◌, arith, ◌==◌, if◌then◌else◌, Bool-cases, eq-of_==, ◌===◌, ===_refl, length, get_elem?,
  codes, ok,
}
use reflect_c.Memory.{CharPtr}
use reflect_c.Memory.Strings.{c_string}
use reflect_c.Reader.Encoding.{little_endian}
use reflect_c.Format.{Text, FieldDesc, TypeDesc}
use reflect_c.Plugin.Int.{pos}
use reflect_c.Object.{Header, Heap, Alloc, Free}
use reflect_c.Sample.{Outside, IsRead}
use reflect_c.Sample.Program.{Room, Cells, Literals, sample_main, inline_main}
use reflect_c.Sample.Objects.{KeepsRoom, Gives, IsTestStruct}
use reflect_c.Sample.Mains.{IsDemo, InMemory, demo_output, sample_main-prints, inline_main-prints}
use reflect_c.Tests.Demo.{
  int_field, int_type, test_type, test_fields, listed, place, string_bytes, file_bytes,
  literals_before, both_before, start, image,
}

abbrev zeroed : Header
zeroed = record { magic = 0; type_info_ptr = 0; size = 0; is_ptr = false }

abbrev heap : Heap
heap q = none

abbrev cells : Cells
cells q = none

-- The place is at 4096.
abbrev malloc : Alloc
malloc size h = (some 4096, λ q. if q == 4096 then some zeroed else h q)

abbrev free : Free
free p h = h

-- The block at that place has 4096 bytes while it is allocated.
abbrev extent : Option Header → ℕ
extent none = 0
extent (some h) = 4096

abbrev room : Room
room h p = extent (h p)

room-KeepsRoom : KeepsRoom room
room-KeepsRoom h p old new mapped q = elim (Bool-cases (q == p)) [
  | inl e ↦
      let same = eq-of_== q p e in let at : h q ≡ some old = ap h same ∙ mapped in rw (e, at) refl
  | inr e ↦ rw e refl
]

gives : (d : TypeDesc) → d.size ≤ 64 → (h : Heap) → Gives malloc room d h
gives d small h = record {
  place = 4096;
  heap' = λ q. if q == 4096 then some zeroed else h q;
  given = refl;
  allocates = ((zeroed, refl), λ q other. ground arith);
  below = omega arith;
  room_lem = omega arith;
}

abbrev literal : ℕ → CharPtr
literal offset = record { block = 0; offset = offset }

abbrev lit : Literals
lit = record {
  int_name = literal 0;
  struct_name = literal 4;
  a_name = literal 18;
  b_name = literal 20;
  d_name = literal 22;
}

-- A field has another name, or the offset.
abbrev Fits : Text → ℕ → FieldDesc → Type 0
Fits k offset f = ((f.name === k) ≡ false) ⊎ (f.offset ≡ offset)

Fits-offset :
    (k : Text) (offset : ℕ) (f g : FieldDesc)
    → Fits k offset f
    → some f ≡ some g
    → g.name ≡ k
    → g.offset ≡ offset
Fits-offset k offset f g (inr e) at named =
    let same : f ≡ g = cc in ap (λ (x : FieldDesc). x.offset) (sym same) ∙ e
Fits-offset k offset f g (inl other) at named =
    let same : f ≡ g = cc in
    let e : f.name ≡ k = ap (λ (x : FieldDesc). x.name) same ∙ named in
    let no : (k === k) ≡ false = subst (λ s. (s === k) ≡ false) e other in
    absurd (let yes_ = ===_refl k in cc)

offsets_of :
    (k : Text) (offset : ℕ)
    → Fits k offset (int_field (codes "a") 0)
    → Fits k offset (int_field (codes "b") 4)
    → Fits k offset (int_field (codes "d") 8)
    → (j : ℕ) (g : FieldDesc) → get_elem? test_fields j ≡ some g
    → g.name ≡ k
    → g.offset ≡ offset
offsets_of k offset a b d zero g at named = Fits-offset k offset _ g a at named
offsets_of k offset a b d (suc zero) g at named = Fits-offset k offset _ g b at named
offsets_of k offset a b d (suc (suc zero)) g at named = Fits-offset k offset _ g d at named
offsets_of k offset a b d (suc (suc (suc j))) g at named = cc at

test_type-IsTestStruct : IsTestStruct test_type
unfolding ◌===◌
test_type-IsTestStruct = record {
  is_union = false;
  members = test_fields;
  aliases = [];
  size_lem = refl;
  content = refl;
  few = omega arith;
  a_lem = record {
    index = 0;
    desc = int_field (codes "a") 0;
    at = refl;
    named = refl;
    offsets = offsets_of (codes "a") 0 (inr refl) (inl refl) (inl refl);
  };
  b_lem = record {
    index = 1;
    desc = int_field (codes "b") 4;
    at = refl;
    named = refl;
    offsets = offsets_of (codes "b") 4 (inl refl) (inr refl) (inl refl);
  };
  d_lem = record {
    index = 2;
    desc = int_field (codes "d") 8;
    at = refl;
    named = refl;
    offsets = offsets_of (codes "d") 8 (inl refl) (inl refl) (inr refl);
  };
}

demo : IsDemo listed malloc room
unfolding ◌===◌
demo = record {
  int_id = 1;
  int_desc = int_type;
  struct_id = 2;
  struct_desc = test_type;
  int_named = refl;
  int_listed = refl;
  int_size = refl;
  struct_named = refl;
  struct_listed = refl;
  struct_lem = test_type-IsTestStruct;
  int_room = gives int_type (omega arith);
  struct_room = gives test_type (omega arith);
  keeps = room-KeepsRoom;
}

literals-InMemory : InMemory (string_bytes ∷ []) lit
unfolding c_string
literals-InMemory = record {
  int_text = refl;
  struct_text = refl;
  a_text = refl;
  b_text = refl;
  d_text = refl;
}

both-InMemory : InMemory (string_bytes ∷ file_bytes ∷ []) lit
unfolding c_string
both-InMemory = record {
  int_text = refl;
  struct_text = refl;
  a_text = refl;
  b_text = refl;
  d_text = refl;
}

abbrev whole : Outside
whole = record {
  is_open = true;
  file_size = pos (length file_bytes);
  has_room = true;
  read_bytes = file_bytes;
}

whole-IsRead : IsRead whole (length file_bytes)
unfolding little_endian
whole-IsRead = record {
  opened = refl;
  sized = refl;
  some_bytes = omega arith;
  room = refl;
  whole = refl;
}

sample_main-prints_example :
    sample_main malloc free room lit whole literals_before heap cells ≡ ok (0, demo_output)
sample_main-prints_example =
    sample_main-prints listed malloc free room lit demo whole (length file_bytes) literals_before
      place heap cells whole-IsRead refl image literals-InMemory

inline_main-prints_example :
    inline_main malloc free room lit start both_before heap cells ≡ ok (0, demo_output)
inline_main-prints_example =
    inline_main-prints listed malloc free room lit demo start both_before place heap cells refl
      image both-InMemory
