-- ===== src/Plugin/Visit/Paths/Rounds.antt =====
-- What the loops over the fields add to a record, round by round.
use reflect_c.Base.{
  ℕ, zero, suc, ◌+◌, ◌%◌, ◌^◌, ◌≡◌, refl, sym, ap, ◌∙◌, subst, inl, inr, none, some, List, [], ◌∷◌,
  ◌++◌, append_assoc, arith, Option-cases, get_elem?, IsIn, IsIn-append_left, IsIn-append_right,
  IsIn-append_cases, Run, After, After-map, ok, reached, first, later,
}
use reflect_c.Format.{Text}
use reflect_c.Plugin.Clang.{Clang}
use reflect_c.Plugin.Types.{FieldInfo, RecordInfo, add_field}
use reflect_c.Plugin.Visit.{nested_record, byte_offset, next_prefix, or_skip}
use reflect_c.Plugin.Visit.Paths.{FieldPath, itself, inside, Stands, Found, Adds}
use reflect_c.Plugin.Visit.Paths.Nested.{
  Enters-nested_record, joined-next_prefix, Stands-later, Stands-inside,
}

module _ (C : Clang) where
  module _ (rd : C.RecordDecl) (index : ℕ) (f : C.FieldDecl) (fields : List C.FieldDecl)
      (prefix : Text) (base offset : ℕ) (fi : FieldInfo) where
    -- What the round for field `f` adds: the field, and what is inside it.
    Round : RecordInfo → RecordInfo → Type 0
    Round r r' =
        (inner : List FieldInfo) × (r' ≡ record r { fields = r.fields ++ fi ∷ inner })
        × ((g : FieldInfo) → IsIn g inner → Stands C rd index (f ∷ fields) prefix base g)
        × ((nested : C.RecordDecl) (k : ℕ) (h : C.FieldDecl) (s : Text) (o : ℕ)
              (target : C.FieldDecl)
            → nested_record C f ≡ some nested
            → get_elem? (C.fields nested) k ≡ some h
            → FieldPath C nested k h s o target
            → Found inner (next_prefix prefix (C.get_field_name f) ++ s) (offset + o))

    module _ (named : fi.name ≡ prefix ++ C.get_field_name f)
        (placed : fi.offset ≡ (base + byte_offset C rd index) % 2 ^ 64)
        (at_base : offset % 2 ^ 64 ≡ (base + byte_offset C rd index) % 2 ^ 64) where
      Round-leaf : (r : RecordInfo) → nested_record C f ≡ none → Round r (add_field r fi)
      unfolding Round
      Round-leaf r leaf =
          ([], refl, λ g h. elim h [ ], λ nested k h s o target is at path. cc (sym leaf ∙ is))

      Round-nested :
          (nested : C.RecordDecl) (r r' : RecordInfo)
          → nested_record C f ≡ some nested
          → Adds C nested 0
              (C.fields nested)
              (next_prefix prefix (C.get_field_name f))
              offset
              (add_field r fi)
              r'
          → Round r r'
      unfolding Round
      Round-nested nested r r' is a = (
        a.added,
        a.grown ∙ ap (λ fs. record r { fields = fs }) (append_assoc r.fields (fi ∷ []) a.added),
        λ g h. Stands-inside C is at_base (a.sound g h),
        λ other k h s o target is' at path.
            let e : some nested ≡ some other = sym is ∙ is' in
            let same : nested ≡ other = cc in
            a.complete k h s o target (subst (λ n. get_elem? (C.fields n) k ≡ some h) (sym same) at)
              (subst (λ i. FieldPath C nested i h s o target) (omega arith)
                (subst (λ n. FieldPath C n k h s o target) (sym same) path)),
      )

      -- Whichever the field's type is.
      Round-cases :
          (r : RecordInfo) (run : C.RecordDecl → Run RecordInfo)
          → ((nested : C.RecordDecl)
              → nested_record C f ≡ some nested
              → After
                  (Adds C nested 0
                    (C.fields nested)
                    (next_prefix prefix (C.get_field_name f))
                    offset
                    (add_field r fi))
                  (run nested))
          → After (Round r) (or_skip (nested_record C f) (ok (add_field r fi)) run)
      Round-cases r run h = elim (Option-cases (nested_record C f)) [
        | inl leaf ↦ rw leaf (reached (Round-leaf r leaf))
        | inr (nested, is) ↦ rw is (After-map (λ r' a. Round-nested nested r r' is a) (h nested is))
      ]

      -- The rounds for the other fields follow.
      Adds-cons :
          (r r₁ r' : RecordInfo)
          → Round r r₁
          → Adds C rd (index + 1) fields prefix base r₁ r'
          → Adds C rd index (f ∷ fields) prefix base r r'
      unfolding Round
      Adds-cons r r₁ r' (inner, grown, inner_sound, inner_complete) a = record {
        added = fi ∷ inner ++ a.added;
        grown =
            a.grown
            ∙ ap (λ (x : RecordInfo). record x { fields = x.fields ++ a.added }) grown
            ∙ ap (λ fs. record r { fields = fs }) (append_assoc r.fields (fi ∷ inner) a.added);
        sound = λ g h. sound_of g h;
        complete = λ place field s o target at path. complete_of place field s o target at path;
      }
        where
          own : Stands C rd index (f ∷ fields) prefix base fi
          own = record {
            place = 0;
            field = f;
            at = refl;
            name = C.get_field_name f;
            offset = byte_offset C rd index;
            target = f;
            path =
                subst (λ i. FieldPath C rd i f (C.get_field_name f) (byte_offset C rd index) f)
                  (omega arith) itself;
            named = named;
            offset_lem = placed;
          }

          sound_of :
              (g : FieldInfo)
              → IsIn g (fi ∷ inner ++ a.added)
              → Stands C rd index (f ∷ fields) prefix base g
          sound_of g first = own
          sound_of g (later h) = elim (IsIn-append_cases inner a.added h) [
            | inl here ↦ inner_sound g here
            | inr there ↦ Stands-later C (a.sound g there)
          ]

          from_path :
              (s : Text) (o : ℕ) (target : C.FieldDecl)
              → FieldPath C rd index f s o target
              → Found (fi ∷ inner ++ a.added) (prefix ++ s) (base + o)
          from_path s o target itself = (fi, first, named, placed)
          from_path s o target (inside {nested} {k} {h} {s = t} {offset = o'} is at path) =
              let (g, isin, g_named, g_placed) =
                inner_complete nested k h t o' target (Enters-nested_record C f nested is) at
                  path in
              (
                g,
                later (IsIn-append_left inner a.added isin),
                g_named ∙ joined-next_prefix C prefix (C.get_field_name f) t,
                omega (arith, g_placed, at_base),
              )

          complete_of :
              (place : ℕ) (field : C.FieldDecl) (s : Text) (o : ℕ) (target : C.FieldDecl)
              → get_elem? (f ∷ fields) place ≡ some field
              → FieldPath C rd (index + place) field s o target
              → Found (fi ∷ inner ++ a.added) (prefix ++ s) (base + o)
          complete_of zero field s o target at path =
              let same : f ≡ field = cc in
              from_path s o target (
                subst (λ i. FieldPath C rd i f s o target) (omega arith)
                  (subst (λ x. FieldPath C rd (index + 0) x s o target) (sym same) path))
          complete_of (suc place) field s o target at path =
              let (g, isin, g_named, g_placed) =
                a.complete place field s o target at
                  (subst (λ i. FieldPath C rd i field s o target) (omega arith) path) in
              (g, later (IsIn-append_right inner a.added isin), g_named, g_placed)

      -- The round for `f`, and the loop from there.
      pub rounds-Adds :
          (r : RecordInfo) (run : C.RecordDecl → Run RecordInfo)
          → ((nested : C.RecordDecl)
              → nested_record C f ≡ some nested
              → After
                  (Adds C nested 0
                    (C.fields nested)
                    (next_prefix prefix (C.get_field_name f))
                    offset
                    (add_field r fi))
                  (run nested))
          → After
              (λ (r₁ : RecordInfo).
                IsIn fi r₁.fields
                × ((r' : RecordInfo)
                    → Adds C rd (index + 1) fields prefix base r₁ r'
                    → Adds C rd index (f ∷ fields) prefix base r r'))
              (or_skip (nested_record C f) (ok (add_field r fi)) run)
      unfolding Round
      rounds-Adds r run h =
          After-map
            (λ r₁ round. (
              subst (λ (x : RecordInfo). IsIn fi x.fields) (sym round.1)
                  (IsIn-append_right r.fields (fi ∷ round.0) first),
              λ r'. Adds-cons r r₁ r' round,
            ))
            (Round-cases r run h)
