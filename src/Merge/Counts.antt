-- ===== src/Merge/Counts.antt =====
-- The loop over the fields of a type, and the count in front of them.
use reflect_c.Base.{
  ℕ, suc, ◌+◌, ◌≤◌, ◌≡◌, refl, sym, ap, ◌∙◌, subst, inl, inr, Bool, true, false, some, List, [],
  ◌∷◌, ◌++◌, append_assoc, append-nil, arith, ◌==◌, Bool-cases, length, take, length-append,
  drop-append, IsIn, first, later,
}
use reflect_c.Reader.Encoding.{little_endian, length-little_endian}
use reflect_c.Format.{encode_fields, encode_enumerators}
use reflect_c.Plugin.Int.{pos}
use reflect_c.Merge.{
  BinWriter, Step, FieldData, TypeNameMap, Volume, is_skipped, write_field, write_enumerator,
  write_fields, patch, write_counted,
}
use reflect_c.Merge.Writes.{Writes, write_arch_size-Writes}
use reflect_c.Merge.Encode.{encode_field-rest}
use reflect_c.Merge.Fields.{
  field_desc, field_descs, enumerator_descs, name_place, FieldFits, EnumeratorFits,
  write_field-Writes, write_enumerator-Writes,
}

module _ (types : TypeNameMap) (volume : Volume) where
  -- The loop appends these bytes, and counts so many fields.
  pub record Counts (is_enum_type : Bool) (fs : List FieldData) (bytes : List ℕ) (k : ℕ)
      : Type 0 where
    pub counts :
        (count : ℕ) (w : BinWriter)
        → w.arch ≡ 8
        → length w.written + length bytes ≤ w.capacity
        → write_fields types volume is_enum_type fs count w
          ≡ some (count + k, record w { written = w.written ++ bytes })

  Counts-nil : (e : Bool) → Counts e [] [] 0
  unfolding write_fields
  Counts-nil e = record {
    counts = λ count w is_64 room. ap some (
        ap (λ n. (n, w)) (omega arith)
        ∙ ap (λ bs. (count + 0, record w { written = bs })) (sym (append-nil w.written)));
  }

  Counts-after :
      (e : Bool) (f : FieldData) (fs : List FieldData) (step : Step) (bs cs : List ℕ) (k : ℕ)
      → Writes step bs
      → Counts e fs cs k
      → (count : ℕ) (w : BinWriter) → w.arch ≡ 8
      → length w.written + length (bs ++ cs) ≤ w.capacity
      → (w' : BinWriter) × (step w ≡ some w')
        × (write_fields types volume e fs (count + 1) w'
            ≡ some (count + suc k, record w { written = w.written ++ (bs ++ cs) }))
  Counts-after e f fs step bs cs k h r count w is_64 room =
      let total = length-append bs cs in
      let so_far = length-append w.written bs in
      (
        record w { written = w.written ++ bs },
        h.writes w is_64 (omega arith),
        r.counts (count + 1) (record w { written = w.written ++ bs }) is_64
              (omega (arith, so_far, total))
            ∙ ap some (
                ap (λ n. (n, record w { written = w.written ++ bs ++ cs })) (omega arith)
                ∙ ap (λ xs. (count + suc k, record w { written = xs }))
                    (append_assoc w.written bs cs)),
      )

  Counts-skip :
      (f : FieldData) (fs : List FieldData) (bs : List ℕ) (k : ℕ)
      → is_skipped types volume f ≡ true
      → Counts false fs bs k
      → Counts false (f ∷ fs) bs k
  unfolding write_fields
  Counts-skip f fs bs k skip r = record {
    counts = λ count w is_64 room. rw (write_fields, skip) (r.counts count w is_64 room);
  }

  Counts-field :
      (f : FieldData) (fs : List FieldData) (bs cs : List ℕ) (k : ℕ)
      → is_skipped types volume f ≡ false
      → Writes (write_field types volume f) bs
      → Counts false fs cs k
      → Counts false (f ∷ fs) (bs ++ cs) (suc k)
  unfolding write_fields
  Counts-field f fs bs cs k keep h r = record {
    counts = λ count w is_64 room.
        let (w', run, rest) =
          Counts-after false f fs (write_field types volume f) bs cs k h r count w is_64 room in
        rw (write_fields, keep, run) rest;
  }

  Counts-enumerator :
      (f : FieldData) (fs : List FieldData) (bs cs : List ℕ) (k : ℕ)
      → Writes (write_enumerator types volume f) bs
      → Counts true fs cs k
      → Counts true (f ∷ fs) (bs ++ cs) (suc k)
  unfolding write_fields
  Counts-enumerator f fs bs cs k h r = record {
    counts = λ count w is_64 room.
        let (w', run, rest) =
          Counts-after true f fs (write_enumerator types volume f) bs cs k h r count w is_64 room in
        rw (write_fields, run) rest;
  }

  Counts-≡ :
      (e : Bool) (fs : List FieldData) {bs cs : List ℕ} (k : ℕ)
      → bs ≡ cs
      → Counts e fs bs k
      → Counts e fs cs k
  Counts-≡ e fs k same h = subst (λ b. Counts e fs b k) same h

  pub write_fields-Counts :
      (fs : List FieldData)
      → ((f : FieldData) → IsIn f fs → FieldFits types volume f)
      → Counts false fs
          (encode_fields (name_place types volume) (field_descs types volume fs) [])
          (length (field_descs types volume fs))
  unfolding field_descs
  write_fields-Counts [] h = Counts-nil false
  write_fields-Counts (f ∷ fs) h =
      let rest = write_fields-Counts fs (λ g isin. h g (later isin)) in
      elim (Bool-cases (is_skipped types volume f)) [
        | inl skip ↦ rw skip (Counts-skip f fs _ _ skip rest)
        | inr keep ↦ rw keep (
            Counts-≡ false (f ∷ fs) _
              (encode_field-rest (name_place types volume) (field_desc types volume f) _)
              (Counts-field f fs _ _ _ keep (write_field-Writes types volume f (h f first)) rest))
      ]

  pub write_enumerators-Counts :
      (fs : List FieldData)
      → ((f : FieldData) → IsIn f fs → EnumeratorFits types volume f)
      → Counts true fs
          (encode_enumerators (name_place types volume) (enumerator_descs types volume fs) [])
          (length (enumerator_descs types volume fs))
  unfolding enumerator_descs
  write_enumerators-Counts [] h = Counts-nil true
  write_enumerators-Counts (f ∷ fs) h =
      let rest = write_enumerators-Counts fs (λ g isin. h g (later isin)) in
      Counts-≡ true (f ∷ fs) _ (simp (append_assoc, append-nil) refl)
        (Counts-enumerator f fs _ _ _ (write_enumerator-Writes types volume f (h f first)) rest)

  take-append : (xs ys : List ℕ) → take (length xs) (xs ++ ys) ≡ xs
  take-append [] ys = refl
  take-append (x ∷ xs) ys = ap (λ zs. x ∷ zs) (take-append xs ys)

  -- The count in the place of eight bytes.
  patch_eight :
      (w : BinWriter) (xs zeros bs : List ℕ) (k : ℕ)
      → w.arch ≡ 8
      → length zeros ≡ 8
      → patch (length xs) k (record w { written = xs ++ zeros ++ bs })
        ≡ some (record w { written = xs ++ (little_endian 8 k ++ bs) })
  unfolding patch
  patch_eight w xs zeros bs k is_64 eight =
      let wide : (w.arch == 8) ≡ true = ground arith in
      let coded = length-little_endian 8 k in
      let joined = length-append xs zeros in
      let long : length xs + length (little_endian 8 k) ≡ length (xs ++ zeros) =
        omega (arith, coded, joined, eight) in
      let before : take (length xs) (xs ++ zeros ++ bs) ≡ xs =
        ap (λ l. take (length xs) l) (append_assoc xs zeros bs) ∙ take-append xs (zeros ++ bs) in
      rw (patch, wide, before, long, drop-append (xs ++ zeros) bs)
        (ap (λ l. some (record w { written = l })) (append_assoc xs (little_endian 8 k) bs))

  pub write_counted-Writes :
      (e : Bool) (fs : List FieldData) (bs : List ℕ) (k : ℕ)
      → Counts e fs bs k
      → Writes (write_counted types volume e fs) (little_endian 8 k ++ bs)
  unfolding write_counted
  write_counted-Writes e fs bs k h = record {
    writes = λ w is_64 room.
        let zeros = little_endian 8 0 in
        let coded = length-little_endian 8 k in
        let eight = length-little_endian 8 0 in
        let total = length-append (little_endian 8 k) bs in
        let so_far = length-append w.written zeros in
        let run =
          (write_arch_size-Writes (pos 0) (omega arith)).writes w is_64
            (omega (arith, coded, eight, total)) in
        let looped =
          h.counts 0 (record w { written = w.written ++ zeros }) is_64
            (omega (arith, coded, eight, total, so_far)) in
        let counted = patch_eight w w.written zeros bs (0 + k) is_64 eight in
        rw (write_counted, run, looped)
          (counted
            ∙ ap (λ n. some (record w { written = w.written ++ (little_endian 8 n ++ bs) }))
                (omega arith));
  }
