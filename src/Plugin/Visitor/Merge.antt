-- ===== src/Plugin/Visitor/Merge.antt =====
-- The records after `MergePendingAliases`.
use reflect_c.Base.{
  ℕ, ◌≡◌, refl, ◌∙◌, ◌⊎◌, inl, inr, true, some, List, [], ◌∷◌, map, ==_refl, Bool-cases, IsIn,
  first, later,
}
use reflect_c.Format.{Text}
use reflect_c.Plugin.Types.{RecordInfo, EnumInfo}
use reflect_c.Plugin.Visitor.{
  PendingAliases, Visitor, merge_record, merge_loop, merge_pending_aliases, same_rd,
}
use reflect_c.Plugin.Visitor.Aliases.{
  IsIn-merge_aliases_old, IsIn-merge_aliases_new, Pending, Pending-IsIn,
}

-- Some record of the tag has the alias.
abbrev pub HasAlias : ℕ → Text → List RecordInfo → Type 0
HasAlias tag name records =
    (r : RecordInfo) × IsIn r records × (r.rd ≡ some tag) × IsIn name r.base.aliases

abbrev pub IsRecorded : ℕ → List RecordInfo → Type 0
IsRecorded tag records = (r : RecordInfo) × IsIn r records × (r.rd ≡ some tag)

-- A merge keeps what it finds.
Kept : RecordInfo → RecordInfo → Type 0
Kept r r' = (r'.rd ≡ r.rd) × ((name : Text) → IsIn name r.base.aliases → IsIn name r'.base.aliases)

merge_record-Kept :
    (tag : ℕ) (names : List Text) (r : RecordInfo) → Kept r (merge_record tag names r)
unfolding Kept
merge_record-Kept tag names r = elim (Bool-cases (same_rd r.rd tag)) [
  | inl e ↦ rw (merge_record, e) (refl, λ name h. IsIn-merge_aliases_old name names _ h)
  | inr e ↦ rw (merge_record, e) (refl, λ name h. h)
]

merge_record-same :
    (tag : ℕ) (name : Text) (names : List Text) (r : RecordInfo)
    → r.rd ≡ some tag
    → IsIn name names
    → IsIn name (merge_record tag names r).base.aliases
merge_record-same tag name names r e h =
    let same : same_rd r.rd tag ≡ true = rw e (==_refl tag) in
    rw (merge_record, same) (IsIn-merge_aliases_new name names r.base.aliases h)

IsIn-map :
    (f : RecordInfo → RecordInfo) (r : RecordInfo) (rs : List RecordInfo)
    → IsIn r rs
    → IsIn (f r) (map f rs)
IsIn-map f r [] h = elim h [ ]
IsIn-map f r (_ ∷ rs) first = first
IsIn-map f r (q ∷ rs) (later h) = later (IsIn-map f r rs h)

merge_loop-HasAlias :
    (tag : ℕ) (name : Text) (m : PendingAliases) (records : List RecordInfo) (enums : List EnumInfo)
    → HasAlias tag name records
    → HasAlias tag name (merge_loop m (records, enums)).0
unfolding merge_loop Kept
merge_loop-HasAlias tag name [] records enums h = h
merge_loop-HasAlias tag name ((key, names) ∷ m) records enums (r, isin, e, named) =
    let (same, more) = merge_record-Kept key names r in
    merge_loop-HasAlias tag name m _ _
      (merge_record key names r, IsIn-map _ r records isin, same ∙ e, more name named)

merge_loop-pending :
    (tag : ℕ) (name : Text) (names : List Text) (m : PendingAliases) (records : List RecordInfo)
    (enums : List EnumInfo)
    → IsRecorded tag records
    → IsIn name names
    → IsIn (tag, names) m
    → HasAlias tag name (merge_loop m (records, enums)).0
unfolding merge_loop Kept
merge_loop-pending tag name names [] records enums found h isin = elim isin [ ]
merge_loop-pending tag name names (_ ∷ m) records enums (r, isin, e) h first =
    merge_loop-HasAlias tag name m _ _ (
      merge_record tag names r,
      IsIn-map _ r records isin,
      (merge_record-Kept tag names r).0 ∙ e,
      merge_record-same tag name names r e h,
    )
merge_loop-pending tag name names ((key, ns) ∷ m) records enums (r, isin, e) h (later there) =
    merge_loop-pending tag name names m _ _
      (merge_record key ns r, IsIn-map _ r records isin, (merge_record-Kept key ns r).0 ∙ e) h there

-- The alias is pending, or on a record already.
abbrev pub IsNamed : ℕ → Text → Visitor → Type 0
IsNamed tag name v = Pending tag name v.pending_aliases ⊎ HasAlias tag name v.results

-- At the end it is on a record, if there is one.
pub merge_pending_aliases-HasAlias :
    (order : PendingAliases → PendingAliases) (tag : ℕ) (name : Text) (v : Visitor)
    → ((entry : ℕ × List Text) (m : PendingAliases) → IsIn entry m → IsIn entry (order m))
    → IsRecorded tag v.results
    → IsNamed tag name v
    → HasAlias tag name (merge_pending_aliases order v).results
unfolding merge_pending_aliases
merge_pending_aliases-HasAlias order tag name v all recorded (inl pending) =
    let (names, isin, named) = Pending-IsIn tag name v.pending_aliases pending in
    merge_loop-pending tag name names _ _ _ recorded named (all _ _ isin)
merge_pending_aliases-HasAlias order tag name v all recorded (inr named) =
    merge_loop-HasAlias tag name (order v.pending_aliases) v.results v.enum_results named
