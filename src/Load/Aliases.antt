-- ===== src/Load/Aliases.antt =====
-- The loop over the aliases of a type: each is one more name of its id.
use reflect_c.Base.{ℕ, ◌≡◌, refl, Option, List, [], ◌∷◌, length, Returns}
use reflect_c.Memory.{Memory}
use reflect_c.Memory.Strings.{Extends, Extends-refl, Extends-trans}
use reflect_c.Reader.{Reader}
use reflect_c.Hashtable.{Hashtable}
use reflect_c.Hashtable.Insert.{update}
use reflect_c.Format.{Text, encode_aliases}
use reflect_c.Format.Names.{add_aliases}
use reflect_c.Types.{State}
use reflect_c.Types.Register.{Names, Names-Extends, with_names, add_type_alias-Names}
use reflect_c.Load.{load_aliases}
use reflect_c.Load.Monad.{Frame}
use reflect_c.Load.Cursor.{Source, Placed, All, Cursor, frame, with_memory, string-Cursor}

module _ (src : Source) (id : ℕ) where
  open src use {place}

  -- Nothing but memory and the hash table of types has changed, and this stands for `f`.
  abbrev pub Renamed : Memory → State → List ℕ → (Text → Option ℕ) → Unit {0} × Frame → Type 0
  Renamed mem st rest f (_, fr) =
      (r' : Reader) × (mem' : Memory) × (ht : Hashtable) × (fr ≡ frame r' mem' (with_names st ht))
      × Extends mem mem'
      × Cursor src r' mem' rest
      × Names mem' ht f

  pub load_aliases-Renamed :
      {r : Reader} {mem : Memory} (st : State) (aliases : List Text) (f : Text → Option ℕ)
      (rest : List ℕ)
      → All src (Placed src) aliases
      → Cursor src r mem (encode_aliases place aliases rest)
      → Names mem st.type_hash_table f
      → Returns
          (load_aliases (length aliases) id (frame r mem st))
          (Renamed mem st rest (add_aliases aliases id f))
  unfolding load_aliases
  load_aliases-Renamed {r} {mem} st [] f rest fits c names =
      ((tt, frame r mem st), refl, (r, mem, st.type_hash_table, refl, Extends-refl mem, c, names))
  load_aliases-Renamed st (a ∷ aliases) f rest (fit, fits) c names =
      let (p, r₁, mem₁, run, named, x, c₁) =
        string-Cursor src st (encode_aliases place aliases rest) a fit c in
      let ((_, st'), run₁, (ht, is, names₁)) =
        add_type_alias-Names p a id (with_memory st mem₁) f named
          (Names-Extends x st.type_hash_table f names) in
      let (out, run₂, (r₂, mem₂, ht₂, is₂, x₂, c₂, names₂)) =
        load_aliases-Renamed {r = r₁} {mem = mem₁} (with_names st ht) aliases (update f a id) rest
          fits c₁ names₁ in
      (out, rw (run, run₁, is) run₂, (r₂, mem₂, ht₂, is₂, Extends-trans x x₂, c₂, names₂))
