-- ===== src/Load/Cursor.antt =====
-- The reads of the loader from a file whose names stand where `place` says.
use reflect_c.Base.{ℕ, ◌^◌, ◌<◌, ◌≡◌, sym, ◌∙◌, subst, Bool, some, List, [], ◌∷◌, ◌++◌, length, ok}
use reflect_c.Memory.{Memory, CharPtr, add_ptr}
use reflect_c.Memory.Strings.{text, text-Extends, Extends, Extends-trans}
use reflect_c.Reader.{Reader, advance}
use reflect_c.Reader.Encoding.{little_endian}
use reflect_c.Reader.Cursor.{
  At, bool_byte, read_byte-At, read_size_t-At, read_uint32_t-At, read_bool-At,
}
use reflect_c.Reader.Text.{read_string-Reads}
use reflect_c.Format.{
  Text, FieldDesc, Enumerator, Content, fields, enumerators, Body, base, composite, TypeDesc,
}
use reflect_c.Types.{State}
use reflect_c.Types.Register.{CountFits}
use reflect_c.Load.Monad.{Frame, byte, bool, uint32_t, size_t, string}

abbrev pub with_memory : State → Memory → State
with_memory st mem = record st { memory = mem }

abbrev pub frame : Reader → Memory → State → Frame
frame r mem st = record { reader = r; state = with_memory st mem }

-- The file: the memory before the load, where the file begins, and where it has its names.
pub record Source : Type 0 where
  pub memory : Memory
  pub start : CharPtr
  pub place : Text → ℕ

module _ (src : Source) where
  -- The file has the characters of a name where it says.
  abbrev pub Placed : Text → Type 0
  Placed n = (text src.memory (add_ptr src.start (src.place n)) ≡ some n) × (src.place n < 2 ^ 64)

  abbrev pub All {ℓ} : {A : Type ℓ} → (A → Type 0) → List A → Type 0
  All P [] = Unit {0}
  All P (x ∷ xs) = P x × All P xs

  -- The numbers of a description fit their C types, and its names are in the file.
  pub record FieldFits (f : FieldDesc) : Type 0 where
    pub name : Placed f.name
    pub ptr_depth : f.ptr_depth < 2 ^ 32
    pub offset : f.offset < 2 ^ 64
    pub arr_size : f.arr_size < 2 ^ 64
    pub type_id : f.type_id < 2 ^ 64

  pub record EnumeratorFits (e : Enumerator) : Type 0 where
    pub name : Placed e.name
    pub value : e.value < 2 ^ 64

  abbrev pub ContentFits : Content → Type 0
  ContentFits (fields u fs) = All FieldFits fs × CountFits (length fs)
  ContentFits (enumerators es) = All EnumeratorFits es × CountFits (length es)

  abbrev pub BodyFits : Body → Type 0
  BodyFits base = Unit {0}
  BodyFits (composite c aliases) = ContentFits c × All Placed aliases × (length aliases < 2 ^ 64)

  -- The table has `n` entries; `id` is the index of one.
  pub record TypeFits (n : ℕ) (d : TypeDesc) : Type 0 where
    pub id : d.id < n
    pub name : Placed d.name
    pub size : d.size < 2 ^ 64
    pub body : BodyFits d.body

  -- The cursor stands in the file before `bs`, and nothing of the first memory is lost.
  pub record Cursor (r : Reader) (mem : Memory) (bs : List ℕ) : Type 0 where
    pub at : At mem r bs
    pub source : r.source ≡ src.start
    pub extends : Extends src.memory mem

  module _ {r : Reader} {mem : Memory} (st : State) (rest : List ℕ) where
    pub size_t-Cursor :
        (v : ℕ)
        → v < 2 ^ 64
        → Cursor r mem (little_endian 8 v ++ rest)
        → (size_t (frame r mem st) ≡ ok (v, frame (advance r 8) mem st))
          × Cursor (advance r 8) mem rest
    size_t-Cursor v h c =
        let (run, at) = read_size_t-At rest v h c.at in
        (rw run, record { at = at; source = c.source; extends = c.extends })

    pub uint32_t-Cursor :
        (v : ℕ)
        → v < 2 ^ 32
        → Cursor r mem (little_endian 4 v ++ rest)
        → (uint32_t (frame r mem st) ≡ ok (v, frame (advance r 4) mem st))
          × Cursor (advance r 4) mem rest
    uint32_t-Cursor v h c =
        let (run, at) = read_uint32_t-At rest v h c.at in
        (rw run, record { at = at; source = c.source; extends = c.extends })

    pub byte-Cursor :
        (b : ℕ)
        → b < 256
        → Cursor r mem (b ∷ rest)
        → (byte (frame r mem st) ≡ ok (b, frame (advance r 1) mem st))
          × Cursor (advance r 1) mem rest
    byte-Cursor b h c =
        let (run, at) = read_byte-At rest b h c.at in
        (rw run, record { at = at; source = c.source; extends = c.extends })

    pub bool-Cursor :
        (b : Bool)
        → Cursor r mem (bool_byte b ∷ rest)
        → (bool (frame r mem st) ≡ ok (b, frame (advance r 1) mem st))
          × Cursor (advance r 1) mem rest
    bool-Cursor b c =
        let (run, at) = read_bool-At rest b c.at in
        (rw run, record { at = at; source = c.source; extends = c.extends })

    -- A name is read, wherever it is put.
    pub string-Cursor :
        (n : Text)
        → Placed n
        → Cursor r mem (little_endian 8 (src.place n) ++ rest)
        → (p : CharPtr) × (r' : Reader) × (mem' : Memory) × (string (frame r mem st)
            ≡ ok (p, frame r' mem' st))
          × (text mem' p ≡ some n)
          × Extends mem mem'
          × Cursor r' mem' rest
    string-Cursor n (placed, small) c =
        let here : text mem (add_ptr r.source (src.place n)) ≡ some n =
          subst (λ s. text mem (add_ptr s (src.place n)) ≡ some n) (sym c.source)
            (text-Extends c.extends _ placed) in
        let ((p, r', mem'), run, t) =
          read_string-Reads mem r (src.place n) n rest small c.at here in
        (
          p,
          r',
          mem',
          rw run,
          t.named,
          t.extends,
          record {
            at = t.at;
            source = t.source ∙ c.source;
            extends = Extends-trans c.extends t.extends;
          },
        )
