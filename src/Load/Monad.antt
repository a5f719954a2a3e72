-- ===== src/Load/Monad.antt =====
-- A step of the loader: it may move the cursor and change the state, and may meet a fault.
use reflect_c.Base.{ℕ, Bool, Run, ◌>>=◌, ok}
use reflect_c.Memory.{Memory, CharPtr}
use reflect_c.Reader.{Reader, read_byte, read_bool, read_uint32_t, read_size_t, read_string}
use reflect_c.Types.{State}

-- The reader is a local of `reflect_load_bytes`, passed by address to what reads.
pub record Frame : Type 0 where
  pub reader : Reader
  pub state : State

abbrev pub Load {ℓ} : Type ℓ → Type ℓ
Load A = Frame → Run (A × Frame)

abbrev pub pure {ℓ} : {A : Type ℓ} → A → Load A
pure a f = ok (a, f)

abbrev pub bind {ℓ κ} : {A : Type ℓ} {B : Type κ} → Load A → (A → Load B) → Load B
bind m k = λ f. m f >>= λ (a, f'). k a f'

-- A read that moves the cursor alone.
abbrev reading {ℓ} : {A : Type ℓ} → (Memory → Reader → Run (A × Reader)) → Load A
reading read f = do (a, r) ← read f.state.memory f.reader; ok (a, record f { reader = r })

abbrev pub byte : Load ℕ
byte = reading read_byte

abbrev pub bool : Load Bool
bool = reading read_bool

abbrev pub uint32_t : Load ℕ
uint32_t = reading read_uint32_t

abbrev pub size_t : Load ℕ
size_t = reading read_size_t

abbrev pub string : Load CharPtr
string f = do
  (p, r, mem) ← read_string f.state.memory f.reader
  ok (p, record { reader = r; state = record f.state { memory = mem } })

-- A change of the library's state.
abbrev pub acting {ℓ} : {A : Type ℓ} → (State → Run (A × State)) → Load A
acting act f = do (a, st) ← act f.state; ok (a, record f { state = st })

-- `reader.offset = offset`
abbrev pub seek : ℕ → Load (Unit {0})
seek offset f = ok (tt, record f { reader = record f.reader { offset = offset } })
